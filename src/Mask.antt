-- ===== src/Mask.antt =====
-- transport/udp/packetMasker: what disguises a packet, layer by layer, and the connection that does
-- it on every packet. A reader is the bytes that it has left, as a `bytes.Reader` over a packet has;
-- a writer is a buffer, whose writes do not fail.
pub mod Xor
pub mod RoundTrip
pub mod Long
use vlite.Base.{
  ℕ, zero, suc, ◌+◌, ◌-◌, List, [], ◌∷◌, ◌++◌, Option, none, some, ltb, if◌then◌else◌, bit_xor,
  length, get_elem?, take, drop, replicate,
}

-- How a masker ends: with what it wrote and no error, with an error after what it wrote, or with an
-- index out of range, which is a panic.
pub data Masked : Type 0 where
  written : List ℕ → Masked
  failed : List ℕ → Masked
  panics : Masked

-- interfaces/masker.go.
pub record Masker : Type 0 where
  pub mask : List ℕ → Masked
  pub un_mask : List ℕ → Masked

-- `buf[i] = x`, out of range or not.
unfoldable pub set_at : List ℕ → ℕ → ℕ → List ℕ
set_at [] i x = []
set_at (b ∷ bs) zero x = x ∷ bs
set_at (b ∷ bs) (suc i) x = b ∷ set_at bs i x

-- `n` times `buf[counter] ^= pattern[counter]; counter++`. `none` is an index out of range.
unfoldable pub xor_loop : ℕ → ℕ → List ℕ → List ℕ → Option (ℕ × List ℕ)
xor_loop zero counter pattern buf = some (counter, buf)
xor_loop (suc n) counter pattern buf = elim (get_elem? buf counter) [
  | none ↦ none
  | some b ↦ elim (get_elem? pattern counter) [
    | none ↦ none
    | some p ↦ xor_loop n (counter + 1) pattern (set_at buf counter (bit_xor b p))
  ]
]

-- The variables of the loop over the reads. `counter` is not set back between them.
pub record XorState : Type 0 where
  pub counter : ℕ
  pub buf : List ℕ
  pub polymask : List ℕ
  pub output : List ℕ

-- `Read(buf[:])` into the buffer of 1600 bytes.
abbrev pub buffer_size : ℕ
buffer_size = 1600

abbrev pub read_into : List ℕ → List ℕ → List ℕ
read_into chunk buf = chunk ++ drop (length chunk) buf

-- From what was read and the mask that the read before used: how many bytes are masked, and the mask
-- for them. `none` is a panic before the loop.
abbrev pub Pattern : Type 0
Pattern = List ℕ → List ℕ → Option (ℕ × List ℕ)

abbrev pub mask_chunk : Pattern → List ℕ → XorState → Option XorState
mask_chunk pattern chunk s = elim (pattern chunk s.polymask) [
  | none ↦ none
  | some (n, p) ↦ elim (xor_loop n s.counter p (read_into chunk s.buf)) [
    | none ↦ none
    | some (counter, buf) ↦ some (record {
      counter = counter;
      buf = buf;
      polymask = p;
      output = s.output ++ take (length chunk) buf;
    })
  ]
]

-- The reads, with fuel: each but the last takes at least one byte.
unfoldable pub mask_reads : ℕ → Pattern → List ℕ → XorState → Masked
mask_reads zero pattern input s = panics
mask_reads (suc fuel) pattern [] s = written s.output
mask_reads (suc fuel) pattern (b ∷ bs) s = elim (mask_chunk pattern (take buffer_size (b ∷ bs)) s) [
  | none ↦ panics
  | some s1 ↦ mask_reads fuel pattern (drop buffer_size (b ∷ bs)) s1
]

unfoldable pub mask_internal : Pattern → List ℕ → Masked
mask_internal pattern input = mask_reads (suc (length input)) pattern input (record {
  counter = 0;
  buf = replicate buffer_size 0;
  polymask = replicate buffer_size 0;
  output = [];
})

-- constantXor: every byte, with the pattern that `prepare` took from the seed.
abbrev pub constant_pattern : List ℕ → Pattern
constant_pattern pattern chunk previous = some (length chunk, pattern)

unfoldable pub constant_xor : List ℕ → Masker
constant_xor pattern = record {
  mask = mask_internal (constant_pattern pattern);
  un_mask = mask_internal (constant_pattern pattern);
}

-- polyxor: all bytes but the last 16 of a read, which seed the mask. `crc` is the checksum and
-- `rand_read seed n` the first `n` bytes of the random source, which `polymask` gets.
pub record PolySource : Type 0 where
  pub poly : ℕ
  pub crc : List ℕ → ℕ
  pub rand_read : ℕ → ℕ → List ℕ

abbrev pub poly_pattern : PolySource → Pattern
poly_pattern source chunk previous =
    let n = length chunk in
    if ltb n 16
    then none
    else some (
      n - 16,
      source.rand_read (bit_xor source.poly (source.crc (drop (n - 16) chunk))) n
          ++ drop n previous,
    )

unfoldable pub poly_xor : PolySource → Masker
poly_xor source = record {
  mask = mask_internal (poly_pattern source);
  un_mask = mask_internal (poly_pattern source);
}

-- prepend: a pattern that does not match is only printed.
unfoldable pub prepending : List ℕ → Masker
prepending pattern = record {
  mask = λ input. written (pattern ++ input);
  un_mask = λ input. written (drop (length pattern) input);
}

-- layers: each layer on what the one before it wrote, and back in the reverse order.
abbrev pub and_then : (List ℕ → Masked) → Masked → Masked
and_then f (written bytes) = f bytes
and_then f (failed bytes) = failed []
and_then f panics = panics

unfoldable pub mask_layers : List Masker → List ℕ → Masked
mask_layers [] content = written content
mask_layers (m ∷ ms) content = and_then (mask_layers ms) (m.mask content)

unfoldable pub un_mask_layers : List Masker → List ℕ → Masked
un_mask_layers [] content = written content
un_mask_layers (m ∷ ms) content = and_then m.un_mask (un_mask_layers ms content)

unfoldable pub layered : List Masker → Masker
layered ms = record { mask = mask_layers ms; un_mask = un_mask_layers ms }

-- presets: `GetPrependAndXorMask`, `GetPrependAndPolyXorMask` and `GetRawMask`.
unfoldable pub prepend_and_xor : List ℕ → List ℕ → Masker
prepend_and_xor pattern prefix = layered (constant_xor pattern ∷ prepending prefix ∷ [])

unfoldable pub prepend_and_poly_xor : PolySource → List ℕ → List ℕ → Masker
prepend_and_poly_xor source pattern prefix =
    layered (poly_xor source ∷ constant_xor pattern ∷ prepending prefix ∷ [])

unfoldable pub raw_mask : Masker
raw_mask = layered []

-- masker2conn: a write gives the masked packet; an error is printed, and what was written is sent.
abbrev pub sent_by : Masked → Option (List ℕ)
sent_by (written bytes) = some bytes
sent_by (failed bytes) = some bytes
sent_by panics = none

unfoldable pub conn_write : Masker → List ℕ → Option (List ℕ)
conn_write m b = sent_by (m.mask b)

-- A read into a buffer of `size` bytes, from a packet of the connection.
pub data ReadResult : Type 0 where
  received : List ℕ → ReadResult
  short_buffer : ReadResult
  read_panics : ReadResult

abbrev pub copied : ℕ → List ℕ → ReadResult
copied size bytes = if ltb size (length bytes) then short_buffer else received bytes

abbrev pub read_by : ℕ → Masked → ReadResult
read_by size (written bytes) = copied size bytes
read_by size (failed bytes) = copied size bytes
read_by size panics = read_panics

unfoldable pub conn_read : Masker → ℕ → List ℕ → ReadResult
conn_read m size packet = read_by size (m.un_mask (take 65536 packet))
