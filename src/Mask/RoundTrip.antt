-- ===== src/Mask/RoundTrip.antt =====
-- A packet that is masked and unmasked is the packet again.
use vlite.Base.{
  ℕ, zero, suc, ◌+◌, ◌≤◌, ◌≡◌, refl, sym, ap, ◌∙◌, arith, List, [], ◌∷◌, ◌++◌, some, Bool, false,
  ltb, if◌then◌else◌, length, take, drop, length-append, take_all, drop_append,
}
use mathlib.Core.List.{append-nil}
use vlite.Mask.{
  written, Masker, buffer_size, mask_reads, mask_internal, constant_pattern, constant_xor, and_then,
  prepending, mask_layers, un_mask_layers, layered, prepend_and_xor, conn_write, conn_read,
  received, short_buffer, sent_by, read_by,
}
use vlite.Mask.Xor.{zip_xor, mask_internal-written, length-zip_xor, zip_xor_twice}

-- What a masker makes of a packet is unmasked to the packet.
pub record Undoes (m : Masker) (packet : List ℕ) : Type 0 where
  pub disguised : List ℕ
  pub masks : m.mask packet ≡ written disguised
  pub un_masks : m.un_mask disguised ≡ written packet

drop_nothing : (n : ℕ) (xs : List ℕ) → length xs ≡ n → drop n xs ≡ []
drop_nothing zero [] e = refl
drop_nothing zero (x ∷ xs) e = absurd (omega (arith, e))
drop_nothing (suc n) [] e = absurd (omega (arith, e))
drop_nothing (suc n) (x ∷ xs) e = drop_nothing n xs (omega (arith, e))

module _ (pattern : List ℕ) where
  -- The constant mask on a whole packet.
  constant_written :
      (packet : List ℕ)
      → length packet ≤ buffer_size
      → length packet ≤ length pattern
      → mask_internal (constant_pattern pattern) packet ≡ written (zip_xor packet pattern)
  unfolding mask_internal mask_reads
  constant_written [] small long = refl
  constant_written (b ∷ bs) small long =
      mask_internal-written (constant_pattern pattern) b bs (length (b ∷ bs)) pattern small refl
        (omega arith) long
      ∙ ap written (all (b ∷ bs))
    where
      all :
          (xs : List ℕ)
          → zip_xor (take (length xs) xs) pattern ++ drop (length xs) xs ≡ zip_xor xs pattern
      all xs =
          rw (take_all (length xs) xs (omega arith))
            (rw (drop_nothing (length xs) xs refl) (append-nil (zip_xor xs pattern)))

  -- A packet of at most 1600 bytes, and no longer than the pattern, comes back from `constantXor`.
  pub constant_xor-Undoes :
      (packet : List ℕ)
      → length packet ≤ buffer_size
      → length packet ≤ length pattern
      → Undoes (constant_xor pattern) packet
  unfolding constant_xor
  constant_xor-Undoes packet small long =
      let len = length-zip_xor packet pattern long in
      record {
        disguised = zip_xor packet pattern;
        masks = constant_written packet small long;
        un_masks =
            constant_written (zip_xor packet pattern) (omega (arith, len)) (omega (arith, len))
            ∙ ap written (zip_xor_twice packet pattern long);
      }

masks_constant :
    (pattern packet : List ℕ)
    → length packet ≤ buffer_size
    → length packet ≤ length pattern
    → (constant_xor pattern).mask packet ≡ written (zip_xor packet pattern)
unfolding constant_xor
masks_constant pattern packet small long = constant_written pattern packet small long

written_eq : {a b : List ℕ} → written a ≡ written b → a ≡ b
written_eq e = cc

pub prepending-Undoes : (prefix packet : List ℕ) → Undoes (prepending prefix) packet
unfolding prepending
prepending-Undoes prefix packet = record {
  disguised = prefix ++ packet;
  masks = refl;
  un_masks = ap written (drop_append prefix packet);
}

-- Each layer undoes itself on what the layers before it made of the packet.
unfoldable pub UndoesAll : List Masker → List ℕ → Type 0
UndoesAll [] packet = Unit
UndoesAll (m ∷ ms) packet = (u : Undoes m packet) × UndoesAll ms (u.disguised)

-- Layers that undo themselves one after the other do so together, in the reverse order.
pub layered-Undoes :
    (ms : List Masker) (packet : List ℕ) → UndoesAll ms packet → Undoes (layered ms) packet
unfolding layered UndoesAll mask_layers un_mask_layers
layered-Undoes [] packet all = record { disguised = packet; masks = refl; un_masks = refl }
layered-Undoes (m ∷ ms) packet (u, all) =
    let rest = layered-Undoes ms u.disguised all in
    record {
      disguised = rest.disguised;
      masks = ap (and_then (mask_layers ms)) u.masks ∙ rest.masks;
      un_masks = ap (and_then m.un_mask) rest.un_masks ∙ u.un_masks;
    }

-- The preset of the two layers.
prepend_and_xor-Undoes :
    (pattern prefix packet : List ℕ)
    → length packet ≤ buffer_size
    → length packet ≤ length pattern
    → (u : Undoes (prepend_and_xor pattern prefix) packet) × (length u.disguised
        ≡ length prefix + length packet)
unfolding prepend_and_xor layered mask_layers un_mask_layers prepending
prepend_and_xor-Undoes pattern prefix packet small long =
    let u = constant_xor-Undoes pattern packet small long in
    let same : u.disguised ≡ zip_xor packet pattern =
      written_eq (sym u.masks ∙ masks_constant pattern packet small long) in
    let len : length u.disguised ≡ length packet =
      ap (λ (l : List ℕ). length l) same ∙ length-zip_xor packet pattern long in
    (
      record {
        disguised = prefix ++ u.disguised;
        masks = ap (and_then (mask_layers (prepending prefix ∷ []))) u.masks;
        un_masks =
            ap (λ (l : List ℕ). (constant_xor pattern).un_mask l) (drop_append prefix u.disguised)
            ∙ u.un_masks;
      },
      length-append prefix u.disguised ∙ ap (λ n. length prefix + n) len,
    )

conn_read-conn_write_any :
    (m : Masker) (packet : List ℕ) (u : Undoes m packet) (size : ℕ)
    → length u.disguised ≤ 65536
    → length packet ≤ size
    → (conn_write m packet ≡ some u.disguised) × (conn_read m size u.disguised ≡ received packet)
unfolding conn_write conn_read
conn_read-conn_write_any m packet u size fits room =
    let not_short : ltb size (length packet) ≡ false = ground arith in
    (
      ap sent_by u.masks,
      ap (λ (l : List ℕ). read_by size (m.un_mask l)) (take_all 65536 u.disguised fits)
          ∙ ap (read_by size) u.un_masks
          ∙ ap (λ (b : Bool). if b then short_buffer else received packet) not_short,
    )

-- A packet of at most 1600 bytes, and no longer than the pattern of the mask, that is written to a
-- connection with the preset of the two layers is read back at the other end, if the buffer there
-- has room for it and the masked packet is no longer than 65536 bytes.
pub conn_read-conn_write :
    (pattern prefix packet : List ℕ) (size : ℕ)
    → length packet ≤ buffer_size
    → length packet ≤ length pattern
    → length packet ≤ size
    → length prefix + length packet ≤ 65536
    → (sent : List ℕ) × (conn_write (prepend_and_xor pattern prefix) packet ≡ some sent)
      × (length sent ≡ length prefix + length packet)
      × (conn_read (prepend_and_xor pattern prefix) size sent ≡ received packet)
conn_read-conn_write pattern prefix packet size small long room fits =
    let (u, len) = prepend_and_xor-Undoes pattern prefix packet small long in
    let m = prepend_and_xor pattern prefix in
    let (sends, reads) = conn_read-conn_write_any m packet u size (omega (arith, len, fits)) room in
    (u.disguised, sends, len, reads)
