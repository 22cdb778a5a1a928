-- ===== src/Mask/Long.antt =====
-- A packet of more than 1600 bytes: the counter of the loop has run out of the buffer.
use vlite.Base.{
  ℕ, zero, suc, ◌≤◌, ◌<◌, ◌≡◌, refl, ap, ◌∙◌, arith, List, [], ◌∷◌, Option, none, some, length,
  get_elem?, take, drop, replicate, length-append, length-take, length-drop,
}
use vlite.Mask.{
  panics, buffer_size, xor_loop, XorState, read_into, mask_chunk, mask_reads, mask_internal,
  constant_pattern, constant_xor,
}
use vlite.Mask.Xor.{after_read, one_chunk, length-buf}

get_elem?-none : (xs : List ℕ) (i : ℕ) → length xs ≤ i → get_elem? xs i ≡ none
get_elem?-none [] i le = refl
get_elem?-none (x ∷ xs) zero le = absurd (omega (arith, le))
get_elem?-none (x ∷ xs) (suc i) le = get_elem?-none xs i (omega (arith, le))

xor_loop-none : (n c : ℕ) (p buf : List ℕ) → length buf ≤ c → xor_loop (suc n) c p buf ≡ none
xor_loop-none n c p buf le = unfold xor_loop in rw (get_elem?-none buf c le, xor_loop) refl

-- A read of at least one byte, after the counter has come to the end of the buffer.
mask_chunk-none :
    (pattern : List ℕ) (b : ℕ) (bs : List ℕ) (s : XorState)
    → length (b ∷ bs) ≤ buffer_size
    → length s.buf ≡ buffer_size
    → s.counter ≡ buffer_size
    → mask_chunk (constant_pattern pattern) (b ∷ bs) s ≡ none
mask_chunk-none pattern b bs s small full at =
    rw (xor_loop-none (length bs) s.counter pattern (read_into (b ∷ bs) s.buf) long, mask_chunk)
      refl
  where
    long : length (read_into (b ∷ bs) s.buf) ≤ s.counter
    long = omega (
      arith,
      length-append (b ∷ bs) (drop (length (b ∷ bs)) s.buf),
      length-drop (length (b ∷ bs)) s.buf,
      small,
      full,
      at,
    )

mask_reads-panics :
    (fuel : ℕ) (pattern rest : List ℕ) (s : XorState)
    → 1 ≤ length rest
    → length s.buf ≡ buffer_size
    → s.counter ≡ buffer_size
    → mask_reads (suc fuel) (constant_pattern pattern) rest s ≡ panics
unfolding mask_reads
mask_reads-panics fuel pattern [] s some_left full at = absurd (omega (arith, some_left))
mask_reads-panics fuel pattern (b ∷ bs) s some_left full at =
    ap
      (λ (o : Option XorState). elim o [
        | none ↦ panics
        | some s1 ↦ mask_reads fuel (constant_pattern pattern) (drop buffer_size (b ∷ bs)) s1
      ])
      (mask_chunk-none pattern b (take 1599 bs) s (omega (arith, length-take 1599 bs)) full at)

-- A packet of more than 1600 bytes is not masked: `constantXor` indexes its buffer out of range, which
-- is a panic. The pattern is as long as a whole read.
pub constant_xor-panics :
    (pattern packet : List ℕ)
    → buffer_size < length packet
    → buffer_size ≤ length pattern
    → (constant_xor pattern).mask packet ≡ panics
unfolding constant_xor mask_internal mask_reads
constant_xor-panics pattern [] long enough = absurd (omega (arith, long))
constant_xor-panics pattern (b ∷ bs) long enough =
    ap
      (λ (o : Option XorState). elim o [
        | none ↦ panics
        | some s2 ↦
            mask_reads (suc (length bs)) (constant_pattern pattern) (drop buffer_size (b ∷ bs)) s2
      ])
      (one_chunk (constant_pattern pattern) chunk 1600 pattern small chosen exact enough)
    ∙ mask_reads-panics (length bs) pattern (drop buffer_size (b ∷ bs)) s1 left full refl
  where
    chunk : List ℕ
    chunk = take buffer_size (b ∷ bs)

    len : length chunk ≡ 1600
    len = length-take buffer_size (b ∷ bs) ∙ omega (arith, long)

    small : length chunk ≤ buffer_size
    small = omega (arith, len)

    exact : 1600 ≤ length chunk
    exact = omega (arith, len)

    chosen : constant_pattern pattern chunk (replicate buffer_size 0) ≡ some (1600, pattern)
    chosen = ap (λ n. some (n, pattern)) len

    s1 : XorState
    s1 = after_read (constant_pattern pattern) chunk 1600 pattern small chosen exact enough

    left : 1 ≤ length (drop buffer_size (b ∷ bs))
    left = omega (arith, length-drop buffer_size (b ∷ bs), long)

    full : length s1.buf ≡ buffer_size
    full = length-buf (constant_pattern pattern) chunk 1600 pattern small chosen exact enough
