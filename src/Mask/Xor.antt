-- ===== src/Mask/Xor.antt =====
-- What one call of `maskInternal` writes for a packet of at most 1600 bytes.
use vlite.Base.{
  ℕ, zero, suc, ◌+◌, ◌≤◌, ◌≡◌, refl, sym, ap, ◌∙◌, subst, arith, List, [], ◌∷◌, ◌++◌, Option, none,
  some, bit_xor, length, get_elem?, take, drop, replicate, length-append, length-take, length-drop,
  length-replicate, take-append-drop, take_all, drop_all, take_append,
}
use vlite.Base.Bits.{bit_xor_twice}
use mathlib.Core.List.{append_assoc}
use vlite.Mask.{
  written, panics, Pattern, buffer_size, set_at, xor_loop, XorState, read_into, mask_chunk,
  mask_reads, mask_internal,
}

-- The bytes against the mask, byte by byte, as far as both go.
abbrev pub zip_xor : List ℕ → List ℕ → List ℕ
zip_xor [] ps = []
zip_xor (b ∷ bs) [] = []
zip_xor (b ∷ bs) (p ∷ ps) = bit_xor b p ∷ zip_xor bs ps

abbrev shifted : ℕ → Option (ℕ × List ℕ) → Option (ℕ × List ℕ)
shifted b none = none
shifted b (some (c, buf)) = some (suc c, b ∷ buf)

-- The loop does not look at what lies before its counter.
xor_loop_shift :
    (n c p b : ℕ) (ps bs : List ℕ)
    → xor_loop n (suc c) (p ∷ ps) (b ∷ bs) ≡ shifted b (xor_loop n c ps bs)
unfolding xor_loop set_at
xor_loop_shift zero c p b ps bs = refl
xor_loop_shift (suc n) c p b ps bs =
    step
      (λ ps' bs'.
        subst (λ k. xor_loop n k (p ∷ ps') (b ∷ bs') ≡ shifted b (xor_loop n (c + 1) ps' bs'))
          {x = suc (c + 1)} {y = suc c + 1} (omega arith) (xor_loop_shift n (c + 1) p b ps' bs'))
      (get_elem? bs c) (get_elem? ps c)
  where
    step :
        ((ps' bs' : List ℕ)
          → xor_loop n (suc c + 1) (p ∷ ps') (b ∷ bs') ≡ shifted b (xor_loop n (c + 1) ps' bs'))
        → (x y : Option ℕ)
        → elim x [
          | none ↦ none
          | some v ↦ elim y [
            | none ↦ none
            | some q ↦ xor_loop n (suc c + 1) (p ∷ ps) (b ∷ set_at bs c (bit_xor v q))
          ]
        ]
          ≡ shifted b (elim x [
            | none ↦ none
            | some v ↦ elim y [
              | none ↦ none
              | some q ↦ xor_loop n (c + 1) ps (set_at bs c (bit_xor v q))
            ]
          ])
    step ih none y = refl
    step ih (some v) none = refl
    step ih (some v) (some q) = ih ps (set_at bs c (bit_xor v q))

xor_loop_lem :
    (todo rest ps : List ℕ)
    → length todo ≤ length ps
    → xor_loop (length todo) 0 ps (todo ++ rest) ≡ some (length todo, zip_xor todo ps ++ rest)
unfolding xor_loop set_at
xor_loop_lem [] rest ps le = refl
xor_loop_lem (b ∷ bs) rest [] le = absurd (omega (arith, le))
xor_loop_lem (b ∷ bs) rest (p ∷ ps) le =
    xor_loop_shift (length bs) 0 p (bit_xor b p) ps (bs ++ rest)
    ∙ ap (shifted (bit_xor b p)) (xor_loop_lem bs rest ps (omega (arith, le)))

pub length-zip_xor : (bs ps : List ℕ) → length bs ≤ length ps → length (zip_xor bs ps) ≡ length bs
length-zip_xor [] ps le = refl
length-zip_xor (b ∷ bs) [] le = absurd (omega (arith, le))
length-zip_xor (b ∷ bs) (p ∷ ps) le = ap suc (length-zip_xor bs ps (omega (arith, le)))

pub zip_xor_twice : (bs ps : List ℕ) → length bs ≤ length ps → zip_xor (zip_xor bs ps) ps ≡ bs
zip_xor_twice [] ps le = refl
zip_xor_twice (b ∷ bs) [] le = absurd (omega (arith, le))
zip_xor_twice (b ∷ bs) (p ∷ ps) le =
    rw (bit_xor_twice b p) (ap (λ (l : List ℕ). b ∷ l) (zip_xor_twice bs ps (omega (arith, le))))

length_first : (n : ℕ) (xs : List ℕ) → n ≤ length xs → length (take n xs) ≡ n
length_first n xs le = length-take n xs ∙ omega (arith, le)

module _ (pattern : Pattern) (input : List ℕ) (n : ℕ) (p : List ℕ)
    (small : length input ≤ buffer_size)
    (chosen : pattern input (replicate buffer_size 0) ≡ some (n, p)) (n_le : n ≤ length input)
    (n_le_p : n ≤ length p) where
  abbrev pub start : XorState
  start = record {
    counter = 0;
    buf = replicate buffer_size 0;
    polymask = replicate buffer_size 0;
    output = [];
  }

  abbrev pub zeros : List ℕ
  zeros = drop (length input) (replicate buffer_size 0)

  abbrev pub masked : List ℕ
  masked = zip_xor (take n input) p ++ drop n input

  abbrev pub after_read : XorState
  after_read = record { counter = n; buf = masked ++ zeros; polymask = p; output = masked }

  loops : xor_loop n 0 p (read_into input start.buf) ≡ some (n, masked ++ zeros)
  loops =
      let len = length_first n input n_le in
      let split : take n input ++ (drop n input ++ zeros) ≡ input ++ zeros =
        sym (append_assoc (take n input) (drop n input) zeros)
        ∙ ap (λ (l : List ℕ). l ++ zeros) (take-append-drop n input) in
      subst (λ l. xor_loop n 0 p l ≡ some (n, masked ++ zeros)) split
        (subst
          (λ k.
            xor_loop k 0 p (take n input ++ (drop n input ++ zeros)) ≡ some (k, masked ++ zeros))
          len
          (xor_loop_lem (take n input) (drop n input ++ zeros) p (omega (arith, len, n_le_p))
            ∙ ap (λ (l : List ℕ). some (length (take n input), l))
                (sym (append_assoc (zip_xor (take n input) p) (drop n input) zeros))))

  pub length-masked : length masked ≡ length input
  length-masked =
      length-append (zip_xor (take n input) p) (drop n input)
      ∙ omega (
        arith,
        length-zip_xor (take n input) p (omega (arith, length_first n input n_le, n_le_p)),
        length_first n input n_le,
        length-drop n input,
        n_le,
      )

  -- The buffer keeps its length.
  pub length-buf : length after_read.buf ≡ buffer_size
  length-buf =
      length-append masked zeros
      ∙ omega (
        arith,
        length-masked,
        length-drop {A = ℕ} (length input) (replicate buffer_size 0),
        length-replicate {A = ℕ} buffer_size 0,
        small,
      )

  pub one_chunk : mask_chunk pattern input start ≡ some after_read
  one_chunk =
      rw (chosen, mask_chunk)
        (rw loops (ap (λ (l : List ℕ). some (record after_read { output = l })) taken))
    where
      taken : take (length input) (masked ++ zeros) ≡ masked
      taken =
          subst (λ k. take k (masked ++ zeros) ≡ masked) length-masked (take_append masked zeros)

-- A packet of 1 to 1600 bytes is read at once: its first `n` bytes are written against the mask, the
-- others as they are.
pub mask_internal-written :
    (pattern : Pattern) (b : ℕ) (bs : List ℕ) (n : ℕ) (p : List ℕ)
    → length (b ∷ bs) ≤ buffer_size
    → pattern (b ∷ bs) (replicate buffer_size 0) ≡ some (n, p)
    → n ≤ length (b ∷ bs)
    → n ≤ length p
    → mask_internal pattern (b ∷ bs) ≡ written (zip_xor (take n (b ∷ bs)) p ++ drop n (b ∷ bs))
unfolding mask_internal mask_reads
mask_internal-written pattern b bs n p small chosen n_le n_le_p =
    subst
      (λ chunk.
        elim (mask_chunk pattern chunk (start pattern (b ∷ bs) n p small chosen n_le n_le_p)) [
          | none ↦ panics
          | some s1 ↦ mask_reads (suc (length bs)) pattern (drop buffer_size (b ∷ bs)) s1
        ]
        ≡ written (masked pattern (b ∷ bs) n p small chosen n_le n_le_p))
      (sym (take_all buffer_size (b ∷ bs) small))
      (rw (one_chunk pattern (b ∷ bs) n p small chosen n_le n_le_p)
        (rw (drop_all buffer_size (b ∷ bs) small) refl))
