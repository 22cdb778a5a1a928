-- ===== src/Channel/Clear.antt =====
-- `FindNext` keeps clear of the channels in use.
use vlite.Base.{
  ℕ, zero, suc, ◌+◌, ◌-◌, ◌≤◌, ◌<◌, bit_or, ◌≡◌, ◌≢◌, refl, sym, subst, subst₂, some_eq, inl, inr,
  Bool, true, false, not, ap, ◌∙◌, none, some, arith, Bool-cases, Option-cases,
}
use vlite.Base.Bits.{bit_xor_ones, bit_or_complement, zero-bit_or}
use vlite.Channel.{Finder, limit, organise, find_next_raw, find_next}
use vlite.Channel.Scan.{scan_all-Covers}
use vlite.Channel.Termination.{
  IsMasked, organise_turns, must_organise, following, move_to, find_next_raw-organise,
  find_next_raw-move,
}

-- In the direction in which the finder moves, no channel ahead of it is used. The scan leaves out
-- the complement of the mask, `limit`, so nothing is said of that one.
pub record IsClear (used : ℕ → Bool) (c : Finder) : Type 0 where
  pub mask_small : c.mask < 65534
  pub out_mask_lt : c.out_mask < 65536
  pub last_le : c.last_allocated_number ≤ limit c.mask
  pub ascending :
      c.direction_is_descending ≡ false
      → (ch : ℕ) → c.last_allocated_number < ch
      → ch < limit c.mask
      → used (bit_or ch c.out_mask) ≡ false
  pub descending :
      c.direction_is_descending ≡ true
      → (ch : ℕ) → 1 ≤ ch
      → ch < c.last_allocated_number
      → used (bit_or ch c.out_mask) ≡ false
  pub descending_from : c.direction_is_descending ≡ true → 2 ≤ c.last_allocated_number

module _ (used : ℕ → Bool) (c : Finder) where
  -- Whatever was allocated before, `organise` leaves the finder clear, if channel 1 is not used.
  organise-IsClear :
      c.mask < 65534
      → c.out_mask < 65536
      → used (bit_or 1 c.out_mask) ≡ false
      → IsClear used (organise used c)
  unfolding organise
  organise-IsClear m o one =
      let (k, z) = scan_all-Covers used c (omega arith) in
      let l = bit_xor_ones c.mask (omega arith) in
      record {
        mask_small = ground arith;
        out_mask_lt = ground arith;
        last_le = ground (arith, k.max_le, k.min_le);
        ascending = λ d ch p q. ground (arith, k.above ch);
        descending = λ d ch p q. ground (arith, k.below ch, k.min_le);
        descending_from = λ d. ground (arith, k.min_pos, k.min_used);
      }

  move-IsClear :
      IsClear used c
      → must_organise c ≡ false
      → IsClear used (move_to (following c) c).1
        × (1 ≤ following c)
        × (following c ≤ limit c.mask)
        × (following c < limit c.mask → used (bit_or (following c) c.out_mask) ≡ false)
  move-IsClear k goes =
      let l = bit_xor_ones c.mask (omega (arith, k.mask_small)) in
      let full = bit_or_complement c.mask (omega (arith, k.mask_small)) in
      let le : c.last_allocated_number ≤ 65535 - c.mask = omega (arith, k.last_le) in
      let small = k.mask_small in
      elim (Bool-cases c.direction_is_descending) [
        | inl down ↦
            let from = k.descending_from down in
            let ne : c.last_allocated_number ≢ 2 = ground arith in
            let f : following c ≡ c.last_allocated_number - 1 = ground arith in
            rw f (
              record {
                mask_small = small;
                out_mask_lt = k.out_mask_lt;
                last_le = omega arith;
                ascending = λ d ch p q. cc;
                descending = λ d ch p q. k.descending down ch p (omega arith);
                descending_from = λ d. omega arith;
              },
              omega arith,
              omega arith,
              λ h. k.descending down _ (omega arith) (omega arith),
            )
        | inr up ↦
            let ne : c.last_allocated_number ≢ 65535 - c.mask = λ e.
              let g : bit_or c.last_allocated_number c.mask ≡ 65535 =
                ap (λ t. bit_or t c.mask) e ∙ full in
              ground arith in
            let f : following c ≡ c.last_allocated_number + 1 = ground arith in
            rw f (
              record {
                mask_small = small;
                out_mask_lt = k.out_mask_lt;
                last_le = omega arith;
                ascending = λ d ch p q. k.ascending up ch (omega arith) q;
                descending = λ d ch p q. cc;
                descending_from = λ d. cc;
              },
              omega arith,
              omega arith,
              λ h. k.ascending up _ (omega arith) h,
            )
      ]

-- What a call with result `r` leaves, for a finder with these masks.
abbrev pub IsFresh : (ℕ → Bool) → ℕ → ℕ → ℕ × Finder → Type 0
IsFresh used mask out_mask (r, c') =
    IsClear used c'
    × (c'.mask ≡ mask)
    × (c'.out_mask ≡ out_mask)
    × (c'.last_allocated_number ≡ r)
    × (1 ≤ r)
    × (r ≤ limit mask)
    × (r < limit mask → used (bit_or r out_mask) ≡ false)

pub organise-mask : (used : ℕ → Bool) (c : Finder) → (organise used c).mask ≡ c.mask
unfolding organise
organise-mask used c = ground arith

pub organise-out_mask : (used : ℕ → Bool) (c : Finder) → (organise used c).out_mask ≡ c.out_mask
unfolding organise
organise-out_mask used c = ground arith

module _ (used : ℕ → Bool) where
  move-IsFresh :
      (c : Finder)
      → IsClear used c
      → must_organise c ≡ false
      → IsFresh used c.mask c.out_mask (move_to (following c) c)
  move-IsFresh c k goes =
      let (a, x, y, z) = move-IsClear used c k goes in (a, refl, refl, refl, x, y, z)

  find_next_raw-IsFresh :
      (fuel : ℕ) (c : Finder) (p : ℕ × Finder)
      → IsClear used c
      → (must_organise c ≡ true → used (bit_or 1 c.out_mask) ≡ false)
      → find_next_raw fuel used c ≡ some p
      → IsFresh used c.mask c.out_mask p
  find_next_raw-IsFresh zero c p k one e = unfold find_next_raw in cc
  find_next_raw-IsFresh (suc fuel) c p k one e = elim (Bool-cases (must_organise c)) [
    | inl stops ↦
        let out = organise-out_mask used c in
        let step = find_next_raw-organise fuel used c stops in
        subst₂ (λ m o. IsFresh used m o p) (organise-mask used c) out
          (find_next_raw-IsFresh fuel (organise used c) p
            (organise-IsClear used c k.mask_small k.out_mask_lt (one stops))
            (λ _. ap (λ o. used (bit_or 1 o)) out ∙ one stops) (sym step ∙ e))
    | inr goes ↦
        let step = find_next_raw-move fuel used c goes in
        subst (IsFresh used c.mask c.out_mask) (some_eq (sym step ∙ e)) (move-IsFresh c k goes)
  ]

  -- A finder that is clear allocates a number from 1 to the complement of its mask, which is in
  -- use only if it is that complement, and it stays clear. The conditions are that the finder
  -- is clear, that channel 1 is not in use when the finder has come to an end and organises,
  -- and that the call gives that number and finder.
  pub find_next-IsFresh :
      (c c' : Finder) (n : ℕ)
      → IsClear used c
      → (must_organise c ≡ true → used (bit_or 1 c.out_mask) ≡ false)
      → find_next used c ≡ some (n, c')
      → (n ≡ bit_or c'.last_allocated_number c.out_mask)
        × IsFresh used c.mask c.out_mask (c'.last_allocated_number, c')
  unfolding find_next
  find_next-IsFresh c c' n k one e = elim (Option-cases (find_next_raw 3 used c)) [
    | inl fails ↦ let a : find_next used c ≡ none = rw (fails, find_next) in cc
    | inr ((r, d), found) ↦
        let a : find_next used c ≡ some (bit_or r c.out_mask, d) = rw (found, find_next) in
        let f = find_next_raw-IsFresh 3 c (r, d) k one found in
        let same : d.last_allocated_number ≡ r = f.3 in
        subst
          (λ (x : ℕ × Finder).
            (x.0 ≡ bit_or x.1.last_allocated_number c.out_mask)
            × IsFresh used c.mask c.out_mask (x.1.last_allocated_number, x.1))
          (some_eq (sym a ∙ e))
          (
            ap (λ t. bit_or t c.out_mask) (sym same),
            subst (λ t. IsFresh used c.mask c.out_mask (t, d)) (sym same) f,
          )
  ]

  organised_low :
      (c : Finder)
      → IsMasked c
      → used (bit_or 1 c.out_mask) ≡ true
      → 2 ≤ limit c.mask
      → c.direction_is_descending ≡ false
      → (organise used c).last_allocated_number ≡ 1
  unfolding organise
  organised_low c v one l up =
      let (k, z) = scan_all-Covers used c v.mask_lt in rw up (ground (arith, k.below 1, k.min_pos))

  -- With channel 1 in use, an ascending finder that has come to the end of its numbers, with
  -- more than one of them, answers 0, the number of the control channel, in the bits that the
  -- mask of the output leaves.
  pub find_next_zero :
      (c : Finder)
      → IsMasked c
      → used (bit_or 1 c.out_mask) ≡ true
      → 2 ≤ limit c.mask
      → c.direction_is_descending ≡ false
      → bit_or c.last_allocated_number c.mask ≡ 0xffff
      → (c' : Finder) × (find_next used c ≡ some (c.out_mask, c'))
  unfolding find_next
  find_next_zero c v one l up full =
      let stops : must_organise c ≡ true = ground arith in
      let d = organise used c in
      let low : d.last_allocated_number ≡ 1 = organised_low c v one l up in
      let down : d.direction_is_descending ≡ true = organise_turns used c v ∙ ap not up in
      let goes : must_organise d ≡ false = ground arith in
      let next : following d ≡ 0 = ground arith in
      let e : find_next_raw 3 used c ≡ some (move_to 0 d) =
        find_next_raw-organise 2 used c stops
        ∙ find_next_raw-move 1 used d goes
        ∙ ap (λ t. some (move_to t d)) next in
      let d' : Finder = (move_to 0 d).1 in
      (d', rw (e, find_next) (ap (λ t. some (t, d')) (zero-bit_or c.out_mask)))
