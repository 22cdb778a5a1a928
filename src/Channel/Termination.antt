-- ===== src/Channel/Termination.antt =====
-- How deep `findNextRaw` calls itself.
use vlite.Base.{
  ℕ, suc, ◌+◌, ◌%◌, ◌<◌, bit_or, ◌≡◌, inl, inr, Bool, true, false, not, some, arith, ap, ◌∙◌, ◌==◌,
  if◌then◌else◌, Bool-cases,
}
use vlite.Base.Bits.{bit_xor_ones, bit_or_bounds}
use vlite.Channel.{Finder, scan_all, organise, find_next_raw, find_next}
use vlite.Channel.Scan.{scan_all-Covers}

-- The masks leave a channel number at least.
pub record IsMasked (c : Finder) : Type 0 where
  pub mask_lt : c.mask < 65535
  pub out_mask_lt : c.out_mask < 65536

module _ (used : ℕ → Bool) (c : Finder) (v : IsMasked c) where
  -- The greatest used channel is below the complement of the mask, so the ascending test fails.
  max_not_full : (bit_or (scan_all used c).max c.mask == 0xffff) ≡ false
  max_not_full =
      let (k, z) = scan_all-Covers used c v.mask_lt in
      let m = v.mask_lt in
      let l = bit_xor_ones c.mask (omega arith) in
      let x = k.max_le in
      let b = bit_or_bounds (scan_all used c).max c.mask (omega arith) (omega arith) in ground arith

  pub organise-IsMasked : IsMasked (organise used c)
  unfolding organise
  organise-IsMasked = ground (arith, v.mask_lt, v.out_mask_lt)

-- The two early tests of `findNextRaw`, and what it does when neither holds.
abbrev pub must_organise : Finder → Bool
must_organise c =
    if c.direction_is_descending
    then c.last_allocated_number == 2
    else bit_or c.last_allocated_number c.mask == 0xffff

abbrev pub following : Finder → ℕ
following c =
    if c.direction_is_descending
    then (c.last_allocated_number + 65535) % 65536
    else (c.last_allocated_number + 1) % 65536

abbrev pub move_to : ℕ → Finder → ℕ × Finder
move_to n c = (n, record c { last_allocated_number = n })

module _ (fuel : ℕ) (used : ℕ → Bool) (c : Finder) where
  pub find_next_raw-organise :
      must_organise c ≡ true
      → find_next_raw (suc fuel) used c ≡ find_next_raw fuel used (organise used c)
  unfolding find_next_raw
  find_next_raw-organise h = ground arith

  pub find_next_raw-move :
      must_organise c ≡ false → find_next_raw (suc fuel) used c ≡ some (move_to (following c) c)
  unfolding find_next_raw
  find_next_raw-move h = ground arith

module _ (used : ℕ → Bool) (c : Finder) (v : IsMasked c) where
  -- After `organise` in the descending direction the finder ascends, and can.
  organise_ascends : c.direction_is_descending ≡ true → must_organise (organise used c) ≡ false
  unfolding organise scan_all
  organise_ascends d = rw d (max_not_full used c v)

  descending_total :
      (fuel : ℕ)
      → c.direction_is_descending ≡ true
      → (p : ℕ × Finder) × (find_next_raw (suc (suc fuel)) used c ≡ some p)
  descending_total fuel d = elim (Bool-cases (must_organise c)) [
    | inl stops ↦ (
      move_to (following (organise used c)) (organise used c),
      find_next_raw-organise (suc fuel) used c stops
          ∙ find_next_raw-move fuel used (organise used c) (organise_ascends d),
    )
    | inr goes ↦ (move_to (following c) c, find_next_raw-move (suc fuel) used c goes)
  ]

  pub organise_turns : (organise used c).direction_is_descending ≡ not c.direction_is_descending
  unfolding organise
  organise_turns = ground arith

module _ (used : ℕ → Bool) (c : Finder) (v : IsMasked c) where
  pub find_next_raw_total :
      (fuel : ℕ) → (p : ℕ × Finder) × (find_next_raw (suc (suc (suc fuel))) used c ≡ some p)
  find_next_raw_total fuel = elim (Bool-cases c.direction_is_descending) [
    | inl down ↦ descending_total used c v (suc fuel) down
    | inr up ↦ elim (Bool-cases (must_organise c)) [
      | inl stops ↦
          let turned : (organise used c).direction_is_descending ≡ true =
            organise_turns used c v ∙ ap not up in
          let (p, e) =
            descending_total used (organise used c) (organise-IsMasked used c v) fuel turned in
          (p, find_next_raw-organise (suc (suc fuel)) used c stops ∙ e)
      | inr goes ↦ (move_to (following c) c, find_next_raw-move (suc (suc fuel)) used c goes)
    ]
  ]

  -- From any finder whose masks leave a channel number, `FindNext` answers: `findNextRaw` calls
  -- itself three levels deep at most, whatever channels are used.
  pub find_next_total : (p : ℕ × Finder) × (find_next used c ≡ some p)
  unfolding find_next
  find_next_total =
      let ((r, c'), e) = find_next_raw_total 0 in ((bit_or r c.out_mask, c'), rw (e, find_next))
