-- ===== src/Channel/Scan.antt =====
-- What the scan in `organise` finds: every used channel lies between `min` and `max`.
use vlite.Base.{
  ℕ, zero, suc, ◌+◌, ◌%◌, ◌≤◌, ◌<◌, bit_or, ◌≡◌, refl, ◌⊎◌, inl, inr, Bool, true, false, arith,
  ◌==◌, Bool-cases,
}
use vlite.Base.Bits.{bit_xor_ones}
use vlite.Channel.{Finder, Scanned, scan_round, scan, scan_all, limit}

module _ (used : ℕ → Bool) (out target : ℕ) where
  -- After the channels 1 to `scanning`.
  pub record Covers (s : Scanned) : Type 0 where
    pub above : (ch : ℕ) → s.max < ch → ch ≤ s.scanning → used (bit_or ch out) ≡ false
    pub below : (ch : ℕ) → 1 ≤ ch → ch ≤ s.scanning → ch < s.min → used (bit_or ch out) ≡ false
    pub max_le : s.max ≤ s.scanning
    pub min_pos : 1 ≤ s.min
    pub min_le : s.min ≤ target
    pub min_used : (s.min ≡ target) ⊎ (used (bit_or s.min out) ≡ true)

  -- The next channel, whether it is used or not.
  round-Covers :
      (s : Scanned)
      → Covers s
      → s.scanning + 1 < target
      → target < 65536
      → Covers (scan_round used out s) × ((scan_round used out s).scanning ≡ s.scanning + 1)
  unfolding scan_round
  round-Covers s c h t =
      let n : ℕ = s.scanning + 1 in
      let small : (s.scanning + 1) % 65536 ≡ s.scanning + 1 = omega arith in
      rw small (elim (Bool-cases (used (bit_or (s.scanning + 1) out))) [
        | inl yes_used ↦ rw yes_used (
          record {
            above = λ ch p q. ground (arith, c.above ch);
            below = λ ch o p q. ground (arith, c.below ch);
            max_le = ground arith;
            min_pos = ground arith;
            min_le = ground arith;
            min_used = ground arith;
          },
          refl,
        )
        | inr unused ↦ rw unused (
          record {
            above = λ ch p q. ground (arith, c.above ch);
            below = λ ch o p q. ground (arith, c.below ch);
            max_le = ground arith;
            min_pos = c.min_pos;
            min_le = c.min_le;
            min_used = c.min_used;
          },
          refl,
        )
      ])

  -- With enough fuel the loop ends by its test.
  scan-Covers :
      (fuel : ℕ) (s : Scanned)
      → Covers s
      → s.scanning < target
      → target < 65536
      → target ≤ s.scanning + 1 + fuel
      → Covers (scan fuel used out target s) × ((scan fuel used out target s).scanning + 1 ≡ target)
  unfolding scan
  scan-Covers zero s c p t f = (c, omega arith)
  scan-Covers (suc fuel) s c p t f = elim (Bool-cases ((s.scanning + 1) % 65536 == target)) [
    | inl done ↦ rw done (c, ground arith)
    | inr more ↦ rw more (
        let next : s.scanning + 1 < target = ground arith in
        let (c', e) = round-Covers s c next t in
        scan-Covers fuel (scan_round used out s) c' (omega arith) t (omega arith))
  ]

pub scan_all-Covers :
    (used : ℕ → Bool) (c : Finder)
    → c.mask < 65535
    → let s = scan_all used c in
      Covers used c.out_mask (limit c.mask) s × (s.scanning + 1 ≡ limit c.mask)
unfolding scan_all
scan_all-Covers used c h =
    let e = bit_xor_ones c.mask (omega arith) in
    scan-Covers used c.out_mask (limit c.mask) 65536 _
      (record {
        above = λ ch p q. absurd (omega arith);
        below = λ ch o p q. absurd (omega arith);
        max_le = omega arith;
        min_pos = omega arith;
        min_le = omega arith;
        min_used = inl refl;
      })
      (omega arith) (omega arith) (omega arith)
