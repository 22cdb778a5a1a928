-- ===== src/Tests/Channels.antt =====
-- Examples for the finder: masks that leave the numbers up to 15, and channels that are used.
use vlite.Base.{ℕ, ◌≡◌, ◌<◌, refl, arith, Bool, false, ◌||◌, ◌==◌, some, bit_or}
use vlite.Base.Bits.{bit_or-zero}
use vlite.Channel.{Finder, find_next, find_next_raw}
use vlite.Channel.Termination.{IsMasked, find_next_total}
use vlite.Channel.Clear.{IsClear, IsFresh, find_next-IsFresh, find_next_zero}

abbrev masked_finder : Finder
masked_finder = record {
  last_allocated_number = 3;
  direction_is_descending = false;
  mask = 0xfff0;
  out_mask = 0;
}

abbrev low_used : ℕ → Bool
low_used ch = ch == 2 || ch == 3

masked : IsMasked masked_finder
masked = record { mask_lt = omega arith; out_mask_lt = omega arith }

find_next_total_example : (p : ℕ × Finder) × (find_next low_used masked_finder ≡ some p)
find_next_total_example = find_next_total low_used masked_finder masked

above_used : (ch : ℕ) → 3 < ch → ch < 15 → low_used (bit_or ch 0) ≡ false
above_used ch above below = rw (bit_or-zero ch (omega arith)) (ground arith)

clear : IsClear low_used masked_finder
clear = record {
  mask_small = omega arith;
  out_mask_lt = omega arith;
  last_le = omega arith;
  ascending = λ up ch above below. above_used ch above below;
  descending = λ down ch p q. cc;
  descending_from = λ down. cc;
}

abbrev moved_finder : Finder
moved_finder = record {
  last_allocated_number = 4;
  direction_is_descending = false;
  mask = 0xfff0;
  out_mask = 0;
}

allocates : find_next low_used masked_finder ≡ some (4, moved_finder)
unfolding find_next find_next_raw
allocates = refl

find_next-IsFresh_example : (4 ≡ bit_or 4 0) × IsFresh low_used 0xfff0 0 (4, moved_finder)
find_next-IsFresh_example =
    find_next-IsFresh low_used masked_finder moved_finder 4 clear (λ stops. refl) allocates

abbrev full_finder : Finder
full_finder = record {
  last_allocated_number = 15;
  direction_is_descending = false;
  mask = 0xfff0;
  out_mask = 0;
}

abbrev one_used : ℕ → Bool
one_used ch = ch == 1

full_masked : IsMasked full_finder
full_masked = record { mask_lt = omega arith; out_mask_lt = omega arith }

find_next_zero_example : (c' : Finder) × (find_next one_used full_finder ≡ some (0, c'))
find_next_zero_example =
    find_next_zero one_used full_finder full_masked refl (omega arith) refl refl
