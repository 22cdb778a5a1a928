-- ===== src/Replay.antt =====
-- transport/antiReplayWindow/noReplay.go: the check that a sum has not been seen lately.
-- The cuckoo filters are a parameter. Times are in seconds since the epoch.
pub mod Rejects
pub mod Guards
use vlite.Base.{ℕ, ◌+◌, List, [], ◌∷◌, Bool, true, false, leb, ◌==◌, if◌then◌else◌}

-- What the code calls of `cuckoofilter`, and the nil pointer that the fields hold before the first
-- check replaces it.
pub record FilterOps (F : Type 0) : Type 0 where
  pub nil_filter : F
  pub new_filter : ℕ → F
  pub insert_unique : List ℕ → F → Bool × F
  pub reset : F → F

pub record AntiReplayWindow (F : Type 0) : Type 0 where
  pub pool_a : F
  pub pool_b : F
  pub last_swap_time : ℕ
  pub pool_swap : Bool
  pub anti_replay_time : ℕ

unfoldable pub new_window : {F : Type 0} → FilterOps F → ℕ → AntiReplayWindow F
new_window ops time = record {
  pool_a = ops.nil_filter;
  pool_b = ops.nil_filter;
  last_swap_time = 0;
  pool_swap = false;
  anti_replay_time = time;
}

-- The first check makes the pools.
abbrev pub prepared : {F : Type 0} → FilterOps F → ℕ → AntiReplayWindow F → AntiReplayWindow F
prepared ops now w =
    if w.last_swap_time == 0
    then record w {
      pool_a = ops.new_filter 10000;
      pool_b = ops.new_filter 10000;
      last_swap_time = now;
    }
    else w

-- The pools are emptied in turn, each time that the window has passed.
abbrev pub swapped : {F : Type 0} → FilterOps F → ℕ → AntiReplayWindow F → AntiReplayWindow F
swapped ops now w =
    if leb (w.last_swap_time + w.anti_replay_time) now
    then if w.pool_swap
      then record w { pool_swap = false; pool_a = ops.reset w.pool_a; last_swap_time = now }
      else record w { pool_swap = true; pool_b = ops.reset w.pool_b; last_swap_time = now }
    else w

-- `&&`: the second pool is not asked where the first one refuses.
abbrev pub insert_both :
    {F : Type 0} → FilterOps F → List ℕ → AntiReplayWindow F → Bool × AntiReplayWindow F
insert_both ops sum w =
    let a = ops.insert_unique sum w.pool_a in
    let b = ops.insert_unique sum w.pool_b in
    if a.0
    then (b.0, record w { pool_a = a.1; pool_b = b.1 })
    else (false, record w { pool_a = a.1 })

unfoldable pub check :
    {F : Type 0} → FilterOps F → ℕ → List ℕ → AntiReplayWindow F → Bool × AntiReplayWindow F
check ops now sum w = insert_both ops sum (swapped ops now (prepared ops now w))

-- Checks one after the other, each with its time and its sum.
unfoldable pub check_all :
    {F : Type 0} → FilterOps F → List (ℕ × List ℕ) → AntiReplayWindow F → AntiReplayWindow F
check_all ops [] w = w
check_all ops ((now, sum) ∷ rest) w = check_all ops rest (check ops now sum w).1
