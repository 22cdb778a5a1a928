-- ===== src/Replay/Rejects.antt =====
-- A sum that was accepted is rejected while the window lasts.
use vlite.Base.{
  ℕ, ◌+◌, ◌≤◌, ◌<◌, ◌≡◌, ◌≢◌, ◌⊎◌, inl, inr, refl, sym, ◌∙◌, subst, arith, List, [], ◌∷◌, Bool,
  true, false, leb, if◌then◌else◌, All, if_rule, if_rule_with,
}
use vlite.Replay.{FilterOps, AntiReplayWindow, prepared, swapped, insert_both, check, check_all}

-- What is relied on of a filter: it holds what it took, keeps what it holds until it is reset, and
-- refuses what it holds.
pub record Remembers {F : Type 0} (ops : FilterOps F) : Type 1 where
  pub Holds : List ℕ → F → Type 0
  pub took :
      (x : List ℕ) (f : F) → (ops.insert_unique x f).0 ≡ true → Holds x (ops.insert_unique x f).1
  pub keeps : (x y : List ℕ) (f : F) → Holds x f → Holds x (ops.insert_unique y f).1
  pub refuses : (x : List ℕ) (f : F) → Holds x f → (ops.insert_unique x f).0 ≡ false

module _ {F : Type 0} (ops : FilterOps F) (m : Remembers ops) (x : List ℕ) (start : ℕ) where
  -- The sum is in both pools, or in one of them after a swap since `start`.
  abbrev pub IsRecent : AntiReplayWindow F → Type 0
  IsRecent w =
      (w.last_swap_time ≢ 0)
      × ((m.Holds x w.pool_a × m.Holds x w.pool_b)
          ⊎ ((start ≤ w.last_swap_time) × (m.Holds x w.pool_a ⊎ m.Holds x w.pool_b)))

  prepared_lem : (now : ℕ) (w : AntiReplayWindow F) → w.last_swap_time ≢ 0 → prepared ops now w ≡ w
  prepared_lem now w ne = ground arith

  swapped-IsRecent :
      (now : ℕ) (w : AntiReplayWindow F)
      → 1 ≤ start
      → start ≤ now
      → now < start + w.anti_replay_time
      → IsRecent w
      → IsRecent (swapped ops now w)
  swapped-IsRecent now w pos from before (ne, inl (a, b)) =
      let late = leb (w.last_swap_time + w.anti_replay_time) now in
      let later : now ≢ 0 = λ e. omega arith in
      if_rule IsRecent late
        (if_rule IsRecent w.pool_swap (later, inr (from, inr b)) (later, inr (from, inl a)))
        (ne, inl (a, b))
  swapped-IsRecent now w pos from before (ne, inr (after, one)) =
      if_rule_with IsRecent (leb (w.last_swap_time + w.anti_replay_time) now)
        (λ is. absurd (too_late now w before after is)) (ne, inr (after, one))
    where
      too_late :
          (now : ℕ) (w : AntiReplayWindow F)
          → now < start + w.anti_replay_time
          → start ≤ w.last_swap_time
          → leb (w.last_swap_time + w.anti_replay_time) now ≢ true
      too_late now w before after is = ground arith

  insert_both-IsRecent :
      (y : List ℕ) (w : AntiReplayWindow F) → IsRecent w → IsRecent (insert_both ops y w).1
  insert_both-IsRecent y w (ne, held) =
      if_rule (λ (r : Bool × AntiReplayWindow F). IsRecent r.1) (ops.insert_unique y w.pool_a).0
        (ne, both held) (ne, first held)
    where
      fa : F
      fa = (ops.insert_unique y w.pool_a).1

      fb : F
      fb = (ops.insert_unique y w.pool_b).1

      both :
          (m.Holds x w.pool_a × m.Holds x w.pool_b)
            ⊎ ((start ≤ w.last_swap_time) × (m.Holds x w.pool_a ⊎ m.Holds x w.pool_b))
          → (m.Holds x fa × m.Holds x fb)
            ⊎ ((start ≤ w.last_swap_time) × (m.Holds x fa ⊎ m.Holds x fb))
      both (inl (a, b)) = inl (m.keeps x y w.pool_a a, m.keeps x y w.pool_b b)
      both (inr (after, inl a)) = inr (after, inl (m.keeps x y w.pool_a a))
      both (inr (after, inr b)) = inr (after, inr (m.keeps x y w.pool_b b))

      first :
          (m.Holds x w.pool_a × m.Holds x w.pool_b)
            ⊎ ((start ≤ w.last_swap_time) × (m.Holds x w.pool_a ⊎ m.Holds x w.pool_b))
          → (m.Holds x fa × m.Holds x w.pool_b)
            ⊎ ((start ≤ w.last_swap_time) × (m.Holds x fa ⊎ m.Holds x w.pool_b))
      first (inl (a, b)) = inl (m.keeps x y w.pool_a a, b)
      first (inr (after, inl a)) = inr (after, inl (m.keeps x y w.pool_a a))
      first (inr (after, inr b)) = inr (after, inr b)

  -- A pool that holds the sum refuses it.
  insert_both-refuses : (w : AntiReplayWindow F) → IsRecent w → (insert_both ops x w).0 ≡ false
  insert_both-refuses w (ne, held) = refuse held
    where
      by_a : m.Holds x w.pool_a → (insert_both ops x w).0 ≡ false
      by_a a = rw (m.refuses x w.pool_a a) refl

      by_b : m.Holds x w.pool_b → (insert_both ops x w).0 ≡ false
      by_b b =
          if_rule (λ (r : Bool × AntiReplayWindow F). r.0 ≡ false) (ops.insert_unique x w.pool_a).0
            (m.refuses x w.pool_b b) refl

      refuse :
          (m.Holds x w.pool_a × m.Holds x w.pool_b)
            ⊎ ((start ≤ w.last_swap_time) × (m.Holds x w.pool_a ⊎ m.Holds x w.pool_b))
          → (insert_both ops x w).0 ≡ false
      refuse (inl (a, b)) = by_a a
      refuse (inr (after, inl a)) = by_a a
      refuse (inr (after, inr b)) = by_b b

  -- A sum that both pools took is in both.
  insert_both-took :
      (w : AntiReplayWindow F)
      → w.last_swap_time ≢ 0
      → (insert_both ops x w).0 ≡ true
      → IsRecent (insert_both ops x w).1
  insert_both-took w ne is = pick (ops.insert_unique x w.pool_a).0 refl is
    where
      a : Bool × F
      a = ops.insert_unique x w.pool_a

      b : Bool × F
      b = ops.insert_unique x w.pool_b

      pick :
          (c : Bool)
          → a.0 ≡ c
          → let r : Bool × AntiReplayWindow F =
              if c
              then (b.0, record w { pool_a = a.1; pool_b = b.1 })
              else (false, record w { pool_a = a.1 }) in
            r.0 ≡ true → IsRecent r.1
      pick true took_a took_b = (ne, inl (m.took x w.pool_a took_a, m.took x w.pool_b took_b))
      pick false no_a e = cc

-- A check leaves the length of the window alone.
pub check-anti_replay_time :
    {F : Type 0} (ops : FilterOps F) (now : ℕ) (y : List ℕ) (w : AntiReplayWindow F)
    → (check ops now y w).1.anti_replay_time ≡ w.anti_replay_time
unfolding check
check-anti_replay_time ops now y w = ground arith

module _ {F : Type 0} (ops : FilterOps F) (m : Remembers ops) (x : List ℕ) (start : ℕ) where
  -- The times of these checks lie in the window after `start`.
  abbrev pub Within : ℕ → List (ℕ × List ℕ) → Type 0
  Within time = All (λ (e : ℕ × List ℕ). (start ≤ e.0) × (e.0 < start + time))

  check-IsRecent :
      (now : ℕ) (y : List ℕ) (w : AntiReplayWindow F)
      → 1 ≤ start
      → start ≤ now
      → now < start + w.anti_replay_time
      → IsRecent ops m x start w
      → IsRecent ops m x start (check ops now y w).1
  unfolding check
  check-IsRecent now y w pos from before recent =
      insert_both-IsRecent ops m x start y (swapped ops now (prepared ops now w)) (
        subst (λ v. IsRecent ops m x start (swapped ops now v))
          (sym (prepared_lem ops m x start now w recent.0))
          (swapped-IsRecent ops m x start now w pos from before recent))

  check_all-IsRecent :
      (checks : List (ℕ × List ℕ)) (w : AntiReplayWindow F)
      → 1 ≤ start
      → Within w.anti_replay_time checks
      → IsRecent ops m x start w
      → IsRecent ops m x start (check_all ops checks w)
        × ((check_all ops checks w).anti_replay_time ≡ w.anti_replay_time)
  unfolding check_all
  check_all-IsRecent [] w pos within recent = (recent, refl)
  check_all-IsRecent ((now, y) ∷ rest) w pos ((from, before), within) recent =
      let same = check-anti_replay_time ops now y w in
      let (later, kept) =
        check_all-IsRecent rest (check ops now y w).1 pos
          (subst (λ t. Within t rest) (sym same) within)
          (check-IsRecent now y w pos from before recent) in
      (later, kept ∙ same)

  accepted-IsRecent :
      (w : AntiReplayWindow F)
      → 1 ≤ start
      → (check ops start x w).0 ≡ true
      → IsRecent ops m x start (check ops start x w).1
  unfolding check
  accepted-IsRecent w pos is =
      insert_both-took ops m x start (swapped ops start (prepared ops start w)) (ground arith) is

  -- A sum that a check has accepted is rejected by every check in the window after it, whatever sums
  -- were checked in between at times in that window. The conditions are that the clock is not at 0
  -- and that the filters remember what they took.
  pub check-rejects :
      (w : AntiReplayWindow F) (checks : List (ℕ × List ℕ)) (now : ℕ)
      → 1 ≤ start
      → (check ops start x w).0 ≡ true
      → Within w.anti_replay_time checks
      → start ≤ now
      → now < start + w.anti_replay_time
      → (check ops now x (check_all ops checks (check ops start x w).1)).0 ≡ false
  unfolding check
  check-rejects w checks now pos is within from before =
      let w1 = (check ops start x w).1 in
      let same : w1.anti_replay_time ≡ w.anti_replay_time = check-anti_replay_time ops start x w in
      let (recent, kept) =
        check_all-IsRecent checks w1 pos (subst (λ t. Within t checks) (sym same) within)
          (accepted-IsRecent w pos is) in
      let w2 = check_all ops checks w1 in
      let time : w2.anti_replay_time ≡ w.anti_replay_time = kept ∙ same in
      insert_both-refuses ops m x start (swapped ops now (prepared ops now w2)) (
        subst (λ v. IsRecent ops m x start (swapped ops now v))
          (sym (prepared_lem ops m x start now w2 recent.0))
          (swapped-IsRecent ops m x start now w2 pos from
            (subst (λ t. now < start + t) (sym time) before) recent))
