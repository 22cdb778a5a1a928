-- ===== src/Replay/Guards.antt =====
-- A table of connections in which every connection has a window of its own.
use vlite.Base.{ℕ, ◌≡◌, sym, ap, ◌∙◌, List, [], ◌∷◌, Option, none, some, inl, inr, Option-cases}
use vlite.Replay.{FilterOps, AntiReplayWindow, check, check_all}

-- Steps of a system, and the window of one connection in its state: a step checks a sum in that
-- window, or leaves it.
pub record Guards {F S E : Type 0} (ops : FilterOps F) (step : E → S → S) : Type 0 where
  pub window : S → Option (AntiReplayWindow F)
  pub checked : E → Option (ℕ × List ℕ)
  pub leaves : (e : E) (s : S) → checked e ≡ none → window (step e s) ≡ window s
  pub checks :
      (e : E) (s : S) (now : ℕ) (sum : List ℕ) (w : AntiReplayWindow F)
      → checked e ≡ some (now, sum)
      → window s ≡ some w
      → window (step e s) ≡ some (check ops now sum w).1

abbrev pub with_check : Option (ℕ × List ℕ) → List (ℕ × List ℕ) → List (ℕ × List ℕ)
with_check none rest = rest
with_check (some c) rest = c ∷ rest

module _ {F S E : Type 0} (ops : FilterOps F) (step : E → S → S) (g : Guards ops step) where
  abbrev pub run : List E → S → S
  run [] s = s
  run (e ∷ es) s = run es (step e s)

  -- What was checked in the window.
  abbrev pub checks_of : List E → List (ℕ × List ℕ)
  checks_of [] = []
  checks_of (e ∷ es) = with_check (g.checked e) (checks_of es)

  -- Steps do to the window what the checks do.
  pub window-run :
      (es : List E) (s : S) (w : AntiReplayWindow F)
      → g.window s ≡ some w
      → g.window (run es s) ≡ some (check_all ops (checks_of es) w)
  unfolding check_all
  window-run [] s w has = has
  window-run (e ∷ es) s w has = elim (Option-cases (g.checked e)) [
    | inl nothing ↦
        window-run es (step e s) w (g.leaves e s nothing ∙ has)
        ∙ ap (λ o. some (check_all ops (with_check o (checks_of es)) w)) (sym nothing)
    | inr ((now, sum), is) ↦
        window-run es (step e s) (check ops now sum w).1 (g.checks e s now sum w is has)
        ∙ ap (λ o. some (check_all ops (with_check o (checks_of es)) w)) (sym is)
  ]
