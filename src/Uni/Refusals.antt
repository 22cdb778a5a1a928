-- ===== src/Uni/Refusals.antt =====
-- A carrier that was served is not served again while the window lasts.
use vlite.Base.{
  ℕ, ◌+◌, ◌≤◌, ◌<◌, ◌≡◌, refl, sym, ap, subst, ◌∙◌, arith, List, [], ◌∷◌, none, some, some_eq, Bool,
  true, false, if◌then◌else◌, bytes_equal, bytes_equal_refl, Bool-cases, Option-cases, All, inl,
  inr, if_rule,
}
use vlite.Replay.{FilterOps, AntiReplayWindow, new_window, check, check_all}
use vlite.Replay.Rejects.{Remembers, Within, check-rejects, check-anti_replay_time}
use vlite.Replay.Guards.{run, checks_of, with_check, window-run}
use vlite.Uni.{
  Attrib, Transport, Hub, Call, Connected, loaded, accepted, store, announce, on_connection,
}
use vlite.Uni.Carriers.{arw_of, step, window, step-window, loaded-arw, hub_guards}

abbrev pub new_hub : {F : Type 0} → Hub F
new_hub = record { conns = λ id. none; announced = []; cancelled = []; rehandshakes = [] }

module _ {F : Type 0} (ops : FilterOps F) where
  abbrev pub run_calls : List Call → Hub F → Hub F
  run_calls [] h = h
  run_calls (call ∷ calls) h = run_calls calls (on_connection ops call h).hub

  run_calls-run :
      (id : List ℕ) (calls : List Call) (h : Hub F)
      → run ops (step ops id) (hub_guards ops id) calls h ≡ run_calls calls h
  run_calls-run id [] h = refl
  run_calls-run id (call ∷ calls) h = run_calls-run id calls (on_connection ops call h).hub

  -- Every window lasts 120 seconds.
  HasWindows : Hub F → Type 0
  HasWindows h =
      (id : List ℕ) (w : AntiReplayWindow F) → window ops id h ≡ some w → w.anti_replay_time ≡ 120

  loaded-time :
      (a : Attrib) (h : Hub F)
      → HasWindows h
      → (loaded ops a (h.conns a.id)).arw.anti_replay_time ≡ 120
  unfolding HasWindows
  loaded-time a h set = elim (Option-cases (h.conns a.id)) [
    | inl fresh ↦ unfold new_window in ap (λ o. (loaded ops a o).arw.anti_replay_time) fresh
    | inr (t, is) ↦
        ap (λ o. (loaded ops a o).arw.anti_replay_time) is ∙ set a.id t.arw (ap arw_of is)
  ]

  step-HasWindows :
      (call : Call) (h : Hub F) → HasWindows h → HasWindows (on_connection ops call h).hub
  unfolding HasWindows
  step-HasWindows call h set id w has =
      let a = call.attrib in
      let v = (loaded ops a (h.conns a.id)).arw in
      let new = (check ops call.now a.rand v).1 in
      let by_key = sym (step-window ops id call h) ∙ has in
      elim (Bool-cases (bytes_equal a.id id)) [
        | inl same ↦
            let is =
              some_eq (ap (λ b. if b then some new else window ops id h) (sym same) ∙ by_key) in
            ap (λ (u : AntiReplayWindow F). u.anti_replay_time) (sym is)
            ∙ check-anti_replay_time ops call.now a.rand v
            ∙ loaded-time a h (unfold HasWindows in set)
        | inr other ↦
            set id w (ap (λ b. if b then some new else window ops id h) (sym other) ∙ by_key)
      ]

  run_calls-HasWindows :
      (calls : List Call) (h : Hub F) → HasWindows h → HasWindows (run_calls calls h)
  run_calls-HasWindows [] h set = set
  run_calls-HasWindows (call ∷ calls) h set =
      run_calls-HasWindows calls (on_connection ops call h).hub (step-HasWindows call h set)

  new_hub-HasWindows : HasWindows new_hub
  unfolding HasWindows
  new_hub-HasWindows id w has = absurd (ground arith)

  served-check :
      (call : Call) (h : Hub F)
      → (on_connection ops call h).served
        ≡ (check ops call.now call.attrib.rand
            (loaded ops call.attrib (h.conns call.attrib.id)).arw).0
  unfolding on_connection
  served-check call h =
      let a = call.attrib in
      let t = loaded ops a (h.conns a.id) in
      let c = check ops call.now a.rand t.arw in
      let t1 : Transport F = record t { arw = c.1 } in
      let h1 : Hub F = record h { announced = announce ops a (h.conns a.id) h.announced } in
      let answer : Bool → Connected ops = λ b.
        if b
        then record { served = true; hub = accepted ops call t1 h1 }
        else record { served = false; hub = store ops a.id t1 h1 } in
      elim (Bool-cases c.0) [
        | inl is ↦ ap (λ b. (answer b).served) is ∙ sym is
        | inr is ↦ ap (λ b. (answer b).served) is ∙ sym is
      ]

  -- Calls at times in the window after `start`.
  abbrev pub WithinTimes : ℕ → ℕ → List Call → Type 0
  WithinTimes start time = All (λ (call : Call). (start ≤ call.now) × (call.now < start + time))

  checks_of-Within :
      (m : Remembers ops) (x id : List ℕ) (start time : ℕ) (calls : List Call)
      → WithinTimes start time calls
      → Within ops m x start time (checks_of ops (step ops id) (hub_guards ops id) calls)
  checks_of-Within m x id start time [] within = tt
  checks_of-Within m x id start time (call ∷ calls) (now, within) =
      let rest = checks_of-Within m x id start time calls within in
      let later = checks_of ops (step ops id) (hub_guards ops id) calls in
      if_rule (λ o. Within ops m x start time (with_check o later)) (bytes_equal call.attrib.id id)
        (now, rest) rest

  -- A carrier that the hub has served, at any time since its start, is refused when its identifier and
  -- its random bytes come again within 120 seconds, whatever carriers came in between. The conditions
  -- are that the clock is not at 0 and does not go back before the first call, and that the filters
  -- remember what they took.
  pub on_connection-refuses :
      (m : Remembers ops) (before after : List Call) (call again : Call)
      → 1 ≤ call.now
      → (on_connection ops call (run_calls before new_hub)).served ≡ true
      → WithinTimes call.now 120 after
      → again.attrib.id ≡ call.attrib.id
      → again.attrib.rand ≡ call.attrib.rand
      → call.now ≤ again.now
      → again.now < call.now + 120
      → (on_connection ops again
          (run_calls after (on_connection ops call (run_calls before new_hub)).hub)).served
        ≡ false
  on_connection-refuses m before after call again pos served within same_id same_rand from until =
      let h = run_calls before new_hub in
      let id = call.attrib.id in
      let x = call.attrib.rand in
      let h1 = (on_connection ops call h).hub in
      let h2 = run_calls after h1 in
      let w = (loaded ops call.attrib (h.conns id)).arw in
      let w1 = (check ops call.now x w).1 in
      let cs = checks_of ops (step ops id) (hub_guards ops id) after in
      let time =
        loaded-time call.attrib h (run_calls-HasWindows before new_hub new_hub-HasWindows) in
      let first : window ops id h1 ≡ some w1 =
        step-window ops id call h
        ∙ ap (λ b. if b then some w1 else window ops id h) (bytes_equal_refl id) in
      let last : window ops id h2 ≡ some (check_all ops cs w1) =
        ap (window ops id) (sym (run_calls-run id after h1))
        ∙ window-run ops (step ops id) (hub_guards ops id) after h1 w1 first in
      let there =
        loaded-arw ops id again.attrib (h2.conns again.attrib.id) (check_all ops cs w1)
          (ap (λ k. arw_of (h2.conns k)) same_id ∙ last) in
      served-check again h2
      ∙ ap (λ v. (check ops again.now again.attrib.rand v).0) there
      ∙ ap (λ y. (check ops again.now y (check_all ops cs w1)).0) same_rand
      ∙ check-rejects ops m x call.now w cs again.now pos (sym (served-check call h) ∙ served)
          (subst (λ t. Within ops m x call.now t cs) (sym time)
            (checks_of-Within m x id call.now 120 after within))
          from (omega (arith, until, time))
