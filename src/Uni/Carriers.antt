-- ===== src/Uni/Carriers.antt =====
-- A carrier is served once, and a new iteration ends the carriers of the one before it.
use vlite.Base.{
  ℕ, ◌≡◌, refl, sym, ap, ◌∙◌, arith, List, Option, none, some, some_eq, false, if◌then◌else◌,
  bytes_equal, bytes_equal→eq, Bool-cases, if_rule, inl, inr,
}
use vlite.Replay.{FilterOps, AntiReplayWindow, check}
use vlite.Replay.Guards.{Guards}
use vlite.Uni.{
  Attrib, Transport, Hub, Call, Connected, loaded, on_connection, old_funcs, put_func, iter_of,
}

abbrev pub arw_of : {F : Type 0} → Option (Transport F) → Option (AntiReplayWindow F)
arw_of none = none
arw_of (some t) = some t.arw

module _ {F : Type 0} (ops : FilterOps F) (id : List ℕ) where
  abbrev pub step : Call → Hub F → Hub F
  step call h = (on_connection ops call h).hub

  abbrev pub window : Hub F → Option (AntiReplayWindow F)
  window h = arw_of (h.conns id)

  abbrev pub checked : Call → Option (ℕ × List ℕ)
  checked call = if bytes_equal call.attrib.id id then some (call.now, call.attrib.rand) else none

  -- A call checks its random bytes in the window of its identifier, and in no other.
  pub step-window :
      (call : Call) (h : Hub F)
      → window (step call h) ≡ (
          if bytes_equal call.attrib.id id
          then some
              (check ops call.now call.attrib.rand
                (loaded ops call.attrib (h.conns call.attrib.id)).arw).1
          else window h)
  unfolding on_connection
  step-window call h =
      let a = call.attrib in
      let t = loaded ops a (h.conns a.id) in
      let c = check ops call.now a.rand t.arw in
      let by_key : (u : Transport F)
          → u.arw ≡ c.1
          → arw_of (if bytes_equal a.id id then some u else h.conns id)
            ≡ (if bytes_equal a.id id then some c.1 else window h) =
        λ u same. elim (Bool-cases (bytes_equal a.id id)) [
          | inl is ↦
              ap (λ b. arw_of (if b then some u else h.conns id)) is
              ∙ ap some same
              ∙ ap (λ b. if b then some c.1 else window h) (sym is)
          | inr other ↦
              ap (λ b. arw_of (if b then some u else h.conns id)) other
              ∙ ap (λ b. if b then some c.1 else window h) (sym other)
        ] in
      if_rule
        (λ (r : Connected ops). window r.hub ≡ (if bytes_equal a.id id then some c.1 else window h))
        c.0
        (by_key
          (record t {
            arw = c.1;
            last_conn_iter = iter_of a;
            last_conn_iter_cancel_func =
                put_func a.rand call.carrier (old_funcs ops a (record t { arw = c.1 }));
          })
          refl)
        (by_key (record t { arw = c.1 }) refl)

  pub leaves : (call : Call) (h : Hub F) → checked call ≡ none → window (step call h) ≡ window h
  leaves call h other =
      let a = call.attrib in
      let differs : bytes_equal a.id id ≡ false = ground arith in
      step-window call h
      ∙ ap
          (λ b.
            if b
            then some (check ops call.now a.rand (loaded ops a (h.conns a.id)).arw).1
            else window h)
          differs

  pub loaded-arw :
      (a : Attrib) (o : Option (Transport F)) (w : AntiReplayWindow F)
      → arw_of o ≡ some w
      → (loaded ops a o).arw ≡ w
  loaded-arw a none w has = absurd (ground arith)
  loaded-arw a (some t) w has = some_eq has

  pub checks :
      (call : Call) (h : Hub F) (now : ℕ) (sum : List ℕ) (w : AntiReplayWindow F)
      → checked call ≡ some (now, sum)
      → window h ≡ some w
      → window (step call h) ≡ some (check ops now sum w).1
  checks call h now sum w is has =
      let a = call.attrib in
      elim (Bool-cases (bytes_equal a.id id)) [
        | inl same ↦
            let key = bytes_equal→eq a.id id same in
            let pair : (call.now, a.rand) ≡ (now, sum) =
              some_eq (ap (λ b. if b then some (call.now, a.rand) else none) (sym same) ∙ is) in
            let arw = loaded-arw a (h.conns a.id) w (ap (λ k. arw_of (h.conns k)) key ∙ has) in
            step-window call h
            ∙ ap
                (λ b.
                  if b
                  then some (check ops call.now a.rand (loaded ops a (h.conns a.id)).arw).1
                  else window h)
                same
            ∙ ap (λ v. some (check ops call.now a.rand v).1) arw
            ∙ ap (λ (p : ℕ × List ℕ). some (check ops p.0 p.1 w).1) pair
        | inr other ↦ absurd (ground arith)
      ]

  abbrev pub hub_guards : Guards ops step
  hub_guards = record { window = window; checked = checked; leaves = leaves; checks = checks }
