-- ===== src/Http/Replays.antt =====
-- A request that was admitted is not admitted again while the window lasts.
use vlite.Base.{
  ℕ, ◌≡◌, refl, sym, ap, ◌∙◌, arith, List, Option, none, some, some_eq, Bool, true, false, not,
  if◌then◌else◌, bytes_equal, bytes_equal→eq, Bool-cases, inl, inr, if_rule,
}
use vlite.Replay.{FilterOps, AntiReplayWindow, check}
use vlite.Replay.Guards.{Guards}
use vlite.Http.Holder.{HttpHeaderHolder}
use vlite.Http.Admission.{
  Request, Served, not_found, ServerConn, HttpServer, Answered, synthid, bearer_of, is_timely,
  is_test, test_result, transmit, loaded_conn, boosted, has_flag, Prepared, prepare_for_connection,
  serve_header, serve_opened, serve_http,
}

abbrev pub checker_of : {F : Type 0} → Option (ServerConn F) → Option (AntiReplayWindow F)
checker_of none = none
checker_of (some c) = some c.no_replay_checker

module _ {F : Type 0} (ops : FilterOps F) (rune : ℕ → List ℕ) (id : List ℕ) where
  abbrev pub step : Request → HttpServer F → HttpServer F
  step r s = (serve_http ops rune r s).server

  abbrev pub window : HttpServer F → Option (AntiReplayWindow F)
  window s = checker_of (s.client_set id)

  -- The window after the check of a header.
  abbrev pub after_check : ℕ → HttpHeaderHolder → HttpServer F → Option (AntiReplayWindow F)
  after_check now b s =
      if bytes_equal (synthid rune b) id
      then some
          (check ops now b.rand
            (loaded_conn ops rune b (s.client_set (synthid rune b))).no_replay_checker).1
      else window s

  pub prepare-window :
      (now : ℕ) (b : HttpHeaderHolder) (s : HttpServer F)
      → window (prepare_for_connection ops rune now b s).server ≡ after_check now b s
  unfolding prepare_for_connection
  prepare-window now b s =
      let key = synthid rune b in
      let c = loaded_conn ops rune b (s.client_set key) in
      let k = check ops now b.rand c.no_replay_checker in
      let c1 : ServerConn F = record c { no_replay_checker = k.1 } in
      let by_key : (u : ServerConn F)
          → u.no_replay_checker ≡ k.1
          → checker_of (if bytes_equal key id then some u else s.client_set id)
            ≡ after_check now b s =
        λ u same. elim (Bool-cases (bytes_equal key id)) [
          | inl is ↦
              ap (λ t. checker_of (if t then some u else s.client_set id)) is
              ∙ ap some same
              ∙ ap (λ t. if t then some k.1 else window s) (sym is)
          | inr other ↦
              ap (λ t. checker_of (if t then some u else s.client_set id)) other
              ∙ ap (λ t. if t then some k.1 else window s) (sym other)
        ] in
      let boost : (boosted ops rune b c1).no_replay_checker ≡ k.1 =
        if_rule (λ (u : ServerConn F). u.no_replay_checker ≡ k.1) (has_flag b.flags 1) refl refl in
      if_rule (λ (p : Prepared ops rune). window p.server ≡ after_check now b s) k.0
        (by_key (boosted ops rune b c1) boost) (by_key c1 refl)

  abbrev pub is_checked : Request → HttpHeaderHolder → Bool
  is_checked r b = if is_timely r.now b then not (is_test r.method b) else false

  by_tests :
      (s : HttpServer F) (q : Served) (rest : Answered F) (x : Option (AntiReplayWindow F))
      → window rest.server ≡ x
      → (timely test : Bool)
      → window
          (if not timely
            then record { result = not_found; server = s }
            else if test
            then record { result = q; server = s }
            else rest).server
        ≡ (if (if timely then not test else false) then x else window s)
  by_tests s q rest x same true false = same
  by_tests s q rest x same true true = refl
  by_tests s q rest x same false test = refl

  pub serve_header-window :
      (r : Request) (b : HttpHeaderHolder) (s : HttpServer F)
      → window (serve_header ops rune r b s).server
        ≡ (if is_checked r b then after_check r.now b s else window s)
  unfolding serve_header
  serve_header-window r b s =
      let p = prepare_for_connection ops rune r.now b s in
      let refused : Answered F = record { result = not_found; server = p.server } in
      let rest : Answered F =
        if p.refused then refused else record { result = transmit r b; server = p.server } in
      by_tests s (test_result b) rest (after_check r.now b s)
        (if_rule (λ (a : Answered F). window a.server ≡ after_check r.now b s) p.refused
          (prepare-window r.now b s) (prepare-window r.now b s))
        (is_timely r.now b) (is_test r.method b)

  abbrev pub checked_header : Request → Option HttpHeaderHolder → Option (ℕ × List ℕ)
  checked_header r none = none
  checked_header r (some b) =
      if is_checked r b
      then if bytes_equal (synthid rune b) id then some (r.now, b.rand) else none
      else none

  leaves_opened :
      (r : Request) (o : Option HttpHeaderHolder) (s : HttpServer F)
      → checked_header r o ≡ none
      → window (serve_opened ops rune r o s).server ≡ window s
  leaves_opened r none s other = refl
  leaves_opened r (some b) s other =
      serve_header-window r b s ∙ elim (Bool-cases (is_checked r b)) [
        | inl is ↦
            let differs : bytes_equal (synthid rune b) id ≡ false = ground arith in
            ap (λ c. if c then after_check r.now b s else window s) is
            ∙ ap
                (λ c.
                  if c
                  then some
                      (check ops r.now b.rand
                        (loaded_conn ops rune b
                          (s.client_set (synthid rune b))).no_replay_checker).1
                  else window s)
                differs
        | inr gone ↦ ap (λ c. if c then after_check r.now b s else window s) gone
      ]

  pub loaded-checker :
      (b : HttpHeaderHolder) (o : Option (ServerConn F)) (w : AntiReplayWindow F)
      → checker_of o ≡ some w
      → (loaded_conn ops rune b o).no_replay_checker ≡ w
  loaded-checker b none w has = absurd (ground arith)
  loaded-checker b (some c) w has = some_eq has

  checks_opened :
      (r : Request) (o : Option HttpHeaderHolder) (s : HttpServer F) (now : ℕ) (sum : List ℕ)
      (w : AntiReplayWindow F)
      → checked_header r o ≡ some (now, sum)
      → window s ≡ some w
      → window (serve_opened ops rune r o s).server ≡ some (check ops now sum w).1
  checks_opened r none s now sum w is has = absurd (ground arith)
  checks_opened r (some b) s now sum w is has =
      let sure : is_checked r b ≡ true = ground arith in
      let same : bytes_equal (synthid rune b) id ≡ true = ground arith in
      let pair : (r.now, b.rand) ≡ (now, sum) = some_eq (
        sym (
          ap
            (λ c.
              if c
              then if bytes_equal (synthid rune b) id then some (r.now, b.rand) else none
              else none)
            sure
          ∙ ap (λ c. if c then some (r.now, b.rand) else none) same)
        ∙ is) in
      let key = bytes_equal→eq (synthid rune b) id same in
      let there =
        loaded-checker b (s.client_set (synthid rune b)) w
          (ap (λ k. checker_of (s.client_set k)) key ∙ has) in
      let checker : AntiReplayWindow F =
        (loaded_conn ops rune b (s.client_set (synthid rune b))).no_replay_checker in
      serve_header-window r b s
      ∙ ap (λ c. if c then after_check r.now b s else window s) sure
      ∙ ap (λ c. if c then some (check ops r.now b.rand checker).1 else window s) same
      ∙ ap (λ v. some (check ops r.now b.rand v).1) there
      ∙ ap (λ (p : ℕ × List ℕ). some (check ops p.0 p.1 w).1) pair

  pub leaves :
      (r : Request) (s : HttpServer F)
      → checked_header r (bearer_of r) ≡ none
      → window (step r s) ≡ window s
  unfolding serve_http
  leaves r s other = leaves_opened r (bearer_of r) s other

  pub checks :
      (r : Request) (s : HttpServer F) (now : ℕ) (sum : List ℕ) (w : AntiReplayWindow F)
      → checked_header r (bearer_of r) ≡ some (now, sum)
      → window s ≡ some w
      → window (step r s) ≡ some (check ops now sum w).1
  unfolding serve_http
  checks r s now sum w is has = checks_opened r (bearer_of r) s now sum w is has

  abbrev pub server_guards : Guards ops step
  server_guards = record {
    window = window;
    checked = λ r. checked_header r (bearer_of r);
    leaves = leaves;
    checks = checks;
  }
