-- ===== src/Http/Refusals.antt =====
-- A request whose header was admitted is not found when it comes again.
use vlite.Base.{
  ℕ, ◌+◌, ◌≤◌, ◌<◌, ◌≡◌, refl, sym, ap, subst, ◌∙◌, arith, List, [], ◌∷◌, Option, none, some, Bool,
  true, false, not, if◌then◌else◌, bytes_equal, bytes_equal_refl, Bool-cases, Option-cases, All,
  inl, inr, if_rule,
}
use vlite.Replay.{FilterOps, AntiReplayWindow, new_window, check, check_all}
use vlite.Replay.Rejects.{Remembers, Within, check-rejects}
use vlite.Replay.Guards.{run, checks_of, with_check, window-run}
use vlite.Http.Holder.{HttpHeaderHolder}
use vlite.Http.Admission.{
  Request, not_found, ServerConn, HttpServer, Answered, synthid, bearer_of, is_timely, is_test,
  test_result, transmit, loaded_conn, store_conn, boosted, Prepared, prepare_for_connection,
  serve_header, serve_opened, serve_http,
}
use vlite.Http.Replays.{
  step, window, after_check, is_checked, checked_header, serve_header-window, loaded-checker,
  server_guards,
}

not-false : (c : Bool) → not c ≡ false → c ≡ true
not-false true e = refl
not-false false e = absurd (ground arith)

module _ {F : Type 0} (ops : FilterOps F) (rune : ℕ → List ℕ) where
  abbrev checker : HttpHeaderHolder → HttpServer F → AntiReplayWindow F
  checker b s = (loaded_conn ops rune b (s.client_set (synthid rune b))).no_replay_checker

  prepare-refused :
      (now : ℕ) (b : HttpHeaderHolder) (s : HttpServer F)
      → (prepare_for_connection ops rune now b s).refused
        ≡ not (check ops now b.rand (checker b s)).0
  unfolding prepare_for_connection
  prepare-refused now b s =
      let key = synthid rune b in
      let c = loaded_conn ops rune b (s.client_set key) in
      let k = check ops now b.rand c.no_replay_checker in
      let c1 : ServerConn F = record c { no_replay_checker = k.1 } in
      let answer : Bool → Prepared ops rune = λ t.
        if t
        then record { refused = false; server = store_conn ops rune key (boosted ops rune b c1) s }
        else record { refused = true; server = store_conn ops rune key c1 s } in
      elim (Bool-cases k.0) [
        | inl is ↦ ap (λ t. (answer t).refused) is ∙ ap not (sym is)
        | inr is ↦ ap (λ t. (answer t).refused) is ∙ ap not (sym is)
      ]

  -- The windows of the server are as new connections have them.
  abbrev pub HasTimes : HttpServer F → Type 0
  HasTimes s =
      (id : List ℕ) (c : ServerConn F)
      → s.client_set id ≡ some c
      → c.no_replay_checker.anti_replay_time ≡ 119

  checker-time :
      (b : HttpHeaderHolder) (s : HttpServer F) → HasTimes s → (checker b s).anti_replay_time ≡ 119
  unfolding new_window
  checker-time b s times = elim (Option-cases (s.client_set (synthid rune b))) [
    | inl fresh ↦ ap (λ o. (loaded_conn ops rune b o).no_replay_checker.anti_replay_time) fresh
    | inr (c, is) ↦
        ap (λ o. (loaded_conn ops rune b o).no_replay_checker.anti_replay_time) is
        ∙ times (synthid rune b) c is
  ]

  refused-not_found :
      (r : Request) (b : HttpHeaderHolder) (s : HttpServer F)
      → is_test r.method b ≡ false
      → (prepare_for_connection ops rune r.now b s).refused ≡ true
      → (serve_header ops rune r b s).result ≡ not_found
  unfolding serve_header
  refused-not_found r b s no_test refused =
      let p = prepare_for_connection ops rune r.now b s in
      let gone : Answered F = record { result = not_found; server = p.server } in
      let test : Answered F = record { result = test_result b; server = s } in
      let rest : Bool → Answered F =
        λ c. if c then gone else record { result = transmit r b; server = p.server } in
      let answer : Bool → Bool → Answered F = λ t c. if t then test else rest c in
      if_rule (λ (a : Answered F). a.result ≡ not_found) (not (is_timely r.now b)) refl
        (ap (λ t. (answer t p.refused).result) no_test ∙ ap (λ c. (rest c).result) refused)

  abbrev pub WithinTimes : ℕ → ℕ → List Request → Type 0
  WithinTimes start time = All (λ (r : Request). (start ≤ r.now) × (r.now < start + time))

  checks_of-Within :
      (m : Remembers ops) (x id : List ℕ) (start time : ℕ) (requests : List Request)
      → WithinTimes start time requests
      → Within ops m x start time
          (checks_of ops (step ops rune id) (server_guards ops rune id) requests)
  checks_of-Within m x id start time [] within = tt
  checks_of-Within m x id start time (r ∷ requests) (now, within) =
      let later = checks_of ops (step ops rune id) (server_guards ops rune id) requests in
      by_header (bearer_of r) later (checks_of-Within m x id start time requests within)
    where
      by_header :
          (o : Option HttpHeaderHolder) (later : List (ℕ × List ℕ))
          → Within ops m x start time later
          → Within ops m x start time (with_check (checked_header ops rune id r o) later)
      by_header none later rest = rest
      by_header (some b) later rest =
          if_rule (λ o. Within ops m x start time (with_check o later)) (is_checked ops rune id r b)
            (if_rule (λ o. Within ops m x start time (with_check o later))
              (bytes_equal (synthid rune b) id) (now, rest) rest)
            rest

  -- A header with which a request was admitted is not found when it comes again within 119 seconds,
  -- whatever requests came in between. The conditions are that the header is not one that tests a
  -- proxy, that the clock is not at 0 and does not go back, that the windows of the server last 119
  -- seconds, and that the filters remember what they took.
  pub serve_http-refuses :
      (m : Remembers ops) (s : HttpServer F) (r again : Request) (b : HttpHeaderHolder)
      (after : List Request)
      → HasTimes s
      → 1 ≤ r.now
      → bearer_of r ≡ some b
      → bearer_of again ≡ some b
      → is_timely r.now b ≡ true
      → is_test r.method b ≡ false
      → is_test again.method b ≡ false
      → (prepare_for_connection ops rune r.now b s).refused ≡ false
      → WithinTimes r.now 119 after
      → r.now ≤ again.now
      → again.now < r.now + 119
      → (serve_http ops rune again (
          run ops
            (step ops rune (synthid rune b))
            (server_guards ops rune (synthid rune b))
            after
            (serve_http ops rune r s).server)).result
        ≡ not_found
  unfolding serve_http
  serve_http-refuses m s r again b after times pos opened opened_again timely no_test no_test_again
        admitted within from until =
      let id = synthid rune b in
      let x = b.rand in
      let w = checker b s in
      let w1 = (check ops r.now x w).1 in
      let s1 = (serve_opened ops rune r (bearer_of r) s).server in
      let s2 = run ops (step ops rune id) (server_guards ops rune id) after s1 in
      let cs = checks_of ops (step ops rune id) (server_guards ops rune id) after in
      let time = checker-time b s times in
      let sure : is_checked ops rune id r b ≡ true = ground arith in
      let first : window ops rune id s1 ≡ some w1 =
        ap (λ o. window ops rune id (serve_opened ops rune r o s).server) opened
        ∙ serve_header-window ops rune id r b s
        ∙ ap (λ c. if c then after_check ops rune id r.now b s else window ops rune id s) sure
        ∙ ap (λ c. if c then some w1 else window ops rune id s) (bytes_equal_refl id) in
      let last = window-run ops (step ops rune id) (server_guards ops rune id) after s1 w1 first in
      let there = loaded-checker ops rune id b (s2.client_set id) (check_all ops cs w1) last in
      let accepted : (check ops r.now x w).0 ≡ true =
        not-false (check ops r.now x w).0 (sym (prepare-refused r.now b s) ∙ admitted) in
      let rejected =
        check-rejects ops m x r.now w cs again.now pos accepted
          (subst (λ t. Within ops m x r.now t cs) (sym time)
            (checks_of-Within m x id r.now 119 after within))
          from (omega (arith, until, time)) in
      ap (λ o. (serve_opened ops rune again o s2).result) opened_again
      ∙ refused-not_found again b s2 no_test_again (
          prepare-refused again.now b s2
          ∙ ap (λ v. not (check ops again.now x v).0) there
          ∙ ap not rejected)
