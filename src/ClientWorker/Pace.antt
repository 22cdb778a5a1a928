-- ===== src/ClientWorker/Pace.antt =====
-- How often `pingRoutine` asks for a new handshake, and how long aggressive pings last.
use vlite.Base.{
  ℕ, ◌+◌, ◌-◌, ◌*◌, ◌≤◌, ◌≡◌, refl, sym, ap, ◌∙◌, subst, arith, List, [], ◌∷◌, none, some, Bool,
  true, false, not, ◌&&◌, ◌||◌, ltb, if◌then◌else◌, All,
}
use vlite.ClientWorker.Ping.{PingState, PingRound, ping_round, second}

-- When a round is, when the last pong was, and whether aggressive pings are requested.
pub record Tick : Type 0 where
  pub now : ℕ
  pub last_pong : ℕ
  pub requested : Bool

abbrev pub round_at : Tick → PingState → PingRound
round_at t s = ping_round t.now t.last_pong t.requested s

unfoldable pub ping_rounds : List Tick → PingState → PingState
ping_rounds [] s = s
ping_rounds (t ∷ ts) s = ping_rounds ts (round_at t s).state

asked : {b : Bool} (c : Bool) (p : Bool) → (if c then some p else none) ≡ some b → c ≡ true
asked true p e = refl
asked false p e = cc

ask_sets :
    (t : Tick) (s : PingState) (b : Bool)
    → (round_at t s).re_handshake ≡ some b
    → (round_at t s).state.last_reconnect ≡ t.now
unfolding ping_round
ask_sets t s b e =
    let wait = t.now - t.last_pong in
    let asks =
      (ltb (10 * second) wait
        || (s.in_process && ltb (1600000000 + s.tl.0 + t.last_pong) (t.now + s.tl.1)))
      && ltb (6 * second) (t.now - s.last_reconnect) in
    ap (λ c. if c then t.now else s.last_reconnect) (asked asks _ e)

early :
    (t : Tick) (s : PingState)
    → t.now ≤ s.last_reconnect + 6 * second
    → ((round_at t s).re_handshake ≡ none)
      × ((round_at t s).state.last_reconnect ≡ s.last_reconnect)
unfolding ping_round
early t s soon =
    let wait = t.now - t.last_pong in
    let lost =
      ltb (10 * second) wait
      || (s.in_process && ltb (1600000000 + s.tl.0 + t.last_pong) (t.now + s.tl.1)) in
    let no : ltb (6 * second) (t.now - s.last_reconnect) ≡ false = ground arith in
    let none_asked : (lost && ltb (6 * second) (t.now - s.last_reconnect)) ≡ false =
      ap (λ c. lost && c) no ∙ and_false lost in
    (
      ap (λ c. if c then some (ltb (t.now - s.last_reconnect) (10 * second)) else none) none_asked,
      ap (λ c. if c then t.now else s.last_reconnect) none_asked,
    )
  where
    and_false : (c : Bool) → (c && false) ≡ false
    and_false true = refl
    and_false false = refl

early-All :
    (ts : List Tick) (s : PingState)
    → All (λ (t : Tick). t.now ≤ s.last_reconnect + 6 * second) ts
    → (ping_rounds ts s).last_reconnect ≡ s.last_reconnect
unfolding ping_rounds
early-All [] s soon = refl
early-All (t ∷ ts) s (at, soon) =
    let same = (early t s at).1 in
    early-All ts (round_at t s).state
      (subst (λ l. All (λ (u : Tick). u.now ≤ l + 6 * second) ts) (sym same) soon)
    ∙ same

-- After a round that asks for a new handshake, no round of the next six seconds asks for one, whatever
-- pongs and requests there are in between.
pub re_handshake-apart :
    (t u : Tick) (ts : List Tick) (s : PingState) (b : Bool)
    → (round_at t s).re_handshake ≡ some b
    → All (λ (v : Tick). v.now ≤ t.now + 6 * second) ts
    → u.now ≤ t.now + 6 * second
    → (round_at u (ping_rounds ts (round_at t s).state)).re_handshake ≡ none
re_handshake-apart t u ts s b asks within last =
    let set = ask_sets t s b asks in
    let kept =
      early-All ts (round_at t s).state
        (subst (λ l. All (λ (v : Tick). v.now ≤ l + 6 * second) ts) (sym set) within) in
    (early u (ping_rounds ts (round_at t s).state)
      (subst (λ l. u.now ≤ l + 6 * second) (sym (kept ∙ set)) last)).0

-- Aggressive pings last for the round after the request: a round leaves them on only where it has
-- itself been requested to, and they never make a ping that the round would not send without them.
pub ping_round-in_process :
    (t : Tick) (s : PingState)
    → ((round_at t s).state.in_process ≡ t.requested)
      × ((round_at t s).send ≡ (ltb (5 * second) (t.now - t.last_pong) || t.requested))
unfolding ping_round
ping_round-in_process t s =
    let wait = t.now - t.last_pong in
    dead s.in_process (ltb (1600000000 + s.tl.0 + t.last_pong) (t.now + s.tl.1))
      (ltb (10 * second) wait) (ltb (5 * second) wait) t.requested
  where
    dead :
        (p late ten five r : Bool)
        → let lost = ten || (p && late) in
          let q = p && not lost && late in ((r || q) ≡ r) × ((five || q || r) ≡ (five || r))
    dead p late ten five r = ground arith
