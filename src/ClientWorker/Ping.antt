-- ===== src/ClientWorker/Ping.antt =====
-- The pings of the client: `sendPing`, a round of `pingRoutine`, and `boostWorker`.
-- Times are in nanoseconds, also where the source compares seconds in floating point.
use vlite.Base.{
  ℕ, ◌+◌, ◌-◌, ◌*◌, ◌%◌, ◌^◌, ◌++◌, Option, none, some, Bool, true, false, ltb, ◌&&◌, ◌||◌, not,
  if◌then◌else◌, length,
}
use vlite.Proto.{Wire, PingHeader, command_ping}
use vlite.ClientWorker.{ClientContext, send_to_server}

abbrev pub second : ℕ
second = 1000000000

-- The header that `sendPing` sends after it has counted.
abbrev pub ping_header : ℕ → Option (ℕ × ℕ) → ClientContext → PingHeader
ping_header now none c = record { seq = c.ping_seq; seq2 = now; sent_packet = 0; recv_packet = 0 }
ping_header now (some (sent, recv)) c = record {
  seq = c.ping_seq;
  seq2 = now;
  sent_packet = sent;
  recv_packet = recv;
}

-- `sendPing`, with `OnSendPing`. The send gives up where `TxToServer` has no room.
unfoldable pub send_ping : Wire → Option (ℕ × ℕ) → ℕ → ℕ → ClientContext → ClientContext
send_ping wire stats room now c =
    let header = wire.command.pack (record { command_byte = command_ping }) in
    let c1 : ClientContext = record c { ping_seq = (c.ping_seq + 1) % 2 ^ 64 } in
    let ping : PingHeader = ping_header now stats c1 in
    let c2 : ClientContext = record c1 { last_ping = ping } in
    if ltb (length c.tx_to_server) room
    then send_to_server c2 (header.bytes ++ (wire.ping.pack ping).bytes)
    else c2

-- The variables of `pingRoutine`. `tl` is a duration, of either sign: the two times whose difference
-- it is.
pub record PingState : Type 0 where
  pub last_reconnect : ℕ
  pub tl : ℕ × ℕ
  pub in_process : Bool

-- What a round asks for: whether `ReHandshake2` is called, and with which flag; whether a ping is to
-- be sent; whether the program is to exit, unless that is switched off.
pub record PingRound : Type 0 where
  pub state : PingState
  pub re_handshake : Option Bool
  pub send : Bool
  pub exit : Bool
  pub requested : Bool

-- The round at `now`, by the time of the last pong and the request for aggressive pings. A difference
-- that is negative is 0 where it is only compared with a positive number of seconds.
unfoldable pub ping_round : ℕ → ℕ → Bool → PingState → PingRound
ping_round now last_pong requested s =
    let t = now - last_pong in
    let late = ltb (1600000000 + s.tl.0 + last_pong) (now + s.tl.1) in
    let lost = ltb (10 * second) t || (s.in_process && late) in
    let since = now - s.last_reconnect in
    let asks = lost && ltb (6 * second) since in
    let in_process = s.in_process && not lost && late in
    record {
      state = record {
        last_reconnect = if asks then now else s.last_reconnect;
        tl = if requested then (now, last_pong) else s.tl;
        in_process = requested || in_process;
      };
      re_handshake = if asks then some (ltb since (10 * second)) else none;
      send = ltb (5 * second) t || in_process || requested;
      exit = ltb (180 * second) t;
      requested = false;
    }

-- A round of the routine, and the ping that it sends.
unfoldable pub ping_step :
    Wire → Option (ℕ × ℕ) → ℕ → ℕ → PingState → ClientContext → PingRound × ClientContext
ping_step wire stats room now s c =
    let r = ping_round now c.last_pong_recv c.is_aggressive_ping_requested s in
    let c1 : ClientContext = record c { is_aggressive_ping_requested = r.requested } in
    (r, if r.send then send_ping wire stats room now c1 else c1)

-- `boostWorker`: a hint, with the time for which it asks, or the end of its timer.
pub data BoostEvent : Type 0 where
  hint : Bool → BoostEvent
  boost_end : BoostEvent

-- `currentlyBoosting` after an event; it is written to `isBoosted` each time.
unfoldable pub boost_step : BoostEvent → Bool → ClientContext → Bool × ClientContext
boost_step (hint enable) boosting c = let b = enable || boosting in (b, record c { is_boosted = b })
boost_step boost_end boosting c = (false, record c { is_boosted = false })

-- `AggressivePingBegin`, by the timer of `RxFromServerWorker`, a second after the last packet.
unfoldable pub boosted_ping_timer : ClientContext → ClientContext
boosted_ping_timer c =
    if not c.is_boosted then c else record c { is_aggressive_ping_requested = true }
