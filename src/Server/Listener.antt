-- ===== src/Server/Listener.antt =====
-- `rxFromRemoteListener`: the loop that reads the socket of one client, as a step for each answer of
-- the socket. Times are in seconds.
use vlite.Base.{ℕ, ◌+◌, List, Option, none, some, Bool, ltb, if◌then◌else◌}
use Prim.Native.String.{String}
use text.Mathlib.Text.{◌==◌ as str_eq}
use vlite.Proto.{UdpAddr}
use vlite.Server.{Server, Env, Client}
use vlite.Server.Tracking.{untrack_all}
use vlite.Server.Control.{tx_to_client}

-- What `SetReadDeadline` and `ReadFrom` answer in one round. A timeout or temporary error comes with
-- whether the context is still alive.
pub data Answer : Type 0 where
  deadline_failed : Answer
  packet : List ℕ → UdpAddr → Answer
  try_again : Bool → Answer
  failed : Answer

-- The loop goes on, or the listener has closed.
pub data Listening : Type 0 where
  listening : Server → Listening
  closed : Server → Listening

abbrev pub change_client : (Client → Client) → Option Client → Option Client
change_client f none = none
change_client f (some client) = some (f client)

abbrev pub set_client : Server → String → (Client → Client) → Server
set_client s key f = record s {
  client_logic_connection = λ k.
      if str_eq key k
      then change_client f (s.client_logic_connection k)
      else s.client_logic_connection k;
}

-- `tracker.LastSeen = time.Now()`, before the loop and for each packet.
unfoldable pub see : ℕ → String → Server → Server
see now key s = set_client s key (λ client. record client { last_seen = now })

-- `shutDown`. It takes the tracker's mutex and gives it back; the goroutine that unties the
-- connections is run to its end, over the keys of the map in the order of `dests`.
unfoldable pub shut_down : Env → Server → String → List String → Server
shut_down env s key dests =
    untrack_all env (set_client s key (λ client. record client { conn = none })) key dests

-- `overallTrackTime`. It is read before the loop; `NoWait` is only set before the listener starts.
unfoldable pub overall_track_time : Server → Client → ℕ
overall_track_time s tracker = if tracker.no_wait then 30 else s.udp_timeout_time

-- One round of the loop, with what the tracker holds.
unfoldable pub listener_answer :
    Env → ℕ → List String → String → Client → Answer → Server → Listening
listener_answer env now dests key tracker deadline_failed s = closed (shut_down env s key dests)
listener_answer env now dests key tracker failed s = closed (shut_down env s key dests)
listener_answer env now dests key tracker (try_again alive) s =
    if ltb (tracker.last_seen + overall_track_time s tracker) now
    then closed (shut_down env s key dests)
    else if alive
    then listening s
    else closed (shut_down env s key dests)
listener_answer env now dests key tracker (packet payload from) s =
    listening (tx_to_client env (see now key s) payload tracker.local_addr from)

unfoldable pub listener_step : Env → ℕ → List String → String → Answer → Server → Listening
listener_step env now dests key answer s = elim (s.client_logic_connection key) [
  | none ↦ closed s
  | some tracker ↦ listener_answer env now dests key tracker answer s
]
