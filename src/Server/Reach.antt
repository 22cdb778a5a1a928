-- ===== src/Server/Reach.antt =====
-- Runs of the server from its start: the packets of the client, the answers of the
-- remote sockets and the connection that takes what is to be sent, in any order.
use vlite.Base.{◌∷◌, List, [], ℕ, ◌≡◌, ◌≢◌, refl, List, drop, Option, some, true}
use Prim.Native.String.{String}
use vlite.Proto.{Traffic, command_associate_done, command_associate_done_v6}
use vlite.Server.{Server, Env, TrackedConnection, lookup_tracker, udp_server}
use vlite.Server.Control.{rx_from_client}
use vlite.Server.Listener.{Answer, listener_step}
use vlite.Server.Agreement.Steps.{Agrees}
use vlite.Server.Agreement.Track.{HasRoom}
use vlite.Server.Agreement.Rounds.{after}
use vlite.Server.Agreement.Loops.{
  left, rx_from_client-Agrees, listener_step-Agrees, channel_agreement,
}

-- A confirmation that the server handles, so one on the control channel whose command and header are
-- read without an error, names a channel other than 0. Nothing is asked of other packets.
abbrev pub NamesChannel : Env → Traffic → Type 0
NamesChannel env traffic =
    let header = env.wire.command.unpack traffic.payload in
    let body = env.wire.associate.unpack header.rest in
    let body_v6 = env.wire.associate_v6.unpack header.rest in
    (traffic.channel ≡ 0
      → header.no_error ≡ true
      → header.value.command_byte ≡ command_associate_done
      → body.no_error ≡ true
      → body.value.channel ≢ 0)
    × (traffic.channel ≡ 0
        → header.no_error ≡ true
        → header.value.command_byte ≡ command_associate_done_v6
        → body_v6.no_error ≡ true
        → body_v6.value.channel ≢ 0)

-- What a server can go through next: a packet of the client, with the answer of the dialer if it is
-- asked; an answer of a remote socket to its listener; and the connection that takes some of what is
-- to be sent.
pub data Event : Type 0 where
  received : Option ℕ → Traffic → Event
  heard : ℕ → List String → String → Answer → Event
  taken : ℕ → ℕ → Event

unfoldable pub step : Env → Event → Server → Server
step env (received dialed traffic) s = after (rx_from_client env dialed s traffic)
step env (heard now dests key answer) s = left (listener_step env now dests key answer s)
step env (taken n m) s = record s {
  tx_to_client = drop n s.tx_to_client;
  tx_to_client_data = drop m s.tx_to_client_data;
}

unfoldable pub run : Env → List Event → Server → Server
run env [] s = s
run env (e ∷ es) s = run env es (step env e s)

-- What an event needs of the client.
abbrev pub IsHonest : Env → Event → Type 0
IsHonest env (received dialed traffic) = NamesChannel env traffic
IsHonest env (heard now dests key answer) = Unit
IsHonest env (taken n m) = Unit

-- Along the run the generator has a free number, and the confirmations that the server handles name
-- channels other than 0.
abbrev pub IsAllowed : Env → List Event → Server → Type 0
IsAllowed env [] s = Unit
IsAllowed env (e ∷ es) s = HasRoom s × IsHonest env e × IsAllowed env es (step env e s)

started-Agrees : (env : Env) (timeout : ℕ) → Agrees env (udp_server timeout)
unfolding lookup_tracker udp_server
started-Agrees env timeout = record {
  forward = λ k d t has. cc;
  backward = λ ch r has. cc;
  idle = λ k d t has. cc;
  no_zero = refl;
}

taken-Agrees :
    (env : Env) (n m : ℕ) (s : Server)
    → Agrees env s
    → Agrees env (record s {
      tx_to_client = drop n s.tx_to_client;
      tx_to_client_data = drop m s.tx_to_client_data;
    })
unfolding lookup_tracker
taken-Agrees env n m s a = a

step-Agrees :
    (env : Env) (e : Event) (s : Server)
    → HasRoom s
    → IsHonest env e
    → Agrees env s
    → Agrees env (step env e s)
unfolding step
step-Agrees env (received dialed traffic) s room (v4, v6) a =
    rx_from_client-Agrees env dialed s traffic room v4 v6 a
step-Agrees env (heard now dests key answer) s room honest a =
    listener_step-Agrees env now dests key answer s room a
step-Agrees env (taken n m) s room honest a = taken-Agrees env n m s a

run_from-Agrees :
    (env : Env) (es : List Event) (s : Server)
    → IsAllowed env es s
    → Agrees env s
    → Agrees env (run env es s)
unfolding run
run_from-Agrees env [] s allowed a = a
run_from-Agrees env (e ∷ es) s (room, honest, allowed) a =
    run_from-Agrees env es (step env e s) allowed (step-Agrees env e s room honest a)

-- After any sequence of packets from the client, answers of the remote sockets and takings of what is
-- to be sent, from the start of the server, the trackers of the connections and the table of channels
-- agree: the channel of a tracking connection leads back to its addresses, every channel of the table
-- belongs to a tracking connection, a connection that is not tracking has the empty tracker, and
-- channel 0 is not in the table. The conditions are that before every event the next number of the
-- generator is free and not 0, and that no confirmation on the control channel whose command and
-- header are read without an error names channel 0.
pub run-Agrees :
    (env : Env) (timeout : ℕ) (es : List Event)
    → IsAllowed env es (udp_server timeout)
    → Agrees env (run env es (udp_server timeout))
run-Agrees env timeout es allowed =
    run_from-Agrees env es (udp_server timeout) allowed (started-Agrees env timeout)

-- After any sequence of packets from the client, answers of the remote sockets and takings of what is
-- to be sent, from the start of the server, two tracking connections that have the same channel are the
-- same connection. The conditions are that before every event the next number of the generator is free
-- and not 0, and that no confirmation on the control channel whose command and header are read
-- without an error names channel 0.
pub run-distinct :
    (env : Env) (timeout : ℕ) (es : List Event)
    → IsAllowed env es (udp_server timeout)
    → (k d k' d' : String) (t t' : TrackedConnection)
    → lookup_tracker (run env es (udp_server timeout)) k d ≡ some t
    → lookup_tracker (run env es (udp_server timeout)) k' d' ≡ some t'
    → t.tracking ≡ true
    → t'.tracking ≡ true
    → t.channel ≡ t'.channel
    → (k ≡ k') × (d ≡ d')
run-distinct env timeout es allowed =
    channel_agreement env (run env es (udp_server timeout)) (run-Agrees env timeout es allowed)
