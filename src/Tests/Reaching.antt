-- ===== src/Tests/Reaching.antt =====
-- Examples of the runs of the server: the client has sent a packet from 10.0.0.1:4000 to
-- 8.8.8.8:53, and the connection has been announced on channel 1.
use vlite.Base.{List, ◌≡◌, refl, arith, [], ◌∷◌, none, some, true, false}
use Prim.Native.String.{String}
use vlite.Proto.{Traffic, ip_byte_to_addr}
use vlite.Channel.{new_finder, find_next, find_next_raw}
use vlite.Server.{
  Server, TrackedConnection, lookup_tracker, allocate_channel, put_tracker, offer_to_client,
  send_to_client, udp_server,
}
use vlite.Server.Tracking.{
  is_connection_tracked, answer_tracked, begin_tracking, track_connection_announce_if_possible,
  track_connection,
}
use vlite.Server.Control.{
  on_send, on_control_send, send_locked, rx_from_client, on_data, relay_data,
  on_control_associate_done,
}
use vlite.Server.Agreement.Steps.{Agrees}
use vlite.Server.Agreement.Track.{HasRoom}
use vlite.Server.Reach.{Event, received, step, run, IsAllowed, run-Agrees, run-distinct}
use vlite.Tests.Sample.{sample_env}

start-HasRoom : HasRoom (udp_server 600)
unfolding find_next find_next_raw new_finder udp_server
start-HasRoom = (refl, λ e. omega (arith, e))

-- A Send with the payload 7.
abbrev sending : Traffic
sending = record {
  channel = 0;
  payload = 1 ∷ 10 ∷ 0 ∷ 0 ∷ 1 ∷ 8 ∷ 8 ∷ 8 ∷ 8 ∷ 15 ∷ 160 ∷ 0 ∷ 53 ∷ 0 ∷ 1 ∷ 7 ∷ [];
}

-- Data with the payload 5 on a channel that is not in use, and a confirmation that breaks off: the
-- server drops both.
abbrev stray_data : Traffic
stray_data = record { channel = 7; payload = 5 ∷ [] }

abbrev broken_confirmation : Traffic
broken_confirmation = record { channel = 0; payload = 5 ∷ [] }

abbrev events : List Event
events =
    received (some 3) sending ∷ received none stray_data ∷ received none broken_confirmation ∷ []

abbrev sent_server : Server
sent_server = step sample_env (received (some 3) sending) (udp_server 600)

next-HasRoom :
    HasRoom sent_server × HasRoom (step sample_env (received none stray_data) sent_server)
unfolding lookup_tracker run step rx_from_client on_control_send on_send send_locked
    track_connection is_connection_tracked answer_tracked begin_tracking allocate_channel
    put_tracker find_next find_next_raw new_finder track_connection_announce_if_possible
    offer_to_client send_to_client udp_server ip_byte_to_addr on_data relay_data
next-HasRoom = ((refl, λ e. omega (arith, e)), (refl, λ e. omega (arith, e)))

allowed : IsAllowed sample_env events (udp_server 600)
allowed = (
  start-HasRoom,
  (λ on reads is. absurd (omega (arith, is)), λ on reads is. absurd (omega (arith, is))),
  (
    next-HasRoom.0,
    (λ on. absurd (omega (arith, on)), λ on. absurd (omega (arith, on))),
    (
      next-HasRoom.1,
      (λ on reads is ok. absurd (cc ok), λ on reads is ok. absurd (omega (arith, is))),
      _,
    ),
  ),
)

abbrev after_sending : Server
after_sending = run sample_env events (udp_server 600)

run-Agrees_example : Agrees sample_env after_sending
run-Agrees_example = run-Agrees sample_env 600 events allowed

abbrev announced : TrackedConnection
announced = record { tracking = true; track_pending = true; tracked = false; channel = 1 }

abbrev source : String
source = "10.0.0.1:4000"

abbrev dest : String
dest = "8.8.8.8:53"

sending_lookup : lookup_tracker after_sending source dest ≡ some announced
unfolding lookup_tracker run step rx_from_client on_control_send on_send send_locked
    track_connection is_connection_tracked answer_tracked begin_tracking allocate_channel
    put_tracker find_next find_next_raw new_finder track_connection_announce_if_possible
    offer_to_client send_to_client udp_server ip_byte_to_addr on_data relay_data
    on_control_associate_done
sending_lookup = refl

run-distinct_example : (source ≡ source) × (dest ≡ dest)
run-distinct_example =
    run-distinct sample_env 600 events allowed source dest source dest announced announced
      sending_lookup sending_lookup refl refl refl
