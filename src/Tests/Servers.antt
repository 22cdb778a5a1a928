-- ===== src/Tests/Servers.antt =====
-- Examples for the server: a client at `home` that has sent to `remote`.
use vlite.Base.{List, refl, arith, [], ◌∷◌, none, some, true}
use vlite.Proto.{Traffic, SendHeader, AssociateHeader}
use vlite.Channel.{new_finder, find_next, find_next_raw}
use vlite.Server.{Server, new_client, lookup_tracker}
use vlite.Server.Tracking.{is_connection_tracked, untrack_all}
use vlite.Server.Control.{put_client, on_send, on_associate_done, on_data, rx_from_client}
use vlite.Server.Listener.{packet, listener_step}
use vlite.Server.Agreement.Steps.{Agrees}
use vlite.Server.Agreement.Track.{HasRoom, is_connection_tracked-Agrees}
use vlite.Server.Agreement.Handlers.{
  put_client-Agrees, untrack_all-Agrees, on_associate_done-Agrees,
}
use vlite.Server.Agreement.Rounds.{after, on_send-Agrees, on_data-Agrees}
use vlite.Server.Agreement.Loops.{left, rx_from_client-Agrees, listener_step-Agrees}
use vlite.Server.Reach.{Event, received, taken}
use vlite.Tests.Sample.{sample_env, empty_server, home, remote}

empty-Agrees : Agrees sample_env empty_server
unfolding lookup_tracker
empty-Agrees = record {
  forward = λ k d t has. cc;
  backward = λ ch r has. cc;
  idle = λ k d t has. cc;
  no_zero = refl;
}

empty-HasRoom : HasRoom empty_server
unfolding find_next find_next_raw new_finder
empty-HasRoom = (refl, λ e. omega (arith, e))

-- The client is known, without trackers.
abbrev known_server : Server
known_server = put_client empty_server "10.0.0.1:4000" (new_client home)

known-Agrees : Agrees sample_env known_server
unfolding lookup_tracker
known-Agrees =
    put_client-Agrees sample_env empty_server "10.0.0.1:4000" (new_client home) (λ d. refl)
      empty-Agrees

known-HasRoom : HasRoom known_server
known-HasRoom = empty-HasRoom

is_connection_tracked-Agrees_example :
    Agrees sample_env (is_connection_tracked sample_env known_server home remote true).1
is_connection_tracked-Agrees_example =
    is_connection_tracked-Agrees sample_env known_server home remote true known-HasRoom known-Agrees

-- A packet from `home` to `remote`.
abbrev sent : SendHeader
sent = record {
  source_ip = home.ip;
  dest_ip = remote.ip;
  source_port = 4000;
  dest_port = 53;
  payload_len = 1;
  payload = 7 ∷ [];
}

on_send-Agrees_example : Agrees sample_env (after (on_send sample_env (some 3) empty_server sent))
on_send-Agrees_example =
    on_send-Agrees sample_env (some 3) empty_server sent empty-HasRoom empty-Agrees

-- The server after the connection has been announced on channel 1.
abbrev tracking_server : Server
tracking_server = (is_connection_tracked sample_env known_server home remote true).1

tracking-Agrees : Agrees sample_env tracking_server
tracking-Agrees =
    is_connection_tracked-Agrees sample_env known_server home remote true known-HasRoom known-Agrees

abbrev confirmation : AssociateHeader
confirmation = record {
  source_ip = home.ip;
  dest_ip = remote.ip;
  source_port = 4000;
  dest_port = 53;
  channel = 1;
}

on_associate_done-Agrees_example :
    Agrees sample_env (on_associate_done sample_env tracking_server confirmation)
on_associate_done-Agrees_example =
    on_associate_done-Agrees sample_env tracking_server confirmation (λ e. omega (arith, e))
      tracking-Agrees

untrack_all-Agrees_example :
    Agrees sample_env (untrack_all sample_env tracking_server "10.0.0.1:4000" ("8.8.8.8:53" ∷ []))
untrack_all-Agrees_example =
    untrack_all-Agrees sample_env tracking_server "10.0.0.1:4000" ("8.8.8.8:53" ∷ [])
      tracking-Agrees

on_data-Agrees_example : Agrees sample_env (on_data sample_env tracking_server 1 (7 ∷ []))
on_data-Agrees_example = on_data-Agrees sample_env tracking_server 1 (7 ∷ []) tracking-Agrees

-- The confirmation as it comes from the client.
abbrev confirming : Traffic
confirming = record {
  channel = 0;
  payload = 5 ∷ 10 ∷ 0 ∷ 0 ∷ 1 ∷ 8 ∷ 8 ∷ 8 ∷ 8 ∷ 15 ∷ 160 ∷ 0 ∷ 53 ∷ 0 ∷ 1 ∷ [];
}

rx_from_client-Agrees_example :
    Agrees sample_env (after (rx_from_client sample_env none known_server confirming))
rx_from_client-Agrees_example =
    rx_from_client-Agrees sample_env none known_server confirming known-HasRoom
      (λ on reads is ok e. omega (arith, e)) (λ on reads is. absurd (omega (arith, is)))
      known-Agrees

listener_step-Agrees_example :
    Agrees sample_env
      (left (listener_step sample_env 9 [] "10.0.0.1:4000" (packet (7 ∷ []) remote) known_server))
listener_step-Agrees_example =
    listener_step-Agrees sample_env 9 [] "10.0.0.1:4000" (packet (7 ∷ []) remote) known_server
      known-HasRoom known-Agrees

-- Another source sends, and something is taken, before the next packet.
abbrev in_between : List Event
in_between =
    received (some 4) (record {
      channel = 0;
      payload = 1 ∷ 10 ∷ 0 ∷ 0 ∷ 2 ∷ 8 ∷ 8 ∷ 8 ∷ 8 ∷ 15 ∷ 160 ∷ 0 ∷ 53 ∷ 0 ∷ 1 ∷ 7 ∷ [];
    })
    ∷ taken 1 0
    ∷ []
