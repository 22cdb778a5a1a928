-- ===== src/Tests/Clients.antt =====
-- Examples for the client: a connection from `home` to `remote` on channel 1, and the two ends together.
use vlite.Base.{ℕ, ◌≡◌, refl, arith, [], ◌∷◌, none, some, true, false, ◌*◌, ltb, ◌||◌, ◌-◌, ◌++◌}
use vlite.Proto.{
  Traffic, AssociateHeader, RoundTrips, command_associate, command_associate_done, ip_byte_to_addr,
}
use vlite.Server.Control.{done, put_client, rx_from_client, tx_to_client}
use vlite.ClientWorker.{
  ClientContext, UdpPacket, key_of, associated, on_associate, on_channel_destroy, rx_data,
  tx_to_server, rx_from_server, send_to_tun,
}
use vlite.ClientWorker.Ping.{PingState, ping_round, second}
use vlite.ClientWorker.Tables.{
  Linked, on_associate-Linked, on_channel_destroy-Linked, associate-tx, associate-rx,
  after_associate,
}
use vlite.ClientWorker.Pace.{Tick, round_at, ping_rounds, re_handshake-apart, ping_round-in_process}
use vlite.Server.{Server, TrackedConnection, new_client, lookup_tracker, put_tracker}
use vlite.Server.Agreement.Changes.{put_at}
use vlite.Server.Agreement.Rounds.{after}
use vlite.Server.Confirmed.{marked}
use vlite.Handshake.{v4, announces, confirms, control, announce-confirms}
use vlite.Handshake.Relay.{confirmed-relays}
use vlite.Tests.Sample.{sample_env, sample_net, sample_wire, empty_server}

abbrev empty_client : ClientContext
empty_client = record {
  tracked_channel = λ ch. none;
  tracked_addr = λ key. none;
  tx_to_server = [];
  tx_to_server_data = [];
  local_tx_to_tun = [];
  last_pong_recv = 0;
  ping_seq = 0;
  last_ping = record { seq = 0; seq2 = 0; sent_packet = 0; recv_packet = 0 };
  is_boosted = false;
  is_aggressive_ping_requested = false;
}

empty-Linked : Linked sample_net empty_client
empty-Linked = record { to_channel = λ k ch has. cc; to_addr = λ ch r has. cc }

-- The source port and the address of the destination run together in the key.
abbrev announcement : AssociateHeader
announcement = record {
  source_ip = 10 ∷ 0 ∷ 0 ∷ 1 ∷ [];
  dest_ip = 31 ∷ 2 ∷ 3 ∷ 4 ∷ [];
  source_port = 5;
  dest_port = 6;
  channel = 1;
}

on_associate-Linked_example :
    Linked sample_net (
      on_associate sample_net sample_wire.command sample_wire.associate 5 empty_client announcement)
on_associate-Linked_example =
    on_associate-Linked sample_net sample_wire.command sample_wire.associate 5 empty_client
      announcement (λ r has. cc) (λ ch has. cc) empty-Linked

abbrev one_client : ClientContext
one_client =
    after_associate sample_wire sample_net sample_wire.associate 5 empty_client announcement

on_channel_destroy-Linked_example : Linked sample_net (on_channel_destroy sample_net one_client 1)
on_channel_destroy-Linked_example =
    on_channel_destroy-Linked sample_net one_client 1 on_associate-Linked_example_again
  where
    on_associate-Linked_example_again : Linked sample_net one_client
    on_associate-Linked_example_again =
        on_associate-Linked sample_net sample_wire.command sample_wire.associate 5 empty_client
          announcement (λ r has. cc) (λ ch has. cc) empty-Linked

-- Another connection, whose key is the same string.
abbrev other_packet : UdpPacket
other_packet = record {
  source = record { ip = 10 ∷ 0 ∷ 0 ∷ 1 ∷ []; port = 53 };
  dest = record { ip = 1 ∷ 2 ∷ 3 ∷ 4 ∷ []; port = 6 };
  payload = 9 ∷ [];
}

same_key :
    key_of sample_net (record { source = other_packet.source; dest = other_packet.dest })
    ≡ key_of sample_net (associated announcement)
unfolding key_of ip_byte_to_addr
same_key = refl

associate-tx_example :
    tx_to_server sample_wire sample_net one_client other_packet
    ≡ record one_client { tx_to_server_data = record { channel = 1; payload = 9 ∷ [] } ∷ [] }
associate-tx_example =
    associate-tx sample_wire sample_net sample_wire.associate 5 empty_client announcement
      other_packet same_key

associate-rx_example : rx_data one_client (8 ∷ []) 1 ≡ record one_client {
  local_tx_to_tun =
      record {
        source = (associated announcement).dest;
        dest = (associated announcement).source;
        payload = 8 ∷ [];
      }
      ∷ [];
}
associate-rx_example =
    associate-rx sample_wire sample_net sample_wire.associate 5 empty_client announcement (8 ∷ [])

header_reads : RoundTrips sample_wire.associate announcement
header_reads = record { packs = refl; unpacks = λ rest. refl }

command_reads : (b : ℕ) → RoundTrips sample_wire.command (record { command_byte = b })
command_reads b = record { packs = refl; unpacks = λ rest. refl }

-- The server as it is after the announcement: the connection of the header has a tracker with channel 1.
abbrev announced : TrackedConnection
announced = record { tracking = true; track_pending = true; tracked = false; channel = 1 }

abbrev announcing_server : Server
announcing_server =
    put_tracker (put_client empty_server "10.0.0.1:5" (new_client (associated announcement).source))
      "10.0.0.1:5" "31.2.3.4:6" announced

has_announced : lookup_tracker announcing_server "10.0.0.1:5" "31.2.3.4:6" ≡ some announced
unfolding lookup_tracker put_tracker
has_announced = refl

announce-confirms_example :
    (reply : Traffic) × (s' : Server) × ((rx_from_server sample_wire sample_net 0 empty_client
        (control sample_wire sample_wire.associate (announces v4) announcement)).tx_to_server
      ≡ reply ∷ [])
    × (rx_from_client sample_env none announcing_server reply ≡ done s')
    × (lookup_tracker s'
        ≡ put_at "10.0.0.1:5" "31.2.3.4:6" (marked announced) (lookup_tracker announcing_server))
    × (s'.tracked_remote_addr ≡ announcing_server.tracked_remote_addr)
unfolding ip_byte_to_addr
announce-confirms_example =
    announce-confirms sample_env announcement v4 0 empty_client none announcing_server announced
      header_reads (command_reads command_associate) (command_reads command_associate_done)
      has_announced refl

-- The remote address answers, and the answer comes out at the client.
confirmed-relays_example :
    let s' = after (
      rx_from_client sample_env none announcing_server
        (control sample_wire sample_wire.associate (confirms v4) announcement)) in
    let c' =
      rx_from_server sample_wire sample_net 0 empty_client
        (control sample_wire sample_wire.associate (announces v4) announcement) in
    let sent : Traffic = record { channel = 1; payload = 8 ∷ [] } in
    let home = (associated announcement).source in
    let remote = (associated announcement).dest in
    ((tx_to_client sample_env s' (8 ∷ []) home remote).tx_to_client_data
      ≡ s'.tx_to_client_data ++ sent ∷ [])
    × ((tx_to_client sample_env s' (8 ∷ []) home remote).tx_to_client ≡ s'.tx_to_client)
    × (rx_from_server sample_wire sample_net 1 c' sent
        ≡ send_to_tun c' (record { source = remote; dest = home; payload = 8 ∷ [] }))
unfolding ip_byte_to_addr
confirmed-relays_example =
    confirmed-relays sample_env announcement v4 0 1 empty_client none announcing_server announced
      (8 ∷ []) (associated announcement).source (associated announcement).dest header_reads
      (command_reads command_associate) (command_reads command_associate_done) has_announced refl
      (λ e. omega (arith, e)) refl refl

-- A round eleven seconds after the last pong, and one a second later.
abbrev first_tick : Tick
first_tick = record { now = 20 * second; last_pong = 9 * second; requested = false }

abbrev second_tick : Tick
second_tick = record { now = 21 * second; last_pong = 9 * second; requested = true }

abbrev at_start : PingState
at_start = record { last_reconnect = 0; tl = (0, 0); in_process = false }

first_asks : (round_at first_tick at_start).re_handshake ≡ some false
unfolding ping_round
first_asks = refl

re_handshake-apart_example :
    (round_at second_tick (round_at first_tick at_start).state).re_handshake ≡ none
unfolding ping_rounds
re_handshake-apart_example =
    re_handshake-apart first_tick second_tick [] at_start false first_asks _ (omega arith)

ping_round-in_process_example :
    ((round_at second_tick at_start).state.in_process ≡ true)
    × ((round_at second_tick at_start).send ≡ (ltb (5 * second) (21 * second - 9 * second) || true))
ping_round-in_process_example = ping_round-in_process second_tick at_start
