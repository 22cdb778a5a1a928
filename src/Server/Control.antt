-- ===== src/Server/Control.antt =====
-- The handlers of what comes from the client, and what goes back to it: `RxFromClientWorker`, the
-- handlers of control packets, `rxFromClientWorker_OnData` and `txToClient`.
use vlite.Base.{
  ℕ, ◌%◌, List, [], ◌∷◌, ◌++◌, Option, none, some, Bool, true, not, ◌==◌, if◌then◌else◌, length,
}
use Prim.Native.String.{String}
use vlite.Proto.{
  Traffic, UdpAddr, SendHeader, AssociateHeader, PongHeader, command_send, command_send_v6,
  command_associate_done, command_associate_done_v6, command_ping, command_pong, ip_byte_to_addr,
  ipv4_addr_to_byte, ipv6_addr_to_byte, slice_of,
}
use vlite.Server.{
  Server, Env, Client, RemoteAddr, TrackedConnection, new_client, new_tracked_connection, is_some,
  load_or, store_at, put_tracker, send_to_client,
}
use vlite.Server.Tracking.{command, is_connection_tracked, track_connection, untrack_connection}

-- A handler comes back, or waits for a mutex that nobody will unlock.
pub data Outcome : Type 0 where
  done : Server → Outcome
  blocked : Server → Outcome

abbrev pub source_of : SendHeader → UdpAddr
source_of h = record { ip = ip_byte_to_addr h.source_ip; port = h.source_port }

abbrev pub dest_of : SendHeader → UdpAddr
dest_of h = record { ip = ip_byte_to_addr h.dest_ip; port = h.dest_port }

abbrev pub put_client : Server → String → Client → Server
put_client s key client = record s {
  client_logic_connection = store_at key client s.client_logic_connection;
}

abbrev pub write_to : Server → ℕ → List ℕ → UdpAddr → Server
write_to s socket payload dest = record s {
  writes = s.writes ++ record { socket = socket; payload = payload; dest = dest } ∷ [];
}

-- The end of the handlers of Send and SendV6, with the tracker locked, by its socket. `dialed` is the answer of
-- `workers.Dialer.Dial`, if it is called. Where that fails the handler returns and leaves the
-- mutex locked.
unfoldable pub send_locked : Option ℕ → Option ℕ → Server → String → Client → SendHeader → Server
send_locked (some socket) dialed s key tracker h = write_to s socket h.payload (dest_of h)
send_locked none none s key tracker h = put_client s key (record tracker { locked = true })
send_locked none (some socket) s key tracker h =
    let waits_not : Bool = if h.dest_port == 53 then true else tracker.no_wait in
    write_to (put_client s key (record tracker { conn = some socket; no_wait = waits_not })) socket
      h.payload (dest_of h)

-- After the header has been read, whether there was an error in it or not.
unfoldable pub on_send : Env → Option ℕ → Server → SendHeader → Outcome
on_send env dialed s h =
    let source : UdpAddr = source_of h in
    let key = env.net.addr_string source in
    let tracker : Client = load_or (new_client source) (s.client_logic_connection key) in
    let s1 = put_client s key tracker in
    if tracker.locked
    then blocked s1
    else let s2 = track_connection env s1 source (dest_of h) in
      let now : Client = load_or tracker (s2.client_logic_connection key) in
      done (send_locked now.conn dialed s2 key now h)

unfoldable pub on_control_send : Env → Option ℕ → Server → List ℕ → Outcome
on_control_send env dialed s payload = on_send env dialed s (env.wire.send.unpack payload).value

unfoldable pub on_control_send_v6 : Env → Option ℕ → Server → List ℕ → Outcome
on_control_send_v6 env dialed s payload =
    on_send env dialed s (env.wire.send_v6.unpack payload).value

abbrev pub confirm : TrackedConnection → ℕ → TrackedConnection
confirm t channel = if t.channel == channel then record t { tracked = true } else t

-- The client confirms a channel.
unfoldable pub on_associate_done : Env → Server → AssociateHeader → Server
on_associate_done env s h =
    let key =
      env.net.addr_string (record { ip = ip_byte_to_addr h.source_ip; port = h.source_port }) in
    let remote =
      env.net.addr_string (record { ip = ip_byte_to_addr h.dest_ip; port = h.dest_port }) in
    elim (s.client_logic_connection key) [
      | none ↦ s
      | some tracker ↦
          let t : TrackedConnection =
            load_or new_tracked_connection (tracker.tracked_connection remote) in
          put_tracker s key remote (confirm t h.channel)
    ]

unfoldable pub on_control_associate_done : Env → Server → List ℕ → Server
on_control_associate_done env s payload =
    let h = env.wire.associate.unpack payload in
    if not h.no_error then s else on_associate_done env s h.value

unfoldable pub on_control_associate_v6_done : Env → Server → List ℕ → Server
on_control_associate_v6_done env s payload =
    let h = env.wire.associate_v6.unpack payload in
    if not h.no_error then s else on_associate_done env s h.value

unfoldable pub send_pong : Env → Server → List ℕ → Server
send_pong env s payload =
    let ping = env.wire.ping.unpack payload in
    let (sent, recv) = load_or (0, 0) env.sent_recv_stats in
    let pong : PongHeader = record {
      seq_copy = ping.value.seq;
      seq2_copy = ping.value.seq2;
      sent_packet = sent;
      recv_packet = recv;
    } in
    let header = env.wire.command.pack (command command_pong) in
    let body = env.wire.pong.pack pong in
    if not ping.no_error
    then s
    else if not header.no_error
    then s
    else if not body.no_error
    then s
    else send_to_client s (header.bytes ++ body.bytes)

-- A packet on a channel goes to the remote address for which the channel was announced, through
-- the socket of the client, if it has one.
unfoldable pub write_data : Env → Server → ℕ → List ℕ → RemoteAddr → Option Client → Server
write_data env s channel p r none = s
write_data env s channel p r (some tracker) = elim tracker.conn [
  | none ↦ (untrack_connection env s channel).1
  | some socket ↦ write_to s socket p r.remote_addr
]

unfoldable pub relay_data : Env → Server → ℕ → List ℕ → Option RemoteAddr → Server
relay_data env s channel p none = s
relay_data env s channel p (some r) =
    write_data env s channel p r (s.client_logic_connection (env.net.addr_string r.local_addr))

unfoldable pub on_data : Env → Server → ℕ → List ℕ → Server
on_data env s channel p = relay_data env s channel p (s.tracked_remote_addr channel)

-- One round of `RxFromClientWorker`.
unfoldable pub rx_from_client : Env → Option ℕ → Server → Traffic → Outcome
rx_from_client env dialed s traffic =
    let header = env.wire.command.unpack traffic.payload in
    let byte : ℕ = header.value.command_byte in
    if not (traffic.channel == 0)
    then done (on_data env s traffic.channel traffic.payload)
    else if not header.no_error
    then done s
    else if byte == command_send
    then on_control_send env dialed s header.rest
    else if byte == command_send_v6
    then on_control_send_v6 env dialed s header.rest
    else if byte == command_associate_done
    then done (on_control_associate_done env s header.rest)
    else if byte == command_associate_done_v6
    then done (on_control_associate_v6_done env s header.rest)
    else if byte == command_ping
    then done (send_pong env s header.rest)
    else done s

abbrev pub send_header : (List ℕ → List ℕ) → List ℕ → List ℕ → UdpAddr → UdpAddr → SendHeader
send_header to_byte local_ip payload to_addr from = record {
  source_ip = to_byte from.ip;
  dest_ip = to_byte local_ip;
  source_port = from.port % 65536;
  dest_port = to_addr.port % 65536;
  payload_len = length payload % 65536;
  payload = payload;
}

-- A packet from a remote address: on its channel, or with its addresses while there is none.
unfoldable pub tx_to_client : Env → Server → List ℕ → UdpAddr → UdpAddr → Server
tx_to_client env s payload local_addr from =
    let ((tracked, channel), s1) = is_connection_tracked env s local_addr from true in
    let v4 = (env.wire.command.pack (command command_send)).bytes in
    let v6 = (env.wire.command.pack (command command_send_v6)).bytes in
    let h4 : SendHeader =
      send_header (λ ip. ipv4_addr_to_byte env.net (slice_of (env.net.to4 ip))) local_addr.ip
        payload local_addr from in
    let h6 : SendHeader =
      send_header (λ ip. ipv6_addr_to_byte env.net (slice_of (env.net.to16 ip))) local_addr.ip
        payload local_addr from in
    if tracked
    then record s1 {
      tx_to_client_data =
          s1.tx_to_client_data ++ record { channel = channel; payload = payload } ∷ [];
    }
    else if is_some (env.net.to4 from.ip)
    then send_to_client s1 (v4 ++ (env.wire.send.pack h4).bytes)
    else send_to_client s1 (v6 ++ (env.wire.send_v6.pack h6).bytes)
