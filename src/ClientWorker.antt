-- ===== src/ClientWorker.antt =====
-- workers/client/clientWorker.go: the client's table of channels, its handlers of what comes from the
-- server, and the sending of packets to the server. workers/client/boosting.go and
-- transport/transportQuality: what the client keeps for its pings.
pub mod Ping
pub mod Tables
pub mod Pace
use vlite.Base.{
  ℕ, ◌+◌, ◌%◌, List, [], ◌∷◌, ◌++◌, Option, none, some, Bool, true, false, not, ◌&&◌, ◌==◌,
  if◌then◌else◌, length,
}
use Prim.Native.String.{String}
use Prim.Native.String
use text.Mathlib.Text.{◌==◌ as str_eq}
use vlite.Proto.{
  Traffic, UdpAddr, Wire, Net, CommandHeader, Codec, SendHeader, AssociateHeader, PingHeader,
  command_send, command_send_v6, command_associate, command_associate_v6, command_associate_done,
  command_associate_done_v6, command_channel_destroy, command_pong, ip_byte_to_addr,
  ipv4_addr_to_byte, ipv6_addr_to_byte, slice_of,
}

-- interfaces/dialer.go: `UDPPacket`.
pub record UdpPacket : Type 0 where
  pub source : UdpAddr
  pub dest : UdpAddr
  pub payload : List ℕ

-- `UDPClientTrackedAddrKey`.
pub record TrackedAddrKey : Type 0 where
  pub source : UdpAddr
  pub dest : UdpAddr

-- `Key()`: the two addresses as strings, one after the other.
unfoldable pub key_of : Net → TrackedAddrKey → String
key_of net k = Prim.Native.String.◌++◌ (net.addr_string k.source) (net.addr_string k.dest)

-- `UDPClientContext`. A Go channel is the list of what was sent on it and not yet received; times
-- are in nanoseconds.
pub record ClientContext : Type 0 where
  pub tracked_channel : ℕ → Option TrackedAddrKey
  pub tracked_addr : String → Option ℕ
  pub tx_to_server : List Traffic
  pub tx_to_server_data : List Traffic
  pub local_tx_to_tun : List UdpPacket
  pub last_pong_recv : ℕ
  pub ping_seq : ℕ
  pub last_ping : PingHeader
  pub is_boosted : Bool
  pub is_aggressive_ping_requested : Bool

abbrev pub store_addr : String → ℕ → (String → Option ℕ) → String → Option ℕ
store_addr k c m j = if str_eq k j then some c else m j

abbrev pub delete_addr : String → (String → Option ℕ) → String → Option ℕ
delete_addr k m j = if str_eq k j then none else m j

abbrev pub store_key : ℕ → TrackedAddrKey → (ℕ → Option TrackedAddrKey) → ℕ → Option TrackedAddrKey
store_key c k m j = if c == j then some k else m j

abbrev pub delete_key : ℕ → (ℕ → Option TrackedAddrKey) → ℕ → Option TrackedAddrKey
delete_key c m j = if c == j then none else m j

-- A send on `TxToServer` that waits for room.
abbrev pub send_to_server : ClientContext → List ℕ → ClientContext
send_to_server c payload = record c {
  tx_to_server = c.tx_to_server ++ record { channel = 0; payload = payload } ∷ [];
}

abbrev pub send_to_tun : ClientContext → UdpPacket → ClientContext
send_to_tun c packet = record c { local_tx_to_tun = c.local_tx_to_tun ++ packet ∷ [] }

-- `rxFromServerWorker_OnControlSend` and `…V6` after the header is read, with or without an error.
unfoldable pub on_control_send : ClientContext → SendHeader → ClientContext
on_control_send c h = send_to_tun c (record {
  source = record { ip = ip_byte_to_addr h.source_ip; port = h.source_port };
  dest = record { ip = ip_byte_to_addr h.dest_ip; port = h.dest_port };
  payload = h.payload;
})

-- The connection that an announcement is about.
abbrev pub associated : AssociateHeader → TrackedAddrKey
associated h = record {
  source = record { ip = ip_byte_to_addr h.source_ip; port = h.source_port };
  dest = record { ip = ip_byte_to_addr h.dest_ip; port = h.dest_port };
}

-- The two stores, and the reply, which repeats the announcement.
unfoldable pub on_associate :
    Net
    → Codec CommandHeader
    → Codec AssociateHeader
    → ℕ
    → ClientContext
    → AssociateHeader
    → ClientContext
on_associate net command codec reply c h =
    send_to_server
      (record c {
        tracked_addr = store_addr (key_of net (associated h)) h.channel c.tracked_addr;
        tracked_channel = store_key h.channel (associated h) c.tracked_channel;
      })
      ((command.pack (record { command_byte = reply })).bytes ++ (codec.pack h).bytes)

unfoldable pub on_control_associate : Wire → Net → ClientContext → List ℕ → ClientContext
on_control_associate wire net c payload =
    on_associate net wire.command wire.associate command_associate_done c
      (wire.associate.unpack payload).value

unfoldable pub on_control_associate_v6 : Wire → Net → ClientContext → List ℕ → ClientContext
on_control_associate_v6 wire net c payload =
    on_associate net wire.command wire.associate_v6 command_associate_done_v6 c
      (wire.associate_v6.unpack payload).value

-- The two deletions, for the key that the channel had.
abbrev pub forget : Net → ClientContext → ℕ → Option TrackedAddrKey → ClientContext
forget net c channel none = c
forget net c channel (some k) = record c {
  tracked_addr = delete_addr (key_of net k) c.tracked_addr;
  tracked_channel = delete_key channel c.tracked_channel;
}

unfoldable pub on_channel_destroy : Net → ClientContext → ℕ → ClientContext
on_channel_destroy net c channel = forget net c channel (c.tracked_channel channel)

unfoldable pub on_control_channel_destroy : Wire → Net → ClientContext → List ℕ → ClientContext
on_control_channel_destroy wire net c payload =
    on_channel_destroy net c (wire.channel_destroy.unpack payload).value.channel

-- A packet on a channel comes from the destination of the connection, and goes to its source.
abbrev pub deliver : ClientContext → List ℕ → Option TrackedAddrKey → ClientContext
deliver c p none = c
deliver c p (some k) = send_to_tun c (record { source = k.dest; dest = k.source; payload = p })

unfoldable pub rx_data : ClientContext → List ℕ → ℕ → ClientContext
rx_data c p channel = deliver c p (c.tracked_channel channel)

-- `rxFromServerWorker_OnControlPong`; `OnReceivePong` only prints.
unfoldable pub on_control_pong : ℕ → ClientContext → ClientContext
on_control_pong now c = record c { last_pong_recv = now }

-- The traffic case of `RxFromServerWorker`.
unfoldable pub rx_from_server : Wire → Net → ℕ → ClientContext → Traffic → ClientContext
rx_from_server wire net now c traffic =
    let header = wire.command.unpack traffic.payload in
    let byte : ℕ = header.value.command_byte in
    if not (traffic.channel == 0)
    then rx_data c traffic.payload traffic.channel
    else if not header.no_error
    then c
    else if byte == command_send
    then on_control_send c (wire.send.unpack header.rest).value
    else if byte == command_send_v6
    then on_control_send c (wire.send_v6.unpack header.rest).value
    else if byte == command_associate
    then on_control_associate wire net c header.rest
    else if byte == command_associate_v6
    then on_control_associate_v6 wire net c header.rest
    else if byte == command_channel_destroy
    then on_control_channel_destroy wire net c header.rest
    else if byte == command_pong
    then on_control_pong now c
    else c

abbrev pub is_v4 : Net → UdpAddr → Bool
is_v4 net a = elim (net.to4 a.ip) [ none ↦ false | some ip ↦ true ]

abbrev pub send_header : (List ℕ → List ℕ) → UdpPacket → SendHeader
send_header to_byte pack = record {
  source_ip = to_byte pack.source.ip;
  dest_ip = to_byte pack.dest.ip;
  source_port = pack.source.port % 65536;
  dest_port = pack.dest.port % 65536;
  payload_len = length pack.payload % 65536;
  payload = pack.payload;
}

abbrev pub send_header_v4 : Net → UdpPacket → SendHeader
send_header_v4 net = send_header (λ ip. ipv4_addr_to_byte net (slice_of (net.to4 ip)))

abbrev pub send_header_v6 : Net → UdpPacket → SendHeader
send_header_v6 net = send_header (λ ip. ipv6_addr_to_byte net (slice_of (net.to16 ip)))

-- `txToServerWorker`: on the channel of the connection, or with the addresses while there is none.
unfoldable pub tx_on : Wire → Net → ClientContext → UdpPacket → Option ℕ → ClientContext
tx_on wire net c pack (some channel) = record c {
  tx_to_server_data =
      c.tx_to_server_data ++ record { channel = channel; payload = pack.payload } ∷ [];
}
tx_on wire net c pack none =
    if is_v4 net pack.source && is_v4 net pack.dest
    then send_to_server c (
        (wire.command.pack (record { command_byte = command_send })).bytes
        ++ (wire.send.pack (send_header_v4 net pack)).bytes)
    else send_to_server c (
        (wire.command.pack (record { command_byte = command_send_v6 })).bytes
        ++ (wire.send_v6.pack (send_header_v6 net pack)).bytes)

unfoldable pub tx_to_server : Wire → Net → ClientContext → UdpPacket → ClientContext
tx_to_server wire net c pack =
    tx_on wire net c pack
      (c.tracked_addr (key_of net (record { source = pack.source; dest = pack.dest })))
