-- ===== src/Server/Tracking.antt =====
-- The association of connections with channels: `isConnectionTracked`, the announcement of a new
-- channel, and `untrackConnection`.
use vlite.Base.{
  ℕ, zero, suc, ◌%◌, List, [], ◌∷◌, ◌++◌, none, some, Bool, true, false, ◌&&◌, not, if◌then◌else◌,
}
use Prim.Native.String.{String}
use vlite.Proto.{
  UdpAddr, CommandHeader, AssociateHeader, Packed, command_associate, command_associate_v6,
  command_channel_destroy, ipv4_addr_to_byte, ipv6_addr_to_byte,
}
use vlite.Server.{
  Server, Env, TrackedConnection, RemoteAddr, new_tracked_connection, is_some, load_or,
  store_channel, delete_channel, allocate_channel, lookup_tracker, put_tracker, offer_to_client,
}

abbrev pub both_v4 : Env → UdpAddr → UdpAddr → Bool
both_v4 env source dest = is_some (env.net.to4 source.ip) && is_some (env.net.to4 dest.ip)

abbrev pub associate_v4 : Env → UdpAddr → UdpAddr → ℕ → AssociateHeader
associate_v4 env source dest channel = record {
  source_ip = ipv4_addr_to_byte env.net source.ip;
  dest_ip = ipv4_addr_to_byte env.net dest.ip;
  source_port = source.port % 65536;
  dest_port = dest.port % 65536;
  channel = channel;
}

abbrev pub associate_of_v6 : Env → UdpAddr → UdpAddr → ℕ → AssociateHeader
associate_of_v6 env source dest channel = record {
  source_ip = ipv6_addr_to_byte env.net source.ip;
  dest_ip = ipv6_addr_to_byte env.net dest.ip;
  source_port = source.port % 65536;
  dest_port = dest.port % 65536;
  channel = channel;
}

abbrev pub command : ℕ → CommandHeader
command byte = record { command_byte = byte }

-- The command and the header are packed into one buffer; an error in either gives the send up.
abbrev pub offer_packed : Env → Server → Packed → Packed → Bool × Server
offer_packed env s header body =
    if not header.no_error
    then (false, s)
    else if not body.no_error
    then (false, s)
    else offer_to_client env s (header.bytes ++ body.bytes)

unfoldable pub track_connection_announce_if_possible :
    Env → Server → UdpAddr → UdpAddr → ℕ → Bool × Server
track_connection_announce_if_possible env s source dest channel =
    if both_v4 env source dest
    then offer_packed env s (env.wire.command.pack (command command_associate))
        (env.wire.associate.pack (associate_v4 env source dest channel))
    else offer_packed env s (env.wire.command.pack (command command_associate_v6))
        (env.wire.associate_v6.pack (associate_of_v6 env source dest channel))

-- The part of `isConnectionTracked` that allocates a channel, for the tracker `t`.
unfoldable pub begin_tracking :
    Env → Server → UdpAddr → UdpAddr → TrackedConnection → (Bool × ℕ) × Server
begin_tracking env s source dest t =
    let key = env.net.addr_string source in
    let remote = env.net.addr_string dest in
    let (n, s1) = allocate_channel s in
    let t1 : TrackedConnection = record t { tracking = true; channel = n } in
    if t.track_pending
    then ((false, n), put_tracker s1 key remote t1)
    else let tc : RemoteAddr = record { remote_addr = dest; local_addr = source } in
      let loaded : RemoteAddr = load_or tc (s1.tracked_remote_addr n) in
      let s2 : Server = record s1 {
        tracked_remote_addr = store_channel n loaded s1.tracked_remote_addr;
      } in
      let (pending, s3) = track_connection_announce_if_possible env s2 source dest n in
      ((false, n), put_tracker s3 key remote (record t1 { track_pending = pending }))

-- The part after the tracker `t` has been loaded or stored.
unfoldable pub answer_tracked :
    Env → Server → UdpAddr → UdpAddr → Bool → TrackedConnection → (Bool × ℕ) × Server
answer_tracked env s source dest track t =
    if t.tracked
    then ((true, t.channel), s)
    else if track
    then if t.tracking then ((false, t.channel), s) else begin_tracking env s source dest t
    else ((false, 0), s)

unfoldable pub is_connection_tracked : Env → Server → UdpAddr → UdpAddr → Bool → (Bool × ℕ) × Server
is_connection_tracked env s source dest track =
    let key = env.net.addr_string source in
    let remote = env.net.addr_string dest in
    elim (s.client_logic_connection key) [
      | none ↦ ((false, 0), s)
      | some tracker ↦
          let t : TrackedConnection =
            load_or new_tracked_connection (tracker.tracked_connection remote) in
          answer_tracked env (put_tracker s key remote t) source dest track t
    ]

unfoldable pub track_connection : Env → Server → UdpAddr → UdpAddr → Server
track_connection env s source dest = (is_connection_tracked env s source dest true).1

-- Once the message is on its way to the client, the tracker is reset and the channel forgotten.
unfoldable pub forget_channel : Env → Server → ℕ → Bool × Server
forget_channel env s channel = elim (s.tracked_remote_addr channel) [
  | none ↦ (false, s)
  | some r ↦
      let key = env.net.addr_string r.local_addr in
      elim (s.client_logic_connection key) [
        | none ↦ (false, s)
        | some tracker ↦
            let s1 = put_tracker s key (env.net.addr_string r.remote_addr) new_tracked_connection in
            (
              true,
              record s1 { tracked_remote_addr = delete_channel channel s1.tracked_remote_addr },
            )
      ]
]

unfoldable pub untrack_connection : Env → Server → ℕ → Bool × Server
untrack_connection env s channel =
    let header = env.wire.command.pack (command command_channel_destroy) in
    let body = env.wire.channel_destroy.pack (record { channel = channel }) in
    let (sent, s1) = offer_to_client env s (header.bytes ++ body.bytes) in
    if sent then forget_channel env s1 channel else (false, s)

-- The loop of `untrackAll` for one connection: eleven rounds at most, each after the timer. The
-- tracker is read again in every round.
unfoldable pub untrack_rounds : ℕ → Env → Server → String → String → Server
untrack_rounds zero env s source dest = s
untrack_rounds (suc rounds) env s source dest =
    let t : TrackedConnection = load_or new_tracked_connection (lookup_tracker s source dest) in
    let (more, s1) = untrack_connection env s t.channel in
    let rest = untrack_rounds rounds env s1 source dest in
    if not t.tracked then s else if more then rest else s1

unfoldable pub untrack_one : Env → Server → String → String → Server
untrack_one env s source dest =
    let t : TrackedConnection = load_or new_tracked_connection (lookup_tracker s source dest) in
    if t.tracking then untrack_rounds 11 env s source dest else s

-- `TrackedConnection.Range`, over the keys in the order in which the map yields them.
unfoldable pub untrack_all : Env → Server → String → List String → Server
untrack_all env s source [] = s
untrack_all env s source (dest ∷ dests) =
    untrack_all env (untrack_one env s source dest) source dests
