-- ===== src/Server.antt =====
-- workers/server/serverWorker.go: the state of the server end of one client connection.
-- A `sync.Map` is a function into `Option`; the trackers that it points to are stored in it, and
-- since no tracker is ever deleted, a pointer to one is the key under which it is stored.
pub mod Tracking
pub mod Control
pub mod Listener
pub mod Agreement
pub mod Confirmed
pub mod Dialing
pub mod Locks
pub mod Reach
use vlite.Base.{
  ℕ, ◌+◌, List, [], ◌∷◌, ◌++◌, Option, none, some, Bool, true, false, ltb, ◌==◌, if◌then◌else◌,
  length,
}
use Prim.Native.String.{String}
use text.Mathlib.Text.{◌==◌ as str_eq}
use vlite.Proto.{Traffic, UdpAddr, Wire, Net}
use vlite.Channel.{Finder, new_finder, find_next}

-- `UDPServerTrackedRemoteAddrContext`.
pub record RemoteAddr : Type 0 where
  pub remote_addr : UdpAddr
  pub local_addr : UdpAddr

-- `UDPTrackedConnectionContext`.
pub record TrackedConnection : Type 0 where
  pub tracking : Bool
  pub track_pending : Bool
  pub tracked : Bool
  pub channel : ℕ

-- `&UDPTrackedConnectionContext{}`.
abbrev pub new_tracked_connection : TrackedConnection
new_tracked_connection = record {
  tracking = false;
  track_pending = false;
  tracked = false;
  channel = 0;
}

-- `UDPServerClientLogicConnectionContext`. A socket is a number; `locked` says that the mutex is
-- held when no handler runs. `last_seen` counts seconds.
pub record Client : Type 0 where
  pub local_addr : UdpAddr
  pub tracked_connection : String → Option TrackedConnection
  pub locked : Bool
  pub conn : Option ℕ
  pub last_seen : ℕ
  pub no_wait : Bool

abbrev pub new_client : UdpAddr → Client
new_client local_addr = record {
  local_addr = local_addr;
  tracked_connection = λ _. none;
  locked = false;
  conn = none;
  last_seen = 0;
  no_wait = false;
}

-- A packet that was written to a socket.
pub record Write : Type 0 where
  pub socket : ℕ
  pub payload : List ℕ
  pub dest : UdpAddr

-- `UDPServerContext`. The Go channels are the lists of what was sent on them and not yet received;
-- `writes` is what went to the sockets, oldest first.
pub record Server : Type 0 where
  pub tracked_remote_addr : ℕ → Option RemoteAddr
  pub client_logic_connection : String → Option Client
  pub tx_to_client : List Traffic
  pub tx_to_client_data : List Traffic
  pub channel_number_generator : Finder
  pub udp_timeout_time : ℕ
  pub writes : List Write

-- What a handler uses and does not change: the libraries, the room in the channel `TxToClient`
-- that a send without waiting needs, and `GetTransmitLayerSentRecvStats`, if there is one.
pub record Env : Type 0 where
  pub wire : Wire
  pub net : Net
  pub tx_to_client_room : ℕ
  pub sent_recv_stats : Option (ℕ × ℕ)

-- `m.Store(k, v)` for the two kinds of keys.
abbrev pub store_at {ℓ} : {V : Type ℓ} → String → V → (String → Option V) → String → Option V
store_at k v m j = if str_eq k j then some v else m j

abbrev pub store_channel {ℓ} : {V : Type ℓ} → ℕ → V → (ℕ → Option V) → ℕ → Option V
store_channel k v m j = if k == j then some v else m j

abbrev pub delete_channel {ℓ} : {V : Type ℓ} → ℕ → (ℕ → Option V) → ℕ → Option V
delete_channel k m j = if k == j then none else m j

abbrev pub load_or {ℓ} : {V : Type ℓ} → V → Option V → V
load_or v none = v
load_or v (some w) = w

abbrev pub is_some {ℓ} : {V : Type ℓ} → Option V → Bool
is_some none = false
is_some (some v) = true

unfoldable pub is_channel_used : Server → ℕ → Bool
is_channel_used s u = is_some (s.tracked_remote_addr u)

-- `ChannelNumberGenerator.FindNext()`. The finder of a server has no masks, so it always answers.
unfoldable pub allocate_channel : Server → ℕ × Server
allocate_channel s = elim (find_next (is_channel_used s) s.channel_number_generator) [
  | none ↦ (0, s)
  | some (n, finder) ↦ (n, record s { channel_number_generator = finder })
]

-- The tracker of a connection, and a write through the pointer to it.
abbrev pub tracker_of : Option Client → String → Option TrackedConnection
tracker_of none dest = none
tracker_of (some client) dest = client.tracked_connection dest

unfoldable pub lookup_tracker : Server → String → String → Option TrackedConnection
lookup_tracker s source dest = tracker_of (s.client_logic_connection source) dest

abbrev pub put_in_client : String → TrackedConnection → Option Client → Option Client
put_in_client dest t none = none
put_in_client dest t (some client) =
    some (record client { tracked_connection = store_at dest t client.tracked_connection })

unfoldable pub put_tracker : Server → String → String → TrackedConnection → Server
put_tracker s source dest t = record s {
  client_logic_connection = λ k.
      if str_eq source k
      then put_in_client dest t (s.client_logic_connection k)
      else s.client_logic_connection k;
}

-- A send on `TxToClient` that waits for room, and one that gives up without it.
unfoldable pub send_to_client : Server → List ℕ → Server
send_to_client s payload = record s {
  tx_to_client = s.tx_to_client ++ record { channel = 0; payload = payload } ∷ [];
}

unfoldable pub offer_to_client : Env → Server → List ℕ → Bool × Server
offer_to_client env s payload =
    if ltb (length s.tx_to_client) env.tx_to_client_room
    then (true, send_to_client s payload)
    else (false, s)

-- `UDPServer`, with the timeout of its options.
unfoldable pub udp_server : ℕ → Server
udp_server timeout = record {
  tracked_remote_addr = λ ch. none;
  client_logic_connection = λ key. none;
  tx_to_client = [];
  tx_to_client_data = [];
  channel_number_generator = new_finder 0 0;
  udp_timeout_time = timeout;
  writes = [];
}
