-- ===== src/Server/Agreement/Known.antt =====
-- A client that the server has stored stays stored while its connections are tracked.
use vlite.Base.{
  ℕ, ◌≡◌, inl, inr, refl, sym, ap, ◌∙◌, subst, arith, Bool, true, Option, some, Bool-cases, if_rule,
}
use Prim.Native.String.{String}
use text.Mathlib.Text.{◌==◌ as str_eq}
use text.Mathlib.TextEquality.{eq_iff}
use vlite.Proto.{UdpAddr}
use vlite.Server.{
  Env, Server, Client, RemoteAddr, TrackedConnection, new_tracked_connection, load_or, store_at,
  store_channel, put_tracker, allocate_channel,
}
use vlite.Server.Tracking.{
  track_connection_announce_if_possible, begin_tracking, answer_tracked, is_connection_tracked,
}
use vlite.Server.Agreement.Steps.{SameTables, announce-SameTables, allocate_channel-SameTables}
use vlite.Server.Agreement.Track.{answer_tracked_cases}
use vlite.Server.Tracking.{track_connection}
use vlite.Server.Control.{put_client}

-- A client is stored under its key, with whatever trackers.
abbrev pub IsKnown : String → Client → Server → Type 0
IsKnown key client s =
    (m : String → Option TrackedConnection) × (s.client_logic_connection key
      ≡ some (record client { tracked_connection = m }))

pub put_tracker-IsKnown :
    (key : String) (client : Client) (s : Server) (k d : String) (t : TrackedConnection)
    → IsKnown key client s
    → IsKnown key client (put_tracker s k d t)
unfolding put_tracker
put_tracker-IsKnown key client s k d t (m, known) = elim (Bool-cases (str_eq k key)) [
  | inl same ↦ (store_at d t m, rw (same, known) refl)
  | inr other ↦ (m, rw (other, known) refl)
]

pub SameTables-IsKnown :
    (key : String) (client : Client) (s s' : Server)
    → SameTables s s'
    → IsKnown key client s
    → IsKnown key client s'
SameTables-IsKnown key client s s' (remote, clients) (m, known) =
    (m, ap (λ (m : String → Option Client). m key) clients ∙ known)

pub begin_tracking-IsKnown :
    (env : Env) (key : String) (client : Client) (s : Server) (source dest : UdpAddr)
    (t : TrackedConnection)
    → IsKnown key client s
    → IsKnown key client (begin_tracking env s source dest t).1
unfolding begin_tracking
begin_tracking-IsKnown env key client s source dest t known =
    let n = (allocate_channel s).0 in
    let s1 = (allocate_channel s).1 in
    let k1 = SameTables-IsKnown key client s s1 (allocate_channel-SameTables s) known in
    let tc : RemoteAddr = record { remote_addr = dest; local_addr = source } in
    let s2 : Server = record s1 {
      tracked_remote_addr =
          store_channel n (load_or tc (s1.tracked_remote_addr n)) s1.tracked_remote_addr;
    } in
    let k2 : IsKnown key client s2 = k1 in
    let s3 = (track_connection_announce_if_possible env s2 source dest n).1 in
    let k3 = SameTables-IsKnown key client s2 s3 (announce-SameTables env s2 source dest n) k2 in
    if_rule (λ (r : (Bool × ℕ) × Server). IsKnown key client r.1) t.track_pending
      (put_tracker-IsKnown key client s1 _ _ _ k1) (put_tracker-IsKnown key client s3 _ _ _ k3)

pub is_connection_tracked-IsKnown :
    (env : Env) (s : Server) (source dest : UdpAddr) (track : Bool)
    → (client : Client) → s.client_logic_connection (env.net.addr_string source) ≡ some client
    → IsKnown (env.net.addr_string source) client (is_connection_tracked env s source dest track).1
is_connection_tracked-IsKnown env s source dest track client known =
    subst (λ (r : (Bool × ℕ) × Server). IsKnown key client r.1) (sym asks) go
  where
    key : String
    key = env.net.addr_string source

    t : TrackedConnection
    t = load_or new_tracked_connection (client.tracked_connection (env.net.addr_string dest))

    s1 : Server
    s1 = put_tracker s key (env.net.addr_string dest) t

    asks : is_connection_tracked env s source dest track ≡ answer_tracked env s1 source dest track t
    asks = unfold is_connection_tracked in rw (known, is_connection_tracked)

    k1 : IsKnown key client s1
    k1 = put_tracker-IsKnown key client s key _ t (client.tracked_connection, known)

    go : IsKnown key client (answer_tracked env s1 source dest track t).1
    go = elim (answer_tracked_cases env s1 source dest track t) [
      | inl same ↦ subst (IsKnown key client) (sym same) k1
      | inr (off, begun) ↦
          subst (IsKnown key client) (sym begun)
            (begin_tracking-IsKnown env key client s1 source dest t k1)
    ]

pub put_client_known :
    (s : Server) (key : String) (client : Client)
    → (put_client s key client).client_logic_connection key ≡ some client
put_client_known s key client = ground (arith, eq_iff key key)

pub track_connection-IsKnown :
    (env : Env) (s : Server) (source dest : UdpAddr) (client : Client)
    → s.client_logic_connection (env.net.addr_string source) ≡ some client
    → IsKnown (env.net.addr_string source) client (track_connection env s source dest)
unfolding track_connection
track_connection-IsKnown env s source dest client known =
    is_connection_tracked-IsKnown env s source dest true client known
