-- ===== src/Server/Confirmed.antt =====
-- A connection of the server that the client has confirmed: `rxFromClientWorker_OnAssociateDone` sets
-- `Tracked`, after which `txToClient` uses the channel.
use vlite.Base.{
  ℕ, ◌≡◌, refl, sym, ap, ◌∙◌, true, List, [], ◌∷◌, ◌++◌, Option, some, ◌==◌, ==_refl, inl, inr,
  Option-cases, if◌then◌else◌,
}
use Prim.Native.String.{String}
use vlite.Proto.{Traffic, AssociateHeader, UdpAddr}
use vlite.Server.{
  Env, Server, Client, TrackedConnection, new_tracked_connection, load_or, lookup_tracker,
  tracker_of, put_tracker,
}
use vlite.Server.Tracking.{answer_tracked, is_connection_tracked}
use vlite.Server.Control.{confirm, on_associate_done, tx_to_client}
use vlite.Server.Agreement.Changes.{put_at}
use vlite.Server.Agreement.Steps.{lookup-put_tracker_all, remote-put_tracker}
use vlite.Server.Agreement.Track.{looked_up}
use vlite.ClientWorker.{associated}

-- The strings of the source and the destination of a header.
abbrev pub source_key : Env → AssociateHeader → String
source_key env h = env.net.addr_string (associated h).source

abbrev pub dest_key : Env → AssociateHeader → String
dest_key env h = env.net.addr_string (associated h).dest

abbrev pub marked : TrackedConnection → TrackedConnection
marked t = record t { tracked = true }

-- A connection with a tracker has a client.
tracker-client :
    (env : Env) (s : Server) (k d : String) (t : TrackedConnection)
    → lookup_tracker s k d ≡ some t
    → (client : Client) × (s.client_logic_connection k ≡ some client)
      × (client.tracked_connection d ≡ some t)
unfolding lookup_tracker
tracker-client env s k d t has = elim (Option-cases (s.client_logic_connection k)) [
  | inl missing ↦ absurd (cc (ap (λ (c : Option Client). tracker_of c d) missing, has))
  | inr (client, known) ↦ (client, known, sym (looked_up env s k d client known) ∙ has)
]

confirm_same :
    (t : TrackedConnection) (channel : ℕ) → t.channel ≡ channel → confirm t channel ≡ marked t
confirm_same t channel same =
    ap (λ c. if t.channel == c then marked t else t) (sym same)
    ∙ ap (λ b. if b then marked t else t) (==_refl t.channel)

-- The confirmation of the channel that a tracker has.
on_associate_done-marks :
    (env : Env) (s : Server) (h : AssociateHeader) (t : TrackedConnection)
    → lookup_tracker s (source_key env h) (dest_key env h) ≡ some t
    → t.channel ≡ h.channel
    → on_associate_done env s h ≡ put_tracker s (source_key env h) (dest_key env h) (marked t)
on_associate_done-marks env s h t has same =
    let (client, known, found) = tracker-client env s (source_key env h) (dest_key env h) t has in
    something client known
    ∙ ap
        (λ (o : Option TrackedConnection).
          put_tracker s (source_key env h) (dest_key env h)
            (confirm (load_or new_tracked_connection o) h.channel))
        found
    ∙ ap (put_tracker s (source_key env h) (dest_key env h)) (confirm_same t h.channel same)
  where
    something :
        (client : Client)
        → s.client_logic_connection (source_key env h) ≡ some client
        → on_associate_done env s h
          ≡ put_tracker s (source_key env h) (dest_key env h) (
              confirm
                (load_or new_tracked_connection (client.tracked_connection (dest_key env h)))
                h.channel)
    something client e = unfold on_associate_done in rw (e, on_associate_done)

-- The trackers after it, and the table of channels.
pub on_associate_done-tables :
    (env : Env) (s : Server) (h : AssociateHeader) (t : TrackedConnection)
    → lookup_tracker s (source_key env h) (dest_key env h) ≡ some t
    → t.channel ≡ h.channel
    → (lookup_tracker (on_associate_done env s h)
        ≡ put_at (source_key env h) (dest_key env h) (marked t) (lookup_tracker s))
      × ((on_associate_done env s h).tracked_remote_addr ≡ s.tracked_remote_addr)
on_associate_done-tables env s h t has same =
    let k = source_key env h in
    let d = dest_key env h in
    let e = on_associate_done-marks env s h t has same in
    let (client, known, found) = tracker-client env s k d t has in
    (
      ap lookup_tracker e ∙ lookup-put_tracker_all s k d (marked t) client known,
      ap (λ (x : Server). x.tracked_remote_addr) e ∙ remote-put_tracker s k d (marked t),
    )

-- The data that goes to the client after a packet on a channel.
abbrev pub on_channel : Server → ℕ → List ℕ → List Traffic
on_channel s channel p = s.tx_to_client_data ++ record { channel = channel; payload = p } ∷ []

is_connection_tracked-tracked :
    (env : Env) (s : Server) (a b : UdpAddr) (t : TrackedConnection)
    → lookup_tracker s (env.net.addr_string a) (env.net.addr_string b) ≡ some t
    → t.tracked ≡ true
    → is_connection_tracked env s a b true
      ≡ ((true, t.channel), put_tracker s (env.net.addr_string a) (env.net.addr_string b) t)
is_connection_tracked-tracked env s a b t has on =
    let k = env.net.addr_string a in
    let d = env.net.addr_string b in
    let (client, known, found) = tracker-client env s k d t has in
    something client known
    ∙ ap
        (λ (o : Option TrackedConnection).
          let u = load_or new_tracked_connection o in
          answer_tracked env (put_tracker s k d u) a b true u)
        found
    ∙ answered (put_tracker s k d t)
  where
    something :
        (client : Client)
        → s.client_logic_connection (env.net.addr_string a) ≡ some client
        → is_connection_tracked env s a b true ≡ (
            let u =
              load_or new_tracked_connection (client.tracked_connection (env.net.addr_string b)) in
            answer_tracked env
              (put_tracker s (env.net.addr_string a) (env.net.addr_string b) u)
              a
              b
              true
              u)
    something client e = unfold is_connection_tracked in rw (e, is_connection_tracked)

    answered : (s1 : Server) → answer_tracked env s1 a b true t ≡ ((true, t.channel), s1)
    answered s1 = unfold answer_tracked in rw on refl

-- A packet for a connection that is tracked goes on its channel, and on the control channel goes nothing.
pub tx_to_client-tracked :
    (env : Env) (s : Server) (p : List ℕ) (a b : UdpAddr) (t : TrackedConnection)
    → lookup_tracker s (env.net.addr_string a) (env.net.addr_string b) ≡ some t
    → t.tracked ≡ true
    → ((tx_to_client env s p a b).tx_to_client_data ≡ on_channel s t.channel p)
      × ((tx_to_client env s p a b).tx_to_client ≡ s.tx_to_client)
unfolding tx_to_client put_tracker
tx_to_client-tracked env s p a b t has on =
    rw (is_connection_tracked-tracked env s a b t has on) (refl, refl)
