-- ===== src/Server/Agreement/Track.antt =====
-- `isConnectionTracked` and `untrackConnection` keep the agreement of the tables.
use vlite.Base.{
  ℕ, ◌≡◌, ◌≢◌, ◌⊎◌, inl, inr, refl, sym, ap, ◌∙◌, subst, arith, Bool, true, false, Option, none,
  some, some_eq, if◌then◌else◌, Option-cases,
}
use Prim.Native.String.{String}
use text.Mathlib.TextEquality.{eq_iff}
use vlite.Proto.{UdpAddr}
use vlite.Channel.{Finder, find_next}
use vlite.Server.{
  Env, Server, Client, RemoteAddr, TrackedConnection, new_tracked_connection, is_some, load_or,
  lookup_tracker, store_at, is_channel_used, tracker_of, store_channel, put_tracker,
  allocate_channel,
}
use vlite.Server.Tracking.{
  track_connection_announce_if_possible, begin_tracking, answer_tracked, is_connection_tracked,
}
use vlite.Server.Agreement.Changes.{AgreesOn-track, AgreesOn-put, put_at_self}
use vlite.Server.Agreement.Steps.{
  Agrees, announce-SameTables, allocate_channel-SameTables, Agrees-put, lookup-put_tracker,
}

-- A connection of a known client that is not tracked gets a channel that is free.
module _ (env : Env) (s : Server) (source dest : UdpAddr) (t : TrackedConnection) where
  abbrev n : ℕ
  n = (allocate_channel s).0

  abbrev s1 : Server
  s1 = (allocate_channel s).1

  abbrev addresses : RemoteAddr
  addresses = record { remote_addr = dest; local_addr = source }

  abbrev s2 : Server
  s2 = record s1 {
    tracked_remote_addr =
        store_channel n (load_or addresses (s1.tracked_remote_addr n)) s1.tracked_remote_addr;
  }

  abbrev announced : Bool × Server
  announced = track_connection_announce_if_possible env s2 source dest n

  abbrev t1 : TrackedConnection
  t1 = record t { tracking = true; channel = n; track_pending = announced.0 }

  abbrev k : String
  k = env.net.addr_string source

  abbrev d : String
  d = env.net.addr_string dest

  begin_tracking_lem :
      t.track_pending ≡ false
      → begin_tracking env s source dest t ≡ ((false, n), put_tracker announced.1 k d t1)
  unfolding begin_tracking
  begin_tracking_lem e = rw e refl

  begin_tracking-Agrees :
      (client : Client)
      → s.client_logic_connection k ≡ some client
      → lookup_tracker s k d ≡ some t
      → t.tracking ≡ false
      → s.tracked_remote_addr n ≡ none
      → n ≢ 0
      → Agrees env s
      → Agrees env (begin_tracking env s source dest t).1
  begin_tracking-Agrees client known has off free pos a =
      let fresh = a.idle k d t has off in
      let same = allocate_channel-SameTables s in
      let after = announce-SameTables env s2 source dest n in
      let base =
        AgreesOn-track env (lookup_tracker s) s.tracked_remote_addr a k d t1 addresses
          (λ u has'. ap (λ (x : TrackedConnection). x.tracking) (some_eq (sym has' ∙ has)) ∙ off)
          refl refl free pos refl in
      let channels : announced.1.tracked_remote_addr
          ≡ store_channel n addresses s.tracked_remote_addr =
        after.0
        ∙ ap (λ (m : ℕ → Option RemoteAddr). store_channel n (load_or addresses (m n)) m) same.0
        ∙ ap (λ v. store_channel n (load_or addresses v) s.tracked_remote_addr) free in
      subst (λ (r : (Bool × ℕ) × Server). Agrees env r.1)
        (sym (begin_tracking_lem (ap (λ (x : TrackedConnection). x.track_pending) fresh)))
        (Agrees-put env s announced.1 k d t1 client _ known (after.1 ∙ same.1) channels base)

-- The number that the generator gives next.
abbrev pub next_number : (ℕ → Option RemoteAddr) → Finder → ℕ
next_number remote finder = elim (find_next (λ u. is_some (remote u)) finder) [
  | none ↦ 0
  | some (n, finder') ↦ n
]

pub allocate_channel-number :
    (s : Server)
    → (allocate_channel s).0 ≡ next_number s.tracked_remote_addr s.channel_number_generator
unfolding allocate_channel is_channel_used
allocate_channel-number s = ground arith

-- What a step needs of the generator: that its next number is free, and not the control channel.
abbrev pub HasRoom : Server → Type 0
HasRoom s =
    (s.tracked_remote_addr (next_number s.tracked_remote_addr s.channel_number_generator) ≡ none)
    × (next_number s.tracked_remote_addr s.channel_number_generator ≢ 0)

module _ (env : Env) (s : Server) (k d : String) (client : Client) where
  -- `LoadOrStore` on the trackers of a client.
  abbrev pub loaded : TrackedConnection
  loaded = load_or new_tracked_connection (client.tracked_connection d)

  pub looked_up :
      s.client_logic_connection k ≡ some client → lookup_tracker s k d ≡ client.tracked_connection d
  unfolding lookup_tracker
  looked_up known = ap (λ (c : Option Client). tracker_of c d) known

  pub load_tracker-Agrees :
      s.client_logic_connection k ≡ some client
      → Agrees env s
      → Agrees env (put_tracker s k d loaded)
  load_tracker-Agrees known a =
      let at = looked_up known in
      Agrees-put env s s k d loaded client s.tracked_remote_addr known refl refl
        (elim (Option-cases (client.tracked_connection d)) [
          | inl fresh ↦ rw fresh (
              AgreesOn-put env (lookup_tracker s) s.tracked_remote_addr a k d new_tracked_connection
                (λ on. cc) (λ u has on. cc (sym fresh ∙ sym at ∙ has)) (λ off. refl))
          | inr (t, found) ↦ rw found (
              AgreesOn-put env (lookup_tracker s) s.tracked_remote_addr a k d t
                (a.forward k d t (at ∙ found))
                (λ u has on.
                  let same : t ≡ u = some_eq (sym found ∙ sym at ∙ has) in
                  (
                    ap (λ (x : TrackedConnection). x.tracking) same ∙ on,
                    ap (λ (x : TrackedConnection). x.channel) same,
                  ))
                (a.idle k d t (at ∙ found)))
        ])

-- The tracker of a connection after `LoadOrStore`.
loaded_there :
    (env : Env) (s : Server) (key remote : String) (client : Client)
    → s.client_logic_connection key ≡ some client
    → lookup_tracker (put_tracker s key remote (loaded env s key remote client)) key remote
      ≡ some (loaded env s key remote client)
loaded_there env s key remote client known =
    lookup-put_tracker s key remote _ client known key remote
    ∙ put_at_self key remote _ (lookup_tracker s)

-- Only a connection that is not tracking yet changes the tables.
pub answer_tracked_cases :
    (env : Env) (s : Server) (source dest : UdpAddr) (track : Bool) (t : TrackedConnection)
    → ((answer_tracked env s source dest track t).1 ≡ s)
      ⊎ ((t.tracking ≡ false)
          × ((answer_tracked env s source dest track t).1 ≡ (begin_tracking env s source dest t).1))
unfolding answer_tracked
answer_tracked_cases env s source dest track t = pick t.tracked track t.tracking
  where
    pick :
        (a b c : Bool)
        → let r : (Bool × ℕ) × Server =
            if a
            then ((true, t.channel), s)
            else if b
            then if c then ((false, t.channel), s) else begin_tracking env s source dest t
            else ((false, 0), s) in
          (r.1 ≡ s) ⊎ ((c ≡ false) × (r.1 ≡ (begin_tracking env s source dest t).1))
    pick true b c = inl refl
    pick false true true = inl refl
    pick false true false = inr (refl, refl)
    pick false false c = inl refl

answer_tracked-Agrees :
    (env : Env) (s : Server) (source dest : UdpAddr) (track : Bool) (t : TrackedConnection)
    (client : Client)
    → s.client_logic_connection (env.net.addr_string source) ≡ some client
    → lookup_tracker s (env.net.addr_string source) (env.net.addr_string dest) ≡ some t
    → HasRoom s
    → Agrees env s
    → Agrees env (answer_tracked env s source dest track t).1
answer_tracked-Agrees env s source dest track t client known has (free, pos) a =
    elim (answer_tracked_cases env s source dest track t) [
      | inl same ↦ subst (Agrees env) (sym same) a
      | inr (off, begun) ↦ subst (Agrees env) (sym begun) (
          begin_tracking-Agrees env s source dest t client known has off
            (ap s.tracked_remote_addr (allocate_channel-number s) ∙ free)
            (λ e. pos (sym (allocate_channel-number s) ∙ e)) a)
    ]

-- What `LoadOrStore` on the trackers leaves alone.
put_tracker-HasRoom :
    (s : Server) (key remote : String) (t : TrackedConnection)
    → HasRoom s
    → HasRoom (put_tracker s key remote t)
unfolding put_tracker
put_tracker-HasRoom s key remote t room = room

clients-put_tracker :
    (s : Server) (key remote : String) (t : TrackedConnection) (client : Client)
    → s.client_logic_connection key ≡ some client
    → (put_tracker s key remote t).client_logic_connection key
      ≡ some (record client { tracked_connection = store_at remote t client.tracked_connection })
unfolding put_tracker
clients-put_tracker s key remote t client known = ground (arith, eq_iff key key)

-- `isConnectionTracked` keeps the two tables in agreement, whether the client is known or not,
-- and whether it begins to track the connection or not. The conditions are that they agree
-- before it, and that the next number of the generator is free and not 0.
pub is_connection_tracked-Agrees :
    (env : Env) (s : Server) (source dest : UdpAddr) (track : Bool)
    → HasRoom s
    → Agrees env s
    → Agrees env (is_connection_tracked env s source dest track).1
is_connection_tracked-Agrees env s source dest track room a =
    elim (Option-cases (s.client_logic_connection key)) [
      | inl missing ↦ subst (λ (r : (Bool × ℕ) × Server). Agrees env r.1) (sym (nothing missing)) a
      | inr (client, known) ↦
          subst (λ (r : (Bool × ℕ) × Server). Agrees env r.1) (sym (something client known))
            (answer_tracked-Agrees env (put_tracker s key remote (loaded env s key remote client))
              source dest track (loaded env s key remote client) _
              (clients-put_tracker s key remote _ client known)
              (loaded_there env s key remote client known) (put_tracker-HasRoom s key remote _ room)
              (load_tracker-Agrees env s key remote client known a))
    ]
  where
    key : String
    key = env.net.addr_string source

    remote : String
    remote = env.net.addr_string dest

    nothing :
        s.client_logic_connection key ≡ none
        → is_connection_tracked env s source dest track ≡ ((false, 0), s)
    nothing e = unfold is_connection_tracked in rw (e, is_connection_tracked)

    something :
        (client : Client)
        → s.client_logic_connection key ≡ some client
        → is_connection_tracked env s source dest track
          ≡ answer_tracked env
              (put_tracker s key remote (loaded env s key remote client))
              source
              dest
              track
              (loaded env s key remote client)
    something client e = unfold is_connection_tracked in rw (e, is_connection_tracked)
