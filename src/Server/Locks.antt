-- ===== src/Server/Locks.antt =====
-- A mutex of a client that nobody unlocks stays locked, whatever the server goes through: the fields
-- `lock` of the clients in workers/server/serverWorker.go.
pub mod Handlers
pub mod Runs
use vlite.Base.{
  [], ℕ, zero, suc, ◌≡◌, inl, inr, refl, sym, ap, ◌∙◌, subst, Bool, true, false, not, Option, none,
  some, List, ◌∷◌, ◌++◌, if_rule,
}
use Prim.Native.String.{String}
use text.Mathlib.Text.{◌==◌ as str_eq}
use vlite.Proto.{UdpAddr, command_channel_destroy}
use vlite.Server.{
  Env, Server, Client, RemoteAddr, TrackedConnection, new_tracked_connection, load_or,
  store_channel, delete_channel, put_in_client, put_tracker, allocate_channel, offer_to_client,
  lookup_tracker, is_some, send_to_client,
}
use vlite.Server.Tracking.{
  command, track_connection_announce_if_possible, begin_tracking, answer_tracked,
  is_connection_tracked, forget_channel, untrack_connection, untrack_rounds, untrack_one,
  untrack_all,
}
use vlite.Server.Control.{tx_to_client}
use vlite.Server.Listener.{set_client, change_client}
use vlite.Server.Agreement.Steps.{
  SameTables, announce-SameTables, allocate_channel-SameTables, offer_to_client-SameTables,
}
use vlite.Server.Agreement.Track.{answer_tracked_cases}

abbrev pub lock_of : Option Client → Option Bool
lock_of none = none
lock_of (some client) = some client.locked

-- The client of a key is stored, and its mutex is locked.
abbrev pub IsLocked : String → Server → Type 0
IsLocked key s = lock_of (s.client_logic_connection key) ≡ some true

put_in_client-lock :
    (d : String) (t : TrackedConnection) (c : Option Client)
    → lock_of (put_in_client d t c) ≡ lock_of c
put_in_client-lock d t none = refl
put_in_client-lock d t (some client) = refl

change_client-lock :
    (f : Client → Client)
    → ((client : Client) → (f client).locked ≡ client.locked)
    → (c : Option Client) → lock_of (change_client f c) ≡ lock_of c
change_client-lock f keeps none = refl
change_client-lock f keeps (some client) = ap some (keeps client)

module _ (key : String) where
  pub SameTables-IsLocked : (s s' : Server) → SameTables s s' → IsLocked key s → IsLocked key s'
  SameTables-IsLocked s s' (remote, clients) locked =
      ap (λ (m : String → Option Client). lock_of (m key)) clients ∙ locked

  pub put_tracker-IsLocked :
      (s : Server) (k d : String) (t : TrackedConnection)
      → IsLocked key s
      → IsLocked key (put_tracker s k d t)
  unfolding put_tracker
  put_tracker-IsLocked s k d t locked =
      if_rule (λ c. lock_of c ≡ some true) (str_eq k key)
        (put_in_client-lock d t (s.client_logic_connection key) ∙ locked) locked

  begin_tracking-IsLocked :
      (env : Env) (s : Server) (source dest : UdpAddr) (t : TrackedConnection)
      → IsLocked key s
      → IsLocked key (begin_tracking env s source dest t).1
  unfolding begin_tracking
  begin_tracking-IsLocked env s source dest t locked =
      let n = (allocate_channel s).0 in
      let s1 = (allocate_channel s).1 in
      let l1 = SameTables-IsLocked s s1 (allocate_channel-SameTables s) locked in
      let tc : RemoteAddr = record { remote_addr = dest; local_addr = source } in
      let s2 : Server = record s1 {
        tracked_remote_addr =
            store_channel n (load_or tc (s1.tracked_remote_addr n)) s1.tracked_remote_addr;
      } in
      let s3 = (track_connection_announce_if_possible env s2 source dest n).1 in
      let l3 = SameTables-IsLocked s2 s3 (announce-SameTables env s2 source dest n) l1 in
      if_rule (λ (r : (Bool × ℕ) × Server). IsLocked key r.1) t.track_pending
        (put_tracker-IsLocked s1 _ _ _ l1) (put_tracker-IsLocked s3 _ _ _ l3)

  pub is_connection_tracked-IsLocked :
      (env : Env) (s : Server) (source dest : UdpAddr) (track : Bool)
      → IsLocked key s
      → IsLocked key (is_connection_tracked env s source dest track).1
  unfolding is_connection_tracked
  is_connection_tracked-IsLocked env s source dest track locked =
      by_client (s.client_logic_connection (env.net.addr_string source))
    where
      answered :
          (t : TrackedConnection) (s1 : Server)
          → IsLocked key s1
          → IsLocked key (answer_tracked env s1 source dest track t).1
      answered t s1 l1 = elim (answer_tracked_cases env s1 source dest track t) [
        | inl same ↦ subst (IsLocked key) (sym same) l1
        | inr (off, begun) ↦
            subst (IsLocked key) (sym begun) (begin_tracking-IsLocked env s1 source dest t l1)
      ]

      by_client :
          (c : Option Client)
          → let r : (Bool × ℕ) × Server = elim c [
            | none ↦ ((false, 0), s)
            | some tracker ↦
                let t : TrackedConnection =
                  load_or new_tracked_connection
                    (tracker.tracked_connection (env.net.addr_string dest)) in
                answer_tracked env
                  (put_tracker s (env.net.addr_string source) (env.net.addr_string dest) t)
                  source
                  dest
                  track
                  t
          ] in
            IsLocked key r.1
      by_client none = locked
      by_client (some tracker) = answered _ _ (put_tracker-IsLocked s _ _ _ locked)

  forget_channel-IsLocked :
      (env : Env) (s : Server) (ch : ℕ) → IsLocked key s → IsLocked key (forget_channel env s ch).1
  unfolding forget_channel
  forget_channel-IsLocked env s ch locked = by_channel (s.tracked_remote_addr ch)
    where
      by_client :
          (r : RemoteAddr) (c : Option Client)
          → let result : Bool × Server = elim c [
            | none ↦ (false, s)
            | some tracker ↦
                let s1 =
                  put_tracker s
                    (env.net.addr_string r.local_addr)
                    (env.net.addr_string r.remote_addr)
                    new_tracked_connection in
                (true, record s1 { tracked_remote_addr = delete_channel ch s1.tracked_remote_addr })
          ] in
            IsLocked key result.1
      by_client r none = locked
      by_client r (some tracker) = put_tracker-IsLocked s _ _ _ locked

      by_channel :
          (o : Option RemoteAddr)
          → let result : Bool × Server = elim o [
            | none ↦ (false, s)
            | some r ↦ elim (s.client_logic_connection (env.net.addr_string r.local_addr)) [
              | none ↦ (false, s)
              | some tracker ↦
                  let s1 =
                    put_tracker s
                      (env.net.addr_string r.local_addr)
                      (env.net.addr_string r.remote_addr)
                      new_tracked_connection in
                  (
                    true,
                    record s1 { tracked_remote_addr = delete_channel ch s1.tracked_remote_addr },
                  )
            ]
          ] in
            IsLocked key result.1
      by_channel none = locked
      by_channel (some r) =
          by_client r (s.client_logic_connection (env.net.addr_string r.local_addr))

  pub untrack_connection-IsLocked :
      (env : Env) (s : Server) (ch : ℕ)
      → IsLocked key s
      → IsLocked key (untrack_connection env s ch).1
  unfolding untrack_connection
  untrack_connection-IsLocked env s ch locked =
      let header = env.wire.command.pack (command command_channel_destroy) in
      let body = env.wire.channel_destroy.pack (record { channel = ch }) in
      let offered = offer_to_client env s (header.bytes ++ body.bytes) in
      let l1 = SameTables-IsLocked s offered.1 (offer_to_client-SameTables env s _) locked in
      if_rule (λ (r : Bool × Server). IsLocked key r.1) offered.0
        (forget_channel-IsLocked env offered.1 ch l1) locked

  untrack_rounds-IsLocked :
      (rounds : ℕ) (env : Env) (s : Server) (source dest : String)
      → IsLocked key s
      → IsLocked key (untrack_rounds rounds env s source dest)
  unfolding untrack_rounds
  untrack_rounds-IsLocked zero env s source dest locked = locked
  untrack_rounds-IsLocked (suc n) env s source dest locked =
      let t : TrackedConnection = load_or new_tracked_connection (lookup_tracker s source dest) in
      let r = untrack_connection env s t.channel in
      let l1 = untrack_connection-IsLocked env s t.channel locked in
      if_rule (IsLocked key) (not t.tracked) locked
        (if_rule (IsLocked key) r.0 (untrack_rounds-IsLocked n env r.1 source dest l1) l1)

  untrack_one-IsLocked :
      (env : Env) (s : Server) (source dest : String)
      → IsLocked key s
      → IsLocked key (untrack_one env s source dest)
  unfolding untrack_one
  untrack_one-IsLocked env s source dest locked =
      if_rule (IsLocked key)
        (load_or new_tracked_connection (lookup_tracker s source dest)).tracking
        {x = untrack_rounds 11 env s source dest} {y = s}
        (untrack_rounds-IsLocked 11 env s source dest locked) locked

  pub untrack_all-IsLocked :
      (env : Env) (s : Server) (source : String) (dests : List String)
      → IsLocked key s
      → IsLocked key (untrack_all env s source dests)
  unfolding untrack_all
  untrack_all-IsLocked env s source [] locked = locked
  untrack_all-IsLocked env s source (d ∷ ds) locked =
      untrack_all-IsLocked env (untrack_one env s source d) source ds
        (untrack_one-IsLocked env s source d locked)

  pub set_client-IsLocked :
      (s : Server) (k : String) (f : Client → Client)
      → ((client : Client) → (f client).locked ≡ client.locked)
      → IsLocked key s
      → IsLocked key (set_client s k f)
  set_client-IsLocked s k f keeps locked =
      if_rule (λ c. lock_of c ≡ some true) (str_eq k key)
        (change_client-lock f keeps (s.client_logic_connection key) ∙ locked) locked

  pub tx_to_client-IsLocked :
      (env : Env) (s : Server) (p : List ℕ) (local_addr from : UdpAddr)
      → IsLocked key s
      → IsLocked key (tx_to_client env s p local_addr from)
  unfolding tx_to_client send_to_client
  tx_to_client-IsLocked env s p local_addr from locked =
      let r = is_connection_tracked env s local_addr from true in
      let l1 = is_connection_tracked-IsLocked env s local_addr from true locked in
      if_rule (IsLocked key) r.0.0 l1 (if_rule (IsLocked key) (is_some (env.net.to4 from.ip)) l1 l1)
