-- ===== src/Server/Agreement/Rounds.antt =====
-- What comes from the client, and what goes back, keeps the agreement of the tables.
use vlite.Base.{ℕ, ◌≡◌, refl, true, Option, none, some, List, if_rule}
use Prim.Native.String.{String}
use vlite.Proto.{SendHeader, UdpAddr}
use vlite.Server.{
  Env, Server, Client, RemoteAddr, is_some, load_or, lookup_tracker, new_client, tracker_of,
  send_to_client,
}
use vlite.Server.Tracking.{is_connection_tracked, untrack_connection}
use vlite.Server.Agreement.Steps.{Agrees}
use vlite.Server.Agreement.Track.{HasRoom, is_connection_tracked-Agrees}
use vlite.Server.Tracking.{track_connection}
use vlite.Server.Control.{
  Outcome, done, blocked, source_of, dest_of, put_client, write_to, send_locked, on_send, on_data,
  tx_to_client,
}
use vlite.Server.Agreement.Handlers.{untrack_connection-Agrees, put_client-Agrees}
use vlite.Server.Agreement.Known.{put_client_known, track_connection-IsKnown}
use vlite.Server.Control.{write_data, relay_data}

-- What a step with a mutex comes to.
abbrev pub after : Outcome → Server
after (done s) = s
after (blocked s) = s

send_locked-Agrees :
    (env : Env) (conn dialed : Option ℕ) (s : Server) (key : String) (client : Client)
    (h : SendHeader)
    → ((d : String) → client.tracked_connection d ≡ lookup_tracker s key d)
    → Agrees env s
    → Agrees env (send_locked conn dialed s key client h)
unfolding send_locked lookup_tracker
send_locked-Agrees env (some socket) dialed s key client h same a = a
send_locked-Agrees env none none s key client h same a =
    put_client-Agrees env s key (record client { locked = true }) same a
send_locked-Agrees env none (some socket) s key client h same a =
    put_client-Agrees env s key _ same a

-- A client as it is stored has the trackers that are found by its key; a new one has none.
stored_trackers :
    (s : Server) (key : String) (a : UdpAddr) (d : String)
    → (load_or (new_client a) (s.client_logic_connection key)).tracked_connection d
      ≡ lookup_tracker s key d
unfolding lookup_tracker
stored_trackers s key a d = by_cases (s.client_logic_connection key)
  where
    by_cases :
        (c : Option Client) → (load_or (new_client a) c).tracked_connection d ≡ tracker_of c d
    by_cases none = refl
    by_cases (some client) = refl

-- Where a client is stored, the same is so whatever stands in for a missing one.
stored_trackers_known :
    (s : Server) (key : String) (other client : Client) (d : String)
    → s.client_logic_connection key ≡ some client
    → (load_or other (s.client_logic_connection key)).tracked_connection d ≡ lookup_tracker s key d
unfolding lookup_tracker
stored_trackers_known s key other client d known = rw known refl

pub on_send-cases :
    (env : Env) (dialed : Option ℕ) (s : Server) (h : SendHeader)
    → (P : Server → Type 0)
    → let key = env.net.addr_string (source_of h) in
      let tracker = load_or (new_client (source_of h)) (s.client_logic_connection key) in
      let s1 = put_client s key tracker in
      let s2 = track_connection env s1 (source_of h) (dest_of h) in
      let now = load_or tracker (s2.client_logic_connection key) in
      P s1 → P (send_locked now.conn dialed s2 key now h) → P (after (on_send env dialed s h))
unfolding on_send
on_send-cases env dialed s h P p q =
    let key = env.net.addr_string (source_of h) in
    let tracker = load_or (new_client (source_of h)) (s.client_logic_connection key) in
    if_rule (λ o. P (after o)) tracker.locked p q

track_connection-Agrees :
    (env : Env) (s : Server) (source dest : UdpAddr)
    → HasRoom s
    → Agrees env s
    → Agrees env (track_connection env s source dest)
unfolding track_connection
track_connection-Agrees env s source dest room a =
    is_connection_tracked-Agrees env s source dest true room a

-- The handlers of Send keep the two tables in agreement, whether the mutex is free, there is a
-- socket, and the dial succeeds, or not. The conditions are that they agree before it, and that
-- the next number of the generator is free and not 0.
pub on_send-Agrees :
    (env : Env) (dialed : Option ℕ) (s : Server) (h : SendHeader)
    → HasRoom s
    → Agrees env s
    → Agrees env (after (on_send env dialed s h))
on_send-Agrees env dialed s h room a =
    let key = env.net.addr_string (source_of h) in
    let tracker = load_or (new_client (source_of h)) (s.client_logic_connection key) in
    let s1 = put_client s key tracker in
    let a1 = put_client-Agrees env s key tracker (stored_trackers s key (source_of h)) a in
    let s2 = track_connection env s1 (source_of h) (dest_of h) in
    let (m, known) =
      track_connection-IsKnown env s1 (source_of h) (dest_of h) tracker
        (put_client_known s key tracker) in
    on_send-cases env dialed s h (Agrees env) a1 (
      send_locked-Agrees env _ dialed s2 key _ h
        (λ d. stored_trackers_known s2 key tracker _ d known)
        (track_connection-Agrees env s1 _ _ room a1))

write_data-Agrees :
    (env : Env) (s : Server) (ch : ℕ) (p : List ℕ) (r : RemoteAddr) (c : Option Client)
    → Agrees env s
    → Agrees env (write_data env s ch p r c)
unfolding write_data lookup_tracker
write_data-Agrees env s ch p r none a = a
write_data-Agrees env s ch p r (some client) a = go client.conn
  where
    go :
        (conn : Option ℕ)
        → Agrees env (elim conn [
          | none ↦ (untrack_connection env s ch).1
          | some socket ↦ write_to s socket p r.remote_addr
        ])
    go none = untrack_connection-Agrees env s ch a
    go (some socket) = a

relay_data-Agrees :
    (env : Env) (s : Server) (ch : ℕ) (p : List ℕ) (r : Option RemoteAddr)
    → Agrees env s
    → Agrees env (relay_data env s ch p r)
unfolding relay_data
relay_data-Agrees env s ch p none a = a
relay_data-Agrees env s ch p (some r) a = write_data-Agrees env s ch p r _ a

-- A packet on a data channel keeps the two tables in agreement, also where it unties the
-- connection because there is no socket. The condition is that they agree before it.
pub on_data-Agrees :
    (env : Env) (s : Server) (ch : ℕ) (p : List ℕ) → Agrees env s → Agrees env (on_data env s ch p)
unfolding on_data
on_data-Agrees env s ch p a = relay_data-Agrees env s ch p _ a

-- A packet of a remote address keeps the two tables in agreement on its way to the client. The
-- conditions are that they agree before it, and that the next number of the generator is free
-- and not 0.
pub tx_to_client-Agrees :
    (env : Env) (s : Server) (payload : List ℕ) (local_addr from : UdpAddr)
    → HasRoom s
    → Agrees env s
    → Agrees env (tx_to_client env s payload local_addr from)
unfolding tx_to_client send_to_client lookup_tracker
tx_to_client-Agrees env s payload local_addr from room a =
    let r = is_connection_tracked env s local_addr from true in
    let a1 = is_connection_tracked-Agrees env s local_addr from true room a in
    if_rule (Agrees env) r.0.0 a1 (if_rule (Agrees env) (is_some (env.net.to4 from.ip)) a1 a1)
