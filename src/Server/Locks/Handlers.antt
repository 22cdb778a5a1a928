-- ===== src/Server/Locks/Handlers.antt =====
-- A locked mutex stays locked when the server handles a packet of the client: `RxFromClientWorker` and
-- its handlers in workers/server/serverWorker.go.
use vlite.Base.{
  ℕ, ◌≡◌, refl, ap, ◌∙◌, true, not, Option, none, some, some_eq, List, arith, ◌++◌, Bool-cases, inl,
  inr, if_rule, if◌then◌else◌, ◌==◌,
}
use Prim.Native.String.{String}
use text.Mathlib.Text.{◌==◌ as str_eq}
use text.Mathlib.TextEquality.{eq_iff}
use vlite.Proto.{
  Traffic, SendHeader, AssociateHeader, command_send, command_send_v6, command_associate_done,
  command_associate_done_v6, command_ping, command_pong, PongHeader,
}
use vlite.Server.{
  Env, Server, Client, RemoteAddr, TrackedConnection, new_tracked_connection, new_client, load_or,
  put_tracker, send_to_client,
}
use vlite.Server.Tracking.{command, track_connection, untrack_connection}
use vlite.Server.Control.{
  Outcome, source_of, dest_of, put_client, confirm, write_to, send_locked, on_send, on_control_send,
  on_control_send_v6, on_associate_done, on_control_associate_done, on_control_associate_v6_done,
  send_pong, write_data, relay_data, on_data, rx_from_client,
}
use vlite.Server.Agreement.Rounds.{after, on_send-cases}
use vlite.ClientWorker.{associated}
use vlite.Server.Locks.{
  lock_of, IsLocked, put_tracker-IsLocked, is_connection_tracked-IsLocked,
  untrack_connection-IsLocked,
}

loaded_lock :
    (other : Client) (c : Option Client) → lock_of c ≡ some true → (load_or other c).locked ≡ true
loaded_lock other none e = cc
loaded_lock other (some client) e = some_eq e

module _ (key : String) where
  pub stored_lock :
      (s : Server) (k : String) (other : Client)
      → IsLocked key s
      → k ≡ key
      → (load_or other (s.client_logic_connection k)).locked ≡ true
  stored_lock s k other locked same =
      loaded_lock other (s.client_logic_connection k)
        (ap (λ k. lock_of (s.client_logic_connection k)) same ∙ locked)

  put_client-IsLocked :
      (s : Server) (k : String) (client : Client)
      → (k ≡ key → client.locked ≡ true)
      → IsLocked key s
      → IsLocked key (put_client s k client)
  put_client-IsLocked s k client own locked = elim (Bool-cases (str_eq k key)) [
    | inl same ↦
        ap (λ c. lock_of (if c then some client else s.client_logic_connection key)) same
        ∙ ap some (own (ground (arith, eq_iff k key)))
    | inr other ↦
        ap (λ c. lock_of (if c then some client else s.client_logic_connection key)) other ∙ locked
  ]

  send_locked-IsLocked :
      (conn dialed : Option ℕ) (s : Server) (k : String) (client : Client) (h : SendHeader)
      → (k ≡ key → client.locked ≡ true)
      → IsLocked key s
      → IsLocked key (send_locked conn dialed s k client h)
  unfolding send_locked
  send_locked-IsLocked (some socket) dialed s k client h own locked = locked
  send_locked-IsLocked none none s k client h own locked =
      put_client-IsLocked s k (record client { locked = true }) (λ same. refl) locked
  send_locked-IsLocked none (some socket) s k client h own locked =
      put_client-IsLocked s k _ own locked

  on_send-IsLocked :
      (env : Env) (dialed : Option ℕ) (s : Server) (h : SendHeader)
      → IsLocked key s
      → IsLocked key (after (on_send env dialed s h))
  unfolding track_connection
  on_send-IsLocked env dialed s h locked =
      let k = env.net.addr_string (source_of h) in
      let tracker = load_or (new_client (source_of h)) (s.client_logic_connection k) in
      let s1 = put_client s k tracker in
      let l1 =
        put_client-IsLocked s k tracker (stored_lock s k (new_client (source_of h)) locked)
          locked in
      let s2 = track_connection env s1 (source_of h) (dest_of h) in
      let l2 : IsLocked key s2 =
        is_connection_tracked-IsLocked key env s1 (source_of h) (dest_of h) true l1 in
      on_send-cases env dialed s h (IsLocked key) l1
        (send_locked-IsLocked _ dialed s2 k _ h (stored_lock s2 k tracker l2) l2)

  on_associate_done-IsLocked :
      (env : Env) (s : Server) (h : AssociateHeader)
      → IsLocked key s
      → IsLocked key (on_associate_done env s h)
  unfolding on_associate_done
  on_associate_done-IsLocked env s h locked =
      by_client (s.client_logic_connection (env.net.addr_string (associated h).source))
    where
      by_client :
          (c : Option Client)
          → IsLocked key (elim c [
            | none ↦ s
            | some tracker ↦
                let t : TrackedConnection =
                  load_or new_tracked_connection
                    (tracker.tracked_connection (env.net.addr_string (associated h).dest)) in
                put_tracker s
                  (env.net.addr_string (associated h).source)
                  (env.net.addr_string (associated h).dest)
                  (confirm t h.channel)
          ])
      by_client none = locked
      by_client (some tracker) = put_tracker-IsLocked key s _ _ _ locked

  write_data-IsLocked :
      (env : Env) (s : Server) (ch : ℕ) (p : List ℕ) (r : RemoteAddr) (c : Option Client)
      → IsLocked key s
      → IsLocked key (write_data env s ch p r c)
  unfolding write_data
  write_data-IsLocked env s ch p r none locked = locked
  write_data-IsLocked env s ch p r (some client) locked = by_conn client.conn
    where
      by_conn :
          (conn : Option ℕ)
          → IsLocked key (elim conn [
            | none ↦ (untrack_connection env s ch).1
            | some socket ↦ write_to s socket p r.remote_addr
          ])
      by_conn none = untrack_connection-IsLocked key env s ch locked
      by_conn (some socket) = locked

  on_data-IsLocked :
      (env : Env) (s : Server) (ch : ℕ) (p : List ℕ)
      → IsLocked key s
      → IsLocked key (on_data env s ch p)
  unfolding on_data relay_data
  on_data-IsLocked env s ch p locked = by_channel (s.tracked_remote_addr ch)
    where
      by_channel : (r : Option RemoteAddr) → IsLocked key (relay_data env s ch p r)
      by_channel none = locked
      by_channel (some r) = write_data-IsLocked env s ch p r _ locked

  control-IsLocked :
      (env : Env) (s : Server) (payload : List ℕ)
      → IsLocked key s
      → IsLocked key (on_control_associate_done env s payload)
        × IsLocked key (on_control_associate_v6_done env s payload)
        × IsLocked key (send_pong env s payload)
  unfolding on_control_associate_done on_control_associate_v6_done send_pong send_to_client
  control-IsLocked env s payload locked =
      let sent_recv = load_or (0, 0) env.sent_recv_stats in
      let ping = env.wire.ping.unpack payload in
      let header = env.wire.command.pack (command command_pong) in
      let pong : PongHeader = record {
        seq_copy = ping.value.seq;
        seq2_copy = ping.value.seq2;
        sent_packet = sent_recv.0;
        recv_packet = sent_recv.1;
      } in
      let body = env.wire.pong.pack pong in
      let ponged : Server = send_to_client s (header.bytes ++ body.bytes) in
      let packed : Server = if not body.no_error then s else ponged in
      let h = env.wire.associate.unpack payload in
      let h6 = env.wire.associate_v6.unpack payload in
      (
        if_rule (IsLocked key) (not h.no_error) {x = s} {y = on_associate_done env s h.value} locked
            (on_associate_done-IsLocked env s h.value locked),
        if_rule (IsLocked key) (not h6.no_error) {x = s} {y = on_associate_done env s h6.value}
            locked (on_associate_done-IsLocked env s h6.value locked),
        if_rule (IsLocked key) (not ping.no_error) {x = s}
            {y = if not header.no_error then s else packed} locked
            (if_rule (IsLocked key) (not header.no_error) {x = s} {y = packed} locked
              (if_rule (IsLocked key) (not body.no_error) {x = s} {y = ponged} locked locked)),
      )

  pub rx_from_client-IsLocked :
      (env : Env) (dialed : Option ℕ) (s : Server) (traffic : Traffic)
      → IsLocked key s
      → IsLocked key (after (rx_from_client env dialed s traffic))
  unfolding rx_from_client on_control_send on_control_send_v6
  rx_from_client-IsLocked env dialed s traffic locked =
      let P : Outcome → Type 0 = λ o. IsLocked key (after o) in
      let header = env.wire.command.unpack traffic.payload in
      let byte = header.value.command_byte in
      let (confirmed, confirmed_v6, ponged) = control-IsLocked env s header.rest locked in
      if_rule P (not (traffic.channel == 0))
        (on_data-IsLocked env s traffic.channel traffic.payload locked)
        (if_rule P (not header.no_error) locked (
          if_rule P (byte == command_send) (on_send-IsLocked env dialed s _ locked) (
            if_rule P (byte == command_send_v6) (on_send-IsLocked env dialed s _ locked) (
              if_rule P (byte == command_associate_done) confirmed (
                if_rule P (byte == command_associate_done_v6) confirmed_v6
                  (if_rule P (byte == command_ping) ponged locked))))))
