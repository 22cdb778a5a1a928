-- ===== src/Server/Agreement/Loops.antt =====
-- The loops of the server: every packet from the client, every answer of a remote socket.
use vlite.Base.{
  ℕ, ◌+◌, ◌≡◌, ◌≢◌, refl, sym, subst, List, Option, none, some, Bool, true, false, not, inl, inr,
  ◌==◌, ==→eq, if_rule, if_rule_with, if_rule_both, Option-cases, ap, ltb, ◌∙◌, some_eq,
  if◌then◌else◌,
}
use Prim.Native.String.{String}
use vlite.Proto.{
  Traffic, command_send, command_send_v6, command_associate_done, command_associate_done_v6,
  command_ping, command_pong, PongHeader,
}
use vlite.Server.{
  Server, Env, Client, RemoteAddr, TrackedConnection, lookup_tracker, load_or, send_to_client,
  tracker_of,
}
use vlite.Server.Tracking.{command}
use vlite.Server.Control.{
  Outcome, on_control_send, on_control_send_v6, on_control_associate_done,
  on_control_associate_v6_done, send_pong, rx_from_client,
}
use vlite.Server.Listener.{
  Answer, deadline_failed, packet, try_again, failed, Listening, listening, closed, set_client,
  change_client, shut_down, overall_track_time, see, listener_answer, listener_step,
}
use mathlib.Core.Path.{fun_ext}
use text.Mathlib.Text.{◌==◌ as str_eq}
use vlite.Server.Agreement.{AgreesOn}
use vlite.Server.Agreement.Steps.{Agrees}
use vlite.Server.Agreement.Track.{HasRoom}
use vlite.Server.Agreement.Handlers.{untrack_all-Agrees, on_associate_done-Agrees}
use vlite.Server.Agreement.Rounds.{after, on_send-Agrees, on_data-Agrees, tx_to_client-Agrees}

not-false : (b : Bool) → not b ≡ false → b ≡ true
not-false true e = refl
not-false false e = cc

module _ (env : Env) (s : Server) (a : Agrees env s) where
  send_pong-Agrees : (payload : List ℕ) → Agrees env (send_pong env s payload)
  unfolding send_pong send_to_client lookup_tracker
  send_pong-Agrees payload =
      let sent_recv = load_or (0, 0) env.sent_recv_stats in
      let ping = env.wire.ping.unpack payload in
      let header = env.wire.command.pack (command command_pong) in
      let pong : PongHeader = record {
        seq_copy = ping.value.seq;
        seq2_copy = ping.value.seq2;
        sent_packet = sent_recv.0;
        recv_packet = sent_recv.1;
      } in
      let body = env.wire.pong.pack pong in
      if_rule (Agrees env) (not ping.no_error) a (
        if_rule (Agrees env) (not header.no_error) a (if_rule (Agrees env) (not body.no_error) a a))

  associate_done-Agrees :
      (payload : List ℕ)
      → ((env.wire.associate.unpack payload).no_error ≡ true
          → (env.wire.associate.unpack payload).value.channel ≢ 0)
      → Agrees env (on_control_associate_done env s payload)
  unfolding on_control_associate_done
  associate_done-Agrees payload pos =
      if_rule_both (Agrees env) (not (env.wire.associate.unpack payload).no_error) (λ is. a)
        (λ is. on_associate_done-Agrees env s _ (pos (not-false _ is)) a)

  associate_v6_done-Agrees :
      (payload : List ℕ)
      → ((env.wire.associate_v6.unpack payload).no_error ≡ true
          → (env.wire.associate_v6.unpack payload).value.channel ≢ 0)
      → Agrees env (on_control_associate_v6_done env s payload)
  unfolding on_control_associate_v6_done
  associate_v6_done-Agrees payload pos =
      if_rule_both (Agrees env) (not (env.wire.associate_v6.unpack payload).no_error) (λ is. a)
        (λ is. on_associate_done-Agrees env s _ (pos (not-false _ is)) a)

-- A packet from the client keeps the two tables in agreement, whatever handler it goes to. The
-- conditions are that they agree before it, that the next number of the generator is free and
-- not 0, and that a confirmation on the control channel whose command and header are read without
-- an error does not name channel 0.
pub rx_from_client-Agrees :
    (env : Env) (dialed : Option ℕ) (s : Server) (traffic : Traffic)
    → HasRoom s
    → (traffic.channel ≡ 0
        → (env.wire.command.unpack traffic.payload).no_error ≡ true
        → (env.wire.command.unpack traffic.payload).value.command_byte ≡ command_associate_done
        → (env.wire.associate.unpack (env.wire.command.unpack traffic.payload).rest).no_error ≡ true
        → (env.wire.associate.unpack (env.wire.command.unpack traffic.payload).rest).value.channel
          ≢ 0)
    → (traffic.channel ≡ 0
        → (env.wire.command.unpack traffic.payload).no_error ≡ true
        → (env.wire.command.unpack traffic.payload).value.command_byte ≡ command_associate_done_v6
        → (env.wire.associate_v6.unpack (env.wire.command.unpack traffic.payload).rest).no_error
          ≡ true
        → (env.wire.associate_v6.unpack
            (env.wire.command.unpack traffic.payload).rest).value.channel
          ≢ 0)
    → Agrees env s
    → Agrees env (after (rx_from_client env dialed s traffic))
unfolding rx_from_client on_control_send on_control_send_v6
rx_from_client-Agrees env dialed s traffic room v4 v6 a =
    let P : Outcome → Type 0 = λ o. Agrees env (after o) in
    let header = env.wire.command.unpack traffic.payload in
    let byte = header.value.command_byte in
    let rest = header.rest in
    if_rule_both P (not (traffic.channel == 0))
      (λ is. on_data-Agrees env s traffic.channel traffic.payload a)
      (λ is.
        let on_control = ==→eq traffic.channel 0 (not-false _ is) in
        if_rule_both P (not header.no_error) (λ is. a)
          (λ is.
            let reads = not-false header.no_error is in
            if_rule P (byte == command_send) (on_send-Agrees env dialed s _ room a) (
              if_rule P (byte == command_send_v6) (on_send-Agrees env dialed s _ room a) (
                if_rule_with P (byte == command_associate_done)
                  (λ is. associate_done-Agrees env s a rest (v4 on_control reads (==→eq byte _ is)))
                  (if_rule_with P (byte == command_associate_done_v6)
                    (λ is.
                      associate_v6_done-Agrees env s a rest (v6 on_control reads (==→eq byte _ is)))
                    (if_rule P (byte == command_ping) (send_pong-Agrees env s a rest) a))))))

-- What the listener leaves, whether it goes on or has closed.
abbrev pub left : Listening → Server
left (listening s) = s
left (closed s) = s

change_client-tracker_of :
    (f : Client → Client)
    → ((client : Client) → (f client).tracked_connection ≡ client.tracked_connection)
    → (c : Option Client) (d : String) → tracker_of c d ≡ tracker_of (change_client f c) d
change_client-tracker_of f keeps none d = refl
change_client-tracker_of f keeps (some client) d =
    ap (λ (m : String → Option TrackedConnection). m d) (sym (keeps client))

-- A change of a client that leaves its trackers alone.
set_client-Agrees :
    (env : Env) (s : Server) (key : String) (f : Client → Client)
    → ((client : Client) → (f client).tracked_connection ≡ client.tracked_connection)
    → Agrees env s
    → Agrees env (set_client s key f)
unfolding lookup_tracker
set_client-Agrees env s key f keeps a =
    subst (λ l. AgreesOn env l s.tracked_remote_addr)
      (fun_ext (λ k. fun_ext (λ d.
        if_rule (λ c. tracker_of (s.client_logic_connection k) d ≡ tracker_of c d) (str_eq key k)
          (change_client-tracker_of f keeps (s.client_logic_connection k) d) refl)))
      a

shut_down-Agrees :
    (env : Env) (s : Server) (key : String) (dests : List String)
    → Agrees env s
    → Agrees env (shut_down env s key dests)
unfolding shut_down
shut_down-Agrees env s key dests a =
    untrack_all-Agrees env _ key dests
      (set_client-Agrees env s key (λ client. record client { conn = none }) (λ client. refl) a)

-- A round of the listener of a client.
listener_answer-Agrees :
    (env : Env) (now : ℕ) (dests : List String) (key : String) (client : Client) (answer : Answer)
    (s : Server)
    → HasRoom s
    → Agrees env s
    → Agrees env (left (listener_answer env now dests key client answer s))
unfolding listener_answer see
listener_answer-Agrees env now dests key client deadline_failed s room a =
    shut_down-Agrees env s key dests a
listener_answer-Agrees env now dests key client failed s room a = shut_down-Agrees env s key dests a
listener_answer-Agrees env now dests key client (try_again alive) s room a =
    let ends = shut_down-Agrees env s key dests a in
    let end : Listening = closed (shut_down env s key dests) in
    if_rule (λ (r : Listening). Agrees env (left r))
      (ltb (client.last_seen + overall_track_time s client) now) {x = end}
      {y = if alive then listening s else end} ends
      (if_rule (λ (r : Listening). Agrees env (left r)) alive {x = listening s} {y = end} a ends)
listener_answer-Agrees env now dests key client (packet payload from) s room a =
    tx_to_client-Agrees env _ payload client.local_addr from room
      (set_client-Agrees env s key (λ client. record client { last_seen = now }) (λ client. refl) a)

-- An answer of the remote socket keeps the two tables in agreement, also where it ends the
-- listener. The conditions are that they agree before it, and that the next number of the
-- generator is free and not 0.
pub listener_step-Agrees :
    (env : Env) (now : ℕ) (dests : List String) (key : String) (answer : Answer) (s : Server)
    → HasRoom s
    → Agrees env s
    → Agrees env (left (listener_step env now dests key answer s))
listener_step-Agrees env now dests key answer s room a =
    elim (Option-cases (s.client_logic_connection key)) [
      | inl missing ↦
          let e : listener_step env now dests key answer s ≡ closed s =
            unfold listener_step in rw (missing, listener_step) in
          subst (λ r. Agrees env (left r)) (sym e) a
      | inr (client, known) ↦
          let e : listener_step env now dests key answer s
              ≡ listener_answer env now dests key client answer s =
            unfold listener_step in rw (known, listener_step) in
          subst (λ r. Agrees env (left r)) (sym e)
            (listener_answer-Agrees env now dests key client answer s room a)
    ]

-- Where the tables agree, two connections that have been given the same channel are the same one.
pub channel_agreement :
    (env : Env) (s : Server)
    → Agrees env s
    → (k d k' d' : String) (t t' : TrackedConnection) → lookup_tracker s k d ≡ some t
    → lookup_tracker s k' d' ≡ some t'
    → t.tracking ≡ true
    → t'.tracking ≡ true
    → t.channel ≡ t'.channel
    → (k ≡ k') × (d ≡ d')
channel_agreement env s a k d k' d' t t' has has' on on' same =
    let (r, at, source, dest) = a.forward k d t has on in
    let (r', at', source', dest') = a.forward k' d' t' has' on' in
    let e : r ≡ r' = some_eq (sym at ∙ ap s.tracked_remote_addr same ∙ at') in
    (
      sym source ∙ ap (λ (x : RemoteAddr). env.net.addr_string x.local_addr) e ∙ source',
      sym dest ∙ ap (λ (x : RemoteAddr). env.net.addr_string x.remote_addr) e ∙ dest',
    )
