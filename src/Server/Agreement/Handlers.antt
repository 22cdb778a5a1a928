-- ===== src/Server/Agreement/Handlers.antt =====
-- The handlers and the listener keep the agreement of the tables.
use vlite.Base.{
  ℕ, zero, suc, ◌≡◌, ◌≢◌, inl, inr, refl, sym, ap, ◌∙◌, subst, arith, Bool, not, true, false,
  Option, none, some, some_eq, ◌==◌, if◌then◌else◌, List, [], ◌∷◌, ◌++◌, Bool-cases, Option-cases,
  ==→eq, if_rule,
}
use Prim.Native.String.{String}
use mathlib.Core.Path.{fun_ext}
use text.Mathlib.TextEquality.{eq_iff}
use vlite.Proto.{ip_byte_to_addr, command_channel_destroy, AssociateHeader}
use vlite.Server.{
  Env, Server, Client, RemoteAddr, TrackedConnection, new_tracked_connection, load_or,
  lookup_tracker, delete_channel, put_tracker, offer_to_client,
}
use vlite.Server.Tracking.{forget_channel, untrack_connection}
use vlite.Server.Agreement.{AgreesOn}
use vlite.Server.Agreement.Changes.{AgreesOn-forget, AgreesOn-put}
use vlite.Server.Agreement.Steps.{Agrees, offer_to_client-SameTables, Agrees-SameTables, Agrees-put}
use vlite.Server.Agreement.Steps.{lookup-put_tracker_all}
use vlite.Server.Agreement.Track.{loaded, looked_up, load_tracker-Agrees}
use vlite.Server.Tracking.{command, untrack_rounds, untrack_one, untrack_all}
use vlite.Server.Control.{put_client, confirm, on_associate_done}

forget_channel-Agrees :
    (env : Env) (s : Server) (ch : ℕ) → Agrees env s → Agrees env (forget_channel env s ch).1
unfolding put_tracker lookup_tracker
forget_channel-Agrees env s ch a = elim (Option-cases (s.tracked_remote_addr ch)) [
  | inl missing ↦ subst (λ (r : Bool × Server). Agrees env r.1) (sym (no_channel missing)) a
  | inr (r, at) ↦
      elim (Option-cases (s.client_logic_connection (env.net.addr_string r.local_addr))) [
        | inl missing ↦
            subst (λ (r : Bool × Server). Agrees env r.1) (sym (no_client r at missing)) a
        | inr (client, known) ↦
            subst (λ (r : Bool × Server). Agrees env r.1) (sym (forgets r at client known))
              (subst (λ l. AgreesOn env l (λ j. if ch == j then none else s.tracked_remote_addr j))
                (sym (
                  lookup-put_tracker_all s _ (env.net.addr_string r.remote_addr)
                    new_tracked_connection client known))
                (AgreesOn-forget env (lookup_tracker s) s.tracked_remote_addr a ch r at))
      ]
]
  where
    no_channel : s.tracked_remote_addr ch ≡ none → forget_channel env s ch ≡ (false, s)
    no_channel e = unfold forget_channel in rw (e, forget_channel)

    no_client :
        (r : RemoteAddr)
        → s.tracked_remote_addr ch ≡ some r
        → s.client_logic_connection (env.net.addr_string r.local_addr) ≡ none
        → forget_channel env s ch ≡ (false, s)
    no_client r e n = unfold forget_channel in rw (e, forget_channel) (rw n refl)

    forgets :
        (r : RemoteAddr)
        → s.tracked_remote_addr ch ≡ some r
        → (client : Client)
        → s.client_logic_connection (env.net.addr_string r.local_addr) ≡ some client
        → forget_channel env s ch ≡ (
          true,
          record (put_tracker s
              (env.net.addr_string r.local_addr)
              (env.net.addr_string r.remote_addr)
              new_tracked_connection) {
                tracked_remote_addr = delete_channel ch s.tracked_remote_addr;
              },
        )
    forgets r e client n = unfold forget_channel put_tracker in rw (e, forget_channel) (rw n refl)

pub untrack_connection-Agrees :
    (env : Env) (s : Server) (ch : ℕ) → Agrees env s → Agrees env (untrack_connection env s ch).1
unfolding untrack_connection
untrack_connection-Agrees env s ch a =
    let header = env.wire.command.pack (command command_channel_destroy) in
    let body = env.wire.channel_destroy.pack (record { channel = ch }) in
    let offered = offer_to_client env s (header.bytes ++ body.bytes) in
    let a1 : Agrees env offered.1 =
      Agrees-SameTables env s offered.1 (offer_to_client-SameTables env s _) a in
    if_rule (λ (r : Bool × Server). Agrees env r.1) offered.0
      (forget_channel-Agrees env offered.1 ch a1) a

untrack_rounds-Agrees :
    (rounds : ℕ) (env : Env) (s : Server) (source dest : String)
    → Agrees env s
    → Agrees env (untrack_rounds rounds env s source dest)
unfolding untrack_rounds
untrack_rounds-Agrees zero env s source dest a = a
untrack_rounds-Agrees (suc n) env s source dest a =
    let t : TrackedConnection = load_or new_tracked_connection (lookup_tracker s source dest) in
    let r = untrack_connection env s t.channel in
    let a1 = untrack_connection-Agrees env s t.channel a in
    if_rule (Agrees env) (not t.tracked) a
      (if_rule (Agrees env) r.0 (untrack_rounds-Agrees n env r.1 source dest a1) a1)

-- `untrackAll` keeps the two tables in agreement, for the connections in any order. The
-- condition is that they agree before it.
pub untrack_all-Agrees :
    (env : Env) (s : Server) (source : String) (dests : List String)
    → Agrees env s
    → Agrees env (untrack_all env s source dests)
unfolding untrack_all untrack_one
untrack_all-Agrees env s source [] a = a
untrack_all-Agrees env s source (d ∷ ds) a =
    untrack_all-Agrees env (untrack_one env s source d) source ds
      (if_rule (Agrees env) _ (untrack_rounds-Agrees 11 env s source d a) a)

-- A client whose trackers are those that were stored can be put back.
pub put_client-Agrees :
    (env : Env) (s : Server) (key : String) (client : Client)
    → ((d : String) → client.tracked_connection d ≡ lookup_tracker s key d)
    → Agrees env s
    → Agrees env (put_client s key client)
unfolding lookup_tracker
put_client-Agrees env s key client same a =
    subst (λ l. AgreesOn env l s.tracked_remote_addr)
      (fun_ext (λ k. fun_ext (λ d. ground (arith, same d, eq_iff key k)))) a

module _ (env : Env) (s : Server) (key remote : String) (client : Client) where
  tracking_of :
      (u : TrackedConnection)
      → lookup_tracker s key remote ≡ some u
      → u.channel ≢ 0
      → Agrees env s
      → u.tracking ≡ true
  tracking_of u has pos a = elim (Bool-cases u.tracking) [
    | inl on ↦ on
    | inr off ↦
        absurd (pos (ap (λ (x : TrackedConnection). x.channel) (a.idle key remote u has off)))
  ]

  -- A tracker whose channel is not 0 is tracking, and may be marked as tracked.
  confirmed-Agrees :
      (channel : ℕ)
      → channel ≢ 0
      → s.client_logic_connection key ≡ some client
      → Agrees env s
      → Agrees env (put_tracker s key remote (confirm (loaded env s key remote client) channel))
  confirmed-Agrees channel pos known a =
      let t = loaded env s key remote client in
      let at = looked_up env s key remote client known in
      elim (Bool-cases (t.channel == channel)) [
        | inr other ↦
            subst (λ c. Agrees env (put_tracker s key remote c))
              (sym (ap (λ (b : Bool). if b then record t { tracked = true } else t) other))
              (load_tracker-Agrees env s key remote client known a)
        | inl same ↦
            subst (λ c. Agrees env (put_tracker s key remote c))
              (sym (ap (λ (b : Bool). if b then record t { tracked = true } else t) same))
              (elim (Option-cases (client.tracked_connection remote)) [
                | inl fresh ↦
                    let zero_channel : t.channel ≡ 0 =
                      ap
                        (λ (o : Option TrackedConnection).
                          (load_or new_tracked_connection o).channel)
                        fresh in
                    absurd (pos (sym (==→eq t.channel channel same) ∙ zero_channel))
                | inr (u, found) ↦
                    let eq : t ≡ u = ap (load_or new_tracked_connection) found in
                    let has = at ∙ found in
                    let ch : u.channel ≡ channel =
                      ap (λ (x : TrackedConnection). x.channel) (sym eq)
                      ∙ ==→eq t.channel channel same in
                    let on = tracking_of u has (λ z. pos (sym ch ∙ z)) a in
                    subst
                      (λ (x : TrackedConnection).
                        Agrees env (put_tracker s key remote (record x { tracked = true })))
                      (sym eq)
                      (Agrees-put env s s key remote (record u { tracked = true }) client
                        s.tracked_remote_addr known refl refl
                        (AgreesOn-put env (lookup_tracker s) s.tracked_remote_addr a key remote
                          (record u { tracked = true }) (λ _. a.forward key remote u has on)
                          (λ v has' _. (
                            on,
                            ap (λ (x : TrackedConnection). x.channel) (some_eq (sym has ∙ has')),
                          ))
                          (λ off. cc)))
              ])
      ]

-- The confirmation of a channel keeps the two tables in agreement, for a client that is known
-- or not. The conditions are that the channel is not 0 and that they agree before it.
pub on_associate_done-Agrees :
    (env : Env) (s : Server) (h : AssociateHeader)
    → h.channel ≢ 0
    → Agrees env s
    → Agrees env (on_associate_done env s h)
on_associate_done-Agrees env s h pos a = elim (Option-cases (s.client_logic_connection key)) [
  | inl missing ↦ subst (Agrees env) (sym (nothing missing)) a
  | inr (client, known) ↦
      subst (Agrees env) (sym (something client known))
        (confirmed-Agrees env s key remote client h.channel pos known a)
]
  where
    key : String
    key = env.net.addr_string (record { ip = ip_byte_to_addr h.source_ip; port = h.source_port })

    remote : String
    remote = env.net.addr_string (record { ip = ip_byte_to_addr h.dest_ip; port = h.dest_port })

    nothing : s.client_logic_connection key ≡ none → on_associate_done env s h ≡ s
    nothing e = unfold on_associate_done in rw (e, on_associate_done)

    something :
        (client : Client)
        → s.client_logic_connection key ≡ some client
        → on_associate_done env s h
          ≡ put_tracker s key remote (confirm (loaded env s key remote client) h.channel)
    something client e = unfold on_associate_done in rw (e, on_associate_done)
