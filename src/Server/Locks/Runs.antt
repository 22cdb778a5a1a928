-- ===== src/Server/Locks/Runs.antt =====
-- A locked mutex stays locked in every run of the server: the packets of the client, and the listeners
-- (`rxFromRemoteListener`) of workers/server/serverWorker.go.
use vlite.Base.{[], ℕ, refl, Option, none, some, List, ◌∷◌, if_rule, if◌then◌else◌, ltb, ◌+◌}
use Prim.Native.String.{String}
use vlite.Server.{Env, Server, Client}
use vlite.Server.Listener.{
  Answer, deadline_failed, packet, try_again, failed, Listening, listening, closed, set_client,
  shut_down, overall_track_time, see, listener_answer, listener_step,
}
use vlite.Server.Agreement.Loops.{left}
use vlite.Server.Reach.{Event, received, heard, taken, step, run}
use vlite.Server.Locks.Handlers.{rx_from_client-IsLocked}
use vlite.Server.Locks.{IsLocked, untrack_all-IsLocked, set_client-IsLocked, tx_to_client-IsLocked}

module _ (key : String) where
  shut_down-IsLocked :
      (env : Env) (s : Server) (k : String) (dests : List String)
      → IsLocked key s
      → IsLocked key (shut_down env s k dests)
  unfolding shut_down
  shut_down-IsLocked env s k dests locked =
      untrack_all-IsLocked key env (set_client s k (λ client. record client { conn = none })) k
        dests
        (set_client-IsLocked key s k (λ client. record client { conn = none }) (λ client. refl)
          locked)

  listener_answer-IsLocked :
      (env : Env) (now : ℕ) (dests : List String) (k : String) (client : Client) (answer : Answer)
      (s : Server)
      → IsLocked key s
      → IsLocked key (left (listener_answer env now dests k client answer s))
  unfolding listener_answer see
  listener_answer-IsLocked env now dests k client deadline_failed s locked =
      shut_down-IsLocked env s k dests locked
  listener_answer-IsLocked env now dests k client failed s locked =
      shut_down-IsLocked env s k dests locked
  listener_answer-IsLocked env now dests k client (try_again alive) s locked =
      let ends = shut_down-IsLocked env s k dests locked in
      let end : Listening = closed (shut_down env s k dests) in
      if_rule (λ (r : Listening). IsLocked key (left r))
        (ltb (client.last_seen + overall_track_time s client) now) {x = end}
        {y = if alive then listening s else end} ends
        (if_rule (λ (r : Listening). IsLocked key (left r)) alive {x = listening s} {y = end} locked
          ends)
  listener_answer-IsLocked env now dests k client (packet payload from) s locked =
      tx_to_client-IsLocked key env _ payload client.local_addr from (
        set_client-IsLocked key s k (λ client. record client { last_seen = now }) (λ client. refl)
          locked)

  listener_step-IsLocked :
      (env : Env) (now : ℕ) (dests : List String) (k : String) (answer : Answer) (s : Server)
      → IsLocked key s
      → IsLocked key (left (listener_step env now dests k answer s))
  unfolding listener_step
  listener_step-IsLocked env now dests k answer s locked = by_client (s.client_logic_connection k)
    where
      by_client :
          (c : Option Client)
          → IsLocked key (
              left (elim c [
                | none ↦ closed s
                | some tracker ↦ listener_answer env now dests k tracker answer s
              ]))
      by_client none = locked
      by_client (some client) = listener_answer-IsLocked env now dests k client answer s locked

  pub run-IsLocked :
      (env : Env) (es : List Event) (s : Server) → IsLocked key s → IsLocked key (run env es s)
  unfolding run step
  run-IsLocked env [] s locked = locked
  run-IsLocked env (received dialed traffic ∷ es) s locked =
      run-IsLocked env es _ (rx_from_client-IsLocked key env dialed s traffic locked)
  run-IsLocked env (heard now dests k answer ∷ es) s locked =
      run-IsLocked env es _ (listener_step-IsLocked env now dests k answer s locked)
  run-IsLocked env (taken n m ∷ es) s locked = run-IsLocked env es _ locked
