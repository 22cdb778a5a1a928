-- ===== src/Server/Agreement/Steps.antt =====
-- Every change that the server makes to the two tables keeps their agreement.
use vlite.Base.{
  ℕ, ◌≡◌, refl, sym, ap, ◌∙◌, subst₂, arith, Bool, not, Option, some, if◌then◌else◌, List, if_rule,
}
use Prim.Native.String.{String}
use mathlib.Core.Path.{fun_ext}
use text.Mathlib.TextEquality.{eq_iff}
use vlite.Proto.{command_associate, command_associate_v6, UdpAddr, Packed}
use vlite.Server.{
  Env, Server, Client, RemoteAddr, TrackedConnection, lookup_tracker, tracker_of, send_to_client,
  put_tracker, allocate_channel, offer_to_client,
}
use vlite.Server.Tracking.{
  offer_packed, both_v4, associate_v4, associate_of_v6, command,
  track_connection_announce_if_possible,
}
use vlite.Server.Agreement.{AgreesOn}
use vlite.Server.Agreement.Changes.{put_at}

abbrev pub Agrees : Env → Server → Type 0
Agrees env s = AgreesOn env (lookup_tracker s) s.tracked_remote_addr

-- What the announcement, the generator and the sends leave alone.
abbrev pub SameTables : Server → Server → Type 0
SameTables s s' =
    (s'.tracked_remote_addr ≡ s.tracked_remote_addr)
    × (s'.client_logic_connection ≡ s.client_logic_connection)

pub offer_to_client-SameTables :
    (env : Env) (s : Server) (payload : List ℕ) → SameTables s (offer_to_client env s payload).1
unfolding offer_to_client send_to_client
offer_to_client-SameTables env s payload =
    if_rule (λ (r : Bool × Server). SameTables s r.1) _ (refl, refl) (refl, refl)

if-SameTables :
    (s : Server) (c : Bool) (x y : Bool × Server)
    → SameTables s x.1
    → SameTables s y.1
    → SameTables s (if c then x else y).1
if-SameTables s c x y = if_rule (λ (r : Bool × Server). SameTables s r.1) c

offer_packed-SameTables :
    (env : Env) (s : Server) (x y : Packed) → SameTables s (offer_packed env s x y).1
offer_packed-SameTables env s x y =
    if-SameTables s (not x.no_error) _ _ (refl, refl)
      (if-SameTables s (not y.no_error) _ _ (refl, refl) (offer_to_client-SameTables env s _))

pub announce-SameTables :
    (env : Env) (s : Server) (a b : UdpAddr) (n : ℕ)
    → SameTables s (track_connection_announce_if_possible env s a b n).1
unfolding track_connection_announce_if_possible
announce-SameTables env s a b n =
    let x = env.wire.command.pack (command command_associate) in
    let y = env.wire.command.pack (command command_associate_v6) in
    let v = env.wire.associate.pack (associate_v4 env a b n) in
    let w = env.wire.associate_v6.pack (associate_of_v6 env a b n) in
    if-SameTables s (both_v4 env a b) (offer_packed env s x v) (offer_packed env s y w)
      (offer_packed-SameTables env s x v) (offer_packed-SameTables env s y w)

pub allocate_channel-SameTables : (s : Server) → SameTables s (allocate_channel s).1
unfolding allocate_channel
allocate_channel-SameTables s = ground arith

-- A write through a pointer to a tracker of a client that is known.
pub lookup-put_tracker :
    (s : Server) (k d : String) (t : TrackedConnection) (client : Client)
    → s.client_logic_connection k ≡ some client
    → (k' d' : String)
    → lookup_tracker (put_tracker s k d t) k' d' ≡ put_at k d t (lookup_tracker s) k' d'
unfolding lookup_tracker put_tracker
lookup-put_tracker s k d t client known k' d' = ground (arith, eq_iff k k', eq_iff d d')

pub remote-put_tracker :
    (s : Server) (k d : String) (t : TrackedConnection)
    → (put_tracker s k d t).tracked_remote_addr ≡ s.tracked_remote_addr
unfolding put_tracker
remote-put_tracker s k d t = refl

abbrev pub tracker_in : (String → Option Client) → String → String → Option TrackedConnection
tracker_in m k d = tracker_of (m k) d

pub lookup-eq :
    (s s' : Server)
    → s'.client_logic_connection ≡ s.client_logic_connection
    → lookup_tracker s' ≡ lookup_tracker s
unfolding lookup_tracker
lookup-eq s s' e = ap tracker_in e

-- The agreement of two servers with the same tables.
pub Agrees-SameTables : (env : Env) (s s' : Server) → SameTables s s' → Agrees env s → Agrees env s'
Agrees-SameTables env s s' (remote, clients) a =
    subst₂ (AgreesOn env) (sym (lookup-eq s s' clients)) (sym remote) a

pub lookup-put_tracker_all :
    (s : Server) (k d : String) (t : TrackedConnection) (client : Client)
    → s.client_logic_connection k ≡ some client
    → lookup_tracker (put_tracker s k d t) ≡ put_at k d t (lookup_tracker s)
lookup-put_tracker_all s k d t client known =
    fun_ext (λ k'. fun_ext (λ d'. lookup-put_tracker s k d t client known k' d'))

-- A put after which only the channels differ from `s`.
pub Agrees-put :
    (env : Env) (s s' : Server) (k d : String) (t : TrackedConnection) (client : Client)
    (remote : ℕ → Option RemoteAddr)
    → s.client_logic_connection k ≡ some client
    → s'.client_logic_connection ≡ s.client_logic_connection
    → s'.tracked_remote_addr ≡ remote
    → AgreesOn env (put_at k d t (lookup_tracker s)) remote
    → Agrees env (put_tracker s' k d t)
Agrees-put env s s' k d t client remote known clients channels a =
    subst₂ (AgreesOn env) (sym looks) (sym (remote-put_tracker s' k d t ∙ channels)) a
  where
    looks : lookup_tracker (put_tracker s' k d t) ≡ put_at k d t (lookup_tracker s)
    looks =
        lookup-put_tracker_all s' k d t client
          (ap (λ (m : String → Option Client). m k) clients ∙ known)
        ∙ ap (put_at k d t) (lookup-eq s s' clients)
