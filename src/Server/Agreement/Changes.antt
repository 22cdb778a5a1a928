-- ===== src/Server/Agreement/Changes.antt =====
-- How the tables change together.
use vlite.Base.{
  ℕ, ◌≡◌, ◌≢◌, sym, ap, ◌∙◌, subst₂, arith, true, false, Option, none, some, some_eq, ◌==◌, ◌&&◌,
  if◌then◌else◌, ◌⊎◌, Bool-cases, inl, inr,
}
use Prim.Native.String.{String}
use text.Mathlib.Text.{◌==◌ as str_eq}
use text.Mathlib.TextEquality.{eq_iff}
use vlite.Server.{Env, RemoteAddr, TrackedConnection, new_tracked_connection}
use vlite.Server.Agreement.{AgreesOn}

abbrev pub put_at :
    String
    → String
    → TrackedConnection
    → (String → String → Option TrackedConnection)
    → String
    → String
    → Option TrackedConnection
put_at k d t look k' d' = if str_eq k k' && str_eq d d' then some t else look k' d'

-- Whether the connection is the one that was put.
pub put_at-cases :
    (k d : String) (t : TrackedConnection) (look : String → String → Option TrackedConnection)
    (k' d' : String)
    → ((k ≡ k') × (d ≡ d') × (put_at k d t look k' d' ≡ some t))
      ⊎ (¬ ((k ≡ k') × (d ≡ d')) × (put_at k d t look k' d' ≡ look k' d'))
put_at-cases k d t look k' d' = elim (Bool-cases (str_eq k k' && str_eq d d')) [
  | inl same ↦ inl (ground (arith, eq_iff k k'), ground (arith, eq_iff d d'), rw same)
  | inr other ↦ inr (λ h. ground (arith, eq_iff k k', eq_iff d d'), rw other)
]

pub put_at_self :
    (k d : String) (t : TrackedConnection) (look : String → String → Option TrackedConnection)
    → put_at k d t look k d ≡ some t
put_at_self k d t look = ground (arith, eq_iff k k, eq_iff d d)

module _ (env : Env) (look : String → String → Option TrackedConnection)
    (remote : ℕ → Option RemoteAddr) (agrees : AgreesOn env look remote) where
  open agrees use {forward, backward, idle, no_zero}

  -- A tracker that is not tracking starts, on a channel that is free.
  pub AgreesOn-track :
      (k d : String) (t : TrackedConnection) (r : RemoteAddr)
      → ((u : TrackedConnection) → look k d ≡ some u → u.tracking ≡ false)
      → env.net.addr_string r.local_addr ≡ k
      → env.net.addr_string r.remote_addr ≡ d
      → remote t.channel ≡ none
      → t.channel ≢ 0
      → t.tracking ≡ true
      → AgreesOn env (put_at k d t look) (λ j. if t.channel == j then some r else remote j)
  AgreesOn-track k d t r rests local far free pos tracks = record {
    forward = λ k' d' u e on. elim (put_at-cases k d t look k' d') [
      | inl (same_k, same_d, p) ↦
          let same : t ≡ u = some_eq (sym p ∙ e) in (r, ground arith, local ∙ same_k, far ∙ same_d)
      | inr (other, p) ↦
          let (r', at, a, b) = forward k' d' u (sym p ∙ e) on in (r', ground arith, a, b)
    ];
    backward = λ ch r' e.
        let kk : String = env.net.addr_string r'.local_addr in
        let dd : String = env.net.addr_string r'.remote_addr in
        elim (Bool-cases (t.channel == ch)) [
          | inl hit ↦
              let same : r ≡ r' = ground arith in
              let put : put_at k d t look kk dd ≡ some t =
                subst₂ (λ a b. put_at k d t look a b ≡ some t)
                  (sym local ∙ ap (λ (x : RemoteAddr). env.net.addr_string x.local_addr) same)
                  (sym far ∙ ap (λ (x : RemoteAddr). env.net.addr_string x.remote_addr) same)
                  (put_at_self k d t look) in
              (t, put, tracks, ground arith)
          | inr miss ↦
              let before : remote ch ≡ some r' = ground arith in
              let (u, at, on, c) = backward ch r' before in
              let put : put_at k d t look kk dd ≡ some u = elim (put_at-cases k d t look kk dd) [
                | inl (same_k, same_d, p) ↦
                    let off =
                      rests u (subst₂ (λ a b. look a b ≡ some u) (sym same_k) (sym same_d) at) in
                    cc
                | inr (other, p) ↦ p ∙ at
              ] in
              (u, put, on, c)
        ];
    idle = λ k' d' u e off. elim (put_at-cases k d t look k' d') [
      | inl (same_k, same_d, p) ↦ let same : t ≡ u = some_eq (sym p ∙ e) in ground arith
      | inr (other, p) ↦ idle k' d' u (sym p ∙ e) off
    ];
    no_zero = ground arith;
  }

  -- The channel `ch` of the table is forgotten, and the tracker of its addresses starts anew.
  pub AgreesOn-forget :
      (ch : ℕ) (r : RemoteAddr)
      → remote ch ≡ some r
      → AgreesOn env
          (put_at
            (env.net.addr_string r.local_addr)
            (env.net.addr_string r.remote_addr)
            new_tracked_connection
            look)
          (λ j. if ch == j then none else remote j)
  AgreesOn-forget ch r at = record {
    forward = λ k' d' u e on. elim (put_at-cases k d new_tracked_connection look k' d') [
      | inl (same_k, same_d, p) ↦ let same = some_eq (sym p ∙ e) in ground arith
      | inr (other, p) ↦
          let (r', here, a, b) = forward k' d' u (sym p ∙ e) on in
          let ne : ch ≢ u.channel = λ c.
            let same : r ≡ r' = some_eq (sym at ∙ ap remote c ∙ here) in
            other (
              ap (λ (x : RemoteAddr). env.net.addr_string x.local_addr) same ∙ a,
              ap (λ (x : RemoteAddr). env.net.addr_string x.remote_addr) same ∙ b,
            ) in
          (r', ground arith, a, b)
    ];
    backward = λ j r' e.
        let kk : String = env.net.addr_string r'.local_addr in
        let dd : String = env.net.addr_string r'.remote_addr in
        let before : remote j ≡ some r' = ground arith in
        let ne : ch ≢ j = λ c. ground arith in
        let (u, has, on, c) = backward j r' before in
        let put : put_at k d new_tracked_connection look kk dd ≡ some u =
          elim (put_at-cases k d new_tracked_connection look kk dd) [
            | inl (same_k, same_d, p) ↦
                let (v, has', on', c') = backward ch r at in
                let same : v ≡ u =
                  some_eq
                    (sym has' ∙ subst₂ (λ a b. look a b ≡ some u) (sym same_k) (sym same_d) has) in
                absurd (ne (sym c' ∙ ap (λ (x : TrackedConnection). x.channel) same ∙ c))
            | inr (other, p) ↦ p ∙ has
          ] in
        (u, put, on, c);
    idle = λ k' d' u e off. elim (put_at-cases k d new_tracked_connection look k' d') [
      | inl (same_k, same_d, p) ↦ sym (some_eq (sym p ∙ e))
      | inr (other, p) ↦ idle k' d' u (sym p ∙ e) off
    ];
    no_zero = ground arith;
  }
    where
      k : String
      k = env.net.addr_string r.local_addr

      d : String
      d = env.net.addr_string r.remote_addr

  -- A tracker is put that keeps the channel of the one that it replaces.
  pub AgreesOn-put :
      (k d : String) (t : TrackedConnection)
      → (t.tracking ≡ true
          → (r : RemoteAddr) × (remote t.channel ≡ some r)
            × (env.net.addr_string r.local_addr ≡ k)
            × (env.net.addr_string r.remote_addr ≡ d))
      → ((u : TrackedConnection)
          → look k d ≡ some u
          → u.tracking ≡ true
          → (t.tracking ≡ true) × (t.channel ≡ u.channel))
      → (t.tracking ≡ false → t ≡ new_tracked_connection)
      → AgreesOn env (put_at k d t look) remote
  AgreesOn-put k d t holds keeps fresh = record {
    forward = λ k' d' v e on. elim (put_at-cases k d t look k' d') [
      | inl (same_k, same_d, p) ↦
          let same : t ≡ v = some_eq (sym p ∙ e) in
          let (r, here, a, b) = holds (ap (λ (x : TrackedConnection). x.tracking) same ∙ on) in
          (
            r,
            ap (λ (x : TrackedConnection). remote x.channel) (sym same) ∙ here,
            a ∙ same_k,
            b ∙ same_d,
          )
      | inr (other, p) ↦ forward k' d' v (sym p ∙ e) on
    ];
    backward = λ j r' e.
        let kk : String = env.net.addr_string r'.local_addr in
        let dd : String = env.net.addr_string r'.remote_addr in
        let (u, has, on, c) = backward j r' e in
        elim (put_at-cases k d t look kk dd) [
          | inl (same_k, same_d, p) ↦
              let (on', c') =
                keeps u (subst₂ (λ a b. look a b ≡ some u) (sym same_k) (sym same_d) has) on in
              (t, p, on', c' ∙ c)
          | inr (other, p) ↦ (u, p ∙ has, on, c)
        ];
    idle = λ k' d' v e off. elim (put_at-cases k d t look k' d') [
      | inl (same_k, same_d, p) ↦
          let same : t ≡ v = some_eq (sym p ∙ e) in
          sym same ∙ fresh (ap (λ (x : TrackedConnection). x.tracking) same ∙ off)
      | inr (other, p) ↦ idle k' d' v (sym p ∙ e) off
    ];
    no_zero = no_zero;
  }
