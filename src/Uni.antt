-- ===== src/Uni.antt =====
-- transport/uni/uniserver: connections that outlive the carriers they run on.
-- An int32 is a number below 2 ^ 32, negative from 2 ^ 31 on. A carrier is the number of the call of
-- `onConnection` that brought it; a context that a function cancels is the number of its carrier.
pub mod Carriers
pub mod Refusals
use vlite.Base.{
  ℕ, ◌+◌, ◌-◌, ◌%◌, List, [], ◌∷◌, ◌++◌, Option, none, some, Bool, true, false, ltb, if◌then◌else◌,
  bytes_equal,
}
use vlite.Replay.{FilterOps, AntiReplayWindow, new_window, check}

-- `ExtraOptionsUniConnAttribValue`.
pub record Attrib : Type 0 where
  pub id : List ℕ
  pub rand : List ℕ
  pub iter : ℕ

-- `UnifiedConnectionTransport`: the functions that cancel a carrier by its random bytes.
pub record Transport (F : Type 0) : Type 0 where
  pub conn_id : List ℕ
  pub arw : AntiReplayWindow F
  pub last_conn_iter : ℕ
  pub last_conn_iter_cancel_func : List (List ℕ × ℕ)

-- `UnifiedConnectionTransportHub`, with what it has done: the identifiers it announced, the carriers it
-- cancelled, and the identifiers that shook hands again.
pub record Hub (F : Type 0) : Type 0 where
  pub conns : List ℕ → Option (Transport F)
  pub announced : List (List ℕ)
  pub cancelled : List ℕ
  pub rehandshakes : List (List ℕ)

-- Comparison of signed numbers, and `-` on them.
abbrev pub biased : ℕ → ℕ
biased w = (w + 2147483648) % 4294967296

abbrev pub signed_lt : ℕ → ℕ → Bool
signed_lt a b = ltb (biased a) (biased b)

abbrev pub negated : ℕ → ℕ
negated w = (4294967296 - w) % 4294967296

-- An iteration below -1 asks for a handshake.
abbrev pub should_rehandshake : Attrib → Bool
should_rehandshake a = signed_lt a.iter 4294967295

abbrev pub iter_of : Attrib → ℕ
iter_of a = if should_rehandshake a then negated a.iter else a.iter

-- The number, the time and the attributes of a call.
pub record Call : Type 0 where
  pub carrier : ℕ
  pub now : ℕ
  pub attrib : Attrib

abbrev put_func : List ℕ → ℕ → List (List ℕ × ℕ) → List (List ℕ × ℕ)
put_func rand carrier [] = (rand, carrier) ∷ []
put_func rand carrier ((r, c) ∷ funcs) =
    if bytes_equal r rand then (rand, carrier) ∷ funcs else (r, c) ∷ put_func rand carrier funcs

abbrev pub carriers : List (List ℕ × ℕ) → List ℕ
carriers [] = []
carriers ((r, c) ∷ funcs) = c ∷ carriers funcs

module _ {F : Type 0} (ops : FilterOps F) where
  abbrev pub new_transport : Attrib → Transport F
  new_transport a = record {
    conn_id = a.id;
    arw = new_window ops 120;
    last_conn_iter = iter_of a;
    last_conn_iter_cancel_func = [];
  }

  abbrev pub loaded : Attrib → Option (Transport F) → Transport F
  loaded a none = new_transport a
  loaded a (some t) = t

  abbrev pub announce : Attrib → Option (Transport F) → List (List ℕ) → List (List ℕ)
  announce a none ids = ids ++ a.id ∷ []
  announce a (some t) ids = ids

  abbrev pub store : List ℕ → Transport F → Hub F → Hub F
  store id t h = record h { conns = λ k. if bytes_equal id k then some t else h.conns k }

  -- A greater iteration cancels the carriers of the last one.
  abbrev pub reincarnates : Attrib → Transport F → Bool
  reincarnates a t = signed_lt t.last_conn_iter (iter_of a)

  abbrev pub old_funcs : Attrib → Transport F → List (List ℕ × ℕ)
  old_funcs a t = if reincarnates a t then [] else t.last_conn_iter_cancel_func

  abbrev pub accepted : Call → Transport F → Hub F → Hub F
  accepted call t h =
      let a = call.attrib in
      let kept : Transport F = record t {
        last_conn_iter = iter_of a;
        last_conn_iter_cancel_func = put_func a.rand call.carrier (old_funcs a t);
      } in
      let h1 = store a.id kept h in
      record h1 {
        cancelled =
            if reincarnates a t
            then h.cancelled ++ carriers t.last_conn_iter_cancel_func
            else h.cancelled;
        rehandshakes =
            if reincarnates a t
            then if should_rehandshake a then h.rehandshakes ++ a.id ∷ [] else h.rehandshakes
            else h.rehandshakes;
      }

  -- Whether the call gives a context for the carrier, or closes it; and the hub after.
  pub record Connected : Type 0 where
    pub served : Bool
    pub hub : Hub F

  unfoldable pub on_connection : Call → Hub F → Connected
  on_connection call h =
      let a = call.attrib in
      let t = loaded a (h.conns a.id) in
      let c = check ops call.now a.rand t.arw in
      let t1 : Transport F = record t { arw = c.1 } in
      let h1 : Hub F = record h { announced = announce a (h.conns a.id) h.announced } in
      if c.0
      then record { served = true; hub = accepted call t1 h1 }
      else record { served = false; hub = store a.id t1 h1 }
