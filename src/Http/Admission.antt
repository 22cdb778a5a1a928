-- ===== src/Http/Admission.antt =====
-- transport/http/httpServer/server.go and id.go: which requests are served, and for which connection.
-- Times are in seconds since the epoch, below 2 ^ 63.
use vlite.Base.{
  ℕ, ◌+◌, ◌-◌, ◌/◌, ◌%◌, ◌^◌, List, ◌++◌, replicate, Option, none, some, Bool, true, false, not,
  ltb, leb, ◌==◌, if◌then◌else◌, length, bytes_equal,
}
use vlite.Replay.{FilterOps, AntiReplayWindow, new_window, check}
use vlite.Http.Holder.{HttpHeaderHolder}

pub data Method : Type 0 where
  get post other_method : Method

-- A request: its bearer without the place where it is, what the processor opens it to, its method and
-- time, and whether a websocket can be made of it.
pub record Request : Type 0 where
  pub bearer : List ℕ
  pub beardata : Option HttpHeaderHolder
  pub method : Method
  pub now : ℕ
  pub upgrades : Bool

-- What becomes of a request.
pub data Served : Type 0 where
  not_found test_buffer not_upgraded relay_stream websocket get_packets post_packets : Served

-- `ProviderConnServerSide`, and the connections of `ProviderServerSide` by their synthetic identifier.
-- `boosts` counts the requests for boosting that were emitted for the connection.
pub record ServerConn (F : Type 0) : Type 0 where
  pub conn_id : List ℕ
  pub no_replay_checker : AntiReplayWindow F
  pub boosts : ℕ

pub record HttpServer (F : Type 0) : Type 0 where
  pub client_set : List ℕ → Option (ServerConn F)

pub record Answered (F : Type 0) : Type 0 where
  pub result : Served
  pub server : HttpServer F

-- `math.Abs(float64(beardata.Time - time.Now().Unix()))`, on int64.
abbrev pub timediff : ℕ → ℕ → ℕ
timediff time now =
    let d = (time + 2 ^ 64 - now) % 2 ^ 64 in if leb (2 ^ 63) d then 2 ^ 64 - d else d

-- `Flags&flag != 0`, for a flag that is a power of two.
abbrev pub has_flag : ℕ → ℕ → Bool
has_flag flags flag = not ((flags / flag) % 2 == 0)

-- `synthid`; `rune` is the conversion of a number to a string.
abbrev pub synthid : (ℕ → List ℕ) → HttpHeaderHolder → List ℕ
synthid rune b =
    let negative = leb 2147483648 b.conn_iter in
    b.conn_id ++ rune (if negative then (4294967296 - b.conn_iter) % 4294967296 else b.conn_iter)

-- A header that passes the checks before the connections are looked at.
unfoldable pub bearer_of : Request → Option HttpHeaderHolder
bearer_of r = if ltb (length r.bearer) 16 then none else r.beardata

abbrev pub is_timely : ℕ → HttpHeaderHolder → Bool
is_timely now b = leb (timediff b.time now) 120

-- A connection of zeros tests the buffers of a proxy; its masker is the size, as an int64.
abbrev pub is_test : Method → HttpHeaderHolder → Bool
is_test get b = bytes_equal b.conn_id (replicate 24 0)
is_test post b = bytes_equal b.conn_id (replicate 24 0)
is_test other_method b = false

abbrev pub test_result : HttpHeaderHolder → Served
test_result b =
    if leb (2 ^ 63) b.masker
    then test_buffer
    else if leb 16777216 b.masker
    then not_found
    else test_buffer

abbrev pub by_method : Method → Served
by_method get = get_packets
by_method post = post_packets
by_method other_method = not_found

-- What is done with an admitted request.
unfoldable pub transmit : Request → HttpHeaderHolder → Served
transmit r b =
    if not (has_flag b.flags 2)
    then by_method r.method
    else if not r.upgrades
    then not_upgraded
    else if has_flag b.flags 4
    then relay_stream
    else websocket

module _ {F : Type 0} (ops : FilterOps F) (rune : ℕ → List ℕ) where
  abbrev pub loaded_conn : HttpHeaderHolder → Option (ServerConn F) → ServerConn F
  loaded_conn b none = record {
    conn_id = b.conn_id;
    no_replay_checker = new_window ops 119;
    boosts = 0;
  }
  loaded_conn b (some c) = c

  abbrev pub store_conn : List ℕ → ServerConn F → HttpServer F → HttpServer F
  store_conn id c s = record {
    client_set = λ k. if bytes_equal id k then some c else s.client_set k;
  }

  abbrev pub boosted : HttpHeaderHolder → ServerConn F → ServerConn F
  boosted b c = if has_flag b.flags 1 then record c { boosts = c.boosts + 1 } else c

  -- `parpareforconnection`: whether the request is a replay, and the server after.
  pub record Prepared : Type 0 where
    pub refused : Bool
    pub server : HttpServer F

  unfoldable pub prepare_for_connection : ℕ → HttpHeaderHolder → HttpServer F → Prepared
  prepare_for_connection now b s =
      let id = synthid rune b in
      let c = loaded_conn b (s.client_set id) in
      let k = check ops now b.rand c.no_replay_checker in
      let c1 : ServerConn F = record c { no_replay_checker = k.1 } in
      if k.0
      then record { refused = false; server = store_conn id (boosted b c1) s }
      else record { refused = true; server = store_conn id c1 s }

  -- A request with a header.
  unfoldable pub serve_header : Request → HttpHeaderHolder → HttpServer F → Answered F
  serve_header r b s =
      let p = prepare_for_connection r.now b s in
      if not (is_timely r.now b)
      then record { result = not_found; server = s }
      else if is_test r.method b
      then record { result = test_result b; server = s }
      else if p.refused
      then record { result = not_found; server = p.server }
      else record { result = transmit r b; server = p.server }

  abbrev pub serve_opened : Request → Option HttpHeaderHolder → HttpServer F → Answered F
  serve_opened r none s = record { result = not_found; server = s }
  serve_opened r (some b) s = serve_header r b s

  -- `ServeHTTP`.
  unfoldable pub serve_http : Request → HttpServer F → Answered F
  serve_http r s = serve_opened r (bearer_of r) s
