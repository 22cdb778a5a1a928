-- ===== src/Filter.antt =====
-- transport/filteredConn/conn.go: one connection for the control channel, number 0, and for the data
-- channels. A counter is a number below 2 ^ 64, with its wrap-around written out.
pub mod Channels
pub mod Boosts
use vlite.Base.{
  [], ℕ, ◌+◌, ◌-◌, ◌/◌, ◌%◌, ◌^◌, List, ◌∷◌, ◌++◌, Bool, true, false, ltb, ◌==◌, if◌then◌else◌,
  length, take,
}
use vlite.Proto.{Codec, DataHeader, Traffic}

abbrev pub data_header : ℕ → DataHeader
data_header n = record { channel = n }

-- `FilteredConn`: `rx_channel` is what was sent on `RxChannel`, and `cancelled` is whether its context is.
pub record FilteredConn : Type 0 where
  pub packet_sent : ℕ
  pub packet_recv : ℕ
  pub rx_channel : List Traffic
  pub written : List (List ℕ)
  pub cancelled : Bool

abbrev pub new_filtered_conn : FilteredConn
new_filtered_conn = record {
  packet_sent = 0;
  packet_recv = 0;
  rx_channel = [];
  written = [];
  cancelled = false;
}

abbrev pub count : ℕ → ℕ
count n = (n + 1) % 2 ^ 64

-- An answer of the connection below: a packet, with whether `RxChannel` takes it before the context is
-- done, if it goes there; or an error.
pub data ConnAnswer : Type 0 where
  packet : List ℕ → Bool → ConnAnswer
  error : ConnAnswer

-- How `Read` ends; `waiting` is where there are no answers yet. A control packet comes as what was
-- copied into the caller's buffer, with the number that is returned.
pub data ReadEnd : Type 0 where
  control : List ℕ → ℕ → ReadEnd
  failed ctx_done waiting : ReadEnd

pub record FilterRead : Type 0 where
  pub end : ReadEnd
  pub rest : List ConnAnswer
  pub conn : FilteredConn

-- `Read` with a buffer of `size` bytes. What a packet has beyond 65536 bytes is not read, what a control
-- packet has beyond `size` is not copied, and the number returned is that of the whole control packet.
-- A header that is not unpacked is only logged.
unfoldable pub read : Codec DataHeader → ℕ → List ConnAnswer → FilteredConn → FilterRead
read codec size [] c = record { end = waiting; rest = []; conn = c }
read codec size (error ∷ answers) c = record {
  end = failed;
  rest = answers;
  conn = record c { cancelled = true };
}
read codec size (packet bytes taken ∷ answers) c =
    let header = codec.unpack (take 65536 bytes) in
    let c1 : FilteredConn = record c { packet_recv = count c.packet_recv } in
    let traffic : Traffic = record { channel = header.value.channel; payload = header.rest } in
    let next = read codec size answers (record c1 { rx_channel = c1.rx_channel ++ traffic ∷ [] }) in
    if header.value.channel == 0
    then record {
      end = control (take size header.rest) (length header.rest);
      rest = answers;
      conn = c1;
    }
    else if taken
    then next
    else record { end = ctx_done; rest = answers; conn = c1 }

-- `Write`, and one round of `WriteC`: the packet with its channel. An error of the connection below is
-- returned or logged.
pub record WriteResult : Type 0 where
  pub n : ℕ
  pub conn : FilteredConn

unfoldable pub write_channel : Codec DataHeader → ℕ → List ℕ → FilteredConn → FilteredConn
write_channel codec channel payload c = record c {
  packet_sent = count c.packet_sent;
  written = c.written ++ ((codec.pack (data_header channel)).bytes ++ payload) ∷ [];
}

unfoldable pub write : Codec DataHeader → Bool → List ℕ → FilteredConn → WriteResult
write codec no_error p c = record {
  n = if no_error then length p else 0;
  conn = write_channel codec 0 p c;
}

unfoldable pub write_c : Codec DataHeader → Traffic → FilteredConn → FilteredConn
write_c codec t c = write_channel codec t.channel t.payload c

-- `connectionBoostRequester`: the counters of the last second, and `HiTrafficCounter`.
pub record Requester : Type 0 where
  pub sent : ℕ
  pub recv : ℕ
  pub hi_traffic_counter : ℕ

pub record BoostTick : Type 0 where
  pub requester : Requester
  pub emits : Bool

abbrev pub traffic_flow : ℕ → ℕ → Requester → ℕ
traffic_flow sentn recvn r =
    ((sentn + recvn) % 2 ^ 64 + 2 ^ 64 - (r.sent + r.recv) % 2 ^ 64) % 2 ^ 64

abbrev pub raised : ℕ → ℕ → ℕ
raised flow counter = counter + 1 + (if ltb 8 flow then 1 else 0) + (if ltb 16 flow then 1 else 0)

unfoldable pub tick : ℕ → ℕ → Requester → BoostTick
tick sentn recvn r =
    let flow = traffic_flow sentn recvn r in
    let counter =
      if ltb 4 flow then raised flow r.hi_traffic_counter else r.hi_traffic_counter / 2 in
    record {
      requester = record { sent = sentn; recv = recvn; hi_traffic_counter = counter };
      emits = if ltb 4 flow then ltb 3 counter else false;
    }
