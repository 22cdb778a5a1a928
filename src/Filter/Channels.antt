-- ===== src/Filter/Channels.antt =====
-- The control packets and the traffic of one end come out at the other end apart, each in order.
use vlite.Base.{
  ℕ, zero, suc, ◌≤◌, ◌<◌, ◌≡◌, ◌≢◌, refl, sym, ap, ◌∙◌, arith, List, [], ◌∷◌, ◌++◌, map, true,
  false, ◌==◌, if◌then◌else◌, length, take, take_all, All,
}
use mathlib.Core.List.{append-nil, append_assoc}
use vlite.Proto.{Codec, DataHeader, Traffic, RoundTrips, Unpacked}
use vlite.Filter.{
  data_header, FilteredConn, new_filtered_conn, count, ConnAnswer, packet, ReadEnd, control,
  FilterRead, read, write_channel, write, write_c,
}

-- What one end sends: a packet of the control channel by `Write`, or traffic by `WriteC`.
pub data Send : Type 0 where
  control_packet : List ℕ → Send
  traffic : Traffic → Send

abbrev pub send_one : Codec DataHeader → Send → FilteredConn → FilteredConn
send_one codec (control_packet p) c = (write codec true p c).conn
send_one codec (traffic t) c = write_c codec t c

abbrev pub send_all : Codec DataHeader → List Send → FilteredConn → FilteredConn
send_all codec [] c = c
send_all codec (s ∷ sends) c = send_all codec sends (send_one codec s c)

-- What a `Read` gives its caller: the buffer as far as it was filled, and the number returned.
pub record Control : Type 0 where
  pub buffer : List ℕ
  pub n : ℕ

-- `Read` until there is no control packet: those that came, and the connection after.
pub record Controls : Type 0 where
  pub packets : List Control
  pub conn : FilteredConn

abbrev with_control : Control → Controls → Controls
with_control p r = record r { packets = p ∷ r.packets }

abbrev after_read : ReadEnd → FilteredConn → Controls → Controls
after_read (control copied n) c next = with_control (record { buffer = copied; n = n }) next
after_read end c next = record { packets = []; conn = c }

unfoldable pub read_all : ℕ → Codec DataHeader → ℕ → List ConnAnswer → FilteredConn → Controls
read_all zero codec size answers c = record { packets = []; conn = c }
read_all (suc fuel) codec size answers c =
    let r = read codec size answers c in
    after_read r.end r.conn (read_all fuel codec size r.rest r.conn)

-- What is promised: two queues.
abbrev pub whole_control : List ℕ → Control
whole_control p = record { buffer = p; n = length p }

abbrev pub controls_of : List Send → List Control
controls_of [] = []
controls_of (control_packet p ∷ sends) = whole_control p ∷ controls_of sends
controls_of (traffic t ∷ sends) = controls_of sends

abbrev pub traffic_of : List Send → List Traffic
traffic_of [] = []
traffic_of (control_packet p ∷ sends) = traffic_of sends
traffic_of (traffic t ∷ sends) = t ∷ traffic_of sends

abbrev channel_of : Send → ℕ
channel_of (control_packet p) = 0
channel_of (traffic t) = t.channel

abbrev payload_of : Send → List ℕ
payload_of (control_packet p) = p
payload_of (traffic t) = t.payload

abbrev pub whole : List ℕ → ConnAnswer
whole bytes = packet bytes true

module _ (codec : Codec DataHeader) (reads : (n : ℕ) → n < 65536 → RoundTrips codec (data_header n))
    (size : ℕ) where
  abbrev frame : Send → List ℕ
  frame s = (codec.pack (data_header (channel_of s))).bytes ++ payload_of s

  -- A control packet that fits into the buffer of the reader, and traffic on a channel other than 0, of
  -- 16 bits, each of at most 65536 bytes with its header.
  abbrev pub IsSend : Send → Type 0
  IsSend (control_packet p) = (length p ≤ size) × (length (frame (control_packet p)) ≤ 65536)
  IsSend (traffic t) = (t.channel ≢ 0) × (t.channel < 65536) × (length (frame (traffic t)) ≤ 65536)

  send_all-written :
      (sends : List Send) (c : FilteredConn)
      → (send_all codec sends c).written ≡ c.written ++ map frame sends
  unfolding write write_c write_channel
  send_all-written [] c = sym (append-nil c.written)
  send_all-written (control_packet p ∷ sends) c =
      send_all-written sends (write_channel codec 0 p c)
      ∙ append_assoc c.written (frame (control_packet p) ∷ []) (map frame sends)
  send_all-written (traffic t ∷ sends) c =
      send_all-written sends (write_channel codec t.channel t.payload c)
      ∙ append_assoc c.written (frame (traffic t) ∷ []) (map frame sends)

  abbrev received : FilteredConn → FilteredConn
  received c = record c { packet_recv = count c.packet_recv }

  abbrev received_traffic : Traffic → FilteredConn → FilteredConn
  received_traffic t c = record (received c) { rx_channel = c.rx_channel ++ t ∷ [] }

  -- How `read` goes on by the header that it has read.
  abbrev by_header : List ConnAnswer → FilteredConn → Unpacked DataHeader → FilterRead
  by_header answers c h =
      let t : Traffic = record { channel = h.value.channel; payload = h.rest } in
      let next = read codec size answers (received_traffic t c) in
      if h.value.channel == 0
      then record {
        end = control (take size h.rest) (length h.rest);
        rest = answers;
        conn = received c;
      }
      else next

  read-frame :
      (n : ℕ) (p : List ℕ) (answers : List ConnAnswer) (c : FilteredConn)
      → n < 65536
      → length ((codec.pack (data_header n)).bytes ++ p) ≤ 65536
      → read codec size (whole ((codec.pack (data_header n)).bytes ++ p) ∷ answers) c
        ≡ by_header answers c (record { value = data_header n; rest = p; no_error = true })
  unfolding read
  read-frame n p answers c small fits =
      ap (λ bytes. by_header answers c (codec.unpack bytes)) (take_all 65536 _ fits)
      ∙ ap (by_header answers c) ((reads n small).unpacks p)

  read-control :
      (p : List ℕ) (answers : List ConnAnswer) (c : FilteredConn)
      → IsSend (control_packet p)
      → read codec size (whole (frame (control_packet p)) ∷ answers) c
        ≡ record { end = control p (length p); rest = answers; conn = received c }
  read-control p answers c (room, fits) =
      read-frame 0 p answers c (omega arith) fits
      ∙ ap (λ copied. record { end = control copied (length p); rest = answers; conn = received c })
          (take_all size p room)

  read-traffic :
      (t : Traffic) (answers : List ConnAnswer) (c : FilteredConn)
      → IsSend (traffic t)
      → read codec size (whole (frame (traffic t)) ∷ answers) c
        ≡ read codec size answers (received_traffic t c)
  read-traffic t answers c (ne, small, fits) =
      let other : (t.channel == 0) ≡ false = ground arith in
      read-frame t.channel t.payload answers c small fits
      ∙ ap
          (λ b.
            if b
            then record {
              end = control (take size t.payload) (length t.payload);
              rest = answers;
              conn = received c;
            }
            else read codec size answers (received_traffic t c))
          other

  read_all-frames :
      (sends : List Send) (fuel : ℕ) (c : FilteredConn)
      → length sends ≤ fuel
      → All IsSend sends
      → ((read_all (suc fuel) codec size (map whole (map frame sends)) c).packets
          ≡ controls_of sends)
        × ((read_all (suc fuel) codec size (map whole (map frame sends)) c).conn.rx_channel
            ≡ c.rx_channel ++ traffic_of sends)
  unfolding read_all
  read_all-frames [] fuel c fits ok = unfold read in (refl, sym (append-nil c.rx_channel))
  read_all-frames (control_packet p ∷ sends) zero c fits ok = absurd (omega (arith, fits))
  read_all-frames (control_packet p ∷ sends) (suc fuel) c fits (is, ok) =
      let (packets, rx) = read_all-frames sends fuel (received c) (omega (arith, fits)) ok in
      let go : FilterRead → Controls =
        λ r. after_read r.end r.conn (read_all (suc fuel) codec size r.rest r.conn) in
      let step = read-control p (map whole (map frame sends)) c is in
      (
        ap (λ (r : FilterRead). (go r).packets) step ∙ ap (◌∷◌ (whole_control p)) packets,
        ap (λ (r : FilterRead). (go r).conn.rx_channel) step ∙ rx,
      )
  read_all-frames (traffic t ∷ sends) fuel c fits (is, ok) =
      let (packets, rx) =
        read_all-frames sends fuel (received_traffic t c) (omega (arith, fits)) ok in
      let go : FilterRead → Controls =
        λ r. after_read r.end r.conn (read_all fuel codec size r.rest r.conn) in
      let step = read-traffic t (map whole (map frame sends)) c is in
      (
        ap (λ (r : FilterRead). (go r).packets) step ∙ packets,
        ap (λ (r : FilterRead). (go r).conn.rx_channel) step
            ∙ rx
            ∙ append_assoc c.rx_channel (t ∷ []) (traffic_of sends),
      )

  -- The connection is two queues: what one end sends on the control channel comes out of `Read` at the
  -- other end, whole and with its length, and what it sends on other channels comes out of
  -- `RxChannel`, each in the order in which it was sent. The conditions are that every control packet
  -- fits into the buffer of the reader, that traffic has a channel other than 0, of 16 bits, that
  -- everything has at most 65536 bytes with its header, that the headers are read as they were packed,
  -- and that nothing is lost below.
  pub read_all-send_all :
      (sends : List Send)
      → All IsSend sends
      → ((read_all
            (suc (length sends))
            codec
            size
            (map whole (send_all codec sends new_filtered_conn).written)
            new_filtered_conn).packets
          ≡ controls_of sends)
        × ((read_all
              (suc (length sends))
              codec
              size
              (map whole (send_all codec sends new_filtered_conn).written)
              new_filtered_conn).conn.rx_channel
            ≡ traffic_of sends)
  read_all-send_all sends ok =
      let n = suc (length sends) in
      let same = ap (map whole) (send_all-written sends new_filtered_conn) in
      let (packets, rx) = read_all-frames sends (length sends) new_filtered_conn (omega arith) ok in
      (
        ap (λ xs. (read_all n codec size xs new_filtered_conn).packets) same ∙ packets,
        ap (λ xs. (read_all n codec size xs new_filtered_conn).conn.rx_channel) same ∙ rx,
      )
