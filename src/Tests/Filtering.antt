-- ===== src/Tests/Filtering.antt =====
-- Examples for the filtered connection, with headers of whole bytes.
use vlite.Base.{ℕ, ◌<◌, ◌≡◌, refl, ap, arith, List, [], ◌∷◌, map, true}
use vlite.Proto.{Codec, RoundTrips, Unpacked, DataHeader, Traffic}
use vlite.Tests.Streams.{number_bytes, read_number, read_number-number_bytes}
use vlite.Http.Wrapper.{HttpLenHeader}
use vlite.Filter.{data_header, new_filtered_conn, Requester, tick}
use vlite.Filter.Boosts.{tick-tick_busy}
use vlite.Filter.Channels.{
  Send, control_packet, traffic, send_all, read_all, whole, whole_control, read_all-send_all,
}

abbrev as_data : Unpacked HttpLenHeader → Unpacked DataHeader
as_data u = record { value = data_header u.value.length; rest = u.rest; no_error = u.no_error }

abbrev data_codec : Codec DataHeader
data_codec = record {
  pack = λ h. record { bytes = number_bytes 2 h.channel; no_error = true };
  unpack = λ bytes. as_data (read_number 2 bytes);
}

data_reads : (n : ℕ) → n < 65536 → RoundTrips data_codec (data_header n)
data_reads n small = record {
  packs = refl;
  unpacks = λ rest. ap as_data (read_number-number_bytes 2 n rest small);
}

abbrev five : Traffic
five = record { channel = 5; payload = 8 ∷ 9 ∷ [] }

abbrev three_sends : List Send
three_sends = control_packet (1 ∷ []) ∷ traffic five ∷ control_packet (2 ∷ 3 ∷ []) ∷ []

read_all-send_all_example :
    ((read_all 4 data_codec 9
        (map whole (send_all data_codec three_sends new_filtered_conn).written)
        new_filtered_conn).packets
      ≡ whole_control (1 ∷ []) ∷ whole_control (2 ∷ 3 ∷ []) ∷ [])
    × ((read_all 4 data_codec 9
          (map whole (send_all data_codec three_sends new_filtered_conn).written)
          new_filtered_conn).conn.rx_channel
        ≡ five ∷ [])
read_all-send_all_example = read_all-send_all data_codec data_reads 9 three_sends (
  (omega arith, omega arith),
  ((λ e. omega (arith, e), omega arith, omega arith), ((omega arith, omega arith), tt)),
)

abbrev idle : Requester
idle = record { sent = 0; recv = 0; hi_traffic_counter = 0 }

tick-tick_busy_example : (tick 40 0 (tick 20 0 idle).requester).emits ≡ true
unfolding tick
tick-tick_busy_example = tick-tick_busy 20 0 40 0 idle (omega arith) (omega arith)
