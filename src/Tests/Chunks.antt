-- ===== src/Tests/Chunks.antt =====
-- An example for the error correction: a chunk of one packet, whose four parity shards are copies of
-- its shard, with headers of whole bytes and a bitmap that is a function.
use vlite.Base.{
  ℕ, zero, suc, ◌+◌, ◌≤◌, ◌<◌, ◌≡◌, ◌≢◌, refl, ap, ◌∙◌, arith, List, [], ◌∷◌, ◌++◌, map, Option,
  none, some, Bool, true, false, ◌&&◌, ltb, ◌==◌, if◌then◌else◌, length, get_elem?, drop, replicate,
  All,
}
use mathlib.Core.List.{append_assoc}
use vlite.Proto.{Codec, RoundTrips, Unpacked}
use vlite.Tests.Streams.{number_bytes, read_number, read_number-number_bytes}
use vlite.Http.Wrapper.{HttpLenHeader, len_header}
use vlite.Fec.Facility.{
  RsMessageHeader, rs_header, ReedSolomon, Libraries, get_parity_shard_sum, add_data, grown,
  construct_reconstruct_shard, encode_once, encode_with, match_size, new_facility, done,
}
use vlite.Fec.Parts.{IsPart, present}
use vlite.Fec.Chunk.{HasSize, ReadsHeaders, Recovers, IsChunk, messages}
use vlite.Fec.Rx.{PacketWireHead, Bitmaps, Rx, rx_messages}
use vlite.Fec.Bits.{HoldsBits, IsIn}
use vlite.Fec.Transfer.{kept, rx_messages-chunk_messages}
use vlite.Fec.Sent.{
  Message, chunk_messages, parity_messages, ids_of, numbers, chunk_messages-IsMessage,
}
use vlite.Fec.Tx.{tx_events, new_tx, from_tx_chan, from_no_fec_chan, epoch}
use vlite.Fec.Sequence.{Holds, HasSeq, tx_events-HasSeq}
use vlite.Fec.Arrivals.{arrival, rx_messages-All}

abbrev as_rs : Unpacked HttpLenHeader → Unpacked RsMessageHeader
as_rs u = record { value = rs_header u.value.length; rest = u.rest; no_error = u.no_error }

abbrev rs_codec : Codec RsMessageHeader
rs_codec = record {
  pack = λ h. record { bytes = number_bytes 2 h.len; no_error = true };
  unpack = λ bytes. as_rs (read_number 2 bytes);
}

rs_codec-ReadsHeaders : ReadsHeaders rs_codec
rs_codec-ReadsHeaders = record {
  reads = λ n small. record {
    packs = refl;
    unpacks = λ rest. ap as_rs (read_number-number_bytes 2 n rest small);
  };
}

abbrev first_present : List (Option (List ℕ)) → Option (List ℕ)
first_present [] = none
first_present (none ∷ b) = first_present b
first_present (some d ∷ b) = some d

abbrev first_shard : List (List ℕ) → List ℕ
first_shard [] = []
first_shard (d ∷ ds) = d

abbrev four_copies : Option (List ℕ) → Option (List (Option (List ℕ)))
four_copies none = none
four_copies (some d) = some (some d ∷ replicate 4 (some d))

abbrev first_given : List (Option (List ℕ)) → Option (List ℕ) → Option (List (Option (List ℕ)))
first_given b none = none
first_given b (some d) = some (some d ∷ drop 1 b)

abbrev copies : ReedSolomon
copies = record {
  encode = λ total parity b. four_copies (first_present b);
  accepts = λ total parity. true;
  reconstruct_data = λ total parity b. first_given b (first_present b);
}

copies-HasSize : (size k : ℕ) (d : List ℕ) → HasSize size d → All (HasSize size) (replicate k d)
copies-HasSize size zero d long = tt
copies-HasSize size (suc k) d long = (long, copies-HasSize size k d long)

first_present-copies :
    (b : List (Option (List ℕ))) (k : ℕ) (d : List ℕ)
    → IsPart b (replicate k d)
    → 1 ≤ present b
    → first_present b ≡ some d
first_present-copies [] k d part many = absurd (omega (arith, many))
first_present-copies (s ∷ b) zero d part many = absurd part
first_present-copies (none ∷ b) (suc k) d (slot, part) many = first_present-copies b k d part many
first_present-copies (some x ∷ b) (suc k) d (slot, part) many = ap some slot

abbrev sample_libraries : Libraries
sample_libraries = record { header = rs_codec; reed_solomon = copies }

copies-Recovers : Recovers copies 1 4
copies-Recovers = record {
  parities = λ ds. replicate 4 (first_shard ds);
  accepts = refl;
  number = λ ds one. refl;
  sizes = copied_sizes;
  encodes = encoded;
  reconstructs = given_back;
}
  where
    copied_sizes :
        (size : ℕ) (ds : List (List ℕ))
        → length ds ≡ 1
        → All (HasSize size) ds
        → All (HasSize size) (replicate 4 (first_shard ds))
    copied_sizes size [] one long = absurd (omega (arith, one))
    copied_sizes size (d ∷ ds) one (long, rest) = copies-HasSize size 4 d long

    encoded :
        (size : ℕ) (ds zeros : List (List ℕ))
        → length ds ≡ 1
        → length zeros ≡ 4
        → 1 ≤ size
        → All (HasSize size) ds
        → All (HasSize size) zeros
        → copies.encode 1 4 (map some (ds ++ zeros))
          ≡ some (map some (ds ++ replicate 4 (first_shard ds)))
    encoded size [] zeros one four pos long padding = absurd (omega (arith, one))
    encoded size (d ∷ []) zeros one four pos long padding = refl
    encoded size (d ∷ e ∷ ds) zeros one four pos long padding = absurd (omega (arith, one))

    given_back :
        (size : ℕ) (ds : List (List ℕ)) (b : List (Option (List ℕ)))
        → length ds ≡ 1
        → length b ≡ 1 + 4
        → 1 ≤ size
        → All (HasSize size) ds
        → IsPart b (ds ++ replicate 4 (first_shard ds))
        → 1 ≤ present b
        → (rest : List (Option (List ℕ))) × (copies.reconstruct_data 1 4 b
            ≡ some (map some ds ++ rest))
    given_back size [] b one five pos long part many = absurd (omega (arith, one))
    given_back size (d ∷ []) b one five pos long part many =
        (drop 1 b, ap (first_given b) (first_present-copies b 5 d part many))
    given_back size (d ∷ e ∷ ds) b one five pos long part many = absurd (omega (arith, one))

one_packet_parity : get_parity_shard_sum 1 ≡ some 4
unfolding get_parity_shard_sum
one_packet_parity = refl

abbrev one_packet : List (List ℕ)
one_packet = (1 ∷ 2 ∷ 3 ∷ []) ∷ []

one_packet-IsChunk : IsChunk sample_libraries 4 one_packet
one_packet-IsChunk = record {
  header = rs_codec-ReadsHeaders;
  rs = copies-Recovers;
  some_packets = omega arith;
  table = one_packet_parity;
  packets = ((omega arith, omega arith), tt);
}

chunk_messages-IsMessage_example :
    (ms : List Message) × (chunk_messages sample_libraries one_packet 2 new_facility ≡ done ms)
    × All
        (λ (n : Message).
          get_elem? (messages sample_libraries 4 one_packet one_packet-IsChunk) n.id
          ≡ some n.payload)
        ms
    × (ids_of ms ≡ numbers 0 3)
chunk_messages-IsMessage_example =
    chunk_messages-IsMessage sample_libraries 4 one_packet one_packet-IsChunk 2 (omega arith)

-- A bitmap as a function, where a place out of range has no bit.
abbrev with_bit : ℕ → (ℕ → Option Bool) → Option Bool → Option (ℕ → Option Bool)
with_bit i b none = none
with_bit i b (some x) = some (λ j. if j == i then some true else b j)

abbrev function_bitmaps : Bitmaps (ℕ → Option Bool)
function_bitmaps = record {
  new_bitmap = λ n i. if ltb i n then some false else none;
  set_bit = λ i b. with_bit i b (b i);
  get_bit = λ i b. b i;
}

function_bitmaps-HoldsBits : HoldsBits function_bitmaps
function_bitmaps-HoldsBits = record {
  fresh = λ i inside.
      let below : ltb i 40 ≡ true = ground arith in ap (λ c. if c then some false else none) below;
  sets = λ i b x has.
      let here : (i == i) ≡ true = ground arith in
      (
        λ j. if j == i then some true else b j,
        ap (with_bit i b) has,
        ap (λ c. if c then some true else b i) here,
        λ j ne.
            let other : (j == i) ≡ false = ground arith in
            ap (λ c. if c then some true else b j) other,
      );
}

abbrev read_head : Unpacked HttpLenHeader → Unpacked HttpLenHeader → Unpacked PacketWireHead
read_head u v = record {
  value = record { seq = u.value.length; id = v.value.length };
  rest = v.rest;
  no_error = u.no_error && v.no_error;
}

abbrev head_codec : Codec PacketWireHead
head_codec = record {
  pack = λ h. record { bytes = number_bytes 4 h.seq ++ number_bytes 2 h.id; no_error = true };
  unpack = λ bytes. let u = read_number 4 bytes in read_head u (read_number 2 u.rest);
}

head_reads : (i : ℕ) → i < 65536 → RoundTrips head_codec (record { seq = 1; id = i })
head_reads i small = record {
  packs = refl;
  unpacks = λ rest.
      let second = number_bytes 2 i in
      ap head_codec.unpack (append_assoc (number_bytes 4 1) second rest)
      ∙ ap (λ u. read_head u (read_number 2 u.rest))
          (read_number-number_bytes 4 1 (second ++ rest) (omega arith))
      ∙ ap (read_head (record { value = len_header 1; rest = second ++ rest; no_error = true }))
          (read_number-number_bytes 2 i rest small);
}

abbrev first_seq : ℕ
first_seq = 1

one_set : first_seq ≢ 0
one_set e = omega (arith, e)

abbrev lost_and_found : Message
lost_and_found = record { id = 1; payload = 255 ∷ 255 ∷ 3 ∷ 0 ∷ 1 ∷ 2 ∷ 3 ∷ [] }

abbrev start_rx : Rx (ℕ → Option Bool)
start_rx = record {
  reassemble_buffer = λ seq. none;
  delivered = [];
  shard_original_no_fec = 0;
  shard_original = 0;
  shard_recovered = 0;
  bytes = 0;
}

abbrev data_message : Message
data_message = record { id = 0; payload = 3 ∷ 0 ∷ 1 ∷ 2 ∷ 3 ∷ [] }

two_sent :
    chunk_messages sample_libraries one_packet 1 new_facility
    ≡ done (data_message ∷ lost_and_found ∷ [])
unfolding chunk_messages parity_messages add_data grown construct_reconstruct_shard encode_once
    encode_with match_size get_parity_shard_sum
two_sent = refl

-- The packet is lost, and comes back from a parity message.
rx_messages-All_example :
    (t : Rx (ℕ → Option Bool)) × (rx_messages sample_libraries function_bitmaps head_codec
        (map
          (arrival sample_libraries function_bitmaps function_bitmaps-HoldsBits 4 one_packet
            one_packet-IsChunk head_codec 1 one_set head_reads)
          (lost_and_found ∷ []))
        start_rx
      ≡ done t)
    × All (λ p. IsIn p t.delivered) one_packet
unfolding one_packet-IsChunk copies-Recovers
rx_messages-All_example =
    rx_messages-All sample_libraries function_bitmaps function_bitmaps-HoldsBits 4 one_packet
      one_packet-IsChunk head_codec 1 one_set head_reads (lost_and_found ∷ []) 5 start_rx
      (omega arith) refl ((omega arith, refl, omega arith), tt) (omega arith) 1 (omega arith) refl

tx_events-HasSeq_example : Holds HasSeq (
    tx_events sample_libraries head_codec
      (λ i. true)
      (from_tx_chan (1 ∷ 2 ∷ []) ∷ epoch 4 (λ t. replicate 30 1) ∷ from_no_fec_chan (3 ∷ []) ∷ [])
      new_tx)
tx_events-HasSeq_example =
    tx_events-HasSeq sample_libraries head_codec (λ i. true)
      (from_tx_chan (1 ∷ 2 ∷ []) ∷ epoch 4 (λ t. replicate 30 1) ∷ from_no_fec_chan (3 ∷ []) ∷ [])

-- The sender gives two messages for the packet, and the first of them is lost.
rx_messages-chunk_messages_example :
    (t : Rx (ℕ → Option Bool)) × (rx_messages sample_libraries function_bitmaps head_codec
        (map
          (arrival sample_libraries function_bitmaps function_bitmaps-HoldsBits 4 one_packet
            one_packet-IsChunk head_codec 1 one_set head_reads)
          (kept (false ∷ true ∷ []) (data_message ∷ lost_and_found ∷ [])))
        start_rx
      ≡ done t)
    × All (λ p. IsIn p t.delivered) one_packet
rx_messages-chunk_messages_example =
    rx_messages-chunk_messages sample_libraries function_bitmaps function_bitmaps-HoldsBits 4
      one_packet one_packet-IsChunk head_codec 1 one_set head_reads 1
      (data_message ∷ lost_and_found ∷ []) (false ∷ true ∷ []) 5 1 start_rx (omega arith) two_sent
      (omega arith) refl (omega arith, tt) (omega arith) (omega arith) refl
