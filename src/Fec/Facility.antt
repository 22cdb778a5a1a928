-- ===== src/Fec/Facility.antt =====
-- transport/udp/errorCorrection/reconstruction/reedSolomon: rs.go and default.go.
-- A shard is a list of bytes, and `none` is a nil in the buffer. An int16 is a number below 65536,
-- negative from 32768 on; the counts of the facility are not negative.
use vlite.Base.{
  ℕ, zero, suc, ◌+◌, ◌-◌, ◌%◌, max, List, [], ◌∷◌, ◌++◌, Option, none, some, Bool, true, false, not,
  ltb, leb, ◌==◌, if◌then◌else◌, length, get_elem?, take, drop, replicate, map,
}
use vlite.Proto.{Codec}

-- rs.go: `RSMessageHeader`.
pub record RsMessageHeader : Type 0 where
  pub len : ℕ

abbrev pub rs_header : ℕ → RsMessageHeader
rs_header n = record { len = n }

-- The library github.com/klauspost/reedsolomon: `New` with `Encode`, and with `ReconstructData`, for
-- numbers of data and parity shards, where `none` is an error of either.
pub record ReedSolomon : Type 0 where
  pub encode : ℕ → ℕ → List (Option (List ℕ)) → Option (List (Option (List ℕ)))
  pub accepts : ℕ → ℕ → Bool
  pub reconstruct_data : ℕ → ℕ → List (Option (List ℕ)) → Option (List (Option (List ℕ)))

pub record Libraries : Type 0 where
  pub header : Codec RsMessageHeader
  pub reed_solomon : ReedSolomon

-- rs.go: `RSErrorCorrectionFacility`.
pub record Facility : Type 0 where
  pub buffer : List (Option (List ℕ))
  pub data_input : ℕ
  pub shard_input : ℕ
  pub total_data_shards : ℕ

abbrev pub new_facility : Facility
new_facility = record { buffer = []; data_input = 0; shard_input = 0; total_data_shards = 0 }

-- A result, or a panic.
pub data Result {ℓ} (A : Type ℓ) : Type ℓ where
  done : A → Result A
  panic : Result A

-- default.go: `defaultParitySum`.
abbrev pub default_parity_sum : List ℕ
default_parity_sum =
    4 ∷ 7 ∷ 8 ∷ 9 ∷ 11 ∷ 12 ∷ 13 ∷ 14 ∷ 15 ∷ 16 ∷ 16 ∷ 17 ∷ 17 ∷ 18 ∷ 19 ∷ 19 ∷ 20 ∷ 20 ∷ 21 ∷ 21
    ∷ 22 ∷ 22 ∷ 23 ∷ 23 ∷ 24 ∷ 24 ∷ 25 ∷ 25 ∷ 26 ∷ 26 ∷ 27 ∷ 27 ∷ 27 ∷ 27 ∷ 28 ∷ 28 ∷ 28 ∷ 28 ∷ 29
    ∷ 29 ∷ 29 ∷ 29 ∷ 30 ∷ 30 ∷ 30 ∷ 30 ∷ 31 ∷ 31 ∷ 31 ∷ 31 ∷ 32 ∷ 32 ∷ 32 ∷ 32 ∷ 32 ∷ 32 ∷ 32 ∷ 32
    ∷ 33 ∷ 33 ∷ 33 ∷ 33 ∷ 33 ∷ 33 ∷ 33 ∷ 33 ∷ 34 ∷ 34 ∷ 34 ∷ 34 ∷ 34 ∷ 34 ∷ 34 ∷ 34 ∷ 35 ∷ 35 ∷ 35
    ∷ 35 ∷ 35 ∷ 35 ∷ []

-- `GetParityShardSum`: an index out of the table, -1 for no data, panics.
unfoldable pub get_parity_shard_sum : ℕ → Option ℕ
get_parity_shard_sum zero = none
get_parity_shard_sum (suc n) = get_elem? default_parity_sum n

-- The buffer with nil up to a length, and with a shard in its place where there was none.
unfoldable pub grown : ℕ → List (Option (List ℕ)) → List (Option (List ℕ))
grown n buffer = buffer ++ replicate (n - length buffer) none

abbrev pub shard_at : List (Option (List ℕ)) → ℕ → Option (List ℕ)
shard_at [] i = none
shard_at (s ∷ buffer) zero = s
shard_at (s ∷ buffer) (suc i) = shard_at buffer i

abbrev pub put_shard : List (Option (List ℕ)) → ℕ → List ℕ → List (Option (List ℕ))
put_shard [] i shard = []
put_shard (s ∷ buffer) zero shard = some shard ∷ buffer
put_shard (s ∷ buffer) (suc i) shard = s ∷ put_shard buffer i shard

abbrev pub is_nil : Option (List ℕ) → Bool
is_nil none = true
is_nil (some shard) = false

-- What `AddShard` answers: whether the chunk can be reconstructed, and the packet, where `none` is nil.
pub record Added : Type 0 where
  pub ready : Bool
  pub encoded : Option (List ℕ)
  pub facility : Facility

abbrev pub enough_shards : Facility → Bool
enough_shards f = leb f.total_data_shards (f.data_input + f.shard_input)

abbrev pub add_parity : Facility → ℕ → ℕ → List ℕ → Facility
add_parity f id total payload =
    if is_nil (shard_at f.buffer id)
    then record f {
      buffer = put_shard f.buffer id payload;
      shard_input = f.shard_input + 1;
      total_data_shards = total;
    }
    else record f { total_data_shards = total }

abbrev pub add_packet : Facility → ℕ → List ℕ → Facility
add_packet f id shard =
    if is_nil (shard_at f.buffer id)
    then record f { buffer = put_shard f.buffer id shard; data_input = f.data_input + 1 }
    else f

-- A shard whose header has been read. The length of a parity shard is the negated number of data
-- shards, that is, at most 0. The one length whose negation does not fit, -32768, stands for 32768
-- shards here, so that the chunk is not ready; in the code the number stays negative, so that the chunk
-- counts as ready and `Reconstruct` gives nil for it.
unfoldable pub add_by_header : Facility → ℕ → List ℕ → ℕ → List ℕ → Added
add_by_header f id shard len payload =
    if if len == 0 then true else leb 32768 len
    then (let g = add_parity f id ((65536 - len) % 65536) payload in
        record { ready = enough_shards g; encoded = none; facility = g })
    else (let g = add_packet f id shard in
        record {
          ready = if g.total_data_shards == 0 then false else enough_shards g;
          encoded = some payload;
          facility = g;
        })

unfoldable pub add_shard : Libraries → ℕ → List ℕ → Facility → Added
add_shard libs id shard f =
    let g : Facility = record f { buffer = grown (id + 1) f.buffer } in
    let header = libs.header.unpack shard in
    if not header.no_error
    then record { ready = false; encoded = none; facility = g }
    else add_by_header g id shard header.value.len header.rest

-- `matchsize`: the greatest length of a shard, and every shard with zeros up to it. `skipnil` leaves
-- the shards that are nil.
abbrev pub shard_size : Option (List ℕ) → ℕ
shard_size none = 0
shard_size (some shard) = length shard

abbrev pub max_size : List (Option (List ℕ)) → ℕ
max_size [] = 0
max_size (s ∷ buffer) = max (shard_size s) (max_size buffer)

abbrev pub fill_up : ℕ → List ℕ → List ℕ
fill_up n shard = shard ++ replicate (n - length shard) 0

abbrev pub match_shard : Bool → ℕ → Option (List ℕ) → Option (List ℕ)
match_shard true n none = none
match_shard false n none = some (fill_up n [])
match_shard skipnil n (some shard) = some (fill_up n shard)

abbrev pub match_shards : Bool → ℕ → List (Option (List ℕ)) → List (Option (List ℕ))
match_shards skipnil n [] = []
match_shards skipnil n (s ∷ buffer) = match_shard skipnil n s ∷ match_shards skipnil n buffer

unfoldable pub match_size : Bool → ℕ → List (Option (List ℕ)) → List (Option (List ℕ))
match_size true total buffer = match_shards true (max_size buffer) buffer
match_size false total buffer = match_shards false (max_size (take total buffer)) buffer

-- The packet in a shard: its header gives the length, and a header that is not read panics.
abbrev pub shard_bytes : Option (List ℕ) → List ℕ
shard_bytes none = []
shard_bytes (some shard) = shard

-- `io.LimitReader` gives nothing at a negative limit.
abbrev pub limited : ℕ → List ℕ → List ℕ
limited len rest = if leb 32768 len then [] else take len rest

unfoldable pub recover_len : Codec RsMessageHeader → Option (List ℕ) → Result (List ℕ)
recover_len codec s =
    let header = codec.unpack (shard_bytes s) in
    if header.no_error then done (limited header.value.len header.rest) else panic

abbrev pub and_also : Result (List ℕ) → Result (List (List ℕ)) → Result (List (List ℕ))
and_also (done p) (done ps) = done (p ∷ ps)
and_also (done p) panic = panic
and_also panic ps = panic

abbrev pub recover_lens : Codec RsMessageHeader → List (Option (List ℕ)) → Result (List (List ℕ))
recover_lens codec [] = done []
recover_lens codec (s ∷ shards) = and_also (recover_len codec s) (recover_lens codec shards)

-- What `Reconstruct` answers: the packets of the chunk, where `none` is nil, and the facility after.
pub record Reconstructed : Type 0 where
  pub packets : Option (List (List ℕ))
  pub facility : Facility

abbrev pub no_packets : Facility → Result Reconstructed
no_packets f = done (record { packets = none; facility = f })

abbrev pub with_lens :
    Facility → List (Option (List ℕ)) → Result (List (List ℕ)) → Result Reconstructed
with_lens f shards (done ps) = done (record {
  packets = some ps;
  facility = record f { buffer = map some ps ++ drop f.total_data_shards shards };
})
with_lens f shards panic = panic

abbrev pub recovered_packets :
    Codec RsMessageHeader → Facility → Option (List (Option (List ℕ))) → Result Reconstructed
recovered_packets codec f none = no_packets f
recovered_packets codec f (some shards) =
    with_lens f shards (recover_lens codec (take f.total_data_shards shards))

unfoldable pub reconstruct_with : Libraries → Facility → Option ℕ → Result Reconstructed
reconstruct_with libs f none = panic
reconstruct_with libs f (some parity) =
    let g : Facility = record f {
      buffer = match_size true f.total_data_shards (grown (f.total_data_shards + parity) f.buffer);
    } in
    if libs.reed_solomon.accepts f.total_data_shards parity
    then recovered_packets libs.header g
        (libs.reed_solomon.reconstruct_data f.total_data_shards parity g.buffer)
    else panic

unfoldable pub reconstruct : Libraries → Facility → Result Reconstructed
reconstruct libs f =
    if f.total_data_shards == 0
    then no_packets f
    else if not (enough_shards f)
    then no_packets f
    else if leb f.total_data_shards f.data_input
    then no_packets f
    else reconstruct_with libs f (get_parity_shard_sum f.total_data_shards)

-- `AddData`, where `none` is a panic: the header with the length as an int16, and the packet.
pub record DataAdded : Type 0 where
  pub id : ℕ
  pub wrapped : List ℕ
  pub facility : Facility

unfoldable pub add_data : Libraries → List ℕ → Facility → Result DataAdded
add_data libs packet f =
    let header = libs.header.pack (rs_header (length packet % 65536)) in
    let wrapped = header.bytes ++ packet in
    if not header.no_error
    then panic
    else done (record {
      id = f.data_input;
      wrapped = wrapped;
      facility = record f {
        buffer = put_shard (grown (f.data_input + 1) f.buffer) f.data_input wrapped;
        data_input = f.data_input + 1;
      };
    })

-- `ConstructReconstructShard`: the id and the bytes of a parity shard, and whether there are more.
pub record Constructed : Type 0 where
  pub id : ℕ
  pub encoded : List ℕ
  pub more : Bool
  pub facility : Facility

-- The parity shards, once, in the buffer.
abbrev pub encoded_buffer : Facility → Option (List (Option (List ℕ))) → Result Facility
encoded_buffer f none = panic
encoded_buffer f (some buffer) = done (record f { buffer = buffer })

unfoldable pub encode_with : Libraries → Facility → Option ℕ → Result Facility
encode_with libs f none = panic
encode_with libs f (some parity) =
    let total = f.data_input in
    if libs.reed_solomon.accepts total parity
    then encoded_buffer (record f { total_data_shards = total })
        (libs.reed_solomon.encode total parity
          (match_size false total (f.buffer ++ replicate parity none)))
    else panic

unfoldable pub encode_once : Libraries → Facility → Result Facility
encode_once libs f =
    if f.total_data_shards == 0
    then encode_with libs f (get_parity_shard_sum f.data_input)
    else done f

abbrev pub parity_message : Libraries → Facility → ℕ → ℕ → Option (List ℕ) → Result Constructed
parity_message libs f id parity shard =
    let header = libs.header.pack (rs_header ((65536 - f.total_data_shards % 65536) % 65536)) in
    if not header.no_error
    then panic
    else done (record {
      id = id;
      encoded = header.bytes ++ shard_bytes shard;
      more = ltb (f.shard_input + 1) parity;
      facility = record f { shard_input = f.shard_input + 1 };
    })

abbrev pub parity_at :
    Libraries → Facility → ℕ → Option (Option (List ℕ)) → Option ℕ → Result Constructed
parity_at libs f id none parity = panic
parity_at libs f id (some shard) none = panic
parity_at libs f id (some shard) (some parity) = parity_message libs f id parity shard

abbrev pub construct_from : Libraries → Result Facility → Result Constructed
construct_from libs panic = panic
construct_from libs (done f) =
    let id = f.total_data_shards + f.shard_input in
    parity_at libs f id (get_elem? f.buffer id) (get_parity_shard_sum f.total_data_shards)

unfoldable pub construct_reconstruct_shard : Libraries → Facility → Result Constructed
construct_reconstruct_shard libs f = construct_from libs (encode_once libs f)

-- `MaxShardYieldRemaining`, where `none` is a panic. It is asked of chunks of at most 40 packets.
unfoldable pub max_shard_yield_remaining : Facility → Option ℕ
max_shard_yield_remaining f = elim (get_parity_shard_sum f.total_data_shards) [
  | none ↦ none
  | some parity ↦ some (parity - f.shard_input)
]
