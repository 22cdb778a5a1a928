-- ===== src/Fec/Sent.antt =====
-- The messages of a chunk, as a sender makes them.
use vlite.Base.{
  ℕ, zero, suc, ◌+◌, ◌-◌, ◌%◌, ◌≤◌, ◌<◌, ◌≡◌, refl, sym, ap, subst, ◌∙◌, arith, List, [], ◌∷◌, ◌++◌,
  map, some, false, not, ltb, ◌==◌, if◌then◌else◌, length, get_elem?, All, length-append,
}
use mathlib.Core.List.{append-nil, append_assoc}
use vlite.Base.Elements.{get_elem?-map, get_elem?-right, get_elem?-left, get_elem?-total}
use vlite.Proto.{Packed}
use vlite.Fec.Facility.{
  rs_header, Libraries, Facility, new_facility, Result, done, panic, DataAdded, add_data,
  Constructed, construct_reconstruct_shard, construct_from, parity_at, encode_once, encode_with,
  get_parity_shard_sum,
}
use vlite.Fec.Chunk.{
  IsPacket, IsChunk, parity_bounds, wrapped, data_shards, padded, parity_shards, parity_header,
  messages, length-data_shards, length-padded, length-parity_shards,
}
use vlite.Fec.Sending.{so_far, encoded, add_data-so_far, encode_once-so_far}

-- A message on the wire, without its head.
pub record Message : Type 0 where
  pub id : ℕ
  pub payload : List ℕ

abbrev pub ids_of : List Message → List ℕ
ids_of [] = []
ids_of (m ∷ ms) = m.id ∷ ids_of ms

-- What a sender does with one chunk: packets, and then a number of parity messages.
abbrev pub and_message : ℕ → List ℕ → Result (List Message) → Result (List Message)
and_message id bytes panic = panic
and_message id bytes (done ms) = done (record { id = id; payload = bytes } ∷ ms)

abbrev pub and_constructed :
    Result Constructed → (Facility → Result (List Message)) → Result (List Message)
and_constructed panic k = panic
and_constructed (done r) k = and_message r.id r.encoded (k r.facility)

unfoldable pub parity_messages : Libraries → ℕ → Facility → Result (List Message)
parity_messages libs zero f = done []
parity_messages libs (suc m) f =
    and_constructed (construct_reconstruct_shard libs f) (parity_messages libs m)

abbrev pub and_added : Result DataAdded → (Facility → Result (List Message)) → Result (List Message)
and_added panic k = panic
and_added (done a) k = and_message a.id a.wrapped (k a.facility)

unfoldable pub chunk_messages : Libraries → List (List ℕ) → ℕ → Facility → Result (List Message)
chunk_messages libs [] m f = parity_messages libs m f
chunk_messages libs (p ∷ ps) m f = and_added (add_data libs p f) (chunk_messages libs ps m)

abbrev pub numbers : ℕ → ℕ → List ℕ
numbers i zero = []
numbers i (suc k) = i ∷ numbers (i + 1) k

module _ (libs : Libraries) (parity : ℕ) (ps : List (List ℕ)) (chunk : IsChunk libs parity ps) where
  -- A parity message of the chunk.
  construct-encoded :
      (j : ℕ) (s : List ℕ)
      → j < parity
      → get_elem? (parity_shards libs parity ps chunk) j ≡ some s
      → construct_from libs (done (encoded libs parity ps chunk j))
        ≡ done (record {
          id = length ps + j;
          encoded = parity_header libs parity ps chunk ++ s;
          more = ltb (j + 1) parity;
          facility = encoded libs parity ps chunk (j + 1);
        })
  construct-encoded j s before at =
      let n = length ps in
      let f = encoded libs parity ps chunk j in
      let pads = padded libs parity ps chunk in
      let pars = parity_shards libs parity ps chunk in
      let (_, _, bound) = parity_bounds n parity chunk.table in
      let some_packets = chunk.some_packets in
      let place : get_elem? (pads ++ pars) (n + j) ≡ some s =
        ap (λ k. get_elem? (pads ++ pars) (k + j)) (sym (length-padded libs parity ps chunk))
        ∙ get_elem?-right pads pars j
        ∙ at in
      let result : Constructed = record {
        id = n + j;
        encoded = parity_header libs parity ps chunk ++ s;
        more = ltb (j + 1) parity;
        facility = encoded libs parity ps chunk (j + 1);
      } in
      let with_header : Packed → Result Constructed =
        λ h. if not h.no_error then panic else done (record result { encoded = h.bytes ++ s }) in
      ap (λ o. parity_at libs f (n + j) o (get_parity_shard_sum n))
        (get_elem?-map (λ (x : List ℕ). some x) (pads ++ pars) (n + j) s place)
      ∙ ap (parity_at libs f (n + j) (some (some s))) chunk.table
      ∙ ap (λ k. with_header (libs.header.pack (rs_header k))) {x = (65536 - n % 65536) % 65536}
          {y = 65536 - n} (omega (arith, bound, some_packets))
      ∙ ap (λ c. if not c then panic else done result)
          ((chunk.header.reads (65536 - n) (omega (arith, some_packets))).packs)

  encode_once-encoded :
      (j : ℕ)
      → encode_once libs (encoded libs parity ps chunk j) ≡ done (encoded libs parity ps chunk j)
  unfolding encode_once
  encode_once-encoded j =
      let some_packets = chunk.some_packets in
      let f = encoded libs parity ps chunk j in
      let not_zero : (length ps == 0) ≡ false = ground arith in
      ap (λ c. if c then encode_with libs f (get_parity_shard_sum f.data_input) else done f)
        not_zero

  abbrev IsMessage : Message → Type 0
  IsMessage m = get_elem? (messages libs parity ps chunk) m.id ≡ some m.payload

  -- What a run of the sender gives: messages of the chunk with the next numbers.
  abbrev GivesMessages : ℕ → ℕ → Result (List Message) → Type 0
  GivesMessages i k o =
      (ms : List Message) × (o ≡ done ms) × All IsMessage ms × (ids_of ms ≡ numbers i k)

  message-parity :
      (j : ℕ) (s : List ℕ)
      → get_elem? (parity_shards libs parity ps chunk) j ≡ some s
      → get_elem? (messages libs parity ps chunk) (length ps + j)
        ≡ some (parity_header libs parity ps chunk ++ s)
  message-parity j s at =
      let datas = data_shards libs parity ps chunk in
      let with_header : List ℕ → List ℕ = λ shard. parity_header libs parity ps chunk ++ shard in
      ap (λ k. get_elem? (messages libs parity ps chunk) (k + j))
        (sym (length-data_shards libs parity ps chunk))
      ∙ get_elem?-right datas (map with_header (parity_shards libs parity ps chunk)) j
      ∙ get_elem?-map with_header (parity_shards libs parity ps chunk) j s at

  parity_messages-encoded :
      (m j : ℕ) (f : Facility)
      → j + m ≤ parity
      → encode_once libs f ≡ done (encoded libs parity ps chunk j)
      → GivesMessages (length ps + j) m (parity_messages libs m f)
  unfolding parity_messages construct_reconstruct_shard
  parity_messages-encoded zero j f fits once = ([], refl, tt, refl)
  parity_messages-encoded (suc m) j f fits once =
      let (s, at) =
        get_elem?-total (parity_shards libs parity ps chunk) j
          (omega (arith, fits, length-parity_shards libs parity ps chunk)) in
      let (ms, eq, are, ids) =
        parity_messages-encoded m (j + 1) (encoded libs parity ps chunk (j + 1))
          (omega (arith, fits)) (encode_once-encoded (j + 1)) in
      let msg : Message = record {
        id = length ps + j;
        payload = parity_header libs parity ps chunk ++ s;
      } in
      (
        msg ∷ ms,
        ap (λ o. and_constructed (construct_from libs o) (parity_messages libs m)) once
            ∙ ap (λ o. and_constructed o (parity_messages libs m))
                (construct-encoded j s (omega (arith, fits)) at)
            ∙ ap (and_message msg.id msg.payload) eq,
        (message-parity j s at, are),
        ap (◌∷◌ (length ps + j)) (
            ids
            ∙ ap (λ k. numbers k m) {x = length ps + (j + 1)} {y = length ps + j + 1}
                (omega arith)),
      )

  chunk_messages-from :
      (before rest : List (List ℕ)) (m : ℕ)
      → before ++ rest ≡ ps
      → All IsPacket rest
      → m ≤ parity
      → GivesMessages
          (length before)
          (length rest + m)
          (chunk_messages libs rest m (so_far libs parity ps chunk before))
  unfolding chunk_messages
  chunk_messages-from before [] m whole ok fits =
      let start = parity_messages libs m in
      let one =
        parity_messages-encoded m 0 (so_far libs parity ps chunk ps) (omega (arith, fits))
          (encode_once-so_far libs parity ps chunk) in
      let same : length ps + 0 ≡ length ps = omega arith in
      let count : m ≡ 0 + m = omega arith in
      let two = subst (λ i. GivesMessages i m (start (so_far libs parity ps chunk ps))) same one in
      let three =
        subst (λ k. GivesMessages (length ps) k (start (so_far libs parity ps chunk ps))) count
          two in
      subst
        (λ (qs : List (List ℕ)).
          GivesMessages (length qs) (0 + m) (start (so_far libs parity ps chunk qs)))
        (sym whole ∙ append-nil before) three
  chunk_messages-from before (p ∷ rest) m whole (ok, oks) fits =
      let w = wrapped libs parity ps chunk in
      let next = before ++ p ∷ [] in
      let (ms, eq, are, ids) =
        chunk_messages-from next rest m (append_assoc before (p ∷ []) rest ∙ whole) oks fits in
      let msg : Message = record { id = length before; payload = w p } in
      let place : get_elem? ps (length before) ≡ some p =
        ap (λ qs. get_elem? qs (length before)) (sym whole)
        ∙ ap (get_elem? (before ++ p ∷ rest)) {x = length before} {y = length before + 0}
            (omega arith)
        ∙ get_elem?-right before (p ∷ rest) 0 in
      (
        msg ∷ ms,
        ap (λ o. and_added o (chunk_messages libs rest m))
              (add_data-so_far libs parity ps chunk before p ok)
            ∙ ap (and_message msg.id msg.payload) eq,
        (
          get_elem?-left (map w ps)
              (map (λ shard. parity_header libs parity ps chunk ++ shard)
                (parity_shards libs parity ps chunk))
              (length before) (w p) (get_elem?-map w ps (length before) p place),
          are,
        ),
        ap (◌∷◌ (length before)) (
              ids
              ∙ ap (λ k. numbers k (length rest + m)) {x = length next} {y = length before + 1}
                  (omega (arith, length-append before (p ∷ []))))
            ∙ ap (numbers (length before)) {x = suc (length rest + m)} {y = suc (length rest) + m}
                (omega arith),
      )

  -- A sender that is given the packets of a chunk, and then asked for as many parity messages as the
  -- table has, or fewer, does not panic. It gives one message for each packet and each time it is
  -- asked, with the ids from 0 on, and each is the message of the chunk with its id. The libraries
  -- are as `IsChunk` says.
  pub chunk_messages-IsMessage :
      (m : ℕ)
      → m ≤ parity
      → (ms : List Message) × (chunk_messages libs ps m new_facility ≡ done ms)
        × All (λ (n : Message). get_elem? (messages libs parity ps chunk) n.id ≡ some n.payload) ms
        × (ids_of ms ≡ numbers 0 (length ps + m))
  chunk_messages-IsMessage m fits = chunk_messages-from [] ps m refl chunk.packets fits
