-- ===== src/Fec/Messages.antt =====
-- What a message of a chunk does to the facility of a receiver.
use vlite.Base.{
  ℕ, ◌+◌, ◌-◌, ◌%◌, ◌≤◌, ◌≡◌, sym, ap, subst, ◌∙◌, arith, List, ◌++◌, map, none, some, true, false,
  not, leb, ◌==◌, if◌then◌else◌, length, get_elem?, ◌⊎◌, inl, inr,
}
use vlite.Base.Elements.{
  get_elem?-lt, get_elem?-All, get_elem?-left, get_elem?-right, get_elem?-append_cases,
  get_elem?-map_cases,
}
use vlite.Proto.{Unpacked}
use vlite.Fec.Facility.{
  RsMessageHeader, Libraries, Facility, Added, add_by_header, add_parity, add_packet, add_shard,
  enough_shards,
}
use vlite.Fec.Parts.{grown-length}
use vlite.Fec.Chunk.{
  HasSize, IsPacket, IsChunk, parity_bounds, wrapped, data_shards, chunk_size, parity_shards,
  stored, parity_header, messages, length-data_shards, parity_shards-HasSize,
}
use vlite.Fec.Receiving.{
  grown_for, Receives, grow-Receives, add_packet-Receives, add_parity-Receives,
}

module _ (libs : Libraries) (parity : ℕ) (ps : List (List ℕ)) (chunk : IsChunk libs parity ps) where
  abbrev shards : List (List ℕ)
  shards = stored libs parity ps chunk

  abbrev size : ℕ
  size = chunk_size libs parity ps chunk

  abbrev pub IsReceiving : Facility → Type 0
  IsReceiving f = Receives shards (length ps) size f

  -- A data message is the packet, and goes to the buffer with its header.
  pub add_shard-data :
      (f : Facility) (i : ℕ) (p : List ℕ)
      → IsPacket p
      → add_shard libs i (wrapped libs parity ps chunk p) f ≡ (
          let g = add_packet (grown_for i f) i (wrapped libs parity ps chunk p) in
          record {
            ready = if g.total_data_shards == 0 then false else enough_shards g;
            encoded = some p;
            facility = g;
          })
  unfolding add_shard add_by_header
  add_shard-data f i p ok =
      let m = wrapped libs parity ps chunk p in
      let by_header : Unpacked RsMessageHeader → Added = λ u.
        if not u.no_error
        then record { ready = false; encoded = none; facility = grown_for i f }
        else add_by_header (grown_for i f) i m u.value.len u.rest in
      let g = add_packet (grown_for i f) i m in
      let as_parity = add_parity (grown_for i f) i ((65536 - length p) % 65536) p in
      let positive : (if length p == 0 then true else leb 32768 (length p)) ≡ false =
        ground (arith, ok.0, ok.1) in
      ap by_header ((chunk.header.reads (length p) (omega (arith, ok.1))).unpacks p)
      ∙ ap
          (λ c.
            if c
            then record { ready = enough_shards as_parity; encoded = none; facility = as_parity }
            else record {
              ready = if g.total_data_shards == 0 then false else enough_shards g;
              encoded = some p;
              facility = g;
            })
          positive

  -- A parity message tells the number of packets.
  pub add_shard-parity :
      (f : Facility) (i : ℕ) (s : List ℕ)
      → add_shard libs i (parity_header libs parity ps chunk ++ s) f ≡ (
          let g = add_parity (grown_for i f) i (length ps) s in
          record { ready = enough_shards g; encoded = none; facility = g })
  unfolding add_shard add_by_header
  add_shard-parity f i s =
      let m = parity_header libs parity ps chunk ++ s in
      let n = length ps in
      let (_, _, bound) = parity_bounds n parity chunk.table in
      let some_packets = chunk.some_packets in
      let by_header : Unpacked RsMessageHeader → Added = λ u.
        if not u.no_error
        then record { ready = false; encoded = none; facility = grown_for i f }
        else add_by_header (grown_for i f) i m u.value.len u.rest in
      let by_total : ℕ → Added = λ total.
        let g = add_parity (grown_for i f) i total s in
        record { ready = enough_shards g; encoded = none; facility = g } in
      let g = add_packet (grown_for i f) i m in
      let negative : (if 65536 - n == 0 then true else leb 32768 (65536 - n)) ≡ true =
        ground (arith, bound, some_packets) in
      ap by_header ((chunk.header.reads (65536 - n) (omega (arith, some_packets))).unpacks s)
      ∙ ap
          (λ c. if c then by_total ((65536 - (65536 - n)) % 65536) else record {
            ready = if g.total_data_shards == 0 then false else enough_shards g;
            encoded = some s;
            facility = g;
          })
          negative
      ∙ ap by_total {x = (65536 - (65536 - n)) % 65536} {y = n} (omega (arith, bound))

  -- What a message is, by its id: a packet with its header, or a parity shard with its header.
  pub message_cases :
      (i : ℕ) (m : List ℕ)
      → get_elem? (messages libs parity ps chunk) i ≡ some m
      → ((p : List ℕ) × (get_elem? ps i ≡ some p)
          × (m ≡ wrapped libs parity ps chunk p)
          × (get_elem? shards i ≡ some m))
        ⊎ ((s : List ℕ) × (length ps ≤ i)
            × (m ≡ parity_header libs parity ps chunk ++ s)
            × (get_elem? shards i ≡ some s)
            × (length s ≡ size))
  message_cases i m at =
      let datas = data_shards libs parity ps chunk in
      let parities = parity_shards libs parity ps chunk in
      let header = parity_header libs parity ps chunk in
      let with_header : List ℕ → List ℕ = λ s. header ++ s in
      elim (get_elem?-append_cases datas (map with_header parities) i m at) [
        | inl here ↦
            let (p, there, same) = get_elem?-map_cases (wrapped libs parity ps chunk) ps i m here in
            inl (p, there, same, get_elem?-left datas parities i m here)
        | inr (j, place, here) ↦
            let (s, there, same) = get_elem?-map_cases with_header parities j m here in
            let sized =
              get_elem?-All (HasSize size) parities j s (parity_shards-HasSize libs parity ps chunk)
                there in
            let len = length-data_shards libs parity ps chunk in
            inr (
              s,
              omega (arith, place, len),
              same,
              ap (get_elem? shards) place ∙ get_elem?-right datas parities j ∙ there,
              sized,
            )
      ]

  grown_Receives :
      (f : Facility) (i : ℕ) (x : List ℕ)
      → get_elem? shards i ≡ some x
      → IsReceiving f
      → IsReceiving (grown_for i f)
  grown_Receives f i x kept has =
      grow-Receives shards (length ps) size f (i + 1) has
        (omega (arith, get_elem?-lt shards i x kept))

  -- Every message keeps what the facility has of the chunk.
  pub add_shard-Receives :
      (f : Facility) (i : ℕ) (m : List ℕ)
      → get_elem? (messages libs parity ps chunk) i ≡ some m
      → IsReceiving f
      → IsReceiving (add_shard libs i m f).facility
  add_shard-Receives f i m at has = elim (message_cases i m at) [
    | inl (p, there, same, kept) ↦
        let ok = get_elem?-All IsPacket ps i p chunk.packets there in
        let m' = wrapped libs parity ps chunk p in
        subst (λ (r : Added). IsReceiving r.facility)
          (sym (ap (λ k. add_shard libs i k f) same ∙ add_shard-data f i p ok))
          (add_packet-Receives shards (length ps) size (grown_for i f) i m'
            (grown_Receives f i m kept has) (omega (arith, grown-length (i + 1) f.buffer))
            (kept ∙ ap some same))
    | inr (s, past, same, kept, sized) ↦
        subst (λ (r : Added). IsReceiving r.facility)
          (sym (ap (λ k. add_shard libs i k f) same ∙ add_shard-parity f i s))
          (add_parity-Receives shards (length ps) size (grown_for i f) i s
            (grown_Receives f i s kept has) (omega (arith, grown-length (i + 1) f.buffer)) kept
            sized)
  ]
