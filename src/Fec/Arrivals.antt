-- ===== src/Fec/Arrivals.antt =====
-- A receiver that gets enough messages of a chunk, in any order, delivers all its packets.
use vlite.Base.{
  ℕ, zero, suc, ◌+◌, ◌≤◌, ◌<◌, ◌≡◌, ◌≢◌, refl, sym, ap, subst, ◌∙◌, arith, List, [], ◌∷◌, ◌++◌, map,
  none, some, some_eq, true, false, ◌==◌, if◌then◌else◌, length, get_elem?, take_all, All, ◌⊎◌, inl,
  inr, Bool-cases, ==_refl,
}
use vlite.Base.Elements.{get_elem?-lt}
use vlite.Proto.{Codec, RoundTrips, Unpacked}
use vlite.Fec.Facility.{Libraries, Result, done}
use vlite.Fec.Slots.{is_among, distinct, distinct-present, present-take, full-slot}
use vlite.Fec.Chunk.{IsChunk, messages}
use vlite.Fec.Rx.{
  PacketWireHead, Bitmaps, RxChunk, Delivery, Rx, Arrival, rx_chunk, new_rx_chunk, kept_chunk,
  after_chunk, rx_by_head, rx_message, and_then_rx, rx_messages,
}
use vlite.Fec.Bits.{IsIn, HoldsBits}
use vlite.Fec.Delivery.{Delivers, new-Delivers}
use vlite.Fec.Completion.{Progress, IsWaiting, rx_chunk-Progress}
use vlite.Fec.Sent.{Message, ids_of}
use vlite.Fec.Seen.{Seen, new_facility-Seen, add_shard-Seen}

All-elements :
    (P : List ℕ → Type 0) (qs : List (List ℕ))
    → ((j : ℕ) (q : List ℕ) → get_elem? qs j ≡ some q → P q)
    → All P qs
All-elements P [] holds = tt
All-elements P (q ∷ qs) holds = (holds zero q refl, All-elements P qs (λ j. holds (suc j)))

module _ {B : Type 0} (libs : Libraries) (bitmaps : Bitmaps B) (holds : HoldsBits bitmaps)
    (parity : ℕ) (ps : List (List ℕ)) (chunk : IsChunk libs parity ps)
    (codec : Codec PacketWireHead) (seq : ℕ) (seq_set : seq ≢ 0)
    (heads : (i : ℕ) → i < 65536 → RoundTrips codec (record { seq = seq; id = i })) where
  abbrev pub arrival : Message → Arrival
  arrival m = record {
    input = (codec.pack (record { seq = seq; id = m.id })).bytes ++ m.payload;
    expired = false;
  }

  -- A message of the chunk that the receiver reads whole, into 1650 bytes.
  abbrev pub Fits : Message → Type 0
  Fits m = length (arrival m).input ≤ 1650

  abbrev pub IsSent : Message → Type 0
  IsSent m =
      (m.id < 65536) × (get_elem? (messages libs parity ps chunk) m.id ≡ some m.payload) × Fits m

  -- The chunk of the sequence number, and what has come of it.
  record Arrives (ids : List ℕ) (s : Rx B) : Type 0 where
    progress :
        Progress libs bitmaps holds parity ps chunk
          (kept_chunk libs bitmaps false (s.reassemble_buffer seq))
          s.delivered
    seen :
        (kept_chunk libs bitmaps false (s.reassemble_buffer seq)).done_all ≡ false
        → Seen (length ps) ids (kept_chunk libs bitmaps false (s.reassemble_buffer seq)).facility

  after : Rx B → List ℕ → Delivery B → Rx B
  after s input e = record s {
    bytes = s.bytes + length input;
    reassemble_buffer = λ k. if k == seq then some e.chunk else s.reassemble_buffer k;
    delivered = s.delivered ++ e.packets;
    shard_original = s.shard_original + e.original;
    shard_recovered = s.shard_recovered + e.recovered;
  }

  rx_message-chunk :
      (m : Message) (s : Rx B) (e : Delivery B)
      → m.id < 65536
      → Fits m
      → rx_chunk libs bitmaps m.id m.payload
          (kept_chunk libs bitmaps false (s.reassemble_buffer seq))
        ≡ done e
      → rx_message libs bitmaps codec (arrival m).input false s ≡ done (after s (arrival m).input e)
  unfolding rx_message rx_by_head after
  rx_message-chunk m s e small fits eq =
      let input = (arrival m).input in
      let s1 : Rx B = record s { bytes = s.bytes + length input } in
      let by_head : Unpacked PacketWireHead → Result (Rx B) =
        λ h. rx_by_head libs bitmaps h.value h.rest false s1 in
      let fec : (seq == 0) ≡ false = ground arith in
      ap
        (λ l.
          let h = codec.unpack l in
          rx_by_head libs bitmaps h.value h.rest false (record s { bytes = s.bytes + length l }))
        (take_all 1650 input fits)
      ∙ ap by_head ((heads m.id small).unpacks m.payload)
      ∙ ap
          (λ c.
            if c
            then done (record s1 {
              delivered = s1.delivered ++ m.payload ∷ [];
              shard_original_no_fec = s1.shard_original_no_fec + 1;
            })
            else after_chunk libs bitmaps seq s1 (
                rx_chunk libs bitmaps m.id m.payload
                  (kept_chunk libs bitmaps false (s.reassemble_buffer seq))))
          fec
      ∙ ap (after_chunk libs bitmaps seq s1) eq

  kept-after :
      (s : Rx B) (input : List ℕ) (e : Delivery B)
      → kept_chunk libs bitmaps false ((after s input e).reassemble_buffer seq) ≡ e.chunk
  unfolding after
  kept-after s input e =
      ap (λ c. kept_chunk libs bitmaps false (if c then some e.chunk else s.reassemble_buffer seq))
        (==_refl seq)

  message-Arrives :
      (ids : List ℕ) (m : Message) (s : Rx B)
      → IsSent m
      → Arrives ids s
      → (t : Rx B) × (rx_message libs bitmaps codec (arrival m).input false s ≡ done t)
        × Arrives (m.id ∷ ids) t
  unfolding after
  message-Arrives ids m s (small, at, fits) arrives =
      let c = kept_chunk libs bitmaps false (s.reassemble_buffer seq) in
      let (e, eq, progress, same) =
        rx_chunk-Progress libs bitmaps holds parity ps chunk s.delivered m.id m.payload c at
          arrives.progress in
      let t = after s (arrival m).input e in
      let kept = kept-after s (arrival m).input e in
      (
        t,
        rx_message-chunk m s e small fits eq,
        record {
          progress =
              subst (λ k. Progress libs bitmaps holds parity ps chunk k t.delivered) (sym kept)
                progress;
          seen =
              subst
                (λ (k : RxChunk B). k.done_all ≡ false → Seen (length ps) (m.id ∷ ids) k.facility)
                (sym kept)
                (λ is.
                  let (was, facility) = same is in
                  subst (Seen (length ps) (m.id ∷ ids)) (sym facility) (
                    add_shard-Seen libs parity ps chunk ids c.facility m.id m.payload at
                      (arrives.seen was)));
        },
      )

  -- The numbers of the messages that have come, in the order of the facts about them.
  abbrev onto : List ℕ → List Message → List ℕ
  onto ids [] = ids
  onto ids (m ∷ ms) = onto (m.id ∷ ids) ms

  onto-is_among :
      (ms : List Message) (ids : List ℕ) (i : ℕ)
      → (is_among i ids ≡ true) ⊎ (is_among i (ids_of ms) ≡ true)
      → is_among i (onto ids ms) ≡ true
  onto-is_among [] ids i (inl there) = there
  onto-is_among [] ids i (inr there) = absurd (ground arith)
  onto-is_among (m ∷ ms) ids i (inl there) = onto-is_among ms (m.id ∷ ids) i (inl (ground arith))
  onto-is_among (m ∷ ms) ids i (inr there) = elim (Bool-cases (i == m.id)) [
    | inl same ↦ onto-is_among ms (m.id ∷ ids) i (inl (ground arith))
    | inr other ↦ onto-is_among ms (m.id ∷ ids) i (inr (ground arith))
  ]

  messages-Arrives :
      (ms : List Message) (ids : List ℕ) (s : Rx B)
      → All IsSent ms
      → Arrives ids s
      → (t : Rx B) × (rx_messages libs bitmaps codec (map arrival ms) s ≡ done t)
        × Arrives (onto ids ms) t
  unfolding rx_messages
  messages-Arrives [] ids s sent arrives = (s, refl, arrives)
  messages-Arrives (m ∷ ms) ids s (at, sent) arrives =
      let (s1, eq, next) = message-Arrives ids m s at arrives in
      let (t, eqs, rest) = messages-Arrives ms (m.id ∷ ids) s1 sent next in
      (
        t,
        ap (λ o. and_then_rx libs bitmaps o (rx_messages libs bitmaps codec (map arrival ms))) eq
            ∙ eqs,
        rest,
      )

  start-Arrives : (s : Rx B) → length ps ≤ 40 → s.reassemble_buffer seq ≡ none → Arrives [] s
  unfolding new_rx_chunk
  start-Arrives s small free =
      let new : kept_chunk libs bitmaps false (s.reassemble_buffer seq)
          ≡ new_rx_chunk libs bitmaps =
        ap (kept_chunk libs bitmaps false) free in
      record {
        progress =
            subst (λ k. Progress libs bitmaps holds parity ps chunk k s.delivered) (sym new)
              (inr (
                refl,
                new-Delivers libs bitmaps holds parity ps chunk s.delivered small,
                λ told. absurd (told refl),
              ));
        seen =
            subst (λ (k : RxChunk B). k.done_all ≡ false → Seen (length ps) [] k.facility) (sym new)
              (λ is. new_facility-Seen (length ps));
      }

  -- A chunk that waits, and has the messages, has delivered its packets.
  complete-delivered :
      (c : RxChunk B) (delivered : List (List ℕ))
      → Delivers libs bitmaps holds parity ps chunk c.facility c.done_bitmap delivered
      → IsWaiting libs bitmaps holds parity ps chunk c.facility
      → length ps ≤ c.facility.data_input + c.facility.shard_input
      → c.facility.total_data_shards ≢ 0
      → All (λ p. IsIn p delivered) ps
  complete-delivered c delivered d waits many told =
      All-elements (λ p. IsIn p delivered) ps
        (λ j p at.
          let inside = get_elem?-lt ps j p at in
          let all = waits told many in
          let counted = d.counted in
          let slot =
            full-slot (length ps) c.facility.buffer j (omega (arith, all, counted)) inside in
          let (bit, marked, is) = d.marks j p at in
          let place : bitmaps.get_bit (0 + j) c.done_bitmap ≡ bitmaps.get_bit j c.done_bitmap =
            ap (λ n. bitmaps.get_bit n c.done_bitmap) {x = 0 + j} {y = j} (omega arith) in
          is (some_eq (sym marked ∙ place ∙ d.here j inside slot)))

  -- Where as many different messages of a chunk come as it has packets, at most 40, in any order and
  -- repeated or not, and one of them is a parity message, every packet of the chunk is delivered, and
  -- nothing panics. The messages have at most 1650 bytes with their heads, which is what the receiver
  -- reads of a message. The chunk is new to the receiver and does not expire, the libraries are as
  -- `IsChunk` and `HoldsBits` say, and the heads are read as they were packed.
  pub rx_messages-All :
      (ms : List Message) (k : ℕ) (s : Rx B)
      → length ps ≤ 40
      → s.reassemble_buffer seq ≡ none
      → All IsSent ms
      → length ps ≤ distinct k (ids_of ms)
      → (i : ℕ) → length ps ≤ i
      → is_among i (ids_of ms) ≡ true
      → (t : Rx B) × (rx_messages libs bitmaps codec (map arrival ms) s ≡ done t)
        × All (λ p. IsIn p t.delivered) ps
  rx_messages-All ms k s small free sent many i parity_id there =
      let (t, eq, arrives) = messages-Arrives ms [] s sent (start-Arrives s small free) in
      (
        t,
        eq,
        elim arrives.progress [
          | inl (finished, all) ↦ all
          | inr (not_done, d, waits) ↦
              let c = kept_chunk libs bitmaps false (t.reassemble_buffer seq) in
              let seen = arrives.seen not_done in
              let all_seen : (j : ℕ)
                  → is_among j (ids_of ms) ≡ true
                  → is_among j (onto [] ms) ≡ true =
                λ j among. onto-is_among ms [] j (inr among) in
              let counts = d.receiving.counts in
              let enough =
                distinct-present k (ids_of ms) c.facility.buffer
                  (λ j among. seen.filled j (all_seen j among)) in
              complete-delivered c t.delivered d waits
                (omega (arith, many, enough, present-take k c.facility.buffer, counts))
                (seen.told i (all_seen i there) parity_id)
        ],
      )
