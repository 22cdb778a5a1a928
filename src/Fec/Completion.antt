-- ===== src/Fec/Completion.antt =====
-- One message after the other: the chunk is done, or waits for more.
use vlite.Base.{
  ℕ, ◌+◌, ◌≤◌, ◌<◌, ◌≡◌, ◌≢◌, refl, sym, ap, subst, ◌∙◌, arith, List, [], ◌∷◌, ◌++◌, none, some,
  Bool, true, false, not, leb, ◌==◌, if◌then◌else◌, length, get_elem?, All, ◌⊎◌, inl, inr,
  Bool-cases, if_rule,
}
use mathlib.Core.List.{append-nil, append_assoc}
use vlite.Base.Elements.{get_elem?-All}
use vlite.Fec.Facility.{
  Libraries, Facility, Result, done, Added, add_packet, add_parity, add_shard, enough_shards,
  reconstruct, no_packets, get_parity_shard_sum, reconstruct_with, Reconstructed, is_nil, shard_at,
  grown,
}
use vlite.Fec.Chunk.{IsPacket, IsChunk, wrapped, parity_header, messages, stored, chunk_size}
use vlite.Fec.Receiving.{grown_for}
use vlite.Fec.Messages.{IsReceiving, message_cases, add_shard-data, add_shard-parity}
use vlite.Fec.Reconstruction.{reconstruct-packets}
use vlite.Fec.Rx.{
  Bitmaps, RxChunk, Delivery, rx_chunk, if_ready, deliver_data, with_bitmap, nothing_new,
  keep_facility, after_reconstruct, deliver_recovered,
}
use vlite.Fec.Bits.{IsIn, HoldsBits, not_set-All}
use vlite.Fec.Delivery.{Delivers, data-Delivers, parity-Delivers}

module _ {B : Type 0} (libs : Libraries) (bitmaps : Bitmaps B) (holds : HoldsBits bitmaps)
    (parity : ℕ) (ps : List (List ℕ)) (chunk : IsChunk libs parity ps) where
  abbrev IsDelivering : Facility → B → List (List ℕ) → Type 0
  IsDelivering = Delivers libs bitmaps holds parity ps chunk

  -- A chunk with enough messages has all its packets.
  abbrev pub IsWaiting : Facility → Type 0
  IsWaiting f =
      f.total_data_shards ≢ 0 → length ps ≤ f.data_input + f.shard_input → length ps ≤ f.data_input

  abbrev pub Progress : RxChunk B → List (List ℕ) → Type 0
  Progress c delivered =
      ((c.done_all ≡ true) × All (λ p. IsIn p delivered) ps)
      ⊎ ((c.done_all ≡ false)
          × Delivers libs bitmaps holds parity ps chunk c.facility c.done_bitmap delivered
          × IsWaiting c.facility)

  abbrev is_ready : Facility → Bool
  is_ready f = if f.total_data_shards == 0 then false else enough_shards f

  ready-enough :
      (f : Facility)
      → IsReceiving libs parity ps chunk f
      → is_ready f ≡ true
      → (f.total_data_shards ≡ length ps) × (length ps ≤ f.data_input + f.shard_input)
  ready-enough f has ready = elim has.known [
    | inl unknown ↦ absurd (ground arith)
    | inr (same, large) ↦ (same, ground arith)
  ]

  ready-waits :
      (f : Facility) → IsReceiving libs parity ps chunk f → is_ready f ≡ false → IsWaiting f
  ready-waits f has ready told enough = elim has.known [
    | inl unknown ↦ absurd (told unknown)
    | inr (same, large) ↦ ground arith
  ]

  -- A chunk with all its packets is left.
  reconstruct-nothing :
      (f : Facility)
      → f.total_data_shards ≡ length ps
      → length ps ≤ f.data_input
      → reconstruct libs f ≡ no_packets f
  unfolding reconstruct
  reconstruct-nothing f same all =
      let some_packets = chunk.some_packets in
      let go : Result Reconstructed =
        reconstruct_with libs f (get_parity_shard_sum f.total_data_shards) in
      let not_zero : (f.total_data_shards == 0) ≡ false = ground arith in
      let ready : enough_shards f ≡ true = ground arith in
      let complete : leb f.total_data_shards f.data_input ≡ true = ground arith in
      ap
        (λ c.
          if c
          then no_packets f
          else if not (enough_shards f)
          then no_packets f
          else if leb f.total_data_shards f.data_input
          then no_packets f
          else go)
        not_zero
      ∙ ap
          (λ c.
            if not c
            then no_packets f
            else if leb f.total_data_shards f.data_input
            then no_packets f
            else go)
          ready
      ∙ ap (λ c. if c then no_packets f else go) complete

  -- What a message leaves, where its own packet has been delivered.
  -- The facility is then `f`, unless the chunk is done.
  abbrev Settles : List (List ℕ) → Facility → Result (Delivery B) → Type 0
  Settles before f o =
      (e : Delivery B) × (o ≡ done e)
      × Progress e.chunk (before ++ e.packets)
      × (e.chunk.done_all ≡ false → e.chunk.facility ≡ f)

  settle_ready :
      (before : List (List ℕ)) (d : Delivery B)
      → IsDelivering d.chunk.facility d.chunk.done_bitmap (before ++ d.packets)
      → d.chunk.done_all ≡ false
      → is_ready d.chunk.facility ≡ true
      → Settles before d.chunk.facility
          (after_reconstruct libs bitmaps d (reconstruct libs d.chunk.facility))
  settle_ready before d delivers not_done ready =
      let f = d.chunk.facility in
      let (same, enough) = ready-enough f delivers.receiving ready in
      elim (Bool-cases (leb (length ps) f.data_input)) [
        | inl all ↦
            let complete : length ps ≤ f.data_input = ground arith in
            (
              keep_facility libs bitmaps d f,
              ap (after_reconstruct libs bitmaps d) (reconstruct-nothing f same complete),
              inr (not_done, delivers, λ told many. complete),
              λ is. refl,
            )
        | inr missing ↦
            let some_packets = chunk.some_packets in
            let fewer : f.data_input < length ps = ground arith in
            let told : f.total_data_shards ≢ 0 =
              λ zero_total. omega (arith, same, zero_total, some_packets) in
            let (g, eq) =
              reconstruct-packets libs parity ps chunk f delivers.receiving told enough fewer in
            let (rs, left, all) =
              not_set-All libs bitmaps d.chunk.done_bitmap (before ++ d.packets) ps 0
                delivers.marks in
            (
              record {
                packets = d.packets ++ rs;
                original = d.original;
                recovered = length rs;
                chunk = record { facility = g; done_all = true; done_bitmap = d.chunk.done_bitmap };
              },
              ap (after_reconstruct libs bitmaps d) eq
                  ∙ ap (deliver_recovered libs bitmaps d g) left,
              inl (
                refl,
                subst (λ (xs : List (List ℕ)). All (λ p. IsIn p xs) ps)
                    (append_assoc before d.packets rs) all,
              ),
              λ is. absurd (ground arith),
            )
      ]

  settle :
      (before : List (List ℕ)) (d : Delivery B)
      → IsDelivering d.chunk.facility d.chunk.done_bitmap (before ++ d.packets)
      → d.chunk.done_all ≡ false
      → Settles before d.chunk.facility (if_ready libs bitmaps (is_ready d.chunk.facility) (done d))
  settle before d delivers not_done = elim (Bool-cases (is_ready d.chunk.facility)) [
    | inl ready ↦
        subst (λ c. Settles before d.chunk.facility (if_ready libs bitmaps c (done d))) (sym ready)
          (settle_ready before d delivers not_done ready)
    | inr waits ↦
        subst (λ c. Settles before d.chunk.facility (if_ready libs bitmaps c (done d))) (sym waits)
          (
            d,
            refl,
            inr (not_done, delivers, ready-waits d.chunk.facility delivers.receiving waits),
            λ is. refl,
          )
  ]

  -- A message of the chunk.
  abbrev Answers : List (List ℕ) → ℕ → List ℕ → RxChunk B → Type 0
  Answers before i m c =
      Settles before (add_shard libs i m c.facility).facility (rx_chunk libs bitmaps i m c)

  -- What `rx_chunk` makes of the answer of `AddShard`.
  after_added : ℕ → RxChunk B → Added → Result (Delivery B)
  after_added i c a =
      if_ready libs bitmaps a.ready (deliver_data libs bitmaps i c a.facility a.encoded)

  rx_chunk-not_done :
      (i : ℕ) (m : List ℕ) (c : RxChunk B) (a : Added)
      → c.done_all ≡ false
      → add_shard libs i m c.facility ≡ a
      → rx_chunk libs bitmaps i m c ≡ after_added i c a
  unfolding rx_chunk after_added
  rx_chunk-not_done i m c a not_done eq =
      ap
        (λ b.
          if b
          then done (nothing_new libs bitmaps c)
          else after_added i c (add_shard libs i m c.facility))
        not_done
      ∙ ap (after_added i c) eq

  rx_chunk-data :
      (before : List (List ℕ)) (i : ℕ) (p : List ℕ) (c : RxChunk B)
      → get_elem? ps i ≡ some p
      → get_elem? (messages libs parity ps chunk) i ≡ some (wrapped libs parity ps chunk p)
      → c.done_all ≡ false
      → IsDelivering c.facility c.done_bitmap before
      → Answers before i (wrapped libs parity ps chunk p) c
  unfolding after_added
  rx_chunk-data before i p c at sent not_done delivers =
      let m = wrapped libs parity ps chunk p in
      let g = add_packet (grown_for i c.facility) i m in
      let ok = get_elem?-All IsPacket ps i p chunk.packets at in
      let (bits, set, next) =
        data-Delivers libs bitmaps holds parity ps chunk c.facility c.done_bitmap before i p at sent
          delivers in
      let d : Delivery B = record {
        packets = p ∷ [];
        original = 1;
        recovered = 0;
        chunk = record { facility = g; done_all = c.done_all; done_bitmap = bits };
      } in
      let step : rx_chunk libs bitmaps i m c ≡ if_ready libs bitmaps (is_ready g) (done d) =
        rx_chunk-not_done i m c (record { ready = is_ready g; encoded = some p; facility = g })
          not_done (add_shard-data libs parity ps chunk c.facility i p ok)
        ∙ ap (λ o. if_ready libs bitmaps (is_ready g) (with_bitmap libs bitmaps c g p o)) set in
      subst (λ h. Settles before h (rx_chunk libs bitmaps i m c))
        (sym
          (ap (λ (a : Added). a.facility) (add_shard-data libs parity ps chunk c.facility i p ok)))
        (subst (Settles before g) (sym step) (settle before d next not_done))

  rx_chunk-parity :
      (before : List (List ℕ)) (i : ℕ) (s : List ℕ) (c : RxChunk B)
      → length ps ≤ i
      → get_elem? (messages libs parity ps chunk) i ≡ some (parity_header libs parity ps chunk ++ s)
      → c.done_all ≡ false
      → IsDelivering c.facility c.done_bitmap before
      → Answers before i (parity_header libs parity ps chunk ++ s) c
  unfolding after_added
  rx_chunk-parity before i s c after sent not_done delivers =
      let m = parity_header libs parity ps chunk ++ s in
      let g = add_parity (grown_for i c.facility) i (length ps) s in
      let next =
        parity-Delivers libs bitmaps holds parity ps chunk c.facility c.done_bitmap before i s after
          sent delivers in
      let d : Delivery B = keep_facility libs bitmaps (nothing_new libs bitmaps c) g in
      let some_packets = chunk.some_packets in
      let known : g.total_data_shards ≡ length ps =
        if_rule (λ (h : Facility). h.total_data_shards ≡ length ps)
          (is_nil (shard_at (grown (i + 1) c.facility.buffer) i)) refl refl in
      let not_zero : (g.total_data_shards == 0) ≡ false = ground arith in
      let step : rx_chunk libs bitmaps i m c ≡ if_ready libs bitmaps (is_ready g) (done d) =
        rx_chunk-not_done i m c (record { ready = enough_shards g; encoded = none; facility = g })
          not_done (add_shard-parity libs parity ps chunk c.facility i s)
        ∙ ap (λ b. if_ready libs bitmaps (if b then false else enough_shards g) (done d))
            (sym not_zero) in
      subst (λ h. Settles before h (rx_chunk libs bitmaps i m c))
        (sym
          (ap (λ (a : Added). a.facility) (add_shard-parity libs parity ps chunk c.facility i s)))
        (subst (Settles before g) (sym step) (
          settle before d (subst (IsDelivering g c.done_bitmap) (sym (append-nil before)) next)
            not_done))

  -- Whatever message of the chunk comes, nothing panics, and the chunk is done or waits for more.
  pub rx_chunk-Progress :
      (before : List (List ℕ)) (i : ℕ) (m : List ℕ) (c : RxChunk B)
      → get_elem? (messages libs parity ps chunk) i ≡ some m
      → Progress c before
      → (e : Delivery B) × (rx_chunk libs bitmaps i m c ≡ done e)
        × Progress e.chunk (before ++ e.packets)
        × (e.chunk.done_all ≡ false
            → (c.done_all ≡ false) × (e.chunk.facility ≡ (add_shard libs i m c.facility).facility))
  unfolding rx_chunk
  rx_chunk-Progress before i m c at (inl (finished, all)) = (
    nothing_new libs bitmaps c,
    ap
        (λ b.
          if b
          then done (nothing_new libs bitmaps c)
          else if_ready libs bitmaps (add_shard libs i m c.facility).ready (
              deliver_data libs bitmaps i c (add_shard libs i m c.facility).facility
                (add_shard libs i m c.facility).encoded))
        finished,
    inl (
      finished,
      subst (λ (xs : List (List ℕ)). All (λ p. IsIn p xs) ps) (sym (append-nil before)) all,
    ),
    λ is. absurd (ground arith),
  )
  rx_chunk-Progress before i m c at (inr (not_done, delivers, waits)) =
      let (e, eq, progress, same) = answers (message_cases libs parity ps chunk i m at) in
      (e, eq, progress, λ is. (not_done, same is))
    where
      answers :
          ((p : List ℕ) × (get_elem? ps i ≡ some p)
              × (m ≡ wrapped libs parity ps chunk p)
              × (get_elem? (stored libs parity ps chunk) i ≡ some m))
            ⊎ ((s : List ℕ) × (length ps ≤ i)
                × (m ≡ parity_header libs parity ps chunk ++ s)
                × (get_elem? (stored libs parity ps chunk) i ≡ some s)
                × (length s ≡ chunk_size libs parity ps chunk))
          → Answers before i m c
      answers (inl (p, there, same, kept)) =
          subst (λ k. Answers before i k c) (sym same)
            (rx_chunk-data before i p c there (at ∙ ap some same) not_done delivers)
      answers (inr (s, after, same, kept, sized)) =
          subst (λ k. Answers before i k c) (sym same)
            (rx_chunk-parity before i s c after (at ∙ ap some same) not_done delivers)
