-- ===== src/Fec/Reconstruction.antt =====
-- A chunk of which enough messages have come is reconstructed.
use vlite.Base.{
  ℕ, ◌+◌, ◌≤◌, ◌<◌, ◌≡◌, ◌≢◌, refl, sym, ap, ◌∙◌, arith, List, ◌++◌, map, Option, some, Bool, true,
  false, not, leb, ◌==◌, if◌then◌else◌, length, take, drop, inl, inr, take_append,
}
use vlite.Base.Elements.{length-map}
use vlite.Fec.Facility.{
  Libraries, Facility, Result, done, panic, Reconstructed, no_packets, with_lens, recovered_packets,
  reconstruct, reconstruct_with, max_size, recover_lens, get_parity_shard_sum,
}
use vlite.Fec.Parts.{IsPart, present}
use vlite.Fec.Chunk.{IsChunk, stored, padded, chunk_size, length-padded}
use vlite.Fec.Messages.{IsReceiving}
use vlite.Fec.Recovery.{whole_buffer, whole-size, reconstruct_data-whole, recover_lens-packets}

module _ (libs : Libraries) (parity : ℕ) (ps : List (List ℕ)) (chunk : IsChunk libs parity ps) where
  abbrev facility_of : List (Option (List ℕ)) → ℕ → ℕ → Facility
  facility_of b d s = record {
    buffer = b;
    data_input = d;
    shard_input = s;
    total_data_shards = length ps;
  }

  -- With all shards of one size, the library gives the data shards, and they give the packets.
  recovered-packets :
      (b : List (Option (List ℕ))) (f : Facility)
      → IsPart b (stored libs parity ps chunk)
      → length ps ≤ present b
      → f.total_data_shards ≡ length ps
      → (g : Facility) × (recovered_packets libs.header f (
            libs.reed_solomon.reconstruct_data
              (length ps)
              parity
              (whole_buffer libs parity ps chunk b))
          ≡ done (record { packets = some ps; facility = g }))
  recovered-packets b f part many known =
      let (rest, gives) = reconstruct_data-whole libs parity ps chunk b part many in
      let datas = map some (padded libs parity ps chunk) in
      let len : length datas ≡ length ps =
        length-map (λ (x : List ℕ). some x) (padded libs parity ps chunk)
        ∙ length-padded libs parity ps chunk in
      let front : take f.total_data_shards (datas ++ rest) ≡ datas =
        ap (λ n. take n (datas ++ rest)) (known ∙ sym len) ∙ take_append datas rest in
      (
        record f { buffer = map some ps ++ drop f.total_data_shards (datas ++ rest) },
        ap (recovered_packets libs.header f) gives
            ∙ ap (λ xs. with_lens f (datas ++ rest) (recover_lens libs.header xs)) front
            ∙ ap (with_lens f (datas ++ rest))
                (recover_lens-packets libs parity ps chunk ps chunk.packets),
      )

  reconstruct_with-packets :
      (b : List (Option (List ℕ))) (d s : ℕ)
      → IsPart b (stored libs parity ps chunk)
      → chunk_size libs parity ps chunk ≤ max_size b
      → length ps ≤ present b
      → (g : Facility) × (reconstruct_with libs (facility_of b d s) (some parity)
          ≡ done (record { packets = some ps; facility = g }))
  unfolding reconstruct_with
  reconstruct_with-packets b d s part large many =
      let attempt : Bool → List (Option (List ℕ)) → Result Reconstructed = λ c buffer.
        if c
        then recovered_packets libs.header (facility_of buffer d s)
            (libs.reed_solomon.reconstruct_data (length ps) parity buffer)
        else panic in
      let w = whole_buffer libs parity ps chunk b in
      let (g, eq) = recovered-packets b (facility_of w d s) part many refl in
      (
        g,
        ap (attempt (libs.reed_solomon.accepts (length ps) parity))
              (whole-size libs parity ps chunk b part large)
            ∙ ap (λ c. attempt c w) chunk.rs.accepts
            ∙ eq,
      )

  reconstruct-tests :
      (b : List (Option (List ℕ))) (d s : ℕ)
      → length ps ≤ d + s
      → d < length ps
      → reconstruct libs (facility_of b d s)
        ≡ reconstruct_with libs (facility_of b d s) (some parity)
  unfolding reconstruct
  reconstruct-tests b d s enough missing =
      let f = facility_of b d s in
      let go : Result Reconstructed = reconstruct_with libs f (get_parity_shard_sum (length ps)) in
      let not_zero : (length ps == 0) ≡ false = ground arith in
      let ready : leb (length ps) (d + s) ≡ true = ground arith in
      let wanted : leb (length ps) d ≡ false = ground arith in
      ap
        (λ c.
          if c
          then no_packets f
          else if not (leb (length ps) (d + s))
          then no_packets f
          else if leb (length ps) d
          then no_packets f
          else go)
        not_zero
      ∙ ap (λ c. if not c then no_packets f else if leb (length ps) d then no_packets f else go)
          ready
      ∙ ap (λ c. if c then no_packets f else go) wanted
      ∙ ap (reconstruct_with libs f) chunk.table

  -- From as many messages of a chunk as it has packets, a parity message among them, the packets are
  -- reconstructed, in their order, where some of them has not come itself. The libraries are as
  -- `IsChunk` says, and the facility has got messages of this chunk only.
  pub reconstruct-packets :
      (f : Facility)
      → IsReceiving libs parity ps chunk f
      → f.total_data_shards ≢ 0
      → length ps ≤ f.data_input + f.shard_input
      → f.data_input < length ps
      → (g : Facility) × (reconstruct libs f ≡ done (record { packets = some ps; facility = g }))
  reconstruct-packets f has told enough missing = elim has.known [
    | inl unknown ↦ absurd (told unknown)
    | inr (same, large) ↦
        let counts = has.counts in
        let (g, eq) =
          reconstruct_with-packets f.buffer f.data_input f.shard_input has.part large
            (omega (arith, counts, enough)) in
        (
          g,
          ap (λ t. reconstruct libs (record f { total_data_shards = t })) same
              ∙ reconstruct-tests f.buffer f.data_input f.shard_input enough missing
              ∙ eq,
        )
  ]
