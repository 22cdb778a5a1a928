-- ===== src/Fec/Rx.antt =====
-- transport/udp/errorCorrection/assembly/rx.go: what comes from the connection, into chunks.
-- `Read` is into 1650 bytes, so that what a message has beyond them is lost. The library go-bitmap is a parameter; the cache is a
-- function from sequence numbers, and what has expired in it is an argument.
use vlite.Base.{
  ℕ, ◌+◌, List, [], ◌∷◌, ◌++◌, Option, none, some, Bool, true, false, ◌==◌, if◌then◌else◌, length,
  take,
}
use vlite.Proto.{Codec}
use vlite.Fec.Facility.{
  Libraries, Facility, new_facility, Result, done, panic, add_shard, Reconstructed, reconstruct,
}

-- asby.go: `PacketWireHead`.
pub record PacketWireHead : Type 0 where
  pub seq : ℕ
  pub id : ℕ

-- The library go-bitmap: `New`, `Set` to true and `Get`, where `none` is a panic.
pub record Bitmaps (B : Type 0) : Type 0 where
  pub new_bitmap : ℕ → B
  pub set_bit : ℕ → B → Option B
  pub get_bit : ℕ → B → Option Bool

-- `packetAssemblyRxChunkHolder`.
pub record RxChunk (B : Type 0) : Type 0 where
  pub facility : Facility
  pub done_all : Bool
  pub done_bitmap : B

-- What a message makes of its chunk: the packets for `RxChan`, and how many of them are original and
-- recovered.
pub record Delivery (B : Type 0) : Type 0 where
  pub packets : List (List ℕ)
  pub original : ℕ
  pub recovered : ℕ
  pub chunk : RxChunk B

-- What `Rx` has of `PacketAssembly`; `delivered` is what was sent on `RxChan`.
pub record Rx (B : Type 0) : Type 0 where
  pub reassemble_buffer : ℕ → Option (RxChunk B)
  pub delivered : List (List ℕ)
  pub shard_original_no_fec : ℕ
  pub shard_original : ℕ
  pub shard_recovered : ℕ
  pub bytes : ℕ

-- A message that the connection has for `Read`, of any length, and whether the cache has dropped its chunk by now.
pub record Arrival : Type 0 where
  pub input : List ℕ
  pub expired : Bool

module _ {B : Type 0} (libs : Libraries) (bitmaps : Bitmaps B) where
  -- asby.go: `MaxDataShardPerChunk` is 40.
  unfoldable pub new_rx_chunk : RxChunk B
  new_rx_chunk = record {
    facility = new_facility;
    done_all = false;
    done_bitmap = bitmaps.new_bitmap 40;
  }

  -- The recovered packets whose bit is not set, from an index on.
  abbrev pub unless_set : Option Bool → List ℕ → Result (List (List ℕ)) → Result (List (List ℕ))
  unless_set none p rest = panic
  unless_set (some bit) p panic = panic
  unless_set (some true) p (done ps) = done ps
  unless_set (some false) p (done ps) = done (p ∷ ps)

  abbrev pub not_set : B → ℕ → List (List ℕ) → Result (List (List ℕ))
  not_set bitmap i [] = done []
  not_set bitmap i (p ∷ ps) = unless_set (bitmaps.get_bit i bitmap) p (not_set bitmap (i + 1) ps)

  abbrev pub deliver_recovered :
      Delivery B → Facility → Result (List (List ℕ)) → Result (Delivery B)
  deliver_recovered d f panic = panic
  deliver_recovered d f (done ps) = done (record {
    packets = d.packets ++ ps;
    original = d.original;
    recovered = length ps;
    chunk = record { facility = f; done_all = true; done_bitmap = d.chunk.done_bitmap };
  })

  abbrev pub keep_facility : Delivery B → Facility → Delivery B
  keep_facility d f = record d {
    chunk = record { facility = f; done_all = d.chunk.done_all; done_bitmap = d.chunk.done_bitmap };
  }

  abbrev pub packets_of : Delivery B → Facility → Option (List (List ℕ)) → Result (Delivery B)
  packets_of d f none = done (keep_facility d f)
  packets_of d f (some ps) = deliver_recovered d f (not_set d.chunk.done_bitmap 0 ps)

  abbrev pub after_reconstruct : Delivery B → Result Reconstructed → Result (Delivery B)
  after_reconstruct d panic = panic
  after_reconstruct d (done r) = packets_of d r.facility r.packets

  abbrev pub if_ready : Bool → Result (Delivery B) → Result (Delivery B)
  if_ready ready panic = panic
  if_ready false (done d) = done d
  if_ready true (done d) = after_reconstruct d (reconstruct libs d.chunk.facility)

  abbrev pub with_bitmap : RxChunk B → Facility → List ℕ → Option B → Result (Delivery B)
  with_bitmap c f p none = panic
  with_bitmap c f p (some bitmap) = done (record {
    packets = p ∷ [];
    original = 1;
    recovered = 0;
    chunk = record { facility = f; done_all = c.done_all; done_bitmap = bitmap };
  })

  abbrev pub nothing_new : RxChunk B → Delivery B
  nothing_new c = record { packets = []; original = 0; recovered = 0; chunk = c }

  -- The packet of a data message, with its bit.
  abbrev pub deliver_data : ℕ → RxChunk B → Facility → Option (List ℕ) → Result (Delivery B)
  deliver_data id c f none = done (keep_facility (nothing_new c) f)
  deliver_data id c f (some p) = with_bitmap c f p (bitmaps.set_bit id c.done_bitmap)

  unfoldable pub rx_chunk : ℕ → List ℕ → RxChunk B → Result (Delivery B)
  rx_chunk id payload c =
      let a = add_shard libs id payload c.facility in
      if c.done_all
      then done (nothing_new c)
      else if_ready a.ready (deliver_data id c a.facility a.encoded)

  abbrev pub kept_chunk : Bool → Option (RxChunk B) → RxChunk B
  kept_chunk expired none = new_rx_chunk
  kept_chunk true (some c) = new_rx_chunk
  kept_chunk false (some c) = c

  abbrev pub after_chunk : ℕ → Rx B → Result (Delivery B) → Result (Rx B)
  after_chunk seq s panic = panic
  after_chunk seq s (done d) = done (record s {
    reassemble_buffer = λ k. if k == seq then some d.chunk else s.reassemble_buffer k;
    delivered = s.delivered ++ d.packets;
    shard_original = s.shard_original + d.original;
    shard_recovered = s.shard_recovered + d.recovered;
  })

  unfoldable pub rx_by_head : PacketWireHead → List ℕ → Bool → Rx B → Result (Rx B)
  rx_by_head head payload expired s =
      if head.seq == 0
      then done (record s {
        delivered = s.delivered ++ payload ∷ [];
        shard_original_no_fec = s.shard_original_no_fec + 1;
      })
      else after_chunk head.seq s
          (rx_chunk head.id payload (kept_chunk expired (s.reassemble_buffer head.seq)))

  -- A head that is not unpacked is only reported.
  unfoldable pub rx_message : Codec PacketWireHead → List ℕ → Bool → Rx B → Result (Rx B)
  rx_message codec input expired s =
      let read = take 1650 input in
      let head = codec.unpack read in
      rx_by_head head.value head.rest expired (record s { bytes = s.bytes + length read })

  abbrev pub and_then_rx : Result (Rx B) → (Rx B → Result (Rx B)) → Result (Rx B)
  and_then_rx panic k = panic
  and_then_rx (done s) k = k s

  -- The loop of `Rx`, for the reads that succeed.
  unfoldable pub rx_messages : Codec PacketWireHead → List Arrival → Rx B → Result (Rx B)
  rx_messages codec [] s = done s
  rx_messages codec (a ∷ arrivals) s =
      and_then_rx (rx_message codec a.input a.expired s) (rx_messages codec arrivals)
