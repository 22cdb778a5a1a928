-- ===== src/Fec/Tx.antt =====
-- transport/udp/errorCorrection/assembly/tx.go: packets into chunks, on a ring of 30 slots.
-- How many parity shards `SelectPacketToSend` releases is an argument, since it computes with
-- floats. `answers i` is whether the write number i succeeds; a head that does not pack panics.
use vlite.Base.{
  ℕ, zero, suc, ◌+◌, ◌-◌, ◌%◌, List, [], ◌∷◌, ◌++◌, Option, none, some, Bool, true, false, not, ltb,
  leb, ◌==◌, if◌then◌else◌, length,
}
use vlite.Proto.{Codec}
use vlite.Fec.Facility.{
  Libraries, Facility, new_facility, Result, done, panic, DataAdded, add_data, Constructed,
  construct_reconstruct_shard, max_shard_yield_remaining,
}
use vlite.Fec.Rx.{PacketWireHead}

-- `packetAssemblyTxChunkHolder`.
pub record TxChunk : Type 0 where
  pub ef : Facility
  pub enabled : Bool
  pub data_shard_within : ℕ
  pub seq : ℕ
  pub initial_send_epoch_seq : ℕ
  pub initial_remain_shard : ℕ

-- A new holder, with the rest of its fields zero.
unfoldable pub new_tx_chunk : TxChunk
new_tx_chunk = record {
  ef = new_facility;
  enabled = false;
  data_shard_within = 0;
  seq = 0;
  initial_send_epoch_seq = 0;
  initial_remain_shard = 0;
}

-- What `Tx` has of `PacketAssembly`, and its variables. `written` is what the connection took, and
-- `writes` how often it was written to.
pub record Tx : Type 0 where
  pub next_seq : ℕ
  pub ring_buffer : ℕ → TxChunk
  pub current_slot : ℕ
  pub sent_this_epoch : ℕ
  pub epoch_seq : ℕ
  pub fec_enabled : Bool
  pub shard_original : ℕ
  pub shard_fec : ℕ
  pub shard_original_no_fec : ℕ
  pub bytes : ℕ
  pub written : List (List ℕ)
  pub writes : ℕ
  pub returned : Bool

abbrev pub set_slot : ℕ → TxChunk → Tx → Tx
set_slot i c t = record t { ring_buffer = λ j. if j == i then c else t.ring_buffer j }

-- `NewPacketAssembly`, and the first slot.
unfoldable pub new_tx : Tx
new_tx = record {
  next_seq = 1;
  ring_buffer = λ j. new_tx_chunk;
  current_slot = 0;
  sent_this_epoch = 0;
  epoch_seq = 0;
  fec_enabled = true;
  shard_original = 0;
  shard_fec = 0;
  shard_original_no_fec = 0;
  bytes = 0;
  written = [];
  writes = 0;
  returned = false;
}

-- The result of a write: whether it failed, and the state after.
pub record PacketWrite : Type 0 where
  pub failed : Bool
  pub tx : Tx

-- What the loop of `Tx` waits for, and boost.go switching the error correction on or off.
pub data TxEvent : Type 0 where
  from_tx_chan : List ℕ → TxEvent
  from_no_fec_chan : List ℕ → TxEvent
  epoch : ℕ → (Tx → List ℕ) → TxEvent
  boost : Bool → TxEvent

module _ (libs : Libraries) (codec : Codec PacketWireHead) (answers : ℕ → Bool) where
  -- `packAndSend`, with `packPacket`.
  unfoldable pub pack_and_send : ℕ → ℕ → List ℕ → Tx → Result PacketWrite
  pack_and_send seq id wd t =
      let head = codec.pack (record { seq = seq; id = id }) in
      let res = head.bytes ++ wd in
      if not head.no_error
      then panic
      else if answers t.writes
      then done (record {
        failed = false;
        tx = record t {
          written = t.written ++ res ∷ [];
          writes = t.writes + 1;
          bytes = t.bytes + length res;
        };
      })
      else done (record { failed = true; tx = record t { writes = t.writes + 1 } })

  abbrev pub and_write : Result PacketWrite → (PacketWrite → Result Tx) → Result Tx
  and_write panic k = panic
  and_write (done w) k = k w

  -- `TxWithoutFEC`, whose answer is not looked at.
  unfoldable pub tx_without_fec : List ℕ → Tx → Result Tx
  tx_without_fec packet t = and_write (pack_and_send 0 0 packet t) (λ w. done (
      if w.failed
      then w.tx
      else record w.tx { shard_original_no_fec = w.tx.shard_original_no_fec + 1 }))

  abbrev pub advance_slot : ℕ → ℕ
  advance_slot i = if i + 1 == 30 then 0 else i + 1

  abbrev pub advance_seq : ℕ → ℕ
  advance_seq seq = if (seq + 1) % 4294967296 == 0 then 1 else (seq + 1) % 4294967296

  -- The new slot and the next sequence number.
  abbrev pub next_chunk : TxChunk → Tx → Tx
  next_chunk c t =
      let t1 = set_slot t.current_slot c t in
      let t2 = set_slot (advance_slot t.current_slot) new_tx_chunk t1 in
      record t2 {
        current_slot = advance_slot t.current_slot;
        sent_this_epoch = t.sent_this_epoch + 1;
        shard_fec = t.shard_fec + 1;
        next_seq = advance_seq t.next_seq;
      }

  abbrev pub with_remaining : TxChunk → Bool → Tx → Option ℕ → Result Tx
  with_remaining c more t none = panic
  with_remaining c more t (some remain) =
      done (next_chunk (record c { enabled = more; initial_remain_shard = remain }) t)

  abbrev pub finish_with : TxChunk → Tx → Result Constructed → Result Tx
  finish_with c t panic = panic
  finish_with c t (done r) =
      let c1 : TxChunk = record c { ef = r.facility } in
      and_write (pack_and_send t.next_seq r.id r.encoded t) (λ w.
        if w.failed
        then done (record (set_slot t.current_slot c1 w.tx) { returned = true })
        else with_remaining c1 r.more w.tx (max_shard_yield_remaining r.facility))

  unfoldable pub finish_this_seq : Tx → Result Tx
  finish_this_seq t =
      let c = t.ring_buffer t.current_slot in
      finish_with c t (construct_reconstruct_shard libs c.ef)

  abbrev pub fec_with : ℕ → TxChunk → Tx → Result Constructed → Result Tx
  fec_with i c t panic = panic
  fec_with i c t (done r) =
      let c1 : TxChunk = record c { ef = r.facility } in
      and_write (pack_and_send c.seq r.id r.encoded t) (λ w. done (
        if w.failed
        then set_slot i c1 w.tx
        else record (set_slot i (record c1 { enabled = r.more }) w.tx) {
          shard_fec = w.tx.shard_fec + 1;
        }))

  -- `sendFECPacket`, whose answer is not looked at.
  unfoldable pub send_fec_packet : ℕ → Tx → Result Tx
  send_fec_packet i t =
      let c = t.ring_buffer i in fec_with i c t (construct_reconstruct_shard libs c.ef)

  abbrev pub and_then_tx : Result Tx → (Tx → Result Tx) → Result Tx
  and_then_tx panic k = panic
  and_then_tx (done t) k = k t

  abbrev pub added_to : TxChunk → Tx → Result DataAdded → Result Tx
  added_to c t panic = panic
  added_to c t (done a) =
      let c1 : TxChunk = record c {
        ef = a.facility;
        data_shard_within = c.data_shard_within + 1;
        seq = t.next_seq;
        initial_send_epoch_seq = t.epoch_seq;
        initial_remain_shard = 0;
      } in
      and_write (pack_and_send t.next_seq a.id a.wrapped (set_slot t.current_slot c1 t)) (λ w.
        let t1 = w.tx in
        let t2 : Tx = record t1 {
          shard_original = t1.shard_original + 1;
          sent_this_epoch = t1.sent_this_epoch + 1;
        } in
        if w.failed
        then done (record t1 { returned = true })
        else if leb 40 c1.data_shard_within
        then finish_this_seq t2
        else done t2)

  -- A packet from `TxChan`.
  unfoldable pub tx_packet : List ℕ → Tx → Result Tx
  tx_packet packet t =
      let c = t.ring_buffer t.current_slot in
      if not t.fec_enabled
      then tx_without_fec packet t
      else added_to c t (add_data libs packet c.ef)

  -- The loops over `sendingGuidance`: one pass gives what is left and whether there was any.
  abbrev pub one_pass : List ℕ → ℕ → Tx → Result Tx
  one_pass [] i t = done t
  one_pass (zero ∷ guidance) i t = one_pass guidance (i + 1) t
  one_pass (suc n ∷ guidance) i t = and_then_tx (send_fec_packet i t) (one_pass guidance (i + 1))

  abbrev pub less_one : List ℕ → List ℕ
  less_one [] = []
  less_one (n ∷ guidance) = (n - 1) ∷ less_one guidance

  abbrev pub none_left : List ℕ → Bool
  none_left [] = true
  none_left (zero ∷ guidance) = none_left guidance
  none_left (suc n ∷ guidance) = false

  -- Fuel: a pass for each parity shard that is to be sent, at least.
  unfoldable pub passes : ℕ → List ℕ → Tx → Result Tx
  passes zero guidance t = done t
  passes (suc fuel) guidance t =
      let rest = passes fuel (less_one guidance) in
      if none_left guidance then done t else and_then_tx (one_pass guidance 0 t) rest

  abbrev pub end_epoch : Tx → Tx
  end_epoch t = record t { epoch_seq = t.epoch_seq + 1; sent_this_epoch = 0 }

  abbrev pub send_released : ℕ → List ℕ → Tx → Result Tx
  send_released fuel guidance t =
      and_then_tx (if ltb t.sent_this_epoch 40 then passes fuel guidance t else done t)
        (λ s. done (end_epoch s))

  -- `pochTimer` fires. The guidance is asked of the state after the chunk that is finished.
  unfoldable pub tx_epoch : ℕ → (Tx → List ℕ) → Tx → Result Tx
  tx_epoch fuel guidance t =
      and_then_tx
        (if (t.ring_buffer t.current_slot).data_shard_within == 0
          then done t
          else finish_this_seq t)
        (λ s. if s.returned then done s else send_released fuel (guidance s) s)

  unfoldable pub tx_event : TxEvent → Tx → Result Tx
  tx_event (from_tx_chan packet) t = tx_packet packet t
  tx_event (from_no_fec_chan packet) t = tx_without_fec packet t
  tx_event (epoch fuel guidance) t = tx_epoch fuel guidance t
  tx_event (boost enabled) t = done (record t { fec_enabled = enabled })

  -- The loop of `Tx`, until it returns.
  unfoldable pub tx_events : List TxEvent → Tx → Result Tx
  tx_events [] t = done t
  tx_events (e ∷ events) t =
      let next = tx_events events in if t.returned then done t else and_then_tx (tx_event e t) next
