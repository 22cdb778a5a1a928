-- ===== src/Fec/Sequence.antt =====
-- The sequence numbers of a sender.
use vlite.Base.{
  ℕ, zero, suc, ◌+◌, ◌≤◌, ◌<◌, arith, List, [], ◌∷◌, Option, none, some, Bool, true, not, ltb, leb,
  ◌==◌, if◌then◌else◌, if_rule,
}
use vlite.Proto.{Codec}
use vlite.Fec.Facility.{
  Libraries, Result, done, panic, DataAdded, add_data, Constructed, construct_reconstruct_shard,
  max_shard_yield_remaining,
}
use vlite.Fec.Rx.{PacketWireHead}
use vlite.Fec.Tx.{
  TxChunk, Tx, set_slot, new_tx, PacketWrite, pack_and_send, and_write, tx_without_fec,
  with_remaining, finish_with, finish_this_seq, fec_with, send_fec_packet, and_then_tx, added_to,
  tx_packet, one_pass, passes, less_one, none_left, send_released, tx_epoch, end_epoch, TxEvent,
  from_tx_chan, from_no_fec_chan, epoch, boost, tx_event, tx_events,
}

-- A sequence number of 32 bits that is not 0, which stands for packets without error correction, and a
-- slot of the ring.
pub record HasSeq (t : Tx) : Type 0 where
  pub positive : 1 ≤ t.next_seq
  pub word : t.next_seq < 4294967296
  pub slot : t.current_slot < 30

-- What holds of the state after, if there was no panic.
abbrev pub Holds : {A : Type 0} → (A → Type 0) → Result A → Type 0
Holds P panic = Unit {0}
Holds P (done a) = P a

abbrev Keeps : Result Tx → Type 0
Keeps = Holds HasSeq

and_then_tx-Holds :
    (libs : Libraries) (codec : Codec PacketWireHead) (answers : ℕ → Bool) (o : Result Tx)
    (k : Tx → Result Tx)
    → Keeps o
    → ((t : Tx) → HasSeq t → Keeps (k t))
    → Keeps (and_then_tx libs codec answers o k)
and_then_tx-Holds libs codec answers panic k holds next = tt
and_then_tx-Holds libs codec answers (done t) k holds next = next t holds

new_tx-HasSeq : HasSeq new_tx
unfolding new_tx
new_tx-HasSeq = record { positive = omega arith; word = omega arith; slot = omega arith }

module _ (libs : Libraries) (codec : Codec PacketWireHead) (answers : ℕ → Bool) where
  and_write-Holds :
      (o : Result PacketWrite) (k : PacketWrite → Result Tx)
      → Holds (λ (w : PacketWrite). HasSeq w.tx) o
      → ((w : PacketWrite) → HasSeq w.tx → Keeps (k w))
      → Keeps (and_write libs codec answers o k)
  and_write-Holds panic k holds next = tt
  and_write-Holds (done w) k holds next = next w holds

  pack_and_send-HasSeq :
      (seq id : ℕ) (wd : List ℕ) (t : Tx)
      → HasSeq t
      → Holds (λ (w : PacketWrite). HasSeq w.tx) (pack_and_send libs codec answers seq id wd t)
  unfolding pack_and_send
  pack_and_send-HasSeq seq id wd t h =
      if_rule (Holds (λ (w : PacketWrite). HasSeq w.tx))
        (not (codec.pack (record { seq = seq; id = id })).no_error) tt
        (if_rule (Holds (λ (w : PacketWrite). HasSeq w.tx)) (answers t.writes)
          (record { positive = h.positive; word = h.word; slot = h.slot })
          (record { positive = h.positive; word = h.word; slot = h.slot }))

  tx_without_fec-HasSeq :
      (p : List ℕ) (t : Tx) → HasSeq t → Keeps (tx_without_fec libs codec answers p t)
  unfolding tx_without_fec
  tx_without_fec-HasSeq p t h =
      and_write-Holds (pack_and_send libs codec answers 0 0 p t)
        (λ w. done (
          if w.failed
          then w.tx
          else record w.tx { shard_original_no_fec = w.tx.shard_original_no_fec + 1 }))
        (pack_and_send-HasSeq 0 0 p t h)
        (λ w k.
          if_rule HasSeq w.failed k
            (record { positive = k.positive; word = k.word; slot = k.slot }))

  with_remaining-HasSeq :
      (c : TxChunk) (more : Bool) (t : Tx) (o : Option ℕ)
      → HasSeq t
      → Keeps (with_remaining libs codec answers c more t o)
  with_remaining-HasSeq c more t none h = tt
  with_remaining-HasSeq c more t (some remain) h =
      let inside = h.slot in
      record { positive = ground arith; word = ground arith; slot = ground arith }

  finish_with-HasSeq :
      (c : TxChunk) (t : Tx) (o : Result Constructed)
      → HasSeq t
      → Keeps (finish_with libs codec answers c t o)
  finish_with-HasSeq c t panic h = tt
  finish_with-HasSeq c t (done r) h =
      let c1 : TxChunk = record c { ef = r.facility } in
      and_write-Holds (pack_and_send libs codec answers t.next_seq r.id r.encoded t)
        (λ w.
          if w.failed
          then done (record (set_slot t.current_slot c1 w.tx) { returned = true })
          else with_remaining libs codec answers c1 r.more w.tx
              (max_shard_yield_remaining r.facility))
        (pack_and_send-HasSeq t.next_seq r.id r.encoded t h)
        (λ w k.
          if_rule Keeps w.failed (record { positive = k.positive; word = k.word; slot = k.slot })
            (with_remaining-HasSeq c1 r.more w.tx (max_shard_yield_remaining r.facility) k))

  finish_this_seq-HasSeq : (t : Tx) → HasSeq t → Keeps (finish_this_seq libs codec answers t)
  unfolding finish_this_seq
  finish_this_seq-HasSeq t h =
      finish_with-HasSeq (t.ring_buffer t.current_slot) t
        (construct_reconstruct_shard libs (t.ring_buffer t.current_slot).ef) h

  fec_with-HasSeq :
      (i : ℕ) (c : TxChunk) (t : Tx) (o : Result Constructed)
      → HasSeq t
      → Keeps (fec_with libs codec answers i c t o)
  fec_with-HasSeq i c t panic h = tt
  fec_with-HasSeq i c t (done r) h =
      let c1 : TxChunk = record c { ef = r.facility } in
      and_write-Holds (pack_and_send libs codec answers c.seq r.id r.encoded t)
        (λ w. done (
          if w.failed
          then set_slot i c1 w.tx
          else record (set_slot i (record c1 { enabled = r.more }) w.tx) {
            shard_fec = w.tx.shard_fec + 1;
          }))
        (pack_and_send-HasSeq c.seq r.id r.encoded t h)
        (λ w k.
          if_rule HasSeq w.failed (record { positive = k.positive; word = k.word; slot = k.slot })
            (record { positive = k.positive; word = k.word; slot = k.slot }))

  send_fec_packet-HasSeq :
      (i : ℕ) (t : Tx) → HasSeq t → Keeps (send_fec_packet libs codec answers i t)
  unfolding send_fec_packet
  send_fec_packet-HasSeq i t h =
      fec_with-HasSeq i (t.ring_buffer i) t (construct_reconstruct_shard libs (t.ring_buffer i).ef)
        h

  added_to-HasSeq :
      (c : TxChunk) (t : Tx) (o : Result DataAdded)
      → HasSeq t
      → Keeps (added_to libs codec answers c t o)
  added_to-HasSeq c t panic h = tt
  added_to-HasSeq c t (done a) h =
      let c1 : TxChunk = record c {
        ef = a.facility;
        data_shard_within = c.data_shard_within + 1;
        seq = t.next_seq;
        initial_send_epoch_seq = t.epoch_seq;
        initial_remain_shard = 0;
      } in
      let next : PacketWrite → Tx = λ w. record w.tx {
        shard_original = w.tx.shard_original + 1;
        sent_this_epoch = w.tx.sent_this_epoch + 1;
      } in
      and_write-Holds
        (pack_and_send libs codec answers t.next_seq a.id a.wrapped (set_slot t.current_slot c1 t))
        (λ w.
          if w.failed
          then done (record w.tx { returned = true })
          else if leb 40 c1.data_shard_within
          then finish_this_seq libs codec answers (next w)
          else done (next w))
        (pack_and_send-HasSeq t.next_seq a.id a.wrapped (set_slot t.current_slot c1 t)
          (record { positive = h.positive; word = h.word; slot = h.slot }))
        (λ w k.
          if_rule Keeps w.failed (record { positive = k.positive; word = k.word; slot = k.slot })
            (if_rule Keeps (leb 40 c1.data_shard_within)
              (finish_this_seq-HasSeq (next w)
                (record { positive = k.positive; word = k.word; slot = k.slot }))
              (record { positive = k.positive; word = k.word; slot = k.slot })))

  tx_packet-HasSeq : (p : List ℕ) (t : Tx) → HasSeq t → Keeps (tx_packet libs codec answers p t)
  unfolding tx_packet
  tx_packet-HasSeq p t h = if_rule Keeps (not t.fec_enabled) (tx_without_fec-HasSeq p t h) (
      added_to-HasSeq (t.ring_buffer t.current_slot) t
        (add_data libs p (t.ring_buffer t.current_slot).ef) h)

  one_pass-HasSeq :
      (guidance : List ℕ) (i : ℕ) (t : Tx)
      → HasSeq t
      → Keeps (one_pass libs codec answers guidance i t)
  one_pass-HasSeq [] i t h = h
  one_pass-HasSeq (zero ∷ guidance) i t h = one_pass-HasSeq guidance (i + 1) t h
  one_pass-HasSeq (suc n ∷ guidance) i t h =
      and_then_tx-Holds libs codec answers (send_fec_packet libs codec answers i t)
        (one_pass libs codec answers guidance (i + 1)) (send_fec_packet-HasSeq i t h)
        (one_pass-HasSeq guidance (i + 1))

  passes-HasSeq :
      (fuel : ℕ) (guidance : List ℕ) (t : Tx)
      → HasSeq t
      → Keeps (passes libs codec answers fuel guidance t)
  unfolding passes
  passes-HasSeq zero guidance t h = h
  passes-HasSeq (suc fuel) guidance t h = if_rule Keeps (none_left libs codec answers guidance) h (
      and_then_tx-Holds libs codec answers (one_pass libs codec answers guidance 0 t)
        (passes libs codec answers fuel (less_one libs codec answers guidance))
        (one_pass-HasSeq guidance 0 t h)
        (passes-HasSeq fuel (less_one libs codec answers guidance)))

  tx_epoch-HasSeq :
      (fuel : ℕ) (guidance : Tx → List ℕ) (t : Tx)
      → HasSeq t
      → Keeps (tx_epoch libs codec answers fuel guidance t)
  unfolding tx_epoch
  tx_epoch-HasSeq fuel guidance t h =
      and_then_tx-Holds libs codec answers
        (if (t.ring_buffer t.current_slot).data_shard_within == 0
          then done t
          else finish_this_seq libs codec answers t)
        (λ s. if s.returned then done s else send_released libs codec answers fuel (guidance s) s)
        (if_rule Keeps ((t.ring_buffer t.current_slot).data_shard_within == 0) h
          (finish_this_seq-HasSeq t h))
        (λ s k. if_rule Keeps s.returned k (
          and_then_tx-Holds libs codec answers
            (if ltb s.sent_this_epoch 40
              then passes libs codec answers fuel (guidance s) s
              else done s)
            (λ u. done (end_epoch libs codec answers u))
            (if_rule Keeps (ltb s.sent_this_epoch 40) (passes-HasSeq fuel (guidance s) s k) k)
            (λ u l. record { positive = l.positive; word = l.word; slot = l.slot })))

  tx_event-HasSeq : (e : TxEvent) (t : Tx) → HasSeq t → Keeps (tx_event libs codec answers e t)
  unfolding tx_event
  tx_event-HasSeq (from_tx_chan p) t h = tx_packet-HasSeq p t h
  tx_event-HasSeq (from_no_fec_chan p) t h = tx_without_fec-HasSeq p t h
  tx_event-HasSeq (epoch fuel guidance) t h = tx_epoch-HasSeq fuel guidance t h
  tx_event-HasSeq (boost enabled) t h = record {
    positive = h.positive;
    word = h.word;
    slot = h.slot;
  }

  tx_events-keep :
      (es : List TxEvent) (t : Tx) → HasSeq t → Keeps (tx_events libs codec answers es t)
  unfolding tx_events
  tx_events-keep [] t h = h
  tx_events-keep (e ∷ es) t h = if_rule Keeps t.returned h (
      and_then_tx-Holds libs codec answers (tx_event libs codec answers e t)
        (tx_events libs codec answers es) (tx_event-HasSeq e t h) (tx_events-keep es))

  -- From its start, whatever packets come, however its epochs release parity messages, and whatever
  -- writes fail, a sender that has not panicked has a next sequence number of 32 bits other than 0,
  -- which stands for packets without error correction, and its slot is one of the 30 of the ring.
  pub tx_events-HasSeq : (es : List TxEvent) → Holds HasSeq (tx_events libs codec answers es new_tx)
  tx_events-HasSeq es = tx_events-keep es new_tx new_tx-HasSeq
