-- ===== src/Fec/Transfer.antt =====
-- A chunk from its sender to a receiver, over a network that loses messages.
use vlite.Base.{
  ℕ, ◌≤◌, ◌<◌, ◌≡◌, ◌≢◌, sym, ap, subst, ◌∙◌, arith, List, [], ◌∷◌, ◌++◌, map, none, some, Bool,
  true, false, length, get_elem?, All, length-append,
}
use vlite.Base.Elements.{get_elem?-lt, length-map}
use vlite.Proto.{Codec, RoundTrips}
use vlite.Fec.Facility.{Libraries, new_facility, Result, done, panic}
use vlite.Fec.Chunk.{
  IsChunk, messages, data_shards, parity_shards, parity_header, parity_bounds, length-data_shards,
  length-parity_shards,
}
use vlite.Fec.Slots.{distinct, is_among}
use vlite.Fec.Rx.{PacketWireHead, Bitmaps, Rx, rx_messages}
use vlite.Fec.Bits.{HoldsBits, IsIn}
use vlite.Fec.Sent.{Message, ids_of, chunk_messages, chunk_messages-IsMessage}
use vlite.Fec.Arrivals.{IsSent, Fits, arrival, rx_messages-All}

-- The messages that the network does not lose.
abbrev pub kept : List Bool → List Message → List Message
kept [] ms = []
kept (b ∷ bs) [] = []
kept (true ∷ bs) (m ∷ ms) = m ∷ kept bs ms
kept (false ∷ bs) (m ∷ ms) = kept bs ms

abbrev messages_of : Result (List Message) → List Message
messages_of panic = []
messages_of (done ms) = ms

kept-All :
    (P : Message → Type 0) (bs : List Bool) (ms : List Message) → All P ms → All P (kept bs ms)
kept-All P [] ms all = tt
kept-All P (b ∷ bs) [] all = tt
kept-All P (true ∷ bs) (m ∷ ms) (p, all) = (p, kept-All P bs ms all)
kept-All P (false ∷ bs) (m ∷ ms) (p, all) = kept-All P bs ms all

All-pair :
    (P Q R : Message → Type 0) (ms : List Message)
    → ((m : Message) → P m → Q m → R m)
    → All P ms
    → All Q ms
    → All R ms
All-pair P Q R [] next ps qs = tt
All-pair P Q R (m ∷ ms) next (p, ps) (q, qs) = (next m p q, All-pair P Q R ms next ps qs)

module _ {B : Type 0} (libs : Libraries) (bitmaps : Bitmaps B) (holds : HoldsBits bitmaps)
    (parity : ℕ) (ps : List (List ℕ)) (chunk : IsChunk libs parity ps)
    (codec : Codec PacketWireHead) (seq : ℕ) (seq_set : seq ≢ 0)
    (heads : (i : ℕ) → i < 65536 → RoundTrips codec (record { seq = seq; id = i })) where
  small_id : (i : ℕ) (m : List ℕ) → get_elem? (messages libs parity ps chunk) i ≡ some m → i < 65536
  small_id i m at =
      let with_header : List ℕ → List ℕ = λ shard. parity_header libs parity ps chunk ++ shard in
      let (_, few, many) = parity_bounds (length ps) parity chunk.table in
      omega (
        arith,
        few,
        many,
        get_elem?-lt (messages libs parity ps chunk) i m at,
        length-append (data_shards libs parity ps chunk)
            (map with_header (parity_shards libs parity ps chunk)),
        length-map with_header (parity_shards libs parity ps chunk),
        length-data_shards libs parity ps chunk,
        length-parity_shards libs parity ps chunk,
      )

  -- A sender makes the messages of a chunk of at most 40 packets, and the network loses some. Where as
  -- many messages are left as there are packets, and one of them is a parity message, the receiver
  -- delivers every packet and does not panic. The messages that are left have at most 1650 bytes with
  -- their heads, which is what the receiver reads of a message. The chunk is new to the receiver and does
  -- not expire, the libraries are as `IsChunk` and `HoldsBits` say, and the heads are read as they were
  -- packed, and the sender is asked for parity messages no more often than the table has them.
  pub rx_messages-chunk_messages :
      (m : ℕ) (ms : List Message) (bs : List Bool) (k i : ℕ) (s : Rx B)
      → m ≤ parity
      → chunk_messages libs ps m new_facility ≡ done ms
      → length ps ≤ 40
      → s.reassemble_buffer seq ≡ none
      → All (Fits libs bitmaps holds parity ps chunk codec seq seq_set heads) (kept bs ms)
      → length ps ≤ distinct k (ids_of (kept bs ms))
      → length ps ≤ i
      → is_among i (ids_of (kept bs ms)) ≡ true
      → (t : Rx B) × (rx_messages libs bitmaps codec
            (map (arrival libs bitmaps holds parity ps chunk codec seq seq_set heads) (kept bs ms))
            s
          ≡ done t)
        × All (λ p. IsIn p t.delivered) ps
  rx_messages-chunk_messages m ms bs k i s fits sent small free reads many after there =
      let P : Message → Type 0 =
        λ n. get_elem? (messages libs parity ps chunk) n.id ≡ some n.payload in
      let (ms', eq, are, ids) = chunk_messages-IsMessage libs parity ps chunk m fits in
      let same : ms' ≡ ms = ap messages_of (sym eq ∙ sent) in
      rx_messages-All libs bitmaps holds parity ps chunk codec seq seq_set heads (kept bs ms) k s
        small free
        (All-pair P (Fits libs bitmaps holds parity ps chunk codec seq seq_set heads)
          (IsSent libs bitmaps holds parity ps chunk codec seq seq_set heads) (kept bs ms)
          (λ n at read. (small_id n.id n.payload at, at, read))
          (kept-All P bs ms (subst (All P) same are)) reads)
        many i after there
