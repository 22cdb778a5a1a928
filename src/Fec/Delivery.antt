-- ===== src/Fec/Delivery.antt =====
-- What the messages of one chunk do to what the receiver has delivered of it.
use vlite.Base.{
  ℕ, ◌+◌, ◌≤◌, ◌<◌, ◌≡◌, ◌≢◌, sym, ap, subst, ◌∙◌, arith, List, [], ◌∷◌, ◌++◌, some, some_eq, true,
  false, ◌==◌, length, get_elem?, take, take_all, inl, inr, Bool-cases, if_rule, if_rule_with,
  ==→eq,
}
use vlite.Base.Elements.{get_elem?-All, get_elem?-lt}
use vlite.Fec.Facility.{
  Libraries, Facility, new_facility, add_packet, add_parity, grown, shard_at, is_nil, Added,
}
use vlite.Fec.Parts.{present, grown-length}
use vlite.Fec.Slots.{grown-slot, grown-take, put-other, put-take_before, put-take_after}
use vlite.Fec.Chunk.{IsPacket, IsChunk, wrapped, stored, parity_header, messages, chunk_size}
use vlite.Fec.Receiving.{grown_for, new_facility-Receives}
use vlite.Fec.Messages.{IsReceiving, add_shard-data, add_shard-parity, add_shard-Receives}
use vlite.Fec.Rx.{Bitmaps}
use vlite.Fec.Bits.{IsIn-left, IsIn-right, HoldsBits, MarksDelivered}

-- The slots other than `i` are filled as before.
pub add_packet-slot :
    (f : Facility) (i j : ℕ) (x : List ℕ)
    → j ≢ i
    → is_nil (shard_at (add_packet (grown_for i f) i x).buffer j) ≡ is_nil (shard_at f.buffer j)
add_packet-slot f i j x ne =
    let b = grown (i + 1) f.buffer in
    if_rule (λ (g : Facility). is_nil (shard_at g.buffer j) ≡ is_nil (shard_at f.buffer j))
      (is_nil (shard_at b i)) (ap is_nil (put-other b i j x ne) ∙ grown-slot (i + 1) f.buffer j)
      (grown-slot (i + 1) f.buffer j)

pub add_parity-slot :
    (f : Facility) (i j total : ℕ) (x : List ℕ)
    → j ≢ i
    → is_nil (shard_at (add_parity (grown_for i f) i total x).buffer j)
      ≡ is_nil (shard_at f.buffer j)
add_parity-slot f i j total x ne =
    let b = grown (i + 1) f.buffer in
    if_rule (λ (g : Facility). is_nil (shard_at g.buffer j) ≡ is_nil (shard_at f.buffer j))
      (is_nil (shard_at b i)) (ap is_nil (put-other b i j x ne) ∙ grown-slot (i + 1) f.buffer j)
      (grown-slot (i + 1) f.buffer j)

abbrev pub CountsData : ℕ → Facility → Type 0
CountsData n f = present (take n f.buffer) ≡ f.data_input

pub add_packet-CountsData :
    (n : ℕ) (f : Facility) (i : ℕ) (x : List ℕ)
    → i < n
    → CountsData n f
    → CountsData n (add_packet (grown_for i f) i x)
add_packet-CountsData n f i x before counted =
    let b = grown (i + 1) f.buffer in
    let same = grown-take (i + 1) n f.buffer in
    if_rule_with (CountsData n) (is_nil (shard_at b i))
      (λ empty. omega (
        arith,
        put-take_before n b i x before (omega (arith, grown-length (i + 1) f.buffer)) empty,
        same,
        counted,
      ))
      (same ∙ counted)

pub add_parity-CountsData :
    (n : ℕ) (f : Facility) (i total : ℕ) (x : List ℕ)
    → n ≤ i
    → CountsData n f
    → CountsData n (add_parity (grown_for i f) i total x)
add_parity-CountsData n f i total x after counted =
    let b = grown (i + 1) f.buffer in
    let same = grown-take (i + 1) n f.buffer in
    if_rule (CountsData n) (is_nil (shard_at b i))
      (ap present (put-take_after n b i x after) ∙ same ∙ counted) (same ∙ counted)

module _ {B : Type 0} (libs : Libraries) (bitmaps : Bitmaps B) (holds : HoldsBits bitmaps)
    (parity : ℕ) (ps : List (List ℕ)) (chunk : IsChunk libs parity ps) where
  -- A chunk that is not done, and what has been delivered: a bit for each packet, and a packet that
  -- is in the buffer has been delivered.
  pub record Delivers (f : Facility) (bitmap : B) (delivered : List (List ℕ)) : Type 0 where
    pub receiving : IsReceiving libs parity ps chunk f
    pub counted : CountsData (length ps) f
    pub marks : MarksDelivered libs bitmaps bitmap delivered 0 ps
    pub here :
        (i : ℕ)
        → i < length ps
        → is_nil (shard_at f.buffer i) ≡ false
        → bitmaps.get_bit i bitmap ≡ some true

  pub new-Delivers :
      (delivered : List (List ℕ))
      → length ps ≤ 40
      → Delivers new_facility (bitmaps.new_bitmap 40) delivered
  new-Delivers delivered small = record {
    receiving =
        new_facility-Receives (stored libs parity ps chunk) (length ps)
          (chunk_size libs parity ps chunk);
    counted = ap present (take_all (length ps) [] (omega arith));
    marks = λ j p at.
        let inside = get_elem?-lt ps j p at in
        (
          false,
          ap (λ n. bitmaps.get_bit n (bitmaps.new_bitmap 40)) {x = 0 + j} {y = j} (omega arith)
              ∙ holds.fresh j (omega (arith, small, inside)),
          λ is. absurd (ground arith),
        );
    here = λ i inside filled. absurd (ground arith);
  }

  -- A data message: its packet is delivered, and its bit set.
  pub data-Delivers :
      (f : Facility) (bitmap : B) (delivered : List (List ℕ)) (i : ℕ) (p : List ℕ)
      → get_elem? ps i ≡ some p
      → get_elem? (messages libs parity ps chunk) i ≡ some (wrapped libs parity ps chunk p)
      → Delivers f bitmap delivered
      → (c : B) × (bitmaps.set_bit i bitmap ≡ some c)
        × Delivers
            (add_packet (grown_for i f) i (wrapped libs parity ps chunk p))
            c
            (delivered ++ p ∷ [])
  data-Delivers f bitmap delivered i p at sent d =
      let m = wrapped libs parity ps chunk p in
      let (bit, marked, _) = d.marks i p at in
      let marked' : bitmaps.get_bit i bitmap ≡ some bit =
        ap (λ n. bitmaps.get_bit n bitmap) {x = i} {y = 0 + i} (omega arith) ∙ marked in
      let (c, set, is_set, others) = holds.sets i bitmap bit marked' in
      let ok = get_elem?-All IsPacket ps i p chunk.packets at in
      let marks' : MarksDelivered libs bitmaps c (delivered ++ p ∷ []) 0 ps = λ j q there.
        elim (Bool-cases (0 + j == i)) [
          | inl is ↦
              let place : j ≡ i = ground arith in
              (
                true,
                ap (λ n. bitmaps.get_bit n c) (==→eq (0 + j) i is) ∙ is_set,
                λ y.
                    IsIn-right q delivered (p ∷ [])
                      (inl (some_eq (sym at ∙ ap (get_elem? ps) (sym place) ∙ there))),
              )
          | inr other ↦
              let (bit_j, marked_j, in_j) = d.marks j q there in
              (
                bit_j,
                others (0 + j) (λ e. ground arith) ∙ marked_j,
                λ y. IsIn-left q delivered (p ∷ []) (in_j y),
              )
        ] in
      let here' : (j : ℕ)
          → j < length ps
          → is_nil (shard_at (add_packet (grown_for i f) i m).buffer j) ≡ false
          → bitmaps.get_bit j c ≡ some true =
        λ j inside filled. elim (Bool-cases (j == i)) [
          | inl is ↦ ap (λ n. bitmaps.get_bit n c) (==→eq j i is) ∙ is_set
          | inr other ↦
              let ne : j ≢ i = λ e. ground arith in
              others j ne ∙ d.here j inside (sym (add_packet-slot f i j m ne) ∙ filled)
        ] in
      (
        c,
        set,
        record {
          receiving =
              subst (λ (r : Added). IsReceiving libs parity ps chunk r.facility)
                (add_shard-data libs parity ps chunk f i p ok)
                (add_shard-Receives libs parity ps chunk f i m sent d.receiving);
          counted = add_packet-CountsData (length ps) f i m (get_elem?-lt ps i p at) d.counted;
          marks = marks';
          here = here';
        },
      )

  -- A parity message delivers nothing.
  pub parity-Delivers :
      (f : Facility) (bitmap : B) (delivered : List (List ℕ)) (i : ℕ) (s : List ℕ)
      → length ps ≤ i
      → get_elem? (messages libs parity ps chunk) i ≡ some (parity_header libs parity ps chunk ++ s)
      → Delivers f bitmap delivered
      → Delivers (add_parity (grown_for i f) i (length ps) s) bitmap delivered
  parity-Delivers f bitmap delivered i s after sent d = record {
    receiving =
        subst (λ (r : Added). IsReceiving libs parity ps chunk r.facility)
          (add_shard-parity libs parity ps chunk f i s)
          (add_shard-Receives libs parity ps chunk f i (parity_header libs parity ps chunk ++ s)
            sent d.receiving);
    counted = add_parity-CountsData (length ps) f i (length ps) s after d.counted;
    marks = d.marks;
    here = λ j inside filled.
        let ne : j ≢ i = λ e. omega (arith, e, after, inside) in
        d.here j inside (sym (add_parity-slot f i j (length ps) s ne) ∙ filled);
  }
