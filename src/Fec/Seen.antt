-- ===== src/Fec/Seen.antt =====
-- Which messages of a chunk the facility of a receiver has.
use vlite.Base.{
  ℕ, ◌+◌, ◌≤◌, ◌<◌, ◌≡◌, ◌≢◌, refl, sym, ap, subst, ◌∙◌, arith, List, [], ◌∷◌, some, true, false,
  ◌==◌, length, get_elem?, ◌⊎◌, inl, inr, Bool-cases, if_rule, if_rule_both, ==→eq,
}
use vlite.Base.Elements.{get_elem?-All, get_elem?-lt}
use vlite.Fec.Facility.{
  Libraries, Facility, new_facility, Added, add_packet, add_parity, add_shard, grown, shard_at,
  is_nil,
}
use vlite.Fec.Parts.{grown-length}
use vlite.Fec.Slots.{put-slot, is_among}
use vlite.Fec.Chunk.{IsPacket, IsChunk, wrapped, messages}
use vlite.Fec.Receiving.{grown_for}
use vlite.Fec.Messages.{message_cases, add_shard-data, add_shard-parity}
use vlite.Fec.Delivery.{add_packet-slot, add_parity-slot}

abbrev IsFilled : ℕ → Facility → Type 0
IsFilled i f = is_nil (shard_at f.buffer i) ≡ false

grown-inside : (f : Facility) (i : ℕ) → i < length (grown (i + 1) f.buffer)
grown-inside f i = omega (arith, grown-length (i + 1) f.buffer)

add_packet-IsFilled :
    (f : Facility) (i : ℕ) (x : List ℕ) → IsFilled i (add_packet (grown_for i f) i x)
add_packet-IsFilled f i x =
    let b = grown (i + 1) f.buffer in
    if_rule_both (IsFilled i) (is_nil (shard_at b i)) (λ is. put-slot b i x (grown-inside f i))
      (λ filled. filled)

add_parity-IsFilled :
    (f : Facility) (i total : ℕ) (x : List ℕ) → IsFilled i (add_parity (grown_for i f) i total x)
add_parity-IsFilled f i total x =
    let b = grown (i + 1) f.buffer in
    if_rule_both (IsFilled i) (is_nil (shard_at b i)) (λ is. put-slot b i x (grown-inside f i))
      (λ filled. filled)

add_packet-told :
    (f : Facility) (i : ℕ) (x : List ℕ)
    → (add_packet (grown_for i f) i x).total_data_shards ≡ f.total_data_shards
add_packet-told f i x =
    if_rule (λ (g : Facility). g.total_data_shards ≡ f.total_data_shards)
      (is_nil (shard_at (grown (i + 1) f.buffer) i)) refl refl

add_parity-told :
    (f : Facility) (i total : ℕ) (x : List ℕ)
    → (add_parity (grown_for i f) i total x).total_data_shards ≡ total
add_parity-told f i total x =
    if_rule (λ (g : Facility). g.total_data_shards ≡ total)
      (is_nil (shard_at (grown (i + 1) f.buffer) i)) refl refl

-- The messages of some numbers have come, and a parity message has told the number of packets.
pub record Seen (n : ℕ) (ids : List ℕ) (f : Facility) : Type 0 where
  pub filled : (i : ℕ) → is_among i ids ≡ true → is_nil (shard_at f.buffer i) ≡ false
  pub told : (i : ℕ) → is_among i ids ≡ true → n ≤ i → f.total_data_shards ≢ 0

pub new_facility-Seen : (n : ℕ) → Seen n [] new_facility
new_facility-Seen n = record {
  filled = λ i there. absurd (ground arith);
  told = λ i there. absurd (ground arith);
}

among_cases :
    (i j : ℕ) (ids : List ℕ)
    → is_among i (j ∷ ids) ≡ true
    → (i ≡ j) ⊎ ((i ≢ j) × (is_among i ids ≡ true))
among_cases i j ids there = elim (Bool-cases (i == j)) [
  | inl same ↦ inl (==→eq i j same)
  | inr other ↦ inr (λ e. ground arith, ground arith)
]

module _ (libs : Libraries) (parity : ℕ) (ps : List (List ℕ)) (chunk : IsChunk libs parity ps) where
  abbrev Sees : ℕ → List ℕ → Facility → Type 0
  Sees i ids g = Seen (length ps) (i ∷ ids) g

  data-Sees :
      (ids : List ℕ) (f : Facility) (i : ℕ) (x : List ℕ)
      → i < length ps
      → Seen (length ps) ids f
      → Sees i ids (add_packet (grown_for i f) i x)
  data-Sees ids f i x before seen = record {
    filled = λ j there. elim (among_cases j i ids there) [
      | inl same ↦
          subst (λ k. IsFilled k (add_packet (grown_for i f) i x)) (sym same)
            (add_packet-IsFilled f i x)
      | inr (ne, old) ↦ add_packet-slot f i j x ne ∙ seen.filled j old
    ];
    told = λ j there after zero_total. elim (among_cases j i ids there) [
      | inl same ↦ absurd (omega (arith, same, before, after))
      | inr (ne, old) ↦ seen.told j old after (sym (add_packet-told f i x) ∙ zero_total)
    ];
  }

  parity-Sees :
      (ids : List ℕ) (f : Facility) (i : ℕ) (s : List ℕ)
      → Seen (length ps) ids f
      → Sees i ids (add_parity (grown_for i f) i (length ps) s)
  parity-Sees ids f i s seen = record {
    filled = λ j there. elim (among_cases j i ids there) [
      | inl same ↦
          subst (λ k. IsFilled k (add_parity (grown_for i f) i (length ps) s)) (sym same)
            (add_parity-IsFilled f i (length ps) s)
      | inr (ne, old) ↦ add_parity-slot f i j (length ps) s ne ∙ seen.filled j old
    ];
    told = λ j there after zero_total.
        let some_packets = chunk.some_packets in
        omega (arith, add_parity-told f i (length ps) s, zero_total, some_packets);
  }

  -- A message is seen once it has come.
  pub add_shard-Seen :
      (ids : List ℕ) (f : Facility) (i : ℕ) (m : List ℕ)
      → get_elem? (messages libs parity ps chunk) i ≡ some m
      → Seen (length ps) ids f
      → Seen (length ps) (i ∷ ids) (add_shard libs i m f).facility
  add_shard-Seen ids f i m at seen = elim (message_cases libs parity ps chunk i m at) [
    | inl (p, there, same, kept) ↦
        let ok = get_elem?-All IsPacket ps i p chunk.packets there in
        subst (λ (r : Added). Sees i ids r.facility)
          (sym (ap (λ k. add_shard libs i k f) same ∙ add_shard-data libs parity ps chunk f i p ok))
          (data-Sees ids f i (wrapped libs parity ps chunk p) (get_elem?-lt ps i p there) seen)
    | inr (s, after, same, kept, sized) ↦
        subst (λ (r : Added). Sees i ids r.facility)
          (sym (ap (λ k. add_shard libs i k f) same ∙ add_shard-parity libs parity ps chunk f i s))
          (parity-Sees ids f i s seen)
  ]
