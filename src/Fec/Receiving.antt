-- ===== src/Fec/Receiving.antt =====
-- The facility of a receiver, which is given the messages of one chunk in some order.
use vlite.Base.{
  ℕ, ◌+◌, ◌≤◌, ◌<◌, ◌≡◌, refl, sym, subst, ◌∙◌, arith, List, some, true, if◌then◌else◌, length,
  get_elem?, ◌⊎◌, inl, inr, Bool-cases, if_rule_with,
}
use vlite.Fec.Facility.{
  Facility, new_facility, add_parity, add_packet, grown, shard_at, put_shard, is_nil, max_size,
}
use vlite.Fec.Parts.{
  IsPart, present, grown-IsPart, grown-present, grown-max_size, put-IsPart, put-present,
  put-max_size, shard-max_size,
}

-- The buffer that `AddShard` makes for an id.
abbrev pub grown_for : ℕ → Facility → Facility
grown_for i f = record f { buffer = grown (i + 1) f.buffer }

-- What the facility of a receiver has of a chunk whose shards are `xs`: the number of data shards is
-- known from the first parity shard on, which has the size of the chunk.
pub record Receives (xs : List (List ℕ)) (total size : ℕ) (f : Facility) : Type 0 where
  pub part : IsPart f.buffer xs
  pub counts : present f.buffer ≡ f.data_input + f.shard_input
  pub known :
      (f.total_data_shards ≡ 0) ⊎ ((f.total_data_shards ≡ total) × (size ≤ max_size f.buffer))

pub new_facility-Receives :
    (xs : List (List ℕ)) (total size : ℕ) → Receives xs total size new_facility
new_facility-Receives xs total size = record { part = tt; counts = omega arith; known = inl refl }

module _ (xs : List (List ℕ)) (total size : ℕ) where
  -- The buffer grows up to the id of a message.
  pub grow-Receives :
      (f : Facility) (n : ℕ)
      → Receives xs total size f
      → n ≤ length xs
      → Receives xs total size (record f { buffer = grown n f.buffer })
  grow-Receives f n has fits = record {
    part = grown-IsPart n f.buffer xs has.part fits;
    counts = grown-present n f.buffer ∙ has.counts;
    known = elim has.known [
      | inl unknown ↦ inl unknown
      | inr (same, large) ↦ inr (same, omega (arith, large, grown-max_size n f.buffer))
    ];
  }

  put_known :
      (f : Facility) (i : ℕ) (x : List ℕ)
      → i < length f.buffer
      → is_nil (shard_at f.buffer i) ≡ true
      → Receives xs total size f
      → (f.total_data_shards ≡ 0)
        ⊎ ((f.total_data_shards ≡ total) × (size ≤ max_size (put_shard f.buffer i x)))
  put_known f i x inside empty has = elim has.known [
    | inl unknown ↦ inl unknown
    | inr (same, large) ↦ inr (same, omega (arith, large, put-max_size f.buffer i x inside empty))
  ]

  pub add_packet-Receives :
      (f : Facility) (i : ℕ) (x : List ℕ)
      → Receives xs total size f
      → i < length f.buffer
      → get_elem? xs i ≡ some x
      → Receives xs total size (add_packet f i x)
  add_packet-Receives f i x has inside at =
      if_rule_with (Receives xs total size) (is_nil (shard_at f.buffer i))
        (λ empty. record {
          part = put-IsPart f.buffer xs i x has.part at;
          counts = omega (arith, put-present f.buffer i x inside empty, has.counts);
          known = put_known f i x inside empty has;
        })
        has

  pub add_parity-Receives :
      (f : Facility) (i : ℕ) (x : List ℕ)
      → Receives xs total size f
      → i < length f.buffer
      → get_elem? xs i ≡ some x
      → length x ≡ size
      → Receives xs total size (add_parity f i total x)
  add_parity-Receives f i x has inside at long = elim (Bool-cases (is_nil (shard_at f.buffer i))) [
    | inl empty ↦
        subst (λ c. Receives xs total size (if c then stored_parity else seen_parity)) (sym empty)
          (record {
            part = put-IsPart f.buffer xs i x has.part at;
            counts = omega (arith, put-present f.buffer i x inside empty, has.counts);
            known = inr (refl, omega (arith, put-max_size f.buffer i x inside empty, long));
          })
    | inr there ↦
        subst (λ c. Receives xs total size (if c then stored_parity else seen_parity)) (sym there)
          (record {
            part = has.part;
            counts = has.counts;
            known =
                inr (refl, omega (arith, shard-max_size f.buffer xs i x has.part at there, long));
          })
  ]
    where
      seen_parity : Facility
      seen_parity = record f { total_data_shards = total }

      stored_parity : Facility
      stored_parity = record f {
        buffer = put_shard f.buffer i x;
        shard_input = f.shard_input + 1;
        total_data_shards = total;
      }
