-- ===== src/Fec/Slots.antt =====
-- Which slots of a buffer are empty, among the first ones.
use vlite.Base.{
  ℕ, zero, suc, ◌+◌, ◌-◌, ◌≤◌, ◌<◌, ◌≡◌, ◌≢◌, refl, ap, arith, List, [], ◌∷◌, ◌++◌, Option, none,
  some, Bool, true, false, ◌==◌, if◌then◌else◌, Bool-cases, inl, inr, length, take, replicate,
}
use vlite.Fec.Facility.{grown, shard_at, put_shard, is_nil}
use vlite.Fec.Parts.{present}

nils-slot : (n i : ℕ) → is_nil (shard_at (replicate n none) i) ≡ true
nils-slot zero i = refl
nils-slot (suc n) zero = refl
nils-slot (suc n) (suc i) = nils-slot n i

append_nils-slot :
    (b : List (Option (List ℕ))) (n i : ℕ)
    → is_nil (shard_at (b ++ replicate n none) i) ≡ is_nil (shard_at b i)
append_nils-slot [] n i = nils-slot n i
append_nils-slot (s ∷ b) n zero = refl
append_nils-slot (s ∷ b) n (suc i) = append_nils-slot b n i

-- Growing fills no slot.
pub grown-slot :
    (n : ℕ) (b : List (Option (List ℕ))) (i : ℕ)
    → is_nil (shard_at (grown n b) i) ≡ is_nil (shard_at b i)
unfolding grown
grown-slot n b i = append_nils-slot b (n - length b) i

present-take_nils : (k n : ℕ) → present (take k (replicate n none)) ≡ 0
present-take_nils zero n = refl
present-take_nils (suc k) zero = refl
present-take_nils (suc k) (suc n) = present-take_nils k n

append_nils-take :
    (k : ℕ) (b : List (Option (List ℕ))) (n : ℕ)
    → present (take k (b ++ replicate n none)) ≡ present (take k b)
append_nils-take zero b n = refl
append_nils-take (suc k) [] n = present-take_nils (suc k) n
append_nils-take (suc k) (none ∷ b) n = append_nils-take k b n
append_nils-take (suc k) (some x ∷ b) n = ap suc (append_nils-take k b n)

pub grown-take :
    (n k : ℕ) (b : List (Option (List ℕ))) → present (take k (grown n b)) ≡ present (take k b)
unfolding grown
grown-take n k b = append_nils-take k b (n - length b)

-- A shard in a slot leaves the other slots.
pub put-other :
    (b : List (Option (List ℕ))) (i j : ℕ) (x : List ℕ)
    → j ≢ i
    → shard_at (put_shard b i x) j ≡ shard_at b j
put-other [] i j x ne = refl
put-other (s ∷ b) zero zero x ne = absurd (ne refl)
put-other (s ∷ b) zero (suc j) x ne = refl
put-other (s ∷ b) (suc i) zero x ne = refl
put-other (s ∷ b) (suc i) (suc j) x ne = put-other b i j x (λ same. ne (ap suc same))

pub put-take_before :
    (k : ℕ) (b : List (Option (List ℕ))) (i : ℕ) (x : List ℕ)
    → i < k
    → i < length b
    → is_nil (shard_at b i) ≡ true
    → present (take k (put_shard b i x)) ≡ present (take k b) + 1
put-take_before zero b i x before inside empty = absurd (omega (arith, before))
put-take_before (suc k) [] i x before inside empty = absurd (omega (arith, inside))
put-take_before (suc k) (none ∷ b) zero x before inside empty = omega arith
put-take_before (suc k) (some y ∷ b) zero x before inside empty = absurd (ground arith)
put-take_before (suc k) (none ∷ b) (suc i) x before inside empty =
    put-take_before k b i x (omega (arith, before)) (omega (arith, inside)) empty
put-take_before (suc k) (some y ∷ b) (suc i) x before inside empty =
    omega (arith, put-take_before k b i x (omega (arith, before)) (omega (arith, inside)) empty)

pub put-take_after :
    (k : ℕ) (b : List (Option (List ℕ))) (i : ℕ) (x : List ℕ)
    → k ≤ i
    → take k (put_shard b i x) ≡ take k b
put-take_after zero b i x after = refl
put-take_after (suc k) [] i x after = refl
put-take_after (suc k) (s ∷ b) zero x after = absurd (omega (arith, after))
put-take_after (suc k) (s ∷ b) (suc i) x after =
    ap (◌∷◌ s) (put-take_after k b i x (omega (arith, after)))

present-take_le : (k : ℕ) (b : List (Option (List ℕ))) → present (take k b) ≤ k
present-take_le zero b = omega arith
present-take_le (suc k) [] = omega arith
present-take_le (suc k) (none ∷ b) = omega (arith, present-take_le k b)
present-take_le (suc k) (some x ∷ b) = omega (arith, present-take_le k b)

-- Where as many of the first slots have a shard as there are, each has.
pub full-slot :
    (k : ℕ) (b : List (Option (List ℕ))) (i : ℕ)
    → k ≤ present (take k b)
    → i < k
    → is_nil (shard_at b i) ≡ false
full-slot zero b i full inside = absurd (omega (arith, inside))
full-slot (suc k) [] i full inside = absurd (omega (arith, full))
full-slot (suc k) (none ∷ b) i full inside = absurd (omega (arith, full, present-take_le k b))
full-slot (suc k) (some x ∷ b) zero full inside = refl
full-slot (suc k) (some x ∷ b) (suc i) full inside =
    full-slot k b i (omega (arith, full)) (omega (arith, inside))

pub put-slot :
    (b : List (Option (List ℕ))) (i : ℕ) (x : List ℕ)
    → i < length b
    → is_nil (shard_at (put_shard b i x) i) ≡ false
put-slot [] i x inside = absurd (omega (arith, inside))
put-slot (s ∷ b) zero x inside = refl
put-slot (s ∷ b) (suc i) x inside = put-slot b i x (omega (arith, inside))

one_if_filled : Bool → ℕ
one_if_filled true = 0
one_if_filled false = 1

-- The slots below `k` with a shard, by their numbers.
take-present :
    (k : ℕ) (b : List (Option (List ℕ)))
    → present (take (suc k) b) ≡ present (take k b) + one_if_filled (is_nil (shard_at b k))
unfolding one_if_filled
take-present zero [] = refl
take-present zero (none ∷ b) = refl
take-present zero (some x ∷ b) = refl
take-present (suc k) [] = refl
take-present (suc k) (none ∷ b) = take-present k b
take-present (suc k) (some x ∷ b) = omega (arith, take-present k b)

pub present-take : (k : ℕ) (b : List (Option (List ℕ))) → present (take k b) ≤ present b
present-take zero b = omega arith
present-take (suc k) [] = omega arith
present-take (suc k) (none ∷ b) = present-take k b
present-take (suc k) (some x ∷ b) = omega (arith, present-take k b)

abbrev pub is_among : ℕ → List ℕ → Bool
is_among i [] = false
is_among i (j ∷ js) = if i == j then true else is_among i js

-- How many of the numbers below `k` are in a list.
abbrev pub distinct : ℕ → List ℕ → ℕ
distinct zero ids = 0
distinct (suc k) ids = (if is_among k ids then 1 else 0) + distinct k ids

-- A buffer with a shard in the slot of each number of a list has as many shards.
pub distinct-present :
    (k : ℕ) (ids : List ℕ) (b : List (Option (List ℕ)))
    → ((i : ℕ) → is_among i ids ≡ true → is_nil (shard_at b i) ≡ false)
    → distinct k ids ≤ present (take k b)
unfolding one_if_filled
distinct-present zero ids b filled = omega arith
distinct-present (suc k) ids b filled = elim (Bool-cases (is_among k ids)) [
  | inl there ↦
      let slot = ap one_if_filled (filled k there) in
      let count = ap {B = ℕ} (λ c. if c then 1 else 0) there in
      omega (arith, distinct-present k ids b filled, take-present k b, slot, count)
  | inr gone ↦
      let count = ap {B = ℕ} (λ c. if c then 1 else 0) gone in
      omega (arith, distinct-present k ids b filled, take-present k b, count)
]
