-- ===== src/Fec/Parts.antt =====
-- Buffers of which each slot is empty or has the shard that belongs there.
use vlite.Base.{
  ℕ, zero, suc, ◌+◌, ◌-◌, ◌≤◌, ◌<◌, max, ◌≡◌, refl, sym, ap, some_eq, arith, List, [], ◌∷◌, ◌++◌,
  map, Option, none, some, true, false, length, get_elem?, replicate, All, length-append,
  length-replicate,
}
use vlite.Fec.Facility.{grown, shard_at, put_shard, is_nil, max_size, fill_up, match_shards}

abbrev pub IsSlot : Option (List ℕ) → List ℕ → Type 0
IsSlot none x = Unit {0}
IsSlot (some y) x = y ≡ x

-- A buffer that may end before the shards do.
abbrev pub IsPart : List (Option (List ℕ)) → List (List ℕ) → Type 0
IsPart [] xs = Unit {0}
IsPart (s ∷ b) [] = ⊥
IsPart (s ∷ b) (x ∷ xs) = IsSlot s x × IsPart b xs

abbrev pub present : List (Option (List ℕ)) → ℕ
present [] = 0
present (none ∷ b) = present b
present (some x ∷ b) = suc (present b)

pub length-IsPart :
    (b : List (Option (List ℕ))) (xs : List (List ℕ)) → IsPart b xs → length b ≤ length xs
length-IsPart [] xs part = omega arith
length-IsPart (s ∷ b) [] part = absurd part
length-IsPart (s ∷ b) (x ∷ xs) (slot, part) = omega (arith, length-IsPart b xs part)

nils-IsPart : (n : ℕ) (xs : List (List ℕ)) → n ≤ length xs → IsPart (replicate n none) xs
nils-IsPart zero xs fits = tt
nils-IsPart (suc n) [] fits = absurd (omega (arith, fits))
nils-IsPart (suc n) (x ∷ xs) fits = (tt, nils-IsPart n xs (omega (arith, fits)))

append_nils-IsPart :
    (b : List (Option (List ℕ))) (xs : List (List ℕ)) (n : ℕ)
    → IsPart b xs
    → length b + n ≤ length xs
    → IsPart (b ++ replicate n none) xs
append_nils-IsPart [] xs n part fits = nils-IsPart n xs (omega (arith, fits))
append_nils-IsPart (s ∷ b) [] n part fits = absurd part
append_nils-IsPart (s ∷ b) (x ∷ xs) n (slot, part) fits =
    (slot, append_nils-IsPart b xs n part (omega (arith, fits)))

pub grown-IsPart :
    (n : ℕ) (b : List (Option (List ℕ))) (xs : List (List ℕ))
    → IsPart b xs
    → n ≤ length xs
    → IsPart (grown n b) xs
unfolding grown
grown-IsPart n b xs part fits =
    let shorter = length-IsPart b xs part in
    append_nils-IsPart b xs (n - length b) part (omega (arith, fits, shorter))

pub present-append : (b c : List (Option (List ℕ))) → present (b ++ c) ≡ present b + present c
present-append [] c = omega arith
present-append (none ∷ b) c = present-append b c
present-append (some x ∷ b) c = omega (arith, present-append b c)

pub max_size-append :
    (b c : List (Option (List ℕ))) → max_size (b ++ c) ≡ max (max_size b) (max_size c)
max_size-append [] c = omega arith
max_size-append (s ∷ b) c = omega (arith, max_size-append b c)

pub nils-empty : (n : ℕ) → (present (replicate n none) ≡ 0) × (max_size (replicate n none) ≡ 0)
nils-empty zero = (refl, refl)
nils-empty (suc n) = let (p, m) = nils-empty n in (p, omega (arith, m))

pub grown-length : (n : ℕ) (b : List (Option (List ℕ))) → n ≤ length (grown n b)
unfolding grown
grown-length n b = omega (
  arith,
  length-append b (replicate (n - length b) none),
  length-replicate {A = Option (List ℕ)} (n - length b) none,
)

pub grown-present : (n : ℕ) (b : List (Option (List ℕ))) → present (grown n b) ≡ present b
unfolding grown
grown-present n b =
    let nils = (nils-empty (n - length b)).0 in
    omega (arith, present-append b (replicate (n - length b) none), nils)

pub grown-max_size : (n : ℕ) (b : List (Option (List ℕ))) → max_size (grown n b) ≡ max_size b
unfolding grown
grown-max_size n b =
    let nils = (nils-empty (n - length b)).1 in
    omega (arith, max_size-append b (replicate (n - length b) none), nils)

pub put-IsPart :
    (b : List (Option (List ℕ))) (xs : List (List ℕ)) (i : ℕ) (x : List ℕ)
    → IsPart b xs
    → get_elem? xs i ≡ some x
    → IsPart (put_shard b i x) xs
put-IsPart [] xs i x part at = tt
put-IsPart (s ∷ b) [] i x part at = absurd part
put-IsPart (s ∷ b) (y ∷ xs) zero x (slot, part) at = (sym (some_eq at), part)
put-IsPart (s ∷ b) (y ∷ xs) (suc i) x (slot, part) at = (slot, put-IsPart b xs i x part at)

-- A shard in an empty slot.
pub put-present :
    (b : List (Option (List ℕ))) (i : ℕ) (x : List ℕ)
    → i < length b
    → is_nil (shard_at b i) ≡ true
    → present (put_shard b i x) ≡ present b + 1
put-present [] i x inside empty = absurd (omega (arith, inside))
put-present (none ∷ b) zero x inside empty = omega arith
put-present (some y ∷ b) zero x inside empty = absurd (ground arith)
put-present (none ∷ b) (suc i) x inside empty = put-present b i x (omega (arith, inside)) empty
put-present (some y ∷ b) (suc i) x inside empty =
    omega (arith, put-present b i x (omega (arith, inside)) empty)

pub put-max_size :
    (b : List (Option (List ℕ))) (i : ℕ) (x : List ℕ)
    → i < length b
    → is_nil (shard_at b i) ≡ true
    → max_size (put_shard b i x) ≡ max (max_size b) (length x)
put-max_size [] i x inside empty = absurd (omega (arith, inside))
put-max_size (none ∷ b) zero x inside empty = omega arith
put-max_size (some y ∷ b) zero x inside empty = absurd (ground arith)
put-max_size (s ∷ b) (suc i) x inside empty =
    omega (arith, put-max_size b i x (omega (arith, inside)) empty)

-- A shard that is there has its size counted.
pub shard-max_size :
    (b : List (Option (List ℕ))) (xs : List (List ℕ)) (i : ℕ) (x : List ℕ)
    → IsPart b xs
    → get_elem? xs i ≡ some x
    → is_nil (shard_at b i) ≡ false
    → length x ≤ max_size b
shard-max_size [] xs i x part at there = absurd (ground arith)
shard-max_size (s ∷ b) [] i x part at there = absurd part
shard-max_size (none ∷ b) (y ∷ xs) zero x part at there = absurd (ground arith)
shard-max_size (some z ∷ b) (y ∷ xs) zero x (slot, part) at there =
    omega (arith, ap length slot, ap length (some_eq at))
shard-max_size (s ∷ b) (y ∷ xs) (suc i) x (slot, part) at there =
    omega (arith, shard-max_size b xs i x part at there)

pub max_size-IsPart :
    (b : List (Option (List ℕ))) (xs : List (List ℕ)) (n : ℕ)
    → IsPart b xs
    → All (λ (x : List ℕ). length x ≤ n) xs
    → max_size b ≤ n
max_size-IsPart [] xs n part small = omega arith
max_size-IsPart (s ∷ b) [] n part small = absurd part
max_size-IsPart (none ∷ b) (x ∷ xs) n (slot, part) (le, small) =
    omega (arith, max_size-IsPart b xs n part small)
max_size-IsPart (some y ∷ b) (x ∷ xs) n (slot, part) (le, small) =
    let same = ap length slot in omega (arith, max_size-IsPart b xs n part small, same, le)

-- Shards of one size.
pub match-IsPart :
    (n : ℕ) (b : List (Option (List ℕ))) (xs : List (List ℕ))
    → IsPart b xs
    → IsPart (match_shards true n b) (map (fill_up n) xs)
match-IsPart n [] xs part = tt
match-IsPart n (s ∷ b) [] part = absurd part
match-IsPart n (none ∷ b) (x ∷ xs) (slot, part) = (tt, match-IsPart n b xs part)
match-IsPart n (some y ∷ b) (x ∷ xs) (slot, part) = (ap (fill_up n) slot, match-IsPart n b xs part)

pub match-present :
    (n : ℕ) (b : List (Option (List ℕ))) → present (match_shards true n b) ≡ present b
match-present n [] = refl
match-present n (none ∷ b) = match-present n b
match-present n (some y ∷ b) = omega (arith, match-present n b)

pub length-match_shards :
    (n : ℕ) (b : List (Option (List ℕ))) → length (match_shards true n b) ≡ length b
length-match_shards n [] = refl
length-match_shards n (none ∷ b) = ap suc (length-match_shards n b)
length-match_shards n (some y ∷ b) = ap suc (length-match_shards n b)
