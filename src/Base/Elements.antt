-- ===== src/Base/Elements.antt =====
-- Where the elements of a concatenation and of a mapped list are.
use Prim.Native.Nat.{ℕ, zero, suc, ◌+◌, ◌<◌}
use mathlib.Core.Path.{◌≡◌, refl, sym, ap, subst, ◌∙◌}
use mathlib.Core.Logic.{◌⊎◌, inl, inr}
use mathlib.Core.List.{List, [], ◌∷◌, ◌++◌, map}
use mathlib.Core.Option.{some}
use vlite.Base.Tests.{some_eq}
use vlite.Base.Lists.{length, get_elem?, All}
use native.Mathlib.Omega.{arith}

module _ {ℓ} {A : Type ℓ} where
  pub get_elem?-lt : (xs : List A) (i : ℕ) (x : A) → get_elem? xs i ≡ some x → i < length xs
  get_elem?-lt [] i x at = absurd (ground arith)
  get_elem?-lt (y ∷ xs) zero x at = omega arith
  get_elem?-lt (y ∷ xs) (suc i) x at = omega (arith, get_elem?-lt xs i x at)

  pub get_elem?-All {κ} :
      (P : A → Type κ) (xs : List A) (i : ℕ) (x : A) → All P xs → get_elem? xs i ≡ some x → P x
  get_elem?-All P [] i x holds at = absurd (ground arith)
  get_elem?-All P (y ∷ xs) zero x (p, ps) at = subst P (some_eq at) p
  get_elem?-All P (y ∷ xs) (suc i) x (p, ps) at = get_elem?-All P xs i x ps at

  pub All-append {κ} : (P : A → Type κ) (xs ys : List A) → All P xs → All P ys → All P (xs ++ ys)
  All-append P [] ys p q = q
  All-append P (x ∷ xs) ys (p, ps) q = (p, All-append P xs ys ps q)

  pub get_elem?-left :
      (xs ys : List A) (i : ℕ) (x : A) → get_elem? xs i ≡ some x → get_elem? (xs ++ ys) i ≡ some x
  get_elem?-left [] ys i x at = absurd (ground arith)
  get_elem?-left (y ∷ xs) ys zero x at = at
  get_elem?-left (y ∷ xs) ys (suc i) x at = get_elem?-left xs ys i x at

  pub get_elem?-right :
      (xs ys : List A) (j : ℕ) → get_elem? (xs ++ ys) (length xs + j) ≡ get_elem? ys j
  get_elem?-right [] ys j = ap (get_elem? ys) {x = 0 + j} {y = j} (omega arith)
  get_elem?-right (y ∷ xs) ys j =
      ap (get_elem? (y ∷ xs ++ ys)) {x = suc (length xs) + j} {y = suc (length xs + j)}
        (omega arith)
      ∙ get_elem?-right xs ys j

  -- An element of a concatenation is in one of its halves.
  pub get_elem?-append_cases :
      (xs ys : List A) (i : ℕ) (x : A)
      → get_elem? (xs ++ ys) i ≡ some x
      → (get_elem? xs i ≡ some x) ⊎ ((j : ℕ) × (i ≡ length xs + j) × (get_elem? ys j ≡ some x))
  get_elem?-append_cases [] ys i x at = inr (i, omega arith, at)
  get_elem?-append_cases (y ∷ xs) ys zero x at = inl at
  get_elem?-append_cases (y ∷ xs) ys (suc i) x at = elim (get_elem?-append_cases xs ys i x at) [
    | inl here ↦ inl here
    | inr (j, place, there) ↦ inr (j, omega (arith, place), there)
  ]

  -- Every index below the length has an element.
  pub get_elem?-total : (xs : List A) (i : ℕ) → i < length xs → (x : A) × (get_elem? xs i ≡ some x)
  get_elem?-total [] i inside = absurd (omega (arith, inside))
  get_elem?-total (y ∷ xs) zero inside = (y, refl)
  get_elem?-total (y ∷ xs) (suc i) inside = get_elem?-total xs i (omega (arith, inside))

module _ {ℓ κ} {A : Type ℓ} {B : Type κ} (f : A → B) where
  pub get_elem?-map :
      (xs : List A) (i : ℕ) (x : A) → get_elem? xs i ≡ some x → get_elem? (map f xs) i ≡ some (f x)
  get_elem?-map [] i x at = absurd (ground arith)
  get_elem?-map (y ∷ xs) zero x at = ap (λ z. some (f z)) (some_eq at)
  get_elem?-map (y ∷ xs) (suc i) x at = get_elem?-map xs i x at

  pub get_elem?-map_cases :
      (xs : List A) (i : ℕ) (y : B)
      → get_elem? (map f xs) i ≡ some y
      → (x : A) × (get_elem? xs i ≡ some x) × (y ≡ f x)
  get_elem?-map_cases [] i y at = absurd (ground arith)
  get_elem?-map_cases (x ∷ xs) zero y at = (x, refl, sym (some_eq at))
  get_elem?-map_cases (x ∷ xs) (suc i) y at = get_elem?-map_cases xs i y at

  pub length-map : (xs : List A) → length (map f xs) ≡ length xs
  length-map [] = refl
  length-map (x ∷ xs) = ap suc (length-map xs)

  pub All-map {μ} : (P : B → Type μ) (xs : List A) → All (λ x. P (f x)) xs → All P (map f xs)
  All-map P [] holds = tt
  All-map P (x ∷ xs) (p, ps) = (p, All-map P xs ps)
