-- ===== src/Fec/Bits.antt =====
-- The packets that a receiver delivers by its bitmap.
use vlite.Base.{
  ℕ, zero, suc, ◌+◌, ◌<◌, ◌≡◌, ◌≢◌, refl, ap, ◌∙◌, arith, List, [], ◌∷◌, ◌++◌, some, Bool, true,
  false, get_elem?, All, ◌⊎◌, inl, inr, Bool-cases,
}
use vlite.Fec.Facility.{Libraries, done}
use vlite.Fec.Rx.{Bitmaps, not_set, unless_set}

abbrev pub IsIn : List ℕ → List (List ℕ) → Type 0
IsIn p [] = ⊥
IsIn p (q ∷ qs) = (q ≡ p) ⊎ IsIn p qs

pub IsIn-left : (p : List ℕ) (xs ys : List (List ℕ)) → IsIn p xs → IsIn p (xs ++ ys)
IsIn-left p [] ys is = absurd is
IsIn-left p (x ∷ xs) ys (inl same) = inl same
IsIn-left p (x ∷ xs) ys (inr is) = inr (IsIn-left p xs ys is)

pub IsIn-right : (p : List ℕ) (xs ys : List (List ℕ)) → IsIn p ys → IsIn p (xs ++ ys)
IsIn-right p [] ys is = is
IsIn-right p (x ∷ xs) ys is = inr (IsIn-right p xs ys is)

IsIn-insert : (p q : List ℕ) (xs ys : List (List ℕ)) → IsIn p (xs ++ ys) → IsIn p (xs ++ q ∷ ys)
IsIn-insert p q [] ys is = inr is
IsIn-insert p q (x ∷ xs) ys (inl same) = inl same
IsIn-insert p q (x ∷ xs) ys (inr is) = inr (IsIn-insert p q xs ys is)

IsIn-inserts :
    (ps : List (List ℕ)) (q : List ℕ) (xs ys : List (List ℕ))
    → All (λ p. IsIn p (xs ++ ys)) ps
    → All (λ p. IsIn p (xs ++ q ∷ ys)) ps
IsIn-inserts [] q xs ys are = tt
IsIn-inserts (p ∷ ps) q xs ys (is, are) = (IsIn-insert p q xs ys is, IsIn-inserts ps q xs ys are)

-- What the library documents: a new bitmap of 40 bits has them unset, and one bit is set at a time.
pub record HoldsBits {B : Type 0} (bitmaps : Bitmaps B) : Type 0 where
  pub fresh : (i : ℕ) → i < 40 → bitmaps.get_bit i (bitmaps.new_bitmap 40) ≡ some false
  pub sets :
      (i : ℕ) (b : B) (x : Bool)
      → bitmaps.get_bit i b ≡ some x
      → (c : B) × (bitmaps.set_bit i b ≡ some c)
        × (bitmaps.get_bit i c ≡ some true)
        × ((j : ℕ) → j ≢ i → bitmaps.get_bit j c ≡ bitmaps.get_bit j b)

module _ {B : Type 0} (libs : Libraries) (bitmaps : Bitmaps B) where
  -- The bit of every packet is there, and where it is set the packet has been delivered.
  abbrev pub MarksDelivered : B → List (List ℕ) → ℕ → List (List ℕ) → Type 0
  MarksDelivered bitmap delivered k qs =
      (j : ℕ) (p : List ℕ)
      → get_elem? qs j ≡ some p
      → (bit : Bool) × (bitmaps.get_bit (k + j) bitmap ≡ some bit) × (bit ≡ true → IsIn p delivered)

  MarksDelivered-tail :
      (bitmap : B) (delivered : List (List ℕ)) (k : ℕ) (q : List ℕ) (qs : List (List ℕ))
      → MarksDelivered bitmap delivered k (q ∷ qs)
      → MarksDelivered bitmap delivered (k + 1) qs
  MarksDelivered-tail bitmap delivered k q qs marks j p at =
      let (bit, here, is) = marks (suc j) p at in
      (
        bit,
        ap (λ n. bitmaps.get_bit n bitmap) {x = k + 1 + j} {y = k + suc j} (omega arith) ∙ here,
        is,
      )

  -- The packets whose bit is not set, after those that have been delivered, are all packets.
  pub not_set-All :
      (bitmap : B) (delivered qs : List (List ℕ)) (k : ℕ)
      → MarksDelivered bitmap delivered k qs
      → (rs : List (List ℕ)) × (not_set libs bitmaps bitmap k qs ≡ done rs)
        × All (λ p. IsIn p (delivered ++ rs)) qs
  not_set-All bitmap delivered [] k marks = ([], refl, tt)
  not_set-All bitmap delivered (q ∷ qs) k marks =
      let (bit, here, is) = marks zero q refl in
      let (rs, eq, are) =
        not_set-All bitmap delivered qs (k + 1)
          (MarksDelivered-tail bitmap delivered k q qs marks) in
      let here' : bitmaps.get_bit k bitmap ≡ some bit =
        ap (λ n. bitmaps.get_bit n bitmap) {x = k} {y = k + 0} (omega arith) ∙ here in
      elim (Bool-cases bit) [
        | inl set ↦ (
          rs,
          ap (λ o. unless_set libs bitmaps o q (not_set libs bitmaps bitmap (k + 1) qs))
                (here' ∙ ap some set)
              ∙ ap (unless_set libs bitmaps (some true) q) eq,
          (IsIn-left q delivered rs (is set), are),
        )
        | inr unset ↦ (
          q ∷ rs,
          ap (λ o. unless_set libs bitmaps o q (not_set libs bitmaps bitmap (k + 1) qs))
                (here' ∙ ap some unset)
              ∙ ap (unless_set libs bitmaps (some false) q) eq,
          (IsIn-right q delivered (q ∷ rs) (inl refl), IsIn-inserts qs q delivered rs are),
        )
      ]
