-- ===== src/Tests/Packets.antt =====
-- Examples for the masks and for the check against replays.
use vlite.Base.{
  ℕ, ◌≡◌, ◌≤◌, refl, ap, ◌∙◌, arith, List, [], ◌∷◌, some, Bool, true, false, ◌||◌, ◌&&◌, ◌==◌,
  ==_refl, if◌then◌else◌, if_rule, length, replicate, length-replicate,
}
use vlite.Mask.{
  panics, constant_xor, prepending, layered, prepend_and_xor, conn_write, conn_read, received,
  buffer_size,
}
use vlite.Mask.RoundTrip.{
  Undoes, UndoesAll, prepending-Undoes, layered-Undoes, conn_read-conn_write,
}
use vlite.Mask.Long.{constant_xor-panics}
use vlite.Replay.{FilterOps, AntiReplayWindow, new_window, check, check_all}
use vlite.Replay.Rejects.{Remembers, check-rejects}

abbrev pattern : List ℕ
pattern = 170 ∷ 85 ∷ 15 ∷ []

conn_read-conn_write_example :
    (sent : List ℕ) × (conn_write (prepend_and_xor pattern (1 ∷ 2 ∷ [])) (7 ∷ 8 ∷ []) ≡ some sent)
    × (length sent ≡ 4)
    × (conn_read (prepend_and_xor pattern (1 ∷ 2 ∷ [])) 1500 sent ≡ received (7 ∷ 8 ∷ []))
conn_read-conn_write_example =
    conn_read-conn_write pattern (1 ∷ 2 ∷ []) (7 ∷ 8 ∷ []) 1500 (omega arith) (omega arith)
      (omega arith) (omega arith)

layered-Undoes_example : Undoes (layered (prepending (5 ∷ []) ∷ prepending (6 ∷ []) ∷ [])) (7 ∷ [])
unfolding UndoesAll
layered-Undoes_example =
    layered-Undoes (prepending (5 ∷ []) ∷ prepending (6 ∷ []) ∷ []) (7 ∷ [])
      (prepending-Undoes (5 ∷ []) (7 ∷ []), (prepending-Undoes (6 ∷ []) _, _))

abbrev long_packet : List ℕ
long_packet = replicate 1601 7

long_pattern : buffer_size ≤ length {A = ℕ} (replicate 1600 9)
long_pattern = omega (arith, length-replicate {A = ℕ} 1600 9)

constant_xor-panics_example : (constant_xor (replicate 1600 9)).mask long_packet ≡ panics
constant_xor-panics_example =
    constant_xor-panics (replicate 1600 9) long_packet
      (omega (arith, length-replicate {A = ℕ} 1601 7)) long_pattern

abbrev pub same_bytes : List ℕ → List ℕ → Bool
same_bytes [] [] = true
same_bytes [] (y ∷ ys) = false
same_bytes (x ∷ xs) [] = false
same_bytes (x ∷ xs) (y ∷ ys) = x == y && same_bytes xs ys

abbrev pub member : List ℕ → List (List ℕ) → Bool
member x [] = false
member x (y ∷ ys) = same_bytes x y || member x ys

abbrev pub choose : Bool → List ℕ → List (List ℕ) → Bool × List (List ℕ)
choose b x f = if b then (false, f) else (true, x ∷ f)

-- A filter that keeps every sum.
abbrev pub list_filter : FilterOps (List (List ℕ))
list_filter = record {
  nil_filter = [];
  new_filter = λ size. [];
  insert_unique = λ x f. choose (member x f) x f;
  reset = λ f. [];
}

same_bytes_refl : (x : List ℕ) → same_bytes x x ≡ true
same_bytes_refl [] = refl
same_bytes_refl (x ∷ xs) = rw (==_refl x) (same_bytes_refl xs)

or_true : (a : Bool) → (a || true) ≡ true
or_true true = refl
or_true false = refl

pub list_filter-Remembers : Remembers list_filter
list_filter-Remembers = record {
  Holds = λ x f. member x f ≡ true;
  took = λ x f is. if_took x f (member x f) is;
  keeps = λ x y f has.
      if_rule (λ (r : Bool × List (List ℕ)). member x r.1 ≡ true) (member y f) has
        (ap (λ b. same_bytes x y || b) has ∙ or_true (same_bytes x y));
  refuses = λ x f has. ap (λ (b : Bool). (choose b x f).0) has;
}
  where
    if_took :
        (x : List ℕ) (f : List (List ℕ)) (b : Bool)
        → (choose b x f).0 ≡ true
        → member x (choose b x f).1 ≡ true
    if_took x f true is = cc
    if_took x f false is = ap (λ b. b || member x f) (same_bytes_refl x)

abbrev window : AntiReplayWindow (List (List ℕ))
window = new_window list_filter 60

check-rejects_example :
    (check list_filter 130
      (1 ∷ [])
      (check_all list_filter ((120, 2 ∷ []) ∷ []) (check list_filter 100 (1 ∷ []) window).1)).0
    ≡ false
unfolding check new_window
check-rejects_example =
    check-rejects list_filter list_filter-Remembers (1 ∷ []) 100 window ((120, 2 ∷ []) ∷ []) 130
      (omega arith) refl ((omega arith, omega arith), _) (omega arith) (omega arith)
