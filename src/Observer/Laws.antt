-- ===== src/Observer/Laws.antt =====
-- The observers are a strictly ascending list, and membership is that of a set.
use smarty.Base.{
  if◌then◌else◌, ◌/=◌, ℕ, ◌+◌, ◌≤◌, ◌≡◌, refl, arith, Bool, false, not, ◌&&◌, ◌||◌, ◌==◌, List, [],
  ◌∷◌,
}
use smarty.Observer.{Notice, Notice, insert, erase}

-- Ascending, from `low` on
abbrev pub Ascends : ℕ → List ℕ → Type 0
Ascends low [] = Unit {0}
Ascends low (x ∷ xs) = (low ≤ x) × Ascends (x + 1) xs

abbrev pub contains : List ℕ → ℕ → Bool
contains [] a = false
contains (x ∷ xs) a = a == x || contains xs a

pub insert-Ascends :
    (a low : ℕ) (xs : List ℕ) → low ≤ a → Ascends low xs → Ascends low (insert a xs)
unfolding insert
insert-Ascends a low [] h s = (h, tt)
insert-Ascends a low (x ∷ xs) h s = ground (arith, insert-Ascends a (x + 1) xs)

pub contains-insert : (a b : ℕ) (xs : List ℕ) → contains (insert a xs) b ≡ (b == a || contains xs b)
unfolding insert
contains-insert a b [] = refl
contains-insert a b (x ∷ xs) = ground (arith, contains-insert a b xs)

pub contains-erase :
    (a b : ℕ) (xs : List ℕ) → contains (erase a xs) b ≡ (not (b == a) && contains xs b)
unfolding erase
contains-erase a b [] = ground arith
contains-erase a b (x ∷ xs) = ground (arith, contains-erase a b xs)

Ascends-mono : (low high : ℕ) (xs : List ℕ) → low ≤ high → Ascends high xs → Ascends low xs
Ascends-mono low high [] h s = tt
Ascends-mono low high (x ∷ xs) h s = (omega arith, s.1)

pub erase-Ascends : (a low : ℕ) (xs : List ℕ) → Ascends low xs → Ascends low (erase a xs)
unfolding erase
erase-Ascends a low [] s = tt
erase-Ascends a low (x ∷ xs) s =
    ground (arith, erase-Ascends a (x + 1) xs s.1, Ascends-mono low (x + 1) (erase a xs))

-- What is new of one word
abbrev pub news : (ℕ → Notice) → ℕ → ℕ → List Notice
news kind old new = if old /= new then kind new ∷ [] else []
