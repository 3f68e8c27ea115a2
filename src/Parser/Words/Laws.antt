-- ===== src/Parser/Words/Laws.antt =====
-- Splitting a text into words and putting it together again (`split` of
-- src/server/event/event_parser.cpp).
use smarty.Base.{
  ℕ, ◌≡◌, refl, arith, Bool, true, false, not, ◌&&◌, ◌==◌, List, [], ◌∷◌, ◌++◌, Text, All,
  Bool-cases, inl, inr,
}
use smarty.Parser.Words.{extend_first, split_from, split}

-- The words with the delimiter between them
abbrev pub join : ℕ → List Text → Text
join delim [] = []
join delim (w ∷ []) = w
join delim (w ∷ v ∷ ws) = w ++ delim ∷ join delim (v ∷ ws)

abbrev pub lacks : ℕ → Text → Bool
lacks delim [] = true
lacks delim (c ∷ cs) = not (c == delim) && lacks delim cs

join-extend_first :
    (delim c : ℕ) (ws : List Text) → join delim (extend_first c ws) ≡ c ∷ join delim ws
join-extend_first delim c [] = refl
join-extend_first delim c (w ∷ []) = refl
join-extend_first delim c (w ∷ v ∷ ws) = refl

split_from-cons :
    (delim : ℕ) (cs : Text) → (w : Text) × (ws : List Text) × (split_from delim cs ≡ w ∷ ws)
unfolding split_from
split_from-cons delim [] = ([], [], refl)
split_from-cons delim (c ∷ cs) =
    let (w, ws, first) = split_from-cons delim cs in
    elim (Bool-cases (c == delim)) [
      | inl here ↦ ([], split_from delim cs, rw here)
      | inr other ↦ (c ∷ w, ws, rw (other, first))
    ]

join-split_from : (delim : ℕ) (cs : Text) → join delim (split_from delim cs) ≡ cs
unfolding split_from
join-split_from delim [] = refl
join-split_from delim (c ∷ cs) =
    let rest = join-split_from delim cs in
    let (w, ws, first) = split_from-cons delim cs in
    elim (Bool-cases (c == delim)) [
      | inl here ↦ rw (here, first) (ground (arith, rest, first))
      | inr other ↦ rw (other, join-extend_first delim c (split_from delim cs), rest)
    ]

extend_first-lacks :
    (delim c : ℕ) (ws : List Text)
    → (c == delim) ≡ false
    → All (λ w. lacks delim w ≡ true) ws
    → All (λ w. lacks delim w ≡ true) (extend_first c ws)
extend_first-lacks delim c [] other fit = (rw other, tt)
extend_first-lacks delim c (w ∷ ws) other (this, these) = (rw other this, these)

split_from-lacks : (delim : ℕ) (cs : Text) → All (λ w. lacks delim w ≡ true) (split_from delim cs)
unfolding split_from
split_from-lacks delim [] = (refl, tt)
split_from-lacks delim (c ∷ cs) =
    let rest = split_from-lacks delim cs in
    elim (Bool-cases (c == delim)) [
      | inl here ↦ rw here (refl, rest)
      | inr other ↦ rw other (extend_first-lacks delim c (split_from delim cs) other rest)
    ]

-- The words of a text, with the delimiter between them, are the text again, and no word holds the
-- delimiter.
pub join-split :
    (delim : ℕ) (cs : Text)
    → (join delim (split delim cs) ≡ cs) × All (λ w. lacks delim w ≡ true) (split delim cs)
unfolding split
join-split delim [] = (refl, tt)
join-split delim (c ∷ cs) = (join-split_from delim (c ∷ cs), split_from-lacks delim (c ∷ cs))
