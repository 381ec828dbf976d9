-- ===== src/Polls/Scoring/Best.antt =====
-- The best option of internal/polls/scoring.go is the first of the highest score.
use whenweall.Prelude.{
  ℕ, ◌≤◌, ◌<◌, ◌≡◌, refl, ap, ◌⊎◌, inl, inr, Option, none, some, List, [], ◌∷◌, ◌++◌, arith, ltb,
  ltb→lt, All, Bool-cases,
}
use whenweall.Polls.Scoring.{ScoreMap, score_of, best_from, best_option_id}

-- `id` splits the list into options of lower scores before it, and none of a higher one after it.
abbrev pub IsFirstBest : List ℕ → (ℕ → ℕ) → ℕ → Type 0
IsFirstBest ids score id =
    (before : List ℕ) × (after : List ℕ) × (ids ≡ before ++ id ∷ after)
    × All (λ (i : ℕ). score i < score id) before
    × All (λ (i : ℕ). score i ≤ score id) after

best_from-cases :
    (ids : List ℕ) (score : ℕ → ℕ) (b : Option ℕ) (s : ℕ)
    → ((best_from ids score b s ≡ b) × All (λ (i : ℕ). score i ≤ s) ids)
      ⊎ ((id : ℕ) × (best_from ids score b s ≡ some id) × (s < score id) × IsFirstBest ids score id)
unfolding best_from
best_from-cases [] score b s = inl (refl, tt)
best_from-cases (x ∷ xs) score b s = elim (Bool-cases (ltb s (score x))) [
  | inl better ↦ elim (best_from-cases xs score (some x) (score x)) [
    | inl (same, below) ↦ inr (x, rw better same, ltb→lt _ _ better, ([], xs, refl, tt, below))
    | inr (id, found, above, (before, after, split, less, most)) ↦ inr (
      id,
      rw better found,
      omega (arith, ltb→lt _ _ better),
      (x ∷ before, after, ap (λ l. x ∷ l) split, (above, less), most),
    )
  ]
  | inr not_better ↦ elim (best_from-cases xs score b s) [
    | inl (same, below) ↦ inl (rw not_better same, (ground arith, below))
    | inr (id, found, above, (before, after, split, less, most)) ↦ inr (
      id,
      rw not_better found,
      above,
      (x ∷ before, after, ap (λ l. x ∷ l) split, (ground arith, less), most),
    )
  ]
]

-- What bestOptionID returns: nothing exactly if no option has a point, and else the first, in the
-- poll's order, of the options with the highest score, which is above 0.
abbrev pub IsBest : List ℕ → (ℕ → ℕ) → Option ℕ → Type 0
IsBest ids score none = All (λ (i : ℕ). score i ≡ 0) ids
IsBest ids score (some id) = (0 < score id) × IsFirstBest ids score id

All-zero :
    (score : ℕ → ℕ) (ids : List ℕ)
    → All (λ (i : ℕ). score i ≤ 0) ids
    → All (λ (i : ℕ). score i ≡ 0) ids
All-zero score [] h = tt
All-zero score (x ∷ xs) (l, h) = (omega arith, All-zero score xs h)

-- The option that is named best is the first, in the poll's order, of those with the highest
-- score, and that score is above 0; none is named only if no option has a point.
pub best_option_id-IsBest :
    (ids : List ℕ) (scores : ScoreMap)
    → IsBest ids (λ id. (score_of id scores).score) (best_option_id ids scores)
unfolding best_option_id
best_option_id-IsBest ids scores =
    let f : ℕ → ℕ = λ id. (score_of id scores).score in
    elim (best_from-cases ids f none 0) [
      | inl (same, below) ↦ rw same (All-zero f ids below)
      | inr (id, found, above, best) ↦ rw found (above, best)
    ]
