-- ===== src/Polls/Scoring.antt =====
-- internal/polls/scoring.go: the tally of a datetime or options poll, and its best option.
pub mod Tally
pub mod Best
use whenweall.Prelude.{
  ℕ, ◌+◌, Bool, Option, none, some, List, [], ◌∷◌, map, ltb, ◌==◌, if◌then◌else◌,
}
use whenweall.Polls.Store.{Answer, yes, if_need_be, no, Vote}

pub record OptionScore : Type 0 where
  pub yes : ℕ
  pub if_need_be : ℕ
  pub no : ℕ
  pub score : ℕ

abbrev pub zero_score : OptionScore
zero_score = record { yes = 0; if_need_be = 0; no = 0; score = 0 }

abbrev pub answer_points : Answer → ℕ
answer_points yes = 2
answer_points if_need_be = 1
answer_points no = 0

-- The switch on the answer.
abbrev pub count_answer : Answer → OptionScore → OptionScore
count_answer yes e = record e { yes = e.yes + 1 }
count_answer if_need_be e = record e { if_need_be = e.if_need_be + 1 }
count_answer no e = record e { no = e.no + 1 }

abbrev pub add_answer : Answer → OptionScore → OptionScore
add_answer a e =
    let counted = count_answer a e in record counted { score = counted.score + answer_points a }

-- A Go map from option ids; a missing key reads as the zero score.
abbrev pub ScoreMap : Type 0
ScoreMap = List (ℕ × OptionScore)

unfoldable pub score_of : ℕ → ScoreMap → OptionScore
score_of id [] = zero_score
score_of id ((j, e) ∷ m) = if j == id then e else score_of id m

-- A vote for an option that is not in the map is skipped.
unfoldable pub add_vote : Vote → ScoreMap → ScoreMap
add_vote v [] = []
add_vote v ((j, e) ∷ m) =
    let rest = add_vote v m in
    if j == v.option_id then (j, add_answer v.answer e) ∷ rest else (j, e) ∷ rest

unfoldable pub add_votes : List Vote → ScoreMap → ScoreMap
unfolding add_vote
add_votes [] m = m
add_votes (v ∷ vs) m = add_votes vs (add_vote v m)

unfoldable pub score_options : List ℕ → List Vote → ScoreMap
unfolding add_votes
score_options ids votes = add_votes votes (map (λ id. (id, zero_score)) ids)

-- The loop, with the variables `bestID` and `bestScore`.
unfoldable pub best_from : List ℕ → (ℕ → ℕ) → Option ℕ → ℕ → Option ℕ
best_from [] score best_id best_score = best_id
best_from (id ∷ ids) score best_id best_score =
    best_from ids score (if ltb best_score (score id) then some id else best_id)
      (if ltb best_score (score id) then score id else best_score)

unfoldable pub best_option_id : List ℕ → ScoreMap → Option ℕ
unfolding best_from score_of
best_option_id ids scores = best_from ids (λ id. (score_of id scores).score) none 0
