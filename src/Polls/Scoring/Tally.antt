-- ===== src/Polls/Scoring/Tally.antt =====
-- The one pass over the votes in internal/polls/scoring.go counts what separate counts count.
use whenweall.Prelude.{
  ℕ, ◌+◌, ◌*◌, ◌≡◌, refl, Bool, true, false, ◌&&◌, List, [], ◌∷◌, arith, ◌==◌, any, count_where,
  map, if◌then◌else◌, ap, ◌∙◌,
}
use whenweall.Polls.Store.{Answer, yes, if_need_be, no, Vote, is_for, is_yes_for}
use whenweall.Polls.Scoring.{
  OptionScore, zero_score, add_answer, ScoreMap, score_of, add_vote, add_votes, score_options,
}

abbrev is_if_need_be : Answer → Bool
is_if_need_be yes = false
is_if_need_be if_need_be = true
is_if_need_be no = false

abbrev is_no : Answer → Bool
is_no yes = false
is_no if_need_be = false
is_no no = true

abbrev pub is_if_need_be_for : ℕ → Vote → Bool
is_if_need_be_for id v = is_for id v && is_if_need_be v.answer

abbrev pub is_no_for : ℕ → Vote → Bool
is_no_for id v = is_for id v && is_no v.answer

-- The score of an option, said by counts over all the votes.
abbrev pub counted : ℕ → List Vote → OptionScore
counted id votes = record {
  yes = count_where (is_yes_for id) votes;
  if_need_be = count_where (is_if_need_be_for id) votes;
  no = count_where (is_no_for id) votes;
  score = 2 * count_where (is_yes_for id) votes + count_where (is_if_need_be_for id) votes;
}

abbrev plus : OptionScore → OptionScore → OptionScore
plus e f = record {
  yes = e.yes + f.yes;
  if_need_be = e.if_need_be + f.if_need_be;
  no = e.no + f.no;
  score = e.score + f.score;
}

abbrev has_key : ℕ → ScoreMap → Bool
has_key id m = any (λ (e : ℕ × OptionScore). e.0 == id) m

has_key-add_vote : (id : ℕ) (v : Vote) (m : ScoreMap) → has_key id (add_vote v m) ≡ has_key id m
unfolding add_vote
has_key-add_vote id v [] = refl
has_key-add_vote id v ((j, e) ∷ m) = ground (arith, has_key-add_vote id v m)

score_of-add_vote :
    (id : ℕ) (v : Vote) (m : ScoreMap)
    → has_key id m ≡ true
    → score_of id (add_vote v m)
      ≡ (if v.option_id == id then add_answer v.answer (score_of id m) else score_of id m)
unfolding score_of add_vote
score_of-add_vote id v [] h = cc
score_of-add_vote id v ((j, e) ∷ m) h = ground (arith, score_of-add_vote id v m)

plus-counted :
    (id : ℕ) (v : Vote) (vs : List Vote) (e : OptionScore)
    → plus (if v.option_id == id then add_answer v.answer e else e) (counted id vs)
      ≡ plus e (counted id (v ∷ vs))
plus-counted id v vs e = by_answer v.answer
  where
    by_answer :
        (a : Answer)
        → plus (if v.option_id == id then add_answer a e else e) (counted id vs)
          ≡ plus e (counted id (record v { answer = a } ∷ vs))
    by_answer yes = ground arith
    by_answer if_need_be = ground arith
    by_answer no = ground arith

score_of-add_votes :
    (id : ℕ) (vs : List Vote) (m : ScoreMap)
    → has_key id m ≡ true
    → score_of id (add_votes vs m) ≡ plus (score_of id m) (counted id vs)
unfolding add_votes
score_of-add_votes id [] m h = ground arith
score_of-add_votes id (v ∷ vs) m h =
    score_of-add_votes id vs (add_vote v m) (has_key-add_vote id v m ∙ h)
    ∙ ap (λ e. plus e (counted id vs)) (score_of-add_vote id v m h)
    ∙ plus-counted id v vs (score_of id m)

starts : (id : ℕ) (ids : List ℕ) → score_of id (map (λ i. (i, zero_score)) ids) ≡ zero_score
unfolding score_of
starts id [] = refl
starts id (i ∷ ids) = ground (arith, starts id ids)

has_key-start :
    (id : ℕ) (ids : List ℕ) → has_key id (map (λ i. (i, zero_score)) ids) ≡ any (λ i. i == id) ids
has_key-start id [] = refl
has_key-start id (i ∷ ids) = ground (arith, has_key-start id ids)

-- The one pass over the votes gives each of the poll's options what counting its yes, if-need-be
-- and no votes one by one gives, and the score of two points for a yes and one for an if-need-be;
-- votes for other options change nothing.
pub score_options-counted :
    (id : ℕ) (ids : List ℕ) (votes : List Vote)
    → any (λ i. i == id) ids ≡ true
    → score_of id (score_options ids votes) ≡ counted id votes
unfolding score_options
score_options-counted id ids votes h =
    score_of-add_votes id votes (map (λ i. (i, zero_score)) ids) (has_key-start id ids ∙ h)
    ∙ ap (λ e. plus e (counted id votes)) (starts id ids)
    ∙ ground arith
