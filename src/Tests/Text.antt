-- ===== src/Tests/Text.antt =====
-- Calendar lines, request addresses, windows of requests, and tallies, on small inputs.
use whenweall.Prelude.{
  ℕ, ◌+◌, ◌≡◌, ◌≢◌, refl, true, false, Option, none, List, [], ◌∷◌, ◌++◌, All, arith, min, length,
}
use whenweall.Prelude.Text.{Text, codes, trim_space, trim_left, is_space, is_empty}
use whenweall.Polls.Store.{Answer, Vote, yes, if_need_be}
use whenweall.Polls.Scoring.{ScoreMap, score_of, score_options, best_option_id}
use whenweall.Polls.Scoring.Tally.{counted, score_options-counted}
use whenweall.Polls.Scoring.Best.{IsBest, best_option_id-IsBest}
use whenweall.Http.ClientIp.{from_request, from_request-append}
use whenweall.Http.RateLimit.{passes, passes-window}
use whenweall.Ics.{line_feed, escape_text, fold_line, join, continuation}
use whenweall.Ics.Escape.{unescape, unescape-escape_text}
use whenweall.Ics.Fold.{concat, IsFolded, unfold_text, unfold_text-fold_line, fold_line-IsFolded}

abbrev no_split : Text → Option Text
no_split t = none

trimmed : is_empty (trim_space (codes " 192.0.2.7")) ≡ false
unfolding trim_space trim_left is_space
trimmed = refl

-- The client claims 10.0.0.1; the proxy saw 192.0.2.7.
from_request-append_example :
    from_request no_split
      ((codes "10.0.0.1" ++ b',' ∷ codes " 192.0.2.7") ∷ codes "10.0.0.2" ∷ [])
      (codes "proxy:1")
      true
    ≡ trim_space (codes " 192.0.2.7")
from_request-append_example =
    from_request-append no_split (codes "10.0.0.1") (codes " 192.0.2.7") (codes "proxy:1")
      (codes "10.0.0.2" ∷ []) refl trimmed

-- A proxy that adds a line of its own: the client's line is read.
from_request_spoofed :
    from_request no_split (codes "10.0.0.1" ∷ codes "192.0.2.7" ∷ []) (codes "proxy:1") true
    ≡ codes "10.0.0.1"
unfolding from_request trim_space trim_left is_space
from_request_spoofed = refl

-- Three requests in a window of two.
passes-window_example :
    passes 2 60 7 (100 ∷ 110 ∷ 130 ∷ []) [] ≡ min 2 (length {A = ℕ} (110 ∷ 130 ∷ []) + 1)
passes-window_example =
    passes-window 2 60 7 100 (110 ∷ 130 ∷ []) [] tt (omega arith, (omega arith, tt))

abbrev summary : Text
summary = codes "Lunch; with \\ Ann, Bo" ++ 10 ∷ codes "Room 2"

unescape-escape_text_example :
    (unescape false (escape_text summary) ≡ summary)
    × All (λ (c : ℕ). c ≢ line_feed) (escape_text summary)
unescape-escape_text_example = unescape-escape_text summary

abbrev long_line : Text
long_line =
    codes "DESCRIPTION:0123456789012345678901234567890123456789012345678901234567890123456789 end"

fold_line-IsFolded_example :
    (chunks : List Text) × (fold_line long_line ≡ join continuation chunks)
    × (concat chunks ≡ long_line)
    × IsFolded chunks
fold_line-IsFolded_example = fold_line-IsFolded long_line

unfold_text-fold_line_example : unfold_text (fold_line long_line) ≡ long_line
unfold_text-fold_line_example = unfold_text-fold_line long_line refl

abbrev vote : ℕ → ℕ → Answer → Vote
vote participant option answer = record {
  participant_id = participant;
  option_id = option;
  answer = answer;
}

-- Two answers for option 2; option 9 is not the poll's.
abbrev ballots : List Vote
ballots = vote 50 1 if_need_be ∷ vote 50 2 yes ∷ vote 51 2 if_need_be ∷ vote 51 9 yes ∷ []

score_options-counted_example :
    score_of 2 (score_options (1 ∷ 2 ∷ 3 ∷ []) ballots) ≡ counted 2 ballots
score_options-counted_example = score_options-counted 2 (1 ∷ 2 ∷ 3 ∷ []) ballots refl

abbrev tallied : ScoreMap
tallied =
    (1, record { yes = 0; if_need_be = 1; no = 0; score = 1 })
    ∷ (2, record { yes = 1; if_need_be = 1; no = 0; score = 3 })
    ∷ []

best_option_id-IsBest_example :
    IsBest
      (1 ∷ 2 ∷ 3 ∷ [])
      (λ id. (score_of id tallied).score)
      (best_option_id (1 ∷ 2 ∷ 3 ∷ []) tallied)
best_option_id-IsBest_example = best_option_id-IsBest (1 ∷ 2 ∷ 3 ∷ []) tallied
