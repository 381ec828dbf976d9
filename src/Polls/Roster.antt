-- ===== src/Polls/Roster.antt =====
-- internal/polls/roster.go: the CSV of a sign-up sheet's claims.
--
-- The label of an option, which timers.go writes in the caller's locale, is a parameter.
pub mod Reader
pub mod Export
pub mod Digits
use whenweall.Prelude.{
  ℕ, ◌+◌, ◌/◌, ◌%◌, Bool, true, false, ◌&&◌, ◌||◌, Option, none, some, List, [], ◌∷◌, ◌++◌, map,
  ltb, ◌==◌, any, length, if◌then◌else◌, select, select_one, zero, suc,
}
use whenweall.Prelude.Text.{Text, codes}
use whenweall.Prelude.Outcome.{ok, err, ◌>>=◌, ◌>>◌, require, found}
use whenweall.Polls.Store.{
  Poll, PollOption, Participant, Vote, Db, Error, Result, err_not_found, err_not_signup, get_poll,
  list_options_by_poll, list_participants_by_poll, list_votes_by_poll, is_yes_for,
}
use whenweall.Polls.Claims.{is_signup}
use whenweall.Ics.{crlf, join, carriage_return, line_feed}

-- ORDER BY position.
insert_by_position : PollOption → List PollOption → List PollOption
insert_by_position o [] = o ∷ []
insert_by_position o (p ∷ ps) =
    let rest = insert_by_position o ps in if ltb p.position o.position then p ∷ rest else o ∷ p ∷ ps

unfoldable pub by_position : List PollOption → List PollOption
unfolding insert_by_position
by_position [] = []
by_position (o ∷ os) = insert_by_position o (by_position os)

-- rosterFormulaPrefix: = + - @, tab or CR at the start.
abbrev pub is_formula : Text → Bool
is_formula [] = false
is_formula (c ∷ t) =
    c == b'=' || c == b'+' || c == b'-' || c == b'@' || c == 9 || c == carriage_return

abbrev pub is_special : ℕ → Bool
is_special c = c == b',' || c == b'"' || c == carriage_return || c == line_feed

abbrev pub quote_needed : Text → Bool
quote_needed t = any is_special t

-- strings.ReplaceAll(value, `"`, `""`)
unfoldable pub double_quotes : Text → Text
double_quotes [] = []
double_quotes (c ∷ t) =
    let rest = double_quotes t in if c == b'"' then b'"' ∷ b'"' ∷ rest else c ∷ rest

abbrev pub defused : Text → Text
defused raw = if is_formula raw then b'\'' ∷ raw else raw

unfoldable pub roster_csv_field : Text → Text
unfolding double_quotes
roster_csv_field raw =
    let value = defused raw in
    if quote_needed value then b'"' ∷ (double_quotes value ++ b'"' ∷ []) else value

unfoldable pub roster_csv_row : List Text → Text
unfolding roster_csv_field join
roster_csv_row fields = join (b',' ∷ []) (map roster_csv_field fields)

-- strconv.Itoa: the digits, the last one first, on fuel.
unfoldable pub itoa_on : ℕ → ℕ → Text
itoa_on zero n = []
itoa_on (suc fuel) n =
    let rest = itoa_on fuel (n / 10) in
    if ltb n 10 then (b'0' + n) ∷ [] else rest ++ (b'0' + n % 10) ∷ []

unfoldable pub itoa : ℕ → Text
unfolding itoa_on
itoa n = itoa_on (suc n) n

abbrev pub capacity_text : Option ℕ → Text
capacity_text none = []
capacity_text (some c) = itoa c

-- participantByID[pid]: the zero participant if it is missing.
abbrev name_of : Option Participant → Text
name_of none = []
name_of (some p) = p.name

abbrev or_empty : Option Text → Text
or_empty none = []
or_empty (some t) = t

abbrev email_of : Option Participant → Text
email_of none = []
email_of (some p) = or_empty p.email

abbrev participant_by_id : List Participant → ℕ → Option Participant
participant_by_id participants pid = select_one (λ (p : Participant). p.id == pid) participants

unfoldable pub claim_rows : Text → Text → Text → List Participant → List ℕ → List (List Text)
claim_rows label capacity claimed participants [] = []
claim_rows label capacity claimed participants (pid ∷ pids) =
    let p = participant_by_id participants pid in
    (label ∷ capacity ∷ claimed ∷ name_of p ∷ email_of p ∷ [])
    ∷ claim_rows label capacity claimed participants pids

abbrev rows_of : Text → Text → Text → List Participant → List ℕ → List (List Text)
rows_of label capacity claimed participants [] = (label ∷ capacity ∷ claimed ∷ [] ∷ [] ∷ []) ∷ []
rows_of label capacity claimed participants (pid ∷ pids) =
    claim_rows label capacity claimed participants (pid ∷ pids)

abbrev pub header : List Text
header =
    codes "slot" ∷ codes "capacity" ∷ codes "claimed" ∷ codes "participant" ∷ codes "email" ∷ []

abbrev pub roster_bom : Text
roster_bom = 0xFEFF ∷ []

unfoldable pub roster_text : List (List Text) → Text
unfolding roster_csv_row
roster_text rows = roster_bom ++ (join crlf (map roster_csv_row rows) ++ crlf)

module _ (option_label_text : PollOption → Text) where
  unfoldable pub option_rows : List Participant → List Vote → List PollOption → List (List Text)
  unfolding claim_rows
  option_rows participants votes [] = []
  option_rows participants votes (o ∷ os) =
      let claimants = map (λ (v : Vote). v.participant_id) (select (is_yes_for o.id) votes) in
      rows_of (option_label_text o) (capacity_text o.capacity) (itoa (length claimants))
        participants claimants
      ++ option_rows participants votes os

  unfoldable pub roster_records : ℕ → Db → List (List Text)
  unfolding option_rows
  roster_records poll_id db =
      header
      ∷ option_rows (list_participants_by_poll poll_id db) (list_votes_by_poll poll_id db)
          (by_position (list_options_by_poll poll_id db))

  unfoldable pub build_roster_csv : ℕ → Db → Result Text
  unfolding roster_text roster_records
  build_roster_csv poll_id db = found (get_poll poll_id db) err_not_found >>= λ (poll : Poll).
      require (is_signup poll.kind) err_not_signup >> ok (roster_text (roster_records poll_id db))
