-- ===== src/Polls/Participants.antt =====
-- internal/polls/participants.go: participants with their votes, and comments.
--
-- The answers are a map from option ids, here a list in the order in which the loop reads it; an
-- answer is none for a text that is no answer. That the poll is no sign-up sheet is asked by the
-- HTTP handler before AddParticipant and UpdateParticipant.
pub mod Comments
pub mod Answers
pub mod Ballots
pub mod History
use whenweall.Prelude.{
  ℕ, ◌+◌, Bool, true, false, ◌&&◌, ◌||◌, not, Option, none, some, List, [], ◌∷◌, ◌++◌, ltb, ◌==◌,
  any, length, if◌then◌else◌, select_one, count_where, delete_where, update_where, option_is,
}
use whenweall.Prelude.Text.{Text, is_empty}
use whenweall.Prelude.Outcome.{ok, err, ◌>>=◌, ◌>>◌, require, found}
use whenweall.Polls.Store.{
  Result, err_forbidden, err_not_found, err_validation, err_poll_closed, err_limit_reached,
  err_email_required, Poll, PollOption, Participant, Answer, yes, if_need_be, no, Vote, Comment, Db,
  vote_changed, participant_changed, comment_changed, get_poll, get_participant,
  list_options_by_poll, list_participants_by_poll, is_by, upsert_vote, emit, is_yes, is_null,
}
use whenweall.Polls.Claims.{
  UserId, no_user, malformed, user, Viewer, trimmed_email, is_open, limit_participants,
  can_manage_poll, participant_authorized, is_user,
}

abbrev pub Answers : Type 0
Answers = List (ℕ × Option Answer)

pub record ParticipantInput : Type 0 where
  pub name_set : Bool
  pub name : Text
  pub email : Option Text
  pub answers : Answers
  pub locale : Option Text

unfoldable pub require_open_poll : ℕ → Db → Result Poll
require_open_poll poll_id db = found (get_poll poll_id db) err_not_found >>= λ (p : Poll).
    require (is_open p.status) err_poll_closed >> ok p

unfoldable pub require_participant_in_poll : ℕ → ℕ → Db → Result Participant
require_participant_in_poll poll_id participant_id db =
    found (get_participant participant_id db) err_not_found >>= λ (p : Participant).
    require (p.poll_id == poll_id) err_not_found >> ok p

abbrev pub answer_ok : Bool → Option Answer → Bool
answer_ok allow none = false
answer_ok allow (some yes) = true
answer_ok allow (some if_need_be) = allow
answer_ok allow (some no) = true

abbrev pub is_option : List PollOption → ℕ → Bool
is_option options id = any (λ (o : PollOption). o.id == id) options

-- Whether validateAnswersTx returns no error.
unfoldable pub validate_answers : List PollOption → Bool → Answers → Bool
validate_answers options allow [] = true
validate_answers options allow ((id, a) ∷ answers) =
    is_option options id && answer_ok allow a && validate_answers options allow answers

abbrev pub vote_for : ℕ → ℕ → Option Answer → List Vote → List Vote
vote_for participant option none votes = votes
vote_for participant option (some a) votes = upsert_vote participant option a votes

-- The loop of UpsertVote.
unfoldable pub vote_all : ℕ → Answers → List Vote → List Vote
vote_all participant [] votes = votes
vote_all participant ((id, a) ∷ answers) votes =
    vote_all participant answers (vote_for participant id a votes)

abbrev is_answer : (Answer → Bool) → ℕ × Option Answer → Bool
is_answer p (id, none) = false
is_answer p (id, some a) = p a

abbrev is_if_need_be : Answer → Bool
is_if_need_be yes = false
is_if_need_be if_need_be = true
is_if_need_be no = false

abbrev is_no : Answer → Bool
is_no yes = false
is_no if_need_be = false
is_no no = true

-- tallyAnswerStats and the counters after the commit.
abbrev pub count_answers : Answers → Db → Db
count_answers answers db = record db {
  responses_yes = db.responses_yes + count_where (is_answer is_yes) answers;
  responses_if_need_be = db.responses_if_need_be + count_where (is_answer is_if_need_be) answers;
  responses_no = db.responses_no + count_where (is_answer is_no) answers;
}

abbrev pub user_of : UserId → Result (Option ℕ)
user_of no_user = ok none
user_of malformed = err err_forbidden
user_of (user u) = ok (some u)

abbrev pub email_column : Text → Option Text
email_column t = if is_empty t then none else some t

abbrev pub new_participant : ℕ → ℕ → ParticipantInput → Option ℕ → ℕ → Participant
new_participant id poll_id input user_id now = record {
  id = id;
  poll_id = poll_id;
  name = input.name;
  email = email_column (trimmed_email input.email);
  user_id = user_id;
  locale = input.locale;
  created_at = now;
}

abbrev pub add_writes : ℕ → ℕ → ParticipantInput → Option ℕ → ℕ → Db → Db
add_writes new_id poll_id input user_id now db =
    let added : Db = record db {
      participants = db.participants ++ new_participant new_id poll_id input user_id now ∷ [];
      votes = vote_all new_id input.answers db.votes;
    } in
    count_answers input.answers (emit (participant_changed poll_id) added)

-- The new participant's id and whether it is a guest's are the caller's to know.
unfoldable pub add_participant : ℕ → ℕ → ParticipantInput → Viewer → ℕ → Db → Result Db
unfolding require_open_poll validate_answers vote_all
add_participant new_id poll_id input viewer now db = require_open_poll poll_id db >>= λ (p : Poll).
    require (not (p.require_participant_email && is_empty (trimmed_email input.email)))
      err_email_required
    >> (require (ltb (length (list_participants_by_poll poll_id db)) limit_participants)
          err_limit_reached
        >> (require
              (validate_answers (list_options_by_poll poll_id db) p.allow_if_need_be input.answers)
              err_validation
            >> (user_of viewer.user_id >>= λ (user_id : Option ℕ).
                ok (add_writes new_id poll_id input user_id now db))))

abbrev pub has_id : ℕ → Participant → Bool
has_id id p = p.id == id

abbrev pub renamed : ParticipantInput → Participant → Participant
renamed input p = if input.name_set then record p { name = input.name } else p

abbrev pub update_writes : ℕ → ℕ → ParticipantInput → Db → Db
update_writes poll_id participant_id input db =
    let replaced : Db = record db {
      participants = update_where (has_id participant_id) (renamed input) db.participants;
      votes = vote_all participant_id input.answers (delete_where (is_by participant_id) db.votes);
    } in
    count_answers input.answers (emit (vote_changed poll_id) replaced)

unfoldable pub update_participant : ℕ → ℕ → ParticipantInput → Viewer → Db → Result Db
unfolding require_participant_in_poll require_open_poll validate_answers vote_all
update_participant poll_id participant_id input viewer db =
    require_participant_in_poll poll_id participant_id db >>= λ (q : Participant).
    require_open_poll poll_id db >>= λ (p : Poll).
    require
      (participant_authorized q viewer
        (can_manage_poll p.organization_id p.created_by viewer.user_id db))
      err_forbidden
    >> (require
          (validate_answers (list_options_by_poll poll_id db) p.allow_if_need_be input.answers)
          err_validation
        >> ok (update_writes poll_id participant_id input db))

abbrev unlinked : ℕ → Comment → Comment
unlinked id c = record c { participant_id = none }

-- ON DELETE CASCADE on the votes, SET NULL on the comments.
abbrev pub remove_writes : ℕ → ℕ → Db → Db
remove_writes poll_id participant_id db =
    let removed : Db = record db {
      participants = delete_where (has_id participant_id) db.participants;
      votes = delete_where (is_by participant_id) db.votes;
      comments =
          update_where (λ (c : Comment). option_is participant_id c.participant_id)
            (unlinked participant_id) db.comments;
    } in
    emit (participant_changed poll_id) removed

unfoldable pub remove_participant : ℕ → ℕ → Viewer → Db → Result Db
unfolding require_participant_in_poll
remove_participant poll_id participant_id viewer db =
    require_participant_in_poll poll_id participant_id db >>= λ (q : Participant).
    found (get_poll poll_id db) err_not_found >>= λ (p : Poll).
    require (can_manage_poll p.organization_id p.created_by viewer.user_id db || is_open p.status)
      err_poll_closed
    >> (require
          (participant_authorized q viewer
            (can_manage_poll p.organization_id p.created_by viewer.user_id db))
          err_forbidden
        >> ok (remove_writes poll_id participant_id db))
