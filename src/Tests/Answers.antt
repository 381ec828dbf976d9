-- ===== src/Tests/Answers.antt =====
-- Participants of internal/polls/participants.go on one small poll.
use whenweall.Prelude.{
  ◌≡◌, refl, ap, inl, inr, false, none, some, [], ◌∷◌, ◌++◌, arith, delete_where,
}
use whenweall.Prelude.Outcome.{ok}
use whenweall.Polls.Store.{
  Db, Participant, Vote, yes, if_need_be, no, is_by, get_poll, get_participant,
  list_options_by_poll,
}
use whenweall.Polls.Claims.{Viewer, no_user, can_manage_poll, participant_authorized}
use whenweall.Polls.Participants.{
  Answers, ParticipantInput, require_participant_in_poll, require_open_poll, validate_answers,
  update_participant, update_writes, remove_participant, remove_writes,
}
use whenweall.Polls.Participants.Answers.{vote_rows, update_participant-votes}
use whenweall.Polls.Participants.Ballots.{AreBallots}
use whenweall.Polls.Participants.History.{here, next, updated, removed, Reach-AreBallots}
use whenweall.Tests.Meals.{db, ben, choice}

abbrev db_voted : Db
db_voted = record db {
  votes =
      record { participant_id = 51; option_id = 10; answer = no }
      ∷ record { participant_id = 50; option_id = 10; answer = no }
      ∷ [];
}

abbrev changed_answers : Answers
changed_answers = (11, some yes) ∷ (10, some if_need_be) ∷ []

abbrev change : ParticipantInput
change = record {
  name_set = false;
  name = [];
  email = none;
  answers = changed_answers;
  locale = none;
}

abbrev as_ben : Viewer
as_ben = record { user_id = no_user; guest_participant_id = some 50 }

abbrev db_changed : Db
db_changed = update_writes 1 50 change db_voted

db_changed-run : update_participant 1 50 change as_ben db_voted ≡ ok db_changed
unfolding update_participant require_participant_in_poll require_open_poll validate_answers get_poll
    get_participant list_options_by_poll can_manage_poll participant_authorized
db_changed-run = refl

-- The answers are kept apart by their options.
update_participant-votes_example :
    db_changed.votes ≡ delete_where (is_by 50) db_voted.votes ++ vote_rows 50 changed_answers
update_participant-votes_example =
    update_participant-votes 1 50 change as_ben db_voted db_changed
      (((λ e. omega (arith, e)), tt), (tt, tt)) db_changed-run

abbrev joan : Participant
joan = record ben { id = 51 }

-- The same with the other voter in the table.
abbrev db_two : Db
db_two = record db_voted { participants = ben ∷ joan ∷ [] }

abbrev db_two_changed : Db
db_two_changed = update_writes 1 50 change db_two

db_two_changed-run : update_participant 1 50 change as_ben db_two ≡ ok db_two_changed
unfolding update_participant require_participant_in_poll require_open_poll validate_answers get_poll
    get_participant list_options_by_poll can_manage_poll participant_authorized
db_two_changed-run = refl

abbrev db_two_left : Db
db_two_left = remove_writes 1 50 db_two_changed

db_two_left-run : remove_participant 1 50 as_ben db_two_changed ≡ ok db_two_left
unfolding remove_participant require_participant_in_poll get_poll get_participant can_manage_poll
    participant_authorized
db_two_left-run = refl

db_two-AreBallots : AreBallots db_two
db_two-AreBallots v (inl e) = (
  joan,
  choice 1 10,
  inr (inl refl),
  inl refl,
  ap Vote.participant_id e,
  ap Vote.option_id e,
  refl,
)
db_two-AreBallots v (inr (inl e)) =
    (ben, choice 1 10, inl refl, inl refl, ap Vote.participant_id e, ap Vote.option_id e, refl)
db_two-AreBallots v (inr (inr none_left)) = absurd none_left

Reach-AreBallots_example : AreBallots db_two_left
Reach-AreBallots_example = Reach-AreBallots db_two-AreBallots (
    next (next here (updated 1 50 change as_ben db_two_changed-run))
      (removed 1 50 as_ben db_two_left-run))
