-- ===== src/Polls/Store.antt =====
-- The tables of internal/polls (queries/polls.sql, migrations/00003_polls.sql) and the statements
-- that claims run on them.
--
-- Ids are opaque numbers, and instants are numbers. A vote's key is its participant and its
-- option. The counters stand for the landing page's statistics. A list of options is in the
-- table's order; where the code reads its order, it is sorted by position.
use whenweall.Prelude.{
  ℕ, Bool, true, false, ◌&&◌, Option, none, some, List, [], ◌∷◌, ◌++◌, ◌==◌, any, if◌then◌else◌,
  select, select_one, count_where, delete_where, update_where, option_is,
}
use whenweall.Prelude.Outcome.{Outcome}
use whenweall.Prelude.Text.{Text}
use whenweall.Jobs.{Job, mail_poll, schedule}

-- The errors of errors.go; the last two are sql.ErrNoRows, returned as it is, and the error for an
-- option whose date does not parse.
pub data Error : Type 0 where
  err_forbidden err_not_found err_validation err_capacity_full err_poll_closed : Error
  err_limit_reached err_claim_limit_reached err_email_required err_not_signup : Error
  err_conflict err_poll_finalized err_capacity_below_claims err_no_rows err_invalid_date : Error

abbrev pub Result : Type 0 → Type 0
Result A = Outcome Error A

pub data PollType : Type 0 where
  datetime options signup : PollType

pub data PollStatus : Type 0 where
  opened closed finalized : PollStatus

pub data OptionKind : Type 0 where
  of_date of_datetime of_text : OptionKind

pub record Poll : Type 0 where
  pub id : ℕ
  pub organization_id : ℕ
  pub created_by : Option ℕ
  pub kind : PollType
  pub title : Text
  pub description : Option Text
  pub location : Option Text
  pub timezone : Text
  pub status : PollStatus
  pub deadline_at : Option ℕ
  pub finalized_option_id : Option ℕ
  pub require_participant_email : Bool
  pub allow_comments : Bool
  pub allow_if_need_be : Bool
  pub signup_max_claims : ℕ
  pub created_at : ℕ
  pub updated_at : ℕ
  pub deleted_at : Option ℕ
  pub suspended_at : Option ℕ

-- `capacity` is null for no bound; PollInput's validation keeps it positive.
pub record PollOption : Type 0 where
  pub id : ℕ
  pub poll_id : ℕ
  pub position : ℕ
  pub kind : OptionKind
  pub start_at : Option ℕ
  pub end_at : Option ℕ
  pub label : Option Text
  pub capacity : Option ℕ

pub record Participant : Type 0 where
  pub id : ℕ
  pub poll_id : ℕ
  pub name : Text
  pub email : Option Text
  pub user_id : Option ℕ
  pub locale : Option Text
  pub created_at : ℕ

pub data Answer : Type 0 where
  yes if_need_be no : Answer

pub record Vote : Type 0 where
  pub participant_id : ℕ
  pub option_id : ℕ
  pub answer : Answer

-- A row of organization_members, with whether one of its roles is owner or admin.
pub record Member : Type 0 where
  pub organization_id : ℕ
  pub user_id : ℕ
  pub managing : Bool

-- The mails of a poll, each with the poll and its participant or user; and the payload of the
-- poll's timers.
pub data MailPoll : Type 0 where
  claim_confirmation finalized_for_participant finalized_for_user : ℕ → ℕ → MailPoll
  poll_timer : ℕ → MailPoll

-- rooms.Emit of "poll.changed" to "poll:<id>", with the entity that the name says.
pub data Event : Type 0 where
  vote_changed poll_changed participant_changed comment_changed : ℕ → Event

-- `body` and `author_name` are as they were given.
pub record Comment : Type 0 where
  pub id : ℕ
  pub poll_id : ℕ
  pub author_name : Text
  pub participant_id : Option ℕ
  pub user_id : Option ℕ
  pub body : Text
  pub created_at : ℕ
  pub deleted_at : Option ℕ

pub record User : Type 0 where
  pub id : ℕ
  pub email : Text

-- A row of notification_subscriptions with the scope "poll". `email_on` is the email channel of
-- the event poll.finalized in its grid, none if the grid has no entry for it.
pub record Subscription : Type 0 where
  pub user_id : ℕ
  pub poll_id : ℕ
  pub email_on : Option Bool

-- A row of notification_prefs, with the same of its grid.
pub record Pref : Type 0 where
  pub user_id : ℕ
  pub email_on : Option Bool

pub record Db : Type 0 where
  pub polls : List Poll
  pub poll_options : List PollOption
  pub participants : List Participant
  pub votes : List Vote
  pub comments : List Comment
  pub members : List Member
  pub jobs : List (Job MailPoll)
  pub events : List Event
  pub users : List User
  pub subscriptions : List Subscription
  pub prefs : List Pref
  pub responses_yes : ℕ
  pub responses_if_need_be : ℕ
  pub responses_no : ℕ
  pub polls_created : ℕ
  pub polls_finalized : ℕ

abbrev pub is_null : Option ℕ → Bool
is_null none = true
is_null (some _) = false

abbrev pub is_yes : Answer → Bool
is_yes yes = true
is_yes if_need_be = false
is_yes no = false

unfoldable pub get_poll : ℕ → Db → Option Poll
get_poll id db =
    select_one (λ (p : Poll). p.id == id && is_null p.deleted_at && is_null p.suspended_at) db.polls

unfoldable pub get_poll_option : ℕ → Db → Option PollOption
get_poll_option id db = select_one (λ (o : PollOption). o.id == id) db.poll_options

unfoldable pub get_participant : ℕ → Db → Option Participant
get_participant id db = select_one (λ (p : Participant). p.id == id) db.participants

unfoldable pub get_participant_by_poll_and_user : ℕ → ℕ → Db → Option Participant
get_participant_by_poll_and_user poll user db =
    select_one (λ (p : Participant). p.poll_id == poll && option_is user p.user_id) db.participants

unfoldable pub list_participants_by_poll : ℕ → Db → List Participant
list_participants_by_poll poll db = select (λ (p : Participant). p.poll_id == poll) db.participants

unfoldable pub list_options_by_poll : ℕ → Db → List PollOption
list_options_by_poll poll db = select (λ (o : PollOption). o.poll_id == poll) db.poll_options

unfoldable pub is_org_member : ℕ → ℕ → Db → Bool
is_org_member org user db =
    any (λ (m : Member). m.organization_id == org && m.user_id == user) db.members

unfoldable pub member_has_managing_role : ℕ → ℕ → Db → Bool
member_has_managing_role org user db =
    any (λ (m : Member). m.organization_id == org && m.user_id == user && m.managing) db.members

abbrev pub is_by : ℕ → Vote → Bool
is_by participant v = v.participant_id == participant

abbrev pub is_for : ℕ → Vote → Bool
is_for option v = v.option_id == option

abbrev pub is_vote : ℕ → ℕ → Vote → Bool
is_vote participant option v = is_by participant v && is_for option v

abbrev pub is_yes_for : ℕ → Vote → Bool
is_yes_for option v = is_for option v && is_yes v.answer

abbrev pub list_votes_by_participant : ℕ → List Vote → List Vote
list_votes_by_participant participant votes = select (is_by participant) votes

abbrev pub count_yes_votes_for_option : ℕ → List Vote → ℕ
count_yes_votes_for_option option votes = count_where (is_yes_for option) votes

-- The join with participants: votes of the poll's participants.
unfoldable pub list_votes_by_poll : ℕ → Db → List Vote
list_votes_by_poll poll db =
    select
      (λ (v : Vote).
        any (λ (p : Participant). p.id == v.participant_id && p.poll_id == poll) db.participants)
      db.votes

-- ON CONFLICT DO UPDATE SET answer.
abbrev pub upsert_vote : ℕ → ℕ → Answer → List Vote → List Vote
upsert_vote participant option answer votes =
    if any (is_vote participant option) votes
    then update_where (is_vote participant option) (λ (v : Vote). record v { answer = answer })
        votes
    else votes ++ record { participant_id = participant; option_id = option; answer = answer } ∷ []

abbrev pub delete_vote : ℕ → ℕ → List Vote → List Vote
delete_vote participant option votes = delete_where (is_vote participant option) votes

abbrev pub emit : Event → Db → Db
emit e db = record db { events = db.events ++ e ∷ [] }

-- timers.go: one row for each mail.
unfoldable pub enqueue_mail_poll : ℕ → ℕ → MailPoll → Db → Db
enqueue_mail_poll id now payload db = record db {
  jobs =
      schedule id
        (record {
          kind = mail_poll;
          room_key = none;
          run_at = now;
          payload = some payload;
          max_attempts = 10;
        })
        db.jobs;
}
