-- ===== src/Polls/Service.antt =====
-- The poll lifecycle of internal/polls/service.go: the statements it runs, the scoping of a poll to
-- its organization, and its timers (armDeadline of timers.go).
--
-- Each operation is a function of the database as it finds it, and takes the fresh ids it uses. An
-- organization's or a user's id is none for a text that is no number. The view that an operation
-- returns, and the best-effort calls after its commit but the counters, are left out.
pub mod Options
pub mod Manage
pub mod Finalize
pub mod Create
pub mod Phases
pub mod Effects
pub mod Rows
pub mod Decided
pub mod Rewrites
pub mod Written
pub mod Copied
pub mod History
pub mod Hidden
pub mod Capacity
pub mod Timers
use whenweall.Prelude.{
  ℕ, ◌+◌, ◌-◌, Bool, true, false, ◌&&◌, ◌||◌, not, Option, none, some, List, [], ◌∷◌, ◌++◌, ltb,
  leb, ◌==◌, if◌then◌else◌, select_one, any, delete_where, update_where,
}
use whenweall.Prelude.Text.{Text}
use whenweall.Prelude.Outcome.{ok, err, ◌>>=◌, ◌>>◌, require, found}
use whenweall.Jobs.{RoomKey, poll_room, poll_deadline, poll_reminder, Job, schedule, cancel}
use whenweall.Polls.Store.{
  Result, err_not_found, err_forbidden, PollStatus, opened, closed, finalized, Poll, PollOption, Db,
  Vote, Subscription, MailPoll, poll_timer, get_poll, is_for,
}
use whenweall.Polls.Claims.{UserId, can_manage_poll}

-- time.Parse and strings.ToLower are Go's.
pub record Env : Type 0 where
  pub parse_iso : Text → Option ℕ
  pub parse_date : Text → Option ℕ
  pub to_lower : Text → Text

-- db.NewID for a poll, its timers, its options and its mails, the last two by their index.
pub record FreshIds : Type 0 where
  pub poll : ℕ
  pub deadline_job : ℕ
  pub reminder_job : ℕ
  pub option : ℕ → ℕ
  pub mail : ℕ → ℕ

abbrev pub has_poll_id : ℕ → Poll → Bool
has_poll_id id p = p.id == id

abbrev pub has_option_id : ℕ → PollOption → Bool
has_option_id id o = o.id == id

unfoldable pub insert_poll : Poll → Db → Db
insert_poll p db = record db { polls = db.polls ++ p ∷ [] }

unfoldable pub insert_poll_option : PollOption → Db → Db
insert_poll_option o db = record db { poll_options = db.poll_options ++ o ∷ [] }

abbrev pub with_scalars : Poll → Poll → Poll
with_scalars m p = record p {
  title = m.title;
  description = m.description;
  location = m.location;
  timezone = m.timezone;
  deadline_at = m.deadline_at;
  require_participant_email = m.require_participant_email;
  allow_comments = m.allow_comments;
  allow_if_need_be = m.allow_if_need_be;
  signup_max_claims = m.signup_max_claims;
  updated_at = m.updated_at;
}

unfoldable pub update_poll_scalars : ℕ → Poll → Db → Db
update_poll_scalars id m db = record db {
  polls = update_where (has_poll_id id) (with_scalars m) db.polls;
}

abbrev pub with_status : PollStatus → ℕ → Poll → Poll
with_status status now p = record p { status = status; updated_at = now }

unfoldable pub set_poll_status : ℕ → PollStatus → ℕ → Db → Db
set_poll_status id status now db = record db {
  polls = update_where (has_poll_id id) (with_status status now) db.polls;
}

abbrev pub decided : ℕ → ℕ → Poll → Poll
decided option now p = record p {
  finalized_option_id = some option;
  status = finalized;
  updated_at = now;
}

unfoldable pub finalize_poll : ℕ → ℕ → ℕ → Db → Db
finalize_poll id option now db = record db {
  polls = update_where (has_poll_id id) (decided option now) db.polls;
}

abbrev pub deleted : ℕ → Poll → Poll
deleted now p = record p { deleted_at = some now; updated_at = now }

unfoldable pub soft_delete_poll : ℕ → ℕ → Db → Db
soft_delete_poll id now db = record db {
  polls = update_where (has_poll_id id) (deleted now) db.polls;
}

-- ON DELETE CASCADE takes the option's votes with it.
unfoldable pub delete_poll_option : ℕ → Db → Db
delete_poll_option id db = record db {
  poll_options = delete_where (has_option_id id) db.poll_options;
  votes = delete_where (is_for id) db.votes;
}

unfoldable pub delete_subscriptions_by_scope : ℕ → Db → Db
delete_subscriptions_by_scope poll db = record db {
  subscriptions = delete_where (λ (s : Subscription). s.poll_id == poll) db.subscriptions;
}

abbrev pub is_finalized : PollStatus → Bool
is_finalized opened = false
is_finalized closed = false
is_finalized finalized = true

unfoldable pub require_org_poll : ℕ → Option ℕ → Db → Result Poll
require_org_poll poll_id org db = found org err_not_found >>= λ (o : ℕ).
    found (get_poll poll_id db) err_not_found >>= λ (p : Poll).
    require (p.organization_id == o) err_not_found >> ok p

unfoldable pub require_manageable : ℕ → Option ℕ → UserId → Db → Result (Unit {0})
unfolding require_org_poll
require_manageable poll_id org user_id db = require_org_poll poll_id org db >>= λ (p : Poll).
    require (can_manage_poll p.organization_id p.created_by user_id db) err_forbidden

-- timers.go, in nanoseconds.
abbrev pub reminder_lead : ℕ
reminder_lead = 86400000000000

abbrev pub timer : ℕ → ℕ → ℕ → ℕ → List (Job MailPoll) → List (Job MailPoll)
timer kind new_id poll_id run_at table =
    schedule new_id
      (record {
        kind = kind;
        room_key = some (poll_room poll_id);
        run_at = run_at;
        payload = some (poll_timer poll_id);
        max_attempts = 0;
      })
      table

abbrev pub cancel_timers : ℕ → List (Job MailPoll) → List (Job MailPoll)
cancel_timers poll_id table =
    cancel poll_reminder (poll_room poll_id) (cancel poll_deadline (poll_room poll_id) table)

-- `remindAt.After(now)` is written with the lead on the other side.
unfoldable pub arm_deadline :
    FreshIds → ℕ → Option ℕ → ℕ → List (Job MailPoll) → List (Job MailPoll)
arm_deadline fresh poll_id none now table = cancel_timers poll_id table
arm_deadline fresh poll_id (some deadline) now table =
    let armed = timer poll_deadline fresh.deadline_job poll_id deadline table in
    if ltb (now + reminder_lead) deadline
    then timer poll_reminder fresh.reminder_job poll_id (deadline - reminder_lead) armed
    else cancel poll_reminder (poll_room poll_id) armed

abbrev pub with_jobs : List (Job MailPoll) → Db → Db
with_jobs jobs db = record db { jobs = jobs }
