-- ===== src/Polls/Service/Create.antt =====
-- Create and Duplicate of internal/polls/service.go.
use whenweall.Prelude.{ℕ, ◌+◌, true, false, Option, none, some, List, [], ◌∷◌, ◌++◌, if◌then◌else◌}
use whenweall.Prelude.Text.{Text, codes, trim_space}
use whenweall.Prelude.Outcome.{ok, ◌>>=◌, ◌>>◌, require, found}
use whenweall.Polls.Store.{
  Result, err_forbidden, err_validation, PollType, opened, Poll, PollOption, Db,
  list_options_by_poll,
}
use whenweall.Polls.Claims.{is_signup}
use whenweall.Polls.Roster.{by_position}
use whenweall.Polls.Schemas.{OptionInput, CreatePollInput}
use whenweall.Polls.Schemas.Validate.{validate_create}
use whenweall.Polls.Service.{
  Env, FreshIds, require_org_poll, insert_poll, insert_poll_option, arm_deadline, with_jobs,
}
use whenweall.Polls.Service.Options.{OptionColumns, poll_option_columns, row_of}
use whenweall.Polls.Service.Manage.{is_valid, or_keep}

abbrev pub trimmed : Option Text → Option Text
trimmed none = none
trimmed (some t) = some (trim_space t)

unfoldable pub parse_deadline : Env → Option Text → Result (Option ℕ)
parse_deadline env none = ok none
parse_deadline env (some t) = found (env.parse_iso t) err_validation >>= λ (n : ℕ). ok (some n)

abbrev pub new_poll : FreshIds → ℕ → ℕ → PollType → Option ℕ → CreatePollInput → ℕ → Poll
new_poll fresh org user kind deadline input now = record {
  id = fresh.poll;
  organization_id = org;
  created_by = some user;
  kind = kind;
  title = trim_space input.title;
  description = trimmed input.description;
  location = trimmed input.location;
  timezone = input.timezone;
  status = opened;
  deadline_at = deadline;
  finalized_option_id = none;
  require_participant_email = or_keep input.require_participant_email false;
  allow_comments = or_keep input.allow_comments true;
  allow_if_need_be = if is_signup kind then false else or_keep input.allow_if_need_be true;
  signup_max_claims = or_keep input.signup_max_claims 1;
  created_at = now;
  updated_at = now;
  deleted_at = none;
  suspended_at = none;
}

unfoldable pub insert_options : Env → FreshIds → PollType → ℕ → List OptionInput → Db → Result Db
unfolding poll_option_columns insert_poll_option
insert_options env fresh kind i [] db = ok db
insert_options env fresh kind i (o ∷ os) db =
    poll_option_columns env o kind (some 1) >>= λ (c : OptionColumns).
    insert_options env fresh kind (i + 1) os
      (insert_poll_option (row_of (fresh.option i) fresh.poll i c) db)

abbrev pub arm_new : FreshIds → Option ℕ → ℕ → Db → Db
arm_new fresh none now db = db
arm_new fresh (some d) now db = with_jobs (arm_deadline fresh fresh.poll (some d) now db.jobs) db

abbrev pub count_created : Db → Db
count_created db = record db { polls_created = db.polls_created + 1 }

-- `org` and `user` are none for texts that are no numbers.
unfoldable pub create : Env → FreshIds → Option ℕ → Option ℕ → CreatePollInput → ℕ → Db → Result Db
unfolding validate_create parse_deadline insert_poll insert_options arm_deadline
create env fresh org user input now db =
    require (is_valid (validate_create env.parse_iso env.to_lower input)) err_validation
    >> (found org err_forbidden >>= λ (o : ℕ). found user err_forbidden >>= λ (u : ℕ).
        found input.kind err_validation >>= λ (kind : PollType).
        parse_deadline env input.deadline_at >>= λ (deadline : Option ℕ).
        insert_options env fresh kind 0 input.options
          (insert_poll (new_poll fresh o u kind deadline input now) db)
        >>= λ (written : Db). ok (count_created (arm_new fresh deadline now written)))

abbrev pub copy_of : FreshIds → ℕ → ℕ → ℕ → Poll → Poll
copy_of fresh org user now p = record p {
  id = fresh.poll;
  organization_id = org;
  created_by = some user;
  title = p.title ++ codes " (copy)";
  status = opened;
  deadline_at = none;
  finalized_option_id = none;
  created_at = now;
  updated_at = now;
  deleted_at = none;
  suspended_at = none;
}

abbrev pub option_copy : FreshIds → ℕ → PollOption → PollOption
option_copy fresh i o = record o { id = fresh.option i; poll_id = fresh.poll }

unfoldable pub copy_options : FreshIds → ℕ → List PollOption → Db → Db
unfolding insert_poll_option
copy_options fresh i [] db = db
copy_options fresh i (o ∷ os) db =
    copy_options fresh (i + 1) os (insert_poll_option (option_copy fresh i o) db)

unfoldable pub duplicate : FreshIds → ℕ → Option ℕ → Option ℕ → ℕ → Db → Result Db
unfolding require_org_poll insert_poll copy_options
duplicate fresh poll_id org user now db = found org err_forbidden >>= λ (o : ℕ).
    found user err_forbidden >>= λ (u : ℕ). require_org_poll poll_id org db >>= λ (p : Poll). ok (
      count_created (
        copy_options fresh 0 (by_position (list_options_by_poll poll_id db))
          (insert_poll (copy_of fresh o u now p) db)))
