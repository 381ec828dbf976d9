-- ===== src/Tests/Meals.antt =====
-- A small poll of internal/polls with its options, a participant and its owner.
use whenweall.Prelude.{ℕ, ◌+◌, true, false, Option, none, some, [], ◌∷◌}
use whenweall.Prelude.Text.{Text, codes}
use whenweall.Polls.Store.{
  Poll, PollOption, Participant, User, Db, PollStatus, options, opened, of_text,
}
use whenweall.Polls.Service.{Env, FreshIds}

abbrev pub no_instant : Text → Option ℕ
no_instant t = none

abbrev pub same_text : Text → Text
same_text t = t

abbrev pub env : Env
env = record { parse_iso = no_instant; parse_date = no_instant; to_lower = same_text }

abbrev pub fresh : FreshIds
fresh = record {
  poll = 100;
  deadline_job = 101;
  reminder_job = 102;
  option = λ i. 200 + i;
  mail = λ i. 300 + i;
}

abbrev pub lunch : PollStatus → Option ℕ → Poll
lunch status option = record {
  id = 1;
  organization_id = 7;
  created_by = some 40;
  kind = options;
  title = codes "Lunch";
  description = none;
  location = none;
  timezone = codes "UTC";
  status = status;
  deadline_at = none;
  finalized_option_id = option;
  require_participant_email = false;
  allow_comments = true;
  allow_if_need_be = true;
  signup_max_claims = 1;
  created_at = 0;
  updated_at = 0;
  deleted_at = none;
  suspended_at = none;
}

abbrev pub choice : ℕ → ℕ → PollOption
choice poll id = record {
  id = id;
  poll_id = poll;
  position = id;
  kind = of_text;
  start_at = none;
  end_at = none;
  label = some (codes "=Pizza, \"large\"");
  capacity = some 12;
}

abbrev pub ben : Participant
ben = record {
  id = 50;
  poll_id = 1;
  name = codes "Ben";
  email = some (codes "ben@example.com");
  user_id = none;
  locale = none;
  created_at = 0;
}

abbrev pub owner : User
owner = record { id = 40; email = codes "ann@example.com" }

abbrev pub db_of : Poll → Db
db_of poll = record {
  polls = poll ∷ [];
  poll_options = choice 1 10 ∷ choice 1 11 ∷ [];
  participants = ben ∷ [];
  votes = [];
  comments = [];
  members = [];
  jobs = [];
  events = [];
  users = owner ∷ [];
  subscriptions = [];
  prefs = [];
  responses_yes = 0;
  responses_if_need_be = 0;
  responses_no = 0;
  polls_created = 0;
  polls_finalized = 0;
}

abbrev pub db : Db
db = db_of (lunch opened none)
