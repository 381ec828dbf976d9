-- ===== src/Tests/Data.antt =====
-- A page in UTC, Mondays from nine to twelve, with one booking.
use whenweall.Prelude.{ℕ, ◌+◌, ◌*◌, ◌/◌, false, true, none, some, List, [], ◌∷◌}
use whenweall.Prelude.Text.{codes}
use whenweall.Bookings.Availability.{Zone, TimeRange, PageRules, Interval, minute, day_length}
use whenweall.Bookings.Store.{Page, active, Booking, confirmed, Visitor, Db}
use whenweall.Bookings.Input.{Env, BookInput}

abbrev pub wall_utc : ℕ → ℕ → ℕ → ℕ
wall_utc day h m = day * day_length + h * 60 * minute + m * minute

abbrev pub utc : Zone
utc = record { date_of = λ t. t / day_length; wall = wall_utc }

abbrev pub nine_to_twelve : TimeRange
nine_to_twelve = record { start = codes "09:00"; finish = codes "12:00" }

abbrev pub rules : PageRules
rules = record {
  timezone = codes "UTC";
  slot_duration_min = 30;
  buffer_before_min = 5;
  buffer_after_min = 10;
  min_notice_min = 60;
  max_days_ahead = 14;
  availability = (1, nine_to_twelve ∷ []) ∷ [];
  date_overrides = [];
}

abbrev pub midnight : ℕ
midnight = wall_utc 1 0 0

abbrev pub nine : ℕ
nine = wall_utc 1 9 0

abbrev pub ten : ℕ
ten = wall_utc 1 10 0

abbrev pub eleven : ℕ
eleven = wall_utc 1 11 0

abbrev pub busy_at_nine : List Interval
busy_at_nine = record { start = nine; finish = nine + 30 * minute } ∷ []

abbrev pub page : Page
page = record {
  id = 7;
  organization_id = 1;
  member_user_id = none;
  slug = codes "intro";
  rules = rules;
  google_sync = false;
  reminders = true;
  status = active;
  deleted_at = none;
  suspended_at = none;
}

abbrev pub ann : Visitor
ann = record {
  name = codes "Ann";
  email = codes "ann@a.no";
  note = none;
  locale = none;
  timezone = codes "UTC";
}

abbrev pub booking_at : ℕ → ℕ → Booking
booking_at id start = record {
  id = id;
  page_id = 7;
  start_at = start;
  end_at = start + 30 * minute;
  visitor = ann;
  status = confirmed;
  cancelled_by = none;
  google_event_id = none;
  created_at = midnight;
  updated_at = midnight;
}

abbrev pub db : Db
db = record {
  organizations = record { id = 1; slug = codes "org" } ∷ [];
  pages = page ∷ [];
  bookings = booking_at 100 nine ∷ [];
  jobs = [];
  events = [];
}

abbrev pub env : Env
env = record {
  load_location = λ _. some utc;
  parse_address = λ t. some t;
  manage_secret = codes "s";
  hmac = λ secret booking. codes "token";
  google = none;
}

abbrev pub ids : ℕ → ℕ
ids k = 200 + k

abbrev pub input : BookInput
input = record {
  start_at = ten;
  name = codes " Ann ";
  email = codes "ann@a.no";
  note = none;
  locale = none;
  timezone = codes "UTC";
  busy = [];
}
