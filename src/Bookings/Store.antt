-- ===== src/Bookings/Store.antt =====
-- The tables of internal/bookings (queries/bookings.sql, migrations/00004_bookings.sql) and the
-- statements that creating, cancelling and moving a booking run on them.
--
-- Ids, and the slots of google events, are opaque numbers. A page's scheduling columns are its
-- PageRules, already decoded from jsonb. ORDER BY start_at is left out where the rows are only
-- searched. The visitor's own data is one record.
use whenweall.Prelude.{
  ℕ, Bool, true, false, ◌&&◌, not, Option, none, some, List, [], ◌∷◌, ◌++◌, ltb, ◌==◌, option_is,
  if◌then◌else◌, select_one, update_where,
}
use whenweall.Prelude.Text.{Text, text_eq}
use whenweall.Jobs.{Job}
use whenweall.Bookings.Availability.{PageRules, Interval}

pub data PageStatus : Type 0 where
  active paused : PageStatus

pub record Page : Type 0 where
  pub id : ℕ
  pub organization_id : ℕ
  pub member_user_id : Option ℕ
  pub slug : Text
  pub rules : PageRules
  pub google_sync : Bool
  pub reminders : Bool
  pub status : PageStatus
  pub deleted_at : Option ℕ
  pub suspended_at : Option ℕ

pub data BookingStatus : Type 0 where
  confirmed cancelled : BookingStatus

pub data CancelledBy : Type 0 where
  visitor organiser : CancelledBy

pub record Visitor : Type 0 where
  pub name : Text
  pub email : Text
  pub note : Option Text
  pub locale : Option Text
  pub timezone : Text

pub record Booking : Type 0 where
  pub id : ℕ
  pub page_id : ℕ
  pub start_at : ℕ
  pub end_at : ℕ
  pub visitor : Visitor
  pub status : BookingStatus
  pub cancelled_by : Option CancelledBy
  pub google_event_id : Option ℕ
  pub created_at : ℕ
  pub updated_at : ℕ

-- The mail kinds, of which each is sent to both parties.
pub data MailKind : Type 0 where
  confirmed_mail cancelled_mail rescheduled_mail reminder_mail : MailKind

pub data Recipient : Type 0 where
  to_visitor to_organiser : Recipient

pub data SyncKind : Type 0 where
  insert_event delete_event reschedule_event : SyncKind

pub data Payload : Type 0 where
  mail : MailKind → ℕ → Recipient → Option ℕ → Payload
  reminder : ℕ → Payload
  sync : SyncKind → ℕ → Payload

-- rooms.Emit of "page.changed" to "booking:<page>".
pub data Event : Type 0 where
  page_changed : ℕ → Event

pub record Organization : Type 0 where
  pub id : ℕ
  pub slug : Text

pub record Db : Type 0 where
  pub organizations : List Organization
  pub pages : List Page
  pub bookings : List Booking
  pub jobs : List (Job Payload)
  pub events : List Event

abbrev pub is_null : Option ℕ → Bool
is_null none = true
is_null (some _) = false

abbrev pub is_paused : PageStatus → Bool
is_paused paused = true
is_paused active = false

abbrev pub is_confirmed : BookingStatus → Bool
is_confirmed confirmed = true
is_confirmed cancelled = false

abbrev pub is_live : Page → Bool
is_live p = is_null p.deleted_at && is_null p.suspended_at

unfoldable pub get_organization_by_slug : Text → Db → Option Organization
get_organization_by_slug slug db =
    select_one (λ (o : Organization). text_eq o.slug slug) db.organizations

unfoldable pub get_booking_page_by_org_slug : ℕ → Text → Db → Option Page
get_booking_page_by_org_slug org slug db =
    select_one (λ (p : Page). p.organization_id == org && text_eq p.slug slug && is_live p) db.pages

unfoldable pub get_booking_page : ℕ → Db → Option Page
get_booking_page id db = select_one (λ (p : Page). p.id == id && is_live p) db.pages

unfoldable pub get_booking : ℕ → Db → Option Booking
get_booking id db = select_one (λ (b : Booking). b.id == id) db.bookings

abbrev pub is_in_range : ℕ → ℕ → ℕ → Booking → Bool
is_in_range page from to b =
    b.page_id == page && is_confirmed b.status && ltb b.start_at to && ltb from b.end_at

abbrev pub interval_of : Booking → Interval
interval_of b = record { start = b.start_at; finish = b.end_at }

-- `excluded` is the source's excludeBookingID, "" for none.
unfoldable pub booked_intervals_for_page : ℕ → ℕ → ℕ → Option ℕ → List Booking → List Interval
booked_intervals_for_page page from to excluded [] = []
booked_intervals_for_page page from to excluded (b ∷ bs) =
    let rest = booked_intervals_for_page page from to excluded bs in
    if is_in_range page from to b && not (option_is b.id excluded)
    then interval_of b ∷ rest
    else rest

-- INSERT INTO bookings.
abbrev pub insert_booking : Booking → Db → Db
insert_booking b db = record db { bookings = db.bookings ++ b ∷ [] }

abbrev pub has_id : ℕ → Booking → Bool
has_id id b = b.id == id

-- UpdateBookingStatus, as Cancel calls it.
abbrev pub update_booking_status : ℕ → CancelledBy → ℕ → Db → Db
update_booking_status id by now db = record db {
  bookings =
      update_where (has_id id)
        (λ (b : Booking). record b { status = cancelled; cancelled_by = some by; updated_at = now })
        db.bookings;
}

abbrev pub moved : ℕ → ℕ → ℕ → Booking → Booking
moved start end now b = record b { start_at = start; end_at = end; updated_at = now }

-- UpdateBookingSchedule.
abbrev pub update_booking_schedule : ℕ → ℕ → ℕ → ℕ → Db → Db
update_booking_schedule id start end now db = record db {
  bookings = update_where (has_id id) (moved start end now) db.bookings;
}

abbrev pub emit : Event → Db → Db
emit e db = record db { events = db.events ++ e ∷ [] }
