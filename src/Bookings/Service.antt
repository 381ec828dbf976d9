-- ===== src/Bookings/Service.antt =====
-- internal/bookings/bookings.go: Book, Cancel and Reschedule.
--
-- Book and Reschedule read before their transaction, and then run in one transaction that holds
-- the page's row lock. So each is two functions, of the database as it was at the first read and
-- of the database as the lock finds it; other transactions may run in between. A transaction
-- returns the database that it commits, and nothing of what it wrote if it returns an error.
-- `now` is the one reading of the clock, and `ids` gives the fresh ids.
pub mod Schedule
pub mod Busy
pub mod Book
pub mod Move
pub mod Cancel
pub mod History
pub mod Prefetch
use whenweall.Prelude.{
  ℕ, suc, ◌+◌, ◌-◌, ◌*◌, Bool, true, false, ◌&&◌, ◌||◌, not, Option, none, some, List, [], ◌∷◌,
  ◌++◌, ltb, if◌then◌else◌,
}
use whenweall.Prelude.Text.{Text, is_empty, text_eq, trim_space}
use whenweall.Bookings.Availability.{Interval, day_length, minute, slot_duration, is_slot_available}
use whenweall.Bookings.Store.{
  Page, paused, Booking, BookingStatus, confirmed, cancelled, CancelledBy, visitor, organiser,
  Visitor, Db, MailKind, confirmed_mail, cancelled_mail, rescheduled_mail, insert_event,
  delete_event, reschedule_event, page_changed, is_paused, is_confirmed, get_organization_by_slug,
  get_booking_page_by_org_slug, get_booking_page, get_booking, booked_intervals_for_page,
  insert_booking, update_booking_status, update_booking_schedule, emit, is_null,
}
use whenweall.Bookings.Outcome.{
  Error, Result, ok, err, ◌>>=◌, ◌>>◌, require, found, err_not_found, err_invalid_token,
  err_conflict, err_page_paused, err_booking_past, err_slot_taken, err_validation, err_no_secret,
}
use whenweall.Bookings.Effects.{
  enqueue_mail_booking, arm_booking_reminder, cancel_booking_reminder, enqueue_google_sync,
  google_sync_active, google_busy_for_page,
}
use whenweall.Bookings.Input.{Env, BookInput, validate, is_ok}

-- `manage_token` is "" for Reschedule.
pub record BookingResult : Type 0 where
  pub booking_id : ℕ
  pub manage_token : Text
  pub previous_start_at : Option ℕ
  pub changed : Bool

unfoldable pub manage_token : Env → ℕ → Text
manage_token env booking = env.hmac env.manage_secret booking

unfoldable pub verify_manage_token : Env → ℕ → Text → Bool
unfolding manage_token
verify_manage_token env booking token =
    not (is_empty env.manage_secret)
    && not (is_empty token)
    && text_eq (manage_token env booking) token

abbrev pub has_event : Option ℕ → Bool
has_event o = not (is_null o)

-- What Book reads before its transaction.
pub record BookPrefetch : Type 0 where
  pub org : ℕ
  pub google_busy : List Interval

abbrev pub google_busy_unless_paused : Env → Page → ℕ → List Interval
google_busy_unless_paused env page start =
    if is_paused page.status
    then []
    else google_busy_for_page env.google page (start - day_length) (start + day_length) []

unfoldable pub book_prefetch : Env → Text → Text → BookInput → Db → Result BookPrefetch
book_prefetch env org_slug page_slug input db = do
  require (is_ok (validate env input)) err_validation
  require (not (is_empty env.manage_secret)) err_no_secret
  org ← found (get_organization_by_slug org_slug db) err_not_found
  page ← found (get_booking_page_by_org_slug org.id page_slug db) err_not_found
  ok (record { org = org.id; google_busy = google_busy_unless_paused env page input.start_at })

abbrev trimmed : Option Text → Option Text
trimmed none = none
trimmed (some t) = some (trim_space t)

abbrev pub new_booking : Page → ℕ → ℕ → BookInput → Booking
new_booking page id now input = record {
  id = id;
  page_id = page.id;
  start_at = input.start_at;
  end_at = input.start_at + slot_duration page.rules;
  visitor = record {
    name = trim_space input.name;
    email = trim_space input.email;
    note = trimmed input.note;
    locale = trimmed input.locale;
    timezone = input.timezone;
  };
  status = confirmed;
  cancelled_by = none;
  google_event_id = none;
  created_at = now;
  updated_at = now;
}

-- The writes of Book, once the slot is free.
unfoldable pub book_writes : (ℕ → ℕ) → Page → ℕ → BookInput → Db → Db
unfolding enqueue_mail_booking arm_booking_reminder enqueue_google_sync google_sync_active
book_writes ids page now input db =
    let booked =
      emit (page_changed page.id) (insert_booking (new_booking page (ids 0) now input) db) in
    let mailed = enqueue_mail_booking ids now confirmed_mail (ids 0) none booked in
    let armed =
      if page.reminders then arm_booking_reminder ids (ids 0) input.start_at mailed else mailed in
    if google_sync_active && page.google_sync
    then enqueue_google_sync ids now insert_event (ids 0) armed
    else armed

abbrev pub busy_for_book : Page → BookInput → List Interval → Db → List Interval
busy_for_book page input google_busy db =
    input.busy
    ++ (booked_intervals_for_page page.id (input.start_at - day_length)
          (input.start_at + day_length) none db.bookings
        ++ google_busy)

unfoldable pub book_tx :
    Env → (ℕ → ℕ) → Text → BookInput → BookPrefetch → ℕ → Db → Result (BookingResult × Db)
book_tx env ids page_slug input pre now db = do
  page ← found (get_booking_page_by_org_slug pre.org page_slug db) err_not_found
  require (not (is_paused page.status)) err_page_paused
  require (not (ltb input.start_at now)) err_booking_past
  require
      (is_slot_available env.load_location page.rules input.start_at now
        (busy_for_book page input pre.google_busy db))
      err_slot_taken
  ok (
    record {
      booking_id = ids 0;
      manage_token = manage_token env (ids 0);
      previous_start_at = none;
      changed = true;
    },
    book_writes ids page now input db,
  )

unfoldable pub cancel_writes : (ℕ → ℕ) → Booking → Bool → ℕ → Db → Db
unfolding enqueue_mail_booking cancel_booking_reminder enqueue_google_sync google_sync_active
cancel_writes ids booking by_organiser now db =
    let by = if by_organiser then organiser else visitor in
    let marked = emit (page_changed booking.page_id) (update_booking_status booking.id by now db) in
    let mailed = enqueue_mail_booking ids now cancelled_mail booking.id none marked in
    let cleared = cancel_booking_reminder booking.id mailed in
    if google_sync_active && has_event booking.google_event_id
    then enqueue_google_sync ids now delete_event booking.id cleared
    else cleared

unfoldable pub cancel : Env → (ℕ → ℕ) → ℕ → Text → Bool → ℕ → Db → Result Db
cancel env ids id token by_organiser now db = do
  booking ← found (get_booking id db) err_not_found
  require (by_organiser || verify_manage_token env id token) err_invalid_token
  ok (if is_confirmed booking.status then cancel_writes ids booking by_organiser now db else db)

-- What Reschedule reads before its transaction.
pub record ReschedulePrefetch : Type 0 where
  pub page : ℕ
  pub google_busy : List Interval

abbrev google_busy_before : Env → Booking → ℕ → Option Page → List Interval
google_busy_before env booking start none = []
google_busy_before env booking start (some page) =
    if is_confirmed booking.status then google_busy_unless_paused env page start else []

unfoldable pub reschedule_prefetch : Env → ℕ → Text → ℕ → Bool → Db → Result ReschedulePrefetch
reschedule_prefetch env id token new_start by_organiser db = do
  booking ← found (get_booking id db) err_not_found
  require (by_organiser || verify_manage_token env id token) err_invalid_token
  ok (record {
    page = booking.page_id;
    google_busy = google_busy_before env booking new_start (get_booking_page booking.page_id db);
  })

unfoldable pub reschedule_writes : (ℕ → ℕ) → Page → Booking → ℕ → ℕ → Db → Db
unfolding enqueue_mail_booking arm_booking_reminder cancel_booking_reminder enqueue_google_sync
    google_sync_active
reschedule_writes ids page booking new_start now db =
    let moved = emit (page_changed page.id) (
      update_booking_schedule booking.id new_start (new_start + slot_duration page.rules) now db) in
    let mailed =
      enqueue_mail_booking ids now rescheduled_mail booking.id (some booking.start_at) moved in
    let armed =
      if page.reminders
      then arm_booking_reminder ids booking.id new_start mailed
      else cancel_booking_reminder booking.id mailed in
    if google_sync_active && (has_event booking.google_event_id || page.google_sync)
    then enqueue_google_sync ids now reschedule_event booking.id armed
    else armed

abbrev pub busy_for_reschedule : Page → ℕ → ℕ → List Interval → Db → List Interval
busy_for_reschedule page id new_start google_busy db =
    booked_intervals_for_page page.id (new_start - day_length) (new_start + day_length) (some id)
      db.bookings
    ++ google_busy

unfoldable pub reschedule_tx :
    Env → (ℕ → ℕ) → ℕ → Text → ℕ → Bool → ReschedulePrefetch → ℕ → Db → Result (BookingResult × Db)
reschedule_tx env ids id token new_start by_organiser pre now db = do
  page ← found (get_booking_page pre.page db) err_not_found
  require (not (is_paused page.status)) err_page_paused
  booking ← found (get_booking id db) err_not_found
  require (by_organiser || verify_manage_token env id token) err_invalid_token
  require (is_confirmed booking.status) err_conflict
  require (not (ltb new_start now)) err_booking_past
  require
      (is_slot_available env.load_location page.rules new_start now
        (busy_for_reschedule page id new_start pre.google_busy db))
      err_slot_taken
  ok (
    record {
      booking_id = id;
      manage_token = [];
      previous_start_at = some booking.start_at;
      changed = true;
    },
    reschedule_writes ids page booking new_start now db,
  )
