-- ===== src/Bookings/Service/Move.antt =====
-- What Reschedule of internal/bookings/bookings.go commits.
use whenweall.Prelude.{
  ℕ, ◌+◌, ◌≤◌, ◌≡◌, inl, inr, Bool, true, false, ◌&&◌, ◌||◌, not, some, List, [], ◌∷◌, arith, ltb,
  ◌==◌, ==_iff, All, Bool-cases, select_one-All, select_one-test, update_where,
}
use whenweall.Prelude.Text.{Text}
use whenweall.Bookings.Availability.{PageRules, slot_duration, is_slot_available}
use whenweall.Bookings.Availability.Available.{is_slot_available-IsOpen}
use whenweall.Bookings.Store.{
  Page, Booking, Db, is_confirmed, get_booking_page, get_booking, is_paused, is_live, has_id, moved,
}
use whenweall.Bookings.Outcome.{ok, require-ok, found-ok}
use whenweall.Bookings.Input.{Env}
use whenweall.Bookings.Service.{
  BookingResult, ReschedulePrefetch, reschedule_writes, reschedule_tx, busy_for_reschedule,
  verify_manage_token,
}
use whenweall.Bookings.Service.Schedule.{Fits, IsSchedule, update_where-IsSchedule, updated}
use whenweall.Bookings.Service.Busy.{IsBounded, Clears, All-append_left, booked_intervals-Clears}
use whenweall.Bookings.Service.Book.{HasBoundedPages}

pub bookings-reschedule_writes :
    (ids : ℕ → ℕ) (page : Page) (b : Booking) (start now : ℕ) (db : Db)
    → (reschedule_writes ids page b start now db).bookings
      ≡ update_where (has_id b.id) (moved start (start + slot_duration page.rules) now) db.bookings
unfolding reschedule_writes
bookings-reschedule_writes ids page b start now db = ground arith

-- The rows with the id are on the page: a booking's page never changes.
abbrev pub IsOnPage : ℕ → ℕ → Booking → Type 0
IsOnPage id page b = b.id ≡ id → b.page_id ≡ page

module _ (rules : PageRules) (page id start now : ℕ) where
  abbrev CanPass : Booking → Type 0
  CanPass b = Clears rules page (some id) start b × IsOnPage id page b

  abbrev place : Booking → Booking
  place = updated CanPass (has_id id) (moved start (start + slot_duration rules) now)

  place-Fits : (a b : Booking) → CanPass a → CanPass b → Fits a b → Fits (place a) (place b)
  place-Fits a b (ca, pa) (cb, pb) (ne, f) = elim (Bool-cases (a.id == id)) [
    | inl ea ↦ elim (Bool-cases (b.id == id)) [
      | inl eb ↦ absurd (ground arith)
      | inr eb ↦ rw (ea, eb) (ne, ground (arith, cb eb, pa ((==_iff a.id id).0 ea)))
    ]
    | inr ea ↦ elim (Bool-cases (b.id == id)) [
      | inl eb ↦ rw (ea, eb) (ne, ground (arith, ca ea, pb ((==_iff b.id id).0 eb)))
      | inr eb ↦ rw (ea, eb) (ne, f)
    ]
  ]

All-pair :
    (P Q : Booking → Type 0) (bs : List Booking) → All P bs → All Q bs → All (λ b. P b × Q b) bs
All-pair P Q [] p q = tt
All-pair P Q (b ∷ bs) (p, ps) (q, qs) = ((p, q), All-pair P Q bs ps qs)

module _ (env : Env) (ids : ℕ → ℕ) (id : ℕ) (token : Text) (start : ℕ) (by_organiser : Bool)
    (pre : ReschedulePrefetch) (now : ℕ) (db : Db) where
  pub record IsMoved (r : BookingResult) (db' : Db) : Type 0 where
    pub page : Page
    pub booking : Booking
    pub is_page : get_booking_page pre.page db ≡ some page
    pub is_booking : get_booking id db ≡ some booking
    pub not_paused : is_paused page.status ≡ false
    pub authorised : (by_organiser || verify_manage_token env id token) ≡ true
    pub is_live : is_confirmed booking.status ≡ true
    pub not_past : now ≤ start
    pub available :
        is_slot_available env.load_location page.rules start now
          (busy_for_reschedule page id start pre.google_busy db)
        ≡ true
    pub written : db' ≡ reschedule_writes ids page booking start now db
    pub previous : r.previous_start_at ≡ some booking.start_at

  pub reschedule_tx-IsMoved :
      (r : BookingResult) (db' : Db)
      → reschedule_tx env ids id token start by_organiser pre now db ≡ ok (r, db')
      → IsMoved r db'
  unfolding reschedule_tx
  reschedule_tx-IsMoved r db' h =
      let (page, is_page, h1) = found-ok (get_booking_page pre.page db) _ _ h in
      let (not_paused, h2) = require-ok (not (is_paused page.status)) _ _ h1 in
      let (booking, is_booking, h3) = found-ok (get_booking id db) _ _ h2 in
      let (authorised, h4) = require-ok (by_organiser || verify_manage_token env id token) _ _ h3 in
      let (live, h5) = require-ok (is_confirmed booking.status) _ _ h4 in
      let (not_past, h6) = require-ok (not (ltb start now)) _ _ h5 in
      let (available, h7) =
        require-ok
          (is_slot_available env.load_location page.rules start now
            (busy_for_reschedule page id start pre.google_busy db))
          _ _ h6 in
      record {
        page = page;
        booking = booking;
        is_page = is_page;
        is_booking = is_booking;
        not_paused = ground arith;
        authorised = authorised;
        is_live = live;
        not_past = ground arith;
        available = available;
        written = cc;
        previous = cc;
      }

  page-id : (page : Page) → get_booking_page pre.page db ≡ some page → page.id ≡ pre.page
  unfolding get_booking_page
  page-id page e =
      let t = select_one-test (λ (p : Page). p.id == pre.page && is_live p) db.pages page e in
      ground arith

  page-IsBounded :
      (page : Page)
      → HasBoundedPages db
      → get_booking_page pre.page db ≡ some page
      → IsBounded page.rules
  unfolding get_booking_page
  page-IsBounded page h e = select_one-All (λ (p : Page). IsBounded p.rules) _ db.pages page h e

  booking-id : (b : Booking) → get_booking id db ≡ some b → b.id ≡ id
  unfolding get_booking
  booking-id b e =
      let t = select_one-test (λ (c : Booking). c.id == id) db.bookings b e in ground arith

  -- Reschedule keeps the schedule, whatever the reads before its transaction found, as long as the
  -- page they found is the booking's own and the slot of every page fits in a day with its
  -- buffers. The row that is moved does not block itself.
  pub reschedule_tx-IsSchedule :
      (r : BookingResult) (db' : Db)
      → reschedule_tx env ids id token start by_organiser pre now db ≡ ok (r, db')
      → HasBoundedPages db
      → All (IsOnPage id pre.page) db.bookings
      → IsSchedule db.bookings
      → IsSchedule db'.bookings
  reschedule_tx-IsSchedule r db' done bounded on_page h =
      let m = reschedule_tx-IsMoved r db' done in
      let free =
        (is_slot_available-IsOpen env.load_location m.page.rules start now _ m.available).clear in
      let clears =
        booked_intervals-Clears m.page.rules (page-IsBounded m.page bounded m.is_page) m.page.id
          (some id) start db.bookings (All-append_left _ _ pre.google_busy free) in
      rw (m.written, bookings-reschedule_writes, booking-id m.booking m.is_booking)
        (update_where-IsSchedule (CanPass m.page.rules m.page.id id start now) (has_id id) _
          (place-Fits m.page.rules m.page.id id start now) db.bookings
          (All-pair _ _ db.bookings clears (rw (page-id m.page m.is_page) on_page)) h)
