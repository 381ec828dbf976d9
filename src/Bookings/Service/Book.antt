-- ===== src/Bookings/Service/Book.antt =====
-- What Book of internal/bookings/bookings.go commits.
use whenweall.Prelude.{
  ℕ, ◌≤◌, ◌≡◌, ◌≢◌, sym, select_one-All, refl, true, false, not, none, some, List, [], ◌∷◌, ◌++◌,
  arith, ltb, All,
}
use whenweall.Prelude.Text.{Text}
use whenweall.Bookings.Availability.{is_slot_available}
use whenweall.Bookings.Availability.Available.{is_slot_available-IsOpen}
use whenweall.Bookings.Store.{Page, Booking, Db, get_booking_page_by_org_slug, is_paused}
use whenweall.Bookings.Outcome.{ok, require-ok, found-ok}
use whenweall.Bookings.Input.{Env, BookInput}
use whenweall.Bookings.Service.{
  BookingResult, BookPrefetch, new_booking, book_writes, book_tx, busy_for_book,
}
use whenweall.Bookings.Service.Schedule.{Fits, IsSchedule, IsSchedule-append}
use whenweall.Bookings.Service.Busy.{
  IsBounded, Clears, All-append_left, All-append_right, booked_intervals-Clears,
}

bookings-book_writes :
    (ids : ℕ → ℕ) (page : Page) (now : ℕ) (input : BookInput) (db : Db)
    → (book_writes ids page now input db).bookings
      ≡ db.bookings ++ new_booking page (ids 0) now input ∷ []
unfolding book_writes
bookings-book_writes ids page now input db = ground arith

module _ (env : Env) (ids : ℕ → ℕ) (slug : Text) (input : BookInput) (pre : BookPrefetch) (now : ℕ)
    (db : Db) where
  -- Why a booking was made: each of the tests passed.
  pub record IsAccepted (r : BookingResult) (db' : Db) : Type 0 where
    pub page : Page
    pub is_page : get_booking_page_by_org_slug pre.org slug db ≡ some page
    pub not_paused : is_paused page.status ≡ false
    pub not_past : now ≤ input.start_at
    pub available :
        is_slot_available env.load_location page.rules input.start_at now
          (busy_for_book page input pre.google_busy db)
        ≡ true
    pub written : db' ≡ book_writes ids page now input db
    pub id : r.booking_id ≡ ids 0

  pub book_tx-IsAccepted :
      (r : BookingResult) (db' : Db)
      → book_tx env ids slug input pre now db ≡ ok (r, db')
      → IsAccepted r db'
  unfolding book_tx
  book_tx-IsAccepted r db' h =
      let (page, is_page, h1) = found-ok (get_booking_page_by_org_slug pre.org slug db) _ _ h in
      let (not_paused, h2) = require-ok (not (is_paused page.status)) _ _ h1 in
      let (not_past, h3) = require-ok (not (ltb input.start_at now)) _ _ h2 in
      let (available, h4) =
        require-ok
          (is_slot_available env.load_location page.rules input.start_at now
            (busy_for_book page input pre.google_busy db))
          _ _ h3 in
      record {
        page = page;
        is_page = is_page;
        not_paused = ground arith;
        not_past = ground arith;
        available = available;
        written = cc;
        id = cc;
      }

abbrev pub HasBoundedPages : Db → Type 0
HasBoundedPages db = All (λ (p : Page). IsBounded p.rules) db.pages

-- No row has the id.
abbrev pub IsFresh : ℕ → Db → Type 0
IsFresh id db = All (λ (b : Booking). b.id ≢ id) db.bookings

pub found-IsBounded :
    (org : ℕ) (slug : Text) (db : Db) (page : Page)
    → HasBoundedPages db
    → get_booking_page_by_org_slug org slug db ≡ some page
    → IsBounded page.rules
unfolding get_booking_page_by_org_slug
found-IsBounded org slug db page h e =
    select_one-All (λ (p : Page). IsBounded p.rules) _ db.pages page h e

new_booking-Fits :
    (page : Page) (id now : ℕ) (input : BookInput) (bs : List Booking)
    → All (λ (b : Booking). b.id ≢ id) bs
    → All (Clears page.rules page.id none input.start_at) bs
    → All (Fits (new_booking page id now input)) bs
new_booking-Fits page id now input [] f c = tt
new_booking-Fits page id now input (b ∷ bs) (ne, f) (clear, c) =
    (((λ e. ne (sym e)), ground (arith, clear refl)), new_booking-Fits page id now input bs f c)

module _ (env : Env) (ids : ℕ → ℕ) (slug : Text) (input : BookInput) (pre : BookPrefetch) (now : ℕ)
    (db : Db) (r : BookingResult) (db' : Db)
    (accepted : book_tx env ids slug input pre now db ≡ ok (r, db'))
    (bounded : HasBoundedPages db) where
  pub book_tx-Clears :
      (a : IsAccepted env ids slug input pre now db r db')
      → All (Clears a.page.rules a.page.id none input.start_at) db.bookings
  book_tx-Clears a =
      let free =
        (is_slot_available-IsOpen env.load_location a.page.rules input.start_at now _
          a.available).clear in
      booked_intervals-Clears a.page.rules
        (found-IsBounded pre.org slug db a.page bounded a.is_page) a.page.id none input.start_at
        db.bookings (All-append_left _ _ pre.google_busy (All-append_right _ input.busy _ free))

  -- A booking that is made clears, with its page's buffers on both sides, every confirmed booking
  -- of that page, however old the reads before the transaction are, if the slot of every page fits
  -- in a day with its buffers; it is stored confirmed, at the start that was asked for and with
  -- the page's slot duration, after all the rows before it.
  pub book_tx-keeps_buffers :
      (page : Page) × (get_booking_page_by_org_slug pre.org slug db ≡ some page)
      × All (Clears page.rules page.id none input.start_at) db.bookings
      × (db'.bookings ≡ db.bookings ++ new_booking page (ids 0) now input ∷ [])
  book_tx-keeps_buffers =
      let a = book_tx-IsAccepted env ids slug input pre now db r db' accepted in
      (
        a.page,
        a.is_page,
        book_tx-Clears a,
        rw a.written (bookings-book_writes ids a.page now input db),
      )

  -- Book keeps the schedule: if no two confirmed bookings of a page overlap before, none do after,
  -- provided that the booking's id is new and the slot of every page fits in a day with its
  -- buffers.
  pub book_tx-IsSchedule : IsFresh (ids 0) db → IsSchedule db.bookings → IsSchedule db'.bookings
  book_tx-IsSchedule fresh h =
      let a = book_tx-IsAccepted env ids slug input pre now db r db' accepted in
      rw (a.written, bookings-book_writes)
        (IsSchedule-append (new_booking a.page (ids 0) now input) db.bookings
          (new_booking-Fits a.page (ids 0) now input db.bookings fresh (book_tx-Clears a)) h)
