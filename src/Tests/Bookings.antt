-- ===== src/Tests/Bookings.antt =====
-- Book, Cancel and Reschedule of internal/bookings/bookings.go on the page of Tests/Data.antt.
use whenweall.Prelude.{◌≡◌, refl, true, false, none, some, [], ◌∷◌, ◌++◌, arith, All}
use whenweall.Prelude.Text.{codes, trim_space, byte_len}
use whenweall.Bookings.Availability.{is_slot_available, scan_hhmm, try_slot}
use whenweall.Bookings.Store.{
  Page, Db, get_booking_page_by_org_slug, get_booking_page, get_booking, get_organization_by_slug,
  booked_intervals_for_page,
}
use whenweall.Bookings.Outcome.{ok, err, err_slot_taken, err_invalid_token}
use whenweall.Bookings.Input.{validate}
use whenweall.Bookings.Effects.{google_busy_for_page}
use whenweall.Bookings.Service.{
  BookingResult, BookPrefetch, ReschedulePrefetch, book_prefetch, new_booking, book_writes, book_tx,
  cancel_writes, cancel, manage_token, verify_manage_token, reschedule_prefetch, reschedule_writes,
  reschedule_tx,
}
use whenweall.Bookings.Service.Schedule.{IsSchedule}
use whenweall.Bookings.Service.Busy.{IsBounded, Clears}
use whenweall.Bookings.Service.Book.{HasBoundedPages, IsFresh, book_tx-keeps_buffers}
use whenweall.Bookings.Service.Move.{IsOnPage}
use whenweall.Bookings.Service.Cancel.{cancel_idempotent}
use whenweall.Bookings.Service.History.{Reach, here, next, booked, rescheduled, Reach-IsSchedule}
use whenweall.Bookings.Service.Prefetch.{prefetch_stays}
use whenweall.Tests.Data.{rules, page, env, db, ids, input, midnight, nine, ten, eleven, booking_at}

abbrev pre : BookPrefetch
pre = record { org = 1; google_busy = [] }

book_prefetch-db : book_prefetch env (codes "org") (codes "intro") input db ≡ ok pre
unfolding book_prefetch validate trim_space byte_len google_busy_for_page get_organization_by_slug
    get_booking_page_by_org_slug
book_prefetch-db = refl

abbrev result : BookingResult
result = record {
  booking_id = 200;
  manage_token = codes "token";
  previous_start_at = none;
  changed = true;
}

abbrev db_booked : Db
db_booked = book_writes ids page midnight input db

book_tx-db : book_tx env ids (codes "intro") input pre midnight db ≡ ok (result, db_booked)
unfolding book_tx get_booking_page_by_org_slug is_slot_available scan_hhmm try_slot
    booked_intervals_for_page manage_token
book_tx-db = refl

-- A second booking at nine is refused.
book_tx_taken :
    book_tx env ids (codes "intro") (record input { start_at = nine }) pre midnight db
    ≡ err err_slot_taken
unfolding book_tx get_booking_page_by_org_slug is_slot_available scan_hhmm try_slot
    booked_intervals_for_page
book_tx_taken = refl

rules-IsBounded : IsBounded rules
rules-IsBounded = record { after = omega arith; before = omega arith }

db-HasBoundedPages : HasBoundedPages db
db-HasBoundedPages = (rules-IsBounded, tt)

db-IsFresh : IsFresh 200 db
db-IsFresh = (omega arith, tt)

db-IsSchedule : IsSchedule db.bookings
db-IsSchedule = (tt, tt)

book_tx-keeps_buffers_example :
    (page : Page) × (get_booking_page_by_org_slug 1 (codes "intro") db ≡ some page)
    × All (Clears page.rules page.id none ten) db.bookings
    × (db_booked.bookings ≡ db.bookings ++ new_booking page 200 midnight input ∷ [])
book_tx-keeps_buffers_example =
    book_tx-keeps_buffers env ids (codes "intro") input pre midnight db result db_booked book_tx-db
      db-HasBoundedPages

-- The visitor at nine moves to eleven, with the page read in the booking's transaction.
abbrev move_pre : ReschedulePrefetch
move_pre = record { page = 7; google_busy = [] }

reschedule_prefetch-db : reschedule_prefetch env 100 (codes "token") eleven false db ≡ ok move_pre
unfolding reschedule_prefetch verify_manage_token google_busy_for_page get_booking_page get_booking
reschedule_prefetch-db = refl

abbrev move_result : BookingResult
move_result = record {
  booking_id = 100;
  manage_token = [];
  previous_start_at = some nine;
  changed = true;
}

abbrev db_moved : Db
db_moved = reschedule_writes ids page (booking_at 100 nine) eleven midnight db_booked

reschedule_tx-db :
    reschedule_tx env ids 100 (codes "token") eleven false move_pre midnight db_booked
    ≡ ok (move_result, db_moved)
unfolding reschedule_tx book_writes verify_manage_token get_booking_page get_booking
    is_slot_available scan_hhmm try_slot booked_intervals_for_page
reschedule_tx-db = refl

db_booked-HasBoundedPages : HasBoundedPages db_booked
unfolding book_writes
db_booked-HasBoundedPages = (rules-IsBounded, tt)

db_moved-HasBoundedPages : HasBoundedPages db_moved
unfolding reschedule_writes book_writes
db_moved-HasBoundedPages = (rules-IsBounded, tt)

db_booked-IsOnPage : All (IsOnPage 100 7) db_booked.bookings
unfolding book_writes
db_booked-IsOnPage = ((λ _. refl), ((λ _. refl), tt))

history_booked : Reach env db db_booked
history_booked = next here (
    booked ids (codes "intro") input pre midnight result db-IsFresh book_tx-db
      db_booked-HasBoundedPages)

history : Reach env db db_moved
history = next history_booked (
    rescheduled ids 100 (codes "token") eleven false move_pre midnight move_result
      db_booked-IsOnPage reschedule_tx-db db_moved-HasBoundedPages)

Reach-IsSchedule_example : IsSchedule db_moved.bookings
Reach-IsSchedule_example = Reach-IsSchedule db-HasBoundedPages db-IsSchedule history

prefetch_stays_example : All (IsOnPage 100 7) db_booked.bookings
prefetch_stays_example =
    prefetch_stays env 100 (codes "token") eleven false move_pre db db_booked db-HasBoundedPages
      db-IsSchedule reschedule_prefetch-db history_booked

abbrev db_cancelled : Db
db_cancelled = cancel_writes ids (booking_at 100 nine) false midnight db

cancel-db : cancel env ids 100 (codes "token") false midnight db ≡ ok db_cancelled
unfolding cancel verify_manage_token get_booking
cancel-db = refl

-- A visitor without the token cannot cancel.
cancel_unauthorised : cancel env ids 100 (codes "guess") false midnight db ≡ err err_invalid_token
unfolding cancel verify_manage_token get_booking
cancel_unauthorised = refl

cancel_idempotent_example : cancel env ids 100 [] true nine db_cancelled ≡ ok db_cancelled
cancel_idempotent_example =
    cancel_idempotent env ids 100 (codes "token") false midnight db db_cancelled cancel-db ids []
      true nine refl
