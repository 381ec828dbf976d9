-- ===== src/Bookings/Service/History.antt =====
-- Every history of bookings: the transactions of internal/bookings/bookings.go in any order, each
-- with what it read before its transaction.
use whenweall.Prelude.{ℕ, ◌≡◌, Bool, All}
use whenweall.Prelude.Text.{Text}
use whenweall.Bookings.Store.{Db}
use whenweall.Bookings.Outcome.{ok}
use whenweall.Bookings.Input.{Env, BookInput}
use whenweall.Bookings.Service.{
  BookingResult, BookPrefetch, ReschedulePrefetch, book_tx, cancel, reschedule_tx,
}
use whenweall.Bookings.Service.Schedule.{IsSchedule}
use whenweall.Bookings.Service.Book.{HasBoundedPages, IsFresh, book_tx-IsSchedule}
use whenweall.Bookings.Service.Move.{IsOnPage, reschedule_tx-IsSchedule}
use whenweall.Bookings.Service.Cancel.{cancel-IsSchedule}

-- One committed transaction. `other` is one that leaves the bookings alone, such as an edit of a
-- page, which keeps the page's limits.
pub data Step (env : Env) : Db → Db → Type 0 where
  booked :
      {db db' : Db} (ids : ℕ → ℕ) (slug : Text) (input : BookInput) (pre : BookPrefetch) (now : ℕ)
      (r : BookingResult)
      → IsFresh (ids 0) db
      → book_tx env ids slug input pre now db ≡ ok (r, db')
      → HasBoundedPages db'
      → Step env db db'
  cancelled :
      {db db' : Db} (ids : ℕ → ℕ) (id : ℕ) (token : Text) (by_organiser : Bool) (now : ℕ)
      → cancel env ids id token by_organiser now db ≡ ok db'
      → HasBoundedPages db'
      → Step env db db'
  rescheduled :
      {db db' : Db} (ids : ℕ → ℕ) (id : ℕ) (token : Text) (start : ℕ) (by_organiser : Bool)
      (pre : ReschedulePrefetch) (now : ℕ) (r : BookingResult)
      → All (IsOnPage id pre.page) db.bookings
      → reschedule_tx env ids id token start by_organiser pre now db ≡ ok (r, db')
      → HasBoundedPages db'
      → Step env db db'
  other : {db db' : Db} → db'.bookings ≡ db.bookings → HasBoundedPages db' → Step env db db'

pub data Reach (env : Env) (start : Db) : Db → Type 0 where
  here : Reach env start start
  next : {db db' : Db} → Reach env start db → Step env db db' → Reach env start db'

Step-bounded : {env : Env} {db db' : Db} → Step env db db' → HasBoundedPages db'
Step-bounded (booked ids slug input pre now r fresh done b) = b
Step-bounded (cancelled ids id token by now done b) = b
Step-bounded (rescheduled ids id token start by pre now r on done b) = b
Step-bounded (other e b) = b

Step-IsSchedule :
    {env : Env} {db db' : Db}
    → Step env db db'
    → HasBoundedPages db
    → IsSchedule db.bookings
    → IsSchedule db'.bookings
Step-IsSchedule {env} {db} {db'} (booked ids slug input pre now r fresh done _) b h =
    book_tx-IsSchedule env ids slug input pre now db r db' done b fresh h
Step-IsSchedule {env} {db} {db'} (cancelled ids id token by now done _) b h =
    cancel-IsSchedule env ids id token by now db db' done h
Step-IsSchedule {env} {db} {db'} (rescheduled ids id token start by pre now r on done _) b h =
    reschedule_tx-IsSchedule env ids id token start by pre now db r db' done b on h
Step-IsSchedule (other e _) b h = rw e h

pub Reach-bounded :
    {env : Env} {s db : Db} → HasBoundedPages s → Reach env s db → HasBoundedPages db
Reach-bounded b here = b
Reach-bounded b (next r st) = Step-bounded st

-- In every history of bookings, cancellations, moves and other transactions, no two confirmed
-- bookings of one page overlap, if none do at its start, the slot of every page fits in a day with
-- its buffers throughout, a new booking's id is new, and a move locks the page of its booking.
pub Reach-IsSchedule :
    {env : Env} {s db : Db}
    → HasBoundedPages s
    → IsSchedule s.bookings
    → Reach env s db
    → IsSchedule db.bookings
Reach-IsSchedule b h here = h
Reach-IsSchedule b h (next r st) = Step-IsSchedule st (Reach-bounded b r) (Reach-IsSchedule b h r)
