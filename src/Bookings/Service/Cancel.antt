-- ===== src/Bookings/Service/Cancel.antt =====
-- What Cancel of internal/bookings/bookings.go commits.
use whenweall.Prelude.{
  ℕ, ◌≡◌, refl, ap, subst, ◌∙◌, inl, inr, Bool, true, false, ◌||◌, some, List, [], ◌∷◌, arith, ◌==◌,
  All, Bool-cases, if◌then◌else◌, update_where, select_one-update_where, select_one-test, ==_iff,
}
use mathlib.Core.Option
use whenweall.Prelude.Text.{Text}
use whenweall.Bookings.Store.{
  Booking, cancelled, CancelledBy, Db, is_confirmed, get_booking, has_id,
}
use whenweall.Bookings.Outcome.{ok, require-ok, found-ok}
use whenweall.Bookings.Input.{Env}
use whenweall.Bookings.Service.{cancel, cancel_writes, verify_manage_token}
use whenweall.Bookings.Service.Schedule.{Fits, IsSchedule, update_where-IsSchedule, updated}

abbrev pub mark_cancelled : CancelledBy → ℕ → Booking → Booking
mark_cancelled by now b = record b { status = cancelled; cancelled_by = some by; updated_at = now }

pub bookings-cancel_writes :
    (ids : ℕ → ℕ) (b : Booking) (by_organiser : Bool) (now : ℕ) (db : Db)
    → (by : CancelledBy) × ((cancel_writes ids b by_organiser now db).bookings
        ≡ update_where (has_id b.id) (mark_cancelled by now) db.bookings)
unfolding cancel_writes
bookings-cancel_writes ids b by_organiser now db = (_, refl)

mark-Fits :
    (id : ℕ) (by : CancelledBy) (now : ℕ) (a b : Booking)
    → Fits a b
    → Fits
        (updated (λ _. Unit {0}) (has_id id) (mark_cancelled by now) a)
        (updated (λ _. Unit {0}) (has_id id) (mark_cancelled by now) b)
mark-Fits id by now a b (ne, f) = elim (Bool-cases (a.id == id)) [
  | inl ea ↦ elim (Bool-cases (b.id == id)) [
    | inl eb ↦ rw (ea, eb) (ne, refl)
    | inr eb ↦ rw (ea, eb) (ne, refl)
  ]
  | inr ea ↦ elim (Bool-cases (b.id == id)) [
    | inl eb ↦ rw (ea, eb) (ne, ground arith)
    | inr eb ↦ rw (ea, eb) (ne, f)
  ]
]

All-Unit : (bs : List Booking) → All (λ _. Unit {0}) bs
All-Unit [] = tt
All-Unit (b ∷ bs) = (tt, All-Unit bs)

module _ (env : Env) (ids : ℕ → ℕ) (id : ℕ) (token : Text) (by_organiser : Bool) (now : ℕ)
    (db db' : Db) (done : cancel env ids id token by_organiser now db ≡ ok db') where
  pub record IsCancelled : Type 0 where
    pub booking : Booking
    pub is_booking : get_booking id db ≡ some booking
    pub authorised : (by_organiser || verify_manage_token env id token) ≡ true
    pub written : db' ≡ (
        if is_confirmed booking.status then cancel_writes ids booking by_organiser now db else db)

  pub cancel-IsCancelled : IsCancelled
  unfolding cancel
  cancel-IsCancelled =
      let (booking, is_booking, h1) = found-ok (get_booking id db) _ _ done in
      let (authorised, h2) = require-ok (by_organiser || verify_manage_token env id token) _ _ h1 in
      record { booking = booking; is_booking = is_booking; authorised = authorised; written = cc }

  pub cancel-IsSchedule : IsSchedule db.bookings → IsSchedule db'.bookings
  cancel-IsSchedule h =
      let c = cancel-IsCancelled in
      let (by, e) = bookings-cancel_writes ids c.booking by_organiser now db in
      elim (Bool-cases (is_confirmed c.booking.status)) [
        | inl live ↦
            rw (c.written, live, e)
              (update_where-IsSchedule (λ _. Unit {0}) (has_id c.booking.id) (mark_cancelled by now)
                (λ a b _ _. mark-Fits c.booking.id by now a b) db.bookings (All-Unit db.bookings) h)
        | inr dead ↦ rw (c.written, dead) h
      ]

  is_cancelled_after :
      (b : Booking) × (get_booking id db' ≡ some b) × (is_confirmed b.status ≡ false)
  unfolding get_booking
  is_cancelled_after =
      let c = cancel-IsCancelled in
      let (by, e) = bookings-cancel_writes ids c.booking by_organiser now db in
      let same : c.booking.id ≡ id =
        (==_iff c.booking.id id).0
          (select_one-test (λ (b : Booking). b.id == id) db.bookings c.booking c.is_booking) in
      let e' : (cancel_writes ids c.booking by_organiser now db).bookings
          ≡ update_where (has_id id) (mark_cancelled by now) db.bookings =
        subst
          (λ i.
            (cancel_writes ids c.booking by_organiser now db).bookings
            ≡ update_where (has_id i) (mark_cancelled by now) db.bookings)
          same e in
      elim (Bool-cases (is_confirmed c.booking.status)) [
        | inl live ↦ (
          mark_cancelled by now c.booking,
          rw (c.written, live, e')
              (select_one-update_where (has_id id) (mark_cancelled by now) db.bookings (λ x. refl)
                ∙ ap (Option.map (mark_cancelled by now)) c.is_booking),
          refl,
        )
        | inr dead ↦ (c.booking, rw (c.written, dead) c.is_booking, dead)
      ]

  -- Cancel is idempotent: once it has succeeded, a further authorised Cancel of the booking on the
  -- database it left succeeds and writes nothing: no second mail, event or job.
  pub cancel_idempotent :
      (ids' : ℕ → ℕ) (token' : Text) (by_organiser' : Bool) (now' : ℕ)
      → (by_organiser' || verify_manage_token env id token') ≡ true
      → cancel env ids' id token' by_organiser' now' db' ≡ ok db'
  unfolding cancel
  cancel_idempotent ids' token' by_organiser' now' authorised =
      let (b, is_booking, dead) = is_cancelled_after in rw (is_booking, authorised, dead)
