-- ===== src/Bookings/Service/Prefetch.antt =====
-- What Reschedule of internal/bookings/bookings.go read before its transaction stays true of the
-- booking's page: it may lock the page by that read.
use whenweall.Prelude.{
  ℕ, ◌+◌, ◌≡◌, ◌≢◌, sym, ap, ◌∙◌, inl, inr, Bool, ◌||◌, some, List, [], ◌∷◌, ◌++◌, ◌==◌, ==_iff,
  All, Any, Bool-cases, update_where, select_one, subst,
}
use mathlib.Core.Option.{some-injective}
use whenweall.Prelude.Text.{Text}
use whenweall.Bookings.Availability.{slot_duration}
use whenweall.Bookings.Store.{Booking, Db, get_booking, has_id, moved, is_confirmed}
use whenweall.Bookings.Outcome.{ok, found-ok, require-ok}
use whenweall.Bookings.Input.{Env}
use whenweall.Bookings.Service.{ReschedulePrefetch, reschedule_prefetch, verify_manage_token}
use whenweall.Bookings.Service.Schedule.{Fits, IsSchedule}
use whenweall.Bookings.Service.Book.{HasBoundedPages, book_tx-keeps_buffers}
use whenweall.Bookings.Service.Move.{IsOnPage, reschedule_tx-IsMoved, bookings-reschedule_writes}
use whenweall.Bookings.Service.Cancel.{cancel-IsCancelled, bookings-cancel_writes, mark_cancelled}
use whenweall.Bookings.Service.History.{
  Step, booked, cancelled, rescheduled, other, Reach, here, next, Reach-bounded, Reach-IsSchedule,
}

-- A row with the id is there, and on the page.
abbrev IsRowOn : ℕ → ℕ → Booking → Type 0
IsRowOn id page b = (b.id ≡ id) × (b.page_id ≡ page)

abbrev Known : ℕ → ℕ → List Booking → Type 0
Known id page bs = Any (IsRowOn id page) bs

module _ (id page : ℕ) where
  Known-append : (bs cs : List Booking) → Known id page bs → Known id page (bs ++ cs)
  Known-append [] cs k = elim k [ ]
  Known-append (b ∷ bs) cs (inl e) = inl e
  Known-append (b ∷ bs) cs (inr k) = inr (Known-append bs cs k)

  Known-update :
      (p : Booking → Bool) (f : Booking → Booking) (bs : List Booking)
      → ((b : Booking) → IsRowOn id page b → IsRowOn id page (f b))
      → Known id page bs
      → Known id page (update_where p f bs)
  Known-update p f [] keep k = elim k [ ]
  Known-update p f (b ∷ bs) keep (inl e) = elim (Bool-cases (p b)) [
    | inl t ↦ rw t (inl (keep b e))
    | inr t ↦ rw t (inl e)
  ]
  Known-update p f (b ∷ bs) keep (inr k) = inr (Known-update p f bs keep k)

  -- Ids are unique in a schedule, so the row is the only one with its id.
  others-IsOnPage :
      (b : Booking) (bs : List Booking) → b.id ≡ id → All (Fits b) bs → All (IsOnPage id page) bs
  others-IsOnPage b [] e f = tt
  others-IsOnPage b (c ∷ bs) e (g, f) =
      ((λ ec. absurd (g.0 (e ∙ sym ec))), others-IsOnPage b bs e f)

  not-Known : (b : Booking) (bs : List Booking) → Known id page bs → All (Fits b) bs → b.id ≢ id
  not-Known b [] k f = elim k [ ]
  not-Known b (c ∷ bs) (inl e) (g, f) = λ eb. g.0 (eb ∙ sym e.0)
  not-Known b (c ∷ bs) (inr k) (g, f) = not-Known b bs k f

  Known-IsOnPage :
      (bs : List Booking) → Known id page bs → IsSchedule bs → All (IsOnPage id page) bs
  Known-IsOnPage [] k h = tt
  Known-IsOnPage (b ∷ bs) (inl (ei, ep)) (f, h) = ((λ _. ep), others-IsOnPage b bs ei f)
  Known-IsOnPage (b ∷ bs) (inr k) (f, h) =
      ((λ e. absurd (not-Known b bs k f e)), Known-IsOnPage bs k h)

  Step-Known :
      {env : Env} {db db' : Db}
      → HasBoundedPages db
      → Step env db db'
      → Known id page db.bookings
      → Known id page db'.bookings
  Step-Known {env} {db} {db'} b (booked ids slug input pre now r fresh done _) k =
      let (p, _, _, e) = book_tx-keeps_buffers env ids slug input pre now db r db' done b in
      rw e (Known-append db.bookings _ k)
  Step-Known {env} {db} {db'} b (cancelled ids i token by now done _) k =
      let c = cancel-IsCancelled env ids i token by now db db' done in
      let (by', e) = bookings-cancel_writes ids c.booking by now db in
      elim (Bool-cases (is_confirmed c.booking.status)) [
        | inl live ↦
            rw (c.written, live, e)
              (Known-update (has_id c.booking.id) (mark_cancelled by' now) db.bookings (λ b r. r) k)
        | inr dead ↦ rw (c.written, dead) k
      ]
  Step-Known {env} {db} {db'} b (rescheduled ids i token start by pre now r on done _) k =
      let m = reschedule_tx-IsMoved env ids i token start by pre now db r db' done in
      rw (m.written, bookings-reschedule_writes)
        (Known-update (has_id m.booking.id) (moved start (start + slot_duration m.page.rules) now)
          db.bookings (λ b r. r) k)
  Step-Known b (other e _) k = rw e k

  Reach-Known :
      {env : Env} {s db : Db}
      → HasBoundedPages s
      → Reach env s db
      → Known id page s.bookings
      → Known id page db.bookings
  Reach-Known b here k = k
  Reach-Known b (next r st) k = Step-Known (Reach-bounded b r) st (Reach-Known b r k)

select_one-Known :
    (id : ℕ) (bs : List Booking) (b : Booking)
    → select_one (has_id id) bs ≡ some b
    → Known id b.page_id bs
select_one-Known id [] b e = cc
select_one-Known id (c ∷ bs) b e = elim (Bool-cases (c.id == id)) [
  | inl t ↦ inl ((==_iff c.id id).0 t, ap Booking.page_id (some-injective c b (rw t at e)))
  | inr t ↦ inr (select_one-Known id bs b (rw t at e))
]

-- The page that Reschedule reads before its transaction is the booking's own page still, after any
-- transactions in between, so the lock it takes is on the right page, if the bookings were a
-- schedule and the pages bounded when it read.
pub prefetch_stays :
    (env : Env) (id : ℕ) (token : Text) (start : ℕ) (by_organiser : Bool) (pre : ReschedulePrefetch)
    (s db : Db)
    → HasBoundedPages s
    → IsSchedule s.bookings
    → reschedule_prefetch env id token start by_organiser s ≡ ok pre
    → Reach env s db
    → All (IsOnPage id pre.page) db.bookings
unfolding reschedule_prefetch get_booking
prefetch_stays env id token start by_organiser pre s db b h done r =
    let (booking, is_booking, h1) = found-ok (get_booking id s) _ _ done in
    let (authorised, h2) = require-ok (by_organiser || verify_manage_token env id token) _ _ h1 in
    let page : booking.page_id ≡ pre.page = cc in
    Known-IsOnPage id pre.page db.bookings
      (Reach-Known id pre.page b r (
        subst (λ p. Known id p s.bookings) page
          (select_one-Known id s.bookings booking is_booking)))
      (Reach-IsSchedule b h r)
