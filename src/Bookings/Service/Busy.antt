-- ===== src/Bookings/Service/Busy.antt =====
-- bookedIntervalsForPage of internal/bookings/bookings.go looks a day to either side of the
-- candidate, and that is far enough: a slot that clears the intervals it returns clears every
-- confirmed booking of the page.
use whenweall.Prelude.{
  ℕ, ◌+◌, ◌-◌, ◌*◌, ◌≤◌, ◌≡◌, inl, inr, true, false, ◌&&◌, not, Option, List, [], ◌∷◌, ◌++◌, arith,
  option_is, All, Bool-cases,
}
use whenweall.Bookings.Availability.{PageRules, Interval, day_length, minute, slot_duration}
use whenweall.Bookings.Availability.Spec.{IsClearOf}
use whenweall.Bookings.Store.{
  Booking, is_confirmed, is_in_range, interval_of, booked_intervals_for_page,
}

-- The window of a slot with its buffers fits in a day to either side (LimitSlotDurMax and
-- LimitBufferMax of internal/bookings/schemas.go keep it within 11 hours).
pub record IsBounded (rules : PageRules) : Type 0 where
  pub after : slot_duration rules + rules.buffer_after_min * minute ≤ day_length
  pub before : rules.buffer_before_min * minute ≤ day_length

-- A start whose padded window clears a booking, if that one is confirmed, on the page and not the
-- excluded one.
abbrev pub Clears : PageRules → ℕ → Option ℕ → ℕ → Booking → Type 0
Clears rules page excluded start b =
    option_is b.id excluded ≡ false
    → is_confirmed b.status ≡ true
    → b.page_id ≡ page
    → IsClearOf rules start (interval_of b)

pub All-append_left : (P : Interval → Type 0) (xs ys : List Interval) → All P (xs ++ ys) → All P xs
All-append_left P [] ys h = tt
All-append_left P (x ∷ xs) ys (p, h) = (p, All-append_left P xs ys h)

pub All-append_right : (P : Interval → Type 0) (xs ys : List Interval) → All P (xs ++ ys) → All P ys
All-append_right P [] ys h = h
All-append_right P (x ∷ xs) ys (p, h) = All-append_right P xs ys h

module _ (rules : PageRules) (bounded : IsBounded rules) (page : ℕ) (excluded : Option ℕ)
    (start : ℕ) where
  abbrev pub intervals : List Booking → List Interval
  intervals bs =
      booked_intervals_for_page page (start - day_length) (start + day_length) excluded bs

  Clears-out :
      (b : Booking)
      → (is_in_range page (start - day_length) (start + day_length) b
          && not (option_is b.id excluded))
        ≡ false
      → Clears rules page excluded start b
  Clears-out b out x c p = ground (arith, bounded.after, bounded.before)

  pub booked_intervals-Clears :
      (bs : List Booking)
      → All (IsClearOf rules start) (intervals bs)
      → All (Clears rules page excluded start) bs
  unfolding booked_intervals_for_page
  booked_intervals-Clears [] h = tt
  booked_intervals-Clears (b ∷ bs) h =
      elim (Bool-cases (
        is_in_range page (start - day_length) (start + day_length) b
        && not (option_is b.id excluded))) [
          | inl e ↦
              let h' : All (IsClearOf rules start) (interval_of b ∷ intervals bs) = rw e at h in
              ((λ x c p. h'.0), booked_intervals-Clears bs h'.1)
          | inr e ↦
              let h' : All (IsClearOf rules start) (intervals bs) = rw e at h in
              (Clears-out b e, booked_intervals-Clears bs h')
        ]
