-- ===== src/Bookings/Availability/Step.antt =====
-- The two outcomes of the innermost loop's body in internal/bookings/availability.go.
use whenweall.Prelude.{ℕ, ◌+◌, ◌≡◌, ◌⊎◌, false, true, List, [], ◌∷◌, ◌++◌, arith, ltb}
use whenweall.Bookings.Availability.{
  Interval, PageRules, Found, slot_duration, earliest_start, latest_end, conflict, is_seen,
  slot_key, try_slot,
}
use whenweall.Bookings.Availability.Spec.{IsOpen, conflict→IsClearOf}

module _ (rules : PageRules) (booked : List Interval) (now : ℕ) (start : ℕ) where
  -- The three tests before the one for duplicates.
  abbrev pub IsAdmitted : Type 0
  IsAdmitted =
      (ltb start (earliest_start rules now) ≡ false)
      × (ltb (latest_end rules now) (start + slot_duration rules) ≡ false)
      × (conflict rules booked start ≡ false)

  abbrev pub key : ℕ × ℕ
  key = slot_key start (start + slot_duration rules)

  abbrev pub IsKept : Found → Type 0
  IsKept st = (try_slot rules booked now start st ≡ st) × (IsAdmitted → is_seen key st.seen ≡ true)

  abbrev pub IsAdded : Found → Type 0
  IsAdded st =
      (try_slot rules booked now start st
        ≡ record { seen = key ∷ st.seen; results = st.results ++ start ∷ [] })
      × IsAdmitted
      × (is_seen key st.seen ≡ false)

  pub try_slot-cases : (st : Found) → IsKept st ⊎ IsAdded st
  unfolding try_slot
  try_slot-cases st = ground arith

  pub IsAdmitted-IsOpen : IsAdmitted → IsOpen rules booked now start
  IsAdmitted-IsOpen h = record {
    noticed = ground arith;
    in_time = ground arith;
    clear = conflict→IsClearOf rules booked start h.2;
  }
