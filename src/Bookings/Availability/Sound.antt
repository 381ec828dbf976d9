-- ===== src/Bookings/Availability/Sound.antt =====
-- Every slot that internal/bookings/availability.go returns is offered and open.
use whenweall.Prelude.{
  ℕ, zero, suc, ◌+◌, ◌-◌, ◌≤◌, ◌<◌, ◌≡◌, refl, inl, inr, Option, some, none, List, [], ◌∷◌, arith,
  ltb, leb, All, Any, Has, Bool-cases, ltb→lt, leb→le, All-append,
}
use whenweall.Bookings.Availability.{
  Interval, TimeRange, PageRules, Zone, Found, slot_duration, local_to_utc, ranges_on, try_slot,
  lay_grid, grid_fuel, lay_between, lay_range, lay_ranges, lay_days, insert_sorted, sort, slots_in,
  nothing_found,
}
use whenweall.Bookings.Availability.Spec.{IsOpen, OnGrid, OnRange, IsOffered}
use whenweall.Bookings.Availability.Step.{try_slot-cases, IsAdmitted-IsOpen}

pub Has-All : (P : ℕ → Type 0) (t : ℕ) (xs : List ℕ) → All P xs → Has t xs → P t
Has-All P t [] h m = elim m [ ]
Has-All P t (x ∷ xs) h (inl e) = rw e h.0
Has-All P t (x ∷ xs) h (inr m) = Has-All P t xs h.1 m

pub insert_sorted-All :
    (P : ℕ → Type 0) (t : ℕ) (xs : List ℕ) → P t → All P xs → All P (insert_sorted t xs)
unfolding insert_sorted
insert_sorted-All P t [] p h = (p, tt)
insert_sorted-All P t (x ∷ xs) p h = elim (Bool-cases (ltb x t)) [
  | inl e ↦ rw e (h.0, insert_sorted-All P t xs p h.1)
  | inr e ↦ rw e (p, h)
]

pub sort-All : (P : ℕ → Type 0) (xs : List ℕ) → All P xs → All P (sort xs)
unfolding sort
sort-All P [] h = tt
sort-All P (x ∷ xs) h = insert_sorted-All P x (sort xs) h.0 (sort-All P xs h.1)

module _ (rules : PageRules) (booked : List Interval) (now : ℕ) (P : ℕ → Type 0) where
  try_slot-All :
      (start : ℕ) (st : Found)
      → (IsOpen rules booked now start → P start)
      → All P st.results
      → All P (try_slot rules booked now start st).results
  try_slot-All start st p h = elim (try_slot-cases rules booked now start st) [
    | inl kept ↦ rw kept.0 h
    | inr added ↦ rw added.0 (
        All-append P st.results (start ∷ []) h
          (p (IsAdmitted-IsOpen rules booked now start added.1), tt))
  ]

  lay_grid-All :
      (fuel start e : ℕ) (st : Found)
      → ((t : ℕ) → OnGrid rules start e t → IsOpen rules booked now t → P t)
      → All P st.results
      → All P (lay_grid rules booked now fuel start e st).results
  unfolding lay_grid
  lay_grid-All zero start e st p h = h
  lay_grid-All (suc fuel) start e st p h = elim (Bool-cases (leb (start + slot_duration rules) e)) [
    | inr out ↦ rw out h
    | inl fits ↦ rw fits (
        lay_grid-All fuel (start + slot_duration rules) e _
          (λ t g. p t (suc g.0, ground arith, g.2))
          (try_slot-All start st (p start (0, ground arith, leb→le _ _ fits)) h))
  ]

  lay_between-All :
      (zone : Zone) (day : ℕ) (r : TimeRange) (o c : Option ℕ) (st : Found)
      → local_to_utc zone day r.start ≡ o
      → local_to_utc zone day r.finish ≡ c
      → ((t : ℕ) → OnRange rules zone day t r → IsOpen rules booked now t → P t)
      → All P st.results
      → All P (lay_between rules booked now o c st).results
  unfolding lay_between
  lay_between-All zone day r (some s) (some f) st es ef p h = elim (Bool-cases (ltb s f)) [
    | inr out ↦ rw out h
    | inl lt ↦ rw lt (
        lay_grid-All (grid_fuel rules booked now s f) s f st
          (λ t g. p t (record {
            opens = s;
            closes = f;
            opens_at = es;
            closes_at = ef;
            increasing = ltb→lt s f lt;
            on_grid = g;
          }))
          h)
  ]
  lay_between-All zone day r none _ st es ef p h = h
  lay_between-All zone day r (some s) none st es ef p h = h

  lay_range-All :
      (zone : Zone) (day : ℕ) (r : TimeRange) (st : Found)
      → ((t : ℕ) → OnRange rules zone day t r → IsOpen rules booked now t → P t)
      → All P st.results
      → All P (lay_range rules booked now zone day r st).results
  unfolding lay_range
  lay_range-All zone day r st p h = lay_between-All zone day r _ _ st refl refl p h

  lay_ranges-All :
      (zone : Zone) (day : ℕ) (rs : List TimeRange) (st : Found)
      → ((t : ℕ) → Any (OnRange rules zone day t) rs → IsOpen rules booked now t → P t)
      → All P st.results
      → All P (lay_ranges rules booked now zone day rs st).results
  unfolding lay_ranges
  lay_ranges-All zone day [] st p h = h
  lay_ranges-All zone day (r ∷ rs) st p h =
      lay_ranges-All zone day rs _ (λ t g. p t (inr g))
        (lay_range-All zone day r st (λ t g. p t (inl g)) h)

  lay_days-All :
      (zone : Zone) (horizon left day : ℕ) (st : Found)
      → ((t d : ℕ)
          → day ≤ d
          → d < day + left
          → Any (OnRange rules zone d t) (ranges_on rules d)
          → IsOpen rules booked now t
          → P t)
      → All P st.results
      → All P (lay_days rules booked now zone horizon left day st).results
  unfolding lay_days
  lay_days-All zone horizon zero day st p h = h
  lay_days-All zone horizon (suc left) day st p h = elim (Bool-cases (ltb horizon day)) [
    | inl out ↦ rw out h
    | inr within ↦ rw within (
        lay_days-All zone horizon left (day + 1) _ (λ t d lo hi. p t d (omega arith) (omega arith))
          (lay_ranges-All zone day (ranges_on rules day) st
            (λ t. p t day (omega arith) (omega arith)) h))
  ]

module _ (zone : Zone) (rules : PageRules) (booked : List Interval) (now from to : ℕ) where
  abbrev pub IsBookable : ℕ → Type 0
  IsBookable t =
      IsOffered rules zone (zone.date_of from) (zone.date_of to) t × IsOpen rules booked now t

  pub slots_in-All : All IsBookable (slots_in zone rules booked now from to)
  unfolding slots_in
  slots_in-All = elim (Bool-cases (ltb (zone.date_of to) (zone.date_of from))) [
    | inl out ↦ rw out tt
    | inr within ↦ rw within (
        sort-All IsBookable _ (
          lay_days-All rules booked now IsBookable zone _
            (suc (zone.date_of to - zone.date_of from)) (zone.date_of from) nothing_found
            (λ t d lo hi on clear.
              (record { day = d; from_first = lo; to_last = ground arith; on_day = on }, clear))
            tt))
  ]

  -- Every slot returned lies on the grid of a range of one of the days asked for, keeps the
  -- notice and the horizon, and with the page's buffers meets no busy interval.
  pub slots_in_sound : (t : ℕ) → Has t (slots_in zone rules booked now from to) → IsBookable t
  slots_in_sound t = Has-All IsBookable t _ slots_in-All
