-- ===== src/Bookings/Availability/Complete.antt =====
-- Every offered and open slot is returned by internal/bookings/availability.go, and the loop over
-- a range leaves by its test within the fuel.
use whenweall.Prelude.{
  ℕ, zero, suc, ◌+◌, ◌-◌, ◌*◌, ◌%◌, ◌≤◌, ◌<◌, ◌≡◌, inl, inr, Option, some, none, false, List, [],
  ◌∷◌, arith, ltb, All, Any, Has, subst, Bool-cases, lt→ltb,
}
use whenweall.Bookings.Availability.{
  Interval, TimeRange, PageRules, Zone, Found, day_length, slot_duration, local_to_utc, at_wall,
  scan_hhmm, ranges_on, grid_fuel, lay_between, lay_range, lay_ranges, lay_days, slots_in, is_seen,
  nothing_found, millisecond,
}
use whenweall.Bookings.Availability.Spec.{IsOpen, OnRange, IsClearOf→conflict}
use whenweall.Bookings.Availability.Sound.{IsBookable}
use whenweall.Bookings.Availability.Step.{IsAdmitted}
use whenweall.Prelude.Text.{Text}
use whenweall.Bookings.Availability.Grows.{Has-sort, lay_ranges-Goes, lay_days-Goes}
use whenweall.Bookings.Availability.Seen.{
  SeenIsFound, lay_grid-SeenIsFound, lay_grid-finds, k-lt-fuel,
}

-- What is used of the zone database. Wall-clock times have whole milliseconds, since the program
-- asks for 0 seconds and 0 nanoseconds and no offset has a fraction of a second; and a day after a
-- wall-clock time on a date it is that date or a later one.
pub record IsRegular (zone : Zone) : Type 0 where
  pub aligned : (day h m : ℕ) → zone.wall day h m % millisecond ≡ 0
  pub forward : (day h m u : ℕ) → zone.wall day h m + day_length ≤ u → day ≤ zone.date_of u

-- The same of an instant that a range starts at.
pub record IsTimeOn (zone : Zone) (day s : ℕ) : Type 0 where
  pub aligned : s % millisecond ≡ 0
  pub forward : (u : ℕ) → s + day_length ≤ u → day ≤ zone.date_of u

abbrev MayBeTimeOn : Zone → ℕ → Option ℕ → Type 0
MayBeTimeOn zone day none = Unit
MayBeTimeOn zone day (some s) = IsTimeOn zone day s

at_wall-MayBeTimeOn :
    (zone : Zone)
    → IsRegular zone
    → (day : ℕ) (hm : Option (ℕ × ℕ)) → MayBeTimeOn zone day (at_wall zone day hm)
unfolding at_wall
at_wall-MayBeTimeOn zone r day none = tt
at_wall-MayBeTimeOn zone r day (some (hh, mm)) = record {
  aligned = r.aligned day hh mm;
  forward = r.forward day hh mm;
}

local_to_utc-MayBeTimeOn :
    (zone : Zone)
    → IsRegular zone
    → (day : ℕ) (t : Text) → MayBeTimeOn zone day (local_to_utc zone day t)
unfolding local_to_utc
local_to_utc-MayBeTimeOn zone r day t = at_wall-MayBeTimeOn zone r day (scan_hhmm t)

module _ (rules : PageRules) (booked : List Interval) (now : ℕ) where
  lay_between-SeenIsFound :
      (zone : Zone) (day : ℕ) (o c : Option ℕ) (st : Found)
      → MayBeTimeOn zone day o
      → SeenIsFound rules st
      → SeenIsFound rules (lay_between rules booked now o c st)
  unfolding lay_between
  lay_between-SeenIsFound zone day (some s) (some e) st a inv = elim (Bool-cases (ltb s e)) [
    | inl b ↦ rw b (
        lay_grid-SeenIsFound rules booked now (grid_fuel rules booked now s e) s e st a.aligned inv)
    | inr b ↦ rw b inv
  ]
  lay_between-SeenIsFound zone day none _ st a inv = inv
  lay_between-SeenIsFound zone day (some s) none st a inv = inv

  module _ (zone : Zone) (regular : IsRegular zone) where
    lay_range-SeenIsFound :
        (day : ℕ) (r : TimeRange) (st : Found)
        → SeenIsFound rules st
        → SeenIsFound rules (lay_range rules booked now zone day r st)
    unfolding lay_range
    lay_range-SeenIsFound day r st inv =
        lay_between-SeenIsFound zone day (local_to_utc zone day r.start)
          (local_to_utc zone day r.finish) st (local_to_utc-MayBeTimeOn zone regular day r.start)
          inv

    lay_ranges-SeenIsFound :
        (day : ℕ) (rs : List TimeRange) (st : Found)
        → SeenIsFound rules st
        → SeenIsFound rules (lay_ranges rules booked now zone day rs st)
    unfolding lay_ranges
    lay_ranges-SeenIsFound day [] st inv = inv
    lay_ranges-SeenIsFound day (r ∷ rs) st inv =
        lay_ranges-SeenIsFound day rs _ (lay_range-SeenIsFound day r st inv)

    range_start :
        (day s : ℕ) (r : TimeRange) → local_to_utc zone day r.start ≡ some s → IsTimeOn zone day s
    range_start day s r e = rw e at (local_to_utc-MayBeTimeOn zone regular day r.start)

    module _ (positive : 0 < slot_duration rules) (t : ℕ) (ok : IsAdmitted rules booked now t) where
      lay_range-finds :
          (day : ℕ) (r : TimeRange) (st : Found)
          → SeenIsFound rules st
          → OnRange rules zone day t r
          → Has t (lay_range rules booked now zone day r st).results
      unfolding lay_range lay_between
      lay_range-finds day r st inv on =
          let (k, at_k, fits) = on.on_grid in
          let fits_k : on.opens + k * slot_duration rules + slot_duration rules ≤ on.closes =
            omega arith in
          rw (on.opens_at, on.closes_at, lt→ltb on.opens on.closes on.increasing, at_k)
            (lay_grid-finds rules booked now k _ on.opens on.closes st
              (range_start day on.opens r on.opens_at).aligned inv
              (k-lt-fuel rules booked now on.opens on.closes k positive fits_k) fits_k
              (rw at_k at ok))

      lay_ranges-finds :
          (day : ℕ) (rs : List TimeRange) (st : Found)
          → SeenIsFound rules st
          → Any (OnRange rules zone day t) rs
          → Has t (lay_ranges rules booked now zone day rs st).results
      unfolding lay_ranges
      lay_ranges-finds day [] st inv h = elim h [ ]
      lay_ranges-finds day (r ∷ rs) st inv (inl on) =
          lay_ranges-Goes rules booked now t zone day rs _ (lay_range-finds day r st inv on)
      lay_ranges-finds day (r ∷ rs) st inv (inr h) =
          lay_ranges-finds day rs _ (lay_range-SeenIsFound day r st inv) h

      lay_days-finds :
          (horizon left day d : ℕ) (st : Found)
          → SeenIsFound rules st
          → day ≤ d
          → d < day + left
          → d ≤ horizon
          → Any (OnRange rules zone d t) (ranges_on rules d)
          → Has t (lay_days rules booked now zone horizon left day st).results
      unfolding lay_days
      lay_days-finds horizon zero day d st inv lo hi within on = absurd (omega arith)
      lay_days-finds horizon (suc left) day d st inv lo hi within on =
          let walked : ltb horizon day ≡ false = ground arith in
          rw walked (elim (Bool-cases (ltb day d)) [
            | inl later ↦
                lay_days-finds horizon left (day + 1) d _
                  (lay_ranges-SeenIsFound day (ranges_on rules day) st inv) (ground arith)
                  (omega arith) within on
            | inr today ↦
                let e : d ≡ day = ground arith in
                lay_days-Goes rules booked now t zone horizon left (day + 1) _ (
                  lay_ranges-finds day (ranges_on rules day) st inv
                    (subst (λ x. Any (OnRange rules zone x t) (ranges_on rules x)) e on))
          ])

module _ (zone : Zone) (regular : IsRegular zone) (rules : PageRules) (booked : List Interval)
    (positive : 0 < slot_duration rules)
    (proper : All (λ (b : Interval). b.start < b.finish) booked) (now from to : ℕ) where
  -- The horizon of the day loop drops no day that has an open slot.
  horizon-keeps :
      (day t : ℕ) (rs : List TimeRange)
      → Any (OnRange rules zone day t) rs
      → IsOpen rules booked now t
      → day ≤ zone.date_of (now + (rules.max_days_ahead + 1) * day_length)
  horizon-keeps day t [] on o = elim on [ ]
  horizon-keeps day t (r ∷ rs) (inl on) o =
      (range_start rules booked now zone regular day on.opens r on.opens_at).forward _
        (ground (arith, on.on_grid.1, o.in_time))
  horizon-keeps day t (r ∷ rs) (inr on) o = horizon-keeps day t rs on o

  IsOpen-IsAdmitted : (t : ℕ) → IsOpen rules booked now t → IsAdmitted rules booked now t
  IsOpen-IsAdmitted t o =
      (ground arith, ground arith, IsClearOf→conflict rules booked t positive proper o.clear)

  -- Every slot on a range of a day asked for that is open is returned: the loop over a range gets
  -- to each of its slots, no slot is dropped as a duplicate of another, and the horizon cuts off
  -- none. The slot duration is positive, each busy interval ends after it starts, and the zone is
  -- regular.
  pub slots_in_complete :
      (t : ℕ)
      → IsBookable zone rules booked now from to t
      → Has t (slots_in zone rules booked now from to)
  unfolding slots_in is_seen
  slots_in_complete t (offered, o) =
      let increasing : ltb (zone.date_of to) (zone.date_of from) ≡ false = ground arith in
      rw increasing (
        Has-sort t _ (
          lay_days-finds rules booked now zone regular positive t (IsOpen-IsAdmitted t o) _
            (suc (zone.date_of to - zone.date_of from)) (zone.date_of from) offered.day
            nothing_found (λ u a s. cc) offered.from_first (omega arith)
            (horizon-keeps offered.day t _ offered.on_day o) offered.on_day))
