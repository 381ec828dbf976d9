-- ===== src/Bookings/Availability/Fuel.antt =====
-- The loop over a range in internal/bookings/availability.go ends, and within the model's fuel.
use native.Mathlib.Nat.{suc-add}
use whenweall.Prelude.{
  ℕ, zero, suc, ◌+◌, ◌*◌, ◌<◌, ◌≡◌, refl, false, List, arith, leb, inl, inr, Bool-cases,
}
use whenweall.Bookings.Availability.{Interval, PageRules, Found, slot_duration, lay_grid, grid_fuel}

module _ (rules : PageRules) (booked : List Interval) (now : ℕ) where
  lay_grid_out :
      (fuel start e : ℕ) (st : Found)
      → e < start + slot_duration rules
      → lay_grid rules booked now fuel start e st ≡ st
  unfolding lay_grid
  lay_grid_out zero start e st h = refl
  lay_grid_out (suc fuel) start e st h =
      let over : leb (start + slot_duration rules) e ≡ false = ground arith in rw over

  lay_grid_enough :
      (fuel more start e : ℕ) (st : Found)
      → e < start + suc fuel * slot_duration rules
      → lay_grid rules booked now (fuel + more) start e st
        ≡ lay_grid rules booked now fuel start e st
  unfolding lay_grid
  lay_grid_enough zero more start e st h = lay_grid_out (zero + more) start e st (omega arith)
  lay_grid_enough (suc fuel) more start e st h =
      rw suc-add (elim (Bool-cases (leb (start + slot_duration rules) e)) [
        | inl b ↦ rw b (lay_grid_enough fuel more (start + slot_duration rules) e _ (ground arith))
        | inr b ↦ rw b
      ])

  -- With a positive slot duration, the loop over a range has ended by its own test within the
  -- model's fuel: no further round changes what it finds.
  pub grid_fuel_enough :
      (s e more : ℕ) (st : Found)
      → 0 < slot_duration rules
      → lay_grid rules booked now (grid_fuel rules booked now s e + more) s e st
        ≡ lay_grid rules booked now (grid_fuel rules booked now s e) s e st
  grid_fuel_enough s e more st pos =
      lay_grid_enough (grid_fuel rules booked now s e) more s e st (grind arith)
