-- ===== src/Tests/Slots.antt =====
-- The slots of internal/bookings/availability.go on one Monday.
use whenweall.Prelude.{ℕ, ◌+◌, ◌*◌, ◌-◌, ◌/◌, ◌≤◌, ◌≡◌, refl, inl, inr, true, [], ◌∷◌, arith, Has}
use whenweall.Bookings.Availability.{
  nothing_found, scan_hhmm, try_slot, lay_grid, grid_fuel, slots_in, is_slot_available,
  local_to_utc, ranges_on, minute, day_length,
}
use whenweall.Bookings.Availability.Spec.{IsOpen}
use whenweall.Bookings.Availability.Sound.{IsBookable, slots_in_sound}
use whenweall.Bookings.Availability.Complete.{IsRegular, slots_in_complete}
use whenweall.Bookings.Availability.Sorted.{IsIncreasing, slots_in-IsIncreasing}
use whenweall.Bookings.Availability.Available.{
  is_slot_available-IsOpen, IsBookable-is_slot_available,
}
use whenweall.Bookings.Availability.Fuel.{grid_fuel_enough}
use whenweall.Tests.Data.{utc, rules, env, midnight, nine, ten, eleven, busy_at_nine}

abbrev monday_evening : ℕ
monday_evening = midnight + 20 * 60 * minute

-- Nine is booked, and the five minutes of buffer before half past nine meet that booking.
monday_slots :
    slots_in utc rules busy_at_nine midnight midnight monday_evening
    ≡ ten ∷ (ten + 30 * minute) ∷ eleven ∷ (eleven + 30 * minute) ∷ []
unfolding slots_in scan_hhmm try_slot
monday_slots = refl

utc-IsRegular : IsRegular utc
utc-IsRegular = record { aligned = λ day h m. omega arith; forward = λ day h m u le. omega arith }

ten_offered :
    (from to : ℕ)
    → from / day_length ≤ 1
    → 1 ≤ to / day_length
    → IsBookable utc rules busy_at_nine midnight from to ten
unfolding ranges_on local_to_utc scan_hhmm
ten_offered from to lo hi = (
  record {
    day = 1;
    from_first = lo;
    to_last = hi;
    on_day = inl (record {
      opens = nine;
      closes = nine + 3 * 60 * minute;
      opens_at = refl;
      closes_at = refl;
      increasing = omega arith;
      on_grid = (2, refl, omega arith);
    });
  },
  record { noticed = omega arith; in_time = omega arith; clear = (inr (omega arith), tt) },
)

slots_in_complete_example :
    Has ten (slots_in utc rules busy_at_nine midnight midnight monday_evening)
slots_in_complete_example =
    slots_in_complete utc utc-IsRegular rules busy_at_nine (omega arith) (omega arith, tt) midnight
      midnight monday_evening ten (ten_offered midnight monday_evening (omega arith) (omega arith))

ten_found : Has ten (slots_in utc rules busy_at_nine midnight midnight monday_evening)
unfolding slots_in scan_hhmm try_slot
ten_found = inl refl

slots_in_sound_example : IsBookable utc rules busy_at_nine midnight midnight monday_evening ten
slots_in_sound_example =
    slots_in_sound utc rules busy_at_nine midnight midnight monday_evening ten ten_found

slots_in-IsIncreasing_example :
    IsIncreasing (slots_in utc rules busy_at_nine midnight midnight monday_evening)
slots_in-IsIncreasing_example =
    slots_in-IsIncreasing utc rules busy_at_nine midnight midnight monday_evening

ten_available : is_slot_available env.load_location rules ten midnight busy_at_nine ≡ true
unfolding is_slot_available scan_hhmm try_slot
ten_available = refl

is_slot_available-IsOpen_example : IsOpen rules busy_at_nine midnight ten
is_slot_available-IsOpen_example =
    is_slot_available-IsOpen env.load_location rules ten midnight busy_at_nine ten_available

IsBookable-is_slot_available_example :
    is_slot_available env.load_location rules ten midnight busy_at_nine ≡ true
IsBookable-is_slot_available_example =
    IsBookable-is_slot_available env.load_location rules utc ten midnight busy_at_nine refl
      utc-IsRegular (omega arith) (omega arith, tt)
      (ten_offered (ten - day_length) (ten + day_length) (omega arith) (omega arith))

grid_fuel_enough_example :
    lay_grid rules busy_at_nine midnight
      (grid_fuel rules busy_at_nine midnight nine eleven + 3)
      nine
      eleven
      nothing_found
    ≡ lay_grid rules busy_at_nine midnight
        (grid_fuel rules busy_at_nine midnight nine eleven)
        nine
        eleven
        nothing_found
grid_fuel_enough_example =
    grid_fuel_enough rules busy_at_nine midnight nine eleven 3 nothing_found (omega arith)
