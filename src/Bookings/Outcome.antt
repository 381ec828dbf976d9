-- ===== src/Bookings/Outcome.antt =====
-- The errors that the booking methods of internal/bookings return (errors.go), and their results.
use whenweall.Prelude.Outcome.{Outcome}
pub use whenweall.Prelude.Outcome.{ok, err, ◌>>=◌, ◌>>◌, require, found, require-ok, found-ok}

pub data Error : Type 0 where
  err_not_found err_invalid_token err_conflict err_page_paused err_booking_past err_slot_taken :
      Error
  err_validation err_no_secret : Error

abbrev pub Result : Type 0 → Type 0
Result A = Outcome Error A
