-- ===== src/Tests/Hours.antt =====
-- A page with opening hours before and after lunch.
use whenweall.Prelude.{◌≡◌, refl, true, false, none, some, [], ◌∷◌}
use whenweall.Prelude.Text.{codes}
use whenweall.Bookings.Availability.{TimeRange}
use whenweall.Bookings.Pages.{PageInput, day_ranges_ok, validate_page}
use whenweall.Bookings.Pages.Disjoint.{IsPage, validate_page-IsPage}
use whenweall.Tests.Data.{env, nine_to_twelve}

abbrev afternoon : TimeRange
afternoon = record { start = codes "13:00"; finish = codes "16:15" }

abbrev page : PageInput
page = record {
  slug = codes "intro-call";
  title = codes "Intro";
  description = none;
  location = some (codes "Oslo");
  timezone = codes "UTC";
  slot_duration_min = 30;
  buffer_before_min = 0;
  buffer_after_min = 15;
  min_notice_min = 60;
  max_days_ahead = 30;
  availability = some ((codes "1", nine_to_twelve ∷ afternoon ∷ []) ∷ []);
  date_overrides = some ((codes "2026-12-24", []) ∷ []);
  google_sync = false;
  reminders = true;
  status = codes "active";
}

page-valid : validate_page env page ≡ true
unfolding validate_page
page-valid = refl

overlapping : day_ranges_ok (afternoon ∷ nine_to_twelve ∷ []) ≡ false
unfolding day_ranges_ok
overlapping = refl

validate_page-IsPage_example : IsPage page
validate_page-IsPage_example = validate_page-IsPage env page page-valid
