-- ===== src/Bookings/Pages.antt =====
-- PageInput.Validate of internal/bookings/schemas.go, as the question whether it records no field.
-- What it says of each field it rejects is left out.
use whenweall.Prelude.{
  ℕ, ◌+◌, ◌*◌, Bool, true, false, ◌&&◌, ◌||◌, not, Option, none, some, List, [], ◌∷◌, ltb, leb,
  ◌==◌, length,
}
use whenweall.Prelude.Text.{Text, codes, is_empty, trim_space, byte_len, text_eq}
use whenweall.Polls.Schemas.{is_date_only}
use whenweall.Bookings.Availability.{TimeRange, scan_hhmm}
use whenweall.Bookings.Input.{Env, is_valid_timezone}
pub mod Disjoint

-- An Availability or DateOverrides as it is sent: each key once, none for nil.
abbrev pub RangesByKey : Type 0
RangesByKey = List (Text × List TimeRange)

-- The numbers are at least 0: the limits turn the others away.
pub record PageInput : Type 0 where
  pub slug : Text
  pub title : Text
  pub description : Option Text
  pub location : Option Text
  pub timezone : Text
  pub slot_duration_min : ℕ
  pub buffer_before_min : ℕ
  pub buffer_after_min : ℕ
  pub min_notice_min : ℕ
  pub max_days_ahead : ℕ
  pub availability : Option RangesByKey
  pub date_overrides : Option RangesByKey
  pub google_sync : Bool
  pub reminders : Bool
  pub status : Text

abbrev pub between : ℕ → ℕ → ℕ → Bool
between low high n = leb low n && leb n high

abbrev is_alnum : ℕ → Bool
is_alnum c = between b'a' b'z' c || between b'0' b'9' c

-- The characters after the first, the last of which is no hyphen.
unfoldable slug_tail : Text → Bool
slug_tail [] = false
slug_tail (c ∷ []) = is_alnum c
slug_tail (c ∷ d ∷ t) = (is_alnum c || c == b'-') && slug_tail (d ∷ t)

unfoldable pub is_slug : Text → Bool
unfolding slug_tail
is_slug [] = false
is_slug (c ∷ t) = is_alnum c && slug_tail t && between 3 30 (length (c ∷ t))

abbrev quarter : ℕ → ℕ → Bool
quarter d e =
    (d == b'0' && e == b'0')
    || (d == b'1' && e == b'5')
    || (d == b'3' && e == b'0')
    || (d == b'4' && e == b'5')

unfoldable pub is_hhmm : Text → Bool
is_hhmm (a ∷ b ∷ c ∷ d ∷ e ∷ []) =
    ((between b'0' b'1' a && between b'0' b'9' b) || (a == b'2' && between b'0' b'3' b))
    && c == b':'
    && quarter d e
is_hhmm _ = false

abbrev scanned_minutes : Option (ℕ × ℕ) → ℕ
scanned_minutes none = 0
scanned_minutes (some (h, m)) = h * 60 + m

-- Of a text that is_hhmm admits; the pages with another one are rejected, whatever it is here.
unfoldable pub to_minutes : Text → ℕ
unfolding scan_hhmm
to_minutes t = scanned_minutes (scan_hhmm t)

unfoldable pub range_ok : TimeRange → Bool
unfolding is_hhmm to_minutes
range_ok r = is_hhmm r.start && is_hhmm r.finish && ltb (to_minutes r.start) (to_minutes r.finish)

unfoldable pub all_ranges_ok : List TimeRange → Bool
unfolding range_ok
all_ranges_ok [] = true
all_ranges_ok (r ∷ rs) = range_ok r && all_ranges_ok rs

-- Sorted, and without overlap, from one range to the next.
unfoldable pub neighbours_ok : List TimeRange → Bool
unfolding to_minutes
neighbours_ok [] = true
neighbours_ok (r ∷ []) = true
neighbours_ok (r ∷ s ∷ rs) =
    leb (to_minutes r.start) (to_minutes s.start)
    && leb (to_minutes r.finish) (to_minutes s.start)
    && neighbours_ok (s ∷ rs)

unfoldable pub day_ranges_ok : List TimeRange → Bool
unfolding all_ranges_ok neighbours_ok
day_ranges_ok rs = leb (length rs) 20 && all_ranges_ok rs && neighbours_ok rs

unfoldable pub days_ok : (Text → Bool) → RangesByKey → Bool
unfolding day_ranges_ok
days_ok key_ok [] = true
days_ok key_ok ((key, rs) ∷ days) = key_ok key && day_ranges_ok rs && days_ok key_ok days

unfoldable pub is_weekday_key : Text → Bool
is_weekday_key (c ∷ []) = between b'0' b'6' c
is_weekday_key _ = false

unfoldable pub availability_ok : Option RangesByKey → Bool
unfolding days_ok is_weekday_key
availability_ok none = false
availability_ok (some days) = days_ok is_weekday_key days

unfoldable pub overrides_ok : Option RangesByKey → Bool
unfolding days_ok is_date_only
overrides_ok none = true
overrides_ok (some days) = leb (length days) 366 && days_ok is_date_only days

unfoldable text_ok : ℕ → Option Text → Bool
unfolding trim_space byte_len
text_ok limit none = true
text_ok limit (some t) = leb (byte_len (trim_space t)) limit

unfoldable pub page_texts_ok : Env → PageInput → Bool
unfolding is_slug text_ok trim_space byte_len is_valid_timezone
page_texts_ok env input =
    is_slug input.slug
    && not (is_empty (trim_space input.title))
    && leb (byte_len (trim_space input.title)) 200
    && text_ok 2000 input.description
    && text_ok 500 input.location
    && is_valid_timezone env input.timezone

abbrev pub page_numbers_ok : PageInput → Bool
page_numbers_ok input =
    between 15 480 input.slot_duration_min
    && between 0 120 input.buffer_before_min
    && between 0 120 input.buffer_after_min
    && between 0 10080 input.min_notice_min
    && between 1 365 input.max_days_ahead

abbrev pub status_ok : Text → Bool
status_ok t = is_empty t || text_eq t (codes "active") || text_eq t (codes "paused")

unfoldable pub validate_page : Env → PageInput → Bool
unfolding page_texts_ok availability_ok overrides_ok
validate_page env input =
    page_texts_ok env input
    && page_numbers_ok input
    && availability_ok input.availability
    && overrides_ok input.date_overrides
    && status_ok input.status
