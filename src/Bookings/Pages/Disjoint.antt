-- ===== src/Bookings/Pages/Disjoint.antt =====
-- What the opening hours of a page that PageInput.Validate of internal/bookings/schemas.go accepts
-- are.
use whenweall.Prelude.{
  ℕ, ◌≤◌, ◌<◌, ◌≡◌, Bool, true, ◌&&◌, Option, none, some, List, [], ◌∷◌, leb, ltb, arith, All,
  length, leb→le, ltb→lt,
}
use whenweall.Prelude.Text.{Text}
use whenweall.Bookings.Availability.{TimeRange, PageRules}
use whenweall.Bookings.Service.Busy.{IsBounded}
use whenweall.Polls.Schemas.{is_date_only}
use whenweall.Bookings.Input.{Env}
use whenweall.Bookings.Pages.{
  RangesByKey, PageInput, is_hhmm, to_minutes, range_ok, all_ranges_ok, neighbours_ok,
  day_ranges_ok, days_ok, availability_ok, overrides_ok, page_texts_ok, page_numbers_ok,
  validate_page, is_weekday_key, status_ok,
}

-- Each range is not empty, and ends before any later one starts.
abbrev pub IsDisjoint : List TimeRange → Type 0
unfolding to_minutes
IsDisjoint [] = Unit
IsDisjoint (r ∷ rs) =
    (to_minutes r.start < to_minutes r.finish)
    × All (λ s. to_minutes r.finish ≤ to_minutes s.start) rs
    × IsDisjoint rs

both : (a b : Bool) → a && b ≡ true → (a ≡ true) × (b ≡ true)
both a b h = (ground arith, ground arith)

all_three : (a b c : Bool) → a && b && c ≡ true → (a ≡ true) × (b ≡ true) × (c ≡ true)
all_three a b c h = (ground arith, ground arith, ground arith)

all_five :
    (a b c d e : Bool)
    → a && b && c && d && e ≡ true
    → (a ≡ true) × (b ≡ true) × (c ≡ true) × (d ≡ true) × (e ≡ true)
all_five a b c d e h = (ground arith, ground arith, ground arith, ground arith, ground arith)

range_ok-lt : (r : TimeRange) → range_ok r ≡ true → to_minutes r.start < to_minutes r.finish
unfolding range_ok
range_ok-lt r h =
    let (_, _, less) =
      all_three (is_hhmm r.start) (is_hhmm r.finish)
        (ltb (to_minutes r.start) (to_minutes r.finish)) h in
    ltb→lt (to_minutes r.start) (to_minutes r.finish) less

-- What the ranges of a day pass, from the first to the second and on.
neighbours :
    (r s : TimeRange) (rs : List TimeRange)
    → neighbours_ok (r ∷ s ∷ rs) ≡ true
    → (to_minutes r.start ≤ to_minutes s.start)
      × (to_minutes r.finish ≤ to_minutes s.start)
      × (neighbours_ok (s ∷ rs) ≡ true)
unfolding neighbours_ok
neighbours r s rs h =
    let (sorted, apart, others) =
      all_three (leb (to_minutes r.start) (to_minutes s.start))
        (leb (to_minutes r.finish) (to_minutes s.start)) (neighbours_ok (s ∷ rs)) h in
    (
      leb→le (to_minutes r.start) (to_minutes s.start) sorted,
      leb→le (to_minutes r.finish) (to_minutes s.start) apart,
      others,
    )

-- What ends by the start of the first of the ranges ends by the start of all.
All-after :
    (m : ℕ) (r : TimeRange) (rs : List TimeRange)
    → m ≤ to_minutes r.start
    → neighbours_ok (r ∷ rs) ≡ true
    → All (λ s. m ≤ to_minutes s.start) (r ∷ rs)
All-after m r [] le h = (le, tt)
All-after m r (s ∷ rs) le h =
    let (sorted, _, others) = neighbours r s rs h in (le, All-after m s rs (omega arith) others)

neighbours_ok-IsDisjoint :
    (rs : List TimeRange) → all_ranges_ok rs ≡ true → neighbours_ok rs ≡ true → IsDisjoint rs
unfolding all_ranges_ok
neighbours_ok-IsDisjoint [] ok h = tt
neighbours_ok-IsDisjoint (r ∷ []) ok h = (range_ok-lt r (both (range_ok r) true ok).0, tt, tt)
neighbours_ok-IsDisjoint (r ∷ s ∷ rs) ok h =
    let (mine, theirs) = both (range_ok r) (all_ranges_ok (s ∷ rs)) ok in
    let (_, apart, others) = neighbours r s rs h in
    (
      range_ok-lt r mine,
      All-after (to_minutes r.finish) s rs apart others,
      neighbours_ok-IsDisjoint (s ∷ rs) theirs others,
    )

abbrev pub AreGiven : Option RangesByKey → Type 0
AreGiven none = ⊥
AreGiven (some days) = All (λ d. IsDisjoint d.1) days

abbrev pub AreDisjoint : Option RangesByKey → Type 0
AreDisjoint none = Unit
AreDisjoint (some days) = All (λ d. IsDisjoint d.1) days

days_ok-AreDisjoint :
    (key_ok : Text → Bool) (days : RangesByKey)
    → days_ok key_ok days ≡ true
    → All (λ d. IsDisjoint d.1) days
unfolding days_ok day_ranges_ok
days_ok-AreDisjoint key_ok [] h = tt
days_ok-AreDisjoint key_ok ((key, rs) ∷ days) h =
    let (_, day, others) = all_three (key_ok key) (day_ranges_ok rs) (days_ok key_ok days) h in
    let (_, each, near) =
      all_three (leb (length rs) 20) (all_ranges_ok rs) (neighbours_ok rs) day in
    (neighbours_ok-IsDisjoint rs each near, days_ok-AreDisjoint key_ok days others)

abbrev pub IsInLimits : PageInput → Type 0
IsInLimits input =
    (15 ≤ input.slot_duration_min)
    × (input.slot_duration_min ≤ 480)
    × (input.buffer_before_min ≤ 120)
    × (input.buffer_after_min ≤ 120)
    × (input.min_notice_min ≤ 10080)
    × (1 ≤ input.max_days_ahead)
    × (input.max_days_ahead ≤ 365)

numbers-IsInLimits : (input : PageInput) → page_numbers_ok input ≡ true → IsInLimits input
numbers-IsInLimits input h = (
  ground arith,
  ground arith,
  ground arith,
  ground arith,
  ground arith,
  ground arith,
  ground arith,
)

-- The rules of the page with the numbers of the input.
abbrev pub numbered : PageInput → PageRules → PageRules
numbered input rules = record {
  timezone = input.timezone;
  slot_duration_min = input.slot_duration_min;
  buffer_before_min = input.buffer_before_min;
  buffer_after_min = input.buffer_after_min;
  min_notice_min = input.min_notice_min;
  max_days_ahead = input.max_days_ahead;
  availability = rules.availability;
  date_overrides = rules.date_overrides;
}

IsInLimits-IsBounded :
    (input : PageInput) (rules : PageRules) → IsInLimits input → IsBounded (numbered input rules)
IsInLimits-IsBounded input rules (_, duration, before, after, _, _, _) = record {
  after = omega arith;
  before = omega arith;
}

availability-AreDisjoint : (days : Option RangesByKey) → availability_ok days ≡ true → AreGiven days
unfolding availability_ok
availability-AreDisjoint none h = ground arith
availability-AreDisjoint (some days) h = days_ok-AreDisjoint is_weekday_key days h

overrides-AreDisjoint : (days : Option RangesByKey) → overrides_ok days ≡ true → AreDisjoint days
unfolding overrides_ok
overrides-AreDisjoint none h = tt
overrides-AreDisjoint (some days) h =
    days_ok-AreDisjoint is_date_only days
      (both (leb (length days) 366) (days_ok is_date_only days) h).1

pub record IsPage (input : PageInput) : Type 0 where
  pub in_limits : IsInLimits input
  pub bounded : (rules : PageRules) → IsBounded (numbered input rules)
  pub open_hours : AreGiven input.availability
  pub exceptions : AreDisjoint input.date_overrides

-- A page that PageInput.Validate accepts has its numbers within the limits, among them a positive
-- slot duration, so that a slot with its buffers spans no more than the booking service looks at; its
-- opening hours are given, and on every weekday and on every date with hours of
-- its own no range is empty and each ends before any later one starts, though only neighbours are
-- compared.
pub validate_page-IsPage :
    (env : Env) (input : PageInput) → validate_page env input ≡ true → IsPage input
unfolding validate_page
validate_page-IsPage env input h =
    let (texts, numbers, hours, special, _) =
      all_five (page_texts_ok env input) (page_numbers_ok input)
        (availability_ok input.availability) (overrides_ok input.date_overrides)
        (status_ok input.status) h in
    record {
      in_limits = numbers-IsInLimits input numbers;
      bounded = λ rules. IsInLimits-IsBounded input rules (numbers-IsInLimits input numbers);
      open_hours = availability-AreDisjoint input.availability hours;
      exceptions = overrides-AreDisjoint input.date_overrides special;
    }
