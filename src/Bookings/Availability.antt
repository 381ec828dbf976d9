-- ===== src/Bookings/Availability.antt =====
-- internal/bookings/availability.go: the slots that a page offers.
--
-- An instant is a number of nanoseconds since the earliest instant that Go's time package can
-- represent, so the truncated `-` is exact wherever the program subtracts from a representable
-- instant by less than what has passed. A calendar date `YYYY-MM-DD` is its day number: the
-- program only compares, counts and enumerates dates, and the text sorts as the day number does.
pub mod Spec
pub mod Step
pub mod Sound
pub mod Grows
pub mod Seen
pub mod Complete
pub mod Sorted
pub mod Available
pub mod Fuel
use whenweall.Prelude.{
  ℕ, zero, suc, ◌+◌, ◌-◌, ◌*◌, ◌/◌, ◌%◌, Bool, true, false, ◌&&◌, Option, none, some, List, [], ◌∷◌,
  ◌++◌, ltb, leb, ◌==◌, if◌then◌else◌, any,
}
use whenweall.Prelude.Text.{Text}

pub record Interval : Type 0 where
  pub start : ℕ
  pub finish : ℕ

-- `start` and `end` are texts "HH:mm".
pub record TimeRange : Type 0 where
  pub start : Text
  pub finish : Text

-- A Go map from weekday numbers, and one from dates; a missing key has no ranges.
abbrev pub DayRanges : Type 0
DayRanges = List (ℕ × List TimeRange)

pub record PageRules : Type 0 where
  pub timezone : Text
  pub slot_duration_min : ℕ
  pub buffer_before_min : ℕ
  pub buffer_after_min : ℕ
  pub min_notice_min : ℕ
  pub max_days_ahead : ℕ
  pub availability : DayRanges
  pub date_overrides : DayRanges

-- What a time.Location is used for: the local date of an instant, and time.Date's instant of a
-- wall-clock time on a date. The zone database is data that the program does not contain.
pub record Zone : Type 0 where
  pub date_of : ℕ → ℕ
  pub wall : ℕ → ℕ → ℕ → ℕ

abbrev pub minute : ℕ
minute = 60000000000

abbrev pub day_length : ℕ
day_length = 24 * 60 * minute

abbrev pub millisecond : ℕ
millisecond = 1000000

-- Day number 0 is taken to be a Sunday.
unfoldable pub weekday_key : ℕ → ℕ
weekday_key day = day % 7

unfoldable pub overlaps : ℕ → ℕ → ℕ → ℕ → Bool
overlaps a_start a_end b_start b_end = ltb a_start b_end && ltb b_start a_end

unfoldable pub digit : ℕ → Option ℕ
digit c = if leb b'0' c && leb c b'9' then some (c - b'0') else none

-- fmt.Sscanf with "%2d:%2d", on the texts that hhmmRegexp lets into a page: two digits, a colon,
-- two digits.
unfoldable pub scan_hhmm : Text → Option (ℕ × ℕ)
unfolding digit
scan_hhmm (a ∷ b ∷ c ∷ d ∷ e ∷ []) = elim (digit a) [
  | none ↦ none
  | some h ↦ elim (digit b) [
    | none ↦ none
    | some h' ↦ elim (digit d) [
      | none ↦ none
      | some m ↦ elim (digit e) [
        | none ↦ none
        | some m' ↦ if c == b':' then some (h * 10 + h', m * 10 + m') else none
      ]
    ]
  ]
]
scan_hhmm _ = none

-- time.Date, once the text is scanned.
unfoldable pub at_wall : Zone → ℕ → Option (ℕ × ℕ) → Option ℕ
at_wall zone day none = none
at_wall zone day (some (hh, mm)) = some (zone.wall day hh mm)

unfoldable pub local_to_utc : Zone → ℕ → Text → Option ℕ
unfolding at_wall
local_to_utc zone day hhmm = at_wall zone day (scan_hhmm hhmm)

unfoldable pub lookup : ℕ → DayRanges → Option (List TimeRange)
lookup k [] = none
lookup k ((j, rs) ∷ m) = if j == k then some rs else lookup k m

unfoldable pub ranges_on : PageRules → ℕ → List TimeRange
unfolding lookup weekday_key
ranges_on rules day = elim (lookup day rules.date_overrides) [
  | some rs ↦ rs
  | none ↦ elim (lookup (weekday_key day) rules.availability) [ some rs ↦ rs | none ↦ [] ]
]

abbrev pub slot_duration : PageRules → ℕ
slot_duration rules = rules.slot_duration_min * minute

abbrev pub earliest_start : PageRules → ℕ → ℕ
earliest_start rules now = now + rules.min_notice_min * minute

abbrev pub latest_end : PageRules → ℕ → ℕ
latest_end rules now = now + rules.max_days_ahead * day_length

-- The loop over `booked`, on the slot's window with the page's buffers.
unfoldable pub conflict : PageRules → List Interval → ℕ → Bool
unfolding overlaps
conflict rules booked start =
    any
      (λ (b : Interval).
        overlaps (start - rules.buffer_before_min * minute)
          (start + slot_duration rules + rules.buffer_after_min * minute) b.start b.finish)
      booked

-- `seen` and `results`, the variables that the loops share.
pub record Found : Type 0 where
  pub seen : List (ℕ × ℕ)
  pub results : List ℕ

unfoldable pub is_seen : ℕ × ℕ → List (ℕ × ℕ) → Bool
is_seen k ks = any (λ (j : ℕ × ℕ). k.0 == j.0 && k.1 == j.1) ks

abbrev pub slot_key : ℕ → ℕ → ℕ × ℕ
slot_key start end = (start / millisecond, end / millisecond)

module _ (rules : PageRules) (booked : List Interval) (now : ℕ) where
  -- The body of the innermost loop; each early `continue` leaves the variables as they are.
  unfoldable pub try_slot : ℕ → Found → Found
  unfolding conflict is_seen
  try_slot start st =
      let end = start + slot_duration rules in
      if ltb start (earliest_start rules now)
      then st
      else if ltb (latest_end rules now) end
      then st
      else if conflict rules booked start
      then st
      else if is_seen (slot_key start end) st.seen
      then st
      else record { seen = slot_key start end ∷ st.seen; results = st.results ++ start ∷ [] }

  -- `for start := rangeStart; !start.Add(slotDuration).After(rangeEnd); …`, on fuel.
  unfoldable pub lay_grid : ℕ → ℕ → ℕ → Found → Found
  lay_grid zero start range_end st = st
  lay_grid (suc fuel) start range_end st =
      let rest = lay_grid fuel (start + slot_duration rules) range_end (try_slot start st) in
      if leb (start + slot_duration rules) range_end then rest else st

  -- One more round than the range has slots, so that the loop leaves by its test.
  abbrev pub grid_fuel : ℕ → ℕ → ℕ
  grid_fuel range_start range_end = suc ((range_end - range_start) / slot_duration rules)

  -- A range with an end that is no time, or whose ends do not increase, is skipped.
  unfoldable pub lay_between : Option ℕ → Option ℕ → Found → Found
  unfolding lay_grid
  lay_between (some s) (some e) st = if ltb s e then lay_grid (grid_fuel s e) s e st else st
  lay_between none _ st = st
  lay_between (some s) none st = st

  unfoldable pub lay_range : Zone → ℕ → TimeRange → Found → Found
  unfolding lay_between local_to_utc
  lay_range zone day r st =
      lay_between (local_to_utc zone day r.start) (local_to_utc zone day r.finish) st

  unfoldable pub lay_ranges : Zone → ℕ → List TimeRange → Found → Found
  unfolding lay_range
  lay_ranges zone day [] st = st
  lay_ranges zone day (r ∷ rs) st = lay_ranges zone day rs (lay_range zone day r st)

  -- The loop over the days that are left, up to the horizon.
  unfoldable pub lay_days : Zone → ℕ → ℕ → ℕ → Found → Found
  unfolding lay_ranges ranges_on
  lay_days zone horizon zero day st = st
  lay_days zone horizon (suc left) day st =
      let rest =
        lay_days zone horizon left (day + 1) (lay_ranges zone day (ranges_on rules day) st) in
      if ltb horizon day then st else rest

-- sort.Slice by Before: which sorting algorithm is used does not show on a list of instants.
unfoldable pub insert_sorted : ℕ → List ℕ → List ℕ
insert_sorted t [] = t ∷ []
insert_sorted t (x ∷ xs) = let rest = insert_sorted t xs in if ltb x t then x ∷ rest else t ∷ x ∷ xs

unfoldable pub sort : List ℕ → List ℕ
unfolding insert_sorted
sort [] = []
sort (x ∷ xs) = insert_sorted x (sort xs)

abbrev pub nothing_found : Found
nothing_found = record { seen = []; results = [] }

-- The days walked are from..to: none if `to` lies on an earlier date.
unfoldable pub slots_in : Zone → PageRules → List Interval → ℕ → ℕ → ℕ → List ℕ
unfolding lay_days sort
slots_in zone rules booked now from to =
    let first = zone.date_of from in
    let last = zone.date_of to in
    let horizon = zone.date_of (now + (rules.max_days_ahead + 1) * day_length) in
    if ltb last first
    then []
    else sort
        (lay_days rules booked now zone horizon (suc (last - first)) first nothing_found).results

-- An unknown zone has no slots.
unfoldable pub slots_at : Option Zone → PageRules → List Interval → ℕ → ℕ → ℕ → List ℕ
unfolding slots_in
slots_at none rules booked now from to = []
slots_at (some zone) rules booked now from to = slots_in zone rules booked now from to

module _ (load_location : Text → Option Zone) where
  unfoldable pub slots : PageRules → List Interval → ℕ → ℕ → ℕ → List ℕ
  unfolding slots_at
  slots rules booked now from to = slots_at (load_location rules.timezone) rules booked now from to

  unfoldable pub is_slot_available : PageRules → ℕ → ℕ → List Interval → Bool
  unfolding slots
  is_slot_available rules start now booked =
      any (λ (s : ℕ). s == start) (slots rules booked now (start - day_length) (start + day_length))
