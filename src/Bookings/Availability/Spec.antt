-- ===== src/Bookings/Availability/Spec.antt =====
-- What a slot must satisfy, said without the loops of internal/bookings/availability.go.
use whenweall.Prelude.{
  ℕ, ◌+◌, ◌-◌, ◌*◌, ◌≤◌, ◌<◌, ◌≡◌, ◌⊎◌, false, some, List, [], ◌∷◌, arith, All, Any,
}
use whenweall.Bookings.Availability.{
  Interval, TimeRange, PageRules, Zone, minute, slot_duration, earliest_start, latest_end, conflict,
  local_to_utc, ranges_on,
}

module _ (rules : PageRules) where
  -- The slot's window, with the page's buffers, does not meet the interval.
  abbrev pub IsClearOf : ℕ → Interval → Type 0
  IsClearOf t b =
      (t + slot_duration rules + rules.buffer_after_min * minute ≤ b.start)
      ⊎ (b.finish ≤ t - rules.buffer_before_min * minute)

  module _ (booked : List Interval) (now : ℕ) where
    pub record IsOpen (t : ℕ) : Type 0 where
      pub noticed : earliest_start rules now ≤ t
      pub in_time : t + slot_duration rules ≤ latest_end rules now
      pub clear : All (IsClearOf t) booked

  -- `t` is one of the slots of the grid that is laid from `s` to `e`.
  abbrev pub OnGrid : ℕ → ℕ → ℕ → Type 0
  OnGrid s e t = (k : ℕ) × (t ≡ s + k * slot_duration rules) × (t + slot_duration rules ≤ e)

  pub record OnRange (zone : Zone) (day : ℕ) (t : ℕ) (r : TimeRange) : Type 0 where
    pub opens : ℕ
    pub closes : ℕ
    pub opens_at : local_to_utc zone day r.start ≡ some opens
    pub closes_at : local_to_utc zone day r.finish ≡ some closes
    pub increasing : opens < closes
    pub on_grid : OnGrid opens closes t

  -- `t` lies on the grid of a range of one of the days from `first` to `last`.
  pub record IsOffered (zone : Zone) (first last : ℕ) (t : ℕ) : Type 0 where
    pub day : ℕ
    pub from_first : first ≤ day
    pub to_last : day ≤ last
    pub on_day : Any (OnRange zone day t) (ranges_on rules day)

  pub conflict→IsClearOf :
      (booked : List Interval) (t : ℕ) → conflict rules booked t ≡ false → All (IsClearOf t) booked
  unfolding conflict
  conflict→IsClearOf [] t h = tt
  conflict→IsClearOf (b ∷ bs) t h = (ground arith, conflict→IsClearOf bs t (ground arith))

  pub IsClearOf→conflict :
      (booked : List Interval) (t : ℕ)
      → 0 < slot_duration rules
      → All (λ (b : Interval). b.start < b.finish) booked
      → All (IsClearOf t) booked
      → conflict rules booked t ≡ false
  unfolding conflict
  IsClearOf→conflict [] t d w h = ground arith
  IsClearOf→conflict (b ∷ bs) t d w h = ground (arith, IsClearOf→conflict bs t d w.1 h.1)
