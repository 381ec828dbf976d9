-- ===== src/Bookings/Availability/Available.antt =====
-- What IsSlotAvailable of internal/bookings/availability.go decides.
use whenweall.Prelude.{
  ℕ, ◌+◌, ◌-◌, ◌≡◌, sym, inl, inr, true, Option, none, some, List, [], ◌∷◌, arith, ◌<◌, ◌==◌,
  ==_iff, Bool-cases, any, Has, All,
}
use whenweall.Prelude.Text.{Text}
use whenweall.Bookings.Availability.{
  Interval, PageRules, Zone, day_length, slot_duration, slots_at, is_slot_available,
}
use whenweall.Bookings.Availability.Spec.{IsOpen}
use whenweall.Bookings.Availability.Sound.{IsBookable, slots_in_sound}
use whenweall.Bookings.Availability.Complete.{IsRegular, slots_in_complete}

any→Has : (t : ℕ) (xs : List ℕ) → any (λ (s : ℕ). s == t) xs ≡ true → Has t xs
any→Has t [] h = cc
any→Has t (x ∷ xs) h = elim (Bool-cases (x == t)) [
  | inl e ↦ inl (sym ((==_iff x t).0 e))
  | inr e ↦ inr (any→Has t xs (ground arith))
]

Has→any : (t : ℕ) (xs : List ℕ) → Has t xs → any (λ (s : ℕ). s == t) xs ≡ true
Has→any t [] h = elim h [ ]
Has→any t (x ∷ xs) (inl e) = ground arith
Has→any t (x ∷ xs) (inr m) = ground (arith, Has→any t xs m)

slots_at-IsOpen :
    (o : Option Zone) (rules : PageRules) (busy : List Interval) (now from to t : ℕ)
    → Has t (slots_at o rules busy now from to)
    → IsOpen rules busy now t
unfolding slots_at
slots_at-IsOpen none rules busy now from to t h = elim h [ ]
slots_at-IsOpen (some zone) rules busy now from to t h =
    (slots_in_sound zone rules busy now from to t h).1

module _ (load_location : Text → Option Zone) (rules : PageRules) where
  -- An accepted start keeps the notice and the horizon, and clears every busy interval with the
  -- page's buffers.
  pub is_slot_available-IsOpen :
      (start now : ℕ) (busy : List Interval)
      → is_slot_available load_location rules start now busy ≡ true
      → IsOpen rules busy now start
  unfolding is_slot_available
  is_slot_available-IsOpen start now busy h =
      slots_at-IsOpen (load_location rules.timezone) rules busy now (start - day_length)
        (start + day_length) start (any→Has start _ h)

  -- A start on a range of one of the days from the day before to the day after is accepted if it
  -- is open, in the page's zone, if that zone is regular, the slot duration positive, and each
  -- busy interval ends after it starts.
  pub IsBookable-is_slot_available :
      (zone : Zone) (start now : ℕ) (busy : List Interval)
      → load_location rules.timezone ≡ some zone
      → IsRegular zone
      → 0 < slot_duration rules
      → All (λ (b : Interval). b.start < b.finish) busy
      → IsBookable zone rules busy now (start - day_length) (start + day_length) start
      → is_slot_available load_location rules start now busy ≡ true
  unfolding is_slot_available slots_at
  IsBookable-is_slot_available zone start now busy e regular positive proper h = rw e (
      Has→any start _ (
        slots_in_complete zone regular rules busy positive proper now (start - day_length)
          (start + day_length) start h))
