-- ===== src/Bookings/Availability/Grows.antt =====
-- The loops of internal/bookings/availability.go never drop a slot that was found, and sorting
-- drops none either.
use whenweall.Prelude.{
  ℕ, zero, suc, ◌+◌, ◌≡◌, ◌⊎◌, refl, inl, inr, Option, some, none, List, [], ◌∷◌, ◌++◌, ltb, leb,
  Has, Bool-cases,
}
use whenweall.Bookings.Availability.{
  Interval, TimeRange, PageRules, Zone, Found, slot_duration, local_to_utc, ranges_on, try_slot,
  lay_grid, grid_fuel, lay_between, lay_range, lay_ranges, lay_days, insert_sorted, sort,
}
use whenweall.Bookings.Availability.Step.{try_slot-cases}

pub Has-append_left : (t : ℕ) (xs ys : List ℕ) → Has t xs → Has t (xs ++ ys)
Has-append_left t [] ys h = elim h [ ]
Has-append_left t (x ∷ xs) ys (inl e) = inl e
Has-append_left t (x ∷ xs) ys (inr m) = inr (Has-append_left t xs ys m)

pub Has-append_last : (t : ℕ) (xs : List ℕ) → Has t (xs ++ t ∷ [])
Has-append_last t [] = inl refl
Has-append_last t (x ∷ xs) = inr (Has-append_last t xs)

Has-insert_sorted : (a t : ℕ) (xs : List ℕ) → (a ≡ t) ⊎ Has a xs → Has a (insert_sorted t xs)
unfolding insert_sorted
Has-insert_sorted a t [] (inl e) = inl e
Has-insert_sorted a t [] (inr m) = elim m [ ]
Has-insert_sorted a t (x ∷ xs) (inl e) = elim (Bool-cases (ltb x t)) [
  | inl b ↦ rw b (inr (Has-insert_sorted a t xs (inl e)))
  | inr b ↦ rw b (inl e)
]
Has-insert_sorted a t (x ∷ xs) (inr (inl e)) = elim (Bool-cases (ltb x t)) [
  | inl b ↦ rw b (inl e)
  | inr b ↦ rw b (inr (inl e))
]
Has-insert_sorted a t (x ∷ xs) (inr (inr m)) = elim (Bool-cases (ltb x t)) [
  | inl b ↦ rw b (inr (Has-insert_sorted a t xs (inr m)))
  | inr b ↦ rw b (inr (inr m))
]

pub Has-sort : (a : ℕ) (xs : List ℕ) → Has a xs → Has a (sort xs)
unfolding sort
Has-sort a [] h = h
Has-sort a (x ∷ xs) (inl e) = Has-insert_sorted a x (sort xs) (inl e)
Has-sort a (x ∷ xs) (inr m) = Has-insert_sorted a x (sort xs) (inr (Has-sort a xs m))

module _ (rules : PageRules) (booked : List Interval) (now : ℕ) where
  abbrev pub Goes : ℕ → (Found → Found) → Type 0
  Goes t f = (st : Found) → Has t st.results → Has t (f st).results

  pub try_slot-Goes : (t start : ℕ) → Goes t (try_slot rules booked now start)
  try_slot-Goes t start st h = elim (try_slot-cases rules booked now start st) [
    | inl kept ↦ rw kept.0 h
    | inr added ↦ rw added.0 (Has-append_left t st.results (start ∷ []) h)
  ]

  pub lay_grid-Goes : (t fuel start e : ℕ) → Goes t (lay_grid rules booked now fuel start e)
  unfolding lay_grid
  lay_grid-Goes t zero start e st h = h
  lay_grid-Goes t (suc fuel) start e st h =
      elim (Bool-cases (leb (start + slot_duration rules) e)) [
        | inl b ↦ rw b (lay_grid-Goes t fuel _ e _ (try_slot-Goes t start st h))
        | inr b ↦ rw b h
      ]

  pub lay_between-Goes : (t : ℕ) (o c : Option ℕ) → Goes t (lay_between rules booked now o c)
  unfolding lay_between
  lay_between-Goes t (some s) (some e) st h = elim (Bool-cases (ltb s e)) [
    | inl b ↦ rw b (lay_grid-Goes t (grid_fuel rules booked now s e) s e st h)
    | inr b ↦ rw b h
  ]
  lay_between-Goes t none _ st h = h
  lay_between-Goes t (some s) none st h = h

  pub lay_ranges-Goes :
      (t : ℕ) (zone : Zone) (day : ℕ) (rs : List TimeRange)
      → Goes t (lay_ranges rules booked now zone day rs)
  unfolding lay_ranges lay_range
  lay_ranges-Goes t zone day [] st h = h
  lay_ranges-Goes t zone day (r ∷ rs) st h =
      lay_ranges-Goes t zone day rs _
        (lay_between-Goes t (local_to_utc zone day r.start) (local_to_utc zone day r.finish) st h)

  pub lay_days-Goes :
      (t : ℕ) (zone : Zone) (horizon left day : ℕ)
      → Goes t (lay_days rules booked now zone horizon left day)
  unfolding lay_days
  lay_days-Goes t zone horizon zero day st h = h
  lay_days-Goes t zone horizon (suc left) day st h = elim (Bool-cases (ltb horizon day)) [
    | inl b ↦ rw b h
    | inr b ↦ rw b (
        lay_days-Goes t zone horizon left (day + 1) _
          (lay_ranges-Goes t zone day (ranges_on rules day) st h))
  ]
