-- ===== src/Bookings/Availability/Sorted.antt =====
-- The slots of internal/bookings/availability.go come in strictly increasing order.
use whenweall.Prelude.{
  ℕ, zero, suc, ◌+◌, ◌-◌, ◌<◌, ◌≡◌, ◌≢◌, inl, inr, Option, some, none, true, List, [], ◌∷◌, ◌++◌,
  arith, ltb, leb, All, Bool-cases, ltb→lt, All-append,
}
use whenweall.Bookings.Availability.{
  Interval, TimeRange, PageRules, Zone, Found, slot_duration, try_slot, lay_grid, grid_fuel,
  lay_between, lay_range, lay_ranges, lay_days, insert_sorted, sort, slots_in, slot_key, is_seen,
  nothing_found, ranges_on, local_to_utc,
}
use whenweall.Bookings.Availability.Sound.{insert_sorted-All, sort-All}
use whenweall.Bookings.Availability.Step.{try_slot-cases}

-- Each element is below all that follow it.
abbrev pub IsIncreasing : List ℕ → Type 0
IsIncreasing [] = Unit
IsIncreasing (x ∷ xs) = All (λ (y : ℕ). x < y) xs × IsIncreasing xs

abbrev pub IsDistinct : List ℕ → Type 0
IsDistinct [] = Unit
IsDistinct (x ∷ xs) = All (λ (y : ℕ). y ≢ x) xs × IsDistinct xs

All-imp : (P Q : ℕ → Type 0) (xs : List ℕ) → ((x : ℕ) → P x → Q x) → All P xs → All Q xs
All-imp P Q [] f h = tt
All-imp P Q (x ∷ xs) f (p, h) = (f x p, All-imp P Q xs f h)

insert_sorted-IsIncreasing :
    (t : ℕ) (xs : List ℕ)
    → All (λ (y : ℕ). y ≢ t) xs
    → IsIncreasing xs
    → IsIncreasing (insert_sorted t xs)
unfolding insert_sorted
insert_sorted-IsIncreasing t [] ne h = (tt, tt)
insert_sorted-IsIncreasing t (x ∷ xs) (n, ne) (lo, h) = elim (Bool-cases (ltb x t)) [
  | inl b ↦
      rw b (
        insert_sorted-All (λ y. x < y) t xs (ltb→lt x t b) lo,
        insert_sorted-IsIncreasing t xs ne h,
      )
  | inr b ↦
      let first : t < x = ground arith in
      rw b ((first, All-imp (λ y. x < y) (λ y. t < y) xs (λ y l. omega arith) lo), (lo, h))
]

sort-IsIncreasing : (xs : List ℕ) → IsDistinct xs → IsIncreasing (sort xs)
unfolding sort
sort-IsIncreasing [] h = tt
sort-IsIncreasing (x ∷ xs) (ne, h) =
    insert_sorted-IsIncreasing x (sort xs) (sort-All (λ y. y ≢ x) xs ne) (sort-IsIncreasing xs h)

IsDistinct-append :
    (t : ℕ) (xs : List ℕ) → All (λ (y : ℕ). t ≢ y) xs → IsDistinct xs → IsDistinct (xs ++ t ∷ [])
IsDistinct-append t [] ne h = (tt, tt)
IsDistinct-append t (x ∷ xs) (n, ne) (l, h) =
    (All-append (λ y. y ≢ x) xs (t ∷ []) l (n, tt), IsDistinct-append t xs ne h)

-- The results have no duplicates, and each is in `seen`.
record IsFresh (rules : PageRules) (st : Found) : Type 0 where
  distinct : IsDistinct st.results
  seen : All (λ (t : ℕ). is_seen (slot_key t (t + slot_duration rules)) st.seen ≡ true) st.results

is_seen-later : (k j : ℕ × ℕ) (ks : List (ℕ × ℕ)) → is_seen k ks ≡ true → is_seen k (j ∷ ks) ≡ true
unfolding is_seen
is_seen-later k j ks h = ground arith

is_seen-first : (k : ℕ × ℕ) (ks : List (ℕ × ℕ)) → is_seen k (k ∷ ks) ≡ true
unfolding is_seen
is_seen-first k ks = ground arith

module _ (rules : PageRules) (booked : List Interval) (now : ℕ) where
  try_slot-IsFresh :
      (start : ℕ) (st : Found)
      → IsFresh rules st
      → IsFresh rules (try_slot rules booked now start st)
  try_slot-IsFresh start st f = elim (try_slot-cases rules booked now start st) [
    | inl kept ↦ rw kept.0 f
    | inr added ↦ rw added.0 (record {
      distinct =
          IsDistinct-append start st.results
            (All-imp _ (λ y. start ≢ y) st.results
              (λ y s e.
                let s' : is_seen (slot_key start (start + slot_duration rules)) st.seen ≡ true =
                  rw e s in
                cc added.2)
              f.seen)
            f.distinct;
      seen =
          All-append _ st.results (start ∷ [])
            (All-imp _ _ st.results (λ y s. is_seen-later _ _ st.seen s) f.seen)
            (is_seen-first _ st.seen, tt);
    })
  ]

  lay_grid-IsFresh :
      (fuel start e : ℕ) (st : Found)
      → IsFresh rules st
      → IsFresh rules (lay_grid rules booked now fuel start e st)
  unfolding lay_grid
  lay_grid-IsFresh zero start e st f = f
  lay_grid-IsFresh (suc fuel) start e st f =
      elim (Bool-cases (leb (start + slot_duration rules) e)) [
        | inl b ↦ rw b (lay_grid-IsFresh fuel _ e _ (try_slot-IsFresh start st f))
        | inr b ↦ rw b f
      ]

  lay_between-IsFresh :
      (o c : Option ℕ) (st : Found)
      → IsFresh rules st
      → IsFresh rules (lay_between rules booked now o c st)
  unfolding lay_between
  lay_between-IsFresh (some s) (some e) st f = elim (Bool-cases (ltb s e)) [
    | inl b ↦ rw b (lay_grid-IsFresh (grid_fuel rules booked now s e) s e st f)
    | inr b ↦ rw b f
  ]
  lay_between-IsFresh none _ st f = f
  lay_between-IsFresh (some s) none st f = f

  lay_ranges-IsFresh :
      (zone : Zone) (day : ℕ) (rs : List TimeRange) (st : Found)
      → IsFresh rules st
      → IsFresh rules (lay_ranges rules booked now zone day rs st)
  unfolding lay_ranges lay_range
  lay_ranges-IsFresh zone day [] st f = f
  lay_ranges-IsFresh zone day (r ∷ rs) st f =
      lay_ranges-IsFresh zone day rs _
        (lay_between-IsFresh (local_to_utc zone day r.start) (local_to_utc zone day r.finish) st f)

  lay_days-IsFresh :
      (zone : Zone) (horizon left day : ℕ) (st : Found)
      → IsFresh rules st
      → IsFresh rules (lay_days rules booked now zone horizon left day st)
  unfolding lay_days
  lay_days-IsFresh zone horizon zero day st f = f
  lay_days-IsFresh zone horizon (suc left) day st f = elim (Bool-cases (ltb horizon day)) [
    | inl b ↦ rw b f
    | inr b ↦ rw b (
        lay_days-IsFresh zone horizon left (day + 1) _
          (lay_ranges-IsFresh zone day (ranges_on rules day) st f))
  ]

-- The slots come in strictly increasing order, so none is offered twice, whatever the page's
-- ranges, overrides and zone are.
pub slots_in-IsIncreasing :
    (zone : Zone) (rules : PageRules) (booked : List Interval) (now from to : ℕ)
    → IsIncreasing (slots_in zone rules booked now from to)
unfolding slots_in
slots_in-IsIncreasing zone rules booked now from to =
    elim (Bool-cases (ltb (zone.date_of to) (zone.date_of from))) [
      | inl b ↦ rw b tt
      | inr b ↦ rw b (
          sort-IsIncreasing _
            (lay_days-IsFresh rules booked now zone _ (suc (zone.date_of to - zone.date_of from))
              (zone.date_of from) nothing_found (record { distinct = tt; seen = tt })).distinct)
    ]
