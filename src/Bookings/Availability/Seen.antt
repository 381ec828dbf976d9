-- ===== src/Bookings/Availability/Seen.antt =====
-- The `seen` map of internal/bookings/availability.go drops only duplicates, so each admitted
-- start of a grid is found.
use whenweall.Prelude.{
  ℕ, zero, suc, ◌+◌, ◌*◌, ◌/◌, ◌%◌, ◌≤◌, ◌<◌, ◌≡◌, ◌⊎◌, inl, inr, true, List, [], ◌∷◌, arith, leb,
  ◌==◌, ◌&&◌, Has, Bool-cases, le→leb,
}
use whenweall.Bookings.Availability.{
  Interval, PageRules, Found, slot_duration, try_slot, lay_grid, grid_fuel, slot_key, is_seen,
  millisecond,
}
use whenweall.Bookings.Availability.Step.{try_slot-cases, IsAdmitted}
use whenweall.Bookings.Availability.Grows.{Has-append_left, Has-append_last, lay_grid-Goes}

-- What is seen is found: this is why a slot that is dropped as a duplicate is in the results.
abbrev pub SeenIsFound : PageRules → Found → Type 0
SeenIsFound rules st =
    (t : ℕ)
    → t % millisecond ≡ 0
    → is_seen (slot_key t (t + slot_duration rules)) st.seen ≡ true
    → Has t st.results

key_injective :
    (t u a b : ℕ)
    → t % millisecond ≡ 0
    → u % millisecond ≡ 0
    → (t / millisecond == u / millisecond && a == b) ≡ true
    → t ≡ u
key_injective t u a b ht hu h =
    let e : t / millisecond ≡ u / millisecond = ground arith in omega arith

is_seen-cons :
    (k j : ℕ × ℕ) (ks : List (ℕ × ℕ))
    → is_seen k (j ∷ ks) ≡ true
    → ((k.0 == j.0 && k.1 == j.1) ≡ true) ⊎ (is_seen k ks ≡ true)
unfolding is_seen
is_seen-cons k j ks h = ground arith

module _ (rules : PageRules) (booked : List Interval) (now : ℕ) where
  pub try_slot-SeenIsFound :
      (start : ℕ) (st : Found)
      → start % millisecond ≡ 0
      → SeenIsFound rules st
      → SeenIsFound rules (try_slot rules booked now start st)
  try_slot-SeenIsFound start st a inv = elim (try_slot-cases rules booked now start st) [
    | inl kept ↦ rw kept.0 inv
    | inr added ↦ rw added.0 (λ t at seen. elim (is_seen-cons _ _ st.seen seen) [
      | inl same ↦
          let e : t ≡ start = key_injective t start _ _ at a same in
          rw e (Has-append_last start st.results)
      | inr old ↦ Has-append_left t st.results (start ∷ []) (inv t at old)
    ])
  ]

  -- An admitted start is in the results after its round.
  try_slot-finds :
      (start : ℕ) (st : Found)
      → start % millisecond ≡ 0
      → SeenIsFound rules st
      → IsAdmitted rules booked now start
      → Has start (try_slot rules booked now start st).results
  try_slot-finds start st a inv ok = elim (try_slot-cases rules booked now start st) [
    | inl kept ↦ rw kept.0 (inv start a (kept.1 ok))
    | inr added ↦ rw added.0 (Has-append_last start st.results)
  ]

  pub lay_grid-SeenIsFound :
      (fuel start e : ℕ) (st : Found)
      → start % millisecond ≡ 0
      → SeenIsFound rules st
      → SeenIsFound rules (lay_grid rules booked now fuel start e st)
  unfolding lay_grid
  lay_grid-SeenIsFound zero start e st a inv = inv
  lay_grid-SeenIsFound (suc fuel) start e st a inv =
      elim (Bool-cases (leb (start + slot_duration rules) e)) [
        | inl b ↦ rw b (
            lay_grid-SeenIsFound fuel (start + slot_duration rules) e _ (omega arith)
              (try_slot-SeenIsFound start st a inv))
        | inr b ↦ rw b inv
      ]

  pub lay_grid-finds :
      (k fuel start e : ℕ) (st : Found)
      → start % millisecond ≡ 0
      → SeenIsFound rules st
      → k < fuel
      → start + k * slot_duration rules + slot_duration rules ≤ e
      → IsAdmitted rules booked now (start + k * slot_duration rules)
      → Has (start + k * slot_duration rules) (lay_grid rules booked now fuel start e st).results
  unfolding lay_grid
  lay_grid-finds k zero start e st a inv lt fits ok = absurd (omega arith)
  lay_grid-finds zero (suc fuel) start e st a inv lt fits ok =
      let at0 : start + zero * slot_duration rules ≡ start = omega arith in
      rw (le→leb (start + slot_duration rules) e (omega arith), at0)
        (lay_grid-Goes rules booked now start fuel _ e _
          (try_slot-finds start st a inv (rw at0 at ok)))
  lay_grid-finds (suc k) (suc fuel) start e st a inv lt fits ok =
      let shift : start + suc k * slot_duration rules
          ≡ start + slot_duration rules + k * slot_duration rules =
        ground arith in
      rw (le→leb (start + slot_duration rules) e (ground arith), shift)
        (lay_grid-finds k fuel (start + slot_duration rules) e _ (omega arith)
          (try_slot-SeenIsFound start st a inv) (omega arith) (rw shift at fits) (rw shift at ok))

  pub k-lt-fuel :
      (s e k : ℕ)
      → 0 < slot_duration rules
      → s + k * slot_duration rules + slot_duration rules ≤ e
      → k < grid_fuel rules booked now s e
  k-lt-fuel s e k pos h = grind arith
