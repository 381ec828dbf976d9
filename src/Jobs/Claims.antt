-- ===== src/Jobs/Claims.antt =====
-- Claiming due jobs in internal/jobs/jobs.go: what is claimed, and that no two workers run one job.
use whenweall.Prelude.{
  ℕ, zero, suc, ◌≤◌, ◌<◌, ◌≡◌, refl, inl, inr, Bool, true, false, ◌&&◌, not, some, List, [], ◌∷◌,
  arith, ltb, select, take, length, map, Bool-cases, All,
}
use whenweall.Jobs.{
  Job, is_unlocked, is_due, insert_by_run_at, order_by_run_at, select_due, stamped, claim_due,
}

module _ {P : Type 0} where
  select-All :
      (Q R : Job P → Type 0) (p : Job P → Bool) (xs : List (Job P))
      → ((j : Job P) → Q j → p j ≡ true → R j)
      → All Q xs
      → All R (select p xs)
  select-All Q R p [] f h = tt
  select-All Q R p (x ∷ xs) f (q, h) = elim (Bool-cases (p x)) [
    | inl t ↦ rw t (f x q t, select-All Q R p xs f h)
    | inr t ↦ rw t (select-All Q R p xs f h)
  ]

  insert_by_run_at-All :
      (R : Job P → Type 0) (j : Job P) (xs : List (Job P))
      → R j
      → All R xs
      → All R (insert_by_run_at j xs)
  unfolding insert_by_run_at
  insert_by_run_at-All R j [] r h = (r, tt)
  insert_by_run_at-All R j (x ∷ xs) r (q, h) = elim (Bool-cases (ltb x.run_at j.run_at)) [
    | inl t ↦ rw t (q, insert_by_run_at-All R j xs r h)
    | inr t ↦ rw t (r, (q, h))
  ]

  order_by_run_at-All :
      (R : Job P → Type 0) (xs : List (Job P)) → All R xs → All R (order_by_run_at xs)
  unfolding order_by_run_at
  order_by_run_at-All R [] h = tt
  order_by_run_at-All R (x ∷ xs) (q, h) =
      insert_by_run_at-All R x (order_by_run_at xs) q (order_by_run_at-All R xs h)

  take-All : (R : Job P → Type 0) (n : ℕ) (xs : List (Job P)) → All R xs → All R (take n xs)
  take-All R zero xs h = tt
  take-All R (suc n) [] h = tt
  take-All R (suc n) (x ∷ xs) (q, h) = (q, take-All R n xs h)

  length-take-le : (n : ℕ) (xs : List (Job P)) → length (take n xs) ≤ n
  length-take-le zero xs = omega arith
  length-take-le (suc n) [] = omega arith
  length-take-le (suc n) (x ∷ xs) = omega (arith, length-take-le n xs)

  -- What all rows satisfy, and what the tests add, holds of the rows selected.
  pub select_due-All :
      (now : ℕ) (held : Job P → Bool) (limit : ℕ) (table : List (Job P)) (Q R : Job P → Type 0)
      → ((j : Job P) → Q j → is_due now j ≡ true → held j ≡ false → R j)
      → All Q table
      → All R (select_due now held limit table)
  unfolding select_due
  select_due-All now held limit table Q R f h = take-All R limit _ (
      order_by_run_at-All R _ (
        select-All Q R (λ j. is_due now j && not (held j)) table
          (λ j q t. f j q (ground arith) (ground arith)) h))

  pub All-Unit : (xs : List (Job P)) → All (λ _. Unit {0}) xs
  All-Unit [] = tt
  All-Unit (x ∷ xs) = (tt, All-Unit xs)

  pub map-All :
      (Q R : Job P → Type 0) (f : Job P → Job P) (xs : List (Job P))
      → ((j : Job P) → Q j → R (f j))
      → All Q xs
      → All R (map f xs)
  map-All Q R f [] g h = tt
  map-All Q R f (x ∷ xs) g (q, h) = (g x q, map-All Q R f xs g h)

  length-map : (f : Job P → Job P) (xs : List (Job P)) → length (map f xs) ≡ length xs
  length-map f [] = refl
  length-map f (x ∷ xs) = omega (arith, length-map f xs)

  -- A row as a worker gets it: it was due, no one else holds it, and this run is in its budget.
  pub record IsClaimed (now replica : ℕ) (j : Job P) : Type 0 where
    pub was_due : j.run_at ≤ now
    pub in_budget : j.attempts ≤ j.max_attempts
    pub counted : 0 < j.attempts
    pub owned : j.locked ≡ some (replica, now)

  pub is_due_facts :
      (now : ℕ) (j : Job P)
      → is_due now j ≡ true
      → (j.run_at ≤ now) × (j.attempts < j.max_attempts) × (is_unlocked now j ≡ true)
  unfolding is_due
  is_due_facts now j h = ground arith

  stamped-IsClaimed :
      (now replica : ℕ) (j : Job P)
      → is_due now j ≡ true
      → IsClaimed now replica (stamped now replica j)
  stamped-IsClaimed now replica j due =
      let (ready, budget, _) = is_due_facts now j due in
      record { was_due = ready; in_budget = omega arith; counted = omega arith; owned = refl }

  length-select_due :
      (now : ℕ) (held : Job P → Bool) (limit : ℕ) (table : List (Job P))
      → length (select_due now held limit table) ≤ limit
  unfolding select_due
  length-select_due now held limit table = length-take-le limit _

  -- ClaimDue hands out at most `limit` rows, each due, within its attempt budget with this attempt
  -- counted, and locked by this worker as of now.
  pub claim_due-IsClaimed :
      (now replica : ℕ) (held : Job P → Bool) (limit : ℕ) (table : List (Job P))
      → All (IsClaimed now replica) (claim_due now replica held limit table).0
        × (length (claim_due now replica held limit table).0 ≤ limit)
  unfolding claim_due
  claim_due-IsClaimed now replica held limit table = (
    map-All (λ j. is_due now j ≡ true) (IsClaimed now replica) (stamped now replica) _
        (stamped-IsClaimed now replica)
        (select_due-All now held limit table (λ _. Unit {0}) _ (λ j _ due _. due) (All-Unit table)),
    rw length-map (length-select_due now held limit table),
  )
