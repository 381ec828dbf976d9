-- ===== src/Jobs/Exclusive.antt =====
-- No job of internal/jobs/jobs.go is handed out twice while its lock holds, and a job is run at
-- most as often as its budget allows.
use whenweall.Prelude.{
  ℕ, ◌+◌, ◌≤◌, ◌≡◌, refl, inl, inr, Bool, true, false, List, [], ◌∷◌, arith, any, update_where, map,
  Bool-cases, All,
}
use whenweall.Jobs.{Job, lock_timeout, is_due, select_due, has_id, is_among, stamped, claim_due}
use whenweall.Jobs.Claims.{select_due-All, map-All}

module _ {P : Type 0} where
  -- An updated row is one that was claimed, or has an id that was not.
  module _ (now replica later : ℕ) (due : List (Job P)) (soon : later ≤ now + lock_timeout) where
    -- A row of the table after the claim that could be claimed again has another id.
    abbrev IsElsewhere : Job P → Type 0
    IsElsewhere j = is_due later j ≡ true → is_among due j ≡ false

    stamped-not_due : (j : Job P) → is_due later (stamped now replica j) ≡ false
    unfolding is_due
    stamped-not_due j = ground arith

    update-IsElsewhere :
        (table : List (Job P))
        → All IsElsewhere (update_where (is_among due) (stamped now replica) table)
    update-IsElsewhere [] = tt
    update-IsElsewhere (j ∷ js) = elim (Bool-cases (is_among due j)) [
      | inl t ↦ rw t ((λ d. cc (stamped-not_due j)), update-IsElsewhere js)
      | inr f ↦ rw f ((λ _. f), update-IsElsewhere js)
    ]

  pub any-stamped :
      (now replica i : ℕ) (due : List (Job P))
      → any (has_id i) (map (stamped now replica) due) ≡ any (has_id i) due
  any-stamped now replica i [] = refl
  any-stamped now replica i (j ∷ js) = ground (arith, any-stamped now replica i js)

  -- While the lock of a claim holds, no worker is handed a job of that claim again: the ids of a
  -- claim and of one right after it, at most the lock timeout later, are disjoint, whoever makes
  -- them and whatever else is due.
  pub claim_due_exclusive :
      (now later replica other : ℕ) (held held' : Job P → Bool) (limit limit' : ℕ)
      (table : List (Job P))
      → later ≤ now + lock_timeout
      → let first = claim_due now replica held limit table in
        let second = claim_due later other held' limit' first.1 in
        All (λ (j : Job P). is_among first.0 j ≡ false) second.0
  unfolding claim_due
  claim_due_exclusive now later replica other held held' limit limit' table soon =
      let due = select_due now held limit table in
      map-All (λ j. is_among due j ≡ false)
        (λ j. is_among (map (stamped now replica) due) j ≡ false) (stamped later other) _
        (λ j f. rw any-stamped f)
        (select_due-All later held' limit' _ (IsElsewhere now replica later due soon) _
          (λ j e d _. e d) (update-IsElsewhere now replica later due soon table))
