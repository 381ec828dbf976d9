-- ===== src/Jobs/Budget.antt =====
-- The attempt budget and the backoff of internal/jobs/jobs.go.
use whenweall.Prelude.{
  ℕ, suc, ◌+◌, ◌*◌, ◌≤◌, ◌<◌, ◌≡◌, ◌≢◌, ◌∙◌, sym, subst, inl, inr, Bool, true, false, ◌&&◌, Option,
  none, some, List, [], ◌∷◌, arith, ltb, leb, ◌==◌, ==_iff, any, update_where, delete_where,
  Bool-cases, All, All-append, if◌then◌else◌,
}
use whenweall.Jobs.{
  Job, ScheduleInput, RoomKey, backoff, is_due, select_due, has_id, is_among, stamped, claim_due,
  failed, fail, complete, cancel, is_keyed, schedule_at, seed_at, schedule, schedule_if_absent,
  retry, rescheduled,
}
use whenweall.Jobs.Claims.{select_due-All, is_due_facts}
use whenweall.Jobs.Exclusive.{any-stamped}
use whenweall.Jobs.Operations.{
  Op, scheduling, seeding, cancelling, claiming, completing, failing, retrying, apply, committed,
}

module _ {P : Type 0} where
  -- A failed job is due again exactly from its backoff on, at most an hour later, if its budget is
  -- not spent, and never if it is.
  pub is_due-failed :
      (now later : ℕ) (message : List ℕ) (j : Job P)
      → (is_due later (failed now message j)
          ≡ (ltb j.attempts j.max_attempts && leb (now + backoff j.attempts) later))
        × (backoff j.attempts ≤ 60 * 60000000000)
  unfolding is_due failed
  is_due-failed now later message j = (ground arith, omega arith)

  module _ (i : ℕ) where
    -- The rows with the id `i` have spent `a` attempts of `m`.
    abbrev HasSpent : ℕ → ℕ → Job P → Type 0
    HasSpent a m j = j.id ≡ i → (j.attempts ≡ a) × (j.max_attempts ≡ m)

    update-HasSpent :
        (a m : ℕ) (q : Job P → Bool) (f : Job P → Job P) (table : List (Job P))
        → ((j : Job P) → q j ≡ true → HasSpent a m j → HasSpent a m (f j))
        → All (HasSpent a m) table
        → All (HasSpent a m) (update_where q f table)
    update-HasSpent a m q f [] g h = tt
    update-HasSpent a m q f (j ∷ js) g (s, h) = elim (Bool-cases (q j)) [
      | inl t ↦ rw t (g j t s, update-HasSpent a m q f js g h)
      | inr t ↦ rw t (s, update-HasSpent a m q f js g h)
    ]

    delete-HasSpent :
        (a m : ℕ) (q : Job P → Bool) (table : List (Job P))
        → All (HasSpent a m) table
        → All (HasSpent a m) (delete_where q table)
    delete-HasSpent a m q [] h = tt
    delete-HasSpent a m q (j ∷ js) (s, h) = elim (Bool-cases (q j)) [
      | inl t ↦ rw t (delete-HasSpent a m q js h)
      | inr t ↦ rw t (s, delete-HasSpent a m q js h)
    ]

    -- A claim that hands the job out counts an attempt on each row with its id.
    stamp-HasSpent :
        (a m now replica : ℕ) (due table : List (Job P))
        → any (has_id i) due ≡ true
        → All (HasSpent a m) table
        → All (HasSpent (suc a) m) (update_where (is_among due) (stamped now replica) table)
    stamp-HasSpent a m now replica due [] yes_due h = tt
    stamp-HasSpent a m now replica due (j ∷ js) yes_due (s, h) =
        elim (Bool-cases (is_among due j)) [
          | inl t ↦ rw t (
            (λ e. (omega (arith, (s e).0), (s e).1)),
            stamp-HasSpent a m now replica due js yes_due h,
          )
          | inr f ↦ rw f (
            (λ e. absurd (clash (subst (λ k. any (has_id k) due ≡ false) e f))),
            stamp-HasSpent a m now replica due js yes_due h,
          )
        ]
      where
        clash : any (has_id i) due ≡ false → ⊥
        clash g = cc

    skip-HasSpent :
        (a m now replica : ℕ) (due table : List (Job P))
        → any (has_id i) due ≡ false
        → All (HasSpent a m) table
        → All (HasSpent a m) (update_where (is_among due) (stamped now replica) table)
    skip-HasSpent a m now replica due [] no_due h = tt
    skip-HasSpent a m now replica due (j ∷ js) no_due (s, h) = elim (Bool-cases (is_among due j)) [
      | inl t ↦ rw t (
        (λ e. absurd (clash (subst (λ k. any (has_id k) due ≡ true) e t))),
        skip-HasSpent a m now replica due js no_due h,
      )
      | inr f ↦ rw f (s, skip-HasSpent a m now replica due js no_due h)
    ]
      where
        clash : any (has_id i) due ≡ true → ⊥
        clash g = cc

    -- A statement that gives the row `i` no new budget: it is neither retried nor made anew.
    abbrev pub Spares : Op P → Type 0
    Spares (scheduling j input) = j ≢ i
    Spares (seeding j input) = j ≢ i
    Spares (retrying now j) = j ≢ i
    Spares _ = Unit

    -- The count of the statements so far that handed the job out, after one more.
    abbrev counted : Op P → List (Job P) → ℕ → ℕ
    counted (claiming now replica held limit) t n =
        if any (has_id i) (claim_due now replica held limit t).0 then suc n else n
    counted (scheduling _ _) t n = n
    counted (seeding _ _) t n = n
    counted (cancelling _ _) t n = n
    counted (completing _) t n = n
    counted (failing _ _ _) t n = n
    counted (retrying _ _) t n = n

    unfoldable pub times_run : List (Op P) → List (Job P) → ℕ → ℕ
    times_run [] t n = n
    times_run (o ∷ os) t n = times_run os (apply o t) (counted o t n)

    any-All :
        (R : Type 0) (Q : Job P → Type 0) (due : List (Job P))
        → ((j : Job P) → j.id ≡ i → Q j → R)
        → All Q due
        → any (has_id i) due ≡ true
        → R
    any-All R Q [] f h e = absurd (no e)
      where
        no : false ≡ true → ⊥
        no p = cc
    any-All R Q (j ∷ js) f (q, h) e = elim (Bool-cases (j.id == i)) [
      | inl t ↦ f j ((==_iff j.id i).0 t) q
      | inr g ↦ any-All R Q js f h (ground arith)
    ]

    -- Only a row with budget left is handed out.
    due_has_budget :
        (a m now : ℕ) (held : Job P → Bool) (limit : ℕ) (table : List (Job P))
        → All (HasSpent a m) table
        → any (has_id i) (select_due now held limit table) ≡ true
        → a < m
    due_has_budget a m now held limit table h e =
        any-All (a < m) (λ j. j.id ≡ i → a < m) (select_due now held limit table)
          (λ j same f. f same)
          (select_due-All now held limit table (HasSpent a m) _
            (λ j s d _ same.
              let (_, b, _) = is_due_facts now j d in omega (arith, (s same).0, (s same).1))
            h)
          e

    schedule_at-HasSpent :
        (a m j : ℕ) (input : ScheduleInput P) (o : Option RoomKey) (table : List (Job P))
        → j ≢ i
        → All (HasSpent a m) table
        → All (HasSpent a m) (schedule_at j input o table)
    unfolding schedule_at
    schedule_at-HasSpent a m j input none table ne h =
        All-append (HasSpent a m) table _ h ((λ e. absurd (ne e)), tt)
    schedule_at-HasSpent a m j input (some key) table ne h =
        elim (Bool-cases (any (is_keyed input.kind key) table)) [
          | inl there ↦
              rw there
                (update-HasSpent a m _ (rescheduled j input) table (λ _ _ _ e. absurd (ne e)) h)
          | inr absent ↦ rw absent (All-append (HasSpent a m) table _ h ((λ e. absurd (ne e)), tt))
        ]

    seed_at-HasSpent :
        (a m j : ℕ) (input : ScheduleInput P) (o : Option RoomKey) (table : List (Job P))
        → j ≢ i
        → All (HasSpent a m) table
        → All (HasSpent a m) (committed table (seed_at j input o table))
    unfolding seed_at
    seed_at-HasSpent a m j input none table ne h = h
    seed_at-HasSpent a m j input (some key) table ne h =
        elim (Bool-cases (any (is_keyed input.kind key) table)) [
          | inl there ↦ rw there h
          | inr absent ↦ rw absent (All-append (HasSpent a m) table _ h ((λ e. absurd (ne e)), tt))
        ]

    -- One statement: what it hands out is what the row spends.
    apply-HasSpent :
        (a m : ℕ) (o : Op P) (table : List (Job P))
        → Spares o
        → a ≤ m
        → All (HasSpent a m) table
        → (counted o table a ≤ m) × All (HasSpent (counted o table a) m) (apply o table)
    unfolding apply schedule schedule_if_absent cancel claim_due complete fail retry failed
    apply-HasSpent a m (scheduling j input) t s le h =
        (le, schedule_at-HasSpent a m j input input.room_key t s h)
    apply-HasSpent a m (seeding j input) t s le h =
        (le, seed_at-HasSpent a m j input input.room_key t s h)
    apply-HasSpent a m (cancelling kind key) t s le h = (le, delete-HasSpent a m _ t h)
    apply-HasSpent a m (claiming now replica held limit) t s le h =
        elim (Bool-cases (any (has_id i) (select_due now held limit t))) [
          | inl e ↦
              rw (any-stamped, e)
                (
                  due_has_budget a m now held limit t h e,
                  stamp-HasSpent a m now replica (select_due now held limit t) t e h,
                )
          | inr e ↦
              rw (any-stamped, e)
                (le, skip-HasSpent a m now replica (select_due now held limit t) t e h)
        ]
    apply-HasSpent a m (completing j) t s le h = (le, delete-HasSpent a m _ t h)
    apply-HasSpent a m (failing now j message) t s le h =
        (le, update-HasSpent a m (has_id j) (failed now message) t (λ _ _ g. g) h)
    apply-HasSpent a m (retrying now j) t s le h = (
      le,
      update-HasSpent a m (has_id j) _ t
          (λ row e g same. absurd (s (sym ((==_iff row.id j).0 e) ∙ same))) h,
    )

    -- A job is handed out at most max_attempts times, in any history that neither retries the job
    -- nor gives its id to a new row: if each row with its id has spent n of m attempts, and n is
    -- at most m, then n and the claims that hand it out come to at most m.
    pub times_run-bounded :
        (m n : ℕ) (os : List (Op P)) (table : List (Job P))
        → All Spares os
        → n ≤ m
        → All (HasSpent n m) table
        → times_run os table n ≤ m
    unfolding times_run
    times_run-bounded m n [] table s le h = le
    times_run-bounded m n (o ∷ os) table (s, ss) le h =
        let (le', h') = apply-HasSpent n m o table s le h in
        times_run-bounded m (counted o table n) os (apply o table) ss le' h'
