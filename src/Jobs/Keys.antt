-- ===== src/Jobs/Keys.antt =====
-- Room-scoped jobs of internal/jobs/jobs.go: one row for each kind and room, re-armed in place.
use whenweall.Prelude.{
  ℕ, ◌+◌, ◌≤◌, ◌≡◌, refl, inl, inr, Bool, true, false, Option, none, some, List, [], ◌∷◌, ◌++◌,
  arith, any, count_where, delete_where, update_where, Bool-cases,
}
use whenweall.Jobs.{
  Job, ScheduleInput, RoomKey, is_keyed, new_row, rescheduled, stamped, is_among, has_id,
  schedule_at, seed_at, schedule, schedule_if_absent, cancel, claim_due, complete, failed, fail,
  retry, select_due,
}
use whenweall.Jobs.Operations.{
  Op, scheduling, seeding, cancelling, claiming, completing, failing, retrying, apply, committed,
  run,
}

module _ {P : Type 0} where
  -- At most one row for each kind and room key, which the unique index demands.
  abbrev pub IsKeyed : List (Job P) → Type 0
  IsKeyed table = (kind : ℕ) (key : RoomKey) → count_where (is_keyed kind key) table ≤ 1

  count-update :
      (p q : Job P → Bool) (f : Job P → Job P) (table : List (Job P))
      → ((j : Job P) → p (f j) ≡ p j)
      → count_where p (update_where q f table) ≡ count_where p table
  count-update p q f [] same = refl
  count-update p q f (j ∷ js) same = elim (Bool-cases (q j)) [
    | inl t ↦ rw (t, same, count-update p q f js same)
    | inr t ↦ rw (t, count-update p q f js same)
  ]

  count-delete :
      (p q : Job P → Bool) (table : List (Job P))
      → count_where p (delete_where q table) ≤ count_where p table
  count-delete p q [] = omega arith
  count-delete p q (j ∷ js) = ground (arith, count-delete p q js)

  count-append :
      (p : Job P → Bool) (xs ys : List (Job P))
      → count_where p (xs ++ ys) ≡ count_where p xs + count_where p ys
  count-append p [] ys = omega arith
  count-append p (x ∷ xs) ys = ground (arith, count-append p xs ys)

  count_none :
      (p q : Job P → Bool) (table : List (Job P))
      → ((j : Job P) → p j ≡ true → q j ≡ true)
      → any q table ≡ false
      → count_where p table ≡ 0
  count_none p q [] imp h = refl
  count_none p q (j ∷ js) imp h = elim (Bool-cases (p j)) [
    | inl t ↦ let u = imp j t in absurd (ground arith)
    | inr t ↦ rw t (count_none p q js imp (ground arith))
  ]

  append-IsKeyed :
      (i : ℕ) (input : ScheduleInput P) (key : RoomKey) (table : List (Job P))
      → input.room_key ≡ some key
      → any (is_keyed input.kind key) table ≡ false
      → IsKeyed table
      → IsKeyed (table ++ new_row i input ∷ [])
  append-IsKeyed i input key table e absent h kind k =
      elim (Bool-cases (is_keyed kind k (new_row i input))) [
        | inl t ↦
            let none_yet : count_where (is_keyed kind k) table ≡ 0 =
              count_none (is_keyed kind k) (is_keyed input.kind key) table (λ j u. ground arith)
                absent in
            rw count-append (ground arith)
        | inr t ↦ rw (count-append, t) (omega (arith, h kind k))
      ]

  schedule_at-IsKeyed :
      (i : ℕ) (input : ScheduleInput P) (o : Option RoomKey) (table : List (Job P))
      → input.room_key ≡ o
      → IsKeyed table
      → IsKeyed (schedule_at i input o table)
  unfolding schedule_at
  schedule_at-IsKeyed i input (some key) table e h =
      elim (Bool-cases (any (is_keyed input.kind key) table)) [
        | inl there ↦ rw there (λ kind k.
            rw (count-update (is_keyed kind k) _ (rescheduled i input) table (λ j. refl))
              (h kind k))
        | inr absent ↦ rw absent (append-IsKeyed i input key table e absent h)
      ]
  schedule_at-IsKeyed i input none table e h = λ kind k.
      let plain : is_keyed kind k (new_row i input) ≡ false = ground arith in
      rw (count-append, plain) (omega (arith, h kind k))

  seed_at-IsKeyed :
      (i : ℕ) (input : ScheduleInput P) (o : Option RoomKey) (table : List (Job P))
      → input.room_key ≡ o
      → IsKeyed table
      → IsKeyed (committed table (seed_at i input o table))
  unfolding seed_at
  seed_at-IsKeyed i input (some key) table e h =
      elim (Bool-cases (any (is_keyed input.kind key) table)) [
        | inl there ↦ rw there h
        | inr absent ↦ rw absent (append-IsKeyed i input key table e absent h)
      ]
  seed_at-IsKeyed i input none table e h = h

  delete-IsKeyed :
      (q : Job P → Bool) (table : List (Job P)) → IsKeyed table → IsKeyed (delete_where q table)
  delete-IsKeyed q table h kind k = omega (arith, h kind k, count-delete (is_keyed kind k) q table)

  update-IsKeyed :
      (q : Job P → Bool) (f : Job P → Job P) (table : List (Job P))
      → ((kind : ℕ) (key : RoomKey) (j : Job P) → is_keyed kind key (f j) ≡ is_keyed kind key j)
      → IsKeyed table
      → IsKeyed (update_where q f table)
  update-IsKeyed q f table same h kind k =
      rw (count-update (is_keyed kind k) q f table (same kind k)) (h kind k)

  -- One statement.
  pub apply-IsKeyed : (o : Op P) (table : List (Job P)) → IsKeyed table → IsKeyed (apply o table)
  unfolding apply schedule schedule_if_absent cancel claim_due complete fail retry failed
  apply-IsKeyed (scheduling i input) t h = schedule_at-IsKeyed i input input.room_key t refl h
  apply-IsKeyed (seeding i input) t h = seed_at-IsKeyed i input input.room_key t refl h
  apply-IsKeyed (cancelling kind key) t h = delete-IsKeyed (is_keyed kind key) t h
  apply-IsKeyed (claiming now replica held limit) t h =
      update-IsKeyed (is_among (select_due now held limit t)) (stamped now replica) t
        (λ _ _ _. refl) h
  apply-IsKeyed (completing i) t h = delete-IsKeyed (has_id i) t h
  apply-IsKeyed (failing now i message) t h =
      update-IsKeyed (has_id i) (failed now message) t (λ _ _ _. refl) h
  apply-IsKeyed (retrying now i) t h = update-IsKeyed (has_id i) _ t (λ _ _ _. refl) h

  -- No history of statements leaves two jobs of one kind for one room, if the table it starts from
  -- has none.
  pub run-IsKeyed :
      (os : List (Op P)) (table : List (Job P)) → IsKeyed table → IsKeyed (run os table)
  unfolding run
  run-IsKeyed [] t h = h
  run-IsKeyed (o ∷ os) t h = run-IsKeyed os (apply o t) (apply-IsKeyed o t h)
