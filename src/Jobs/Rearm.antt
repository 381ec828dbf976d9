-- ===== src/Jobs/Rearm.antt =====
-- Re-arming a timer: Schedule's upsert in internal/jobs/jobs.go, and why it swaps the row's id.
use whenweall.Prelude.{
  ℕ, ◌≡◌, ◌≢◌, refl, sym, subst, inl, inr, true, false, none, some, List, [], ◌∷◌, ◌++◌, arith, any,
  select_one, update_where, select_one-delete_where, Bool-cases,
}
use whenweall.Jobs.{
  Job, ScheduleInput, RoomKey, is_keyed, new_row, rescheduled, attempts_allowed, has_id,
  schedule_at, schedule, complete,
}

module _ {P : Type 0} where
  -- A row that runs afresh as `input` asks.
  pub record IsArmed (i : ℕ) (input : ScheduleInput P) (j : Job P) : Type 0 where
    pub id : j.id ≡ i
    pub run_at : j.run_at ≡ input.run_at
    pub payload : j.payload ≡ input.payload
    pub attempts : j.attempts ≡ 0
    pub max_attempts : j.max_attempts ≡ attempts_allowed input
    pub unlocked : j.locked ≡ none
    pub no_error : j.last_error ≡ none

  select_one-rescheduled :
      (i : ℕ) (input : ScheduleInput P) (key : RoomKey) (table : List (Job P))
      → any (is_keyed input.kind key) table ≡ true
      → (j : Job P) × (select_one
            (is_keyed input.kind key)
            (update_where (is_keyed input.kind key) (rescheduled i input) table)
          ≡ some j)
        × IsArmed i input j
  select_one-rescheduled i input key [] h = cc
  select_one-rescheduled i input key (j ∷ js) h = elim (Bool-cases (is_keyed input.kind key j)) [
    | inl t ↦
        let t' : is_keyed input.kind key (rescheduled i input j) ≡ true = t in
        (
          rescheduled i input j,
          rw (t, t'),
          record {
            id = refl;
            run_at = refl;
            payload = refl;
            attempts = refl;
            max_attempts = refl;
            unlocked = refl;
            no_error = refl;
          },
        )
    | inr f ↦
        let (k, e, armed) = select_one-rescheduled i input key js (ground arith) in
        (k, rw (f, f) e, armed)
  ]

  select_one-new_row :
      (i : ℕ) (input : ScheduleInput P) (key : RoomKey) (table : List (Job P))
      → input.room_key ≡ some key
      → any (is_keyed input.kind key) table ≡ false
      → select_one (is_keyed input.kind key) (table ++ new_row i input ∷ [])
        ≡ some (new_row i input)
  select_one-new_row i input key [] e h = ground arith
  select_one-new_row i input key (j ∷ js) e h =
      let f : is_keyed input.kind key j ≡ false = ground arith in
      rw f (select_one-new_row i input key js e (ground arith))

  -- After Schedule for a room, that room's one pending job of the kind is a fresh run of what was
  -- asked for, whatever row was there before: new id, time and payload, no attempts spent, unlocked.
  pub schedule-IsArmed :
      (i : ℕ) (input : ScheduleInput P) (key : RoomKey) (table : List (Job P))
      → input.room_key ≡ some key
      → (j : Job P) × (select_one (is_keyed input.kind key) (schedule i input table) ≡ some j)
        × IsArmed i input j
  unfolding schedule schedule_at
  schedule-IsArmed i input key table e =
      subst
        (λ o.
          (j : Job P) × (select_one (is_keyed input.kind key) (schedule_at i input o table)
            ≡ some j)
          × IsArmed i input j)
        (sym e)
        (elim (Bool-cases (any (is_keyed input.kind key) table)) [
          | inl there ↦ rw there (select_one-rescheduled i input key table there)
          | inr absent ↦ rw absent (
            new_row i input,
            select_one-new_row i input key table e absent,
            record {
              id = refl;
              run_at = refl;
              payload = refl;
              attempts = refl;
              max_attempts = refl;
              unlocked = refl;
              no_error = refl;
            },
          )
        ])

  -- A handler that schedules its own next run is not undone by the worker, which completes the row
  -- it claimed by its id: if the new id is not that one, the next run is still there.
  pub complete-schedule :
      (claimed i : ℕ) (input : ScheduleInput P) (key : RoomKey) (table : List (Job P))
      → input.room_key ≡ some key
      → i ≢ claimed
      → (j : Job P) × (select_one
            (is_keyed input.kind key)
            (complete claimed (schedule i input table))
          ≡ some j)
        × IsArmed i input j
  unfolding complete
  complete-schedule claimed i input key table e fresh =
      let (j, at, armed) = schedule-IsArmed i input key table e in
      (
        j,
        select_one-delete_where (is_keyed input.kind key) (has_id claimed) (schedule i input table)
            j at (spared j armed.id),
        armed,
      )
    where
      spared : (j : Job P) → j.id ≡ i → has_id claimed j ≡ false
      spared j same = ground arith
