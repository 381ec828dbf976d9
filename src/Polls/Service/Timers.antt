-- ===== src/Polls/Service/Timers.antt =====
-- The timers of a poll: armDeadline of internal/polls/timers.go, and their end.
use whenweall.Prelude.{
  ℕ, ◌+◌, ◌-◌, ◌≡◌, refl, inl, inr, Bool, true, false, ◌||◌, Option, none, some, List, [], ◌∷◌,
  ◌++◌, ltb, arith, any, select_one, update_where, delete_where, select_one-delete_where,
  select_one-test, Bool-cases,
}
use whenweall.Jobs.{
  Job, poll_room, poll_deadline, poll_reminder, is_keyed, cancel, schedule, schedule_at,
}
use whenweall.Jobs.Rearm.{schedule-IsArmed}
use whenweall.Polls.Store.{MailPoll, poll_timer, Db, enqueue_mail_poll}
use whenweall.Polls.Service.{FreshIds, reminder_lead, timer, cancel_timers, arm_deadline}

abbrev pub has_timer : ℕ → List (Job MailPoll) → Bool
has_timer id table =
    any (is_keyed poll_deadline (poll_room id)) table
    || any (is_keyed poll_reminder (poll_room id)) table

any-deleted : {A : Type 0} (p : A → Bool) (xs : List A) → any p (delete_where p xs) ≡ false
any-deleted p [] = refl
any-deleted p (x ∷ xs) = ground (arith, any-deleted p xs)

any-fewer :
    {A : Type 0} (p q : A → Bool) (xs : List A)
    → any p xs ≡ false
    → any p (delete_where q xs) ≡ false
any-fewer p q [] h = refl
any-fewer p q (x ∷ xs) h = ground (arith, any-fewer p q xs)

any-append : {A : Type 0} (p : A → Bool) (xs ys : List A) → any p (xs ++ ys) ≡ any p xs || any p ys
any-append p [] ys = refl
any-append p (x ∷ xs) ys = ground (arith, any-append p xs ys)

pub has_timer-cancel_timers :
    (id : ℕ) (table : List (Job MailPoll)) → has_timer id (cancel_timers id table) ≡ false
unfolding cancel
has_timer-cancel_timers id table =
    let deadline = is_keyed {P = MailPoll} poll_deadline (poll_room id) in
    let reminder = is_keyed {P = MailPoll} poll_reminder (poll_room id) in
    rw
      (
        any-fewer deadline reminder (delete_where deadline table) (any-deleted deadline table),
        any-deleted reminder (delete_where deadline table),
      )
      refl

-- A queued mail is no timer.
pub has_timer-enqueue_mail_poll :
    (i new_id now : ℕ) (mail : MailPoll) (db : Db)
    → has_timer i db.jobs ≡ false
    → has_timer i (enqueue_mail_poll new_id now mail db).jobs ≡ false
unfolding enqueue_mail_poll schedule schedule_at
has_timer-enqueue_mail_poll i new_id now mail db h = rw (any-append, any-append) (ground arith)

-- A job of this kind waits for the poll at this time, afresh.
abbrev pub RunsAt : ℕ → ℕ → ℕ → List (Job MailPoll) → Type 0
RunsAt kind id at table =
    (j : Job MailPoll) × (select_one (is_keyed kind (poll_room id)) table ≡ some j)
    × (j.run_at ≡ at)
    × (j.payload ≡ some (poll_timer id))
    × (j.attempts ≡ 0)
    × (j.locked ≡ none)

abbrev pub Reminds : Bool → ℕ → ℕ → List (Job MailPoll) → Type 0
Reminds true id deadline table = RunsAt poll_reminder id (deadline - reminder_lead) table
Reminds false id deadline table = any (is_keyed poll_reminder (poll_room id)) table ≡ false

-- No timer without a deadline; with one, a job at the deadline, and a reminder a day before it if
-- that is still to come, and else none.
abbrev pub IsTimed : ℕ → ℕ → Option ℕ → List (Job MailPoll) → Type 0
IsTimed id now none table = has_timer id table ≡ false
IsTimed id now (some d) table =
    RunsAt poll_deadline id d table × Reminds (ltb (now + reminder_lead) d) id d table

timer-RunsAt :
    (kind new_id id at : ℕ) (table : List (Job MailPoll))
    → RunsAt kind id at (timer kind new_id id at table)
timer-RunsAt kind new_id id at table =
    let (j, found, armed) =
      schedule-IsArmed new_id
        (record {
          kind = kind;
          room_key = some (poll_room id);
          run_at = at;
          payload = some (poll_timer id);
          max_attempts = 0;
        })
        (poll_room id) table refl in
    (j, found, armed.run_at, armed.payload, armed.attempts, armed.unlocked)

select_one-append :
    {A : Type 0} (p : A → Bool) (xs ys : List A) (a : A)
    → select_one p xs ≡ some a
    → select_one p (xs ++ ys) ≡ some a
select_one-append p [] ys a e = cc
select_one-append p (x ∷ xs) ys a e = elim (Bool-cases (p x)) [
  | inl t ↦ rw t (rw t at e)
  | inr f ↦ rw f (select_one-append p xs ys a (rw f at e))
]

select_one-elsewhere :
    {A : Type 0} (p q : A → Bool) (f : A → A) (xs : List A) (a : A)
    → ((x : A) → q x ≡ true → (p x ≡ false) × (p (f x) ≡ false))
    → select_one p xs ≡ some a
    → select_one p (update_where q f xs) ≡ some a
select_one-elsewhere p q f [] a apart e = cc
select_one-elsewhere p q f (x ∷ xs) a apart e = elim (Bool-cases (q x)) [
  | inl met ↦
      let (before, after) = apart x met in
      rw (met, after) (select_one-elsewhere p q f xs a apart (rw before at e))
  | inr other ↦ rw other (elim (Bool-cases (p x)) [
    | inl t ↦ rw t (rw t at e)
    | inr n ↦ rw n (select_one-elsewhere p q f xs a apart (rw n at e))
  ])
]

-- Arming the reminder leaves the deadline's job.
deadline-timer :
    (new_id id at d : ℕ) (table : List (Job MailPoll))
    → RunsAt poll_deadline id d table
    → RunsAt poll_deadline id d (timer poll_reminder new_id id at table)
unfolding schedule schedule_at
deadline-timer new_id id at d table (j, found, run_at, payload, attempts, unlocked) =
    let reminder = is_keyed {P = MailPoll} poll_reminder (poll_room id) in
    let deadline = is_keyed {P = MailPoll} poll_deadline (poll_room id) in
    elim (Bool-cases (any reminder table)) [
      | inl there ↦ rw there (
        j,
        select_one-elsewhere deadline reminder _ table j (λ x met. (ground arith, ground arith))
            found,
        run_at,
        payload,
        attempts,
        unlocked,
      )
      | inr absent ↦
          rw absent
            (j, select_one-append deadline table _ j found, run_at, payload, attempts, unlocked)
    ]

-- Whatever timers a poll had, after its deadline is armed it has exactly those that the deadline
-- asks for: none without a deadline; else a fresh job at the deadline, and a reminder a day before
-- it if that is still to come, and else no reminder.
pub arm_deadline-IsTimed :
    (fresh : FreshIds) (id : ℕ) (deadline : Option ℕ) (now : ℕ) (table : List (Job MailPoll))
    → IsTimed id now deadline (arm_deadline fresh id deadline now table)
unfolding arm_deadline cancel
arm_deadline-IsTimed fresh id none now table = has_timer-cancel_timers id table
arm_deadline-IsTimed fresh id (some d) now table =
    let armed = timer poll_deadline fresh.deadline_job id d table in
    let runs : RunsAt poll_deadline id d armed =
      timer-RunsAt poll_deadline fresh.deadline_job id d table in
    elim (Bool-cases (ltb (now + reminder_lead) d)) [
      | inl early ↦ rw early (
        deadline-timer fresh.reminder_job id (d - reminder_lead) d armed runs,
        timer-RunsAt poll_reminder fresh.reminder_job id (d - reminder_lead) armed,
      )
      | inr late ↦ rw late (cancelled armed runs)
    ]
  where
    cancelled :
        (armed : List (Job MailPoll))
        → RunsAt poll_deadline id d armed
        → RunsAt poll_deadline id d (cancel poll_reminder (poll_room id) armed)
          × (any (is_keyed poll_reminder (poll_room id)) (cancel poll_reminder (poll_room id) armed)
              ≡ false)
    cancelled armed (j, found, run_at, payload, attempts, unlocked) =
        let deadline = is_keyed {P = MailPoll} poll_deadline (poll_room id) in
        let reminder = is_keyed {P = MailPoll} poll_reminder (poll_room id) in
        let kind : deadline j ≡ true = select_one-test deadline armed j found in
        let spared : reminder j ≡ false = ground arith in
        (
          (
            j,
            select_one-delete_where deadline reminder armed j found spared,
            run_at,
            payload,
            attempts,
            unlocked,
          ),
          any-deleted reminder armed,
        )
