-- ===== src/Tests/Scheduler.antt =====
-- The scheduled_jobs table of internal/jobs/jobs.go on small tables.
use whenweall.Prelude.{
  if◌then◌else◌, ◌==◌, map, Option, ℕ, zero, suc, ◌+◌, ◌*◌, ◌≤◌, ◌<◌, ◌≡◌, refl, Bool, false, none,
  some, List, [], ◌∷◌, arith, All, length, take, select_one,
}
use whenweall.Jobs.{
  fail, has_id, Job, ScheduleInput, poll_room, booking_reminder, mail_send, lock_timeout, claim_due,
  schedule, complete, is_among, is_keyed,
}
use whenweall.Jobs.Operations.{Op, scheduling, claiming, completing, failing, run, apply}
use whenweall.Jobs.Keys.{IsKeyed, run-IsKeyed}
use whenweall.Jobs.Rearm.{IsArmed, complete-schedule}
use whenweall.Jobs.Claims.{IsClaimed, claim_due-IsClaimed}
use whenweall.Jobs.Exclusive.{claim_due_exclusive}
use whenweall.Jobs.Budget.{times_run, times_run-bounded}
use whenweall.Jobs.Worker.{
  Handler, answered, refused, record_failure_failed, retry_scheduled, IsSettled, invoke, process,
  run_once, process-IsSettled,
}
use whenweall.Jobs.Truncate.{
  truncate_last_error, truncate_last_error-IsCut, IsCut, max_last_error_len, rune_start, byte_at,
}

-- A mail that is due at 50, with two of its three attempts left.
abbrev mail_job : Job ℕ
mail_job = record {
  id = 1;
  kind = mail_send;
  room_key = none;
  run_at = 50;
  payload = some 9;
  attempts = 1;
  max_attempts = 3;
  locked = none;
  last_error = none;
}

abbrev reminder_input : ScheduleInput ℕ
reminder_input = record {
  kind = booking_reminder;
  room_key = some (poll_room 4);
  run_at = 60;
  payload = some 8;
  max_attempts = 0;
}

abbrev table : List (Job ℕ)
table = mail_job ∷ []

abbrev free : Job ℕ → Bool
free j = false

ids_claimed_twice : List (Job ℕ)
ids_claimed_twice = let first = claim_due 100 5 free 10 table in (claim_due 200 6 free 10 first.1).0

-- The second of two workers gets nothing while the lock holds, and the job once it has run out.
second_claim : ids_claimed_twice ≡ []
unfolding ids_claimed_twice claim_due
second_claim = refl

late_claim :
    length (claim_due (lock_timeout + 101) 6 free 10 (claim_due 100 5 free 10 table).1).0 ≡ 1
unfolding claim_due
late_claim = refl

claim_due_exclusive_example :
    let first = claim_due 100 5 free 10 table in
    let second = claim_due 200 6 free 10 first.1 in
    All (λ (j : Job ℕ). is_among first.0 j ≡ false) second.0
claim_due_exclusive_example = claim_due_exclusive 100 200 5 6 free free 10 10 table (omega arith)

claim_due-IsClaimed_example :
    All (IsClaimed 100 5) (claim_due 100 5 free 10 table).0
    × (length (claim_due 100 5 free 10 table).0 ≤ 10)
claim_due-IsClaimed_example = claim_due-IsClaimed 100 5 free 10 table

-- A timer that runs, and arms itself again while it runs.
abbrev self_arming : List (Op ℕ)
self_arming =
    scheduling 2 reminder_input
    ∷ claiming 100 5 free 10
    ∷ scheduling 3 reminder_input
    ∷ completing 2
    ∷ failing 100 1 []
    ∷ []

table-IsKeyed : IsKeyed table
table-IsKeyed kind key = ground arith

run-IsKeyed_example : IsKeyed (run self_arming table)
run-IsKeyed_example = run-IsKeyed self_arming table table-IsKeyed

complete-schedule_example :
    (j : Job ℕ) × (select_one
        (is_keyed booking_reminder (poll_room 4))
        (complete 2 (schedule 3 reminder_input (schedule 2 reminder_input table)))
      ≡ some j)
    × IsArmed 3 reminder_input j
complete-schedule_example =
    complete-schedule 2 3 reminder_input (poll_room 4) (schedule 2 reminder_input table) refl
      (omega arith)

-- Four claims, an hour apart, of the job that has two attempts left.
abbrev hourly : List (Op ℕ)
hourly =
    claiming (60 * 60000000000) 5 free 10
    ∷ claiming (2 * 60 * 60000000000) 5 free 10
    ∷ claiming (3 * 60 * 60000000000) 5 free 10
    ∷ claiming (4 * 60 * 60000000000) 5 free 10
    ∷ []

times_run-hourly : times_run 1 hourly table 1 ≡ 3
unfolding times_run apply claim_due
times_run-hourly = refl

times_run-bounded_example : times_run 1 hourly table 1 ≤ 3
times_run-bounded_example =
    times_run-bounded 1 3 1 hourly table (tt, (tt, (tt, (tt, tt)))) (omega arith)
      ((λ _. (refl, refl)), tt)

-- Characters of two bytes after one of one byte, so that the 2000th byte lies within one.
repeated : ℕ → List ℕ
repeated zero = []
repeated (suc n) = 0xC3 ∷ 0xA5 ∷ repeated n

abbrev long_error : List ℕ
long_error = b'!' ∷ repeated 1001

long_error_cut : length (truncate_last_error long_error) ≡ 1999
unfolding truncate_last_error repeated
long_error_cut = refl

truncate_last_error-IsCut_example :
    (length (truncate_last_error long_error) ≤ max_last_error_len)
    × ((length long_error ≤ max_last_error_len → truncate_last_error long_error ≡ long_error)
        × (max_last_error_len < length long_error
            → (c : ℕ) × (truncate_last_error long_error ≡ take c long_error)
              × IsCut long_error c
              × (c ≤ max_last_error_len)
              × ((i : ℕ)
                  → c < i
                  → i ≤ max_last_error_len
                  → rune_start (byte_at long_error i) ≡ false)))
truncate_last_error-IsCut_example = truncate_last_error-IsCut long_error

-- Nobody handles mails; the reminder's handler arms the reminder again, under the row id 9.
abbrev handlers : ℕ → Option (Handler ℕ)
handlers kind =
    if kind == booking_reminder
    then some (λ j t. (none, schedule 9 (record reminder_input { run_at = 900 }) t))
    else none

abbrev unhandled : ℕ → List ℕ
unhandled kind = []

rearmed : List (Job ℕ)
rearmed =
    (run_once handlers unhandled (λ k. answered) 100 (λ k. 110 + k) 5 free
      (schedule 2 reminder_input table)).1

-- After one round the mail waits for its retry, and the reminder's next run is there.
run_once-rearmed : map Job.id rearmed ≡ 1 ∷ 9 ∷ []
unfolding rearmed run_once claim_due schedule process fail complete
run_once-rearmed = refl

process-IsSettled_example :
    IsSettled handlers unhandled 100
      (select_one (has_id 1) (invoke handlers unhandled mail_job table).1)
      (process handlers unhandled answered 100 mail_job table).0
      (select_one (has_id 1) (process handlers unhandled answered 100 mail_job table).1)
process-IsSettled_example = process-IsSettled handlers unhandled answered 100 mail_job table

process_log : (process handlers unhandled answered 100 mail_job table).0 ≡ retry_scheduled
unfolding process fail
process_log = refl

process_refused :
    process handlers unhandled refused 100 mail_job table ≡ (record_failure_failed, table)
unfolding process invoke
process_refused = refl
