-- ===== src/Jobs/Operations.antt =====
-- A history of the scheduled_jobs table: the statements of internal/jobs/jobs.go in sequence.
use whenweall.Prelude.{ℕ, Bool, Option, none, some, List, [], ◌∷◌}
use whenweall.Jobs.{
  Job, ScheduleInput, RoomKey, schedule, schedule_if_absent, cancel, claim_due, complete, fail,
  retry,
}

-- One statement with its arguments; the first number is the new row's id, or the time.
pub data Op (P : Type 0) : Type 0 where
  scheduling : ℕ → ScheduleInput P → Op P
  seeding : ℕ → ScheduleInput P → Op P
  cancelling : ℕ → RoomKey → Op P
  claiming : ℕ → ℕ → (Job P → Bool) → ℕ → Op P
  completing : ℕ → Op P
  failing : ℕ → ℕ → List ℕ → Op P
  retrying : ℕ → ℕ → Op P

module _ {P : Type 0} where
  -- The error of ScheduleIfAbsent writes nothing.
  abbrev pub committed : List (Job P) → Option (List (Job P)) → List (Job P)
  committed table none = table
  committed table (some t) = t

  unfoldable pub apply : Op P → List (Job P) → List (Job P)
  apply (scheduling i input) t = schedule i input t
  apply (seeding i input) t = committed t (schedule_if_absent i input t)
  apply (cancelling kind key) t = cancel kind key t
  apply (claiming now replica held limit) t = (claim_due now replica held limit t).1
  apply (completing i) t = complete i t
  apply (failing now i message) t = (fail now i message t).1
  apply (retrying now i) t = retry now i t

  unfoldable pub run : List (Op P) → List (Job P) → List (Job P)
  unfolding apply
  run [] t = t
  run (o ∷ os) t = run os (apply o t)
