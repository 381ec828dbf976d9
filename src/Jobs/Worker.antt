-- ===== src/Jobs/Worker.antt =====
-- internal/jobs/worker.go: RunOnce and process.
--
-- The registered handlers are other packages' code, and so a parameter: a handler is given the job
-- and the table as it finds it, and leaves a table and, if it fails, an error's text. A recovered
-- panic and a timeout are such errors. What the worker logs is the outcome of the job. How the
-- database answers the worker's own last statement on a job, Complete's or fail's, is a parameter.
use mathlib.Core.Option
use whenweall.Prelude.{
  ℕ, suc, ◌+◌, ◌<◌, ◌≡◌, refl, sym, subst, ◌⊎◌, inl, inr, Bool, true, false, Option, none, some,
  List, [], ◌∷◌, arith, ltb, ltb→lt, length, select_one, delete_where, select_one-update_where,
  Bool-cases,
}
use whenweall.Jobs.{Job, has_id, claim_due, complete, fail, failed, will_retry, backoff, is_dead}

pub data Log : Type 0 where
  completed complete_failed retry_scheduled row_gone dead_lettered record_failure_failed : Log

-- A statement returns an error when it was refused, and also when it took effect but its answer was
-- lost.
pub data Answer : Type 0 where
  answered refused lost : Answer

abbrev pub claim_batch_size : ℕ
claim_batch_size = 20

-- willRetry and rowFound, as process's switch reads them.
abbrev pub log_of : Option Bool → Log
log_of (some true) = retry_scheduled
log_of (some false) = dead_lettered
log_of none = row_gone

abbrev pub Handler : Type 0 → Type 0
Handler P = Job P → List (Job P) → Option (List ℕ) × List (Job P)

module _ {P : Type 0} where
  module _ (handlers : ℕ → Option (Handler P)) (no_handler : ℕ → List ℕ) where
    -- A kind that nobody registered is an error.
    abbrev invoke_with : Option (Handler P) → Handler P
    invoke_with none j t = (some (no_handler j.kind), t)
    invoke_with (some h) j t = h j t

    unfoldable pub invoke : Handler P
    invoke j t = invoke_with (handlers j.kind) j t

    -- What fail returns and leaves: its own outcome, and the table after its statement.
    abbrev record_failure : Answer → List (Job P) → Option Bool × List (Job P) → Log × List (Job P)
    record_failure answered t (retries, t') = (log_of retries, t')
    record_failure refused t (retries, t') = (record_failure_failed, t)
    record_failure lost t (retries, t') = (record_failure_failed, t')

    abbrev record_success : Answer → ℕ → List (Job P) → Log × List (Job P)
    record_success answered i t = (completed, complete i t)
    record_success refused i t = (complete_failed, t)
    record_success lost i t = (complete_failed, complete i t)

    abbrev settle : Answer → ℕ → ℕ → Option (List ℕ) × List (Job P) → Log × List (Job P)
    settle answer now i (none, t) = record_success answer i t
    settle answer now i (some message, t) = record_failure answer t (fail now i message t)

    unfoldable pub process : Answer → ℕ → Job P → List (Job P) → Log × List (Job P)
    unfolding invoke
    process answer now j t = settle answer now j.id (invoke j t)

    -- `clock k` is the time at which the k-th job has run, and `answers k` the answer to its last
    -- statement.
    abbrev process_all : (ℕ → Answer) → (ℕ → ℕ) → ℕ → List (Job P) → List (Job P) → List (Job P)
    process_all answers clock k [] t = t
    process_all answers clock k (j ∷ js) t =
        process_all answers clock (suc k) js (process (answers k) (clock k) j t).1

    -- The number of jobs claimed, and the table.
    unfoldable pub run_once :
        (ℕ → Answer) → ℕ → (ℕ → ℕ) → ℕ → (Job P → Bool) → List (Job P) → ℕ × List (Job P)
    unfolding process
    run_once answers now clock replica held t =
        let (claimed, t') = claim_due now replica held claim_batch_size t in
        (length claimed, process_all answers clock 0 claimed t')

    -- The row with the job's id after a failure that is on record, as willRetry and rowFound say.
    abbrev pub IsFailed : ℕ → Option Bool → Option (Job P) → Type 0
    IsFailed now none o = o ≡ none
    IsFailed now (some true) o =
        (j : Job P) × (o ≡ some j)
        × (j.locked ≡ none)
        × (j.attempts < j.max_attempts)
        × (j.run_at ≡ now + backoff j.attempts)
    IsFailed now (some false) o =
        (j : Job P) × (o ≡ some j) × (j.locked ≡ none) × (is_dead j ≡ true)

    -- The row with the job's id after the job was processed, for each outcome; `left` is the row as
    -- the handler left it.
    abbrev pub IsSettled : ℕ → Option (Job P) → Log → Option (Job P) → Type 0
    IsSettled now left completed o = o ≡ none
    IsSettled now left row_gone o = IsFailed now none o
    IsSettled now left retry_scheduled o = IsFailed now (some true) o
    IsSettled now left dead_lettered o = IsFailed now (some false) o
    IsSettled now left complete_failed o = (o ≡ left) ⊎ (o ≡ none)
    IsSettled now left record_failure_failed o =
        (o ≡ left) ⊎ ((retries : Option Bool) × IsFailed now retries o)

    select_one-deleted :
        (i : ℕ) (t : List (Job P)) → select_one (has_id i) (delete_where (has_id i) t) ≡ none
    select_one-deleted i [] = refl
    select_one-deleted i (j ∷ t) = elim (Bool-cases (has_id i j)) [
      | inl e ↦ rw e (select_one-deleted i t)
      | inr e ↦ rw (e, e) (select_one-deleted i t)
    ]

    abbrev retries : Job P → Bool
    retries j = ltb j.attempts j.max_attempts

    will_retry-select_one :
        (i : ℕ) (t : List (Job P)) → will_retry i t ≡ Option.map retries (select_one (has_id i) t)
    unfolding will_retry
    will_retry-select_one i [] = refl
    will_retry-select_one i (j ∷ t) = elim (Bool-cases (has_id i j)) [
      | inl e ↦ rw e refl
      | inr e ↦ rw e (will_retry-select_one i t)
    ]

    failed-IsFailed :
        (now : ℕ) (message : List ℕ) (o : Option (Job P))
        → IsFailed now (Option.map retries o) (Option.map (failed now message) o)
    unfolding failed
    failed-IsFailed now message none = refl
    failed-IsFailed now message (some j) = elim (Bool-cases (retries j)) [
      | inl e ↦
          subst (λ b. IsFailed now (some b) (some (failed now message j))) (sym e)
            (failed now message j, refl, refl, ltb→lt _ _ e, ground arith)
      | inr e ↦
          subst (λ b. IsFailed now (some b) (some (failed now message j))) (sym e)
            (failed now message j, refl, refl, ground arith)
    ]

    fail-IsFailed :
        (now i : ℕ) (message : List ℕ) (t : List (Job P))
        → IsFailed now (fail now i message t).0 (select_one (has_id i) (fail now i message t).1)
    unfolding fail
    fail-IsFailed now i message t =
        rw
          (
            will_retry-select_one,
            select_one-update_where (has_id i) (failed now message) t (λ j. refl),
          )
          (failed-IsFailed now message (select_one (has_id i) t))

    log_of-IsSettled :
        (now : ℕ) (left : Option (Job P)) (retries : Option Bool) (o : Option (Job P))
        → IsFailed now retries o
        → IsSettled now left (log_of retries) o
    log_of-IsSettled now left none o h = h
    log_of-IsSettled now left (some true) o h = h
    log_of-IsSettled now left (some false) o h = h

    settle-IsSettled :
        (answer : Answer) (now i : ℕ) (out : Option (List ℕ) × List (Job P))
        → IsSettled now
            (select_one (has_id i) out.1)
            (settle answer now i out).0
            (select_one (has_id i) (settle answer now i out).1)
    unfolding complete
    settle-IsSettled answered now i (none, t) = select_one-deleted i t
    settle-IsSettled refused now i (none, t) = inl refl
    settle-IsSettled lost now i (none, t) = inr (select_one-deleted i t)
    settle-IsSettled answered now i (some message, t) =
        log_of-IsSettled now (select_one (has_id i) t) _ _ (fail-IsFailed now i message t)
    settle-IsSettled refused now i (some message, t) = inl refl
    settle-IsSettled lost now i (some message, t) = inr (_, fail-IsFailed now i message t)

    -- What the worker's log says of a job that was processed is so, whatever the handlers do to the
    -- table: a completed job's row is gone; the row of a failed one waits, unlocked, for its backoff
    -- with budget left, or is dead and unlocked, or was gone already. Only where the worker's own
    -- statement returned an error may the row still be as the handler left it, locked if it was, and
    -- the log says that.
    pub process-IsSettled :
        (answer : Answer) (now : ℕ) (j : Job P) (t : List (Job P))
        → IsSettled now
            (select_one (has_id j.id) (invoke j t).1)
            (process answer now j t).0
            (select_one (has_id j.id) (process answer now j t).1)
    unfolding process
    process-IsSettled answer now j t = settle-IsSettled answer now j.id (invoke j t)
