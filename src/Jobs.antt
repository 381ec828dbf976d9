-- ===== src/Jobs.antt =====
-- internal/jobs/jobs.go: the scheduled_jobs table, timers and the mail queue in one.
--
-- The table is the list of its rows, and a statement is a function on it, given the time that
-- now() reads. Row ids, replica ids and the job kinds are texts that are only compared for
-- equality, and stand as numbers; a fresh row id (db.NewID) is an argument. The payload's type is
-- a parameter, as each package that schedules jobs has its own; marshalling it does not fail.
-- pg_notify only wakes a worker early, and is left out.
pub mod Truncate
pub mod Operations
pub mod Keys
pub mod Rearm
pub mod Claims
pub mod Exclusive
pub mod Budget
pub mod Worker
use whenweall.Prelude.{
  ℕ, suc, ◌+◌, ◌-◌, ◌*◌, ◌^◌, min, Bool, true, false, ◌&&◌, ◌||◌, not, Option, none, some, List, [],
  ◌∷◌, ◌++◌, ltb, leb, ◌==◌, if◌then◌else◌, any, take, select, delete_where, update_where, map,
}
use whenweall.Jobs.Truncate.{truncate_last_error}

abbrev pub mail_send : ℕ
mail_send = 0

abbrev pub mail_poll : ℕ
mail_poll = 1

abbrev pub mail_booking : ℕ
mail_booking = 2

abbrev pub booking_reminder : ℕ
booking_reminder = 3

abbrev pub google_sync : ℕ
google_sync = 4

abbrev pub poll_deadline : ℕ
poll_deadline = 5

abbrev pub poll_reminder : ℕ
poll_reminder = 6

-- A room key is a text "<scope>:<id>".
pub record RoomKey : Type 0 where
  pub scope : ℕ
  pub id : ℕ

abbrev pub poll_room : ℕ → RoomKey
poll_room id = record { scope = 0; id = id }

abbrev pub booking_room : ℕ → RoomKey
booking_room id = record { scope = 1; id = id }

abbrev pub room_eq : RoomKey → RoomKey → Bool
room_eq a b = a.scope == b.scope && a.id == b.id

-- One row. `locked` joins locked_by and locked_at, which are set and cleared together.
pub record Job (P : Type 0) : Type 0 where
  pub id : ℕ
  pub kind : ℕ
  pub room_key : Option RoomKey
  pub run_at : ℕ
  pub payload : Option P
  pub attempts : ℕ
  pub max_attempts : ℕ
  pub locked : Option (ℕ × ℕ)
  pub last_error : Option (List ℕ)

pub record ScheduleInput (P : Type 0) : Type 0 where
  pub kind : ℕ
  pub room_key : Option RoomKey
  pub run_at : ℕ
  pub payload : Option P
  pub max_attempts : ℕ

abbrev pub lock_timeout : ℕ
lock_timeout = 5 * 60000000000

abbrev pub room_is : RoomKey → Option RoomKey → Bool
room_is k none = false
room_is k (some j) = room_eq k j

-- LEAST(power(2, attempts) minutes, 1 hour).
abbrev pub backoff : ℕ → ℕ
backoff attempts = min (2 ^ attempts * 60000000000) (60 * 60000000000)

unfoldable pub payload_expired : ℕ → Bool → Bool
payload_expired kind has_payload = kind == mail_send && not has_payload

module _ {P : Type 0} where
  -- The partial unique index on (kind, room_key).
  abbrev pub is_keyed : ℕ → RoomKey → Job P → Bool
  is_keyed kind key j = j.kind == kind && room_is key j.room_key

  abbrev pub attempts_allowed : ScheduleInput P → ℕ
  attempts_allowed input = if input.max_attempts == 0 then 5 else input.max_attempts

  abbrev pub new_row : ℕ → ScheduleInput P → Job P
  new_row new_id input = record {
    id = new_id;
    kind = input.kind;
    room_key = input.room_key;
    run_at = input.run_at;
    payload = input.payload;
    attempts = 0;
    max_attempts = attempts_allowed input;
    locked = none;
    last_error = none;
  }

  -- ON CONFLICT DO UPDATE: the new id is swapped in.
  abbrev pub rescheduled : ℕ → ScheduleInput P → Job P → Job P
  rescheduled new_id input j = record j {
    id = new_id;
    run_at = input.run_at;
    payload = input.payload;
    max_attempts = attempts_allowed input;
    attempts = 0;
    locked = none;
    last_error = none;
  }

  -- The two INSERT statements: without a room key it appends, with one it upserts.
  unfoldable pub schedule_at : ℕ → ScheduleInput P → Option RoomKey → List (Job P) → List (Job P)
  schedule_at new_id input none table = table ++ new_row new_id input ∷ []
  schedule_at new_id input (some key) table =
      if any (is_keyed input.kind key) table
      then update_where (is_keyed input.kind key) (rescheduled new_id input) table
      else table ++ new_row new_id input ∷ []

  unfoldable pub schedule : ℕ → ScheduleInput P → List (Job P) → List (Job P)
  unfolding schedule_at
  schedule new_id input table = schedule_at new_id input input.room_key table

  -- ON CONFLICT DO NOTHING.
  unfoldable pub seed_at :
      ℕ → ScheduleInput P → Option RoomKey → List (Job P) → Option (List (Job P))
  seed_at new_id input none table = none
  seed_at new_id input (some key) table =
      if any (is_keyed input.kind key) table
      then some table
      else some (table ++ new_row new_id input ∷ [])

  -- `none` is the error for a job without a room key.
  unfoldable pub schedule_if_absent : ℕ → ScheduleInput P → List (Job P) → Option (List (Job P))
  unfolding seed_at
  schedule_if_absent new_id input table = seed_at new_id input input.room_key table

  unfoldable pub cancel : ℕ → RoomKey → List (Job P) → List (Job P)
  cancel kind key table = delete_where (is_keyed kind key) table

  unfoldable pub is_unlocked : ℕ → Job P → Bool
  is_unlocked now j = elim j.locked [ none ↦ true | some l ↦ ltb (l.1) (now - lock_timeout) ]

  unfoldable pub is_due : ℕ → Job P → Bool
  unfolding is_unlocked
  is_due now j = leb j.run_at now && ltb j.attempts j.max_attempts && is_unlocked now j

  -- ORDER BY run_at.
  insert_by_run_at : Job P → List (Job P) → List (Job P)
  insert_by_run_at j [] = j ∷ []
  insert_by_run_at j (k ∷ ks) =
      let rest = insert_by_run_at j ks in if ltb k.run_at j.run_at then k ∷ rest else j ∷ k ∷ ks

  unfoldable pub order_by_run_at : List (Job P) → List (Job P)
  unfolding insert_by_run_at
  order_by_run_at [] = []
  order_by_run_at (j ∷ js) = insert_by_run_at j (order_by_run_at js)

  -- The CTE: due rows that no other transaction holds (`held`, SKIP LOCKED), in order, up to limit.
  unfoldable pub select_due : ℕ → (Job P → Bool) → ℕ → List (Job P) → List (Job P)
  unfolding is_due order_by_run_at
  select_due now held limit table =
      take limit (order_by_run_at (select (λ (j : Job P). is_due now j && not (held j)) table))

  abbrev pub has_id : ℕ → Job P → Bool
  has_id i j = j.id == i

  abbrev pub is_among : List (Job P) → Job P → Bool
  is_among due j = any (has_id j.id) due

  abbrev pub stamped : ℕ → ℕ → Job P → Job P
  stamped now replica j = record j { locked = some (replica, now); attempts = j.attempts + 1 }

  -- The claimed rows (RETURNING) and the table after the statement.
  unfoldable pub claim_due : ℕ → ℕ → (Job P → Bool) → ℕ → List (Job P) → List (Job P) × List (Job P)
  unfolding select_due
  claim_due now replica held limit table =
      let due = select_due now held limit table in
      (map (stamped now replica) due, update_where (is_among due) (stamped now replica) table)

  unfoldable pub complete : ℕ → List (Job P) → List (Job P)
  complete i table = delete_where (has_id i) table

  unfoldable pub failed : ℕ → List ℕ → Job P → Job P
  failed now message j = record j {
    locked = none;
    last_error = some (truncate_last_error message);
    run_at = if ltb j.attempts j.max_attempts then now + backoff j.attempts else j.run_at;
  }

  -- The UPDATE's RETURNING: `none` is sql.ErrNoRows, else willRetry.
  unfoldable pub will_retry : ℕ → List (Job P) → Option Bool
  will_retry i [] = none
  will_retry i (j ∷ js) =
      if j.id == i then some (ltb j.attempts j.max_attempts) else will_retry i js

  unfoldable pub fail : ℕ → ℕ → List ℕ → List (Job P) → Option Bool × List (Job P)
  unfolding failed will_retry
  fail now i message table =
      (will_retry i table, update_where (has_id i) (failed now message) table)

  abbrev pub is_dead : Job P → Bool
  is_dead j = leb j.max_attempts j.attempts

  unfoldable pub retry : ℕ → ℕ → List (Job P) → List (Job P)
  retry now i table =
      update_where (has_id i)
        (λ (j : Job P). record j { attempts = 0; locked = none; last_error = none; run_at = now })
        table
