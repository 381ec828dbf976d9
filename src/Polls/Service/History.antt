-- ===== src/Polls/Service/History.antt =====
-- Every history of the transactions of internal/polls/service.go and internal/polls/claims.go, each
-- of which runs alone.
use whenweall.Prelude.{ℕ, ◌≡◌, ◌≢◌, refl, ap, ◌∙◌, inl, inr, ◌⊎◌, Bool, Option, none, some, Has}
use whenweall.Prelude.Text.{Text}
use whenweall.Prelude.Outcome.{ok}
use whenweall.Polls.Store.{PollStatus, opened, closed, finalized, Poll, Db, enqueue_mail_poll}
use whenweall.Polls.Claims.{
  ClaimReads, ClaimResult, UserId, Viewer, Prepared, claim_tx, claim_writes, insert_prepared,
  unclaim, unclaim_writes,
}
use whenweall.Polls.Claims.Facts.{claim_tx-cases}
use whenweall.Polls.Claims.Limits.{unclaim-writes, poll_options-insert_prepared}
use whenweall.Polls.Schemas.{UpdatePollInput, CreatePollInput}
use whenweall.Polls.Service.{Env, FreshIds}
use whenweall.Polls.Service.Manage.{set_status, close_expired, delete, update}
use whenweall.Polls.Service.Finalize.{finalize_with_count}
use whenweall.Polls.Service.Create.{create, duplicate}
use whenweall.Polls.Service.Phases.{
  phase, phase_of, Move, stays, halts, reopens, decides, decides_late, goes, Phase, collecting,
  halted, gone, settled_on, IsConsistent, Effect, nothing,
}
use whenweall.Polls.Service.Effects.{Effect-IsConsistent, Effect-Move}
use whenweall.Polls.Service.Rows.{set_status-Effect, close_expired-Effect, delete-Effect}
use whenweall.Polls.Service.Decided.{finalize_with_count-Effect}
use whenweall.Polls.Service.Written.{IsUnused, update-Effect}
use whenweall.Polls.Service.Copied.{IsNewPoll, create-Effect, duplicate-Effect}

-- One committed transaction, with the ids that it takes fresh.
pub data Step : Db → Db → Type 0 where
  status_set :
      {db db' : Db} (id : ℕ) (org : Option ℕ) (status : Text) (now : ℕ)
      → set_status id org status now db ≡ ok db'
      → Step db db'
  expired : {db : Db} (id now : ℕ) → Step db (close_expired id now db).1
  erased :
      {db db' : Db} (id : ℕ) (org : Option ℕ) (now : ℕ)
      → delete id org now db ≡ ok db'
      → Step db db'
  resolved :
      {db db' : Db} (env : Env) (fresh : FreshIds) (id : ℕ) (org : Option ℕ) (option : ℕ)
      (actor : Option ℕ) (now sent : ℕ)
      → finalize_with_count env fresh id org option actor now db ≡ ok (sent, db')
      → Step db db'
  updated :
      {db db' : Db} (env : Env) (fresh : FreshIds) (id : ℕ) (org : Option ℕ)
      (input : UpdatePollInput) (now : ℕ)
      → IsUnused fresh db
      → update env fresh id org input now db ≡ ok db'
      → Step db db'
  created :
      {db db' : Db} (env : Env) (fresh : FreshIds) (org user : Option ℕ) (input : CreatePollInput)
      (now : ℕ)
      → IsUnused fresh db
      → IsNewPoll fresh db
      → create env fresh org user input now db ≡ ok db'
      → Step db db'
  copied :
      {db db' : Db} (fresh : FreshIds) (id : ℕ) (org user : Option ℕ) (now : ℕ)
      → IsUnused fresh db
      → IsNewPoll fresh db
      → duplicate fresh id org user now db ≡ ok db'
      → Step db db'
  claimed :
      {db db' : Db} (mail_id : ℕ) (r : ClaimReads) (viewer : UserId) (now : ℕ) (res : ClaimResult)
      → claim_tx mail_id r viewer now db ≡ ok (res, db')
      → Step db db'
  unclaimed :
      {db db' : Db} (mail_id poll_id option_id : ℕ) (target : Option ℕ) (viewer : Viewer) (now : ℕ)
      → unclaim mail_id poll_id option_id target viewer now db ≡ ok db'
      → Step db db'

pub data Reach (start : Db) : Db → Type 0 where
  here : Reach start start
  next : {db db' : Db} → Reach start db → Step db db' → Reach start db'

polls-insert_prepared :
    (poll_id : ℕ) (db : Db) (o : Option Prepared) (is_guest : Bool) (viewer : UserId) (now : ℕ)
    → (insert_prepared poll_id is_guest viewer now o db).polls ≡ db.polls
polls-insert_prepared poll_id db none is_guest viewer now = refl
polls-insert_prepared poll_id db (some p) is_guest viewer now = refl

claim_tx-Effect :
    (mail_id : ℕ) (r : ClaimReads) (viewer : UserId) (now : ℕ) (res : ClaimResult) (db db' : Db)
    → claim_tx mail_id r viewer now db ≡ ok (res, db')
    → Effect db db'
unfolding claim_writes enqueue_mail_poll
claim_tx-Effect mail_id r viewer now res db db' done =
    elim (claim_tx-cases mail_id r viewer now db res db' done) [
      | inr kept ↦ nothing (ap Db.polls kept.unchanged) (ap Db.poll_options kept.unchanged)
      | inl claim ↦
          nothing
            (ap Db.polls claim.written
              ∙ polls-insert_prepared r.poll.id db r.who.prepared r.who.is_guest viewer now)
            (ap Db.poll_options claim.written
              ∙ poll_options-insert_prepared r.poll.id r.who.is_guest viewer now r.who.prepared db)
    ]

unclaim-Effect :
    (mail_id poll_id option_id : ℕ) (target : Option ℕ) (viewer : Viewer) (now : ℕ) (db db' : Db)
    → unclaim mail_id poll_id option_id target viewer now db ≡ ok db'
    → Effect db db'
unfolding unclaim_writes enqueue_mail_poll
unclaim-Effect mail_id poll_id option_id target viewer now db db' done =
    let (participant, written) =
      unclaim-writes mail_id poll_id option_id target viewer now db db' done in
    nothing (ap Db.polls written) (ap Db.poll_options written)

pub Step-Effect : {db db' : Db} → Step db db' → IsConsistent db → Effect db db'
Step-Effect {db} {db'} (status_set id org status now done) h =
    set_status-Effect id org status now db db' h done
Step-Effect {db} {db'} (expired id now) h = close_expired-Effect id now db h
Step-Effect {db} {db'} (erased id org now done) h = delete-Effect id org now db db' h done
Step-Effect {db} {db'} (resolved env fresh id org option actor now sent done) h =
    finalize_with_count-Effect env fresh id org option actor now sent db db' h done
Step-Effect {db} {db'} (updated env fresh id org input now unused done) h =
    update-Effect env fresh id org input now db db' h unused done
Step-Effect {db} {db'} (created env fresh org user input now unused is_new done) h =
    create-Effect env fresh org user input now db db' h unused is_new done
Step-Effect {db} {db'} (copied fresh id org user now unused is_new done) h =
    duplicate-Effect fresh id org user now db db' h unused is_new done
Step-Effect {db} {db'} (claimed mail_id r viewer now res done) h =
    claim_tx-Effect mail_id r viewer now res db db' done
Step-Effect {db} {db'} (unclaimed mail_id poll_id option_id target viewer now done) h =
    unclaim-Effect mail_id poll_id option_id target viewer now db db' done

-- In every history of the poll's transactions, each of which runs alone and takes fresh ids, poll
-- ids stay unique, an option's id belongs to one poll, and a finalized poll is no sign-up sheet and
-- names an option that is in the table and is its own, while another poll names none; if all this
-- holds at the start.
pub Reach-IsConsistent : {s db : Db} → IsConsistent s → Reach s db → IsConsistent db
Reach-IsConsistent h here = h
Reach-IsConsistent {s} h (next {db} {db'} r st) =
    let before = Reach-IsConsistent h r in Effect-IsConsistent db db' before (Step-Effect st before)

-- Several moves of the abstract machine.
pub data Moves : Phase → Phase → Type 0 where
  no_move : {a : Phase} → Moves a a
  then_move : {a b c : Phase} → Moves a b → Move b c → Moves a c

-- The transactions implement the abstract machine of a poll's life: in every history of them, each
-- of which runs alone and takes fresh ids, each poll of the start is still in the table, and got
-- from its phase then to its phase now by moves of that machine alone, if the start is consistent.
pub Reach-Moves :
    {s db : Db} (x : Poll)
    → IsConsistent s
    → Has x s.polls
    → Reach s db
    → (y : Poll) × Has y db.polls × (y.id ≡ x.id) × Moves (phase x) (phase y)
Reach-Moves x h at here = (x, at, refl, no_move)
Reach-Moves x h at (next {db} {db'} r st) =
    let (y, at_y, same, path) = Reach-Moves x h at r in
    let before = Reach-IsConsistent h r in
    let (z, at_z, same', move) = Effect-Move db db' before y at_y (Step-Effect st before) in
    (z, at_z, same' ∙ same, then_move path move)

-- The decision for an option, or the deletion.
abbrev IsOver : ℕ → Phase → Type 0
IsOver o collecting = ⊥
IsOver o halted = ⊥
IsOver o gone = Unit
IsOver o (settled_on option) = option ≡ some o

Move-IsOver : (o : ℕ) {a b : Phase} → Move a b → IsOver o a → IsOver o b
Move-IsOver o stays h = h
Move-IsOver o halts h = absurd h
Move-IsOver o reopens h = absurd h
Move-IsOver o decides h = absurd h
Move-IsOver o decides_late h = absurd h
Move-IsOver o goes h = tt

Moves-IsOver : (o : ℕ) {a b : Phase} → Moves a b → IsOver o a → IsOver o b
Moves-IsOver o no_move h = h
Moves-IsOver o (then_move path move) h = Move-IsOver o move (Moves-IsOver o path h)

IsOver-start :
    (o : ℕ) (deleted_at : Option ℕ) (status : PollStatus) (option : Option ℕ)
    → status ≡ finalized
    → option ≡ some o
    → IsOver o (phase_of deleted_at status option)
IsOver-start o (some d) status option s e = tt
IsOver-start o none finalized option s e = e
IsOver-start o none opened option s e = cc
IsOver-start o none closed option s e = cc

IsOver-end :
    (o : ℕ) (deleted_at : Option ℕ) (status : PollStatus) (option : Option ℕ)
    → IsOver o (phase_of deleted_at status option)
    → ((status ≡ finalized) × (option ≡ some o)) ⊎ (deleted_at ≢ none)
IsOver-end o (some d) status option h = inr (λ e. cc)
IsOver-end o none finalized option h = inl (refl, h)
IsOver-end o none opened option h = absurd h
IsOver-end o none closed option h = absurd h

-- A decision is final: a poll that is finalized for an option at the start of a history of the
-- transactions, each of which runs alone, is finalized for the same option at its end, or deleted,
-- if the start is consistent.
pub Reach-final :
    {s db : Db} (x : Poll) (o : ℕ)
    → IsConsistent s
    → Has x s.polls
    → x.status ≡ finalized
    → x.finalized_option_id ≡ some o
    → Reach s db
    → (y : Poll) × Has y db.polls
      × (y.id ≡ x.id)
      × (((y.status ≡ finalized) × (y.finalized_option_id ≡ some o)) ⊎ (y.deleted_at ≢ none))
Reach-final x o h at status option r =
    let (y, at_y, same, path) = Reach-Moves x h at r in
    (
      y,
      at_y,
      same,
      IsOver-end o y.deleted_at y.status y.finalized_option_id (
          Moves-IsOver o path
            (IsOver-start o x.deleted_at x.status x.finalized_option_id status option)),
    )
