-- ===== src/Polls/Claims/History.antt =====
-- Every history of claims: the transactions of internal/polls/claims.go in any order, each claim
-- with what it read before it locked its participant.
use whenweall.Prelude.{ℕ, ◌≡◌, Option, some}
use whenweall.Prelude.Outcome.{ok}
use whenweall.Polls.Store.{Db, get_poll_option}
use whenweall.Polls.Claims.{ClaimReads, ClaimResult, UserId, Viewer, claim_tx, unclaim}
use whenweall.Polls.Claims.Limits.{
  IsWithinCapacity, claim_tx-IsWithinCapacity, unclaim-IsWithinCapacity,
}

-- One committed transaction. The lock on the option keeps its row as it was read; of the rest of
-- what a claim read, nothing is asked.
pub data Step : Db → Db → Type 0 where
  claimed :
      {db db' : Db} (mail_id : ℕ) (r : ClaimReads) (viewer : UserId) (now : ℕ) (res : ClaimResult)
      → get_poll_option r.option.id db ≡ some r.option
      → claim_tx mail_id r viewer now db ≡ ok (res, db')
      → Step db db'
  unclaimed :
      {db db' : Db} (mail_id poll_id option_id : ℕ) (target : Option ℕ) (viewer : Viewer) (now : ℕ)
      → unclaim mail_id poll_id option_id target viewer now db ≡ ok db'
      → Step db db'

pub data Reach (start : Db) : Db → Type 0 where
  here : Reach start start
  next : {db db' : Db} → Reach start db → Step db db' → Reach start db'

Step-IsWithinCapacity : {db db' : Db} → Step db db' → IsWithinCapacity db → IsWithinCapacity db'
Step-IsWithinCapacity {db} {db'} (claimed mail_id r viewer now res locked done) h =
    claim_tx-IsWithinCapacity mail_id r viewer now db res db' done locked h
Step-IsWithinCapacity {db} {db'} (unclaimed mail_id poll_id option_id target viewer now done) h =
    unclaim-IsWithinCapacity mail_id poll_id option_id target viewer now db db' done h

-- In every history of claims and unclaims, however they interleave, no option ever has more yes
-- votes than its capacity, if none has at its start and each claim finds the option's row as it
-- locked it.
pub Reach-IsWithinCapacity : {s db : Db} → IsWithinCapacity s → Reach s db → IsWithinCapacity db
Reach-IsWithinCapacity h here = h
Reach-IsWithinCapacity h (next r st) = Step-IsWithinCapacity st (Reach-IsWithinCapacity h r)
