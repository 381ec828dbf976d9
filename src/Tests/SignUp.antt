-- ===== src/Tests/SignUp.antt =====
-- Claims of internal/polls/claims.go on two small sign-up sheets.
use whenweall.Prelude.{ℕ, ◌≤◌, ◌≡◌, refl, true, false, none, some, [], ◌∷◌, arith, count_where}
use whenweall.Prelude.Text.{codes, trim_space}
use whenweall.Prelude.Outcome.{ok, err}
use whenweall.Polls.Store.{
  Poll, PollOption, Participant, Db, signup, opened, of_text, get_poll, get_poll_option,
  get_participant, get_participant_by_poll_and_user, list_options_by_poll,
  list_participants_by_poll, list_votes_by_poll, is_by, err_capacity_full,
}
use whenweall.Polls.Claims.{
  ClaimReads, ClaimInput, ClaimResult, claim, Viewer, user, no_user, Prepared, as_existing, as_new,
  claim_reads, claim_tx, claim_writes, has_participant, result_of, unclaim, unclaim_writes,
  unclaim_target, signup_full, require_signup_poll, resolve_claimant, resolve_viewer,
  prepare_new_participant, can_manage_poll, participant_authorized,
}
use whenweall.Polls.Claims.Limits.{
  IsWithinCapacity, claim_tx-IsWithinCapacity, claim_tx-in_limit, unclaim-IsWithinCapacity,
}
use whenweall.Polls.Claims.History.{here, next, claimed, unclaimed, Reach-IsWithinCapacity}
use whenweall.Polls.Claims.Full.{signup_full-claim_tx}
use whenweall.Polls.Claims.Again.{claim-again}

abbrev sheet : ℕ → Poll
sheet id = record {
  id = id;
  organization_id = 1;
  created_by = none;
  kind = signup;
  title = codes "Cake stand";
  description = none;
  location = none;
  timezone = codes "UTC";
  status = opened;
  deadline_at = none;
  finalized_option_id = none;
  require_participant_email = false;
  allow_comments = true;
  allow_if_need_be = false;
  signup_max_claims = 1;
  created_at = 0;
  updated_at = 0;
  deleted_at = none;
  suspended_at = none;
}

abbrev slot : ℕ → ℕ → PollOption
slot poll id = record {
  id = id;
  poll_id = poll;
  position = 0;
  kind = of_text;
  start_at = none;
  end_at = none;
  label = some (codes "Slot");
  capacity = some 1;
}

abbrev ann : Participant
ann = record {
  id = 50;
  poll_id = 1;
  name = codes "Ann";
  email = none;
  user_id = none;
  locale = none;
  created_at = 0;
}

-- Sheet 1 has one slot, sheet 2 has two.
abbrev db : Db
db = record {
  polls = sheet 1 ∷ sheet 2 ∷ [];
  poll_options = slot 1 10 ∷ slot 2 20 ∷ slot 2 21 ∷ [];
  participants = ann ∷ [];
  votes = [];
  comments = [];
  members = [];
  jobs = [];
  events = [];
  users = [];
  subscriptions = [];
  prefs = [];
  responses_yes = 0;
  responses_if_need_be = 0;
  responses_no = 0;
  polls_created = 0;
  polls_finalized = 0;
}

abbrev as_ann : Viewer
as_ann = record { user_id = no_user; guest_participant_id = some 50 }

abbrev by_ann : ClaimInput
by_ann = record { participant_id = some 50; name = []; email = none; locale = none }

abbrev reads : ClaimReads
reads = record { poll = sheet 1; option = slot 1 10; who = as_existing ann true }

claim_reads-db : claim_reads 60 1 10 by_ann as_ann db ≡ ok reads
unfolding claim_reads require_signup_poll resolve_claimant get_poll get_poll_option get_participant
    can_manage_poll participant_authorized
claim_reads-db = refl

abbrev db_claimed : Db
db_claimed = claim_writes 61 reads no_user 5 db

claim_tx-db : claim_tx 61 reads no_user 5 db ≡ ok (result_of reads (10 ∷ []) true, db_claimed)
unfolding claim_tx
claim_tx-db = refl

db-IsWithinCapacity : IsWithinCapacity db
db-IsWithinCapacity id o c there bounded = omega arith

option_locked : get_poll_option 10 db ≡ some (slot 1 10)
unfolding get_poll_option
option_locked = refl

claim_tx-IsWithinCapacity_example : IsWithinCapacity db_claimed
claim_tx-IsWithinCapacity_example =
    claim_tx-IsWithinCapacity 61 reads no_user 5 db (result_of reads (10 ∷ []) true) db_claimed
      claim_tx-db option_locked db-IsWithinCapacity

claim_tx-in_limit_example : count_where (is_by 50) db_claimed.votes ≤ 1
claim_tx-in_limit_example =
    claim_tx-in_limit 61 reads no_user 5 db (λ p. 1) (result_of reads (10 ∷ []) true) db_claimed
      claim_tx-db (omega arith) (λ p. omega arith) 50

db_claimed-has_participant : has_participant 50 db_claimed ≡ true
unfolding claim_writes
db_claimed-has_participant = refl

claim-db : claim 60 61 1 10 by_ann as_ann 5 db db ≡ ok (result_of reads (10 ∷ []) true, db_claimed)
unfolding claim
claim-db = rw claim_reads-db claim_tx-db

db_claimed-open : require_signup_poll 1 false db_claimed ≡ ok (sheet 1)
unfolding require_signup_poll get_poll claim_writes
db_claimed-open = refl

db_claimed-resolved :
    resolve_claimant 70 1 (sheet 1) by_ann as_ann db_claimed ≡ ok (as_existing ann true)
unfolding resolve_claimant get_participant can_manage_poll participant_authorized claim_writes
db_claimed-resolved = refl

option_still : get_poll_option 10 db_claimed ≡ some (slot 1 10)
unfolding get_poll_option claim_writes
option_still = refl

claim-again_example :
    (again : ClaimResult) × (claim 70 71 1 10 by_ann as_ann 9 db_claimed db_claimed
      ≡ ok (again, db_claimed))
    × (again.participant_id ≡ 50)
    × (again.changed ≡ false)
claim-again_example =
    claim-again 60 61 1 10 by_ann as_ann 5 db db (result_of reads (10 ∷ []) true) db_claimed 70 71
      by_ann as_ann 9 (sheet 1) (slot 1 10) (as_existing ann true) claim-db db_claimed-open
      option_still refl db_claimed-resolved refl db_claimed-has_participant

db_claimed-full : signup_full 1 db_claimed ≡ true
unfolding signup_full claim_writes list_options_by_poll list_votes_by_poll
db_claimed-full = refl

repeated-db_claimed :
    claim_tx 71 reads no_user 9 db_claimed ≡ ok (result_of reads (10 ∷ []) false, db_claimed)
unfolding claim_tx claim_writes
repeated-db_claimed = refl

signup_full-claim_tx_example :
    ((result_of reads (10 ∷ []) false).changed ≡ false) × (db_claimed ≡ db_claimed)
signup_full-claim_tx_example =
    signup_full-claim_tx 71 reads no_user 9 db_claimed (result_of reads (10 ∷ []) false) db_claimed
      db_claimed-full option_still refl repeated-db_claimed

-- Another visitor is refused the slot.
abbrev bob : Prepared
bob = record { id = 51; name = codes "Bob"; email = none; locale = none }

abbrev reads_bob : ClaimReads
reads_bob = record { poll = sheet 1; option = slot 1 10; who = as_new true bob }

claim_tx_full : claim_tx 71 reads_bob no_user 9 db_claimed ≡ err err_capacity_full
unfolding claim_tx claim_writes
claim_tx_full = refl

abbrev db_freed : Db
db_freed = unclaim_writes 81 1 10 50 12 db_claimed

unclaim-db_claimed : unclaim 81 1 10 none as_ann 12 db_claimed ≡ ok db_freed
unfolding unclaim claim_writes unclaim_target get_poll can_manage_poll
unclaim-db_claimed = refl

unclaim-IsWithinCapacity_run : IsWithinCapacity db_freed
unclaim-IsWithinCapacity_run =
    unclaim-IsWithinCapacity 81 1 10 none as_ann 12 db_claimed db_freed unclaim-db_claimed
      claim_tx-IsWithinCapacity_example

Reach-IsWithinCapacity_example : IsWithinCapacity db_freed
Reach-IsWithinCapacity_example = Reach-IsWithinCapacity db-IsWithinCapacity (
    next
      (next here
        (claimed 61 reads no_user 5 (result_of reads (10 ∷ []) true) option_locked claim_tx-db))
      (unclaimed 81 1 10 none as_ann 12 unclaim-db_claimed))

-- The first claims of one signed-in user, of the two slots of sheet 2, where each reads before the
-- other commits: each finds no participant of the user and makes one, so both succeed, although
-- the sheet allows one claim.
abbrev signed_in : Viewer
signed_in = record { user_id = user 5; guest_participant_id = none }

abbrev first_claim : ClaimInput
first_claim = record { participant_id = none; name = codes "Eve"; email = none; locale = none }

abbrev prepared : ℕ → Prepared
prepared id = record { id = id; name = codes "Eve"; email = none; locale = none }

abbrev first_reads : ℕ → ℕ → ClaimReads
first_reads id option = record {
  poll = sheet 2;
  option = slot 2 option;
  who = as_new false (prepared id);
}

first_reads-db :
    (claim_reads 60 2 20 first_claim signed_in db ≡ ok (first_reads 60 20))
    × (claim_reads 62 2 21 first_claim signed_in db ≡ ok (first_reads 62 21))
unfolding claim_reads require_signup_poll resolve_claimant resolve_viewer prepare_new_participant
    get_poll get_poll_option get_participant_by_poll_and_user trim_space list_participants_by_poll
first_reads-db = (refl, refl)

abbrev db_first : Db
db_first = claim_writes 61 (first_reads 60 20) (user 5) 5 db

two_first_claims :
    claim_tx 63 (first_reads 62 21) (user 5) 6 db_first
    ≡ ok (
      result_of (first_reads 62 21) (21 ∷ []) true,
      claim_writes 63 (first_reads 62 21) (user 5) 6 db_first,
    )
unfolding claim_tx claim_writes
two_first_claims = refl
