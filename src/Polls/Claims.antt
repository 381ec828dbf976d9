-- ===== src/Polls/Claims.antt =====
-- internal/polls/claims.go: Claim, Unclaim, UnclaimFor and SignupFull.
--
-- Claim reads the poll, locks the option's row, and settles who claims; then it locks that
-- participant's row, if there is one, reads the participant's votes and the option's count, and
-- writes. The locks hold until it commits, but the first part's other reads do not: claims of
-- other options, and by other participants, may commit in between. So Claim is two functions, each
-- of the database as it finds it. `ids` gives the fresh ids: of a new participant and of a mail.
pub mod Facts
pub mod Limits
pub mod Full
pub mod History
pub mod Again
use whenweall.Prelude.{
  ℕ, suc, ◌+◌, Bool, true, false, ◌&&◌, ◌||◌, not, Option, none, some, List, [], ◌∷◌, ◌++◌, ltb,
  leb, ◌==◌, any, if◌then◌else◌, select, length, map, option_is, count_where,
}
use whenweall.Prelude.Outcome.{ok, err, ◌>>=◌, ◌>>◌, require, found}
use whenweall.Prelude.Text.{Text, trim_space, is_empty}
use whenweall.Polls.Store.{
  Error, err_forbidden, err_not_found, err_validation, err_capacity_full, err_poll_closed,
  err_limit_reached, err_claim_limit_reached, err_email_required, err_no_rows, Result, PollType,
  datetime, options, signup, PollStatus, opened, closed, finalized, Poll, PollOption, Participant,
  Vote, yes, Db, claim_confirmation, vote_changed, get_poll, get_poll_option, get_participant,
  get_participant_by_poll_and_user, list_participants_by_poll, list_options_by_poll, is_org_member,
  member_has_managing_role, is_for, is_yes_for, list_votes_by_participant,
  count_yes_votes_for_option, list_votes_by_poll, upsert_vote, delete_vote, emit, enqueue_mail_poll,
}

-- Viewer.UserID: "", a text that is no number, or a number.
pub data UserId : Type 0 where
  no_user malformed : UserId
  user : ℕ → UserId

pub record Viewer : Type 0 where
  pub user_id : UserId
  pub guest_participant_id : Option ℕ

-- `participant_id` is none for "".
pub record ClaimInput : Type 0 where
  pub participant_id : Option ℕ
  pub name : Text
  pub email : Option Text
  pub locale : Option Text

pub record ClaimResult : Type 0 where
  pub participant_id : ℕ
  pub created : Bool
  pub is_guest : Bool
  pub claimed_option_ids : List ℕ
  pub changed : Bool

pub record Prepared : Type 0 where
  pub id : ℕ
  pub name : Text
  pub email : Option Text
  pub locale : Option Text

-- What resolveClaimant returns; `prepared` is there if the participant is to be created.
pub record Claimant : Type 0 where
  pub participant_id : ℕ
  pub is_guest : Bool
  pub prepared : Option Prepared

abbrev pub is_created : Option Prepared → Bool
is_created none = false
is_created (some _) = true

abbrev pub is_signup : PollType → Bool
is_signup signup = true
is_signup datetime = false
is_signup options = false

abbrev pub is_open : PollStatus → Bool
is_open opened = true
is_open closed = false
is_open finalized = false

abbrev pub trimmed_email : Option Text → Text
trimmed_email none = []
trimmed_email (some e) = trim_space e

abbrev pub limit_participants : ℕ
limit_participants = 500

unfoldable pub prepare_new_participant :
    ℕ → ℕ → Poll → Text → Option Text → Option Text → Db → Result Prepared
prepare_new_participant id poll_id poll name email locale db = do
  require (not (is_empty (trim_space name))) err_validation
  require (not (poll.require_participant_email && is_empty (trimmed_email email)))
      err_email_required
  require (ltb (length (list_participants_by_poll poll_id db)) limit_participants) err_limit_reached
  ok (record {
    id = id;
    name = trim_space name;
    email = if is_empty (trimmed_email email) then none else some (trimmed_email email);
    locale = locale;
  })

unfoldable pub require_signup_poll : ℕ → Bool → Db → Result Poll
require_signup_poll poll_id allow_closed db = do
  poll ← found (get_poll poll_id db) err_not_found
  require (is_signup poll.kind) err_validation
  require (allow_closed || is_open poll.status) err_poll_closed
  ok poll

-- participants.go.
unfoldable pub can_manage_poll : ℕ → Option ℕ → UserId → Db → Bool
can_manage_poll org created_by no_user db = false
can_manage_poll org created_by malformed db = false
can_manage_poll org created_by (user u) db =
    is_org_member org u db && (option_is u created_by || member_has_managing_role org u db)

abbrev pub is_user : UserId → Option ℕ → Bool
is_user no_user o = false
is_user malformed o = false
is_user (user u) o = option_is u o

-- participants.go.
unfoldable pub participant_authorized : Participant → Viewer → Bool → Bool
participant_authorized p viewer can_manage =
    can_manage || option_is p.id viewer.guest_participant_id || is_user viewer.user_id p.user_id

abbrev pub has_value : Option ℕ → Bool
has_value none = false
has_value (some _) = true

abbrev pub as_existing : Participant → Bool → Claimant
as_existing p is_guest = record { participant_id = p.id; is_guest = is_guest; prepared = none }

abbrev pub as_new : Bool → Prepared → Claimant
as_new is_guest p = record { participant_id = p.id; is_guest = is_guest; prepared = some p }

-- The signed-in branch, once the user's row on the poll is looked for.
abbrev reuse_or_prepare : Option Participant → Result Prepared → Result Claimant
reuse_or_prepare (some p) fresh = ok (as_existing p false)
reuse_or_prepare none fresh = do p ← fresh; ok (as_new false p)

-- The branches without ParticipantID.
unfoldable pub resolve_viewer : UserId → ℕ → Result Prepared → Db → Result Claimant
resolve_viewer no_user poll_id fresh db = do p ← fresh; ok (as_new true p)
resolve_viewer malformed poll_id fresh db = err err_forbidden
resolve_viewer (user u) poll_id fresh db =
    reuse_or_prepare (get_participant_by_poll_and_user poll_id u db) fresh

unfoldable pub resolve_existing : ℕ → ℕ → Poll → Viewer → Db → Result Claimant
resolve_existing id poll_id poll viewer db = do
  p ← found (get_participant id db) err_not_found
  require (p.poll_id == poll_id) err_not_found
  require
      (participant_authorized p viewer
        (can_manage_poll poll.organization_id poll.created_by viewer.user_id db))
      err_forbidden
  ok (as_existing p (not (has_value p.user_id)))

unfoldable pub resolve_claimant : ℕ → ℕ → Poll → ClaimInput → Viewer → Db → Result Claimant
unfolding resolve_viewer resolve_existing
resolve_claimant new_id poll_id poll input viewer db = elim input.participant_id [
  | some id ↦ resolve_existing id poll_id poll viewer db
  | none ↦
      resolve_viewer viewer.user_id poll_id
        (prepare_new_participant new_id poll_id poll input.name input.email input.locale db) db
]

-- What Claim has read when it comes to lock the participant.
pub record ClaimReads : Type 0 where
  pub poll : Poll
  pub option : PollOption
  pub who : Claimant

unfoldable pub claim_reads : ℕ → ℕ → ℕ → ClaimInput → Viewer → Db → Result ClaimReads
claim_reads new_id poll_id option_id input viewer db = do
  poll ← require_signup_poll poll_id false db
  option ← found (get_poll_option option_id db) err_not_found
  require (option.poll_id == poll_id) err_not_found
  who ← resolve_claimant new_id poll_id poll input viewer db
  ok (record { poll = poll; option = option; who = who })

abbrev user_column : Bool → UserId → Option ℕ
user_column is_guest (user u) = if is_guest then none else some u
user_column is_guest no_user = none
user_column is_guest malformed = none

abbrev pub insert_prepared : ℕ → Bool → UserId → ℕ → Option Prepared → Db → Db
insert_prepared poll_id is_guest viewer now none db = db
insert_prepared poll_id is_guest viewer now (some p) db = record db {
  participants =
      db.participants
      ++ record {
        id = p.id;
        poll_id = poll_id;
        name = p.name;
        email = p.email;
        user_id = user_column is_guest viewer;
        locale = p.locale;
        created_at = now;
      }
        ∷ [];
}

-- The writes of a claim of a slot that is not held yet, and the counter after the commit.
unfoldable pub claim_writes : ℕ → ClaimReads → UserId → ℕ → Db → Db
unfolding enqueue_mail_poll
claim_writes mail_id r viewer now db =
    let inserted = insert_prepared r.poll.id r.who.is_guest viewer now r.who.prepared db in
    let voted : Db = record inserted {
      votes = upsert_vote r.who.participant_id r.option.id yes inserted.votes;
    } in
    let emitted = emit (vote_changed r.poll.id) voted in
    let mailed =
      enqueue_mail_poll mail_id now (claim_confirmation r.poll.id r.who.participant_id) emitted in
    record mailed { responses_yes = suc mailed.responses_yes }

abbrev pub claimed_options : ClaimReads → List Vote → List ℕ
claimed_options r votes = map Vote.option_id (list_votes_by_participant r.who.participant_id votes)

abbrev pub already_claimed : ClaimReads → List Vote → Bool
already_claimed r votes =
    any (is_for r.option.id) (list_votes_by_participant r.who.participant_id votes)

abbrev pub has_room : Option ℕ → ℕ → Bool
has_room none count = true
has_room (some capacity) count = ltb count capacity

abbrev pub has_participant : ℕ → Db → Bool
has_participant id db = any (λ (p : Participant). p.id == id) db.participants

abbrev pub result_of : ClaimReads → List ℕ → Bool → ClaimResult
result_of r claimed changed = record {
  participant_id = r.who.participant_id;
  created = is_created r.who.prepared;
  is_guest = r.who.is_guest;
  claimed_option_ids = claimed;
  changed = changed;
}

unfoldable pub claim_tx : ℕ → ClaimReads → UserId → ℕ → Db → Result (ClaimResult × Db)
claim_tx mail_id r viewer now db = do
  require (is_created r.who.prepared || has_participant r.who.participant_id db) err_no_rows
  require
      (already_claimed r db.votes
        || ltb (length (claimed_options r db.votes)) r.poll.signup_max_claims)
      err_claim_limit_reached
  require
      (already_claimed r db.votes
        || has_room r.option.capacity (count_yes_votes_for_option r.option.id db.votes))
      err_capacity_full
  ok (
      if already_claimed r db.votes then (result_of r (claimed_options r db.votes) false, db) else (
        result_of r (claimed_options r db.votes ++ r.option.id ∷ []) true,
        claim_writes mail_id r viewer now db,
      ))

-- Claim, whose first part finds the database as `seen`.
unfoldable pub claim : ℕ → ℕ → ℕ → ℕ → ClaimInput → Viewer → ℕ → Db → Db → Result (ClaimResult × Db)
claim new_id mail_id poll_id option_id input viewer now seen db = do
  r ← claim_reads new_id poll_id option_id input viewer seen
  claim_tx mail_id r viewer.user_id now db

-- Whose claim Unclaim removes; `target` is none for Unclaim, and UnclaimFor's participant.
abbrev unclaim_viewer : Option ℕ → UserId → ℕ → Db → Result ℕ
unclaim_viewer (some guest) u poll_id db = ok guest
unclaim_viewer none (user u) poll_id db = do
  p ← found (get_participant_by_poll_and_user poll_id u db) err_not_found
  ok p.id
unclaim_viewer none no_user poll_id db = err err_forbidden
unclaim_viewer none malformed poll_id db = err err_forbidden

unfoldable pub unclaim_target : Option ℕ → Bool → Viewer → ℕ → Db → Result ℕ
unclaim_target (some id) can_manage viewer poll_id db = do
  require can_manage err_forbidden
  p ← found (get_participant id db) err_not_found
  require (p.poll_id == poll_id) err_not_found
  ok p.id
unclaim_target none can_manage viewer poll_id db =
    unclaim_viewer viewer.guest_participant_id viewer.user_id poll_id db

unfoldable pub unclaim_writes : ℕ → ℕ → ℕ → ℕ → ℕ → Db → Db
unfolding enqueue_mail_poll
unclaim_writes mail_id poll_id option_id participant now db =
    let freed : Db = record db { votes = delete_vote participant option_id db.votes } in
    enqueue_mail_poll mail_id now (claim_confirmation poll_id participant)
      (emit (vote_changed poll_id) freed)

-- The body that Unclaim and UnclaimFor share; Unclaim has no target.
unfoldable pub unclaim : ℕ → ℕ → ℕ → Option ℕ → Viewer → ℕ → Db → Result Db
unclaim mail_id poll_id option_id target viewer now db = do
  poll ← found (get_poll poll_id db) err_not_found
  require (is_signup poll.kind) err_validation
  participant ←
      unclaim_target target (can_manage_poll poll.organization_id poll.created_by viewer.user_id db)
        viewer poll_id db
  require
      (can_manage_poll poll.organization_id poll.created_by viewer.user_id db
        || is_open poll.status)
      err_poll_closed
  ok (unclaim_writes mail_id poll_id option_id participant now db)

-- `target` is none for "".
unfoldable pub unclaim_for : ℕ → ℕ → ℕ → Option ℕ → Viewer → ℕ → Db → Result Db
unclaim_for mail_id poll_id option_id none viewer now db = err err_forbidden
unclaim_for mail_id poll_id option_id (some id) viewer now db =
    unclaim mail_id poll_id option_id (some id) viewer now db

-- The two loops over the options: no unlimited one, and none below its capacity.
abbrev pub is_filled : List Vote → PollOption → Bool
is_filled votes o = elim o.capacity [
  | none ↦ false
  | some c ↦ leb c (count_yes_votes_for_option o.id votes)
]

unfoldable pub all_bounded : List PollOption → Bool
all_bounded [] = true
all_bounded (o ∷ os) = has_value o.capacity && all_bounded os

unfoldable pub all_filled : List Vote → List PollOption → Bool
all_filled votes [] = true
all_filled votes (o ∷ os) = is_filled votes o && all_filled votes os

abbrev pub is_nonempty : List PollOption → Bool
is_nonempty [] = false
is_nonempty (_ ∷ _) = true

unfoldable pub signup_full : ℕ → Db → Bool
unfolding all_bounded all_filled
signup_full poll_id db =
    let os = list_options_by_poll poll_id db in
    is_nonempty os && all_bounded os && all_filled (list_votes_by_poll poll_id db) os
