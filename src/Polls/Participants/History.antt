-- ===== src/Polls/Participants/History.antt =====
-- Every history of the participants' transactions of internal/polls/participants.go.
use whenweall.Prelude.{
  ℕ, ◌≡◌, refl, sym, subst, ◌∙◌, inl, inr, false, not, ◌&&◌, ◌||◌, List, [], ◌∷◌, ◌==◌, ==_iff, ltb,
  length, Has, Has-left, Has-right, Has-kept, Has-changed, Has-spared, Has-undeleted, Has-survivor,
  select_one-Has, select_one-test, delete_where, update_where, Bool-cases,
}
use whenweall.Prelude.Text.{is_empty}
use whenweall.Prelude.Outcome.{ok, bind-ok, found-ok, require-ok, ok-injective}
use whenweall.Polls.Store.{
  Participant, Db, get_poll, get_participant, list_options_by_poll, list_participants_by_poll,
  is_by,
}
use whenweall.Polls.Claims.{
  Viewer, is_open, can_manage_poll, participant_authorized, trimmed_email, limit_participants,
}
use whenweall.Polls.Participants.{
  ParticipantInput, validate_answers, require_open_poll, require_participant_in_poll, user_of,
  add_participant, add_writes, new_participant, update_participant, update_writes,
  remove_participant, remove_writes, has_id, renamed,
}
use whenweall.Polls.Participants.Ballots.{AreBallots, cast-AreBallots}

add_participant-AreBallots :
    (new_id poll_id : ℕ) (input : ParticipantInput) (viewer : Viewer) (now : ℕ) (db db' : Db)
    → add_participant new_id poll_id input viewer now db ≡ ok db'
    → AreBallots db
    → AreBallots db'
unfolding add_participant
add_participant-AreBallots new_id poll_id input viewer now db db' done h =
    let (poll, _, h1) = bind-ok (require_open_poll poll_id db) _ done in
    let (_, h2) =
      require-ok (not (poll.require_participant_email && is_empty (trimmed_email input.email))) _ _
        h1 in
    let (_, h3) =
      require-ok (ltb (length (list_participants_by_poll poll_id db)) limit_participants) _ _ h2 in
    let (valid, h4) =
      require-ok
        (validate_answers (list_options_by_poll poll_id db) poll.allow_if_need_be input.answers) _ _
        h3 in
    let (user_id, _, h5) = bind-ok (user_of viewer.user_id) _ h4 in
    let new = new_participant new_id poll_id input user_id now in
    let added = add_writes new_id poll_id input user_id now db in
    subst AreBallots (ok-injective h5) (
      cast-AreBallots new_id poll_id poll.allow_if_need_be input.answers db.votes db added valid
        refl refl
        (λ v at.
          let (p, o, at_p, at_o, rest, rest', rest'') = h v at in
          (p, o, Has-left p db.participants (new ∷ []) at_p, at_o, rest, rest', rest''))
        new (Has-right new db.participants (new ∷ []) (inl refl)) refl refl)

renamed-row :
    (input : ParticipantInput) (p : Participant)
    → ((renamed input p).id ≡ p.id) × ((renamed input p).poll_id ≡ p.poll_id)
renamed-row input p = elim (Bool-cases input.name_set) [
  | inl t ↦ rw t (refl, refl)
  | inr n ↦ rw n (refl, refl)
]

-- A row after the renaming is there with its id and its poll.
row_after :
    (id : ℕ) (input : ParticipantInput) (ps : List Participant) (p : Participant)
    → Has p ps
    → (q : Participant) × Has q (update_where (has_id id) (renamed input) ps)
      × (q.id ≡ p.id)
      × (q.poll_id ≡ p.poll_id)
row_after id input ps p at = elim (Bool-cases (has_id id p)) [
  | inl met ↦
      let (same, poll) = renamed-row input p in
      (renamed input p, Has-changed p (has_id id) (renamed input) ps at met, same, poll)
  | inr other ↦ (p, Has-kept p (has_id id) (renamed input) ps at other, refl, refl)
]

update_participant-AreBallots :
    (poll_id id : ℕ) (input : ParticipantInput) (viewer : Viewer) (db db' : Db)
    → update_participant poll_id id input viewer db ≡ ok db'
    → AreBallots db
    → AreBallots db'
unfolding update_participant require_participant_in_poll get_participant
update_participant-AreBallots poll_id id input viewer db db' done h =
    let (q, found_q, h1) = bind-ok (require_participant_in_poll poll_id id db) _ done in
    let (poll, _, h2) = bind-ok (require_open_poll poll_id db) _ h1 in
    let (_, h3) =
      require-ok
        (participant_authorized q viewer
          (can_manage_poll poll.organization_id poll.created_by viewer.user_id db))
        _ _ h2 in
    let (valid, h4) =
      require-ok
        (validate_answers (list_options_by_poll poll_id db) poll.allow_if_need_be input.answers) _ _
        h3 in
    let (r, there, k1) = found-ok (get_participant id db) _ _ found_q in
    let (own, _) = require-ok (r.poll_id == poll_id) _ _ k1 in
    let at_r = select_one-Has _ db.participants r there in
    let named = (==_iff r.id id).0 (select_one-test _ db.participants r there) in
    let (s, at_s, same, poll_same) = row_after id input db.participants r at_r in
    let updated = update_writes poll_id id input db in
    subst AreBallots (ok-injective h4) (
      cast-AreBallots id poll_id poll.allow_if_need_be input.answers
        (delete_where (is_by id) db.votes) db updated valid refl refl
        (λ v at.
          let (p, o, at_p, at_o, by, on, one) = h v (Has-undeleted v (is_by id) db.votes at) in
          let (p', at_p', same', poll') = row_after id input db.participants p at_p in
          (p', o, at_p', at_o, by ∙ sym same', on, one ∙ sym poll'))
        s at_s (same ∙ named) (poll_same ∙ (==_iff r.poll_id poll_id).0 own))

remove_participant-AreBallots :
    (poll_id id : ℕ) (viewer : Viewer) (db db' : Db)
    → remove_participant poll_id id viewer db ≡ ok db'
    → AreBallots db
    → AreBallots db'
unfolding remove_participant
remove_participant-AreBallots poll_id id viewer db db' done h =
    let (q, _, h1) = bind-ok (require_participant_in_poll poll_id id db) _ done in
    let (poll, _, h2) = found-ok (get_poll poll_id db) _ _ h1 in
    let manages = can_manage_poll poll.organization_id poll.created_by viewer.user_id db in
    let (_, h3) = require-ok (manages || is_open poll.status) _ _ h2 in
    let (_, h4) = require-ok (participant_authorized q viewer manages) _ _ h3 in
    subst AreBallots (ok-injective h4) kept
  where
    kept : AreBallots (remove_writes poll_id id db)
    kept v at =
        let (p, o, at_p, at_o, by, on, one) = h v (Has-undeleted v (is_by id) db.votes at) in
        let others = Has-survivor v (is_by id) db.votes at in
        let spared : has_id id p ≡ false = subst (λ i. (i == id) ≡ false) by others in
        (p, o, Has-spared p (has_id id) db.participants at_p spared, at_o, by, on, one)

-- One committed transaction on the participants.
pub data Step : Db → Db → Type 0 where
  added :
      {db db' : Db} (new_id poll_id : ℕ) (input : ParticipantInput) (viewer : Viewer) (now : ℕ)
      → add_participant new_id poll_id input viewer now db ≡ ok db'
      → Step db db'
  updated :
      {db db' : Db} (poll_id id : ℕ) (input : ParticipantInput) (viewer : Viewer)
      → update_participant poll_id id input viewer db ≡ ok db'
      → Step db db'
  removed :
      {db db' : Db} (poll_id id : ℕ) (viewer : Viewer)
      → remove_participant poll_id id viewer db ≡ ok db'
      → Step db db'

pub data Reach (start : Db) : Db → Type 0 where
  here : Reach start start
  next : {db db' : Db} → Reach start db → Step db db' → Reach start db'

-- In every history of AddParticipant, UpdateParticipant and RemoveParticipant, every vote is by a
-- participant that is in the table, for an option that is in the table, of that participant's own
-- poll, if it is so at the start.
pub Reach-AreBallots : {s db : Db} → AreBallots s → Reach s db → AreBallots db
Reach-AreBallots h here = h
Reach-AreBallots h (next {db} {db'} r (added new_id poll_id input viewer now done)) =
    add_participant-AreBallots new_id poll_id input viewer now db db' done (Reach-AreBallots h r)
Reach-AreBallots h (next {db} {db'} r (updated poll_id id input viewer done)) =
    update_participant-AreBallots poll_id id input viewer db db' done (Reach-AreBallots h r)
Reach-AreBallots h (next {db} {db'} r (removed poll_id id viewer done)) =
    remove_participant-AreBallots poll_id id viewer db db' done (Reach-AreBallots h r)
