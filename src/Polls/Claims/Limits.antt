-- ===== src/Polls/Claims/Limits.antt =====
-- No sign-up sheet of internal/polls/claims.go is overbooked, and no participant holds more slots
-- than the sheet allows.
use whenweall.Prelude.{
  ℕ, ◌≤◌, ◌<◌, ◌≡◌, refl, sym, subst, ap, ◌∙◌, inl, inr, Bool, true, ◌||◌, Option, none, some,
  arith, ltb→lt, ◌==◌, ==_iff, count_where, Bool-cases,
}
use mathlib.Core.Option.{some-injective}
use whenweall.Prelude.Outcome.{ok, found-ok, require-ok, bind-ok}
use whenweall.Polls.Store.{
  PollOption, Db, get_poll_option, get_poll, is_by, is_for, is_yes_for, is_vote,
  count_yes_votes_for_option, delete_vote,
}
use whenweall.Polls.Claims.{
  ClaimReads, ClaimResult, UserId, Viewer, has_room, claim_tx, claim_writes, unclaim,
  unclaim_writes, insert_prepared, Prepared, is_signup, is_open, can_manage_poll, unclaim_target,
}
use whenweall.Polls.Claims.Facts.{
  count-append, count-delete_le, delete-absent, any-select, new_vote, claim_tx-cases,
}

-- No option has more yes votes than its capacity.
abbrev pub IsWithinCapacity : Db → Type 0
IsWithinCapacity db =
    (id : ℕ) (o : PollOption) (c : ℕ)
    → get_poll_option id db ≡ some o
    → o.capacity ≡ some c
    → count_yes_votes_for_option id db.votes ≤ c

pub poll_options-insert_prepared :
    (poll_id : ℕ) (is_guest : Bool) (viewer : UserId) (now : ℕ) (o : Option Prepared) (db : Db)
    → (insert_prepared poll_id is_guest viewer now o db).poll_options ≡ db.poll_options
poll_options-insert_prepared poll_id is_guest viewer now none db = refl
poll_options-insert_prepared poll_id is_guest viewer now (some p) db = refl

get_poll_option-claim_writes :
    (id mail_id : ℕ) (r : ClaimReads) (viewer : UserId) (now : ℕ) (db : Db)
    → get_poll_option id (claim_writes mail_id r viewer now db) ≡ get_poll_option id db
unfolding get_poll_option claim_writes
get_poll_option-claim_writes id mail_id r viewer now db = rw poll_options-insert_prepared refl

module _ (mail_id : ℕ) (r : ClaimReads) (viewer : UserId) (now : ℕ) (db : Db) where
  room_left :
      (o : PollOption) (c : ℕ)
      → get_poll_option r.option.id db ≡ some r.option
      → get_poll_option r.option.id db ≡ some o
      → o.capacity ≡ some c
      → has_room r.option.capacity (count_yes_votes_for_option r.option.id db.votes) ≡ true
      → count_yes_votes_for_option r.option.id db.votes < c
  room_left o c locked there bounded room =
      let same : r.option ≡ o = some-injective r.option o (sym locked ∙ there) in
      let same_bound : r.option.capacity ≡ some c = ap PollOption.capacity same ∙ bounded in
      ltb→lt _ _ (
        subst (λ b. has_room b (count_yes_votes_for_option r.option.id db.votes) ≡ true) same_bound
          room)

  -- One claim.
  pub claim_tx-IsWithinCapacity :
      (res : ClaimResult) (db' : Db)
      → claim_tx mail_id r viewer now db ≡ ok (res, db')
      → get_poll_option r.option.id db ≡ some r.option
      → IsWithinCapacity db
      → IsWithinCapacity db'
  claim_tx-IsWithinCapacity res db' done locked h =
      elim (claim_tx-cases mail_id r viewer now db res db' done) [
        | inr kept ↦ rw kept.unchanged h
        | inl claim ↦ λ id o c there bounded.
            let there' : get_poll_option id db ≡ some o =
              sym (get_poll_option-claim_writes id mail_id r viewer now db)
              ∙ subst (λ d. get_poll_option id d ≡ some o) claim.written there in
            rw (claim.votes, count-append)
              (elim (Bool-cases (r.option.id == id)) [
                | inl e ↦
                    let same : r.option.id ≡ id = (==_iff r.option.id id).0 e in
                    let room : count_yes_votes_for_option id db.votes < c =
                      subst (λ i. count_yes_votes_for_option i db.votes < c) same
                        (room_left o c locked
                          (subst (λ i. get_poll_option i db ≡ some o) (sym same) there') bounded
                          claim.in_room) in
                    rw e (omega (arith, room))
                | inr e ↦ rw e (omega (arith, h id o c there' bounded))
              ])
      ]

  -- No participant holds more slots than `limit` allows it, which is at least the limit of the
  -- claim's poll for its claimant: if none does before a claim, none does after it, whatever
  -- claims were committed since its reads.
  pub claim_tx-in_limit :
      (limit : ℕ → ℕ) (res : ClaimResult) (db' : Db)
      → claim_tx mail_id r viewer now db ≡ ok (res, db')
      → r.poll.signup_max_claims ≤ limit r.who.participant_id
      → ((p : ℕ) → count_where (is_by p) db.votes ≤ limit p)
      → (p : ℕ) → count_where (is_by p) db'.votes ≤ limit p
  claim_tx-in_limit limit res db' done allowed h p =
      elim (claim_tx-cases mail_id r viewer now db res db' done) [
        | inr kept ↦ rw kept.unchanged (h p)
        | inl claim ↦
            rw (claim.votes, count-append)
              (elim (Bool-cases (r.who.participant_id == p)) [
                | inl e ↦
                    let same : r.who.participant_id ≡ p = (==_iff r.who.participant_id p).0 e in
                    let room : count_where (is_by p) db.votes < limit p =
                      subst (λ q. count_where (is_by q) db.votes < limit q) same
                        (omega (arith, claim.in_limit, allowed)) in
                    rw e (omega (arith, room))
                | inr e ↦ rw e (omega (arith, h p))
              ])
      ]

  -- Deleting the vote of a claim that changed something takes back exactly what the claim added:
  -- the votes are as they were.
  delete_vote-claim_tx :
      (res : ClaimResult) (db' : Db)
      → claim_tx mail_id r viewer now db ≡ ok (res, db')
      → res.changed ≡ true
      → delete_vote r.who.participant_id r.option.id db'.votes ≡ db.votes
  delete_vote-claim_tx res db' done changed =
      elim (claim_tx-cases mail_id r viewer now db res db' done) [
        | inr kept ↦ cc (kept.result)
        | inl claim ↦ rw claim.votes (
            delete-absent (is_vote r.who.participant_id r.option.id) db.votes (new_vote r)
              (sym (any-select (is_for r.option.id) (is_by r.who.participant_id) db.votes)
                ∙ claim.is_new)
              (ground arith))
      ]

module _ (mail_id poll_id option_id : ℕ) (target : Option ℕ) (viewer : Viewer) (now : ℕ)
    (db db' : Db) (done : unclaim mail_id poll_id option_id target viewer now db ≡ ok db') where
  pub unclaim-writes :
      (participant : ℕ) × (db' ≡ unclaim_writes mail_id poll_id option_id participant now db)
  unfolding unclaim
  unclaim-writes =
      let (poll, _, h1) = found-ok (get_poll poll_id db) _ _ done in
      let (_, h2) = require-ok (is_signup poll.kind) _ _ h1 in
      let manages = can_manage_poll poll.organization_id poll.created_by viewer.user_id db in
      let (participant, _, h3) = bind-ok (unclaim_target target manages viewer poll_id db) _ h2 in
      let (_, h4) = require-ok (manages || is_open poll.status) _ _ h3 in (participant, cc)

  -- Unclaim and UnclaimFor keep every option within its capacity.
  pub unclaim-IsWithinCapacity : IsWithinCapacity db → IsWithinCapacity db'
  unfolding unclaim_writes get_poll_option
  unclaim-IsWithinCapacity h id o c =
      let (participant, written) = unclaim-writes in
      rw written (λ there bounded. omega (
        arith,
        h id o c there bounded,
        count-delete_le (is_yes_for id) (is_vote participant option_id) db.votes,
      ))
