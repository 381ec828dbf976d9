-- ===== src/Polls/Claims/Again.antt =====
-- A slot of internal/polls/claims.go is claimed once.
use whenweall.Prelude.{
  ℕ, ◌≡◌, ◌∙◌, refl, inl, inr, true, List, [], ◌∷◌, ◌++◌, arith, any, Bool, ==_iff, ◌==◌, sym, ap,
  subst, select_one-test, ◌||◌, false, some,
}
use whenweall.Prelude.Outcome.{ok, ok-injective, require-ok, found-ok, bind-ok}
use whenweall.Polls.Store.{
  Db, err_not_found, Poll, PollOption, Vote, get_poll_option, list_votes_by_participant, is_by,
  is_for, is_vote,
}
use whenweall.Polls.Claims.{
  ClaimReads, ClaimResult, UserId, already_claimed, ClaimInput, Viewer, Claimant,
  require_signup_poll, resolve_claimant, claim_reads, claim, is_created, claimed_options, claim_tx,
  has_participant, result_of,
}
use whenweall.Polls.Claims.Facts.{any-select, new_vote, claim_tx-cases}

any-append_last {ℓ} :
    {A : Type ℓ} (p : A → Bool) (xs : List A) (x : A) → p x ≡ true → any p (xs ++ x ∷ []) ≡ true
any-append_last p [] x h = rw h refl
any-append_last p (y ∷ ys) x h = ground (arith, any-append_last p ys x h)

already_claimed-claim_tx :
    (mail_id : ℕ) (r : ClaimReads) (viewer : UserId) (now : ℕ) (db : Db) (res : ClaimResult)
    (db' : Db)
    → claim_tx mail_id r viewer now db ≡ ok (res, db')
    → already_claimed r db'.votes ≡ true
already_claimed-claim_tx mail_id r viewer now db res db' done =
    elim (claim_tx-cases mail_id r viewer now db res db' done) [
      | inr kept ↦ rw kept.unchanged kept.is_held
      | inl made ↦
          any-select (is_for r.option.id) (is_by r.who.participant_id) db'.votes
          ∙ rw made.votes (
              any-append_last (is_vote r.who.participant_id r.option.id) db.votes (new_vote r)
                (ground arith))
    ]

-- The result names the participant of the reads.
result_of-claim_tx :
    (mail_id : ℕ) (r : ClaimReads) (viewer : UserId) (now : ℕ) (db : Db) (res : ClaimResult)
    (db' : Db)
    → claim_tx mail_id r viewer now db ≡ ok (res, db')
    → res.participant_id ≡ r.who.participant_id
result_of-claim_tx mail_id r viewer now db res db' done =
    elim (claim_tx-cases mail_id r viewer now db res db' done) [
      | inr kept ↦ kept.by_claimant
      | inl made ↦ made.by_claimant
    ]

id-get_poll_option :
    (id : ℕ) (db : Db) (o : PollOption) → get_poll_option id db ≡ some o → o.id ≡ id
unfolding get_poll_option
id-get_poll_option id db o at =
    (==_iff o.id id).0 (select_one-test (λ (o : PollOption). o.id == id) db.poll_options o at)

-- The option that the reads find is the one that was asked for.
option-claim_reads :
    (new_id poll_id option_id : ℕ) (input : ClaimInput) (viewer : Viewer) (db : Db) (r : ClaimReads)
    → claim_reads new_id poll_id option_id input viewer db ≡ ok r
    → r.option.id ≡ option_id
unfolding claim_reads
option-claim_reads new_id poll_id option_id input viewer db r done =
    let (poll, _, h1) = bind-ok (require_signup_poll poll_id false db) _ done in
    let (option, at, h2) = found-ok (get_poll_option option_id db) err_not_found _ h1 in
    let (_, h3) = require-ok (option.poll_id == poll_id) err_not_found _ h2 in
    let (who, _, h4) = bind-ok (resolve_claimant new_id poll_id poll input viewer db) _ h3 in
    ap (λ (x : ClaimReads). x.option.id) (sym (ok-injective h4))
    ∙ id-get_poll_option option_id db option at

-- The reads of a claim, one after the other.
claim_reads-found :
    (new_id poll_id option_id : ℕ) (input : ClaimInput) (viewer : Viewer) (db : Db) (poll : Poll)
    (option : PollOption) (who : Claimant)
    → require_signup_poll poll_id false db ≡ ok poll
    → get_poll_option option_id db ≡ some option
    → option.poll_id ≡ poll_id
    → resolve_claimant new_id poll_id poll input viewer db ≡ ok who
    → claim_reads new_id poll_id option_id input viewer db
      ≡ ok (record { poll = poll; option = option; who = who })
unfolding claim_reads
claim_reads-found new_id poll_id option_id input viewer db poll option who open_poll at own
      resolved =
    let fits : (option.poll_id == poll_id) ≡ true = (==_iff option.poll_id poll_id).1 own in
    rw (open_poll, at, fits, resolved) refl

-- Who has a vote for the option.
abbrev holds : ℕ → ℕ → List Vote → Bool
holds participant option votes = any (is_for option) (list_votes_by_participant participant votes)

-- A later claim of a slot by a participant that holds it, whose reads find the participant.
claim_tx-held :
    (mail_id : ℕ) (r : ClaimReads) (viewer : UserId) (now : ℕ) (db : Db)
    → has_participant r.who.participant_id db ≡ true
    → already_claimed r db.votes ≡ true
    → claim_tx mail_id r viewer now db ≡ ok (result_of r (claimed_options r db.votes) false, db)
unfolding claim_tx
claim_tx-held mail_id r viewer now db there held =
    rw (either (is_created r.who.prepared) _ there, held) refl
  where
    either : (a b : Bool) → b ≡ true → a || b ≡ true
    either true b h = refl
    either false b h = h

-- Claim is idempotent: once a claim of a slot has succeeded, a claim of the same slot right after
-- it, with the poll still an open sign-up sheet, the slot still on it, and a claimant that resolves
-- to the first claim's participant, who is there, succeeds, says that nothing changed, and leaves
-- the database as it is, without a vote, mail or event, also when the sheet or the participant's
-- budget is full.
pub claim-again :
    (new_id mail_id poll_id option_id : ℕ) (input : ClaimInput) (viewer : Viewer) (now : ℕ)
    (seen db : Db) (res : ClaimResult) (db' : Db) (new_id' mail_id' : ℕ) (input' : ClaimInput)
    (viewer' : Viewer) (now' : ℕ) (poll : Poll) (option : PollOption) (who : Claimant)
    → claim new_id mail_id poll_id option_id input viewer now seen db ≡ ok (res, db')
    → require_signup_poll poll_id false db' ≡ ok poll
    → get_poll_option option_id db' ≡ some option
    → option.poll_id ≡ poll_id
    → resolve_claimant new_id' poll_id poll input' viewer' db' ≡ ok who
    → who.participant_id ≡ res.participant_id
    → has_participant res.participant_id db' ≡ true
    → (again : ClaimResult) × (claim new_id' mail_id' poll_id option_id input' viewer' now' db' db'
        ≡ ok (again, db'))
      × (again.participant_id ≡ res.participant_id)
      × (again.changed ≡ false)
unfolding claim
claim-again new_id mail_id poll_id option_id input viewer now seen db res db' new_id' mail_id'
      input' viewer' now' poll option who done open_poll at own resolved same there =
    let (r, reads, tx) = bind-ok (claim_reads new_id poll_id option_id input viewer seen) _ done in
    let r' : ClaimReads = record { poll = poll; option = option; who = who } in
    let slot : r.option.id ≡ option.id =
      option-claim_reads new_id poll_id option_id input viewer seen r reads
      ∙ sym (id-get_poll_option option_id db' option at) in
    let claimant : r.who.participant_id ≡ who.participant_id =
      sym (result_of-claim_tx mail_id r viewer.user_id now db res db' tx) ∙ sym same in
    let held : holds who.participant_id option.id db'.votes ≡ true =
      subst (λ i. holds i option.id db'.votes ≡ true) claimant
        (subst (λ i. holds r.who.participant_id i db'.votes ≡ true) slot
          (already_claimed-claim_tx mail_id r viewer.user_id now db res db' tx)) in
    let found_there : has_participant who.participant_id db' ≡ true =
      subst (λ i. has_participant i db' ≡ true) (sym same) there in
    let reads' =
      claim_reads-found new_id' poll_id option_id input' viewer' db' poll option who open_poll at
        own resolved in
    (
      result_of r' (claimed_options r' db'.votes) false,
      rw reads' (claim_tx-held mail_id' r' viewer'.user_id now' db' found_there held),
      same,
      refl,
    )
