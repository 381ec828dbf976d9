-- ===== src/Polls/Participants/Ballots.antt =====
-- Whose votes are in the tables that internal/polls/participants.go writes, and for what.
use whenweall.Prelude.{
  ℕ, ◌≡◌, refl, sym, ap, subst, ◌∙◌, ◌⊎◌, inl, inr, Bool, true, none, some, List, [], ◌∷◌, ==_iff,
  arith, any, Has, Any-append, Has-updated, Has-selected, any-Has, Bool-cases,
}
use whenweall.Polls.Store.{
  PollOption, Participant, Answer, Vote, Db, list_options_by_poll, is_vote, upsert_vote,
}
use whenweall.Polls.Participants.{Answers, is_option, vote_all, validate_answers}

-- The participant and the option of a vote are of one poll.
abbrev pub IsOfOnePoll : List Participant → List PollOption → ℕ → ℕ → Type 0
IsOfOnePoll participants options participant option =
    (p : Participant) × (o : PollOption) × Has p participants
    × Has o options
    × (participant ≡ p.id)
    × (option ≡ o.id)
    × (o.poll_id ≡ p.poll_id)

abbrev pub AreBallots : Db → Type 0
AreBallots db =
    (v : Vote)
    → Has v db.votes
    → IsOfOnePoll db.participants db.poll_options v.participant_id v.option_id

-- A vote after the loop: one from before by its key, or one of the answers'.
abbrev IsCast : ℕ → (ℕ → Type 0) → List Vote → Vote → Type 0
IsCast participant Offered votes v =
    ((w : Vote) × Has w votes × (w.participant_id ≡ v.participant_id) × (w.option_id ≡ v.option_id))
    ⊎ ((v.participant_id ≡ participant) × Offered v.option_id)

upsert_vote-IsCast :
    (participant id : ℕ) (a : Answer) (Offered : ℕ → Type 0) (votes : List Vote) (v : Vote)
    → Offered id
    → Has v (upsert_vote participant id a votes)
    → IsCast participant Offered votes v
upsert_vote-IsCast participant id a Offered votes v offered at =
    elim (Bool-cases (any (is_vote participant id) votes)) [
      | inl there ↦
          let (w, at_w, how) =
            Has-updated v (is_vote participant id) (λ (x : Vote). record x { answer = a }) votes
              (rw there at at) in
          elim how [
            | inl (_, e) ↦ inl (w, at_w, sym (ap Vote.participant_id e), sym (ap Vote.option_id e))
            | inr (_, e) ↦ inl (w, at_w, sym (ap Vote.participant_id e), sym (ap Vote.option_id e))
          ]
      | inr absent ↦ elim (Any-append (λ x. v ≡ x) votes _ (rw absent at at)) [
        | inl before ↦ inl (v, before, refl, refl)
        | inr new ↦ elim new [
          | inl e ↦
              inr (ap Vote.participant_id e, subst Offered (sym (ap Vote.option_id e)) offered)
          | inr none_left ↦ absurd none_left
        ]
      ]
    ]

vote_all-IsCast :
    (participant : ℕ) (options : List PollOption) (allow : Bool) (answers : Answers)
    (votes : List Vote) (v : Vote)
    → validate_answers options allow answers ≡ true
    → Has v (vote_all participant answers votes)
    → IsCast participant (λ id. is_option options id ≡ true) votes v
unfolding validate_answers vote_all
vote_all-IsCast participant options allow [] votes v valid at = inl (v, at, refl, refl)
vote_all-IsCast participant options allow ((id, none) ∷ answers) votes v valid at = ground arith
vote_all-IsCast participant options allow ((id, some a) ∷ answers) votes v valid at =
    elim (vote_all-IsCast participant options allow answers (upsert_vote participant id a votes) v
      (ground arith) at) [
        | inr new ↦ inr new
        | inl (w, at_w, p, o) ↦
            elim (upsert_vote-IsCast participant id a (λ i. is_option options i ≡ true) votes w
              (ground arith) at_w) [
                | inl (u, at_u, p', o') ↦ inl (u, at_u, p' ∙ p, o' ∙ o)
                | inr (p', offered) ↦
                    inr (sym p ∙ p', subst (λ i. is_option options i ≡ true) o offered)
              ]
      ]

-- An offered option is one of the poll's.
option_of :
    (poll_id id : ℕ) (db : Db)
    → is_option (list_options_by_poll poll_id db) id ≡ true
    → (o : PollOption) × Has o db.poll_options × (o.id ≡ id) × (o.poll_id ≡ poll_id)
unfolding list_options_by_poll
option_of poll_id id db offered =
    let (o, listed, named) = any-Has _ (list_options_by_poll poll_id db) offered in
    let (at, own) = Has-selected o _ db.poll_options listed in
    (o, at, (==_iff o.id id).0 named, (==_iff o.poll_id poll_id).0 own)

-- After the votes of a participant are written, where the participant's row is in the table.
pub cast-AreBallots :
    (participant poll_id : ℕ) (allow : Bool) (answers : Answers) (votes : List Vote) (db db' : Db)
    → validate_answers (list_options_by_poll poll_id db) allow answers ≡ true
    → db'.votes ≡ vote_all participant answers votes
    → db'.poll_options ≡ db.poll_options
    → ((v : Vote)
        → Has v votes
        → IsOfOnePoll db'.participants db.poll_options v.participant_id v.option_id)
    → (p : Participant) → Has p db'.participants
    → p.id ≡ participant
    → p.poll_id ≡ poll_id
    → AreBallots db'
cast-AreBallots participant poll_id allow answers votes db db' valid written options before p at id
      poll v at_v =
    subst (λ os. IsOfOnePoll db'.participants os v.participant_id v.option_id) (sym options)
      (elim (vote_all-IsCast participant (list_options_by_poll poll_id db) allow answers votes v
        valid (subst (Has v) written at_v)) [
          | inl (w, at_w, same, same') ↦
              subst (λ i. IsOfOnePoll db'.participants db.poll_options i v.option_id) same
                (subst (λ i. IsOfOnePoll db'.participants db.poll_options w.participant_id i) same'
                  (before w at_w))
          | inr (own, offered) ↦
              let (o, at_o, named, of_poll) = option_of poll_id v.option_id db offered in
              (p, o, at, at_o, own ∙ sym id, sym named, of_poll ∙ sym poll)
        ])
