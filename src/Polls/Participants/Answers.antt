-- ===== src/Polls/Participants/Answers.antt =====
-- What the loops of AddParticipant and UpdateParticipant of internal/polls/participants.go leave in
-- the table of votes.
use mathlib.Core.List.{append-nil, append_assoc}
use whenweall.Prelude.{
  ℕ, ◌≡◌, ◌≢◌, refl, sym, ap, ◌∙◌, inl, inr, false, Option, none, some, List, [], ◌∷◌, ◌++◌, arith,
  any, All, delete_where, Bool-cases,
}
use whenweall.Prelude.Outcome.{ok, bind-ok, require-ok, ok-injective}
use whenweall.Polls.Store.{Answer, Vote, Db, list_options_by_poll, is_by, is_vote}
use whenweall.Polls.Claims.{Viewer, can_manage_poll, participant_authorized}
use whenweall.Polls.Participants.{
  Answers, ParticipantInput, vote_all, validate_answers, require_open_poll,
  require_participant_in_poll, update_participant,
}

abbrev pub vote_of : ℕ → ℕ → Answer → Vote
vote_of participant id a = record { participant_id = participant; option_id = id; answer = a }

-- The rows that the answers say.
abbrev pub vote_rows : ℕ → Answers → List Vote
vote_rows participant [] = []
vote_rows participant ((id, none) ∷ answers) = vote_rows participant answers
vote_rows participant ((id, some a) ∷ answers) =
    vote_of participant id a ∷ vote_rows participant answers

-- The keys of a map.
abbrev pub IsMap : Answers → Type 0
IsMap [] = Unit
IsMap ((id, a) ∷ answers) = All (λ (x : ℕ × Option Answer). id ≢ x.0) answers × IsMap answers

abbrev IsAbsent : ℕ → List Vote → Answers → Type 0
IsAbsent participant votes answers =
    All (λ (x : ℕ × Option Answer). any (is_vote participant x.0) votes ≡ false) answers

any-last :
    (participant id other : ℕ) (a : Answer) (votes : List Vote)
    → id ≢ other
    → any (is_vote participant other) votes ≡ false
    → any (is_vote participant other) (votes ++ vote_of participant id a ∷ []) ≡ false
any-last participant id other a [] apart h = ground arith
any-last participant id other a (v ∷ votes) apart h =
    ground (arith, any-last participant id other a votes apart (ground arith))

IsAbsent-last :
    (participant id : ℕ) (a : Answer) (votes : List Vote) (answers : Answers)
    → All (λ (x : ℕ × Option Answer). id ≢ x.0) answers
    → IsAbsent participant votes answers
    → IsAbsent participant (votes ++ vote_of participant id a ∷ []) answers
IsAbsent-last participant id a votes [] apart h = tt
IsAbsent-last participant id a votes (x ∷ answers) (d, apart) (n, h) =
    (any-last participant id x.0 a votes d n, IsAbsent-last participant id a votes answers apart h)

vote_all-rows :
    (participant : ℕ) (answers : Answers) (votes : List Vote)
    → IsMap answers
    → IsAbsent participant votes answers
    → vote_all participant answers votes ≡ votes ++ vote_rows participant answers
unfolding vote_all
vote_all-rows participant [] votes m h = sym (append-nil votes)
vote_all-rows participant ((id, none) ∷ answers) votes (apart, m) (n, h) =
    vote_all-rows participant answers votes m h
vote_all-rows participant ((id, some a) ∷ answers) votes (apart, m) (n, h) = rw n (
    vote_all-rows participant answers (votes ++ vote_of participant id a ∷ []) m
      (IsAbsent-last participant id a votes answers apart h)
    ∙ append_assoc votes (vote_of participant id a ∷ []) (vote_rows participant answers))

any-deleted_by :
    (participant id : ℕ) (votes : List Vote)
    → any (is_vote participant id) (delete_where (is_by participant) votes) ≡ false
any-deleted_by participant id [] = refl
any-deleted_by participant id (v ∷ votes) = elim (Bool-cases (is_by participant v)) [
  | inl own ↦ rw own (any-deleted_by participant id votes)
  | inr other ↦ rw (other, other) (any-deleted_by participant id votes)
]

IsAbsent-deleted :
    (participant : ℕ) (votes : List Vote) (answers : Answers)
    → IsAbsent participant (delete_where (is_by participant) votes) answers
IsAbsent-deleted participant votes [] = tt
IsAbsent-deleted participant votes ((id, a) ∷ answers) =
    (any-deleted_by participant id votes, IsAbsent-deleted participant votes answers)

-- After a successful UpdateParticipant the votes are those of the others, as they were and in
-- their order, and then exactly the given answers, whatever the participant had answered before.
-- The answers name each option once, as the keys of a map do.
pub update_participant-votes :
    (poll_id participant_id : ℕ) (input : ParticipantInput) (viewer : Viewer) (db db' : Db)
    → IsMap input.answers
    → update_participant poll_id participant_id input viewer db ≡ ok db'
    → db'.votes
      ≡ delete_where (is_by participant_id) db.votes ++ vote_rows participant_id input.answers
unfolding update_participant
update_participant-votes poll_id participant_id input viewer db db' m done =
    let (q, _, h1) = bind-ok (require_participant_in_poll poll_id participant_id db) _ done in
    let (p, _, h2) = bind-ok (require_open_poll poll_id db) _ h1 in
    let (_, h3) =
      require-ok
        (participant_authorized q viewer
          (can_manage_poll p.organization_id p.created_by viewer.user_id db))
        _ _ h2 in
    let (_, h4) =
      require-ok
        (validate_answers (list_options_by_poll poll_id db) p.allow_if_need_be input.answers) _ _
        h3 in
    sym (ap Db.votes (ok-injective h4))
    ∙ vote_all-rows participant_id input.answers (delete_where (is_by participant_id) db.votes) m
        (IsAbsent-deleted participant_id db.votes input.answers)
