-- ===== src/Polls/Claims/Facts.antt =====
-- What a claim of internal/polls/claims.go does to the votes, and why it was accepted.
use mathlib.Core.List.{map}
use whenweall.Prelude.{
  ℕ, ◌+◌, ◌≤◌, ◌<◌, ◌≡◌, refl, sym, subst, ◌∙◌, ◌⊎◌, inl, inr, Bool, true, false, ◌&&◌, ◌||◌,
  Option, none, some, List, [], ◌∷◌, ◌++◌, arith, ltb, ltb→lt, any, select, length, count_where,
  delete_where, Bool-cases,
}
use whenweall.Prelude.Outcome.{ok, require-ok}
use whenweall.Polls.Store.{
  Vote, Result, yes, Db, is_by, is_for, is_vote, count_yes_votes_for_option,
}
use whenweall.Polls.Claims.{
  ClaimReads, ClaimResult, UserId, already_claimed, claimed_options, claim_tx, claim_writes,
  is_created, has_participant, insert_prepared, Prepared, has_room, result_of,
}

pub count-append {ℓ} :
    {A : Type ℓ} (p : A → Bool) (xs ys : List A)
    → count_where p (xs ++ ys) ≡ count_where p xs + count_where p ys
count-append p [] ys = omega arith
count-append p (x ∷ xs) ys = elim (Bool-cases (p x)) [
  | inl t ↦ rw t (omega (arith, count-append p xs ys))
  | inr f ↦ rw f (count-append p xs ys)
]

pub count-delete_le {ℓ} :
    {A : Type ℓ} (p q : A → Bool) (xs : List A)
    → count_where p (delete_where q xs) ≤ count_where p xs
count-delete_le p q [] = omega arith
count-delete_le p q (x ∷ xs) = elim (Bool-cases (p x)) [
  | inl t ↦ elim (Bool-cases (q x)) [
    | inl u ↦ rw (t, u) (omega (arith, count-delete_le p q xs))
    | inr u ↦ rw (t, u, t) (omega (arith, count-delete_le p q xs))
  ]
  | inr f ↦ elim (Bool-cases (q x)) [
    | inl u ↦ rw (f, u) (count-delete_le p q xs)
    | inr u ↦ rw (f, u, f) (count-delete_le p q xs)
  ]
]

pub any-select {ℓ} :
    {A : Type ℓ} (p q : A → Bool) (xs : List A) → any p (select q xs) ≡ any (λ x. q x && p x) xs
any-select p q [] = refl
any-select p q (x ∷ xs) = elim (Bool-cases (q x)) [
  | inl t ↦ rw (t, any-select p q xs) refl
  | inr f ↦ rw (f, any-select p q xs) refl
]

length-map-select {ℓ} :
    {A : Type ℓ} (f : A → ℕ) (q : A → Bool) (xs : List A)
    → length (map f (select q xs)) ≡ count_where q xs
length-map-select f q [] = refl
length-map-select f q (x ∷ xs) = elim (Bool-cases (q x)) [
  | inl t ↦ rw t (omega (arith, length-map-select f q xs))
  | inr e ↦ rw e (length-map-select f q xs)
]

pub delete-absent {ℓ} :
    {A : Type ℓ} (q : A → Bool) (xs : List A) (x : A)
    → any q xs ≡ false
    → q x ≡ true
    → delete_where q (xs ++ x ∷ []) ≡ xs
delete-absent q [] x none_hit hit = rw hit refl
delete-absent q (y ∷ ys) x none_hit hit =
    let f : q y ≡ false = ground arith in rw (f, delete-absent q ys x (ground arith) hit) refl

abbrev pub new_vote : ClaimReads → Vote
new_vote r = record { participant_id = r.who.participant_id; option_id = r.option.id; answer = yes }

votes-insert_prepared :
    (poll_id : ℕ) (is_guest : Bool) (viewer : UserId) (now : ℕ) (o : Option Prepared) (db : Db)
    → (insert_prepared poll_id is_guest viewer now o db).votes ≡ db.votes
votes-insert_prepared poll_id is_guest viewer now none db = refl
votes-insert_prepared poll_id is_guest viewer now (some p) db = refl

pub votes-claim_writes :
    (mail_id : ℕ) (r : ClaimReads) (viewer : UserId) (now : ℕ) (db : Db)
    → already_claimed r db.votes ≡ false
    → (claim_writes mail_id r viewer now db).votes ≡ db.votes ++ new_vote r ∷ []
unfolding claim_writes
votes-claim_writes mail_id r viewer now db none_yet =
    let absent : any (is_vote r.who.participant_id r.option.id) db.votes ≡ false =
      sym (any-select (is_for r.option.id) (is_by r.who.participant_id) db.votes) ∙ none_yet in
    rw (votes-insert_prepared, absent) refl

module _ (mail_id : ℕ) (r : ClaimReads) (viewer : UserId) (now : ℕ) (db : Db) where
  -- Why a claim that changes something was made, and what it did to the votes.
  pub record IsClaim (res : ClaimResult) (db' : Db) : Type 0 where
    pub is_new : already_claimed r db.votes ≡ false
    pub in_limit : count_where (is_by r.who.participant_id) db.votes < r.poll.signup_max_claims
    pub in_room :
        has_room r.option.capacity (count_yes_votes_for_option r.option.id db.votes) ≡ true
    pub votes : db'.votes ≡ db.votes ++ new_vote r ∷ []
    pub result : res.changed ≡ true
    pub by_claimant : res.participant_id ≡ r.who.participant_id
    pub written : db' ≡ claim_writes mail_id r viewer now db

  -- The result of a claim of a slot that is held already: nothing is written.
  pub record IsRepeated (res : ClaimResult) (db' : Db) : Type 0 where
    pub is_held : already_claimed r db.votes ≡ true
    pub unchanged : db' ≡ db
    pub result : res.changed ≡ false
    pub by_claimant : res.participant_id ≡ r.who.participant_id

  pub claim_tx-cases :
      (res : ClaimResult) (db' : Db)
      → claim_tx mail_id r viewer now db ≡ ok (res, db')
      → IsClaim res db' ⊎ IsRepeated res db'
  unfolding claim_tx
  claim_tx-cases res db' h =
      let held = already_claimed r db.votes in
      let (_, h1) =
        require-ok (is_created r.who.prepared || has_participant r.who.participant_id db) _ _ h in
      let (limit, h2) =
        require-ok (held || ltb (length (claimed_options r db.votes)) r.poll.signup_max_claims) _ _
          h1 in
      let (room, h3) =
        require-ok
          (held || has_room r.option.capacity (count_yes_votes_for_option r.option.id db.votes)) _ _
          h2 in
      elim (Bool-cases (already_claimed r db.votes)) [
        | inl is_held ↦
            let same : ◌≡◌ {A = Result (ClaimResult × Db)}
                (ok (result_of r (claimed_options r db.votes) false, db)) (ok (res, db')) =
              rw is_held at h3 in
            inr (record { is_held = is_held; unchanged = cc; result = cc; by_claimant = cc })
        | inr is_new ↦
            let done : ◌≡◌ {A = Result (ClaimResult × Db)}
                (ok (
                  result_of r (claimed_options r db.votes ++ r.option.id ∷ []) true,
                  claim_writes mail_id r viewer now db,
                ))
                (ok (res, db')) =
              rw is_new at h3 in
            let written : db' ≡ claim_writes mail_id r viewer now db = cc in
            let below : ltb (length (claimed_options r db.votes)) r.poll.signup_max_claims ≡ true =
              rw is_new at limit in
            inl (record {
              is_new = is_new;
              in_limit =
                  subst (λ n. n < r.poll.signup_max_claims)
                    (length-map-select Vote.option_id (is_by r.who.participant_id) db.votes)
                    (ltb→lt _ _ below);
              in_room = rw is_new at room;
              votes = rw written (votes-claim_writes mail_id r viewer now db is_new);
              result = cc;
              by_claimant = cc;
              written = written;
            })
      ]
