-- ===== src/Polls/Claims/Full.antt =====
-- What SignupFull of internal/polls/claims.go decides, and that a full sheet takes no claims.
use whenweall.Prelude.{
  ℕ, ◌≤◌, ◌≡◌, refl, subst, ap, ◌∙◌, inl, inr, Bool, true, false, Option, none, some, List, [], ◌∷◌,
  arith, ltb, leb, leb→le, ◌==◌, ==_iff, count_where, select, select_one, ltb→lt, Bool-cases, All,
}
use mathlib.Core.Option.{some-injective}
use whenweall.Prelude.Outcome.{ok}
use whenweall.Polls.Store.{
  Vote, PollOption, Db, list_options_by_poll, list_votes_by_poll, get_poll_option, is_yes_for,
  count_yes_votes_for_option,
}
use whenweall.Polls.Claims.{
  ClaimReads, ClaimResult, UserId, has_value, has_room, claim_tx, all_bounded, all_filled,
  is_filled, signup_full, is_nonempty,
}
use whenweall.Polls.Claims.Facts.{claim_tx-cases}

-- The option is bounded, and the votes fill it.
abbrev pub IsFilled : List Vote → PollOption → Type 0
IsFilled votes o = (c : ℕ) × (o.capacity ≡ some c) × (c ≤ count_yes_votes_for_option o.id votes)

IsFilled-test :
    (votes : List Vote) (o : PollOption)
    → has_value o.capacity ≡ true
    → is_filled votes o ≡ true
    → IsFilled votes o
IsFilled-test votes o b f = at_capacity o.capacity refl b f
  where
    at_capacity :
        (bound : Option ℕ)
        → o.capacity ≡ bound
        → has_value bound ≡ true
        → elim bound [ none ↦ false | some c ↦ leb c (count_yes_votes_for_option o.id votes) ]
          ≡ true
        → IsFilled votes o
    at_capacity none e b f = cc
    at_capacity (some c) e b f = (c, e, leb→le _ _ f)

all_filled-IsFilled :
    (votes : List Vote) (os : List PollOption)
    → all_bounded os ≡ true
    → all_filled votes os ≡ true
    → All (IsFilled votes) os
unfolding all_bounded all_filled
all_filled-IsFilled votes [] b f = tt
all_filled-IsFilled votes (o ∷ os) b f = (
  IsFilled-test votes o (ground arith) (ground arith),
  all_filled-IsFilled votes os (ground arith) (ground arith),
)

count-select_le {ℓ} :
    {A : Type ℓ} (p q : A → Bool) (xs : List A) → count_where p (select q xs) ≤ count_where p xs
count-select_le p q [] = omega arith
count-select_le p q (x ∷ xs) = elim (Bool-cases (p x)) [
  | inl t ↦ elim (Bool-cases (q x)) [
    | inl u ↦ rw (u, t) (omega (arith, count-select_le p q xs))
    | inr u ↦ rw (u, t) (omega (arith, count-select_le p q xs))
  ]
  | inr f ↦ elim (Bool-cases (q x)) [
    | inl u ↦ rw (u, f) (count-select_le p q xs)
    | inr u ↦ rw (u, f) (count-select_le p q xs)
  ]
]

-- A sheet that SignupFull calls full has an option, and each of its options is bounded and has as
-- many yes votes of the poll's own participants as its capacity.
pub signup_full-IsFilled :
    (poll_id : ℕ) (db : Db)
    → signup_full poll_id db ≡ true
    → (is_nonempty (list_options_by_poll poll_id db) ≡ true)
      × All (IsFilled (list_votes_by_poll poll_id db)) (list_options_by_poll poll_id db)
unfolding signup_full
signup_full-IsFilled poll_id db full = (
  ground arith,
  all_filled-IsFilled (list_votes_by_poll poll_id db) (list_options_by_poll poll_id db)
      (ground arith) (ground arith),
)

-- The options of the poll include the one that a query by its id finds.
select_one-All_select :
    (P : PollOption → Type 0) (poll_id id : ℕ) (os : List PollOption) (o : PollOption)
    → All P (select (λ (x : PollOption). x.poll_id == poll_id) os)
    → select_one (λ (x : PollOption). x.id == id) os ≡ some o
    → o.poll_id ≡ poll_id
    → P o
select_one-All_select P poll_id id [] o h e same = cc
select_one-All_select P poll_id id (x ∷ os) o h e same = elim (Bool-cases (x.id == id)) [
  | inl t ↦
      let this : x ≡ o = some-injective x o (rw t at e) in
      let mine : (x.poll_id == poll_id) ≡ true =
        (==_iff x.poll_id poll_id).1 (ap PollOption.poll_id this ∙ same) in
      let h' : All P (x ∷ select (λ (y : PollOption). y.poll_id == poll_id) os) = rw mine at h in
      subst P this h'.0
  | inr f ↦
      select_one-All_select P poll_id id os o
        (elim (Bool-cases (x.poll_id == poll_id)) [
          | inl mine ↦
              let h' : All P (x ∷ select (λ (y : PollOption). y.poll_id == poll_id) os) =
                rw mine at h in
              h'.1
          | inr not_mine ↦
              let h' : All P (select (λ (y : PollOption). y.poll_id == poll_id) os) =
                rw not_mine at h in
              h'
        ])
        (rw f at e) same
]

-- While a sheet is full, no claim of one of its slots changes anything: a claim that succeeds,
-- with the option's row as it was locked, is one of a slot that its participant holds already, and
-- leaves the database as it is.
pub signup_full-claim_tx :
    (mail_id : ℕ) (r : ClaimReads) (viewer : UserId) (now : ℕ) (db : Db) (res : ClaimResult)
    (db' : Db)
    → signup_full r.poll.id db ≡ true
    → get_poll_option r.option.id db ≡ some r.option
    → r.option.poll_id ≡ r.poll.id
    → claim_tx mail_id r viewer now db ≡ ok (res, db')
    → (res.changed ≡ false) × (db' ≡ db)
unfolding get_poll_option list_options_by_poll list_votes_by_poll
signup_full-claim_tx mail_id r viewer now db res db' full locked own done =
    elim (claim_tx-cases mail_id r viewer now db res db' done) [
      | inr kept ↦ (kept.result, kept.unchanged)
      | inl claim ↦
          let (_, filled) = signup_full-IsFilled r.poll.id db full in
          let (c, bounded, enough) =
            select_one-All_select (IsFilled (list_votes_by_poll r.poll.id db)) r.poll.id r.option.id
              db.poll_options r.option filled locked own in
          let room : ltb (count_yes_votes_for_option r.option.id db.votes) c ≡ true =
            subst (λ b. has_room b (count_yes_votes_for_option r.option.id db.votes) ≡ true) bounded
              claim.in_room in
          absurd (
            omega
              (arith, ltb→lt _ _ room, enough, count-select_le (is_yes_for r.option.id) _ db.votes))
    ]
