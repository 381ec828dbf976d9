-- ===== src/Polls/Service/Phases.antt =====
-- A poll's life as an abstract machine, and what a transaction of internal/polls/service.go may do
-- to the tables of polls and options.
use whenweall.Prelude.{
  ℕ, ◌≡◌, ◌≢◌, sym, ap, subst, ◌∙◌, ◌⊎◌, inl, inr, false, Option, none, some, List, [], ◌∷◌, ◌++◌,
  ==_iff, update_where, Has, Has-updated,
}
use whenweall.Polls.Store.{PollType, PollStatus, opened, closed, finalized, Poll, PollOption, Db}
use whenweall.Polls.Claims.{is_signup}
use whenweall.Polls.Service.{has_poll_id}

pub data Phase : Type 0 where
  collecting halted gone : Phase
  settled_on : Option ℕ → Phase

abbrev pub phase_of : Option ℕ → PollStatus → Option ℕ → Phase
phase_of (some _) status option = gone
phase_of none opened option = collecting
phase_of none closed option = halted
phase_of none finalized option = settled_on option

abbrev pub phase : Poll → Phase
phase p = phase_of p.deleted_at p.status p.finalized_option_id

-- The abstract machine: from a decided poll only deletion leads away.
pub data Move : Phase → Phase → Type 0 where
  stays : {a : Phase} → Move a a
  halts : Move collecting halted
  reopens : Move halted collecting
  decides : {o : ℕ} → Move collecting (settled_on (some o))
  decides_late : {o : ℕ} → Move halted (settled_on (some o))
  goes : {a : Phase} → Move a gone

-- A finalized poll is no sign-up sheet, and names one of its own options; another names none.
abbrev pub SettledAs : List PollOption → ℕ → PollType → PollStatus → Option ℕ → Type 0
SettledAs options id kind opened option = option ≡ none
SettledAs options id kind closed option = option ≡ none
SettledAs options id kind finalized option =
    (is_signup kind ≡ false)
    × (o : PollOption) × Has o options
    × (option ≡ some o.id)
    × (o.poll_id ≡ id)

abbrev pub IsSettled : List PollOption → Poll → Type 0
IsSettled options p = SettledAs options p.id p.kind p.status p.finalized_option_id

abbrev pub IsOwned : List PollOption → Type 0
IsOwned options =
    (a b : PollOption) → Has a options → Has b options → a.id ≡ b.id → a.poll_id ≡ b.poll_id

pub record IsConsistent (db : Db) : Type 0 where
  pub unique : (a b : Poll) → Has a db.polls → Has b db.polls → a.id ≡ b.id → a ≡ b
  pub owned : IsOwned db.poll_options
  pub settled : (p : Poll) → Has p db.polls → IsSettled db.poll_options p

-- The options of the other polls are still there.
abbrev pub Spares : ℕ → List PollOption → List PollOption → Type 0
Spares id before after = (o : PollOption) → Has o before → o.poll_id ≢ id → Has o after

-- The row of one poll changes, and perhaps its options.
pub record Change (db db' : Db) : Type 0 where
  pub p : Poll
  pub f : Poll → Poll
  pub at : Has p db.polls
  pub keeps_id : (x : Poll) → (f x).id ≡ x.id
  pub polls : db'.polls ≡ update_where (has_poll_id p.id) f db.polls
  pub spares : Spares p.id db.poll_options db'.poll_options
  pub owned : IsOwned db'.poll_options
  pub settled : IsSettled db'.poll_options (f p)
  pub move : Move (phase p) (phase (f p))

-- A new poll, with its options.
pub record Addition (db db' : Db) : Type 0 where
  pub p : Poll
  pub is_new : (x : Poll) → Has x db.polls → x.id ≢ p.id
  pub polls : db'.polls ≡ db.polls ++ p ∷ []
  pub spares : (o : PollOption) → Has o db.poll_options → Has o db'.poll_options
  pub owned : IsOwned db'.poll_options
  pub settled : IsSettled db'.poll_options p

pub data Effect (db db' : Db) : Type 0 where
  nothing : db'.polls ≡ db.polls → db'.poll_options ≡ db.poll_options → Effect db db'
  changed : Change db db' → Effect db db'
  added : Addition db db' → Effect db db'

pub settled-spared :
    (before after : List PollOption) (id : ℕ) (kind : PollType) (status : PollStatus)
    (option : Option ℕ)
    → ((o : PollOption) → Has o before → o.poll_id ≡ id → Has o after)
    → SettledAs before id kind status option
    → SettledAs after id kind status option
settled-spared before after id kind opened option keep s = s
settled-spared before after id kind closed option keep s = s
settled-spared before after id kind finalized option keep (sheet, o, at, named, own) =
    (sheet, o, keep o at own, named, own)

differs_test : (x p : Poll) → has_poll_id p.id x ≡ false → x.id ≢ p.id
differs_test x p f e = cc (f, (==_iff x.id p.id).1 e)

module _ (db db' : Db) (h : IsConsistent db) where
  module _ (c : Change db db') where
    -- A row after the change: the changed poll's, or another's.
    row_after : (y : Poll) → Has y db'.polls → (y ≡ c.f c.p) ⊎ (Has y db.polls × (y.id ≢ c.p.id))
    row_after y at =
        let (x, at_x, how) =
          Has-updated y (has_poll_id c.p.id) c.f db.polls (subst (Has y) c.polls at) in
        elim how [
          | inl (met, e) ↦
              let same : x ≡ c.p = h.unique x c.p at_x c.at ((==_iff x.id c.p.id).0 met) in
              inl (e ∙ ap c.f same)
          | inr (other, e) ↦ inr (
              subst (λ z. Has z db.polls × (z.id ≢ c.p.id)) (sym e)
                (at_x, differs_test x c.p other))
        ]

    pub Change-IsConsistent : IsConsistent db'
    Change-IsConsistent = record { unique = unique'; owned = c.owned; settled = settled' }
      where
        unique' : (a b : Poll) → Has a db'.polls → Has b db'.polls → a.id ≡ b.id → a ≡ b
        unique' a b at_a at_b e = elim (row_after a at_a) [
          | inl ea ↦ elim (row_after b at_b) [
            | inl eb ↦ ea ∙ sym eb
            | inr (_, other) ↦ absurd (other (sym e ∙ ap Poll.id ea ∙ c.keeps_id c.p))
          ]
          | inr (in_a, other_a) ↦ elim (row_after b at_b) [
            | inl eb ↦ absurd (other_a (e ∙ ap Poll.id eb ∙ c.keeps_id c.p))
            | inr (in_b, _) ↦ h.unique a b in_a in_b e
          ]
        ]

        settled' : (y : Poll) → Has y db'.polls → IsSettled db'.poll_options y
        settled' y at = elim (row_after y at) [
          | inl e ↦ subst (IsSettled db'.poll_options) (sym e) c.settled
          | inr (before, other) ↦
              settled-spared db.poll_options db'.poll_options y.id y.kind y.status
                y.finalized_option_id (λ o at_o own. c.spares o at_o (λ e. other (sym own ∙ e)))
                (h.settled y before)
        ]
