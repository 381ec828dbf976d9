-- ===== src/Polls/Service/Rows.antt =====
-- The effects of SetStatus, CloseExpired, Delete and Finalize of internal/polls/service.go, each of
-- which writes one poll's row and no option.
use whenweall.Prelude.{
  ℕ, ◌≡◌, refl, sym, ap, subst, ◌∙◌, inl, inr, Bool, true, false, not, ◌&&◌, Option, none, some,
  List, ◌==◌, arith, update_where, select_one-test, select_one-Has, Has, Bool-cases, Option-cases,
}
use whenweall.Prelude.Text.{Text}
use whenweall.Prelude.Outcome.{ok, bind-ok, found-ok, require-ok, ok-injective}
use whenweall.Polls.Store.{
  PollType, PollStatus, opened, closed, finalized, Poll, PollOption, Db, get_poll, is_null,
}
use whenweall.Polls.Claims.{is_open}
use whenweall.Polls.Service.{
  has_poll_id, is_finalized, require_org_poll, with_status, deleted, set_poll_status,
  soft_delete_poll, delete_subscriptions_by_scope,
}
use whenweall.Polls.Service.Manage.{status_of, set_status, is_past, close_expired, delete}
use whenweall.Polls.Service.Phases.{
  phase_of, phase, Move, stays, halts, reopens, decides, decides_late, goes, SettledAs, IsSettled,
  IsConsistent, Effect, nothing, changed,
}

is_null-none : (o : Option ℕ) → is_null o ≡ true → o ≡ none
is_null-none none h = refl
is_null-none (some a) h = cc

-- The poll that a query finds is a live row.
pub get_poll-Has :
    (id : ℕ) (db : Db) (p : Poll)
    → get_poll id db ≡ some p
    → Has p db.polls × (p.id ≡ id) × (p.deleted_at ≡ none)
unfolding get_poll
get_poll-Has id db p e =
    let test = select_one-test _ db.polls p e in
    (select_one-Has _ db.polls p e, ground arith, is_null-none p.deleted_at (ground arith))

pub require_org_poll-ok :
    (id : ℕ) (org : Option ℕ) (db : Db) (p : Poll)
    → require_org_poll id org db ≡ ok p
    → get_poll id db ≡ some p
unfolding require_org_poll
require_org_poll-ok id org db p h =
    let (o, _, h1) = found-ok org _ _ h in
    let (q, at, h2) = found-ok (get_poll id db) _ _ h1 in
    let (_, h3) = require-ok (q.organization_id == o) _ _ h2 in at ∙ ap some (ok-injective h3)

module _ (db db' : Db) (h : IsConsistent db) (p : Poll) (at : Has p db.polls) where
  -- A write to the poll's row alone.
  pub written_row :
      (id : ℕ) (f : Poll → Poll)
      → p.id ≡ id
      → ((x : Poll) → (f x).id ≡ x.id)
      → db'.polls ≡ update_where (has_poll_id id) f db.polls
      → db'.poll_options ≡ db.poll_options
      → IsSettled db.poll_options (f p)
      → Move (phase p) (phase (f p))
      → Effect db db'
  written_row id f same keeps polls options settled move = changed (record {
    p = p;
    f = f;
    at = at;
    keeps_id = keeps;
    polls = subst (λ i. db'.polls ≡ update_where (has_poll_id i) f db.polls) (sym same) polls;
    spares = λ o at_o other. subst (Has o) (sym options) at_o;
    owned =
        subst (λ os. (a b : PollOption) → Has a os → Has b os → a.id ≡ b.id → a.poll_id ≡ b.poll_id)
          (sym options) h.owned;
    settled = subst (λ os. IsSettled os (f p)) (sym options) settled;
    move = move;
  })

toggled :
    (deleted_at : Option ℕ) (before after : PollStatus) (option : Option ℕ)
    → is_finalized before ≡ false
    → is_finalized after ≡ false
    → Move (phase_of deleted_at before option) (phase_of deleted_at after option)
toggled (some d) before after option b a = stays
toggled none opened opened option b a = stays
toggled none opened closed option b a = halts
toggled none closed opened option b a = reopens
toggled none closed closed option b a = stays
toggled none finalized after option b a = cc
toggled none opened finalized option b a = cc
toggled none closed finalized option b a = cc

settled-toggled :
    (os : List PollOption) (id : ℕ) (kind : PollType) (before after : PollStatus)
    (option : Option ℕ)
    → is_finalized before ≡ false
    → is_finalized after ≡ false
    → SettledAs os id kind before option
    → SettledAs os id kind after option
settled-toggled os id kind opened opened option b a s = s
settled-toggled os id kind opened closed option b a s = s
settled-toggled os id kind closed opened option b a s = s
settled-toggled os id kind closed closed option b a s = s
settled-toggled os id kind finalized after option b a s = cc
settled-toggled os id kind opened finalized option b a s = cc
settled-toggled os id kind closed finalized option b a s = cc

pub deciding :
    (deleted_at : Option ℕ) (before : PollStatus) (option : Option ℕ) (o : ℕ)
    → is_finalized before ≡ false
    → Move (phase_of deleted_at before option) (phase_of deleted_at finalized (some o))
deciding (some d) before option o b = stays
deciding none opened option o b = decides
deciding none closed option o b = decides_late
deciding none finalized option o b = cc

status_of-unfinalized : (t : Text) (s : PollStatus) → status_of t ≡ some s → is_finalized s ≡ false
status_of-unfinalized t opened e = refl
status_of-unfinalized t closed e = refl
status_of-unfinalized t finalized e = ground arith

pub negated : (b : Bool) → not b ≡ true → b ≡ false
negated true h = cc
negated false h = refl

pub set_status-Effect :
    (id : ℕ) (org : Option ℕ) (status : Text) (now : ℕ) (db db' : Db)
    → IsConsistent db
    → set_status id org status now db ≡ ok db'
    → Effect db db'
unfolding set_status set_poll_status
set_status-Effect id org status now db db' h done =
    let (s, known, h1) = found-ok (status_of status) _ _ done in
    let (p, found_p, h2) = bind-ok (require_org_poll id org db) _ h1 in
    let (live, h3) = require-ok (not (is_finalized p.status)) _ _ h2 in
    let (at, same, _) = get_poll-Has id db p (require_org_poll-ok id org db p found_p) in
    let written = ok-injective h3 in
    let before = negated (is_finalized p.status) live in
    let after = status_of-unfinalized status s known in
    written_row db db' h p at id (with_status s now) same (λ x. refl) (sym (ap Db.polls written))
      (sym (ap Db.poll_options written))
      (settled-toggled db.poll_options p.id p.kind p.status s p.finalized_option_id before after
        (h.settled p at))
      (toggled p.deleted_at p.status s p.finalized_option_id before after)

is_open-unfinalized : (s : PollStatus) → is_open s ≡ true → is_finalized s ≡ false
is_open-unfinalized opened e = refl
is_open-unfinalized closed e = refl
is_open-unfinalized finalized e = cc

pub close_expired-Effect :
    (id now : ℕ) (db : Db) → IsConsistent db → Effect db (close_expired id now db).1
unfolding close_expired set_poll_status
close_expired-Effect id now db h = elim (Option-cases (get_poll id db)) [
  | inl missing ↦ rw missing (nothing refl refl)
  | inr (p, there) ↦
      let (at, same, _) = get_poll-Has id db p there in
      rw there (elim (Bool-cases (is_open p.status && is_past now p.deadline_at)) [
        | inr early ↦ rw early (nothing refl refl)
        | inl late ↦
            let before = is_open-unfinalized p.status (ground arith) in
            rw late (
              written_row db _ h p at id (with_status closed now) same (λ x. refl) refl refl
                (settled-toggled db.poll_options p.id p.kind p.status closed p.finalized_option_id
                  before refl (h.settled p at))
                (toggled p.deleted_at p.status closed p.finalized_option_id before refl))
      ])
]

pub delete-Effect :
    (id : ℕ) (org : Option ℕ) (now : ℕ) (db db' : Db)
    → IsConsistent db
    → delete id org now db ≡ ok db'
    → Effect db db'
unfolding delete soft_delete_poll delete_subscriptions_by_scope
delete-Effect id org now db db' h done =
    let (p, found_p, h1) = bind-ok (require_org_poll id org db) _ done in
    let (at, same, _) = get_poll-Has id db p (require_org_poll-ok id org db p found_p) in
    let written = ok-injective h1 in
    written_row db db' h p at id (deleted now) same (λ x. refl) (sym (ap Db.polls written))
      (sym (ap Db.poll_options written)) (h.settled p at) goes
