-- ===== src/Polls/Service/Copied.antt =====
-- The effects of Create and Duplicate of internal/polls/service.go.
use whenweall.Prelude.{
  ℕ, ◌+◌, ◌≡◌, ◌≢◌, refl, sym, ap, subst, ◌∙◌, inl, inr, Option, none, some, List, [], ◌∷◌, Has,
  Has-left, Any-append,
}
use whenweall.Prelude.Outcome.{ok, bind-ok, found-ok, require-ok, ok-injective}
use whenweall.Polls.Store.{Poll, PollOption, Db, list_options_by_poll}
use whenweall.Polls.Roster.{by_position}
use whenweall.Polls.Schemas.{CreatePollInput}
use whenweall.Polls.Schemas.Validate.{validate_create}
use whenweall.Polls.Service.{Env, FreshIds, require_org_poll, insert_poll, insert_poll_option}
use whenweall.Polls.Service.Manage.{is_valid}
use whenweall.Polls.Service.Create.{
  parse_deadline, new_poll, insert_options, arm_new, create, copy_of, option_copy, copy_options,
  duplicate,
}
use whenweall.Polls.Service.Phases.{IsConsistent, Effect}
use whenweall.Polls.Service.Rewrites.{Rewrites, as_before, chained}
use whenweall.Polls.Service.Written.{IsUnused, addition, insert_options-Rewrites}

-- The poll's fresh id is of no poll.
abbrev pub IsNewPoll : FreshIds → Db → Type 0
IsNewPoll fresh db = (x : Poll) → Has x db.polls → x.id ≢ fresh.poll

same_tables :
    (fresh : FreshIds) (id : ℕ) (db db' : Db)
    → db'.polls ≡ db.polls
    → db'.poll_options ≡ db.poll_options
    → Rewrites fresh id [] db db'
same_tables fresh id db db' polls options = record {
  polls = polls;
  kept = λ x at apart. subst (Has x) (sym options) at;
  from = λ y at. inl (y, subst (Has y) options at, refl, refl);
}

arm_new-tables :
    (fresh : FreshIds) (deadline : Option ℕ) (now : ℕ) (db : Db)
    → ((arm_new fresh deadline now db).polls ≡ db.polls)
      × ((arm_new fresh deadline now db).poll_options ≡ db.poll_options)
arm_new-tables fresh none now db = (refl, refl)
arm_new-tables fresh (some d) now db = (refl, refl)

pub create-Effect :
    (env : Env) (fresh : FreshIds) (org user : Option ℕ) (input : CreatePollInput) (now : ℕ)
    (db db' : Db)
    → IsConsistent db
    → IsUnused fresh db
    → IsNewPoll fresh db
    → create env fresh org user input now db ≡ ok db'
    → Effect db db'
unfolding create
create-Effect env fresh org user input now db db' h unused is_new done =
    let (_, h1) =
      require-ok (is_valid (validate_create env.parse_iso env.to_lower input)) _ _ done in
    let (o, _, h2) = found-ok org _ _ h1 in
    let (u, _, h3) = found-ok user _ _ h2 in
    let (kind, _, h4) = found-ok input.kind _ _ h3 in
    let (deadline, _, h5) = bind-ok (parse_deadline env input.deadline_at) _ h4 in
    let p = new_poll fresh o u kind deadline input now in
    let (written, h6, h7) =
      bind-ok (insert_options env fresh kind 0 input.options (insert_poll p db)) _ h5 in
    let end = ok-injective h7 in
    let (polls, options) = arm_new-tables fresh deadline now written in
    addition fresh p db db' h unused is_new refl (
      chained fresh fresh.poll []
        (insert_options-Rewrites env fresh kind 0 input.options _ written h6)
        (same_tables fresh fresh.poll written db' (sym (ap Db.polls end) ∙ polls)
          (sym (ap Db.poll_options end) ∙ options)))

copy_options-Rewrites :
    (fresh : FreshIds) (i : ℕ) (os : List PollOption) (db : Db)
    → Rewrites fresh fresh.poll [] db (copy_options fresh i os db)
unfolding copy_options insert_poll_option
copy_options-Rewrites fresh i [] db = as_before fresh fresh.poll [] db
copy_options-Rewrites fresh i (o ∷ os) db =
    chained fresh fresh.poll [] one
      (copy_options-Rewrites fresh (i + 1) os (insert_poll_option (option_copy fresh i o) db))
  where
    one : Rewrites fresh fresh.poll [] db (insert_poll_option (option_copy fresh i o) db)
    one = record {
      polls = refl;
      kept = λ x at apart. Has-left x db.poll_options (option_copy fresh i o ∷ []) at;
      from = λ y at.
          elim (Any-append (λ x. y ≡ x) db.poll_options (option_copy fresh i o ∷ []) at) [
            | inl before ↦ inl (y, before, refl, refl)
            | inr new ↦ elim new [
              | inl e ↦ inr (i, ap PollOption.poll_id e, ap PollOption.id e)
              | inr none_left ↦ absurd none_left
            ]
          ];
    }

pub duplicate-Effect :
    (fresh : FreshIds) (id : ℕ) (org user : Option ℕ) (now : ℕ) (db db' : Db)
    → IsConsistent db
    → IsUnused fresh db
    → IsNewPoll fresh db
    → duplicate fresh id org user now db ≡ ok db'
    → Effect db db'
unfolding duplicate
duplicate-Effect fresh id org user now db db' h unused is_new done =
    let (o, _, h1) = found-ok org _ _ done in
    let (u, _, h2) = found-ok user _ _ h1 in
    let (p, _, h3) = bind-ok (require_org_poll id org db) _ h2 in
    let copy = copy_of fresh o u now p in
    let options = by_position (list_options_by_poll id db) in
    let end = ok-injective h3 in
    addition fresh copy db db' h unused is_new refl (
      chained fresh fresh.poll [] (copy_options-Rewrites fresh 0 options (insert_poll copy db)) (
        same_tables fresh fresh.poll (copy_options fresh 0 options (insert_poll copy db)) db'
          (sym (ap Db.polls end)) (sym (ap Db.poll_options end))))
