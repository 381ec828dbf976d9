-- ===== src/Polls/Service/Decided.antt =====
-- The effect of FinalizeWithCount of internal/polls/service.go, and the end of a poll's timers.
use whenweall.Prelude.{
  ℕ, ◌⊎◌, ◌≡◌, refl, sym, ap, subst, ◌∙◌, inl, inr, false, not, Option, none, some, List, [], ◌∷◌,
  ◌==◌, ==_iff, any, any-Has, Has-selected, Bool-cases,
}
use whenweall.Prelude.Text.{Text}
use whenweall.Prelude.Outcome.{ok, bind-ok, require-ok, ok-injective}
use whenweall.Polls.Store.{
  Poll, Participant, User, MailPoll, finalized_for_user, finalized_for_participant, Db,
  list_participants_by_poll, list_options_by_poll, enqueue_mail_poll,
}
use whenweall.Polls.Claims.{is_signup}
use whenweall.Polls.Service.{
  Env, FreshIds, has_option_id, is_finalized, require_org_poll, decided, finalize_poll,
  soft_delete_poll, delete_subscriptions_by_scope,
}
use whenweall.Polls.Service.Finalize.{
  Mailing, send, finalize_with_count, mail_all, mail_participant, mail_participants, mail_owner,
  mail_recipients, has_email, owner_of, decide, recipients_from, list_subscriptions_by_scope,
}
use whenweall.Polls.Service.Manage.{delete}
use whenweall.Polls.Service.Timers.{has_timer, has_timer-cancel_timers, has_timer-enqueue_mail_poll}
use whenweall.Polls.Service.Phases.{IsConsistent, Effect}
use whenweall.Polls.Service.Rows.{get_poll-Has, require_org_poll-ok, written_row, deciding, negated}

-- Mails leave the polls and the options as they are.
record Spared (m m' : Mailing) : Type 0 where
  pub polls : m'.db.polls ≡ m.db.polls
  pub options : m'.db.poll_options ≡ m.db.poll_options
  pub untimed : (i : ℕ) → has_timer i m.db.jobs ≡ false → has_timer i m'.db.jobs ≡ false

untouched : (m m' : Mailing) → m'.db ≡ m.db → Spared m m'
untouched m m' e = record {
  polls = ap Db.polls e;
  options = ap Db.poll_options e;
  untimed = λ i h. subst (λ d. has_timer i d.jobs ≡ false) (sym e) h;
}

followed : {a b c : Mailing} → Spared a b → Spared b c → Spared a c
followed f g = record {
  polls = g.polls ∙ f.polls;
  options = g.options ∙ f.options;
  untimed = λ i h. g.untimed i (f.untimed i h);
}

-- One mail, with whatever is noted of it.
queued :
    (id now : ℕ) (mail : MailPoll) (m m' : Mailing)
    → m'.db ≡ enqueue_mail_poll id now mail m.db
    → Spared m m'
unfolding enqueue_mail_poll
queued id now mail m m' e = record {
  polls = ap Db.polls e;
  options = ap Db.poll_options e;
  untimed = λ i h.
      subst (λ d. has_timer i d.jobs ≡ false) (sym e)
        (has_timer-enqueue_mail_poll i id now mail m.db h);
}

module _ (env : Env) (fresh : FreshIds) (now poll_id : ℕ) where
  mail_participant-Spared :
      (id : ℕ) (email : Option Text) (m : Mailing)
      → Spared m (mail_participant env fresh now poll_id id email m)
  unfolding mail_participant enqueue_mail_poll
  mail_participant-Spared id none m = untouched m m refl
  mail_participant-Spared id (some email) m = elim (Bool-cases (has_email (env.to_lower email) m)) [
    | inl seen ↦ rw seen (untouched m m refl)
    | inr new ↦
        rw new (queued (fresh.mail m.sent) now (finalized_for_participant poll_id id) m _ refl)
  ]

  mail_participants-Spared :
      (ps : List Participant) (m : Mailing)
      → Spared m (mail_participants env fresh now poll_id ps m)
  unfolding mail_participants
  mail_participants-Spared [] m = untouched m m refl
  mail_participants-Spared (p ∷ ps) m =
      followed (mail_participant-Spared p.id p.email m)
        (mail_participants-Spared ps (mail_participant env fresh now poll_id p.id p.email m))

  mail_owner-Spared :
      (o : Option User) (m : Mailing) → Spared m (mail_owner env fresh now poll_id o m)
  unfolding mail_owner enqueue_mail_poll
  mail_owner-Spared none m = untouched m m refl
  mail_owner-Spared (some owner) m = elim (Bool-cases (has_email (env.to_lower owner.email) m)) [
    | inl seen ↦ rw seen (untouched m _ refl)
    | inr new ↦
        rw new (queued (fresh.mail m.sent) now (finalized_for_user poll_id owner.id) m _ refl)
  ]

  mail_recipients-Spared :
      (us : List ℕ) (m : Mailing) → Spared m (mail_recipients fresh now poll_id us m)
  unfolding mail_recipients enqueue_mail_poll
  mail_recipients-Spared [] m = untouched m m refl
  mail_recipients-Spared (u ∷ us) m = elim (Bool-cases (any (λ v. v == u) m.seen_user_id)) [
    | inl seen ↦ rw seen (mail_recipients-Spared us m)
    | inr new ↦
        let told : Mailing =
          send fresh now (finalized_for_user poll_id u)
            (record m { seen_user_id = u ∷ m.seen_user_id }) in
        rw new (
          followed (queued (fresh.mail m.sent) now (finalized_for_user poll_id u) m told refl)
            (mail_recipients-Spared us told))
  ]

mail_all-Spared :
    (env : Env) (fresh : FreshIds) (now : ℕ) (poll : Poll) (actor : Option ℕ) (db : Db)
    → ((mail_all env fresh now poll actor db).db.polls ≡ db.polls)
      × ((mail_all env fresh now poll actor db).db.poll_options ≡ db.poll_options)
      × ((i : ℕ)
          → has_timer i db.jobs ≡ false
          → has_timer i (mail_all env fresh now poll actor db).db.jobs ≡ false)
unfolding mail_all
mail_all-Spared env fresh now poll actor db =
    let start : Mailing = record { db = db; sent = 0; seen_email = []; seen_user_id = [] } in
    let told =
      mail_participants-Spared env fresh now poll.id (list_participants_by_poll poll.id db) start in
    let owned =
      mail_owner-Spared env fresh now poll.id (owner_of poll.created_by db)
        (mail_participants env fresh now poll.id (list_participants_by_poll poll.id db) start) in
    let all = followed (followed told owned) (
      mail_recipients-Spared env fresh now poll.id
        (recipients_from poll.organization_id actor db (list_subscriptions_by_scope poll.id db))
        (mail_owner env fresh now poll.id (owner_of poll.created_by db) (
          mail_participants env fresh now poll.id (list_participants_by_poll poll.id db) start))) in
    (all.polls, all.options, all.untimed)

pub finalize_with_count-Effect :
    (env : Env) (fresh : FreshIds) (id : ℕ) (org : Option ℕ) (option : ℕ) (actor : Option ℕ)
    (now sent : ℕ) (db db' : Db)
    → IsConsistent db
    → finalize_with_count env fresh id org option actor now db ≡ ok (sent, db')
    → Effect db db'
unfolding finalize_with_count finalize_poll list_options_by_poll
finalize_with_count-Effect env fresh id org option actor now sent db db' h done =
    let (p, found_p, h1) = bind-ok (require_org_poll id org db) _ done in
    let (sheet, h2) = require-ok (not (is_signup p.kind)) _ _ h1 in
    let (live, h3) = require-ok (not (is_finalized p.status)) _ _ h2 in
    let (offered, h4) =
      require-ok (any (has_option_id option) (list_options_by_poll id db)) _ _ h3 in
    let (at, same, _) = get_poll-Has id db p (require_org_poll-ok id org db p found_p) in
    let (o, listed, named) = any-Has (has_option_id option) (list_options_by_poll id db) offered in
    let (at_o, own) = Has-selected o _ db.poll_options listed in
    let option_is : o.id ≡ option = (==_iff o.id option).0 named in
    let of_poll : o.poll_id ≡ id = (==_iff o.poll_id id).0 own in
    let written = ap (λ (r : ℕ × Db). r.1) (ok-injective h4) in
    let (polls, options, _) = mail_all-Spared env fresh now p actor (decide id option now db) in
    written_row db db' h p at id (decided option now) same (λ x. refl)
      (sym (ap Db.polls written) ∙ polls) (sym (ap Db.poll_options written) ∙ options)
      (negated (is_signup p.kind) sheet, o, at_o, ap some (sym option_is), of_poll ∙ sym same)
      (deciding p.deleted_at p.status p.finalized_option_id option
        (negated (is_finalized p.status) live))

-- After a poll is finalized or deleted, no job for its deadline or its reminder is left.
pub over-untimed :
    (env : Env) (fresh : FreshIds) (id : ℕ) (org : Option ℕ) (option : ℕ) (actor : Option ℕ)
    (now sent : ℕ) (db db' : Db)
    → (finalize_with_count env fresh id org option actor now db ≡ ok (sent, db'))
      ⊎ (delete id org now db ≡ ok db')
    → has_timer id db'.jobs ≡ false
unfolding finalize_with_count finalize_poll delete soft_delete_poll delete_subscriptions_by_scope
over-untimed env fresh id org option actor now sent db db' (inl done) =
    let (p, _, h1) = bind-ok (require_org_poll id org db) _ done in
    let (_, h2) = require-ok (not (is_signup p.kind)) _ _ h1 in
    let (_, h3) = require-ok (not (is_finalized p.status)) _ _ h2 in
    let (_, h4) = require-ok (any (has_option_id option) (list_options_by_poll id db)) _ _ h3 in
    let written = ap (λ (r : ℕ × Db). r.1) (ok-injective h4) in
    let (_, _, untimed) = mail_all-Spared env fresh now p actor (decide id option now db) in
    subst (λ d. has_timer id d.jobs ≡ false) written
      (untimed id (has_timer-cancel_timers id db.jobs))
over-untimed env fresh id org option actor now sent db db' (inr done) =
    let (p, _, h1) = bind-ok (require_org_poll id org db) _ done in
    subst (λ d. has_timer id d.jobs ≡ false) (ok-injective h1) (has_timer-cancel_timers id db.jobs)
