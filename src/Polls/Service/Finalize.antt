-- ===== src/Polls/Service/Finalize.antt =====
-- FinalizeWithCount of internal/polls/service.go, and who is told (resolveRecipients of
-- internal/polls/notifications.go).
use whenweall.Prelude.{
  ℕ, ◌+◌, Bool, true, false, not, ◌&&◌, Option, none, some, List, [], ◌∷◌, ◌==◌, any, select,
  select_one, if◌then◌else◌, option_is,
}
use whenweall.Prelude.Text.{Text, text_eq}
use whenweall.Prelude.Outcome.{ok, ◌>>=◌, ◌>>◌, require}
use whenweall.Polls.Store.{
  Result, err_validation, err_conflict, err_not_found, Poll, Participant, User, Subscription, Pref,
  MailPoll, Db, poll_changed, finalized_for_participant, finalized_for_user, emit,
  enqueue_mail_poll, list_options_by_poll, list_participants_by_poll, is_org_member,
}
use whenweall.Polls.Claims.{is_signup}
use whenweall.Polls.Service.{
  Env, FreshIds, has_option_id, require_org_poll, finalize_poll, is_finalized, cancel_timers,
  with_jobs,
}

unfoldable pub get_user : ℕ → Db → Option User
get_user id db = select_one (λ (u : User). u.id == id) db.users

unfoldable pub list_subscriptions_by_scope : ℕ → Db → List Subscription
list_subscriptions_by_scope poll db =
    select (λ (s : Subscription). s.poll_id == poll) db.subscriptions

unfoldable pub get_notification_pref : ℕ → Db → Option Pref
get_notification_pref user db = select_one (λ (p : Pref). p.user_id == user) db.prefs

abbrev pub pref_of : Option Pref → Option Bool
pref_of none = none
pref_of (some p) = p.email_on

-- resolveChannels for the email of poll.finalized, which the system's defaults have on.
abbrev pub resolve_channels : Option Bool → Option Bool → Bool
resolve_channels (some on) defaults = on
resolve_channels none (some on) = on
resolve_channels none none = true

abbrev pub is_known_user : Option User → Bool
is_known_user none = false
is_known_user (some _) = true

abbrev pub is_recipient : ℕ → Option ℕ → Db → Subscription → Bool
is_recipient org actor db s =
    not (option_is s.user_id actor)
    && is_org_member org s.user_id db
    && is_known_user (get_user s.user_id db)
    && resolve_channels s.email_on (pref_of (get_notification_pref s.user_id db))

-- The users to mail, in the order of their subscriptions.
unfoldable pub recipients_from : ℕ → Option ℕ → Db → List Subscription → List ℕ
recipients_from org actor db [] = []
recipients_from org actor db (s ∷ subs) =
    let rest = recipients_from org actor db subs in
    if is_recipient org actor db s then s.user_id ∷ rest else rest

-- The variables of the mailing loops: the database, `sent`, `seenEmail` and `seenUserID`.
pub record Mailing : Type 0 where
  pub db : Db
  pub sent : ℕ
  pub seen_email : List Text
  pub seen_user_id : List ℕ

abbrev pub send : FreshIds → ℕ → MailPoll → Mailing → Mailing
send fresh now mail m = record m {
  db = enqueue_mail_poll (fresh.mail m.sent) now mail m.db;
  sent = m.sent + 1;
}

abbrev pub has_email : Text → Mailing → Bool
has_email key m = any (text_eq key) m.seen_email

unfoldable pub mail_participant : Env → FreshIds → ℕ → ℕ → ℕ → Option Text → Mailing → Mailing
mail_participant env fresh now poll_id id none m = m
mail_participant env fresh now poll_id id (some email) m =
    if has_email (env.to_lower email) m
    then m
    else send fresh now (finalized_for_participant poll_id id)
        (record m { seen_email = env.to_lower email ∷ m.seen_email })

unfoldable pub mail_participants : Env → FreshIds → ℕ → ℕ → List Participant → Mailing → Mailing
unfolding mail_participant
mail_participants env fresh now poll_id [] m = m
mail_participants env fresh now poll_id (p ∷ ps) m =
    mail_participants env fresh now poll_id ps
      (mail_participant env fresh now poll_id p.id p.email m)

-- The creator, unless the account is gone or its address has a mail.
unfoldable pub mail_owner : Env → FreshIds → ℕ → ℕ → Option User → Mailing → Mailing
mail_owner env fresh now poll_id none m = m
mail_owner env fresh now poll_id (some owner) m =
    let told =
      if has_email (env.to_lower owner.email) m
      then m
      else send fresh now (finalized_for_user poll_id owner.id) m in
    record told { seen_user_id = owner.id ∷ told.seen_user_id }

unfoldable pub mail_recipients : FreshIds → ℕ → ℕ → List ℕ → Mailing → Mailing
mail_recipients fresh now poll_id [] m = m
mail_recipients fresh now poll_id (u ∷ us) m = mail_recipients fresh now poll_id us (
    if any (λ v. v == u) m.seen_user_id
    then m
    else send fresh now (finalized_for_user poll_id u)
        (record m { seen_user_id = u ∷ m.seen_user_id }))

unfoldable pub owner_of : Option ℕ → Db → Option User
unfolding get_user
owner_of none db = none
owner_of (some id) db = get_user id db

unfoldable pub mail_all : Env → FreshIds → ℕ → Poll → Option ℕ → Db → Mailing
unfolding mail_participants mail_owner mail_recipients owner_of recipients_from
    list_subscriptions_by_scope
mail_all env fresh now poll actor db =
    let start : Mailing = record { db = db; sent = 0; seen_email = []; seen_user_id = [] } in
    mail_recipients fresh now poll.id
      (recipients_from poll.organization_id actor db (list_subscriptions_by_scope poll.id db))
      (mail_owner env fresh now poll.id (owner_of poll.created_by db)
        (mail_participants env fresh now poll.id (list_participants_by_poll poll.id db) start))

-- What is written before the mails.
abbrev pub decide : ℕ → ℕ → ℕ → Db → Db
decide poll_id option_id now db =
    let written = emit (poll_changed poll_id) (finalize_poll poll_id option_id now db) in
    with_jobs (cancel_timers poll_id written.jobs) written

abbrev pub count_finalized : Db → Db
count_finalized db = record db { polls_finalized = db.polls_finalized + 1 }

-- The number of mails and the database, with the counter that is written after the commit.
unfoldable pub finalize_with_count :
    Env → FreshIds → ℕ → Option ℕ → ℕ → Option ℕ → ℕ → Db → Result (ℕ × Db)
unfolding require_org_poll finalize_poll mail_all
finalize_with_count env fresh poll_id org option_id actor now db =
    require_org_poll poll_id org db >>= λ (p : Poll).
    require (not (is_signup p.kind)) err_validation
    >> (require (not (is_finalized p.status)) err_conflict
        >> (require (any (has_option_id option_id) (list_options_by_poll poll_id db)) err_not_found
            >> (let m = mail_all env fresh now p actor (decide poll_id option_id now db) in
                ok (m.sent, count_finalized m.db))))
