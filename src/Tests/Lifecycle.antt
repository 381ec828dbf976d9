-- ===== src/Tests/Lifecycle.antt =====
-- The poll lifecycle of internal/polls/service.go on one small poll.
use whenweall.Prelude.{
  ℕ, subst, ◌≡◌, ◌≢◌, refl, sym, ap, ◌∙◌, ◌⊎◌, inl, inr, true, false, Option, none, some, [], ◌∷◌,
  Has,
}
use whenweall.Prelude.Text.{codes, trim_space, trim_left, is_space, byte_len, rune_len}
use whenweall.Prelude.Outcome.{ok, err}
use whenweall.Polls.Store.{
  Poll, PollOption, Db, PollStatus, opened, closed, finalized, get_poll, emit, poll_changed,
  enqueue_mail_poll, err_not_found, list_options_by_poll, list_participants_by_poll,
}
use whenweall.Polls.Claims.{user}
use whenweall.Polls.Schemas.{UpdatePollInput, unchanged}
use whenweall.Polls.Schemas.Validate.{validate_update}
use whenweall.Polls.Service.{
  require_org_poll, require_manageable, with_status, set_poll_status, finalize_poll, arm_deadline,
}
use whenweall.Polls.Service.Manage.{is_valid, set_status, delete, delete_writes, update}
use whenweall.Polls.Service.Finalize.{
  Mailing, finalize_with_count, mail_all, mail_participants, mail_participant, mail_owner,
  mail_recipients, owner_of, get_user, recipients_from, list_subscriptions_by_scope, decide,
  count_finalized,
}
use whenweall.Polls.Service.Create.{duplicate}
use whenweall.Polls.Service.Phases.{phase, IsSettled, IsConsistent}
use whenweall.Polls.Service.History.{
  Reach, here, next, status_set, resolved, erased, Moves, Reach-IsConsistent, Reach-Moves,
  Reach-final,
}
use whenweall.Polls.Service.Hidden.{IsHidden, managing-hidden}
use whenweall.Polls.Service.Timers.{IsTimed, has_timer, arm_deadline-IsTimed}
use whenweall.Polls.Service.Decided.{over-untimed}
use whenweall.Tests.Meals.{no_instant, same_text, env, fresh, lunch, choice, db_of, db}

one_poll : (p : Poll) {a b : Poll} → Has a (p ∷ []) → Has b (p ∷ []) → a ≡ b
one_poll p (inl e) (inl f) = e ∙ sym f
one_poll p (inr n) h = absurd n
one_poll p h (inr n) = absurd n

two_options : (a : PollOption) → Has a (choice 1 10 ∷ choice 1 11 ∷ []) → a.poll_id ≡ 1
two_options a (inl e) = ap PollOption.poll_id e
two_options a (inr (inl e)) = ap PollOption.poll_id e
two_options a (inr (inr n)) = absurd n

consistent :
    (status : PollStatus) (option : Option ℕ)
    → IsSettled (db_of (lunch status option)).poll_options (lunch status option)
    → IsConsistent (db_of (lunch status option))
consistent status option settled = record {
  unique = λ a b at_a at_b e. one_poll (lunch status option) at_a at_b;
  owned = λ a b at_a at_b e. two_options a at_a ∙ sym (two_options b at_b);
  settled = λ p at.
      subst (IsSettled (db_of (lunch status option)).poll_options)
        (one_poll (lunch status option) (inl refl) at) settled;
}

abbrev db_closed : Db
db_closed = emit (poll_changed 1) (set_poll_status 1 closed 5 db)

db_closed-run : set_status 1 (some 7) (codes "closed") 5 db ≡ ok db_closed
unfolding set_status require_org_poll get_poll
db_closed-run = refl

abbrev mailing : Mailing
mailing =
    mail_all env fresh 6 (with_status closed 5 (lunch opened none)) none (decide 1 11 6 db_closed)

abbrev db_decided : Db
db_decided = count_finalized mailing.db

db_decided-run :
    finalize_with_count env fresh 1 (some 7) 11 none 6 db_closed ≡ ok (mailing.sent, db_decided)
unfolding finalize_with_count require_org_poll get_poll set_poll_status list_options_by_poll
db_decided-run = refl

-- Two mails: to the participant and to the owner.
mailing-sent : mailing.sent ≡ 2
unfolding mail_all mail_participants mail_participant mail_owner mail_recipients owner_of get_user
    recipients_from list_subscriptions_by_scope list_participants_by_poll finalize_poll
    set_poll_status enqueue_mail_poll
mailing-sent = refl

abbrev decided_history : Reach db db_decided
decided_history =
    next (next here (status_set 1 (some 7) (codes "closed") 5 db_closed-run))
      (resolved env fresh 1 (some 7) 11 none 6 mailing.sent db_decided-run)

Reach-IsConsistent_example : IsConsistent db_decided
Reach-IsConsistent_example = Reach-IsConsistent (consistent opened none refl) decided_history

Reach-Moves_example :
    (y : Poll) × Has y db_decided.polls × (y.id ≡ 1) × Moves (phase (lunch opened none)) (phase y)
Reach-Moves_example =
    Reach-Moves (lunch opened none) (consistent opened none refl) (inl refl) decided_history

-- A finalized poll that is deleted.
abbrev db_over : Db
db_over = db_of (lunch finalized (some 11))

abbrev db_erased : Db
db_erased = delete_writes 1 9 db_over

db_erased-run : delete 1 (some 7) 9 db_over ≡ ok db_erased
unfolding delete require_org_poll get_poll
db_erased-run = refl

Reach-final_example :
    (y : Poll) × Has y db_erased.polls
    × (y.id ≡ 1)
    × (((y.status ≡ finalized) × (y.finalized_option_id ≡ some 11)) ⊎ (y.deleted_at ≢ none))
Reach-final_example =
    Reach-final (lunch finalized (some 11)) 11
      (consistent finalized (some 11) (refl, choice 1 11, inr (inl refl), refl, refl)) (inl refl)
      refl refl (next here (erased 1 (some 7) 9 db_erased-run))

over-untimed_example : has_timer 1 db_decided.jobs ≡ false
over-untimed_example =
    over-untimed env fresh 1 (some 7) 11 none 6 mailing.sent db_closed db_decided
      (inl db_decided-run)

abbrev title_update : UpdatePollInput
title_update = record {
  title = some (codes "Dinner");
  description = none;
  location = none;
  timezone = none;
  deadline_at = unchanged;
  options = none;
  signup_max_claims = none;
  require_participant_email = none;
  allow_comments = none;
  allow_if_need_be = none;
}

title_update-valid : is_valid (validate_update no_instant same_text title_update) ≡ true
unfolding validate_update byte_len rune_len trim_space trim_left is_space
title_update-valid = refl

other_org : IsHidden 1 8 db
unfolding get_poll
other_org p there same = cc

managing-hidden_example :
    (require_manageable 1 (some 8) (user 40) db ≡ err err_not_found)
    × (set_status 1 (some 8) (codes "open") 5 db ≡ err err_not_found)
    × (delete 1 (some 8) 5 db ≡ err err_not_found)
    × (update env fresh 1 (some 8) title_update 5 db ≡ err err_not_found)
    × (finalize_with_count env fresh 1 (some 8) 10 none 5 db ≡ err err_not_found)
    × (duplicate fresh 1 (some 8) (some 40) 5 db ≡ err err_not_found)
managing-hidden_example =
    managing-hidden env fresh 1 8 40 10 5 none (user 40) (codes "open") opened title_update db
      other_org refl title_update-valid

arm_deadline-IsTimed_example :
    IsTimed 1 5 (some 90000000000000) (arm_deadline fresh 1 (some 90000000000000) 5 [])
arm_deadline-IsTimed_example = arm_deadline-IsTimed fresh 1 (some 90000000000000) 5 []
