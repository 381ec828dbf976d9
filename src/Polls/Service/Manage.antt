-- ===== src/Polls/Service/Manage.antt =====
-- SetStatus, CloseExpired, Delete and Update of internal/polls/service.go.
use whenweall.Prelude.{
  ℕ, Bool, true, false, not, ◌&&◌, Option, none, some, List, [], ◌∷◌, leb, if◌then◌else◌,
}
use whenweall.Prelude.Text.{Text, codes, trim_space, text_eq}
use whenweall.Prelude.Outcome.{ok, ◌>>=◌, ◌>>◌, require, found}
use whenweall.Polls.Store.{
  Result, err_validation, err_poll_finalized, PollType, PollStatus, opened, closed, Poll, Db,
  poll_changed, get_poll, emit,
}
use whenweall.Polls.Claims.{is_open}
use whenweall.Polls.Schemas.{
  Field, OptionInput, DeadlineInput, unchanged, cleared, set_to, UpdatePollInput,
}
use whenweall.Polls.Schemas.Validate.{validate_update}
use whenweall.Polls.Service.{
  Env, FreshIds, require_org_poll, set_poll_status, soft_delete_poll, update_poll_scalars,
  delete_subscriptions_by_scope, is_finalized, arm_deadline, cancel_timers, with_jobs,
}
use whenweall.Polls.Service.Options.{replace_options}

abbrev pub status_of : Text → Option PollStatus
status_of t =
    if text_eq t (codes "open")
    then some opened
    else if text_eq t (codes "closed")
    then some closed
    else none

unfoldable pub set_status : ℕ → Option ℕ → Text → ℕ → Db → Result Db
unfolding require_org_poll set_poll_status
set_status poll_id org status now db =
    found (status_of status) err_validation >>= λ (s : PollStatus).
    require_org_poll poll_id org db >>= λ (p : Poll).
    require (not (is_finalized p.status)) err_poll_finalized
    >> ok (emit (poll_changed poll_id) (set_poll_status poll_id s now db))

-- There is a deadline, and it is not after now.
abbrev pub is_past : ℕ → Option ℕ → Bool
is_past now none = false
is_past now (some d) = leb d now

abbrev pub is_expired : ℕ → Option Poll → Bool
is_expired now none = false
is_expired now (some p) = is_open p.status && is_past now p.deadline_at

unfoldable pub close_expired : ℕ → ℕ → Db → Bool × Db
unfolding set_poll_status
close_expired poll_id now db =
    if is_expired now (get_poll poll_id db)
    then (true, emit (poll_changed poll_id) (set_poll_status poll_id closed now db))
    else (false, db)

abbrev pub delete_writes : ℕ → ℕ → Db → Db
delete_writes poll_id now db =
    let gone =
      emit (poll_changed poll_id)
        (delete_subscriptions_by_scope poll_id (soft_delete_poll poll_id now db)) in
    with_jobs (cancel_timers poll_id gone.jobs) gone

unfoldable pub delete : ℕ → Option ℕ → ℕ → Db → Result Db
unfolding require_org_poll soft_delete_poll delete_subscriptions_by_scope
delete poll_id org now db =
    require_org_poll poll_id org db >>= λ (p : Poll). ok (delete_writes poll_id now db)

abbrev pub is_valid : List Field → Bool
is_valid [] = true
is_valid (_ ∷ _) = false

abbrev pub or_keep {ℓ} : {A : Type ℓ} → Option A → A → A
or_keep none a = a
or_keep (some b) a = b

-- optionalTrimmedString of a given text.
abbrev pub or_keep_trimmed : Option Text → Option Text → Option Text
or_keep_trimmed none a = a
or_keep_trimmed (some t) a = some (trim_space t)

abbrev pub or_keep_title : Option Text → Text → Text
or_keep_title none a = a
or_keep_title (some t) a = trim_space t

-- The new deadline, or the error for one that does not parse.
unfoldable pub deadline_of : Env → DeadlineInput → Option ℕ → Result (Option ℕ)
deadline_of env unchanged d = ok d
deadline_of env cleared d = ok none
deadline_of env (set_to t) d = found (env.parse_iso t) err_validation >>= λ (n : ℕ). ok (some n)

abbrev pub merged : UpdatePollInput → Option ℕ → ℕ → Poll → Poll
merged input deadline now p = record p {
  title = or_keep_title input.title p.title;
  description = or_keep_trimmed input.description p.description;
  location = or_keep_trimmed input.location p.location;
  timezone = or_keep input.timezone p.timezone;
  deadline_at = deadline;
  require_participant_email = or_keep input.require_participant_email p.require_participant_email;
  allow_comments = or_keep input.allow_comments p.allow_comments;
  allow_if_need_be = or_keep input.allow_if_need_be p.allow_if_need_be;
  signup_max_claims = or_keep input.signup_max_claims p.signup_max_claims;
  updated_at = now;
}

abbrev pub replaces : Option (List OptionInput) → Bool
replaces none = false
replaces (some _) = true

unfoldable pub replace_given :
    Env → FreshIds → ℕ → PollType → Option (List OptionInput) → Db → Result Db
unfolding replace_options
replace_given env fresh poll_id kind none db = ok db
replace_given env fresh poll_id kind (some os) db = replace_options env fresh poll_id kind os db db

-- The deadline's timers are armed anew only if the input names a deadline.
unfoldable pub rearm : FreshIds → ℕ → DeadlineInput → Option ℕ → ℕ → Db → Db
unfolding arm_deadline
rearm fresh poll_id unchanged deadline now db = db
rearm fresh poll_id cleared deadline now db =
    with_jobs (arm_deadline fresh poll_id deadline now db.jobs) db
rearm fresh poll_id (set_to _) deadline now db =
    with_jobs (arm_deadline fresh poll_id deadline now db.jobs) db

unfoldable pub update : Env → FreshIds → ℕ → Option ℕ → UpdatePollInput → ℕ → Db → Result Db
unfolding validate_update require_org_poll deadline_of update_poll_scalars replace_given rearm
update env fresh poll_id org input now db =
    require (is_valid (validate_update env.parse_iso env.to_lower input)) err_validation
    >> (require_org_poll poll_id org db >>= λ (p : Poll).
        require (not (is_finalized p.status && replaces input.options)) err_poll_finalized
        >> (deadline_of env input.deadline_at p.deadline_at >>= λ (deadline : Option ℕ).
            replace_given env fresh poll_id p.kind input.options
              (update_poll_scalars poll_id (merged input deadline now p) db)
            >>= λ (written : Db). ok (
                emit (poll_changed poll_id)
                  (rearm fresh poll_id input.deadline_at deadline now written))))
