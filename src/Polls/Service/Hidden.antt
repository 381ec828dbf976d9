-- ===== src/Polls/Service/Hidden.antt =====
-- What internal/polls/service.go tells of a poll of another organization.
use whenweall.Prelude.{
  ℕ, ◌≡◌, ◌≢◌, refl, inl, inr, true, Option, some, ◌==◌, ==_iff, Bool-cases, Option-cases,
}
use whenweall.Prelude.Text.{Text}
use whenweall.Prelude.Outcome.{err}
use whenweall.Polls.Store.{err_not_found, PollStatus, Poll, Db, get_poll}
use whenweall.Polls.Claims.{UserId}
use whenweall.Polls.Schemas.{UpdatePollInput}
use whenweall.Polls.Schemas.Validate.{validate_update}
use whenweall.Polls.Service.{Env, FreshIds, require_org_poll, require_manageable}
use whenweall.Polls.Service.Manage.{status_of, is_valid, set_status, delete, update}
use whenweall.Polls.Service.Finalize.{finalize_with_count}
use whenweall.Polls.Service.Create.{duplicate}

-- The organization has no live poll of this id: there is none, or it is another's.
abbrev pub IsHidden : ℕ → ℕ → Db → Type 0
IsHidden id org db = (p : Poll) → get_poll id db ≡ some p → p.organization_id ≢ org

require_org_poll-hidden :
    (id org : ℕ) (db : Db)
    → IsHidden id org db
    → require_org_poll id (some org) db ≡ err err_not_found
unfolding require_org_poll
require_org_poll-hidden id org db hidden = elim (Option-cases (get_poll id db)) [
  | inl missing ↦ rw missing refl
  | inr (p, there) ↦ elim (Bool-cases (p.organization_id == org)) [
    | inl own ↦ absurd (hidden p there ((==_iff p.organization_id org).0 own))
    | inr other ↦ rw (there, other) refl
  ]
]

-- Whatever organization owns a poll, and whether it exists at all, every managing call of another
-- organization gets the same answer: not found. So it is for a status to set that is one, and for
-- an update that is valid.
pub managing-hidden :
    (env : Env) (fresh : FreshIds) (id org user option now : ℕ) (actor : Option ℕ) (viewer : UserId)
    (status : Text) (s : PollStatus) (input : UpdatePollInput) (db : Db)
    → IsHidden id org db
    → status_of status ≡ some s
    → is_valid (validate_update env.parse_iso env.to_lower input) ≡ true
    → (require_manageable id (some org) viewer db ≡ err err_not_found)
      × (set_status id (some org) status now db ≡ err err_not_found)
      × (delete id (some org) now db ≡ err err_not_found)
      × (update env fresh id (some org) input now db ≡ err err_not_found)
      × (finalize_with_count env fresh id (some org) option actor now db ≡ err err_not_found)
      × (duplicate fresh id (some org) (some user) now db ≡ err err_not_found)
unfolding require_manageable set_status delete update finalize_with_count duplicate
managing-hidden env fresh id org user option now actor viewer status s input db hidden known valid =
    let none_there = require_org_poll-hidden id org db hidden in
    (
      rw none_there refl,
      rw (known, none_there) refl,
      rw none_there refl,
      rw (valid, none_there) refl,
      rw none_there refl,
      rw none_there refl,
    )
