-- ===== src/Polls/Service/Written.antt =====
-- The effects of Update, Create and Duplicate of internal/polls/service.go.
use whenweall.Prelude.{
  ℕ, ◌+◌, ◌≡◌, ◌≢◌, refl, sym, ap, subst, ◌∙◌, Bool, true, false, not, ◌&&◌, Option, none, some,
  List, [], ◌∷◌, Has,
}
use whenweall.Prelude.Outcome.{ok, bind-ok, require-ok, ok-injective}
use whenweall.Polls.Store.{PollType, PollStatus, opened, closed, finalized, Poll, PollOption, Db}
use whenweall.Polls.Schemas.{
  OptionInput, DeadlineInput, unchanged, cleared, set_to, UpdatePollInput,
}
use whenweall.Polls.Schemas.Validate.{validate_update}
use whenweall.Polls.Service.{
  Env, FreshIds, is_finalized, require_org_poll, update_poll_scalars, with_scalars, insert_poll,
}
use whenweall.Polls.Service.Options.{poll_option_columns, write_option}
use whenweall.Polls.Service.Manage.{
  is_valid, deadline_of, merged, replaces, replace_given, rearm, update,
}
use whenweall.Polls.Service.Create.{insert_options}
use whenweall.Polls.Service.Phases.{
  stays, SettledAs, IsSettled, IsOwned, IsConsistent, Effect, changed, added,
}
use whenweall.Polls.Service.Rows.{get_poll-Has, require_org_poll-ok, written_row}
use whenweall.Polls.Service.Rewrites.{
  Rewrites, as_before, chained, write_option-Rewrites, replace_options-Replaced, IsFrom-IsOwned,
}

-- The ids that a transaction takes are of no option.
abbrev pub IsUnused : FreshIds → Db → Type 0
IsUnused fresh db = (x : PollOption) (i : ℕ) → Has x db.poll_options → x.id ≢ fresh.option i

rearm-tables :
    (fresh : FreshIds) (id : ℕ) (input : DeadlineInput) (deadline : Option ℕ) (now : ℕ) (db : Db)
    → ((rearm fresh id input deadline now db).polls ≡ db.polls)
      × ((rearm fresh id input deadline now db).poll_options ≡ db.poll_options)
unfolding rearm
rearm-tables fresh id unchanged deadline now db = (refl, refl)
rearm-tables fresh id cleared deadline now db = (refl, refl)
rearm-tables fresh id (set_to t) deadline now db = (refl, refl)

settled-unfinalized :
    (os os' : List PollOption) (id : ℕ) (kind : PollType) (status : PollStatus) (option : Option ℕ)
    → is_finalized status ≡ false
    → SettledAs os id kind status option
    → SettledAs os' id kind status option
settled-unfinalized os os' id kind opened option u s = s
settled-unfinalized os os' id kind closed option u s = s
settled-unfinalized os os' id kind finalized option u s = cc

module _ (env : Env) (fresh : FreshIds) (id now : ℕ) (m : Poll) (db written db' : Db)
    (h : IsConsistent db) (unused : IsUnused fresh db) (p : Poll) (at : Has p db.polls)
    (same : p.id ≡ id) where
  -- The row's scalars, then the options if they are given.
  replaced :
      (os : Option (List OptionInput))
      → not (is_finalized p.status && replaces os) ≡ true
      → replace_given env fresh id p.kind os (update_poll_scalars id m db) ≡ ok written
      → db'.polls ≡ written.polls
      → db'.poll_options ≡ written.poll_options
      → Effect db db'
  unfolding replace_given update_poll_scalars
  replaced none allowed done polls options =
      written_row db db' h p at id (with_scalars m) same (λ x. refl)
        (polls ∙ sym (ap Db.polls (ok-injective done)))
        (options ∙ sym (ap Db.poll_options (ok-injective done))) (h.settled p at) stays
  replaced (some os) allowed done polls options =
      let r = replace_options-Replaced env fresh id p.kind os _ written h.owned unused done in
      changed (record {
        p = p;
        f = with_scalars m;
        at = at;
        keeps_id = λ x. refl;
        polls = polls ∙ r.polls ∙ rw same refl;
        spares = λ o at_o other.
            subst (Has o) (sym options) (r.spares o at_o (λ e. other (e ∙ sym same)));
        owned = subst IsOwned (sym options) r.owned;
        settled =
            settled-unfinalized db.poll_options db'.poll_options p.id p.kind p.status
              p.finalized_option_id (unfinalized (is_finalized p.status) allowed) (h.settled p at);
        move = stays;
      })
    where
      unfinalized : (b : Bool) → not (b && true) ≡ true → b ≡ false
      unfinalized true e = cc
      unfinalized false e = refl

pub update-Effect :
    (env : Env) (fresh : FreshIds) (id : ℕ) (org : Option ℕ) (input : UpdatePollInput) (now : ℕ)
    (db db' : Db)
    → IsConsistent db
    → IsUnused fresh db
    → update env fresh id org input now db ≡ ok db'
    → Effect db db'
unfolding update
update-Effect env fresh id org input now db db' h unused done =
    let (_, h1) =
      require-ok (is_valid (validate_update env.parse_iso env.to_lower input)) _ _ done in
    let (p, found_p, h2) = bind-ok (require_org_poll id org db) _ h1 in
    let (allowed, h3) = require-ok (not (is_finalized p.status && replaces input.options)) _ _ h2 in
    let (deadline, _, h4) = bind-ok (deadline_of env input.deadline_at p.deadline_at) _ h3 in
    let (written, h5, h6) =
      bind-ok
        (replace_given env fresh id p.kind input.options
          (update_poll_scalars id (merged input deadline now p) db))
        _ h4 in
    let (at, same, _) = get_poll-Has id db p (require_org_poll-ok id org db p found_p) in
    let end = ok-injective h6 in
    let (polls, options) = rearm-tables fresh id input.deadline_at deadline now written in
    replaced env fresh id now (merged input deadline now p) db written db' h unused p at same
      input.options allowed h5 (sym (ap Db.polls end) ∙ polls)
      (sym (ap Db.poll_options end) ∙ options)

-- A new poll with rows of options that are new.
pub addition :
    (fresh : FreshIds) (p : Poll) (db db' : Db)
    → IsConsistent db
    → IsUnused fresh db
    → ((x : Poll) → Has x db.polls → x.id ≢ p.id)
    → IsSettled db'.poll_options p
    → Rewrites fresh p.id [] (insert_poll p db) db'
    → Effect db db'
unfolding insert_poll
addition fresh p db db' h unused is_new settled r = added (record {
  p = p;
  is_new = is_new;
  polls = r.polls;
  spares = λ o at. r.kept o at (λ ex none_left. absurd none_left);
  owned = IsFrom-IsOwned fresh p.id db.poll_options db'.poll_options h.owned unused r.from;
  settled = settled;
})

pub insert_options-Rewrites :
    (env : Env) (fresh : FreshIds) (kind : PollType) (i : ℕ) (os : List OptionInput) (db db' : Db)
    → insert_options env fresh kind i os db ≡ ok db'
    → Rewrites fresh fresh.poll [] db db'
unfolding insert_options write_option
insert_options-Rewrites env fresh kind i [] db db' done =
    subst (Rewrites fresh fresh.poll [] db) (ok-injective done) (as_before fresh fresh.poll [] db)
insert_options-Rewrites env fresh kind i (o ∷ os) db db' done =
    let (c, _, rest) = bind-ok (poll_option_columns env o kind (some 1)) _ done in
    chained fresh fresh.poll [] (write_option-Rewrites fresh fresh.poll [] i c none db (λ ex e. cc))
      (insert_options-Rewrites env fresh kind (i + 1) os _ db' rest)
