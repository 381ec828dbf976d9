-- ===== src/Polls/Service/Rewrites.antt =====
-- What replaceOptions of internal/polls/service.go does to the table of options.
use whenweall.Prelude.{
  ℕ, ◌+◌, ◌≡◌, ◌≢◌, refl, sym, ap, subst, ◌∙◌, ◌⊎◌, inl, inr, false, not, ◌||◌, Option, none, some,
  List, [], ◌∷◌, ◌==◌, ==_iff, any, Has, Has-left, Any-append, Has-updated, Has-kept, Has-spared,
  Has-undeleted, Has-selected, select_one-Has, Bool-cases,
}
use whenweall.Prelude.Outcome.{ok, bind-ok, require-ok, ok-injective}
use whenweall.Polls.Store.{PollType, PollOption, Db, list_options_by_poll, list_votes_by_poll}
use whenweall.Polls.Claims.{is_signup}
use whenweall.Polls.Schemas.{OptionInput}
use whenweall.Polls.Service.{Env, FreshIds, has_option_id, insert_poll_option, delete_poll_option}
use whenweall.Polls.Service.Options.{
  OptionColumns, poll_option_columns, retained, fallback_of, write_option, update_poll_option,
  write_options, kept_ids, delete_missing, replace_options, all_keep_claims, row_of, with_columns,
}
use whenweall.Polls.Service.Phases.{IsOwned, Spares}

abbrev pub IsUnrelated : List PollOption → PollOption → Type 0
IsUnrelated existing x = (ex : PollOption) → Has ex existing → ex.id ≢ x.id

-- A row of the table after: one from before by its id and poll, or a new one of the poll.
abbrev pub IsFrom : FreshIds → ℕ → List PollOption → PollOption → Type 0
IsFrom fresh poll_id before y =
    ((x : PollOption) × Has x before × (x.id ≡ y.id) × (x.poll_id ≡ y.poll_id))
    ⊎ ((i : ℕ) × (y.poll_id ≡ poll_id) × (y.id ≡ fresh.option i))

pub record Rewrites (fresh : FreshIds) (poll_id : ℕ) (existing : List PollOption) (db db' : Db)
    : Type 0 where
  pub polls : db'.polls ≡ db.polls
  pub kept :
      (x : PollOption) → Has x db.poll_options → IsUnrelated existing x → Has x db'.poll_options
  pub from : (y : PollOption) → Has y db'.poll_options → IsFrom fresh poll_id db.poll_options y

other_id : (ex x : PollOption) → ex.id ≢ x.id → has_option_id ex.id x ≡ false
other_id ex x h = elim (Bool-cases (has_option_id ex.id x)) [
  | inl met ↦ absurd (h (sym ((==_iff x.id ex.id).0 met)))
  | inr other ↦ other
]

module _ (fresh : FreshIds) (poll_id : ℕ) (existing : List PollOption) where
  pub as_before : (db : Db) → Rewrites fresh poll_id existing db db
  as_before db = record {
    polls = refl;
    kept = λ x at apart. at;
    from = λ y at. inl (y, at, refl, refl);
  }

  pub chained :
      {a b c : Db}
      → Rewrites fresh poll_id existing a b
      → Rewrites fresh poll_id existing b c
      → Rewrites fresh poll_id existing a c
  chained {a} {b} {c} f g = record {
    polls = g.polls ∙ f.polls;
    kept = λ x at apart. g.kept x (f.kept x at apart) apart;
    from = λ y at. elim (g.from y at) [
      | inr new ↦ inr new
      | inl (x, at_x, id, poll) ↦ elim (f.from x at_x) [
        | inl (w, at_w, id', poll') ↦ inl (w, at_w, id' ∙ id, poll' ∙ poll)
        | inr (i, poll', id') ↦ inr (i, sym poll ∙ poll', sym id ∙ id')
      ]
    ];
  }

  pub write_option-Rewrites :
      (i : ℕ) (c : OptionColumns) (o : Option PollOption) (db : Db)
      → ((ex : PollOption) → o ≡ some ex → Has ex existing)
      → Rewrites fresh poll_id existing db (write_option fresh poll_id i c o db)
  unfolding write_option insert_poll_option update_poll_option
  write_option-Rewrites i c none db known = record {
    polls = refl;
    kept = λ x at apart. Has-left x db.poll_options (row_of (fresh.option i) poll_id i c ∷ []) at;
    from = λ y at.
        elim (Any-append (λ x. y ≡ x) db.poll_options (row_of (fresh.option i) poll_id i c ∷ [])
          at) [
            | inl before ↦ inl (y, before, refl, refl)
            | inr new ↦ elim new [
              | inl e ↦ inr (i, ap PollOption.poll_id e, ap PollOption.id e)
              | inr none_left ↦ absurd none_left
            ]
          ];
  }
  write_option-Rewrites i c (some ex) db known = record {
    polls = refl;
    kept = λ x at apart.
        Has-kept x (has_option_id ex.id) (with_columns i c) db.poll_options at
          (other_id ex x (apart ex (known ex refl)));
    from = λ y at.
        let (x, at_x, how) =
          Has-updated y (has_option_id ex.id) (with_columns i c) db.poll_options at in
        elim how [
          | inl (_, e) ↦ inl (x, at_x, sym (ap PollOption.id e), sym (ap PollOption.poll_id e))
          | inr (_, e) ↦ inl (x, at_x, sym (ap PollOption.id e), sym (ap PollOption.poll_id e))
        ];
  }

  retained-Has :
      (id : Option ℕ) (ex : PollOption) → retained existing id ≡ some ex → Has ex existing
  unfolding retained
  retained-Has none ex e = cc
  retained-Has (some id) ex e = select_one-Has (has_option_id id) existing ex e

  write_options-Rewrites :
      (env : Env) (kind : PollType) (i : ℕ) (os : List OptionInput) (db db' : Db)
      → write_options env fresh poll_id kind existing i os db ≡ ok db'
      → Rewrites fresh poll_id existing db db'
  unfolding write_options
  write_options-Rewrites env kind i [] db db' done =
      subst (Rewrites fresh poll_id existing db) (ok-injective done) (as_before db)
  write_options-Rewrites env kind i (o ∷ os) db db' done =
      let (c, _, rest) =
        bind-ok (poll_option_columns env o kind (fallback_of (retained existing o.id))) _ done in
      chained (write_option-Rewrites i c (retained existing o.id) db (retained-Has o.id)) (
        write_options-Rewrites env kind (i + 1) os
          (write_option fresh poll_id i c (retained existing o.id) db) db' rest)

  delete-Rewrites :
      (ex : PollOption) (db : Db)
      → Has ex existing
      → Rewrites fresh poll_id existing db (delete_poll_option ex.id db)
  unfolding delete_poll_option
  delete-Rewrites ex db known = record {
    polls = refl;
    kept = λ x at apart.
        Has-spared x (has_option_id ex.id) db.poll_options at (other_id ex x (apart ex known));
    from = λ y at. inl (y, Has-undeleted y (has_option_id ex.id) db.poll_options at, refl, refl);
  }

  delete_missing-Rewrites :
      (keep : List ℕ) (some_existing : List PollOption) (db : Db)
      → ((ex : PollOption) → Has ex some_existing → Has ex existing)
      → Rewrites fresh poll_id existing db (delete_missing keep some_existing db)
  unfolding delete_missing
  delete_missing-Rewrites keep [] db known = as_before db
  delete_missing-Rewrites keep (ex ∷ exs) db known =
      elim (Bool-cases (any (λ id. id == ex.id) keep)) [
        | inl kept ↦ rw kept (delete_missing-Rewrites keep exs db (λ e at. known e (inr at)))
        | inr missing ↦ rw missing (
            chained (delete-Rewrites ex db (known ex (inl refl))) (
              delete_missing-Rewrites keep exs (delete_poll_option ex.id db)
                (λ e at. known e (inr at))))
      ]

-- Of the table of options, those of other polls stay, and ids still belong to one poll.
pub record Replaced (poll_id : ℕ) (db db' : Db) : Type 0 where
  pub polls : db'.polls ≡ db.polls
  pub spares : Spares poll_id db.poll_options db'.poll_options
  pub owned : IsOwned db'.poll_options

pub IsFrom-IsOwned :
    (fresh : FreshIds) (poll_id : ℕ) (before after : List PollOption)
    → IsOwned before
    → ((x : PollOption) (i : ℕ) → Has x before → x.id ≢ fresh.option i)
    → ((y : PollOption) → Has y after → IsFrom fresh poll_id before y)
    → IsOwned after
IsFrom-IsOwned fresh poll_id before after owned unused from a b at_a at_b e = elim (from a at_a) [
  | inl (x, at_x, id, poll) ↦ elim (from b at_b) [
    | inl (y, at_y, id', poll') ↦ sym poll ∙ owned x y at_x at_y (id ∙ e ∙ sym id') ∙ poll'
    | inr (j, _, id') ↦ absurd (unused x j at_x (id ∙ e ∙ id'))
  ]
  | inr (i, poll, id) ↦ elim (from b at_b) [
    | inl (y, at_y, id', _) ↦ absurd (unused y i at_y (id' ∙ sym e ∙ id))
    | inr (_, poll', _) ↦ poll ∙ sym poll'
  ]
]

pub replace_options-Replaced :
    (env : Env) (fresh : FreshIds) (poll_id : ℕ) (kind : PollType) (os : List OptionInput)
    (db db' : Db)
    → IsOwned db.poll_options
    → ((x : PollOption) (i : ℕ) → Has x db.poll_options → x.id ≢ fresh.option i)
    → replace_options env fresh poll_id kind os db db ≡ ok db'
    → Replaced poll_id db db'
unfolding replace_options list_options_by_poll
replace_options-Replaced env fresh poll_id kind os db db' owned unused done =
    let existing = list_options_by_poll poll_id db in
    let (_, h1) =
      require-ok
        (not (is_signup kind) || all_keep_claims (list_votes_by_poll poll_id db) existing os) _ _
        done in
    let (written, h2, h3) = bind-ok (write_options env fresh poll_id kind existing 0 os db) _ h1 in
    let all : Rewrites fresh poll_id existing db db' =
      subst (Rewrites fresh poll_id existing db) (ok-injective h3) (
        chained fresh poll_id existing
          (write_options-Rewrites fresh poll_id existing env kind 0 os db written h2)
          (delete_missing-Rewrites fresh poll_id existing (kept_ids fresh existing 0 os) existing
            written (λ ex at. at))) in
    record {
      polls = all.polls;
      spares = λ o at other. all.kept o at (λ ex known same.
          let (at_ex, own) = Has-selected ex _ db.poll_options known in
          other (sym (owned ex o at_ex at same) ∙ (==_iff ex.poll_id poll_id).0 own));
      owned = IsFrom-IsOwned fresh poll_id db.poll_options db'.poll_options owned unused all.from;
    }
