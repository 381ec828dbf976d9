-- ===== src/Polls/Service/Capacity.antt =====
-- Why Update of internal/polls/service.go leaves no slot with more claims than its capacity.
use whenweall.Prelude.{
  ℕ, ◌+◌, ◌≤◌, ◌≡◌, refl, sym, ap, subst, ◌∙◌, inl, inr, Bool, true, false, not, ◌||◌, Option, none,
  some, List, [], ◌∷◌, ◌==◌, ==_iff, leb→le, arith, any, All, Has, Any-append, Has-updated,
  Has-undeleted, select_one-Has, count_where, Bool-cases, if◌then◌else◌,
}
use whenweall.Prelude.Outcome.{ok, found-ok, bind-ok, require-ok, ok-injective}
use whenweall.Polls.Store.{
  PollType, PollOption, Vote, Db, of_date, of_datetime, of_text, list_options_by_poll,
  list_votes_by_poll, is_yes_for, is_for,
}
use whenweall.Polls.Claims.{is_signup}
use whenweall.Polls.Claims.Facts.{count-delete_le}
use whenweall.Polls.Schemas.{InputKind, known, other_kind, OptionInput}
use whenweall.Polls.Service.{Env, FreshIds, has_option_id, insert_poll_option, delete_poll_option}
use whenweall.Polls.Service.Options.{
  OptionColumns, new_capacity, capacity_of, end_of, columns_of, poll_option_columns, retained,
  fallback_of, fits_claims, keeps_claims, all_keep_claims, write_option, update_poll_option,
  write_options, kept_ids, delete_missing, replace_options, row_of, with_columns,
}

-- No row of the table has more yes votes than its capacity.
abbrev pub IsRoomy : Db → Type 0
IsRoomy db =
    (o : PollOption) (c : ℕ)
    → Has o db.poll_options
    → o.capacity ≡ some c
    → count_where (is_yes_for o.id) db.votes ≤ c

-- No option of the poll that was seen has more yes votes by now than were seen.
abbrev pub IsUnclaimed : ℕ → Db → Db → Type 0
IsUnclaimed poll_id seen db =
    (o : PollOption)
    → Has o (list_options_by_poll poll_id seen)
    → count_where (is_yes_for o.id) db.votes
      ≤ count_where (is_yes_for o.id) (list_votes_by_poll poll_id seen)

columns_of-capacity :
    (env : Env) (kind : InputKind) (o : OptionInput) (capacity : Option ℕ) (c : OptionColumns)
    → columns_of env kind o capacity ≡ ok c
    → c.capacity ≡ capacity
unfolding columns_of
columns_of-capacity env (known of_date) o capacity c done =
    let (t, _, rest) = found-ok (env.parse_date o.date) _ _ done in
    sym (ap OptionColumns.capacity (ok-injective rest))
columns_of-capacity env (known of_datetime) o capacity c done =
    let (t, _, rest) = found-ok (env.parse_iso o.start_at) _ _ done in
    let (e, _, rest') = bind-ok (end_of env o.end_at) _ rest in
    sym (ap OptionColumns.capacity (ok-injective rest'))
columns_of-capacity env (known of_text) o capacity c done =
    sym (ap OptionColumns.capacity (ok-injective done))
columns_of-capacity env (other_kind t) o capacity c done =
    sym (ap OptionColumns.capacity (ok-injective done))

module _ (fresh : FreshIds) (poll_id : ℕ) (kind : PollType) (existing : List PollOption)
    (votes : List Vote) (joined : List Vote)
    (unvoted : (i : ℕ) → count_where (is_yes_for (fresh.option i)) votes ≡ 0)
    (counted : (ex : PollOption)
      → Has ex existing
      → count_where (is_yes_for ex.id) votes ≤ count_where (is_yes_for ex.id) joined) where
  abbrev IsAllowed : OptionInput → Type 0
  IsAllowed o =
      is_signup kind ≡ true → keeps_claims joined o.capacity (retained existing o.id) ≡ true

  -- A capacity that replaceOptions writes holds the votes.
  fits :
      (o : OptionInput) (ex : PollOption) (c : ℕ)
      → Has ex existing
      → retained existing o.id ≡ some ex
      → IsAllowed o
      → capacity_of kind o.capacity ex.capacity ≡ some c
      → count_where (is_yes_for ex.id) votes ≤ c
  fits o ex c listed found allowed bounded = elim (Bool-cases (is_signup kind)) [
    | inr plain ↦ cc (rw plain at bounded)
    | inl sheet ↦
        let keeps : keeps_claims joined o.capacity (some ex) ≡ true =
          subst (λ x. keeps_claims joined o.capacity x ≡ true) found (allowed sheet) in
        let asked : new_capacity o.capacity ex.capacity ≡ some c = rw sheet at bounded in
        let room : fits_claims (some c) (count_where (is_yes_for ex.id) joined) ≡ true =
          subst (λ x. fits_claims x (count_where (is_yes_for ex.id) joined) ≡ true) asked keeps in
        let held = leb→le (count_where (is_yes_for ex.id) joined) c room in
        omega (arith, held, counted ex listed)
  ]

  write_option-IsRoomy :
      (env : Env) (i : ℕ) (o : OptionInput) (c : OptionColumns) (x : Option PollOption) (db : Db)
      → db.votes ≡ votes
      → retained existing o.id ≡ x
      → ((ex : PollOption) → x ≡ some ex → Has ex existing)
      → IsAllowed o
      → c.capacity ≡ capacity_of kind o.capacity (fallback_of x)
      → IsRoomy db
      → IsRoomy (write_option fresh poll_id i c x db)
  unfolding write_option insert_poll_option update_poll_option
  write_option-IsRoomy env i o c none db same found listed allowed capacity h r n at bounded =
      elim (Any-append (λ y. r ≡ y) db.poll_options (row_of (fresh.option i) poll_id i c ∷ []) at) [
        | inl before ↦ h r n before bounded
        | inr new ↦ elim new [
          | inr none_left ↦ absurd none_left
          | inl e ↦
              let id : r.id ≡ fresh.option i = ap PollOption.id e in
              subst (λ k. count_where (is_yes_for k) db.votes ≤ n) (sym id)
                (subst (λ vs. count_where (is_yes_for (fresh.option i)) vs ≤ n) (sym same)
                  (omega (arith, unvoted i)))
        ]
      ]
  write_option-IsRoomy env i o c (some ex) db same found listed allowed capacity h r n at bounded =
      let (x, at_x, how) =
        Has-updated r (has_option_id ex.id) (with_columns i c) db.poll_options at in
      elim how [
        | inr (_, e) ↦
            subst (λ y. count_where (is_yes_for y.id) db.votes ≤ n) (sym e)
              (h x n at_x (sym (ap PollOption.capacity e) ∙ bounded))
        | inl (met, e) ↦
            let id : r.id ≡ ex.id = ap PollOption.id e ∙ (==_iff x.id ex.id).0 met in
            let room =
              fits o ex n (listed ex refl) found allowed
                (sym capacity ∙ sym (ap PollOption.capacity e) ∙ bounded) in
            subst (λ k. count_where (is_yes_for k) db.votes ≤ n) (sym id)
              (subst (λ vs. count_where (is_yes_for ex.id) vs ≤ n) (sym same) room)
      ]

  votes-write_option :
      (i : ℕ) (c : OptionColumns) (x : Option PollOption) (db : Db)
      → (write_option fresh poll_id i c x db).votes ≡ db.votes
  unfolding write_option insert_poll_option update_poll_option
  votes-write_option i c none db = refl
  votes-write_option i c (some ex) db = refl

  retained-listed :
      (id : Option ℕ) (ex : PollOption) → retained existing id ≡ some ex → Has ex existing
  unfolding retained
  retained-listed none ex e = cc
  retained-listed (some id) ex e = select_one-Has (has_option_id id) existing ex e

  write_options-IsRoomy :
      (env : Env) (i : ℕ) (os : List OptionInput) (db db' : Db)
      → db.votes ≡ votes
      → All IsAllowed os
      → write_options env fresh poll_id kind existing i os db ≡ ok db'
      → IsRoomy db
      → IsRoomy db'
  unfolding write_options poll_option_columns
  write_options-IsRoomy env i [] db db' same allowed done h = subst IsRoomy (ok-injective done) h
  write_options-IsRoomy env i (o ∷ os) db db' same (a, allowed) done h =
      let fallback = fallback_of (retained existing o.id) in
      let (c, columns, rest) = bind-ok (poll_option_columns env o kind fallback) _ done in
      let capacity : c.capacity ≡ capacity_of kind o.capacity fallback =
        columns_of-capacity env o.kind o (capacity_of kind o.capacity fallback) c columns in
      write_options-IsRoomy env (i + 1) os
        (write_option fresh poll_id i c (retained existing o.id) db) db'
        (votes-write_option i c (retained existing o.id) db ∙ same) allowed rest
        (write_option-IsRoomy env i o c (retained existing o.id) db same refl (retained-listed o.id)
          a capacity h)

delete_missing-IsRoomy :
    (keep : List ℕ) (existing : List PollOption) (db : Db)
    → IsRoomy db
    → IsRoomy (delete_missing keep existing db)
unfolding delete_missing delete_poll_option
delete_missing-IsRoomy keep [] db h = h
delete_missing-IsRoomy keep (ex ∷ exs) db h =
    after (any (λ id. id == ex.id) keep) (λ d room. delete_missing-IsRoomy keep exs d room)
  where
    after :
        (kept : Bool)
        → ((d : Db) → IsRoomy d → IsRoomy (delete_missing keep exs d))
        → IsRoomy (delete_missing keep exs (if kept then db else delete_poll_option ex.id db))
    after true rest = rest db h
    after false rest = rest (delete_poll_option ex.id db) (λ o c at bounded. omega (
      arith,
      h o c (Has-undeleted o (has_option_id ex.id) db.poll_options at) bounded,
      count-delete_le (is_yes_for o.id) (is_for ex.id) db.votes,
    ))

all_keep_claims-All :
    (kind : PollType) (joined : List Vote) (existing : List PollOption) (os : List OptionInput)
    → not (is_signup kind) || all_keep_claims joined existing os ≡ true
    → All
        (λ (o : OptionInput).
          is_signup kind ≡ true → keeps_claims joined o.capacity (retained existing o.id) ≡ true)
        os
unfolding all_keep_claims
all_keep_claims-All kind joined existing [] h = tt
all_keep_claims-All kind joined existing (o ∷ os) h =
    (λ sheet. ground arith, all_keep_claims-All kind joined existing os (ground arith))

-- Replacing the options of one poll keeps every option of every poll within its capacity: a
-- retained option's new capacity holds the yes votes that it has, a new option has none, and an
-- option that goes takes its votes with it. This is so if the options of the poll have gained no
-- yes vote since they were counted, and no vote names the ids of the new options.
pub replace_options-IsRoomy :
    (env : Env) (fresh : FreshIds) (poll_id : ℕ) (kind : PollType) (os : List OptionInput)
    (seen db db' : Db)
    → IsRoomy db
    → IsUnclaimed poll_id seen db
    → ((i : ℕ) → count_where (is_yes_for (fresh.option i)) db.votes ≡ 0)
    → replace_options env fresh poll_id kind os seen db ≡ ok db'
    → IsRoomy db'
unfolding replace_options
replace_options-IsRoomy env fresh poll_id kind os seen db db' h unclaimed unvoted done =
    let existing = list_options_by_poll poll_id seen in
    let votes = list_votes_by_poll poll_id seen in
    let (keeps, h1) =
      require-ok (not (is_signup kind) || all_keep_claims votes existing os) _ _ done in
    let (written, h2, h3) = bind-ok (write_options env fresh poll_id kind existing 0 os db) _ h1 in
    subst IsRoomy (ok-injective h3) (
      delete_missing-IsRoomy (kept_ids fresh existing 0 os) existing written (
        write_options-IsRoomy fresh poll_id kind existing db.votes votes unvoted unclaimed env 0 os
          db written refl (all_keep_claims-All kind votes existing os keeps) h2 h))
