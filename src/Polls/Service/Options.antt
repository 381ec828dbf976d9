-- ===== src/Polls/Service/Options.antt =====
-- The options of a poll: pollOptionColumns and replaceOptions of internal/polls/service.go.
use whenweall.Prelude.{
  ℕ, ◌+◌, Bool, true, false, not, ◌||◌, Option, none, some, List, [], ◌∷◌, leb, ◌==◌, if◌then◌else◌,
  select_one, count_where, any, update_where,
}
use whenweall.Prelude.Text.{Text, is_empty}
use whenweall.Prelude.Outcome.{ok, ◌>>=◌, ◌>>◌, require, found}
use whenweall.Polls.Store.{
  Result, err_capacity_below_claims, err_invalid_date, PollType, OptionKind, of_date, of_datetime,
  of_text, PollOption, Vote, Db, list_options_by_poll, list_votes_by_poll, is_yes_for,
}
use whenweall.Polls.Claims.{is_signup}
use whenweall.Polls.Schemas.{
  InputKind, known, other_kind, CapacityInput, omitted, unlimited, bounded, OptionInput,
}
use whenweall.Polls.Service.{Env, FreshIds, has_option_id, insert_poll_option, delete_poll_option}

pub record OptionColumns : Type 0 where
  pub kind : OptionKind
  pub start_at : Option ℕ
  pub end_at : Option ℕ
  pub label : Option Text
  pub capacity : Option ℕ

-- The capacity that the input asks for, where a fallback is kept if it asks for none.
abbrev pub new_capacity : CapacityInput → Option ℕ → Option ℕ
new_capacity omitted fallback = fallback
new_capacity unlimited fallback = none
new_capacity (bounded c) fallback = some c

abbrev pub capacity_of : PollType → CapacityInput → Option ℕ → Option ℕ
capacity_of kind c fallback = if is_signup kind then new_capacity c fallback else none

-- The end of a date and time: no text and the empty one are no end.
unfoldable pub end_of : Env → Option Text → Result (Option ℕ)
end_of env none = ok none
end_of env (some t) =
    if is_empty t
    then ok none
    else (found (env.parse_iso t) err_invalid_date >>= λ (e : ℕ). ok (some e))

unfoldable pub columns_of : Env → InputKind → OptionInput → Option ℕ → Result OptionColumns
unfolding end_of
columns_of env (known of_date) o capacity =
    found (env.parse_date o.date) err_invalid_date >>= λ (t : ℕ).
    ok (record {
      kind = of_date;
      start_at = some t;
      end_at = none;
      label = none;
      capacity = capacity;
    })
columns_of env (known of_datetime) o capacity =
    found (env.parse_iso o.start_at) err_invalid_date >>= λ (t : ℕ).
    end_of env o.end_at >>= λ (e : Option ℕ). ok (record {
      kind = of_datetime;
      start_at = some t;
      end_at = e;
      label = none;
      capacity = capacity;
    })
columns_of env (known of_text) o capacity = ok (record {
  kind = of_text;
  start_at = none;
  end_at = none;
  label = some o.label;
  capacity = capacity;
})
columns_of env (other_kind _) o capacity = ok (record {
  kind = of_text;
  start_at = none;
  end_at = none;
  label = some o.label;
  capacity = capacity;
})

unfoldable pub poll_option_columns : Env → OptionInput → PollType → Option ℕ → Result OptionColumns
unfolding columns_of
poll_option_columns env o kind fallback =
    columns_of env o.kind o (capacity_of kind o.capacity fallback)

abbrev pub row_of : ℕ → ℕ → ℕ → OptionColumns → PollOption
row_of id poll_id position c = record {
  id = id;
  poll_id = poll_id;
  position = position;
  kind = c.kind;
  start_at = c.start_at;
  end_at = c.end_at;
  label = c.label;
  capacity = c.capacity;
}

abbrev pub with_columns : ℕ → OptionColumns → PollOption → PollOption
with_columns position c o = record o {
  position = position;
  kind = c.kind;
  start_at = c.start_at;
  end_at = c.end_at;
  label = c.label;
  capacity = c.capacity;
}

unfoldable pub update_poll_option : ℕ → ℕ → OptionColumns → Db → Db
update_poll_option id position c db = record db {
  poll_options = update_where (has_option_id id) (with_columns position c) db.poll_options;
}

-- existingByID[opt.ID], and nothing for "".
unfoldable pub retained : List PollOption → Option ℕ → Option PollOption
retained existing none = none
retained existing (some id) = select_one (has_option_id id) existing

abbrev pub fits_claims : Option ℕ → ℕ → Bool
fits_claims none count = true
fits_claims (some c) count = leb count c

-- A retained option whose new capacity is below its yes votes is refused.
abbrev pub keeps_claims : List Vote → CapacityInput → Option PollOption → Bool
keeps_claims votes c none = true
keeps_claims votes c (some ex) =
    fits_claims (new_capacity c ex.capacity) (count_where (is_yes_for ex.id) votes)

unfoldable pub all_keep_claims : List Vote → List PollOption → List OptionInput → Bool
unfolding retained
all_keep_claims votes existing [] = true
all_keep_claims votes existing (o ∷ os) =
    let rest = all_keep_claims votes existing os in
    if keeps_claims votes o.capacity (retained existing o.id) then rest else false

-- keepIDs.
abbrev pub kept_id : FreshIds → ℕ → Option PollOption → ℕ
kept_id fresh i none = fresh.option i
kept_id fresh i (some ex) = ex.id

abbrev pub fallback_of : Option PollOption → Option ℕ
fallback_of none = some 1
fallback_of (some ex) = ex.capacity

unfoldable pub write_option : FreshIds → ℕ → ℕ → OptionColumns → Option PollOption → Db → Db
unfolding insert_poll_option update_poll_option
write_option fresh poll_id i c none db = insert_poll_option (row_of (fresh.option i) poll_id i c) db
write_option fresh poll_id i c (some ex) db = update_poll_option ex.id i c db

-- The loop over the inputs; `existing` was read before it.
unfoldable pub write_options :
    Env → FreshIds → ℕ → PollType → List PollOption → ℕ → List OptionInput → Db → Result Db
unfolding poll_option_columns write_option retained
write_options env fresh poll_id kind existing i [] db = ok db
write_options env fresh poll_id kind existing i (o ∷ os) db =
    poll_option_columns env o kind (fallback_of (retained existing o.id)) >>= λ (c : OptionColumns).
    write_options env fresh poll_id kind existing (i + 1) os
      (write_option fresh poll_id i c (retained existing o.id) db)

unfoldable pub kept_ids : FreshIds → List PollOption → ℕ → List OptionInput → List ℕ
unfolding retained
kept_ids fresh existing i [] = []
kept_ids fresh existing i (o ∷ os) =
    kept_id fresh i (retained existing o.id) ∷ kept_ids fresh existing (i + 1) os

unfoldable pub delete_missing : List ℕ → List PollOption → Db → Db
unfolding delete_poll_option
delete_missing keep [] db = db
delete_missing keep (ex ∷ existing) db =
    delete_missing keep existing
      (if any (λ id. id == ex.id) keep then db else delete_poll_option ex.id db)

-- The options and the votes are read from `seen`. The rows are not locked, so that claims and
-- others' updates may commit before the writes, which find `db`.
unfoldable pub replace_options :
    Env → FreshIds → ℕ → PollType → List OptionInput → Db → Db → Result Db
unfolding all_keep_claims write_options kept_ids delete_missing
replace_options env fresh poll_id kind os seen db =
    let existing = list_options_by_poll poll_id seen in
    require (not (is_signup kind) || all_keep_claims (list_votes_by_poll poll_id seen) existing os)
      err_capacity_below_claims
    >> (write_options env fresh poll_id kind existing 0 os db >>= λ (written : Db).
        ok (delete_missing (kept_ids fresh existing 0 os) existing written))
