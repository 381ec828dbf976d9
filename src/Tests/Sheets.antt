-- ===== src/Tests/Sheets.antt =====
-- Validation, the roster and the replacement of options of internal/polls on one small sheet.
use mathlib.Core.Option.{some-injective}
use whenweall.Prelude.{
  ℕ, subst, ◌≡◌, refl, sym, ap, ◌∙◌, ◌≤◌, arith, count_where, List, inl, inr, false, none, some, [],
  ◌∷◌, map, All,
}
use whenweall.Prelude.Text.{Text, codes, trim_space, trim_left, is_space, byte_len, rune_len}
use whenweall.Prelude.Outcome.{ok}
use whenweall.Polls.Store.{
  PollOption, Db, signup, opened, of_text, yes, is_yes_for, get_poll, list_options_by_poll,
  list_votes_by_poll,
}
use whenweall.Polls.Schemas.{
  OptionInput, CreatePollInput, known, omitted, bounded, validate_options_field, validate_shapes,
  validate_option_shape, validate_kind_shape,
}
use whenweall.Polls.Schemas.Refine.{refine_poll_options, refine_from, ends_after, key_of}
use whenweall.Polls.Schemas.Validate.{validate_create}
use whenweall.Polls.Schemas.Spec.{IsPoll}
use whenweall.Polls.Schemas.Valid.{validate_create-IsPoll}
use whenweall.Polls.Service.{insert_poll_option}
use whenweall.Polls.Service.Options.{
  replace_options, all_keep_claims, write_options, write_option, kept_ids, retained,
  poll_option_columns, columns_of, delete_missing, row_of, update_poll_option,
}
use whenweall.Polls.Service.Capacity.{IsRoomy, IsUnclaimed, replace_options-IsRoomy}
use whenweall.Polls.Roster.{build_roster_csv, roster_records, defused, is_formula, roster_text}
use whenweall.Polls.Roster.Reader.{read_csv}
use whenweall.Polls.Roster.Export.{without_bom, read_csv-build_roster_csv}
use whenweall.Tests.Meals.{no_instant, same_text, env, fresh, lunch, choice, db_of}

abbrev text_option : Text → OptionInput
text_option t = record {
  id = none;
  kind = known of_text;
  date = [];
  start_at = [];
  end_at = none;
  label = t;
  capacity = omitted;
}

abbrev new_sheet : CreatePollInput
new_sheet = record {
  kind = some signup;
  title = codes "Cakes";
  description = none;
  location = none;
  timezone = codes "UTC";
  deadline_at = none;
  options = text_option (codes "Monday") ∷ text_option (codes "Friday") ∷ [];
  signup_max_claims = some 2;
  require_participant_email = none;
  allow_comments = none;
  allow_if_need_be = none;
}

new_sheet-valid : validate_create no_instant same_text new_sheet ≡ []
unfolding validate_create validate_options_field refine_poll_options refine_from validate_shapes
    validate_option_shape validate_kind_shape ends_after key_of byte_len rune_len trim_space
    trim_left is_space
new_sheet-valid = refl

validate_create-IsPoll_example : IsPoll no_instant same_text new_sheet
validate_create-IsPoll_example =
    validate_create-IsPoll no_instant same_text new_sheet new_sheet-valid

abbrev label : PollOption → Text
label o = codes "=1+1, \"x\""

abbrev db_sheet : Db
db_sheet = db_of (record (lunch opened none) { kind = signup })

roster-run : build_roster_csv label 1 db_sheet ≡ ok (roster_text (roster_records label 1 db_sheet))
unfolding build_roster_csv get_poll
roster-run = refl

read_csv-build_roster_csv_example :
    (read_csv (without_bom (roster_text (roster_records label 1 db_sheet)))
      ≡ map (map defused) (roster_records label 1 db_sheet))
    × All
        (All (λ (f : Text). is_formula f ≡ false))
        (read_csv (without_bom (roster_text (roster_records label 1 db_sheet))))
read_csv-build_roster_csv_example =
    read_csv-build_roster_csv label 1 db_sheet (roster_text (roster_records label 1 db_sheet))
      roster-run

-- A sheet of which one slot is taken, and its replacement: that slot with room for one, and a new
-- slot.
abbrev db_taken : Db
db_taken = record db_sheet {
  votes = record { participant_id = 50; option_id = 10; answer = yes } ∷ [];
}

abbrev replacement : List OptionInput
replacement =
    record (text_option (codes "Monday")) { id = some 10; capacity = bounded 1 }
    ∷ text_option (codes "Sunday")
    ∷ []

abbrev replaced : Db → Db
replaced d = delete_missing (10 ∷ 201 ∷ []) (choice 1 10 ∷ choice 1 11 ∷ []) (
    insert_poll_option
      (row_of 201 1 1 (record {
        kind = of_text;
        start_at = none;
        end_at = none;
        label = some (codes "Sunday");
        capacity = some 1;
      }))
      (update_poll_option 10 0
        (record {
          kind = of_text;
          start_at = none;
          end_at = none;
          label = some (codes "Monday");
          capacity = some 1;
        })
        d))

abbrev db_replaced : Db
db_replaced = replaced db_taken

db_replaced-run : replace_options env fresh 1 signup replacement db_taken db_taken ≡ ok db_replaced
unfolding replace_options all_keep_claims write_options write_option kept_ids retained
    poll_option_columns columns_of list_options_by_poll list_votes_by_poll
db_replaced-run = refl

db_taken-IsRoomy : IsRoomy db_taken
db_taken-IsRoomy o c (inl e) room =
    subst (λ (x : PollOption). count_where (is_yes_for x.id) db_taken.votes ≤ c) (sym e)
      (one c (sym (ap PollOption.capacity e) ∙ room))
  where
    one : (n : ℕ) → some 12 ≡ some n → 1 ≤ n
    one n same = omega (arith, some-injective 12 n same)
db_taken-IsRoomy o c (inr (inl e)) room =
    subst (λ (x : PollOption). count_where (is_yes_for x.id) db_taken.votes ≤ c) (sym e)
      (omega arith)
db_taken-IsRoomy o c (inr (inr n)) room = absurd n

db_taken-IsUnclaimed : IsUnclaimed 1 db_taken db_taken
unfolding list_votes_by_poll
db_taken-IsUnclaimed o at = omega arith

replace_options-IsRoomy_example : IsRoomy db_replaced
replace_options-IsRoomy_example =
    replace_options-IsRoomy env fresh 1 signup replacement db_taken db_taken db_replaced
      db_taken-IsRoomy db_taken-IsUnclaimed (λ i. ground arith) db_replaced-run

-- A second claim that commits between the count and the writes: the slot has room for one and two
-- claims.
abbrev db_raced : Db
db_raced = record db_sheet {
  votes =
      record { participant_id = 50; option_id = 10; answer = yes }
      ∷ record { participant_id = 51; option_id = 10; answer = yes }
      ∷ [];
}

raced-run :
    replace_options env fresh 1 signup replacement db_taken db_raced ≡ ok (replaced db_raced)
unfolding replace_options all_keep_claims write_options write_option kept_ids retained
    poll_option_columns columns_of list_options_by_poll list_votes_by_poll
raced-run = refl

raced-count : count_where (is_yes_for 10) (replaced db_raced).votes ≡ 2
unfolding delete_missing insert_poll_option update_poll_option
raced-count = refl
