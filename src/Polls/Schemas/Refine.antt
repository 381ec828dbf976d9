-- ===== src/Polls/Schemas/Refine.antt =====
-- refinePollOptions of internal/polls/schemas.go: the checks that compare an option with its poll's
-- type and with the other options.
use whenweall.Prelude.{
  ℕ, ◌+◌, Bool, true, false, not, Option, none, some, List, [], ◌∷◌, ◌++◌, ltb, if◌then◌else◌, any,
}
use whenweall.Prelude.Text.{Text, codes, is_empty, trim_space, text_eq}
use whenweall.Polls.Store.{PollType, datetime, options, signup, of_date, of_datetime, of_text}
use whenweall.Polls.Schemas.{
  InputKind, known, other_kind, CapacityInput, omitted, unlimited, bounded, OptionInput, Field,
  in_option, whole, in_end, in_capacity, unless,
}

-- pollType: "" for an update, or the text of the input that creates.
pub data TypeInput : Type 0 where
  untyped other_type : TypeInput
  typed : PollType → TypeInput

abbrev pub type_input : Option PollType → TypeInput
type_input none = other_type
type_input (some k) = typed k

abbrev pub kind_fits : TypeInput → InputKind → Bool
kind_fits (typed datetime) (known of_date) = true
kind_fits (typed datetime) (known of_datetime) = true
kind_fits (typed datetime) _ = false
kind_fits (typed options) (known of_text) = true
kind_fits (typed options) _ = false
kind_fits (typed signup) _ = true
kind_fits untyped _ = true
kind_fits other_type _ = true

abbrev pub kind_eq : InputKind → InputKind → Bool
kind_eq (known of_date) (known of_date) = true
kind_eq (known of_datetime) (known of_datetime) = true
kind_eq (known of_text) (known of_text) = true
kind_eq (other_kind s) (other_kind t) = text_eq s t
kind_eq _ _ = false

-- signupKind, once it is set.
abbrev pub same_kind : TypeInput → Option InputKind → InputKind → Bool
same_kind (typed signup) (some k) kind = kind_eq kind k
same_kind _ _ kind = true

abbrev pub first_kind : Option InputKind → InputKind → InputKind
first_kind none kind = kind
first_kind (some k) kind = k

abbrev pub capacity_fits : TypeInput → CapacityInput → Bool
capacity_fits untyped _ = true
capacity_fits (typed signup) _ = true
capacity_fits _ (bounded n) = false
capacity_fits _ omitted = true
capacity_fits _ unlimited = true

abbrev pub or_blank : Option Text → Text
or_blank none = []
or_blank (some t) = t

abbrev pub is_after : Option ℕ → Option ℕ → Bool
is_after (some end_at) (some start_at) = ltb start_at end_at
is_after _ _ = true

module _ (parse_iso : Text → Option ℕ) (to_lower : Text → Text) where
  abbrev pub parse_end : Option Text → Option ℕ
  parse_end none = none
  parse_end (some t) = if is_empty t then none else parse_iso t

  unfoldable pub ends_after : InputKind → OptionInput → Bool
  ends_after (known of_datetime) o = is_after (parse_end o.end_at) (parse_iso o.start_at)
  ends_after (known of_date) o = true
  ends_after (known of_text) o = true
  ends_after (other_kind _) o = true

  unfoldable pub key_of : InputKind → OptionInput → Text
  key_of (known of_date) o = codes "date:" ++ o.date
  key_of (known of_datetime) o =
      codes "datetime:" ++ (o.start_at ++ (codes "|" ++ or_blank o.end_at))
  key_of (known of_text) o = codes "text:" ++ to_lower (trim_space o.label)
  key_of (other_kind _) o = codes "text:" ++ to_lower (trim_space o.label)

  abbrev pub option_key : OptionInput → Text
  option_key o = key_of o.kind o

  -- The loop: the option's index, signupKind and seenKeys.
  unfoldable pub refine_from :
      TypeInput → ℕ → Option InputKind → List Text → List OptionInput → List Field
  unfolding ends_after
  refine_from ty i signup_kind seen [] = []
  refine_from ty i signup_kind seen (o ∷ os) =
      unless (kind_fits ty o.kind) (in_option i whole)
      ++ (unless (same_kind ty signup_kind o.kind) (in_option i whole)
          ++ (unless (capacity_fits ty o.capacity) (in_option i in_capacity)
              ++ (unless (ends_after o.kind o) (in_option i in_end)
                  ++ (unless (not (any (text_eq (option_key o)) seen)) (in_option i whole)
                      ++ refine_from ty (i + 1) (some (first_kind signup_kind o.kind))
                          (option_key o ∷ seen) os))))

  unfoldable pub refine_poll_options : TypeInput → List OptionInput → List Field
  unfolding refine_from
  refine_poll_options ty os = refine_from ty 0 none [] os
