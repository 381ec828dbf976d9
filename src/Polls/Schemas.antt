-- ===== src/Polls/Schemas.antt =====
-- internal/polls/schemas.go: validation of the input that creates or updates a poll.
--
-- The keys of ValidationError.Fields are a list, empty for a valid input; the messages are left
-- out. A negative capacity or claim limit stands as 0, which is refused alike. RFC 3339's parser
-- (time.Parse) and strings.ToLower are Go's, and parameters.
pub mod Refine
pub mod Validate
pub mod Facts
pub mod Spec
pub mod Valid
use whenweall.Prelude.{
  ℕ, ◌+◌, Bool, true, false, ◌&&◌, ◌||◌, not, Option, none, some, List, [], ◌∷◌, ◌++◌, ltb, leb,
  ◌==◌, if◌then◌else◌, any, length,
}
use whenweall.Prelude.Text.{Text, codes, is_empty, trim_space, byte_len, text_eq}
use whenweall.Polls.Store.{
  PollType, datetime, options, signup, OptionKind, of_date, of_datetime, of_text,
}

abbrev pub limit_title : ℕ
limit_title = 200

abbrev pub limit_description : ℕ
limit_description = 2000

abbrev pub limit_location : ℕ
limit_location = 200

abbrev pub limit_options : ℕ
limit_options = 100

abbrev pub limit_option_label : ℕ
limit_option_label = 100

-- The kind of an option, or another text.
pub data InputKind : Type 0 where
  known : OptionKind → InputKind
  other_kind : Text → InputKind

-- CapacitySet and Capacity.
pub data CapacityInput : Type 0 where
  omitted unlimited : CapacityInput
  bounded : ℕ → CapacityInput

-- `id` is none for "".
pub record OptionInput : Type 0 where
  pub id : Option ℕ
  pub kind : InputKind
  pub date : Text
  pub start_at : Text
  pub end_at : Option Text
  pub label : Text
  pub capacity : CapacityInput

-- DeadlineAtSet and DeadlineAt.
pub data DeadlineInput : Type 0 where
  unchanged cleared : DeadlineInput
  set_to : Text → DeadlineInput

-- `kind` is none for a text that is no type.
pub record CreatePollInput : Type 0 where
  pub kind : Option PollType
  pub title : Text
  pub description : Option Text
  pub location : Option Text
  pub timezone : Text
  pub deadline_at : Option Text
  pub options : List OptionInput
  pub signup_max_claims : Option ℕ
  pub require_participant_email : Option Bool
  pub allow_comments : Option Bool
  pub allow_if_need_be : Option Bool

pub record UpdatePollInput : Type 0 where
  pub title : Option Text
  pub description : Option Text
  pub location : Option Text
  pub timezone : Option Text
  pub deadline_at : DeadlineInput
  pub options : Option (List OptionInput)
  pub signup_max_claims : Option ℕ
  pub require_participant_email : Option Bool
  pub allow_comments : Option Bool
  pub allow_if_need_be : Option Bool

pub data Part : Type 0 where
  whole in_date in_start in_end in_label in_kind in_capacity : Part

pub data Field : Type 0 where
  in_type in_title in_description in_location in_timezone in_deadline in_options : Field
  in_signup_max_claims : Field
  in_option : ℕ → Part → Field

abbrev pub unless : Bool → Field → List Field
unless true f = []
unless false f = f ∷ []

-- What is left of a text after a pattern, in which `d` stands for a decimal digit.
abbrev fits : ℕ → ℕ → Bool
fits p c = if p == b'd' then leb b'0' c && leb c b'9' else p == c

unfoldable after_pattern : Text → Text → Option Text
after_pattern [] t = some t
after_pattern (p ∷ ps) [] = none
after_pattern (p ∷ ps) (c ∷ t) = if fits p c then after_pattern ps t else none

abbrev is_end : Option Text → Bool
is_end none = false
is_end (some t) = is_empty t

unfoldable pub is_date_only : Text → Bool
unfolding after_pattern
is_date_only t = is_end (after_pattern (codes "dddd-dd-dd") t)

-- `\d*Z` to the end, after `\.` and as many digits as `seen` says.
unfoldable fraction : Bool → Text → Bool
fraction seen [] = false
fraction seen (c ∷ t) =
    let more = fraction true t in
    if leb b'0' c && leb c b'9' then more else seen && c == b'Z' && is_empty t

abbrev zone_end : Option Text → Bool
zone_end none = false
zone_end (some []) = false
zone_end (some (c ∷ t)) = if c == b'.' then fraction false t else c == b'Z' && is_empty t

unfoldable pub is_iso_date_time : Text → Bool
unfolding after_pattern fraction
is_iso_date_time t = zone_end (after_pattern (codes "dddd-dd-ddTdd:dd:dd") t)

abbrev pub within : ℕ → ℕ → ℕ → Bool
within low high n = leb low n && leb n high

abbrev pub optional {ℓ} : {A : Type ℓ} → (A → Bool) → Option A → Bool
optional p none = true
optional p (some a) = p a

abbrev pub capacity_ok : CapacityInput → Bool
capacity_ok omitted = true
capacity_ok unlimited = true
capacity_ok (bounded n) = within 1 10000 n

abbrev pub end_shape : Option Text → Bool
end_shape none = true
end_shape (some t) = is_empty t || is_iso_date_time t

abbrev pub title_ok : Text → Bool
title_ok t = within 1 limit_title (byte_len (trim_space t))

unfoldable pub validate_kind_shape : ℕ → InputKind → OptionInput → List Field
validate_kind_shape i (known of_date) o = unless (is_date_only o.date) (in_option i in_date)
validate_kind_shape i (known of_datetime) o =
    unless (is_iso_date_time o.start_at) (in_option i in_start)
    ++ unless (end_shape o.end_at) (in_option i in_end)
validate_kind_shape i (known of_text) o =
    unless (within 1 limit_option_label (byte_len (trim_space o.label))) (in_option i in_label)
validate_kind_shape i (other_kind _) o = in_option i in_kind ∷ []

unfoldable pub validate_option_shape : ℕ → OptionInput → List Field
unfolding validate_kind_shape
validate_option_shape i o =
    validate_kind_shape i o.kind o ++ unless (capacity_ok o.capacity) (in_option i in_capacity)

unfoldable pub validate_shapes : ℕ → List OptionInput → List Field
unfolding validate_option_shape
validate_shapes i [] = []
validate_shapes i (o ∷ os) = validate_option_shape i o ++ validate_shapes (i + 1) os

unfoldable pub validate_options_field : List OptionInput → List Field
unfolding validate_shapes
validate_options_field [] = in_options ∷ []
validate_options_field (o ∷ os) =
    unless (leb (length (o ∷ os)) limit_options) in_options ++ validate_shapes 0 (o ∷ os)
