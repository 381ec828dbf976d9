-- ===== src/Polls/Schemas/Spec.antt =====
-- What the input that internal/polls/schemas.go validates is to be, in words that are not the
-- code's.
use whenweall.Prelude.{ℕ, ◌≤◌, ◌<◌, ◌≡◌, ◌⊎◌, false, Option, none, some, List, [], ◌∷◌, length, All}
use whenweall.Prelude.Text.{Text, byte_len, trim_space, is_empty}
use whenweall.Polls.Store.{
  PollType, datetime, options, signup, OptionKind, of_date, of_datetime, of_text,
}
use whenweall.Polls.Schemas.{InputKind, known, bounded, CreatePollInput, OptionInput}

-- The kinds of option that a poll of each type may have.
abbrev pub Suits : PollType → InputKind → Type 0
Suits datetime kind = (kind ≡ known of_date) ⊎ (kind ≡ known of_datetime)
Suits options kind = kind ≡ known of_text
Suits signup kind = (k : OptionKind) × (kind ≡ known k)

-- No end and an empty one are alike.
abbrev pub end_text : Option Text → Text
end_text none = []
end_text (some t) = t

-- All options are of the first one's kind.
abbrev pub IsUniform : List OptionInput → Type 0
IsUniform [] = Unit
IsUniform (o ∷ os) = All (λ (p : OptionInput). p.kind ≡ o.kind) os

module _ (parse_iso : Text → Option ℕ) (to_lower : Text → Text) where
  -- Two dates written alike, two spans whose starts and ends are, or two labels that differ at most
  -- in case and in the space around them.
  pub data IsSame (o p : OptionInput) : Type 0 where
    same_date : o.kind ≡ known of_date → p.kind ≡ known of_date → o.date ≡ p.date → IsSame o p
    same_span :
        o.kind ≡ known of_datetime
        → p.kind ≡ known of_datetime
        → o.start_at ≡ p.start_at
        → end_text o.end_at ≡ end_text p.end_at
        → IsSame o p
    same_label :
        o.kind ≡ known of_text
        → p.kind ≡ known of_text
        → to_lower (trim_space o.label) ≡ to_lower (trim_space p.label)
        → IsSame o p

  abbrev pub IsVaried : List OptionInput → Type 0
  IsVaried [] = Unit
  IsVaried (o ∷ os) = All (λ (p : OptionInput). ¬ IsSame o p) os × IsVaried os

  pub record IsOptionOf (k : PollType) (o : OptionInput) : Type 0 where
    pub kind : Suits k o.kind
    pub label :
        o.kind ≡ known of_text
        → (1 ≤ byte_len (trim_space o.label)) × (byte_len (trim_space o.label) ≤ 100)
    pub capacity : (c : ℕ) → o.capacity ≡ bounded c → (k ≡ signup) × (1 ≤ c) × (c ≤ 10000)
    pub ends :
        (t : Text) (s e : ℕ)
        → o.kind ≡ known of_datetime
        → o.end_at ≡ some t
        → is_empty t ≡ false
        → parse_iso o.start_at ≡ some s
        → parse_iso t ≡ some e
        → s < e

  pub record IsPoll (input : CreatePollInput) : Type 0 where
    pub kind : PollType
    pub has_kind : input.kind ≡ some kind
    pub titled : (1 ≤ byte_len (trim_space input.title)) × (byte_len (trim_space input.title) ≤ 200)
    pub described : (t : Text) → input.description ≡ some t → byte_len (trim_space t) ≤ 2000
    pub located : (t : Text) → input.location ≡ some t → byte_len (trim_space t) ≤ 200
    pub zoned : (1 ≤ byte_len input.timezone) × (byte_len input.timezone ≤ 64)
    pub some_options : 1 ≤ length input.options
    pub few_options : length input.options ≤ 100
    pub varied : IsVaried input.options
    pub uniform : kind ≡ signup → IsUniform input.options
    pub fitting : All (IsOptionOf kind) input.options
    pub limited : (n : ℕ) → input.signup_max_claims ≡ some n → (kind ≡ signup) × (1 ≤ n) × (n ≤ 100)
