-- ===== src/Polls/Schemas/Facts.antt =====
-- What a check of internal/polls/schemas.go that records no field has found.
use whenweall.Prelude.{
  ℕ, ◌+◌, ◌≤◌, ◌≡◌, ◌≢◌, ◌⊎◌, inl, inr, refl, sym, subst, Bool, true, false, not, Option, some,
  List, [], ◌∷◌, ◌++◌, map, arith, leb→le, any, length, All,
}
use whenweall.Prelude.Text.{Text, text_eq, byte_len, trim_space}
use whenweall.Polls.Store.{signup, of_date, of_datetime, of_text}
use whenweall.Polls.Schemas.{
  InputKind, known, in_capacity, other_kind, limit_option_label, validate_kind_shape, OptionInput,
  Field, in_option, whole, in_end, unless, within, capacity_ok, limit_options,
  validate_options_field, validate_option_shape, validate_shapes,
}
use whenweall.Polls.Schemas.Refine.{
  TypeInput, typed, kind_fits, kind_eq, capacity_fits, ends_after, option_key, refine_from,
}

pub append_none : (s t : List Field) → s ++ t ≡ [] → (s ≡ []) × (t ≡ [])
append_none [] t h = (refl, h)
append_none (f ∷ s) t h = cc

pub unless_none : (b : Bool) (f : Field) → unless b f ≡ [] → b ≡ true
unless_none true f h = refl
unless_none false f h = cc

-- The first check passes, and so do the others.
pub checked : (b : Bool) (f : Field) (t : List Field) → unless b f ++ t ≡ [] → (b ≡ true) × (t ≡ [])
checked b f t h = let (one, rest) = append_none (unless b f) t h in (unless_none b f one, rest)

pub negated : (b : Bool) → not b ≡ true → b ≡ false
negated true h = cc
negated false h = refl

pub in_range : (low high n : ℕ) → within low high n ≡ true → (low ≤ n) × (n ≤ high)
in_range low high n h = (ground arith, ground arith)

pub text_eq_refl : (t : Text) → text_eq t t ≡ true
text_eq_refl [] = refl
text_eq_refl (c ∷ t) = ground (arith, text_eq_refl t)

differs : (k : Text) (seen : List Text) → any (text_eq k) seen ≡ false → All (λ s. k ≢ s) seen
differs k [] h = tt
differs k (s ∷ seen) h = (
  λ same. cc (subst (λ x. text_eq k x ≡ true) same (text_eq_refl k)),
  differs k seen (ground arith),
)

abbrev pub IsDistinct : List Text → Type 0
IsDistinct [] = Unit
IsDistinct (k ∷ ks) = All (λ j. k ≢ j) ks × IsDistinct ks

module _ (parse_iso : Text → Option ℕ) (to_lower : Text → Text) where
  abbrev pub Refined : TypeInput → OptionInput → Type 0
  Refined ty o =
      (kind_fits ty o.kind ≡ true)
      × (capacity_fits ty o.capacity ≡ true)
      × (ends_after parse_iso to_lower o.kind o ≡ true)

  abbrev pub key : OptionInput → Text
  key o = option_key parse_iso to_lower o

  pub refine_from-facts :
      (ty : TypeInput) (i : ℕ) (signup_kind : Option InputKind) (seen : List Text)
      (os : List OptionInput)
      → refine_from parse_iso to_lower ty i signup_kind seen os ≡ []
      → All (Refined ty) os
        × All (λ (o : OptionInput). All (λ s. key o ≢ s) seen) os
        × IsDistinct (map key os)
  unfolding refine_from
  refine_from-facts ty i signup_kind seen [] h = (tt, tt, tt)
  refine_from-facts ty i signup_kind seen (o ∷ os) h =
      let (kind, h1) = checked _ _ _ h in
      let (_, h2) = checked _ _ _ h1 in
      let (capacity, h3) = checked _ _ _ h2 in
      let (ends, h4) = checked _ _ _ h3 in
      let (new, h5) = checked _ _ _ h4 in
      let (refined, fresh, distinct) = refine_from-facts ty (i + 1) _ (key o ∷ seen) os h5 in
      (
        ((kind, capacity, ends), refined),
        (differs (key o) seen (negated _ new), later os fresh),
        (firsts os fresh, distinct),
      )
    where
      later :
          (ps : List OptionInput)
          → All (λ (p : OptionInput). All (λ s. key p ≢ s) (key o ∷ seen)) ps
          → All (λ (p : OptionInput). All (λ s. key p ≢ s) seen) ps
      later [] f = tt
      later (p ∷ ps) ((_, f), fs) = (f, later ps fs)

      firsts :
          (ps : List OptionInput)
          → All (λ (p : OptionInput). All (λ s. key p ≢ s) (key o ∷ seen)) ps
          → All (λ j. key o ≢ j) (map key ps)
      firsts [] f = tt
      firsts (p ∷ ps) ((f, _), fs) = ((λ same. f (sym same)), firsts ps fs)

  -- On a sign-up sheet, after an option of the kind k.
  pub refine_from-kinds :
      (i : ℕ) (k : InputKind) (seen : List Text) (os : List OptionInput)
      → refine_from parse_iso to_lower (typed signup) i (some k) seen os ≡ []
      → All (λ (o : OptionInput). kind_eq o.kind k ≡ true) os
  unfolding refine_from
  refine_from-kinds i k seen [] h = tt
  refine_from-kinds i k seen (o ∷ os) h =
      let (_, h1) = checked (kind_fits (typed signup) o.kind) (in_option i whole) _ h in
      let (same, h2) = checked (kind_eq o.kind k) (in_option i whole) _ h1 in
      let (_, h3) =
        checked (capacity_fits (typed signup) o.capacity) (in_option i in_capacity) _ h2 in
      let (_, h4) = checked (ends_after parse_iso to_lower o.kind o) (in_option i in_end) _ h3 in
      let (_, h5) =
        checked (not (any (text_eq (key o)) seen)) (in_option i whole)
          (refine_from parse_iso to_lower (typed signup) (i + 1) (some k) (key o ∷ seen) os) h4 in
      (same, refine_from-kinds (i + 1) k (key o ∷ seen) os h5)

-- The kind is known, and a label within its bounds.
abbrev pub Shaped : OptionInput → Type 0
Shaped o =
    (o.kind ≡ known of_date)
    ⊎ (o.kind ≡ known of_datetime)
    ⊎ ((o.kind ≡ known of_text)
        × (within 1 limit_option_label (byte_len (trim_space o.label)) ≡ true))

Shaped-kind :
    (i : ℕ) (k : InputKind) (o : OptionInput)
    → o.kind ≡ k
    → validate_kind_shape i k o ≡ []
    → Shaped o
unfolding validate_kind_shape
Shaped-kind i (known of_date) o e h = inl e
Shaped-kind i (known of_datetime) o e h = inr (inl e)
Shaped-kind i (known of_text) o e h = inr (inr (e, unless_none _ _ h))
Shaped-kind i (other_kind t) o e h = cc

abbrev pub Sound : OptionInput → Type 0
Sound o = Shaped o × (capacity_ok o.capacity ≡ true)

validate_shapes-facts : (i : ℕ) (os : List OptionInput) → validate_shapes i os ≡ [] → All Sound os
unfolding validate_shapes validate_option_shape
validate_shapes-facts i [] h = tt
validate_shapes-facts i (o ∷ os) h =
    let (one, rest) = append_none _ (validate_shapes (i + 1) os) h in
    let (shape, capacity) = append_none _ (unless (capacity_ok o.capacity) _) one in
    (
      (Shaped-kind i o.kind o refl shape, unless_none _ _ capacity),
      validate_shapes-facts (i + 1) os rest,
    )

pub validate_options_field-facts :
    (os : List OptionInput)
    → validate_options_field os ≡ []
    → (1 ≤ length os) × (length os ≤ limit_options) × All Sound os
unfolding validate_options_field
validate_options_field-facts [] h = cc
validate_options_field-facts (o ∷ os) h =
    let (few, rest) = checked _ _ _ h in
    (omega arith, leb→le _ _ few, validate_shapes-facts 0 (o ∷ os) rest)
