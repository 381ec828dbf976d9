-- ===== src/Polls/Schemas/Valid.antt =====
-- What the input that internal/polls/schemas.go validates for a new poll is.
use whenweall.Prelude.{
  ℕ, ◌≤◌, ◌≡◌, ◌≢◌, ◌∙◌, refl, sym, ap, subst, inl, inr, true, Option, none, some, List, [], ◌∷◌,
  map, ltb→lt, leb→le, All,
}
use whenweall.Prelude.Text.{Text, byte_len, trim_space}
use whenweall.Polls.Store.{
  PollType, datetime, options, signup, OptionKind, of_date, of_datetime, of_text,
}
use whenweall.Polls.Schemas.{
  known, bounded, CreatePollInput, OptionInput, optional, within, capacity_ok, limit_title,
  limit_description, limit_location, limit_option_label, is_iso_date_time, in_type, in_option,
  whole, in_end, in_capacity, in_title, in_description, in_location, in_timezone, in_deadline,
  in_signup_max_claims, validate_options_field,
}
use whenweall.Polls.Schemas.Refine.{
  typed, type_input, kind_fits, kind_eq, capacity_fits, or_blank, ends_after, key_of, refine_from,
  refine_poll_options,
}
use whenweall.Polls.Schemas.Facts.{
  append_none, unless_none, checked, in_range, IsDistinct, Refined, key, refine_from-facts,
  refine_from-kinds, Shaped, Sound, validate_options_field-facts,
}
use whenweall.Polls.Schemas.Validate.{at_most_bytes, is_known, allows_limit, validate_create}
use whenweall.Polls.Schemas.Spec.{
  Suits, end_text, IsUniform, IsSame, same_date, same_span, same_label, IsVaried, IsOptionOf,
  IsPoll,
}

module _ (parse_iso : Text → Option ℕ) (to_lower : Text → Text) where
  same_key :
      (o p : OptionInput)
      → IsSame parse_iso to_lower o p
      → key parse_iso to_lower o ≡ key parse_iso to_lower p
  unfolding key_of
  same_key o p (same_date ko kp e) = rw (ko, kp, e) refl
  same_key o p (same_span ko kp e f) = rw (ko, kp, e, ends o.end_at p.end_at f) refl
    where
      ends : (a b : Option Text) → end_text a ≡ end_text b → or_blank a ≡ or_blank b
      ends none none f = f
      ends none (some t) f = f
      ends (some s) none f = f
      ends (some s) (some t) f = f
  same_key o p (same_label ko kp e) = rw (ko, kp, e) refl

  distinct-IsVaried :
      (os : List OptionInput)
      → IsDistinct (map (key parse_iso to_lower) os)
      → IsVaried parse_iso to_lower os
  distinct-IsVaried [] h = tt
  distinct-IsVaried (o ∷ os) (first, rest) = (unlike os first, distinct-IsVaried os rest)
    where
      unlike :
          (ps : List OptionInput)
          → All (λ j. key parse_iso to_lower o ≢ j) (map (key parse_iso to_lower) ps)
          → All (λ (p : OptionInput). ¬ IsSame parse_iso to_lower o p) ps
      unlike [] f = tt
      unlike (p ∷ ps) (f, fs) = ((λ same. f (same_key o p same)), unlike ps fs)

  fits-Suits :
      (k : PollType) (o : OptionInput)
      → kind_fits (typed k) o.kind ≡ true
      → Shaped o
      → Suits k o.kind
  fits-Suits datetime o fits (inl e) = inl e
  fits-Suits datetime o fits (inr (inl e)) = inr e
  fits-Suits datetime o fits (inr (inr (e, _))) = cc (rw e at fits)
  fits-Suits options o fits (inl e) = cc (rw e at fits)
  fits-Suits options o fits (inr (inl e)) = cc (rw e at fits)
  fits-Suits options o fits (inr (inr (e, _))) = e
  fits-Suits signup o fits (inl e) = (of_date, e)
  fits-Suits signup o fits (inr (inl e)) = (of_datetime, e)
  fits-Suits signup o fits (inr (inr (e, _))) = (of_text, e)

  Shaped-label :
      (o : OptionInput)
      → Shaped o
      → o.kind ≡ known of_text
      → (1 ≤ byte_len (trim_space o.label)) × (byte_len (trim_space o.label) ≤ 100)
  Shaped-label o (inl e) t = cc
  Shaped-label o (inr (inl e)) t = cc
  Shaped-label o (inr (inr (_, within_limit))) t = in_range 1 limit_option_label _ within_limit

  option_of :
      (k : PollType) (o : OptionInput)
      → Refined parse_iso to_lower (typed k) o
      → Sound o
      → IsOptionOf parse_iso to_lower k o
  unfolding ends_after
  option_of k o (kind, fits, ends) (shape, bounds) = record {
    kind = fits-Suits k o kind shape;
    label = Shaped-label o shape;
    capacity = λ c e.
        in_bounds k c (subst (λ x. capacity_fits (typed k) x ≡ true) e fits)
          (subst (λ x. capacity_ok x ≡ true) e bounds);
    ends = λ t s e at has_end full starts stops.
        let at_time : ends_after parse_iso to_lower (known of_datetime) o ≡ true =
          subst (λ x. ends_after parse_iso to_lower x o ≡ true) at ends in
        ltb→lt _ _ (rw (has_end, full, stops, starts) at at_time);
  }
    where
      in_bounds :
          (k : PollType) (c : ℕ)
          → capacity_fits (typed k) (bounded c) ≡ true
          → capacity_ok (bounded c) ≡ true
          → (k ≡ signup) × (1 ≤ c) × (c ≤ 10000)
      in_bounds signup c f b = let (low, high) = in_range 1 10000 c b in (refl, low, high)
      in_bounds datetime c f b = cc
      in_bounds options c f b = cc

  options_fit :
      (k : PollType) (os : List OptionInput)
      → All (Refined parse_iso to_lower (typed k)) os
      → All Sound os
      → All (IsOptionOf parse_iso to_lower k) os
  options_fit k [] r b = tt
  options_fit k (o ∷ os) (r, rs) (b, bs) = (option_of k o r b, options_fit k os rs bs)

  equal_kinds : (a b : OptionKind) → kind_eq (known a) (known b) ≡ true → a ≡ b
  equal_kinds of_date of_date e = refl
  equal_kinds of_datetime of_datetime e = refl
  equal_kinds of_text of_text e = refl
  equal_kinds of_date of_datetime e = cc
  equal_kinds of_date of_text e = cc
  equal_kinds of_datetime of_date e = cc
  equal_kinds of_datetime of_text e = cc
  equal_kinds of_text of_date e = cc
  equal_kinds of_text of_datetime e = cc

  kinds-equal :
      (o : OptionInput) (ps : List OptionInput)
      → Suits signup o.kind
      → All (IsOptionOf parse_iso to_lower signup) ps
      → All (λ (p : OptionInput). kind_eq p.kind o.kind ≡ true) ps
      → All (λ (p : OptionInput). p.kind ≡ o.kind) ps
  kinds-equal o [] k fits h = tt
  kinds-equal o (p ∷ ps) (k, known_k) (fit, fits) (h, hs) =
      let (j, known_j) = fit.kind in
      let same : kind_eq (known j) (known k) ≡ true = rw (known_j, known_k) at h in
      (
        known_j ∙ ap known (equal_kinds j k same) ∙ sym known_k,
        kinds-equal o ps (k, known_k) fits hs,
      )

  sheet-IsUniform :
      (os : List OptionInput)
      → refine_from parse_iso to_lower (typed signup) 0 none [] os ≡ []
      → All (IsOptionOf parse_iso to_lower signup) os
      → IsUniform os
  unfolding refine_from
  sheet-IsUniform [] h fits = tt
  sheet-IsUniform (o ∷ os) h (fit, fits) =
      let (_, h1) = checked (kind_fits (typed signup) o.kind) (in_option 0 whole) _ h in
      let (_, h2) = checked true (in_option 0 whole) _ h1 in
      let (_, h3) =
        checked (capacity_fits (typed signup) o.capacity) (in_option 0 in_capacity) _ h2 in
      let (_, h4) = checked (ends_after parse_iso to_lower o.kind o) (in_option 0 in_end) _ h3 in
      let (_, h5) =
        checked true (in_option 0 whole)
          (refine_from parse_iso to_lower (typed signup) 1 (some o.kind)
            (key parse_iso to_lower o ∷ []) os)
          h4 in
      kinds-equal o os fit.kind fits
        (refine_from-kinds parse_iso to_lower 1 o.kind (key parse_iso to_lower o ∷ []) os h5)

  at_most :
      (n : ℕ) (o : Option Text)
      → optional (at_most_bytes n) o ≡ true
      → (t : Text) → o ≡ some t
      → byte_len (trim_space t) ≤ n
  at_most n o h t e = leb→le _ n (subst (λ x. optional (at_most_bytes n) x ≡ true) e h)

  -- Input that Validate accepts for a new poll has a type, a title of 1 to 200 bytes, a description
  -- of at most 2000 and a location of at most 200, all without the space around them, a timezone of
  -- 1 to 64 bytes, and 1 to 100 options. A datetime poll has dates and spans, an options poll texts,
  -- and a sign-up sheet options of one kind; a text has a label of 1 to 100 bytes, without the space
  -- around it. No two options are dates written alike, spans whose starts and ends are written
  -- alike, or texts whose labels have the same lower case without the space around them. Only a
  -- sign-up sheet's option has a capacity as a number, from 1 to 10000. A span whose start and end
  -- both parse ends after it starts. Only a sign-up sheet has a claim limit, from 1 to 100.
  pub validate_create-IsPoll :
      (input : CreatePollInput)
      → validate_create parse_iso to_lower input ≡ []
      → IsPoll parse_iso to_lower input
  unfolding validate_create refine_poll_options
  validate_create-IsPoll input h =
      let (has_kind, h1) = checked _ in_type _ h in
      let (title, h2) = checked _ in_title _ h1 in
      let (description, h3) =
        checked (optional (at_most_bytes limit_description) input.description) in_description _
          h2 in
      let (location, h4) =
        checked (optional (at_most_bytes limit_location) input.location) in_location _ h3 in
      let (timezone, h5) = checked (within 1 64 (byte_len input.timezone)) in_timezone _ h4 in
      let (_, h6) = checked (optional is_iso_date_time input.deadline_at) in_deadline _ h5 in
      let (shapes, h7) = append_none (validate_options_field input.options) _ h6 in
      let (refined, h8) =
        append_none (refine_poll_options parse_iso to_lower (type_input input.kind) input.options) _
          h7 in
      let (limit, h9) = checked _ in_signup_max_claims _ h8 in
      let allowed = unless_none _ in_signup_max_claims h9 in
      let (some_options, few, sound) = validate_options_field-facts input.options shapes in
      let (k, at) = known_kind input.kind has_kind in
      let refined' : refine_from parse_iso to_lower (typed k) 0 none [] input.options ≡ [] =
        subst (λ x. refine_from parse_iso to_lower (type_input x) 0 none [] input.options ≡ []) at
          refined in
      let (fits, _, distinct) =
        refine_from-facts parse_iso to_lower (typed k) 0 none [] input.options refined' in
      let fitting = options_fit k input.options fits sound in
      record {
        kind = k;
        has_kind = at;
        titled = in_range 1 limit_title _ title;
        described = at_most limit_description input.description description;
        located = at_most limit_location input.location location;
        zoned = in_range 1 64 _ timezone;
        some_options = some_options;
        few_options = few;
        varied = distinct-IsVaried input.options distinct;
        uniform = λ sheet.
            sheet-IsUniform input.options
              (subst (λ x. refine_from parse_iso to_lower (typed x) 0 none [] input.options ≡ [])
                sheet refined')
              (subst (λ x. All (IsOptionOf parse_iso to_lower x) input.options) sheet fitting);
        fitting = fitting;
        limited = λ n e. in_limit k n (subst (λ x. optional (within 1 100) x ≡ true) e limit) (
            subst (λ x. optional (λ _. allows_limit (some k)) x ≡ true) e
              (subst (λ x. optional (λ _. allows_limit x) input.signup_max_claims ≡ true) at
                allowed));
      }
    where
      known_kind : (o : Option PollType) → is_known o ≡ true → (k : PollType) × (o ≡ some k)
      known_kind none e = cc
      known_kind (some k) e = (k, refl)

      in_limit :
          (k : PollType) (n : ℕ)
          → within 1 100 n ≡ true
          → allows_limit (some k) ≡ true
          → (k ≡ signup) × (1 ≤ n) × (n ≤ 100)
      in_limit signup n w e = let (low, high) = in_range 1 100 n w in (refl, low, high)
      in_limit datetime n w e = cc
      in_limit options n w e = cc
