-- ===== src/Polls/Schemas/Validate.antt =====
-- CreatePollInput.Validate and UpdatePollInput.Validate of internal/polls/schemas.go.
use whenweall.Prelude.{ℕ, Bool, true, false, Option, none, some, List, [], ◌++◌, leb}
use whenweall.Prelude.Text.{Text, trim_space, byte_len}
use whenweall.Polls.Store.{PollType, datetime, options, signup}
use whenweall.Polls.Schemas.{
  CreatePollInput, UpdatePollInput, DeadlineInput, unchanged, cleared, set_to, OptionInput, Field,
  in_type, in_title, in_description, in_location, in_timezone, in_deadline, in_signup_max_claims,
  unless, optional, title_ok, within, limit_description, limit_location, is_iso_date_time,
  validate_options_field,
}
use whenweall.Polls.Schemas.Refine.{untyped, type_input, refine_poll_options}

abbrev pub is_known : Option PollType → Bool
is_known none = false
is_known (some _) = true

abbrev pub allows_limit : Option PollType → Bool
allows_limit (some signup) = true
allows_limit (some datetime) = false
allows_limit (some options) = false
allows_limit none = false

abbrev pub at_most_bytes : ℕ → Text → Bool
at_most_bytes n t = leb (byte_len (trim_space t)) n

abbrev pub deadline_ok : DeadlineInput → Bool
deadline_ok unchanged = true
deadline_ok cleared = true
deadline_ok (set_to t) = is_iso_date_time t

module _ (parse_iso : Text → Option ℕ) (to_lower : Text → Text) where
  unfoldable pub validate_create : CreatePollInput → List Field
  unfolding validate_options_field refine_poll_options
  validate_create input =
      unless (is_known input.kind) in_type
      ++ (unless (title_ok input.title) in_title
          ++ (unless (optional (at_most_bytes limit_description) input.description) in_description
              ++ (unless (optional (at_most_bytes limit_location) input.location) in_location
                  ++ (unless (within 1 64 (byte_len input.timezone)) in_timezone
                      ++ (unless (optional is_iso_date_time input.deadline_at) in_deadline
                          ++ (validate_options_field input.options
                              ++ (refine_poll_options parse_iso to_lower (type_input input.kind)
                                    input.options
                                  ++ (unless (optional (within 1 100) input.signup_max_claims)
                                        in_signup_max_claims
                                      ++ unless
                                          (optional (λ _. allows_limit input.kind)
                                            input.signup_max_claims)
                                          in_signup_max_claims))))))))

  abbrev validate_replacement : Option (List OptionInput) → List Field
  validate_replacement none = []
  validate_replacement (some os) =
      validate_options_field os ++ refine_poll_options parse_iso to_lower untyped os

  unfoldable pub validate_update : UpdatePollInput → List Field
  validate_update input =
      unless (optional title_ok input.title) in_title
      ++ (unless (optional (at_most_bytes limit_description) input.description) in_description
          ++ (unless (optional (at_most_bytes limit_location) input.location) in_location
              ++ (unless (optional (λ t. within 1 64 (byte_len t)) input.timezone) in_timezone
                  ++ (unless (deadline_ok input.deadline_at) in_deadline
                      ++ (unless (optional (within 1 100) input.signup_max_claims)
                            in_signup_max_claims
                          ++ validate_replacement input.options)))))
