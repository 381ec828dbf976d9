-- ===== src/Bookings/Input.antt =====
-- BookInput.Validate of internal/bookings/schemas.go, and what the booking service is built with.
use whenweall.Prelude.{
  ℕ, Bool, true, false, ◌&&◌, not, Option, none, some, List, [], ◌∷◌, ◌++◌, leb, any,
}
use whenweall.Prelude.Text.{Text, codes, is_empty, trim_space, byte_len, text_eq}
use whenweall.Bookings.Availability.{Zone, Interval}
use whenweall.Bookings.Effects.{Google}

-- What the service relies on outside this repository: the zone database, net/mail's address
-- parser (the address without a display name), HMAC-SHA256 of a booking's id, and the calendar.
pub record Env : Type 0 where
  pub load_location : Text → Option Zone
  pub parse_address : Text → Option Text
  pub manage_secret : Text
  pub hmac : Text → ℕ → Text
  pub google : Google

pub record BookInput : Type 0 where
  pub start_at : ℕ
  pub name : Text
  pub email : Text
  pub note : Option Text
  pub locale : Option Text
  pub timezone : Text
  pub busy : List Interval

-- The keys of ValidationError.Fields.
pub data Field : Type 0 where
  in_name in_email in_note in_locale in_timezone : Field

abbrev pub supported_locales : List Text
supported_locales = codes "en" ∷ codes "nb" ∷ []

abbrev pub has_location : Option Zone → Bool
has_location none = false
has_location (some _) = true

unfoldable pub is_valid_timezone : Env → Text → Bool
unfolding byte_len
is_valid_timezone env tz =
    leb 1 (byte_len tz) && leb (byte_len tz) 64 && has_location (env.load_location tz)

abbrev parses_to : Option Text → Text → Bool
parses_to none email = false
parses_to (some address) email = text_eq address email

unfoldable pub is_valid_email : Env → Text → Bool
unfolding byte_len
is_valid_email env email =
    not (is_empty email) && leb (byte_len email) 254 && parses_to (env.parse_address email) email

abbrev note_ok : Option Text → Bool
note_ok none = true
note_ok (some t) = leb (byte_len (trim_space t)) 1000

abbrev locale_ok : Option Text → Bool
locale_ok none = true
locale_ok (some l) = any (text_eq l) supported_locales

abbrev unless : Bool → Field → List Field
unless true f = []
unless false f = f ∷ []

unfoldable pub validate : Env → BookInput → List Field
unfolding is_valid_timezone is_valid_email byte_len trim_space
validate env input =
    let name = trim_space input.name in
    unless (not (is_empty name) && leb (byte_len name) 80) in_name
    ++ unless (is_valid_email env input.email) in_email
    ++ unless (note_ok input.note) in_note
    ++ unless (locale_ok input.locale) in_locale
    ++ unless (is_valid_timezone env input.timezone) in_timezone

abbrev pub is_ok : List Field → Bool
is_ok [] = true
is_ok (_ ∷ _) = false
