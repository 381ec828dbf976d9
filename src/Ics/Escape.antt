-- ===== src/Ics/Escape.antt =====
-- Reading back what EscapeText of internal/ics/ics.go writes.
use whenweall.Prelude.{
  ℕ, ◌≡◌, ◌≢◌, refl, inl, inr, Bool, true, false, [], ◌∷◌, arith, ◌==◌, Bool-cases, if◌then◌else◌,
  All,
}
use whenweall.Prelude.Text.{Text}
use whenweall.Ics.{backslash, line_feed, escape_text}

-- A reader of TEXT values, from RFC 5545: a backslash makes `n` a line break, and stands before
-- any other character for that character.
unfoldable pub unescape : Bool → Text → Text
unescape escaped [] = []
unescape true (c ∷ t) = (if c == b'n' then line_feed else c) ∷ unescape false t
unescape false (c ∷ t) =
    let after = unescape true t in
    let plain = c ∷ unescape false t in if c == backslash then after else plain

-- Reading an escaped text gives the text back, and no escaped text has a line break in it: a title
-- cannot add lines to the calendar by a line feed.
pub unescape-escape_text :
    (t : Text)
    → (unescape false (escape_text t) ≡ t) × All (λ (c : ℕ). c ≢ line_feed) (escape_text t)
unfolding unescape escape_text
unescape-escape_text [] = (refl, tt)
unescape-escape_text (c ∷ t) =
    let (back, none_left) = unescape-escape_text t in
    elim (Bool-cases (c == backslash)) [ inl e ↦ ground arith | inr ne ↦ ground arith ]
