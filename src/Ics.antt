-- ===== src/Ics.antt =====
-- internal/ics/ics.go: escaping of text values, line folding, and the calendar's frame.
--
-- Text is its code points; a line's octets are those of its UTF-8 form. The event's own lines are
-- built by the packages that use this one.
pub mod Escape
pub mod Fold
use whenweall.Prelude.{ℕ, ◌+◌, ◌-◌, Bool, List, [], ◌∷◌, ◌++◌, ltb, leb, ◌==◌, map, if◌then◌else◌}
use whenweall.Prelude.Text.{Text, codes, rune_len, byte_len, is_empty}

abbrev pub line_limit : ℕ
line_limit = 75

abbrev pub backslash : ℕ
backslash = 92

abbrev pub line_feed : ℕ
line_feed = 10

abbrev pub carriage_return : ℕ
carriage_return = 13

-- strings.NewReplacer in one pass: what stands for one code point.
abbrev pub escape_rune : ℕ → Text
escape_rune c =
    if c == backslash
    then backslash ∷ backslash ∷ []
    else if c == b';'
    then backslash ∷ b';' ∷ []
    else if c == b','
    then backslash ∷ b',' ∷ []
    else if c == line_feed
    then backslash ∷ b'n' ∷ []
    else c ∷ []

unfoldable pub escape_text : Text → Text
escape_text [] = []
escape_text (c ∷ t) = escape_rune c ++ escape_text t

-- The loop over the runes: `limit` is that of the chunk being filled, which is the first one's
-- until a chunk is full.
unfoldable pub fold_runes : ℕ → Text → ℕ → Text → List Text
unfolding rune_len
fold_runes limit current current_bytes [] = if is_empty current then [] else current ∷ []
fold_runes limit current current_bytes (r ∷ line) =
    let here = fold_runes limit (current ++ r ∷ []) (current_bytes + rune_len r) line in
    let full = current ∷ fold_runes (line_limit - 1) (r ∷ []) (rune_len r) line in
    if ltb limit (current_bytes + rune_len r) then full else here

unfoldable pub join : Text → List Text → Text
join separator [] = []
join separator (t ∷ []) = t
join separator (t ∷ u ∷ ts) = t ++ (separator ++ join separator (u ∷ ts))

abbrev pub crlf : Text
crlf = carriage_return ∷ line_feed ∷ []

abbrev pub continuation : Text
continuation = carriage_return ∷ line_feed ∷ 32 ∷ []

unfoldable pub fold_line : Text → Text
unfolding fold_runes join byte_len
fold_line line =
    if leb (byte_len line) line_limit
    then line
    else join continuation (fold_runes line_limit [] 0 line)

unfoldable pub build_calendar : List Text → Text
unfolding fold_line
build_calendar vevent_lines =
    join crlf (
      map fold_line (
        codes "BEGIN:VCALENDAR"
          ∷ codes "VERSION:2.0"
          ∷ codes "PRODID:-//whenweall//EN"
          ∷ codes "CALSCALE:GREGORIAN"
          ∷ codes "METHOD:PUBLISH"
          ∷ []
        ++ vevent_lines
        ++ codes "END:VCALENDAR" ∷ []))
    ++ crlf
