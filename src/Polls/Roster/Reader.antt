-- ===== src/Polls/Roster/Reader.antt =====
-- Reading the CSV of internal/polls/roster.go back, by the rules of RFC 4180.
use mathlib.Core.List.{append-nil, append_assoc}
use whenweall.Prelude.{
  ℕ, ◌≡◌, refl, sym, ap, ◌∙◌, inl, inr, Bool, true, false, List, [], ◌∷◌, ◌++◌, map, arith, ◌==◌,
  if◌then◌else◌, Bool-cases,
}
use whenweall.Prelude.Text.{Text}
use whenweall.Ics.{crlf, join, carriage_return}
use whenweall.Polls.Roster.{quote_needed, double_quotes, defused, roster_csv_field, roster_csv_row}

pub data Mode : Type 0 where
  at_start plain quoted closing at_break : Mode

-- The field being read, the fields of its row before it, and the rows before that.
pub record Reader : Type 0 where
  pub mode : Mode
  pub field : Text
  pub row : List Text
  pub rows : List (List Text)

abbrev pub reader : Mode → Text → List Text → List (List Text) → Reader
reader mode field row rows = record { mode = mode; field = field; row = row; rows = rows }

abbrev end_field : Mode → Reader → Reader
end_field mode s = reader mode [] (s.row ++ s.field ∷ []) s.rows

abbrev delimited : ℕ → Reader → Reader
delimited c s =
    if c == b','
    then end_field at_start s
    else if c == carriage_return
    then end_field at_break s
    else reader plain (s.field ++ c ∷ []) s.row s.rows

abbrev step_in : Mode → ℕ → Reader → Reader
step_in at_start c s = if c == b'"' then record s { mode = quoted } else delimited c s
step_in plain c s = delimited c s
step_in quoted c s =
    if c == b'"' then record s { mode = closing } else record s { field = s.field ++ c ∷ [] }
step_in closing c s =
    if c == b'"' then record s { mode = quoted; field = s.field ++ c ∷ [] } else delimited c s
step_in at_break c s = reader at_start [] [] (s.rows ++ s.row ∷ [])

unfoldable pub read : Reader → Text → Reader
read s [] = s
read s (c ∷ t) = read (step_in s.mode c s) t

abbrev pub read_csv : Text → List (List Text)
read_csv t = (read (reader at_start [] [] []) t).rows

read-append : (s : Reader) (t u : Text) → read s (t ++ u) ≡ read (read s t) u
unfolding read
read-append s [] u = refl
read-append s (c ∷ t) u = read-append (step_in s.mode c s) t u

-- A mode in which a comma or a line break ends the field.
abbrev can_end : Mode → Bool
can_end at_start = true
can_end plain = true
can_end quoted = false
can_end closing = true
can_end at_break = false

double_quotes-cons :
    (c : ℕ) (v : Text) → (c == b'"') ≡ false → double_quotes (c ∷ v) ≡ c ∷ double_quotes v
unfolding double_quotes
double_quotes-cons c v other = rw other refl

module _ (row : List Text) (rows : List (List Text)) where
  read-plain :
      (current v : Text)
      → quote_needed v ≡ false
      → read (reader plain current row rows) v ≡ reader plain (current ++ v) row rows
  unfolding read
  read-plain current [] h = ap (λ f. reader plain f row rows) (sym (append-nil current))
  read-plain current (c ∷ v) h =
      let comma : (c == b',') ≡ false = ground arith in
      let return : (c == carriage_return) ≡ false = ground arith in
      rw (comma, return)
        (read-plain (current ++ c ∷ []) v (ground arith)
          ∙ ap (λ f. reader plain f row rows) (append_assoc current (c ∷ []) v))

  read-char :
      (current : Text) (c : ℕ) (t : Text)
      → (c == b'"') ≡ false
      → read (reader quoted current row rows) (c ∷ t)
        ≡ read (reader quoted (current ++ c ∷ []) row rows) t
  unfolding read
  read-char current c t other = rw other refl

  read-quoted :
      (current v : Text)
      → read (reader quoted current row rows) (double_quotes v ++ b'"' ∷ [])
        ≡ reader closing (current ++ v) row rows
  unfolding read double_quotes
  read-quoted current [] = ap (λ f. reader closing f row rows) (sym (append-nil current))
  read-quoted current (c ∷ v) =
      let rest =
        read-quoted (current ++ c ∷ []) v
        ∙ ap (λ f. reader closing f row rows) (append_assoc current (c ∷ []) v) in
      elim (Bool-cases (c == b'"')) [
        | inl quote ↦ ground (arith, rest)
        | inr other ↦
            ap (λ t. read (reader quoted current row rows) (t ++ b'"' ∷ []))
              (double_quotes-cons c v other)
            ∙ read-char current c (double_quotes v ++ b'"' ∷ []) other
            ∙ rest
      ]

  -- What a field's text reads as: the defused field, whether it is quoted or not.
  read-roster_csv_field :
      (raw : Text)
      → (m : Mode) × (can_end m ≡ true)
        × (read (reader at_start [] row rows) (roster_csv_field raw)
            ≡ reader m (defused raw) row rows)
  unfolding roster_csv_field read
  read-roster_csv_field raw = elim (Bool-cases (quote_needed (defused raw))) [
    | inl quotes ↦ (closing, refl, rw quotes (read-quoted [] (defused raw)))
    | inr bare ↦ let (m, ends, same) = started (defused raw) bare in (m, ends, rw bare same)
  ]
    where
      started :
          (v : Text)
          → quote_needed v ≡ false
          → (m : Mode) × (can_end m ≡ true)
            × (read (reader at_start [] row rows) v ≡ reader m v row rows)
      started [] h = (at_start, refl, refl)
      started (c ∷ v) h =
          let quote : (c == b'"') ≡ false = ground arith in
          let comma : (c == b',') ≡ false = ground arith in
          let return : (c == carriage_return) ≡ false = ground arith in
          (plain, refl, rw (quote, comma, return) (read-plain (c ∷ []) v (ground arith)))

-- A comma after a field, and a line break.
read-comma :
    (m : Mode) (v : Text) (row : List Text) (rows : List (List Text)) (t : Text)
    → can_end m ≡ true
    → read (reader m v row rows) (b',' ∷ t) ≡ read (reader at_start [] (row ++ v ∷ []) rows) t
unfolding read
read-comma at_start v row rows t h = refl
read-comma plain v row rows t h = refl
read-comma closing v row rows t h = refl
read-comma quoted v row rows t h = cc
read-comma at_break v row rows t h = cc

read-crlf :
    (m : Mode) (v : Text) (row : List Text) (rows : List (List Text)) (t : Text)
    → can_end m ≡ true
    → read (reader m v row rows) (crlf ++ t)
      ≡ read (reader at_start [] [] (rows ++ (row ++ v ∷ []) ∷ [])) t
unfolding read
read-crlf at_start v row rows t h = refl
read-crlf plain v row rows t h = refl
read-crlf closing v row rows t h = refl
read-crlf quoted v row rows t h = cc
read-crlf at_break v row rows t h = cc

abbrev pub IsNonempty : {A : Type 0} → List A → Type 0
IsNonempty [] = ⊥
IsNonempty (_ ∷ _) = Unit

pub read-roster_csv_row :
    (fields : List Text) (row : List Text) (rows : List (List Text)) (t : Text)
    → IsNonempty fields
    → read (reader at_start [] row rows) (roster_csv_row fields ++ (crlf ++ t))
      ≡ read (reader at_start [] [] (rows ++ (row ++ map defused fields) ∷ [])) t
unfolding roster_csv_row join
read-roster_csv_row [] row rows t h = absurd h
read-roster_csv_row (f ∷ []) row rows t h =
    let (m, ends, same) = read-roster_csv_field row rows f in
    read-append _ (roster_csv_field f) (crlf ++ t)
    ∙ ap (λ s. read s (crlf ++ t)) same
    ∙ read-crlf m (defused f) row rows t ends
read-roster_csv_row (f ∷ g ∷ fields) row rows t h =
    let (m, ends, same) = read-roster_csv_field row rows f in
    let rest = roster_csv_row (g ∷ fields) ++ (crlf ++ t) in
    ap (read (reader at_start [] row rows))
      (append_assoc (roster_csv_field f) (b',' ∷ roster_csv_row (g ∷ fields)) (crlf ++ t))
    ∙ read-append _ (roster_csv_field f) (b',' ∷ rest)
    ∙ ap (λ s. read s (b',' ∷ rest)) same
    ∙ read-comma m (defused f) row rows rest ends
    ∙ read-roster_csv_row (g ∷ fields) (row ++ defused f ∷ []) rows t tt
    ∙ ap (λ r. read (reader at_start [] [] (rows ++ r ∷ [])) t)
        (append_assoc row (defused f ∷ []) (map defused (g ∷ fields)))
