-- ===== src/Polls/Roster/Export.antt =====
-- The roster's export in internal/polls/roster.go, read back.
use mathlib.Core.List.{append-nil, append_assoc}
use whenweall.Prelude.{
  ℕ, ◌≡◌, refl, sym, ap, subst, ◌∙◌, inl, inr, false, List, [], ◌∷◌, ◌++◌, map, Bool-cases, All,
  All-append,
}
use whenweall.Prelude.Text.{Text}
use whenweall.Ics.{crlf, join}
use whenweall.Prelude.Outcome.{ok, found-ok, require-ok, ok-injective}
use whenweall.Polls.Store.{
  PollOption, Participant, Vote, Db, get_poll, list_options_by_poll, list_participants_by_poll,
  list_votes_by_poll,
}
use whenweall.Polls.Claims.{is_signup}
use whenweall.Polls.Roster.{
  claim_rows, rows_of, option_rows, by_position, roster_records, build_roster_csv, header,
  is_formula, defused, roster_csv_row, roster_text,
}
use whenweall.Polls.Roster.Reader.{
  at_start, Reader, reader, read, read_csv, IsNonempty, read-roster_csv_row,
}

-- The text of the rows, each with the line break after it.
lines : List (List Text) → Text
lines [] = []
lines (fields ∷ table) = roster_csv_row fields ++ (crlf ++ lines table)

join-lines :
    (fields : List Text) (table : List (List Text))
    → join crlf (map roster_csv_row (fields ∷ table)) ++ crlf ≡ lines (fields ∷ table)
unfolding join lines
join-lines fields [] = refl
join-lines fields (next ∷ table) =
    append_assoc (roster_csv_row fields) _ crlf
    ∙ ap (λ t. roster_csv_row fields ++ (crlf ++ t)) (join-lines next table)

read-lines :
    (table : List (List Text)) (rows : List (List Text))
    → All IsNonempty table
    → (read (reader at_start [] [] rows) (lines table)).rows ≡ rows ++ map (map defused) table
unfolding lines read
read-lines [] rows h = sym (append-nil rows)
read-lines (fields ∷ table) rows (h, hs) =
    ap Reader.rows (read-roster_csv_row fields [] rows (lines table) h)
    ∙ read-lines table (rows ++ map defused fields ∷ []) hs
    ∙ append_assoc rows (map defused fields ∷ []) (map (map defused) table)

defused-safe : (raw : Text) → is_formula (defused raw) ≡ false
defused-safe raw = elim (Bool-cases (is_formula raw)) [
  | inl formula ↦ rw formula refl
  | inr bare ↦ rw bare bare
]

All-defused : (fields : List Text) → All (λ (f : Text). is_formula f ≡ false) (map defused fields)
All-defused [] = tt
All-defused (f ∷ fields) = (defused-safe f, All-defused fields)

-- Text after the byte-order mark.
abbrev pub without_bom : Text → Text
without_bom [] = []
without_bom (_ ∷ t) = t

read_csv-roster_text :
    (row : List Text) (table : List (List Text))
    → All IsNonempty (row ∷ table)
    → read_csv (without_bom (roster_text (row ∷ table))) ≡ map (map defused) (row ∷ table)
unfolding roster_text
read_csv-roster_text row table full =
    ap read_csv (join-lines row table) ∙ read-lines (row ∷ table) [] full

defused_rows :
    (rows : List (List Text))
    → All (All (λ (f : Text). is_formula f ≡ false)) (map (map defused) rows)
defused_rows [] = tt
defused_rows (fields ∷ rows) = (All-defused fields, defused_rows rows)

claim_rows-IsNonempty :
    (label capacity claimed : Text) (participants : List Participant) (pids : List ℕ)
    → All IsNonempty (claim_rows label capacity claimed participants pids)
unfolding claim_rows
claim_rows-IsNonempty label capacity claimed participants [] = tt
claim_rows-IsNonempty label capacity claimed participants (pid ∷ pids) =
    (tt, claim_rows-IsNonempty label capacity claimed participants pids)

rows_of-IsNonempty :
    (label capacity claimed : Text) (participants : List Participant) (pids : List ℕ)
    → All IsNonempty (rows_of label capacity claimed participants pids)
rows_of-IsNonempty label capacity claimed participants [] = (tt, tt)
rows_of-IsNonempty label capacity claimed participants (pid ∷ pids) =
    claim_rows-IsNonempty label capacity claimed participants (pid ∷ pids)

option_rows-IsNonempty :
    (label : PollOption → Text) (participants : List Participant) (votes : List Vote)
    (os : List PollOption)
    → All IsNonempty (option_rows label participants votes os)
unfolding option_rows
option_rows-IsNonempty label participants votes [] = tt
option_rows-IsNonempty label participants votes (o ∷ os) =
    All-append IsNonempty _ _ (rows_of-IsNonempty _ _ _ participants _)
      (option_rows-IsNonempty label participants votes os)

-- If the export returns a text, a reader of CSV gets back from it, after the byte-order mark,
-- exactly the header's and the claims' rows, with each field defused; and no field that it gets
-- begins with a sign that a spreadsheet takes for a formula's.
pub read_csv-build_roster_csv :
    (label : PollOption → Text) (poll_id : ℕ) (db : Db) (t : Text)
    → build_roster_csv label poll_id db ≡ ok t
    → (read_csv (without_bom t) ≡ map (map defused) (roster_records label poll_id db))
      × All (All (λ (f : Text). is_formula f ≡ false)) (read_csv (without_bom t))
unfolding build_roster_csv roster_records
read_csv-build_roster_csv label poll_id db t done =
    let (poll, _, h) = found-ok (get_poll poll_id db) _ _ done in
    let (_, h') = require-ok (is_signup poll.kind) _ _ h in
    let written : roster_text (roster_records label poll_id db) ≡ t = ok-injective h' in
    let rows =
      option_rows label (list_participants_by_poll poll_id db) (list_votes_by_poll poll_id db)
        (by_position (list_options_by_poll poll_id db)) in
    let back : read_csv (without_bom t) ≡ map (map defused) (header ∷ rows) =
      subst (λ u. read_csv (without_bom u) ≡ map (map defused) (header ∷ rows)) written
        (read_csv-roster_text header rows (
          tt,
          option_rows-IsNonempty label (list_participants_by_poll poll_id db)
              (list_votes_by_poll poll_id db) (by_position (list_options_by_poll poll_id db)),
        )) in
    (
      back,
      subst (All (All (λ (f : Text). is_formula f ≡ false))) (sym back)
          (defused_rows (header ∷ rows)),
    )
