-- ===== src/Ics/Fold.antt =====
-- Folded lines of internal/ics/ics.go are short, and unfold to the line.
use mathlib.Core.List.{append-nil, append_assoc}
use whenweall.Prelude.{
  ℕ, ◌+◌, ◌-◌, ◌≤◌, ◌≡◌, refl, sym, ap, ◌∙◌, subst, inl, inr, Bool, false, List, [], ◌∷◌, ◌++◌,
  arith, ltb, leb, leb→le, any, ◌&&◌, ◌==◌, Bool-cases, if◌then◌else◌, All,
}
use whenweall.Prelude.Text.{Text, rune_len, byte_len}
use whenweall.Ics.{
  line_limit, line_feed, carriage_return, continuation, fold_runes, join, fold_line,
}

abbrev pub concat : List Text → Text
concat [] = []
concat (t ∷ ts) = t ++ concat ts

byte_len-append : (s t : Text) → byte_len (s ++ t) ≡ byte_len s + byte_len t
unfolding byte_len
byte_len-append [] t = omega arith
byte_len-append (c ∷ s) t = omega (arith, byte_len-append s t)

concat-fold_runes :
    (limit : ℕ) (current : Text) (bytes : ℕ) (line : Text)
    → concat (fold_runes limit current bytes line) ≡ current ++ line
unfolding fold_runes
concat-fold_runes limit [] bytes [] = refl
concat-fold_runes limit (c ∷ current) bytes [] = refl
concat-fold_runes limit current bytes (r ∷ line) =
    elim (Bool-cases (ltb limit (bytes + rune_len r))) [
      | inl full ↦
          rw full
            (ap (λ t. current ++ t) (concat-fold_runes (line_limit - 1) (r ∷ []) (rune_len r) line))
      | inr here ↦ rw here (
          concat-fold_runes limit (current ++ r ∷ []) (bytes + rune_len r) line
          ∙ append_assoc current (r ∷ []) line)
    ]

abbrev pub IsShort : Text → Type 0
IsShort u = byte_len u + 1 ≤ line_limit

-- Every chunk but the first is short enough to stand after the space of a continuation.
abbrev pub IsFolded : List Text → Type 0
IsFolded [] = Unit
IsFolded (t ∷ ts) = (byte_len t ≤ line_limit) × All IsShort ts

byte_len_step :
    (current : Text) (r bytes : ℕ)
    → bytes ≡ byte_len current
    → bytes + rune_len r ≡ byte_len (current ++ r ∷ [])
unfolding byte_len
byte_len_step current r bytes e = omega (arith, byte_len-append current (r ∷ []))

byte_len_one : (r : ℕ) → rune_len r ≡ byte_len (r ∷ [])
unfolding byte_len
byte_len_one r = ground arith

rune_len_le : (r : ℕ) → rune_len r ≤ 4
unfolding rune_len
rune_len_le r = ground arith

fold_runes-IsShort :
    (current : Text) (bytes : ℕ) (line : Text)
    → bytes ≡ byte_len current
    → bytes + 1 ≤ line_limit
    → All IsShort (fold_runes (line_limit - 1) current bytes line)
unfolding fold_runes
fold_runes-IsShort [] bytes [] e h = tt
fold_runes-IsShort (c ∷ current) bytes [] e h = (omega arith, tt)
fold_runes-IsShort current bytes (r ∷ line) e h =
    elim (Bool-cases (ltb (line_limit - 1) (bytes + rune_len r))) [
      | inl full ↦ rw full (
        omega arith,
        fold_runes-IsShort (r ∷ []) (rune_len r) line (byte_len_one r)
            (omega (arith, rune_len_le r)),
      )
      | inr here ↦ rw here (
          fold_runes-IsShort (current ++ r ∷ []) (bytes + rune_len r) line
            (byte_len_step current r bytes e) (ground arith))
    ]

fold_runes-IsFolded :
    (current : Text) (bytes : ℕ) (line : Text)
    → bytes ≡ byte_len current
    → bytes ≤ line_limit
    → IsFolded (fold_runes line_limit current bytes line)
unfolding fold_runes
fold_runes-IsFolded [] bytes [] e h = tt
fold_runes-IsFolded (c ∷ current) bytes [] e h = (omega arith, tt)
fold_runes-IsFolded current bytes (r ∷ line) e h =
    elim (Bool-cases (ltb line_limit (bytes + rune_len r))) [
      | inl full ↦ rw full (
        omega arith,
        fold_runes-IsShort (r ∷ []) (rune_len r) line (byte_len_one r)
            (omega (arith, rune_len_le r)),
      )
      | inr here ↦ rw here (
          fold_runes-IsFolded (current ++ r ∷ []) (bytes + rune_len r) line
            (byte_len_step current r bytes e) (ground arith))
    ]

no_bytes : ◌≡◌ {A = ℕ} 0 (byte_len [])
unfolding byte_len
no_bytes = refl

-- A reader's unfolding: a line break with a space after it is taken out.
unfoldable pub unfold_text : Text → Text
unfold_text [] = []
unfold_text (a ∷ []) = a ∷ []
unfold_text (a ∷ b ∷ []) = a ∷ b ∷ []
unfold_text (a ∷ b ∷ c ∷ t) =
    let joined = unfold_text t in
    let kept = a ∷ unfold_text (b ∷ c ∷ t) in
    if a == carriage_return && b == line_feed && c == 32 then joined else kept

abbrev pub has_return : Text → Bool
has_return t = any (λ c. c == carriage_return) t

unfold_text-cons :
    (a : ℕ) (t : Text) → (a == carriage_return) ≡ false → unfold_text (a ∷ t) ≡ a ∷ unfold_text t
unfolding unfold_text
unfold_text-cons a [] h = refl
unfold_text-cons a (b ∷ []) h = refl
unfold_text-cons a (b ∷ c ∷ t) h = rw h refl

unfold_text-append : (s t : Text) → has_return s ≡ false → unfold_text (s ++ t) ≡ s ++ unfold_text t
unfold_text-append [] t h = refl
unfold_text-append (a ∷ s) t h =
    unfold_text-cons a (s ++ t) (ground arith)
    ∙ ap (λ u. a ∷ u) (unfold_text-append s t (ground arith))

unfold_text-plain : (s : Text) → has_return s ≡ false → unfold_text s ≡ s
unfolding unfold_text
unfold_text-plain s h =
    ap unfold_text (sym (append-nil s)) ∙ unfold_text-append s [] h ∙ append-nil s

has_return-append :
    (s t : Text) → has_return (s ++ t) ≡ false → (has_return s ≡ false) × (has_return t ≡ false)
has_return-append [] t h = (refl, h)
has_return-append (a ∷ s) t h =
    let (left, right) = has_return-append s t (ground arith) in (ground arith, right)

unfold_text-join :
    (ts : List Text)
    → has_return (concat ts) ≡ false
    → unfold_text (join continuation ts) ≡ concat ts
unfolding join unfold_text
unfold_text-join [] h = refl
unfold_text-join (t ∷ []) h =
    let plain = (has_return-append t [] h).0 in unfold_text-plain t plain ∙ sym (append-nil t)
unfold_text-join (t ∷ u ∷ ts) h =
    let (plain, rest) = has_return-append t (u ++ concat ts) h in
    unfold_text-append t (continuation ++ join continuation (u ∷ ts)) plain
    ∙ ap (λ x. t ++ x) (unfold_text-join (u ∷ ts) rest)

-- Folding cuts a line between characters into chunks that make up the line again: the first is at
-- most 75 octets long, and each other one is too with the space that stands before it.
pub fold_line-IsFolded :
    (line : Text)
    → (chunks : List Text) × (fold_line line ≡ join continuation chunks)
      × (concat chunks ≡ line)
      × IsFolded chunks
unfolding fold_line join
fold_line-IsFolded line = elim (Bool-cases (leb (byte_len line) line_limit)) [
  | inl short ↦ (line ∷ [], rw short refl, append-nil line, (leb→le _ _ short, tt))
  | inr long ↦ (
    fold_runes line_limit [] 0 line,
    rw long refl,
    concat-fold_runes line_limit [] 0 line,
    fold_runes-IsFolded [] 0 line no_bytes (omega arith),
  )
]

-- A reader that takes out each line break with a space after it gets a folded line back, if the
-- line has no carriage return of its own.
pub unfold_text-fold_line :
    (line : Text) → has_return line ≡ false → unfold_text (fold_line line) ≡ line
unfold_text-fold_line line plain =
    let (chunks, folded, whole, _) = fold_line-IsFolded line in
    ap unfold_text folded
    ∙ unfold_text-join chunks (subst (λ t. has_return t ≡ false) (sym whole) plain)
    ∙ whole
