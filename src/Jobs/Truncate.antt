-- ===== src/Jobs/Truncate.antt =====
-- truncateLastError of internal/jobs/jobs.go, on the bytes of a text.
use whenweall.Prelude.{
  ℕ, zero, suc, ◌≤◌, ◌<◌, ◌≡◌, ◌≢◌, ◌⊎◌, inl, inr, refl, sym, subst, arith, Bool, true, false, ◌&&◌,
  not, List, [], ◌∷◌, ltb, leb, leb→le, Bool-cases, if◌then◌else◌, length, take,
}

abbrev pub max_last_error_len : ℕ
max_last_error_len = 2000

-- utf8.RuneStart: not a continuation byte 10xxxxxx.
abbrev pub rune_start : ℕ → Bool
rune_start b = not (leb 0x80 b && ltb b 0xC0)

-- s[i], which is in range wherever the loop reads it.
abbrev pub byte_at : List ℕ → ℕ → ℕ
byte_at [] i = 0
byte_at (b ∷ bs) zero = b
byte_at (b ∷ bs) (suc i) = byte_at bs i

-- `for cut > 0 && !utf8.RuneStart(s[cut]) { cut-- }`
unfoldable pub back_up : List ℕ → ℕ → ℕ
back_up s zero = zero
back_up s (suc cut) =
    let rest = back_up s cut in if rune_start (byte_at s (suc cut)) then suc cut else rest

unfoldable pub truncate_last_error : List ℕ → List ℕ
unfolding back_up
truncate_last_error s =
    if leb (length s) max_last_error_len then s else take (back_up s max_last_error_len) s

-- The byte before which a text may be cut: its start, or a byte that begins a character.
abbrev pub IsCut : List ℕ → ℕ → Type 0
IsCut s c = (c ≡ 0) ⊎ (rune_start (byte_at s c) ≡ true)

back_up-IsCut : (s : List ℕ) (cut : ℕ) → IsCut s (back_up s cut)
unfolding back_up
back_up-IsCut s zero = inl refl
back_up-IsCut s (suc cut) = elim (Bool-cases (rune_start (byte_at s (suc cut)))) [
  | inl t ↦ rw t (inr t)
  | inr f ↦ rw f (back_up-IsCut s cut)
]

back_up_le : (s : List ℕ) (cut : ℕ) → back_up s cut ≤ cut
unfolding back_up
back_up_le s zero = omega arith
back_up_le s (suc cut) = ground (arith, back_up_le s cut)

back_up_last :
    (s : List ℕ) (cut i : ℕ) → back_up s cut < i → i ≤ cut → rune_start (byte_at s i) ≡ false
unfolding back_up
back_up_last s zero i lo hi = absurd (omega arith)
back_up_last s (suc cut) i lo hi = elim (Bool-cases (rune_start (byte_at s (suc cut)))) [
  | inl t ↦ absurd (ground arith)
  | inr f ↦ elim (decide_eq i cut) [
    | inl e ↦ subst (λ k. rune_start (byte_at s k) ≡ false) (sym e) f
    | inr ne ↦ back_up_last s cut i (ground arith) (omega arith)
  ]
]
  where
    decide_eq : (i c : ℕ) → (i ≡ suc c) ⊎ (i ≢ suc c)
    decide_eq i c = ground arith

length-take_le : (n : ℕ) (s : List ℕ) → length (take n s) ≤ n
length-take_le zero s = omega arith
length-take_le (suc n) [] = omega arith
length-take_le (suc n) (b ∷ s) = omega (arith, length-take_le n s)

-- The text kept is at most 2000 bytes. It is the whole text if that fits; if not, it is cut where
-- no character is split, and at the last such place: no byte after it up to the 2000th starts one.
pub truncate_last_error-IsCut :
    (s : List ℕ)
    → (length (truncate_last_error s) ≤ max_last_error_len)
      × ((length s ≤ max_last_error_len → truncate_last_error s ≡ s)
          × (max_last_error_len < length s
              → (c : ℕ) × (truncate_last_error s ≡ take c s)
                × IsCut s c
                × (c ≤ max_last_error_len)
                × ((i : ℕ) → c < i → i ≤ max_last_error_len → rune_start (byte_at s i) ≡ false)))
unfolding truncate_last_error
truncate_last_error-IsCut s = elim (Bool-cases (leb (length s) max_last_error_len)) [
  | inl t ↦ rw t (leb→le _ _ t, ((λ _. refl), (λ lt. absurd (ground arith))))
  | inr f ↦ rw f (
    omega (arith, length-take_le (back_up s 2000) s, back_up_le s 2000),
    (
      (λ le. absurd (ground arith)),
      (λ _. (back_up s 2000, refl, back_up-IsCut s 2000, back_up_le s 2000, back_up_last s 2000)),
    ),
  )
]
