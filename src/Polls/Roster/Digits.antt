-- ===== src/Polls/Roster/Digits.antt =====
-- The decimal digits that internal/polls/roster.go writes with strconv.Itoa.
use whenweall.Prelude.{
  ℕ, zero, suc, ◌+◌, ◌-◌, ◌*◌, ◌/◌, ◌%◌, ◌<◌, ◌≤◌, ◌≡◌, refl, ap, ◌∙◌, inl, inr, [], ◌∷◌, ◌++◌, ltb,
  arith, All, All-append, Bool-cases,
}
use whenweall.Prelude.Text.{Text}
use whenweall.Polls.Roster.{itoa_on, itoa}

-- The number that a text of digits writes, after the digits of `read_so_far`.
abbrev pub number : ℕ → Text → ℕ
number read_so_far [] = read_so_far
number read_so_far (c ∷ t) = number (read_so_far * 10 + (c - b'0')) t

number-append : (k : ℕ) (s t : Text) → number k (s ++ t) ≡ number (number k s) t
number-append k [] t = refl
number-append k (c ∷ s) t = number-append (k * 10 + (c - b'0')) s t

abbrev pub IsDigit : ℕ → Type 0
IsDigit c = (b'0' ≤ c) × (c ≤ b'9')

-- Fuel above the number is enough.
itoa_on-digits :
    (fuel n : ℕ) → n < fuel → (number 0 (itoa_on fuel n) ≡ n) × All IsDigit (itoa_on fuel n)
unfolding itoa_on
itoa_on-digits zero n h = absurd (omega (arith, h))
itoa_on-digits (suc fuel) n h = elim (Bool-cases (ltb n 10)) [
  | inl small ↦ rw small (omega arith, ((omega arith, ground arith), tt))
  | inr large ↦
      let (value, digits) = itoa_on-digits fuel (n / 10) (ground arith) in
      rw large (
        number-append 0 (itoa_on fuel (n / 10)) ((b'0' + n % 10) ∷ [])
            ∙ ap (λ k. k * 10 + (b'0' + n % 10 - b'0')) value
            ∙ omega arith,
        All-append IsDigit (itoa_on fuel (n / 10)) ((b'0' + n % 10) ∷ []) digits
            ((omega arith, omega arith), tt),
      )
]

-- A number's text is made of decimal digits, and read as a decimal number it is the number.
pub number-itoa : (n : ℕ) → (number 0 (itoa n) ≡ n) × All IsDigit (itoa n)
unfolding itoa
number-itoa n = itoa_on-digits (suc n) n (omega arith)
