-- ===== src/Prelude/Lists.antt =====
-- Lists measured by native numbers, queried by Boolean tests, and their predicates by recursion.
use Prim.Native.Nat.{ℕ, zero, suc, ◌+◌}
use mathlib.Core.Path.{◌≡◌, refl, sym, subst}
use mathlib.Core.Logic.{◌⊎◌, inl, inr}
use mathlib.Core.Bool.{Bool, true, false, ◌||◌}
use mathlib.Core.Option
use mathlib.Core.Option.{Option, none, some, some-injective}
use mathlib.Core.List.{List, [], ◌∷◌, ◌++◌}
use native.Mathlib.Omega.{arith}
use whenweall.Prelude.Tests.{if◌then◌else◌, Bool-cases}

module _ {ℓ} {A : Type ℓ} where
  abbrev pub length : List A → ℕ
  length [] = 0
  length (x ∷ xs) = suc (length xs)

  pub length-append : (xs ys : List A) → length (xs ++ ys) ≡ length xs + length ys
  length-append [] ys = omega arith
  length-append (x ∷ xs) ys = omega (arith, length-append xs ys)

  abbrev pub take : ℕ → List A → List A
  take zero xs = []
  take (suc n) [] = []
  take (suc n) (x ∷ xs) = x ∷ take n xs

  -- `SELECT … WHERE p`.
  abbrev pub select : (A → Bool) → List A → List A
  select p [] = []
  select p (x ∷ xs) = let rest = select p xs in if p x then x ∷ rest else rest

  -- A query `:one` on a unique key: the first row, or `sql.ErrNoRows`.
  abbrev pub select_one : (A → Bool) → List A → Option A
  select_one p [] = none
  select_one p (x ∷ xs) = if p x then some x else select_one p xs

  -- `SELECT count(*) … WHERE p`.
  abbrev pub count_where : (A → Bool) → List A → ℕ
  count_where p [] = 0
  count_where p (x ∷ xs) = let rest = count_where p xs in if p x then suc rest else rest

  -- `DELETE … WHERE p`.
  abbrev pub delete_where : (A → Bool) → List A → List A
  delete_where p [] = []
  delete_where p (x ∷ xs) = let rest = delete_where p xs in if p x then rest else x ∷ rest

  -- `UPDATE … SET f WHERE p`.
  abbrev pub update_where : (A → Bool) → (A → A) → List A → List A
  update_where p f [] = []
  update_where p f (x ∷ xs) = (if p x then f x else x) ∷ update_where p f xs

  abbrev pub any : (A → Bool) → List A → Bool
  any p [] = false
  any p (x ∷ xs) = p x || any p xs

module _ {ℓ} {A : Type ℓ} where
  abbrev pub All : (A → Type 0) → List A → Type 0
  All P [] = Unit
  All P (x ∷ xs) = P x × All P xs

  abbrev pub Any : (A → Type 0) → List A → Type 0
  Any P [] = ⊥
  Any P (x ∷ xs) = P x ⊎ Any P xs

  pub All-append : (P : A → Type 0) (xs ys : List A) → All P xs → All P ys → All P (xs ++ ys)
  All-append P [] ys hx hy = hy
  All-append P (x ∷ xs) ys (h, hx) hy = (h, All-append P xs ys hx hy)

  pub Any-append : (P : A → Type 0) (xs ys : List A) → Any P (xs ++ ys) → Any P xs ⊎ Any P ys
  Any-append P [] ys h = inr h
  Any-append P (x ∷ xs) ys (inl h) = inl (inl h)
  Any-append P (x ∷ xs) ys (inr h) = elim (Any-append P xs ys h) [
    | inl a ↦ inl (inr a)
    | inr b ↦ inr b
  ]

module _ {ℓ} {A : Type ℓ} where
  -- What holds of every row holds of the one that a query finds.
  pub select_one-All :
      (P : A → Type 0) (p : A → Bool) (xs : List A) (a : A)
      → All P xs
      → select_one p xs ≡ some a
      → P a
  select_one-All P p [] a h e = cc
  select_one-All P p (x ∷ xs) a h e = elim (Bool-cases (p x)) [
    | inl t ↦ let q : some x ≡ some a = rw t at e in subst P (some-injective x a q) h.0
    | inr f ↦ select_one-All P p xs a h.1 (rw f at e)
  ]

  -- The row that a query finds passes its test.
  pub select_one-test : (p : A → Bool) (xs : List A) (a : A) → select_one p xs ≡ some a → p a ≡ true
  select_one-test p [] a e = cc
  select_one-test p (x ∷ xs) a e = elim (Bool-cases (p x)) [
    | inl t ↦
        let q : some x ≡ some a = rw t at e in subst (λ y. p y ≡ true) (some-injective x a q) t
    | inr f ↦ select_one-test p xs a (rw f at e)
  ]

-- What a query by a test that an update does not change finds after the update.
pub select_one-update_where {ℓ} :
    {A : Type ℓ} (p : A → Bool) (f : A → A) (xs : List A)
    → ((x : A) → p (f x) ≡ p x)
    → select_one p (update_where p f xs) ≡ Option.map f (select_one p xs)
select_one-update_where p f [] keep = refl
select_one-update_where p f (x ∷ xs) keep = elim (Bool-cases (p x)) [
  | inl t ↦ rw (t, keep, t)
  | inr e ↦ rw (e, e) (select_one-update_where p f xs keep)
]

-- A row that a query finds, and that a deletion spares, is found after the deletion.
pub select_one-delete_where {ℓ} :
    {A : Type ℓ} (p q : A → Bool) (xs : List A) (a : A)
    → select_one p xs ≡ some a
    → q a ≡ false
    → select_one p (delete_where q xs) ≡ some a
select_one-delete_where p q [] a e spared = e
select_one-delete_where p q (x ∷ xs) a e spared = elim (Bool-cases (p x)) [
  | inl t ↦
      let same : x ≡ a = some-injective x a (rw t at e) in
      rw (subst (λ y. q y ≡ false) (sym same) spared, t) (rw same)
  | inr f ↦
      let later : select_one p (delete_where q xs) ≡ some a =
        select_one-delete_where p q xs a (rw f at e) spared in
      elim (Bool-cases (q x)) [ inl gone ↦ rw gone later | inr stays ↦ rw (stays, f) later ]
]

-- `Has a xs`: the list holds `a`.
abbrev pub Has : {A : Type 0} → A → List A → Type 0
Has a xs = Any (λ x. a ≡ x) xs
