-- ===== src/Prelude/Members.antt =====
-- What the list operations that stand for SQL's clauses do to the members of a table.
use mathlib.Core.Path.{◌≡◌, refl, sym, ap, subst}
use mathlib.Core.Logic.{◌⊎◌, inl, inr}
use mathlib.Core.Bool.{Bool, true, false}
use mathlib.Core.Option.{some, some-injective}
use mathlib.Core.List.{List, [], ◌∷◌, ◌++◌}
use whenweall.Prelude.Tests.{if◌then◌else◌, Bool-cases}
use whenweall.Prelude.Lists.{Has, select, select_one, delete_where, update_where, any}

module _ {A : Type 0} where
  pub Has-left : (a : A) (xs ys : List A) → Has a xs → Has a (xs ++ ys)
  Has-left a [] ys h = absurd h
  Has-left a (x ∷ xs) ys (inl e) = inl e
  Has-left a (x ∷ xs) ys (inr h) = inr (Has-left a xs ys h)

  pub Has-right : (a : A) (xs ys : List A) → Has a ys → Has a (xs ++ ys)
  Has-right a [] ys h = h
  Has-right a (x ∷ xs) ys h = inr (Has-right a xs ys h)

  -- A member of an updated table: a row that the update meets, changed, or one that it passes by.
  pub Has-updated :
      (y : A) (q : A → Bool) (f : A → A) (xs : List A)
      → Has y (update_where q f xs)
      → (x : A) × Has x xs × (((q x ≡ true) × (y ≡ f x)) ⊎ ((q x ≡ false) × (y ≡ x)))
  Has-updated y q f [] h = absurd h
  Has-updated y q f (x ∷ xs) (inr h) = let (z, at, how) = Has-updated y q f xs h in (z, inr at, how)
  Has-updated y q f (x ∷ xs) (inl e) = elim (Bool-cases (q x)) [
    | inl t ↦
        let e' : y ≡ f x = subst (λ b. y ≡ (if b then f x else x)) t e in (x, inl refl, inl (t, e'))
    | inr n ↦
        let e' : y ≡ x = subst (λ b. y ≡ (if b then f x else x)) n e in (x, inl refl, inr (n, e'))
  ]

  pub Has-kept :
      (x : A) (q : A → Bool) (f : A → A) (xs : List A)
      → Has x xs
      → q x ≡ false
      → Has x (update_where q f xs)
  Has-kept x q f [] at h = absurd at
  Has-kept x q f (z ∷ xs) (inl e) h =
      let other : q z ≡ false = subst (λ y. q y ≡ false) e h in inl (rw other e)
  Has-kept x q f (z ∷ xs) (inr at) h = inr (Has-kept x q f xs at h)

  pub Has-changed :
      (x : A) (q : A → Bool) (f : A → A) (xs : List A)
      → Has x xs
      → q x ≡ true
      → Has (f x) (update_where q f xs)
  Has-changed x q f [] at h = absurd at
  Has-changed x q f (z ∷ xs) (inl e) h =
      let met : q z ≡ true = subst (λ y. q y ≡ true) e h in inl (rw met (ap f e))
  Has-changed x q f (z ∷ xs) (inr at) h = inr (Has-changed x q f xs at h)

  pub Has-spared :
      (x : A) (q : A → Bool) (xs : List A) → Has x xs → q x ≡ false → Has x (delete_where q xs)
  Has-spared x q [] at h = absurd at
  Has-spared x q (z ∷ xs) (inl e) h =
      let other : q z ≡ false = subst (λ y. q y ≡ false) e h in rw other (inl e)
  Has-spared x q (z ∷ xs) (inr at) h = elim (Bool-cases (q z)) [
    | inl t ↦ rw t (Has-spared x q xs at h)
    | inr n ↦ rw n (inr (Has-spared x q xs at h))
  ]

  pub Has-undeleted : (x : A) (q : A → Bool) (xs : List A) → Has x (delete_where q xs) → Has x xs
  Has-undeleted x q [] h = h
  Has-undeleted x q (z ∷ xs) h = elim (Bool-cases (q z)) [
    | inl t ↦ inr (
        Has-undeleted x q xs
          (subst (λ b. Has x (if b then delete_where q xs else z ∷ delete_where q xs)) t h))
    | inr n ↦
        elim (subst (λ b. Has x (if b then delete_where q xs else z ∷ delete_where q xs)) n h) [
          | inl e ↦ inl e
          | inr later ↦ inr (Has-undeleted x q xs later)
        ]
  ]

  pub Has-selected :
      (x : A) (q : A → Bool) (xs : List A) → Has x (select q xs) → Has x xs × (q x ≡ true)
  Has-selected x q [] h = absurd h
  Has-selected x q (z ∷ xs) h = elim (Bool-cases (q z)) [
    | inl t ↦ elim (subst (λ b. Has x (if b then z ∷ select q xs else select q xs)) t h) [
      | inl e ↦ (inl e, subst (λ y. q y ≡ true) (sym e) t)
      | inr later ↦ let (at, passes) = Has-selected x q xs later in (inr at, passes)
    ]
    | inr n ↦
        let (at, passes) =
          Has-selected x q xs
            (subst (λ b. Has x (if b then z ∷ select q xs else select q xs)) n h) in
        (inr at, passes)
  ]

  pub select_one-Has : (q : A → Bool) (xs : List A) (a : A) → select_one q xs ≡ some a → Has a xs
  select_one-Has q [] a e = cc
  select_one-Has q (x ∷ xs) a e = elim (Bool-cases (q x)) [
    | inl t ↦ inl (sym (some-injective x a (rw t at e)))
    | inr n ↦ inr (select_one-Has q xs a (rw n at e))
  ]

  pub any-Has : (q : A → Bool) (xs : List A) → any q xs ≡ true → (x : A) × Has x xs × (q x ≡ true)
  any-Has q [] h = cc
  any-Has q (x ∷ xs) h = elim (Bool-cases (q x)) [
    | inl t ↦ (x, inl refl, t)
    | inr n ↦ let (y, at, passes) = any-Has q xs (rw n at h) in (y, inr at, passes)
  ]

  pub Has-survivor : (x : A) (q : A → Bool) (xs : List A) → Has x (delete_where q xs) → q x ≡ false
  Has-survivor x q [] h = absurd h
  Has-survivor x q (z ∷ xs) h = elim (Bool-cases (q z)) [
    | inl t ↦
        Has-survivor x q xs
          (subst (λ b. Has x (if b then delete_where q xs else z ∷ delete_where q xs)) t h)
    | inr n ↦
        elim (subst (λ b. Has x (if b then delete_where q xs else z ∷ delete_where q xs)) n h) [
          | inl e ↦ subst (λ y. q y ≡ false) (sym e) n
          | inr later ↦ Has-survivor x q xs later
        ]
  ]
