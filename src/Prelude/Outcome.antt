-- ===== src/Prelude/Outcome.antt =====
-- The results of functions that return an error, as every Go method of the backend does.
use mathlib.Core.Bool.{Bool, true, false}
use mathlib.Core.Option.{Option, none, some}
use mathlib.Core.Path.{◌≡◌, refl}

pub data Outcome (E A : Type 0) : Type 0 where
  ok : A → Outcome E A
  err : E → Outcome E A

infixl 5 ◌>>=◌ ◌>>◌
abbrev pub ◌>>=◌ : {E A B : Type 0} → Outcome E A → (A → Outcome E B) → Outcome E B
ok a >>= f = f a
err e >>= f = err e

abbrev pub ◌>>◌ : {E B : Type 0} → Outcome E (Unit {0}) → Outcome E B → Outcome E B
m >> k = m >>= λ _. k

-- `if !b { return e }`
abbrev pub require : {E : Type 0} → Bool → E → Outcome E (Unit {0})
require true e = ok tt
require false e = err e

-- A row, or the error for sql.ErrNoRows.
abbrev pub found : {E A : Type 0} → Option A → E → Outcome E A
found (some a) e = ok a
found none e = err e

-- What a successful chain went through.
pub require-ok :
    {E B : Type 0} (b : Bool) (e : E) (k : Outcome E B) {r : B}
    → (require b e >> k) ≡ ok r
    → (b ≡ true) × (k ≡ ok r)
require-ok true e k h = (refl, h)
require-ok false e k h = cc

pub found-ok :
    {E A B : Type 0} (o : Option A) (e : E) (f : A → Outcome E B) {r : B}
    → (found o e >>= f) ≡ ok r
    → (a : A) × (o ≡ some a) × (f a ≡ ok r)
found-ok (some a) e f h = (a, refl, h)
found-ok none e f h = cc

pub bind-ok :
    {E A B : Type 0} (m : Outcome E A) (f : A → Outcome E B) {r : B}
    → (m >>= f) ≡ ok r
    → (a : A) × (m ≡ ok a) × (f a ≡ ok r)
bind-ok (ok a) f h = (a, refl, h)
bind-ok (err e) f h = cc

pub ok-injective : {E A : Type 0} {a b : A} → ◌≡◌ {A = Outcome E A} (ok a) (ok b) → a ≡ b
ok-injective h = cc
