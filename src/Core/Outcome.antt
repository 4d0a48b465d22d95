-- ===== src/Core/Outcome.antt =====
-- Chains of steps that may raise, and that change nothing when they do.
use cat_game_backend.Base.{◌≡◌, refl, ap, Bool, true, false, Option, none, some, arith}
use cat_game_backend.Core.Error.{Error, Result, ok, err}

infixl 5 ◌>>=◌ ◌>>◌
abbrev pub ◌>>=◌ : {A B : Type 0} → Result A → (A → Result B) → Result B
ok a >>= f = f a
err e >>= f = err e

abbrev pub ◌>>◌ : {B : Type 0} → Result (Unit {0}) → Result B → Result B
m >> k = m >>= λ _. k

-- `if test: raise error`
abbrev pub raise_if : Bool → Error → Result (Unit {0})
raise_if true e = err e
raise_if false e = ok tt

-- `if value is None: raise error`
abbrev pub or_raise : {A : Type 0} → Option A → Error → Result A
or_raise none e = err e
or_raise (some a) e = ok a

-- What the database is after a call: an error rolls back.
abbrev pub or_unchanged : {A S : Type 0} → Result (A × S) → S → S
or_unchanged (ok (a, s')) s = s'
or_unchanged (err e) s = s

-- What a call has returned is one value.
pub ok-injective : {A : Type 0} (x y : A) → ok x ≡ ok y → x ≡ y
ok-injective x y h = ap (λ r. elim r [ ok a ↦ a | err e ↦ x ]) h

-- What a chain that returned has passed through.
pub bind-ok :
    {A B : Type 0} (m : Result A) (f : A → Result B) (b : B)
    → (m >>= f) ≡ ok b
    → (a : A) × (m ≡ ok a) × (f a ≡ ok b)
bind-ok (ok a) f b h = (a, refl, h)
bind-ok (err e) f b h = ground arith

pub raise_if-ok :
    {B : Type 0} (test : Bool) (e : Error) (f : Unit {0} → Result B) (b : B)
    → (raise_if test e >>= f) ≡ ok b
    → (test ≡ false) × (f tt ≡ ok b)
raise_if-ok true e f b h = ground arith
raise_if-ok false e f b h = (refl, h)

pub or_raise-ok :
    {A B : Type 0} (o : Option A) (e : Error) (f : A → Result B) (b : B)
    → (or_raise o e >>= f) ≡ ok b
    → (a : A) × (o ≡ some a) × (f a ≡ ok b)
or_raise-ok none e f b h = ground arith
or_raise-ok (some a) e f b h = (a, refl, h)

-- A property holds after a call if it held before, and holds of what a call that returns commits.
pub or_unchanged-outcome :
    {A S : Type 0} (P : S → Type 0) (r : Result (A × S)) (s : S)
    → P s
    → ((a : A) (s' : S) → r ≡ ok (a, s') → P s')
    → P (or_unchanged r s)
or_unchanged-outcome P (ok (a, s')) s before after = after a s' refl
or_unchanged-outcome P (err e) s before after = before
