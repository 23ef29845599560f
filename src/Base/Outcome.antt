-- ===== src/Base/Outcome.antt =====
-- Results of calls that may raise. A method that raises inside `with self.connect()` rolls its
-- transaction back, so an error carries no new state.
use Prim.Native.String.{String}
use mathlib.Core.Bool.{Bool, true, false}
use mathlib.Core.Option.{Option, none, some}
use mathlib.Core.Path.{◌≡◌, refl}

pub data Error : Type 0 where
  value_error : String → Error
  key_error : String → Error
  runtime_error : String → Error
  -- sqlite3.IntegrityError: a key that is taken, or a CHECK that fails
  integrity_error : Error

-- What a call gives: the exception that it raises, or its value.
pub data Result {ℓ} (Value : Type ℓ) : Type ℓ where
  err : Error → Result Value
  ok : Value → Result Value

-- `if row is None: raise error`
abbrev pub or_raise {ℓ} : {A : Type ℓ} → Option A → Error → Result A
or_raise none e = err e
or_raise (some a) e = ok a

infixl 5 ◌>>=◌ ◌>>◌
-- The next statement reads the value; an exception passes it by.
abbrev pub ◌>>=◌ {ℓ κ} :
    {Value : Type ℓ} {Next : Type κ} → Result Value → (Value → Result Next) → Result Next
err raised >>= next = err raised
ok value >>= next = next value

-- `if test: raise error`
abbrev pub raise_if : Bool → Error → Result (Unit {0})
raise_if true e = err e
raise_if false e = ok tt

-- A statement whose value nothing reads, and what follows it.
abbrev pub ◌>>◌ {ℓ} : {Next : Type ℓ} → Result (Unit {0}) → Result Next → Result Next
first >> next = first >>= λ _. next

-- A call that gave a value had a first part that gave one.
pub >>=-eq-ok {ℓ κ} :
    {A : Type ℓ} {B : Type κ} (first : Result A) (next : A → Result B) {b : B}
    → (first >>= next) ≡ ok b
    → (a : A) × (first ≡ ok a) × (next a ≡ ok b)
>>=-eq-ok (err raised) next h = cc
>>=-eq-ok (ok value) next h = (value, refl, h)

pub ok-inj {ℓ} : {A : Type ℓ} {a b : A} → ok a ≡ ok b → a ≡ b
ok-inj e = cc

-- A result behind a passed test is the result itself.
pub raise_if-ok {ℓ} :
    {A : Type ℓ} (b : Bool) (e : Error) (k : Result A) {a : A}
    → (raise_if b e >> k) ≡ ok a
    → k ≡ ok a
raise_if-ok true e k h = cc
raise_if-ok false e k h = h

pub raise_if-passed {ℓ} :
    {A : Type ℓ} (b : Bool) (e : Error) (k : Result A) {a : A}
    → (raise_if b e >> k) ≡ ok a
    → (b ≡ false) × (k ≡ ok a)
raise_if-passed true e k h = cc
raise_if-passed false e k h = (refl, h)
