-- ===== src/Prelude/Outcome.antt =====
-- Go's (value, error) pairs. An error is the text that the source gives it, without the values
-- that a format puts in; `external` is an error that a library or the network reports.
use Prim.Native.Nat.{ℕ}
use Prim.Native.String.{String}
use mathlib.Core.Path.{◌≡◌, refl}
use mathlib.Core.Bool.{Bool, true, false}
use native.Mathlib.Omega.{arith}
use mathlib.Core.Option.{Option, none, some}

pub data Error : Type 0 where
  message : String → Error
  wrapped : String → Error → Error
  external : ℕ → Error

-- `panic` is a Go panic: an explicit one, a nil pointer followed, an index out of range.
pub data Result {ℓ} (A : Type ℓ) : Type ℓ where
  ok : A → Result A
  err : Error → Result A
  panic : Result A

-- Following a pointer: nil panics.
abbrev pub deref {ℓ} : {A : Type ℓ} → Option A → Result A
deref none = panic
deref (some a) = ok a

-- `errors.Wrap` and `errors.WithMessage` on an error that is returned at once.
abbrev pub wrap {ℓ} : {A : Type ℓ} → String → Result A → Result A
wrap text (ok a) = ok a
wrap text (err e) = err (wrapped text e)
wrap text panic = panic

infixl 5 ◌>>=◌ ◌>>◌
abbrev pub ◌>>=◌ {ℓ κ} : {A : Type ℓ} {B : Type κ} → Result A → (A → Result B) → Result B
panic >>= next = panic
err reason >>= next = err reason
ok value >>= next = next value

-- `if !b { return errors.New(text) }`
abbrev pub guard : Bool → String → Result (Unit {0})
guard false text = err (message text)
guard true text = ok tt

abbrev pub ◌>>◌ {ℓ} : {B : Type ℓ} → Result (Unit {0}) → Result B → Result B
step >> rest = step >>= λ _. rest

pub wrap-eq-ok {ℓ} :
    {A : Type ℓ} (text : String) (r : Result A) {a : A} → wrap text r ≡ ok a → r ≡ ok a
wrap-eq-ok text (ok a) h = h
wrap-eq-ok text (err e) h = cc
wrap-eq-ok text panic h = cc

-- A chain of steps that succeeds is a first step that succeeds and a rest that does.
pub >>=-eq-ok {ℓ κ} :
    {B : Type κ} {A : Type ℓ} (first : Result A) (next : A → Result B) {last : B}
    → (first >>= next) ≡ ok last
    → (value : A) × (first ≡ ok value) × (next value ≡ ok last)
>>=-eq-ok panic next h = cc
>>=-eq-ok (err reason) next h = cc
>>=-eq-ok (ok value) next h = (value, refl, h)

-- The same, with what follows binding fresh names.
pub bind_ok {ℓ κ μ} :
    {A : Type ℓ} {B : Type κ} {P : Type μ} (m : Result A) (f : A → Result B) {b : B}
    → (m >>= f) ≡ ok b
    → ((a : A) → m ≡ ok a → f a ≡ ok b → P)
    → P
bind_ok m f h k = let (a, e, g) = >>=-eq-ok m f h in k a e g

-- `if p == nil { return nil, errors.New(text) }`
abbrev pub required {ℓ} : {A : Type ℓ} → String → Option A → Result A
required text none = err (message text)
required text (some a) = ok a

-- `MarshalOrPanic` and its like.
abbrev pub or_panic {ℓ} : {A : Type ℓ} → Result A → Result A
or_panic (ok a) = ok a
or_panic (err reason) = panic
or_panic panic = panic

pub or_panic-eq-ok {ℓ} : {A : Type ℓ} (r : Result A) {a : A} → or_panic r ≡ ok a → r ≡ ok a
or_panic-eq-ok (ok a) h = h
or_panic-eq-ok (err reason) h = cc
or_panic-eq-ok panic h = cc

pub guard-eq-ok : (b : Bool) (text : String) {u : Unit} → guard b text ≡ ok u → b ≡ true
guard-eq-ok true text h = refl
guard-eq-ok false text h = cc

pub deref-eq-ok {ℓ} : {A : Type ℓ} (o : Option A) {a : A} → deref o ≡ ok a → o ≡ some a
deref-eq-ok none h = cc
deref-eq-ok (some a) h = ground (arith, h)

pub required-eq-ok {ℓ} :
    {A : Type ℓ} (text : String) (o : Option A) {a : A} → required text o ≡ ok a → o ≡ some a
required-eq-ok text none h = cc
required-eq-ok text (some a) h = ground (arith, h)

pub ok_inj {ℓ} : {A : Type ℓ} (a b : A) → ok a ≡ ok b → a ≡ b
ok_inj a b h = ground (arith, h)
