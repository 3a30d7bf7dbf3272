-- ===== src/Policy/Indexed.antt =====
-- Contexts and policies of policydsl.go whose indices fit, and steps that keep them so.
use mathlib.Core.List.{append_assoc, append-nil}
use fabricsdk_go.Prelude.{
  ℕ, ◌%◌, ◌^◌, ◌≤◌, ◌<◌, List, [], ◌∷◌, ◌++◌, Result, ok, err, panic, length, length-append, ◌≡◌,
  sym, arith, All,
}
use fabricsdk_go.Policy.{
  SignaturePolicy, type_signed_by, type_n_out_of, Rules, no_rules, rule, rules_of, int32_of,
  Principal, Value, policy,
}
use fabricsdk_go.Policy.SecondPass.{Context, then_with}

-- Each index of a policy is the number, as an int32, of one of `n` identities.
unfoldable mutual
  pub Indexed : ℕ → SignaturePolicy → Type 0
  Indexed n (type_signed_by z) = (i : ℕ) × (z ≡ int32_of (i % 2 ^ 64)) × (i < n)
  Indexed n (type_n_out_of t rs) = IndexedRules n rs

  pub IndexedRules : ℕ → Rules → Type 0
  IndexedRules n no_rules = Unit
  IndexedRules n (rule p rs) = Indexed n p × IndexedRules n rs

mutual
  unfolding Indexed

  pub Indexed-more : {m n : ℕ} → m ≤ n → (p : SignaturePolicy) → Indexed m p → Indexed n p
  Indexed-more le (type_signed_by z) (i, same, small) = (i, same, omega arith)
  Indexed-more le (type_n_out_of t rs) h = IndexedRules-more le rs h

  pub IndexedRules-more : {m n : ℕ} → m ≤ n → (rs : Rules) → IndexedRules m rs → IndexedRules n rs
  IndexedRules-more le no_rules h = tt
  IndexedRules-more le (rule p rs) (first, rest) =
      (Indexed-more le p first, IndexedRules-more le rs rest)

pub rules_of-Indexed :
    (n : ℕ) (ps : List SignaturePolicy) → All (Indexed n) ps → IndexedRules n (rules_of ps)
unfolding Indexed
rules_of-Indexed n [] h = tt
rules_of-Indexed n (p ∷ ps) (first, rest) = (first, rules_of-Indexed n ps rest)

pub All-more :
    {m n : ℕ} → m ≤ n → (ps : List SignaturePolicy) → All (Indexed m) ps → All (Indexed n) ps
All-more le [] h = tt
All-more le (p ∷ ps) (first, rest) = (Indexed-more le p first, All-more le ps rest)

-- The counter counts the principals.
abbrev pub IsCounted : Context → Type 0
IsCounted c = c.id_num ≡ length c.principals % 2 ^ 64

-- No principal is removed or moved.
abbrev pub Extends : Context → Context → Type 0
Extends c d = (more : List Principal) × (d.principals ≡ c.principals ++ more)

pub Extends-refl : (c : Context) → Extends c c
Extends-refl c = ([], sym (append-nil c.principals))

pub Extends-trans : (c d e : Context) → Extends c d → Extends d e → Extends c e
Extends-trans c d e (xs, h) (ys, k) = (xs ++ ys, rw (k, h) (append_assoc c.principals xs ys))

pub Extends-length : (c d : Context) → Extends c d → length c.principals ≤ length d.principals
Extends-length c d (more, h) = rw (h, length-append c.principals more) (omega arith)

-- A step from the context `c` keeps the count, extends the context and makes what is `P` of the
-- number of principals then, on every branch.
abbrev pub OfResult {ℓ} : {A : Type ℓ} → (A → Type 0) → Result A → Type 0
OfResult P (ok a) = P a
OfResult P (err e) = Unit
OfResult P panic = Unit

abbrev pub Keeps {ℓ} : {A : Type ℓ} → (ℕ → A → Type 0) → Context → Result A × Context → Type 0
Keeps P c (r, d) = IsCounted d × Extends c d × OfResult (P (length d.principals)) r

pub then_with-Keeps {ℓ κ} :
    {A : Type ℓ} {B : Type κ} (P : ℕ → A → Type 0) (Q : ℕ → B → Type 0) (c : Context)
    (x : Result A × Context) (next : A → Context → Result B × Context)
    → Keeps P c x
    → ((a : A) (d : Context)
        → IsCounted d
        → Extends c d
        → P (length d.principals) a
        → Keeps Q d (next a d))
    → Keeps Q c (then_with x next)
then_with-Keeps P Q c (ok a, d) next (counted, more, p) step =
    let (counted', more', q) = step a d counted more p in
    (counted', Extends-trans c d (next a d).1 more more', q)
then_with-Keeps P Q c (err e, d) next (counted, more, p) step = (counted, more, tt)
then_with-Keeps P Q c (panic, d) next (counted, more, p) step = (counted, more, tt)

-- An argument is a policy only if its indices are right.
abbrev pub IsGood : {F : Type 0} → ℕ → Value F → Type 0
IsGood n (policy p) = Indexed n p
IsGood n _ = Unit
