-- ===== src/Prelude/Lists.antt =====
-- Lists measured and cut by native numbers, under the library's names, and a predicate on items.
use Prim.Native.Nat.{ℕ, zero, suc, ◌+◌}
use mathlib.Core.Logic.{◌⊎◌, inl, inr}
use mathlib.Core.Path.{◌≡◌, refl, ap}
use mathlib.Core.List.{List, [], ◌∷◌, ◌++◌}
use mathlib.Core.Option.{Option, none, some}
use native.Mathlib.Omega.{arith}

module _ {ℓ} {A : Type ℓ} where
  abbrev pub length : List A → ℕ
  length [] = 0
  length (x ∷ xs) = suc (length xs)

  abbrev pub get_elem? : List A → ℕ → Option A
  get_elem? [] i = none
  get_elem? (x ∷ xs) zero = some x
  get_elem? (x ∷ xs) (suc i) = get_elem? xs i

  abbrev pub take : ℕ → List A → List A
  take zero xs = []
  take (suc n) [] = []
  take (suc n) (x ∷ xs) = x ∷ take n xs

  abbrev pub drop : ℕ → List A → List A
  drop zero xs = xs
  drop (suc n) [] = []
  drop (suc n) (x ∷ xs) = drop n xs

  abbrev pub replicate : ℕ → A → List A
  replicate zero a = []
  replicate (suc n) a = a ∷ replicate n a

  abbrev pub All {κ} : (A → Type κ) → List A → Type κ
  All P [] = Unit {κ}
  All P (x ∷ xs) = P x × All P xs

module _ {ℓ} {A : Type ℓ} where
  pub length-append : (xs ys : List A) → length (xs ++ ys) ≡ length xs + length ys
  length-append [] ys = omega arith
  length-append (x ∷ xs) ys = omega (arith, length-append xs ys)

  pub length-replicate : (n : ℕ) (a : A) → length (replicate n a) ≡ n
  length-replicate zero a = refl
  length-replicate (suc n) a = ap suc (length-replicate n a)

  pub take-length : (xs ys : List A) → take (length xs) (xs ++ ys) ≡ xs
  take-length [] ys = refl
  take-length (x ∷ xs) ys = ap (λ (t : List A). x ∷ t) (take-length xs ys)

  pub drop-length : (xs ys : List A) → drop (length xs) (xs ++ ys) ≡ ys
  drop-length [] ys = refl
  drop-length (x ∷ xs) ys = drop-length xs ys

  pub All-append {κ} : (P : A → Type κ) (xs ys : List A) → All P xs → All P ys → All P (xs ++ ys)
  All-append P [] ys hx hy = hy
  All-append P (x ∷ xs) ys hx hy = (hx.0, All-append P xs ys hx.1 hy)

abbrev pub Any : {A : Type 0} → (A → Type 0) → List A → Type 0
Any P [] = ⊥
Any P (x ∷ xs) = P x ⊎ Any P xs

pub Any-replace :
    {A : Type 0} (P : A → Type 0) (before behind : List A) (x y : A)
    → (P x → ⊥)
    → Any P (before ++ x ∷ behind)
    → Any P (before ++ y ∷ behind)
Any-replace P [] behind x y excluded (inl h) = absurd (excluded h)
Any-replace P [] behind x y excluded (inr h) = inr h
Any-replace P (b ∷ before) behind x y excluded (inl h) = inl h
Any-replace P (b ∷ before) behind x y excluded (inr h) =
    inr (Any-replace P before behind x y excluded h)

pub Any-middle :
    {A : Type 0} (P : A → Type 0) (before behind : List A) (y : A)
    → P y
    → Any P (before ++ y ∷ behind)
Any-middle P [] behind y h = inl h
Any-middle P (b ∷ before) behind y h = inr (Any-middle P before behind y h)

pub All-replace :
    {A : Type 0} (P : A → Type 0) (before behind : List A) (x y : A)
    → P y
    → All P (before ++ x ∷ behind)
    → All P (before ++ y ∷ behind)
All-replace P [] behind x y h (p, ps) = (h, ps)
All-replace P (b ∷ before) behind x y h (p, ps) = (p, All-replace P before behind x y h ps)
