-- ===== src/Prelude/Traverse.antt =====
-- A loop that converts each item of a slice and returns at the first error.
use mathlib.Core.Path.{◌≡◌, refl}
use mathlib.Core.List.{List, [], ◌∷◌}
use native.Mathlib.Omega.{arith}
use fabricsdk_go.Prelude.Outcome.{Result, ok, ◌>>=◌, >>=-eq-ok}

abbrev pub traverse {ℓ κ} : {A : Type ℓ} {B : Type κ} → (A → Result B) → List A → Result (List B)
traverse f [] = ok []
traverse f (x ∷ xs) = do y ← f x; ys ← traverse f xs; ok (y ∷ ys)

-- A loop that undoes another item by item undoes it as a whole.
pub traverse-inverse {ℓ κ} :
    {A : Type ℓ} {B : Type κ} (f : A → Result B) (g : B → Result A)
    → ((a : A) (b : B) → f a ≡ ok b → g b ≡ ok a)
    → (xs : List A) (ys : List B) → traverse f xs ≡ ok ys
    → traverse g ys ≡ ok xs
traverse-inverse f g inv [] [] h = refl
traverse-inverse f g inv [] (y ∷ ys) h = cc
traverse-inverse f g inv (x ∷ xs) ys h =
    let (y, fx, more) = >>=-eq-ok (f x) _ h in
    let (rest, fxs, last) = >>=-eq-ok (traverse f xs) _ more in
    let done = traverse-inverse f g inv xs rest fxs in
    let first = inv x y fx in ground (arith, first, done, last)
