-- ===== src/Examples/Texts.antt =====
-- The encoding of texts: a letter for each code point.
use Prim.Native.Nat.{Ordering, compare}
use Prim.Native.Char.{Char, char, code, IsLt, nul}
use text.Mathlib.TextBridge.{of_list}
use fabricsdk_go.Prelude.{ℕ, ◌≡◌, refl, ap, String, List, [], ◌∷◌}
use fabricsdk_go.Examples.Wire.{Wire, via, list, nat_wire}

-- The clauses of `IsScalar`, which decide it too.
abbrev Both : Ordering → Ordering → Type 0
Both Ordering.lt o = IsLt o
Both Ordering.eq o = ⊥
Both Ordering.gt o = ⊥

abbrev Scalar : Ordering → Ordering → Ordering → Type 0
Scalar Ordering.lt o p = Unit
Scalar Ordering.eq o p = Both o p
Scalar Ordering.gt o p = Both o p

abbrev make : (o p q : Ordering) → (Scalar o p q → Char) → Char
make Ordering.lt p q k = k tt
make Ordering.eq Ordering.lt Ordering.lt k = k tt
make Ordering.eq Ordering.lt Ordering.eq k = nul
make Ordering.eq Ordering.lt Ordering.gt k = nul
make Ordering.eq Ordering.eq q k = nul
make Ordering.eq Ordering.gt q k = nul
make Ordering.gt Ordering.lt Ordering.lt k = k tt
make Ordering.gt Ordering.lt Ordering.eq k = nul
make Ordering.gt Ordering.lt Ordering.gt k = nul
make Ordering.gt Ordering.eq q k = nul
make Ordering.gt Ordering.gt q k = nul

make_lem : (o p q : Ordering) (k : Scalar o p q → Char) (s : Scalar o p q) → make o p q k ≡ k s
make_lem Ordering.lt p q k s = refl
make_lem Ordering.eq Ordering.lt Ordering.lt k s = refl
make_lem Ordering.eq Ordering.lt Ordering.eq k s = absurd s
make_lem Ordering.eq Ordering.lt Ordering.gt k s = absurd s
make_lem Ordering.eq Ordering.eq q k s = absurd s
make_lem Ordering.eq Ordering.gt q k s = absurd s
make_lem Ordering.gt Ordering.lt Ordering.lt k s = refl
make_lem Ordering.gt Ordering.lt Ordering.eq k s = absurd s
make_lem Ordering.gt Ordering.lt Ordering.gt k s = absurd s
make_lem Ordering.gt Ordering.eq q k s = absurd s
make_lem Ordering.gt Ordering.gt q k s = absurd s

-- The character of a code point, and the first one of a number that is none.
abbrev char_of : ℕ → Char
char_of n = make (compare n 55296) (compare 57343 n) (compare n 1114112) (char n)

pub char_of-code : (c : Char) → char_of (code c) ≡ c
char_of-code (char n s) =
    make_lem (compare n 55296) (compare 57343 n) (compare n 1114112) (char n) s

abbrev char_wire : Wire Char
char_wire = via code char_of char_of-code nat_wire

abbrev chars : String → List Char
chars String.[] = []
chars (String.◌∷◌ c s) = c ∷ chars s

pub of_list-chars : (s : String) → of_list (chars s) ≡ s
of_list-chars String.[] = refl
of_list-chars (String.◌∷◌ c s) = ap (λ t. String.◌∷◌ c t) (of_list-chars s)

abbrev pub text_wire : Wire String
text_wire = via chars of_list of_list-chars (list char_wire)
