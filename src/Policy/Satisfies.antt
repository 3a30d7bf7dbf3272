-- ===== src/Policy/Satisfies.antt =====
-- When signatures satisfy a policy of internal/chaincode/policy/policydsl.go, as the comments on its
-- builders say, and when they satisfy a gate of the policy language.
use fabricsdk_go.Prelude.{
  ℕ, ◌+◌, ◌≤◌, ◌<◌, ◌^◌, suc, String, List, [], ◌∷◌, ◌++◌, Bool, true, false, ◌&&◌, ◌||◌, Option,
  none, some, Bytes, length, leb, ℤ, pos, negsuc, ◌≡◌, refl, arith, get_elem?, length-append,
}
use mathlib.Core.List.{append_assoc}
use fabricsdk_go.Policy.{
  SignaturePolicy, type_signed_by, type_n_out_of, Rules, no_rules, rule, rules_of, and_policy,
  or_policy, int32_of, RoleType, Principal,
}
use fabricsdk_go.Policy.Language.{
  Gate, gate, Arg, principal, nested, Args, no_more, and_then, count, threshold, IsWritten,
  IsWrittenArg, AreWritten, direct_of, directs_of, identities_of, inner_of, inners_of, meaning,
  arg_meaning, args_meaning,
}

-- N out of the slice of policies.
abbrev pub reaches : ℤ → ℕ → Bool
reaches (pos t) k = leb t k
reaches (negsuc t) k = true

abbrev pub one_if : Bool → ℕ
one_if true = 1
one_if false = 0

one_if-le : (b : Bool) → one_if b ≤ 1
one_if-le true = omega arith
one_if-le false = omega arith

-- `signs z` says that the identity of the index z has signed.
module _ (signs : ℤ → Bool) where
  unfoldable mutual
    pub satisfies : SignaturePolicy → Bool
    satisfies (type_signed_by z) = signs z
    satisfies (type_n_out_of t rs) = reaches t (satisfied rs)

    -- How many of the rules are satisfied.
    pub satisfied : Rules → ℕ
    satisfied no_rules = 0
    satisfied (rule p rs) = one_if (satisfies p) + satisfied rs

  -- `And` of the builder is satisfied when both policies are, and `Or` when one of them is.
  pub satisfies-builders :
      (lhs rhs : SignaturePolicy)
      → (satisfies (and_policy lhs rhs) ≡ (satisfies lhs && satisfies rhs))
        × (satisfies (or_policy lhs rhs) ≡ (satisfies lhs || satisfies rhs))
  unfolding satisfies and_policy or_policy
  satisfies-builders lhs rhs = cases (satisfies lhs) (satisfies rhs)
    where
      cases :
          (a b : Bool)
          → (leb 2 (one_if a + (one_if b + 0)) ≡ (a && b))
            × (leb 1 (one_if a + (one_if b + 0)) ≡ (a || b))
      cases true true = (refl, refl)
      cases true false = (refl, refl)
      cases false true = (refl, refl)
      cases false false = (refl, refl)

  pub satisfied-le : (ps : List SignaturePolicy) → satisfied (rules_of ps) ≤ length ps
  unfolding satisfies
  satisfied-le [] = omega arith
  satisfied-le (p ∷ ps) = omega (arith, one_if-le (satisfies p), satisfied-le ps)

-- A gate holds of the principals that sign, if enough of its arguments do.
module _ (bytes_of : String → RoleType → Bytes) (signed : Principal → Bool) where
  unfoldable mutual
    pub holds : Gate → Bool
    holds (gate s g a rest) =
        leb (threshold g (suc (count rest))) (one_if (holds_arg a) + held rest)

    pub holds_arg : Arg → Bool
    holds_arg (principal org r) = signed (record { principal = bytes_of org r })
    holds_arg (nested g) = holds g

    pub held : Args → ℕ
    held no_more = 0
    held (and_then a rest) = one_if (holds_arg a) + held rest

-- The index of an identity in a list, signed by those who sign.
abbrev pub is_signed : (Principal → Bool) → Option Principal → Bool
is_signed signed none = false
is_signed signed (some p) = signed p

abbrev pub signs_among : (Principal → Bool) → List Principal → ℤ → Bool
signs_among signed identities (pos i) = is_signed signed (get_elem? identities i)
signs_among signed identities (negsuc i) = false

-- `xs` stands in `all` from the position `i` on.
abbrev pub Stands : ℕ → List Principal → List Principal → Type 0
Stands i xs all =
    (before : List Principal) × (behind : List Principal) × (all ≡ before ++ (xs ++ behind))
    × (length before ≡ i)

Stands-first : (i : ℕ) (xs ys all : List Principal) → Stands i (xs ++ ys) all → Stands i xs all
Stands-first i xs ys all (before, behind, same, at) =
    (before, ys ++ behind, rw (same, append_assoc xs ys behind) refl, at)

Stands-second :
    (i : ℕ) (xs ys all : List Principal) → Stands i (xs ++ ys) all → Stands (i + length xs) ys all
Stands-second i xs ys all (before, behind, same, at) = (
  before ++ xs,
  behind,
  rw (same, append_assoc before xs (ys ++ behind), append_assoc xs ys behind) refl,
  rw (length-append before xs, at) refl,
)

pub get_elem-append :
    (before : List Principal) (p : Principal) (behind : List Principal)
    → get_elem? (before ++ p ∷ behind) (length before) ≡ some p
get_elem-append [] p behind = refl
get_elem-append (q ∷ before) p behind = get_elem-append before p behind

Stands-get_elem :
    (i : ℕ) (p : Principal) (all : List Principal)
    → Stands i (p ∷ []) all
    → get_elem? all i ≡ some p
Stands-get_elem i p all (before, behind, same, at) =
    rw (same, ← at) (get_elem-append before p behind)

pub int32_of-small : (i : ℕ) → i < 2 ^ 31 → int32_of i ≡ pos i
int32_of-small i small = ground arith

Stands-lt : (i : ℕ) (p : Principal) (all : List Principal) → Stands i (p ∷ []) all → i < length all
Stands-lt i p all (before, behind, same, at) =
    rw (same, length-append before (p ∷ behind), at) (omega arith)

module _ (bytes_of : String → RoleType → Bytes) (signed : Principal → Bool) (all : List Principal)
    (few : length all ≤ 2 ^ 31) where
  mutual
    unfolding satisfies meaning IsWritten holds identities_of

    pub satisfies-meaning :
        (g : Gate) (i : ℕ)
        → IsWritten g
        → Stands i (identities_of bytes_of g) all
        → satisfies (signs_among signed all) (meaning bytes_of i g) ≡ holds bytes_of signed g
    satisfies-meaning (gate s g a rest) i (le, small, w, ws) stands =
        let inner1 = inner_of bytes_of a in
        let inner2 = inners_of bytes_of rest in
        let direct1 = direct_of bytes_of a in
        let direct2 = directs_of bytes_of rest in
        let d = i + length (inner1 ++ inner2) in
        let inner = Stands-first i (inner1 ++ inner2) (direct1 ++ direct2) all stands in
        let direct = Stands-second i (inner1 ++ inner2) (direct1 ++ direct2) all stands in
        rw
          (
            int32_of-small (threshold g (suc (count rest))) (omega arith),
            satisfies-arg_meaning a i d w (Stands-first i inner1 inner2 all inner)
                (Stands-first d direct1 direct2 all direct),
            satisfied-args_meaning rest (i + length inner1) (d + length direct1) ws
                (Stands-second i inner1 inner2 all inner)
                (Stands-second d direct1 direct2 all direct),
          )
          refl

    satisfies-arg_meaning :
        (a : Arg) (i d : ℕ)
        → IsWrittenArg a
        → Stands i (inner_of bytes_of a) all
        → Stands d (direct_of bytes_of a) all
        → satisfies (signs_among signed all) (arg_meaning bytes_of i d a)
          ≡ holds_arg bytes_of signed a
    satisfies-arg_meaning (principal org r) i d w inner direct =
        let p : Principal = record { principal = bytes_of org r } in
        let below = Stands-lt d p all direct in
        rw (int32_of-small d (omega arith), Stands-get_elem d p all direct) refl
    satisfies-arg_meaning (nested g) i d w inner direct = satisfies-meaning g i w inner

    satisfied-args_meaning :
        (rest : Args) (i d : ℕ)
        → AreWritten rest
        → Stands i (inners_of bytes_of rest) all
        → Stands d (directs_of bytes_of rest) all
        → satisfied (signs_among signed all) (rules_of (args_meaning bytes_of i d rest))
          ≡ held bytes_of signed rest
    satisfied-args_meaning no_more i d ws inner direct = refl
    satisfied-args_meaning (and_then a rest) i d (w, ws) inner direct =
        let inner1 = inner_of bytes_of a in
        let inner2 = inners_of bytes_of rest in
        let direct1 = direct_of bytes_of a in
        let direct2 = directs_of bytes_of rest in
        rw
          (
            satisfies-arg_meaning a i d w (Stands-first i inner1 inner2 all inner)
                (Stands-first d direct1 direct2 all direct),
            satisfied-args_meaning rest (i + length inner1) (d + length direct1) ws
                (Stands-second i inner1 inner2 all inner)
                (Stands-second d direct1 direct2 all direct),
          )
          refl
