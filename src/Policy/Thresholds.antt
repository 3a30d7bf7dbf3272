-- ===== src/Policy/Thresholds.antt =====
-- Which thresholds `secondPass` (internal/chaincode/policy/policydsl.go) accepts, and what becomes of
-- them.
use fabricsdk_go.Prelude.{
  ℕ, ◌+◌, ◌≤◌, ◌<◌, ◌^◌, suc, String, List, [], ◌∷◌, ◌++◌, Bool, true, false, Bytes, Result, ok,
  err, message, length, map, leb, ltb, if◌then◌else◌, ℤ, pos, negsuc, ◌≡◌, refl, sym, arith,
}
use fabricsdk_go.Policy.{
  SignaturePolicy, type_n_out_of, n_out_of, int32, int32_of, RoleType, Value, float64,
  context_pointer, policy, Numbers, rules_of,
}
use fabricsdk_go.Policy.SecondPass.{
  Context, then_with, rule_of, rules_from, checked_rules, second_pass, then_with-eq-ok,
}
use mathlib.Core.List.{append_assoc, append-nil}
use fabricsdk_go.Policy.Arguments.{RulesFor, rules_from-RulesFor}
use fabricsdk_go.Policy.Building.{three_args, not_below}
use fabricsdk_go.Policy.Satisfies.{satisfies, satisfied, int32_of-small}

int32-exact : (z : ℤ) (k : ℕ) → z ≡ pos k → k < 2 ^ 31 → int32 z ≡ pos k
int32-exact z k exact small = rw (exact) (int32_of-small k small)

leb-zero : (m : ℕ) → leb 0 m ≡ true
leb-zero m = ground arith

module _ (marshal_role : String → RoleType → Result Bytes) {F : Type 0} where
  -- A threshold that was accepted, and the policies that were made of the arguments.
  abbrev pub Counts : ℤ → List (Value F) → Context → Value F → Type 0
  Counts t xs d x =
      (k : ℕ) × (ps : List SignaturePolicy) × (t ≡ pos k)
      × (k ≤ length xs + 1)
      × RulesFor marshal_role d.principals xs ps
      × (x ≡ policy (n_out_of (int32 t) ps))

  checked_rules-Counts :
      (t : ℤ) (xs : List (Value F)) (c d : Context) (x : Value F)
      → c.id_num ≡ length c.principals
      → length c.principals + length xs ≤ 2 ^ 31
      → checked_rules marshal_role t xs c ≡ (ok x, d)
      → Counts t xs d x
  unfolding checked_rules n_out_of
  checked_rules-Counts (negsuc k) xs c d x counted small h = cc
  checked_rules-Counts (pos k) xs c d x counted small h = cases (ltb (length xs + 1) k) refl h
    where
      cases :
          (b : Bool)
          → ltb (length xs + 1) k ≡ b
          → (if b
              then (err (message "invalid t-out-of-n predicate, t %d, n %d"), c)
              else then_with
                  (rules_from marshal_role xs [] c)
                  λ policies e. (ok (policy (n_out_of (int32 (pos k)) policies)), e))
            ≡ (ok x, d)
          → Counts (pos k) xs d x
      cases true above h = cc
      cases false below h =
          let (ps, e, made, same) = then_with-eq-ok (rules_from marshal_role xs [] c) _ h in
          let le : k ≤ length xs + 1 = ground (arith, below) in
          let is_x : policy (n_out_of (int32_of k) ps) ≡ x = ground (arith, same) in
          let is_d : e ≡ d = ground (arith, same) in
          let (rules, more, is_ps, added, fit) =
            rules_from-RulesFor marshal_role xs [] ps c e counted small made in
          (k, ps, refl, le, rw (← is_d, is_ps) fit, sym is_x)

module _ {F : Type 0} (n : Numbers F) (marshal_role : String → RoleType → Result Bytes) where
  -- If `secondPass` returns a policy, from a context whose counter counts its identities, with few
  -- enough of these and of arguments, the threshold was between 0 and one more than the number of
  -- principals and policies that it is given; the policy asks for that many of its rules, which are
  -- one for each of these, in their order: the policy that is given, or the index of the identity in
  -- the new context that was made of the organisation and the role in the text; and it is satisfied
  -- just when at least that many of these rules are.
  pub second_pass-satisfied :
      (x : F) (xs : List (Value F)) (c d : Context) (p : SignaturePolicy)
      → c.id_num ≡ length c.principals
      → length c.principals + length xs + 1 < 2 ^ 31
      → second_pass n marshal_role (context_pointer ∷ float64 x ∷ xs) c ≡ (ok (policy p), d)
      → (signs : ℤ → Bool)
      → (k : ℕ) × (ps : List SignaturePolicy) × (n.int_of_float x ≡ pos k)
        × (k ≤ length xs + 1)
        × (p ≡ type_n_out_of (pos k) (rules_of ps))
        × RulesFor marshal_role d.principals xs ps
        × (satisfies signs p ≡ leb k (satisfied signs (rules_of ps)))
  unfolding second_pass satisfies n_out_of
  second_pass-satisfied x xs c d p counted small h signs =
      let (k, ps, exact, le, fit, same) =
        checked_rules-Counts marshal_role (n.int_of_float x) xs c d (policy p) counted
          (omega (arith, small)) (checked h) in
      let is_p : p ≡ n_out_of (int32 (n.int_of_float x)) ps = ground (arith, same) in
      let asks : int32 (n.int_of_float x) ≡ pos k =
        int32-exact (n.int_of_float x) k exact (omega (arith, le, small)) in
      (k, ps, exact, le, rw (is_p, asks) refl, fit, rw (is_p, asks) refl)
    where
      checked :
          second_pass n marshal_role (context_pointer ∷ float64 x ∷ xs) c ≡ (ok (policy p), d)
          → checked_rules marshal_role (n.int_of_float x) xs c ≡ (ok (policy p), d)
      checked h = cases (ltb (length (context_pointer ∷ float64 x ∷ xs)) 3) h
        where
          cases :
              (b : Bool)
              → (if b
                  then (err (message "at least 3 arguments expected, got %d"), c)
                  else checked_rules marshal_role (n.int_of_float x) xs c)
                ≡ (ok (policy p), d)
              → checked_rules marshal_role (n.int_of_float x) xs c ≡ (ok (policy p), d)
          cases true h = cc
          cases false h = h

  rules_from-policies :
      (ps acc : List SignaturePolicy) (c : Context)
      → rules_from marshal_role (map {B = Value F} policy ps) acc c ≡ (ok (acc ++ ps), c)
  unfolding rules_from rule_of
  rules_from-policies [] acc c = rw (append-nil acc) refl
  rules_from-policies (p ∷ ps) acc c =
      rw (rules_from-policies ps (acc ++ p ∷ []) c, append_assoc acc (p ∷ []) ps) refl

  -- The threshold 0 is accepted, of at least one policy, and the result is satisfied without any
  -- signature.
  pub second_pass-zero :
      (x : F) (p : SignaturePolicy) (ps : List SignaturePolicy) (c : Context)
      → n.int_of_float x ≡ pos 0
      → (q : SignaturePolicy) × (second_pass n marshal_role
            (context_pointer ∷ float64 x ∷ map policy (p ∷ ps))
            c
          ≡ (ok (policy q), c))
        × (satisfies (λ z. false) q ≡ true)
  unfolding second_pass checked_rules satisfies n_out_of
  second_pass-zero x p ps c zero =
      let xs = map {B = Value F} policy ps in
      (
        n_out_of (pos 0) (p ∷ ps),
        rw
            (
              zero,
              three_args (length xs),
              not_below (suc (length xs) + 1) 0 (omega arith),
              rules_from-policies (p ∷ ps) [] c,
            )
            refl,
        leb-zero (satisfied (λ z. false) (rules_of (p ∷ ps))),
      )
