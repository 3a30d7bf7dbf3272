-- ===== src/Policy/SecondPass.antt =====
-- `secondPass` of policydsl.go, which builds the signature policy of a call of outof and adds its
-- principals to the context, and the context.
use fabricsdk_go.Prelude.{
  ℕ, ◌+◌, ◌%◌, ◌^◌, String, List, [], ◌∷◌, ◌++◌, Bool, true, Option, none, some, Bytes, Result, ok,
  err, panic, message, ltb, length, if◌then◌else◌, ℤ, pos, negsuc, ◌≡◌, refl,
}
use fabricsdk_go.Policy.{
  SignaturePolicy, signed_by, n_out_of, int32, int32_of, RoleType, Principal, Value, string,
  float64, float32, int, context_pointer, policy, other, Numbers,
}
use fabricsdk_go.Policy.Principals.{find_all_string_submatch, role_of}

-- The counter is an `int`, whose 64 bits wrap.
pub record Context : Type 0 where
  pub id_num : ℕ
  pub principals : List Principal

unfoldable pub new_context : Context
new_context = record { id_num = 0; principals = [] }

-- A step that may change the context and fail.
abbrev pub then_with {ℓ κ μ} :
    {A : Type ℓ} {B : Type κ} {S : Type μ} → Result A × S → (A → S → Result B × S) → Result B × S
then_with (ok a, s) next = next a s
then_with (err e, s) next = (err e, s)
then_with (panic, s) next = (panic, s)

pub then_with-eq-ok {ℓ κ μ} :
    {A : Type ℓ} {B : Type κ} {S : Type μ} (x : Result A × S) (next : A → S → Result B × S) {b : B}
    {t : S}
    → then_with x next ≡ (ok b, t)
    → (a : A) × (s : S) × (x ≡ (ok a, s)) × (next a s ≡ (ok b, t))
then_with-eq-ok (ok a, s) next h = (a, s, refl, h)
then_with-eq-ok (err e, s) next h = cc
then_with-eq-ok (panic, s) next h = cc

-- `subm == nil || len(subm) != 1 || len(subm[0]) != 4`, and the groups that the code reads.
abbrev pub groups : List (List String) → Option (String × String)
groups ((whole ∷ org ∷ dot ∷ role ∷ []) ∷ []) = some (org, role)
groups _ = none

-- `t < 0 || t > n+1`
abbrev pub is_invalid_threshold : ℤ → ℕ → Bool
is_invalid_threshold (negsuc k) n = true
is_invalid_threshold (pos t) n = ltb (n + 1) t

abbrev pub append_principal : Result Bytes → Context → Result SignaturePolicy × Context
append_principal (ok msp_role) c = (
  ok (signed_by (int32_of c.id_num)),
  record {
    id_num = (c.id_num + 1) % 2 ^ 64;
    principals = c.principals ++ record { principal = msp_role } ∷ [];
  },
)
append_principal (err e) c = (err (message "error marshalling msp role: %s"), c)
append_principal panic c = (panic, c)

module _ (marshal_role : String → RoleType → Result Bytes) where
  abbrev pub add_role : String → Option RoleType → Context → Result SignaturePolicy × Context
  add_role org none c = (err (message "error parsing role %s"), c)
  add_role org (some r) c = append_principal (marshal_role org r) c

  abbrev pub add_groups : Option (String × String) → Context → Result SignaturePolicy × Context
  add_groups none c = (err (message "error parsing principal %s"), c)
  add_groups (some (org, role)) c = add_role org (role_of role) c

  -- An argument of the loop: a principal, or a policy that is there already.
  unfoldable pub rule_of : {F : Type 0} → Value F → Context → Result SignaturePolicy × Context
  unfolding signed_by
  rule_of (string t) c = add_groups (groups (find_all_string_submatch t)) c
  rule_of (policy p) c = (ok p, c)
  rule_of (float64 x) c =
      (err (message "unrecognized type, expected a principal or a policy, got %s"), c)
  rule_of (float32 x) c =
      (err (message "unrecognized type, expected a principal or a policy, got %s"), c)
  rule_of (int k) c =
      (err (message "unrecognized type, expected a principal or a policy, got %s"), c)
  rule_of context_pointer c =
      (err (message "unrecognized type, expected a principal or a policy, got %s"), c)
  rule_of (other k) c =
      (err (message "unrecognized type, expected a principal or a policy, got %s"), c)

  -- The loop, with the policies so far.
  unfoldable pub rules_from :
      {F : Type 0}
      → List (Value F)
      → List SignaturePolicy
      → Context
      → Result (List SignaturePolicy) × Context
  rules_from [] policies c = (ok policies, c)
  rules_from (principal ∷ rest) policies c =
      then_with (rule_of principal c) λ p d. rules_from rest (policies ++ p ∷ []) d

  unfoldable pub checked_rules :
      {F : Type 0} → ℤ → List (Value F) → Context → Result (Value F) × Context
  unfolding n_out_of
  checked_rules t rest c =
      if is_invalid_threshold t (length rest)
      then (err (message "invalid t-out-of-n predicate, t %d, n %d"), c)
      else then_with (rules_from rest [] c)
          λ policies d. (ok (policy (n_out_of (int32 t) policies)), d)

module _ {F : Type 0} (n : Numbers F) (marshal_role : String → RoleType → Result Bytes) where
  -- The arguments that follow the context.
  abbrev pub with_threshold : List (Value F) → Context → Result (Value F) × Context
  with_threshold (float64 arg ∷ rest) c = checked_rules marshal_role (n.int_of_float arg) rest c
  with_threshold _ c = (err (message "unrecognized type, expected a number, got %s"), c)

  abbrev pub with_args : List (Value F) → Context → Result (Value F) × Context
  with_args (context_pointer ∷ rest) c = with_threshold rest c
  with_args _ c = (err (message "unrecognized type, expected the context, got %s"), c)

  unfoldable pub second_pass : List (Value F) → Context → Result (Value F) × Context
  second_pass args c =
      if ltb (length args) 3
      then (err (message "at least 3 arguments expected, got %d"), c)
      else with_args args c
