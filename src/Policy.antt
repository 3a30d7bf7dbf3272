-- ===== src/Policy.antt =====
-- internal/chaincode/policy/policydsl.go: signature policies, what builds them, and the values that
-- the expression evaluator hands to the functions of the policy language.
pub mod Principals
pub mod Gates
pub mod SecondPass
pub mod FromString
pub mod Indexed
pub mod Bounded
pub mod Safe
pub mod Calls
pub mod Language
pub mod Regex
pub mod Rewriting
pub mod Rewritten
pub mod Building
pub mod Satisfies
pub mod Refines
pub mod Arguments
pub mod Thresholds
use fabricsdk_go.Prelude.{
  ℕ, ◌-◌, ◌^◌, ◌%◌, String, List, [], ◌∷◌, Bytes, ltb, if◌then◌else◌, ℤ, pos, negsuc, Result,
}

-- `cb.SignaturePolicy`: the two cases of its field Type.
mutual
  pub data SignaturePolicy : Type 0 where
    type_signed_by : ℤ → SignaturePolicy
    type_n_out_of : ℤ → Rules → SignaturePolicy

  pub data Rules : Type 0 where
    no_rules : Rules
    rule : SignaturePolicy → Rules → Rules

abbrev pub rules_of : List SignaturePolicy → Rules
rules_of [] = no_rules
rules_of (p ∷ ps) = rule p (rules_of ps)

-- `int32(i)` of an `int` whose 64 bits are those of i: two's complement.
abbrev pub int32_of : ℕ → ℤ
int32_of i = let r = i % 2 ^ 32 in if ltb r (2 ^ 31) then pos r else negsuc (2 ^ 32 - 1 - r)

-- `int32(t)` of a signed number.
abbrev pub int32 : ℤ → ℤ
int32 (pos n) = int32_of n
int32 (negsuc n) = int32_of (2 ^ 32 - 1 - n % 2 ^ 32)

unfoldable pub signed_by : ℤ → SignaturePolicy
signed_by index = type_signed_by index

unfoldable pub n_out_of : ℤ → List SignaturePolicy → SignaturePolicy
n_out_of n policies = type_n_out_of n (rules_of policies)

-- `And` and `Or` of the builder.
unfoldable pub and_policy : SignaturePolicy → SignaturePolicy → SignaturePolicy
unfolding n_out_of
and_policy lhs rhs = n_out_of (pos 2) (lhs ∷ rhs ∷ [])

unfoldable pub or_policy : SignaturePolicy → SignaturePolicy → SignaturePolicy
unfolding n_out_of
or_policy lhs rhs = n_out_of (pos 1) (lhs ∷ rhs ∷ [])

-- `mb.MSPRole_MSPRoleType`
pub data RoleType : Type 0 where
  member admin client peer orderer : RoleType

-- An `mb.MSPPrincipal` of the classification ROLE: its bytes are those of an MSPRole.
pub record Principal : Type 0 where
  pub principal : Bytes

-- What an `interface{}` argument holds: the cases that the code tells apart, floats of a type `F`.
-- There is one context in a run, so that the pointer to it has no content.
pub data Value (F : Type 0) : Type 0 where
  string : String → Value F
  float64 : F → Value F
  float32 : F → Value F
  int : ℤ → Value F
  context_pointer : Value F
  policy : SignaturePolicy → Value F
  other : ℕ → Value F

-- `int(x)` of a float64, and `strconv.Itoa`.
pub record Numbers (F : Type 0) : Type 0 where
  pub int_of_float : F → ℤ
  pub itoa : ℤ → String

-- A function that an expression may call. It reads and changes a state, here the context.
abbrev pub Function : Type 0 → Type 0 → Type 0
Function F S = List (Value F) → S → Result (Value F) × S
