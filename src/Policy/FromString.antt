-- ===== src/Policy/FromString.antt =====
-- `FromString` of policydsl.go. The evaluator of expressions, govaluate, is a parameter.
use fabricsdk_go.Prelude.{
  ℕ, String, List, [], ◌∷◌, Option, none, some, Bytes, Result, ok, err, panic, message, Error,
  ◌>>=◌,
}
use fabricsdk_go.Policy.{
  SignaturePolicy, RoleType, Principal, Value, string, context_pointer, policy, Numbers, Function,
}
use fabricsdk_go.Policy.Gates.{outof, and_gate, or_gate, first_pass}
use fabricsdk_go.Policy.SecondPass.{Context, new_context, second_pass}

-- govaluate: reading an expression that may call the given functions, evaluating it with
-- parameters, and the name in an error that a parameter was not found (`regexErr`).
pub record Govaluate (F : Type 0) : Type 1 where
  pub Expression : Type 0 → Type 0
  pub new_evaluable_expression_with_functions :
      {S : Type 0} → String → List (String × Function F S) → Result (Expression S)
  pub evaluate : {S : Type 0} → Expression S → List (String × Value F) → S → Result (Value F) × S
  pub no_parameter : Error → Option String

pub record SignaturePolicyEnvelope : Type 0 where
  pub version : ℕ
  pub rule : SignaturePolicy
  pub identities : List Principal

-- A function that does not use the state.
abbrev pub stateless :
    {F : Type 0} {S : Type 0} → (List (Value F) → Result (Value F)) → Function F S
stateless f args s = (f args, s)

module _ {F : Type 0} (v : Govaluate F) (n : Numbers F)
    (marshal_role : String → RoleType → Result Bytes) where
  abbrev pub meaningful : Error → Error
  meaningful e = elim (v.no_parameter e) [
    | none ↦ e
    | some token ↦ message "unrecognized token '%s' in policy string"
  ]

  abbrev pub explained : {S : Type 0} → Result (Value F) × S → Result (Value F) × S
  explained (ok x, s) = (ok x, s)
  explained (err e, s) = (err (meaningful e), s)
  explained (panic, s) = (panic, s)

  abbrev pub evaluated :
      {S : Type 0} → Result (v.Expression S) → List (String × Value F) → S → Result (Value F) × S
  evaluated (ok e) parameters s = explained (v.evaluate e parameters s)
  evaluated (err e) parameters s = (err e, s)
  evaluated panic parameters s = (panic, s)

  -- Reading and evaluating, as each of the three passes does.
  abbrev pub pass :
      {S : Type 0}
      → String
      → List (String × Function F S)
      → List (String × Value F)
      → S
      → Result (Value F) × S
  pass text functions parameters s =
      evaluated (v.new_evaluable_expression_with_functions text functions) parameters s

  -- `res.(string)`
  abbrev pub as_string : Value F → Result String
  as_string (string s) = ok s
  as_string _ = err (message "invalid policy string '%s'")

  -- `res.(*cb.SignaturePolicy)`
  abbrev pub as_policy : Value F → Result SignaturePolicy
  as_policy (policy p) = ok p
  as_policy _ = err (message "invalid policy string '%s'")

  unfoldable pub gates : List (String × Function F Unit)
  gates =
      ("And", stateless (and_gate n))
      ∷ ("and", stateless (and_gate n))
      ∷ ("AND", stateless (and_gate n))
      ∷ ("Or", stateless (or_gate n))
      ∷ ("or", stateless (or_gate n))
      ∷ ("OR", stateless (or_gate n))
      ∷ ("OutOf", stateless (outof n))
      ∷ ("outof", stateless (outof n))
      ∷ ("OUTOF", stateless (outof n))
      ∷ []

  abbrev pub first_functions : List (String × Function F Unit)
  first_functions = ("outof", stateless (first_pass n)) ∷ []

  abbrev pub second_functions : List (String × Function F Context)
  second_functions = ("outof", second_pass n marshal_role) ∷ []

  -- What the last pass leaves: the rule, and the principals of the context.
  abbrev pub envelope_of : Result (Value F) × Context → Result SignaturePolicyEnvelope
  envelope_of (res, c) = do
    value ← res
    rule ← as_policy value
    ok (record { version = 0; rule = rule; identities = c.principals })

  unfoldable pub from_string : String → Result SignaturePolicyEnvelope
  unfolding gates new_context
  from_string text = do
    intermediate_res ← (pass text gates [] tt).0
    intermediate ← as_string intermediate_res
    res ← (pass intermediate first_functions [] tt).0
    last ← as_string res
    envelope_of (pass last second_functions (("ID", context_pointer) ∷ []) new_context)
