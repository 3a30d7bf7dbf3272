-- ===== src/Examples/Policies.antt =====
-- And('Org1.member', OR('Org1.admin', 'Org2.peer')), read by `FromString`.
use fabricsdk_go.Prelude.{
  ℕ, ◌+◌, ◌≤◌, String, List, [], ◌∷◌, Bool, true, false, Bytes, codes, Result, ok, leb, ◌≡◌, ◌≢◌,
  refl, sym, ap, ◌∙◌, ℤ, pos, arith, bytes_eq,
}
use fabricsdk_go.Policy.{
  SignaturePolicy, signed_by, n_out_of, type_signed_by, type_n_out_of, rules_of, RoleType, member,
  admin, client, peer, orderer, Principal, Value, string, float64, context_pointer, policy,
}
use fabricsdk_go.Policy.SecondPass.{
  Context, new_context, second_pass, checked_rules, rules_from, rule_of,
}
use fabricsdk_go.Policy.Gates.{and_gate, or_gate, outof, quoted, first_pass}
use fabricsdk_go.Policy.FromString.{
  SignaturePolicyEnvelope, from_string, gates, first_functions, second_functions,
}
use fabricsdk_go.Policy.Calls.{Tree, render, run, Reads}
use fabricsdk_go.Policy.Language.{
  Gate, gate, and_name, or_name, title, upper, principal, nested, no_more, and_then, IsWritten,
  written, rewritten, with_context, meaning, identities_of,
}
use fabricsdk_go.Policy.Principals.{find_all_string_submatch, match_string}
use fabricsdk_go.Policy.Indexed.{Keeps, IsGood, Indexed}
use fabricsdk_go.Policy.Bounded.{second_pass-Keeps}
use fabricsdk_go.Policy.Safe.{from_string-RefersBelow, RefersBelow}
use fabricsdk_go.Policy.Refines.{from_string-meaning, from_string-holds}
use fabricsdk_go.Policy.Satisfies.{satisfies, satisfied, signs_among, holds}
use fabricsdk_go.Policy.Arguments.{RulesFor}
use fabricsdk_go.Policy.Thresholds.{second_pass-satisfied, second_pass-zero}
use fabricsdk_go.Examples.Evaluator.{small_numbers, evaluator, evaluator-CallsOnly}

abbrev role_byte : RoleType → ℕ
role_byte member = 0
role_byte admin = 1
role_byte client = 2
role_byte peer = 3
role_byte orderer = 6

abbrev role_bytes : String → RoleType → Bytes
role_bytes org r = role_byte r ∷ codes org

abbrev marshal_role : String → RoleType → Result Bytes
marshal_role org r = ok (role_bytes org r)

abbrev example_gate : Gate
example_gate = gate title and_name (principal "Org1" member) (
    and_then
      (nested
        (gate upper or_name (principal "Org1" admin) (and_then (principal "Org2" peer) no_more)))
      no_more)

abbrev example_trees : List Tree
example_trees = written example_gate ∷ rewritten example_gate ∷ with_context example_gate ∷ []

abbrev example_text : String
example_text = "And('Org1.member', OR('Org1.admin', 'Org2.peer'))"

written_text : render small_numbers (written example_gate) ≡ example_text
unfolding render written
written_text = refl

abbrev policy_of : Principal → Principal → Principal → SignaturePolicy
policy_of a b c = type_n_out_of (pos 2) (
    rules_of (
      type_signed_by (pos 2)
      ∷ type_n_out_of (pos 1) (rules_of (type_signed_by (pos 0) ∷ type_signed_by (pos 1) ∷ []))
      ∷ []))

abbrev identity : String → RoleType → Principal
identity org r = record { principal = role_bytes org r }

abbrev example_envelope : SignaturePolicyEnvelope
example_envelope = record {
  version = 0;
  rule = policy_of (identity "Org1" admin) (identity "Org2" peer) (identity "Org1" member);
  identities = identity "Org1" admin ∷ identity "Org2" peer ∷ identity "Org1" member ∷ [];
}

from_string_test :
    from_string (evaluator example_trees) small_numbers marshal_role example_text
    ≡ ok example_envelope
unfolding from_string gates new_context and_gate or_gate outof quoted match_string
    find_all_string_submatch first_pass second_pass checked_rules rules_from rule_of run render
    written rewritten with_context n_out_of signed_by
from_string_test = refl

from_string-RefersBelow_example : RefersBelow 3 example_envelope.rule
from_string-RefersBelow_example =
    from_string-RefersBelow (evaluator example_trees) (evaluator-CallsOnly example_trees)
      small_numbers marshal_role example_text example_envelope from_string_test (omega arith)

not_blank : (s : String) (b : ℕ) (bs : List ℕ) → codes s ≡ b ∷ bs → s ≢ ""
not_blank s b bs h same = let none : [] ≡ b ∷ bs = ap codes (sym same) ∙ h in cc

abbrev IsNamed : String → Type 0
IsNamed s = s ≢ ""

org1-IsNamed : IsNamed "Org1"
org1-IsNamed = not_blank "Org1" _ _ refl

org2-IsNamed : IsNamed "Org2"
org2-IsNamed = not_blank "Org2" _ _ refl

example-IsWritten : IsWritten example_gate
unfolding IsWritten
example-IsWritten = (
  omega arith,
  omega arith,
  (org1-IsNamed, refl),
  ((omega arith, omega arith, (org1-IsNamed, refl), ((org2-IsNamed, refl), tt)), tt),
)

written-Reads :
    Reads
      (evaluator example_trees)
      small_numbers
      pos
      (gates (evaluator example_trees) small_numbers marshal_role)
      (written example_gate)
unfolding render written rewritten with_context
written-Reads = (
  (written example_gate, gates (evaluator example_trees) small_numbers marshal_role),
  refl,
  λ parameters s. refl,
)

rewritten-Reads :
    Reads
      (evaluator example_trees)
      small_numbers
      pos
      (first_functions (evaluator example_trees) small_numbers marshal_role)
      (rewritten example_gate)
unfolding render written rewritten with_context
rewritten-Reads = (
  (rewritten example_gate, first_functions (evaluator example_trees) small_numbers marshal_role),
  refl,
  λ parameters s. refl,
)

with_context-Reads :
    Reads
      (evaluator example_trees)
      small_numbers
      pos
      (second_functions (evaluator example_trees) small_numbers marshal_role)
      (with_context example_gate)
unfolding render written rewritten with_context
with_context-Reads = (
  (
    with_context example_gate,
    second_functions (evaluator example_trees) small_numbers marshal_role,
  ),
  refl,
  λ parameters s. refl,
)

from_string-meaning_example :
    from_string
      (evaluator example_trees)
      small_numbers
      marshal_role
      (render small_numbers (written example_gate))
    ≡ ok (record {
      version = 0;
      rule = meaning role_bytes 0 example_gate;
      identities = identities_of role_bytes example_gate;
    })
from_string-meaning_example =
    from_string-meaning (evaluator example_trees) small_numbers marshal_role pos (λ k small. refl)
      role_bytes (λ org r allowed. refl) example_gate example-IsWritten written-Reads
      rewritten-Reads with_context-Reads

abbrev gate_envelope : SignaturePolicyEnvelope
gate_envelope = record {
  version = 0;
  rule = meaning role_bytes 0 example_gate;
  identities = identities_of role_bytes example_gate;
}

abbrev is_org1 : Principal → Bool
is_org1 p = bytes_eq p.principal (role_bytes "Org1" member)

from_string-holds_example :
    satisfies
      (signs_among is_org1 (identities_of role_bytes example_gate))
      (meaning role_bytes 0 example_gate)
    ≡ holds role_bytes is_org1 example_gate
unfolding identities_of
from_string-holds_example =
    from_string-holds (evaluator example_trees) small_numbers marshal_role pos (λ k small. refl)
      role_bytes (λ org r allowed. refl) example_gate example-IsWritten written-Reads
      rewritten-Reads with_context-Reads gate_envelope from_string-meaning_example (omega arith)
      is_org1

-- One identity, and a policy that refers to it.
abbrev one_identity : Context
one_identity = record { id_num = 1; principals = identity "Org1" admin ∷ [] }

abbrev example_args : List (Value ℤ)
example_args =
    context_pointer ∷ float64 (pos 2) ∷ string "Org2.peer" ∷ policy (type_signed_by (pos 0)) ∷ []

second_pass-Keeps_example :
    Keeps IsGood one_identity (second_pass small_numbers marshal_role example_args one_identity)
unfolding Indexed
second_pass-Keeps_example =
    second_pass-Keeps small_numbers marshal_role example_args one_identity refl
      (tt, (tt, (tt, ((0, refl, omega arith), tt))))

abbrev two_rules : List SignaturePolicy
two_rules = type_signed_by (pos 1) ∷ type_signed_by (pos 0) ∷ []

abbrev two_arguments : List (Value ℤ)
two_arguments = string "Org2.peer" ∷ policy (type_signed_by (pos 0)) ∷ []

second_pass-satisfied_example :
    (k : ℕ) × (ps : List SignaturePolicy) × (pos 2 ≡ pos k)
    × (k ≤ 2 + 1)
    × (type_n_out_of (pos 2) (rules_of two_rules) ≡ type_n_out_of (pos k) (rules_of ps))
    × RulesFor marshal_role (identity "Org1" admin ∷ identity "Org2" peer ∷ []) two_arguments ps
    × (satisfies (λ z. true) (type_n_out_of (pos 2) (rules_of two_rules))
        ≡ leb k (satisfied (λ z. true) (rules_of ps)))
unfolding second_pass checked_rules rules_from rule_of find_all_string_submatch n_out_of signed_by
second_pass-satisfied_example =
    second_pass-satisfied small_numbers marshal_role (pos 2) two_arguments one_identity
      (record { id_num = 2; principals = identity "Org1" admin ∷ identity "Org2" peer ∷ [] })
      (type_n_out_of (pos 2) (rules_of two_rules)) refl (omega arith) refl (λ z. true)

second_pass-zero_example :
    (q : SignaturePolicy) × (second_pass small_numbers marshal_role
        (context_pointer ∷ float64 (pos 0) ∷ policy (type_signed_by (pos 0)) ∷ [])
        one_identity
      ≡ (ok (policy q), one_identity))
    × (satisfies (λ z. false) q ≡ true)
second_pass-zero_example =
    second_pass-zero small_numbers marshal_role (pos 0) (type_signed_by (pos 0)) [] one_identity
      refl
