-- ===== src/Policy/Language.antt =====
-- The policy language that `FromString` of internal/chaincode/policy/policydsl.go documents, and the
-- policy that a gate means: first the gates inside it get their identities, from left to right, and
-- then the principals that stand directly in it.
use Prim.Native.String.{◌++◌ as append}
use fabricsdk_go.Prelude.{
  ℕ, ◌+◌, ◌≤◌, ◌<◌, ◌^◌, suc, String, List, [], ◌∷◌, ◌++◌, true, Bytes, length, ◌≡◌, ◌≢◌,
}
use fabricsdk_go.Policy.{
  SignaturePolicy, type_signed_by, type_n_out_of, rules_of, int32_of, RoleType, member, admin,
  client, peer, orderer, Principal,
}
use fabricsdk_go.Policy.Principals.{all_allowed}
use fabricsdk_go.Policy.Calls.{Tree, literal, number, parameter, call, Trees, end, then_tree}

pub data GateName : Type 0 where
  and_name or_name : GateName
  out_of_name : ℕ → GateName

-- And, and, AND
pub data Spelling : Type 0 where
  title lower upper : Spelling

mutual
  pub data Gate : Type 0 where
    gate : Spelling → GateName → Arg → Args → Gate

  pub data Arg : Type 0 where
    principal : String → RoleType → Arg
    nested : Gate → Arg

  pub data Args : Type 0 where
    no_more : Args
    and_then : Arg → Args → Args

abbrev pub role_text : RoleType → String
role_text member = "member"
role_text admin = "admin"
role_text client = "client"
role_text peer = "peer"
role_text orderer = "orderer"

-- ORG.ROLE
abbrev pub principal_text : String → RoleType → String
principal_text org r = append org (append "." (role_text r))

abbrev pub count : Args → ℕ
count no_more = 0
count (and_then a rest) = suc (count rest)

-- How many of `n` arguments a gate asks for.
abbrev pub threshold : GateName → ℕ → ℕ
threshold and_name n = n
threshold or_name n = 1
threshold (out_of_name k) n = k

-- Organisations have a name that the language can write, and no gate asks for more than one
-- argument too many.
unfoldable mutual
  pub IsWritten : Gate → Type 0
  IsWritten (gate s g a rest) =
      (threshold g (suc (count rest)) ≤ suc (suc (count rest)))
      × (suc (suc (count rest)) < 2 ^ 31)
      × IsWrittenArg a
      × AreWritten rest

  pub IsWrittenArg : Arg → Type 0
  IsWrittenArg (principal org r) = (org ≢ "") × (all_allowed org ≡ true)
  IsWrittenArg (nested g) = IsWritten g

  pub AreWritten : Args → Type 0
  AreWritten no_more = Unit
  AreWritten (and_then a rest) = IsWrittenArg a × AreWritten rest

module _ (bytes_of : String → RoleType → Bytes) where
  -- The principals that stand directly in a gate.
  abbrev pub direct_of : Arg → List Principal
  direct_of (principal org r) = record { principal = bytes_of org r } ∷ []
  direct_of (nested g) = []

  abbrev pub directs_of : Args → List Principal
  directs_of no_more = []
  directs_of (and_then a rest) = direct_of a ++ directs_of rest

  unfoldable mutual
    pub identities_of : Gate → List Principal
    identities_of (gate s g a rest) =
        (inner_of a ++ inners_of rest) ++ (direct_of a ++ directs_of rest)

    pub inner_of : Arg → List Principal
    inner_of (principal org r) = []
    inner_of (nested g) = identities_of g

    pub inners_of : Args → List Principal
    inners_of no_more = []
    inners_of (and_then a rest) = inner_of a ++ inners_of rest

  -- The rule of a gate whose identities are numbered from `i` on. For arguments, `i` is the number
  -- of the next identity inside a gate and `d` that of the next principal that stands directly.
  unfoldable mutual
    pub meaning : ℕ → Gate → SignaturePolicy
    meaning i (gate s g a rest) =
        let d = i + length (inner_of a ++ inners_of rest) in
        type_n_out_of (int32_of (threshold g (suc (count rest)))) (
          rules_of (
            arg_meaning i d a
            ∷ args_meaning (i + length (inner_of a)) (d + length (direct_of a)) rest))

    pub arg_meaning : ℕ → ℕ → Arg → SignaturePolicy
    arg_meaning i d (principal org r) = type_signed_by (int32_of d)
    arg_meaning i d (nested g) = meaning i g

    pub args_meaning : ℕ → ℕ → Args → List SignaturePolicy
    args_meaning i d no_more = []
    args_meaning i d (and_then a rest) =
        arg_meaning i d a ∷ args_meaning (i + length (inner_of a)) (d + length (direct_of a)) rest

-- The calls that a user writes.
abbrev pub gate_text : Spelling → GateName → String
gate_text title and_name = "And"
gate_text lower and_name = "and"
gate_text upper and_name = "AND"
gate_text title or_name = "Or"
gate_text lower or_name = "or"
gate_text upper or_name = "OR"
gate_text title (out_of_name k) = "OutOf"
gate_text lower (out_of_name k) = "outof"
gate_text upper (out_of_name k) = "OUTOF"

abbrev pub written_call : String → GateName → Tree → Trees → Tree
written_call name and_name first rest = call name first rest
written_call name or_name first rest = call name first rest
written_call name (out_of_name k) first rest = call name (number k) (then_tree first rest)

unfoldable mutual
  pub written : Gate → Tree
  written (gate s g a rest) = written_call (gate_text s g) g (written_arg a) (written_args rest)

  pub written_arg : Arg → Tree
  written_arg (principal org r) = literal (principal_text org r)
  written_arg (nested g) = written g

  pub written_args : Args → Trees
  written_args no_more = end
  written_args (and_then a rest) = then_tree (written_arg a) (written_args rest)

-- The calls of outof that the first pass makes of them, and those with the context that the second
-- makes.
unfoldable mutual
  pub rewritten : Gate → Tree
  rewritten (gate s g a rest) =
      call "outof" (number (threshold g (suc (count rest))))
        (then_tree (rewritten_arg a) (rewritten_args rest))

  pub rewritten_arg : Arg → Tree
  rewritten_arg (principal org r) = literal (principal_text org r)
  rewritten_arg (nested g) = rewritten g

  pub rewritten_args : Args → Trees
  rewritten_args no_more = end
  rewritten_args (and_then a rest) = then_tree (rewritten_arg a) (rewritten_args rest)

unfoldable mutual
  pub with_context : Gate → Tree
  with_context (gate s g a rest) = call "outof" (parameter "ID") (
      then_tree (number (threshold g (suc (count rest))))
        (then_tree (with_context_arg a) (with_context_args rest)))

  pub with_context_arg : Arg → Tree
  with_context_arg (principal org r) = literal (principal_text org r)
  with_context_arg (nested g) = with_context g

  pub with_context_args : Args → Trees
  with_context_args no_more = end
  with_context_args (and_then a rest) = then_tree (with_context_arg a) (with_context_args rest)
