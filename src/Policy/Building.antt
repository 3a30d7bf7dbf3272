-- ===== src/Policy/Building.antt =====
-- The last pass of `FromString` (internal/chaincode/policy/policydsl.go), run on the calls that the
-- policy language can write: what `secondPass` builds is what the gates mean.
use mathlib.Core.List.{append_assoc, append-nil}
use fabricsdk_go.Prelude.{
  ℕ, ◌+◌, ◌%◌, ◌≤◌, ◌^◌, suc, String, List, [], ◌∷◌, ◌++◌, true, false, Bytes, Result, ok, pos,
  negsuc, ltb, if◌then◌else◌, ◌-◌, length, length-append, ◌≡◌, refl, ap, arith,
}
use fabricsdk_go.Policy.{
  SignaturePolicy, signed_by, n_out_of, int32_of, RoleType, Principal, Value, string, float64,
  context_pointer, policy, Numbers,
}
use fabricsdk_go.Policy.Principals.{all_allowed}
use fabricsdk_go.Policy.SecondPass.{Context, rule_of, rules_from, checked_rules, second_pass}
use fabricsdk_go.Policy.FromString.{Govaluate, second_functions}
use fabricsdk_go.Policy.Calls.{run, run_all}
use fabricsdk_go.Policy.Language.{
  Gate, gate, GateName, Spelling, Arg, principal, nested, Args, no_more, and_then, principal_text,
  count, threshold, IsWritten, IsWrittenArg, AreWritten, direct_of, directs_of, identities_of,
  inner_of, inners_of, meaning, arg_meaning, args_meaning, with_context, with_context_arg,
  with_context_args,
}
use fabricsdk_go.Policy.Regex.{find_all-principal, role_of-role_text}

-- A context with these principals and no others.
abbrev pub counting : List Principal → Context
counting ps = record { id_num = length ps % 2 ^ 64; principals = ps }

wrapped_index : (i : ℕ) → int32_of (i % 2 ^ 64) ≡ int32_of i
wrapped_index i =
    let same : i % 2 ^ 64 % 2 ^ 32 ≡ i % 2 ^ 32 = omega arith in
    ap (λ (r : ℕ). if ltb r (2 ^ 31) then pos r else negsuc (2 ^ 32 - 1 - r)) same

pub three_args : (m : ℕ) → ltb (suc (suc (suc m))) 3 ≡ false
three_args m = ground arith

pub not_below : (m k : ℕ) → k ≤ m → ltb m k ≡ false
not_below m k le = ground arith

counting-next :
    (ps : List Principal) (p : Principal)
    → (length ps % 2 ^ 64 + 1) % 2 ^ 64 ≡ length (ps ++ p ∷ []) % 2 ^ 64
counting-next ps p = rw (length-append ps (p ∷ [])) (omega arith)

module _ (bytes_of : String → RoleType → Bytes) (F : Type 0) where
  -- The value that an argument has when secondPass is called, if `i` is the number of the next
  -- identity.
  abbrev pub built_value : ℕ → Arg → Value F
  built_value i (principal org r) = string (principal_text org r)
  built_value i (nested g) = policy (meaning bytes_of i g)

  abbrev pub built_values : ℕ → Args → List (Value F)
  built_values i no_more = []
  built_values i (and_then a rest) =
      built_value i a ∷ built_values (i + length (inner_of bytes_of a)) rest

  length-built_values : (i : ℕ) (rest : Args) → length (built_values i rest) ≡ count rest
  length-built_values i no_more = refl
  length-built_values i (and_then a rest) =
      ap suc (length-built_values (i + length (inner_of bytes_of a)) rest)

module _ (bytes_of : String → RoleType → Bytes) (marshal_role : String → RoleType → Result Bytes)
    (marshals : (org : String) (r : RoleType)
      → all_allowed org ≡ true
      → marshal_role org r ≡ ok (bytes_of org r))
    (F : Type 0) where
  rule_of-built_value :
      (i : ℕ) (a : Arg) (ps : List Principal)
      → IsWrittenArg a
      → rule_of marshal_role (built_value bytes_of F i a) (counting ps)
        ≡ (ok (arg_meaning bytes_of i (length ps) a), counting (ps ++ direct_of bytes_of a))
  unfolding rule_of IsWritten meaning signed_by
  rule_of-built_value i (principal org r) ps (not_empty, allowed) =
      rw
        (
          find_all-principal org r not_empty allowed,
          role_of-role_text r,
          marshals org r allowed,
          counting-next ps (record { principal = bytes_of org r }),
          wrapped_index (length ps),
        )
        refl
  rule_of-built_value i (nested g) ps w = rw (append-nil ps) refl

  rules_from-built_values :
      (i : ℕ) (rest : Args) (acc : List SignaturePolicy) (ps : List Principal)
      → AreWritten rest
      → rules_from marshal_role (built_values bytes_of F i rest) acc (counting ps) ≡ (
        ok (acc ++ args_meaning bytes_of i (length ps) rest),
        counting (ps ++ directs_of bytes_of rest),
      )
  unfolding rules_from IsWritten meaning
  rules_from-built_values i no_more acc ps w = rw (append-nil ps, append-nil acc) refl
  rules_from-built_values i (and_then a rest) acc ps (w, ws) =
      let m = arg_meaning bytes_of i (length ps) a in
      rw
        (
          rule_of-built_value i a ps w,
          rules_from-built_values (i + length (inner_of bytes_of a)) rest (acc ++ m ∷ [])
              (ps ++ direct_of bytes_of a) ws,
          length-append ps (direct_of bytes_of a),
          append_assoc ps (direct_of bytes_of a) (directs_of bytes_of rest),
          append_assoc acc (m ∷ []) (
              args_meaning bytes_of (i + length (inner_of bytes_of a))
                (length ps + length (direct_of bytes_of a)) rest),
        )
        refl

  -- `secondPass` on the arguments of a gate.
  second_pass-built_values :
      (n : Numbers F) (x : F) (s : Spelling) (g : GateName) (a : Arg) (rest : Args)
      (ps : List Principal)
      → n.int_of_float x ≡ pos (threshold g (suc (count rest)))
      → IsWritten (gate s g a rest)
      → second_pass n marshal_role
          (context_pointer ∷ float64 x ∷ built_values bytes_of F (length ps) (and_then a rest))
          (counting (ps ++ inners_of bytes_of (and_then a rest)))
        ≡ (
          ok (policy (meaning bytes_of (length ps) (gate s g a rest))),
          counting (ps ++ identities_of bytes_of (gate s g a rest)),
        )
  unfolding second_pass checked_rules IsWritten meaning identities_of n_out_of
  second_pass-built_values n x s g a rest ps exact (le, few, w, ws) =
      let i = length ps + length (inner_of bytes_of a) in
      let inside = inners_of bytes_of (and_then a rest) in
      let asked : threshold g (suc (count rest))
          ≤ suc (length (built_values bytes_of F i rest)) + 1 =
        rw (length-built_values bytes_of F i rest) (omega arith) in
      rw
        (
          exact,
          three_args (length (built_values bytes_of F i rest)),
          not_below _ _ asked,
          rules_from-built_values (length ps) (and_then a rest) [] (ps ++ inside) (w, ws),
          length-append ps inside,
          append_assoc ps inside (directs_of bytes_of (and_then a rest)),
        )
        refl

  module _ (v : Govaluate F) (n : Numbers F) (float_of : ℕ → F)
      (exact : (k : ℕ) → k ≤ 2 ^ 53 → n.int_of_float (float_of k) ≡ pos k) where
    -- The last pass: gates become policies, and the context gets their identities.
    mutual
      unfolding IsWritten run with_context identities_of meaning

      pub run-with_context :
          (g : Gate) (ps : List Principal)
          → IsWritten g
          → run float_of
              (second_functions v n marshal_role)
              (("ID", context_pointer) ∷ [])
              (with_context g)
              (counting ps)
            ≡ (
              ok (policy (meaning bytes_of (length ps) g)),
              counting (ps ++ identities_of bytes_of g),
            )
      run-with_context (gate s g a rest) ps (le, few, w, ws) =
          let k = threshold g (suc (count rest)) in
          rw
            (
              run-with_context_arg a ps w,
              run-with_context_args rest (ps ++ inner_of bytes_of a) ws,
              length-append ps (inner_of bytes_of a),
              append_assoc ps (inner_of bytes_of a) (inners_of bytes_of rest),
            )
            (second_pass-built_values n (float_of k) s g a rest ps (exact k (omega arith))
              (le, few, w, ws))

      run-with_context_arg :
          (a : Arg) (ps : List Principal)
          → IsWrittenArg a
          → run float_of
              (second_functions v n marshal_role)
              (("ID", context_pointer) ∷ [])
              (with_context_arg a)
              (counting ps)
            ≡ (ok (built_value bytes_of F (length ps) a), counting (ps ++ inner_of bytes_of a))
      run-with_context_arg (principal org r) ps w = rw (append-nil ps) refl
      run-with_context_arg (nested g) ps w = run-with_context g ps w

      run-with_context_args :
          (rest : Args) (ps : List Principal)
          → AreWritten rest
          → run_all float_of
              (second_functions v n marshal_role)
              (("ID", context_pointer) ∷ [])
              (with_context_args rest)
              (counting ps)
            ≡ (
              ok (built_values bytes_of F (length ps) rest),
              counting (ps ++ inners_of bytes_of rest),
            )
      run-with_context_args no_more ps ws = rw (append-nil ps) refl
      run-with_context_args (and_then a rest) ps (w, ws) =
          rw
            (
              run-with_context_arg a ps w,
              run-with_context_args rest (ps ++ inner_of bytes_of a) ws,
              length-append ps (inner_of bytes_of a),
              append_assoc ps (inner_of bytes_of a) (inners_of bytes_of rest),
            )
            refl
