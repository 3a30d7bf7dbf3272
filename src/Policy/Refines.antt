-- ===== src/Policy/Refines.antt =====
-- `FromString` (internal/chaincode/policy/policydsl.go) on what its comment says that the language is.
use fabricsdk_go.Prelude.{
  ℕ, ◌≤◌, ◌^◌, String, [], ◌∷◌, Bool, true, Bytes, Result, ok, length, pos, ◌≡◌, refl, sym, ◌∙◌,
  arith,
}
use mathlib.Core.List.{append-nil}
use fabricsdk_go.Policy.{context_pointer, Numbers, RoleType, Principal}
use fabricsdk_go.Policy.Principals.{all_allowed}
use fabricsdk_go.Policy.SecondPass.{new_context}
use fabricsdk_go.Policy.FromString.{
  Govaluate, SignaturePolicyEnvelope, from_string, gates, first_functions, second_functions,
}
use fabricsdk_go.Policy.Calls.{render, Reads}
use fabricsdk_go.Policy.Language.{
  Gate, IsWritten, identities_of, meaning, written, rewritten, with_context,
}
use fabricsdk_go.Policy.Rewritten.{run-written, run-rewritten}
use fabricsdk_go.Policy.Building.{run-with_context}
use fabricsdk_go.Policy.Satisfies.{satisfies, signs_among, holds, satisfies-meaning}

module _ {F : Type 0} (v : Govaluate F) (n : Numbers F)
    (marshal_role : String → RoleType → Result Bytes) (float_of : ℕ → F)
    (exact : (k : ℕ) → k ≤ 2 ^ 53 → n.int_of_float (float_of k) ≡ pos k)
    (bytes_of : String → RoleType → Bytes)
    (marshals : (org : String) (r : RoleType)
      → all_allowed org ≡ true
      → marshal_role org r ≡ ok (bytes_of org r)) where
  -- If the evaluator reads the three texts that arise from a gate as the calls that they spell, and
  -- the bytes of roles can be made, `FromString` succeeds on the text of the gate and returns its
  -- meaning, with version 0 and the identities in their order.
  pub from_string-meaning :
      (g : Gate)
      → IsWritten g
      → Reads v n float_of (gates v n marshal_role) (written g)
      → Reads v n float_of (first_functions v n marshal_role) (rewritten g)
      → Reads v n float_of (second_functions v n marshal_role) (with_context g)
      → from_string v n marshal_role (render n (written g))
        ≡ ok (record {
          version = 0;
          rule = meaning bytes_of 0 g;
          identities = identities_of bytes_of g;
        })
  unfolding from_string gates new_context
  from_string-meaning g w (e1, read1, eval1) (e2, read2, eval2) (e3, read3, eval3) =
      rw
        (
          read1,
          eval1 [] tt,
          run-written v n marshal_role float_of exact g w,
          read2,
          eval2 [] tt,
          run-rewritten v n marshal_role float_of exact g w,
          read3,
          eval3 (("ID", context_pointer) ∷ []) (record { id_num = 0; principals = [] }),
          run-with_context bytes_of marshal_role marshals F v n float_of exact g [] w,
        )
        refl

  -- Under the same conditions, and with at most 2^31 identities, the signatures of some principals
  -- satisfy the rule that `FromString` returns, each index read as the identity at that place, just
  -- when the gate holds of these principals.
  pub from_string-holds :
      (g : Gate)
      → IsWritten g
      → Reads v n float_of (gates v n marshal_role) (written g)
      → Reads v n float_of (first_functions v n marshal_role) (rewritten g)
      → Reads v n float_of (second_functions v n marshal_role) (with_context g)
      → (e : SignaturePolicyEnvelope) → from_string v n marshal_role (render n (written g)) ≡ ok e
      → length e.identities ≤ 2 ^ 31
      → (signed : Principal → Bool)
      → satisfies (signs_among signed e.identities) e.rule ≡ holds bytes_of signed g
  from_string-holds g w reads1 reads2 reads3 e h few signed =
      let made = sym (from_string-meaning g w reads1 reads2 reads3) ∙ h in
      let rule : meaning bytes_of 0 g ≡ e.rule = ground (arith, made) in
      let identities : identities_of bytes_of g ≡ e.identities = ground (arith, made) in
      let few' : length (identities_of bytes_of g) ≤ 2 ^ 31 = rw (identities) few in
      rw (← rule, ← identities)
        (satisfies-meaning bytes_of signed (identities_of bytes_of g) few' g 0 w
          ([], [], sym (append-nil (identities_of bytes_of g)), refl))
