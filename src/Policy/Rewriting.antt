-- ===== src/Policy/Rewriting.antt =====
-- The first two passes of `FromString` (internal/chaincode/policy/policydsl.go) on what the policy
-- language can write: the texts that `outof` and `firstPass` make are those of the calls.
use Prim.Native.String.{◌++◌ as append}
use text.Mathlib.TextLemmas.{append_assoc}
use fabricsdk_go.Prelude.{
  ℕ, suc, String, List, [], ◌∷◌, true, false, Result, ok, length, pos, ltb, ◌≡◌, ◌≢◌, refl, ap, ◌∙◌,
  arith,
}
use fabricsdk_go.Policy.{Value, string, float64, RoleType, Numbers}
use fabricsdk_go.Policy.Principals.{all_allowed}
use fabricsdk_go.Policy.Gates.{
  quoted, threshold_text, argument_text, first_pass_text, add_texts, outof, first_pass,
}
use fabricsdk_go.Policy.Calls.{
  Tree, literal, number, parameter, call, Trees, end, then_tree, render, render_rest,
}
use fabricsdk_go.Policy.Language.{
  Gate, gate, Arg, principal, nested, Args, no_more, and_then, principal_text, count, IsWritten,
  IsWrittenArg, AreWritten, rewritten, rewritten_arg, rewritten_args, with_context_args,
  with_context_arg, with_context_args, with_context_arg, with_context,
}
use fabricsdk_go.Policy.Regex.{match_string-call, match_string-principal}

two_args : (m : ℕ) → ltb (suc (suc m)) 2 ≡ false
two_args m = ground arith

-- A text that begins with the call of outof.
abbrev pub IsCall : String → Type 0
IsCall s = (x : String) × (s ≡ append "outof(" x)

IsCall-append : (s more : String) → IsCall s → IsCall (append s more)
IsCall-append s more (x, h) = (append x more, rw (h) (append_assoc "outof(" x more))

module _ {F : Type 0} (n : Numbers F) where
  render_rest-IsCall : (ts : Trees) (s : String) → IsCall s → IsCall (render_rest n ts s)
  unfolding render
  render_rest-IsCall end s h = h
  render_rest-IsCall (then_tree t ts) s h =
      render_rest-IsCall ts (append (append s ", ") (render n t))
        (IsCall-append (append s ", ") (render n t) (IsCall-append s ", " h))

  outof_call-IsCall : (first : Tree) (rest : Trees) → IsCall (render n (call "outof" first rest))
  unfolding render
  outof_call-IsCall first rest =
      IsCall-append (render_rest n rest (append "outof(" (render n first))) ")"
        (render_rest-IsCall rest (append "outof(" (render n first)) (render n first, refl))

  quoted-IsCall : (s : String) → IsCall s → quoted n s ≡ s
  unfolding quoted
  quoted-IsCall s (x, h) = rw (h, match_string-call x) refl

  quoted-principal :
      (org : String) (r : RoleType)
      → (org ≢ "") × (all_allowed org ≡ true)
      → quoted n (principal_text org r) ≡ render n (literal (principal_text org r))
  unfolding quoted render
  quoted-principal org r (not_empty, allowed) =
      rw (match_string-principal org r not_empty allowed) refl

  -- The value that an argument has after a pass, if gates become the trees `f`.
  abbrev pub value_after : (Gate → Tree) → Arg → Value F
  value_after f (principal org r) = string (principal_text org r)
  value_after f (nested g) = string (render n (f g))

  abbrev pub values_after : (Gate → Tree) → Args → List (Value F)
  values_after f no_more = []
  values_after f (and_then a rest) = value_after f a ∷ values_after f rest

  abbrev pub tree_after : (Gate → Tree) → Arg → Tree
  tree_after f (principal org r) = literal (principal_text org r)
  tree_after f (nested g) = f g

  abbrev pub trees_after : (Gate → Tree) → Args → Trees
  trees_after f no_more = end
  trees_after f (and_then a rest) = then_tree (tree_after f a) (trees_after f rest)

  pub length-values_after :
      (f : Gate → Tree) (rest : Args) → length (values_after f rest) ≡ count rest
  length-values_after f no_more = refl
  length-values_after f (and_then a rest) = ap suc (length-values_after f rest)

  module _ (f : Gate → Tree) (calls : (g : Gate) → IsCall (render n (f g)))
      (value_text : Value F → Result String)
      (quotes : (s : String) → value_text (string s) ≡ ok (quoted n s)) where
    value_after-text :
        (a : Arg) → IsWrittenArg a → value_text (value_after f a) ≡ ok (render n (tree_after f a))
    unfolding IsWritten
    value_after-text (principal org r) h =
        quotes (principal_text org r) ∙ ap ok (quoted-principal org r h)
    value_after-text (nested g) h =
        quotes (render n (f g)) ∙ ap ok (quoted-IsCall (render n (f g)) (calls g))

    values_after-texts :
        (rest : Args) (toret : String)
        → AreWritten rest
        → add_texts n value_text (values_after f rest) toret
          ≡ ok (render_rest n (trees_after f rest) toret)
    unfolding IsWritten render
    values_after-texts no_more toret h = refl
    values_after-texts (and_then a rest) toret (first, others) =
        rw (value_after-text a first)
          (values_after-texts rest (append (append toret ", ") (render n (tree_after f a))) others)

  rewritten-IsCall : (g : Gate) → IsCall (render n (rewritten g))
  unfolding rewritten
  rewritten-IsCall (gate s g a rest) = outof_call-IsCall _ _

  with_context-IsCall : (g : Gate) → IsCall (render n (with_context g))
  unfolding with_context
  with_context-IsCall (gate s g a rest) = outof_call-IsCall _ _

  trees_after-rewritten : (rest : Args) → trees_after rewritten rest ≡ rewritten_args rest
  unfolding rewritten
  trees_after-rewritten no_more = refl
  trees_after-rewritten (and_then (principal org r) rest) =
      ap (λ ts. then_tree (literal (principal_text org r)) ts) (trees_after-rewritten rest)
  trees_after-rewritten (and_then (nested g) rest) =
      ap (λ ts. then_tree (rewritten g) ts) (trees_after-rewritten rest)

  trees_after-with_context : (rest : Args) → trees_after with_context rest ≡ with_context_args rest
  unfolding with_context
  trees_after-with_context no_more = refl
  trees_after-with_context (and_then (principal org r) rest) =
      ap (λ ts. then_tree (literal (principal_text org r)) ts) (trees_after-with_context rest)
  trees_after-with_context (and_then (nested g) rest) =
      ap (λ ts. then_tree (with_context g) ts) (trees_after-with_context rest)

  -- `outof` on a threshold and arguments that the first pass has already been through.
  pub outof-rewritten :
      (x : Value F) (k : ℕ) (a : Arg) (rest : Args)
      → threshold_text n x ≡ ok (n.itoa (pos k))
      → IsWrittenArg a
      → AreWritten rest
      → outof n (x ∷ value_after rewritten a ∷ values_after rewritten rest)
        ≡ ok (
            string (
              render n
                (call "outof" (number k) (then_tree (rewritten_arg a) (rewritten_args rest)))))
  unfolding outof render IsWritten rewritten
  outof-rewritten x k a rest shown first others =
      let start = append "outof(" (n.itoa (pos k)) in
      let texts =
        values_after-texts rewritten rewritten-IsCall (argument_text n) (λ s. refl)
          (and_then a rest) start (first, others)
        ∙ ap (λ ts. ok (render_rest n ts start)) (trees_after-rewritten (and_then a rest)) in
      rw (two_args (length (values_after rewritten rest)), shown, texts) refl

  pub first_pass-with_context :
      (x : F) (k : ℕ) (a : Arg) (rest : Args)
      → n.int_of_float x ≡ pos k
      → IsWrittenArg a
      → AreWritten rest
      → first_pass n (float64 x ∷ value_after with_context a ∷ values_after with_context rest)
        ≡ ok (
            string (
              render n (
                call "outof" (parameter "ID") (
                  then_tree (number k) (then_tree (with_context_arg a) (with_context_args rest))))))
  unfolding first_pass render IsWritten with_context
  first_pass-with_context x k a rest exact first others =
      let start = append "outof(ID, " (n.itoa (pos k)) in
      let texts =
        values_after-texts with_context with_context-IsCall (first_pass_text n) (λ s. refl)
          (and_then a rest) start (first, others)
        ∙ ap (λ ts. ok (render_rest n ts start)) (trees_after-with_context (and_then a rest)) in
      rw (exact, texts) refl
