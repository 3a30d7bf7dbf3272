-- ===== src/Policy/Calls.antt =====
-- Expressions that only call functions, as the texts that internal/chaincode/policy/policydsl.go gives
-- to govaluate are: how they are written, and what evaluating them is.
use Prim.Native.String.{◌++◌ as append}
use fabricsdk_go.Prelude.{
  ℕ, String, str_eq, List, [], ◌∷◌, external, Result, ok, err, pos, if◌then◌else◌, ◌≡◌,
}
use fabricsdk_go.Policy.{Value, string, float64, Numbers, Function}
use fabricsdk_go.Policy.SecondPass.{then_with}
use fabricsdk_go.Policy.FromString.{Govaluate}

mutual
  pub data Tree : Type 0 where
    literal : String → Tree
    number : ℕ → Tree
    parameter : String → Tree
    call : String → Tree → Trees → Tree

  pub data Trees : Type 0 where
    end : Trees
    then_tree : Tree → Trees → Trees

module _ {F : Type 0} (n : Numbers F) where
  unfoldable mutual
    pub render : Tree → String
    render (literal t) = append (append "'" t) "'"
    render (number k) = n.itoa (pos k)
    render (parameter name) = name
    render (call name first rest) =
        append (render_rest rest (append (append name "(") (render first))) ")"

    pub render_rest : Trees → String → String
    render_rest end before = before
    render_rest (then_tree t ts) before = render_rest ts (append (append before ", ") (render t))

abbrev pub apply :
    {F S : Type 0}
    → String
    → List (String × Function F S)
    → List (Value F)
    → S
    → Result (Value F) × S
apply name [] args s = (err (external 0), s)
apply name ((key, f) ∷ functions) args s =
    if str_eq key name then f args s else apply name functions args s

abbrev pub value_of : {F : Type 0} → String → List (String × Value F) → Result (Value F)
value_of name [] = err (external 1)
value_of name ((key, x) ∷ parameters) = if str_eq key name then ok x else value_of name parameters

-- Arguments from left to right, and then the function; all numbers are floats.
module _ {F S : Type 0} (float_of : ℕ → F) (functions : List (String × Function F S))
    (parameters : List (String × Value F)) where
  unfoldable mutual
    pub run : Tree → S → Result (Value F) × S
    run (literal t) s = (ok (string t), s)
    run (number k) s = (ok (float64 (float_of k)), s)
    run (parameter name) s = (value_of name parameters, s)
    run (call name first rest) s =
        then_with (run first s)
          λ x t. then_with (run_all rest t) λ xs u. apply name functions (x ∷ xs) u

    pub run_all : Trees → S → Result (List (Value F)) × S
    run_all end s = (ok [], s)
    run_all (then_tree t ts) s =
        then_with (run t s) λ x u. then_with (run_all ts u) λ xs w. (ok (x ∷ xs), w)

-- The evaluator reads the text of a tree of calls, and evaluates it as the tree.
abbrev pub Reads :
    {F S : Type 0}
    → Govaluate F
    → Numbers F
    → (ℕ → F)
    → List (String × Function F S)
    → Tree
    → Type 0
Reads {F} {S} v n float_of functions tree =
    (e : v.Expression S) × (v.new_evaluable_expression_with_functions (render n tree) functions
      ≡ ok e)
    × ((parameters : List (String × Value F)) (s : S)
        → v.evaluate e parameters s ≡ run float_of functions parameters tree s)
