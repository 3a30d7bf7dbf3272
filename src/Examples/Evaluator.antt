-- ===== src/Examples/Evaluator.antt =====
-- An evaluator of expressions for the examples of internal/chaincode/policy: it reads the texts of one
-- gate, and evaluates them as the calls that they spell.
use fabricsdk_go.Prelude.{
  arith, String, str_eq, List, [], ◌∷◌, none, external, Result, ok, err, panic, All, ◌≡◌, ℤ, pos,
  int_eq, if◌then◌else◌, Bool, true, false,
}
use fabricsdk_go.Policy.{Value, string, float64, Numbers, Function}
use fabricsdk_go.Policy.SecondPass.{then_with}
use fabricsdk_go.Policy.FromString.{Govaluate}
use fabricsdk_go.Policy.Calls.{
  Tree, literal, number, parameter, call, Trees, end, then_tree, render, run, run_all, apply,
  value_of,
}
use fabricsdk_go.Policy.Indexed.{OfResult}
use fabricsdk_go.Policy.Safe.{Lasting, CallsOnly, After}

-- Numbers up to 2, written in decimal.
abbrev pub small_numbers : Numbers ℤ
small_numbers = record {
  int_of_float = λ z. z;
  itoa = λ z. if int_eq z (pos 2) then "2" else if int_eq z (pos 1) then "1" else "0";
}

abbrev pub read_in :
    {S : Type 0}
    → List Tree
    → String
    → List (String × Function ℤ S)
    → Result (Tree × List (String × Function ℤ S))
read_in [] text functions = err (external 9)
read_in (t ∷ ts) text functions =
    if str_eq (render small_numbers t) text then ok (t, functions) else read_in ts text functions

-- The texts that can be read are those of the trees `ts`.
abbrev pub evaluator : List Tree → Govaluate ℤ
evaluator ts = record {
  Expression = λ S. Tree × List (String × Function ℤ S);
  new_evaluable_expression_with_functions = read_in ts;
  evaluate = λ (t, functions) parameters s. run pos functions parameters t s;
  no_parameter = λ e. none;
}

module _ {S : Type 0} (Inv : S → Type 0) (Good : S → Value ℤ → Type 0) (Then : S → S → Type 0)
    (lasting : Lasting Inv Good Then) where
  abbrev Leads : {A : Type 0} → (S → A → Type 0) → S → Result A × S → Type 0
  Leads P s (r, t) = Inv t × Then s t × OfResult (P t) r

  then_with-Leads :
      {A B : Type 0} (P : S → A → Type 0) (Q : S → B → Type 0) (s : S) (x : Result A × S)
      (next : A → S → Result B × S)
      → Leads P s x
      → ((a : A) (t : S) → Inv t → Then s t → P t a → Leads Q t (next a t))
      → Leads Q s (then_with x next)
  then_with-Leads P Q s (ok a, t) next (inv, later, p) step =
      let (inv', later', q) = step a t inv later p in
      (inv', lasting.then_trans s t (next a t).1 later later', q)
  then_with-Leads P Q s (err e, t) next (inv, later, p) step = (inv, later, tt)
  then_with-Leads P Q s (panic, t) next (inv, later, p) step = (inv, later, tt)

  module _ (functions : List (String × Function ℤ S))
      (steps : All
        (λ (f : String × Function ℤ S).
          (args : List (Value ℤ)) (s : S)
          → Inv s
          → All (Good s) args
          → After Inv Good Then s (f.1 args s))
        functions)
      (parameters : List (String × Value ℤ))
      (given : (s : S) → All (λ (p : String × Value ℤ). Good s p.1) parameters) where
    apply-After :
        (name : String) (fs : List (String × Function ℤ S))
        → All
            (λ (f : String × Function ℤ S).
              (args : List (Value ℤ)) (s : S)
              → Inv s
              → All (Good s) args
              → After Inv Good Then s (f.1 args s))
            fs
        → (args : List (Value ℤ)) (s : S) → Inv s
        → All (Good s) args
        → After Inv Good Then s (apply name fs args s)
    apply-After name [] h args s inv good = (inv, lasting.then_refl s, tt)
    apply-After name ((key, f) ∷ fs) (first, rest) args s inv good =
        cases (str_eq key name) (apply-After name fs rest args s inv good)
      where
        cases :
            (b : Bool)
            → After Inv Good Then s (apply name fs args s)
            → After Inv Good Then s (if b then f args s else apply name fs args s)
        cases true other = first args s inv good
        cases false other = other

    value_of-Good :
        (name : String) (ps : List (String × Value ℤ)) (s : S)
        → All (λ (p : String × Value ℤ). Good s p.1) ps
        → OfResult (Good s) (value_of name ps)
    value_of-Good name [] s h = tt
    value_of-Good name ((key, x) ∷ ps) s (first, rest) =
        cases (str_eq key name) (value_of-Good name ps s rest)
      where
        cases :
            (b : Bool)
            → OfResult (Good s) (value_of name ps)
            → OfResult (Good s) (if b then ok x else value_of name ps)
        cases true other = first
        cases false other = other

    All-stays : (s t : S) (xs : List (Value ℤ)) → Then s t → All (Good s) xs → All (Good t) xs
    All-stays s t [] later h = tt
    All-stays s t (x ∷ xs) later (first, rest) =
        (lasting.stays s t x later first, All-stays s t xs later rest)

    mutual
      unfolding run

      run-After :
          (tree : Tree) (s : S)
          → Inv s
          → After Inv Good Then s (run pos functions parameters tree s)
      run-After (literal t) s inv = (inv, lasting.then_refl s, lasting.own s (string t) tt)
      run-After (number k) s inv = (inv, lasting.then_refl s, lasting.own s (float64 (pos k)) tt)
      run-After (parameter name) s inv =
          (inv, lasting.then_refl s, value_of-Good name parameters s (given s))
      run-After (call name first rest) s inv =
          then_with-Leads Good Good s (run pos functions parameters first s) _
            (run-After first s inv)
            λ x t inv1 later1 good1.
              then_with-Leads (λ u. All (Good u)) Good t (run_all pos functions parameters rest t) _
                (run_all-Leads rest t inv1)
                λ xs u inv2 later2 good2.
                  apply-After name functions steps (x ∷ xs) u inv2
                    (lasting.stays t u x later2 good1, good2)

      run_all-Leads :
          (trees : Trees) (s : S)
          → Inv s
          → Leads (λ u. All (Good u)) s (run_all pos functions parameters trees s)
      run_all-Leads end s inv = (inv, lasting.then_refl s, tt)
      run_all-Leads (then_tree tree trees) s inv =
          then_with-Leads Good (λ u. All (Good u)) s (run pos functions parameters tree s) _
            (run-After tree s inv)
            λ x t inv1 later1 good1.
              then_with-Leads (λ u. All (Good u)) (λ u. All (Good u)) t
                (run_all pos functions parameters trees t) _ (run_all-Leads trees t inv1)
                λ xs u inv2 later2 good2.
                  (inv2, lasting.then_refl u, (lasting.stays t u x later2 good1, good2))

read_in-functions :
    {S : Type 0} (ts : List Tree) (text : String) (functions : List (String × Function ℤ S))
    (e : Tree × List (String × Function ℤ S))
    → read_in ts text functions ≡ ok e
    → e ≡ (e.0, functions)
read_in-functions [] text functions e h = cc
read_in-functions (t ∷ ts) text functions e h =
    cases (str_eq (render small_numbers t) text) h (read_in-functions ts text functions e)
  where
    cases :
        (b : Bool)
        → (if b then ok (t, functions) else read_in ts text functions) ≡ ok e
        → (read_in ts text functions ≡ ok e → e ≡ (e.0, functions))
        → e ≡ (e.0, functions)
    cases true h other = ground (arith, h)
    cases false h other = other h

pub evaluator-CallsOnly : (ts : List Tree) → CallsOnly (evaluator ts)
evaluator-CallsOnly ts = record {
  carries = λ Inv Good Then lasting functions steps parameters given text e read s inv.
      rw (read_in-functions ts text functions e read)
        (run-After Inv Good Then lasting functions steps parameters given e.0 s inv);
}
