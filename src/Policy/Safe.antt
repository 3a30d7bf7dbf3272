-- ===== src/Policy/Safe.antt =====
-- The policies that `FromString` of policydsl.go returns refer to the identities they come with.
use fabricsdk_go.Prelude.{
  ℕ, ◌^◌, ◌≤◌, ◌<◌, ◌%◌, String, List, [], ◌∷◌, Bytes, Result, ok, err, panic, length, ◌≡◌, refl,
  arith, All, pos, bind_ok, ◌∙◌,
}
use fabricsdk_go.Policy.{
  SignaturePolicy, type_signed_by, type_n_out_of, Rules, no_rules, rule, RoleType, Value, string,
  float64, float32, int, context_pointer, policy, other, Numbers, Function, int32_of,
}
use fabricsdk_go.Policy.Indexed.{
  Indexed, IndexedRules, IsCounted, Extends, OfResult, Keeps, IsGood, Extends-refl, Extends-trans,
  Extends-length,
}
use fabricsdk_go.Policy.SecondPass.{Context, new_context}
use fabricsdk_go.Policy.Bounded.{second_pass-Keeps, IsGood-more}
use fabricsdk_go.Policy.FromString.{
  Govaluate, SignaturePolicyEnvelope, from_string, pass, as_string, envelope_of, explained,
  evaluated, second_functions, first_functions, gates,
}

-- A value that the evaluator makes by itself: any but a policy.
abbrev pub IsOwn : {F : Type 0} → Value F → Type 0
IsOwn (policy p) = ⊥
IsOwn _ = Unit

-- A predicate on states and values that lasts while the state goes on.
pub record Lasting {F S : Type 0} (Inv : S → Type 0) (Good : S → Value F → Type 0)
    (Then : S → S → Type 0) : Type 0 where
  pub then_refl : (s : S) → Then s s
  pub then_trans : (s t u : S) → Then s t → Then t u → Then s u
  pub stays : (s t : S) (x : Value F) → Then s t → Good s x → Good t x
  pub own : (s : S) (x : Value F) → IsOwn x → Good s x

abbrev pub After :
    {F S : Type 0}
    → (S → Type 0)
    → (S → Value F → Type 0)
    → (S → S → Type 0)
    → S
    → Result (Value F) × S
    → Type 0
After Inv Good Then s (r, t) = Inv t × Then s t × OfResult (Good t) r

-- govaluate makes no policies and does not look inside them: evaluating an expression is calling
-- its functions with its own values, the parameters and what the functions have returned, and the
-- result is one of these. So what the functions keep true, the evaluation keeps true.
pub record CallsOnly {F : Type 0} (v : Govaluate F) : Type 1 where
  pub carries :
      {S : Type 0} (Inv : S → Type 0) (Good : S → Value F → Type 0) (Then : S → S → Type 0)
      → Lasting Inv Good Then
      → (functions : List (String × Function F S))
      → All
          (λ (f : String × Function F S).
            (args : List (Value F)) (s : S)
            → Inv s
            → All (Good s) args
            → After Inv Good Then s (f.1 args s))
          functions
      → (parameters : List (String × Value F))
      → ((s : S) → All (λ (p : String × Value F). Good s p.1) parameters)
      → (text : String) (e : v.Expression S)
      → v.new_evaluable_expression_with_functions text functions ≡ ok e
      → (s : S) → Inv s
      → After Inv Good Then s (v.evaluate e parameters s)

GoodIn : {F : Type 0} → Context → Value F → Type 0
GoodIn c x = IsGood (length c.principals) x

contexts-Lasting : {F : Type 0} → Lasting {F = F} IsCounted GoodIn Extends
unfolding GoodIn
contexts-Lasting {F} = record {
  then_refl = Extends-refl;
  then_trans = Extends-trans;
  stays = λ c d x more. IsGood-more (Extends-length c d more) x;
  own = λ c x. own_good c x;
}
  where
    own_good : (c : Context) (x : Value F) → IsOwn x → IsGood (length c.principals) x
    own_good c (string t) h = tt
    own_good c (policy p) h = absurd h
    own_good c (float64 x) h = tt
    own_good c (float32 x) h = tt
    own_good c (int k) h = tt
    own_good c context_pointer h = tt
    own_good c (other k) h = tt

-- Each index of a policy is that of an identity in a list of `n`.
unfoldable mutual
  pub RefersBelow : ℕ → SignaturePolicy → Type 0
  RefersBelow n (type_signed_by z) = (i : ℕ) × (z ≡ pos i) × (i < n)
  RefersBelow n (type_n_out_of t rs) = RulesReferBelow n rs

  pub RulesReferBelow : ℕ → Rules → Type 0
  RulesReferBelow n no_rules = Unit
  RulesReferBelow n (rule p rs) = RefersBelow n p × RulesReferBelow n rs

int32_of-small : (i : ℕ) → i < 2 ^ 31 → int32_of (i % 2 ^ 64) ≡ pos i
int32_of-small i small = ground arith

mutual
  unfolding RefersBelow Indexed

  Indexed-RefersBelow : {n : ℕ} → n ≤ 2 ^ 31 → (p : SignaturePolicy) → Indexed n p → RefersBelow n p
  Indexed-RefersBelow le (type_signed_by z) (i, same, small) =
      (i, same ∙ int32_of-small i (omega arith), small)
  Indexed-RefersBelow le (type_n_out_of t rs) h = IndexedRules-ReferBelow le rs h

  IndexedRules-ReferBelow :
      {n : ℕ} → n ≤ 2 ^ 31 → (rs : Rules) → IndexedRules n rs → RulesReferBelow n rs
  IndexedRules-ReferBelow le no_rules h = tt
  IndexedRules-ReferBelow le (rule p rs) (first, rest) =
      (Indexed-RefersBelow le p first, IndexedRules-ReferBelow le rs rest)

module _ {F : Type 0} (v : Govaluate F) (calls_only : CallsOnly v) (n : Numbers F)
    (marshal_role : String → RoleType → Result Bytes) where
  last_functions : List (String × Function F Context)
  last_functions = second_functions v n marshal_role

  explained-Keeps :
      (x : Result (Value F) × Context)
      → Keeps IsGood new_context x
      → Keeps IsGood new_context (explained v n marshal_role x)
  explained-Keeps (ok x, c) h = h
  explained-Keeps (err e, c) h = h
  explained-Keeps (panic, c) h = h

  evaluated-Keeps :
      (text : String) (e : Result (v.Expression Context))
      → v.new_evaluable_expression_with_functions text last_functions ≡ e
      → Keeps IsGood new_context
          (evaluated v n marshal_role e (("ID", context_pointer) ∷ []) new_context)
  unfolding last_functions GoodIn new_context
  evaluated-Keeps text (err e) read = (refl, Extends-refl new_context, tt)
  evaluated-Keeps text panic read = (refl, Extends-refl new_context, tt)
  evaluated-Keeps text (ok e) read =
      explained-Keeps (v.evaluate e (("ID", context_pointer) ∷ []) new_context) (
        calls_only.carries IsCounted GoodIn Extends contexts-Lasting last_functions
          ((λ args c counted good. second_pass-Keeps n marshal_role args c counted good), tt)
          (("ID", context_pointer) ∷ []) (λ c. (tt, tt)) text e read new_context refl)

  envelope_of-RefersBelow :
      (x : Result (Value F) × Context) (e : SignaturePolicyEnvelope)
      → Keeps IsGood new_context x
      → envelope_of v n marshal_role x ≡ ok e
      → length e.identities ≤ 2 ^ 31
      → RefersBelow (length e.identities) e.rule
  envelope_of-RefersBelow (ok (policy p), c) e (counted, more, good) same few =
      let identities : c.principals ≡ e.identities = ground (arith, same) in
      let rule : p ≡ e.rule = ground (arith, same) in
      Indexed-RefersBelow few e.rule (rw (← rule, ← identities) good)
  envelope_of-RefersBelow (ok (string t), c) e h same few = cc
  envelope_of-RefersBelow (ok (float64 x), c) e h same few = cc
  envelope_of-RefersBelow (ok (float32 x), c) e h same few = cc
  envelope_of-RefersBelow (ok (int k), c) e h same few = cc
  envelope_of-RefersBelow (ok context_pointer, c) e h same few = cc
  envelope_of-RefersBelow (ok (other k), c) e h same few = cc
  envelope_of-RefersBelow (err r, c) e h same few = cc
  envelope_of-RefersBelow (panic, c) e h same few = cc

  -- Every index in the rule of a policy that `FromString` returns is the index of one of the
  -- policy's identities, if these are at most 2^31.
  pub from_string-RefersBelow :
      (text : String) (e : SignaturePolicyEnvelope)
      → from_string v n marshal_role text ≡ ok e
      → length e.identities ≤ 2 ^ 31
      → RefersBelow (length e.identities) e.rule
  unfolding from_string gates last_functions
  from_string-RefersBelow text e h few =
      bind_ok (pass v n marshal_role text (gates v n marshal_role) [] tt).0 _ h λ x _ h1.
        bind_ok (as_string v n marshal_role x) _ h1 λ s1 _ h2.
          bind_ok (pass v n marshal_role s1 (first_functions v n marshal_role) [] tt).0 _ h2
            λ y _ h3. bind_ok (as_string v n marshal_role y) _ h3 λ s2 _ h4.
              envelope_of-RefersBelow
                (pass v n marshal_role s2 last_functions (("ID", context_pointer) ∷ []) new_context)
                e
                (evaluated-Keeps s2 (v.new_evaluable_expression_with_functions s2 last_functions)
                  refl)
                h4 few
