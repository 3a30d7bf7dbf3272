-- ===== src/Policy/Arguments.antt =====
-- Which rule the loop of `secondPass` (internal/chaincode/policy/policydsl.go) makes of each argument.
use fabricsdk_go.Prelude.{
  ℕ, ◌+◌, ◌%◌, ◌≤◌, ◌<◌, ◌^◌, zero, suc, String, List, [], ◌∷◌, ◌++◌, Option, none, some, Bytes,
  Result, ok, err, panic, length, length-append, get_elem?, pos, ◌≡◌, refl, sym, ap, ◌∙◌, arith,
}
use mathlib.Core.List.{append_assoc, append-nil}
use fabricsdk_go.Policy.{
  SignaturePolicy, type_signed_by, signed_by, int32_of, RoleType, Principal, Value, string, float64,
  float32, int, context_pointer, policy, other,
}
use fabricsdk_go.Policy.Principals.{find_all_string_submatch, role_of}
use fabricsdk_go.Policy.SecondPass.{
  Context, groups, append_principal, add_role, add_groups, rule_of, rules_from, then_with-eq-ok,
}
use fabricsdk_go.Policy.Satisfies.{int32_of-small, get_elem-append}

groups-eq-some :
    (m : List (List String)) (org role : String)
    → groups m ≡ some (org, role)
    → (whole : String) × (dot : String) × (m ≡ (whole ∷ org ∷ dot ∷ role ∷ []) ∷ [])
groups-eq-some [] org role h = cc
groups-eq-some ([] ∷ ms) org role h = cc
groups-eq-some ((a ∷ []) ∷ ms) org role h = cc
groups-eq-some ((a ∷ b ∷ []) ∷ ms) org role h = cc
groups-eq-some ((a ∷ b ∷ c ∷ []) ∷ ms) org role h = cc
groups-eq-some ((a ∷ b ∷ c ∷ d ∷ e ∷ es) ∷ ms) org role h = cc
groups-eq-some ((a ∷ b ∷ c ∷ d ∷ []) ∷ m ∷ ms) org role h = cc
groups-eq-some ((a ∷ b ∷ c ∷ d ∷ []) ∷ []) org role h =
    let same_org : b ≡ org = ground (arith, h) in
    let same_role : d ≡ role = ground (arith, h) in (a, c, rw (same_org, same_role) refl)

get_elem-more :
    {A : Type 0} (xs more : List A) (i : ℕ) (x : A)
    → get_elem? xs i ≡ some x
    → get_elem? (xs ++ more) i ≡ some x
get_elem-more [] more i x h = cc
get_elem-more (y ∷ xs) more zero x h = h
get_elem-more (y ∷ xs) more (suc i) x h = get_elem-more xs more i x h

module _ (marshal_role : String → RoleType → Result Bytes) where
  -- The rule is the policy that is given, or names the identity that stands in the list for the
  -- organisation and the role of the text.
  abbrev pub RuleFor : {F : Type 0} → List Principal → Value F → SignaturePolicy → Type 0
  RuleFor all (policy q) p = p ≡ q
  RuleFor all (string t) p =
      (whole : String) × (org : String) × (dot : String) × (role : String) × (r : RoleType)
      × (bytes : Bytes) × (i : ℕ) × (find_all_string_submatch t
          ≡ (whole ∷ org ∷ dot ∷ role ∷ []) ∷ [])
      × (role_of role ≡ some r)
      × (marshal_role org r ≡ ok bytes)
      × (get_elem? all i ≡ some (record { principal = bytes }))
      × (p ≡ type_signed_by (pos i))
  RuleFor all (float64 x) p = ⊥
  RuleFor all (float32 x) p = ⊥
  RuleFor all (int k) p = ⊥
  RuleFor all context_pointer p = ⊥
  RuleFor all (other k) p = ⊥

  -- One rule for each argument, in their order.
  abbrev pub RulesFor :
      {F : Type 0} → List Principal → List (Value F) → List SignaturePolicy → Type 0
  RulesFor all [] [] = Unit
  RulesFor all [] (p ∷ ps) = ⊥
  RulesFor all (x ∷ xs) [] = ⊥
  RulesFor all (x ∷ xs) (p ∷ ps) = RuleFor all x p × RulesFor all xs ps

  RuleFor-more :
      {F : Type 0} (all more : List Principal) (x : Value F) (p : SignaturePolicy)
      → RuleFor all x p
      → RuleFor (all ++ more) x p
  RuleFor-more all more (policy q) p h = h
  RuleFor-more all more (string t) p (whole, org, dot, role, r, bytes, i, e1, e2, e3, e4, e5) =
      (whole, org, dot, role, r, bytes, i, e1, e2, e3, get_elem-more all more i _ e4, e5)
  RuleFor-more all more (float64 x) p h = absurd h
  RuleFor-more all more (float32 x) p h = absurd h
  RuleFor-more all more (int k) p h = absurd h
  RuleFor-more all more context_pointer p h = absurd h
  RuleFor-more all more (other k) p h = absurd h

  -- The identities that a step has added, at most one, and that the counter still counts them.
  abbrev pub Adds : Context → Context → Type 0
  Adds c d =
      (more : List Principal) × (d.principals ≡ c.principals ++ more)
      × (length more ≤ 1)
      × (d.id_num ≡ length d.principals)

  append_principal-Adds :
      (bytes : Bytes) (c d : Context) (p : SignaturePolicy)
      → c.id_num ≡ length c.principals
      → length c.principals < 2 ^ 31
      → append_principal (ok bytes) c ≡ (ok p, d)
      → Adds c d
        × (get_elem? d.principals (length c.principals) ≡ some (record { principal = bytes }))
        × (p ≡ type_signed_by (pos (length c.principals)))
  unfolding signed_by
  append_principal-Adds bytes c d p counted small h =
      let made : Principal = record { principal = bytes } in
      let is_d : record { id_num = (c.id_num + 1) % 2 ^ 64; principals = c.principals ++ made ∷ [] }
          ≡ d =
        ground (arith, h) in
      let is_p : signed_by (int32_of c.id_num) ≡ p = ground (arith, h) in
      let index : int32_of c.id_num ≡ pos (length c.principals) =
        rw (counted) (int32_of-small (length c.principals) small) in
      let grown : length (c.principals ++ made ∷ []) ≡ length c.principals + 1 =
        length-append c.principals (made ∷ []) in
      rw (← is_d) (
        (made ∷ [], refl, omega arith, omega (arith, counted, grown, small)),
        get_elem-append c.principals made [],
        sym is_p ∙ ap type_signed_by index,
      )

  rule_of-RuleFor :
      {F : Type 0} (x : Value F) (c d : Context) (p : SignaturePolicy)
      → c.id_num ≡ length c.principals
      → length c.principals < 2 ^ 31
      → rule_of marshal_role x c ≡ (ok p, d)
      → Adds c d × RuleFor d.principals x p
  unfolding rule_of
  rule_of-RuleFor (policy q) c d p counted small h =
      let is_p : q ≡ p = ground (arith, h) in
      let is_d : c ≡ d = ground (arith, h) in
      rw (← is_d) (([], sym (append-nil c.principals), omega arith, counted), sym is_p)
  rule_of-RuleFor (float64 x) c d p counted small h = cc
  rule_of-RuleFor (float32 x) c d p counted small h = cc
  rule_of-RuleFor (int k) c d p counted small h = cc
  rule_of-RuleFor context_pointer c d p counted small h = cc
  rule_of-RuleFor (other k) c d p counted small h = cc
  rule_of-RuleFor {F} (string t) c d p counted small h =
      by_groups (groups (find_all_string_submatch t)) refl h
    where
      by_bytes :
          (org role : String) (r : RoleType) (b : Result Bytes)
          → groups (find_all_string_submatch t) ≡ some (org, role)
          → role_of role ≡ some r
          → marshal_role org r ≡ b
          → append_principal b c ≡ (ok p, d)
          → Adds c d × RuleFor {F = F} d.principals (string t) p
      by_bytes org role r (ok bytes) e1 e2 e3 k =
          let (adds, there, is_p) = append_principal-Adds bytes c d p counted small k in
          let (whole, dot, matched) = groups-eq-some (find_all_string_submatch t) org role e1 in
          (
            adds,
            (whole, org, dot, role, r, bytes, length c.principals, matched, e2, e3, there, is_p),
          )
      by_bytes org role r (err e) e1 e2 e3 k = cc
      by_bytes org role r panic e1 e2 e3 k = cc

      by_role :
          (org role : String) (o : Option RoleType)
          → groups (find_all_string_submatch t) ≡ some (org, role)
          → role_of role ≡ o
          → add_role marshal_role org o c ≡ (ok p, d)
          → Adds c d × RuleFor {F = F} d.principals (string t) p
      by_role org role none e1 e2 k = cc
      by_role org role (some r) e1 e2 k = by_bytes org role r (marshal_role org r) e1 e2 refl k

      by_groups :
          (g : Option (String × String))
          → groups (find_all_string_submatch t) ≡ g
          → add_groups marshal_role g c ≡ (ok p, d)
          → Adds c d × RuleFor {F = F} d.principals (string t) p
      by_groups none e1 k = cc
      by_groups (some (org, role)) e1 k = by_role org role (role_of role) e1 refl k

  -- The loop makes one rule of each argument, behind the policies that are there.
  pub rules_from-RulesFor :
      {F : Type 0} (xs : List (Value F)) (ps qs : List SignaturePolicy) (c d : Context)
      → c.id_num ≡ length c.principals
      → length c.principals + length xs ≤ 2 ^ 31
      → rules_from marshal_role xs ps c ≡ (ok qs, d)
      → (made : List SignaturePolicy) × (more : List Principal) × (qs ≡ ps ++ made)
        × (d.principals ≡ c.principals ++ more)
        × RulesFor d.principals xs made
  unfolding rules_from
  rules_from-RulesFor [] ps qs c d counted small h =
      let is_qs : ps ≡ qs = ground (arith, h) in
      let is_d : c ≡ d = ground (arith, h) in
      ([], [], rw (← is_qs) (sym (append-nil ps)), rw (← is_d) (sym (append-nil c.principals)), tt)
  rules_from-RulesFor (x ∷ xs) ps qs c d counted small h =
      let (p, c', first, rest) = then_with-eq-ok (rule_of marshal_role x c) _ h in
      let ((more, added, few, counted'), is_rule) =
        rule_of-RuleFor x c c' p counted (omega (arith, small)) first in
      let grown : length c'.principals ≡ length c.principals + length more =
        ap length added ∙ length-append c.principals more in
      let (made, later, is_qs, added', rules) =
        rules_from-RulesFor xs (ps ++ p ∷ []) qs c' d counted' (omega (arith, grown, few, small))
          rest in
      (
        p ∷ made,
        more ++ later,
        is_qs ∙ append_assoc ps (p ∷ []) made,
        added' ∙ (ap (λ t. t ++ later) added ∙ append_assoc c.principals more later),
        (rw (added') (RuleFor-more c'.principals later x p is_rule), rules),
      )
