-- ===== src/Policy/Bounded.antt =====
-- What `secondPass` of policydsl.go keeps true of the context and of the policies that it builds.
use fabricsdk_go.Prelude.{
  ℕ, ◌+◌, ◌≤◌, String, List, [], ◌∷◌, ◌++◌, Bool, true, false, Option, none, some, Bytes, Result,
  ok, err, panic, length, length-append, message, if◌then◌else◌, All-append, ◌≡◌, refl, ap, arith,
  All, ℤ, ltb,
}
use fabricsdk_go.Policy.{
  SignaturePolicy, signed_by, n_out_of, int32, int32_of, RoleType, Principal, Value, string,
  float64, float32, int, context_pointer, policy, other, Numbers,
}
use fabricsdk_go.Policy.Principals.{find_all_string_submatch, role_of}
use fabricsdk_go.Policy.SecondPass.{
  Context, then_with, groups, append_principal, add_role, add_groups, rule_of, rules_from,
  checked_rules, is_invalid_threshold, second_pass, with_threshold, with_args,
}
use fabricsdk_go.Policy.Indexed.{
  Indexed, Indexed-more, rules_of-Indexed, All-more, IsCounted, Extends-refl, Extends-length, Keeps,
  then_with-Keeps, IsGood,
}

append_principal-Keeps :
    (r : Result Bytes) (c : Context) → IsCounted c → Keeps Indexed c (append_principal r c)
unfolding Indexed signed_by
append_principal-Keeps (ok msp_role) c counted =
    let made : Principal = record { principal = msp_role } in
    let added : length (c.principals ++ made ∷ []) ≡ length c.principals + 1 =
      length-append c.principals (made ∷ []) in
    (
      rw (added) (omega (arith, counted)),
      (made ∷ [], refl),
      (length c.principals, ap int32_of counted, rw (added) (omega arith)),
    )
append_principal-Keeps (err e) c counted = (counted, Extends-refl c, tt)
append_principal-Keeps panic c counted = (counted, Extends-refl c, tt)

module _ (marshal_role : String → RoleType → Result Bytes) where
  add_role-Keeps :
      (org : String) (r : Option RoleType) (c : Context)
      → IsCounted c
      → Keeps Indexed c (add_role marshal_role org r c)
  add_role-Keeps org none c counted = (counted, Extends-refl c, tt)
  add_role-Keeps org (some r) c counted = append_principal-Keeps (marshal_role org r) c counted

  add_groups-Keeps :
      (g : Option (String × String)) (c : Context)
      → IsCounted c
      → Keeps Indexed c (add_groups marshal_role g c)
  add_groups-Keeps none c counted = (counted, Extends-refl c, tt)
  add_groups-Keeps (some (org, role)) c counted = add_role-Keeps org (role_of role) c counted

  rule_of-Keeps :
      {F : Type 0} (x : Value F) (c : Context)
      → IsCounted c
      → IsGood (length c.principals) x
      → Keeps Indexed c (rule_of marshal_role x c)
  unfolding rule_of
  rule_of-Keeps (string t) c counted good =
      add_groups-Keeps (groups (find_all_string_submatch t)) c counted
  rule_of-Keeps (policy p) c counted good = (counted, Extends-refl c, good)
  rule_of-Keeps (float64 x) c counted good = (counted, Extends-refl c, tt)
  rule_of-Keeps (float32 x) c counted good = (counted, Extends-refl c, tt)
  rule_of-Keeps (int k) c counted good = (counted, Extends-refl c, tt)
  rule_of-Keeps context_pointer c counted good = (counted, Extends-refl c, tt)
  rule_of-Keeps (other k) c counted good = (counted, Extends-refl c, tt)

pub IsGood-more : {F : Type 0} {m n : ℕ} → m ≤ n → (x : Value F) → IsGood m x → IsGood n x
IsGood-more le (policy p) h = Indexed-more le p h
IsGood-more le (string t) h = tt
IsGood-more le (float64 x) h = tt
IsGood-more le (float32 x) h = tt
IsGood-more le (int k) h = tt
IsGood-more le context_pointer h = tt
IsGood-more le (other k) h = tt

All-IsGood-more :
    {F : Type 0} {m n : ℕ} → m ≤ n → (xs : List (Value F)) → All (IsGood m) xs → All (IsGood n) xs
All-IsGood-more le [] h = tt
All-IsGood-more le (x ∷ xs) (first, rest) = (IsGood-more le x first, All-IsGood-more le xs rest)

module _ (marshal_role : String → RoleType → Result Bytes) {F : Type 0} where
  rules_from-Keeps :
      (xs : List (Value F)) (ps : List SignaturePolicy) (c : Context)
      → IsCounted c
      → All (IsGood (length c.principals)) xs
      → All (Indexed (length c.principals)) ps
      → Keeps (λ n. All (Indexed n)) c (rules_from marshal_role xs ps c)
  unfolding rules_from
  rules_from-Keeps [] ps c counted good done = (counted, Extends-refl c, done)
  rules_from-Keeps (x ∷ xs) ps c counted (g, gs) done =
      then_with-Keeps Indexed (λ n. All (Indexed n)) c (rule_of marshal_role x c) _
        (rule_of-Keeps marshal_role x c counted g)
        λ p d counted' more h.
          let le = Extends-length c d more in
          let before = All-more le ps done in
          rules_from-Keeps xs (ps ++ p ∷ []) d counted' (All-IsGood-more le xs gs)
            (All-append (Indexed (length d.principals)) ps (p ∷ []) before (h, tt))

  checked_rules-Keeps :
      (t : ℤ) (xs : List (Value F)) (c : Context)
      → IsCounted c
      → All (IsGood (length c.principals)) xs
      → Keeps IsGood c (checked_rules marshal_role t xs c)
  unfolding checked_rules n_out_of Indexed
  checked_rules-Keeps t xs c counted good = cases (is_invalid_threshold t (length xs))
    where
      cases :
          (b : Bool)
          → Keeps (IsGood {F = F}) c (
              if b
              then (err (message "invalid t-out-of-n predicate, t %d, n %d"), c)
              else then_with
                  (rules_from marshal_role xs [] c)
                  λ policies d. (ok (policy (n_out_of (int32 t) policies)), d))
      cases true = (counted, Extends-refl c, tt)
      cases false =
          then_with-Keeps (λ n. All (Indexed n)) IsGood c (rules_from marshal_role xs [] c) _
            (rules_from-Keeps xs [] c counted good tt)
            λ ps d counted' more h.
              (counted', Extends-refl d, rules_of-Indexed (length d.principals) ps h)

module _ {F : Type 0} (n : Numbers F) (marshal_role : String → RoleType → Result Bytes) where
  with_threshold-Keeps :
      (args : List (Value F)) (c : Context)
      → IsCounted c
      → All (IsGood (length c.principals)) args
      → Keeps IsGood c (with_threshold n marshal_role args c)
  with_threshold-Keeps (float64 x ∷ xs) c counted (g, gs) =
      checked_rules-Keeps marshal_role (n.int_of_float x) xs c counted gs
  with_threshold-Keeps [] c counted good = (counted, Extends-refl c, tt)
  with_threshold-Keeps (string t ∷ xs) c counted good = (counted, Extends-refl c, tt)
  with_threshold-Keeps (float32 x ∷ xs) c counted good = (counted, Extends-refl c, tt)
  with_threshold-Keeps (int k ∷ xs) c counted good = (counted, Extends-refl c, tt)
  with_threshold-Keeps (context_pointer ∷ xs) c counted good = (counted, Extends-refl c, tt)
  with_threshold-Keeps (policy p ∷ xs) c counted good = (counted, Extends-refl c, tt)
  with_threshold-Keeps (other k ∷ xs) c counted good = (counted, Extends-refl c, tt)

  with_args-Keeps :
      (args : List (Value F)) (c : Context)
      → IsCounted c
      → All (IsGood (length c.principals)) args
      → Keeps IsGood c (with_args n marshal_role args c)
  with_args-Keeps (context_pointer ∷ xs) c counted (g, gs) = with_threshold-Keeps xs c counted gs
  with_args-Keeps [] c counted good = (counted, Extends-refl c, tt)
  with_args-Keeps (string t ∷ xs) c counted good = (counted, Extends-refl c, tt)
  with_args-Keeps (float64 x ∷ xs) c counted good = (counted, Extends-refl c, tt)
  with_args-Keeps (float32 x ∷ xs) c counted good = (counted, Extends-refl c, tt)
  with_args-Keeps (int k ∷ xs) c counted good = (counted, Extends-refl c, tt)
  with_args-Keeps (policy p ∷ xs) c counted good = (counted, Extends-refl c, tt)
  with_args-Keeps (other k ∷ xs) c counted good = (counted, Extends-refl c, tt)

  -- `secondPass` on every branch, errors included: the counter of the context still counts its
  -- principals, no principal is removed or moved, and if the policies among the arguments have
  -- indices of principals of the context, so has the policy that is returned.
  pub second_pass-Keeps :
      (args : List (Value F)) (c : Context)
      → IsCounted c
      → All (IsGood (length c.principals)) args
      → Keeps IsGood c (second_pass n marshal_role args c)
  unfolding second_pass
  second_pass-Keeps args c counted good = cases (ltb (length args) 3)
    where
      cases :
          (b : Bool)
          → Keeps IsGood c (
              if b
              then (err (message "at least 3 arguments expected, got %d"), c)
              else with_args n marshal_role args c)
      cases true = (counted, Extends-refl c, tt)
      cases false = with_args-Keeps args c counted good
