-- ===== src/Package/Registered.antt =====
-- What a registry of internal/ccplatform/platform.go answers.
use fabricsdk_go.Prelude.{
  String, str_eq, eq_iff, List, [], ◌∷◌, Bool, true, false, Option, none, some, ok, if◌then◌else◌,
  ◌≡◌, refl, sym, ap, ◌∙◌, All, bind_ok, ok_inj,
}
use fabricsdk_go.Package.Registry.{
  Platform, Platforms, lookup, add, add_all, new_registry, get_deployment_payload, normalized,
  payload_from, path_from, normalize_path,
}

abbrev pub IsFound : Platforms → Platform → Type 0
IsFound r p = lookup p.name r ≡ some p

-- What is found stays found while platforms are added.
add-IsFound :
    (p q : Platform) (r s : Platforms)
    → add (lookup q.name r) q r ≡ ok s
    → IsFound r p
    → IsFound s p
add-IsFound p q r s e found = cases (lookup q.name r) refl e
  where
    after :
        (b : Bool)
        → str_eq q.name p.name ≡ b
        → lookup q.name r ≡ none
        → (if b then some q else lookup p.name r) ≡ some p
    after true same missing =
        let name : q.name ≡ p.name = (eq_iff q.name p.name).0 same in
        let none_is_some : none ≡ some p = sym missing ∙ (ap (λ k. lookup k r) name ∙ found) in cc
    after false other missing = found

    cases : (o : Option Platform) → lookup q.name r ≡ o → add o q r ≡ ok s → IsFound s p
    cases none missing e =
        let is_s : (q.name, q) ∷ r ≡ s = ok_inj ((q.name, q) ∷ r) s e in
        rw (← is_s) (after (str_eq q.name p.name) refl missing)
    cases (some other) there e = cc

add-finds : (q : Platform) (r s : Platforms) → add (lookup q.name r) q r ≡ ok s → IsFound s q
add-finds q r s e = cases (lookup q.name r) e
  where
    cases : (o : Option Platform) → add o q r ≡ ok s → IsFound s q
    cases none e =
        let is_s : (q.name, q) ∷ r ≡ s = ok_inj ((q.name, q) ∷ r) s e in
        rw (← is_s, (eq_iff q.name q.name).1 refl) refl
    cases (some other) e = cc

add_all-IsFound :
    (p : Platform) (ps : List Platform) (r s : Platforms)
    → add_all ps r ≡ ok s
    → IsFound r p
    → IsFound s p
add_all-IsFound p [] r s e found = rw (← ok_inj r s e) found
add_all-IsFound p (q ∷ qs) r s e found =
    bind_ok (add (lookup q.name r) q r) _ e
      λ more e1 e2. add_all-IsFound p qs more s e2 (add-IsFound p q r more e1 found)

add_all-finds : (ps : List Platform) (r s : Platforms) → add_all ps r ≡ ok s → All (IsFound s) ps
add_all-finds [] r s e = tt
add_all-finds (p ∷ ps) r s e = bind_ok (add (lookup p.name r) p r) _ e λ more e1 e2.
    (add_all-IsFound p ps more s e2 (add-finds p r more e1), add_all-finds ps more s e2)

-- What a registry answers for the name of a platform is what the platform answers.
abbrev pub Answers : Platforms → String → Platform → Type 0
Answers r path p =
    (get_deployment_payload r p.name path ≡ p.get_deployment_payload path)
    × (normalize_path r p.name path ≡ normalized p.normalize_path path)

IsFound-Answers : (r : Platforms) (path : String) (p : Platform) → IsFound r p → Answers r path p
unfolding get_deployment_payload normalize_path
IsFound-Answers r path p found =
    (ap (λ o. payload_from o path) found, ap (λ o. path_from o path) found)

All-Answers :
    (r : Platforms) (path : String) (ps : List Platform)
    → All (IsFound r) ps
    → All (Answers r path) ps
All-Answers r path [] h = tt
All-Answers r path (p ∷ ps) (first, rest) =
    (IsFound-Answers r path p first, All-Answers r path ps rest)

-- A registry that was made of platforms answers for each of them by the platform of that name.
pub new_registry-Answers :
    (ps : List Platform) (r : Platforms) (path : String)
    → new_registry ps ≡ ok r
    → All (Answers r path) ps
unfolding new_registry
new_registry-Answers ps r path e = All-Answers r path ps (add_all-finds ps [] r e)
