-- ===== src/Policy/Regex.antt =====
-- What the expression `regex` of internal/chaincode/policy/policydsl.go matches: each principal that
-- the language can write, in its organisation and its role, and no call of outof.
use Prim.Native.String.{◌++◌ as append}
use Prim.Native.String.append.{cons as append_cons, nil as append_nil}
use fabricsdk_go.Prelude.{String, [], ◌∷◌, true, false, Option, none, some, ◌≡◌, ◌≢◌, refl, ap}
use fabricsdk_go.Policy.{RoleType, member, admin, client, peer, orderer}
use fabricsdk_go.Policy.Principals.{
  split_last_dot, extend, role_of, matched, all_allowed, find_all_string_submatch, match_string,
  is_role, is_found,
}
use fabricsdk_go.Policy.Language.{role_text, principal_text}

role_text-split :
    (r : RoleType) → split_last_dot (append "." (role_text r)) ≡ some ("", role_text r)
role_text-split member = refl
role_text-split admin = refl
role_text-split client = refl
role_text-split peer = refl
role_text-split orderer = refl

principal_text-split :
    (org : String) (r : RoleType) → split_last_dot (principal_text org r) ≡ some (org, role_text r)
principal_text-split String.[] r = rw (append_nil) (role_text-split r)
principal_text-split (String.◌∷◌ c s) r = rw (append_cons, principal_text-split s r)

pub role_of-role_text : (r : RoleType) → role_of (role_text r) ≡ some r
role_of-role_text member = refl
role_of-role_text admin = refl
role_of-role_text client = refl
role_of-role_text peer = refl
role_of-role_text orderer = refl

is_role-role_text : (r : RoleType) → is_role (role_text r) ≡ true
is_role-role_text member = refl
is_role-role_text admin = refl
is_role-role_text client = refl
is_role-role_text peer = refl
is_role-role_text orderer = refl

pub find_all-principal :
    (org : String) (r : RoleType)
    → org ≢ ""
    → all_allowed org ≡ true
    → find_all_string_submatch (principal_text org r)
      ≡ (principal_text org r ∷ org ∷ "." ∷ role_text r ∷ []) ∷ []
unfolding find_all_string_submatch
find_all-principal String.[] r not_empty allowed = absurd (not_empty refl)
find_all-principal (String.◌∷◌ c s) r not_empty allowed =
    rw (principal_text-split (String.◌∷◌ c s) r, allowed, is_role-role_text r) refl

outof_chars :
    (rest : String)
    → append "outof(" rest
      ≡ String.◌∷◌ "o"
          (String.◌∷◌ "u" (String.◌∷◌ "t" (String.◌∷◌ "o" (String.◌∷◌ "f" (String.◌∷◌ "(" rest)))))
outof_chars rest =
    rw
      (
        append_cons "o" "utof(" rest,
        append_cons "u" "tof(" rest,
        append_cons "t" "of(" rest,
        append_cons "o" "f(" rest,
        append_cons "f" "(" rest,
        append_cons "(" "" rest,
        append_nil rest,
      )
      refl

-- Whatever follows `outof(`, what stands before its last dot has a parenthesis.
call-unmatched :
    (found : Option (String × String)) (t rest s1 s2 s3 s4 s5 : String)
    → matched t (
        extend "o"
          (extend "u" (extend "t" (extend "o" (extend "f" (extend "(" found rest) s1) s2) s3) s4)
          s5)
      ≡ []
call-unmatched none t rest s1 s2 s3 s4 s5 = refl
call-unmatched (some (org, role)) t rest s1 s2 s3 s4 s5 = refl

find_all-call : (rest : String) → find_all_string_submatch (append "outof(" rest) ≡ []
unfolding find_all_string_submatch
find_all-call rest = rw (outof_chars rest) (call-unmatched (split_last_dot rest) _ _ _ _ _ _ _)

pub match_string-call : (rest : String) → match_string (append "outof(" rest) ≡ false
unfolding match_string
match_string-call rest = ap is_found (find_all-call rest)

pub match_string-principal :
    (org : String) (r : RoleType)
    → org ≢ ""
    → all_allowed org ≡ true
    → match_string (principal_text org r) ≡ true
unfolding match_string
match_string-principal org r not_empty allowed =
    ap is_found (find_all-principal org r not_empty allowed)
