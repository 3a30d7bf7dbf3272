-- ===== src/Policy/Principals.antt =====
-- The expression `regex` of internal/chaincode/policy/policydsl.go,
-- ^([[:alnum:].-]+)([.])(admin|member|client|peer|orderer)$, and the roles. No role has a dot, so
-- that the second group can only be the last dot of a text.
use Prim.Native.Char.{Char, code}
use fabricsdk_go.Prelude.{
  ℕ, String, List, [], ◌∷◌, Bool, true, false, ◌&&◌, ◌||◌, Option, none, some, leb, ◌==◌, str_eq,
  if◌then◌else◌,
}
use fabricsdk_go.Policy.{RoleType, member, admin, client, peer, orderer}

-- `[[:alnum:].-]`
abbrev pub is_allowed : ℕ → Bool
is_allowed c =
    (leb 48 c && leb c 57)
    || (leb 65 c && leb c 90)
    || (leb 97 c && leb c 122)
    || c == 46
    || c == 45

abbrev pub all_allowed : String → Bool
all_allowed String.[] = true
all_allowed (String.◌∷◌ c s) = is_allowed (code c) && all_allowed s

abbrev pub extend : Char → Option (String × String) → String → Option (String × String)
extend c (some (before, behind)) s = some (String.◌∷◌ c before, behind)
extend c none s = if code c == 46 then some (String.[], s) else none

-- What stands before and behind the last dot.
abbrev pub split_last_dot : String → Option (String × String)
split_last_dot String.[] = none
split_last_dot (String.◌∷◌ c s) = let rest = split_last_dot s in extend c rest s

-- The switch over the roles.
abbrev pub role_of : String → Option RoleType
role_of s =
    if str_eq s "member"
    then some member
    else if str_eq s "admin"
    then some admin
    else if str_eq s "client"
    then some client
    else if str_eq s "peer"
    then some peer
    else if str_eq s "orderer"
    then some orderer
    else none

abbrev pub is_role : String → Bool
is_role s =
    str_eq s "admin"
    || str_eq s "member"
    || str_eq s "client"
    || str_eq s "peer"
    || str_eq s "orderer"

abbrev pub matched : String → Option (String × String) → List (List String)
matched t none = []
matched t (some (org, role)) =
    if not_blank org && all_allowed org && is_role role
    then (t ∷ org ∷ "." ∷ role ∷ []) ∷ []
    else []
  where
    not_blank : String → Bool
    not_blank String.[] = false
    not_blank (String.◌∷◌ c s) = true

-- `regex.FindAllStringSubmatch(t, -1)`
unfoldable pub find_all_string_submatch : String → List (List String)
find_all_string_submatch t = matched t (split_last_dot t)

abbrev pub is_found : List (List String) → Bool
is_found [] = false
is_found (m ∷ ms) = true

-- `regex.MatchString(t)`
unfoldable pub match_string : String → Bool
unfolding find_all_string_submatch
match_string t = is_found (find_all_string_submatch t)
