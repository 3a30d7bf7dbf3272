-- ===== src/Package/Registry.antt =====
-- The registry of internal/ccplatform/platform.go: the platforms by their names.
use fabricsdk_go.Prelude.{
  String, str_eq, List, [], ◌∷◌, Option, none, some, Bytes, Result, ok, err, panic, message, ◌>>=◌,
  if◌then◌else◌,
}

-- A platform, with the normaliser that it may have.
pub record Platform : Type 0 where
  pub name : String
  pub get_deployment_payload : String → Result Bytes
  pub normalize_path : Option (String → Result String)

abbrev pub Platforms : Type 0
Platforms = List (String × Platform)

abbrev pub lookup : String → Platforms → Option Platform
lookup key [] = none
lookup key ((name, p) ∷ rest) = if str_eq name key then some p else lookup key rest

abbrev pub add : Option Platform → Platform → Platforms → Result Platforms
add none p platforms = ok ((p.name, p) ∷ platforms)
add (some other) p platforms = panic

-- The loop of `NewRegistry`.
abbrev pub add_all : List Platform → Platforms → Result Platforms
add_all [] platforms = ok platforms
add_all (p ∷ ps) platforms = do more ← add (lookup p.name platforms) p platforms; add_all ps more

unfoldable pub new_registry : List Platform → Result Platforms
new_registry platform_types = add_all platform_types []

abbrev pub payload_from : Option Platform → String → Result Bytes
payload_from none path = err (message "Unknown chaincodeType: %s")
payload_from (some platform) path = platform.get_deployment_payload path

unfoldable pub get_deployment_payload : Platforms → String → String → Result Bytes
get_deployment_payload r cc_type path = payload_from (lookup cc_type r) path

abbrev pub normalized : Option (String → Result String) → String → Result String
normalized none path = ok path
normalized (some normalize) path = normalize path

abbrev pub path_from : Option Platform → String → Result String
path_from none path = err (message "unknown chaincodeType: %s")
path_from (some platform) path = normalized platform.normalize_path path

unfoldable pub normalize_path : Platforms → String → String → Result String
normalize_path r cc_type path = path_from (lookup cc_type r) path
