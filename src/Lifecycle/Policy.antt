-- ===== src/Lifecycle/Policy.antt =====
-- `getApplicationPolicy` of internal/chaincode/policy.go and `createPolicyBytes` of approve.go. What
-- reads the text of a policy, `policy.FromString`, is a parameter, and so is the protobuf library.
use fabricsdk_go.Prelude.{
  Bool, not, ◌&&◌, String, str_eq, [], Option, none, some, Bytes, Result, ok, err, panic, message,
  or_panic, ◌>>=◌, if◌then◌else◌,
}

pub data ApplicationPolicy (P : Type 0) : Type 0 where
  signature_policy : P → ApplicationPolicy P
  channel_config_policy_reference : String → ApplicationPolicy P

abbrev pub is_blank : String → Bool
is_blank s = str_eq s ""

-- The error of `FromString` is replaced.
abbrev pub invalid_signature_policy : {P : Type 0} → Result P → Result P
invalid_signature_policy (ok p) = ok p
invalid_signature_policy (err e) = err (message "invalid signature policy: %s")
invalid_signature_policy panic = panic

module _ {P : Type 0} (from_string : String → Result P) where
  abbrev from_signature_policy : String → Result (Option (ApplicationPolicy P))
  from_signature_policy signature = do
    envelope ← invalid_signature_policy (from_string signature)
    ok (some (signature_policy envelope))

  -- The two assignments to `applicationPolicy`; the second writes over the first.
  abbrev pub chosen_policy : String → String → Result (Option (ApplicationPolicy P))
  chosen_policy signature channel_config = do
    first ← (if not (is_blank signature) then from_signature_policy signature else ok none)
    ok (
        if not (is_blank channel_config)
        then some (channel_config_policy_reference channel_config)
        else first)

  unfoldable pub get_application_policy : String → String → Result (Option (ApplicationPolicy P))
  get_application_policy signature channel_config =
      if is_blank signature && is_blank channel_config
      then ok none
      else if not (is_blank signature) && not (is_blank channel_config)
      then err
          (message "cannot specify both \"--signature-policy\" and \"--channel-config-policy\"")
      else chosen_policy signature channel_config

  unfoldable pub create_policy_bytes :
      (Option (ApplicationPolicy P) → Result Bytes) → String → String → Result Bytes
  create_policy_bytes marshal signature channel_config =
      if is_blank signature && is_blank channel_config
      then ok []
      else if not (is_blank signature) && not (is_blank channel_config)
      then err
          (message "cannot specify both \"--signature-policy\" and \"--channel-config-policy\"")
      else (do policy ← chosen_policy signature channel_config; or_panic (marshal policy))
