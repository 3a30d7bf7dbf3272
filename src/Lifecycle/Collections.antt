-- ===== src/Lifecycle/Collections.antt =====
-- `getCollectionConfigFromBytes` of internal/chaincode/policy.go. Reading JSON is a parameter.
use fabricsdk_go.Prelude.{
  ℕ, Bool, String, List, Option, none, some, Bytes, Result, ok, err, panic, wrap, traverse, ◌>>=◌,
  ℤ, pos,
}
use fabricsdk_go.Lifecycle.Policy.{ApplicationPolicy, get_application_policy}

pub record EndorsementPolicy : Type 0 where
  pub channel_config_policy : String
  pub signature_policy : String

pub record CollectionConfigJson : Type 0 where
  pub name : String
  pub policy : String
  pub required_peer_count : Option ℤ
  pub max_peer_count : Option ℤ
  pub block_to_live : ℕ
  pub member_only_read : Bool
  pub member_only_write : Bool
  pub endorsement_policy : Option EndorsementPolicy

-- `pb.StaticCollectionConfig`, whose member policy is a signature policy.
pub record CollectionConfig (P : Type 0) : Type 0 where
  pub name : String
  pub member_orgs_policy : P
  pub required_peer_count : ℤ
  pub maximum_peer_count : ℤ
  pub block_to_live : ℕ
  pub member_only_read : Bool
  pub member_only_write : Bool
  pub endorsement_policy : Option (ApplicationPolicy P)

abbrev or_count : Option ℤ → ℤ → ℤ
or_count none default = default
or_count (some n) default = n

-- `return ccp, ccpBytes, err`: the package is there even if marshalling it fails.
abbrev packaged :
    {P : Type 0}
    → (List (CollectionConfig P) → Result Bytes)
    → Result (List (CollectionConfig P))
    → Option (List (CollectionConfig P)) × Result Bytes
packaged marshal (ok ccp) = (some ccp, marshal ccp)
packaged marshal (err e) = (none, err e)
packaged marshal panic = (none, panic)

module _ {P : Type 0} (from_string : String → Result P) where
  abbrev endorsement_of : Option EndorsementPolicy → Result (Option (ApplicationPolicy P))
  endorsement_of none = ok none
  endorsement_of (some e) =
      wrap "invalid endorsement policy [%#v]"
        (get_application_policy from_string e.signature_policy e.channel_config_policy)

  unfoldable pub collection_config : CollectionConfigJson → Result (CollectionConfig P)
  unfolding get_application_policy
  collection_config item = do
    p ← wrap "invalid policy %s" (from_string item.policy)
    ep ← endorsement_of item.endorsement_policy
    ok (record {
      name = item.name;
      member_orgs_policy = p;
      required_peer_count = or_count item.required_peer_count (pos 0);
      maximum_peer_count = or_count item.max_peer_count (pos 1);
      block_to_live = item.block_to_live;
      member_only_read = item.member_only_read;
      member_only_write = item.member_only_write;
      endorsement_policy = ep;
    })

  -- The package, and the bytes or the error.
  unfoldable pub get_collection_config_from_bytes :
      (Bytes → Result (List CollectionConfigJson))
      → (List (CollectionConfig P) → Result Bytes)
      → Bytes
      → Option (List (CollectionConfig P)) × Result Bytes
  unfolding collection_config
  get_collection_config_from_bytes parse marshal bytes = packaged marshal (do
    items ← wrap "could not parse the collection configuration" (parse bytes)
    traverse collection_config items)
