-- ===== src/Package/Signed.antt =====
-- internal/ccplatform/scds.go: packages that are a signed deployment spec in an envelope, and
-- `ExtractSignedCCDepSpec` of provider.go.
use fabricsdk_go.Prelude.{
  str_eq, List, [], ◌∷◌, ◌++◌, Bool, false, ◌&&◌, Option, none, some, Bytes, bytes_eq, codes,
  Result, ok, panic, guard, deref, required, ◌>>=◌, ◌>>◌, int_eq,
}
use fabricsdk_go.Tx.Messages.{ChaincodeId, Envelope, ChannelHeader}
use fabricsdk_go.Package.{
  ChaincodeDeploymentSpec, SignedChaincodeDeploymentSpec, ChaincodeData, SignedCdsData, PackageHost,
  bytes_of, relabelled, is_printable, settle,
}
use fabricsdk_go.Package.Cds.{chaincode_id_of}

unfoldable pub signed_equals : SignedCdsData → Option SignedCdsData → Bool
signed_equals d none = false
signed_equals d (some other) =
    bytes_eq d.code_hash other.code_hash
    && bytes_eq d.meta_data_hash other.meta_data_hash
    && bytes_eq d.signature_hash other.signature_hash

pub record SignedCdsPackage : Type 0 where
  pub buf : Option Bytes
  pub dep_spec : Option ChaincodeDeploymentSpec
  pub s_dep_spec : Option SignedChaincodeDeploymentSpec
  pub env : Option Envelope
  pub cds_data : Option SignedCdsData
  pub datab : Option Bytes
  pub id : Option Bytes

abbrev pub empty_signed_package : SignedCdsPackage
empty_signed_package = record {
  buf = none;
  dep_spec = none;
  s_dep_spec = none;
  env = none;
  cds_data = none;
  datab = none;
  id = none;
}

unfoldable pub signed_reset : SignedCdsPackage → SignedCdsPackage
signed_reset ccpack = empty_signed_package

unfoldable pub signed_get_id : SignedCdsPackage → Result Bytes
signed_get_id ccpack = deref ccpack.id

unfoldable pub signed_get_dep_spec : SignedCdsPackage → Result ChaincodeDeploymentSpec
signed_get_dep_spec ccpack = deref ccpack.dep_spec

unfoldable pub get_instantiation_policy : SignedCdsPackage → Result (Option Bytes)
get_instantiation_policy ccpack = do
  s_dep_spec ← deref ccpack.s_dep_spec
  ok s_dep_spec.instantiation_policy

unfoldable pub signed_get_dep_spec_bytes : SignedCdsPackage → Result Bytes
signed_get_dep_spec_bytes ccpack = do
  s_dep_spec ← deref ccpack.s_dep_spec
  deref s_dep_spec.chaincode_deployment_spec

abbrev pub policy_of : Option SignedChaincodeDeploymentSpec → Option Bytes
policy_of none = none
policy_of (some s_dep_spec) = s_dep_spec.instantiation_policy

unfoldable pub signed_get_chaincode_data : SignedCdsPackage → Result ChaincodeData
signed_get_chaincode_data ccpack = do
  dep_spec ← deref ccpack.dep_spec
  datab ← deref ccpack.datab
  id ← deref ccpack.id
  cid ← chaincode_id_of dep_spec
  ok (record {
    name = cid.name;
    version = cid.version;
    escc = "";
    vscc = "";
    policy = [];
    data_bytes = datab;
    id = id;
    instantiation_policy = policy_of ccpack.s_dep_spec;
  })

-- The writes of the loop over the owners' endorsements, of which only the endorser is hashed.
abbrev pub concat : List Bytes → Bytes
concat [] = []
concat (b ∷ bs) = b ++ concat bs

module _ (h : PackageHost) where
  abbrev pub signed_data_of :
      ChaincodeDeploymentSpec → ChaincodeId → Bytes → List Bytes → SignedCdsData
  signed_data_of cds cid instantiation_policy owners = record {
    code_hash = h.sum cds.code_package;
    meta_data_hash = h.sum (codes cid.name ++ codes cid.version);
    signature_hash = h.sum (instantiation_policy ++ concat owners);
  }

  abbrev pub signed_id_of : SignedCdsData → Bytes
  signed_id_of d = h.sum (d.code_hash ++ (d.meta_data_hash ++ d.signature_hash))

  unfoldable pub signed_get_cds_data :
      Option SignedChaincodeDeploymentSpec → Result (Bytes × (Bytes × SignedCdsData))
  signed_get_cds_data none = panic
  signed_get_cds_data (some scds) = do
    cds ← h.deployment_spec.unmarshal (bytes_of scds.chaincode_deployment_spec)
    cid ← chaincode_id_of cds
    instantiation_policy ←
        required "instantiation policy cannot be nil for chaincode (%s:%s)"
          scds.instantiation_policy
    let scdsdata = signed_data_of cds cid instantiation_policy scds.owner_endorsements in
        (do b ← h.signed_cds_data.marshal scdsdata; ok (b, (signed_id_of scdsdata, scdsdata)))

  unfoldable pub signed_validate_cc : SignedCdsPackage → ChaincodeData → Result (Unit {0})
  signed_validate_cc ccpack ccdata = do
    s_dep_spec ← required "uninitialized package" ccpack.s_dep_spec
    spec_bytes ←
        required "signed chaincode deployment spec cannot be nil in a package"
          s_dep_spec.chaincode_deployment_spec
    dep_spec ← required "chaincode deployment spec cannot be nil in a package" ccpack.dep_spec
    guard (is_printable h.is_print ccdata.name) "invalid chaincode name: %q"
    cid ← chaincode_id_of dep_spec
    guard (str_eq ccdata.name cid.name && str_eq ccdata.version cid.version)
        "invalid chaincode data %v (%v)"
    otherdata ← h.signed_cds_data.unmarshal ccdata.data_bytes
    cds_data ← deref ccpack.cds_data
    guard (signed_equals cds_data (some otherdata)) "data mismatch"

  -- `ExtractSignedCCDepSpec`
  unfoldable pub extract_signed_cc_dep_spec :
      Envelope → Result (ChannelHeader × SignedChaincodeDeploymentSpec)
  extract_signed_cc_dep_spec env = do
    p ← h.messages.payload.unmarshal env.payload
    header ← required "channel header cannot be nil" p.header
    ch ← h.messages.channel_header.unmarshal header.channel_header
    sp ← h.signed_spec.unmarshal p.data_bytes
    ok (ch, sp)

  abbrev pub signed_loaded : Bytes → Result SignedCdsPackage
  signed_loaded buf = do
    env ← relabelled "failed to unmarshal envelope from bytes" (h.messages.envelope.unmarshal buf)
    (c_hdr, s_dep_spec) ← extract_signed_cc_dep_spec env
    guard (int_eq c_hdr.type h.chaincode_package) "invalid type of envelope for chaincode package"
    dep_spec ←
        relabelled "error getting deployment spec"
          (h.deployment_spec.unmarshal (bytes_of s_dep_spec.chaincode_deployment_spec))
    (databytes, (id, cds_data)) ← signed_get_cds_data (some s_dep_spec)
    ok (record {
      buf = some buf;
      dep_spec = some dep_spec;
      s_dep_spec = some s_dep_spec;
      env = some env;
      cds_data = some cds_data;
      datab = some databytes;
      id = some id;
    })

  unfoldable pub signed_init_from_buffer :
      Bytes → SignedCdsPackage → Result ChaincodeData × SignedCdsPackage
  unfolding signed_reset signed_get_chaincode_data
  signed_init_from_buffer buf ccpack =
      settle signed_get_chaincode_data (signed_loaded buf) (signed_reset ccpack)
