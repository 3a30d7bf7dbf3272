-- ===== src/Package/Cds.antt =====
-- internal/ccplatform/cds.go: packages that are a deployment spec.
use fabricsdk_go.Prelude.{
  str_eq, [], ◌++◌, Bool, false, ◌&&◌, Option, none, some, Bytes, bytes_eq, codes, Result, ok,
  panic, guard, deref, required, ◌>>=◌, ◌>>◌,
}
use fabricsdk_go.Tx.Messages.{ChaincodeId}
use fabricsdk_go.Package.{
  ChaincodeDeploymentSpec, ChaincodeData, CdsData, PackageHost, relabelled, is_printable, settle,
}

-- `Equals`, with a pointer that may be nil.
unfoldable pub equals : CdsData → Option CdsData → Bool
equals d none = false
equals d (some other) =
    bytes_eq d.code_hash other.code_hash && bytes_eq d.meta_data_hash other.meta_data_hash

pub record CdsPackage : Type 0 where
  pub buf : Option Bytes
  pub dep_spec : Option ChaincodeDeploymentSpec
  pub cds_data : Option CdsData
  pub datab : Option Bytes
  pub id : Option Bytes

abbrev pub empty_package : CdsPackage
empty_package = record { buf = none; dep_spec = none; cds_data = none; datab = none; id = none }

unfoldable pub reset : CdsPackage → CdsPackage
reset ccpack = empty_package

unfoldable pub get_id : CdsPackage → Result Bytes
get_id ccpack = deref ccpack.id

unfoldable pub get_dep_spec : CdsPackage → Result ChaincodeDeploymentSpec
get_dep_spec ccpack = deref ccpack.dep_spec

unfoldable pub get_dep_spec_bytes : CdsPackage → Result Bytes
get_dep_spec_bytes ccpack = deref ccpack.buf

-- `cds.ChaincodeSpec.ChaincodeId`
abbrev pub chaincode_id_of : ChaincodeDeploymentSpec → Result ChaincodeId
chaincode_id_of cds = do spec ← deref cds.chaincode_spec; deref spec.chaincode_id

unfoldable pub get_chaincode_data : CdsPackage → Result ChaincodeData
get_chaincode_data ccpack = do
  dep_spec ← deref ccpack.dep_spec
  datab ← deref ccpack.datab
  id ← deref ccpack.id
  cid ← chaincode_id_of dep_spec
  ok (record {
    name = cid.name;
    version = cid.version;
    escc = "";
    vscc = "";
    policy = [];
    data_bytes = datab;
    id = id;
    instantiation_policy = none;
  })

module _ (h : PackageHost) where
  -- The hashes of the code and of the name followed by the version.
  abbrev pub data_of : ChaincodeDeploymentSpec → ChaincodeId → CdsData
  data_of cds cid = record {
    code_hash = h.sum cds.code_package;
    meta_data_hash = h.sum (codes cid.name ++ codes cid.version);
  }

  abbrev pub id_of : CdsData → Bytes
  id_of d = h.sum (d.code_hash ++ d.meta_data_hash)

  unfoldable pub get_cds_data : Option ChaincodeDeploymentSpec → Result (Bytes × (Bytes × CdsData))
  get_cds_data none = panic
  get_cds_data (some cds) = do
    unused ← h.deployment_spec.marshal cds
    cid ← chaincode_id_of cds
    b ← h.cds_data.marshal (data_of cds cid)
    ok (b, (id_of (data_of cds cid), data_of cds cid))

  unfoldable pub validate_cc : CdsPackage → ChaincodeData → Result (Unit {0})
  validate_cc ccpack ccdata = do
    dep_spec ← required "uninitialized package" ccpack.dep_spec
    cds_data ← required "nil data" ccpack.cds_data
    guard (is_printable h.is_print ccdata.name) "invalid chaincode name: %q"
    cid ← chaincode_id_of dep_spec
    guard (str_eq ccdata.name cid.name && str_eq ccdata.version cid.version)
        "invalid chaincode data %v (%v)"
    otherdata ← h.cds_data.unmarshal ccdata.data_bytes
    guard (equals cds_data (some otherdata)) "data mismatch"

  -- The package that `InitFromBuffer` makes.
  abbrev pub loaded : Bytes → Result CdsPackage
  loaded buf = do
    dep_spec ←
        relabelled "failed to unmarshal deployment spec from bytes"
          (h.deployment_spec.unmarshal buf)
    (databytes, (id, cds_data)) ← get_cds_data (some dep_spec)
    ok (record {
      buf = some buf;
      dep_spec = some dep_spec;
      cds_data = some cds_data;
      datab = some databytes;
      id = some id;
    })

  unfoldable pub init_from_buffer : Bytes → CdsPackage → Result ChaincodeData × CdsPackage
  unfolding reset get_chaincode_data
  init_from_buffer buf ccpack = settle get_chaincode_data (loaded buf) (reset ccpack)
