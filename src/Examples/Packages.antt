-- ===== src/Examples/Packages.antt =====
-- A chaincode package, read from bytes, and a registry of two platforms.
use fabricsdk_go.Prelude.{
  ℕ, ◌+◌, ◌%◌, arith, String, List, [], ◌∷◌, Option, none, some, Bytes, codes, leb, ok, panic,
  length, ◌≡◌, ◌≢◌, refl, ◌⊎◌, inl, inr, ◌↔◌, pos, ap,
}
use fabricsdk_go.Tx.Messages.{ChaincodeId}
use fabricsdk_go.Package.{
  ChaincodeDeploymentSpec, SignedChaincodeDeploymentSpec, ChaincodeData, CdsData, SignedCdsData,
  PackageHost, is_printable,
}
use fabricsdk_go.Package.Cds.{
  equals, CdsPackage, empty_package, data_of, id_of, get_cds_data, validate_cc, init_from_buffer,
  reset, get_chaincode_data,
}
use fabricsdk_go.Package.Signed.{
  signed_init_from_buffer, signed_reset, extract_signed_cc_dep_spec, signed_get_cds_data,
}
use fabricsdk_go.Package.Choice.{cds, get_cc_package}
use fabricsdk_go.Package.Whole.{IsRead, package_of, described, init_from_buffer-IsRead}
use fabricsdk_go.Package.Chosen.{SignedPanics}
use fabricsdk_go.Package.Panics.{AreCalm, ReadsNameless, get_cc_package-panic_iff}
use fabricsdk_go.Package.Fingerprint.{Collision, get_cds_data-Collision, get_cds_data-boundary}
use fabricsdk_go.Package.Registry.{Platform}
use fabricsdk_go.Examples.Wire.{
  Wire, via, pair, list, option, bytes_wire, codec, codec-IsCodec, codec_calm,
}
use fabricsdk_go.Examples.Messages.{codecs, chaincode_id_wire}

abbrev spec_wire : Wire ChaincodeDeploymentSpec
spec_wire =
    via (λ s. (s.chaincode_spec, s.code_package))
      (λ (c, p). record { chaincode_spec = c; code_package = p }) (λ s. refl)
      (pair
        (option (
          via (λ s. s.chaincode_id) (λ i. record { chaincode_id = i }) (λ s. refl)
            (option chaincode_id_wire)))
        bytes_wire)

abbrev signed_spec_wire : Wire SignedChaincodeDeploymentSpec
signed_spec_wire =
    via (λ s. (s.chaincode_deployment_spec, (s.instantiation_policy, s.owner_endorsements)))
      (λ (c, (i, o)). record {
        chaincode_deployment_spec = c;
        instantiation_policy = i;
        owner_endorsements = o;
      })
      (λ s. refl) (pair (option bytes_wire) (pair (option bytes_wire) (list bytes_wire)))

abbrev cds_data_wire : Wire CdsData
cds_data_wire =
    via (λ d. (d.code_hash, d.meta_data_hash))
      (λ (c, m). record { code_hash = c; meta_data_hash = m }) (λ d. refl)
      (pair bytes_wire bytes_wire)

abbrev signed_cds_data_wire : Wire SignedCdsData
signed_cds_data_wire =
    via (λ d. (d.code_hash, (d.meta_data_hash, d.signature_hash)))
      (λ (c, (m, s)). record { code_hash = c; meta_data_hash = m; signature_hash = s }) (λ d. refl)
      (pair bytes_wire (pair bytes_wire bytes_wire))

abbrev add_up : Bytes → ℕ
add_up [] = 0
add_up (b ∷ bs) = (b + add_up bs) % 256

-- A hash of one byte.
abbrev host : PackageHost
host = record {
  deployment_spec = codec spec_wire;
  signed_spec = codec signed_spec_wire;
  cds_data = codec cds_data_wire;
  signed_cds_data = codec signed_cds_data_wire;
  messages = codecs;
  sum = λ b. add_up b ∷ [];
  is_print = leb 32;
  chaincode_package = pos 6;
}

abbrev named : String → String → ChaincodeId
named name version = record { path = ""; name = name; version = version }

abbrev spec_of : Option ChaincodeId → Bytes → ChaincodeDeploymentSpec
spec_of cid code = record {
  chaincode_spec = some (record { chaincode_id = cid });
  code_package = code;
}

abbrev mycc : ChaincodeDeploymentSpec
mycc = spec_of (some (named "mycc" "1.0")) (1 ∷ 2 ∷ [])

abbrev mycc_bytes : Bytes
mycc_bytes = spec_wire.write mycc

abbrev mycc_data : CdsData
mycc_data = data_of host mycc (named "mycc" "1.0")

abbrev mycc_package : CdsPackage
mycc_package = package_of host mycc_bytes mycc (named "mycc" "1.0") (cds_data_wire.write mycc_data)

abbrev mycc_described : ChaincodeData
mycc_described =
    described (named "mycc" "1.0") (cds_data_wire.write mycc_data) (id_of host mycc_data)

init_from_buffer-IsRead_example :
    ((d : ChaincodeData) × ((init_from_buffer host mycc_bytes empty_package).0 ≡ ok d)
      × IsRead host mycc_bytes (init_from_buffer host mycc_bytes empty_package).1 d)
    ⊎ ((((d : ChaincodeData) → (init_from_buffer host mycc_bytes empty_package).0 ≢ ok d)
        × ((init_from_buffer host mycc_bytes empty_package).1 ≡ empty_package)))
init_from_buffer-IsRead_example = init_from_buffer-IsRead host mycc_bytes empty_package

chosen_test : get_cc_package host mycc_bytes ≡ ok (cds mycc_package)
unfolding get_cc_package init_from_buffer get_cds_data reset get_chaincode_data validate_cc equals
    is_printable signed_init_from_buffer signed_reset extract_signed_cc_dep_spec signed_get_cds_data
chosen_test = refl

abbrev nameless : ChaincodeDeploymentSpec
nameless = spec_of none []

host-AreCalm : AreCalm host
host-AreCalm = record {
  unmarshal_calm = codec_calm spec_wire;
  marshal_calm = λ spec h. cc;
  data_calm = λ d h. cc;
}

get_cc_package-panic_iff_example :
    (get_cc_package host (spec_wire.write nameless) ≡ panic)
    ↔ (ReadsNameless host (spec_wire.write nameless) ⊎ SignedPanics host (spec_wire.write nameless))
get_cc_package-panic_iff_example =
    get_cc_package-panic_iff host host-AreCalm (codec-IsCodec cds_data_wire)
      (spec_wire.write nameless)

panic_test : get_cc_package host (spec_wire.write nameless) ≡ panic
panic_test =
    (get_cc_package-panic_iff host host-AreCalm (codec-IsCodec cds_data_wire)
        (spec_wire.write nameless)).1
      (inl (
        nameless,
        spec_wire.write nameless,
        refl,
        refl,
        inr (record { chaincode_id = none }, refl, refl),
      ))

-- The same id, by a hash that confuses 1, 2 with 3.
abbrev other : ChaincodeDeploymentSpec
other = spec_of (some (named "mycc" "1.0")) (3 ∷ [])

abbrev made_of : ChaincodeDeploymentSpec → Bytes × (Bytes × CdsData)
made_of s =
    let d = data_of host s (named "mycc" "1.0") in (cds_data_wire.write d, (id_of host d, d))

code_differs : mycc.code_package ≢ other.code_package
code_differs h = let lengths : 2 ≡ 1 = ap length h in omega (arith, lengths)

get_cds_data-Collision_example : Collision host.sum
unfolding get_cds_data
get_cds_data-Collision_example =
    get_cds_data-Collision host (λ x y. refl) mycc other (made_of mycc) (made_of other) refl refl
      code_differs refl

-- "mycc" in version "1.0" and "mycc1" in version ".0".
abbrev shifted : ChaincodeDeploymentSpec
shifted = spec_of (some (named "mycc1" ".0")) (1 ∷ 2 ∷ [])

get_cds_data-boundary_example : made_of mycc ≡ made_of mycc
unfolding get_cds_data
get_cds_data-boundary_example =
    get_cds_data-boundary host mycc shifted (named "mycc" "1.0") (named "mycc1" ".0") (made_of mycc)
      (made_of mycc) refl refl refl refl refl refl

abbrev platform : String → Platform
platform name = record {
  name = name;
  get_deployment_payload = λ path. ok (codes path);
  normalize_path = none;
}

abbrev two_platforms : List Platform
two_platforms = platform "GOLANG" ∷ platform "NODE" ∷ []
