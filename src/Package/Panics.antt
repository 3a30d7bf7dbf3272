-- ===== src/Package/Panics.antt =====
-- On which bytes `GetCCPackage` of internal/ccplatform/provider.go panics.
use fabricsdk_go.Prelude.{
  Bool, true, false, String, Option, none, some, Error, Bytes, Result, ok, err, panic, guard, deref,
  ◌>>=◌, ◌≡◌, ◌≢◌, ◌↔◌, refl, ◌⊎◌, inl, inr,
}
use fabricsdk_go.Proto.{IsCodec}
use fabricsdk_go.Tx.Messages.{ChaincodeId}
use fabricsdk_go.Package.{
  ChaincodeSpec, ChaincodeDeploymentSpec, ChaincodeData, CdsData, PackageHost, is_printable,
}
use fabricsdk_go.Package.Cds.{
  CdsPackage, reset, chaincode_id_of, data_of, id_of, get_cds_data, init_from_buffer,
}
use fabricsdk_go.Package.Choice.{chosen, kept, tried, try_cds, try_signed, get_cc_package}
use fabricsdk_go.Package.Signed.{
  SignedCdsPackage, empty_signed_package, signed_init_from_buffer, signed_validate_cc,
}
use fabricsdk_go.Package.Whole.{package_of, described, validate_cc-IsRead}
use fabricsdk_go.Package.Chosen.{Tried, SignedPanics, signed_cases, init_from_buffer-marshal}

-- A deployment spec without a chaincode spec, or with one without a chaincode id.
abbrev pub IsNameless : ChaincodeDeploymentSpec → Type 0
IsNameless spec =
    (spec.chaincode_spec ≡ none)
    ⊎ ((inner : ChaincodeSpec) × (spec.chaincode_spec ≡ some inner) × (inner.chaincode_id ≡ none))

-- Reading and writing deployment specs and writing their data never panic.
pub record AreCalm (h : PackageHost) : Type 0 where
  pub unmarshal_calm : (b : Bytes) → h.deployment_spec.unmarshal b ≢ panic
  pub marshal_calm : (spec : ChaincodeDeploymentSpec) → h.deployment_spec.marshal spec ≢ panic
  pub data_calm : (d : CdsData) → h.cds_data.marshal d ≢ panic

chaincode_id-panic :
    (spec : ChaincodeDeploymentSpec) → chaincode_id_of spec ≡ panic → IsNameless spec
chaincode_id-panic spec h = by_spec spec.chaincode_spec h
  where
    by_id : (o : Option ChaincodeId) → deref o ≡ panic → o ≡ none
    by_id none k = refl
    by_id (some cid) k = cc

    by_spec :
        (o : Option ChaincodeSpec)
        → (deref o >>= λ inner. deref inner.chaincode_id) ≡ panic
        → (o ≡ none) ⊎ ((inner : ChaincodeSpec) × (o ≡ some inner) × (inner.chaincode_id ≡ none))
    by_spec none k = inl refl
    by_spec (some inner) k = inr (inner, refl, by_id inner.chaincode_id k)

IsNameless-panic : (spec : ChaincodeDeploymentSpec) → IsNameless spec → chaincode_id_of spec ≡ panic
IsNameless-panic spec (inl missing) = rw (missing) refl
IsNameless-panic spec (inr (inner, there, missing)) = rw (there, missing) refl

chaincode_id_calm : (spec : ChaincodeDeploymentSpec) (e : Error) → chaincode_id_of spec ≢ err e
chaincode_id_calm spec e h = by_spec spec.chaincode_spec h
  where
    by_id : (o : Option ChaincodeId) → deref o ≢ err e
    by_id none k = cc
    by_id (some cid) k = cc

    by_spec : (o : Option ChaincodeSpec) → (deref o >>= λ inner. deref inner.chaincode_id) ≢ err e
    by_spec none k = cc
    by_spec (some inner) k = by_id inner.chaincode_id k

module _ (h : PackageHost) where
  -- The bytes are those of a deployment spec without a chaincode id that protobuf can write again.
  abbrev pub ReadsNameless : Bytes → Type 0
  ReadsNameless buf =
      (spec : ChaincodeDeploymentSpec) × (again : Bytes) × (h.deployment_spec.unmarshal buf
        ≡ ok spec)
      × (h.deployment_spec.marshal spec ≡ ok again)
      × IsNameless spec

  try_cds-ReadsNameless : (buf : Bytes) → ReadsNameless buf → try_cds h buf ≡ panic
  unfolding init_from_buffer get_cds_data reset
  try_cds-ReadsNameless buf (spec, again, read, written, nameless) =
      rw (read, written, IsNameless-panic spec nameless) refl

  kept_total :
      (p : CdsPackage) (b : Bool) (text : String)
      → (o : Option CdsPackage) × (kept p (guard b text) ≡ ok o)
  kept_total p true text = (some p, refl)
  kept_total p false text = (none, refl)

  -- Trying the bytes as an unsigned package comes to a result, or they are nameless.
  cds_cases :
      AreCalm h
      → IsCodec h.cds_data
      → (buf : Bytes) → ((o : Option CdsPackage) × (try_cds h buf ≡ ok o)) ⊎ ReadsNameless buf
  unfolding init_from_buffer get_cds_data reset
  cds_cases calm law buf = by_spec (h.deployment_spec.unmarshal buf) refl
    where
      by_data :
          (spec : ChaincodeDeploymentSpec) (again : Bytes) (cid : ChaincodeId) (d : Result Bytes)
          → h.deployment_spec.unmarshal buf ≡ ok spec
          → h.deployment_spec.marshal spec ≡ ok again
          → chaincode_id_of spec ≡ ok cid
          → h.cds_data.marshal (data_of h spec cid) ≡ d
          → ((o : Option CdsPackage) × (try_cds h buf ≡ ok o)) ⊎ ReadsNameless buf
      by_data spec again cid panic read written named packed =
          absurd (calm.data_calm (data_of h spec cid) packed)
      by_data spec again cid (err e) read written named packed =
          inl (none, rw (read, written, named, packed) refl)
      by_data spec again cid (ok datab) read written named packed =
          let valid =
            validate_cc-IsRead h law buf (package_of h buf spec cid datab)
              (described cid datab (id_of h (data_of h spec cid)))
              (record {
                dep_spec = spec;
                cid = cid;
                datab = datab;
                spec_read = read;
                named = named;
                data_written = packed;
                is_package = refl;
                is_described = refl;
              }) in
          let (o, kept_ok) =
            kept_total (package_of h buf spec cid datab) (is_printable h.is_print cid.name)
              "invalid chaincode name: %q" in
          let started =
            init_from_buffer-marshal h buf again spec cid datab read written named packed in
          inl (o, rw (started, valid) kept_ok)

      by_id :
          (spec : ChaincodeDeploymentSpec) (again : Bytes) (c : Result ChaincodeId)
          → h.deployment_spec.unmarshal buf ≡ ok spec
          → h.deployment_spec.marshal spec ≡ ok again
          → chaincode_id_of spec ≡ c
          → ((o : Option CdsPackage) × (try_cds h buf ≡ ok o)) ⊎ ReadsNameless buf
      by_id spec again (ok cid) read written named =
          by_data spec again cid (h.cds_data.marshal (data_of h spec cid)) read written named refl
      by_id spec again (err e) read written named = absurd (chaincode_id_calm spec e named)
      by_id spec again panic read written named =
          inr (spec, again, read, written, chaincode_id-panic spec named)

      by_bytes :
          (spec : ChaincodeDeploymentSpec) (r : Result Bytes)
          → h.deployment_spec.unmarshal buf ≡ ok spec
          → h.deployment_spec.marshal spec ≡ r
          → ((o : Option CdsPackage) × (try_cds h buf ≡ ok o)) ⊎ ReadsNameless buf
      by_bytes spec (ok again) read written =
          by_id spec again (chaincode_id_of spec) read written refl
      by_bytes spec (err e) read written = inl (none, rw (read, written) refl)
      by_bytes spec panic read written = absurd (calm.marshal_calm spec written)

      by_spec :
          (r : Result ChaincodeDeploymentSpec)
          → h.deployment_spec.unmarshal buf ≡ r
          → ((o : Option CdsPackage) × (try_cds h buf ≡ ok o)) ⊎ ReadsNameless buf
      by_spec (ok spec) read = by_bytes spec (h.deployment_spec.marshal spec) read refl
      by_spec (err e) read = inl (none, rw (read) refl)
      by_spec panic read = absurd (calm.unmarshal_calm buf read)

  try_signed-SignedPanics : (buf : Bytes) → SignedPanics h buf → try_signed h buf ≡ panic
  try_signed-SignedPanics buf (inl at_reading) = by_result _ at_reading
    where
      by_result :
          (x : Result ChaincodeData × SignedCdsPackage)
          → x.0 ≡ panic
          → tried (signed_validate_cc h) x ≡ panic
      by_result (ok said, s) k = cc
      by_result (err e, s) k = cc
      by_result (panic, s) k = refl
  try_signed-SignedPanics buf (inr (said, s, read, at_validation)) = rw (read, at_validation) refl

  chosen_calm : (c : Option CdsPackage) (s : Option SignedCdsPackage) → chosen c s ≢ panic
  chosen_calm c (some s) k = cc
  chosen_calm (some c) none k = cc
  chosen_calm none none k = cc

  -- `GetCCPackage` panics exactly on the bytes that protobuf reads as a deployment spec without a
  -- chaincode spec or without a chaincode id in it, and can write again, and on the bytes whose
  -- reading or validation as a signed package panics.
  pub get_cc_package-panic_iff :
      AreCalm h
      → IsCodec h.cds_data
      → (buf : Bytes) → (get_cc_package h buf ≡ panic) ↔ (ReadsNameless buf ⊎ SignedPanics h buf)
  unfolding get_cc_package
  get_cc_package-panic_iff calm law buf =
      (there (cds_cases calm law buf) (signed_cases h buf), back (cds_cases calm law buf))
    where
      there :
          ((o : Option CdsPackage) × (try_cds h buf ≡ ok o)) ⊎ ReadsNameless buf
          → Tried h (try_signed h buf) (signed_init_from_buffer h buf empty_signed_package)
          → get_cc_package h buf ≡ panic
          → ReadsNameless buf ⊎ SignedPanics h buf
      there (inr nameless) signed k = inl nameless
      there (inl (o, tried_c)) (inl (s, tried_s, _)) k =
          absurd (chosen_calm o (some s) (rw (tried_c, tried_s) at k))
      there (inl (o, tried_c)) (inr (inl (tried_s, _))) k =
          absurd (chosen_calm o none (rw (tried_c, tried_s) at k))
      there (inl (o, tried_c)) (inr (inr (_, panics))) k = inr panics

      back :
          ((o : Option CdsPackage) × (try_cds h buf ≡ ok o)) ⊎ ReadsNameless buf
          → ReadsNameless buf ⊎ SignedPanics h buf
          → get_cc_package h buf ≡ panic
      back tried_c (inl nameless) = rw (try_cds-ReadsNameless buf nameless) refl
      back (inl (o, tried_c)) (inr panics) = rw (tried_c, try_signed-SignedPanics buf panics) refl
      back (inr nameless) (inr panics) = rw (try_cds-ReadsNameless buf nameless) refl
