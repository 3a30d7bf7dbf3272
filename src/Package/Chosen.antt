-- ===== src/Package/Chosen.antt =====
-- Which package `GetCCPackage` of internal/ccplatform/provider.go returns.
use fabricsdk_go.Prelude.{
  Option, none, some, Error, Bytes, Result, ok, err, panic, ◌≡◌, refl, ◌⊎◌, inl, inr, arith,
}
use fabricsdk_go.Tx.Messages.{ChaincodeId}
use fabricsdk_go.Package.{ChaincodeDeploymentSpec, ChaincodeData, PackageHost}
use fabricsdk_go.Package.Cds.{
  empty_package, reset, get_chaincode_data, chaincode_id_of, data_of, id_of, get_cds_data,
  init_from_buffer,
}
use fabricsdk_go.Package.Choice.{kept, tried, try_signed}
use fabricsdk_go.Package.Signed.{
  SignedCdsPackage, empty_signed_package, signed_init_from_buffer, signed_validate_cc,
}
use fabricsdk_go.Package.Whole.{package_of, described}

module _ (h : PackageHost) where
  pub init_from_buffer-marshal :
      (buf again : Bytes) (spec : ChaincodeDeploymentSpec) (cid : ChaincodeId) (datab : Bytes)
      → h.deployment_spec.unmarshal buf ≡ ok spec
      → h.deployment_spec.marshal spec ≡ ok again
      → chaincode_id_of spec ≡ ok cid
      → h.cds_data.marshal (data_of h spec cid) ≡ ok datab
      → init_from_buffer h buf empty_package
        ≡ (ok (described cid datab (id_of h (data_of h spec cid))), package_of h buf spec cid datab)
  unfolding init_from_buffer get_cds_data reset get_chaincode_data
  init_from_buffer-marshal buf again spec cid datab read written named packed =
      rw (read, written, named, packed) (rw (named) refl)

  -- Reading bytes has given this package, and data for which it is valid.
  abbrev pub IsValid : Result ChaincodeData × SignedCdsPackage → SignedCdsPackage → Type 0
  IsValid x s = (said : ChaincodeData) × (x ≡ (ok said, s)) × (signed_validate_cc h s said ≡ ok tt)

  -- Reading bytes has panicked, or validating what it has given does.
  abbrev pub Panics : Result ChaincodeData × SignedCdsPackage → Type 0
  Panics x =
      (x.0 ≡ panic)
      ⊎ ((said : ChaincodeData) × (s : SignedCdsPackage) × (x ≡ (ok said, s))
          × (signed_validate_cc h s said ≡ panic))

  -- The bytes read as a signed package that is valid for what it says of itself.
  abbrev pub IsSigned : Bytes → SignedCdsPackage → Type 0
  IsSigned buf s = IsValid (signed_init_from_buffer h buf empty_signed_package) s

  -- Reading the bytes as a signed package, or validating it, panics.
  abbrev pub SignedPanics : Bytes → Type 0
  SignedPanics buf = Panics (signed_init_from_buffer h buf empty_signed_package)

  -- What trying the bytes comes to, by what reading them has given.
  abbrev pub Tried :
      Result (Option SignedCdsPackage) → Result ChaincodeData × SignedCdsPackage → Type 0
  Tried r x =
      ((s : SignedCdsPackage) × (r ≡ ok (some s)) × IsValid x s)
      ⊎ (((r ≡ ok none) × ¬ ((s : SignedCdsPackage) × IsValid x s)) ⊎ ((r ≡ panic) × Panics x))

  tried_cases :
      (x : Result ChaincodeData × SignedCdsPackage) → Tried (tried (signed_validate_cc h) x) x
  tried_cases (err e, s) = inr (inl (refl, λ (s', (said, same, _)). ground (arith, same)))
  tried_cases (panic, s) = inr (inr (refl, inl refl))
  tried_cases (ok said, s) = by_validity (signed_validate_cc h s said) refl
    where
      clash :
          (s' : SignedCdsPackage) (e : Error)
          → signed_validate_cc h s said ≡ err e
          → IsValid (ok said, s) s'
          → ⊥
      clash s' e invalid (said', same, valid) =
          let same_said : said ≡ said' = ground (arith, same) in
          let same_package : s ≡ s' = ground (arith, same) in
          let valid' : signed_validate_cc h s said ≡ ok tt = rw (same_said, same_package) valid in
          cc

      by_validity :
          (v : Result (Unit {0})) → signed_validate_cc h s said ≡ v → Tried (kept s v) (ok said, s)
      by_validity (ok u) e = inl (s, refl, (said, refl, e))
      by_validity (err x) e = inr (inl (refl, λ (s', valid). clash s' x e valid))
      by_validity panic e = inr (inr (refl, inr (said, s, refl, e)))

  pub signed_cases :
      (buf : Bytes) → Tried (try_signed h buf) (signed_init_from_buffer h buf empty_signed_package)
  signed_cases buf = tried_cases (signed_init_from_buffer h buf empty_signed_package)
