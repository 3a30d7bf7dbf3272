-- ===== src/Package/Whole.antt =====
-- What `InitFromBuffer` of internal/ccplatform/cds.go leaves in a package, and that `ValidateCC` agrees
-- with it.
use fabricsdk_go.Prelude.{
  String, str_eq, eq_iff, [], Bool, true, false, none, some, Bytes, bytes_eq_refl, Result, ok, err,
  panic, guard, ◌>>=◌, ◌≡◌, ◌≢◌, refl, sym, ap, ◌∙◌, bind_ok, ok_inj, ◌⊎◌, inl, inr,
}
use fabricsdk_go.Proto.{IsCodec}
use fabricsdk_go.Tx.Messages.{ChaincodeId}
use fabricsdk_go.Package.{
  ChaincodeDeploymentSpec, ChaincodeData, CdsData, PackageHost, relabelled, is_printable, settle,
}
use fabricsdk_go.Package.Cds.{
  CdsPackage, empty_package, reset, equals, get_chaincode_data, chaincode_id_of, data_of, id_of,
  get_cds_data, validate_cc, loaded, init_from_buffer,
}

relabelled-eq-ok :
    {A : Type 0} (text : String) (r : Result A) {a : A} → relabelled text r ≡ ok a → r ≡ ok a
relabelled-eq-ok text (ok a) h = h
relabelled-eq-ok text (err e) h = cc
relabelled-eq-ok text panic h = cc

-- The chaincode data of a package with this id and these bytes of data.
abbrev pub described : ChaincodeId → Bytes → Bytes → ChaincodeData
described cid datab id = record {
  name = cid.name;
  version = cid.version;
  escc = "";
  vscc = "";
  policy = [];
  data_bytes = datab;
  id = id;
  instantiation_policy = none;
}

module _ (h : PackageHost) where
  abbrev pub package_of : Bytes → ChaincodeDeploymentSpec → ChaincodeId → Bytes → CdsPackage
  package_of buf dep_spec cid datab = record {
    buf = some buf;
    dep_spec = some dep_spec;
    cds_data = some (data_of h dep_spec cid);
    datab = some datab;
    id = some (id_of h (data_of h dep_spec cid));
  }

  -- A package that was read from `buf`: its fields are set, and fit each other.
  pub record IsRead (buf : Bytes) (p : CdsPackage) (d : ChaincodeData) : Type 0 where
    pub dep_spec : ChaincodeDeploymentSpec
    pub cid : ChaincodeId
    pub datab : Bytes
    pub spec_read : h.deployment_spec.unmarshal buf ≡ ok dep_spec
    pub named : chaincode_id_of dep_spec ≡ ok cid
    pub data_written : h.cds_data.marshal (data_of h dep_spec cid) ≡ ok datab
    pub is_package : p ≡ package_of buf dep_spec cid datab
    pub is_described : d ≡ described cid datab (id_of h (data_of h dep_spec cid))

  get_chaincode_data-package_of :
      (buf : Bytes) (dep_spec : ChaincodeDeploymentSpec) (cid : ChaincodeId) (datab : Bytes)
      → chaincode_id_of dep_spec ≡ ok cid
      → get_chaincode_data (package_of buf dep_spec cid datab)
        ≡ ok (described cid datab (id_of h (data_of h dep_spec cid)))
  unfolding get_chaincode_data
  get_chaincode_data-package_of buf dep_spec cid datab named = rw (named) refl

  pub get_cds_data-eq-ok :
      (cds : ChaincodeDeploymentSpec) (made : Bytes × (Bytes × CdsData))
      → get_cds_data h (some cds) ≡ ok made
      → (cid : ChaincodeId) × (datab : Bytes) × (chaincode_id_of cds ≡ ok cid)
        × (h.cds_data.marshal (data_of h cds cid) ≡ ok datab)
        × ((datab, (id_of h (data_of h cds cid), data_of h cds cid)) ≡ made)
  unfolding get_cds_data
  get_cds_data-eq-ok cds made e = bind_ok (h.deployment_spec.marshal cds) _ e λ unused _ f3.
      bind_ok (chaincode_id_of cds) _ f3 λ cid named f4.
        bind_ok (h.cds_data.marshal (data_of h cds cid)) _ f4
          λ datab written f5. (cid, datab, named, written, ok_inj _ made f5)

  loaded-IsRead :
      (buf : Bytes) (p : CdsPackage)
      → loaded h buf ≡ ok p
      → (d : ChaincodeData) × (get_chaincode_data p ≡ ok d) × IsRead buf p d
  loaded-IsRead buf p e =
      bind_ok (relabelled _ (h.deployment_spec.unmarshal buf)) _ e λ dep_spec e1 f1.
        bind_ok (get_cds_data h (some dep_spec)) _ f1 λ made e2 f2.
          let (cid, datab, named, written, is_made) = get_cds_data-eq-ok dep_spec made e2 in
          let is_p : package_of buf dep_spec cid datab ≡ p = ok_inj _ p (
            ap
              (λ (m : Bytes × (Bytes × CdsData)). ok (record {
                buf = some buf;
                dep_spec = some dep_spec;
                cds_data = some m.1.1;
                datab = some m.0;
                id = some m.1.0;
              }))
              is_made
            ∙ f2) in
          (
            described cid datab (id_of h (data_of h dep_spec cid)),
            rw (← is_p) (get_chaincode_data-package_of buf dep_spec cid datab named),
            record {
              dep_spec = dep_spec;
              cid = cid;
              datab = datab;
              spec_read = relabelled-eq-ok _ (h.deployment_spec.unmarshal buf) e1;
              named = named;
              data_written = written;
              is_package = sym is_p;
              is_described = refl;
            },
          )

  -- Whatever the package was before: if `InitFromBuffer` succeeds, all its fields are set and fit the
  -- buffer and what is returned, and otherwise the package is empty.
  pub init_from_buffer-IsRead :
      (buf : Bytes) (p : CdsPackage)
      → ((d : ChaincodeData) × ((init_from_buffer h buf p).0 ≡ ok d)
          × IsRead buf (init_from_buffer h buf p).1 d)
        ⊎ ((((d : ChaincodeData) → (init_from_buffer h buf p).0 ≢ ok d)
            × ((init_from_buffer h buf p).1 ≡ empty_package)))
  unfolding init_from_buffer reset
  init_from_buffer-IsRead buf p = cases (loaded h buf) (loaded-IsRead buf)
    where
      cases :
          (r : Result CdsPackage)
          → ((q : CdsPackage)
              → r ≡ ok q
              → (d : ChaincodeData) × (get_chaincode_data q ≡ ok d) × IsRead buf q d)
          → ((d : ChaincodeData) × ((settle get_chaincode_data r empty_package).0 ≡ ok d)
              × IsRead buf (settle get_chaincode_data r empty_package).1 d)
            ⊎ ((((d : ChaincodeData) → (settle get_chaincode_data r empty_package).0 ≢ ok d)
                × ((settle get_chaincode_data r empty_package).1 ≡ empty_package)))
      cases (ok q) read = inl (read q refl)
      cases (err e) read = inr ((λ d same. cc), refl)
      cases panic read = inr ((λ d same. cc), refl)

  equals_refl : (d : CdsData) → equals d (some d) ≡ true
  unfolding equals
  equals_refl d = rw (bytes_eq_refl d.code_hash, bytes_eq_refl d.meta_data_hash) refl

  guard-done : (b : Bool) (text : String) → (guard b text >>= λ u. ok tt) ≡ guard b text
  guard-done true text = refl
  guard-done false text = refl

  str_eq_refl : (s : String) → str_eq s s ≡ true
  str_eq_refl s = (eq_iff s s).1 refl

  pub validate_cc-IsRead :
      IsCodec h.cds_data
      → (buf : Bytes) (q : CdsPackage) (d : ChaincodeData) → IsRead buf q d
      → validate_cc h q d ≡ guard (is_printable h.is_print d.name) "invalid chaincode name: %q"
  unfolding validate_cc
  validate_cc-IsRead law buf q d read =
      let cid = read.cid in
      let made = data_of h read.dep_spec cid in
      rw
        (
          read.is_package,
          read.is_described,
          read.named,
          str_eq_refl cid.name,
          str_eq_refl cid.version,
          law.round made read.datab read.data_written,
          equals_refl made,
        )
        (guard-done (is_printable h.is_print cid.name) "invalid chaincode name: %q")

  pub IsRead-init_from_buffer :
      (buf : Bytes) (p q : CdsPackage) (d : ChaincodeData)
      → init_from_buffer h buf p ≡ (ok d, q)
      → IsRead buf q d
  IsRead-init_from_buffer buf p q d e = cases (init_from_buffer-IsRead buf p)
    where
      cases :
          ((d' : ChaincodeData) × ((init_from_buffer h buf p).0 ≡ ok d')
              × IsRead buf (init_from_buffer h buf p).1 d')
            ⊎ ((((d' : ChaincodeData) → (init_from_buffer h buf p).0 ≢ ok d')
                × ((init_from_buffer h buf p).1 ≡ empty_package)))
          → IsRead buf q d
      cases (inl (d', same, read)) =
          let is_d : d' ≡ d = ok_inj d' d (sym same ∙ ap (λ x. x.0) e) in
          rw (← ap (λ x. x.1) e, ← is_d) read
      cases (inr (fails, empty)) = absurd (fails d (ap (λ x. x.0) e))
