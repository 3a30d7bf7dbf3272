-- ===== src/Package/Fingerprint.antt =====
-- The id of a chaincode package (internal/ccplatform/cds.go) as a fingerprint of its contents.
use fabricsdk_go.Prelude.{
  ◌++◌, true, false, some, Bytes, bytes_eq, bytes_eq→≡, bytes_eq_refl, codes, ok, ◌≡◌, ◌≢◌, refl,
  sym, ap, ◌∙◌, inl, inr, length, take, take-length, Bool-cases, ok_inj,
}
use fabricsdk_go.Tx.Messages.{ChaincodeId}
use fabricsdk_go.Package.{ChaincodeDeploymentSpec, CdsData, PackageHost}
use fabricsdk_go.Package.Cds.{chaincode_id_of, data_of, id_of, get_cds_data}
use fabricsdk_go.Package.Whole.{get_cds_data-eq-ok}

-- Two inputs that a hash function confuses.
abbrev pub Collision : (Bytes → Bytes) → Type 0
Collision sum = (x : Bytes) × (y : Bytes) × (x ≢ y) × (sum x ≡ sum y)

differ : (x y : Bytes) → bytes_eq x y ≡ false → x ≢ y
differ x y h same =
    let equal : bytes_eq x y ≡ true = rw (same) (bytes_eq_refl y) in
    let absurdity : true ≡ false = sym equal ∙ h in cc

module _ (h : PackageHost) where
  -- The first parts of two equal texts, if they are equally long.
  same_start : (a b c d : Bytes) → length a ≡ length b → a ++ c ≡ b ++ d → a ≡ b
  same_start a b c d long same =
      sym (take-length a c)
      ∙ ap (take (length a)) same
      ∙ (ap (λ n. take n (b ++ d)) long ∙ take-length b d)

  confused :
      ((x y : Bytes) → length (h.sum x) ≡ length (h.sum y))
      → (a b m n : Bytes) → a ≢ b
      → h.sum (h.sum a ++ m) ≡ h.sum (h.sum b ++ n)
      → Collision h.sum
  confused sized a b m n other same = elim (Bool-cases (bytes_eq (h.sum a) (h.sum b))) [
    | inl equal ↦ (a, b, other, bytes_eq→≡ (h.sum a) (h.sum b) equal)
    | inr unequal ↦ (
      h.sum a ++ m,
      h.sum b ++ n,
      (λ whole.
          differ (h.sum a) (h.sum b) unequal
            (same_start (h.sum a) (h.sum b) m n (sized a b) whole)),
      same,
    )
  ]

  -- If two deployment specs with different code get the same id, there are two inputs that the hash
  -- function, all of whose values are equally long, confuses.
  pub get_cds_data-Collision :
      ((x y : Bytes) → length (h.sum x) ≡ length (h.sum y))
      → (a b : ChaincodeDeploymentSpec) (r s : Bytes × (Bytes × CdsData))
      → get_cds_data h (some a) ≡ ok r
      → get_cds_data h (some b) ≡ ok s
      → a.code_package ≢ b.code_package
      → r.1.0 ≡ s.1.0
      → Collision h.sum
  get_cds_data-Collision sized a b r s made_r made_s other same =
      let (cid, x, _, _, is_r) = get_cds_data-eq-ok h a r made_r in
      let (did, y, _, _, is_s) = get_cds_data-eq-ok h b s made_s in
      confused sized a.code_package b.code_package (data_of h a cid).meta_data_hash
        (data_of h b did).meta_data_hash other
        (ap (λ (t : Bytes × (Bytes × CdsData)). t.1.0) is_r
          ∙ (same ∙ sym (ap (λ (t : Bytes × (Bytes × CdsData)). t.1.0) is_s)))

  -- Two deployment specs with the same code get the same data and the same id if their names followed
  -- by their versions spell the same, even if the names differ.
  pub get_cds_data-boundary :
      (a b : ChaincodeDeploymentSpec) (cid did : ChaincodeId) (r s : Bytes × (Bytes × CdsData))
      → chaincode_id_of a ≡ ok cid
      → chaincode_id_of b ≡ ok did
      → a.code_package ≡ b.code_package
      → codes cid.name ++ codes cid.version ≡ codes did.name ++ codes did.version
      → get_cds_data h (some a) ≡ ok r
      → get_cds_data h (some b) ≡ ok s
      → r ≡ s
  get_cds_data-boundary a b cid did r s named_a named_b code spelt made_r made_s =
      let (c, x, named_c, written_x, is_r) = get_cds_data-eq-ok h a r made_r in
      let (d, y, named_d, written_y, is_s) = get_cds_data-eq-ok h b s made_s in
      let same : data_of h a c ≡ data_of h b d =
        rw (ok_inj c cid (sym named_c ∙ named_a), ok_inj d did (sym named_d ∙ named_b), code, spelt)
          refl in
      let bytes : x ≡ y = ok_inj x y (sym written_x ∙ (ap h.cds_data.marshal same ∙ written_y)) in
      sym is_r
      ∙ (ap (λ (m : CdsData). (x, (id_of h m, m))) same
          ∙ (ap (λ (z : Bytes). (z, (id_of h (data_of h b d), data_of h b d))) bytes ∙ is_s))
