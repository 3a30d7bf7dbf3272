-- ===== src/Package/Choice.antt =====
-- `GetCCPackage` of internal/ccplatform/provider.go.
use fabricsdk_go.Prelude.{Option, none, some, Bytes, Result, ok, err, panic, message, ◌>>=◌}
use fabricsdk_go.Package.{ChaincodeData, PackageHost}
use fabricsdk_go.Package.Cds.{CdsPackage, empty_package, init_from_buffer, validate_cc}
use fabricsdk_go.Package.Signed.{
  SignedCdsPackage, empty_signed_package, signed_init_from_buffer, signed_validate_cc,
}

pub data CcPackage : Type 0 where
  cds : CdsPackage → CcPackage
  signed_cds : SignedCdsPackage → CcPackage

-- The package, unless it is not valid.
abbrev pub kept : {P : Type 0} → P → Result (Unit {0}) → Result (Option P)
kept p (ok u) = ok (some p)
kept p (err e) = ok none
kept p panic = panic

-- Initialising a package and validating what it then says of itself.
abbrev pub tried :
    {P : Type 0}
    → (P → ChaincodeData → Result (Unit {0}))
    → Result ChaincodeData × P
    → Result (Option P)
tried validate (ok ccdata, p) = kept p (validate p ccdata)
tried validate (err e, p) = ok none
tried validate (panic, p) = panic

-- The signed package, if there are both.
abbrev pub chosen : Option CdsPackage → Option SignedCdsPackage → Result CcPackage
chosen c (some s) = ok (signed_cds s)
chosen (some c) none = ok (cds c)
chosen none none = err (message "could not unmarshal chaincode package to CDS or SignedCDS")

module _ (h : PackageHost) where
  abbrev pub try_cds : Bytes → Result (Option CdsPackage)
  try_cds buf = tried (validate_cc h) (init_from_buffer h buf empty_package)

  abbrev pub try_signed : Bytes → Result (Option SignedCdsPackage)
  try_signed buf = tried (signed_validate_cc h) (signed_init_from_buffer h buf empty_signed_package)

  unfoldable pub get_cc_package : Bytes → Result CcPackage
  get_cc_package buf = do c ← try_cds buf; s ← try_signed buf; chosen c s
