-- ===== src/Package.antt =====
-- internal/ccplatform: the messages that a chaincode package consists of, and what the code takes
-- from libraries.
pub mod Cds
pub mod Whole
pub mod Chosen
pub mod Panics
pub mod Fingerprint
pub mod Registered
pub mod Signed
pub mod Choice
pub mod Registry
use fabricsdk_go.Prelude.{
  ℕ, ℤ, String, List, Bool, true, false, ◌&&◌, Option, none, some, Bytes, codes, Result, ok, err,
  panic, message, [], ◌∷◌, Error,
}
use fabricsdk_go.Proto.{Codec}
use fabricsdk_go.Tx.Messages.{ChaincodeId, TxCodecs}

pub record ChaincodeSpec : Type 0 where
  pub chaincode_id : Option ChaincodeId

pub record ChaincodeDeploymentSpec : Type 0 where
  pub chaincode_spec : Option ChaincodeSpec
  pub code_package : Bytes

-- Here nil and empty bytes differ: the code compares with nil.
pub record SignedChaincodeDeploymentSpec : Type 0 where
  pub chaincode_deployment_spec : Option Bytes
  pub instantiation_policy : Option Bytes
  pub owner_endorsements : List Bytes

-- `ChaincodeData` of provider.go.
pub record ChaincodeData : Type 0 where
  pub name : String
  pub version : String
  pub escc : String
  pub vscc : String
  pub policy : Bytes
  pub data_bytes : Bytes
  pub id : Bytes
  pub instantiation_policy : Option Bytes

pub record CdsData : Type 0 where
  pub code_hash : Bytes
  pub meta_data_hash : Bytes

pub record SignedCdsData : Type 0 where
  pub code_hash : Bytes
  pub meta_data_hash : Bytes
  pub signature_hash : Bytes

-- The protobuf library at each message, SHA-256, `unicode.IsPrint` and the number of the header type
-- CHAINCODE_PACKAGE.
pub record PackageHost : Type 0 where
  pub deployment_spec : Codec ChaincodeDeploymentSpec
  pub signed_spec : Codec SignedChaincodeDeploymentSpec
  pub cds_data : Codec CdsData
  pub signed_cds_data : Codec SignedCdsData
  pub messages : TxCodecs
  pub sum : Bytes → Bytes
  pub is_print : ℕ → Bool
  pub chaincode_package : ℤ

-- A slice that is nil is read as one without bytes.
abbrev pub bytes_of : Option Bytes → Bytes
bytes_of none = []
bytes_of (some b) = b

-- An error in whose place the code returns another.
abbrev pub relabelled : {A : Type 0} → String → Result A → Result A
relabelled text (ok a) = ok a
relabelled text (err e) = err (message text)
relabelled text panic = panic

abbrev pub all_print : (ℕ → Bool) → Bytes → Bool
all_print is_print [] = true
all_print is_print (c ∷ cs) = is_print c && all_print is_print cs

-- `isPrintable`
unfoldable pub is_printable : (ℕ → Bool) → String → Bool
is_printable is_print name = all_print is_print (codes name)

-- What a method leaves in its receiver, which was reset: the package that was made, if one was.
abbrev pub settle :
    {P : Type 0} → (P → Result ChaincodeData) → Result P → P → Result ChaincodeData × P
settle data_of (ok p) empty = (data_of p, p)
settle data_of (err e) empty = (err e, empty)
settle data_of panic empty = (panic, empty)
