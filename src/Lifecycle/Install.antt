-- ===== src/Lifecycle/Install.antt =====
-- `Install` of internal/chaincode/install.go: one package is sent to each peer in turn.
use fabricsdk_go.Prelude.{
  ℕ, ◌+◌, Bool, true, false, not, String, str_eq, List, [], ◌∷◌, ◌++◌, Bytes, Result, ok, deref,
  ◌>>=◌, ◌==◌, length, ℤ, pos, int_eq, if◌then◌else◌, ◌≡◌, arith,
}
use fabricsdk_go.Tx.Messages.{SignedProposal, Signer, Response}
use fabricsdk_go.Tx.Marshal.{get_signed_proposal}
use fabricsdk_go.Tx.Propose.{Machine, create_proposal_from_cis}
use fabricsdk_go.Lifecycle.Propose.{invocation_of}
use fabricsdk_go.Lifecycle.Sending.{Endorser}

-- `peer.Client`
pub record Peer : Type 0 where
  pub address : String
  pub get_endorser : Result Endorser

-- `lb.InstallChaincodeResult`
pub record InstallResult : Type 0 where
  pub label : String
  pub package_id : String

-- What installing is done with. Reading a result leaves a message also where it fails, and the error
-- is not looked at.
pub record InstallHost : Type 0 where
  pub machine : Machine
  pub marshal_install_args : Bytes → Result Bytes
  pub unmarshal_install_result : Bytes → InstallResult × Result (Unit {0})
  pub endorser_transaction : ℤ

pub record PeerResult : Type 0 where
  pub id : String
  pub status : ℤ
  pub message : String

-- `protoutil.ChaincodeInstallResponse`
pub record InstallResponse : Type 0 where
  pub status : ℕ
  pub label : String
  pub package_id : String
  pub results : List PeerResult

-- What the loop collects, with `successCount`.
pub record Collected : Type 0 where
  pub label : String
  pub package_id : String
  pub results : List PeerResult
  pub success_count : ℕ

abbrev pub unless_set : String → String → String
unless_set old new = if str_eq old "" then new else old

abbrev pub is_success : ℤ → Bool
is_success status = int_eq status (pos 200)

abbrev pub one_if : Bool → ℕ
one_if true = 1
one_if false = 0

-- One answer, which is added to what was collected.
abbrev pub collect : InstallResult → String → Response → Collected → Collected
collect result address response c = record {
  label = unless_set c.label result.label;
  package_id = unless_set c.package_id result.package_id;
  results =
      c.results
      ++ record { id = address; status = response.status; message = response.message } ∷ [];
  success_count = c.success_count + one_if (is_success response.status);
}

abbrev pub summary : ℕ → ℕ → ℕ
summary success_count n =
    if success_count == 0 then 500 else if not (success_count == n) then 204 else 200

module _ (m : InstallHost) where
  unfoldable pub install_all : List Peer → SignedProposal → Collected → Result Collected
  install_all [] signed_prop c = ok c
  install_all (committer ∷ committers) signed_prop c = do
    endorse_cli ← committer.get_endorser
    rsp ← endorse_cli signed_prop
    response ← deref rsp.response
    let (result, unread) = m.unmarshal_install_result response.payload in
        install_all committers signed_prop (collect result committer.address response c)

  unfoldable pub install : Signer → List Peer → Result Bytes → Result InstallResponse
  install signer committers installed_chaincode = do
    install_package ← installed_chaincode
    args_bytes ← m.marshal_install_args install_package
    creator ← signer.serialize
    (prop, tx_id) ←
        create_proposal_from_cis m.machine m.endorser_transaction ""
          (invocation_of "InstallChaincode" args_bytes) creator
    signed_prop ← get_signed_proposal m.machine.codecs prop signer
    c ←
        install_all committers signed_prop
          (record { label = ""; package_id = ""; results = []; success_count = 0 })
    ok (record {
      status = summary c.success_count (length committers);
      label = c.label;
      package_id = c.package_id;
      results = c.results;
    })

-- How many results are successes.
abbrev pub successes : List PeerResult → ℕ
successes [] = 0
successes (r ∷ rs) = one_if (is_success r.status) + successes rs

pub successes-append :
    (xs ys : List PeerResult) → successes (xs ++ ys) ≡ successes xs + successes ys
successes-append [] ys = omega arith
successes-append (x ∷ xs) ys = omega (arith, successes-append xs ys)
