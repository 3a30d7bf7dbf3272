-- ===== src/Lifecycle/Propose.antt =====
-- `createApproveChaincodeProposal` of internal/chaincode/approve.go and `createCommitProposal` of
-- commit.go.
use fabricsdk_go.Prelude.{
  Bool, true, false, String, List, [], ◌∷◌, Option, none, some, Bytes, codes, is_empty, Result, ok,
  err, panic, wrap, ◌>>=◌, ℤ, pos, is_positive, if◌then◌else◌,
}
use fabricsdk_go.Tx.Messages.{Proposal, Signer}
use fabricsdk_go.Tx.Propose.{
  ChaincodeInvocationSpec, Machine, create_chaincode_proposal_with_tx_id_and_transient,
}
use fabricsdk_go.Lifecycle.Policy.{ApplicationPolicy, create_policy_bytes}
use fabricsdk_go.Lifecycle.Collections.{
  CollectionConfigJson, CollectionConfig, get_collection_config_from_bytes,
}

pub record ApproveChaincodeRequest : Type 0 where
  pub package_id : String
  pub name : String
  pub tx_id : String
  pub version : String
  pub sequence : ℤ
  pub sign_policy : String
  pub channel_config_policy : String
  pub endorser_plugin : String
  pub validation_plugin : String
  pub collection_config : Bytes
  pub init_required : Bool
  pub wait_for_event : Bool
  pub wait_for_event_timeout : ℤ

pub record CommitChaincodeRequest : Type 0 where
  pub tx_id : String
  pub name : String
  pub version : String
  pub sequence : ℤ
  pub sign_policy : String
  pub channel_config_policy : String
  pub endorsement_plugin : String
  pub validation_plugin : String
  pub init_required : Bool
  pub collection_config : Bytes
  pub wait_for_event_timeout : ℤ

-- `lb.ChaincodeSource`
pub data ChaincodeSource : Type 0 where
  local_package : String → ChaincodeSource
  unavailable : ChaincodeSource

-- `lb.CommitChaincodeDefinitionArgs`
pub record DefinitionArgs (P : Type 0) : Type 0 where
  pub name : String
  pub version : String
  pub sequence : ℤ
  pub endorsement_plugin : String
  pub validation_plugin : String
  pub validation_parameter : Bytes
  pub init_required : Bool
  pub collections : Option (List (CollectionConfig P))

-- What the proposals are made with: the reading of policies and of JSON, the protobuf library at the
-- messages of the lifecycle, and the number of `HeaderType_ENDORSER_TRANSACTION`.
pub record LifecycleHost (P : Type 0) : Type 0 where
  pub machine : Machine
  pub from_string : String → Result P
  pub marshal_policy : Option (ApplicationPolicy P) → Result Bytes
  pub parse_collections : Bytes → Result (List CollectionConfigJson)
  pub marshal_collections : List (CollectionConfig P) → Result Bytes
  pub marshal_approve_args : DefinitionArgs P × ChaincodeSource → Result Bytes
  pub marshal_commit_args : DefinitionArgs P → Result Bytes
  pub endorser_transaction : ℤ

abbrev pub invocation_of : String → Bytes → ChaincodeInvocationSpec
invocation_of function args = record {
  chaincode_spec = some (record {
    type = pos 0;
    chaincode_id = some (record { path = ""; name = "_lifecycle"; version = "" });
    input = some (record { args = codes function ∷ args ∷ []; is_init = false });
  });
}

abbrev pub source_of : String → ChaincodeSource
source_of id = if is_empty (codes id) then unavailable else local_package id

module _ {P : Type 0} (m : LifecycleHost P) where
  abbrev pub collections_of : Bytes → Option (List (CollectionConfig P)) × Result Bytes
  collections_of bytes =
      get_collection_config_from_bytes m.from_string m.parse_collections m.marshal_collections bytes

  -- The package is kept and the error is not looked at; a panic is one.
  abbrev pub unchecked :
      Option (List (CollectionConfig P)) × Result Bytes
      → Result (Option (List (CollectionConfig P)))
  unchecked (ccp, ok bytes) = ok ccp
  unchecked (ccp, err e) = ok ccp
  unchecked (ccp, panic) = panic

  abbrev pub checked :
      Option (List (CollectionConfig P)) × Result Bytes
      → Result (Option (List (CollectionConfig P)))
  checked (ccp, ok bytes) = ok ccp
  checked (ccp, err e) = err e
  checked (ccp, panic) = panic

  -- The policy and the collections of an approval.
  abbrev pub approve_parts :
      ApproveChaincodeRequest → Result (Bytes × Option (List (CollectionConfig P)))
  approve_parts req = do
    policy_bytes ←
        create_policy_bytes m.from_string m.marshal_policy req.sign_policy req.channel_config_policy
    ccpkg ←
        (if is_empty req.collection_config
          then ok none
          else unchecked (collections_of req.collection_config))
    ok (policy_bytes, ccpkg)

  abbrev pub approve_proposal :
      Signer
      → ApproveChaincodeRequest
      → String
      → Bytes × Option (List (CollectionConfig P))
      → Result (Proposal × String)
  approve_proposal signer req channel_id (policy_bytes, ccpkg) = do
    args_bytes ← m.marshal_approve_args (
      record {
        name = req.name;
        version = req.version;
        sequence = req.sequence;
        endorsement_plugin = req.endorser_plugin;
        validation_plugin = req.validation_plugin;
        validation_parameter = policy_bytes;
        init_required = req.init_required;
        collections = ccpkg;
      },
      source_of req.package_id,
    )
    creator ← signer.serialize
    create_chaincode_proposal_with_tx_id_and_transient m.machine m.endorser_transaction channel_id
        (invocation_of "ApproveChaincodeDefinitionForMyOrg" args_bytes) creator req.tx_id []

  abbrev pub waiting_for_event : ApproveChaincodeRequest → ApproveChaincodeRequest
  waiting_for_event req = record req {
    wait_for_event = if is_positive req.wait_for_event_timeout then true else req.wait_for_event;
  }

  -- The request is a pointer, and is changed once the policy and the collections are read.
  abbrev pub approve_with :
      Signer
      → ApproveChaincodeRequest
      → String
      → Result (Bytes × Option (List (CollectionConfig P)))
      → Result (Proposal × String) × ApproveChaincodeRequest
  approve_with signer req channel_id (ok parts) =
      (approve_proposal signer req channel_id parts, waiting_for_event req)
  approve_with signer req channel_id (err e) = (err e, req)
  approve_with signer req channel_id panic = (panic, req)

  unfoldable pub create_approve_chaincode_proposal :
      Signer
      → ApproveChaincodeRequest
      → String
      → Result (Proposal × String) × ApproveChaincodeRequest
  create_approve_chaincode_proposal signer req channel_id =
      approve_with signer req channel_id (approve_parts req)

  unfoldable pub create_commit_proposal :
      Signer → CommitChaincodeRequest → String → Result (Proposal × String)
  create_commit_proposal signer cr channel_id = do
    policy_bytes ←
        create_policy_bytes m.from_string m.marshal_policy cr.sign_policy cr.channel_config_policy
    ccpkg ←
        (if is_empty cr.collection_config
          then ok none
          else checked (collections_of cr.collection_config))
    args_bytes ← m.marshal_commit_args (record {
      name = cr.name;
      version = cr.version;
      sequence = cr.sequence;
      endorsement_plugin = cr.endorsement_plugin;
      validation_plugin = cr.validation_plugin;
      validation_parameter = policy_bytes;
      init_required = cr.init_required;
      collections = ccpkg;
    })
    creator_bytes ← wrap "failed to serialize identity" signer.serialize
    wrap "failed to create ChaincodeInvocationSpec proposal" (
        create_chaincode_proposal_with_tx_id_and_transient m.machine m.endorser_transaction
          channel_id (invocation_of "CommitChaincodeDefinition" args_bytes) creator_bytes cr.tx_id
          [])
