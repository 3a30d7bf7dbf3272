-- ===== src/Lifecycle/Queries.antt =====
-- internal/chaincode/list.go: what the lifecycle's queries ask a peer, and what they make of its answer.
use fabricsdk_go.Prelude.{
  Bool, String, str_eq, [], Option, none, some, Bytes, Result, ok, wrap, guard, required, ◌>>=◌,
  ◌>>◌, ℤ, pos, int_eq, if◌then◌else◌, not,
}
use fabricsdk_go.Tx.Messages.{Proposal, ProposalResponse, Signer}
use fabricsdk_go.Tx.Marshal.{get_signed_proposal}
use fabricsdk_go.Tx.Propose.{
  Machine, create_proposal_from_cis, create_chaincode_proposal_with_tx_id_and_transient,
}
use fabricsdk_go.Lifecycle.Propose.{invocation_of}
use fabricsdk_go.Lifecycle.Sending.{Endorser}

-- `CheckCommitReadinessRequest`
pub record CheckCommitReadinessRequest : Type 0 where
  pub sequence : ℤ
  pub name : String
  pub version : String
  pub endorsement_plugin : String
  pub validation_plugin : String
  pub validation_parameter : Bytes
  pub init_required : Bool
  pub channel_id : String

-- `lb.CheckCommitReadinessArgs`, with the fields that are set.
pub record CheckCommitReadinessArgs : Type 0 where
  pub name : String
  pub version : String
  pub sequence : ℤ
  pub init_required : Bool
  pub endorsement_plugin : String

-- `lb.QueryApprovedChaincodeDefinitionArgs`
pub record ApprovedArgs : Type 0 where
  pub name : String
  pub sequence : ℤ

-- The protobuf library at the messages of the queries, whose results are of the types I (installed),
-- A (approved), D (a list of definitions), S (a single definition) and R (readiness).
pub record QueryHost (I A D S R : Type 0) : Type 0 where
  pub machine : Machine
  pub marshal_installed_args : Result Bytes
  pub marshal_approved_args : ApprovedArgs → Result Bytes
  pub marshal_definition_args : String → Result Bytes
  pub marshal_definitions_args : Result Bytes
  pub marshal_readiness_args : CheckCommitReadinessArgs → Result Bytes
  pub unmarshal_installed : Bytes → Result I
  pub unmarshal_approved : Bytes → Result A
  pub unmarshal_definitions : Bytes → Result D
  pub unmarshal_definition : Bytes → Result S
  pub unmarshal_readiness : Bytes → Result R
  pub endorser_transaction : ℤ
  pub success : ℤ

-- `CommittedChaincodeList`: the definitions, and the single definition, that were set.
pub record CommittedChaincodeList (D S : Type 0) : Type 0 where
  pub definitions : Option D
  pub definition : Option S

-- The checks of each query on the answer of the peer.
abbrev pub payload_of : ℤ → ProposalResponse → Result Bytes
payload_of success resp = do
  response ← required "received proposal response with nil response" resp.response
  guard (int_eq response.status success) "query failed with status: %d - %s"
  ok response.payload

module _ {I A D S R : Type 0} (m : QueryHost I A D S R) where
  -- `QueryInstalled` with `createQueryInstalledProposal`.
  unfoldable pub create_query_installed_proposal : Signer → Result (Proposal × String)
  create_query_installed_proposal signer = do
    args_bytes ← wrap "failed to marshal args" m.marshal_installed_args
    creator ← wrap "failed to serialize identity" signer.serialize
    wrap "failed to create ChaincodeInvocationSpec proposal" (
        create_proposal_from_cis m.machine m.endorser_transaction ""
          (invocation_of "QueryInstalledChaincodes" args_bytes) creator)

  unfoldable pub query_installed : Signer → Endorser → Result I
  unfolding create_query_installed_proposal
  query_installed signer endorse_cli = do
    (proposal, tx_id) ← create_query_installed_proposal signer
    signed_prop ←
        wrap "failed to create signed proposal"
          (get_signed_proposal m.machine.codecs proposal signer)
    resp ← wrap "failed to endorse proposal" (endorse_cli signed_prop)
    payload ← payload_of m.success resp
    wrap "failed to unmarshal proposal response's response payload" (m.unmarshal_installed payload)

  unfoldable pub create_query_approved_proposal :
      Signer → String → String → Result (Proposal × String)
  create_query_approved_proposal signer name channel_id = do
    args_bytes ←
        wrap "failed to marshal args"
          (m.marshal_approved_args (record { name = name; sequence = pos 0 }))
    creator ← wrap "failed to serialize identity" signer.serialize
    wrap "failed to create ChaincodeInvocationSpec proposal" (
        create_proposal_from_cis m.machine m.endorser_transaction channel_id
          (invocation_of "QueryApprovedChaincodeDefinition" args_bytes) creator)

  unfoldable pub query_approved : Signer → Endorser → String → String → Result A
  unfolding create_query_approved_proposal
  query_approved signer endorser name channel_id = do
    (proposal, tx_id) ← create_query_approved_proposal signer name channel_id
    signed_prop ← get_signed_proposal m.machine.codecs proposal signer
    resp ← endorser signed_prop
    payload ← payload_of m.success resp
    m.unmarshal_approved payload

  unfoldable pub create_query_committed_chaincode_proposal :
      Signer → String → String → Result (Proposal × String)
  create_query_committed_chaincode_proposal signer name channel_id = do
    args_bytes ← wrap "failed to marshal args" (
        if not (str_eq name "") then m.marshal_definition_args name else m.marshal_definitions_args)
    creator ← signer.serialize
    wrap "failed to create ChaincodeInvocationSpec proposal" (
        create_proposal_from_cis m.machine m.endorser_transaction channel_id
          (invocation_of
            (if not (str_eq name "")
              then "QueryChaincodeDefinition"
              else "QueryChaincodeDefinitions")
            args_bytes)
          creator)

  -- The part of the list that is set: the definitions, if no name was asked for.
  abbrev pub listed : String → Bytes → Result (CommittedChaincodeList D S)
  listed name payload =
      if str_eq name ""
      then (do
        result ←
            wrap "failed to unmarshal proposal response's response payload"
              (m.unmarshal_definitions payload)
        ok (record { definitions = some result; definition = none }))
      else ok (record { definitions = none; definition = none })

  -- The single definition is read in both cases, and is not kept.
  abbrev pub listed_and_read : String → Bytes → Result (CommittedChaincodeList D S)
  listed_and_read name payload = do
    list ← listed name payload
    result ←
        wrap "failed to unmarshal proposal response's response payload"
          (m.unmarshal_definition payload)
    ok list

  -- `QueryCommitted`, with the name that the options leave in the request.
  unfoldable pub query_committed :
      Signer → Endorser → String → String → Result (CommittedChaincodeList D S)
  unfolding create_query_committed_chaincode_proposal
  query_committed signer endorse_cli channel_id name = do
    (proposal, tx_id) ← create_query_committed_chaincode_proposal signer name channel_id
    signed_prop ←
        wrap "failed to create signed proposal"
          (get_signed_proposal m.machine.codecs proposal signer)
    resp ← endorse_cli signed_prop
    payload ← payload_of m.success resp
    listed_and_read name payload

  unfoldable pub create_commit_readiness_proposal :
      Signer → CheckCommitReadinessRequest → String → Result (Proposal × String)
  create_commit_readiness_proposal signer cr channel_id = do
    args_bytes ← m.marshal_readiness_args (record {
      name = cr.name;
      version = cr.version;
      sequence = cr.sequence;
      init_required = cr.init_required;
      endorsement_plugin = cr.endorsement_plugin;
    })
    creator ← signer.serialize
    wrap "failed to create ChaincodeInvocationSpec proposal" (
        create_chaincode_proposal_with_tx_id_and_transient m.machine m.endorser_transaction
          channel_id (invocation_of "CheckCommitReadiness" args_bytes) creator "" [])

  -- `if req.Sequence == 0 { req.Sequence = 1 }`
  abbrev pub with_sequence : CheckCommitReadinessRequest → CheckCommitReadinessRequest
  with_sequence req = record req {
    sequence = if int_eq req.sequence (pos 0) then pos 1 else req.sequence;
  }

  unfoldable pub check_commit_readiness :
      Signer → Endorser → String → CheckCommitReadinessRequest → Result R
  unfolding create_commit_readiness_proposal
  check_commit_readiness signer endorse_cli channel_id req = do
    (proposal, tx_id) ← create_commit_readiness_proposal signer (with_sequence req) channel_id
    signed_prop ←
        wrap "failed to create signed proposal"
          (get_signed_proposal m.machine.codecs proposal signer)
    resp ← wrap "failed to endorse proposal" (endorse_cli signed_prop)
    payload ← payload_of m.success resp
    m.unmarshal_readiness payload
