-- ===== src/Examples/Sending.antt =====
-- A commit and an invocation that are endorsed by one peer and sent to the orderer.
use fabricsdk_go.Prelude.{
  String, List, [], ◌∷◌, map, some, Result, ok, pos, false, ◌≡◌, refl, inl, inr,
}
use fabricsdk_go.Tx.Messages.{Proposal, SignedProposal, ProposalResponse, Response, Envelope}
use fabricsdk_go.Tx.Marshal.{
  get_signed_proposal, unmarshal_header, unmarshal_chaincode_proposal_payload,
  unmarshal_signature_header, get_bytes_proposal_payload_for_tx,
  get_bytes_chaincode_proposal_payload, get_bytes_chaincode_action_payload, get_bytes_transaction,
  get_bytes_payload,
}
use fabricsdk_go.Tx.Sign.{assemble, check_responses, create_signed_tx}
use fabricsdk_go.Tx.Propose.{
  compute_tx_id, create_chaincode_proposal_with_tx_id_nonce_and_transient,
  create_chaincode_proposal_with_tx_id_and_transient,
}
use fabricsdk_go.Lifecycle.Policy.{create_policy_bytes}
use fabricsdk_go.Lifecycle.Propose.{CommitChaincodeRequest, create_commit_proposal}
use fabricsdk_go.Lifecycle.Sending.{
  Network, CommonFactory, broadcast_proposal_envelope, endorse_all, commit,
}
use fabricsdk_go.Lifecycle.Invoke.{
  InvokeSpec, InvokeHost, is_error, first_response, process_proposal, create_invocation_proposal,
  invoke_or_query, invoke,
}
use fabricsdk_go.Lifecycle.Sent.{Sends, Endorsed, commit-Sends}
use fabricsdk_go.Lifecycle.Invoked.{invoke-Sends}
use fabricsdk_go.Examples.Wire.{value_or}
use fabricsdk_go.Examples.Messages.{codecs}
use fabricsdk_go.Examples.Transactions.{machine, alice, no_envelope}
use fabricsdk_go.Examples.Lifecycle.{host, commitment}

abbrev answer : ProposalResponse
answer = record {
  version = pos 1;
  response = some (record { status = pos 200; message = ""; payload = 5 ∷ [] });
  payload = 7 ∷ 8 ∷ [];
  endorsement = some (record { endorser = 20 ∷ []; signature = 21 ∷ [] });
}

abbrev net : Network
net = record {
  get_broadcast_client = ok tt;
  send = λ env. ok tt;
  connect_group = ok tt;
  wait_group = ok tt;
}

abbrev factory : CommonFactory
factory = record { committer = λ sp. ok answer; endorsers = (λ sp. ok answer) ∷ []; network = net }

abbrev bare_commitment : CommitChaincodeRequest
bare_commitment = record commitment { collection_config = []; wait_for_event_timeout = pos 0 }

abbrev no_proposal : Proposal × String
no_proposal = (record { header = []; payload = [] }, "")

abbrev commit_proposal : Proposal
commit_proposal =
    (value_or no_proposal (create_commit_proposal host alice bare_commitment "mychannel")).0

abbrev commit_envelope : Envelope
commit_envelope = value_or no_envelope (create_signed_tx codecs commit_proposal alice (answer ∷ []))

commit_test :
    Sends commit_envelope (commit host (pos 200) alice factory bare_commitment "mychannel").0
unfolding commit create_commit_proposal create_policy_bytes compute_tx_id
    create_chaincode_proposal_with_tx_id_nonce_and_transient
    create_chaincode_proposal_with_tx_id_and_transient get_signed_proposal endorse_all
    broadcast_proposal_envelope create_signed_tx assemble check_responses unmarshal_header
    unmarshal_chaincode_proposal_payload unmarshal_signature_header
    get_bytes_proposal_payload_for_tx get_bytes_chaincode_proposal_payload
    get_bytes_chaincode_action_payload get_bytes_transaction get_bytes_payload
commit_test = inr (inl refl)

commit-Sends_example :
    (proposal : Proposal) × (tx_id : String) × (signed_prop : SignedProposal) × (rs : List
      ProposalResponse)
    × (create_commit_proposal host alice bare_commitment "mychannel" ≡ ok (proposal, tx_id))
    × (get_signed_proposal codecs proposal alice ≡ ok signed_prop)
    × Endorsed (pos 200) signed_prop factory.endorsers rs
    × (create_signed_tx codecs proposal alice rs ≡ ok commit_envelope)
commit-Sends_example =
    commit-Sends host (pos 200) alice factory bare_commitment "mychannel" commit_envelope
      commit_test

abbrev invoke_host : InvokeHost
invoke_host = record {
  machine = machine;
  to_upper = λ s. s;
  type_value = λ s. pos 1;
  parse_transient = λ s. ok [];
  endorser_transaction = pos 3;
}

abbrev transfer : InvokeSpec
transfer = record {
  name = "mycc";
  version = "1.0";
  lang = "GOLANG";
  args = (1 ∷ []) ∷ [];
  path = "";
  transient = "";
  is_init = false;
  timeout = pos 0;
}

abbrev invoke_proposal : Proposal
invoke_proposal =
    (value_or no_proposal (create_invocation_proposal invoke_host alice transfer "mychannel")).0

abbrev invoke_envelope : Envelope
invoke_envelope =
    value_or no_envelope (create_signed_tx codecs invoke_proposal alice (answer ∷ answer ∷ []))

abbrev two_answers : SignedProposal → List (Result ProposalResponse)
two_answers sp = ok answer ∷ ok answer ∷ []

invoke_test :
    Sends invoke_envelope (invoke invoke_host alice two_answers net transfer "mychannel").0
unfolding invoke invoke_or_query create_invocation_proposal process_proposal compute_tx_id
    create_chaincode_proposal_with_tx_id_nonce_and_transient
    create_chaincode_proposal_with_tx_id_and_transient get_signed_proposal
    broadcast_proposal_envelope create_signed_tx assemble check_responses unmarshal_header
    unmarshal_chaincode_proposal_payload unmarshal_signature_header
    get_bytes_proposal_payload_for_tx get_bytes_chaincode_proposal_payload
    get_bytes_chaincode_action_payload get_bytes_transaction get_bytes_payload
invoke_test = inr (inl refl)

invoke-Sends_example :
    (proposal : Proposal) × (tx_id : String) × (signed_prop : SignedProposal) × (rs : List
      ProposalResponse)
    × (response : Response) × (create_invocation_proposal invoke_host alice transfer "mychannel"
        ≡ ok (proposal, tx_id))
    × (two_answers signed_prop ≡ map ok rs)
    × (first_response invoke_host rs ≡ ok response)
    × (is_error response.status ≡ false)
    × (create_signed_tx codecs proposal alice rs ≡ ok invoke_envelope)
invoke-Sends_example =
    invoke-Sends invoke_host alice two_answers net transfer "mychannel" invoke_envelope invoke_test
