-- ===== src/Tx/Marshal.antt =====
-- internal/utils/unmarshal.go and protoutil.go: the protobuf library with the error wrapped.
use fabricsdk_go.Prelude.{[], Bytes, Result, ok, wrap, ◌>>=◌}
use fabricsdk_go.Tx.Messages.{
  Header, SignatureHeader, ChannelHeader, ChaincodeProposalPayload, ChaincodeActionPayload,
  Transaction, Payload, Envelope, ChaincodeAction, ProposalResponsePayload, Response, ChaincodeId,
  TxCodecs, Proposal, SignedProposal, Signer,
}
use fabricsdk_go.Prelude.{Option}

module _ (p : TxCodecs) where
  unfoldable pub unmarshal_header : Bytes → Result Header
  unmarshal_header bytes = wrap "error unmarshaling Header" (p.header.unmarshal bytes)

  unfoldable pub unmarshal_signature_header : Bytes → Result SignatureHeader
  unmarshal_signature_header bytes =
      wrap "error unmarshaling SignatureHeader" (p.signature_header.unmarshal bytes)

  unfoldable pub unmarshal_channel_header : Bytes → Result ChannelHeader
  unmarshal_channel_header bytes =
      wrap "error unmarshaling ChannelHeader" (p.channel_header.unmarshal bytes)

  unfoldable pub unmarshal_chaincode_proposal_payload : Bytes → Result ChaincodeProposalPayload
  unmarshal_chaincode_proposal_payload bytes =
      wrap "error unmarshaling ChaincodeProposalPayload" (p.proposal_payload.unmarshal bytes)

  unfoldable pub unmarshal_chaincode_action_payload : Bytes → Result ChaincodeActionPayload
  unmarshal_chaincode_action_payload bytes =
      wrap "error unmarshaling ChaincodeActionPayload" (p.action_payload.unmarshal bytes)

  unfoldable pub unmarshal_transaction : Bytes → Result Transaction
  unmarshal_transaction bytes =
      wrap "error unmarshaling Transaction" (p.transaction.unmarshal bytes)

  unfoldable pub unmarshal_payload : Bytes → Result Payload
  unmarshal_payload bytes = wrap "error unmarshaling Payload" (p.payload.unmarshal bytes)

  unfoldable pub unmarshal_envelope : Bytes → Result Envelope
  unmarshal_envelope bytes = wrap "error unmarshaling Envelope" (p.envelope.unmarshal bytes)

  unfoldable pub unmarshal_chaincode_action : Bytes → Result ChaincodeAction
  unmarshal_chaincode_action bytes =
      wrap "error unmarshaling ChaincodeAction" (p.chaincode_action.unmarshal bytes)

  unfoldable pub unmarshal_proposal_response_payload : Bytes → Result ProposalResponsePayload
  unmarshal_proposal_response_payload bytes =
      wrap "error unmarshaling ProposalResponsePayload" (p.response_payload.unmarshal bytes)

  unfoldable pub get_bytes_chaincode_proposal_payload : ChaincodeProposalPayload → Result Bytes
  get_bytes_chaincode_proposal_payload cpp =
      wrap "error marshaling ChaincodeProposalPayload" (p.proposal_payload.marshal cpp)

  unfoldable pub get_bytes_chaincode_action_payload : ChaincodeActionPayload → Result Bytes
  get_bytes_chaincode_action_payload cap =
      wrap "error marshaling ChaincodeActionPayload" (p.action_payload.marshal cap)

  unfoldable pub get_bytes_transaction : Transaction → Result Bytes
  get_bytes_transaction tx = wrap "error unmarshaling Transaction" (p.transaction.marshal tx)

  unfoldable pub get_bytes_payload : Payload → Result Bytes
  get_bytes_payload payl = wrap "error marshaling Payload" (p.payload.marshal payl)

  unfoldable pub get_bytes_proposal_response_payload :
      Bytes → Option Response → Bytes → Bytes → Option ChaincodeId → Result Bytes
  get_bytes_proposal_response_payload hash response result event ccid = do
    c_act_bytes ← wrap "error marshaling ChaincodeAction" (
        p.chaincode_action.marshal
          (record { results = result; events = event; response = response; chaincode_id = ccid }))
    wrap "error marshaling ProposalResponsePayload"
        (p.response_payload.marshal (record { proposal_hash = hash; extension = c_act_bytes }))

  -- `GetBytesProposalPayloadForTx`: the transient data stays behind.
  unfoldable pub get_bytes_proposal_payload_for_tx : ChaincodeProposalPayload → Result Bytes
  unfolding get_bytes_chaincode_proposal_payload
  get_bytes_proposal_payload_for_tx payload =
      get_bytes_chaincode_proposal_payload (record { input = payload.input; transient_map = [] })

  -- `cryptoutil.GetSignedProposal`
  unfoldable pub get_signed_proposal : Proposal → Signer → Result SignedProposal
  get_signed_proposal prop signer = do
    prop_bytes ← p.proposal.marshal prop
    signature ← signer.sign prop_bytes
    ok (record { proposal_bytes = prop_bytes; signature = signature })
