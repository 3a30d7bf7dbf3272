-- ===== src/Tx/Action.antt =====
-- Reading the chaincode's action back from an envelope: `GetPayloads` and
-- `GetActionFromEnvelopeMsg`.
use fabricsdk_go.Prelude.{
  ◌≡◌, ◌≢◌, refl, String, List, [], ◌∷◌, Option, none, some, Bytes, Result, ok, err, message, ◌>>=◌,
  ◌>>◌,
}
use fabricsdk_go.Tx.Messages.{
  ChaincodeActionPayload, ChaincodeEndorsedAction, ChaincodeAction, TransactionAction, Envelope,
  Proposal, ProposalResponse, ProposalResponsePayload, Signer, TxCodecs, AreTxCodecs,
}
use fabricsdk_go.Tx.Marshal.{
  unmarshal_payload, unmarshal_envelope, unmarshal_transaction, unmarshal_chaincode_action_payload,
  unmarshal_proposal_response_payload, unmarshal_chaincode_action,
}
use fabricsdk_go.Tx.Sign.{create_signed_tx}
use fabricsdk_go.Tx.Contents.{create_signed_tx-Contains}

-- A slice that is tested against nil.
abbrev present : Bytes → String → Result (Unit {0})
present [] text = err (message text)
present (b ∷ bs) text = ok tt

present-ok : (b : Bytes) (text : String) → b ≢ [] → present b text ≡ ok tt
present-ok [] text h = absurd (h refl)
present-ok (b ∷ bs) text h = refl

abbrev payload_of : Option ChaincodeEndorsedAction → Bytes
payload_of none = []
payload_of (some action) = action.proposal_response_payload

module _ (p : TxCodecs) where
  pub get_payloads : TransactionAction → Result (ChaincodeActionPayload × ChaincodeAction)
  get_payloads tx_action = do
    cc_payload ← unmarshal_chaincode_action_payload p tx_action.payload
    present (payload_of cc_payload.action) "no payload in ChaincodeActionPayload"
    p_resp_payload ← unmarshal_proposal_response_payload p (payload_of cc_payload.action)
    present p_resp_payload.extension "response payload is missing extension"
    resp_payload ← unmarshal_chaincode_action p p_resp_payload.extension
    ok (cc_payload, resp_payload)

  first_action : List TransactionAction → Result ChaincodeAction
  unfolding get_payloads
  first_action [] = err (message "at least one TransactionAction required")
  first_action (action ∷ actions) = do
    (cc_payload, resp_payload) ← get_payloads action
    ok resp_payload

  pub get_action_from_envelope_msg : Envelope → Result ChaincodeAction
  unfolding first_action
  get_action_from_envelope_msg env = do
    payl ← unmarshal_payload p env.payload
    tx ← unmarshal_transaction p payl.data_bytes
    first_action tx.actions

  -- `GetActionFromEnvelope`; `GetEnvelopeFromBlock` unmarshals as `UnmarshalEnvelope` does.
  pub get_action_from_envelope : Bytes → Result ChaincodeAction
  unfolding get_action_from_envelope_msg
  get_action_from_envelope env_bytes = do
    env ← unmarshal_envelope p env_bytes
    get_action_from_envelope_msg env

  -- Where the payload of the endorsers' responses reads as a response payload whose extension reads
  -- as an action, and neither is empty, the envelope that `createSignedTx` returns from those
  -- responses gives that action back.
  pub get_action_from_envelope_msg-create_signed_tx :
      AreTxCodecs p
      → (proposal : Proposal) (signer : Signer) (r : ProposalResponse)
        (resps : List ProposalResponse) (env : Envelope) (prp : ProposalResponsePayload)
        (action : ChaincodeAction)
      → create_signed_tx p proposal signer (r ∷ resps) ≡ ok env
      → r.payload ≢ []
      → p.response_payload.unmarshal r.payload ≡ ok prp
      → prp.extension ≢ []
      → p.chaincode_action.unmarshal prp.extension ≡ ok action
      → get_action_from_envelope_msg env ≡ ok action
  unfolding get_action_from_envelope_msg unmarshal_payload unmarshal_transaction
      unmarshal_chaincode_action_payload unmarshal_proposal_response_payload
      unmarshal_chaincode_action
  get_action_from_envelope_msg-create_signed_tx law proposal signer r resps env prp action h there
        read extended act =
      let inside = create_signed_tx-Contains p law proposal signer r resps env h in
      let holds = inside.holds in
      rw (holds.payload_read, holds.tx_read, holds.action_read)
        (rw (present-ok r.payload _ there, read, present-ok prp.extension _ extended, act))
