-- ===== src/Tx/Sign.antt =====
-- `createSignedTx` of internal/chaincode/config.go and `CreateSignedTx` of
-- internal/utils/txutil.go: an envelope from a proposal and the responses of its endorsers.
use fabricsdk_go.Prelude.{
  Bool, true, not, ◌||◌, List, [], ◌∷◌, map, Option, none, some, Bytes, bytes_eq, Result, ok, err,
  message, wrap, guard, deref, ◌>>=◌, ◌>>◌, ℤ, pos, negsuc, ltb, leb,
}
use fabricsdk_go.Tx.Messages.{
  Header, Proposal, ProposalResponse, Envelope, ChaincodeProposalPayload, TxCodecs, Signer,
  Endorsement,
}
use fabricsdk_go.Tx.Marshal.{
  unmarshal_header, unmarshal_signature_header, unmarshal_chaincode_proposal_payload,
  get_bytes_proposal_payload_for_tx, get_bytes_chaincode_action_payload, get_bytes_transaction,
  get_bytes_payload,
}

-- `Status < 200 || Status >= 400`
abbrev pub is_failure : ℤ → Bool
is_failure (pos n) = ltb n 200 || leb 400 n
is_failure (negsuc n) = true

-- `n == 0 || bytes.Equal(a1, r.Payload)`; `a1` is set at n = 0.
abbrev agrees : Option Bytes → Bytes → Bool
agrees none payload = true
agrees (some a1) payload = bytes_eq a1 payload

abbrev keep_first : Option Bytes → Bytes → Option Bytes
keep_first none payload = some payload
keep_first (some a1) payload = some a1

-- The loop that wants all responses successful and bitwise equal.
unfoldable pub check_responses : Option Bytes → List ProposalResponse → Result (Unit {0})
check_responses a1 [] = ok tt
check_responses a1 (r ∷ resps) = do
  response ← deref r.response
  guard (not (is_failure response.status)) "proposal response was not successful"
  guard (agrees a1 r.payload) "ProposalResponsePayloads do not match"
  check_responses (keep_first a1 r.payload) resps

abbrev pub endorsements_of : List ProposalResponse → List (Option Endorsement)
endorsements_of = map (λ r. r.endorsement)

module _ (p : TxCodecs) where
  -- What follows the checks, the same text in both functions.
  unfoldable pub assemble :
      Signer
      → Header
      → ChaincodeProposalPayload
      → ProposalResponse
      → List ProposalResponse
      → Result Envelope
  assemble signer hdr payload r resps = do
    prop_payload_bytes ← get_bytes_proposal_payload_for_tx p payload
    cap_bytes ← get_bytes_chaincode_action_payload p (record {
      chaincode_proposal_payload = prop_payload_bytes;
      action = some (record {
        proposal_response_payload = r.payload;
        endorsements = endorsements_of (r ∷ resps);
      });
    })
    tx_bytes ←
        get_bytes_transaction p
          (record { actions = record { header = hdr.signature_header; payload = cap_bytes } ∷ [] })
    payl_bytes ← get_bytes_payload p (record { header = some hdr; data_bytes = tx_bytes })
    sig ← signer.sign payl_bytes
    ok (record { payload = payl_bytes; signature = sig })

  unfoldable pub create_signed_tx : Proposal → Signer → List ProposalResponse → Result Envelope
  create_signed_tx proposal signer [] = err (message "at least one proposal response is required")
  create_signed_tx proposal signer (r ∷ resps) = do
    hdr ← wrap "get header" (unmarshal_header p proposal.header)
    payload ←
        wrap "get chaincode proposal payload"
          (unmarshal_chaincode_proposal_payload p proposal.payload)
    signed_bytes ← wrap "get creator" signer.serialize
    shdr ← wrap "get sign header" (unmarshal_signature_header p hdr.signature_header)
    guard (bytes_eq signed_bytes shdr.creator)
        "signer must be the same as the one referenced in the header"
    check_responses none (r ∷ resps)
    assemble signer hdr payload r resps

  -- `CreateSignedTx` of txutil.go
  unfoldable pub utils_create_signed_tx :
      Proposal → Signer → List ProposalResponse → Result Envelope
  utils_create_signed_tx proposal signer [] =
      err (message "at least one proposal response is required")
  utils_create_signed_tx proposal signer (r ∷ resps) = do
    hdr ← unmarshal_header p proposal.header
    p_payl ← unmarshal_chaincode_proposal_payload p proposal.payload
    signer_bytes ← signer.serialize
    shdr ← unmarshal_signature_header p hdr.signature_header
    guard (bytes_eq signer_bytes shdr.creator)
        "signer must be the same as the one referenced in the header"
    check_responses none (r ∷ resps)
    assemble signer hdr p_payl r resps
