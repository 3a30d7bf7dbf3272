-- ===== src/Tx/Propose.antt =====
-- internal/utils/protoutil.go: proposals and their transaction ids. SHA-256, hexadecimal printing,
-- the random nonce and the clock are parameters.
use fabricsdk_go.Prelude.{
  or_panic, ℕ, ℤ, pos, Bool, String, str_eq, List, [], Option, none, some, Bytes, ◌++◌, Result, ok,
  err, message, wrap, guard, deref, not, ◌>>=◌, if◌then◌else◌,
}
use fabricsdk_go.Proto.{Codec}
use fabricsdk_go.Tx.Messages.{Header, Proposal, ChaincodeId, TxCodecs}
use fabricsdk_go.Tx.Marshal.{
  unmarshal_envelope, unmarshal_payload, unmarshal_channel_header, unmarshal_signature_header,
}

pub record ChaincodeInput : Type 0 where
  pub args : List Bytes
  pub is_init : Bool

pub record ChaincodeSpec : Type 0 where
  pub type : ℤ
  pub chaincode_id : Option ChaincodeId
  pub input : Option ChaincodeInput

pub record ChaincodeInvocationSpec : Type 0 where
  pub chaincode_spec : Option ChaincodeSpec

pub record ChaincodeHeaderExtension : Type 0 where
  pub chaincode_id : Option ChaincodeId

-- What a proposal is made with, besides the messages.
pub record Machine : Type 0 where
  pub sha256 : Bytes → Bytes
  pub hex : Bytes → String
  pub random_nonce : Result Bytes
  pub now : Result ℕ
  pub codecs : TxCodecs
  pub invocation : Codec ChaincodeInvocationSpec
  pub extension : Codec ChaincodeHeaderExtension

module _ (m : Machine) where
  -- The writes to the hash follow one another.
  unfoldable pub compute_tx_id : Bytes → Bytes → String
  compute_tx_id nonce creator = m.hex (m.sha256 (nonce ++ creator))

  unfoldable pub check_tx_id : String → Bytes → Bytes → Result (Unit {0})
  unfolding compute_tx_id
  check_tx_id txid nonce creator = guard (str_eq txid (compute_tx_id nonce creator)) "invalid txid"

  unfoldable pub create_chaincode_proposal_with_tx_id_nonce_and_transient :
      String
      → ℤ
      → String
      → ChaincodeInvocationSpec
      → Bytes
      → Bytes
      → List (String × Bytes)
      → Result (Proposal × String)
  create_chaincode_proposal_with_tx_id_nonce_and_transient txid typ channel_id cis nonce creator
        transient_map =
      do
        spec ← deref cis.chaincode_spec
        cc_hdr_ext_bytes ←
            wrap "error marshaling ChaincodeHeaderExtension"
              (m.extension.marshal (record { chaincode_id = spec.chaincode_id }))
        cis_bytes ← wrap "error marshaling ChaincodeInvocationSpec" (m.invocation.marshal cis)
        cc_prop_payload_bytes ← wrap "error marshaling ChaincodeProposalPayload" (
            m.codecs.proposal_payload.marshal
              (record { input = cis_bytes; transient_map = transient_map }))
        timestamp ← wrap "error validating Timestamp" m.now
        channel_header ← or_panic (
            m.codecs.channel_header.marshal (record {
              type = typ;
              version = pos 0;
              timestamp = timestamp;
              channel_id = channel_id;
              tx_id = txid;
              epoch = 0;
              extension = cc_hdr_ext_bytes;
              tls_cert_hash = [];
            }))
        signature_header ←
            or_panic
              (m.codecs.signature_header.marshal (record { creator = creator; nonce = nonce }))
        hdr_bytes ←
            m.codecs.header.marshal
              (record { channel_header = channel_header; signature_header = signature_header })
        ok (record { header = hdr_bytes; payload = cc_prop_payload_bytes }, txid)

  unfoldable pub create_chaincode_proposal_with_tx_id_and_transient :
      ℤ
      → String
      → ChaincodeInvocationSpec
      → Bytes
      → String
      → List (String × Bytes)
      → Result (Proposal × String)
  unfolding compute_tx_id
  create_chaincode_proposal_with_tx_id_and_transient typ channel_id cis creator txid transient_map =
      do
        nonce ← m.random_nonce
        create_chaincode_proposal_with_tx_id_nonce_and_transient
            (if str_eq txid "" then compute_tx_id nonce creator else txid) typ channel_id cis nonce
            creator transient_map

  unfoldable pub create_chaincode_proposal_with_transient :
      ℤ
      → String
      → ChaincodeInvocationSpec
      → Bytes
      → List (String × Bytes)
      → Result (Proposal × String)
  unfolding compute_tx_id
  create_chaincode_proposal_with_transient typ channel_id cis creator transient_map = do
    nonce ← m.random_nonce
    create_chaincode_proposal_with_tx_id_nonce_and_transient (compute_tx_id nonce creator) typ
        channel_id cis nonce creator transient_map

  -- `CreateChaincodeProposal`; `CreateProposalFromCIS` calls it.
  unfoldable pub create_proposal_from_cis :
      ℤ → String → ChaincodeInvocationSpec → Bytes → Result (Proposal × String)
  unfolding create_chaincode_proposal_with_transient
  create_proposal_from_cis typ channel_id cis creator =
      create_chaincode_proposal_with_transient typ channel_id cis creator []

  -- The branch on the header of the payload.
  unfoldable pub tx_id_of : Option Header → Result String
  tx_id_of none = err (message "error getting txID from header: payload header is nil")
  tx_id_of (some header) = do
    chdr ←
        wrap "error getting txID from channel header"
          (unmarshal_channel_header m.codecs header.channel_header)
    let from_signature : Result String = do
      sighdr ←
          wrap "error getting nonce and creator for computing txID"
            (unmarshal_signature_header m.codecs header.signature_header)
      ok (compute_tx_id sighdr.nonce sighdr.creator)
    if not (str_eq chdr.tx_id "") then ok chdr.tx_id else from_signature

  unfoldable pub get_or_compute_tx_id_from_envelope : Bytes → Result String
  unfolding tx_id_of
  get_or_compute_tx_id_from_envelope bytes = do
    env ← wrap "error getting txID from envelope" (unmarshal_envelope m.codecs bytes)
    payload ← wrap "error getting txID from payload" (unmarshal_payload m.codecs env.payload)
    tx_id_of payload.header
