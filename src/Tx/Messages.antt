-- ===== src/Tx/Messages.antt =====
-- The messages that a transaction is made of, their codecs, and the signer.
use fabricsdk_go.Prelude.{ℕ, ℤ, String, List, [], map, Option, none, some, Bytes, Result, ok, ◌≡◌}
use fabricsdk_go.Proto.{Codec, IsCodec}

pub record Header : Type 0 where
  pub channel_header : Bytes
  pub signature_header : Bytes

pub record SignatureHeader : Type 0 where
  pub creator : Bytes
  pub nonce : Bytes

pub record ChannelHeader : Type 0 where
  pub type : ℤ
  pub version : ℤ
  pub timestamp : ℕ
  pub channel_id : String
  pub tx_id : String
  pub epoch : ℕ
  pub extension : Bytes
  pub tls_cert_hash : Bytes

pub record ChaincodeProposalPayload : Type 0 where
  pub input : Bytes
  pub transient_map : List (String × Bytes)

pub record Proposal : Type 0 where
  pub header : Bytes
  pub payload : Bytes

pub record SignedProposal : Type 0 where
  pub proposal_bytes : Bytes
  pub signature : Bytes

pub record Response : Type 0 where
  pub status : ℤ
  pub message : String
  pub payload : Bytes

pub record Endorsement : Type 0 where
  pub endorser : Bytes
  pub signature : Bytes

pub record ProposalResponse : Type 0 where
  pub version : ℤ
  pub response : Option Response
  pub payload : Bytes
  pub endorsement : Option Endorsement

pub record ChaincodeEndorsedAction : Type 0 where
  pub proposal_response_payload : Bytes
  pub endorsements : List (Option Endorsement)

pub record ChaincodeActionPayload : Type 0 where
  pub chaincode_proposal_payload : Bytes
  pub action : Option ChaincodeEndorsedAction

pub record TransactionAction : Type 0 where
  pub header : Bytes
  pub payload : Bytes

pub record Transaction : Type 0 where
  pub actions : List TransactionAction

pub record Payload : Type 0 where
  pub header : Option Header
  pub data_bytes : Bytes

pub record Envelope : Type 0 where
  pub payload : Bytes
  pub signature : Bytes

pub record ChaincodeId : Type 0 where
  pub path : String
  pub name : String
  pub version : String

pub record ChaincodeAction : Type 0 where
  pub results : Bytes
  pub events : Bytes
  pub response : Option Response
  pub chaincode_id : Option ChaincodeId

pub record ProposalResponsePayload : Type 0 where
  pub proposal_hash : Bytes
  pub extension : Bytes

-- The protobuf library at each of these messages.
pub record TxCodecs : Type 0 where
  pub header : Codec Header
  pub signature_header : Codec SignatureHeader
  pub channel_header : Codec ChannelHeader
  pub proposal_payload : Codec ChaincodeProposalPayload
  pub proposal : Codec Proposal
  pub action_payload : Codec ChaincodeActionPayload
  pub transaction : Codec Transaction
  pub payload : Codec Payload
  pub envelope : Codec Envelope
  pub chaincode_action : Codec ChaincodeAction
  pub response_payload : Codec ProposalResponsePayload

-- Protobuf writes a nil message in a list as an empty one.
abbrev pub or_empty : Option Endorsement → Option Endorsement
or_empty none = some (record { endorser = []; signature = [] })
or_empty (some e) = some e

abbrev pub filled_action : Option ChaincodeEndorsedAction → Option ChaincodeEndorsedAction
filled_action none = none
filled_action (some a) = some (record {
  proposal_response_payload = a.proposal_response_payload;
  endorsements = map or_empty a.endorsements;
})

abbrev pub filled : ChaincodeActionPayload → ChaincodeActionPayload
filled a = record {
  chaincode_proposal_payload = a.chaincode_proposal_payload;
  action = filled_action a.action;
}

-- What was marshalled is read back, its nil endorsements as empty ones.
pub record IsActionCodec (c : Codec ChaincodeActionPayload) : Type 0 where
  pub round :
      (a : ChaincodeActionPayload) (b : Bytes) → c.marshal a ≡ ok b → c.unmarshal b ≡ ok (filled a)

pub record AreTxCodecs (p : TxCodecs) : Type 0 where
  pub header_law : IsCodec p.header
  pub signature_header_law : IsCodec p.signature_header
  pub channel_header_law : IsCodec p.channel_header
  pub proposal_payload_law : IsCodec p.proposal_payload
  pub proposal_law : IsCodec p.proposal
  pub action_payload_law : IsActionCodec p.action_payload
  pub transaction_law : IsCodec p.transaction
  pub payload_law : IsCodec p.payload
  pub envelope_law : IsCodec p.envelope
  pub chaincode_action_law : IsCodec p.chaincode_action
  pub response_payload_law : IsCodec p.response_payload

-- `cryptoutil.Signer`, implemented by the application or by cryptoutil/signer.go. What it returns is a
-- function of what it is given: the randomness of signatures and nonces is fixed.
pub record Signer : Type 0 where
  pub serialize : Result Bytes
  pub sign : Bytes → Result Bytes
  pub new_signature_header : Result SignatureHeader
  pub get_msp_id : String
