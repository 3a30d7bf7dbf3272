-- ===== src/Channel/Listing.antt =====
-- internal/channel/list.go: the channels of a peer, the state of a channel, and blocks of a channel.
use fabricsdk_go.Prelude.{
  ℕ, false, not, String, List, [], ◌∷◌, Option, none, some, Bytes, codes, Result, ok, err, panic,
  message, wrap, ◌>>=◌, ℤ, pos, int_eq, if◌then◌else◌,
}
use fabricsdk_go.Tx.Messages.{Proposal, SignedProposal, ProposalResponse, Response, Signer}
use fabricsdk_go.Tx.Marshal.{get_signed_proposal}
use fabricsdk_go.Tx.Propose.{ChaincodeInvocationSpec, Machine, create_proposal_from_cis}
use fabricsdk_go.Tx.Block.{Block, BlockCodecs, get_last_config_index_from_block}

-- `peer.Client` and the client of its endorser.
pub record PeerClient : Type 0 where
  pub address : String
  pub get_endorser : Result (SignedProposal → Result ProposalResponse)

-- The deliver client of an orderer.
pub record DeliverClient : Type 0 where
  pub get_specified_block : ℕ → Result Block
  pub get_newest_block : Result Block

-- The protobuf library, the numbers of generated code, and what an orderer's client returns.
pub record ChannelHost (L I : Type 0) : Type 0 where
  pub machine : Machine
  pub blocks : BlockCodecs
  pub marshal_block : Block → Result Bytes
  pub unmarshal_channels : Bytes → Result L
  pub unmarshal_info : Bytes → Result I
  pub golang : ℤ
  pub endorser_transaction : ℤ
  pub config : ℤ
  pub get_deliver_client : String → Result DeliverClient

-- `fmt.Errorf` in place of an error.
abbrev pub instead {ℓ} : {A : Type ℓ} → String → Result A → Result A
instead text (ok a) = ok a
instead text (err e) = err (message text)
instead text panic = panic

abbrev pub system_invocation : ℤ → String → List Bytes → ChaincodeInvocationSpec
system_invocation golang name args = record {
  chaincode_spec = some (record {
    type = golang;
    chaincode_id = some (record { path = ""; name = name; version = "" });
    input = some (record { args = args; is_init = false });
  });
}

-- `resp.Response == nil || resp.Response.Status != 200`, where the error's text follows the pointer that
-- may be nil.
abbrev pub good_response : String → Option Response → Result Bytes
good_response text none = panic
good_response text (some response) =
    if not (int_eq response.status (pos 200)) then err (message text) else ok response.payload

abbrev pub good_payload : String → ProposalResponse → Result Bytes
good_payload text resp = good_response text resp.response

module _ {L I : Type 0} (m : ChannelHost L I) where
  unfoldable pub create_list_channel_proposal : Signer → Result (Proposal × String)
  create_list_channel_proposal signer = do
    creator ← signer.serialize
    create_proposal_from_cis m.machine m.endorser_transaction ""
        (system_invocation m.golang "cscc" (codes "GetChannels" ∷ [])) creator

  unfoldable pub channel_list : Signer → PeerClient → Result L
  unfolding create_list_channel_proposal
  channel_list signer p_client = do
    (proposal, tx_id) ← create_list_channel_proposal signer
    signed_prop ← get_signed_proposal m.machine.codecs proposal signer
    endorser ← p_client.get_endorser
    proposal_resp ← instead "Failed sending proposal, got %s" (endorser signed_prop)
    payload ← good_payload "Received bad response, status %d: %s" proposal_resp
    instead "Cannot read channels list response, %s" (m.unmarshal_channels payload)

  unfoldable pub create_get_channel_info_proposal : Signer → String → Result (Proposal × String)
  create_get_channel_info_proposal signer channel_id = do
    creator ← signer.serialize
    wrap "cannot create proposal" (
        create_proposal_from_cis m.machine m.endorser_transaction ""
          (system_invocation m.golang "qscc" (codes "GetChainInfo" ∷ codes channel_id ∷ []))
          creator)

  unfoldable pub get_info : Signer → (SignedProposal → Result ProposalResponse) → String → Result I
  unfolding create_get_channel_info_proposal
  get_info signer endorser channel_id = do
    (proposal, tx_id) ← create_get_channel_info_proposal signer channel_id
    signed_prop ←
        wrap "cannot create signed proposal" (get_signed_proposal m.machine.codecs proposal signer)
    resp ← endorser signed_prop
    payload ← good_payload "received bad response, status %d: %s" resp
    m.unmarshal_info payload

  unfoldable pub fetch_block : String → ℕ → Result Block
  fetch_block channel_id block_num = do
    deliver_cli ← m.get_deliver_client channel_id
    deliver_cli.get_specified_block block_num

  unfoldable pub fetch_config : String → Result Block
  fetch_config channel_id = do
    deliver_cli ← m.get_deliver_client channel_id
    newest_block ← deliver_cli.get_newest_block
    last_config_idx ← get_last_config_index_from_block m.blocks newest_block
    deliver_cli.get_specified_block last_config_idx
