-- ===== src/Channel/Joining.antt =====
-- `Join` and `Join2` of internal/channel/update.go: a peer joins a channel by its genesis block.
use fabricsdk_go.Prelude.{
  String, List, [], ◌∷◌, Option, some, Error, Bytes, codes, Result, ok, err, panic, wrap, ◌>>=◌,
  pos,
}
use fabricsdk_go.Tx.Messages.{SignedProposal, Response, Signer}
use fabricsdk_go.Tx.Marshal.{get_signed_proposal}
use fabricsdk_go.Tx.Propose.{create_proposal_from_cis}
use fabricsdk_go.Channel.Listing.{PeerClient, ChannelHost, instead, system_invocation}

module _ {L I : Type 0} (m : ChannelHost L I) (show : Error → String) where
  unfoldable pub create_join_channel_proposal : Signer → Bytes → Result SignedProposal
  create_join_channel_proposal signer block = do
    creator ← signer.serialize
    (prop, tx_id) ← instead "error creating proposal for join %s" (
        create_proposal_from_cis m.machine m.config ""
          (system_invocation m.golang "cscc" (codes "JoinChain" ∷ block ∷ [])) creator)
    instead "error creating signed proposal %s" (get_signed_proposal m.machine.codecs prop signer)

  -- The bytes of the genesis block.
  unfoldable pub genesis_bytes : String → Result Bytes
  genesis_bytes channel_id = do
    ds ← m.get_deliver_client channel_id
    block ←
        instead "fail to get config block from channel %s with error: %v" (ds.get_specified_block 0)
    m.marshal_block block

  unfoldable pub join2 : Signer → PeerClient → String → Result (Option Response)
  unfolding create_join_channel_proposal genesis_bytes
  join2 signer p_client channel_id = do
    block_bytes ← genesis_bytes channel_id
    endorser ← p_client.get_endorser
    signed_prop ← create_join_channel_proposal signer block_bytes
    r ← endorser signed_prop
    ok r.response

  -- The response that stands for an error: status 500, the error's text, the peer's address.
  abbrev pub failure : PeerClient → Error → Response
  failure p e = record { status = pos 500; message = show e; payload = codes p.address }

  -- What one peer answers, and where it fails; the error of the call has a text before it.
  abbrev pub join_one : Signer → Bytes → PeerClient → Result (Option Response)
  join_one signer block_bytes p = do
    endorser ← p.get_endorser
    signed_prop ← create_join_channel_proposal signer block_bytes
    r ← wrap "process proposal, error: %v" (endorser signed_prop)
    ok r.response

  abbrev pub noted : PeerClient → Result (Option Response) → Result (Option Response)
  noted p (ok response) = ok response
  noted p (err e) = ok (some (failure p e))
  noted p panic = panic

  -- The loop over the peers, in which an error becomes a response and the loop goes on.
  unfoldable pub join_all : Signer → Bytes → List PeerClient → Result (List (Option Response))
  unfolding create_join_channel_proposal
  join_all signer block_bytes [] = ok []
  join_all signer block_bytes (p ∷ ps) = do
    response ← noted p (join_one signer block_bytes p)
    responses ← join_all signer block_bytes ps
    ok (response ∷ responses)

  unfoldable pub join : Signer → List PeerClient → String → Result (List (Option Response))
  unfolding genesis_bytes join_all
  join signer p_clients channel_id = do
    block_bytes ← genesis_bytes channel_id
    join_all signer block_bytes p_clients
