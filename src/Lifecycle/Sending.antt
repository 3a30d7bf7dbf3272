-- ===== src/Lifecycle/Sending.antt =====
-- `broadcastProposalEnvelope` of internal/chaincode/config.go, `Approve` of approve.go and `Commit` of
-- commit.go: what is sent to peers and to the orderer. The peers and the orderer are parameters.
use fabricsdk_go.Prelude.{
  String, List, [], ◌∷◌, ◌++◌, Option, none, some, Result, ok, err, panic, wrap, guard, deref,
  required, ◌>>=◌, ◌>>◌, ℤ, is_positive, int_eq, if◌then◌else◌,
}
use fabricsdk_go.Tx.Messages.{
  Proposal, SignedProposal, ProposalResponse, Response, Envelope, Signer, TxCodecs,
}
use fabricsdk_go.Tx.Marshal.{get_signed_proposal}
use fabricsdk_go.Tx.Sign.{create_signed_tx}
use fabricsdk_go.Lifecycle.Propose.{
  ApproveChaincodeRequest, CommitChaincodeRequest, LifecycleHost, create_approve_chaincode_proposal,
  create_commit_proposal,
}

-- `ProcessProposal` of a peer, called with one signed proposal.
abbrev pub Endorser : Type 0
Endorser = SignedProposal → Result ProposalResponse

-- What the orderer's client and the deliver group return.
pub record Network : Type 0 where
  pub get_broadcast_client : Result (Unit {0})
  pub send : Envelope → Result (Unit {0})
  pub connect_group : Result (Unit {0})
  pub wait_group : Result (Unit {0})

pub record CommonFactory : Type 0 where
  pub committer : Endorser
  pub endorsers : List Endorser
  pub network : Network

-- The calls that the orderer's client and the deliver group see, in their order.
pub data Call : Type 0 where
  opening listening closing waiting : Call
  sending : Envelope → Call

-- A step that makes calls and may fail; the calls up to a failure are kept.
abbrev pub then_calls :
    {A B : Type 0} → List Call × Result A → (A → List Call × Result B) → List Call × Result B
then_calls (calls, ok a) next = (calls ++ (next a).0, (next a).1)
then_calls (calls, err e) next = (calls, err e)
then_calls (calls, panic) next = (calls, panic)

-- A step that makes none.
abbrev pub quiet : {A : Type 0} → Result A → List Call × Result A
quiet r = ([], r)

-- `Close` follows a `Send` that returns.
abbrev pub close_after : Result (Unit {0}) → List Call
close_after (ok u) = closing ∷ []
close_after (err e) = closing ∷ []
close_after panic = []

abbrev pub transmit : Network → Envelope → List Call × Result (Unit {0})
transmit net env = (sending env ∷ close_after (net.send env), net.send env)

abbrev pub listen : Network → ℤ → List Call × Result (Unit {0})
listen net timeout =
    if is_positive timeout
    then (listening ∷ [], wrap "fail to connect deliver group" net.connect_group)
    else quiet (ok tt)

abbrev pub await : Network → ℤ → List Call × Result (Unit {0})
await net timeout =
    if is_positive timeout
    then (waiting ∷ [], wrap "fail to wait for delivering" net.wait_group)
    else quiet (ok tt)

unfoldable pub broadcast_proposal_envelope :
    TxCodecs
    → Signer
    → Proposal
    → Network
    → ℤ
    → List ProposalResponse
    → List Call × Result (Unit {0})
broadcast_proposal_envelope p signer proposal net timeout responses =
    then_calls (quiet (create_signed_tx p proposal signer responses)) λ env.
      then_calls (opening ∷ [], net.get_broadcast_client)
        λ u.
          then_calls (listen net timeout) λ u. then_calls (transmit net env) λ u. await net timeout

-- `Response` of config.go.
pub record LifecycleResponse : Type 0 where
  pub tx_id : String
  pub response : Option Response

-- The value that is returned, an error that may go with it, and the calls.
abbrev pub Outcome : Type 0
Outcome = List Call × (Option LifecycleResponse × Result (Unit {0}))

-- Steps before any call whose failure is all that is returned.
abbrev pub first : {A : Type 0} → Result A → (A → Outcome) → Outcome
first (ok a) next = next a
first (err e) next = ([], (none, err e))
first panic next = ([], (none, panic))

abbrev pub with_value : Option LifecycleResponse → List Call × Result (Unit {0}) → Outcome
with_value value (calls, r) = (calls, (value, r))

module _ {P : Type 0} (m : LifecycleHost P) (success : ℤ) where
  -- The checks of `Approve` on the answer of the committer.
  abbrev pub approved : ProposalResponse → Result Response
  approved proposal_resp = do
    response ← required "received proposal response with nil response" proposal_resp.response
    guard (int_eq response.status success) "proposal failed with status: %d - %s"
    ok response

  unfoldable pub approve : Signer → CommonFactory → ApproveChaincodeRequest → String → Outcome
  approve signer cf req channel_id =
      first (create_approve_chaincode_proposal m signer req channel_id).0 λ (proposal, tx_id).
        first (get_signed_proposal m.machine.codecs proposal signer) λ signed_prop.
          first (wrap "fail to process proposal" (cf.committer signed_prop)) λ proposal_resp.
            first (approved proposal_resp) λ response.
              with_value (some (record { tx_id = tx_id; response = some response })) (
                broadcast_proposal_envelope m.machine.codecs signer proposal cf.network
                  req.wait_for_event_timeout (proposal_resp ∷ []))

  -- The loop of `Commit` over the endorsers.
  unfoldable pub endorse_all : List Endorser → SignedProposal → Result (List ProposalResponse)
  endorse_all [] signed_prop = ok []
  endorse_all (endorser ∷ rest) signed_prop = do
    resp ← wrap "failed to endorse proposal" (endorser signed_prop)
    response ← deref resp.response
    guard (int_eq response.status success) "proposal failed with status: %d - %s"
    responses ← endorse_all rest signed_prop
    ok (resp ∷ responses)

  -- `responses[0]`
  abbrev pub head : List ProposalResponse → Result ProposalResponse
  head [] = panic
  head (r ∷ rs) = ok r

  -- What follows the broadcast.
  abbrev pub committed : String → List ProposalResponse → List Call × Result (Unit {0}) → Outcome
  committed tx_id responses (calls, ok u) = (
    calls,
    elim (head responses) [
      | ok r ↦ (some (record { tx_id = tx_id; response = r.response }), ok tt)
      | err e ↦ (none, err e)
      | panic ↦ (none, panic)
    ],
  )
  committed tx_id responses (calls, err e) = (calls, (none, err e))
  committed tx_id responses (calls, panic) = (calls, (none, panic))

  unfoldable pub commit : Signer → CommonFactory → CommitChaincodeRequest → String → Outcome
  commit signer cf req channel_id =
      first (create_commit_proposal m signer req channel_id) λ (proposal, tx_id).
        first (get_signed_proposal m.machine.codecs proposal signer) λ signed_prop.
          first (endorse_all cf.endorsers signed_prop) λ responses. committed tx_id responses (
            broadcast_proposal_envelope m.machine.codecs signer proposal cf.network
              req.wait_for_event_timeout responses)
