-- ===== src/Lifecycle/Invoked.antt =====
-- When `Invoke` and `Query` of internal/chaincode/invoke.go send something to the orderer.
use fabricsdk_go.Prelude.{
  Bool, true, false, String, List, [], ◌∷◌, map, some, Result, ok, err, panic, ◌≡◌, refl,
  if◌then◌else◌, bind_ok, ok_inj,
}
use fabricsdk_go.Tx.Messages.{
  Proposal, SignedProposal, ProposalResponse, Response, Envelope, Signer,
}
use fabricsdk_go.Tx.Marshal.{get_signed_proposal}
use fabricsdk_go.Tx.Sign.{create_signed_tx}
use fabricsdk_go.Lifecycle.Sending.{Network, Outcome, broadcast_proposal_envelope, with_value}
use fabricsdk_go.Lifecycle.Invoke.{
  InvokeSpec, InvokeHost, is_error, after_error, process_proposal, Endorsement,
  create_invocation_proposal, answered, first_response, invoke_or_query, without_value, invoke,
}
use fabricsdk_go.Lifecycle.Sent.{Sends, broadcast-Sends, first-Sends}

process_proposal-eq-ok :
    (answers : List (Result ProposalResponse)) (rs : List ProposalResponse)
    → process_proposal answers ≡ ok rs
    → answers ≡ map ok rs
unfolding process_proposal
process_proposal-eq-ok [] rs h = rw (← ok_inj [] rs h) refl
process_proposal-eq-ok (ok r ∷ answers) rs h =
    bind_ok (process_proposal answers) _ h
      λ more e h1. rw (← ok_inj (r ∷ more) rs h1, process_proposal-eq-ok answers more e) refl
process_proposal-eq-ok (err e ∷ answers) rs h = absurd (fails (process_proposal answers) h)
  where
    fails : (r : Result (List ProposalResponse)) → after_error e r ≡ ok rs → ⊥
    fails (ok more) h = cc
    fails (err later) h = cc
    fails panic h = cc
process_proposal-eq-ok (panic ∷ answers) rs h = cc

module _ (m : InvokeHost) where
  answered-Sends :
      (signer : Signer) (net : Network) (spec : InvokeSpec) (invokes : Bool) (proposal : Proposal)
      (tx_id : String) (rs : List ProposalResponse) (response : Response) (env : Envelope)
      → Sends env (answered m signer net spec invokes proposal tx_id rs response).0
      → (is_error response.status ≡ false)
        × (create_signed_tx m.machine.codecs proposal signer rs ≡ ok env)
  answered-Sends signer net spec invokes proposal tx_id rs response env h =
      cases (is_error response.status) invokes h
    where
      cases :
          (b c : Bool)
          → Sends env
              (if b
                then ([], (some (record { tx_id = tx_id; response = some response }), ok tt))
                else if c
                then with_value (some (record { tx_id = tx_id; response = some response })) (
                    broadcast_proposal_envelope m.machine.codecs signer proposal net spec.timeout
                      rs)
                else ([], (some (record { tx_id = tx_id; response = some response }), ok tt))).0
          → (b ≡ false) × (create_signed_tx m.machine.codecs proposal signer rs ≡ ok env)
      cases true c h = absurd h
      cases false true h =
          (refl, broadcast-Sends m.machine.codecs signer proposal net spec.timeout rs env h)
      cases false false h = absurd h

  without_value-calls : (x : Outcome) → (without_value x).0 ≡ x.0
  without_value-calls (calls, (value, ok u)) = refl
  without_value-calls (calls, (value, err e)) = refl
  without_value-calls (calls, (value, panic)) = refl

  -- What `Invoke` sends to the orderer, if it sends anything, is the transaction that `createSignedTx`
  -- makes of the invocation's proposal and the answers of all endorsers, none of which failed, the
  -- first of which has a response without an error status.
  pub invoke-Sends :
      (signer : Signer) (endorsers : Endorsement) (net : Network) (spec : InvokeSpec)
      (channel_id : String) (env : Envelope)
      → Sends env (invoke m signer endorsers net spec channel_id).0
      → (proposal : Proposal) × (tx_id : String) × (signed_prop : SignedProposal) × (rs : List
          ProposalResponse)
        × (response : Response) × (create_invocation_proposal m signer spec channel_id
            ≡ ok (proposal, tx_id))
        × (endorsers signed_prop ≡ map ok rs)
        × (first_response m rs ≡ ok response)
        × (is_error response.status ≡ false)
        × (create_signed_tx m.machine.codecs proposal signer rs ≡ ok env)
  unfolding invoke invoke_or_query
  invoke-Sends signer endorsers net spec channel_id env h =
      let h0 : Sends env (invoke_or_query m signer endorsers net spec channel_id true).0 =
        rw (← without_value-calls (invoke_or_query m signer endorsers net spec channel_id true))
          h in
      let (made, e1, h1) =
        first-Sends env (create_invocation_proposal m signer spec channel_id) _ h0 in
      let (signed_prop, e2, h2) =
        first-Sends env (get_signed_proposal m.machine.codecs made.0 signer) _ h1 in
      let (rs, e3, h3) = first-Sends env (process_proposal (endorsers signed_prop)) _ h2 in
      let (response, e4, h4) = first-Sends env (first_response m rs) _ h3 in
      let (below, same) = answered-Sends signer net spec true made.0 made.1 rs response env h4 in
      (
        made.0,
        made.1,
        signed_prop,
        rs,
        response,
        e1,
        process_proposal-eq-ok (endorsers signed_prop) rs e3,
        e4,
        below,
        same,
      )
