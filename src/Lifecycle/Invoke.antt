-- ===== src/Lifecycle/Invoke.antt =====
-- internal/chaincode/invoke.go: invoking and querying a chaincode. The answers of the endorsers are
-- taken in the order in which their goroutines get them.
use fabricsdk_go.Prelude.{
  Bool, true, false, String, str_eq, List, [], ◌∷◌, none, some, Bytes, Error, Result, ok, err,
  panic, message, wrap, deref, ◌>>=◌, ℤ, pos, negsuc, leb, if◌then◌else◌,
}
use fabricsdk_go.Tx.Messages.{Proposal, SignedProposal, ProposalResponse, Response, Signer}
use fabricsdk_go.Tx.Marshal.{get_signed_proposal}
use fabricsdk_go.Tx.Propose.{
  ChaincodeInvocationSpec, Machine, create_chaincode_proposal_with_tx_id_and_transient,
}
use fabricsdk_go.Lifecycle.Sending.{
  Network, Outcome, first, with_value, broadcast_proposal_envelope,
}

-- `ChaincodeSpec` of invoke.go, with the fields that the code reads.
pub record InvokeSpec : Type 0 where
  pub name : String
  pub version : String
  pub lang : String
  pub args : List Bytes
  pub path : String
  pub transient : String
  pub is_init : Bool
  pub timeout : ℤ

-- `strings.ToUpper`, the generated table of the types of chaincodes, and the JSON library.
pub record InvokeHost : Type 0 where
  pub machine : Machine
  pub to_upper : String → String
  pub type_value : String → ℤ
  pub parse_transient : String → Result (List (String × Bytes))
  pub endorser_transaction : ℤ

-- `proposalResp.Response.Status >= shim.ERRORTHRESHOLD`
abbrev pub is_error : ℤ → Bool
is_error (pos n) = leb 400 n
is_error (negsuc n) = false

-- A call that panics ends the program, whatever the others answer.
abbrev pub after_error : Error → Result (List ProposalResponse) → Result (List ProposalResponse)
after_error e panic = panic
after_error e (ok responses) = err e
after_error e (err later) = err e

-- `processProposal` on the answers of the endorsers, in the order in which they come: the first error
-- is returned, though the errors and the responses go through channels of their own.
unfoldable pub process_proposal : List (Result ProposalResponse) → Result (List ProposalResponse)
process_proposal [] = ok []
process_proposal (ok r ∷ answers) = do responses ← process_proposal answers; ok (r ∷ responses)
process_proposal (err e ∷ answers) = let rest = process_proposal answers in after_error e rest
process_proposal (panic ∷ answers) = panic

-- How the endorsers answer a signed proposal.
abbrev pub Endorsement : Type 0
Endorsement = SignedProposal → List (Result ProposalResponse)

-- `Invoke` drops the value that goes with an error.
abbrev pub without_value : Outcome → Outcome
without_value (calls, (value, ok u)) = (calls, (value, ok u))
without_value (calls, (value, err e)) = (calls, (none, err e))
without_value (calls, (value, panic)) = (calls, (none, panic))

module _ (m : InvokeHost) where
  abbrev pub invocation_spec : InvokeSpec → ChaincodeInvocationSpec
  invocation_spec spec = record {
    chaincode_spec = some (record {
      type = m.type_value (m.to_upper spec.lang);
      chaincode_id = some (record { path = spec.path; name = spec.name; version = spec.version });
      input = some (record { args = spec.args; is_init = spec.is_init });
    });
  }

  unfoldable pub create_invocation_proposal :
      Signer → InvokeSpec → String → Result (Proposal × String)
  create_invocation_proposal signer spec channel_id = do
    t_map ←
        (if str_eq spec.transient ""
          then ok []
          else wrap "error parsing transient string" (m.parse_transient spec.transient))
    creator ← wrap "fail to serialize" signer.serialize
    create_chaincode_proposal_with_tx_id_and_transient m.machine m.endorser_transaction channel_id
        (invocation_spec spec) creator "" t_map

  -- What is done with the response, which is kept, and the envelope, if the chaincode is invoked.
  abbrev pub answered :
      Signer
      → Network
      → InvokeSpec
      → Bool
      → Proposal
      → String
      → List ProposalResponse
      → Response
      → Outcome
  answered signer net spec invoke proposal tx_id responses response =
      let value = some (record { tx_id = tx_id; response = some response }) in
      if is_error response.status
      then ([], (value, ok tt))
      else if invoke
      then with_value value
          (broadcast_proposal_envelope m.machine.codecs signer proposal net spec.timeout responses)
      else ([], (value, ok tt))

  abbrev pub first_response : List ProposalResponse → Result Response
  first_response [] = err (message "no proposal responses received - this might indicate a bug")
  first_response (r ∷ rs) = deref r.response

  unfoldable pub invoke_or_query :
      Signer → Endorsement → Network → InvokeSpec → String → Bool → Outcome
  invoke_or_query signer endorsers net spec channel_id invoke =
      first (create_invocation_proposal signer spec channel_id) λ (proposal, tx_id).
        first (get_signed_proposal m.machine.codecs proposal signer) λ signed_prop.
          first (process_proposal (endorsers signed_prop)) λ responses.
            first (first_response responses)
              λ response. answered signer net spec invoke proposal tx_id responses response

  unfoldable pub invoke : Signer → Endorsement → Network → InvokeSpec → String → Outcome
  unfolding invoke_or_query
  invoke signer endorsers net spec channel_id =
      without_value (invoke_or_query signer endorsers net spec channel_id true)

  unfoldable pub query : Signer → Endorsement → Network → InvokeSpec → String → Outcome
  unfolding invoke_or_query
  query signer endorsers net spec channel_id =
      invoke_or_query signer endorsers net spec channel_id false
