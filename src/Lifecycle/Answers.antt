-- ===== src/Lifecycle/Answers.antt =====
-- What the answers of peers become in internal/chaincode/install.go and list.go.
use fabricsdk_go.Prelude.{
  String, str_eq, eq_iff, List, [], ◌∷◌, ◌++◌, none, Bytes, Result, ok, wrap, deref, ◌≡◌, ◌≢◌, refl,
  sym, ◌∙◌, arith, bind_ok, ok_inj, Bool-cases, inl, inr, deref-eq-ok,
}
use mathlib.Core.List.{append_assoc, append-nil}
use fabricsdk_go.Tx.Messages.{SignedProposal, Signer}
use fabricsdk_go.Tx.Marshal.{get_signed_proposal}
use fabricsdk_go.Tx.Propose.{create_proposal_from_cis}
use fabricsdk_go.Lifecycle.Propose.{invocation_of}
use fabricsdk_go.Lifecycle.Sending.{Endorser}
use fabricsdk_go.Lifecycle.Install.{
  Peer, InstallHost, PeerResult, InstallResponse, Collected, collect, install_all, install,
  successes, successes-append,
}
use fabricsdk_go.Lifecycle.Statuses.{AreAnswers, AreAnswers-length, Summarises, summary-Summarises}
use fabricsdk_go.Lifecycle.Queries.{
  QueryHost, CommittedChaincodeList, payload_of, create_query_committed_chaincode_proposal, listed,
  query_committed,
}

module _ (m : InstallHost) where
  -- The loop adds the answers of the peers to the results, and counts the successes.
  install_all-AreAnswers :
      (ps : List Peer) (sent : SignedProposal) (c d : Collected)
      → c.success_count ≡ successes c.results
      → install_all m ps sent c ≡ ok d
      → (rs : List PeerResult) × (d.results ≡ c.results ++ rs)
        × AreAnswers sent ps rs
        × (d.success_count ≡ successes d.results)
  unfolding install_all
  install_all-AreAnswers [] sent c d count h =
      let same = ok_inj c d h in
      ([], rw (← same) (sym (append-nil c.results)), tt, rw (← same) count)
  install_all-AreAnswers (p ∷ ps) sent c d count h = bind_ok p.get_endorser _ h λ cli e1 h1.
      bind_ok (cli sent) _ h1 λ answer e2 h2. bind_ok (deref answer.response) _ h2 λ response e3 h3.
        let result = (m.unmarshal_install_result response.payload).0 in
        let r : PeerResult = record {
          id = p.address;
          status = response.status;
          message = response.message;
        } in
        let (rs, added, answers, counted) =
          install_all-AreAnswers ps sent (collect result p.address response c) d
            (omega (arith, count, successes-append c.results (r ∷ []))) h3 in
        (
          r ∷ rs,
          added ∙ append_assoc c.results (r ∷ []) rs,
          ((cli, answer, response, e1, e2, deref-eq-ok answer.response e3, refl), answers),
          counted,
        )

  -- `Install`, if it succeeds, has sent one proposal to all peers, and has one result for each, in
  -- their order, with the peer's address and the status and the message that it answered; its own
  -- status is 500 if none of these is 200, 200 if there are some and all are, and 204 if some are and
  -- some are not.
  pub install-Summarises :
      (signer : Signer) (committers : List Peer) (installed : Result Bytes) (resp : InstallResponse)
      → install m signer committers installed ≡ ok resp
      → (sent : SignedProposal) × AreAnswers sent committers resp.results
        × Summarises resp.status resp.results
  unfolding install
  install-Summarises signer committers installed resp h = bind_ok installed _ h λ pkg _ h1.
      bind_ok (m.marshal_install_args pkg) _ h1 λ args _ h2.
        bind_ok signer.serialize _ h2 λ creator _ h3.
          bind_ok
            (create_proposal_from_cis m.machine m.endorser_transaction ""
              (invocation_of "InstallChaincode" args) creator)
            _ h3
            λ made _ h4.
              bind_ok (get_signed_proposal m.machine.codecs made.0 signer) _ h4 λ sp _ h5.
                bind_ok (install_all m committers sp _) _ h5 λ c e h6.
                  let is_resp = ok_inj _ resp h6 in
                  let (rs, added, answers, count) =
                    install_all-AreAnswers committers sp _ c refl e in
                  let answers' : AreAnswers sp committers c.results = rw (added) answers in
                  let many = AreAnswers-length sp committers c.results answers' in
                  rw (← is_resp) (sp, answers', rw (count, many) (summary-Summarises c.results))

module _ {I A D S R : Type 0} (m : QueryHost I A D S R) where
  listed-named :
      (name : String) (payload : Bytes)
      → name ≢ ""
      → listed m name payload ≡ ok (record { definitions = none; definition = none })
  listed-named name payload named = elim (Bool-cases (str_eq name "")) [
    | inl same ↦ absurd (named ((eq_iff name "").0 same))
    | inr other ↦ rw (other) refl
  ]

  -- `QueryCommitted` with a name, if it succeeds, returns a list in which nothing is set, whatever the
  -- peer has answered.
  pub query_committed-named :
      (signer : Signer) (endorser : Endorser) (channel_id name : String)
      (list : CommittedChaincodeList D S)
      → name ≢ ""
      → query_committed m signer endorser channel_id name ≡ ok list
      → list ≡ record { definitions = none; definition = none }
  unfolding query_committed
  query_committed-named signer endorser channel_id name list named h =
      bind_ok (create_query_committed_chaincode_proposal m signer name channel_id) _ h λ made _ h1.
        bind_ok
          (wrap "failed to create signed proposal"
            (get_signed_proposal m.machine.codecs made.0 signer))
          _ h1
          λ sp _ h2. bind_ok (endorser sp) _ h2 λ resp _ h3.
            bind_ok (payload_of m.success resp) _ h3 λ payload _ h4.
              bind_ok (listed m name payload) _ h4 λ kept e5 h5.
                bind_ok (wrap _ (m.unmarshal_definition payload)) _ h5 λ unread _ h6.
                  let is_list : kept ≡ list = ok_inj kept list h6 in
                  sym is_list
                  ∙ sym (
                      ok_inj (record { definitions = none; definition = none }) kept
                        (sym (listed-named name payload named) ∙ e5))
