-- ===== src/Tx/Contents.antt =====
-- What is in an envelope that `createSignedTx` returns.
use fabricsdk_go.Prelude.{
  guard-eq-ok, deref-eq-ok, not-true, ◌≡◌, ◌↔◌, refl, sym, false, not, List, [], ◌∷◌, map, none,
  some, Bytes, bytes_eq, bytes_eq→≡, bytes_eq_refl, ok, wrap, wrap-eq-ok, guard, deref, >>=-eq-ok,
  bind_ok, ap, ◌∙◌, arith, All,
}
use fabricsdk_go.Tx.Messages.{
  Header, SignatureHeader, ChaincodeProposalPayload, Proposal, ProposalResponse, Response, Envelope,
  TxCodecs, AreTxCodecs, Signer, or_empty,
}
use fabricsdk_go.Tx.Marshal.{
  unmarshal_header, unmarshal_signature_header, unmarshal_chaincode_proposal_payload,
  get_bytes_proposal_payload_for_tx, get_bytes_chaincode_action_payload, get_bytes_transaction,
  get_bytes_payload,
}
use fabricsdk_go.Tx.Sign.{is_failure, check_responses, endorsements_of, assemble, create_signed_tx}

-- The response is there, its status is in [200, 400), and its payload is `payload`.
pub record Endorses (payload : Bytes) (r : ProposalResponse) : Type 0 where
  pub response : Response
  pub there : r.response ≡ some response
  pub successful : is_failure response.status ≡ false
  pub agreed : r.payload ≡ payload

check_rest→ :
    (a1 : Bytes) (resps : List ProposalResponse)
    → check_responses (some a1) resps ≡ ok tt
    → All (Endorses a1) resps
unfolding check_responses
check_rest→ a1 [] h = tt
check_rest→ a1 (r ∷ resps) h =
    let (response, there, h1) = >>=-eq-ok (deref r.response) _ h in
    let (_, success, h2) =
      >>=-eq-ok (guard (not (is_failure response.status)) "proposal response was not successful") _
        h1 in
    let (_, agreed, h3) =
      >>=-eq-ok (guard (bytes_eq a1 r.payload) "ProposalResponsePayloads do not match") _ h2 in
    (
      record {
        response = response;
        there = deref-eq-ok r.response there;
        successful = not-true (guard-eq-ok _ _ success);
        agreed = sym (bytes_eq→≡ a1 r.payload (guard-eq-ok _ _ agreed));
      },
      check_rest→ a1 resps h3,
    )

-- The check passes only if every response is there, successful, and carries the first's payload.
pub check_responses→ :
    (r : ProposalResponse) (resps : List ProposalResponse)
    → check_responses none (r ∷ resps) ≡ ok tt
    → All (Endorses r.payload) (r ∷ resps)
unfolding check_responses
check_responses→ r resps h =
    let (response, there, h1) = >>=-eq-ok (deref r.response) _ h in
    let (_, success, h2) =
      >>=-eq-ok (guard (not (is_failure response.status)) "proposal response was not successful") _
        h1 in
    (
      record {
        response = response;
        there = deref-eq-ok r.response there;
        successful = not-true (guard-eq-ok _ _ success);
        agreed = refl;
      },
      check_rest→ r.payload resps h2,
    )

check_rest← :
    (a1 : Bytes) (resps : List ProposalResponse)
    → All (Endorses a1) resps
    → check_responses (some a1) resps ≡ ok tt
unfolding check_responses
check_rest← a1 [] h = refl
check_rest← a1 (r ∷ resps) (e, es) =
    rw (e.there, e.successful, e.agreed, bytes_eq_refl a1) (check_rest← a1 resps es)

check_responses← :
    (r : ProposalResponse) (resps : List ProposalResponse)
    → All (Endorses r.payload) (r ∷ resps)
    → check_responses none (r ∷ resps) ≡ ok tt
unfolding check_responses
check_responses← r resps (e, es) = rw (e.there, e.successful) (check_rest← r.payload resps es)

-- The loop of `createSignedTx` passes exactly where every response is there, has a status from 200
-- up to 399, and carries the payload of the first.
pub check_responses_iff :
    (r : ProposalResponse) (resps : List ProposalResponse)
    → (check_responses none (r ∷ resps) ≡ ok tt) ↔ All (Endorses r.payload) (r ∷ resps)
check_responses_iff r resps = (check_responses→ r resps, check_responses← r resps)

-- The contents of the envelope's payload, read by the protobuf library.
pub record Holds (p : TxCodecs) (header : Header) (original : ChaincodeProposalPayload)
    (r : ProposalResponse) (resps : List ProposalResponse) (env : Envelope) : Type 0 where
  pub input_bytes : Bytes
  pub input_read :
      p.proposal_payload.unmarshal input_bytes
      ≡ ok (record { input = original.input; transient_map = [] })
  pub action_bytes : Bytes
  pub action_read :
      p.action_payload.unmarshal action_bytes
      ≡ ok (record {
        chaincode_proposal_payload = input_bytes;
        action = some (record {
          proposal_response_payload = r.payload;
          endorsements = map or_empty (endorsements_of (r ∷ resps));
        });
      })
  pub tx_bytes : Bytes
  pub tx_read :
      p.transaction.unmarshal tx_bytes
      ≡ ok (record {
        actions = record { header = header.signature_header; payload = action_bytes } ∷ [];
      })
  pub payload_read :
      p.payload.unmarshal env.payload ≡ ok (record { header = some header; data_bytes = tx_bytes })

-- The whole of what an envelope says of the proposal, the signer and the responses.
pub record Contains (p : TxCodecs) (proposal : Proposal) (signer : Signer) (r : ProposalResponse)
    (resps : List ProposalResponse) (env : Envelope) : Type 0 where
  pub header : Header
  pub header_read : p.header.unmarshal proposal.header ≡ ok header
  pub original : ChaincodeProposalPayload
  pub original_read : p.proposal_payload.unmarshal proposal.payload ≡ ok original
  pub creator : SignatureHeader
  pub creator_read : p.signature_header.unmarshal header.signature_header ≡ ok creator
  pub same_signer : signer.serialize ≡ ok creator.creator
  pub holds : Holds p header original r resps env
  pub signed : signer.sign env.payload ≡ ok env.signature
  pub endorsed : All (Endorses r.payload) (r ∷ resps)

module _ (p : TxCodecs) (law : AreTxCodecs p) where
  for_tx→ :
      (cpp : ChaincodeProposalPayload) (b : Bytes)
      → get_bytes_proposal_payload_for_tx p cpp ≡ ok b
      → p.proposal_payload.unmarshal b ≡ ok (record { input = cpp.input; transient_map = [] })
  unfolding get_bytes_proposal_payload_for_tx
  for_tx→ cpp b h = law.proposal_payload_law.round _ b (wrap-eq-ok _ _ h)

  assemble-Holds :
      (signer : Signer) (hdr : Header) (cpp : ChaincodeProposalPayload) (r : ProposalResponse)
      (resps : List ProposalResponse) (env : Envelope)
      → assemble p signer hdr cpp r resps ≡ ok env
      → Holds p hdr cpp r resps env × (signer.sign env.payload ≡ ok env.signature)
  unfolding assemble get_bytes_chaincode_action_payload get_bytes_transaction get_bytes_payload
  assemble-Holds signer hdr cpp r resps env h =
      bind_ok (get_bytes_proposal_payload_for_tx p cpp) _ h λ input e1 h1.
        bind_ok (get_bytes_chaincode_action_payload p _) _ h1 λ cap e2 h2.
          bind_ok (get_bytes_transaction p _) _ h2 λ tx e3 h3.
            bind_ok (get_bytes_payload p _) _ h3 λ payl e4 h4.
              bind_ok (signer.sign payl) _ h4 λ sig e5 h5.
                let same : payl ≡ env.payload = ground arith in
                let same_sig : sig ≡ env.signature = ground arith in
                (
                  record {
                    input_bytes = input;
                    input_read = for_tx→ cpp input e1;
                    action_bytes = cap;
                    action_read = law.action_payload_law.round _ cap (wrap-eq-ok _ _ e2);
                    tx_bytes = tx;
                    tx_read = law.transaction_law.round _ tx (wrap-eq-ok _ _ e3);
                    payload_read = rw (← same) (law.payload_law.round _ payl (wrap-eq-ok _ _ e4));
                  },
                  rw (← same, ← same_sig) e5,
                )

  -- An envelope that `createSignedTx` returns is signed by the signer, who is the creator that the
  -- proposal names; it holds the proposal's header and one action, with the proposal's input, no
  -- transient data, the common payload of the responses, and all their endorsements in order, a
  -- nil one as an empty one; and every response was there, successful, and agreed with the first.
  pub create_signed_tx-Contains :
      (proposal : Proposal) (signer : Signer) (r : ProposalResponse) (resps : List ProposalResponse)
      (env : Envelope)
      → create_signed_tx p proposal signer (r ∷ resps) ≡ ok env
      → Contains p proposal signer r resps env
  unfolding create_signed_tx unmarshal_header unmarshal_chaincode_proposal_payload
      unmarshal_signature_header
  create_signed_tx-Contains proposal signer r resps env h =
      bind_ok (wrap "get header" (unmarshal_header p proposal.header)) _ h λ hdr e1 h1.
        bind_ok
          (wrap "get chaincode proposal payload"
            (unmarshal_chaincode_proposal_payload p proposal.payload))
          _ h1
          λ cpp e2 h2. bind_ok (wrap "get creator" signer.serialize) _ h2 λ sb e3 h3.
            bind_ok (wrap "get sign header" (unmarshal_signature_header p hdr.signature_header)) _
              h3
              λ sh e4 h4.
                bind_ok
                  (guard (bytes_eq sb sh.creator)
                    "signer must be the same as the one referenced in the header")
                  _ h4
                  λ _ e5 h5. bind_ok (check_responses none (r ∷ resps)) _ h5 λ _ e6 h6.
                    let (holds, signed) = assemble-Holds signer hdr cpp r resps env h6 in
                    record {
                      header = hdr;
                      header_read = wrap-eq-ok _ _ (wrap-eq-ok _ _ e1);
                      original = cpp;
                      original_read = wrap-eq-ok _ _ (wrap-eq-ok _ _ e2);
                      creator = sh;
                      creator_read = wrap-eq-ok _ _ (wrap-eq-ok _ _ e4);
                      same_signer =
                          wrap-eq-ok _ _ e3 ∙ ap ok (bytes_eq→≡ sb sh.creator (guard-eq-ok _ _ e5));
                      holds = holds;
                      signed = signed;
                      endorsed = check_responses→ r resps e6;
                    }
