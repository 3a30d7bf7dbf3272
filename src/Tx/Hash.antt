-- ===== src/Tx/Hash.antt =====
-- internal/utils/txutil.go: proposal hashes and the responses of endorsers.
use fabricsdk_go.Prelude.{
  ◌≡◌, ◌≢◌, refl, Bool, true, false, ◌||◌, String, List, [], ◌∷◌, ◌++◌, Option, none, some, Bytes,
  Result, ok, err, message, wrap, wrap-eq-ok, bind_ok, ◌>>=◌, arith, pos,
}
use fabricsdk_go.Tx.Messages.{
  Header, Response, ProposalResponse, ProposalResponsePayload, ChaincodeProposalPayload,
  ChaincodeId, Signer, AreTxCodecs, Proposal, Envelope,
}
use fabricsdk_go.Tx.Marshal.{
  unmarshal_header, unmarshal_chaincode_proposal_payload, get_bytes_proposal_payload_for_tx,
  get_bytes_proposal_response_payload,
}
use fabricsdk_go.Tx.Propose.{Machine}
use fabricsdk_go.Tx.Sign.{create_signed_tx}
use fabricsdk_go.Tx.Action.{
  get_action_from_envelope_msg, get_action_from_envelope_msg-create_signed_tx,
}

abbrev is_nil : Bytes → Bool
is_nil [] = true
is_nil (b ∷ bs) = false

-- `header.ChannelHeader == nil || header.SignatureHeader == nil || ccPropPayl == nil`
abbrev incomplete : Header → Bytes → Bool
incomplete header payload =
    is_nil header.channel_header || is_nil header.signature_header || is_nil payload

abbrev unless {ℓ} : {A : Type ℓ} → Bool → Result A → Result A
unless true r = err (message "nil arguments")
unless false r = r

module _ (m : Machine) where
  -- The three writes to the hash.
  abbrev digest : Header → Bytes → Bytes
  digest header bytes = m.sha256 (header.channel_header ++ header.signature_header ++ bytes)

  -- The header may be nil.
  unfoldable pub get_proposal_hash2 : Option Header → Bytes → Result Bytes
  get_proposal_hash2 none cc_prop_payl = err (message "nil arguments")
  get_proposal_hash2 (some header) cc_prop_payl =
      unless (incomplete header cc_prop_payl) (ok (digest header cc_prop_payl))

  unfoldable pub get_proposal_hash1 : Option Header → Bytes → Result Bytes
  get_proposal_hash1 none cc_prop_payl = err (message "nil arguments")
  get_proposal_hash1 (some header) cc_prop_payl = unless (incomplete header cc_prop_payl) (do
    cpp ← unmarshal_chaincode_proposal_payload m.codecs cc_prop_payl
    pp_bytes ← get_bytes_proposal_payload_for_tx m.codecs cpp
    ok (digest header pp_bytes))

  unfoldable pub create_proposal_response :
      Bytes
      → Bytes
      → Option Response
      → Bytes
      → Bytes
      → Option ChaincodeId
      → Signer
      → Result ProposalResponse
  unfolding get_proposal_hash1
  create_proposal_response hdrbytes payl response results events ccid signing_endorser = do
    hdr ← unmarshal_header m.codecs hdrbytes
    p_hash_bytes ← wrap "error computing proposal hash" (get_proposal_hash1 (some hdr) payl)
    prp_bytes ←
        get_bytes_proposal_response_payload m.codecs p_hash_bytes response results events ccid
    endorser ← wrap "error serializing signing identity" signing_endorser.serialize
    signature ←
        wrap "could not sign the proposal response payload"
          (signing_endorser.sign (prp_bytes ++ endorser))
    ok (record {
      version = pos 1;
      response = some (record { status = pos 200; message = "OK"; payload = [] });
      payload = prp_bytes;
      endorsement = some (record { endorser = endorser; signature = signature });
    })

  unfoldable pub create_proposal_response_failure :
      Bytes → Bytes → Option Response → Bytes → Bytes → String → Result ProposalResponse
  unfolding get_proposal_hash1
  create_proposal_response_failure hdrbytes payl response results events chaincode_name = do
    hdr ← unmarshal_header m.codecs hdrbytes
    p_hash_bytes ← wrap "error computing proposal hash" (get_proposal_hash1 (some hdr) payl)
    prp_bytes ←
        get_bytes_proposal_response_payload m.codecs p_hash_bytes response results events
          (some (record { path = ""; name = chaincode_name; version = "" }))
    ok (record { version = pos 0; response = response; payload = prp_bytes; endorsement = none })

  -- For a payload that is not empty, what the endorser hashes is what the committer hashes of the
  -- payload that goes into the transaction, if that is not empty either.
  pub get_proposal_hash1-hash2 :
      (header : Option Header) (payl pp : Bytes) (cpp : ChaincodeProposalPayload)
      → payl ≢ []
      → unmarshal_chaincode_proposal_payload m.codecs payl ≡ ok cpp
      → get_bytes_proposal_payload_for_tx m.codecs cpp ≡ ok pp
      → pp ≢ []
      → get_proposal_hash1 header payl ≡ get_proposal_hash2 header pp
  unfolding get_proposal_hash1 get_proposal_hash2
  get_proposal_hash1-hash2 none payl pp cpp full read written there = refl
  get_proposal_hash1-hash2 (some header) [] pp cpp full read written there = absurd (full refl)
  get_proposal_hash1-hash2 (some header) (x ∷ payl) [] cpp full read written there =
      absurd (there refl)
  get_proposal_hash1-hash2 (some header) (x ∷ payl) (y ∷ pp) cpp full read written there =
      ground arith

module _ (m : Machine) (law : AreTxCodecs m.codecs) where
  -- What an endorser's response says, read by the protobuf library.
  pub record Answers (response : Option Response) (results events : Bytes)
      (ccid : Option ChaincodeId) (signer : Signer) (r : ProposalResponse) : Type 0 where
    pub payload : ProposalResponsePayload
    pub payload_read : m.codecs.response_payload.unmarshal r.payload ≡ ok payload
    pub action_read :
        m.codecs.chaincode_action.unmarshal payload.extension
        ≡ ok (record {
          results = results;
          events = events;
          response = response;
          chaincode_id = ccid;
        })
    pub endorser : Bytes
    pub endorser_serialized : signer.serialize ≡ ok endorser
    pub signature : Bytes
    pub signed : signer.sign (r.payload ++ endorser) ≡ ok signature
    pub endorsed : r.endorsement ≡ some (record { endorser = endorser; signature = signature })

  prp-read :
      (hash : Bytes) (response : Option Response) (results events : Bytes)
      (ccid : Option ChaincodeId) (b : Bytes)
      → get_bytes_proposal_response_payload m.codecs hash response results events ccid ≡ ok b
      → (prp : ProposalResponsePayload) × (m.codecs.response_payload.unmarshal b ≡ ok prp)
        × (m.codecs.chaincode_action.unmarshal prp.extension
            ≡ ok (record {
              results = results;
              events = events;
              response = response;
              chaincode_id = ccid;
            }))
  unfolding get_bytes_proposal_response_payload
  prp-read hash response results events ccid b h =
      bind_ok (wrap _ (m.codecs.chaincode_action.marshal _)) _ h λ act e1 h1. (
        record { proposal_hash = hash; extension = act },
        law.response_payload_law.round _ b (wrap-eq-ok _ _ h1),
        law.chaincode_action_law.round _ act (wrap-eq-ok _ _ e1),
      )

  -- A response that `CreateProposalResponse` returns carries the action with the given results,
  -- events, response and chaincode, and the endorser's signature over its payload and identity.
  pub create_proposal_response-Answers :
      (hdrbytes payl : Bytes) (response : Option Response) (results events : Bytes)
      (ccid : Option ChaincodeId) (signer : Signer) (r : ProposalResponse)
      → create_proposal_response m hdrbytes payl response results events ccid signer ≡ ok r
      → Answers response results events ccid signer r
  unfolding create_proposal_response
  create_proposal_response-Answers hdrbytes payl response results events ccid signer r h =
      bind_ok (unmarshal_header m.codecs hdrbytes) _ h λ hdr e1 h1.
        bind_ok (wrap _ (get_proposal_hash1 m (some hdr) payl)) _ h1 λ hash e2 h2.
          bind_ok (get_bytes_proposal_response_payload m.codecs hash response results events ccid) _
            h2
            λ prp e3 h3. bind_ok (wrap _ signer.serialize) _ h3 λ endorser e4 h4.
              bind_ok (wrap _ (signer.sign (prp ++ endorser))) _ h4 λ signature e5 h5.
                let (payload, read, act) = prp-read hash response results events ccid prp e3 in
                let same : prp ≡ r.payload = ground arith in
                record {
                  payload = payload;
                  payload_read = rw (← same) read;
                  action_read = act;
                  endorser = endorser;
                  endorser_serialized = wrap-eq-ok _ _ e4;
                  signature = signature;
                  signed = rw (← same) (wrap-eq-ok _ _ e5);
                  endorsed = ground arith;
                }

  -- The action that a first endorser put into its response, if it and the response's payload are
  -- not empty bytes, is what `GetActionFromEnvelopeMsg` reads from the envelope of the transaction.
  pub get_action-create_proposal_response :
      (hdrbytes payl : Bytes) (response : Option Response) (results events : Bytes)
      (ccid : Option ChaincodeId) (endorser signer : Signer) (r : ProposalResponse)
      (resps : List ProposalResponse) (proposal : Proposal) (env : Envelope)
      → create_proposal_response m hdrbytes payl response results events ccid endorser ≡ ok r
      → create_signed_tx m.codecs proposal signer (r ∷ resps) ≡ ok env
      → r.payload ≢ []
      → ((prp : ProposalResponsePayload)
          → m.codecs.response_payload.unmarshal r.payload ≡ ok prp
          → prp.extension ≢ [])
      → get_action_from_envelope_msg m.codecs env
        ≡ ok (record {
          results = results;
          events = events;
          response = response;
          chaincode_id = ccid;
        })
  get_action-create_proposal_response hdrbytes payl response results events ccid endorser signer r
        resps proposal env h hs full ext =
      let a =
        create_proposal_response-Answers hdrbytes payl response results events ccid endorser r h in
      get_action_from_envelope_msg-create_signed_tx m.codecs law proposal signer r resps env
        a.payload
        (record { results = results; events = events; response = response; chaincode_id = ccid }) hs
        full a.payload_read (ext a.payload a.payload_read) a.action_read
