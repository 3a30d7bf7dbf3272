-- ===== src/Tx/TxId.antt =====
-- The transaction id of a proposal, in the proposal and in the envelope made from it.
use fabricsdk_go.Prelude.{
  or_panic, or_panic-eq-ok, ℤ, ◌≡◌, refl, ap, Bool, true, false, String, str_eq, List, ◌∷◌, some,
  Bytes, ok, wrap, deref, bind_ok, arith, inl, inr, Bool-cases, if◌then◌else◌,
}
use text.Mathlib.TextPositions.{eq_refl}
use fabricsdk_go.Tx.Messages.{
  Header, ChannelHeader, Proposal, ProposalResponse, Envelope, Signer, AreTxCodecs,
}
use fabricsdk_go.Tx.Marshal.{
  unmarshal_envelope, unmarshal_payload, unmarshal_channel_header, unmarshal_signature_header,
}
use fabricsdk_go.Tx.Sign.{create_signed_tx}
use fabricsdk_go.Tx.Contents.{create_signed_tx-Contains}
use fabricsdk_go.Tx.Propose.{
  ChaincodeInvocationSpec, Machine, compute_tx_id, check_tx_id,
  create_chaincode_proposal_with_tx_id_nonce_and_transient,
  create_chaincode_proposal_with_tx_id_and_transient, tx_id_of, get_or_compute_tx_id_from_envelope,
}

-- The headers of a proposal, read by the protobuf library.
pub record Headed (m : Machine) (typ : ℤ) (channel_id txid : String) (nonce creator : Bytes)
    (prop : Proposal) : Type 0 where
  pub header : Header
  pub header_read : m.codecs.header.unmarshal prop.header ≡ ok header
  pub channel : ChannelHeader
  pub channel_read : m.codecs.channel_header.unmarshal header.channel_header ≡ ok channel
  pub channel_type : channel.type ≡ typ
  pub channel_name : channel.channel_id ≡ channel_id
  pub channel_tx : channel.tx_id ≡ txid
  pub signature_read :
      m.codecs.signature_header.unmarshal header.signature_header
      ≡ ok (record { creator = creator; nonce = nonce })

module _ (m : Machine) (law : AreTxCodecs m.codecs) where
  proposal-Headed :
      (txid : String) (typ : ℤ) (channel_id : String) (cis : ChaincodeInvocationSpec)
      (nonce creator : Bytes) (transient_map : List (String × Bytes)) (prop : Proposal)
      (id : String)
      → create_chaincode_proposal_with_tx_id_nonce_and_transient m txid typ channel_id cis nonce
          creator transient_map
        ≡ ok (prop, id)
      → (id ≡ txid) × Headed m typ channel_id txid nonce creator prop
  unfolding create_chaincode_proposal_with_tx_id_nonce_and_transient
  proposal-Headed txid typ channel_id cis nonce creator transient_map prop id h =
      bind_ok (deref cis.chaincode_spec) _ h λ spec e1 h1.
        bind_ok (wrap _ (m.extension.marshal _)) _ h1 λ ext e2 h2.
          bind_ok (wrap _ (m.invocation.marshal cis)) _ h2 λ cb e3 h3.
            bind_ok (wrap _ (m.codecs.proposal_payload.marshal _)) _ h3 λ pp e4 h4.
              bind_ok (wrap _ m.now) _ h4 λ ts e5 h5.
                bind_ok (or_panic (m.codecs.channel_header.marshal _)) _ h5 λ ch e6 h6.
                  bind_ok (or_panic (m.codecs.signature_header.marshal _)) _ h6 λ sh e7 h7.
                    bind_ok (m.codecs.header.marshal _) _ h7 λ hb e8 h8.
                      let same : hb ≡ prop.header = ground arith in
                      (
                        ground arith,
                        record {
                          header = record { channel_header = ch; signature_header = sh };
                          header_read = rw (← same) (law.header_law.round _ hb e8);
                          channel = _;
                          channel_read = law.channel_header_law.round _ ch (or_panic-eq-ok _ e6);
                          channel_type = refl;
                          channel_name = refl;
                          channel_tx = refl;
                          signature_read =
                              law.signature_header_law.round _ sh (or_panic-eq-ok _ e7);
                        },
                      )

  -- What the transaction id of a payload with these headers is.
  tx_id_of-Headed :
      {typ : ℤ} {channel_id txid : String} {nonce creator : Bytes} {prop : Proposal}
      (d : Headed m typ channel_id txid nonce creator prop)
      → tx_id_of m (some d.header)
        ≡ ok (if str_eq txid "" then compute_tx_id m nonce creator else txid)
  unfolding tx_id_of unmarshal_channel_header unmarshal_signature_header
  tx_id_of-Headed {txid} d = elim (Bool-cases (str_eq txid "")) [
    | inl e ↦ rw (d.channel_read, d.channel_tx, e, d.signature_read)
    | inr e ↦ rw (d.channel_read, d.channel_tx, e)
  ]

  -- The id that `CreateChaincodeProposalWithTxIDAndTransient` returns is the one in the headers.
  named_id :
      (nonce creator : Bytes) (txid : String)
      → (if str_eq (if str_eq txid "" then compute_tx_id m nonce creator else txid) ""
          then compute_tx_id m nonce creator
          else (if str_eq txid "" then compute_tx_id m nonce creator else txid))
        ≡ (if str_eq txid "" then compute_tx_id m nonce creator else txid)
  named_id nonce creator txid = elim (Bool-cases (str_eq txid "")) [
    | inl e ↦
        rw e
          (same_branch (str_eq (compute_tx_id m nonce creator) "") (compute_tx_id m nonce creator))
    | inr e ↦ rw (e, e)
  ]
    where
      same_branch : (b : Bool) (x : String) → (if b then x else x) ≡ x
      same_branch true x = refl
      same_branch false x = refl

  -- The transaction id that a new proposal is given is the one that `GetOrComputeTxIDFromEnvelope`
  -- finds in the bytes of any envelope that `createSignedTx` makes from that proposal.
  pub get_or_compute_tx_id-create_signed_tx :
      (typ : ℤ) (channel_id : String) (cis : ChaincodeInvocationSpec) (creator : Bytes)
      (txid : String) (transient_map : List (String × Bytes)) (prop : Proposal) (id : String)
      (signer : Signer) (r : ProposalResponse) (resps : List ProposalResponse) (env : Envelope)
      (b : Bytes)
      → create_chaincode_proposal_with_tx_id_and_transient m typ channel_id cis creator txid
          transient_map
        ≡ ok (prop, id)
      → create_signed_tx m.codecs prop signer (r ∷ resps) ≡ ok env
      → m.codecs.envelope.marshal env ≡ ok b
      → get_or_compute_tx_id_from_envelope m b ≡ ok id
  unfolding create_chaincode_proposal_with_tx_id_and_transient get_or_compute_tx_id_from_envelope
      unmarshal_envelope unmarshal_payload
  get_or_compute_tx_id-create_signed_tx typ channel_id cis creator txid transient_map prop id signer
        r resps env b h hs hb =
      bind_ok m.random_nonce _ h λ nonce e made.
        let given = if str_eq txid "" then compute_tx_id m nonce creator else txid in
        let (same_id, d) =
          proposal-Headed given typ channel_id cis nonce creator transient_map prop id made in
        let inside = create_signed_tx-Contains m.codecs law prop signer r resps env hs in
        let same_header : inside.header ≡ d.header = cc (inside.header_read, d.header_read) in
        rw
          (
            law.envelope_law.round env b hb,
            inside.holds.payload_read,
            same_header,
            tx_id_of-Headed d,
            same_id,
          )
          (ap ok (named_id nonce creator txid))

  -- A proposal that is made without a transaction id gets one that passes `CheckTxID` with the nonce
  -- and the creator of its signature header.
  pub check_tx_id-create :
      (typ : ℤ) (channel_id : String) (cis : ChaincodeInvocationSpec) (creator : Bytes)
      (transient_map : List (String × Bytes)) (prop : Proposal) (id : String)
      → create_chaincode_proposal_with_tx_id_and_transient m typ channel_id cis creator ""
          transient_map
        ≡ ok (prop, id)
      → (nonce : Bytes) × Headed m typ channel_id id nonce creator prop
        × (check_tx_id m id nonce creator ≡ ok tt)
  unfolding create_chaincode_proposal_with_tx_id_and_transient check_tx_id
  check_tx_id-create typ channel_id cis creator transient_map prop id h =
      bind_ok m.random_nonce _ h λ nonce e made.
        let (same_id, d) =
          proposal-Headed (compute_tx_id m nonce creator) typ channel_id cis nonce creator
            transient_map prop id made in
        (nonce, rw same_id d, rw (same_id, eq_refl))
