-- ===== src/Examples/Messages.antt =====
-- The encodings of the messages of a transaction.
use fabricsdk_go.Prelude.{refl}
use fabricsdk_go.Proto.{Codec}
use fabricsdk_go.Tx.Messages.{
  filled, IsActionCodec, Header, SignatureHeader, ChannelHeader, ChaincodeProposalPayload, Proposal,
  Response, Endorsement, ChaincodeEndorsedAction, ChaincodeActionPayload, Transaction, Payload,
  Envelope, ChaincodeId, ChaincodeAction, ProposalResponsePayload, TxCodecs, AreTxCodecs,
}
use fabricsdk_go.Examples.Wire.{
  Wire, via, pair, list, option, nat_wire, int_wire, bytes_wire, codec, codec-IsCodec,
}
use fabricsdk_go.Examples.Texts.{text_wire}

abbrev header_wire : Wire Header
header_wire =
    via (λ h. (h.channel_header, h.signature_header))
      (λ (c, s). record { channel_header = c; signature_header = s }) (λ h. refl)
      (pair bytes_wire bytes_wire)

abbrev pub signature_header_wire : Wire SignatureHeader
signature_header_wire =
    via (λ h. (h.creator, h.nonce)) (λ (c, n). record { creator = c; nonce = n }) (λ h. refl)
      (pair bytes_wire bytes_wire)

abbrev channel_header_wire : Wire ChannelHeader
channel_header_wire =
    via
      (λ h. (
        h.type,
        (
          h.version,
          (h.timestamp, (h.channel_id, (h.tx_id, (h.epoch, (h.extension, h.tls_cert_hash))))),
        ),
      ))
      (λ (a, (b, (c, (d, (e, (f, (g, h))))))). record {
        type = a;
        version = b;
        timestamp = c;
        channel_id = d;
        tx_id = e;
        epoch = f;
        extension = g;
        tls_cert_hash = h;
      })
      (λ h. refl)
      (pair int_wire (
        pair int_wire (
          pair nat_wire
            (pair text_wire (pair text_wire (pair nat_wire (pair bytes_wire bytes_wire)))))))

abbrev proposal_payload_wire : Wire ChaincodeProposalPayload
proposal_payload_wire =
    via (λ x. (x.input, x.transient_map)) (λ (i, t). record { input = i; transient_map = t })
      (λ x. refl) (pair bytes_wire (list (pair text_wire bytes_wire)))

abbrev proposal_wire : Wire Proposal
proposal_wire =
    via (λ x. (x.header, x.payload)) (λ (h, q). record { header = h; payload = q }) (λ x. refl)
      (pair bytes_wire bytes_wire)

abbrev response_wire : Wire Response
response_wire =
    via (λ r. (r.status, (r.message, r.payload)))
      (λ (s, (t, q)). record { status = s; message = t; payload = q }) (λ r. refl)
      (pair int_wire (pair text_wire bytes_wire))

abbrev endorsement_wire : Wire Endorsement
endorsement_wire =
    via (λ x. (x.endorser, x.signature)) (λ (h, q). record { endorser = h; signature = q })
      (λ x. refl) (pair bytes_wire bytes_wire)

abbrev endorsed_action_wire : Wire ChaincodeEndorsedAction
endorsed_action_wire =
    via (λ x. (x.proposal_response_payload, x.endorsements))
      (λ (q, es). record { proposal_response_payload = q; endorsements = es }) (λ x. refl)
      (pair bytes_wire (list (option endorsement_wire)))

abbrev action_payload_wire : Wire ChaincodeActionPayload
action_payload_wire =
    via (λ x. (x.chaincode_proposal_payload, x.action))
      (λ (q, a). record { chaincode_proposal_payload = q; action = a }) (λ x. refl)
      (pair bytes_wire (option endorsed_action_wire))

abbrev action_codec : Codec ChaincodeActionPayload
action_codec = record {
  marshal = λ a. (codec action_payload_wire).marshal (filled a);
  unmarshal = (codec action_payload_wire).unmarshal;
}

action_codec-IsActionCodec : IsActionCodec action_codec
action_codec-IsActionCodec = record {
  round = λ a b h. (codec-IsCodec action_payload_wire).round (filled a) b h;
}

abbrev transaction_wire : Wire Transaction
transaction_wire =
    via (λ x. x.actions) (λ xs. record { actions = xs }) (λ x. refl)
      (list (
        via (λ a. (a.header, a.payload)) (λ (h, q). record { header = h; payload = q }) (λ a. refl)
          (pair bytes_wire bytes_wire)))

abbrev payload_wire : Wire Payload
payload_wire =
    via (λ x. (x.header, x.data_bytes)) (λ (h, d). record { header = h; data_bytes = d })
      (λ x. refl) (pair (option header_wire) bytes_wire)

abbrev pub envelope_wire : Wire Envelope
envelope_wire =
    via (λ x. (x.payload, x.signature)) (λ (h, d). record { payload = h; signature = d })
      (λ x. refl) (pair bytes_wire bytes_wire)

abbrev pub chaincode_id_wire : Wire ChaincodeId
chaincode_id_wire =
    via (λ x. (x.path, (x.name, x.version)))
      (λ (a, (b, c)). record { path = a; name = b; version = c }) (λ x. refl)
      (pair text_wire (pair text_wire text_wire))

abbrev chaincode_action_wire : Wire ChaincodeAction
chaincode_action_wire =
    via (λ x. (x.results, (x.events, (x.response, x.chaincode_id))))
      (λ (a, (b, (c, d))). record { results = a; events = b; response = c; chaincode_id = d })
      (λ x. refl)
      (pair bytes_wire (pair bytes_wire (pair (option response_wire) (option chaincode_id_wire))))

abbrev response_payload_wire : Wire ProposalResponsePayload
response_payload_wire =
    via (λ x. (x.proposal_hash, x.extension))
      (λ (h, d). record { proposal_hash = h; extension = d }) (λ x. refl)
      (pair bytes_wire bytes_wire)

abbrev pub codecs : TxCodecs
codecs = record {
  header = codec header_wire;
  signature_header = codec signature_header_wire;
  channel_header = codec channel_header_wire;
  proposal_payload = codec proposal_payload_wire;
  proposal = codec proposal_wire;
  action_payload = action_codec;
  transaction = codec transaction_wire;
  payload = codec payload_wire;
  envelope = codec envelope_wire;
  chaincode_action = codec chaincode_action_wire;
  response_payload = codec response_payload_wire;
}

pub codecs-AreTxCodecs : AreTxCodecs codecs
codecs-AreTxCodecs = record {
  header_law = codec-IsCodec header_wire;
  signature_header_law = codec-IsCodec signature_header_wire;
  channel_header_law = codec-IsCodec channel_header_wire;
  proposal_payload_law = codec-IsCodec proposal_payload_wire;
  proposal_law = codec-IsCodec proposal_wire;
  action_payload_law = action_codec-IsActionCodec;
  transaction_law = codec-IsCodec transaction_wire;
  payload_law = codec-IsCodec payload_wire;
  envelope_law = codec-IsCodec envelope_wire;
  chaincode_action_law = codec-IsCodec chaincode_action_wire;
  response_payload_law = codec-IsCodec response_payload_wire;
}
