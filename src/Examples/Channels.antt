-- ===== src/Examples/Channels.antt =====
-- A configuration update of one channel, signed by two organisations and sent to an orderer; and a
-- block.
use fabricsdk_go.Prelude.{pos, ◌≡◌, ◌⊎◌, refl, String, [], ◌∷◌, take, Option, none, some, ok}
use fabricsdk_go.Tx.Messages.{Payload, Envelope, SignatureHeader, Signer}
use fabricsdk_go.Proto.{Codec}
use fabricsdk_go.Tx.Marshal.{unmarshal_payload, unmarshal_channel_header}
use fabricsdk_go.Tx.Concat.{concatenate_bytes_lem}
use fabricsdk_go.Tx.Envelope.{
  create_signed_envelope_with_tls_binding, unmarshal_envelope_of_type, new_signature_header,
  create_signed_envelope, make_channel_header, make_payload_header,
}
use fabricsdk_go.Tx.EnvelopeReads.{channel_of, unmarshal_envelope_of_type-create}
use fabricsdk_go.Channel.Update.{
  ConfigSignature, ConfigUpdateEnvelope, Host, ChannelEnvelope, OrdererClient, connected, sent,
  closed, create, update, sanity_check_and_sign_config_tx, checked_header, sign_checked,
}
use fabricsdk_go.Channel.Checks.{missing}
use fabricsdk_go.Channel.Signed.{SignsUpdate, sanity_check-SignsUpdate}
use fabricsdk_go.Channel.Sending.{update-Unfit, update-ok}
use fabricsdk_go.Channel.Envelope.{
  UpdateEnvelope, SignatureOf, lookup, sign_by, sign_by-ok, sign_update_config,
}
use fabricsdk_go.Examples.Wire.{Wire, via, pair, list, bytes_wire, codec, codec-IsCodec, value_or}
use fabricsdk_go.Examples.Messages.{codecs, codecs-AreTxCodecs, signature_header_wire}
use fabricsdk_go.Examples.Transactions.{alice, bob, no_envelope}

abbrev signature_wire : Wire ConfigSignature
signature_wire =
    via (λ s. (s.signature_header, s.signature))
      (λ (a, b). record { signature_header = a; signature = b }) (λ s. refl)
      (pair bytes_wire bytes_wire)

abbrev update_wire : Wire ConfigUpdateEnvelope
update_wire =
    via (λ u. (u.config_update, u.signatures))
      (λ (a, b). record { config_update = a; signatures = b }) (λ u. refl)
      (pair bytes_wire (list signature_wire))

abbrev host : Host
host = record {
  codecs = codecs;
  config_update_envelope = codec update_wire;
  config_update = pos 2;
  now = 1700;
  random_nonce = ok (1 ∷ []);
}

abbrev wanted : ConfigUpdateEnvelope
wanted = record { config_update = 6 ∷ 7 ∷ []; signatures = [] }

abbrev given : Envelope
given = value_or no_envelope (
    create_signed_envelope_with_tls_binding codecs 1700 (pos 2) "mychannel" (some alice)
      ((codec update_wire).marshal wanted) (pos 0) 0 [])

given_ok :
    create_signed_envelope_with_tls_binding codecs 1700
      (pos 2)
      "mychannel"
      (some alice)
      ((codec update_wire).marshal wanted)
      (pos 0)
      0
      []
    ≡ ok given
unfolding create_signed_envelope_with_tls_binding make_channel_header make_payload_header
given_ok = refl

unmarshal_envelope_of_type-create_example :
    unmarshal_envelope_of_type codecs (codec update_wire) given (pos 2)
    ≡ ok (channel_of 1700 (pos 2) "mychannel" (pos 0) 0 [], wanted)
unmarshal_envelope_of_type-create_example =
    unmarshal_envelope_of_type-create codecs codecs-AreTxCodecs (codec update_wire)
      (codec-IsCodec update_wire) 1700 (pos 2) "mychannel" (some alice) wanted (pos 0) 0 [] given
      given_ok

abbrev or_no_envelope : Option Envelope → Envelope
or_no_envelope none = no_envelope
or_no_envelope (some env) = env

abbrev signed : Envelope
signed = or_no_envelope (value_or none (sanity_check_and_sign_config_tx host given bob ""))

signed_ok : sanity_check_and_sign_config_tx host given bob "" ≡ ok (some signed)
unfolding sanity_check_and_sign_config_tx checked_header sign_checked unmarshal_payload
    unmarshal_channel_header new_signature_header create_signed_envelope
    create_signed_envelope_with_tls_binding make_channel_header make_payload_header
signed_ok = rw (concatenate_bytes_lem _) refl

sanity_check-SignsUpdate_example : SignsUpdate host given bob "" signed
sanity_check-SignsUpdate_example =
    sanity_check-SignsUpdate host codecs-AreTxCodecs (codec-IsCodec update_wire) given bob "" signed
      signed_ok

abbrev channel : ChannelEnvelope
channel = record { create_envelope = ok given; channel_id = "" }

abbrev orderer : OrdererClient
orderer = record { get_broadcast_client = ok tt; send = λ env. ok tt }

updated : (update host bob channel orderer).1 ≡ ok tt
unfolding update
updated = rw signed_ok refl

update-ok_example :
    (env : Envelope) × (e : Option Envelope) × (channel.create_envelope ≡ ok env)
    × (update host bob channel orderer ≡ (connected ∷ sent e ∷ closed ∷ [], ok tt))
    × (orderer.send e ≡ ok tt)
    × ((e ≡ none) ⊎ ((f : Envelope) × (e ≡ some f) × SignsUpdate host env bob channel.channel_id f))
update-ok_example =
    update-ok host codecs-AreTxCodecs (codec-IsCodec update_wire) bob channel orderer updated

abbrev bare_payload : Payload
bare_payload = record { header = none; data_bytes = [] }

abbrev bare : Envelope
bare = record { payload = value_or [] (codecs.payload.marshal bare_payload); signature = [] }

abbrev bare_channel : ChannelEnvelope
bare_channel = record { create_envelope = ok bare; channel_id = "" }

update-Unfit_example :
    (update host bob bare_channel orderer
      ≡ (connected ∷ sent none ∷ closed ∷ [], orderer.send none))
    × (take 2 (create host bob bare_channel orderer).0 ≡ connected ∷ sent none ∷ [])
    × ((create host bob bare_channel orderer).1 ≡ orderer.send none)
update-Unfit_example =
    update-Unfit host bob bare_channel orderer bare bare_payload refl refl missing refl

abbrev org : String → Signer
org name = record {
  serialize = ok (4 ∷ []);
  sign = λ b. ok (4 ∷ take 2 b);
  new_signature_header = ok (record { creator = 4 ∷ []; nonce = 1 ∷ [] });
  get_msp_id = name;
}

abbrev fresh : UpdateEnvelope
fresh = record { signatures = []; update = 6 ∷ 7 ∷ []; channel_id = "mychannel" }

abbrev header_codec : Codec SignatureHeader
header_codec = codec signature_header_wire

org1_signs : (sign_by header_codec fresh (org "Org1MSP")).0 ≡ ok tt
unfolding sign_by sign_update_config
org1_signs = refl

sign_by-ok_example :
    (lookup "Org1MSP" [] ≡ none)
    × (sig : ConfigSignature) × SignatureOf header_codec (org "Org1MSP") (6 ∷ 7 ∷ []) sig
    × ((sign_by header_codec fresh (org "Org1MSP")).1 ≡ record {
      signatures = ("Org1MSP", sig) ∷ [];
      update = 6 ∷ 7 ∷ [];
      channel_id = "mychannel";
    })
sign_by-ok_example =
    sign_by-ok header_codec (codec-IsCodec signature_header_wire) fresh (org "Org1MSP") org1_signs
