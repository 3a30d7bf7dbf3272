-- ===== src/Tx/EnvelopeReads.antt =====
-- What is read back from an envelope that `CreateSignedEnvelopeWithTLSBinding` returns.
use fabricsdk_go.Prelude.{
  ℕ, [], ◌≡◌, refl, String, Option, some, Bytes, Result, ok, wrap, wrap-eq-ok, or_panic,
  or_panic-eq-ok, bind_ok, ℤ, int_eq_iff, arith,
}
use fabricsdk_go.Proto.{Codec, IsCodec}
use fabricsdk_go.Tx.Messages.{
  Header, SignatureHeader, ChannelHeader, Envelope, TxCodecs, AreTxCodecs, Signer,
}
use fabricsdk_go.Tx.Marshal.{unmarshal_payload, unmarshal_channel_header}
use fabricsdk_go.Tx.Envelope.{
  make_channel_header, make_payload_header, header_by, sign_by,
  create_signed_envelope_with_tls_binding, unmarshal_envelope_of_type,
}

-- The channel header, the signature header and the data of an envelope, read by the protobuf library.
pub record Carries (p : TxCodecs) (channel : ChannelHeader) (signer : Option Signer) (bytes : Bytes)
    (env : Envelope) : Type 0 where
  pub header : Header
  pub payload_read :
      p.payload.unmarshal env.payload ≡ ok (record { header = some header; data_bytes = bytes })
  pub channel_read : p.channel_header.unmarshal header.channel_header ≡ ok channel
  pub creator : SignatureHeader
  pub creator_made : header_by signer ≡ ok creator
  pub creator_read : p.signature_header.unmarshal header.signature_header ≡ ok creator
  pub signed : sign_by signer env.payload ≡ ok env.signature

abbrev pub channel_of : ℕ → ℤ → String → ℤ → ℕ → Bytes → ChannelHeader
channel_of now tx_type channel_id version epoch tls = record {
  type = tx_type;
  version = version;
  timestamp = now;
  channel_id = channel_id;
  tx_id = "";
  epoch = epoch;
  extension = [];
  tls_cert_hash = tls;
}

module _ (p : TxCodecs) (law : AreTxCodecs p) where
  pub create_signed_envelope-Carries :
      (now : ℕ) (tx_type : ℤ) (channel_id : String) (signer : Option Signer)
      (data_msg : Result Bytes) (version : ℤ) (epoch : ℕ) (tls : Bytes) (env : Envelope)
      → create_signed_envelope_with_tls_binding p now tx_type channel_id signer data_msg version
          epoch tls
        ≡ ok env
      → (bytes : Bytes) × (data_msg ≡ ok bytes)
        × Carries p (channel_of now tx_type channel_id version epoch tls) signer bytes env
  unfolding create_signed_envelope_with_tls_binding make_channel_header make_payload_header
  create_signed_envelope-Carries now tx_type channel_id signer data_msg version epoch tls env h =
      bind_ok (header_by signer) _ h λ sh e1 h1. bind_ok (wrap _ data_msg) _ h1 λ bytes e2 h2.
        bind_ok (make_payload_header p _ sh) _ h2 λ header e3 h3.
          bind_ok (or_panic (p.payload.marshal _)) _ h3 λ payl e4 h4.
            bind_ok (sign_by signer payl) _ h4 λ sig e5 h5.
              bind_ok (or_panic (p.channel_header.marshal _)) _ e3 λ ch c1 d1.
                bind_ok (or_panic (p.signature_header.marshal sh)) _ d1 λ shb c2 d2.
                  let same_header : record { channel_header = ch; signature_header = shb }
                      ≡ header =
                    ground arith in
                  let same : payl ≡ env.payload = ground arith in
                  let same_sig : sig ≡ env.signature = ground arith in
                  (
                    bytes,
                    wrap-eq-ok _ _ e2,
                    record {
                      header = header;
                      payload_read =
                          rw (← same) (law.payload_law.round _ payl (or_panic-eq-ok _ e4));
                      channel_read =
                          rw (← same_header)
                            (law.channel_header_law.round _ ch (or_panic-eq-ok _ c1));
                      creator = sh;
                      creator_made = e1;
                      creator_read =
                          rw (← same_header)
                            (law.signature_header_law.round _ shb (or_panic-eq-ok _ c2));
                      signed = rw (← same, ← same_sig) e5;
                    },
                  )

  -- An envelope that `CreateSignedEnvelopeWithTLSBinding` makes of a message is read by
  -- `UnmarshalEnvelopeOfType`, asked for the same type, as the channel header with the given type,
  -- channel, version, epoch and TLS certificate hash, and that message.
  pub unmarshal_envelope_of_type-create :
      {A : Type 0} (c : Codec A)
      → IsCodec c
      → (now : ℕ) (tx_type : ℤ) (channel_id : String) (signer : Option Signer) (msg : A)
        (version : ℤ) (epoch : ℕ) (tls : Bytes) (env : Envelope)
      → create_signed_envelope_with_tls_binding p now tx_type channel_id signer
          (c.marshal msg)
          version
          epoch
          tls
        ≡ ok env
      → unmarshal_envelope_of_type p c env tx_type
        ≡ ok (channel_of now tx_type channel_id version epoch tls, msg)
  unfolding unmarshal_envelope_of_type unmarshal_payload unmarshal_channel_header
  unmarshal_envelope_of_type-create c c_law now tx_type channel_id signer msg version epoch tls env
        h =
      let (bytes, written, carries) =
        create_signed_envelope-Carries now tx_type channel_id signer (c.marshal msg) version epoch
          tls env h in
      rw (
        carries.payload_read,
        carries.channel_read,
        (int_eq_iff tx_type tx_type).1 refl,
        c_law.round msg bytes written,
      )
