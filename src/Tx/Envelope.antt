-- ===== src/Tx/Envelope.antt =====
-- Signed envelopes of internal/utils/txutil.go and their headers, of internal/utils/common.go. The
-- clock of a new channel header is a parameter.
use fabricsdk_go.Prelude.{
  ℕ, not, String, Option, none, some, Bytes, is_empty, Result, ok, wrap, guard, required, or_panic,
  ◌>>=◌, ◌>>◌, ℤ, int_eq, [],
}
use fabricsdk_go.Proto.{Codec}
use fabricsdk_go.Tx.Messages.{Header, SignatureHeader, ChannelHeader, Envelope, TxCodecs, Signer}
use fabricsdk_go.Tx.Marshal.{unmarshal_payload, unmarshal_channel_header}

unfoldable pub make_channel_header : ℕ → ℤ → ℤ → String → ℕ → ChannelHeader
make_channel_header now type version channel_id epoch = record {
  type = type;
  version = version;
  timestamp = now;
  channel_id = channel_id;
  tx_id = "";
  epoch = epoch;
  extension = [];
  tls_cert_hash = [];
}

-- `NewSignatureHeader`: the creator first, then the nonce.
unfoldable pub new_signature_header : Result Bytes → Signer → Result SignatureHeader
new_signature_header random_nonce signer = do
  creator ← signer.serialize
  nonce ← wrap "error generating random nonce" random_nonce
  ok (record { creator = creator; nonce = nonce })

-- The signer may be nil.
abbrev pub header_by : Option Signer → Result SignatureHeader
header_by none = ok (record { creator = []; nonce = [] })
header_by (some signer) = signer.new_signature_header

abbrev pub sign_by : Option Signer → Bytes → Result Bytes
sign_by none bytes = ok []
sign_by (some signer) bytes = signer.sign bytes

module _ (p : TxCodecs) where
  unfoldable pub make_payload_header : ChannelHeader → SignatureHeader → Result Header
  make_payload_header ch sh = do
    channel_header ← or_panic (p.channel_header.marshal ch)
    signature_header ← or_panic (p.signature_header.marshal sh)
    ok (record { channel_header = channel_header; signature_header = signature_header })

  -- The message is given by what marshalling it returns.
  unfoldable pub create_signed_envelope_with_tls_binding :
      ℕ → ℤ → String → Option Signer → Result Bytes → ℤ → ℕ → Bytes → Result Envelope
  unfolding make_channel_header make_payload_header
  create_signed_envelope_with_tls_binding now tx_type channel_id signer data_msg msg_version epoch
        tls_cert_hash =
      do
        let made = make_channel_header now tx_type msg_version channel_id epoch
        let channel : ChannelHeader = record {
          type = made.type;
          version = made.version;
          timestamp = made.timestamp;
          channel_id = made.channel_id;
          tx_id = made.tx_id;
          epoch = made.epoch;
          extension = made.extension;
          tls_cert_hash = tls_cert_hash;
        }
        signature_header ← header_by signer
        bytes ← wrap "error marshaling" data_msg
        header ← make_payload_header channel signature_header
        payl_bytes ←
            or_panic (p.payload.marshal (record { header = some header; data_bytes = bytes }))
        sig ← sign_by signer payl_bytes
        ok (record { payload = payl_bytes; signature = sig })

  unfoldable pub create_signed_envelope :
      ℕ → ℤ → String → Option Signer → Result Bytes → ℤ → ℕ → Result Envelope
  unfolding create_signed_envelope_with_tls_binding
  create_signed_envelope now tx_type channel_id signer data_msg msg_version epoch =
      create_signed_envelope_with_tls_binding now tx_type channel_id signer data_msg msg_version
        epoch []

  -- `ChannelHeader` of common.go
  unfoldable pub channel_header_of : Envelope → Result ChannelHeader
  channel_header_of env = do
    payload ← unmarshal_payload p env.payload
    header ← required "header not set" payload.header
    guard (not (is_empty header.channel_header)) "channel header not set"
    wrap "error unmarshaling channel header" (unmarshal_channel_header p header.channel_header)

  -- `ChannelID`
  unfoldable pub channel_id_of : Envelope → Result String
  unfolding channel_header_of
  channel_id_of env = do
    chdr ← wrap "error retrieving channel header" (channel_header_of env)
    ok chdr.channel_id

  -- The message is the second result; on an error no caller reads the header.
  unfoldable pub unmarshal_envelope_of_type :
      {A : Type 0} → Codec A → Envelope → ℤ → Result (ChannelHeader × A)
  unmarshal_envelope_of_type c envelope header_type = do
    payload ← unmarshal_payload p envelope.payload
    header ← required "envelope must have a Header" payload.header
    chdr ← unmarshal_channel_header p header.channel_header
    guard (int_eq chdr.type header_type) "invalid type %s, expected %s"
    msg ← wrap "error unmarshaling message for type %s" (c.unmarshal payload.data_bytes)
    ok (chdr, msg)
