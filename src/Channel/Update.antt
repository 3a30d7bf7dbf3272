-- ===== src/Channel/Update.antt =====
-- `sanityCheckAndSignConfigTx`, `Create` and `Update` of internal/channel/update.go.
use fabricsdk_go.Prelude.{
  ℕ, not, String, str_eq, List, [], ◌∷◌, ◌++◌, Option, none, some, Bytes, is_empty, Result, ok, err,
  panic, Error, wrapped, wrap, guard, or_panic, ◌>>=◌, ◌>>◌, ℤ, pos, int_eq, if◌then◌else◌,
}
use fabricsdk_go.Proto.{Codec}
use fabricsdk_go.Tx.Messages.{Header, ChannelHeader, Payload, Envelope, TxCodecs, Signer}
use fabricsdk_go.Tx.Marshal.{unmarshal_payload, unmarshal_channel_header}
use fabricsdk_go.Tx.Concat.{concatenate_bytes}
use fabricsdk_go.Tx.Envelope.{new_signature_header, create_signed_envelope}

pub record ConfigSignature : Type 0 where
  pub signature_header : Bytes
  pub signature : Bytes

pub record ConfigUpdateEnvelope : Type 0 where
  pub config_update : Bytes
  pub signatures : List ConfigSignature

-- The codecs, the number of `HeaderType_CONFIG_UPDATE`, the clock and the random nonce.
pub record Host : Type 0 where
  pub codecs : TxCodecs
  pub config_update_envelope : Codec ConfigUpdateEnvelope
  pub config_update : ℤ
  pub now : ℕ
  pub random_nonce : Result Bytes

-- `return nil, errors.WithMessage(err, text)`: of a nil error it makes a nil error.
abbrev pub with_message : {A : Type 0} → Option Error → String → Result (Option A)
with_message none text = ok none
with_message (some e) text = err (wrapped text e)

module _ (m : Host) where
  -- `UnmarshalConfigUpdateEnvelope` does not wrap.
  abbrev unmarshal_config_update_envelope : Bytes → Result ConfigUpdateEnvelope
  unmarshal_config_update_envelope bytes = m.config_update_envelope.unmarshal bytes

  -- The checks of the type and the channel of a channel header; `err` is nil there.
  abbrev pub checked_channel : ChannelHeader → Result (Option ChannelHeader)
  checked_channel ch =
      if not (int_eq ch.type m.config_update)
      then with_message none "bad type"
      else if str_eq ch.channel_id ""
      then with_message none "empty channel id"
      else ok (some ch)

  -- The checks of the headers, up to the empty channel id.
  unfoldable pub checked_header : Option Header → Result (Option ChannelHeader)
  checked_header none = with_message none "bad header"
  checked_header (some header) =
      if is_empty header.channel_header then with_message none "bad header" else (do
        ch ←
            wrap "could not unmarshall channel header"
              (unmarshal_channel_header m.codecs header.channel_header)
        checked_channel ch)

  abbrev pub resolved : String → ChannelHeader → String
  resolved channel_id ch = if str_eq channel_id "" then ch.channel_id else channel_id

  -- What follows the checks of the headers.
  unfoldable pub sign_checked :
      Payload → Signer → String → Option ChannelHeader → Result (Option Envelope)
  sign_checked payload signer channel_id none = ok none
  sign_checked payload signer channel_id (some ch) = do
    guard (str_eq ch.channel_id (resolved channel_id ch)) "mismatched channel Name %s != %s"
    config_update_env ←
        wrap "Bad config update env" (unmarshal_config_update_envelope payload.data_bytes)
    sig_header ← new_signature_header m.random_nonce signer
    header_bytes ← or_panic (m.codecs.signature_header.marshal sig_header)
    signed_bytes ← concatenate_bytes (header_bytes ∷ config_update_env.config_update ∷ [])
    signature ← signer.sign signed_bytes
    env ←
        create_signed_envelope m.codecs m.now m.config_update (resolved channel_id ch) (some signer)
          (m.config_update_envelope.marshal (record {
            config_update = config_update_env.config_update;
            signatures =
                config_update_env.signatures
                ++ record { signature_header = header_bytes; signature = signature } ∷ [];
          }))
          (pos 0) 0
    ok (some env)

  -- Nil without an error is `ok none`.
  unfoldable pub sanity_check_and_sign_config_tx :
      Envelope → Signer → String → Result (Option Envelope)
  unfolding checked_header sign_checked
  sanity_check_and_sign_config_tx env_config_update signer channel_id = do
    payload ← wrap "bad payload" (unmarshal_payload m.codecs env_config_update.payload)
    ch ← checked_header payload.header
    sign_checked payload signer channel_id ch

-- `ChannelEnvelope`
pub record ChannelEnvelope : Type 0 where
  pub create_envelope : Result Envelope
  pub channel_id : String

-- The orderer's client: what connecting returns, and what sending an envelope on it returns.
pub record OrdererClient : Type 0 where
  pub get_broadcast_client : Result (Unit {0})
  pub send : Option Envelope → Result (Unit {0})

-- The calls that the orderer's client sees.
pub data Call : Type 0 where
  connected closed : Call
  sent : Option Envelope → Call

-- The calls up to a failure are kept.
abbrev pub after : Call → List Call × Result (Unit {0}) → List Call × Result (Unit {0})
after c (calls, r) = (c ∷ calls, r)

-- `Close` stands behind `Send` on both branches of `Create`; a panic skips it.
abbrev pub close_after : Result (Unit {0}) → List Call
close_after (ok u) = closed ∷ []
close_after (err e) = closed ∷ []
close_after panic = []

abbrev pub send_then_close : OrdererClient → Option Envelope → List Call × Result (Unit {0})
send_then_close client env = (sent env ∷ close_after (client.send env), client.send env)

-- `Close` is deferred in `Update`, and runs in a panic too.
abbrev pub send_deferring : OrdererClient → Option Envelope → List Call × Result (Unit {0})
send_deferring client env = (sent env ∷ closed ∷ [], client.send env)

abbrev pub connect :
    Result (Unit {0}) → List Call × Result (Unit {0}) → List Call × Result (Unit {0})
connect (ok u) next = after connected next
connect (err e) next = ([], err e)
connect panic next = ([], panic)

abbrev pub run :
    {A : Type 0} → Result A → (A → List Call × Result (Unit {0})) → List Call × Result (Unit {0})
run (ok a) k = k a
run (err e) k = ([], err e)
run panic k = ([], panic)

module _ (m : Host) where
  unfoldable pub create : Signer → ChannelEnvelope → OrdererClient → List Call × Result (Unit {0})
  create signer ch client = run ch.create_envelope λ ch_env.
      run (sanity_check_and_sign_config_tx m ch_env signer ch.channel_id)
        λ signed_env. connect client.get_broadcast_client (send_then_close client signed_env)

  unfoldable pub update : Signer → ChannelEnvelope → OrdererClient → List Call × Result (Unit {0})
  update signer ch o_client = run (wrap "create envelope" ch.create_envelope) λ ch_env.
      run
        (wrap "sanity check and sign configtx"
          (sanity_check_and_sign_config_tx m ch_env signer ch.channel_id))
        λ signed_env. connect o_client.get_broadcast_client (send_deferring o_client signed_env)
