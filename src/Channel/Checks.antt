-- ===== src/Channel/Checks.antt =====
-- When `sanityCheckAndSignConfigTx` returns no envelope and no error.
use fabricsdk_go.Prelude.{
  ◌≡◌, ◌≢◌, inl, inr, refl, String, eq_iff, [], Option, none, some, is_empty, ok, int_eq,
  int_eq_iff, Bool-cases,
}
use fabricsdk_go.Tx.Messages.{Header, ChannelHeader, Payload, Envelope, Signer}
use fabricsdk_go.Tx.Marshal.{unmarshal_payload, unmarshal_channel_header}
use fabricsdk_go.Channel.Update.{
  Host, checked_channel, checked_header, sign_checked, sanity_check_and_sign_config_tx,
}

module _ (m : Host) where
  -- A header that is missing, is not of a configuration update, or names no channel.
  pub data Unfit : Option Header → Type 0 where
    missing : Unfit none
    empty : (h : Header) → h.channel_header ≡ [] → Unfit (some h)
    other_type :
        (h : Header) (ch : ChannelHeader)
        → m.codecs.channel_header.unmarshal h.channel_header ≡ ok ch
        → ch.type ≢ m.config_update
        → Unfit (some h)
    no_channel :
        (h : Header) (ch : ChannelHeader)
        → m.codecs.channel_header.unmarshal h.channel_header ≡ ok ch
        → ch.channel_id ≡ ""
        → Unfit (some h)

  checked_type-false :
      (ch : ChannelHeader) → ch.type ≢ m.config_update → checked_channel m ch ≡ ok none
  checked_type-false ch other = elim (Bool-cases (int_eq ch.type m.config_update)) [
    | inl e ↦ absurd (other ((int_eq_iff ch.type m.config_update).0 e))
    | inr e ↦ rw e
  ]

  checked_id-empty : (ch : ChannelHeader) → ch.channel_id ≡ "" → checked_channel m ch ≡ ok none
  checked_id-empty ch e = elim (Bool-cases (int_eq ch.type m.config_update)) [
    | inl same ↦ rw (same, (eq_iff ch.channel_id "").1 e)
    | inr other ↦ rw other
  ]

  checked_header-Unfit : (h : Option Header) → Unfit h → checked_header m h ≡ ok none
  unfolding checked_header unmarshal_channel_header
  checked_header-Unfit _ missing = refl
  checked_header-Unfit _ (empty h e) = rw e
  checked_header-Unfit _ (other_type h ch read other) =
      elim (Bool-cases (is_empty h.channel_header)) [
        | inl e ↦ rw e
        | inr e ↦ rw (e, read, checked_type-false ch other)
      ]
  checked_header-Unfit _ (no_channel h ch read none_there) =
      elim (Bool-cases (is_empty h.channel_header)) [
        | inl e ↦ rw e
        | inr e ↦ rw (e, read, checked_id-empty ch none_there)
      ]

  -- Where the header is missing, of another type, or without a channel,
  -- `sanityCheckAndSignConfigTx` returns no envelope and no error.
  pub sanity_check-Unfit :
      (env : Envelope) (signer : Signer) (channel_id : String) (payload : Payload)
      → m.codecs.payload.unmarshal env.payload ≡ ok payload
      → Unfit payload.header
      → sanity_check_and_sign_config_tx m env signer channel_id ≡ ok none
  unfolding sanity_check_and_sign_config_tx unmarshal_payload sign_checked
  sanity_check-Unfit env signer channel_id payload read unfit =
      rw (read, checked_header-Unfit payload.header unfit)
