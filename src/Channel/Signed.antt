-- ===== src/Channel/Signed.antt =====
-- What an envelope that `sanityCheckAndSignConfigTx` returns carries.
use fabricsdk_go.Prelude.{
  ◌≡◌, refl, sym, ap, ◌∙◌, Bool, true, false, not, String, str_eq, eq_iff, [], ◌∷◌, ◌++◌, Option,
  none, some, Bytes, is_empty, Result, ok, wrap, wrap-eq-ok, guard, guard-eq-ok, or_panic,
  or_panic-eq-ok, bind_ok, pos, int_eq, int_eq_iff, arith, if◌then◌else◌,
}
use mathlib.Core.List.{append-nil}
use fabricsdk_go.Proto.{IsCodec}
use fabricsdk_go.Tx.Messages.{
  Header, SignatureHeader, ChannelHeader, Payload, Envelope, AreTxCodecs, Signer,
}
use fabricsdk_go.Tx.Marshal.{unmarshal_payload, unmarshal_channel_header}
use fabricsdk_go.Tx.Concat.{concatenate_bytes, concatenate_bytes_lem}
use fabricsdk_go.Tx.Envelope.{new_signature_header, create_signed_envelope}
use fabricsdk_go.Tx.EnvelopeReads.{Carries, channel_of, create_signed_envelope-Carries}
use fabricsdk_go.Channel.Update.{
  ConfigSignature, ConfigUpdateEnvelope, Host, checked_channel, checked_header, resolved,
  sign_checked, sanity_check_and_sign_config_tx,
}

-- What the returned envelope carries: the update that was in the given one, for the same channel,
-- with the signatures that were there and, last, the signer's over its header and the update.
pub record SignsUpdate (m : Host) (env : Envelope) (signer : Signer) (channel_id : String)
    (signed : Envelope) : Type 0 where
  pub payload : Payload
  pub payload_read : m.codecs.payload.unmarshal env.payload ≡ ok payload
  pub header : Header
  pub header_there : payload.header ≡ some header
  pub channel : ChannelHeader
  pub channel_read : m.codecs.channel_header.unmarshal header.channel_header ≡ ok channel
  pub is_update : channel.type ≡ m.config_update
  pub same_channel : channel.channel_id ≡ resolved m channel_id channel
  pub given : ConfigUpdateEnvelope
  pub given_read : m.config_update_envelope.unmarshal payload.data_bytes ≡ ok given
  pub signature : ConfigSignature
  pub creator : SignatureHeader
  pub creator_read : m.codecs.signature_header.unmarshal signature.signature_header ≡ ok creator
  pub creator_is : signer.serialize ≡ ok creator.creator
  pub signature_is :
      signer.sign (signature.signature_header ++ given.config_update) ≡ ok signature.signature
  pub bytes : Bytes
  pub update_read :
      m.config_update_envelope.unmarshal bytes
      ≡ ok (record {
        config_update = given.config_update;
        signatures = given.signatures ++ signature ∷ [];
      })
  pub carries :
      Carries m.codecs
        (channel_of m.now m.config_update channel.channel_id (pos 0) 0 [])
        (some signer)
        bytes
        signed

not_none :
    {A : Type 0} (b : Bool) (y : Result (Option A)) {a : A}
    → (if b then ok none else y) ≡ ok (some a)
    → (b ≡ false) × (y ≡ ok (some a))
not_none true y h = cc
not_none false y h = (refl, h)

-- A header that passes the checks.
record Fit (m : Host) (h : Option Header) (ch : ChannelHeader) : Type 0 where
  header : Header
  there : h ≡ some header
  read : m.codecs.channel_header.unmarshal header.channel_header ≡ ok ch
  is_update : ch.type ≡ m.config_update

module _ (m : Host) (law : AreTxCodecs m.codecs)
    (update_law : IsCodec m.config_update_envelope) where
  checked_channel-some :
      (ch fit : ChannelHeader)
      → checked_channel m ch ≡ ok (some fit)
      → (ch ≡ fit) × (ch.type ≡ m.config_update)
  checked_channel-some ch fit h =
      let (same, h1) = not_none (not (int_eq ch.type m.config_update)) _ h in
      let (_, h2) = not_none (str_eq ch.channel_id "") _ h1 in
      (ground (arith, h2), (int_eq_iff ch.type m.config_update).0 (ground (arith, same)))

  checked_header-some :
      (h : Option Header) (ch : ChannelHeader) → checked_header m h ≡ ok (some ch) → Fit m h ch
  unfolding checked_header unmarshal_channel_header
  checked_header-some none ch e = cc
  checked_header-some (some header) ch e =
      let (_, h1) = not_none (is_empty header.channel_header) _ e in
      bind_ok (wrap _ (unmarshal_channel_header m.codecs header.channel_header)) _ h1
        λ found read h2.
          let (same, is_update) = checked_channel-some found ch h2 in
          record {
            header = header;
            there = refl;
            read = rw (← same) (wrap-eq-ok _ _ (wrap-eq-ok _ _ read));
            is_update = rw (← same) is_update;
          }

  -- An envelope that `sanityCheckAndSignConfigTx` returns carries the configuration update of the
  -- given one, whose header is of that type and of the same channel, with its signatures and, last,
  -- the signer's own, over its signature header and the update, and is signed by the signer.
  pub sanity_check-SignsUpdate :
      (env : Envelope) (signer : Signer) (channel_id : String) (signed : Envelope)
      → sanity_check_and_sign_config_tx m env signer channel_id ≡ ok (some signed)
      → SignsUpdate m env signer channel_id signed
  unfolding sanity_check_and_sign_config_tx sign_checked unmarshal_payload new_signature_header
      create_signed_envelope
  sanity_check-SignsUpdate env signer channel_id signed h =
      bind_ok (wrap _ (unmarshal_payload m.codecs env.payload)) _ h λ payload e1 h1.
        bind_ok (checked_header m payload.header) _ h1
          λ maybe e2 h2. some_case payload (wrap-eq-ok _ _ (wrap-eq-ok _ _ e1)) maybe e2 h2
    where
      some_case :
          (payload : Payload) (read : m.codecs.payload.unmarshal env.payload ≡ ok payload)
          (maybe : Option ChannelHeader)
          → checked_header m payload.header ≡ ok maybe
          → sign_checked m payload signer channel_id maybe ≡ ok (some signed)
          → SignsUpdate m env signer channel_id signed
      some_case payload read none e h2 = cc
      some_case payload read (some ch) e h2 =
          let fit = checked_header-some payload.header ch e in
          bind_ok (guard (str_eq ch.channel_id (resolved m channel_id ch)) _) _ h2 λ _ e3 h3.
            bind_ok (wrap _ (m.config_update_envelope.unmarshal payload.data_bytes)) _ h3
              λ given e4 h4. bind_ok (new_signature_header m.random_nonce signer) _ h4 λ sh e5 h5.
                bind_ok (or_panic (m.codecs.signature_header.marshal sh)) _ h5 λ header_bytes e6 h6.
                  bind_ok (concatenate_bytes (header_bytes ∷ given.config_update ∷ [])) _ h6
                    λ signed_bytes e7 h7. bind_ok (signer.sign signed_bytes) _ h7 λ signature e8 h8.
                      bind_ok
                        (create_signed_envelope m.codecs m.now m.config_update
                          (resolved m channel_id ch) (some signer) _ (pos 0) 0)
                        _ h8
                        λ made e9 h9.
                          let same_channel =
                            (eq_iff ch.channel_id (resolved m channel_id ch)).0
                              (guard-eq-ok _ _ e3) in
                          let same : made ≡ signed = ground arith in
                          let (bytes, written, carries) =
                            create_signed_envelope-Carries m.codecs law m.now m.config_update
                              (resolved m channel_id ch) (some signer) _ (pos 0) 0 [] made e9 in
                          let concat_ok : ok signed_bytes
                              ≡ ok (header_bytes ++ given.config_update) =
                            sym e7
                            ∙ concatenate_bytes_lem (header_bytes ∷ given.config_update ∷ [])
                            ∙ ap (λ (t : Bytes). ok (header_bytes ++ t))
                                (append-nil given.config_update) in
                          let same_bytes : signed_bytes ≡ header_bytes ++ given.config_update =
                            ground (arith, concat_ok) in
                          record {
                            payload = payload;
                            payload_read = read;
                            header = fit.header;
                            header_there = fit.there;
                            channel = ch;
                            channel_read = fit.read;
                            is_update = fit.is_update;
                            same_channel = same_channel;
                            given = given;
                            given_read = wrap-eq-ok _ _ e4;
                            signature = record {
                              signature_header = header_bytes;
                              signature = signature;
                            };
                            creator = sh;
                            creator_read =
                                law.signature_header_law.round sh header_bytes
                                  (or_panic-eq-ok _ e6);
                            creator_is = bind_ok signer.serialize _ e5 λ creator c1 d1.
                                bind_ok (wrap _ m.random_nonce) _ d1
                                  λ nonce c2 d2. c1 ∙ (ground (arith, d2));
                            signature_is = rw (← same_bytes) e8;
                            bytes = bytes;
                            update_read = update_law.round _ bytes written;
                            carries = rw (same_channel, ← same) carries;
                          }
