-- ===== src/Channel/Envelope.antt =====
-- `UpdateEnvelope` of internal/channel/channel.go, which organisations sign one after the other, and
-- the signature of internal/channel/util.go. The map of signatures is an association list.
use fabricsdk_go.Prelude.{
  ◌≡◌, refl, ap, ◌∙◌, String, str_eq, eq_iff, List, [], ◌∷◌, ◌++◌, map, Option, none, some, Bytes,
  Result, ok, err, panic, message, wrap, wrap-eq-ok, bind_ok, ◌>>=◌, arith, if◌then◌else◌,
}
use mathlib.Core.List.{append-nil}
use fabricsdk_go.Proto.{Codec, IsCodec}
use fabricsdk_go.Tx.Messages.{SignatureHeader, Envelope, Signer}
use fabricsdk_go.Tx.Concat.{channel_concatenate_bytes, channel_concatenate_bytes_lem}
use fabricsdk_go.Channel.Update.{ConfigSignature}

abbrev pub Signatures : Type 0
Signatures = List (String × ConfigSignature)

pub record UpdateEnvelope : Type 0 where
  pub signatures : Signatures
  pub update : Bytes
  pub channel_id : String

unfoldable pub lookup : String → Signatures → Option ConfigSignature
lookup name [] = none
lookup name ((key, sig) ∷ rest) = if str_eq key name then some sig else lookup name rest

unfoldable pub insert : String → ConfigSignature → Signatures → Signatures
insert name new [] = (name, new) ∷ []
insert name new ((key, sig) ∷ rest) =
    let more = insert name new rest in
    if str_eq key name then (name, new) ∷ rest else (key, sig) ∷ more

module _ (headers : Codec SignatureHeader) where
  unfoldable pub sign_update_config : Signer → Bytes → Result ConfigSignature
  sign_update_config signer update = do
    signed_header ← signer.new_signature_header
    header ← wrap "marshaling signature header: %v" (headers.marshal signed_header)
    signature ← signer.sign (channel_concatenate_bytes (header ∷ update ∷ []))
    ok (record { signature_header = header; signature = signature })

  -- The map is assigned only if signing returns no error.
  abbrev pub assign :
      UpdateEnvelope → String → Result ConfigSignature → Result (Unit {0}) × UpdateEnvelope
  assign c name (ok sig) = (
    ok tt,
    record {
      signatures = insert name sig c.signatures;
      update = c.update;
      channel_id = c.channel_id;
    },
  )
  assign c name (err e) = (err e, c)
  assign c name panic = (panic, c)

  abbrev pub sign_unless :
      UpdateEnvelope → Signer → Option ConfigSignature → Result (Unit {0}) × UpdateEnvelope
  sign_unless c signer (some sig) = (err (message "%s has signed updated config"), c)
  sign_unless c signer none = assign c signer.get_msp_id (sign_update_config signer c.update)

  unfoldable pub sign_by : UpdateEnvelope → Signer → Result (Unit {0}) × UpdateEnvelope
  unfolding lookup
  sign_by c signer = sign_unless c signer (lookup signer.get_msp_id c.signatures)

-- `CreateEnvelope`; `configtx.NewEnvelope` is a parameter.
unfoldable pub update_create_envelope :
    (Bytes → List ConfigSignature → Result Envelope) → UpdateEnvelope → Result Envelope
update_create_envelope new_envelope c = new_envelope c.update (map (λ entry. entry.1) c.signatures)

insert-fresh :
    (name : String) (new : ConfigSignature) (sigs : Signatures)
    → lookup name sigs ≡ none
    → insert name new sigs ≡ sigs ++ (name, new) ∷ []
unfolding lookup insert
insert-fresh name new [] h = refl
insert-fresh name new ((key, sig) ∷ rest) h = ground (arith, insert-fresh name new rest)

lookup-insert :
    (name : String) (new : ConfigSignature) (sigs : Signatures)
    → lookup name (insert name new sigs) ≡ some new
unfolding lookup insert
lookup-insert name new [] = ground (arith, eq_iff name name)
lookup-insert name new ((key, sig) ∷ rest) =
    ground (arith, eq_iff name name, lookup-insert name new rest)

-- What a signature of an organisation is: over its own header and the update.
pub record SignatureOf (headers : Codec SignatureHeader) (signer : Signer) (update : Bytes)
    (sig : ConfigSignature) : Type 0 where
  pub creator : SignatureHeader
  pub creator_made : signer.new_signature_header ≡ ok creator
  pub creator_read : headers.unmarshal sig.signature_header ≡ ok creator
  pub signed : signer.sign (sig.signature_header ++ update) ≡ ok sig.signature

module _ (headers : Codec SignatureHeader) (law : IsCodec headers) where
  sign_update_config-SignatureOf :
      (signer : Signer) (update : Bytes) (sig : ConfigSignature)
      → sign_update_config headers signer update ≡ ok sig
      → SignatureOf headers signer update sig
  unfolding sign_update_config
  sign_update_config-SignatureOf signer update sig h =
      bind_ok signer.new_signature_header _ h λ sh e1 h1.
        bind_ok (wrap _ (headers.marshal sh)) _ h1 λ header e2 h2.
          bind_ok (signer.sign (channel_concatenate_bytes (header ∷ update ∷ []))) _ h2
            λ signature e3 h3.
              let same : header ≡ sig.signature_header = ground (arith, h3) in
              let same_sig : signature ≡ sig.signature = ground (arith, h3) in
              let bytes : channel_concatenate_bytes (header ∷ update ∷ []) ≡ header ++ update =
                channel_concatenate_bytes_lem (header ∷ update ∷ [])
                ∙ ap (λ (t : Bytes). header ++ t) (append-nil update) in
              record {
                creator = sh;
                creator_made = e1;
                creator_read = rw (← same) (law.round sh header (wrap-eq-ok _ _ e2));
                signed = rw (← same, ← same_sig, ← bytes) e3;
              }

  -- Where `SignBy` returns no error, the organisation of the signer had not signed, and the envelope
  -- has one signature more, under its name, over the header and the update; the signatures of the
  -- others, the update and the channel are as before.
  pub sign_by-ok :
      (c : UpdateEnvelope) (signer : Signer)
      → (sign_by headers c signer).0 ≡ ok tt
      → (lookup signer.get_msp_id c.signatures ≡ none)
        × (sig : ConfigSignature) × SignatureOf headers signer c.update sig
        × ((sign_by headers c signer).1 ≡ record {
          signatures = c.signatures ++ (signer.get_msp_id, sig) ∷ [];
          update = c.update;
          channel_id = c.channel_id;
        })
  unfolding sign_by
  sign_by-ok c signer h = by_lookup (lookup signer.get_msp_id c.signatures) refl h
    where
      by_result :
          lookup signer.get_msp_id c.signatures ≡ none
          → (r : Result ConfigSignature) → sign_update_config headers signer c.update ≡ r
          → (assign headers c signer.get_msp_id r).0 ≡ ok tt
          → (sig : ConfigSignature) × SignatureOf headers signer c.update sig
            × ((assign headers c signer.get_msp_id r).1 ≡ record {
              signatures = c.signatures ++ (signer.get_msp_id, sig) ∷ [];
              update = c.update;
              channel_id = c.channel_id;
            })
      by_result fresh (ok sig) e h = (
        sig,
        sign_update_config-SignatureOf signer c.update sig e,
        rw (insert-fresh signer.get_msp_id sig c.signatures fresh),
      )
      by_result fresh (err x) e h = cc
      by_result fresh panic e h = cc

      by_lookup :
          (o : Option ConfigSignature)
          → lookup signer.get_msp_id c.signatures ≡ o
          → (sign_unless headers c signer o).0 ≡ ok tt
          → (lookup signer.get_msp_id c.signatures ≡ none)
            × (sig : ConfigSignature) × SignatureOf headers signer c.update sig
            × ((sign_unless headers c signer o).1 ≡ record {
              signatures = c.signatures ++ (signer.get_msp_id, sig) ∷ [];
              update = c.update;
              channel_id = c.channel_id;
            })
      by_lookup (some x) e h = cc
      by_lookup none e h =
          let (sig, good, becomes) =
            by_result e (sign_update_config headers signer c.update) refl h in
          (e, sig, good, becomes)

  -- Once a signer of an organisation has signed, no signer of that organisation can sign again:
  -- `SignBy` returns the error and leaves the envelope as it is.
  pub sign_by-twice :
      (c : UpdateEnvelope) (signer again : Signer)
      → (sign_by headers c signer).0 ≡ ok tt
      → again.get_msp_id ≡ signer.get_msp_id
      → sign_by headers (sign_by headers c signer).1 again
        ≡ (err (message "%s has signed updated config"), (sign_by headers c signer).1)
  unfolding sign_by
  sign_by-twice c signer again h same =
      let (fresh, sig, good, becomes) = sign_by-ok c signer h in
      let found : lookup again.get_msp_id (sign_by headers c signer).1.signatures ≡ some sig =
        rw (same, becomes, ← insert-fresh signer.get_msp_id sig c.signatures fresh)
          (lookup-insert signer.get_msp_id sig c.signatures) in
      ap (sign_unless headers (sign_by headers c signer).1 again) found
