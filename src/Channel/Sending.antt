-- ===== src/Channel/Sending.antt =====
-- What `Create` and `Update` send to the orderer.
use fabricsdk_go.Prelude.{
  ◌≡◌, ◌⊎◌, inl, inr, refl, ap, ◌∙◌, List, [], ◌∷◌, Option, none, some, Result, ok, err, panic,
  wrap, wrap-eq-ok, take,
}
use fabricsdk_go.Proto.{IsCodec}
use fabricsdk_go.Tx.Messages.{Payload, Envelope, AreTxCodecs, Signer}
use fabricsdk_go.Channel.Update.{
  Host, ChannelEnvelope, OrdererClient, Call, connected, sent, closed,
  sanity_check_and_sign_config_tx, create, update, run, connect, send_deferring,
}
use fabricsdk_go.Channel.Checks.{Unfit, sanity_check-Unfit}
use fabricsdk_go.Channel.Signed.{SignsUpdate, sanity_check-SignsUpdate}

run-ok :
    {A : Type 0} (r : Result A) (k : A → List Call × Result (Unit {0}))
    → (run r k).1 ≡ ok tt
    → (a : A) × (r ≡ ok a) × (run r k ≡ k a) × ((k a).1 ≡ ok tt)
run-ok (ok a) k h = (a, refl, refl, h)
run-ok (err e) k h = cc
run-ok panic k h = cc

deferring-ok :
    (client : OrdererClient) (r : Result (Unit {0})) (env : Option Envelope)
    → (connect r (send_deferring client env)).1 ≡ ok tt
    → (connect r (send_deferring client env) ≡ (connected ∷ sent env ∷ closed ∷ [], ok tt))
      × (client.send env ≡ ok tt)
deferring-ok client (ok u) env h =
    (ap (λ (r : Result (Unit {0})). (connected ∷ sent env ∷ closed ∷ [], r)) h, h)
deferring-ok client (err e) env h = cc
deferring-ok client panic env h = cc

module _ (m : Host) where
  -- Where the header of the envelope is missing, of another type or without a channel, and the
  -- orderer can be connected to, `Update` sends nil to it and closes, and the first two calls of
  -- `Create` are connecting and sending nil too; both return what sending nil returns.
  pub update-Unfit :
      (signer : Signer) (ch : ChannelEnvelope) (client : OrdererClient) (env : Envelope)
      (payload : Payload)
      → ch.create_envelope ≡ ok env
      → m.codecs.payload.unmarshal env.payload ≡ ok payload
      → Unfit m payload.header
      → client.get_broadcast_client ≡ ok tt
      → (update m signer ch client ≡ (connected ∷ sent none ∷ closed ∷ [], client.send none))
        × (take 2 (create m signer ch client).0 ≡ connected ∷ sent none ∷ [])
        × ((create m signer ch client).1 ≡ client.send none)
  unfolding update create
  update-Unfit signer ch client env payload made read unfit up =
      let checked = sanity_check-Unfit m env signer ch.channel_id payload read unfit in
      (rw (made, checked, up), rw (made, checked, up) refl, rw (made, checked, up))

module _ (m : Host) (law : AreTxCodecs m.codecs)
    (update_law : IsCodec m.config_update_envelope) where
  -- Where `Update` returns no error, it connected once, sent one envelope that the orderer took, and
  -- closed; the envelope was nil, or carries the update of the given envelope with the signer's
  -- signature added.
  pub update-ok :
      (signer : Signer) (ch : ChannelEnvelope) (client : OrdererClient)
      → (update m signer ch client).1 ≡ ok tt
      → (env : Envelope) × (given : Option Envelope) × (ch.create_envelope ≡ ok env)
        × (update m signer ch client ≡ (connected ∷ sent given ∷ closed ∷ [], ok tt))
        × (client.send given ≡ ok tt)
        × ((given ≡ none)
            ⊎ ((signed : Envelope) × (given ≡ some signed)
                × SignsUpdate m env signer ch.channel_id signed))
  unfolding update
  update-ok signer ch client h =
      let (env, made, run1, h1) = run-ok (wrap "create envelope" ch.create_envelope) _ h in
      let (given, checked, run2, h2) =
        run-ok
          (wrap "sanity check and sign configtx"
            (sanity_check_and_sign_config_tx m env signer ch.channel_id))
          _ h1 in
      let (calls, taken) = deferring-ok client client.get_broadcast_client given h2 in
      (
        env,
        given,
        wrap-eq-ok _ _ made,
        run1 ∙ run2 ∙ calls,
        taken,
        cases env given (wrap-eq-ok _ _ checked),
      )
    where
      cases :
          (env : Envelope) (given : Option Envelope)
          → sanity_check_and_sign_config_tx m env signer ch.channel_id ≡ ok given
          → (given ≡ none)
            ⊎ ((signed : Envelope) × (given ≡ some signed)
                × SignsUpdate m env signer ch.channel_id signed)
      cases env none h = inl refl
      cases env (some signed) h = inr (
        signed,
        refl,
        sanity_check-SignsUpdate m law update_law env signer ch.channel_id signed h,
      )
