-- ===== src/Lifecycle/Sent.antt =====
-- When an envelope is sent to the orderer by internal/chaincode: config.go, commit.go and invoke.go.
use fabricsdk_go.Prelude.{
  Bool, true, false, String, List, [], ◌∷◌, ◌++◌, some, Result, ok, err, panic, wrap, guard, deref,
  ◌≡◌, refl, ap, ◌∙◌, arith, ℤ, is_positive, int_eq, int_eq_iff, if◌then◌else◌, Any, ◌⊎◌, inl, inr,
  bind_ok, ok_inj, wrap-eq-ok, guard-eq-ok, deref-eq-ok,
}
use fabricsdk_go.Tx.Messages.{
  Proposal, SignedProposal, ProposalResponse, Response, Envelope, Signer, TxCodecs,
}
use fabricsdk_go.Tx.Marshal.{get_signed_proposal}
use fabricsdk_go.Tx.Sign.{create_signed_tx}
use fabricsdk_go.Lifecycle.Propose.{CommitChaincodeRequest, LifecycleHost, create_commit_proposal}
use fabricsdk_go.Lifecycle.Sending.{
  Endorser, Network, CommonFactory, Call, opening, listening, waiting, sending, then_calls, quiet,
  close_after, transmit, listen, await, broadcast_proposal_envelope, Outcome, first, endorse_all,
  committed, commit,
}

-- An envelope is among the calls.
abbrev pub Sends : Envelope → List Call → Type 0
Sends env calls = Any (λ c. c ≡ sending env) calls

Sends-append :
    (env : Envelope) (xs ys : List Call) → Sends env (xs ++ ys) → Sends env xs ⊎ Sends env ys
Sends-append env [] ys h = inr h
Sends-append env (x ∷ xs) ys (inl h) = inl (inl h)
Sends-append env (x ∷ xs) ys (inr h) = elim (Sends-append env xs ys h) [
  | inl a ↦ inl (inr a)
  | inr b ↦ inr b
]

then_calls-Sends :
    {A B : Type 0} (env : Envelope) (x : List Call × Result A) (next : A → List Call × Result B)
    → Sends env (then_calls x next).0
    → Sends env x.0 ⊎ ((a : A) × (x.1 ≡ ok a) × Sends env (next a).0)
then_calls-Sends env (calls, ok a) next h = elim (Sends-append env calls (next a).0 h) [
  | inl s ↦ inl s
  | inr s ↦ inr (a, refl, s)
]
then_calls-Sends env (calls, err e) next h = inl h
then_calls-Sends env (calls, panic) next h = inl h

not_opening : (env : Envelope) → Sends env (opening ∷ []) → ⊥
not_opening env (inl h) = cc
not_opening env (inr h) = h

not_listening : (env : Envelope) (net : Network) (t : ℤ) → Sends env (listen net t).0 → ⊥
not_listening env net t h = cases (is_positive t) h
  where
    cases :
        (b : Bool)
        → Sends env
            (if b
              then (listening ∷ [], wrap "fail to connect deliver group" net.connect_group)
              else quiet (ok tt)).0
        → ⊥
    cases true (inl h) = cc
    cases true (inr h) = h
    cases false h = h

not_waiting : (env : Envelope) (net : Network) (t : ℤ) → Sends env (await net t).0 → ⊥
not_waiting env net t h = cases (is_positive t) h
  where
    cases :
        (b : Bool)
        → Sends env
            (if b
              then (waiting ∷ [], wrap "fail to wait for delivering" net.wait_group)
              else quiet (ok tt)).0
        → ⊥
    cases true (inl h) = cc
    cases true (inr h) = h
    cases false h = h

not_closing : (env : Envelope) (r : Result (Unit {0})) → Sends env (close_after r) → ⊥
not_closing env (ok u) (inl h) = cc
not_closing env (ok u) (inr h) = h
not_closing env (err e) (inl h) = cc
not_closing env (err e) (inr h) = h
not_closing env panic h = h

transmit-Sends :
    (env sent : Envelope) (net : Network) → Sends env (transmit net sent).0 → sent ≡ env
transmit-Sends env sent net (inl h) = ground (arith, h)
transmit-Sends env sent net (inr h) = absurd (not_closing env (net.send sent) h)

-- Only the envelope that `createSignedTx` makes of the responses is broadcast.
pub broadcast-Sends :
    (p : TxCodecs) (signer : Signer) (proposal : Proposal) (net : Network) (t : ℤ)
    (responses : List ProposalResponse) (env : Envelope)
    → Sends env (broadcast_proposal_envelope p signer proposal net t responses).0
    → create_signed_tx p proposal signer responses ≡ ok env
unfolding broadcast_proposal_envelope
broadcast-Sends p signer proposal net t responses env h =
    elim (then_calls-Sends env (quiet (create_signed_tx p proposal signer responses)) _ h) [
      | inl none_yet ↦ absurd none_yet
      | inr (made, is_made, h1) ↦
          elim (then_calls-Sends env (opening ∷ [], net.get_broadcast_client) _ h1) [
            | inl s ↦ absurd (not_opening env s)
            | inr (u, e2, h2) ↦ elim (then_calls-Sends env (listen net t) _ h2) [
              | inl s ↦ absurd (not_listening env net t s)
              | inr (u, e3, h3) ↦ elim (then_calls-Sends env (transmit net made) _ h3) [
                | inl s ↦ is_made ∙ ap ok (transmit-Sends env made net s)
                | inr (u, e4, h4) ↦ absurd (not_waiting env net t h4)
              ]
            ]
          ]
    ]

pub first-Sends :
    {A : Type 0} (env : Envelope) (r : Result A) (next : A → Outcome)
    → Sends env (first r next).0
    → (a : A) × (r ≡ ok a) × Sends env (next a).0
first-Sends env (ok a) next h = (a, refl, h)
first-Sends env (err e) next h = absurd h
first-Sends env panic next h = absurd h

-- Each endorser answered the proposal with a successful response, in this order.
abbrev pub Endorsed : ℤ → SignedProposal → List Endorser → List ProposalResponse → Type 0
Endorsed success signed_prop [] [] = Unit
Endorsed success signed_prop [] (r ∷ rs) = ⊥
Endorsed success signed_prop (e ∷ es) [] = ⊥
Endorsed success signed_prop (e ∷ es) (r ∷ rs) =
    ((response : Response) × (e signed_prop ≡ ok r)
      × (r.response ≡ some response)
      × (response.status ≡ success))
    × Endorsed success signed_prop es rs

module _ {P : Type 0} (m : LifecycleHost P) (success : ℤ) where
  endorse_all-Endorsed :
      (es : List Endorser) (signed_prop : SignedProposal) (rs : List ProposalResponse)
      → endorse_all m success es signed_prop ≡ ok rs
      → Endorsed success signed_prop es rs
  unfolding endorse_all
  endorse_all-Endorsed [] signed_prop rs h = rw (← ok_inj [] rs h) tt
  endorse_all-Endorsed (e ∷ es) signed_prop rs h = bind_ok (wrap _ (e signed_prop)) _ h λ r e1 h1.
      bind_ok (deref r.response) _ h1 λ response e2 h2.
        bind_ok (guard (int_eq response.status success) _) _ h2 λ u e3 h3.
          bind_ok (endorse_all m success es signed_prop) _ h3 λ more e4 h4.
            rw (← ok_inj (r ∷ more) rs h4) (
              (
                response,
                wrap-eq-ok _ (e signed_prop) e1,
                deref-eq-ok r.response e2,
                (int_eq_iff response.status success).0
                    (guard-eq-ok (int_eq response.status success) _ e3),
              ),
              endorse_all-Endorsed es signed_prop more e4,
            )

  committed-calls :
      (tx_id : String) (rs : List ProposalResponse) (x : List Call × Result (Unit {0}))
      → (committed m success tx_id rs x).0 ≡ x.0
  committed-calls tx_id rs (calls, ok u) = refl
  committed-calls tx_id rs (calls, err e) = refl
  committed-calls tx_id rs (calls, panic) = refl

  -- What `Commit` sends to the orderer, if it sends anything, is the transaction that `createSignedTx`
  -- makes of the commit proposal and the responses of all endorsers, each of which answered the signed
  -- proposal with the status of success.
  pub commit-Sends :
      (signer : Signer) (cf : CommonFactory) (req : CommitChaincodeRequest) (channel_id : String)
      (env : Envelope)
      → Sends env (commit m success signer cf req channel_id).0
      → (proposal : Proposal) × (tx_id : String) × (signed_prop : SignedProposal) × (rs : List
          ProposalResponse)
        × (create_commit_proposal m signer req channel_id ≡ ok (proposal, tx_id))
        × (get_signed_proposal m.machine.codecs proposal signer ≡ ok signed_prop)
        × Endorsed success signed_prop cf.endorsers rs
        × (create_signed_tx m.machine.codecs proposal signer rs ≡ ok env)
  unfolding commit
  commit-Sends signer cf req channel_id env h =
      let (made, e1, h1) = first-Sends env (create_commit_proposal m signer req channel_id) _ h in
      let (signed_prop, e2, h2) =
        first-Sends env (get_signed_proposal m.machine.codecs made.0 signer) _ h1 in
      let (rs, e3, h3) = first-Sends env (endorse_all m success cf.endorsers signed_prop) _ h2 in
      let x =
        broadcast_proposal_envelope m.machine.codecs signer made.0 cf.network
          req.wait_for_event_timeout rs in
      (
        made.0,
        made.1,
        signed_prop,
        rs,
        e1,
        e2,
        endorse_all-Endorsed cf.endorsers signed_prop rs e3,
        broadcast-Sends m.machine.codecs signer made.0 cf.network req.wait_for_event_timeout rs env
            (rw (← committed-calls made.1 rs x) h3),
      )
