-- ===== src/Channel/Joined.antt =====
-- What `Join` of internal/channel/update.go returns for each peer.
use fabricsdk_go.Prelude.{
  String, List, [], ◌∷◌, Option, some, Error, Bytes, Result, ok, err, panic, ◌>>=◌, ◌≡◌, ◌≢◌, refl,
  sym, ◌⊎◌, inl, inr, bind_ok, ok_inj, wrap, wrap-eq-ok, wrapped, pos, codes, arith,
}
use fabricsdk_go.Tx.Messages.{SignedProposal, ProposalResponse, Response, Signer}
use fabricsdk_go.Channel.Listing.{PeerClient, ChannelHost}
use fabricsdk_go.Channel.Joining.{
  create_join_channel_proposal, genesis_bytes, failure, join_one, noted, join_all, join,
}

module _ {L I : Type 0} (m : ChannelHost L I) (show : Error → String) where
  -- The peer is sent the proposal to join the channel of the block, and answers with a response.
  abbrev pub Joins : Signer → Bytes → PeerClient → Option Response → Type 0
  Joins signer bytes p r =
      (endorser : SignedProposal → Result ProposalResponse) × (sent : SignedProposal)
      × (resp : ProposalResponse) × (p.get_endorser ≡ ok endorser)
      × (create_join_channel_proposal m show signer bytes ≡ ok sent)
      × (endorser sent ≡ ok resp)
      × (resp.response ≡ r)

  -- The peer has no endorser, the proposal cannot be made, or the endorser fails.
  abbrev pub Fails : Signer → Bytes → PeerClient → Error → Type 0
  Fails signer bytes p e =
      (p.get_endorser ≡ err e)
      ⊎ ((endorser : SignedProposal → Result ProposalResponse) × (p.get_endorser ≡ ok endorser)
          × ((create_join_channel_proposal m show signer bytes ≡ err e)
              ⊎ ((sent : SignedProposal) × (cause : Error) × (create_join_channel_proposal m show
                      signer bytes
                    ≡ ok sent)
                  × (endorser sent ≡ err cause)
                  × (e ≡ wrapped "process proposal, error: %v" cause))))

  -- One response for each peer, in order: the peer's own, or status 500, the text of the error and
  -- the peer's address.
  abbrev pub Answered : Signer → Bytes → List PeerClient → List (Option Response) → Type 0
  Answered signer bytes [] [] = Unit
  Answered signer bytes [] (r ∷ rs) = ⊥
  Answered signer bytes (p ∷ ps) [] = ⊥
  Answered signer bytes (p ∷ ps) (r ∷ rs) =
      (Joins signer bytes p r
        ⊎ ((e : Error) × Fails signer bytes p e
            × (r
                ≡ some (record { status = pos 500; message = show e; payload = codes p.address }))))
      × Answered signer bytes ps rs

  noted-eq-ok :
      (p : PeerClient) (x : Result (Option Response)) (r : Option Response)
      → noted m show p x ≡ ok r
      → (x ≡ ok r) ⊎ ((e : Error) × (x ≡ err e) × (r ≡ some (failure m show p e)))
  noted-eq-ok p (ok response) r h = inl h
  noted-eq-ok p (err e) r h = inr (e, refl, sym (ok_inj _ r h))
  noted-eq-ok p panic r h = cc

  join_one-Joins :
      (signer : Signer) (bytes : Bytes) (p : PeerClient) (r : Option Response)
      → join_one m show signer bytes p ≡ ok r
      → Joins signer bytes p r
  join_one-Joins signer bytes p r h = bind_ok p.get_endorser _ h λ endorser e1 h1.
      bind_ok (create_join_channel_proposal m show signer bytes) _ h1 λ sent e2 h2.
        bind_ok (wrap "process proposal, error: %v" (endorser sent)) _ h2 λ resp e3 h3.
          (endorser, sent, resp, e1, e2, wrap-eq-ok _ (endorser sent) e3, ok_inj _ r h3)

  join_one-Fails :
      (signer : Signer) (bytes : Bytes) (p : PeerClient) (e : Error)
      → join_one m show signer bytes p ≡ err e
      → Fails signer bytes p e
  join_one-Fails signer bytes p e h =
      by_endorser p.get_endorser (create_join_channel_proposal m show signer bytes) h
    where
      by_answer :
          (x : Result ProposalResponse)
          → (wrap "process proposal, error: %v" x >>= λ r. ok r.response) ≡ err e
          → (cause : Error) × (x ≡ err cause) × (e ≡ wrapped "process proposal, error: %v" cause)
      by_answer (ok r) k = cc
      by_answer (err cause) k = (cause, refl, ground (arith, k))
      by_answer panic k = cc

      by_proposal :
          (endorser : SignedProposal → Result ProposalResponse) (y : Result SignedProposal)
          → (y >>= λ sent.
              wrap "process proposal, error: %v" (endorser sent) >>= λ r. ok r.response)
            ≡ err e
          → (y ≡ err e)
            ⊎ ((sent : SignedProposal) × (cause : Error) × (y ≡ ok sent)
                × (endorser sent ≡ err cause)
                × (e ≡ wrapped "process proposal, error: %v" cause))
      by_proposal endorser (ok sent) k =
          let (cause, failed, is_e) = by_answer (endorser sent) k in
          inr (sent, cause, refl, failed, is_e)
      by_proposal endorser (err e') k = inl (ground (arith, k))
      by_proposal endorser panic k = cc

      by_endorser :
          (x : Result (SignedProposal → Result ProposalResponse)) (y : Result SignedProposal)
          → (x >>= λ endorser. y >>= λ sent.
              wrap "process proposal, error: %v" (endorser sent) >>= λ r. ok r.response)
            ≡ err e
          → (x ≡ err e)
            ⊎ ((endorser : SignedProposal → Result ProposalResponse) × (x ≡ ok endorser)
                × ((y ≡ err e)
                    ⊎ ((sent : SignedProposal) × (cause : Error) × (y ≡ ok sent)
                        × (endorser sent ≡ err cause)
                        × (e ≡ wrapped "process proposal, error: %v" cause))))
      by_endorser (ok endorser) y k = inr (endorser, refl, by_proposal endorser y k)
      by_endorser (err e') y k = inl (ground (arith, k))
      by_endorser panic y k = cc

  answered_by :
      (signer : Signer) (bytes : Bytes) (p : PeerClient) (r : Option Response)
      → (join_one m show signer bytes p ≡ ok r)
        ⊎ ((e : Error) × (join_one m show signer bytes p ≡ err e) × (r ≡ some (failure m show p e)))
      → Joins signer bytes p r
        ⊎ ((e : Error) × Fails signer bytes p e
            × (r ≡ some (record { status = pos 500; message = show e; payload = codes p.address })))
  answered_by signer bytes p r (inl h) = inl (join_one-Joins signer bytes p r h)
  answered_by signer bytes p r (inr (e, h, is_r)) = inr (e, join_one-Fails signer bytes p e h, is_r)

  join_all-Answered :
      (signer : Signer) (bytes : Bytes) (ps : List PeerClient) (rs : List (Option Response))
      → join_all m show signer bytes ps ≡ ok rs
      → Answered signer bytes ps rs
  unfolding join_all
  join_all-Answered signer bytes [] rs h = rw (← ok_inj [] rs h) tt
  join_all-Answered signer bytes (p ∷ ps) rs h =
      bind_ok (noted m show p (join_one m show signer bytes p)) _ h λ r e1 h1.
        bind_ok (join_all m show signer bytes ps) _ h1 λ more e2 h2.
          rw (← ok_inj (r ∷ more) rs h2) (
            answered_by signer bytes p r (noted-eq-ok p (join_one m show signer bytes p) r e1),
            join_all-Answered signer bytes ps more e2,
          )

  noted-calm :
      (p : PeerClient) (x : Result (Option Response)) (e : Error) → noted m show p x ≢ err e
  noted-calm p (ok response) e h = cc
  noted-calm p (err e') e h = cc
  noted-calm p panic e h = cc

  join_all-calm :
      (signer : Signer) (bytes : Bytes) (ps : List PeerClient) (e : Error)
      → join_all m show signer bytes ps ≢ err e
  unfolding join_all
  join_all-calm signer bytes [] e h = cc
  join_all-calm signer bytes (p ∷ ps) e h =
      cases (noted m show p (join_one m show signer bytes p)) (join_all m show signer bytes ps)
        (noted-calm p (join_one m show signer bytes p)) (join_all-calm signer bytes ps) h
    where
      cases :
          (x : Result (Option Response)) (y : Result (List (Option Response)))
          → ((e' : Error) → x ≢ err e')
          → ((e' : Error) → y ≢ err e')
          → (x >>= λ r. y >>= λ rs. ok (r ∷ rs)) ≢ err e
      cases (ok r) (ok rs) calm more h = cc
      cases (ok r) (err e') calm more h = more e' refl
      cases (ok r) panic calm more h = cc
      cases (err e') y calm more h = calm e' refl
      cases panic y calm more h = cc

  -- Once the genesis block is there, `Join` does not fail because of a peer: it never returns an
  -- error, and where it does not panic, it returns one response for each peer, in order: the one that
  -- the peer's endorser answers the proposal with, or, where there is no endorser, no proposal or no
  -- answer, one with status 500, the text of that error and the peer's address.
  pub join-Answered :
      (signer : Signer) (ps : List PeerClient) (channel_id : String) (bytes : Bytes)
      → genesis_bytes m show channel_id ≡ ok bytes
      → ((e : Error) → join m show signer ps channel_id ≢ err e)
        × ((join m show signer ps channel_id ≡ panic)
            ⊎ ((rs : List (Option Response)) × (join m show signer ps channel_id ≡ ok rs)
                × Answered signer bytes ps rs))
  unfolding join
  join-Answered signer ps channel_id bytes block = rw (block) (
      cases (join_all m show signer bytes ps) (join_all-calm signer bytes ps)
        (join_all-Answered signer bytes ps))
    where
      cases :
          (x : Result (List (Option Response)))
          → ((e : Error) → x ≢ err e)
          → ((rs : List (Option Response)) → x ≡ ok rs → Answered signer bytes ps rs)
          → ((e : Error) → x ≢ err e)
            × ((x ≡ panic)
                ⊎ ((rs : List (Option Response)) × (x ≡ ok rs) × Answered signer bytes ps rs))
      cases (ok rs) calm answers = (calm, inr (rs, refl, answers rs refl))
      cases (err e) calm answers = absurd (calm e refl)
      cases panic calm answers = (calm, inl refl)
