-- ===== src/Lifecycle/Errors.antt =====
-- What a collection configuration that cannot be read does to an approval and to a commit.
use fabricsdk_go.Prelude.{
  ◌≡◌, ◌≢◌, refl, ap, ◌∙◌, false, String, List, [], ◌∷◌, Option, none, Bytes, is_empty, Result, ok,
  err, panic, Error, wrapped, bind_ok, if◌then◌else◌,
}
use fabricsdk_go.Tx.Messages.{Proposal, Signer}
use fabricsdk_go.Lifecycle.Collections.{CollectionConfig, get_collection_config_from_bytes}
use fabricsdk_go.Lifecycle.Policy.{create_policy_bytes}
use fabricsdk_go.Lifecycle.Propose.{
  ApproveChaincodeRequest, CommitChaincodeRequest, LifecycleHost, create_approve_chaincode_proposal,
  create_commit_proposal, approve_parts, approve_with, collections_of, checked,
}

is_empty-false : (b : Bytes) → b ≢ [] → is_empty b ≡ false
is_empty-false [] h = absurd (h refl)
is_empty-false (x ∷ b) h = refl

module _ {P : Type 0} (m : LifecycleHost P) where
  unparsed :
      (bytes : Bytes) (e : Error)
      → m.parse_collections bytes ≡ err e
      → collections_of m bytes
        ≡ (none, err (wrapped "could not parse the collection configuration" e))
  unfolding get_collection_config_from_bytes
  unparsed bytes e h = rw h

  parts_same :
      (req : ApproveChaincodeRequest) {e : Error}
      → is_empty req.collection_config ≡ false
      → collections_of m req.collection_config ≡ (none, err e)
      → approve_parts m req ≡ approve_parts m (record req { collection_config = [] })
  parts_same req full bad = rw (full, bad) refl

  approve_same :
      (signer : Signer) (req : ApproveChaincodeRequest) (channel_id : String)
      (r : Result (Bytes × Option (List (CollectionConfig P))))
      → (approve_with m signer req channel_id r).0
        ≡ (approve_with m signer (record req { collection_config = [] }) channel_id r).0
  approve_same signer req channel_id (ok parts) = refl
  approve_same signer req channel_id (err e) = refl
  approve_same signer req channel_id panic = refl

  -- Where the collection configuration does not parse, an approval is proposed exactly as if none had
  -- been given, while a commit of the same configuration is not proposed.
  pub create_approve-unparsed :
      (signer : Signer) (req : ApproveChaincodeRequest) (cr : CommitChaincodeRequest)
      (channel_id : String) (e : Error) (made : Proposal × String)
      → m.parse_collections req.collection_config ≡ err e
      → cr.collection_config ≡ req.collection_config
      → req.collection_config ≢ []
      → ((create_approve_chaincode_proposal m signer req channel_id).0
          ≡ (create_approve_chaincode_proposal m signer
              (record req { collection_config = [] })
              channel_id).0)
        × (create_commit_proposal m signer cr channel_id ≢ ok made)
  unfolding create_approve_chaincode_proposal create_commit_proposal
  create_approve-unparsed signer req cr channel_id e made h same there =
      let full = is_empty-false req.collection_config there in
      let bad = unparsed req.collection_config e h in
      (
        ap (λ r. (approve_with m signer req channel_id r).0) (parts_same req full bad)
            ∙ approve_same signer req channel_id
                (approve_parts m (record req { collection_config = [] })),
        λ commit.
            bind_ok
              (create_policy_bytes m.from_string m.marshal_policy cr.sign_policy
                cr.channel_config_policy)
              _ commit
              λ pb e1 h1.
                bind_ok
                  (if is_empty cr.collection_config
                    then ok none
                    else checked m (collections_of m cr.collection_config))
                  _ h1 λ ccp e2 h2. err_not-ok (rw (same, full, bad) at e2),
      )
    where
      err_not-ok : {A : Type 0} {x : Error} {a : A} → err x ≢ ok a
      err_not-ok h = cc
