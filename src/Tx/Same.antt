-- ===== src/Tx/Same.antt =====
-- The two functions that build a signed transaction do the same, up to the texts of errors.
use fabricsdk_go.Prelude.{◌≡◌, refl, List, [], ◌∷◌, Result, ok, err, panic, arith}
use fabricsdk_go.Tx.Messages.{TxCodecs, Proposal, ProposalResponse, Signer}
use fabricsdk_go.Tx.Sign.{create_signed_tx, utils_create_signed_tx}

-- What a caller that does not read the text of an error sees.
pub data Outcome (A : Type 0) : Type 0 where
  returned : A → Outcome A
  failed panicked : Outcome A

abbrev pub outcome : {A : Type 0} → Result A → Outcome A
outcome (ok a) = returned a
outcome (err e) = failed
outcome panic = panicked

-- On the same proposal, signer and responses `createSignedTx` and `CreateSignedTx` return the same
-- envelope, or both return an error, or both panic.
pub create_signed_tx-same :
    (p : TxCodecs) (proposal : Proposal) (signer : Signer) (resps : List ProposalResponse)
    → outcome (create_signed_tx p proposal signer resps)
      ≡ outcome (utils_create_signed_tx p proposal signer resps)
unfolding create_signed_tx utils_create_signed_tx
create_signed_tx-same p proposal signer [] = refl
create_signed_tx-same p proposal signer (r ∷ resps) = ground arith
