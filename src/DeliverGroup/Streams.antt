-- ===== src/DeliverGroup/Streams.antt =====
-- How the messages of one peer end the wait of its goroutine (`ClientWait` of
-- internal/client/delivegroup/client.go), told without the loop.
use fabricsdk_go.Prelude.{
  ◌≡◌, ◌≢◌, ◌⊎◌, inl, inr, refl, sym, ap, ◌∙◌, Bool, true, false, str_eq, eq_iff, List, [], ◌∷◌,
  ◌++◌, Option, none, some, Error, message, wrapped, ℤ, int_eq, int_eq_iff, Bool-cases, All,
}
use mathlib.Core.Option.{some-injective}
use fabricsdk_go.DeliverGroup.{
  FilteredTransaction, Received, failed, filtered_block, status, unexpected, Verdict, go_on,
  returns, Wanted, validated, find_transaction, client_wait,
}

module _ (w : Wanted) where
  -- No transaction of a block has the id that is waited for.
  abbrev pub LacksTransaction : List FilteredTransaction → Type 0
  LacksTransaction txs = All (λ tx. tx.txid ≢ w.tx_id) txs

  -- The first transaction of a block with that id has this validation code.
  abbrev pub HasTransaction : List FilteredTransaction → ℤ → Type 0
  HasTransaction txs code =
      (before : List FilteredTransaction) × (tx : FilteredTransaction) × (behind : List
        FilteredTransaction)
      × (txs ≡ before ++ tx ∷ behind)
      × LacksTransaction before
      × (tx.txid ≡ w.tx_id)
      × (tx.tx_validation_code ≡ code)

  -- The messages of a peer end the wait, with this error or with none.
  pub data Ends : List Received → Option Error → Type 0 where
    skips :
        {txs : List FilteredTransaction} {rest : List Received} {e : Option Error}
        → LacksTransaction txs
        → Ends rest e
        → Ends (filtered_block txs ∷ rest) e
    commits :
        {txs : List FilteredTransaction} {rest : List Received}
        → HasTransaction txs w.valid
        → Ends (filtered_block txs ∷ rest) none
    invalidates :
        {txs : List FilteredTransaction} {rest : List Received} {code : ℤ}
        → HasTransaction txs code
        → code ≢ w.valid
        → Ends
            (filtered_block txs ∷ rest)
            (some (message "transaction invalidated with status (%s)"))
    breaks :
        {e : Error} {rest : List Received}
        → Ends (failed e ∷ rest) (some (wrapped "error receiving from deliver filtered at %s" e))
    completes :
        {code : ℤ} {rest : List Received}
        → Ends
            (status code ∷ rest)
            (some (message "deliver completed with status (%s) before txid received"))
    confuses :
        {rest : List Received}
        → Ends (unexpected ∷ rest) (some (message "received unexpected response type (%T) from %s"))

  find-LacksTransaction :
      (txs : List FilteredTransaction) → LacksTransaction txs → find_transaction w txs ≡ go_on
  unfolding find_transaction
  find-LacksTransaction [] lacks = refl
  find-LacksTransaction (tx ∷ txs) (other, lacks) = elim (Bool-cases (str_eq tx.txid w.tx_id)) [
    | inl same ↦ absurd (other ((eq_iff tx.txid w.tx_id).0 same))
    | inr differs ↦ rw (differs) (find-LacksTransaction txs lacks)
  ]

  find-before :
      (before : List FilteredTransaction) (tx : FilteredTransaction)
      (behind : List FilteredTransaction)
      → LacksTransaction before
      → tx.txid ≡ w.tx_id
      → find_transaction w (before ++ tx ∷ behind) ≡ validated w tx.tx_validation_code
  unfolding find_transaction
  find-before [] tx behind lacks same = rw ((eq_iff tx.txid w.tx_id).1 same) refl
  find-before (x ∷ before) tx behind (other, lacks) same =
      elim (Bool-cases (str_eq x.txid w.tx_id)) [
        | inl this ↦ absurd (other ((eq_iff x.txid w.tx_id).0 this))
        | inr differs ↦ rw (differs) (find-before before tx behind lacks same)
      ]

  find-HasTransaction :
      (txs : List FilteredTransaction) (code : ℤ)
      → HasTransaction txs code
      → find_transaction w txs ≡ validated w code
  find-HasTransaction txs code (before, tx, behind, there, lacks, same, coded) =
      ap (find_transaction w) there
      ∙ (find-before before tx behind lacks same ∙ ap (validated w) coded)

  -- A block lacks the transaction, or has it with some code.
  find-cases :
      (txs : List FilteredTransaction)
      → LacksTransaction txs ⊎ ((code : ℤ) × HasTransaction txs code)
  find-cases [] = inl tt
  find-cases (tx ∷ txs) = elim (Bool-cases (str_eq tx.txid w.tx_id)) [
    | inl same ↦
        inr (tx.tx_validation_code, ([], tx, txs, refl, tt, (eq_iff tx.txid w.tx_id).0 same, refl))
    | inr differs ↦ elim (find-cases txs) [
      | inl lacks ↦ inl (other differs, lacks)
      | inr (code, (before, found, behind, there, lacks, same, coded)) ↦ inr (
        code,
        (
          tx ∷ before,
          found,
          behind,
          ap (λ (t : List FilteredTransaction). tx ∷ t) there,
          (other differs, lacks),
          same,
          coded,
        ),
      )
    ]
  ]
    where
      apart : (b : Bool) → b ≡ false → b ≡ true → ⊥
      apart true h k = cc
      apart false h k = cc

      other : str_eq tx.txid w.tx_id ≡ false → tx.txid ≢ w.tx_id
      other differs same = apart _ differs ((eq_iff tx.txid w.tx_id).1 same)

  validated-valid : validated w w.valid ≡ returns none
  validated-valid = rw ((int_eq_iff w.valid w.valid).1 refl) refl

  validated-other :
      (code : ℤ)
      → code ≢ w.valid
      → validated w code ≡ returns (some (message "transaction invalidated with status (%s)"))
  validated-other code other = elim (Bool-cases (int_eq code w.valid)) [
    | inl same ↦ absurd (other ((int_eq_iff code w.valid).0 same))
    | inr differs ↦ rw (differs) refl
  ]

  -- The code is the valid one, or it is not.
  code_cases : (code : ℤ) → (code ≡ w.valid) ⊎ (code ≢ w.valid)
  code_cases code = elim (Bool-cases (int_eq code w.valid)) [
    | inl same ↦ inl ((int_eq_iff code w.valid).0 same)
    | inr differs ↦ inr λ same. apart _ differs ((int_eq_iff code w.valid).1 same)
  ]
    where
      apart : (b : Bool) → b ≡ false → b ≡ true → ⊥
      apart true h k = cc
      apart false h k = cc

  -- What the rounds of the loop make of a stream of messages, if they come to an end.
  abbrev pub decide : Verdict → Option (Option Error) → Option (Option Error)
  decide go_on later = later
  decide (returns e) later = some e

  unfoldable pub verdict_of : List Received → Option (Option Error)
  verdict_of [] = none
  verdict_of (m ∷ rest) = decide (client_wait w m) (verdict_of rest)

  -- The rounds end with what the messages say.
  pub Ends-verdict_of :
      {stream : List Received} {e : Option Error} → Ends stream e → verdict_of stream ≡ some e
  unfolding verdict_of client_wait
  Ends-verdict_of (skips lacks later) = rw (find-LacksTransaction _ lacks) (Ends-verdict_of later)
  Ends-verdict_of (commits has) = rw (find-HasTransaction _ _ has, validated-valid) refl
  Ends-verdict_of (invalidates has other) =
      rw (find-HasTransaction _ _ has, validated-other _ other) refl
  Ends-verdict_of breaks = refl
  Ends-verdict_of completes = refl
  Ends-verdict_of confuses = refl

  pub verdict_of-Ends :
      (stream : List Received) (e : Option Error) → verdict_of stream ≡ some e → Ends stream e
  unfolding verdict_of client_wait
  verdict_of-Ends [] e h = cc
  verdict_of-Ends (failed x ∷ rest) e h = rw (← some-injective _ e h) breaks
  verdict_of-Ends (status code ∷ rest) e h = rw (← some-injective _ e h) completes
  verdict_of-Ends (unexpected ∷ rest) e h = rw (← some-injective _ e h) confuses
  verdict_of-Ends (filtered_block txs ∷ rest) e h = elim (find-cases txs) [
    | inl lacks ↦ skips lacks (
        verdict_of-Ends rest e
          (sym (ap (λ v. decide v (verdict_of rest)) (find-LacksTransaction txs lacks)) ∙ h))
    | inr (code, has) ↦ by_code code has (code_cases code)
  ]
    where
      found :
          (code : ℤ)
          → HasTransaction txs code
          → decide (validated w code) (verdict_of rest) ≡ some e
      found code has =
          sym (ap (λ v. decide v (verdict_of rest)) (find-HasTransaction txs code has)) ∙ h

      by_code :
          (code : ℤ)
          → HasTransaction txs code
          → (code ≡ w.valid) ⊎ (code ≢ w.valid)
          → Ends (filtered_block txs ∷ rest) e
      by_code code has (inl valid) =
          let has_valid : HasTransaction txs w.valid = rw (← valid) has in
          let is_e : none ≡ e = some-injective none e (
            sym (ap (λ v. decide v (verdict_of rest)) validated-valid) ∙ found w.valid has_valid) in
          rw (← is_e) (commits has_valid)
      by_code code has (inr other) =
          let is_e = some-injective _ e (
            sym (ap (λ v. decide v (verdict_of rest)) (validated-other code other))
            ∙ found code has) in
          rw (← is_e) (invalidates has other)
