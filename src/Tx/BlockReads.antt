-- ===== src/Tx/BlockReads.antt =====
-- What is read from a block, and that no index is out of range.
use fabricsdk_go.Prelude.{
  String, ℕ, zero, suc, ◌≡◌, ◌≢◌, ◌↔◌, ◌⊎◌, inl, inr, refl, sym, ◌∙◌, Bool, true, false, List, [],
  ◌∷◌, Option, none, some, Bytes, is_empty, Result, ok, err, panic, wrap, wrap-eq-ok, guard,
  guard-eq-ok, required, deref, ◌>>=◌, ◌>>◌, ltb, length, ℤ, pos, negsuc, arith, if◌then◌else◌,
  Bool-cases,
}
use fabricsdk_go.Tx.Messages.{TxCodecs}
use fabricsdk_go.Tx.Marshal.{unmarshal_envelope}
use fabricsdk_go.Tx.Block.{
  Block, BlockCodecs, OrdererBlockMetadata, in_range, entry, extract_envelope,
  get_metadata_from_block, get_last_config_index_from_block,
}

entry-in_range :
    (entries : List Bytes) (index : ℤ)
    → in_range index (length entries) ≡ true
    → (x : Bytes) × (entry entries index ≡ ok x)
entry-in_range [] (pos i) h = absurd (ground (arith, h))
entry-in_range (x ∷ entries) (pos zero) h = (x, refl)
entry-in_range (x ∷ entries) (pos (suc i)) h = entry-in_range entries (pos i) (ground (arith, h))
entry-in_range entries (negsuc i) h = cc

module _ (p : TxCodecs) where
  -- Where the envelope codec does not panic, `ExtractEnvelope` panics on no block and no index.
  pub extract_envelope-safe :
      ((bytes : Bytes) → p.envelope.unmarshal bytes ≢ panic)
      → (block : Block) (index : ℤ) → extract_envelope p block index ≢ panic
  unfolding extract_envelope unmarshal_envelope
  extract_envelope-safe calm block index h = by_entries block.data_entries h
    where
      by_entries :
          (o : Option (List Bytes))
          → (do
            entries ← required "block data is nil" o
            guard (in_range index (length entries)) "envelope index out of bounds"
            marshaled ← entry entries index
            wrap "block data does not carry an envelope at index %d"
                (unmarshal_envelope p marshaled))
            ≡ panic
          → ⊥
      by_entries none h = cc
      by_entries (some entries) h = elim (Bool-cases (in_range index (length entries))) [
        | inl e ↦
            let (x, there) = entry-in_range entries index e in ground (arith, e, there, calm x, h)
        | inr e ↦ ground (arith, e, h)
      ]

-- The signature metadata of a block reads as orderer metadata without a last configuration.
pub record LastConfigMissing (b : BlockCodecs) (block : Block) : Type 0 where
  pub value : Bytes
  pub value_read : get_metadata_from_block b block b.signatures_index ≡ ok value
  pub full : is_empty value ≡ false
  pub obm : OrdererBlockMetadata
  pub obm_read : b.orderer_block_metadata.unmarshal value ≡ ok obm
  pub none_there : obm.last_config ≡ none

-- The codecs of a block's metadata do not panic.
pub record AreCalm (b : BlockCodecs) : Type 0 where
  pub metadata_calm : (bytes : Bytes) → b.metadata.unmarshal bytes ≢ panic
  pub last_config_calm : (bytes : Bytes) → b.last_config.unmarshal bytes ≢ panic
  pub orderer_calm : (bytes : Bytes) → b.orderer_block_metadata.unmarshal bytes ≢ panic

bind-panic :
    {A B : Type 0} (m : Result A) (f : A → Result B)
    → (m >>= f) ≡ panic
    → (m ≡ panic) ⊎ ((a : A) × (m ≡ ok a) × (f a ≡ panic))
bind-panic (ok a) f h = inr (a, refl, h)
bind-panic (err e) f h = cc
bind-panic panic f h = inl refl

wrap-panic : {A : Type 0} (text : String) (m : Result A) → wrap text m ≡ panic → m ≡ panic
wrap-panic text (ok a) h = cc
wrap-panic text (err e) h = cc
wrap-panic text panic h = refl

guard-panic : (x : Bool) (text : String) → guard x text ≢ panic
guard-panic true text h = cc
guard-panic false text h = cc

required-panic : {A : Type 0} (text : String) (o : Option A) → required text o ≢ panic
required-panic text none h = cc
required-panic text (some a) h = cc

module _ (b : BlockCodecs) (calm : AreCalm b) where
  get_metadata-safe : (block : Block) (index : ℕ) → get_metadata_from_block b block index ≢ panic
  unfolding get_metadata_from_block
  get_metadata-safe block index h =
      elim (bind-panic (required "no metadata in block" block.metadata_entries) _ h) [
        | inl e ↦ required-panic _ block.metadata_entries e
        | inr (entries, e1, h1) ↦ elim (bind-panic (guard (ltb index (length entries)) _) _ h1) [
          | inl e ↦ guard-panic (ltb index (length entries)) _ e
          | inr (u, e2, h2) ↦
              let (x, there) = entry-in_range entries (pos index) (guard-eq-ok _ _ e2) in
              elim (bind-panic (entry entries (pos index)) _ h2) [
                | inl e ↦ ok_not-panic (sym there ∙ e)
                | inr (y, e3, h3) ↦ calm.metadata_calm y (wrap-panic _ (b.metadata.unmarshal y) h3)
              ]
        ]
      ]
    where
      ok_not-panic : {x : Bytes} → ok x ≢ panic
      ok_not-panic h = cc

  -- Where the codecs do not panic, `GetLastConfigIndexFromBlock` panics exactly of a block whose
  -- signature metadata reads as orderer metadata without a last configuration.
  pub get_last_config_index-panic_iff :
      (block : Block)
      → (get_last_config_index_from_block b block ≡ panic) ↔ LastConfigMissing b block
  unfolding get_last_config_index_from_block
  get_last_config_index-panic_iff block = (λ h. there h, λ missing. back missing)
    where
      back : LastConfigMissing b block → get_last_config_index_from_block b block ≡ panic
      back x = rw (x.value_read, x.full, x.obm_read, x.none_there)

      by_value :
          (value : Bytes)
          → get_metadata_from_block b block b.signatures_index ≡ ok value
          → (empty : Bool) → is_empty value ≡ empty
          → (if empty
              then (do
                v ←
                    wrap "failed to retrieve metadata"
                      (get_metadata_from_block b block b.last_config_index)
                wrap "error unmarshaling LastConfig" (b.last_config.unmarshal v))
              else (do
                obm ←
                    wrap "failed to unmarshal orderer block metadata"
                      (b.orderer_block_metadata.unmarshal value)
                deref obm.last_config))
            ≡ panic
          → LastConfigMissing b block
      by_value value read true e h =
          elim (bind-panic
            (wrap "failed to retrieve metadata"
              (get_metadata_from_block b block b.last_config_index))
            _ h) [
              | inl p ↦ absurd (get_metadata-safe block b.last_config_index (wrap-panic _ _ p))
              | inr (v, e1, h1) ↦ absurd (calm.last_config_calm v (wrap-panic _ _ h1))
            ]
      by_value value read false e h =
          elim (bind-panic
            (wrap "failed to unmarshal orderer block metadata"
              (b.orderer_block_metadata.unmarshal value))
            _ h) [
              | inl p ↦ absurd (calm.orderer_calm value (wrap-panic _ _ p))
              | inr (obm, e1, h1) ↦ record {
                value = value;
                value_read = read;
                full = e;
                obm = obm;
                obm_read = wrap-eq-ok _ _ e1;
                none_there = deref-panic obm.last_config h1;
              }
            ]
        where
          deref-panic : (o : Option ℕ) → deref o ≡ panic → o ≡ none
          deref-panic none h = refl
          deref-panic (some n) h = cc

      there : get_last_config_index_from_block b block ≡ panic → LastConfigMissing b block
      there h =
          elim (bind-panic
            (wrap "failed to retrieve metadata"
              (get_metadata_from_block b block b.signatures_index))
            _ h) [
              | inl p ↦ absurd (get_metadata-safe block b.signatures_index (wrap-panic _ _ p))
              | inr (value, e1, h1) ↦ by_value value (wrap-eq-ok _ _ e1) (is_empty value) refl h1
            ]
