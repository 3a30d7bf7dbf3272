-- ===== src/Tx/BlockConfig.antt =====
-- When a block is one of configuration.
use fabricsdk_go.Prelude.{
  required-eq-ok, ◌≡◌, ◌↔◌, ◌⊎◌, inl, inr, int_eq, int_eq_iff, ◌||◌, refl, Bool, true, false, List,
  [], ◌∷◌, some, Bytes, Result, ok, err, panic, wrap, wrap-eq-ok, guard, required, bind_ok, ok_inj,
  ◌>>=◌, ◌>>◌, ltb, length, pos, arith,
}
use fabricsdk_go.Tx.Messages.{Header, ChannelHeader, Payload, Envelope, TxCodecs}
use fabricsdk_go.Tx.Marshal.{unmarshal_envelope, unmarshal_payload, unmarshal_channel_header}
use fabricsdk_go.Tx.Block.{
  Block, BlockCodecs, in_range, entry, extract_envelope, is_config_block, is_config_type, or_false,
}

-- The first envelope of a block has a header whose type is that of a configuration or of an orderer
-- transaction.
pub record IsConfig (p : TxCodecs) (b : BlockCodecs) (block : Block) : Type 0 where
  pub first : Bytes
  pub rest : List Bytes
  pub entries : block.data_entries ≡ some (first ∷ rest)
  pub envelope : Envelope
  pub envelope_read : p.envelope.unmarshal first ≡ ok envelope
  pub payload : Payload
  pub payload_read : p.payload.unmarshal envelope.payload ≡ ok payload
  pub header : Header
  pub header_there : payload.header ≡ some header
  pub channel : ChannelHeader
  pub channel_read : p.channel_header.unmarshal header.channel_header ≡ ok channel
  pub of_type : (channel.type ≡ b.config) ⊎ (channel.type ≡ b.orderer_transaction)

is_config_type-there :
    (p : TxCodecs) (b : BlockCodecs) (hdr : ChannelHeader)
    → is_config_type p b hdr ≡ true
    → (hdr.type ≡ b.config) ⊎ (hdr.type ≡ b.orderer_transaction)
is_config_type-there p b hdr h =
    cases (int_eq hdr.type b.config) (int_eq hdr.type b.orderer_transaction)
      (int_eq_iff hdr.type b.config).0 (int_eq_iff hdr.type b.orderer_transaction).0 h
  where
    cases :
        (x y : Bool)
        → (x ≡ true → hdr.type ≡ b.config)
        → (y ≡ true → hdr.type ≡ b.orderer_transaction)
        → (x || y) ≡ true
        → (hdr.type ≡ b.config) ⊎ (hdr.type ≡ b.orderer_transaction)
    cases true y f g h = inl (f refl)
    cases false true f g h = inr (g refl)
    cases false false f g h = cc

is_config_type-true :
    (p : TxCodecs) (b : BlockCodecs) (hdr : ChannelHeader)
    → (hdr.type ≡ b.config) ⊎ (hdr.type ≡ b.orderer_transaction)
    → is_config_type p b hdr ≡ true
is_config_type-true p b hdr (inl same) = rw ((int_eq_iff hdr.type b.config).1 same) refl
is_config_type-true p b hdr (inr same) =
    rw ((int_eq_iff hdr.type b.orderer_transaction).1 same) (or_true (int_eq hdr.type b.config))
  where
    or_true : (x : Bool) → (x || true) ≡ true
    or_true true = refl
    or_true false = refl

or_false-true : (r : Result Bool) → or_false r ≡ ok true → r ≡ ok true
or_false-true (ok x) h = h
or_false-true (err e) h = cc
or_false-true panic h = cc

module _ (p : TxCodecs) where
  extract_first :
      (block : Block) (env : Envelope)
      → extract_envelope p block (pos 0) ≡ ok env
      → (first : Bytes) × (rest : List Bytes) × (block.data_entries ≡ some (first ∷ rest))
        × (p.envelope.unmarshal first ≡ ok env)
  unfolding extract_envelope unmarshal_envelope
  extract_first block env h =
      bind_ok (required "block data is nil" block.data_entries) _ h
        λ entries e1 h1. by_entries entries (required-eq-ok _ block.data_entries e1) h1
    where
      by_entries :
          (entries : List Bytes)
          → block.data_entries ≡ some entries
          → (do
            guard (in_range (pos 0) (length entries)) "envelope index out of bounds"
            marshaled ← entry entries (pos 0)
            wrap "block data does not carry an envelope at index %d"
                (unmarshal_envelope p marshaled))
            ≡ ok env
          → (first : Bytes) × (rest : List Bytes) × (block.data_entries ≡ some (first ∷ rest))
            × (p.envelope.unmarshal first ≡ ok env)
      by_entries [] e h = cc
      by_entries (x ∷ xs) e h =
          bind_ok (guard (in_range (pos 0) (length (x ∷ xs))) "envelope index out of bounds") _ h
            λ _ e1 h1. bind_ok (entry (x ∷ xs) (pos 0)) _ h1 λ y e2 h2.
              let same : y ≡ x = ground (arith, e2) in
              let read : unmarshal_envelope p y ≡ ok env =
                wrap-eq-ok "block data does not carry an envelope at index %d"
                  (unmarshal_envelope p y) h2 in
              (
                x,
                xs,
                e,
                rw (← same)
                    (wrap-eq-ok "error unmarshaling Envelope" (p.envelope.unmarshal y) read),
              )

-- `IsConfigBlock` is true exactly of the blocks whose first envelope has a header of the type of a
-- configuration or of an orderer transaction.
pub is_config_block_iff :
    (p : TxCodecs) (b : BlockCodecs) (block : Block)
    → (is_config_block p b block ≡ ok true) ↔ IsConfig p b block
unfolding is_config_block extract_envelope unmarshal_envelope unmarshal_payload
    unmarshal_channel_header
is_config_block_iff p b block = (λ h. there h, λ c. back c)
  where
    back : IsConfig p b block → is_config_block p b block ≡ ok true
    back c =
        let first_there : ltb 0 (length (c.first ∷ c.rest)) ≡ true = ground arith in
        rw (
          c.entries,
          first_there,
          c.envelope_read,
          c.payload_read,
          c.header_there,
          c.channel_read,
          is_config_type-true p b c.channel c.of_type,
        )

    there : is_config_block p b block ≡ ok true → IsConfig p b block
    there h = bind_ok (extract_envelope p block (pos 0)) _ (or_false-true _ h) λ envelope e1 h1.
        bind_ok (unmarshal_payload p envelope.payload) _ h1 λ payload e2 h2.
          bind_ok (required "" payload.header) _ h2 λ header e3 h3.
            bind_ok (unmarshal_channel_header p header.channel_header) _ h3 λ hdr e4 h4.
              let (first, rest, entries, read) = extract_first p block envelope e1 in
              record {
                first = first;
                rest = rest;
                entries = entries;
                envelope = envelope;
                envelope_read = read;
                payload = payload;
                payload_read = wrap-eq-ok _ _ e2;
                header = header;
                header_there = required-eq-ok _ payload.header e3;
                channel = hdr;
                channel_read = wrap-eq-ok _ _ e4;
                of_type = is_config_type-there p b hdr (ok_inj (is_config_type p b hdr) true h4);
              }
