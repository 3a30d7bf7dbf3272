-- ===== src/Tx/Block.antt =====
-- Envelopes and metadata of a block: internal/utils/common.go and internal/utils/blockutil.go. The
-- messages and numbers of the protobuf library's blocks are parameters.
use fabricsdk_go.Prelude.{
  ℕ, Bool, false, ◌||◌, List, Option, Bytes, is_empty, Result, ok, err, panic, wrap, guard,
  required, deref, ◌>>=◌, ◌>>◌, ltb, length, get_elem?, ℤ, pos, negsuc, int_eq, if◌then◌else◌,
}
use fabricsdk_go.Proto.{Codec}
use fabricsdk_go.Tx.Messages.{ChannelHeader, Payload, Envelope, TxCodecs}
use fabricsdk_go.Tx.Marshal.{unmarshal_envelope, unmarshal_payload, unmarshal_channel_header}

-- `common.Block`: the entries of its data and of its metadata, each of which may be nil.
pub record Block : Type 0 where
  pub data_entries : Option (List Bytes)
  pub metadata_entries : Option (List Bytes)

-- `common.OrdererBlockMetadata`, with the index of its last configuration.
pub record OrdererBlockMetadata : Type 0 where
  pub last_config : Option ℕ

-- The value of `common.Metadata`, the index of `common.LastConfig`, and the library's numbers.
pub record BlockCodecs : Type 0 where
  pub metadata : Codec Bytes
  pub last_config : Codec ℕ
  pub orderer_block_metadata : Codec OrdererBlockMetadata
  pub signatures_index : ℕ
  pub last_config_index : ℕ
  pub config : ℤ
  pub orderer_transaction : ℤ

-- `0 <= index < n`
abbrev pub in_range : ℤ → ℕ → Bool
in_range (pos i) n = ltb i n
in_range (negsuc i) n = false

-- `entries[index]`: out of range panics.
abbrev pub entry : List Bytes → ℤ → Result Bytes
entry entries (pos i) = deref (get_elem? entries i)
entry entries (negsuc i) = panic

module _ (p : TxCodecs) where
  unfoldable pub extract_envelope : Block → ℤ → Result Envelope
  extract_envelope block index = do
    entries ← required "block data is nil" block.data_entries
    guard (in_range index (length entries)) "envelope index out of bounds"
    marshaled ← entry entries index
    wrap "block data does not carry an envelope at index %d" (unmarshal_envelope p marshaled)

  unfoldable pub extract_payload : Envelope → Result Payload
  extract_payload envelope = wrap "no payload in envelope" (p.payload.unmarshal envelope.payload)

module _ (b : BlockCodecs) where
  unfoldable pub get_metadata_from_block : Block → ℕ → Result Bytes
  get_metadata_from_block block index = do
    entries ← required "no metadata in block" block.metadata_entries
    guard (ltb index (length entries)) "no metadata at index [%s]"
    bytes ← entry entries (pos index)
    wrap "error unmarshaling metadata at index [%s]" (b.metadata.unmarshal bytes)

  -- Where the value is empty, and where it is not.
  abbrev last_config_fallback : Block → Result ℕ
  last_config_fallback block = do
    value ← wrap "failed to retrieve metadata" (get_metadata_from_block block b.last_config_index)
    wrap "error unmarshaling LastConfig" (b.last_config.unmarshal value)

  abbrev last_config_of : Bytes → Result ℕ
  last_config_of value = do
    obm ←
        wrap "failed to unmarshal orderer block metadata" (b.orderer_block_metadata.unmarshal value)
    deref obm.last_config

  unfoldable pub get_last_config_index_from_block : Block → Result ℕ
  unfolding get_metadata_from_block
  get_last_config_index_from_block block = do
    value ← wrap "failed to retrieve metadata" (get_metadata_from_block block b.signatures_index)
    if is_empty value then last_config_fallback block else last_config_of value

-- `if err != nil { return false }`
abbrev pub or_false : Result Bool → Result Bool
or_false (ok x) = ok x
or_false (err e) = ok false
or_false panic = panic

module _ (p : TxCodecs) (b : BlockCodecs) where
  abbrev pub is_config_type : ChannelHeader → Bool
  is_config_type hdr = int_eq hdr.type b.config || int_eq hdr.type b.orderer_transaction

  unfoldable pub is_config_block : Block → Result Bool
  unfolding extract_envelope
  is_config_block block = or_false (do
    envelope ← extract_envelope p block (pos 0)
    payload ← unmarshal_payload p envelope.payload
    header ← required "" payload.header
    hdr ← unmarshal_channel_header p header.channel_header
    ok (is_config_type hdr))
