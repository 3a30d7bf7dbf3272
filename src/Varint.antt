-- ===== src/Varint.antt =====
-- internal/utils/util.go: the order-preserving variable-length encoding of a `uint64`.
-- `binary.BigEndian` and `copy` are Go's; `proto.EncodeVarint` and `proto.DecodeVarint` are the
-- protobuf library's, and parameters here.
pub mod BigEndian
pub mod Encode
pub mod RoundTrip
pub mod Order
use BigEndian.{big_endian, uint64_of}
use fabricsdk_go.Prelude.{
  ℕ, zero, suc, ◌+◌, ◌-◌, ◌<◌, ◌≡◌, List, [], ◌∷◌, ◌++◌, Option, none, some, Bytes, Result, ok, err,
  panic, message, length, take, drop, replicate, ltb, ◌==◌, not, if◌then◌else◌,
}

-- `proto.EncodeVarint` and `proto.DecodeVarint`, which returns the number and the bytes read.
pub record VarintCodec : Type 0 where
  pub encode_varint : ℕ → Bytes
  pub decode_varint : Bytes → ℕ × ℕ

-- A number below 128 is one byte, itself.
pub record IsVarint (c : VarintCodec) : Type 0 where
  pub encode_small : (n : ℕ) → n < 128 → c.encode_varint n ≡ n ∷ []
  pub decode_small : (n : ℕ) (rest : Bytes) → n < 128 → c.decode_varint (n ∷ rest) ≡ (n, 1)

-- `for i, b := range bytes { if b != 0x00 { ...; break } }`: the index at which the loop breaks.
nonzero_from : ℕ → Bytes → Option ℕ
nonzero_from i [] = none
nonzero_from i (b ∷ bs) = if b == 0 then nonzero_from (suc i) bs else some i

-- The starting index and the size that the loop leaves behind.
abbrev span_at : Option ℕ → ℕ × ℕ
span_at none = (0, 0)
span_at (some i) = (i, 8 - i)

-- `copy(dst, src)`: as many items as the shorter of the two has.
pub copy : Bytes → Bytes → Bytes
copy [] src = []
copy (d ∷ dst) [] = d ∷ dst
copy (d ∷ dst) (s ∷ src) = s ∷ copy dst src

-- `encodedBytes[0] = sizeBytes[0]`, and the copy behind it.
abbrev pack : Bytes → Bytes → Result Bytes
pack [] tail = panic
pack (b ∷ bs) tail = ok (b ∷ tail)

-- `decodedBytes`: the first `s` bytes of the body, right-aligned in eight bytes.
decoded_bytes : ℕ → Bytes → Bytes
unfolding copy
decoded_bytes s body =
    let zeros = replicate 8 0 in take (8 - s) zeros ++ copy (drop (8 - s) zeros) (take s body)

module _ (c : VarintCodec) where
  -- The part behind the loop: the size byte, and the bytes from the starting index.
  write_span : Bytes → ℕ × ℕ → Result Bytes
  unfolding copy
  write_span bytes (starting_index, size) =
      let size_bytes = c.encode_varint size in
      if ltb 1 (length size_bytes)
      then panic
      else pack size_bytes (copy (replicate size 0) (drop starting_index bytes))

  pub encode_order_preserving_var_uint64 : ℕ → Result Bytes
  encode_order_preserving_var_uint64 number =
      let bytes = big_endian 8 number in write_span bytes (span_at (nonzero_from 0 bytes))

  pub decode_order_preserving_var_uint64 : Bytes → Result (ℕ × ℕ)
  unfolding decoded_bytes uint64_of
  decode_order_preserving_var_uint64 bytes =
      let (s, num_bytes) = c.decode_varint bytes in
      if not (num_bytes == 1)
      then err (message "number of consumed bytes from DecodeVarint is invalid")
      else if ltb 8 s
      then err (message "decoded size from DecodeVarint is invalid")
      else if ltb (length bytes) (s + 1)
      then err (message "decoded size from DecodeVarint is more than available bytes")
      else ok (uint64_of (decoded_bytes s (drop 1 bytes)), s + 1)
