-- ===== src/Varint/RoundTrip.antt =====
-- Decoding undoes encoding, whatever follows; the errors of decoding.
use Prim.Native.Nat.add
use fabricsdk_go.Prelude.{
  ℕ, zero, suc, ◌+◌, ◌-◌, ◌^◌, ◌≤◌, ◌<◌, ◌≡◌, refl, ap, ◌∙◌, ◌∷◌, ◌++◌, arith, Bytes, ok, length,
  take, drop, replicate, length-append, take-length,
}
use fabricsdk_go.Varint.BigEndian.{pow256, big_endian, length-big_endian, uint64_of-big_endian}
use fabricsdk_go.Varint.{
  VarintCodec, IsVarint, copy, decoded_bytes, encode_order_preserving_var_uint64,
  decode_order_preserving_var_uint64,
}
use fabricsdk_go.Varint.Encode.{encode-Encoded, copy_full}

take-zeros : (k j s : ℕ) → k ≡ j + s → take j (replicate {A = ℕ} k 0) ≡ replicate j 0
take-zeros k zero s e = refl
take-zeros zero (suc j) s e = absurd (omega arith)
take-zeros (suc k) (suc j) s e = ap (λ (t : Bytes). 0 ∷ t) (take-zeros k j s (omega arith))

drop-zeros : (k j s : ℕ) → k ≡ j + s → drop j (replicate {A = ℕ} k 0) ≡ replicate s 0
drop-zeros k zero s e = ap (λ (t : ℕ). replicate t 0) (e ∙ add.zero s)
drop-zeros zero (suc j) s e = absurd (omega arith)
drop-zeros (suc k) (suc j) s e = drop-zeros k j s (omega arith)

body-take : (s n : ℕ) (rest : Bytes) → take s (big_endian s n ++ rest) ≡ big_endian s n
body-take s n rest = rw (length-big_endian s n) at (take-length (big_endian s n) rest)

copy-body : (s n : ℕ) → copy (replicate s 0) (big_endian s n) ≡ big_endian s n
copy-body s n = rw (length-big_endian s n) at (copy_full (big_endian s n))

decoded_bytes_lem :
    (s n : ℕ) (rest : Bytes)
    → s ≤ 8
    → decoded_bytes s (big_endian s n ++ rest) ≡ replicate (8 - s) 0 ++ big_endian s n
unfolding decoded_bytes
decoded_bytes_lem s n rest h = rw (
  take-zeros 8 (8 - s) s (omega arith),
  drop-zeros 8 (8 - s) s (omega arith),
  body-take s n rest,
  copy-body s n,
)

pub below_pow256 : (n : ℕ) → n < 2 ^ 64 → n < pow256 8
unfolding pow256
below_pow256 n h = h

module _ (c : VarintCodec) (law : IsVarint c) where
  decode-body :
      (s n : ℕ) (rest : Bytes)
      → s ≤ 8
      → n < pow256 s
      → decode_order_preserving_var_uint64 c (s ∷ big_endian s n ++ rest) ≡ ok (n, s + 1)
  unfolding decode_order_preserving_var_uint64
  decode-body s n rest h small =
      let long = length-append (big_endian s n) rest in
      let len = length-big_endian s n in
      let bytes = decoded_bytes_lem s n rest h in
      let value = uint64_of-big_endian (8 - s) s n small in
      rw (law.decode_small s (big_endian s n ++ rest) (omega arith))
        (ground (arith, long, len, bytes, value))

  -- Encoding a `uint64` succeeds, and decoding the result, with anything behind it, gives the
  -- number back with the count of the bytes that the encoding has.
  pub decode-encode :
      (n : ℕ) (rest : Bytes)
      → n < 2 ^ 64
      → (e : Bytes) × (encode_order_preserving_var_uint64 c n ≡ ok e)
        × (decode_order_preserving_var_uint64 c (e ++ rest) ≡ ok (n, length e))
  decode-encode n rest h =
      let w = encode-Encoded c law n (below_pow256 n h) in
      (
        w.size ∷ big_endian w.size n,
        w.written,
        decode-body w.size n rest w.size_small w.is_size.below
            ∙ ap (λ (k : ℕ). ok (n, k)) (omega (arith, length-big_endian w.size n)),
      )
