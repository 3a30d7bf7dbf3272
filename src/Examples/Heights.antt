-- ===== src/Examples/Heights.antt =====
-- Encodings, heights and their order at small numbers.
use fabricsdk_go.Prelude.{
  ℕ, ◌-◌, ◌^◌, ◌≡◌, refl, inr, arith, true, [], ◌∷◌, ◌++◌, Bytes, ok, length, pos, negsuc,
}
use fabricsdk_go.Varint.{
  VarintCodec, IsVarint, encode_order_preserving_var_uint64, decode_order_preserving_var_uint64,
}
use fabricsdk_go.Varint.RoundTrip.{decode-encode}
use fabricsdk_go.Varint.Order.{lex_lt}
use fabricsdk_go.Height.{Height, IsHeight, compare, to_bytes, new_height_from_bytes}
use fabricsdk_go.Height.Order.{compare-lexicographic, compare-far, lexicographic}
use fabricsdk_go.Height.Encoding.{new_height_from_bytes-to_bytes, to_bytes-order}

abbrev decode_one : Bytes → ℕ × ℕ
decode_one [] = (0, 0)
decode_one (b ∷ rest) = (b, 1)

abbrev varint : VarintCodec
varint = record { encode_varint = λ n. n ∷ []; decode_varint = decode_one }

varint-IsVarint : IsVarint varint
varint-IsVarint = record { encode_small = λ n h. refl; decode_small = λ n rest h. refl }

abbrev at_3_7 : Height
at_3_7 = record { block_num = 3; tx_num = 7 }

abbrev at_3_9 : Height
at_3_9 = record { block_num = 3; tx_num = 9 }

abbrev last : Height
last = record { block_num = 2 ^ 64 - 1; tx_num = 0 }

at_3_7-IsHeight : IsHeight at_3_7
at_3_7-IsHeight = record { block_small = omega arith; tx_small = omega arith }

at_3_9-IsHeight : IsHeight at_3_9
at_3_9-IsHeight = record { block_small = omega arith; tx_small = omega arith }

last-IsHeight : IsHeight last
last-IsHeight = record { block_small = omega arith; tx_small = omega arith }

decode-encode_example :
    (e : Bytes) × (encode_order_preserving_var_uint64 varint 300 ≡ ok e)
    × (decode_order_preserving_var_uint64 varint (e ++ 5 ∷ []) ≡ ok (300, length e))
decode-encode_example = decode-encode varint varint-IsVarint 300 (5 ∷ []) (omega arith)

compare-lexicographic_example : compare at_3_7 at_3_9 ≡ lexicographic at_3_7 at_3_9
compare-lexicographic_example =
    compare-lexicographic at_3_7-IsHeight at_3_9-IsHeight
      (record { up = omega arith; down = omega arith })
      (record { up = omega arith; down = omega arith })

compare-far_example : (compare at_3_7 last ≡ pos 1) × (compare last at_3_7 ≡ negsuc 0)
compare-far_example = compare-far at_3_7-IsHeight last-IsHeight (omega arith)

new_height_from_bytes-to_bytes_example :
    (b : Bytes) × (to_bytes varint at_3_7 ≡ ok b)
    × (new_height_from_bytes varint (b ++ 1 ∷ []) ≡ ok (at_3_7, length b))
new_height_from_bytes-to_bytes_example =
    new_height_from_bytes-to_bytes varint varint-IsVarint (1 ∷ []) at_3_7-IsHeight

to_bytes-order_example :
    (b d : Bytes) × (to_bytes varint at_3_7 ≡ ok b)
    × (to_bytes varint at_3_9 ≡ ok d)
    × (lex_lt b d ≡ true)
to_bytes-order_example =
    to_bytes-order varint varint-IsVarint at_3_7-IsHeight at_3_9-IsHeight (inr (refl, omega arith))
