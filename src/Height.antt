-- ===== src/Height.antt =====
-- internal/rwsetutil/version.go: the height of a transaction, its bytes and its order.
pub mod Encoding
pub mod Order
use fabricsdk_go.Prelude.{
  ℕ, ◌+◌, ◌-◌, ◌%◌, ◌^◌, ◌<◌, ◌≡◌, Bool, true, false, not, ◌++◌, Option, none, some, Bytes, Result,
  ok, ◌>>=◌, ◌>>◌, drop, ◌==◌, if◌then◌else◌, ℤ, pos, negsuc, int_of_uint64, is_positive,
}
use fabricsdk_go.Varint.{
  VarintCodec, encode_order_preserving_var_uint64, decode_order_preserving_var_uint64,
}

pub record Height : Type 0 where
  pub block_num : ℕ
  pub tx_num : ℕ

-- Both fields are `uint64`.
pub record IsHeight (h : Height) : Type 0 where
  pub block_small : h.block_num < 2 ^ 64
  pub tx_small : h.tx_num < 2 ^ 64

abbrev pub new_height : ℕ → ℕ → Height
new_height block_num tx_num = record { block_num = block_num; tx_num = tx_num }

module _ (c : VarintCodec) where
  pub new_height_from_bytes : Bytes → Result (Height × ℕ)
  new_height_from_bytes b = do
    (block_num, n1) ← decode_order_preserving_var_uint64 c b
    (tx_num, n2) ← decode_order_preserving_var_uint64 c (drop n1 b)
    ok (new_height block_num tx_num, n1 + n2)

  pub to_bytes : Height → Result Bytes
  to_bytes h = do
    block_num_bytes ← encode_order_preserving_var_uint64 c h.block_num
    tx_num_bytes ← encode_order_preserving_var_uint64 c h.tx_num
    ok (block_num_bytes ++ tx_num_bytes)

-- `h - h1` on `uint64`
abbrev sub_uint64 : ℕ → ℕ → ℕ
sub_uint64 a b = (a + 2 ^ 64 - b) % 2 ^ 64

-- `if res > 0 { return 1 }; return -1`
abbrev sign_of : ℤ → ℤ
sign_of res = if is_positive res then pos 1 else negsuc 0

pub compare : Height → Height → ℤ
compare h h1 =
    if not (h.block_num == h1.block_num)
    then sign_of (int_of_uint64 (sub_uint64 h.block_num h1.block_num))
    else if not (h.tx_num == h1.tx_num)
    then sign_of (int_of_uint64 (sub_uint64 h.tx_num h1.tx_num))
    else pos 0

is_zero : ℤ → Bool
is_zero (pos n) = n == 0
is_zero (negsuc n) = false

pub are_same : Option Height → Option Height → Bool
unfolding is_zero compare
are_same none none = true
are_same none (some h2) = false
are_same (some h1) none = false
are_same (some h1) (some h2) = is_zero (compare h1 h2)
