-- ===== src/Height/Order.antt =====
-- `Compare` against the lexicographic order, and `AreSame` against equality.
use fabricsdk_go.Prelude.{
  ℕ, ◌+◌, ◌^◌, ◌<◌, ◌≡◌, ◌↔◌, arith, true, Option, none, some, ltb, if◌then◌else◌, ℤ, pos, negsuc,
}
use fabricsdk_go.Height.{Height, IsHeight, compare, are_same}

-- The lexicographic order, block number first.
abbrev pub lexicographic : Height → Height → ℤ
lexicographic h h1 =
    if ltb h.block_num h1.block_num
    then negsuc 0
    else if ltb h1.block_num h.block_num
    then pos 1
    else if ltb h.tx_num h1.tx_num
    then negsuc 0
    else if ltb h1.tx_num h.tx_num
    then pos 1
    else pos 0

-- `a` and `b` are less than 2^63 apart.
pub record Near (a b : ℕ) : Type 0 where
  pub up : a < b + 2 ^ 63
  pub down : b < a + 2 ^ 63

-- Where the block numbers and the transaction numbers of two heights are less than 2^63 apart,
-- `Compare` gives their lexicographic order.
pub compare-lexicographic :
    {h h1 : Height}
    → IsHeight h
    → IsHeight h1
    → Near h.block_num h1.block_num
    → Near h.tx_num h1.tx_num
    → compare h h1 ≡ lexicographic h h1
unfolding compare
compare-lexicographic w w1 nb nt = ground arith

-- Where the block numbers are more than 2^63 apart, `Compare` gives the reverse of their order,
-- because the difference of the unsigned numbers overflows the signed `int`.
pub compare-far :
    {h h1 : Height}
    → IsHeight h
    → IsHeight h1
    → h.block_num + 2 ^ 63 < h1.block_num
    → (compare h h1 ≡ pos 1) × (compare h1 h ≡ negsuc 0)
unfolding compare
compare-far w w1 far = ground arith

-- `AreSame` holds exactly of two nil pointers and of two heights with the same fields.
pub are_same_iff : (h1 h2 : Option Height) → (are_same h1 h2 ≡ true) ↔ (h1 ≡ h2)
unfolding are_same
are_same_iff none none = ground arith
are_same_iff none (some h2) = ground arith
are_same_iff (some h1) none = ground arith
are_same_iff (some h1) (some h2) = ground arith
