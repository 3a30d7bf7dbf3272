-- ===== src/Varint/Order.antt =====
-- The encoding keeps the order: a smaller number has the smaller bytes, whatever follows.
use native.Mathlib.Nat.{mod-lt, mod-eq_of_lt, lt_trans}
use fabricsdk_go.Prelude.{
  ℕ, zero, suc, ◌+◌, ◌*◌, ◌/◌, ◌%◌, ◌^◌, ◌≤◌, ◌<◌, ◌≡◌, ◌⊎◌, inl, inr, refl, ap, [], ◌∷◌, ◌++◌,
  arith, Bytes, Bool, true, false, ◌&&◌, ◌||◌, ok, ltb, ◌==◌, Bool-cases,
}
use fabricsdk_go.Varint.BigEndian.{pow256, pow256_pos, mod_split, big_endian}
use fabricsdk_go.Varint.{VarintCodec, IsVarint, encode_order_preserving_var_uint64}
use fabricsdk_go.Varint.Encode.{IsSize, encode-Encoded}
use fabricsdk_go.Varint.RoundTrip.{below_pow256}

-- `bytes.Compare(xs, ys) < 0`
unfoldable pub lex_lt : Bytes → Bytes → Bool
lex_lt [] [] = false
lex_lt [] (y ∷ ys) = true
lex_lt (x ∷ xs) [] = false
lex_lt (x ∷ xs) (y ∷ ys) = ltb x y || (x == y && lex_lt xs ys)

pub lex_lt-append_same : (p xs ys : Bytes) → lex_lt (p ++ xs) (p ++ ys) ≡ lex_lt xs ys
unfolding lex_lt
lex_lt-append_same [] xs ys = refl
lex_lt-append_same (b ∷ p) xs ys = ground (arith, lex_lt-append_same p xs ys)

same_digit : (h k : ℕ) → (h == k) ≡ true → h ≡ k
same_digit h k e = ground arith

digits_order :
    (P h k r s : ℕ) → r < P → s < P → h * P + r < k * P + s → (h < k) ⊎ ((h ≡ k) × (r < s))
digits_order P h k r s hr hs lt = elim (Bool-cases (ltb h k)) [
  | inl less ↦ inl (ground arith)
  | inr more ↦ elim (Bool-cases (h == k)) [
    | inl same ↦ inr (ground arith, omega (arith, ap (λ (t : ℕ). t * P) (same_digit h k same)))
    | inr other ↦ let over : k + 1 ≤ h = ground arith in absurd (grind arith)
  ]
]

lex_lt-big_endian :
    (s a b : ℕ) (x y : Bytes)
    → a % pow256 s < b % pow256 s
    → lex_lt (big_endian s a ++ x) (big_endian s b ++ y) ≡ true
unfolding lex_lt big_endian pow256
lex_lt-big_endian zero a b x y h = absurd (omega arith)
lex_lt-big_endian (suc s) a b x y h =
    let pos = pow256_pos s in
    let P = pow256 s in
    let order =
      digits_order P (a / P % 256) (b / P % 256) (a % P) (b % P) (mod-lt a pos) (mod-lt b pos)
        (omega (arith, mod_split a P pos, mod_split b P pos)) in
    ground (arith, order, lex_lt-big_endian s a b x y)

pow256_mono : (i j : ℕ) → i ≤ j → pow256 i ≤ pow256 j
unfolding pow256
pow256_mono zero j h = pow256_pos j
pow256_mono (suc i) zero h = absurd (omega arith)
pow256_mono (suc i) (suc j) h = omega (arith, pow256_mono i j)

sizes_order : {a b s t : ℕ} → a < b → IsSize a s → IsSize b t → s ≤ t
sizes_order {a} {b} {s} {t} h sa sb = elim sa.least [
  | inl e ↦ omega arith
  | inr (s', e, least) ↦ elim (Bool-cases (ltb t s)) [
    | inl less ↦
        let le : t ≤ s' = ground arith in absurd (omega (arith, pow256_mono t s' le, sb.below))
    | inr more ↦ ground arith
  ]
]

order-written :
    {a b s t : ℕ} (x y : Bytes)
    → a < b
    → IsSize a s
    → IsSize b t
    → lex_lt (s ∷ big_endian s a ++ x) (t ∷ big_endian t b ++ y) ≡ true
unfolding lex_lt
order-written {a} {b} {s} {t} x y h sa sb = elim (Bool-cases (ltb s t)) [
  | inl less ↦ rw less
  | inr more ↦
      let same : s ≡ t = ground (arith, sizes_order h sa sb) in
      let below : a < pow256 s = sa.below in
      let above : b < pow256 s = rw same sb.below in
      let digits : a % pow256 s < b % pow256 s = rw (mod-eq_of_lt below, mod-eq_of_lt above) h in
      rw (← same) (ground (arith, lex_lt-big_endian s a b x y digits))
]

-- Two numbers encode to byte strings that compare as the numbers do, whatever stands behind them.
pub encode-order :
    (c : VarintCodec)
    → IsVarint c
    → (a b : ℕ) (x y : Bytes) → a < b
    → b < 2 ^ 64
    → (e f : Bytes) × (encode_order_preserving_var_uint64 c a ≡ ok e)
      × (encode_order_preserving_var_uint64 c b ≡ ok f)
      × (lex_lt (e ++ x) (f ++ y) ≡ true)
encode-order c law a b x y h small =
    let ea = encode-Encoded c law a (below_pow256 a (lt_trans h small)) in
    let eb = encode-Encoded c law b (below_pow256 b small) in
    (
      ea.size ∷ big_endian ea.size a,
      eb.size ∷ big_endian eb.size b,
      ea.written,
      eb.written,
      order-written x y h ea.is_size eb.is_size,
    )
