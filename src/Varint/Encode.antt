-- ===== src/Varint/Encode.antt =====
-- The encoding is the number's significant bytes behind their count.
use Prim.Native.Nat.add
use native.Mathlib.Nat.{div-lt_iff_lt-mul, le-div_iff_mul-le}
use fabricsdk_go.Prelude.{
  ℕ, zero, suc, ◌+◌, ◌-◌, ◌*◌, ◌/◌, ◌%◌, ◌≤◌, ◌<◌, ◌≡◌, ◌⊎◌, inl, inr, refl, ap, ◌∙◌, [], ◌∷◌, none,
  some, arith, Bytes, true, false, ok, length, drop, replicate, ◌==◌, Bool-cases,
}
use fabricsdk_go.Varint.BigEndian.{pow256, pow256_pos, big_endian, length-big_endian}
use fabricsdk_go.Varint.{
  VarintCodec, IsVarint, nonzero_from, copy, encode_order_preserving_var_uint64, write_span,
}

-- `s` is the number of significant bytes of `n`, none for 0.
pub record IsSize (n s : ℕ) : Type 0 where
  pub below : n < pow256 s
  pub least : (s ≡ 0) ⊎ ((t : ℕ) × (s ≡ suc t) × (pow256 t ≤ n))

drop-big_endian : (j m n : ℕ) → drop j (big_endian (j + m) n) ≡ big_endian m n
unfolding big_endian
drop-big_endian zero m n = rw (add.zero m)
drop-big_endian (suc j) m n = rw (add.suc j m) (drop-big_endian j m n)

-- What the scan of the big-endian bytes finds: nothing for 0, or the highest significant byte.
abbrev Scanned : ℕ → ℕ → ℕ → Type 0
Scanned i k n =
    ((n ≡ 0) × (nonzero_from i (big_endian k n) ≡ none))
    ⊎ ((j t : ℕ) × (k ≡ j + suc t)
        × (pow256 t ≤ n)
        × (n < pow256 (suc t))
        × (nonzero_from i (big_endian k n) ≡ some (i + j)))

scan-next :
    (i k n : ℕ) → (n / pow256 k % 256 == 0) ≡ true → Scanned (suc i) k n → Scanned i (suc k) n
unfolding nonzero_from big_endian
scan-next i k n low (inl (e, f)) = inl (e, rw low f)
scan-next i k n low (inr (j, t, e, least, below, f)) =
    inr (suc j, t, omega arith, least, below, rw low (f ∙ ap some (omega arith)))

top_zero : (n P : ℕ) → 0 < P → n < 256 * P → (n / P % 256 == 0) ≡ true → n < P
top_zero n P pos h low =
    let small = (div-lt_iff_lt-mul {k = P} {x = n} {y = 256} pos).1 h in
    let none_left : n / P < 1 = ground arith in
    omega (arith, (div-lt_iff_lt-mul {k = P} {x = n} {y = 1} pos).0 none_left)

top_nonzero : (n P : ℕ) → 0 < P → (n / P % 256 == 0) ≡ false → P ≤ n
top_nonzero n P pos high =
    let some_left : 1 ≤ n / P = ground arith in
    omega (arith, (le-div_iff_mul-le {k = P} {x = 1} {y = n} pos).0 some_left)

scan : (i k n : ℕ) → n < pow256 k → Scanned i k n
unfolding nonzero_from big_endian pow256
scan i zero n h = inl (omega arith, refl)
scan i (suc k) n h = elim (Bool-cases (n / pow256 k % 256 == 0)) [
  | inl low ↦ scan-next i k n low (scan (suc i) k n (top_zero n (pow256 k) (pow256_pos k) h low))
  | inr high ↦ inr (
    0,
    k,
    omega arith,
    top_nonzero n (pow256 k) (pow256_pos k) high,
    h,
    rw high (ap some (omega arith)),
  )
]

pub copy_full : (xs : Bytes) → copy (replicate (length xs) 0) xs ≡ xs
unfolding copy
copy_full [] = refl
copy_full (x ∷ xs) = ap (λ (t : Bytes). x ∷ t) (copy_full xs)

omega_sub : (j t : ℕ) → 8 ≡ j + suc t → 8 - j ≡ suc t
omega_sub j t e = omega arith

-- What `encode_order_preserving_var_uint64` writes.
pub record Encoded (c : VarintCodec) (n : ℕ) : Type 0 where
  pub size : ℕ
  pub size_small : size ≤ 8
  pub is_size : IsSize n size
  pub written : encode_order_preserving_var_uint64 c n ≡ ok (size ∷ big_endian size n)

module _ (c : VarintCodec) (law : IsVarint c) where
  write_span_lem :
      (bytes tail : Bytes) (start : ℕ)
      → drop start bytes ≡ tail
      → length tail < 128
      → write_span c bytes (start, length tail) ≡ ok (length tail ∷ tail)
  unfolding write_span
  write_span_lem bytes tail start e small =
      rw (law.encode_small (length tail) small, e, copy_full tail)

  write_big_endian :
      (n j s : ℕ) → 8 ≡ j + s → write_span c (big_endian 8 n) (j, s) ≡ ok (s ∷ big_endian s n)
  write_big_endian n j s e =
      let len = length-big_endian s n in
      let dropped : drop j (big_endian 8 n) ≡ big_endian s n =
        ap (λ (k : ℕ). drop j (big_endian k n)) e ∙ drop-big_endian j s n in
      rw len at (write_span_lem (big_endian 8 n) (big_endian s n) j dropped (rw len (omega arith)))

  pub encode-Encoded : (n : ℕ) → n < pow256 8 → Encoded c n
  unfolding encode_order_preserving_var_uint64
  encode-Encoded n h = elim (scan 0 8 n h) [
    | inl (e, f) ↦ record {
      size = 0;
      size_small = omega arith;
      is_size = record { below = unfold pow256 in omega arith; least = inl refl };
      written = rw f (unfold write_span big_endian in rw (law.encode_small 0 (omega arith)));
    }
    | inr (j, t, e, least, below, f) ↦ record {
      size = suc t;
      size_small = omega arith;
      is_size = record { below = below; least = inr (t, refl, least) };
      written = rw (f, add.zero j, omega_sub j t e) (write_big_endian n j (suc t) e);
    }
  ]
