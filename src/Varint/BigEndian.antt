-- ===== src/Varint/BigEndian.antt =====
-- `binary.BigEndian.PutUint64` and `binary.BigEndian.Uint64`, for any number of bytes.
use native.Mathlib.Nat.{mod-eq_of_lt, div-add-mod', mul-add-mod_self_right, mod-lt}
use fabricsdk_go.Prelude.{
  ℕ, zero, suc, ◌+◌, ◌*◌, ◌/◌, ◌%◌, ◌<◌, ◌≡◌, refl, ap, ◌∙◌, [], ◌∷◌, ◌++◌, arith, Bytes, IsByte,
  All, length, replicate,
}

-- 256 ^ k
unfoldable pub pow256 : ℕ → ℕ
pow256 zero = 1
pow256 (suc k) = 256 * pow256 k

pub pow256_pos : (k : ℕ) → 0 < pow256 k
unfolding pow256
pow256_pos zero = omega arith
pow256_pos (suc k) = omega (arith, pow256_pos k)

-- The lowest `k` bytes of a number, the highest first.
unfoldable pub big_endian : ℕ → ℕ → Bytes
unfolding pow256
big_endian zero n = []
big_endian (suc k) n = (n / pow256 k % 256) ∷ big_endian k n

value_from : ℕ → Bytes → ℕ
value_from acc [] = acc
value_from acc (b ∷ bs) = value_from (acc * 256 + b) bs

unfoldable pub uint64_of : Bytes → ℕ
unfolding value_from
uint64_of = value_from 0

pub length-big_endian : (k n : ℕ) → length (big_endian k n) ≡ k
unfolding big_endian
length-big_endian zero n = refl
length-big_endian (suc k) n = ap suc (length-big_endian k n)

pub big_endian-IsByte : (k n : ℕ) → All IsByte (big_endian k n)
unfolding big_endian
big_endian-IsByte zero n = tt
big_endian-IsByte (suc k) n = (omega arith, big_endian-IsByte k n)

pub mod_split : (n P : ℕ) → 0 < P → n % (256 * P) ≡ n / P % 256 * P + n % P
mod_split n P h =
    let q = n / P in
    let r = n % P in
    let low = q % 256 * P + r in
    let split : n ≡ q / 256 * (256 * P) + low =
      omega (arith, div-add-mod' n P, ap (λ (t : ℕ). t * P) (div-add-mod' q 256)) in
    let small : low < 256 * P = grind (arith, mod-lt n h, mod-lt q {m = 256} (omega arith)) in
    ap (λ (t : ℕ). t % (256 * P)) split
    ∙ mul-add-mod_self_right (q / 256) (256 * P) low
    ∙ mod-eq_of_lt small

value_from-big_endian :
    (k n acc : ℕ) → value_from acc (big_endian k n) ≡ acc * pow256 k + n % pow256 k
unfolding value_from big_endian pow256
value_from-big_endian zero n acc = omega arith
value_from-big_endian (suc k) n acc =
    value_from-big_endian k n (acc * 256 + n / pow256 k % 256)
    ∙ grind (arith, mod_split n (pow256 k) (pow256_pos k))

value_from-zeros : (j : ℕ) (bs : Bytes) → value_from 0 (replicate j 0 ++ bs) ≡ value_from 0 bs
unfolding value_from
value_from-zeros zero bs = refl
value_from-zeros (suc j) bs = value_from-zeros j bs

-- Reading back what was written, with any number of zeros in front.
pub uint64_of-big_endian :
    (j k n : ℕ) → n < pow256 k → uint64_of (replicate j 0 ++ big_endian k n) ≡ n
unfolding uint64_of
uint64_of-big_endian j k n h =
    value_from-zeros j (big_endian k n)
    ∙ value_from-big_endian k n 0
    ∙ omega (arith, mod-eq_of_lt h)
