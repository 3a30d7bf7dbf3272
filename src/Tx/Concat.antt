-- ===== src/Tx/Concat.antt =====
-- `ConcatenateBytes` of internal/utils/util.go and `concatenateBytes` of internal/channel/util.go.
use fabricsdk_go.Prelude.{
  ℕ, zero, suc, ◌+◌, ◌≡◌, refl, sym, ap, ◌∙◌, arith, List, [], ◌∷◌, ◌++◌, Bytes, Result, ok, panic,
  ◌>>=◌, length, length-append, replicate,
}
use mathlib.Core.List.{append-nil, append_assoc}

-- `result[i] = b`
set_at : ℕ → ℕ → Bytes → Result Bytes
set_at i b [] = panic
set_at zero b (x ∷ xs) = ok (b ∷ xs)
set_at (suc i) b (x ∷ xs) = do rest ← set_at i b xs; ok (x ∷ rest)

-- The inner loop, at the index `i+last`.
write_slice : ℕ → Bytes → Bytes → Result Bytes
unfolding set_at
write_slice at [] result = ok result
write_slice at (b ∷ slice) result = do next ← set_at at b result; write_slice (suc at) slice next

write_slices : ℕ → List Bytes → Bytes → Result Bytes
unfolding write_slice
write_slices last [] result = ok result
write_slices last (slice ∷ slices) result = do
  next ← write_slice last slice result
  write_slices (last + length slice) slices next

final_length : ℕ → List Bytes → ℕ
final_length sum [] = sum
final_length sum (slice ∷ slices) = final_length (sum + length slice) slices

pub concatenate_bytes : List Bytes → Result Bytes
unfolding write_slices final_length
concatenate_bytes slices = write_slices 0 slices (replicate (final_length 0 slices) 0)

-- The loop of internal/channel/util.go, which appends.
append_all : Bytes → List Bytes → Bytes
append_all res [] = res
append_all res (slice ∷ slices) = append_all (res ++ slice) slices

pub channel_concatenate_bytes : List Bytes → Bytes
unfolding append_all
channel_concatenate_bytes slices = append_all [] slices

-- The slices one behind the other.
abbrev pub concat : List Bytes → Bytes
concat [] = []
concat (slice ∷ slices) = slice ++ concat slices

append_all_lem : (res : Bytes) (slices : List Bytes) → append_all res slices ≡ res ++ concat slices
unfolding append_all
append_all_lem res [] = sym (append-nil res)
append_all_lem res (slice ∷ slices) =
    append_all_lem (res ++ slice) slices ∙ append_assoc res slice (concat slices)

pub channel_concatenate_bytes_lem :
    (slices : List Bytes) → channel_concatenate_bytes slices ≡ concat slices
unfolding channel_concatenate_bytes
channel_concatenate_bytes_lem slices = append_all_lem [] slices

set_at_lem :
    (before after : Bytes) (b x : ℕ)
    → set_at (length before) b (before ++ x ∷ after) ≡ ok (before ++ b ∷ after)
unfolding set_at
set_at_lem [] after b x = refl
set_at_lem (y ∷ before) after b x = rw (set_at_lem before after b x)

abbrev zeros : ℕ → Bytes
zeros n = replicate n 0

zeros-+ : (m n : ℕ) → zeros (m + n) ≡ zeros m ++ zeros n
zeros-+ zero n = ap zeros (plus_zero n)
  where
    plus_zero : (k : ℕ) → 0 + k ≡ k
    plus_zero k = omega arith
zeros-+ (suc m) n = ap zeros (plus_suc m n) ∙ ap (λ (t : Bytes). 0 ∷ t) (zeros-+ m n)
  where
    plus_suc : (k l : ℕ) → suc k + l ≡ suc (k + l)
    plus_suc k l = omega arith

write_slice_lem :
    (before slice after : Bytes)
    → write_slice (length before) slice (before ++ (zeros (length slice) ++ after))
      ≡ ok (before ++ (slice ++ after))
unfolding write_slice
write_slice_lem before [] after = refl
write_slice_lem before (b ∷ slice) after =
    let more = write_slice_lem (before ++ b ∷ []) slice after in
    let len : length (before ++ b ∷ []) ≡ suc (length before) =
      omega (arith, length-append before (b ∷ [])) in
    let tail = zeros (length slice) ++ after in
    let step : write_slice (length before) (b ∷ slice) (before ++ 0 ∷ tail)
        ≡ write_slice (suc (length before)) slice (before ++ b ∷ tail) =
      ap (λ (r : Result Bytes). r >>= λ next. write_slice (suc (length before)) slice next)
        (set_at_lem before tail b 0) in
    step
    ∙ (rw
        (
          len,
          append_assoc before (b ∷ []) (zeros (length slice) ++ after),
          append_assoc before (b ∷ []) (slice ++ after),
        )
        at more)

abbrev total : List Bytes → ℕ
total [] = 0
total (slice ∷ slices) = length slice + total slices

final_length_lem : (sum : ℕ) (slices : List Bytes) → final_length sum slices ≡ sum + total slices
unfolding final_length
final_length_lem sum [] = omega arith
final_length_lem sum (slice ∷ slices) = omega (arith, final_length_lem (sum + length slice) slices)

write_slices_lem :
    (before : Bytes) (slices : List Bytes)
    → write_slices (length before) slices (before ++ zeros (total slices))
      ≡ ok (before ++ concat slices)
unfolding write_slices
write_slices_lem before [] = refl
write_slices_lem before (slice ∷ slices) =
    let more = write_slices_lem (before ++ slice) slices in
    let rest = before ++ (slice ++ zeros (total slices)) in
    let start : write_slices (length before) (slice ∷ slices)
          (before ++ zeros (total (slice ∷ slices)))
        ≡ write_slices (length before) (slice ∷ slices)
            (before ++ (zeros (length slice) ++ zeros (total slices))) =
      ap (λ (z : Bytes). write_slices (length before) (slice ∷ slices) (before ++ z))
        (zeros-+ (length slice) (total slices)) in
    let step : write_slices (length before) (slice ∷ slices)
          (before ++ (zeros (length slice) ++ zeros (total slices)))
        ≡ write_slices (length before + length slice) slices rest =
      ap
        (λ (r : Result Bytes).
          r >>= λ next. write_slices (length before + length slice) slices next)
        (write_slice_lem before slice (zeros (total slices))) in
    start
    ∙ step
    ∙ (rw
        (
          length-append before slice,
          append_assoc before slice (zeros (total slices)),
          append_assoc before slice (concat slices),
        )
        at more)

pub concatenate_bytes_lem : (slices : List Bytes) → concatenate_bytes slices ≡ ok (concat slices)
unfolding concatenate_bytes
concatenate_bytes_lem slices =
    let len : final_length 0 slices ≡ total slices = omega (arith, final_length_lem 0 slices) in
    rw len (write_slices_lem [] slices)

-- `ConcatenateBytes` writes inside the slice that it makes and returns what the appending loop of
-- internal/channel/util.go returns: the given slices, one behind the other.
pub concatenate_bytes-same :
    (slices : List Bytes)
    → (concatenate_bytes slices ≡ ok (channel_concatenate_bytes slices))
      × (channel_concatenate_bytes slices ≡ concat slices)
concatenate_bytes-same slices = (
  concatenate_bytes_lem slices ∙ ap ok (sym (channel_concatenate_bytes_lem slices)),
  channel_concatenate_bytes_lem slices,
)
