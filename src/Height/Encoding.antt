-- ===== src/Height/Encoding.antt =====
-- The bytes of a height: reading them back, and their order.
use fabricsdk_go.Prelude.{
  ◌<◌, ◌≡◌, ◌⊎◌, inl, inr, ◌∙◌, ◌++◌, Bytes, true, ok, length, drop-length, length-append,
}
use mathlib.Core.List.{[], append-nil, append_assoc}
use fabricsdk_go.Varint.{VarintCodec, IsVarint}
use fabricsdk_go.Varint.RoundTrip.{decode-encode}
use fabricsdk_go.Varint.Order.{lex_lt, lex_lt-append_same, encode-order}
use fabricsdk_go.Height.{Height, IsHeight, new_height_from_bytes, to_bytes}

module _ (c : VarintCodec) (law : IsVarint c) where
  -- The bytes of a height, with anything behind them, read back as the height and their count.
  pub new_height_from_bytes-to_bytes :
      {h : Height} (rest : Bytes)
      → IsHeight h
      → (b : Bytes) × (to_bytes c h ≡ ok b)
        × (new_height_from_bytes c (b ++ rest) ≡ ok (h, length b))
  unfolding to_bytes new_height_from_bytes
  new_height_from_bytes-to_bytes {h} rest w =
      let (t, et, dt) = decode-encode c law h.tx_num rest w.tx_small in
      let (b, eb, db) = decode-encode c law h.block_num (t ++ rest) w.block_small in
      (
        b ++ t,
        rw (eb, et),
        rw (append_assoc b t rest, db, drop-length b (t ++ rest), dt, length-append b t),
      )

  -- The order of heights, block number first.
  abbrev pub Before : Height → Height → Type 0
  Before h k = (h.block_num < k.block_num) ⊎ ((h.block_num ≡ k.block_num) × (h.tx_num < k.tx_num))

  -- The bytes of two heights compare as the heights do.
  pub to_bytes-order :
      {h k : Height}
      → IsHeight h
      → IsHeight k
      → Before h k
      → (b d : Bytes) × (to_bytes c h ≡ ok b) × (to_bytes c k ≡ ok d) × (lex_lt b d ≡ true)
  unfolding to_bytes
  to_bytes-order {h} {k} wh wk (inl less) =
      let (x, ex, _) = decode-encode c law h.tx_num [] wh.tx_small in
      let (y, ey, _) = decode-encode c law k.tx_num [] wk.tx_small in
      let (e, f, ee, ef, lt) = encode-order c law h.block_num k.block_num x y less wk.block_small in
      (e ++ x, f ++ y, rw (ee, ex), rw (ef, ey), lt)
  to_bytes-order {h} {k} wh wk (inr (same, less)) =
      let (p, ep, _) = decode-encode c law h.block_num [] wh.block_small in
      let (e, f, ee, ef, lt) = encode-order c law h.tx_num k.tx_num [] [] less wk.tx_small in
      (
        p ++ e,
        p ++ f,
        rw (ep, ee),
        rw (← same, ep, ef),
        lex_lt-append_same p e f ∙ (simp append-nil at lt),
      )
