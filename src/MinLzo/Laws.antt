-- ===== src/MinLzo/Laws.antt =====
-- The wrapper over a lossless LZO: what it answers, and that one side undoes the other.
use ran_online.Base.{ℕ, ◌+◌, ◌/◌, ◌≤◌, ◌<◌, ◌≡◌, true, List, [], ◌∷◌}
use ran_online.Base.{arith, length}
use ran_online.MinLzo.{Lzo, IsLossless, success, lzo_compress, lzo_decompress}

lzo_decompress_ok :
    (lzo : Lzo) (out xs : List ℕ) (cap : ℕ)
    → 0 < length out
    → length out ≤ length xs
    → lzo.lzo1x_decompress_safe out cap ≡ record { lzo_ok = true; written = xs }
    → lzo_decompress lzo out cap ≡ (success, xs)
unfolding lzo_decompress
lzo_decompress_ok lzo [] xs cap h k e = absurd (omega arith)
lzo_decompress_ok lzo (y ∷ ys) xs cap h k e = ground arith

module _ (lzo : Lzo) (l : IsLossless lzo) where
  pub lzo_compress-bounded :
      (xs : List ℕ) → length (lzo_compress lzo xs).1 ≤ length xs + length xs / 16 + 67
  unfolding lzo_compress
  lzo_compress-bounded [] = omega arith
  lzo_compress-bounded (x ∷ xs) = ground (arith, l.compress-bounded (x ∷ xs))

  -- Where the wrapper reports success, the output is smaller than the input, and decompressing it
  -- into a buffer that is large enough succeeds and returns the input.
  pub lzo_decompress-compress :
      (xs out : List ℕ) (cap : ℕ)
      → length xs ≤ cap
      → lzo_compress lzo xs ≡ (success, out)
      → (length out < length xs) × (lzo_decompress lzo out cap ≡ (success, xs))
  unfolding lzo_compress
  lzo_decompress-compress [] out cap h e = cc
  lzo_decompress-compress (x ∷ xs) out cap h e = ground (
    arith,
    l.decompress-compress (x ∷ xs) cap,
    l.compress-nonempty (x ∷ xs),
    lzo_decompress_ok lzo out (x ∷ xs) cap,
  )
