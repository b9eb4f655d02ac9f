-- ===== src/Examples/Library.antt =====
-- A stand-in for LZO that stores its input behind nothing and ends it by a marker of three bytes.
use ran_online.Base.{
  ℕ, ◌-◌, ◌≡◌, true, List, [], ◌∷◌, ◌++◌, arith, length, length-append, take, take-append_length,
}
use ran_online.MinLzo.{Lzo, IsLossless}

abbrev pub marker : List ℕ
marker = 17 ∷ 0 ∷ 0 ∷ []

abbrev pub stored : Lzo
stored = record {
  lzo1x_1_compress = λ xs. record { lzo_ok = true; written = xs ++ marker };
  lzo1x_decompress_safe = λ ys cap. record { lzo_ok = true; written = take (length ys - 3) ys };
}

stored_back : (xs : List ℕ) → take (length (xs ++ marker) - 3) (xs ++ marker) ≡ xs
stored_back xs = take-append_length xs marker _ (omega (arith, length-append xs marker))

pub stored-IsLossless : IsLossless stored
stored-IsLossless = record {
  decompress-compress = λ xs cap h e. rw (stored_back xs);
  compress-bounded = λ xs. omega (arith, length-append xs marker);
  compress-nonempty = λ xs. omega (arith, length-append xs marker);
}
