-- ===== src/SendBuffer/Memory.antt =====
-- memcpy into an array, read back.
use ran_online.Base.{ℕ, ◌+◌, ◌≤◌, ◌≡◌, sym, List, ◌++◌}
use ran_online.Base.{
  arith, length, take, drop, length-append, length-take, length-drop, take-append_length,
  drop-append_length, append_assoc,
}
use ran_online.SendBuffer.{write_at}

module _ (buf : List ℕ) (offset : ℕ) (bytes : List ℕ)
    (fits : offset + length bytes ≤ length buf) where
  -- A copy that fits keeps the array's length.
  pub length-write_at : length (write_at buf offset bytes) ≡ length buf
  unfolding write_at
  length-write_at = omega (
    arith,
    length-append (take offset buf) (bytes ++ drop (offset + length bytes) buf),
    length-append bytes (drop (offset + length bytes) buf),
    length-take offset buf,
    length-drop (offset + length bytes) buf,
  )

  pub drop-write_at :
      drop offset (write_at buf offset bytes) ≡ bytes ++ drop (offset + length bytes) buf
  unfolding write_at
  drop-write_at =
      drop-append_length (take offset buf) _ offset (omega (arith, length-take offset buf))

  -- The array up to the end of the copy.
  pub take-write_at :
      take (offset + length bytes) (write_at buf offset bytes) ≡ take offset buf ++ bytes
  unfolding write_at
  take-write_at =
      rw (sym (append_assoc (take offset buf) bytes (drop (offset + length bytes) buf))) (
        take-append_length (take offset buf ++ bytes) _ _
          (omega (arith, length-append (take offset buf) bytes, length-take offset buf)))

pub write_at-zero : (buf bytes : List ℕ) → write_at buf 0 bytes ≡ bytes ++ drop (length bytes) buf
unfolding write_at
write_at-zero buf bytes = let e : 0 + length bytes ≡ length bytes = omega arith in rw e
