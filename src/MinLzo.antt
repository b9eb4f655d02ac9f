-- ===== src/MinLzo.antt =====
-- net/minlzo.{h,cpp}: the wrapper CMinLzo around the LZO library, which is not in the
-- repository's src and enters as the record `Lzo`.
pub mod Laws
use ran_online.Base.{
  ℕ, ◌+◌, ◌/◌, ◌<◌, ◌≤◌, ◌≡◌, Bool, true, false, List, [], ◌∷◌, length, leb, if◌then◌else◌,
}

-- What an LZO call leaves behind: whether it returned LZO_E_OK, and the bytes that it wrote,
-- whose number is the length that it reports.
pub record LzoResult : Type 0 where
  pub lzo_ok : Bool
  pub written : List ℕ

-- lzo1x_1_compress, and lzo1x_decompress_safe with the size of its output buffer.
pub record Lzo : Type 0 where
  pub lzo1x_1_compress : List ℕ → LzoResult
  pub lzo1x_decompress_safe : List ℕ → ℕ → LzoResult

-- What LZO documents: decompression gives back what was compressed, if the output buffer is large
-- enough; compression grows its input by a sixteenth and 67 bytes at most, and what it writes
-- ends in a marker, so it is not empty.
pub record IsLossless (lzo : Lzo) : Type 0 where
  pub decompress-compress :
      (xs : List ℕ) (cap : ℕ)
      → length xs ≤ cap
      → (lzo.lzo1x_1_compress xs).lzo_ok ≡ true
      → lzo.lzo1x_decompress_safe (lzo.lzo1x_1_compress xs).written cap
        ≡ record { lzo_ok = true; written = xs }
  pub compress-bounded :
      (xs : List ℕ) → length (lzo.lzo1x_1_compress xs).written ≤ length xs + length xs / 16 + 67
  pub compress-nonempty : (xs : List ℕ) → 0 < length (lzo.lzo1x_1_compress xs).written

pub data Code : Type 0 where
  success error input_data_error internal_error can_not_compress : Code

pub data ErrorString : Type 0 where
  no_error lzo_init_failed out_of_memory input_error not_compressible compress_internal
        not_decompressible :
      ErrorString

-- The state of the singleton. `workmem` is whether the work memory is allocated.
pub record MinLzo : Type 0 where
  pub workmem : Bool
  pub is_init : Bool
  pub error_string : ErrorString

unfoldable pub new_min_lzo : MinLzo
new_min_lzo = record { workmem = false; is_init = false; error_string = no_error }

-- `init_ok` and `malloc_ok` are what lzo_init and malloc answer on this call.
unfoldable pub init : Bool → Bool → MinLzo → MinLzo × Code
init init_ok malloc_ok m =
    if m.is_init
    then (m, success)
    else if init_ok
    then (if malloc_ok
        then (record m { workmem = true; is_init = true }, success)
        else (record m { workmem = false; is_init = false; error_string = out_of_memory }, error))
    else (record m { is_init = false; error_string = lzo_init_failed }, error)

-- The code and the bytes written to the output buffer.
pub compress_outcome : ℕ → LzoResult → Code × List ℕ
compress_outcome in_length r =
    if r.lzo_ok
    then (if leb in_length (length r.written)
        then (can_not_compress, r.written)
        else (success, r.written))
    else (internal_error, r.written)

unfoldable pub lzo_compress : Lzo → List ℕ → Code × List ℕ
unfolding compress_outcome
lzo_compress lzo [] = (input_data_error, [])
lzo_compress lzo (x ∷ xs) = compress_outcome (length (x ∷ xs)) (lzo.lzo1x_1_compress (x ∷ xs))

pub decompress_outcome : ℕ → LzoResult → Code × List ℕ
decompress_outcome in_length r =
    if r.lzo_ok
    then (if leb in_length (length r.written) then (success, r.written) else (error, r.written))
    else (error, r.written)

unfoldable pub lzo_decompress : Lzo → List ℕ → ℕ → Code × List ℕ
unfolding decompress_outcome
lzo_decompress lzo [] cap = (input_data_error, [])
lzo_decompress lzo (x ∷ xs) cap =
    decompress_outcome (length (x ∷ xs)) (lzo.lzo1x_decompress_safe (x ∷ xs) cap)
