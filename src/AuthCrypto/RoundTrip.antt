-- ===== src/AuthCrypto/RoundTrip.antt =====
-- DecryptAuthData gives back what EncryptAuthData took, in servers/authserver/auth_crypto.cpp.
use ran_online.Base.{
  ℕ, zero, suc, ◌+◌, ◌-◌, ◌*◌, ◌/◌, ◌%◌, ◌<◌, ◌≡◌, ◌∙◌, sym, refl, ap₂, List, [], ◌∷◌, ◌++◌, true,
  false, length, take, drop, get_or, replicate, ltb, ◌==◌, arith, IsByte, IsBytes,
}
use ran_online.Base.{
  length-append, length-take, length-drop, length-replicate, take-append_length, drop-append_length,
  take-append-drop, All-append, All-take, All-drop,
}
use ran_online.Base.Bits.{bit_xor_undo, bit_xor-lt}
use ran_online.AuthCrypto.Rc5.{Shifts, IsHarmless, key_expand, encrypt_block}
use ran_online.AuthCrypto.Rc5.Block.{
  decrypt_block-encrypt_block, length-encrypt_block, encrypt_block-IsBytes,
}
use ran_online.AuthCrypto.Hex.RoundTrip.{hex_decode-hex_encode, length-hex_encode}
use ran_online.AuthCrypto.Cbc.{
  key_str, initial_iv, xor_block, encrypt_chain, decrypt_chain, pad, all_equal, unpad,
  encrypt_auth_data, decrypt_auth_data,
}

length-xor_block : (xs ys : List ℕ) → length xs ≡ length ys → length (xor_block xs ys) ≡ length xs
length-xor_block [] ys h = refl
length-xor_block (x ∷ xs) [] h = omega arith
length-xor_block (x ∷ xs) (y ∷ ys) h = omega (arith, length-xor_block xs ys (omega arith))

xor_block-IsBytes : (xs ys : List ℕ) → IsBytes xs → IsBytes ys → IsBytes (xor_block xs ys)
xor_block-IsBytes [] ys h k = h
xor_block-IsBytes (x ∷ xs) [] h k = k
xor_block-IsBytes (x ∷ xs) (y ∷ ys) (hx, hs) (ky, ks) =
    (bit_xor-lt 8 x y hx ky, xor_block-IsBytes xs ys hs ks)

xor_block_undo : (xs ys : List ℕ) → length xs ≡ length ys → xor_block (xor_block xs ys) ys ≡ xs
xor_block_undo [] ys h = refl
xor_block_undo (x ∷ xs) [] h = absurd (omega arith)
xor_block_undo (x ∷ xs) (y ∷ ys) h = ap₂ ◌∷◌ (bit_xor_undo x y) (xor_block_undo xs ys (omega arith))

nothing : (xs : List ℕ) → length xs ≡ 0 → [] ≡ xs
nothing [] h = refl
nothing (x ∷ xs) h = absurd (omega arith)

all_equal-replicate : (v n : ℕ) → all_equal v (replicate n v) ≡ true
unfolding all_equal
all_equal-replicate v zero = refl
all_equal-replicate v (suc n) =
    let e : (v == v) ≡ true = ground arith in rw e (all_equal-replicate v n)

get_or-replicate : (v d n i : ℕ) → i < n → get_or (replicate n v) i d ≡ v
get_or-replicate v d zero i h = absurd (omega arith)
get_or-replicate v d (suc n) zero h = refl
get_or-replicate v d (suc n) (suc i) h = get_or-replicate v d n i (omega arith)

get_or-append_rest :
    (xs ys : List ℕ) (j d : ℕ) → get_or (xs ++ ys) (length xs + j) d ≡ get_or ys j d
get_or-append_rest [] ys j d = let e : zero + j ≡ j = omega arith in rw e refl
get_or-append_rest (x ∷ xs) ys j d =
    let e : suc (length xs) + j ≡ suc (length xs + j) = omega arith in
    rw e (get_or-append_rest xs ys j d)

get_or-append_last :
    (xs : List ℕ) (v d n : ℕ) → 0 < n → get_or (xs ++ replicate n v) (length xs + n - 1) d ≡ v
get_or-append_last xs v d n h =
    let e : length xs + n - 1 ≡ length xs + (n - 1) = omega arith in
    rw e (
      get_or-append_rest xs (replicate n v) (n - 1) d
      ∙ get_or-replicate v d n (n - 1) (omega arith))

length-pad : (p : List ℕ) → length (pad p) ≡ (length p / 8 + 1) * 8
unfolding pad
length-pad p = omega (
  arith,
  length-append p (replicate (8 - length p % 8) (8 - length p % 8)),
  length-replicate (8 - length p % 8) (8 - length p % 8),
)

replicate-IsBytes : (v n : ℕ) → v < 256 → IsBytes (replicate n v)
replicate-IsBytes v zero h = record {}
replicate-IsBytes v (suc n) h = (h, replicate-IsBytes v n h)

pad-IsBytes : (p : List ℕ) → IsBytes p → IsBytes (pad p)
unfolding pad
pad-IsBytes p h =
    All-append IsByte p _ h (replicate-IsBytes (8 - length p % 8) (8 - length p % 8) (omega arith))

unpad-pad : (p : List ℕ) → unpad (pad p) ≡ p
unfolding unpad pad
unpad-pad p =
    let k = 8 - length p % 8 in
    let filler = replicate k k in
    let size : length (p ++ filler) ≡ length p + k =
      omega (arith, length-append p filler, length-replicate k k) in
    let last : get_or (p ++ filler) (length p + k - 1) 0 ≡ k =
      get_or-append_last p k 0 k (omega arith) in
    let some_size : (length p + k == 0) ≡ false = ground arith in
    let small : ltb 8 k ≡ false = ground arith in
    let some_pad : (k == 0) ≡ false = ground arith in
    let cut : length p + k - k ≡ length p = omega arith in
    rw
      (
        size,
        last,
        some_size,
        small,
        some_pad,
        cut,
        drop-append_length p filler (length p) refl,
        all_equal-replicate k k,
      )
      (take-append_length p filler (length p) refl)

module _ (m : Shifts) (ok : IsHarmless m) where
  module _ (table : List ℕ) where
    length-encrypt_chain : (n : ℕ) (iv xs : List ℕ) → length (encrypt_chain m table n iv xs) ≡ n * 8
    unfolding encrypt_chain
    length-encrypt_chain zero iv xs = refl
    length-encrypt_chain (suc n) iv xs =
        let c = encrypt_block m table (xor_block (take 8 xs) iv) in
        omega (
          arith,
          length-append c (encrypt_chain m table n c (drop 8 xs)),
          length-encrypt_block m ok table (xor_block (take 8 xs) iv),
          length-encrypt_chain n c (drop 8 xs),
        )

    encrypt_chain-IsBytes : (n : ℕ) (iv xs : List ℕ) → IsBytes (encrypt_chain m table n iv xs)
    unfolding encrypt_chain
    encrypt_chain-IsBytes zero iv xs = record {}
    encrypt_chain-IsBytes (suc n) iv xs =
        All-append IsByte _ _ (encrypt_block-IsBytes m ok table _)
          (encrypt_chain-IsBytes n _ (drop 8 xs))

    decrypt_chain-encrypt_chain :
        (n : ℕ) (iv xs : List ℕ)
        → IsBytes iv
        → IsBytes xs
        → length iv ≡ 8
        → length xs ≡ n * 8
        → decrypt_chain m table n iv (encrypt_chain m table n iv xs) ≡ xs
    unfolding encrypt_chain decrypt_chain
    decrypt_chain-encrypt_chain zero iv xs hi hs li ls = nothing xs ls
    decrypt_chain-encrypt_chain (suc n) iv xs hi hs li ls =
        let front = take 8 xs in
        let long : length front ≡ 8 = omega (arith, length-take 8 xs) in
        let block = xor_block front iv in
        let block_long : length block ≡ 8 = length-xor_block front iv (long ∙ sym li) ∙ long in
        let c = encrypt_block m table block in
        let c_long : 8 ≡ length c = sym (length-encrypt_block m ok table block) in
        let later = encrypt_chain m table n c (drop 8 xs) in
        let now =
          decrypt_block-encrypt_block m ok table block
            (xor_block-IsBytes front iv (All-take IsByte 8 xs hs) hi) block_long in
        rw
          (
            take-append_length c later 8 c_long,
            drop-append_length c later 8 c_long,
            now,
            xor_block_undo front iv (long ∙ sym li),
            decrypt_chain-encrypt_chain n c (drop 8 xs) (encrypt_block-IsBytes m ok table block)
                (All-drop IsByte 8 xs hs) (sym c_long) (omega (arith, length-drop 8 xs)),
          )
          (take-append-drop 8 xs)

  -- Where the undefined shifts are harmless, the encrypted text of `p` has 16 characters for each block of eight bytes of `p`, one more
  -- block for the padding included. So it fits the 500 characters of `szAuthData` up to 247
  -- bytes.
  pub length-encrypt_auth_data :
      (p : List ℕ) → length (encrypt_auth_data m p) ≡ (length p / 8 + 1) * 16
  unfolding encrypt_auth_data
  length-encrypt_auth_data p =
      let table = key_expand m key_str in
      let n = length (pad p) / 8 in
      omega (
        arith,
        length-hex_encode (encrypt_chain m table n initial_iv (pad p)),
        length-encrypt_chain table n initial_iv (pad p),
        length-pad p,
      )

  -- DecryptAuthData gives back every byte string that EncryptAuthData took, the empty one
  -- included, through padding, CBC, the block cipher and the hexadecimal text, where the
  -- undefined shifts are harmless.
  pub decrypt-encrypt_auth_data :
      (p : List ℕ) → IsBytes p → decrypt_auth_data m (encrypt_auth_data m p) ≡ p
  unfolding encrypt_auth_data decrypt_auth_data
  decrypt-encrypt_auth_data p bytes =
      let table = key_expand m key_str in
      let blocks = length (pad p) / 8 in
      let cipher = encrypt_chain m table blocks initial_iv (pad p) in
      let long : length cipher ≡ blocks * 8 =
        length-encrypt_chain table blocks initial_iv (pad p) in
      let size = length-pad p in
      let some_blocks : (length cipher == 0) ≡ false = ground arith in
      let whole_blocks : (length cipher % 8 == 0) ≡ true = ground arith in
      let count : length cipher / 8 ≡ blocks = omega arith in
      let chain =
        decrypt_chain-encrypt_chain table blocks initial_iv (pad p)
          (replicate-IsBytes 1 8 (omega arith)) (pad-IsBytes p bytes) refl (omega arith) in
      rw
        (
          hex_decode-hex_encode cipher (encrypt_chain-IsBytes table blocks initial_iv (pad p)),
          some_blocks,
          whole_blocks,
          count,
          chain,
        )
        (unpad-pad p)
