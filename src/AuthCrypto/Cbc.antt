-- ===== src/AuthCrypto/Cbc.antt =====
-- DecryptAuthData and EncryptAuthData of servers/authserver/auth_crypto.cpp: the block cipher in
-- CBC mode, with PKCS#7 padding. A string is the list of its characters' codes.
use ran_online.Base.{
  ℕ, zero, suc, ◌-◌, ◌/◌, ◌%◌, List, [], ◌∷◌, ◌++◌, Bool, true, ◌&&◌, ◌||◌, not, bit_xor,
}
use ran_online.Base.{length, take, drop, get_or, replicate, if◌then◌else◌, ltb, ◌==◌}
use ran_online.AuthCrypto.Rc5.{Shifts, key_expand, encrypt_block, decrypt_block}
use ran_online.AuthCrypto.Hex.{hex_encode, hex_decode}

-- The text 0e0aa086965047fb.
abbrev pub key_str : List ℕ
key_str =
    0x30 ∷ 0x65 ∷ 0x30 ∷ 0x61 ∷ 0x61 ∷ 0x30 ∷ 0x38 ∷ 0x36 ∷ 0x39 ∷ 0x36 ∷ 0x35 ∷ 0x30 ∷ 0x34 ∷ 0x37
    ∷ 0x66 ∷ 0x62 ∷ []

abbrev pub initial_iv : List ℕ
initial_iv = replicate 8 0x01

abbrev pub xor_block : List ℕ → List ℕ → List ℕ
xor_block (x ∷ block) (y ∷ iv) = bit_xor x y ∷ xor_block block iv
xor_block (x ∷ block) [] = []
xor_block [] iv = []

-- `n` blocks from the front of the text.
unfoldable pub encrypt_chain : Shifts → List ℕ → ℕ → List ℕ → List ℕ → List ℕ
encrypt_chain m s_table zero current_iv padded = []
encrypt_chain m s_table (suc n) current_iv padded =
    let cipher = encrypt_block m s_table (xor_block (take 8 padded) current_iv) in
    cipher ++ encrypt_chain m s_table n cipher (drop 8 padded)

unfoldable pub decrypt_chain : Shifts → List ℕ → ℕ → List ℕ → List ℕ → List ℕ
decrypt_chain m s_table zero current_iv cipher = []
decrypt_chain m s_table (suc n) current_iv cipher =
    xor_block (decrypt_block m s_table (take 8 cipher)) current_iv
    ++ decrypt_chain m s_table n (take 8 cipher) (drop 8 cipher)

unfoldable pub pad : List ℕ → List ℕ
pad plaintext = let pad_len = 8 - length plaintext % 8 in plaintext ++ replicate pad_len pad_len

unfoldable pub all_equal : ℕ → List ℕ → Bool
all_equal v [] = true
all_equal v (x ∷ xs) = (x == v) && all_equal v xs

-- The empty string also stands for bad padding.
unfoldable pub unpad : List ℕ → List ℕ
unpad plaintext =
    let size = length plaintext in
    let pad_len = get_or plaintext (size - 1) 0 in
    if size == 0
    then []
    else if ltb 8 pad_len || (pad_len == 0)
    then []
    else if all_equal pad_len (drop (size - pad_len) plaintext)
    then take (size - pad_len) plaintext
    else []

unfoldable pub decrypt_auth_data : Shifts → List ℕ → List ℕ
decrypt_auth_data m encrypted_hex =
    let cipher_bytes = hex_decode encrypted_hex in
    if (length cipher_bytes == 0) || not (length cipher_bytes % 8 == 0)
    then []
    else unpad
        (decrypt_chain m (key_expand m key_str) (length cipher_bytes / 8) initial_iv cipher_bytes)

unfoldable pub encrypt_auth_data : Shifts → List ℕ → List ℕ
encrypt_auth_data m plaintext =
    let padded = pad plaintext in
    hex_encode (encrypt_chain m (key_expand m key_str) (length padded / 8) initial_iv padded)
