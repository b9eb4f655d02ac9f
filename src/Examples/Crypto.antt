-- ===== src/Examples/Crypto.antt =====
-- The cipher on a machine that masks the count of a shift to its low five bits, as x86 does.
use ran_online.Base.{ℕ, ◌+◌, ◌*◌, ◌/◌, ◌≡◌, refl, List, [], ◌∷◌, arith, length, codes, IsBytes}
use ran_online.Base.Bits.{bit_or_self}
use ran_online.AuthCrypto.Rc5.{Shifts, IsHarmless, encrypt_block, decrypt_block}
use ran_online.AuthCrypto.Rc5.Block.{decrypt_block-encrypt_block}
use ran_online.AuthCrypto.Cbc.{encrypt_auth_data, decrypt_auth_data}
use ran_online.AuthCrypto.RoundTrip.{length-encrypt_auth_data, decrypt-encrypt_auth_data}

abbrev pub masked : Shifts
masked = record { right_32 = λ v. v; left_32 = λ v. v }

pub masked-IsHarmless : IsHarmless masked
masked-IsHarmless v h = (bit_or_self v, bit_or_self v)

-- A certification text: provider, server type, address, port, key, certification.
abbrev cert : List ℕ
cert = codes "1,4,127.0.0.1,5001,abc,1"

cert-IsBytes : IsBytes cert
cert-IsBytes = omega arith

decrypt_block-encrypt_block_example :
    decrypt_block masked (5 ∷ 6 ∷ 7 ∷ []) (encrypt_block masked (5 ∷ 6 ∷ 7 ∷ []) (codes "ranworld"))
    ≡ codes "ranworld"
decrypt_block-encrypt_block_example =
    decrypt_block-encrypt_block masked masked-IsHarmless (5 ∷ 6 ∷ 7 ∷ []) (codes "ranworld")
      (omega arith) refl

length-encrypt_auth_data_example :
    length (encrypt_auth_data masked cert) ≡ (length cert / 8 + 1) * 16
length-encrypt_auth_data_example = length-encrypt_auth_data masked masked-IsHarmless cert

decrypt-encrypt_auth_data_example : decrypt_auth_data masked (encrypt_auth_data masked cert) ≡ cert
decrypt-encrypt_auth_data_example =
    decrypt-encrypt_auth_data masked masked-IsHarmless cert cert-IsBytes
