-- ===== src/AuthCrypto/Hex/RoundTrip.antt =====
-- HexDecode reads what HexEncode writes, in servers/authserver/auth_crypto.cpp.
use ran_online.Base.{
  ℕ, ◌+◌, ◌*◌, ◌/◌, ◌%◌, ◌≤◌, ◌<◌, ◌≡◌, ◌∙◌, refl, ap₂, List, [], ◌∷◌, true, false, some, length,
  ◌==◌, arith, IsBytes,
}
use ran_online.AuthCrypto.Hex.{
  hex_digit, hex_encode, digit_value, digits, skip_prefix, is_space, signed_byte, strtol_byte,
  hex_pairs, hex_decode,
}

digit_value-hex_digit : (x : ℕ) → x < 16 → digit_value (hex_digit x) ≡ some x
unfolding digit_value hex_digit
digit_value-hex_digit x h = ground arith

hex_digit-range : (x : ℕ) → x < 16 → (48 ≤ hex_digit x) × (hex_digit x < 128)
unfolding hex_digit
hex_digit-range x h = ground arith

strtol_byte-hex_digit :
    (x y : ℕ) → x < 16 → y < 16 → strtol_byte (hex_digit x ∷ hex_digit y ∷ []) ≡ x * 16 + y
unfolding strtol_byte is_space signed_byte skip_prefix digits
strtol_byte-hex_digit x y hx hy =
    let range = hex_digit-range x hx in
    let c = hex_digit x in
    let a : is_space c ≡ false = ground arith in
    let minus : (c == 0x2d) ≡ false = ground arith in
    let plus : (c == 0x2b) ≡ false = ground arith in
    let value : digits 0 (hex_digit x ∷ hex_digit y ∷ []) % 256 ≡ x * 16 + y =
      rw (digit_value-hex_digit x hx, digit_value-hex_digit y hy, digits) (omega arith) in
    rw (a, minus, plus) value

pub length-hex_encode : (bytes : List ℕ) → length (hex_encode bytes) ≡ 2 * length bytes
unfolding hex_encode
length-hex_encode [] = refl
length-hex_encode (b ∷ bytes) = omega (arith, length-hex_encode bytes)

hex_pairs-hex_encode : (bytes : List ℕ) → IsBytes bytes → hex_pairs (hex_encode bytes) ≡ bytes
unfolding hex_pairs hex_encode
hex_pairs-hex_encode [] h = refl
hex_pairs-hex_encode (b ∷ bytes) (hb, hs) =
    ap₂ ◌∷◌ (strtol_byte-hex_digit (b / 16) (b % 16) (omega arith) (omega arith) ∙ whole b)
      (hex_pairs-hex_encode bytes hs)
  where
    whole : (n : ℕ) → n / 16 * 16 + n % 16 ≡ n
    whole n = omega arith

-- HexDecode gives back every list of bytes that HexEncode took.
pub hex_decode-hex_encode : (bytes : List ℕ) → IsBytes bytes → hex_decode (hex_encode bytes) ≡ bytes
unfolding hex_decode
hex_decode-hex_encode bytes h =
    let even : (length (hex_encode bytes) % 2 == 0) ≡ true =
      ground (arith, length-hex_encode bytes) in
    rw even (hex_pairs-hex_encode bytes h)
