-- ===== src/AuthCrypto/Hex.antt =====
-- HexEncode and HexDecode of servers/authserver/auth_crypto.cpp, with the `strtol` of the standard
-- library in base 16. A character is its code.
pub mod RoundTrip
use ran_online.Base.{
  ℕ, zero, suc, ◌+◌, ◌-◌, ◌*◌, ◌/◌, ◌%◌, List, [], ◌∷◌, ◌++◌, Bool, true, false, ◌&&◌, ◌||◌, Option,
  some, none,
}
use ran_online.Base.{length, if◌then◌else◌, ltb, leb, ◌==◌}

-- `std::hex` writes small letters.
unfoldable pub hex_digit : ℕ → ℕ
hex_digit n = if ltb n 10 then 0x30 + n else 0x57 + n

-- `setw(2)` with the fill `0`.
unfoldable pub hex_encode : List ℕ → List ℕ
hex_encode [] = []
hex_encode (b ∷ bytes) = hex_digit (b / 16) ∷ hex_digit (b % 16) ∷ hex_encode bytes

unfoldable pub digit_value : ℕ → Option ℕ
digit_value c =
    if leb 0x30 c && leb c 0x39
    then some (c - 0x30)
    else if leb 0x61 c && leb c 0x66
    then some (c - 0x57)
    else if leb 0x41 c && leb c 0x46
    then some (c - 0x37)
    else none

-- The longest prefix of digits, behind `acc`.
unfoldable pub digits : ℕ → List ℕ → ℕ
digits acc [] = acc
digits acc (c ∷ s) = elim (digit_value c) [ none ↦ acc | some d ↦ digits (acc * 16 + d) s ]

-- An `x` behind a zero is skipped where a digit follows.
skip_prefix : List ℕ → List ℕ
skip_prefix (z ∷ x ∷ d ∷ s) =
    if (z == 0x30) && ((x == 0x78) || (x == 0x58))
    then elim (digit_value d) [ none ↦ z ∷ x ∷ d ∷ s | some _ ↦ d ∷ s ]
    else z ∷ x ∷ d ∷ s
skip_prefix s = s

is_space : ℕ → Bool
is_space c = (c == 0x20) || (leb 0x09 c && leb c 0x0d)

-- The value cast to a byte.
signed_byte : List ℕ → ℕ
unfolding skip_prefix
signed_byte [] = 0
signed_byte (c ∷ s) =
    if c == 0x2d
    then (256 - digits 0 (skip_prefix s) % 256) % 256
    else digits 0 (skip_prefix (if c == 0x2b then s else c ∷ s)) % 256

unfoldable pub strtol_byte : List ℕ → ℕ
unfolding is_space signed_byte
strtol_byte [] = 0
strtol_byte (c ∷ s) = if is_space c then strtol_byte s else signed_byte (c ∷ s)

hex_pairs : List ℕ → List ℕ
hex_pairs (x ∷ y ∷ hex) = strtol_byte (x ∷ y ∷ []) ∷ hex_pairs hex
hex_pairs hex = []

unfoldable pub hex_decode : List ℕ → List ℕ
unfolding hex_pairs
hex_decode hex = if length hex % 2 == 0 then hex_pairs hex else []
