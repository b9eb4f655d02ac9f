-- ===== src/MsgPack/RoundTrip.antt =====
-- Reading back what the encoder wrote.
use ran_online.Base.{
  ℕ, suc, ◌+◌, ◌-◌, ◌*◌, ◌/◌, ◌%◌, ◌^◌, ◌≤◌, ◌<◌, ◌≡◌, refl, ap, List, ◌∷◌, ◌++◌, Bool, true, false,
  some, bit_and, bit_or, append_assoc,
}
use ran_online.Base.{
  inl, inr, length, ltb, leb, arith, Bool-cases, length-append, take-append_length,
  drop-append_length,
}
use ran_online.Base.Bits.{bit_and_byte, bit_and_five, bit_or_disjoint}
use ran_online.Base.Int.{ℤ, pos, negsuc, of_word, to_word, IsInt}
use ran_online.MsgPack.{be, array, uint, int, negative, str, bool}
use ran_online.MsgPack.Format.{
  Item, num, text, truth, head, read_be, decode, decode_tagged, natural, signed, map_value,
  take_text,
}

read_be-be_two : (v : ℕ) (rest : List ℕ) → read_be 2 0 (be v 2 ++ rest) ≡ some (v % 2 ^ 16, rest)
unfolding read_be be
read_be-be_two v rest =
    rw (bit_and_byte (v / 2 ^ 8), bit_and_byte (v / 2 ^ 0))
      (ap (λ (n : ℕ). some (n, rest)) (omega arith))

read_be-be_four : (v : ℕ) (rest : List ℕ) → read_be 4 0 (be v 4 ++ rest) ≡ some (v % 2 ^ 32, rest)
unfolding read_be be
read_be-be_four v rest =
    rw
      (
        bit_and_byte (v / 2 ^ 24),
        bit_and_byte (v / 2 ^ 16),
        bit_and_byte (v / 2 ^ 8),
        bit_and_byte (v / 2 ^ 0),
      )
      (ap (λ (n : ℕ). some (n, rest)) (omega arith))

read_be-be_eight : (v : ℕ) (rest : List ℕ) → read_be 8 0 (be v 8 ++ rest) ≡ some (v % 2 ^ 64, rest)
unfolding read_be be
read_be-be_eight v rest =
    rw
      (
        bit_and_byte (v / 2 ^ 56),
        bit_and_byte (v / 2 ^ 48),
        bit_and_byte (v / 2 ^ 40),
        bit_and_byte (v / 2 ^ 32),
        bit_and_byte (v / 2 ^ 24),
        bit_and_byte (v / 2 ^ 16),
        bit_and_byte (v / 2 ^ 8),
        bit_and_byte (v / 2 ^ 0),
      )
      (ap (λ (n : ℕ). some (n, rest)) (omega arith))

-- A value that fits the width comes back as it is.
fit :
    (v m : ℕ) (rest : List ℕ) (f : ℕ → Item)
    → v % m ≡ v
    → map_value f (some (v % m, rest)) ≡ some (f v, rest)
fit v m rest f e = rw e

read_be-byte : (v : ℕ) (rest : List ℕ) → read_be 1 0 (v ∷ rest) ≡ some (v, rest)
unfolding read_be
read_be-byte v rest = ap (λ (n : ℕ). some (n, rest)) (omega arith)

pub decode-uint :
    (v : ℕ) (rest : List ℕ) → v < 2 ^ 64 → decode (uint v ++ rest) ≡ some (num (pos v), rest)
unfolding decode uint decode_tagged
decode-uint v rest h = elim (Bool-cases (leb v 0x7f)) [
  | inl a ↦ rw a (ground arith)
  | inr a ↦ rw a (elim (Bool-cases (leb v 0xff)) [
    | inl b ↦ rw (b, read_be-byte v rest) refl
    | inr b ↦ rw b (elim (Bool-cases (leb v 0xffff)) [
      | inl c ↦ rw (c, read_be-be_two v rest) (fit v _ rest natural (ground arith))
      | inr c ↦ rw c (elim (Bool-cases (leb v 0xffff_ffff)) [
        | inl d ↦ rw (d, read_be-be_four v rest) (fit v _ rest natural (ground arith))
        | inr d ↦ rw (d, read_be-be_eight v rest) (fit v _ rest natural (ground arith))
      ])
    ])
  ])
]

-- A word in the upper half of its width stands for a negative integer.
of_word_high : (w b n : ℕ) → b + suc n ≡ 2 ^ suc w → 2 ^ w ≤ b → of_word w b ≡ negsuc n
of_word_high w b n e h = ground arith

read_signed :
    (w m b n : ℕ) (rest : List ℕ)
    → b % m + suc n ≡ 2 ^ suc w
    → 2 ^ w ≤ b % m
    → map_value (signed w) (some (b % m, rest)) ≡ some (num (negsuc n), rest)
read_signed w m b n rest e h = ap (λ (i : ℤ). some (num i, rest)) (of_word_high w (b % m) n e h)

negative_small : (n v : ℕ) → v + suc n ≡ 2 ^ 64 → n < 32 → bit_or 0xe0 (bit_and v 0x1f) ≡ 255 - n
negative_small n v e h = omega (
  arith,
  bit_and_five v,
  bit_or_disjoint 5 7 (v % 32) (omega arith),
  ap (λ (r : ℕ). bit_or 0xe0 r) (bit_and_five v),
)

decode-small :
    (b n : ℕ) (rest : List ℕ)
    → b ≡ 255 - n
    → n < 32
    → decode (b ∷ rest) ≡ some (num (negsuc n), rest)
unfolding decode
decode-small b n rest e h = ground arith

decode-negative :
    (n v : ℕ) (rest : List ℕ)
    → v + suc n ≡ 2 ^ 64
    → n < 2 ^ 63
    → decode (negative n v ++ rest) ≡ some (num (negsuc n), rest)
unfolding decode negative decode_tagged
decode-negative n v rest e h = elim (Bool-cases (ltb n 32)) [
  | inl a ↦ rw a (decode-small _ n rest (negative_small n v e (ground arith)) (ground arith))
  | inr a ↦ rw a (elim (Bool-cases (ltb n 128)) [
    | inl b ↦
        rw (b, read_be-byte (bit_and v 0xff) rest, bit_and_byte v)
          (read_signed 7 _ v n rest (ground arith) (ground arith))
    | inr b ↦ rw b (elim (Bool-cases (ltb n 32768)) [
      | inl c ↦
          rw (c, read_be-be_two v rest) (read_signed 15 _ v n rest (ground arith) (ground arith))
      | inr c ↦ rw c (elim (Bool-cases (ltb n 2147483648)) [
        | inl d ↦
            rw (d, read_be-be_four v rest) (read_signed 31 _ v n rest (ground arith) (ground arith))
        | inr d ↦
            rw (d, read_be-be_eight v rest)
              (read_signed 63 _ v n rest (ground arith) (ground arith))
      ])
    ])
  ])
]

-- Every 64-bit integer that `Int` writes (the naturals that `UInt` writes among them), with
-- anything behind it, is read back by a reader of the format, whichever of the ten widths the
-- encoder picked, and what stands behind it is left.
pub decode-int : (i : ℤ) (rest : List ℕ) → IsInt 63 i → decode (int i ++ rest) ≡ some (num i, rest)
unfolding int
decode-int (pos n) rest h = decode-uint n rest (ground arith)
decode-int (negsuc n) rest h = decode-negative n (to_word 64 (negsuc n)) rest (omega arith) h

take_text-append :
    (s rest : List ℕ) (n : ℕ) → n ≡ length s → take_text (some (n, s ++ rest)) ≡ some (text s, rest)
take_text-append s rest n e =
    rw (e, take-append_length s rest, drop-append_length s rest)
      (ground (arith, length-append s rest))

decode-short :
    (s rest : List ℕ)
    → length s ≤ 31
    → decode ((5 * 2 ^ 5 + length s) ∷ (s ++ rest)) ≡ some (text s, rest)
unfolding decode
decode-short s rest h =
    let a : ltb (5 * 2 ^ 5 + length s) 0x80 ≡ false = ground arith in
    let b : ltb (5 * 2 ^ 5 + length s) 0x90 ≡ false = ground arith in
    let c : ltb (5 * 2 ^ 5 + length s) 0xa0 ≡ false = ground arith in
    let d : ltb (5 * 2 ^ 5 + length s) 0xc0 ≡ true = ground arith in
    rw (a, b, c, d) (take_text-append s rest _ (omega arith))

-- Every text shorter than 2 ^ 32 bytes that `Str` writes is read back, whichever of the four
-- headers the encoder picked, and what stands behind it is left.
pub decode-str :
    (s rest : List ℕ) → length s < 2 ^ 32 → decode (str s ++ rest) ≡ some (text s, rest)
unfolding decode str decode_tagged
decode-str s rest h = elim (Bool-cases (leb (length s) 31)) [
  | inl a ↦
      rw (a, bit_or_disjoint 5 5 (length s) (ground arith)) (decode-short s rest (ground arith))
  | inr a ↦ rw a (elim (Bool-cases (leb (length s) 0xff)) [
    | inl b ↦ rw (b, read_be-byte (length s) (s ++ rest)) (take_text-append s rest (length s) refl)
    | inr b ↦ rw b (elim (Bool-cases (leb (length s) 0xffff)) [
      | inl c ↦
          rw (c, append_assoc (be (length s) 2) s rest, read_be-be_two (length s) (s ++ rest))
            (take_text-append s rest _ (ground arith))
      | inr c ↦
          rw (c, append_assoc (be (length s) 4) s rest, read_be-be_four (length s) (s ++ rest))
            (take_text-append s rest _ (ground arith))
    ])
  ])
]

-- The head that `Array` writes for fewer than 2 ^ 32 elements is read back with their number, in
-- each of its three forms.
pub decode-array :
    (n : ℕ) (rest : List ℕ) → n < 2 ^ 32 → decode (array n ++ rest) ≡ some (head n, rest)
unfolding decode array decode_tagged
decode-array n rest h = elim (Bool-cases (leb n 15)) [
  | inl a ↦ rw (a, bit_or_disjoint 4 9 n (ground arith)) (ground arith)
  | inr a ↦ rw a (elim (Bool-cases (leb n 0xffff)) [
    | inl c ↦ rw (c, read_be-be_two n rest) (fit n _ rest head (ground arith))
    | inr c ↦ rw (c, read_be-be_four n rest) (fit n _ rest head (ground arith))
  ])
]

pub decode-bool : (b : Bool) (rest : List ℕ) → decode (bool b ++ rest) ≡ some (truth b, rest)
unfolding decode bool decode_tagged
decode-bool true rest = refl
decode-bool false rest = refl
