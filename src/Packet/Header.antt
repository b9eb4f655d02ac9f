-- ===== src/Packet/Header.antt =====
-- ReadLE32, WriteLE32 and the header fields of a frame, as arithmetic.
use ran_online.Base.{ℕ, ◌+◌, ◌*◌, ◌/◌, ◌%◌, ◌^◌, ◌≤◌, ◌<◌, ◌≡◌, refl, List, [], ◌∷◌, ◌++◌}
use ran_online.Base.{arith, length, drop, take, IsBytes, bit_or}
use ran_online.Base.{get_or-append_lt, drop-append_length, append_assoc, ◌∙◌, sym}
use ran_online.Base.Bits.{bit_and_byte, bit_or_disjoint, bit_or_comm}
use ran_online.Packet.{read_le32, write_le32, encode_message, header_size}

-- Little-endian fields do not overlap, so `|` is a sum.
or_fields :
    (a b c d : ℕ)
    → a < 256
    → b < 256
    → c < 256
    → bit_or (bit_or (bit_or a (b * 2 ^ 8)) (c * 2 ^ 16)) (d * 2 ^ 24)
      ≡ a + b * 2 ^ 8 + c * 2 ^ 16 + d * 2 ^ 24
or_fields a b c d ha hb hc =
    rw
      (
        bit_or_comm a (b * 2 ^ 8),
        bit_or_disjoint 8 b a ha,
        bit_or_comm (b * 2 ^ 8 + a) (c * 2 ^ 16),
        bit_or_disjoint 16 c (b * 2 ^ 8 + a) (omega arith),
        bit_or_comm (c * 2 ^ 16 + (b * 2 ^ 8 + a)) (d * 2 ^ 24),
        bit_or_disjoint 24 d (c * 2 ^ 16 + (b * 2 ^ 8 + a)) (omega arith),
      )
      (omega arith)

-- Reading back what was written, whatever follows.
pub read_le32-write_le32 :
    (v : ℕ) (rest : List ℕ) → v < 2 ^ 32 → read_le32 (write_le32 v ++ rest) ≡ v
unfolding read_le32 write_le32
read_le32-write_le32 v rest h =
    rw
      (
        bit_and_byte v,
        bit_and_byte (v / 2 ^ 8),
        bit_and_byte (v / 2 ^ 16),
        bit_and_byte (v / 2 ^ 24),
        or_fields (v % 256) (v / 2 ^ 8 % 256) (v / 2 ^ 16 % 256) (v / 2 ^ 24 % 256) (omega arith)
            (omega arith) (omega arith),
      )
      (omega arith)

pub length-write_le32 : (v : ℕ) → length (write_le32 v) ≡ 4
unfolding write_le32
length-write_le32 v = refl

pub write_le32-IsBytes : (v : ℕ) → IsBytes (write_le32 v)
unfolding write_le32
write_le32-IsBytes v =
    rw
      (
        bit_and_byte v,
        bit_and_byte (v / 2 ^ 8),
        bit_and_byte (v / 2 ^ 16),
        bit_and_byte (v / 2 ^ 24),
      )
      (omega arith)

-- What follows the four bytes does not matter.
pub read_le32-append : (xs ys : List ℕ) → 4 ≤ length xs → read_le32 (xs ++ ys) ≡ read_le32 xs
unfolding read_le32
read_le32-append xs ys h = rw (
  get_or-append_lt xs ys 0 0 (omega arith),
  get_or-append_lt xs ys 1 0 (omega arith),
  get_or-append_lt xs ys 2 0 (omega arith),
  get_or-append_lt xs ys 3 0 (omega arith),
)

-- The header of an encoded message, and its length.
module _ (type : ℕ) (payload rest : List ℕ) (fits : length payload + header_size < 2 ^ 32) where
  pub size-encode_message :
      read_le32 (encode_message type payload ++ rest) ≡ header_size + length payload
  unfolding encode_message
  size-encode_message =
      rw append_assoc (
        read_le32-write_le32 ((header_size + length payload) % 2 ^ 32) _ (omega arith)
        ∙ omega arith)

  pub type-encode_message :
      type < 2 ^ 32 → read_le32 (drop 4 (encode_message type payload ++ rest)) ≡ type
  unfolding encode_message
  type-encode_message h =
      rw
        (
          append_assoc,
          drop-append_length (write_le32 ((header_size + length payload) % 2 ^ 32)) _ 4
              (sym (length-write_le32 _)),
          append_assoc,
        )
        (read_le32-write_le32 type (payload ++ rest) h)

pub length-encode_message :
    (type : ℕ) (payload : List ℕ)
    → length (encode_message type payload) ≡ header_size + length payload
unfolding encode_message write_le32
length-encode_message type payload = omega arith

four_bytes :
    (a b c d : ℕ) (rest : List ℕ)
    → a < 256
    → b < 256
    → c < 256
    → d < 256
    → write_le32 (read_le32 (a ∷ b ∷ c ∷ d ∷ rest)) ≡ a ∷ b ∷ c ∷ d ∷ []
unfolding read_le32 write_le32
four_bytes a b c d rest ha hb hc hd =
    let v = a + b * 2 ^ 8 + c * 2 ^ 16 + d * 2 ^ 24 in
    let e0 : v % 256 ≡ a = omega arith in
    let e1 : v / 2 ^ 8 % 256 ≡ b = omega arith in
    let e2 : v / 2 ^ 16 % 256 ≡ c = omega arith in
    let e3 : v / 2 ^ 24 % 256 ≡ d = omega arith in
    rw
      (
        or_fields a b c d ha hb hc,
        bit_and_byte v,
        bit_and_byte (v / 2 ^ 8),
        bit_and_byte (v / 2 ^ 16),
        bit_and_byte (v / 2 ^ 24),
        e0,
        e1,
        e2,
        e3,
      )
      refl

pub write_le32-read_le32 :
    (xs : List ℕ) → IsBytes xs → 4 ≤ length xs → write_le32 (read_le32 xs) ≡ take 4 xs
write_le32-read_le32 [] bytes h = absurd (omega arith)
write_le32-read_le32 (a ∷ []) bytes h = absurd (omega arith)
write_le32-read_le32 (a ∷ b ∷ []) bytes h = absurd (omega arith)
write_le32-read_le32 (a ∷ b ∷ c ∷ []) bytes h = absurd (omega arith)
write_le32-read_le32 (a ∷ b ∷ c ∷ d ∷ rest) (ha, (hb, (hc, (hd, more)))) h =
    four_bytes a b c d rest ha hb hc hd

pub read_le32-lt : (xs : List ℕ) → IsBytes xs → 4 ≤ length xs → read_le32 xs < 2 ^ 32
unfolding read_le32
read_le32-lt [] bytes h = absurd (omega arith)
read_le32-lt (a ∷ []) bytes h = absurd (omega arith)
read_le32-lt (a ∷ b ∷ []) bytes h = absurd (omega arith)
read_le32-lt (a ∷ b ∷ c ∷ []) bytes h = absurd (omega arith)
read_le32-lt (a ∷ b ∷ c ∷ d ∷ rest) (ha, (hb, (hc, (hd, more)))) h =
    rw (or_fields a b c d ha hb hc) (omega arith)
