-- ===== src/Packet.antt =====
-- net/packet.h and EncodeMessage of net/packet.cpp: the 8-byte little-endian header
-- NET_MSG_GENERIC, messages, and their encoding. A buffer is a list of bytes.
pub mod Header
pub mod Framer
use ran_online.Base.{
  ℕ, ◌+◌, ◌-◌, ◌*◌, ◌/◌, ◌%◌, ◌^◌, ◌≤◌, ◌<◌, bit_and, bit_or, List, [], ◌∷◌, ◌++◌,
}
use ran_online.Base.{length, get_or, drop, take, if◌then◌else◌, ltb}

abbrev pub header_size : ℕ
header_size = 8

-- NET_DATA_MSG_BUFSIZE + sizeof(NET_COMPRESS)
abbrev pub max_message_size : ℕ
max_message_size = 4108

abbrev pub net_msg_compress : ℕ
net_msg_compress = 170

-- Shifts of a byte by at most 24 stay below 2 ^ 32. The callers test that four bytes are there.
unfoldable pub read_le32 : List ℕ → ℕ
read_le32 p =
    bit_or (bit_or (bit_or (get_or p 0 0) (get_or p 1 0 * 2 ^ 8)) (get_or p 2 0 * 2 ^ 16))
      (get_or p 3 0 * 2 ^ 24)

-- The four bytes that `WriteLE32` stores.
unfoldable pub write_le32 : ℕ → List ℕ
write_le32 v =
    bit_and v 0xff
    ∷ bit_and (v / 2 ^ 8) 0xff
    ∷ bit_and (v / 2 ^ 16) 0xff
    ∷ bit_and (v / 2 ^ 24) 0xff
    ∷ []

-- `client_id` is 0 until the session stamps it. The C++ fields are spelled type, clientId, bytes.
pub record Message : Type 0 where
  pub type : ℕ
  pub client_id : ℕ
  pub bytes : List ℕ

unfoldable pub payload : Message → List ℕ
payload m = drop header_size m.bytes

unfoldable pub payload_size : Message → ℕ
payload_size m = if ltb header_size (length m.bytes) then length m.bytes - header_size else 0

-- The total is cast to uint32_t. A payload of 2 ^ 32 - 8 bytes or more would overrun the vector
-- in C++; the theorems ask for less.
unfoldable pub encode_message : ℕ → List ℕ → List ℕ
encode_message type payload =
    write_le32 ((header_size + length payload) % 2 ^ 32) ++ (write_le32 type ++ payload)
