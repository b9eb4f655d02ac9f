-- ===== src/MsgPack.antt =====
-- net/msgpack_min.{h,cpp}: the MessagePack encoder. `Packer` appends to its output; here each
-- method returns the bytes that it appends.
pub mod Format
pub mod RoundTrip
use ran_online.Base.{
  ℕ, zero, suc, ◌+◌, ◌-◌, ◌*◌, ◌/◌, ◌^◌, List, [], ◌∷◌, ◌++◌, Bool, bit_and, bit_or,
}
use ran_online.Base.{length, if◌then◌else◌, leb, ltb}
use ran_online.Base.Int.{ℤ, pos, negsuc, to_word}

-- Big-endian, `bytes` wide: from the highest byte down.
unfoldable pub be : ℕ → ℕ → List ℕ
be v zero = []
be v (suc i) = bit_and (v / 2 ^ (8 * i)) 0xff ∷ be v i

unfoldable pub array : ℕ → List ℕ
array n =
    if leb n 15 then bit_or 0x90 n ∷ [] else if leb n 0xffff then 0xdc ∷ be n 2 else 0xdd ∷ be n 4

unfoldable pub uint : ℕ → List ℕ
uint v =
    if leb v 0x7f
    then v ∷ []
    else if leb v 0xff
    then 0xcc ∷ v ∷ []
    else if leb v 0xffff
    then 0xcd ∷ be v 2
    else if leb v 0xffff_ffff
    then 0xce ∷ be v 4
    else 0xcf ∷ be v 8

-- A negative `int64_t`, whose 64-bit word is `v`; `n` is -1 minus its value.
unfoldable pub negative : ℕ → ℕ → List ℕ
negative n v =
    if ltb n 32
    then bit_or 0xe0 (bit_and v 0x1f) ∷ []
    else if ltb n 128
    then 0xd0 ∷ bit_and v 0xff ∷ []
    else if ltb n 32768
    then 0xd1 ∷ be v 2
    else if ltb n 2147483648
    then 0xd2 ∷ be v 4
    else 0xd3 ∷ be v 8

unfoldable pub int : ℤ → List ℕ
int (pos n) = uint n
int (negsuc n) = negative n (to_word 64 (negsuc n))

unfoldable pub str : List ℕ → List ℕ
str s =
    let n = length s in
    (if leb n 31
      then bit_or 0xa0 n ∷ []
      else if leb n 0xff
      then 0xd9 ∷ n ∷ []
      else if leb n 0xffff
      then 0xda ∷ be n 2
      else 0xdb ∷ be n 4)
    ++ s

unfoldable pub bool : Bool → List ℕ
bool b = if b then 0xc3 ∷ [] else 0xc2 ∷ []
