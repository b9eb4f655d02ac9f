-- ===== src/MsgPack/Format.antt =====
-- The MessagePack format, as a reader of one item. It is an independent description of what the
-- encoder has to produce; maps, floats, binaries and extensions are not read.
use ran_online.Base.{
  ℕ, zero, suc, ◌+◌, ◌-◌, ◌*◌, List, [], ◌∷◌, Bool, true, false, Option, some, none,
}
use ran_online.Base.{length, take, drop, if◌then◌else◌, ltb, ◌==◌}
use ran_online.Base.Int.{ℤ, pos, of_word}

-- An integer, a text as its bytes, a Boolean, or the head of an array with its number of elements.
pub data Item : Type 0 where
  num : ℤ → Item
  text : List ℕ → Item
  truth : Bool → Item
  head : ℕ → Item

-- Big-endian, behind `acc`.
unfoldable pub read_be : ℕ → ℕ → List ℕ → Option (ℕ × List ℕ)
read_be zero acc xs = some (acc, xs)
read_be (suc k) acc [] = none
read_be (suc k) acc (x ∷ xs) = read_be k (acc * 256 + x) xs

abbrev pub map_value : (ℕ → Item) → Option (ℕ × List ℕ) → Option (Item × List ℕ)
map_value f none = none
map_value f (some (v, rest)) = some (f v, rest)

abbrev pub take_text : Option (ℕ × List ℕ) → Option (Item × List ℕ)
take_text none = none
take_text (some (n, xs)) = if ltb (length xs) n then none else some (text (take n xs), drop n xs)

abbrev pub natural : ℕ → Item
natural v = num (pos v)

abbrev pub signed : ℕ → ℕ → Item
signed w v = num (of_word w v)

-- A first byte from 0xc0 to 0xdf.
unfoldable pub decode_tagged : ℕ → List ℕ → Option (Item × List ℕ)
decode_tagged b xs =
    if b == 0xc2
    then some (truth false, xs)
    else if b == 0xc3
    then some (truth true, xs)
    else if b == 0xcc
    then map_value natural (read_be 1 0 xs)
    else if b == 0xcd
    then map_value natural (read_be 2 0 xs)
    else if b == 0xce
    then map_value natural (read_be 4 0 xs)
    else if b == 0xcf
    then map_value natural (read_be 8 0 xs)
    else if b == 0xd0
    then map_value (signed 7) (read_be 1 0 xs)
    else if b == 0xd1
    then map_value (signed 15) (read_be 2 0 xs)
    else if b == 0xd2
    then map_value (signed 31) (read_be 4 0 xs)
    else if b == 0xd3
    then map_value (signed 63) (read_be 8 0 xs)
    else if b == 0xd9
    then take_text (read_be 1 0 xs)
    else if b == 0xda
    then take_text (read_be 2 0 xs)
    else if b == 0xdb
    then take_text (read_be 4 0 xs)
    else if b == 0xdc
    then map_value head (read_be 2 0 xs)
    else if b == 0xdd
    then map_value head (read_be 4 0 xs)
    else none

unfoldable pub decode : List ℕ → Option (Item × List ℕ)
decode [] = none
decode (b ∷ xs) =
    if ltb b 0x80
    then some (natural b, xs)
    else if ltb b 0x90
    then none
    else if ltb b 0xa0
    then some (head (b - 0x90), xs)
    else if ltb b 0xc0
    then take_text (some (b - 0xa0, xs))
    else if ltb b 0xe0
    then decode_tagged b xs
    else some (signed 7 b, xs)
