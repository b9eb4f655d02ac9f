-- ===== src/Strings.antt =====
-- The functions of the C and C++ library on text that servers/authserver/auth_server.cpp calls. A
-- string is the list of its characters' codes.
pub mod Digits
use ran_online.Base.{ℕ, zero, suc, ◌+◌, ◌-◌, ◌*◌, ◌/◌, ◌%◌, List, [], ◌∷◌, ◌++◌, ◌&&◌, ◌||◌}
use ran_online.Base.{length, take, replicate, if◌then◌else◌, ltb, leb, ◌==◌}
use ran_online.Base.Int.{ℤ, pos, negsuc}
use ran_online.AgentServer.{until_zero}

decimal_prefix : ℕ → List ℕ → ℕ
decimal_prefix acc [] = acc
decimal_prefix acc (c ∷ s) =
    let rest = decimal_prefix (acc * 10 + (c - 0x30)) s in
    if leb 0x30 c && leb c 0x39 then rest else acc

minus : ℕ → ℤ
minus zero = pos 0
minus (suc n) = negsuc n

signed_decimal : List ℕ → ℤ
unfolding decimal_prefix minus
signed_decimal [] = pos 0
signed_decimal (c ∷ s) =
    if c == 0x2d
    then minus (decimal_prefix 0 s)
    else pos (decimal_prefix 0 (if c == 0x2b then s else c ∷ s))

-- `std::atoi`. A number outside `int` is undefined there, and kept as it is here.
unfoldable pub atoi : List ℕ → ℤ
unfolding signed_decimal
atoi [] = pos 0
atoi (c ∷ s) =
    let rest = atoi s in
    if (c == 0x20) || (leb 0x09 c && leb c 0x0d) then rest else signed_decimal (c ∷ s)

-- The digits of a number below 10 ^ fuel.
unfoldable pub decimal : ℕ → ℕ → List ℕ
decimal zero n = []
decimal (suc fuel) n =
    let front = decimal fuel (n / 10) in
    if ltb n 10 then (0x30 + n) ∷ [] else front ++ ((0x30 + n % 10) ∷ [])

-- `std::to_string` of an `int`, which has ten digits at most.
unfoldable pub to_string : ℤ → List ℕ
unfolding decimal
to_string (pos n) = decimal 10 n
to_string (negsuc n) = 0x2d ∷ decimal 10 (suc n)

-- `strncpy` of at most `length_max` characters into a zeroed field with one more.
unfoldable pub text_to_field : ℕ → List ℕ → List ℕ
text_to_field length_max s =
    let kept = take length_max (until_zero s) in kept ++ replicate (length_max + 1 - length kept) 0
