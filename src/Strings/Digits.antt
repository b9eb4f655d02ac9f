-- ===== src/Strings/Digits.antt =====
-- `std::atoi` reads back what `std::to_string` writes, as servers/authserver/auth_server.cpp needs it
-- on the two ends of a certification.
use ran_online.Base.{
  ℕ, zero, suc, ◌+◌, ◌-◌, ◌*◌, ◌/◌, ◌%◌, ◌^◌, ◌≤◌, ◌<◌, ◌≡◌, ◌∙◌, ap, List, [], ◌∷◌, ◌++◌, All,
  arith, ltb, Bool-cases, inl, inr, All-append,
}
use native.Mathlib.Nat.{pow-suc}
use ran_online.Base.Int.{ℤ, pos, negsuc, IsInt}
use ran_online.Strings.{decimal_prefix, minus, atoi, decimal, to_string}

abbrev pub IsDigit : ℕ → Type 0
IsDigit c = (0x30 ≤ c) × (c ≤ 0x39)

pub decimal-IsDigit : (fuel n : ℕ) → All IsDigit (decimal fuel n)
unfolding decimal
decimal-IsDigit zero n = record {}
decimal-IsDigit (suc fuel) n = elim (Bool-cases (ltb n 10)) [
  | inl e ↦ rw e (ground arith, record {})
  | inr e ↦ rw e (
      All-append IsDigit (decimal fuel (n / 10)) ((0x30 + n % 10) ∷ [])
        (decimal-IsDigit fuel (n / 10)) (omega arith, record {}))
]

decimal_prefix-append :
    (acc d : ℕ) (s : List ℕ)
    → All IsDigit s
    → d < 10
    → decimal_prefix acc (s ++ ((0x30 + d) ∷ [])) ≡ decimal_prefix acc s * 10 + d
unfolding decimal_prefix
decimal_prefix-append acc d [] h small = ground arith
decimal_prefix-append acc d (c ∷ s) (p, h) small =
    ground (arith, decimal_prefix-append (acc * 10 + (c - 0x30)) d s h small)

tenth : (n fuel : ℕ) → n < 10 ^ suc fuel → n / 10 < 10 ^ fuel
tenth n fuel h = omega (arith, pow-suc 10 fuel)

decimal_prefix-decimal : (fuel n : ℕ) → n < 10 ^ fuel → decimal_prefix 0 (decimal fuel n) ≡ n
unfolding decimal decimal_prefix
decimal_prefix-decimal zero n h = omega arith
decimal_prefix-decimal (suc fuel) n h = elim (Bool-cases (ltb n 10)) [
  | inl e ↦ rw e (ground arith)
  | inr e ↦ rw e (
      let front : decimal_prefix 0 (decimal fuel (n / 10)) ≡ n / 10 =
        decimal_prefix-decimal fuel (n / 10) (tenth n fuel h) in
      decimal_prefix-append 0 (n % 10) (decimal fuel (n / 10)) (decimal-IsDigit fuel (n / 10))
        (omega arith)
      ∙ omega (arith, front))
]

-- A text that starts with a digit is a number without blanks and sign in front.
atoi-digits : (c : ℕ) (s : List ℕ) → IsDigit c → atoi (c ∷ s) ≡ pos (decimal_prefix 0 (c ∷ s))
unfolding atoi decimal_prefix
atoi-digits c s p = ground arith

atoi-decimal : (fuel n : ℕ) → n < 10 ^ fuel → atoi (decimal fuel n) ≡ pos n
unfolding atoi
atoi-decimal fuel n h =
    from (decimal fuel n) (decimal-IsDigit fuel n) (decimal_prefix-decimal fuel n h)
  where
    from : (s : List ℕ) → All IsDigit s → decimal_prefix 0 s ≡ n → atoi s ≡ pos n
    from [] ok e = ap pos e
    from (c ∷ s) (p, ok) e = atoi-digits c s p ∙ ap pos e

-- For every value of an `int`, the most negative one included.
pub atoi-to_string : (i : ℤ) → IsInt 31 i → atoi (to_string i) ≡ i
unfolding to_string atoi minus
atoi-to_string (pos n) h = atoi-decimal 10 n (omega arith)
atoi-to_string (negsuc n) h = ap minus (decimal_prefix-decimal 10 (suc n) (omega arith))
