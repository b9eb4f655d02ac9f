-- ===== src/Base/Bits.antt =====
-- `bit_or`, `bit_and` and `bit_xor` at variables, from the recursion on binary digits that the
-- native operations stand for.
use Prim.Native.Nat.{ℕ, zero, suc, ◌+◌, ◌-◌, ◌*◌, ◌/◌, ◌%◌, ◌^◌, ◌≤◌, ◌<◌, min, max}
use Prim.Native.Nat.{bit_and, bit_or, bit_xor, digits, bitwise, differ}
use Prim.Native.Nat.{bit_and-bitwise, bit_or-bitwise, bit_xor-bitwise}
use mathlib.Core.Path.{◌≡◌, refl, ap}
use native.Mathlib.Nat.{le_refl, pow-suc}
use native.Mathlib.Omega.{arith}

module _ (alone : ℕ → ℕ) (op : ℕ → ℕ → ℕ) where
  -- A digit more of fuel than the number has changes nothing.
  spare_digit :
      (fuel x y : ℕ) → x ≤ fuel → digits alone op (suc fuel) x y ≡ digits alone op fuel x y
  spare_digit fuel zero y enough = no_digit fuel
    where
      no_digit : (k : ℕ) → digits alone op (suc k) zero y ≡ digits alone op k zero y
      no_digit zero = refl
      no_digit (suc k) = refl
  spare_digit zero (suc x) y enough = absurd (omega arith)
  spare_digit (suc fuel) (suc x) y enough =
      ap (λ (high : ℕ). high * 2 + op (suc x % 2) (y % 2))
        (spare_digit fuel (suc x / 2) (y / 2) (omega arith))

  spare_digits :
      (k fuel x y : ℕ) → x ≤ fuel → digits alone op (k + fuel) x y ≡ digits alone op fuel x y
  spare_digits zero fuel x y enough = let same : zero + fuel ≡ fuel = omega arith in rw same refl
  spare_digits (suc k) fuel x y enough =
      let more : suc k + fuel ≡ suc (k + fuel) = omega arith in
      rw (more, spare_digit (k + fuel) x y (omega arith)) (spare_digits k fuel x y enough)

  lowest_digit :
      (x y : ℕ)
      → bitwise alone op (suc x) y
        ≡ op (suc x % 2) (y % 2) + 2 * bitwise alone op (suc x / 2) (y / 2)
  lowest_digit x y =
      let half = suc x / 2 in
      let split : (x - half) + half ≡ x = omega arith in
      let high = spare_digits (x - half) half half (y / 2) (le_refl half) in
      omega (arith, ap (λ (fuel : ℕ). digits alone op fuel half (y / 2)) split, high)

-- One equation for the lowest binary digit of each operation.
pub bit_xor_step : (x y : ℕ) → bit_xor x y ≡ differ (x % 2) (y % 2) + 2 * bit_xor (x / 2) (y / 2)
bit_xor_step zero y = simp bit_xor-bitwise (omega arith)
bit_xor_step (suc x) y = simp bit_xor-bitwise (lowest_digit (λ rest. rest) differ x y)

pub bit_and_step : (x y : ℕ) → bit_and x y ≡ min (x % 2) (y % 2) + 2 * bit_and (x / 2) (y / 2)
bit_and_step zero y = simp bit_and-bitwise (omega arith)
bit_and_step (suc x) y = simp bit_and-bitwise (lowest_digit (λ rest. 0) min x y)

pub bit_or_step : (x y : ℕ) → bit_or x y ≡ max (x % 2) (y % 2) + 2 * bit_or (x / 2) (y / 2)
bit_or_step zero y = simp bit_or-bitwise (omega arith)
bit_or_step (suc x) y = simp bit_or-bitwise (lowest_digit (λ rest. rest) max x y)

differ_bits : (x y : ℕ) → x < 2 → y < 2 → (differ x y < 2) × (differ (differ x y) y ≡ x)
differ_bits zero zero h k = omega arith
differ_bits zero (suc zero) h k = omega arith
differ_bits (suc zero) zero h k = omega arith
differ_bits (suc zero) (suc zero) h k = omega arith
differ_bits zero (suc (suc y)) h k = absurd (omega arith)
differ_bits (suc zero) (suc (suc y)) h k = absurd (omega arith)
differ_bits (suc (suc x)) y h k = absurd (omega arith)

abbrev bit_differ : ℕ → ℕ → ℕ
bit_differ a b = differ (a % 2) (b % 2)

bit_xor_halves :
    (a b : ℕ) → (bit_xor a b / 2 ≡ bit_xor (a / 2) (b / 2)) × (bit_xor a b % 2 ≡ bit_differ a b)
bit_xor_halves a b =
    omega (arith, bit_xor_step a b, (differ_bits (a % 2) (b % 2) (omega arith) (omega arith)).0)

bit_xor_undo_fuel : (n a b : ℕ) → a ≤ n → b ≤ n → bit_xor (bit_xor a b) b ≡ a
bit_xor_undo_fuel zero zero zero h k = refl
bit_xor_undo_fuel zero (suc a) b h k = absurd (omega arith)
bit_xor_undo_fuel zero zero (suc b) h k = absurd (omega arith)
bit_xor_undo_fuel (suc n) a b h k =
    rw
      (
        bit_xor_step (bit_xor a b) b,
        (bit_xor_halves a b).0,
        (bit_xor_halves a b).1,
        bit_xor_undo_fuel n (a / 2) (b / 2) (omega arith) (omega arith),
        (differ_bits (a % 2) (b % 2) (omega arith) (omega arith)).1,
      )
      (omega arith)

-- `^` with the same word twice gives the first word back.
pub bit_xor_undo : (a b : ℕ) → bit_xor (bit_xor a b) b ≡ a
bit_xor_undo a b = bit_xor_undo_fuel (a + b) a b (omega arith) (omega arith)

-- `^` of two `k`-bit words is a `k`-bit word.
pub bit_xor-lt : (k a b : ℕ) → a < 2 ^ k → b < 2 ^ k → bit_xor a b < 2 ^ k
bit_xor-lt zero zero zero h k = omega arith
bit_xor-lt zero (suc a) b h k = absurd (omega arith)
bit_xor-lt zero zero (suc b) h k = absurd (omega arith)
bit_xor-lt (suc k) a b h l = omega (
  arith,
  pow-suc 2 k,
  (bit_xor_halves a b).0,
  bit_xor-lt k (a / 2) (b / 2) (omega (arith, pow-suc 2 k)) (omega (arith, pow-suc 2 k)),
)

-- `|` with no bit changes nothing.
no_bit_upto : (bound x : ℕ) → x < bound → bit_or x 0 ≡ x
no_bit_upto zero x small = absurd (omega arith)
no_bit_upto (suc bound) zero small = refl
no_bit_upto (suc bound) (suc x) small =
    omega (no_bit_upto bound (suc x / 2) (omega arith), bit_or_step (suc x) 0, arith)

mul_two_pow : (q k : ℕ) → q * 2 ^ suc k ≡ 2 * (q * 2 ^ k)
mul_two_pow q k = omega (arith, ap (λ (t : ℕ). q * t) (pow-suc 2 k))

-- `(q << k) | r` is a sum where `r` has at most `k` bits.
pub bit_or_disjoint : (k q r : ℕ) → r < 2 ^ k → bit_or (q * 2 ^ k) r ≡ q * 2 ^ k + r
bit_or_disjoint zero q r fits = ground (arith, no_bit_upto (suc q) q)
bit_or_disjoint (suc k) q r fits = ground (
  arith,
  bit_or_step (q * 2 ^ suc k) r,
  mul_two_pow q k,
  bit_or_disjoint k q (r / 2) (omega (arith, pow-suc 2 k)),
)

bit_or_comm_fuel : (n a b : ℕ) → a ≤ n → b ≤ n → bit_or a b ≡ bit_or b a
bit_or_comm_fuel zero zero zero h k = refl
bit_or_comm_fuel zero (suc a) b h k = absurd (omega arith)
bit_or_comm_fuel zero zero (suc b) h k = absurd (omega arith)
bit_or_comm_fuel (suc n) a b h k = omega (
  arith,
  bit_or_step a b,
  bit_or_step b a,
  bit_or_comm_fuel n (a / 2) (b / 2) (omega arith) (omega arith),
)

pub bit_or_comm : (a b : ℕ) → bit_or a b ≡ bit_or b a
bit_or_comm a b = bit_or_comm_fuel (a + b) a b (omega arith) (omega arith)

-- The mask without a bit leaves nothing.
no_mask_upto : (bound x : ℕ) → x < bound → bit_and x 0 ≡ 0
no_mask_upto zero x small = absurd (omega arith)
no_mask_upto (suc bound) zero small = refl
no_mask_upto (suc bound) (suc x) small =
    omega (no_mask_upto bound (suc x / 2) (omega arith), bit_and_step (suc x) 0, arith)

no_mask : (x : ℕ) → bit_and x 0 ≡ 0
no_mask x = no_mask_upto (suc x) x (omega arith)

-- One more low bit in the mask.
mask_suc : (a m : ℕ) → bit_and a (2 * m + 1) ≡ bit_and (a / 2) m * 2 + a % 2
mask_suc a m =
    let half : (2 * m + 1) / 2 ≡ m = omega arith in
    rw (bit_and_step a (2 * m + 1), half) (omega arith)

-- The mask of a byte.
pub bit_and_byte : (a : ℕ) → bit_and a 0xff ≡ a % 256
bit_and_byte a = omega (
  arith,
  mask_suc a 0x7f,
  mask_suc (a / 2) 0x3f,
  mask_suc (a / 2 / 2) 0x1f,
  mask_suc (a / 2 / 2 / 2) 0x0f,
  mask_suc (a / 2 / 2 / 2 / 2) 0x07,
  mask_suc (a / 2 / 2 / 2 / 2 / 2) 0x03,
  mask_suc (a / 2 / 2 / 2 / 2 / 2 / 2) 0x01,
  mask_suc (a / 2 / 2 / 2 / 2 / 2 / 2 / 2) 0,
  no_mask (a / 2 / 2 / 2 / 2 / 2 / 2 / 2 / 2),
)

-- The mask of a MessagePack small negative number.
pub bit_and_five : (a : ℕ) → bit_and a 0x1f ≡ a % 32
bit_and_five a = omega (
  arith,
  mask_suc a 15,
  mask_suc (a / 2) 7,
  mask_suc (a / 2 / 2) 3,
  mask_suc (a / 2 / 2 / 2) 1,
  mask_suc (a / 2 / 2 / 2 / 2) 0,
  no_mask (a / 2 / 2 / 2 / 2 / 2),
)

differ_comm : (x y : ℕ) → x < 2 → y < 2 → differ x y ≡ differ y x
differ_comm zero zero h k = refl
differ_comm zero (suc zero) h k = refl
differ_comm (suc zero) zero h k = refl
differ_comm (suc zero) (suc zero) h k = refl
differ_comm zero (suc (suc y)) h k = absurd (omega arith)
differ_comm (suc zero) (suc (suc y)) h k = absurd (omega arith)
differ_comm (suc (suc x)) y h k = absurd (omega arith)

bit_xor_comm_fuel : (n a b : ℕ) → a ≤ n → b ≤ n → bit_xor a b ≡ bit_xor b a
bit_xor_comm_fuel zero zero zero h k = refl
bit_xor_comm_fuel zero (suc a) b h k = absurd (omega arith)
bit_xor_comm_fuel zero zero (suc b) h k = absurd (omega arith)
bit_xor_comm_fuel (suc n) a b h k = omega (
  arith,
  bit_xor_step a b,
  bit_xor_step b a,
  bit_xor_comm_fuel n (a / 2) (b / 2) (omega arith) (omega arith),
  differ_comm (a % 2) (b % 2) (omega arith) (omega arith),
)

pub bit_xor_comm : (a b : ℕ) → bit_xor a b ≡ bit_xor b a
bit_xor_comm a b = bit_xor_comm_fuel (a + b) a b (omega arith) (omega arith)

bit_or_top : (a b : ℕ) → max (a % 2) (b % 2) < 2
bit_or_top a b = omega arith

-- `|` of two `k`-bit words is a `k`-bit word.
pub bit_or-lt : (k a b : ℕ) → a < 2 ^ k → b < 2 ^ k → bit_or a b < 2 ^ k
bit_or-lt zero zero zero h k = omega arith
bit_or-lt zero (suc a) b h k = absurd (omega arith)
bit_or-lt zero zero (suc b) h k = absurd (omega arith)
bit_or-lt (suc k) a b h l = omega (
  arith,
  pow-suc 2 k,
  bit_or_step a b,
  bit_or-lt k (a / 2) (b / 2) (omega (arith, pow-suc 2 k)) (omega (arith, pow-suc 2 k)),
)

bit_or_self_fuel : (n a : ℕ) → a ≤ n → bit_or a a ≡ a
bit_or_self_fuel n zero h = refl
bit_or_self_fuel zero (suc a) h = absurd (omega arith)
bit_or_self_fuel (suc n) (suc a) h =
    omega (arith, bit_or_step (suc a) (suc a), bit_or_self_fuel n (suc a / 2) (omega arith))

pub bit_or_self : (a : ℕ) → bit_or a a ≡ a
bit_or_self a = bit_or_self_fuel a a (le_refl a)
