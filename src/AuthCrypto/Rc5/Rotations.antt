-- ===== src/AuthCrypto/Rc5/Rotations.antt =====
-- A right rotation undoes a left one, in servers/authserver/auth_crypto.cpp.
use ran_online.Base.{
  ℕ, zero, suc, ◌+◌, ◌-◌, ◌*◌, ◌/◌, ◌%◌, ◌^◌, ◌<◌, ◌≡◌, ap, subst, ◌∙◌, bit_and, bit_or, false,
  if◌then◌else◌, ◌==◌, arith, refl,
}
use ran_online.Base.Bits.{bit_or_disjoint, bit_or_comm, bit_or-lt, bit_and_five}
use ran_online.AuthCrypto.Rc5.{Shifts, IsHarmless, rotl, rotr}
use native.Mathlib.Nat.{
  mul-add-div_right, div-eq_of_lt, one-le-pow, div-add-mod', div-le_self, mod-lt, div-lt_iff_lt-mul,
  add-mul, mul_assoc, mul_comm, mul-lt-mul_of_pos_right, pow-suc, add-zero, add-suc,
}

-- A word of 32 bits in two parts, of `k` and of `j` bits, and what a rotation by `k` makes of it.
module _ (k j : ℕ) (whole : 2 ^ k * 2 ^ j ≡ 2 ^ 32) where
  rotate_parts :
      (hi lo : ℕ)
      → hi < 2 ^ k
      → lo < 2 ^ j
      → bit_or ((hi * 2 ^ j + lo) * 2 ^ k % 2 ^ 32) ((hi * 2 ^ j + lo) / 2 ^ j) ≡ lo * 2 ^ k + hi
  rotate_parts hi lo h l =
      let e : (hi * 2 ^ j + lo) * 2 ^ k ≡ hi * 2 ^ 32 + lo * 2 ^ k = omega (
        arith,
        add-mul (hi * 2 ^ j) lo (2 ^ k),
        mul_assoc hi (2 ^ j) (2 ^ k),
        ap (λ (t : ℕ). hi * t) (mul_comm (2 ^ j) (2 ^ k) ∙ whole),
      ) in
      let low : lo * 2 ^ k < 2 ^ 32 = omega (
        arith,
        mul-lt-mul_of_pos_right l (one-le-pow k 2 (omega arith)),
        mul_comm (2 ^ j) (2 ^ k),
        whole,
      ) in
      let left : (hi * 2 ^ j + lo) * 2 ^ k % 2 ^ 32 ≡ lo * 2 ^ k = omega (arith, e) in
      let right : (hi * 2 ^ j + lo) / 2 ^ j ≡ hi =
        rw (mul-add-div_right (one-le-pow j 2 (omega arith)) hi lo, div-eq_of_lt l) (omega arith) in
      rw (left, right) (bit_or_disjoint k lo hi h)

pow_sum : (a b : ℕ) → 2 ^ a * 2 ^ b ≡ 2 ^ (a + b)
pow_sum a zero = omega (arith, ap (λ (t : ℕ). 2 ^ t) (add-zero a))
pow_sum a (suc b) = omega (
  arith,
  pow-suc 2 b,
  pow-suc 2 (a + b),
  pow_sum a b,
  mul_assoc (2 ^ a) (2 ^ b) 2,
  ap (λ (t : ℕ). 2 ^ a * t) (pow-suc 2 b),
  ap (λ (t : ℕ). 2 ^ t) (add-suc a b),
)

pow_split : (s : ℕ) → s < 32 → 2 ^ s * 2 ^ (32 - s) ≡ 2 ^ 32
pow_split s h =
    let e : s + (32 - s) ≡ 32 = omega arith in pow_sum s (32 - s) ∙ ap (λ (t : ℕ). 2 ^ t) e

-- Rotating the parts there and back.
rotate_back :
    (k j v : ℕ)
    → 2 ^ k * 2 ^ j ≡ 2 ^ 32
    → v < 2 ^ 32
    → bit_or
        (bit_or (v * 2 ^ k % 2 ^ 32) (v / 2 ^ j) / 2 ^ k)
        (bit_or (v * 2 ^ k % 2 ^ 32) (v / 2 ^ j) * 2 ^ j % 2 ^ 32)
      ≡ v
rotate_back k j v whole h =
    let hi = v / 2 ^ j in
    let lo = v % 2 ^ j in
    let lo_fits : lo < 2 ^ j = mod-lt v (one-le-pow j 2 (omega arith)) in
    let hi_fits : hi < 2 ^ k =
      (div-lt_iff_lt-mul (one-le-pow j 2 (omega arith))).1 (omega (arith, whole)) in
    let parts : hi * 2 ^ j + lo ≡ v = div-add-mod' v (2 ^ j) in
    let there : bit_or (v * 2 ^ k % 2 ^ 32) (v / 2 ^ j) ≡ lo * 2 ^ k + hi =
      subst (λ (w : ℕ). bit_or (w * 2 ^ k % 2 ^ 32) (w / 2 ^ j) ≡ lo * 2 ^ k + hi) parts
        (rotate_parts k j whole hi lo hi_fits lo_fits) in
    let back = rotate_parts j k (mul_comm (2 ^ j) (2 ^ k) ∙ whole) lo hi lo_fits hi_fits in
    rw there (bit_or_comm _ _ ∙ back ∙ parts)

undo_by :
    (m : Shifts)
    → IsHarmless m
    → (v s : ℕ) → v < 2 ^ 32
    → s < 32
    → (X : ℕ) → X ≡ bit_or (v * 2 ^ s % 2 ^ 32) (if s == 0 then m.right_32 v else v / 2 ^ (32 - s))
    → bit_or (X / 2 ^ s) (if s == 0 then m.left_32 X else X * 2 ^ (32 - s) % 2 ^ 32) ≡ v
undo_by m ok v zero h l X e =
    let e2 : X ≡ v = e ∙ ap (λ (t : ℕ). bit_or t (m.right_32 v)) (omega arith) ∙ (ok v h).0 in
    rw e2 (ap (λ (t : ℕ). bit_or t (m.left_32 v)) (omega arith) ∙ (ok v h).1)
undo_by m ok v (suc s) h l X e =
    let nonzero : (suc s == 0) ≡ false = ground arith in
    rw (e, nonzero) (rotate_back (suc s) (32 - suc s) v (pow_split (suc s) l) h)

-- A right rotation undoes a left one of a 32-bit word, for every count, those that the shifts are
-- undefined for included, where the undefined shifts are harmless.
pub rotr-rotl :
    (m : Shifts) → IsHarmless m → (v shift : ℕ) → v < 2 ^ 32 → rotr m (rotl m v shift) shift ≡ v
unfolding rotl rotr
rotr-rotl m ok v shift h =
    undo_by m ok v (bit_and shift 31) h (omega (arith, bit_and_five shift)) _ refl

bounded_by :
    (m : Shifts)
    → IsHarmless m
    → (v s : ℕ) → v < 2 ^ 32
    → bit_or (v * 2 ^ s % 2 ^ 32) (if s == 0 then m.right_32 v else v / 2 ^ (32 - s)) < 2 ^ 32
bounded_by m ok v zero h = let e : v * 2 ^ 0 % 2 ^ 32 ≡ v = omega arith in rw (e, (ok v h).0) h
bounded_by m ok v (suc s) h =
    let nonzero : (suc s == 0) ≡ false = ground arith in
    rw nonzero (bit_or-lt 32 _ _ (omega arith) (omega (arith, div-le_self v (2 ^ (32 - suc s)))))

pub rotl-lt : (m : Shifts) → IsHarmless m → (v shift : ℕ) → v < 2 ^ 32 → rotl m v shift < 2 ^ 32
unfolding rotl
rotl-lt m ok v shift h = bounded_by m ok v (bit_and shift 31) h
