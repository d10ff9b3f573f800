-- ===== src/Base/Bits.antt =====
-- `|` of disjoint bit fields and `&` with a mask of low bits, as arithmetic, at every width.
use Prim.Native.Nat.{
  ℕ, zero, suc, ◌+◌, ◌-◌, ◌*◌, ◌/◌, ◌%◌, ◌^◌, ◌≤◌, ◌<◌, min, max, bit_and, bit_or, digits,
  bit_and-bitwise, bit_or-bitwise,
}
use mathlib.Core.Path.{◌≡◌, refl, ◌∙◌}
use native.Mathlib.Omega.{arith}
use kcas.Base.Powers.{two_pow_suc, two_pow_pos, mod_two_pow_suc, mul_two_pow_suc}

-- The native operations recur on binary digits, with fuel that the left operand bounds.
abbrev or_digits : ℕ → ℕ → ℕ → ℕ
or_digits n a b = digits (λ d. d) max n a b

abbrev and_digits : ℕ → ℕ → ℕ → ℕ
and_digits n a b = digits (λ d. 0) min n a b

or_digits-zero : (n a : ℕ) → a ≤ n → or_digits n a 0 ≡ a
or_digits-zero zero a h = omega arith
or_digits-zero (suc n) zero h = refl
or_digits-zero (suc n) (suc a) h = omega (arith, or_digits-zero n (suc a / 2) (omega arith))

or_digits_fields : (k n a q r : ℕ) → a ≡ q * 2 ^ k → a ≤ n → r < 2 ^ k → or_digits n a r ≡ a + r
or_digits_fields zero n a q zero e h fits = omega (arith, or_digits-zero n a h)
or_digits_fields zero n a q (suc r) e h fits = absurd (omega arith)
or_digits_fields (suc k) zero zero q r e h fits = omega arith
or_digits_fields (suc k) zero (suc a) q r e h fits = absurd (omega arith)
or_digits_fields (suc k) (suc n) zero q r e h fits = omega arith
or_digits_fields (suc k) (suc n) (suc a) q r e h fits =
    let half : suc a ≡ 2 * (q * 2 ^ k) = e ∙ mul_two_pow_suc q k in
    let rest : or_digits n (suc a / 2) (r / 2) ≡ suc a / 2 + r / 2 =
      or_digits_fields k n (suc a / 2) q (r / 2) (omega arith) (omega arith)
        (omega (arith, two_pow_suc k)) in
    omega arith

-- `(q << k) | r` is a sum when `r` fits in `k` bits.
pub bit_or-shifted : (k q r : ℕ) → r < 2 ^ k → bit_or (q * 2 ^ k) r ≡ q * 2 ^ k + r
bit_or-shifted k q r fits =
    bit_or-bitwise (q * 2 ^ k) r
    ∙ or_digits_fields k (q * 2 ^ k) (q * 2 ^ k) q r refl (omega arith) fits

and_digits-zero : (n a : ℕ) → a ≤ n → and_digits n a 0 ≡ 0
and_digits-zero zero a h = refl
and_digits-zero (suc n) zero h = refl
and_digits-zero (suc n) (suc a) h = omega (arith, and_digits-zero n (suc a / 2) (omega arith))

and_digits_mask : (k n a m : ℕ) → m + 1 ≡ 2 ^ k → a ≤ n → and_digits n a m ≡ a % 2 ^ k
and_digits_mask zero n a zero e h = omega (arith, and_digits-zero n a h)
and_digits_mask zero n a (suc m) e h = absurd (omega arith)
and_digits_mask (suc k) zero zero m e h = omega (arith, mod_two_pow_suc 0 k, two_pow_pos k)
and_digits_mask (suc k) zero (suc a) m e h = absurd (omega arith)
and_digits_mask (suc k) (suc n) zero m e h = omega (arith, mod_two_pow_suc 0 k, two_pow_pos k)
and_digits_mask (suc k) (suc n) (suc a) m e h =
    let rest : and_digits n (suc a / 2) (m / 2) ≡ suc a / 2 % 2 ^ k =
      and_digits_mask k n (suc a / 2) (m / 2) (omega (arith, two_pow_suc k, two_pow_pos k))
        (omega arith) in
    omega (arith, mod_two_pow_suc (suc a) k, two_pow_suc k, two_pow_pos k)

-- `a & (2 ^ k - 1)` is the remainder by `2 ^ k`.
pub bit_and-mask : (k a : ℕ) → bit_and a (2 ^ k - 1) ≡ a % 2 ^ k
bit_and-mask k a =
    bit_and-bitwise a (2 ^ k - 1)
    ∙ and_digits_mask k a a (2 ^ k - 1) (omega (arith, two_pow_pos k)) (omega arith)
