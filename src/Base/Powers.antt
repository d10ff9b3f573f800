-- ===== src/Base/Powers.antt =====
-- Powers of two at a variable exponent: the rules that division by `2 ^ k` needs.
use Prim.Native.Nat.{ℕ, zero, suc, ◌+◌, ◌-◌, ◌*◌, ◌/◌, ◌%◌, ◌^◌, ◌≤◌, ◌<◌}
use mathlib.Core.Path.{◌≡◌, ap, ◌∙◌}
use native.Mathlib.Nat.{pow-suc, one-le-pow, suc-add, zero-add, mod-lt, div-add-mod'}
use native.Mathlib.Omega.{arith}

pub two_pow_suc : (k : ℕ) → 2 ^ suc k ≡ 2 * 2 ^ k
two_pow_suc k = omega (arith, pow-suc 2 k)

pub two_pow_pos : (k : ℕ) → 1 ≤ 2 ^ k
two_pow_pos k = one-le-pow k 2 (omega arith)

pub two_pow_add : (j k : ℕ) → 2 ^ (j + k) ≡ 2 ^ j * 2 ^ k
two_pow_add zero k = rw zero-add (omega arith)
two_pow_add (suc j) k =
    grind (arith, two_pow_suc (j + k), two_pow_suc j, two_pow_add j k, suc-add j k)

pub mul-div-add : (m q r : ℕ) → r < m → (q * m + r) / m ≡ q
mul-div-add m q r h = grind arith

pub mul-mod-add : (m q r : ℕ) → r < m → (q * m + r) % m ≡ r
mul-mod-add m q r h = grind arith

pub mul_two_pow_suc : (q k : ℕ) → q * 2 ^ suc k ≡ 2 * (q * 2 ^ k)
mul_two_pow_suc q k = grind (arith, two_pow_suc k)

-- The remainder by `2 ^ suc k` from the lowest digit and the rest.
pub mod_two_pow_suc : (a k : ℕ) → a % 2 ^ suc k ≡ a / 2 % 2 ^ k * 2 + a % 2
mod_two_pow_suc a k =
    let q : ℕ = a / 2 / 2 ^ k in
    let r : ℕ = a / 2 % 2 ^ k * 2 + a % 2 in
    let fits : r < 2 ^ suc k = omega (arith, two_pow_suc k, mod-lt (a / 2) (two_pow_pos k)) in
    let whole : a ≡ q * 2 ^ suc k + r =
      omega (arith, mul_two_pow_suc q k, div-add-mod' (a / 2) (2 ^ k)) in
    ap (λ t. t % 2 ^ suc k) whole ∙ mul-mod-add (2 ^ suc k) q r fits

pub fields-lt : (i s q r : ℕ) → q < i → r < s → q * s + r < i * s
fields-lt i s q r h k = grind arith

pub le_mul_of_pos : (i s : ℕ) → 1 ≤ i → s ≤ i * s
le_mul_of_pos i s h = grind arith

-- All ones shifted left, cut to the word `w`.
pub ones_shifted : (w s : ℕ) → 1 ≤ s → s ≤ w → (w - 1) * s % w ≡ w - s
ones_shifted w zero pos h = elim pos [ ]
ones_shifted zero (suc s) pos h = elim h [ ]
ones_shifted (suc w) (suc s) pos h =
    let before : suc w - 1 ≡ w = omega arith in
    let whole : w * suc s ≡ s * suc w + (suc w - suc s) = grind arith in
    rw before (ap (λ t. t % suc w) whole ∙ mul-mod-add (suc w) s (suc w - suc s) (omega arith))

-- All ones shifted right.
pub ones_div : (i s : ℕ) → 1 ≤ s → 1 ≤ i → (i * s - 1) / s ≡ i - 1
ones_div zero s pos h = elim h [ ]
ones_div (suc i) s pos h =
    let whole : suc i * s - 1 ≡ i * s + (s - 1) = grind arith in
    let quotient : (suc i * s - 1) / s ≡ i =
      ap (λ t. t / s) whole ∙ mul-div-add s i (s - 1) (omega arith) in
    omega arith

pub div_of_lt : (n s : ℕ) → n < s → n / s ≡ 0
div_of_lt n s h = grind arith

-- The last block of `s` numbers below `i * s`.
pub div_of_last : (i s n : ℕ) → i * s ≤ n + s → n < i * s → n / s ≡ i - 1
div_of_last zero s n low high = absurd (omega arith)
div_of_last (suc i) s n low high =
    let whole : n ≡ i * s + (n - i * s) = grind arith in
    let quotient : n / s ≡ i = ap (λ t. t / s) whole ∙ mul-div-add s i (n - i * s) (grind arith) in
    omega arith
