-- ===== src/Word.antt =====
-- `usize` on a 64-bit platform: shifts, complement and wrapping arithmetic, as numbers below 2 ^ 64.
use kcas.Base.{ℕ, ◌+◌, ◌-◌, ◌*◌, ◌/◌, ◌%◌, ◌^◌}

-- `usize::BITS`.
abbrev pub usize_bits : ℕ
usize_bits = 64

abbrev pub usize_max : ℕ
usize_max = 2 ^ 64 - 1

infixl 60 ◌<<◌ ◌>>>◌
-- `x << k`: the bits that leave the word are lost.
abbrev pub ◌<<◌ : ℕ → ℕ → ℕ
x << k = x * 2 ^ k % 2 ^ 64

-- `x >> k`.
abbrev pub ◌>>>◌ : ℕ → ℕ → ℕ
x >>> k = x / 2 ^ k

-- `!x`.
abbrev pub complement : ℕ → ℕ
complement x = usize_max - x

abbrev pub wrapping_add : ℕ → ℕ → ℕ
wrapping_add x y = (x + y) % 2 ^ 64

abbrev pub wrapping_sub : ℕ → ℕ → ℕ
wrapping_sub x y = (x + 2 ^ 64 - y) % 2 ^ 64
