-- ===== src/Types/BitLength.antt =====
-- src/types.rs: `get_bit_length_of_num_threads`.
use kcas.Base.{
  ℕ, zero, suc, ◌+◌, ◌*◌, ◌/◌, ◌%◌, ◌^◌, ◌≤◌, ◌<◌, ◌≡◌, refl, inl, inr, Bool-cases, arith, ◌==◌,
  ne→==, ==→eq, ==→ne, ap, ◌≢◌, sym, subst,
}
use kcas.Base.Powers.{two_pow_suc, two_pow_pos}
use native.Mathlib.Numerals.{add-one}
use kcas.Types.{bit_length_loop, get_bit_length_of_num_threads}

-- `b` is the number of binary digits of `n`.
pub record IsBitLength (n b : ℕ) : Type 0 where
  pub fits : n < 2 ^ b
  pub least : 2 ^ b ≤ 2 * n
  pub within : b ≤ 64

lt_of_div_eq_zero : (n m : ℕ) → 1 ≤ m → n / m ≡ 0 → n < m
lt_of_div_eq_zero n m pos e = grind arith

le_of_div_ne_zero : (n m : ℕ) → n / m ≢ 0 → m ≤ n
le_of_div_ne_zero n m ne = grind arith

bit_length_loop-IsBitLength :
    (rounds n i : ℕ)
    → i + rounds ≡ 64
    → n < 2 ^ 64
    → 2 ^ i ≤ 2 * n
    → IsBitLength n (bit_length_loop rounds n i)
unfolding bit_length_loop
bit_length_loop-IsBitLength zero n i e h low = record {
  fits = subst (λ t. n < 2 ^ t) (sym stop) h;
  least = low;
  within = omega arith;
}
  where
    stop : i ≡ 64
    stop = omega arith
bit_length_loop-IsBitLength (suc rounds) n i e h low = elim (Bool-cases (n / 2 ^ i == 0)) [
  | inl stop ↦
      rw (ne→== i 64 (omega arith), stop)
        (record {
          fits = lt_of_div_eq_zero n (2 ^ i) (two_pow_pos i) (==→eq _ 0 stop);
          least = low;
          within = omega arith;
        })
  | inr more ↦
      rw (ne→== i 64 (omega arith), more)
        (bit_length_loop-IsBitLength rounds n (i + 1) (omega arith) h (
          omega (
            arith,
            two_pow_suc i,
            le_of_div_ne_zero n (2 ^ i) (==→ne _ 0 more),
            ap (λ t. 2 ^ t) (add-one i),
          )))
]

-- The bit length is that of `NUM_THREADS + 1`: the least number of bits that hold it.
pub get_bit_length_of_num_threads-IsBitLength :
    (num_threads : ℕ)
    → num_threads + 1 < 2 ^ 64
    → IsBitLength (num_threads + 1) (get_bit_length_of_num_threads num_threads)
unfolding get_bit_length_of_num_threads
get_bit_length_of_num_threads-IsBitLength num_threads h =
    let exact : (num_threads + 1) % 2 ^ 64 ≡ num_threads + 1 = omega arith in
    rw exact (bit_length_loop-IsBitLength 64 (num_threads + 1) 0 refl h (omega arith))
