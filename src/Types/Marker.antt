-- ===== src/Types/Marker.antt =====
-- src/types.rs: the word that holds a thread identifier in its top bits and a sequence number below,
-- which marks a claimed target.
use kcas.Base.{
  ℕ, ◌+◌, ◌-◌, ◌*◌, ◌/◌, ◌%◌, ◌^◌, ◌≤◌, ◌<◌, ◌≡◌, ◌↔◌, refl, ◌∙◌, ap, sym, ◌⊎◌, inl, inr, bit_or,
  true, false, arith,
}
use kcas.Base.Powers.{
  two_pow_add, two_pow_pos, mul-div-add, mul-mod-add, fields-lt, le_mul_of_pos, ones_shifted,
  ones_div, div_of_lt, div_of_last,
}
use kcas.Base.Bits.{bit_or-shifted, bit_and-mask}
use kcas.Word.{usize_max, ◌>>>◌}
use native.Mathlib.Nat.{mod-lt, div-add-mod'}
use kcas.Types.{
  get_bit_length_of_num_threads, get_sequence_mask_for_thread_and_sequence,
  construct_thread_and_sequence, extract_thread_from_thread_and_sequence,
  extract_sequence_from_thread_and_sequence, is_value_a_kcas_marker,
}
use kcas.Types.BitLength.{get_bit_length_of_num_threads-IsBitLength}

-- The bits of a word below the thread identifier.
abbrev pub num_sequence_bits : (num_threads : ℕ) → ℕ
num_sequence_bits num_threads = 64 - get_bit_length_of_num_threads num_threads

-- The number of sequence numbers that fit beside a thread identifier.
abbrev pub sequence_limit : (num_threads : ℕ) → ℕ
sequence_limit num_threads = 2 ^ num_sequence_bits num_threads

-- A value whose reserved bits are all 0 or all 1, as the documentation asks of the caller's values.
abbrev pub IsApplicationValue : (num_threads value : ℕ) → Type 0
IsApplicationValue num_threads value =
    (value < sequence_limit num_threads)
    ⊎ ((2 ^ 64 ≤ value + sequence_limit num_threads) × (value < 2 ^ 64))

-- The number of identifiers that the reserved bits can hold.
abbrev ids : (num_threads : ℕ) → ℕ
ids num_threads = 2 ^ get_bit_length_of_num_threads num_threads

module _ (num_threads : ℕ) (fits : num_threads + 1 < 2 ^ 64) where
  -- The identifiers and the sequence numbers share the word.
  limits_product : ids num_threads * sequence_limit num_threads ≡ 2 ^ 64
  limits_product =
      let b = get_bit_length_of_num_threads num_threads in
      let whole : b + num_sequence_bits num_threads ≡ 64 =
        omega (arith, (get_bit_length_of_num_threads-IsBitLength num_threads fits).within) in
      sym (two_pow_add b (num_sequence_bits num_threads)) ∙ ap (λ t. 2 ^ t) whole

  num_threads-lt-ids : num_threads + 1 < ids num_threads
  num_threads-lt-ids = (get_bit_length_of_num_threads-IsBitLength num_threads fits).fits

  pub sequence_limit_pos : 1 ≤ sequence_limit num_threads
  sequence_limit_pos = two_pow_pos (num_sequence_bits num_threads)

  sequence_limit-le : sequence_limit num_threads ≤ 2 ^ 64
  sequence_limit-le = omega (
    arith,
    limits_product,
    le_mul_of_pos (ids num_threads) (sequence_limit num_threads)
        (omega (arith, num_threads-lt-ids)),
  )

  -- With fewer than 2 ^ 62 - 1 threads there is room for more than two sequence numbers.
  pub sequence_limit-gt : num_threads + 1 < 2 ^ 62 → 2 < sequence_limit num_threads
  sequence_limit-gt few =
      grind
        (arith, limits_product, (get_bit_length_of_num_threads-IsBitLength num_threads fits).least)

  pub sequence_limit-lt : num_threads + 1 < 2 ^ 62 → sequence_limit num_threads < 2 ^ 64
  sequence_limit-lt few = grind (arith, limits_product, num_threads-lt-ids, sequence_limit_pos)

  packed-lt :
      (thread_id sequence : ℕ)
      → thread_id ≤ num_threads
      → sequence < sequence_limit num_threads
      → thread_id * sequence_limit num_threads + sequence < 2 ^ 64
  packed-lt thread_id sequence below small = omega (
    arith,
    limits_product,
    fields-lt (ids num_threads) (sequence_limit num_threads) thread_id sequence
        (omega (arith, num_threads-lt-ids)) small,
  )

  -- A sequence number that does not fit spills into the identifier's bits.
  pub construct_as_or :
      (thread_id sequence : ℕ)
      → thread_id ≤ num_threads
      → construct_thread_and_sequence num_threads thread_id sequence
        ≡ bit_or (thread_id * sequence_limit num_threads) sequence
  unfolding construct_thread_and_sequence
  construct_as_or thread_id sequence below =
      let kept : thread_id * sequence_limit num_threads % 2 ^ 64
          ≡ thread_id * sequence_limit num_threads =
        omega (arith, packed-lt thread_id 0 below sequence_limit_pos) in
      rw kept

  pub construct_as_sum :
      (thread_id sequence : ℕ)
      → thread_id ≤ num_threads
      → sequence < sequence_limit num_threads
      → construct_thread_and_sequence num_threads thread_id sequence
        ≡ thread_id * sequence_limit num_threads + sequence
  construct_as_sum thread_id sequence below small =
      construct_as_or thread_id sequence below
      ∙ bit_or-shifted (num_sequence_bits num_threads) thread_id sequence small

  pub sequence_mask :
      get_sequence_mask_for_thread_and_sequence num_threads ≡ sequence_limit num_threads - 1
  unfolding get_sequence_mask_for_thread_and_sequence
  sequence_mask = omega (
    arith,
    ones_shifted (2 ^ 64) (sequence_limit num_threads) sequence_limit_pos sequence_limit-le,
    sequence_limit_pos,
    sequence_limit-le,
  )

  pub extract_sequence_as_mod :
      (word : ℕ)
      → extract_sequence_from_thread_and_sequence num_threads word
        ≡ word % sequence_limit num_threads
  unfolding extract_sequence_from_thread_and_sequence
  extract_sequence_as_mod word =
      rw sequence_mask (bit_and-mask (num_sequence_bits num_threads) word)

  extract_thread_as_div :
      (word : ℕ)
      → extract_thread_from_thread_and_sequence num_threads word ≡ word / sequence_limit num_threads
  unfolding extract_thread_from_thread_and_sequence
  extract_thread_as_div word = refl

  module _ (thread_id sequence : ℕ) (below : thread_id ≤ num_threads)
      (small : sequence < sequence_limit num_threads) where
    pub extract_thread-construct :
        extract_thread_from_thread_and_sequence num_threads
          (construct_thread_and_sequence num_threads thread_id sequence)
        ≡ thread_id
    extract_thread-construct =
        extract_thread_as_div (construct_thread_and_sequence num_threads thread_id sequence)
        ∙ ap (λ t. t / sequence_limit num_threads) (construct_as_sum thread_id sequence below small)
        ∙ mul-div-add (sequence_limit num_threads) thread_id sequence small

    pub extract_sequence-construct :
        extract_sequence_from_thread_and_sequence num_threads
          (construct_thread_and_sequence num_threads thread_id sequence)
        ≡ sequence
    extract_sequence-construct =
        extract_sequence_as_mod (construct_thread_and_sequence num_threads thread_id sequence)
        ∙ ap (λ t. t % sequence_limit num_threads) (construct_as_sum thread_id sequence below small)
        ∙ mul-mod-add (sequence_limit num_threads) thread_id sequence small

  -- The top bits of a pointer into the upper half of the address space.
  pub ones_as_ids : usize_max >>> num_sequence_bits num_threads ≡ ids num_threads - 1
  ones_as_ids =
      ap (λ t. (t - 1) / sequence_limit num_threads) (sym limits_product)
      ∙ ones_div (ids num_threads) (sequence_limit num_threads) sequence_limit_pos
          (omega (arith, num_threads-lt-ids))

-- Packing a thread identifier up to `NUM_THREADS` and a sequence number that fits beside it loses
-- neither.
pub thread_and_sequence_round_trip :
    (num_threads thread_id sequence : ℕ)
    → num_threads + 1 < 2 ^ 64
    → thread_id ≤ num_threads
    → sequence < sequence_limit num_threads
    → (extract_thread_from_thread_and_sequence num_threads
          (construct_thread_and_sequence num_threads thread_id sequence)
        ≡ thread_id)
      × (extract_sequence_from_thread_and_sequence num_threads
            (construct_thread_and_sequence num_threads thread_id sequence)
          ≡ sequence)
thread_and_sequence_round_trip num_threads thread_id sequence fits below small = (
  extract_thread-construct num_threads fits thread_id sequence below small,
  extract_sequence-construct num_threads fits thread_id sequence below small,
)

-- The reserved bits of an application's value are all 0 or all 1.
pub extract_thread-application :
    (num_threads value : ℕ)
    → num_threads + 1 < 2 ^ 64
    → IsApplicationValue num_threads value
    → (extract_thread_from_thread_and_sequence num_threads value ≡ 0)
      ⊎ (extract_thread_from_thread_and_sequence num_threads value
          ≡ usize_max >>> num_sequence_bits num_threads)
extract_thread-application num_threads value fits (inl low) = inl (
    extract_thread_as_div num_threads fits value ∙ div_of_lt value (sequence_limit num_threads) low)
extract_thread-application num_threads value fits (inr (high, small)) = inr (
    extract_thread_as_div num_threads fits value
    ∙ div_of_last (ids num_threads) (sequence_limit num_threads) value
        (omega (arith, limits_product num_threads fits))
        (omega (arith, limits_product num_threads fits))
    ∙ sym (ones_as_ids num_threads fits))

-- No identifier in use has all its bits set: the top bits of a marker are neither all 0 nor all 1.
pub kernel_top_bits-gt :
    (num_threads : ℕ)
    → num_threads + 1 < 2 ^ 64
    → num_threads < usize_max >>> num_sequence_bits num_threads
kernel_top_bits-gt num_threads fits =
    omega (arith, ones_as_ids num_threads fits, num_threads-lt-ids num_threads fits)

-- An application's value is never taken for a marker.
pub application_value_is_no_marker :
    (num_threads value : ℕ)
    → num_threads + 1 < 2 ^ 64
    → IsApplicationValue num_threads value
    → is_value_a_kcas_marker num_threads value ≡ false
unfolding is_value_a_kcas_marker
application_value_is_no_marker num_threads value fits h = ground (
  arith,
  extract_thread-application num_threads value fits h,
  kernel_top_bits-gt num_threads fits,
)

-- A value is taken for a marker exactly when it is the packing of an identifier in use
-- and a sequence number that fits beside it.
pub is_value_a_kcas_marker_iff :
    (num_threads value : ℕ)
    → num_threads + 1 < 2 ^ 64
    → (is_value_a_kcas_marker num_threads value ≡ true) ↔ (
        (thread_id : ℕ) × (sequence : ℕ) × (1 ≤ thread_id)
        × (thread_id ≤ num_threads)
        × (sequence < sequence_limit num_threads)
        × (value ≡ construct_thread_and_sequence num_threads thread_id sequence))
unfolding is_value_a_kcas_marker
is_value_a_kcas_marker_iff num_threads value fits = (
  λ marked. (
    extract_thread_from_thread_and_sequence num_threads value,
    value % sequence_limit num_threads,
    ground arith,
    ground arith,
    mod-lt value (sequence_limit_pos num_threads fits),
    repacked (ground arith),
  ),
  λ (thread_id, sequence, positive, below, small, packed).
      let top : extract_thread_from_thread_and_sequence num_threads value ≡ thread_id =
        ap (extract_thread_from_thread_and_sequence num_threads) packed
        ∙ extract_thread-construct num_threads fits thread_id sequence below small in
      ground arith,
)
  where
    top : ℕ
    top = extract_thread_from_thread_and_sequence num_threads value

    repacked :
        top ≤ num_threads
        → value ≡ construct_thread_and_sequence num_threads top (value % sequence_limit num_threads)
    repacked below =
        let rest = mod-lt value (sequence_limit_pos num_threads fits) in
        omega (
          arith,
          div-add-mod' value (sequence_limit num_threads),
          ap (λ t. t * sequence_limit num_threads) (extract_thread_as_div num_threads fits value),
          construct_as_sum num_threads fits top (value % sequence_limit num_threads) below rest,
        )
