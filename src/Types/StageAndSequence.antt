-- ===== src/Types/StageAndSequence.antt =====
-- src/types.rs: the word that holds a stage in its three top bits and a sequence number below.
use kcas.Base.{
  ℕ, zero, suc, ◌+◌, ◌*◌, ◌/◌, ◌%◌, ◌^◌, ◌≤◌, ◌<◌, ◌≡◌, refl, ◌∙◌, ap, ◌⊎◌, inl, inr, ok, err,
  arith,
}
use kcas.Base.Bits.{bit_or-shifted, bit_and-mask}
use kcas.Stage.{
  Stage, inactive, claiming, setting, reverting, successful, reverted, as_usize, try_from,
}
use kcas.Types.{
  construct_stage_and_sequence, extract_stage_from_stage_and_sequence,
  extract_sequence_from_stage_and_sequence, sequence_mask_for_stage_and_sequence,
}

-- The number of sequence numbers that fit beside a stage.
abbrev pub stage_sequence_limit : ℕ
stage_sequence_limit = 2 ^ 61

pub as_usize-lt : (stage : Stage) → as_usize stage < 6
as_usize-lt stage = ground arith

try_from-as_usize : (stage : Stage) → try_from (as_usize stage) ≡ ok stage
unfolding try_from
try_from-as_usize inactive = refl
try_from-as_usize _ = refl

pub construct_as_sum :
    (stage : Stage) (sequence : ℕ)
    → sequence < stage_sequence_limit
    → construct_stage_and_sequence stage sequence ≡ as_usize stage * 2 ^ 61 + sequence
unfolding construct_stage_and_sequence
construct_as_sum stage sequence fits =
    let small : as_usize stage * 2 ^ 61 % 2 ^ 64 ≡ as_usize stage * 2 ^ 61 =
      omega (arith, as_usize-lt stage) in
    rw small (bit_or-shifted 61 (as_usize stage) sequence fits)

pub extract_sequence_as_mod :
    (word : ℕ) → extract_sequence_from_stage_and_sequence word ≡ word % 2 ^ 61
unfolding extract_sequence_from_stage_and_sequence sequence_mask_for_stage_and_sequence
extract_sequence_as_mod word = bit_and-mask 61 word

pub extract_stage-construct :
    (stage : Stage) (sequence : ℕ)
    → sequence < stage_sequence_limit
    → extract_stage_from_stage_and_sequence (construct_stage_and_sequence stage sequence) ≡ ok stage
unfolding extract_stage_from_stage_and_sequence
extract_stage-construct stage sequence fits =
    let top : construct_stage_and_sequence stage sequence / 2 ^ 61 ≡ as_usize stage =
      omega (arith, construct_as_sum stage sequence fits) in
    ap try_from top ∙ try_from-as_usize stage

pub extract_sequence-construct :
    (stage : Stage) (sequence : ℕ)
    → sequence < stage_sequence_limit
    → extract_sequence_from_stage_and_sequence (construct_stage_and_sequence stage sequence)
      ≡ sequence
extract_sequence-construct stage sequence fits = omega (
  arith,
  extract_sequence_as_mod (construct_stage_and_sequence stage sequence),
  construct_as_sum stage sequence fits,
)

-- Packing a stage and a sequence number below 2 ^ 61 loses neither.
pub stage_and_sequence_round_trip :
    (stage : Stage) (sequence : ℕ)
    → sequence < stage_sequence_limit
    → (extract_stage_from_stage_and_sequence (construct_stage_and_sequence stage sequence)
        ≡ ok stage)
      × (extract_sequence_from_stage_and_sequence (construct_stage_and_sequence stage sequence)
          ≡ sequence)
stage_and_sequence_round_trip stage sequence fits =
    (extract_stage-construct stage sequence fits, extract_sequence-construct stage sequence fits)

pub extract_sequence-lt : (word : ℕ) → extract_sequence_from_stage_and_sequence word < 2 ^ 61
extract_sequence-lt word = omega (arith, extract_sequence_as_mod word)

try_from-cases :
    (n : ℕ)
    → ((stage : Stage) × (try_from n ≡ ok stage) × (as_usize stage ≡ n))
      ⊎ ((try_from n ≡ err (record { value = n })) × (6 ≤ n))
unfolding try_from
try_from-cases zero = inl (inactive, refl, refl)
try_from-cases (suc zero) = inl (claiming, refl, refl)
try_from-cases (suc (suc zero)) = inl (setting, refl, refl)
try_from-cases (suc (suc (suc zero))) = inl (reverting, refl, refl)
try_from-cases (suc (suc (suc (suc zero)))) = inl (successful, refl, refl)
try_from-cases (suc (suc (suc (suc (suc zero))))) = inl (reverted, refl, refl)
try_from-cases (suc (suc (suc (suc (suc (suc n)))))) = inr (ground arith, omega arith)

-- Unpacking a word gives a stage and a sequence number that pack to the same word again, or, when
-- the three top bits are 6 or 7, the error that names them.
pub extract_stage_cases :
    (word : ℕ)
    → word < 2 ^ 64
    → ((stage : Stage) × (extract_stage_from_stage_and_sequence word ≡ ok stage)
        × (construct_stage_and_sequence stage (extract_sequence_from_stage_and_sequence word)
            ≡ word))
      ⊎ ((extract_stage_from_stage_and_sequence word ≡ err (record { value = word / 2 ^ 61 }))
          × (6 ≤ word / 2 ^ 61))
unfolding extract_stage_from_stage_and_sequence
extract_stage_cases word small = elim (try_from-cases (word / 2 ^ 61)) [
  | inl (stage, e, top) ↦ inl (
    stage,
    e,
    omega (
      arith,
      extract_sequence_as_mod word,
      construct_as_sum stage (extract_sequence_from_stage_and_sequence word)
          (extract_sequence-lt word),
    ),
  )
  | inr h ↦ inr h
]
