-- ===== src/Safety/World.antt =====
-- The memory that several threads share: what its words hold at any time.
use kcas.Base.{ℕ, ◌+◌, ◌≤◌, ◌<◌, true, Result, ok, ◌≡◌, ◌≢◌, ◌⊎◌, inl, inr, sym, ap, ◌∙◌, arith}
use kcas.Stage.{Stage, inactive, claiming, as_usize, StageOutOfBoundsError}
use kcas.Types.{
  construct_stage_and_sequence, extract_stage_from_stage_and_sequence,
  extract_sequence_from_stage_and_sequence, construct_thread_and_sequence,
}
use kcas.Types.StageAndSequence.{
  stage_sequence_limit, construct_as_sum, extract_stage-construct, extract_sequence-construct,
}
use kcas.Types.Marker.{IsApplicationValue, sequence_limit}
use kcas.Kcas.Memory.{Memory}
use kcas.Safety.Order.{reaches, reaches_trans}

-- A sequence number that fits beside the stage and beside the thread identifier.
pub record IsNumber (num_threads sequence : ℕ) : Type 0 where
  pub small : sequence < stage_sequence_limit
  pub room : sequence < sequence_limit num_threads

-- The stage word of thread index `i`.
pub record Holds (num_threads : ℕ) (words : ℕ → ℕ) (i : ℕ) (stage : Stage) (sequence : ℕ)
    : Type 0 where
  pub word : words i ≡ construct_stage_and_sequence stage sequence
  pub number : IsNumber num_threads sequence

-- The operation has come to `stage` at least. Only if `Stale` holds can it be over, and the thread
-- have gone on to another one.
pub record AtLeast (Stale : Type 0) (num_threads : ℕ) (words : ℕ → ℕ) (i : ℕ) (stage : Stage)
    (sequence : ℕ) : Type 0 where
  pub now : Stage
  pub count : ℕ
  pub holds : Holds num_threads words i now count
  pub order : ((count ≡ sequence) × (reaches stage now ≡ true)) ⊎ (Stale × (sequence < count))

abbrev pub words_of : Memory → ℕ → ℕ
words_of m = m.state.stage_and_sequence_numbers

-- The marker of an operation that has started.
pub record IsMarker (num_threads : ℕ) (words : ℕ → ℕ) (value : ℕ) : Type 0 where
  pub i : ℕ
  pub sequence : ℕ
  pub inside : i < num_threads
  pub number : IsNumber num_threads sequence
  pub marker : value ≡ construct_thread_and_sequence num_threads (i + 1) sequence
  pub started : AtLeast (Unit {0}) num_threads words i claiming sequence

abbrev pub IsWord : ℕ → (words : ℕ → ℕ) → ℕ → Type 0
IsWord num_threads words value =
    IsApplicationValue num_threads value ⊎ IsMarker num_threads words value

-- What the threads keep true together.
pub record IsSound (num_threads num_words : ℕ) (m : Memory) : Type 0 where
  pub words :
      (i : ℕ)
      → i < num_threads
      → (stage : Stage) × (sequence : ℕ) × Holds num_threads (words_of m) i stage sequence
  pub expected :
      (i w : ℕ)
      → i < num_threads
      → w < num_words
      → IsApplicationValue num_threads (m.state.expected_values i w)
  pub desired :
      (i w : ℕ)
      → i < num_threads
      → w < num_words
      → IsApplicationValue num_threads (m.state.desired_values i w)
  pub rows :
      (i w : ℕ)
      → i < num_threads
      → w < num_words
      → words_of m i ≢ 0
      → m.state.target_addresses i w ≢ 0
  pub targets : (a : ℕ) → IsWord num_threads (words_of m) (m.targets a)

abbrev stage_or_inactive : Result Stage StageOutOfBoundsError → Stage
stage_or_inactive (ok stage) = stage
stage_or_inactive _ = inactive

going-ge : (s : Stage) → reaches claiming s ≡ true → 1 ≤ as_usize s
going-ge s r = ground arith

module _ {num_threads : ℕ} {words : ℕ → ℕ} {i : ℕ} where
  pub Holds-stage :
      {stage : Stage} {sequence : ℕ}
      → Holds num_threads words i stage sequence
      → extract_stage_from_stage_and_sequence (words i) ≡ ok stage
  Holds-stage {stage} {sequence} h =
      ap extract_stage_from_stage_and_sequence h.word
      ∙ extract_stage-construct stage sequence h.number.small

  pub Holds-sequence :
      {stage : Stage} {sequence : ℕ}
      → Holds num_threads words i stage sequence
      → extract_sequence_from_stage_and_sequence (words i) ≡ sequence
  Holds-sequence {stage} {sequence} h =
      ap extract_sequence_from_stage_and_sequence h.word
      ∙ extract_sequence-construct stage sequence h.number.small

  -- A word holds one stage and one sequence number.
  pub Holds-same_sequence :
      {s t : Stage} {q r : ℕ}
      → Holds num_threads words i s q
      → Holds num_threads words i t r
      → q ≡ r
  Holds-same_sequence h k = sym (Holds-sequence h) ∙ Holds-sequence k

  pub Holds-same_stage :
      {s t : Stage} {q r : ℕ}
      → Holds num_threads words i s q
      → Holds num_threads words i t r
      → s ≡ t
  Holds-same_stage h k = ap stage_or_inactive (sym (Holds-stage h) ∙ Holds-stage k)

  -- An operation that has started has a stage word that is not 0.
  pub started-ne-zero :
      {Stale : Type 0} {stage : Stage} {sequence : ℕ}
      → reaches claiming stage ≡ true
      → AtLeast Stale num_threads words i stage sequence
      → words i ≢ 0
  started-ne-zero {stage} {sequence} going known zero_word = elim known.order [
    | inl (same, further) ↦
        let at_least : 1 ≤ as_usize known.now =
          going-ge known.now (reaches_trans claiming stage known.now going further) in
        omega
          (arith, known.holds.word, construct_as_sum known.now known.count known.holds.number.small)
    | inr (stale, over) ↦
        omega
          (arith, known.holds.word, construct_as_sum known.now known.count known.holds.number.small)
  ]
