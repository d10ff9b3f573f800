-- ===== src/Solo/Initialize.antt =====
-- The start of an operation: `initialize_operation` of src/kcas/mod.rs.
use native.Mathlib.Numerals.{add-one}
use native.Mathlib.Decide.{ℕ_discrete}
use kcas.Base.{ℕ, zero, suc, ◌+◌, ◌<◌, ◌≡◌, ◌≢◌, refl, sym, ap, ◌∙◌, arith}
use kcas.Base.Family.{update, update_ne}
use kcas.Stage.{Stage}
use kcas.Types.{construct_stage_and_sequence, extract_sequence_from_stage_and_sequence}
use kcas.Sync.{◌>>=◌, target_address, expected_value, desired_value, stage_and_sequence_number}
use kcas.Kcas.{State, KCasWord, save_word, save_words, initialize_operation}
use kcas.Kcas.Memory.{read, write, update_at}
use kcas.Kcas.Memory.Returns.{Returns, Returns-ret, Returns-bind, Returns-load, Returns-store}
use kcas.Solo.Row.{target_in_bounds, expected_in_bounds, desired_in_bounds, stage_in_bounds}

-- The state in which word number `w` of thread `i` has been saved.
abbrev pub saved_word : (i w : ℕ) → KCasWord → State → State
saved_word i w word s = record s {
  target_addresses = update_at s.target_addresses i w word.target_address;
  expected_values = update_at s.expected_values i w word.expected_value;
  desired_values = update_at s.desired_values i w word.desired_value;
}

-- The state in which the first `n` words have been saved.
pub saved : (n i : ℕ) → (ℕ → KCasWord) → State → State
saved zero i words s = s
saved (suc n) i words s = saved_word i n (words n) (saved n i words s)

-- The state in which `i` has started its operation.
abbrev pub with_stage : State → (i stage_and_sequence : ℕ) → State
with_stage s i v = record s { stage_and_sequence_numbers = update s.stage_and_sequence_numbers i v }

abbrev pub started : (num_words i : ℕ) → (ℕ → KCasWord) → State → State
started num_words i words s = with_stage (saved num_words i words s) i (
    construct_stage_and_sequence Stage.claiming
      (extract_sequence_from_stage_and_sequence (s.stage_and_sequence_numbers i)))

update_at-row :
    (f : ℕ → ℕ → ℕ) (i n : ℕ) (value : ℕ → ℕ)
    → ((w : ℕ) → w < n → f i w ≡ value w)
    → (w : ℕ) → w < suc n
    → update_at f i n (value n) i w ≡ value w
update_at-row f i n value before w h = elim (ℕ_discrete n w) [
  | yes last ↦ ground (arith, ap value last)
  | no earlier ↦ ground (arith, before w (omega arith))
]

update_at-other : (f : ℕ → ℕ → ℕ) (i w v j : ℕ) → j ≢ i → update_at f i w v j ≡ f j
update_at-other f i w v j other = update_ne f i j _ (λ e. other (sym e))

-- The first `n` words of row `i` are in `t`, and nothing else has changed since `s`.
pub record IsSaved (n i : ℕ) (words : ℕ → KCasWord) (s t : State) : Type 0 where
  pub targets : (w : ℕ) → w < n → t.target_addresses i w ≡ (words w).target_address
  pub expected : (w : ℕ) → w < n → t.expected_values i w ≡ (words w).expected_value
  pub desired : (w : ℕ) → w < n → t.desired_values i w ≡ (words w).desired_value
  pub stages : t.stage_and_sequence_numbers ≡ s.stage_and_sequence_numbers
  pub slots : t.thread_index_slots ≡ s.thread_index_slots
  pub in_use : t.num_threads_in_use ≡ s.num_threads_in_use
  pub others :
      (j : ℕ)
      → j ≢ i
      → (t.target_addresses j ≡ s.target_addresses j)
        × (t.expected_values j ≡ s.expected_values j)
        × (t.desired_values j ≡ s.desired_values j)

pub saved-IsSaved :
    (n i : ℕ) (words : ℕ → KCasWord) (s : State) → IsSaved n i words s (saved n i words s)
unfolding saved
saved-IsSaved zero i words s = record {
  targets = λ w h. elim h [ ];
  expected = λ w h. elim h [ ];
  desired = λ w h. elim h [ ];
  stages = refl;
  slots = refl;
  in_use = refl;
  others = λ j h. (refl, refl, refl);
}
saved-IsSaved (suc n) i words s =
    let t = saved n i words s in
    let before = saved-IsSaved n i words s in
    record {
      targets = update_at-row t.target_addresses i n (λ w. (words w).target_address) before.targets;
      expected =
          update_at-row t.expected_values i n (λ w. (words w).expected_value) before.expected;
      desired = update_at-row t.desired_values i n (λ w. (words w).desired_value) before.desired;
      stages = before.stages;
      slots = before.slots;
      in_use = before.in_use;
      others = λ j other. (
        update_at-other t.target_addresses i n _ j other ∙ (before.others j other).0,
        update_at-other t.expected_values i n _ j other ∙ (before.others j other).1,
        update_at-other t.desired_values i n _ j other ∙ (before.others j other).2,
      );
    }

module _ (num_threads num_words rounds i : ℕ) (index : i < num_threads) (words : ℕ → KCasWord)
    (s : State) (h : ℕ → ℕ) where
  save_words-saves :
      (left w : ℕ)
      → w + left ≡ num_words
      → Returns num_threads num_words rounds
          (save_words i words left w)
          (record { state = saved w i words s; targets = h })
          tt
          (record { state = saved num_words i words s; targets = h })
  unfolding save_words save_word ◌>>=◌ write saved
  save_words-saves zero w e = let last : w ≡ num_words = omega arith in rw last (Returns-ret _ _)
  save_words-saves (suc left) w e =
      let below : w < num_words = omega arith in
      Returns-store (target_address i w) (words w).target_address _
        (target_in_bounds num_words index below)
        (Returns-store (expected_value i w) (words w).expected_value _
          (expected_in_bounds num_words index below)
          (Returns-store (desired_value i w) (words w).desired_value _
            (desired_in_bounds num_words index below)
            (rw add-one (save_words-saves left (suc w) (omega arith)))))

  -- The words are saved, and the stage is `Claiming` with the sequence number of the slot.
  pub initialize_operation-starts :
      Returns num_threads num_words rounds
        (initialize_operation num_words i words)
        (record { state = s; targets = h })
        (extract_sequence_from_stage_and_sequence (s.stage_and_sequence_numbers i))
        (record { state = started num_words i words s; targets = h })
  unfolding initialize_operation ◌>>=◌ read write
  initialize_operation-starts =
      let loaded = ap (λ f. f i) (saved-IsSaved num_words i words s).stages in
      Returns-bind _ _ all_saved (
        Returns-load (stage_and_sequence_number i) _ (stage_in_bounds num_words index) loaded (
          Returns-store (stage_and_sequence_number i) _ _ (stage_in_bounds num_words index)
            (Returns-ret _ _)))
    where
      all_saved :
          Returns num_threads num_words rounds
            (save_words i words num_words 0)
            (record { state = s; targets = h })
            tt
            (record { state = saved num_words i words s; targets = h })
      all_saved = unfold saved in save_words-saves num_words 0 (omega arith)
