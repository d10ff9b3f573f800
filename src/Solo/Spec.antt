-- ===== src/Solo/Spec.antt =====
-- The specification of the whole operation, a compare-and-swap of several words at once, and the
-- proof that `kcas`, run by one thread by itself, implements it.
use native.Mathlib.Decide.{ℕ_discrete}
use kcas.Base.{
  ℕ, zero, suc, ◌<◌, Bool, true, false, ◌&&◌, List, Result, ok, err, ◌≡◌, ◌≢◌, ◌⊎◌, inl, inr, refl,
  sym, ◌∙◌, ap, fun_ext, arith, ◌==◌, eq→==, ne→==, if◌then◌else◌,
}
use kcas.Base.Family.{Distinct, overlay, overlay_at, overlay_away}
use kcas.Err.{Error}
use kcas.Types.Marker.{IsApplicationValue, sequence_limit}
use kcas.Kcas.{KCasWord}
use kcas.Kcas.Operation.{perform_kcas}
use kcas.Kcas.Memory.{Memory, run, returned}
use kcas.Kcas.Memory.Returns.{spurious_failures}
use kcas.Solo.Contract.{IsCall, own_sequence, IsReady, IsSwapped}
use kcas.Solo.Operation.{kcas-succeeds, kcas-fails}

-- Do the first `n` words hold their expected values?
unfoldable pub all_match : (n : ℕ) → (ℕ → KCasWord) → (ℕ → ℕ) → Bool
all_match zero words h = true
all_match (suc n) words h =
    all_match n words h && (h (words n).target_address == (words n).expected_value)

-- All words are compared, and all are swapped or none.
unfoldable pub multi_word_cas :
    (num_words : ℕ) → (ℕ → KCasWord) → (ℕ → ℕ) → Result (Unit {0}) Error × (ℕ → ℕ)
multi_word_cas num_words words h =
    if all_match num_words words h
    then (ok tt, overlay num_words (λ w. (words w).target_address) (λ w. (words w).desired_value) h)
    else (err Error.value_was_not_expected_value, h)

-- The first of the first `n` words that does not hold its expected value, if there is one.
first_mismatch :
    (n : ℕ) (words : ℕ → KCasWord) (h : ℕ → ℕ)
    → ((all_match n words h ≡ true)
        × ((w : ℕ) → w < n → h (words w).target_address ≡ (words w).expected_value))
      ⊎ ((all_match n words h ≡ false)
          × ((stop : ℕ) × (stop < n)
              × ((w : ℕ) → w < stop → h (words w).target_address ≡ (words w).expected_value)
              × (h (words stop).target_address ≢ (words stop).expected_value)))
unfolding all_match
first_mismatch zero words h = inl (refl, λ w below. elim below [ ])
first_mismatch (suc n) words h = elim (first_mismatch n words h) [
  | inr (some_differ, (stop, below, before, differs)) ↦
      inr (rw some_differ, (stop, omega arith, before, differs))
  | inl (yes_all, before) ↦
      elim (ℕ_discrete (h (words n).target_address) (words n).expected_value) [
        | yes same ↦ inl (
          rw (yes_all, eq→== _ _ same),
          λ w below. elim (ℕ_discrete w n) [
            | yes last ↦ rw last same
            | no earlier ↦ before w (omega arith)
          ],
        )
        | no other ↦ inr (rw (yes_all, ne→== _ _ other), (n, omega arith, before, other))
      ]
]

address_cases :
    (n : ℕ) (address : ℕ → ℕ) (a : ℕ)
    → ((w : ℕ) × (w < n) × (address w ≡ a)) ⊎ ((w : ℕ) → w < n → address w ≢ a)
address_cases zero address a = inr (λ w below. elim below [ ])
address_cases (suc n) address a = elim (ℕ_discrete (address n) a) [
  | yes here ↦ inl (n, omega arith, here)
  | no other ↦ elim (address_cases n address a) [
    | inl (w, below, here) ↦ inl (w, omega arith, here)
    | inr away ↦ inr λ w below. elim (ℕ_discrete w n) [
      | yes last ↦ rw last other
      | no earlier ↦ away w (omega arith)
    ]
  ]
]

-- A swap has exactly the effect of the specification.
IsSwapped-overlay :
    (num_words : ℕ) (words : ℕ → KCasWord) (m m' : Memory)
    → Distinct num_words (λ w. (words w).target_address)
    → IsSwapped num_words words m m'
    → m'.targets
      ≡ overlay num_words (λ w. (words w).target_address) (λ w. (words w).desired_value) m.targets
IsSwapped-overlay num_words words m m' apart swapped = fun_ext λ a.
    let address = λ (w : ℕ). (words w).target_address in
    let value = λ (w : ℕ). (words w).desired_value in
    elim (address_cases num_words address a) [
      | inl (w, below, here) ↦
          ap m'.targets (sym here)
          ∙ swapped.desired w below
          ∙ sym (overlay_at num_words address value m.targets w apart below)
          ∙ ap (overlay num_words address value m.targets) here
      | inr away ↦
          swapped.others a away ∙ sym (overlay_away num_words address value m.targets a away)
    ]

-- Where the targets are different and hold values of the application, `kcas` run without
-- interference returns the result of the specification and leaves the memory of the specification,
-- with more fuel than there are spurious failures, and its slot is ready for the next operation.
-- The sequence number has to fit beside the thread identifier.
pub kcas-refines-multi_word_cas :
    (num_threads num_words fuel thread_id : ℕ) (words : ℕ → KCasWord) (m : Memory) (o : List Bool)
    → IsCall num_threads num_words thread_id words
    → own_sequence m thread_id < sequence_limit num_threads
    → ((w : ℕ)
        → w < num_words
        → IsApplicationValue num_threads (m.targets (words w).target_address))
    → spurious_failures o < fuel
    → (o' : List Bool) × (m' : Memory) × (run num_threads num_words
          (perform_kcas num_threads num_words fuel thread_id words)
          o
          m
        ≡ returned (multi_word_cas num_words words m.targets).0 o' m')
      × (m'.targets ≡ (multi_word_cas num_words words m.targets).1)
      × IsReady num_threads thread_id m m'
unfolding multi_word_cas
kcas-refines-multi_word_cas num_threads num_words fuel thread_id words m o call room values few =
    elim (first_mismatch num_words words m.targets) [
      | inl (all, matches) ↦
          let (o', m', ended, swapped, ready) =
            kcas-succeeds num_threads num_words fuel thread_id words m o call matches few in
          rw all (o', m', ended, IsSwapped-overlay num_words words m m' call.apart swapped, ready)
      | inr (some_differ, (stop, below, before, differs)) ↦ rw some_differ (
          kcas-fails num_threads num_words fuel thread_id words m o stop call room below before
            differs (values stop below) few)
    ]
