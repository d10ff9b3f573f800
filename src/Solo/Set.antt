-- ===== src/Solo/Set.antt =====
-- The setting phase: `set` of src/kcas/set.rs with no other thread at work.
use native.Mathlib.Numerals.{add-one}
use kcas.Base.{ℕ, zero, suc, ◌+◌, ◌<◌, Result, ok, ◌≡◌, refl, ◌∙◌, arith, ne→==}
use kcas.Base.Family.{overlay}
use kcas.Sync.{◌>>=◌, target_address, desired_value, target}
use kcas.Kcas.{State}
use kcas.Kcas.Set.{SetError, set_words}
use kcas.Kcas.Memory.{Memory, read, write, in_bounds}
use kcas.Kcas.Memory.Returns.{Returns, Returns-ret, Returns-load, Returns-hit}
use kcas.Solo.Row.{IsRow, overlaid, overlay-fresh, target_in_bounds, desired_in_bounds}

module _ (num_threads num_words rounds i sequence marker : ℕ) {s : State}
    (row : IsRow num_threads num_words i s) (g : ℕ → ℕ)
    (marked : (j : ℕ) → j < num_words → g (s.target_addresses i j) ≡ marker) where
  set_words-step :
      (left w : ℕ) {a : Result (Unit {0}) SetError} {m' : Memory}
      → w < num_words
      → Returns num_threads num_words rounds
          (set_words i sequence marker left (w + 1))
          (overlaid s i (suc w) (s.desired_values i) g)
          a
          m'
      → Returns num_threads num_words rounds
          (set_words i sequence marker (suc left) w)
          (overlaid s i w (s.desired_values i) g)
          a
          m'
  unfolding set_words ◌>>=◌ read write overlay in_bounds
  set_words-step left w below rest =
      Returns-load (target_address i w) _ (target_in_bounds num_words row.index below) refl (
        rw (ne→== (s.target_addresses i w) 0 (row.not_null w below)) (
          Returns-load (desired_value i w) _ (desired_in_bounds num_words row.index below) refl (
            Returns-hit (target (s.target_addresses i w)) marker (s.desired_values i w) _ refl
              (overlay-fresh row w below (s.desired_values i) g ∙ marked w below) rest)))

  set_words-from :
      (left w : ℕ)
      → w + left ≡ num_words
      → Returns num_threads num_words rounds
          (set_words i sequence marker left w)
          (overlaid s i w (s.desired_values i) g)
          (ok tt)
          (overlaid s i num_words (s.desired_values i) g)
  set_words-from zero w e =
      let last : w ≡ num_words = omega arith in rw last (unfold set_words in Returns-ret _ _)
  set_words-from (suc left) w e =
      set_words-step left w (omega arith) (rw add-one (set_words-from left (suc w) (omega arith)))

  -- Where every target holds the marker, all get their desired values.
  pub set_words-sets :
      Returns num_threads num_words rounds
        (set_words i sequence marker num_words 0)
        (record { state = s; targets = g })
        (ok tt)
        (overlaid s i num_words (s.desired_values i) g)
  unfolding overlay
  set_words-sets = set_words-from num_words 0 (omega arith)
