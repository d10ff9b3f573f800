-- ===== src/Solo/Revert.antt =====
-- The reverting phase: `revert` of src/kcas/revert.rs with no other thread at work.
use kcas.Base.{ℕ, zero, suc, ◌≤◌, ◌<◌, Result, ok, ◌≡◌, ◌≢◌, refl, ◌∙◌, sym, subst, arith, ne→==}
use kcas.Base.Family.{overlay, update, update_self, update_undo}
use kcas.Sync.{◌>>=◌, target_address, expected_value, target}
use kcas.Kcas.{State}
use kcas.Kcas.Revert.{RevertError, revert_words, revert}
use kcas.Kcas.Memory.{Memory, read, write, in_bounds}
use kcas.Kcas.Memory.Returns.{Returns, Returns-ret, Returns-load, Returns-hit, Returns-miss}
use kcas.Solo.Row.{IsRow, overlaid, overlay-fresh, target_in_bounds, expected_in_bounds}

module _ (num_threads num_words rounds i marker : ℕ) {s : State}
    (row : IsRow num_threads num_words i s) (h : ℕ → ℕ) where
  revert_words-step :
      (w : ℕ) {a : Result (Unit {0}) RevertError} {m' : Memory}
      → w < num_words
      → h (s.target_addresses i w) ≡ s.expected_values i w
      → Returns num_threads num_words rounds
          (revert_words i marker w)
          (overlaid s i w (λ w. marker) h)
          a
          m'
      → Returns num_threads num_words rounds
          (revert_words i marker (suc w))
          (overlaid s i (suc w) (λ w. marker) h)
          a
          m'
  unfolding revert_words ◌>>=◌ read write overlay in_bounds
  revert_words-step w {a} {m'} below matched rest =
      Returns-load (target_address i w) _ (target_in_bounds num_words row.index below) refl (
        rw (ne→== (s.target_addresses i w) 0 (row.not_null w below)) (
          Returns-load (expected_value i w) _ (expected_in_bounds num_words row.index below) refl (
            Returns-hit (target (s.target_addresses i w)) marker (s.expected_values i w) _ refl
              (update_self before (s.target_addresses i w) marker)
              (subst
                (λ t.
                  Returns num_threads num_words rounds (revert_words i marker w)
                    (record { state = s; targets = t }) a m')
                (sym undone) rest))))
    where
      before : ℕ → ℕ
      before = overlay w (s.target_addresses i) (λ w. marker) h

      undone :
          update
            (update before (s.target_addresses i w) marker)
            (s.target_addresses i w)
            (s.expected_values i w)
          ≡ before
      undone =
          update_undo before (s.target_addresses i w) marker (s.expected_values i w)
            (overlay-fresh row w below (λ w. marker) h ∙ matched)

  -- The claimed words get their values back: the targets are as before the operation.
  pub revert_words-restores :
      (n : ℕ)
      → n ≤ num_words
      → ((j : ℕ) → j < n → h (s.target_addresses i j) ≡ s.expected_values i j)
      → Returns num_threads num_words rounds
          (revert_words i marker n)
          (overlaid s i n (λ w. marker) h)
          (ok tt)
          (record { state = s; targets = h })
  revert_words-restores zero below matched = unfold revert_words overlay in Returns-ret _ _
  revert_words-restores (suc n) below matched =
      revert_words-step n below (matched n (omega arith))
        (revert_words-restores n (omega arith) (λ j before. matched j (omega arith)))

  -- `revert` starts at the word that could not be claimed.
  pub revert-restores :
      (stop : ℕ)
      → stop < num_words
      → ((j : ℕ) → j < stop → h (s.target_addresses i j) ≡ s.expected_values i j)
      → h (s.target_addresses i stop) ≢ marker
      → Returns num_threads num_words rounds
          (revert i marker stop)
          (overlaid s i stop (λ w. marker) h)
          (ok tt)
          (record { state = s; targets = h })
  unfolding revert ◌>>=◌ read in_bounds
  revert-restores stop below matched unmarked =
      Returns-load (target_address i stop) _ (target_in_bounds num_words row.index below) refl (
        rw (ne→== (s.target_addresses i stop) 0 (row.not_null stop below)) (
          Returns-load (expected_value i stop) _ (expected_in_bounds num_words row.index below) refl
            (Returns-miss (target (s.target_addresses i stop)) marker (s.expected_values i stop) _
              refl (λ e. unmarked (sym (overlay-fresh row stop below (λ w. marker) h) ∙ e))
              (revert_words-restores stop (omega arith) matched))))
