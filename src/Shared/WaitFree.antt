-- ===== src/Shared/WaitFree.antt =====
-- After its claim a thread is wait-free: it ends after a bounded number of accesses of its own, in any
-- interleaving.
use kcas.Base.{
  ℕ, suc, ◌+◌, ◌*◌, ◌^◌, ◌≤◌, ◌<◌, Bool, true, false, List, [], ◌∷◌, Result, ◌≡◌, sym, subst, arith,
  ◌==◌, ==→eq, ==→ne, if◌then◌else◌, Bool-cases, inl, inr,
}
use kcas.Base.Family.{update, update_self, update_ne}
use kcas.Err.{Error}
use kcas.Sync.{
  Prog, ret, panic, out_of_fuel, load, store, compare_exchange, compare_exchange_weak, fetch_add,
  fetch_min,
}
use kcas.Kcas.Memory.{Memory, read, in_bounds}
use kcas.Kcas.Claim.{ClaimError, after_claim}
use kcas.Kcas.Concurrent.{handle_concurrent_stage_change_and_transition}
use kcas.Shared.Schedule.{System, advance, step, run_schedule}
use kcas.Shared.Bounded.{Within, Anything, Within-le}
use kcas.Shared.Ends.{IsClaimResult, after_claim-Within}

-- The number of accesses that a schedule gives to thread index `i`.
abbrev pub turns : ℕ → List (ℕ × Bool) → ℕ
turns i [] = 0
turns i ((j, spurious) ∷ rest) = if j == i then suc (turns i rest) else turns i rest

-- The program has returned, or panicked.
abbrev pub IsOver : {A : Type 0} → Prog A → Type 0
IsOver (ret a) = Unit {0}
IsOver panic = Unit {0}
IsOver _ = ⊥

module _ (num_threads num_words : ℕ) {A : Type 0} where
  in_or_out :
      (b : Bool) (n : ℕ) (p : Prog A) (m : Memory) (m' : Memory)
      → Within n Anything p
      → Within n Anything (if◌then◌else◌ {A = Prog A × Memory} b (p, m) (panic, m')).0
  unfolding Within
  in_or_out true n p m m' h = h
  in_or_out false n p m m' h = tt

  advance-Within :
      (n : ℕ) (spurious : Bool) (p : Prog A) (m : Memory)
      → Within (suc n) Anything p
      → Within n Anything (advance num_threads num_words spurious p m).0
  unfolding advance Within
  advance-Within n spurious (ret a) m h = h
  advance-Within n spurious panic m h = tt
  advance-Within n spurious out_of_fuel m h = h
  advance-Within n spurious (load l k) m h =
      in_or_out (in_bounds num_threads num_words l) n (k (read m l)) m m (h (read m l))
  advance-Within n spurious (store l v p) m h =
      in_or_out (in_bounds num_threads num_words l) n p _ m h
  advance-Within n spurious (compare_exchange l c d k) m h =
      in_or_out (in_bounds num_threads num_words l) n (k _) _ m (h _)
  advance-Within n spurious (compare_exchange_weak l c d k) m h =
      in_or_out (in_bounds num_threads num_words l) n (k _) _ m (h _)
  advance-Within n spurious (fetch_add l v p) m h =
      in_or_out (in_bounds num_threads num_words l) n p _ m h
  advance-Within n spurious (fetch_min l v p) m h =
      in_or_out (in_bounds num_threads num_words l) n p _ m h

Within-zero : {A : Type 0} (p : Prog A) → Within 0 Anything p → IsOver p
unfolding Within
Within-zero (ret a) h = tt
Within-zero panic h = tt
Within-zero out_of_fuel h = h
Within-zero (load l k) h = h
Within-zero (store l v p) h = h
Within-zero (compare_exchange l c d k) h = h
Within-zero (compare_exchange_weak l c d k) h = h
Within-zero (fetch_add l v p) h = h
Within-zero (fetch_min l v p) h = h

run_schedule-Within :
    (num_threads num_words i : ℕ) (schedule : List (ℕ × Bool)) (s : System) (n : ℕ)
    → Within (turns i schedule + n) Anything (s.programs i)
    → Within n Anything ((run_schedule num_threads num_words schedule s).programs i)
unfolding run_schedule
run_schedule-Within num_threads num_words i [] s n h =
    subst (λ x. Within x Anything (s.programs i)) (omega arith) h
run_schedule-Within num_threads num_words i ((j, spurious) ∷ rest) s n h =
    run_schedule-Within num_threads num_words i rest (step num_threads num_words j spurious s) n
      (elim (Bool-cases (j == i)) [
        | inl mine ↦
            let count : turns i ((j, spurious) ∷ rest) + n ≡ suc (turns i rest + n) =
              ground (arith, mine) in
            let same = ==→eq j i mine in
            subst (λ x. Within (turns i rest + n) Anything (update s.programs j next x)) same
              (subst (Within (turns i rest + n) Anything) (sym (update_self s.programs j next)) (
                advance-Within num_threads num_words (turns i rest + n) spurious (s.programs j)
                  s.memory
                  (subst (λ x. Within (suc (turns i rest + n)) Anything (s.programs x)) (sym same)
                    (subst (λ x. Within x Anything (s.programs i)) count h))))
        | inr other ↦
            let count : turns i ((j, spurious) ∷ rest) + n ≡ turns i rest + n =
              ground (arith, other) in
            subst (Within (turns i rest + n) Anything)
              (sym (update_ne s.programs j i next (==→ne j i other)))
              (subst (λ x. Within x Anything (s.programs i)) count h)
      ])
  where
    next : Prog (Result (Unit {0}) Error)
    next = (advance num_threads num_words spurious (s.programs j) s.memory).0

-- A thread that has its claim behind it, with any result of the claim (whose errors name words of the
-- operation), has returned or panicked after 2 + 7 * NUM_WORDS accesses of its own, whatever the other
-- threads do meanwhile, with 1 to 2 ^ 64 - 1 words and a fuel of 2 or more for the reactions to
-- concurrent stage changes.
pub after_claim-IsOver :
    (num_threads num_words fuel i sequence marker : ℕ) (r : Result (Unit {0}) ClaimError)
    (s : System) (schedule : List (ℕ × Bool))
    → 1 ≤ num_words
    → num_words < 2 ^ 64
    → IsClaimResult num_words r
    → s.programs i
      ≡ after_claim num_threads num_words
          (handle_concurrent_stage_change_and_transition num_threads num_words (suc (suc fuel)))
          i
          sequence
          marker
          r
    → 2 + 7 * num_words ≤ turns i schedule
    → IsOver ((run_schedule num_threads num_words schedule s).programs i)
after_claim-IsOver num_threads num_words fuel i sequence marker r s schedule some_words words_fit
      claimed here enough =
    let bounded =
      after_claim-Within num_threads num_words some_words words_fit i sequence marker fuel r
        claimed in
    Within-zero _ (
      run_schedule-Within num_threads num_words i schedule s 0 (
        subst (Within (turns i schedule + 0) Anything) (sym here)
          (Within-le Anything _ (omega (arith, enough)) bounded)))
