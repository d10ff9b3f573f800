-- ===== src/Safety/Always.antt =====
-- What holds at every point of every interleaving, from a new state on.
use kcas.Base.{ℕ, ◌+◌, ◌^◌, ◌≤◌, ◌<◌, Bool, List, Result, ◌≡◌, ◌≢◌, inl, refl, subst, arith}
use kcas.Err.{Error}
use kcas.Stage.{inactive}
use kcas.Types.StageAndSequence.{construct_as_sum}
use kcas.Types.Marker.{IsApplicationValue, sequence_limit_pos}
use kcas.Sync.{Prog, ret, panic}
use kcas.Kcas.{KCasWord, State_new}
use kcas.Kcas.Memory.{Memory}
use kcas.Shared.Schedule.{System, run_schedule, all_start}
use kcas.Safety.World.{IsNumber, Holds, IsSound, words_of}
use kcas.Safety.Safe.{Safe}
use kcas.Safety.Steps.{Ended, IsSafe}
use kcas.Safety.Run.{length, AreRequests, IsOnward, all_start-IsSafe, run_schedule-IsSafe}

-- `State::new()`, and what the application's words hold.
abbrev pub new_memory : (targets : ℕ → ℕ) → Memory
new_memory targets = record { state = State_new; targets = targets }

module _ (num_threads : ℕ) (fits : num_threads + 1 < 2 ^ 62) (targets : ℕ → ℕ) where
  first-IsNumber : IsNumber num_threads 0
  first-IsNumber = record {
    small = omega arith;
    room = omega (arith, sequence_limit_pos num_threads (omega arith));
  }

  new_memory-Holds : (i : ℕ) → Holds num_threads (words_of (new_memory targets)) i inactive 0
  new_memory-Holds i = record {
    word = omega (arith, construct_as_sum inactive 0 (omega arith));
    number = first-IsNumber;
  }

  new_memory-IsSound :
      (num_words : ℕ)
      → ((a : ℕ) → IsApplicationValue num_threads (targets a))
      → IsSound num_threads num_words (new_memory targets)
  new_memory-IsSound num_words plain = record {
    words = λ i inside. (inactive, 0, new_memory-Holds i);
    expected = λ i w inside below. inl first-IsNumber.room;
    desired = λ i w inside below. inl first-IsNumber.room;
    rows = λ i w inside below started. absurd (started refl);
    targets = λ a. inl (plain a);
  }

-- A safe program has not panicked, and has no result but a permitted one.
module _ (num_threads num_words own : ℕ) {A : Type 0} (Post : A → Memory → Type 0) (p : Prog A)
    (m : Memory) (safe : Safe num_threads num_words own Post p m) where
  Safe-panic : p ≢ panic
  unfolding Safe
  Safe-panic e = subst (λ q. Safe num_threads num_words own Post q m) e safe

  Safe-ret : (r : A) → p ≡ ret r → Post r m
  unfolding Safe
  Safe-ret r e = subst (λ q. Safe num_threads num_words own Post q m) e safe

module _ (num_threads num_words fuel : ℕ) (operations : ℕ → List (ℕ → KCasWord)) (targets : ℕ → ℕ)
    (fits : num_threads + 1 < 2 ^ 62) (some_words : 1 ≤ num_words) (words_fit : num_words < 2 ^ 64)
    (plain : (a : ℕ) → IsApplicationValue num_threads (targets a))
    (requests : (i : ℕ) → i < num_threads → AreRequests num_threads num_words (operations i))
    (room : (i : ℕ) → i < num_threads → IsNumber num_threads (length (operations i)))
    (schedule : List (ℕ × Bool)) where
  abbrev start : System
  start = all_start num_threads num_words fuel operations (new_memory targets)

  abbrev pub after : System
  after = run_schedule num_threads num_words schedule start

  start-IsSafe : IsSafe num_threads num_words (λ i. length (operations i)) start
  start-IsSafe =
      all_start-IsSafe num_threads num_words fits some_words words_fit fuel operations
        (new_memory targets) (new_memory-IsSound num_threads fits targets num_words plain)
        (λ i inside.
          (new_memory-Holds num_threads fits targets i, (requests i inside, room i inside)))

  after-IsSafe : IsSafe num_threads num_words (λ i. length (operations i)) after
  after-IsSafe =
      (run_schedule-IsSafe num_threads num_words (λ i. length (operations i)) schedule start
        start-IsSafe).0

  -- From a new state on, whose targets hold values with reserved bits all 0 or all 1, with fewer than
  -- 2 ^ 62 - 1 slots and 1 to 2 ^ 64 - 1 words: any number of threads perform any number of operations
  -- each, that fit into the sequence number, on references that are not null and expected and desired
  -- values with reserved bits all 0 or all 1. Then no thread panics, at any point of any interleaving.
  pub never_panics : (i : ℕ) → after.programs i ≢ panic
  never_panics i =
      Safe-panic num_threads num_words i _ (after.programs i) after.memory (after-IsSafe.each i)

  -- Under the same conditions: a thread that has come to its end, at a point of an interleaving,
  -- has no fatal error as its result. It has performed all its operations, and its stage word is
  -- `Inactive`, with the number of the operations as its sequence number.
  pub always-Ended :
      (i : ℕ) (r : Result (Unit {0}) Error)
      → after.programs i ≡ ret r
      → Ended num_threads (λ j. length (operations j)) i r after.memory
  always-Ended i r e =
      Safe-ret num_threads num_words i _ (after.programs i) after.memory (after-IsSafe.each i) r e

  -- Under the same conditions, at every point of every interleaving: each stage word holds a stage
  -- and a sequence number that fits; the saved expected and desired values have reserved bits all 0
  -- or all 1; the row of a thread whose stage word is not 0 has no null reference; and each target
  -- holds a value with reserved bits all 0 or all 1, or the marker of an operation of a slot that
  -- has been started.
  pub always-IsSound : IsSound num_threads num_words after.memory
  always-IsSound = after-IsSafe.sound

  -- Under the same conditions, between any two points of an interleaving: a slot that has come to a
  -- stage of an operation is later at that stage of it, at one that can follow, or at a later
  -- operation.
  pub never_back :
      (more : List (ℕ × Bool))
      → IsOnward num_threads after.memory (run_schedule num_threads num_words more after).memory
  never_back more =
      (run_schedule-IsSafe num_threads num_words (λ i. length (operations i)) more after
        after-IsSafe).1
