-- ===== src/Safety/Run.antt =====
-- Any number of threads, any interleaving: no panic, no fatal error, and the memory stays sound.
use kcas.Base.{
  ℕ, suc, ◌+◌, ◌^◌, ◌≤◌, ◌<◌, Bool, List, [], ◌∷◌, Result, ok, err, ◌≡◌, inl, inr, refl, subst,
  arith, ltb, Bool-cases,
}
use kcas.Err.{Error}
use kcas.Stage.{Stage, inactive}
use kcas.Kcas.{KCasWord}
use kcas.Kcas.Memory.{Memory}
use kcas.Kcas.Operation.{perform_kcas}
use kcas.Shared.Schedule.{System, run_schedule, step, perform_all, all_start, unless_fatal}
use kcas.Wrapper.Session.{thread_id-eq-suc}
use kcas.Safety.World.{IsNumber, Holds, AtLeast, IsSound, words_of}
use kcas.Safety.Safe.{Safe, Safe->>=}
use kcas.Safety.Writes.{Guarantee}
use kcas.Safety.Handlers.{Finished}
use kcas.Safety.Operation.{IsRequest, perform_kcas-Safe}
use kcas.Safety.Steps.{Ended, IsSafe, step-IsSafe}

abbrev pub length : {A : Type 0} → List A → ℕ
length [] = 0
length (x ∷ xs) = suc (length xs)

-- Every operation of a thread is one that the documentation allows.
abbrev pub AreRequests : (num_threads num_words : ℕ) → List (ℕ → KCasWord) → Type 0
AreRequests num_threads num_words [] = Unit {0}
AreRequests num_threads num_words (words ∷ rest) =
    IsRequest num_threads num_words words × AreRequests num_threads num_words rest

IsNumber-le : {num_threads n q : ℕ} → q ≤ n → IsNumber num_threads n → IsNumber num_threads q
IsNumber-le below number = record {
  small = omega (arith, below, number.small);
  room = omega (arith, below, number.room);
}

module _ (num_threads num_words : ℕ) (fits : num_threads + 1 < 2 ^ 62) (some_words : 1 ≤ num_words)
    (words_fit : num_words < 2 ^ 64) where
  perform_all-Safe :
      (own fuel : ℕ) (total : ℕ → ℕ) (sequence : ℕ) (operations : List (ℕ → KCasWord))
      → own < num_threads
      → AreRequests num_threads num_words operations
      → IsNumber num_threads (sequence + length operations)
      → total own ≡ sequence + length operations
      → (m : Memory) → Holds num_threads (words_of m) own inactive sequence
      → Safe num_threads num_words own
          (Ended num_threads total own)
          (perform_all num_threads num_words fuel (own + 1) operations)
          m
  unfolding perform_all Safe unless_fatal
  perform_all-Safe own fuel total sequence [] inside requests number count m holds = (
    refl,
    λ below. subst (Holds num_threads (words_of m) own inactive) (omega (arith, count)) holds,
  )
  perform_all-Safe own fuel total sequence (words ∷ rest) inside (request, requests) number count m
        holds =
      Safe->>= num_threads num_words own (Finished num_threads own sequence)
        (Ended num_threads total own) (perform_kcas num_threads num_words fuel (own + 1) words) _ m
        (perform_kcas-Safe num_threads num_words own sequence fits some_words words_fit inside
          request (IsNumber-le (omega arith) number) (IsNumber-le (omega arith) number) fuel m
          holds)
        (then (λ m' holds'.
          perform_all-Safe own fuel total (sequence + 1) rest inside requests
            (IsNumber-le (omega arith) number) (omega (arith, count)) m' holds'))
    where
      then :
          ((m' : Memory)
            → Holds num_threads (words_of m') own inactive (sequence + 1)
            → Safe num_threads num_words own
                (Ended num_threads total own)
                (perform_all num_threads num_words fuel (own + 1) rest)
                m')
          → (r : Result (Unit {0}) Error) (m' : Memory) → Finished num_threads own sequence r m'
          → Safe num_threads num_words own
              (Ended num_threads total own)
              (unless_fatal r (perform_all num_threads num_words fuel (own + 1) rest))
              m'
      then again (ok u) m' done = again m' done
      then again (err Error.value_was_not_expected_value) m' done = again m' done
      then again (err (Error.fatal e)) m' done = elim done [ ]

  pub all_start-IsSafe :
      (fuel : ℕ) (operations : ℕ → List (ℕ → KCasWord)) (m : Memory)
      → IsSound num_threads num_words m
      → ((i : ℕ)
          → i < num_threads
          → Holds num_threads (words_of m) i inactive 0
            × (AreRequests num_threads num_words (operations i)
                × IsNumber num_threads (length (operations i))))
      → IsSafe num_threads num_words
          (λ i. length (operations i))
          (all_start num_threads num_words fuel operations m)
  unfolding Safe
  all_start-IsSafe fuel operations m sound ready = record {
    sound = sound;
    each = λ j. elim (Bool-cases (ltb j num_threads)) [
      | inl inside ↦
          let below : j < num_threads = ground (arith, inside) in
          let (holds, (requests, number)) = ready j below in
          rw (inside, thread_id-eq-suc j (omega (arith, fits)))
            (perform_all-Safe j fuel (λ i. length (operations i)) 0 (operations j) below requests
              (IsNumber-le (omega arith) number) (omega arith) m holds)
      | inr outside ↦ rw outside (refl, λ below. absurd (ground (arith, outside, below)))
    ];
  }

-- No operation has gone back: to an earlier one of its thread, or to an earlier stage.
abbrev pub IsOnward : (num_threads : ℕ) (m m' : Memory) → Type 0
IsOnward num_threads m m' =
    (i : ℕ) (stage : Stage) (sequence : ℕ)
    → AtLeast (Unit {0}) num_threads (words_of m) i stage sequence
    → AtLeast (Unit {0}) num_threads (words_of m') i stage sequence

Guarantee-IsOnward :
    {num_threads num_words own : ℕ} {m m' : Memory}
    → Guarantee num_threads num_words own m m'
    → IsOnward num_threads m m'
Guarantee-IsOnward {own} g = (g.others (own + 1) (λ e. omega (arith, e))).forward

pub run_schedule-IsSafe :
    (num_threads num_words : ℕ) (total : ℕ → ℕ) (schedule : List (ℕ × Bool)) (s : System)
    → IsSafe num_threads num_words total s
    → IsSafe num_threads num_words total (run_schedule num_threads num_words schedule s)
      × IsOnward num_threads s.memory (run_schedule num_threads num_words schedule s).memory
unfolding run_schedule
run_schedule-IsSafe num_threads num_words total [] s safe = (safe, λ i stage sequence k. k)
run_schedule-IsSafe num_threads num_words total ((i, spurious) ∷ rest) s safe =
    let (safe', kept) = step-IsSafe num_threads num_words total i spurious s safe in
    let (safe'', onward) =
      run_schedule-IsSafe num_threads num_words total rest (step num_threads num_words i spurious s)
        safe' in
    (
      safe'',
      λ j stage sequence k. onward j stage sequence (Guarantee-IsOnward kept j stage sequence k),
    )
