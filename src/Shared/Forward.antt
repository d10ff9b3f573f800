-- ===== src/Shared/Forward.antt =====
-- While a thread takes no step, the other threads leave its row as it is, and move its stage forward
-- only.
use kcas.Base.{
  ℕ, Bool, true, false, List, [], ◌∷◌, ◌≡◌, ◌≢◌, refl, inl, inr, sym, ◌∙◌, subst, ==→eq, Bool-cases,
  ◌==◌,
}
use native.Mathlib.Decide.{ℕ_discrete}
use kcas.Base.Family.{update, update_self, update_ne}
use kcas.Sync.{
  Location, num_threads_in_use, thread_index_slot, target_address, expected_value, desired_value,
  stage_and_sequence_number, target, Prog, ret, panic, out_of_fuel, load, store, compare_exchange,
  compare_exchange_weak, fetch_add, fetch_min,
}
use kcas.Kcas.Memory.{Memory, read, write, in_bounds, cas_write, weak_write}
use kcas.Shared.Discipline.{IsStageChange, MayStore, MaySwap, Disciplined}
use kcas.Shared.Schedule.{advance, System, step, run_schedule, Rests}

-- The moves of a stage word.
pub data Moves : ℕ → ℕ → Type 0 where
  stays : (word : ℕ) → Moves word word
  moves : (word next last : ℕ) → IsStageChange word next → Moves next last → Moves word last

abbrev stage_word : Memory → ℕ → ℕ
stage_word m j = m.state.stage_and_sequence_numbers j

-- What others do to the row of thread `j`.
pub record IsForward (j : ℕ) (m m' : Memory) : Type 0 where
  pub stage : Moves (stage_word m j) (stage_word m' j)
  pub targets : m'.state.target_addresses j ≡ m.state.target_addresses j
  pub expected : m'.state.expected_values j ≡ m.state.expected_values j
  pub desired : m'.state.desired_values j ≡ m.state.desired_values j

pub Moves-trans : {a b c : ℕ} → Moves a b → Moves b c → Moves a c
Moves-trans (stays w) second = second
Moves-trans (moves w n l change first) second = moves w n _ change (Moves-trans first second)

pub IsForward-refl : (j : ℕ) (m : Memory) → IsForward j m m
IsForward-refl j m = record { stage = stays _; targets = refl; expected = refl; desired = refl }

pub IsForward-trans :
    {j : ℕ} {m m' m'' : Memory} → IsForward j m m' → IsForward j m' m'' → IsForward j m m''
IsForward-trans f g = record {
  stage = Moves-trans f.stage g.stage;
  targets = g.targets ∙ f.targets;
  expected = g.expected ∙ f.expected;
  desired = g.desired ∙ f.desired;
}

-- A store to another thread's row.
store-IsForward :
    (own j : ℕ) (m : Memory) (l : Location) (v : ℕ)
    → own ≢ j
    → MayStore own l
    → IsForward j m (write m l v)
unfolding MayStore write
store-IsForward own j m (target_address i w) v other mine = record {
  stage = stays _;
  targets = update_ne m.state.target_addresses i j _ (λ e. other (sym mine ∙ e));
  expected = refl;
  desired = refl;
}
store-IsForward own j m (expected_value i w) v other mine = record {
  stage = stays _;
  targets = refl;
  expected = update_ne m.state.expected_values i j _ (λ e. other (sym mine ∙ e));
  desired = refl;
}
store-IsForward own j m (desired_value i w) v other mine = record {
  stage = stays _;
  targets = refl;
  expected = refl;
  desired = update_ne m.state.desired_values i j _ (λ e. other (sym mine ∙ e));
}
store-IsForward own j m (stage_and_sequence_number i) v other mine = record {
  stage =
      subst (Moves (stage_word m j))
        (sym (update_ne m.state.stage_and_sequence_numbers i j v (λ e. other (sym mine ∙ e))))
        (stays _);
  targets = refl;
  expected = refl;
  desired = refl;
}
store-IsForward own j m num_threads_in_use v other mine = elim mine [ ]
store-IsForward own j m (thread_index_slot i) v other mine = elim mine [ ]
store-IsForward own j m (target a) v other mine = elim mine [ ]

swapped_word :
    (f : ℕ → ℕ) (i j current new : ℕ)
    → IsStageChange current new
    → f i ≡ current
    → Moves (f j) (update f i new j)
swapped_word f i j current new change held = elim (ℕ_discrete i j) [
  | yes same ↦
      subst (λ k. Moves (f k) (update f i new k)) same
        (subst (λ x. Moves x (update f i new i)) (sym held)
          (subst (Moves current) (sym (update_self f i new))
            (moves current new new change (stays new))))
  | no other ↦ subst (Moves (f j)) (sym (update_ne f i j new other)) (stays (f j))
]

-- A swap that succeeds.
swap-IsForward :
    (j : ℕ) (m : Memory) (l : Location) (current new : ℕ)
    → MaySwap l current new
    → read m l ≡ current
    → IsForward j m (write m l new)
unfolding MaySwap write read
swap-IsForward j m (target a) current new may held = record {
  stage = stays _;
  targets = refl;
  expected = refl;
  desired = refl;
}
swap-IsForward j m (stage_and_sequence_number i) current new may held = record {
  stage = swapped_word m.state.stage_and_sequence_numbers i j current new may held;
  targets = refl;
  expected = refl;
  desired = refl;
}
swap-IsForward j m num_threads_in_use current new may held = elim may [ ]
swap-IsForward j m (thread_index_slot i) current new may held = elim may [ ]
swap-IsForward j m (target_address i w) current new may held = elim may [ ]
swap-IsForward j m (expected_value i w) current new may held = elim may [ ]
swap-IsForward j m (desired_value i w) current new may held = elim may [ ]

-- A compare-exchange, on each course.
cas-IsForward :
    (j : ℕ) (m : Memory) (l : Location) (current new : ℕ)
    → MaySwap l current new
    → IsForward j m (cas_write m l current new)
cas-IsForward j m l current new may = elim (Bool-cases (read m l == current)) [
  | inl hit ↦ rw hit (swap-IsForward j m l current new may (==→eq _ _ hit))
  | inr miss ↦ rw miss (IsForward-refl j m)
]

weak-IsForward :
    (j : ℕ) (m : Memory) (spurious : Bool) (l : Location) (current new : ℕ)
    → MaySwap l current new
    → IsForward j m (weak_write spurious m l current new)
weak-IsForward j m true l current new may = IsForward-refl j m
weak-IsForward j m false l current new may = cas-IsForward j m l current new may

module _ (num_threads num_words own : ℕ) {A : Type 0} (spurious : Bool) where
  pub advance-Disciplined :
      (p : Prog A) (m : Memory)
      → Disciplined own p
      → Disciplined own (advance num_threads num_words spurious p m).0
  unfolding advance Disciplined
  advance-Disciplined (ret a) m d = tt
  advance-Disciplined panic m d = tt
  advance-Disciplined out_of_fuel m d = tt
  advance-Disciplined (load l k) m d = elim (Bool-cases (in_bounds num_threads num_words l)) [
    | inl inside ↦ rw inside (d (read m l))
    | inr outside ↦ rw outside tt
  ]
  advance-Disciplined (store l v p) m (may, d) =
      elim (Bool-cases (in_bounds num_threads num_words l)) [
        | inl inside ↦ rw inside d
        | inr outside ↦ rw outside tt
      ]
  advance-Disciplined (compare_exchange l c n k) m (may, d) =
      elim (Bool-cases (in_bounds num_threads num_words l)) [
        | inl inside ↦ rw inside (d _)
        | inr outside ↦ rw outside tt
      ]
  advance-Disciplined (compare_exchange_weak l c n k) m (may, d) =
      elim (Bool-cases (in_bounds num_threads num_words l)) [
        | inl inside ↦ rw inside (d _)
        | inr outside ↦ rw outside tt
      ]
  advance-Disciplined (fetch_add l v p) m d = elim d [ ]
  advance-Disciplined (fetch_min l v p) m d = elim d [ ]

  pub advance-IsForward :
      (p : Prog A) (m : Memory) (j : ℕ)
      → own ≢ j
      → Disciplined own p
      → IsForward j m (advance num_threads num_words spurious p m).1
  unfolding advance Disciplined
  advance-IsForward (ret a) m j other d = IsForward-refl j m
  advance-IsForward panic m j other d = IsForward-refl j m
  advance-IsForward out_of_fuel m j other d = IsForward-refl j m
  advance-IsForward (load l k) m j other d = elim (Bool-cases (in_bounds num_threads num_words l)) [
    | inl inside ↦ rw inside (IsForward-refl j m)
    | inr outside ↦ rw outside (IsForward-refl j m)
  ]
  advance-IsForward (store l v p) m j other (may, d) =
      elim (Bool-cases (in_bounds num_threads num_words l)) [
        | inl inside ↦ rw inside (store-IsForward own j m l v other may)
        | inr outside ↦ rw outside (IsForward-refl j m)
      ]
  advance-IsForward (compare_exchange l c n k) m j other (may, d) =
      elim (Bool-cases (in_bounds num_threads num_words l)) [
        | inl inside ↦ rw inside (cas-IsForward j m l c n may)
        | inr outside ↦ rw outside (IsForward-refl j m)
      ]
  advance-IsForward (compare_exchange_weak l c n k) m j other (may, d) =
      elim (Bool-cases (in_bounds num_threads num_words l)) [
        | inl inside ↦ rw inside (weak-IsForward j m spurious l c n may)
        | inr outside ↦ rw outside (IsForward-refl j m)
      ]
  advance-IsForward (fetch_add l v p) m j other d = elim d [ ]
  advance-IsForward (fetch_min l v p) m j other d = elim d [ ]

-- The program of each thread keeps to the discipline.
abbrev pub IsDisciplined : System → Type 0
IsDisciplined s = (i : ℕ) → Disciplined i (s.programs i)

module _ (num_threads num_words : ℕ) where
  step-IsDisciplined :
      (i : ℕ) (spurious : Bool) (s : System)
      → IsDisciplined s
      → IsDisciplined (step num_threads num_words i spurious s)
  step-IsDisciplined i spurious s d k =
      let next = (advance num_threads num_words spurious (s.programs i) s.memory).0 in
      elim (ℕ_discrete i k) [
        | yes same ↦
            subst (λ x. Disciplined x (update s.programs i next x)) same
              (subst (Disciplined i) (sym (update_self s.programs i next)) (
                advance-Disciplined num_threads num_words i spurious (s.programs i) s.memory (d i)))
        | no other ↦ subst (Disciplined k) (sym (update_ne s.programs i k next other)) (d k)
      ]

  pub run_schedule-IsDisciplined :
      (schedule : List (ℕ × Bool)) (s : System)
      → IsDisciplined s
      → IsDisciplined (run_schedule num_threads num_words schedule s)
  unfolding run_schedule
  run_schedule-IsDisciplined [] s d = d
  run_schedule-IsDisciplined ((i, spurious) ∷ rest) s d =
      run_schedule-IsDisciplined rest _ (step-IsDisciplined i spurious s d)

  pub run_schedule-IsForward :
      (j : ℕ) (schedule : List (ℕ × Bool)) (s : System)
      → Rests j schedule
      → IsDisciplined s
      → IsForward j s.memory (run_schedule num_threads num_words schedule s).memory
  unfolding run_schedule
  run_schedule-IsForward j [] s rests d = IsForward-refl j s.memory
  run_schedule-IsForward j ((i, spurious) ∷ rest) s (other, rests) d =
      IsForward-trans
        (advance-IsForward num_threads num_words i spurious (s.programs i) s.memory j other (d i))
        (run_schedule-IsForward j rest _ rests (step-IsDisciplined i spurious s d))
