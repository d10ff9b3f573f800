-- ===== src/Safety/Steps.antt =====
-- One access of one thread keeps the memory sound and all programs safe.
use kcas.Base.{
  ℕ, ◌<◌, Bool, true, false, Result, ok, err, ◌≡◌, ◌≢◌, inl, inr, sym, subst, ◌==◌, ==→eq, ==→ne,
  Bool-cases,
}
use native.Mathlib.Decide.{ℕ_discrete}
use kcas.Base.Family.{update, update_self, update_ne}
use kcas.Err.{Error}
use kcas.Stage.{inactive}
use kcas.Sync.{
  Location, Prog, ret, panic, out_of_fuel, load, store, compare_exchange, compare_exchange_weak,
  fetch_add, fetch_min,
}
use kcas.Kcas.Memory.{Memory, read, write, cas_result, cas_write}
use kcas.Shared.Schedule.{System, advance, step}
use kcas.Safety.World.{Holds, IsSound, words_of}
use kcas.Safety.Later.{Later-refl, Holds-inactive-Later}
use kcas.Safety.Writes.{Guarantee}
use kcas.Safety.Safe.{Safe, Safe-Later}

-- Thread index `j` has come to the end of its operations, none with a fatal error, and its stage word
-- is at rest, with the number of the operations.
abbrev pub Ended :
    (num_threads : ℕ) → (total : ℕ → ℕ) → ℕ → Result (Unit {0}) Error → Memory → Type 0
Ended num_threads total j r m =
    (r ≡ ok tt) × (j < num_threads → Holds num_threads (words_of m) j inactive (total j))

module _ (num_threads num_words own : ℕ) where
  Guarantee-refl :
      {m : Memory} → IsSound num_threads num_words m → Guarantee num_threads num_words own m m
  Guarantee-refl sound = record { sound = sound; others = λ j other. Later-refl sound }

  -- A program after an access, and the memory that the access leaves.
  abbrev IsStep : {A : Type 0} → (A → Memory → Type 0) → Memory → Prog A × Memory → Type 0
  IsStep Post m next =
      Guarantee num_threads num_words own m next.1
      × Safe num_threads num_words own Post next.0 next.1

  module _ {A : Type 0} (Post : A → Memory → Type 0) where
    swapped :
        (l : Location) (current new : ℕ) (k : Result ℕ ℕ → Prog A) (m : Memory)
        → IsSound num_threads num_words m
        → (read m l ≡ current
            → Guarantee num_threads num_words own m (write m l new)
              × Safe num_threads num_words own Post (k (ok current)) (write m l new))
        → (read m l ≢ current → Safe num_threads num_words own Post (k (err (read m l))) m)
        → IsStep Post m (k (cas_result current (read m l)), cas_write m l current new)
    swapped l current new k m sound hit miss = elim (Bool-cases (read m l == current)) [
      | inl same ↦
          let e : read m l ≡ current = ==→eq (read m l) current same in
          rw (same) (subst (λ v. IsStep Post m (k (ok v), write m l new)) (sym e) (hit e))
      | inr other ↦ rw (other) (Guarantee-refl sound, miss (==→ne (read m l) current other))
    ]

    advance-Safe :
        (spurious : Bool) (p : Prog A) (m : Memory)
        → IsSound num_threads num_words m
        → Safe num_threads num_words own Post p m
        → IsStep Post m (advance num_threads num_words spurious p m)
    unfolding advance Safe
    advance-Safe spurious (ret a) m sound s = (Guarantee-refl sound, s)
    advance-Safe spurious panic m sound s = elim s [ ]
    advance-Safe spurious out_of_fuel m sound s = (Guarantee-refl sound, tt)
    advance-Safe spurious (load l k) m sound (inside, s) =
        rw inside (Guarantee-refl sound, s m (Later-refl sound))
    advance-Safe spurious (store l v p) m sound (inside, s) = rw inside (s m (Later-refl sound))
    advance-Safe spurious (compare_exchange l c n k) m sound (inside, s) =
        let (hit, miss) = s m (Later-refl sound) in rw inside (swapped l c n k m sound hit miss)
    advance-Safe true (compare_exchange_weak l c n k) m sound (inside, s) =
        let (hit, miss) = s m (Later-refl sound) in rw inside (Guarantee-refl sound, miss)
    advance-Safe false (compare_exchange_weak l c n k) m sound (inside, s) =
        let (hit, miss) = s m (Later-refl sound) in
        rw inside (swapped l c n k m sound hit (λ other. miss))
    advance-Safe spurious (fetch_add l v p) m sound s = elim s [ ]
    advance-Safe spurious (fetch_min l v p) m sound s = elim s [ ]

-- The memory is sound, and every thread's program is safe from it on.
pub record IsSafe (num_threads num_words : ℕ) (total : ℕ → ℕ) (s : System) : Type 0 where
  pub sound : IsSound num_threads num_words s.memory
  pub each :
      (j : ℕ) → Safe num_threads num_words j (Ended num_threads total j) (s.programs j) s.memory

pub step-IsSafe :
    (num_threads num_words : ℕ) (total : ℕ → ℕ) (i : ℕ) (spurious : Bool) (s : System)
    → IsSafe num_threads num_words total s
    → IsSafe num_threads num_words total (step num_threads num_words i spurious s)
      × Guarantee num_threads num_words i s.memory (step num_threads num_words i spurious s).memory
step-IsSafe num_threads num_words total i spurious s safe =
    let next = advance num_threads num_words spurious (s.programs i) s.memory in
    let (kept, rest) =
      advance-Safe num_threads num_words i (Ended num_threads total i) spurious (s.programs i)
        s.memory safe.sound (safe.each i) in
    (
      record {
        sound = kept.sound;
        each = λ j. elim (ℕ_discrete i j) [
          | yes same ↦
              subst
                (λ x.
                  Safe num_threads num_words x (Ended num_threads total x)
                    (update s.programs i next.0 x) next.1)
                same
                (subst (λ p. Safe num_threads num_words i (Ended num_threads total i) p next.1)
                  (sym (update_self s.programs i next.0)) rest)
          | no other ↦
              subst (λ p. Safe num_threads num_words j (Ended num_threads total j) p next.1)
                (sym (update_ne s.programs i j next.0 other))
                (Safe-Later num_threads num_words j (s.programs j) s.memory next.1
                  (λ r m' m'' later post.
                    (post.0, λ inside. Holds-inactive-Later later (post.1 inside)))
                  (kept.others j (λ e. other (sym e))) (safe.each j))
        ];
      },
      kept,
    )
