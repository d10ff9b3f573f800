-- ===== src/Kcas/Memory/Returns.antt =====
-- Total correctness of a run by itself: a program that is started in one memory returns a value in
-- another, whatever fewer than `rounds` spurious failures happen.
use kcas.Base.{
  ℕ, ◌+◌, ◌%◌, ◌^◌, ◌≤◌, ◌<◌, min, Bool, true, false, List, [], ◌∷◌, Result, ok, err, suc, arith,
}
use kcas.Base.{◌≡◌, ◌≢◌, refl, ◌∙◌, ne→==, eq→==}
use kcas.Sync.{
  Location, Prog, ret, panic, out_of_fuel, load, store, compare_exchange, compare_exchange_weak,
  fetch_add, fetch_min, ◌>>=◌,
}
use kcas.Kcas.Memory.{
  Memory, read, write, in_bounds, run, Outcome, returned, and_then, cas_result, cas_write,
  weak_result, weak_write, is_spurious, later,
}

abbrev pub spurious_failures : List Bool → ℕ
spurious_failures [] = 0
spurious_failures (true ∷ bs) = suc (spurious_failures bs)
spurious_failures (false ∷ bs) = spurious_failures bs

module _ (num_threads num_words : ℕ) where
  pub run->>= :
      {A B : Type 0} (p : Prog A) (f : A → Prog B) (o : List Bool) (m : Memory)
      → run num_threads num_words (p >>= f) o m
        ≡ and_then
            (run num_threads num_words p o m)
            (λ a o' m'. run num_threads num_words (f a) o' m')
  unfolding run ◌>>=◌
  run->>= (ret a) f o m = refl
  run->>= panic f o m = refl
  run->>= out_of_fuel f o m = refl
  run->>= (load l k) f o m = ground (arith, run->>= (k (read m l)) f o m)
  run->>= (store l v p) f o m = ground (arith, run->>= p f o (write m l v))
  run->>= (compare_exchange l c n k) f o m =
      ground (arith, run->>= (k (cas_result c (read m l))) f o (cas_write m l c n))
  run->>= (compare_exchange_weak l c n k) f o m = ground (
    arith,
    run->>= (k (weak_result (is_spurious o) c (read m l))) f (later o)
        (weak_write (is_spurious o) m l c n),
  )
  run->>= (fetch_add l v p) f o m =
      ground (arith, run->>= p f o (write m l ((read m l + v) % 2 ^ 64)))
  run->>= (fetch_min l v p) f o m = ground (arith, run->>= p f o (write m l (min (read m l) v)))

-- The run came to an end, with the failures that it has not met yet.
abbrev pub Ends : (rounds : ℕ) {A : Type 0} → Outcome A → A → Memory → Type 0
Ends rounds out a m' = (o' : List Bool) × (out ≡ returned a o' m') × (spurious_failures o' < rounds)

pub Ends-from :
    {rounds : ℕ} {A : Type 0} {x y : Outcome A} {a : A} {m' : Memory}
    → x ≡ y
    → Ends rounds y a m'
    → Ends rounds x a m'
Ends-from e (o', ended, few) = (o', e ∙ ended, few)

pub Ends-weaken :
    {rounds : ℕ} {A : Type 0} {x : Outcome A} {a : A} {m' : Memory}
    → Ends rounds x a m'
    → Ends (suc rounds) x a m'
Ends-weaken (o', ended, few) = (o', ended, omega arith)

-- From memory `m` the program `p` returns `a` in memory `m'`.
pub record Returns (num_threads num_words rounds : ℕ) {A : Type 0} (p : Prog A) (m : Memory) (a : A)
    (m' : Memory) : Type 0 where
  pub ends :
      (o : List Bool)
      → spurious_failures o < rounds
      → Ends rounds (run num_threads num_words p o m) a m'

module _ {num_threads num_words rounds : ℕ} {A : Type 0} where
  pub Returns-ret : (a : A) (m : Memory) → Returns num_threads num_words rounds (ret a) m a m
  unfolding run
  Returns-ret a m = record { ends = λ o few. (o, refl, few) }

  pub Returns-bind :
      {B : Type 0} (p : Prog A) (f : A → Prog B) {m m' m'' : Memory} {a : A} {b : B}
      → Returns num_threads num_words rounds p m a m'
      → Returns num_threads num_words rounds (f a) m' b m''
      → Returns num_threads num_words rounds (p >>= f) m b m''
  Returns-bind p f {m} first second = record {
    ends = λ o few.
        let (o', ended, few') = first.ends o few in
        let (o'', ended', few'') = second.ends o' few' in
        (o'', run->>= num_threads num_words p f o m ∙ rw ended ended', few'');
  }

  pub Returns-load :
      (l : Location) (k : ℕ → Prog A) {v : ℕ} {m m' : Memory} {a : A}
      → in_bounds num_threads num_words l ≡ true
      → read m l ≡ v
      → Returns num_threads num_words rounds (k v) m a m'
      → Returns num_threads num_words rounds (load l k) m a m'
  unfolding run
  Returns-load l k inside loaded rest = record {
    ends = λ o few. rw (run, inside, loaded) (rest.ends o few);
  }

  pub Returns-store :
      (l : Location) (v : ℕ) (p : Prog A) {m m' : Memory} {a : A}
      → in_bounds num_threads num_words l ≡ true
      → Returns num_threads num_words rounds p (write m l v) a m'
      → Returns num_threads num_words rounds (store l v p) m a m'
  unfolding run
  Returns-store l v p inside rest = record { ends = λ o few. rw (run, inside) (rest.ends o few) }

  pub Returns-hit :
      (l : Location) (c n : ℕ) (k : Result ℕ ℕ → Prog A) {m m' : Memory} {a : A}
      → in_bounds num_threads num_words l ≡ true
      → read m l ≡ c
      → Returns num_threads num_words rounds (k (ok c)) (write m l n) a m'
      → Returns num_threads num_words rounds (compare_exchange l c n k) m a m'
  unfolding run
  Returns-hit l c n k {m} inside held rest = record {
    ends = λ o few. rw (run, inside, eq→== (read m l) c held, held) (rest.ends o few);
  }

  pub Returns-miss :
      (l : Location) (c n : ℕ) (k : Result ℕ ℕ → Prog A) {m m' : Memory} {a : A}
      → in_bounds num_threads num_words l ≡ true
      → read m l ≢ c
      → Returns num_threads num_words rounds (k (err (read m l))) m a m'
      → Returns num_threads num_words rounds (compare_exchange l c n k) m a m'
  unfolding run
  Returns-miss l c n k {m} inside other rest = record {
    ends = λ o few. rw (run, inside, ne→== (read m l) c other) (rest.ends o few);
  }

-- The weak form, on each course that it can take.
module _ (num_threads num_words : ℕ) {A : Type 0} (l : Location) (c n : ℕ) (k : Result ℕ ℕ → Prog A)
    (m : Memory) (inside : in_bounds num_threads num_words l ≡ true) where
  pub run-weak_hit :
      (o : List Bool)
      → is_spurious o ≡ false
      → read m l ≡ c
      → run num_threads num_words (compare_exchange_weak l c n k) o m
        ≡ run num_threads num_words (k (ok c)) (later o) (write m l n)
  unfolding run
  run-weak_hit o steady held = rw (run, inside, steady, eq→== (read m l) c held, held)

  pub run-weak_spurious :
      (o : List Bool)
      → is_spurious o ≡ true
      → run num_threads num_words (compare_exchange_weak l c n k) o m
        ≡ run num_threads num_words (k (err (read m l))) (later o) m
  unfolding run
  run-weak_spurious o spurious = rw (run, inside, spurious)

  pub run-weak_miss :
      (o : List Bool)
      → read m l ≢ c
      → run num_threads num_words (compare_exchange_weak l c n k) o m
        ≡ run num_threads num_words (k (err (read m l))) (later o) m
  unfolding run
  run-weak_miss [] other = rw (run, inside, ne→== (read m l) c other)
  run-weak_miss (true ∷ o) other = rw (run, inside)
  run-weak_miss (false ∷ o) other = rw (run, inside, ne→== (read m l) c other)

spurious_failures-later : (o : List Bool) → spurious_failures (later o) ≤ spurious_failures o
spurious_failures-later [] = omega arith
spurious_failures-later (true ∷ o) = omega arith
spurious_failures-later (false ∷ o) = omega arith

module _ {num_threads num_words rounds : ℕ} {A : Type 0} where
  pub Returns-weak_miss :
      (l : Location) (c n : ℕ) (k : Result ℕ ℕ → Prog A) {m m' : Memory} {a : A}
      → in_bounds num_threads num_words l ≡ true
      → read m l ≢ c
      → Returns num_threads num_words rounds (k (err (read m l))) m a m'
      → Returns num_threads num_words rounds (compare_exchange_weak l c n k) m a m'
  Returns-weak_miss l c n k {m} inside other rest = record {
    ends = λ o few.
        let (o', ended, few') = rest.ends (later o) (omega (arith, spurious_failures-later o)) in
        (o', run-weak_miss num_threads num_words l c n k m inside o other ∙ ended, few');
  }
