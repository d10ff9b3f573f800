-- ===== src/Safety/Safe.antt =====
-- A program is safe from a memory on, if each access that it makes is inside its array and keeps the
-- memory sound, whatever steps the other threads take before it, and the result is as required.
use kcas.Base.{ℕ, Bool, true, false, ok, err, ◌≡◌, ◌≢◌, refl, if◌then◌else◌}
use kcas.Sync.{
  Prog, ret, panic, out_of_fuel, load, store, compare_exchange, compare_exchange_weak, fetch_add,
  fetch_min, ◌>>=◌,
}
use kcas.Kcas.Memory.{Memory, read, write, in_bounds}
use kcas.Safety.Later.{Later, Later-trans}
use kcas.Safety.Writes.{Guarantee}

module _ (num_threads num_words own : ℕ) where
  -- Running out of fuel is an end that is allowed; a panic is not.
  unfoldable pub Safe : {A : Type 0} → (Post : A → Memory → Type 0) → Prog A → Memory → Type 0
  Safe Post (ret a) m = Post a m
  Safe Post panic m = ⊥
  Safe Post out_of_fuel m = Unit {0}
  Safe Post (load l k) m =
      (in_bounds num_threads num_words l ≡ true)
      × ((m' : Memory) → Later num_threads num_words own m m' → Safe Post (k (read m' l)) m')
  Safe Post (store l v p) m =
      (in_bounds num_threads num_words l ≡ true)
      × ((m' : Memory)
          → Later num_threads num_words own m m'
          → Guarantee num_threads num_words own m' (write m' l v) × Safe Post p (write m' l v))
  Safe Post (compare_exchange l c n k) m =
      (in_bounds num_threads num_words l ≡ true)
      × ((m' : Memory)
          → Later num_threads num_words own m m'
          → (read m' l ≡ c
              → Guarantee num_threads num_words own m' (write m' l n)
                × Safe Post (k (ok c)) (write m' l n))
            × (read m' l ≢ c → Safe Post (k (err (read m' l))) m'))
  Safe Post (compare_exchange_weak l c n k) m =
      (in_bounds num_threads num_words l ≡ true)
      × ((m' : Memory)
          → Later num_threads num_words own m m'
          → (read m' l ≡ c
              → Guarantee num_threads num_words own m' (write m' l n)
                × Safe Post (k (ok c)) (write m' l n))
            × Safe Post (k (err (read m' l))) m')
  Safe Post (fetch_add l v p) m = ⊥
  Safe Post (fetch_min l v p) m = ⊥

  pub Safe->>= :
      {A B : Type 0} (Post : A → Memory → Type 0) (Post' : B → Memory → Type 0) (p : Prog A)
      (f : A → Prog B) (m : Memory)
      → Safe Post p m
      → ((a : A) (m' : Memory) → Post a m' → Safe Post' (f a) m')
      → Safe Post' (p >>= f) m
  unfolding Safe ◌>>=◌
  Safe->>= Post Post' (ret a) f m s e = e a m s
  Safe->>= Post Post' panic f m s e = elim s [ ]
  Safe->>= Post Post' out_of_fuel f m s e = tt
  Safe->>= Post Post' (load l k) f m (inside, s) e =
      (inside, λ m' later. Safe->>= Post Post' (k (read m' l)) f m' (s m' later) e)
  Safe->>= Post Post' (store l v p) f m (inside, s) e = (
    inside,
    λ m' later.
        let (kept, rest) = s m' later in (kept, Safe->>= Post Post' p f (write m' l v) rest e),
  )
  Safe->>= Post Post' (compare_exchange l c n k) f m (inside, s) e = (
    inside,
    λ m' later.
        let (hit, miss) = s m' later in
        (
          (λ held.
              let (kept, rest) = hit held in
              (kept, Safe->>= Post Post' (k (ok c)) f (write m' l n) rest e)),
          (λ other. Safe->>= Post Post' (k (err (read m' l))) f m' (miss other) e),
        ),
  )
  Safe->>= Post Post' (compare_exchange_weak l c n k) f m (inside, s) e = (
    inside,
    λ m' later.
        let (hit, miss) = s m' later in
        (
          (λ held.
              let (kept, rest) = hit held in
              (kept, Safe->>= Post Post' (k (ok c)) f (write m' l n) rest e)),
          Safe->>= Post Post' (k (err (read m' l))) f m' miss e,
        ),
  )
  Safe->>= Post Post' (fetch_add l v p) f m s e = elim s [ ]
  Safe->>= Post Post' (fetch_min l v p) f m s e = elim s [ ]

  -- The others' steps do not make a program unsafe.
  pub Safe-Later :
      {A : Type 0} {Post : A → Memory → Type 0} (p : Prog A) (m m' : Memory)
      → ((a : A) (m' m'' : Memory)
          → Later num_threads num_words own m' m''
          → Post a m'
          → Post a m'')
      → Later num_threads num_words own m m'
      → Safe Post p m
      → Safe Post p m'
  unfolding Safe
  Safe-Later (ret a) m m' stable later s = stable a m m' later s
  Safe-Later panic m m' stable later s = s
  Safe-Later out_of_fuel m m' stable later s = tt
  Safe-Later (load l k) m m' stable later (inside, s) =
      (inside, λ m'' more. s m'' (Later-trans later more))
  Safe-Later (store l v p) m m' stable later (inside, s) =
      (inside, λ m'' more. s m'' (Later-trans later more))
  Safe-Later (compare_exchange l c n k) m m' stable later (inside, s) =
      (inside, λ m'' more. s m'' (Later-trans later more))
  Safe-Later (compare_exchange_weak l c n k) m m' stable later (inside, s) =
      (inside, λ m'' more. s m'' (Later-trans later more))
  Safe-Later (fetch_add l v p) m m' stable later s = s
  Safe-Later (fetch_min l v p) m m' stable later s = s

  pub Safe-if :
      {A : Type 0} (Post : A → Memory → Type 0) (b : Bool) (p q : Prog A) (m : Memory)
      → (b ≡ true → Safe Post p m)
      → (b ≡ false → Safe Post q m)
      → Safe Post (if b then p else q) m
  Safe-if Post true p q m h k = h refl
  Safe-if Post false p q m h k = k refl
