-- ===== src/Shared/Bounded.antt =====
-- Programs that end after a bounded number of accesses, whatever values they meet.
use kcas.Base.{
  ℕ, zero, suc, ◌+◌, ◌-◌, ◌≤◌, Bool, true, false, Result, ◌≡◌, refl, subst, arith, if◌then◌else◌,
}
use kcas.Sync.{
  Prog, ret, panic, out_of_fuel, load, store, compare_exchange, compare_exchange_weak, fetch_add,
  fetch_min, ◌>>=◌,
}

-- The program makes at most `n` accesses, does not run out of fuel, and its result is as required.
unfoldable pub Within : {A : Type 0} → ℕ → (Post : A → Type 0) → Prog A → Type 0
Within n Post (ret a) = Post a
Within n Post panic = Unit {0}
Within n Post out_of_fuel = ⊥
Within zero Post (load l k) = ⊥
Within (suc n) Post (load l k) = (v : ℕ) → Within n Post (k v)
Within zero Post (store l v p) = ⊥
Within (suc n) Post (store l v p) = Within n Post p
Within zero Post (compare_exchange l c m k) = ⊥
Within (suc n) Post (compare_exchange l c m k) = (r : Result ℕ ℕ) → Within n Post (k r)
Within zero Post (compare_exchange_weak l c m k) = ⊥
Within (suc n) Post (compare_exchange_weak l c m k) = (r : Result ℕ ℕ) → Within n Post (k r)
Within zero Post (fetch_add l v p) = ⊥
Within (suc n) Post (fetch_add l v p) = Within n Post p
Within zero Post (fetch_min l v p) = ⊥
Within (suc n) Post (fetch_min l v p) = Within n Post p

-- Any result will do.
abbrev pub Anything : {A : Type 0} → A → Type 0
Anything a = Unit {0}

pub Within-suc :
    {A : Type 0} (Post : A → Type 0) (n : ℕ) (p : Prog A) → Within n Post p → Within (suc n) Post p
unfolding Within
Within-suc Post n (ret a) h = h
Within-suc Post n panic h = h
Within-suc Post n out_of_fuel h = h
Within-suc Post zero (load l k) h = elim h [ ]
Within-suc Post (suc n) (load l k) h = λ v. Within-suc Post n (k v) (h v)
Within-suc Post zero (store l v p) h = elim h [ ]
Within-suc Post (suc n) (store l v p) h = Within-suc Post n p h
Within-suc Post zero (compare_exchange l c m k) h = elim h [ ]
Within-suc Post (suc n) (compare_exchange l c m k) h = λ r. Within-suc Post n (k r) (h r)
Within-suc Post zero (compare_exchange_weak l c m k) h = elim h [ ]
Within-suc Post (suc n) (compare_exchange_weak l c m k) h = λ r. Within-suc Post n (k r) (h r)
Within-suc Post zero (fetch_add l v p) h = elim h [ ]
Within-suc Post (suc n) (fetch_add l v p) h = Within-suc Post n p h
Within-suc Post zero (fetch_min l v p) h = elim h [ ]
Within-suc Post (suc n) (fetch_min l v p) h = Within-suc Post n p h

more :
    {A : Type 0} (Post : A → Type 0) (d n : ℕ) (p : Prog A)
    → Within n Post p
    → Within (d + n) Post p
more Post zero n p h = subst (λ x. Within x Post p) (omega arith) h
more Post (suc d) n p h =
    let same : suc (d + n) ≡ suc d + n = omega arith in
    subst (λ x. Within x Post p) same (Within-suc Post (d + n) p (more Post d n p h))

pub Within-le :
    {A : Type 0} (Post : A → Type 0) {m n : ℕ} (p : Prog A)
    → m ≤ n
    → Within m Post p
    → Within n Post p
Within-le Post {m} {n} p below h =
    let same : (n - m) + m ≡ n = omega arith in
    subst (λ x. Within x Post p) same (more Post (n - m) m p h)

add_suc : (n m : ℕ) → suc (n + m) ≡ n + suc m
add_suc n m = omega arith

-- The accesses of two programs, one after the other.
pub Within->>= :
    {A B : Type 0} (Post : A → Type 0) (Post' : B → Type 0) (m n : ℕ) (p : Prog A) (f : A → Prog B)
    → Within m Post p
    → ((a : A) → Post a → Within n Post' (f a))
    → Within (n + m) Post' (p >>= f)
unfolding Within ◌>>=◌
Within->>= Post Post' m n (ret a) f h k = Within-le Post' (f a) (omega arith) (k a h)
Within->>= Post Post' m n panic f h k = tt
Within->>= Post Post' m n out_of_fuel f h k = elim h [ ]
Within->>= Post Post' zero n (load l g) f h k = elim h [ ]
Within->>= Post Post' (suc m) n (load l g) f h k =
    subst (λ x. Within x Post' (load l (λ v. g v >>= f))) (add_suc n m)
      (λ v. Within->>= Post Post' m n (g v) f (h v) k)
Within->>= Post Post' zero n (store l v p) f h k = elim h [ ]
Within->>= Post Post' (suc m) n (store l v p) f h k =
    subst (λ x. Within x Post' (store l v (p >>= f))) (add_suc n m)
      (Within->>= Post Post' m n p f h k)
Within->>= Post Post' zero n (compare_exchange l c d g) f h k = elim h [ ]
Within->>= Post Post' (suc m) n (compare_exchange l c d g) f h k =
    subst (λ x. Within x Post' (compare_exchange l c d (λ r. g r >>= f))) (add_suc n m)
      (λ r. Within->>= Post Post' m n (g r) f (h r) k)
Within->>= Post Post' zero n (compare_exchange_weak l c d g) f h k = elim h [ ]
Within->>= Post Post' (suc m) n (compare_exchange_weak l c d g) f h k =
    subst (λ x. Within x Post' (compare_exchange_weak l c d (λ r. g r >>= f))) (add_suc n m)
      (λ r. Within->>= Post Post' m n (g r) f (h r) k)
Within->>= Post Post' zero n (fetch_add l v p) f h k = elim h [ ]
Within->>= Post Post' (suc m) n (fetch_add l v p) f h k =
    subst (λ x. Within x Post' (fetch_add l v (p >>= f))) (add_suc n m)
      (Within->>= Post Post' m n p f h k)
Within->>= Post Post' zero n (fetch_min l v p) f h k = elim h [ ]
Within->>= Post Post' (suc m) n (fetch_min l v p) f h k =
    subst (λ x. Within x Post' (fetch_min l v (p >>= f))) (add_suc n m)
      (Within->>= Post Post' m n p f h k)

pub Within-if :
    {A : Type 0} (Post : A → Type 0) (n : ℕ) (b : Bool) (p q : Prog A)
    → (b ≡ true → Within n Post p)
    → (b ≡ false → Within n Post q)
    → Within n Post (if b then p else q)
Within-if Post n true p q h k = h refl
Within-if Post n false p q h k = k refl
