-- ===== src/Shared/Discipline.antt =====
-- The discipline of the accesses: which ones the program of a thread may make, for any values that
-- its loads and compare-exchanges meet.
use kcas.Base.{ℕ, ◌<◌, Bool, true, false, Result, ok, err, ◌≡◌, if◌then◌else◌}
use kcas.Stage.{Stage, claiming, setting, reverting, successful, reverted}
use kcas.Types.{construct_stage_and_sequence}
use kcas.Types.StageAndSequence.{stage_sequence_limit}
use kcas.Sync.{
  Location, target_address, expected_value, desired_value, stage_and_sequence_number, target, Prog,
  ret, panic, out_of_fuel, load, store, compare_exchange, compare_exchange_weak, fetch_add,
  fetch_min, ◌>>=◌,
}

-- The stage changes of an operation.
unfoldable pub Follows : Stage → Stage → Type 0
Follows claiming setting = Unit {0}
Follows claiming reverting = Unit {0}
Follows setting successful = Unit {0}
Follows reverting reverted = Unit {0}
Follows _ _ = ⊥

-- A compare-exchange of a stage word: the stage changes, the sequence number does not.
pub record IsStageChange (current new : ℕ) : Type 0 where
  pub before : Stage
  pub after : Stage
  pub sequence : ℕ
  pub small : sequence < stage_sequence_limit
  pub follows : Follows before after
  pub from : current ≡ construct_stage_and_sequence before sequence
  pub to : new ≡ construct_stage_and_sequence after sequence

-- A thread stores to its own row only.
unfoldable pub MayStore : (own : ℕ) → Location → Type 0
MayStore own (target_address i w) = i ≡ own
MayStore own (expected_value i w) = i ≡ own
MayStore own (desired_value i w) = i ≡ own
MayStore own (stage_and_sequence_number i) = i ≡ own
MayStore own _ = ⊥

-- Targets and stages are swapped.
unfoldable pub MaySwap : Location → (current new : ℕ) → Type 0
MaySwap (target a) current new = Unit {0}
MaySwap (stage_and_sequence_number i) current new = IsStageChange current new
MaySwap _ current new = ⊥

-- Every access of the program is allowed, on every branch.
unfoldable pub Disciplined : (own : ℕ) {A : Type 0} → Prog A → Type 0
Disciplined own (ret a) = Unit {0}
Disciplined own panic = Unit {0}
Disciplined own out_of_fuel = Unit {0}
Disciplined own (load l k) = (v : ℕ) → Disciplined own (k v)
Disciplined own (store l v p) = MayStore own l × Disciplined own p
Disciplined own (compare_exchange l c n k) =
    MaySwap l c n × ((r : Result ℕ ℕ) → Disciplined own (k r))
Disciplined own (compare_exchange_weak l c n k) =
    MaySwap l c n × ((r : Result ℕ ℕ) → Disciplined own (k r))
Disciplined own (fetch_add l v p) = ⊥
Disciplined own (fetch_min l v p) = ⊥

module _ (own : ℕ) where
  pub Disciplined->>= :
      {A B : Type 0} (p : Prog A) (f : A → Prog B)
      → Disciplined own p
      → ((a : A) → Disciplined own (f a))
      → Disciplined own (p >>= f)
  unfolding Disciplined ◌>>=◌
  Disciplined->>= (ret a) f d e = e a
  Disciplined->>= panic f d e = tt
  Disciplined->>= out_of_fuel f d e = tt
  Disciplined->>= (load l k) f d e = λ v. Disciplined->>= (k v) f (d v) e
  Disciplined->>= (store l v p) f (may, d) e = (may, Disciplined->>= p f d e)
  Disciplined->>= (compare_exchange l c n k) f (may, d) e =
      (may, λ r. Disciplined->>= (k r) f (d r) e)
  Disciplined->>= (compare_exchange_weak l c n k) f (may, d) e =
      (may, λ r. Disciplined->>= (k r) f (d r) e)
  Disciplined->>= (fetch_add l v p) f d e = elim d [ ]
  Disciplined->>= (fetch_min l v p) f d e = elim d [ ]

  -- The same for two calls in a row, where the second sees what the first continues to.
  pub Disciplined->>=->>= :
      {A B C : Type 0} (p : Prog A) (f : A → Prog B) (g : B → Prog C)
      → Disciplined own p
      → ((a : A) → Disciplined own (f a >>= g))
      → Disciplined own (p >>= f >>= g)
  unfolding Disciplined ◌>>=◌
  Disciplined->>=->>= (ret a) f g d e = e a
  Disciplined->>=->>= panic f g d e = tt
  Disciplined->>=->>= out_of_fuel f g d e = tt
  Disciplined->>=->>= (load l k) f g d e = λ v. Disciplined->>=->>= (k v) f g (d v) e
  Disciplined->>=->>= (store l v p) f g (may, d) e = (may, Disciplined->>=->>= p f g d e)
  Disciplined->>=->>= (compare_exchange l c n k) f g (may, d) e =
      (may, λ r. Disciplined->>=->>= (k r) f g (d r) e)
  Disciplined->>=->>= (compare_exchange_weak l c n k) f g (may, d) e =
      (may, λ r. Disciplined->>=->>= (k r) f g (d r) e)
  Disciplined->>=->>= (fetch_add l v p) f g d e = elim d [ ]
  Disciplined->>=->>= (fetch_min l v p) f g d e = elim d [ ]

  -- Both branches of a test.
  pub Disciplined-if :
      {A : Type 0} (b : Bool) (p q : Prog A)
      → Disciplined own p
      → Disciplined own q
      → Disciplined own (if b then p else q)
  Disciplined-if true p q d e = d
  Disciplined-if false p q d e = e

  pub Disciplined-ret : {A : Type 0} (a : A) → Disciplined own (ret a)
  unfolding Disciplined
  Disciplined-ret a = tt

  -- Both cases of a result.
  pub Disciplined-cases :
      {A B E : Type 0} (r : Result B E) (f : B → Prog A) (g : E → Prog A)
      → ((b : B) → Disciplined own (f b))
      → ((e : E) → Disciplined own (g e))
      → Disciplined own (elim r [ ok b ↦ f b | err e ↦ g e ])
  Disciplined-cases (ok b) f g d e = d b
  Disciplined-cases (err x) f g d e = e x
