-- ===== src/Safety/Work.antt =====
-- What is known while a thread works on an operation, its own or another's.
use kcas.Base.{ℕ, ◌+◌, ◌^◌, ◌≤◌, ◌<◌, true, ◌≡◌, ◌≢◌, inl, inr}
use kcas.Stage.{Stage, claiming}
use kcas.Types.{construct_thread_and_sequence}
use kcas.Sync.{target}
use kcas.Kcas.Memory.{Memory, write}
use kcas.Safety.Order.{reaches, reaches_trans}
use kcas.Safety.World.{IsNumber, AtLeast, IsWord, words_of, started-ne-zero}
use kcas.Safety.Later.{Later, Later-trans, Role, AtLeast-Later}
use kcas.Safety.Writes.{Guarantee, write-target}

pub record IsWork (num_threads num_words own i sequence marker : ℕ) (Stale : Type 0) : Type 0 where
  pub fits : num_threads + 1 < 2 ^ 62
  pub some_words : 1 ≤ num_words
  pub words_fit : num_words < 2 ^ 64
  pub inside : i < num_threads
  pub number : IsNumber num_threads sequence
  pub role : Role own i Stale
  pub packed : marker ≡ construct_thread_and_sequence num_threads (i + 1) sequence

module _ {num_threads num_words own i sequence marker : ℕ} {Stale : Type 0}
    (work : IsWork num_threads num_words own i sequence marker Stale) {m0 m : Memory} {s : Stage}
    (going : reaches claiming s ≡ true)
    (known : AtLeast Stale num_threads (words_of m0) i s sequence)
    (later : Later num_threads num_words own m0 m) where
  pub known_at : AtLeast Stale num_threads (words_of m) i s sequence
  known_at = AtLeast-Later work.role later known

  pub not_null : (w : ℕ) → w < num_words → m.state.target_addresses i w ≢ 0
  not_null w below = later.sound.rows i w work.inside below (started-ne-zero going known_at)

  -- The marker of the operation may be written.
  pub marker-IsWord : IsWord num_threads (words_of m) marker
  marker-IsWord = inr (record {
    i = i;
    sequence = sequence;
    inside = work.inside;
    number = work.number;
    marker = work.packed;
    started = record {
      now = known_at.now;
      count = known_at.count;
      holds = known_at.holds;
      order = elim known_at.order [
        | inl (same, further) ↦ inl (same, reaches_trans claiming s known_at.now going further)
        | inr (stale, over) ↦ inr (tt, over)
      ];
    };
  })

-- A step that every thread can rely on, its own included.
pub record Quiet (num_threads num_words own : ℕ) (m m' : Memory) : Type 0 where
  pub all : (j : ℕ) → Later num_threads num_words j m m'

pub Quiet-Guarantee :
    {num_threads num_words own : ℕ} {m m' : Memory}
    → Quiet num_threads num_words own m m'
    → Guarantee num_threads num_words own m m'
Quiet-Guarantee {own} q = record { sound = (q.all own).sound; others = λ j other. q.all j }

pub Later-Quiet :
    {num_threads num_words own : ℕ} {m0 m m' : Memory}
    → Later num_threads num_words own m0 m
    → Quiet num_threads num_words own m m'
    → Later num_threads num_words own m0 m'
Later-Quiet {own} later q = Later-trans later (q.all own)

pub swap-Quiet :
    {num_threads num_words own : ℕ} {m0 m : Memory}
    → Later num_threads num_words own m0 m
    → (a v : ℕ) → IsWord num_threads (words_of m) v
    → Quiet num_threads num_words own m (write m (target a) v)
swap-Quiet later a v good = record { all = write-target later.sound a v good }

-- The result, and that the thread can still rely on what it relied on at `m0`.
abbrev pub Kept :
    (num_threads num_words own : ℕ)
    → (m0 : Memory) → {A : Type 0} → (Q : A → Memory → Type 0) → A
    → Memory
    → Type 0
Kept num_threads num_words own m0 Q r m = Q r m × Later num_threads num_words own m0 m
