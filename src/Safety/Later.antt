-- ===== src/Safety/Later.antt =====
-- What a thread can rely on while the others take steps.
use kcas.Base.{ℕ, true, ◌≡◌, ◌⊎◌, inl, inr, refl, sym, subst, ◌∙◌, arith}
use kcas.Stage.{Stage, inactive}
use kcas.Kcas.Memory.{Memory}
use kcas.Safety.Order.{reaches_trans, stays_on, stays_on_refl, stays_on_trans, stays_on-reaches}
use kcas.Safety.World.{Holds, AtLeast, IsSound, words_of}

-- The memory is sound; the thread's own operation stays the same one, with a stage that the others
-- may have moved on; its own row is as it was; and no operation has gone back.
pub record Later (num_threads num_words own : ℕ) (m m' : Memory) : Type 0 where
  pub sound : IsSound num_threads num_words m'
  pub own_word :
      (stage : Stage) (sequence : ℕ)
      → Holds num_threads (words_of m) own stage sequence
      → (stage' : Stage) × (stays_on stage stage' ≡ true)
        × Holds num_threads (words_of m') own stage' sequence
  pub own_row : m'.state.target_addresses own ≡ m.state.target_addresses own
  pub forward :
      (i : ℕ) (stage : Stage) (sequence : ℕ)
      → AtLeast (Unit {0}) num_threads (words_of m) i stage sequence
      → AtLeast (Unit {0}) num_threads (words_of m') i stage sequence

module _ {num_threads num_words own : ℕ} where
  pub Later-refl :
      {m : Memory} → IsSound num_threads num_words m → Later num_threads num_words own m m
  Later-refl sound = record {
    sound = sound;
    own_word = λ stage sequence h. (stage, stays_on_refl stage, h);
    own_row = refl;
    forward = λ i stage sequence h. h;
  }

  pub Later-trans :
      {m m' m'' : Memory}
      → Later num_threads num_words own m m'
      → Later num_threads num_words own m' m''
      → Later num_threads num_words own m m''
  Later-trans first second = record {
    sound = second.sound;
    own_word = λ stage sequence h.
        let (stage', on, h') = first.own_word stage sequence h in
        let (stage'', on', h'') = second.own_word stage' sequence h' in
        (stage'', stays_on_trans stage stage' stage'' on on', h'');
    own_row = second.own_row ∙ first.own_row;
    forward =
        λ i stage sequence h. second.forward i stage sequence (first.forward i stage sequence h);
  }

-- A thread works on its own operation, or on another one that may end meanwhile.
abbrev pub Role : ℕ → ℕ → Type 0 → Type 0
Role own i Stale = Stale ⊎ (i ≡ own)

module _ {num_threads num_words own i : ℕ} {Stale : Type 0} {m m' : Memory} {stage : Stage}
    {sequence : ℕ} where
  -- That an operation has come to a stage stays true.
  pub AtLeast-Later :
      Role own i Stale
      → Later num_threads num_words own m m'
      → AtLeast Stale num_threads (words_of m) i stage sequence
      → AtLeast Stale num_threads (words_of m') i stage sequence
  AtLeast-Later (inl stale) later known =
      let k = later.forward i stage sequence (record {
        now = known.now;
        count = known.count;
        holds = known.holds;
        order = elim known.order [ inl o ↦ inl o | inr (s, o) ↦ inr (tt, o) ];
      }) in
      record {
        now = k.now;
        count = k.count;
        holds = k.holds;
        order = elim k.order [ inl o ↦ inl o | inr (s, o) ↦ inr (stale, o) ];
      }
  AtLeast-Later (inr mine) later known =
      let (stage', on, h') =
        later.own_word known.now known.count
          (subst (λ j. Holds num_threads (words_of m) j known.now known.count) mine known.holds) in
      record {
        now = stage';
        count = known.count;
        holds = subst (λ j. Holds num_threads (words_of m') j stage' known.count) (sym mine) h';
        order = elim known.order [
          | inl (same, further) ↦ inl (
            same,
            reaches_trans stage known.now stage' further (stays_on-reaches known.now stage' on),
          )
          | inr o ↦ inr o
        ];
      }

-- A stage word at rest stays as it is while its thread takes no step.
pub Holds-inactive-Later :
    {num_threads num_words own q : ℕ} {m m' : Memory}
    → Later num_threads num_words own m m'
    → Holds num_threads (words_of m) own inactive q
    → Holds num_threads (words_of m') own inactive q
Holds-inactive-Later {num_threads} {own} {q} {m'} later h =
    let (stage, on, h') = later.own_word inactive q h in
    subst (λ s. Holds num_threads (words_of m') own s q) (at_rest stage on) h'
  where
    at_rest : (s : Stage) → stays_on inactive s ≡ true → s ≡ inactive
    at_rest s on = ground (arith, on)
