-- ===== src/Safety/Writes.antt =====
-- The writes that keep the memory sound, and what the threads can still rely on after them.
use native.Mathlib.Decide.{ℕ_discrete}
use kcas.Base.{ℕ, ◌≡◌, ◌≢◌, inl, inr, refl, sym, subst, arith}
use kcas.Base.Family.{update, update_self, update_ne}
use kcas.Stage.{Stage}
use kcas.Types.Marker.{IsApplicationValue}
use kcas.Sync.{target, target_address, expected_value, desired_value}
use kcas.Kcas.Memory.{Memory, write, update_at}
use kcas.Safety.Order.{stays_on_refl}
use kcas.Safety.World.{Holds, AtLeast, IsWord, IsSound, words_of}
use kcas.Safety.Later.{Later}

-- A step of thread `own`, as the others see it.
pub record Guarantee (num_threads num_words own : ℕ) (m m' : Memory) : Type 0 where
  pub sound : IsSound num_threads num_words m'
  pub others : (j : ℕ) → j ≢ own → Later num_threads num_words j m m'

pub IsWord-map :
    {num_threads : ℕ} {words words' : ℕ → ℕ} {value : ℕ}
    → ((i : ℕ) (stage : Stage) (sequence : ℕ)
        → AtLeast (Unit {0}) num_threads words i stage sequence
        → AtLeast (Unit {0}) num_threads words' i stage sequence)
    → IsWord num_threads words value
    → IsWord num_threads words' value
IsWord-map forward (inl plain) = inl plain
IsWord-map forward (inr k) = inr (record {
  i = k.i;
  sequence = k.sequence;
  inside = k.inside;
  number = k.number;
  marker = k.marker;
  started = forward k.i _ k.sequence k.started;
})

-- A write that changes no stage.
unseen :
    {num_threads num_words j : ℕ} {m m' : Memory}
    → IsSound num_threads num_words m'
    → words_of m' ≡ words_of m
    → m'.state.target_addresses j ≡ m.state.target_addresses j
    → Later num_threads num_words j m m'
unseen {num_threads} {j} sound same row = record {
  sound = sound;
  own_word = λ stage sequence h.
      (stage, stays_on_refl stage, subst (λ f. Holds num_threads f j stage sequence) (sym same) h);
  own_row = row;
  forward = λ i stage sequence h.
      subst (λ f. AtLeast (Unit {0}) num_threads f i stage sequence) (sym same) h;
}

update_at-elim :
    (P : ℕ → Type 0) (f : ℕ → ℕ → ℕ) (i w v j u : ℕ) → P v → P (f j u) → P (update_at f i w v j u)
update_at-elim P f i w v j u new old = elim (ℕ_discrete i j) [
  | yes same ↦
      subst (λ x. P (update_at f i w v x u)) same
        (subst (λ g. P (g u)) (sym (update_self f i (update (f i) w v)))
          (elim (ℕ_discrete w u) [
            | yes here ↦
                subst (λ x. P (update (f i) w v x)) here (subst P (sym (update_self (f i) w v)) new)
            | no other ↦
                subst P (sym (update_ne (f i) w u v other)) (subst (λ x. P (f x u)) (sym same) old)
          ]))
  | no other ↦ subst (λ g. P (g u)) (sym (update_ne f i j (update (f i) w v) other)) old
]

module _ {num_threads num_words : ℕ} {m : Memory} (sound : IsSound num_threads num_words m) where
  -- A target gets a value of the application, or the marker of an operation that has started.
  pub write-target :
      (a v : ℕ)
      → IsWord num_threads (words_of m) v
      → (j : ℕ) → Later num_threads num_words j m (write m (target a) v)
  unfolding write
  write-target a v good j = record {
    sound = record {
      words = sound.words;
      expected = sound.expected;
      desired = sound.desired;
      rows = sound.rows;
      targets = λ b. elim (ℕ_discrete a b) [
        | yes here ↦
            subst (λ c. IsWord num_threads (words_of m) (update m.targets a v c)) here
              (subst (IsWord num_threads (words_of m)) (sym (update_self m.targets a v)) good)
        | no other ↦
            subst (IsWord num_threads (words_of m)) (sym (update_ne m.targets a b v other))
              (sound.targets b)
      ];
    };
    own_word = λ stage sequence h. (stage, stays_on_refl stage, h);
    own_row = refl;
    forward = λ i stage sequence h. h;
  }

module _ {num_threads num_words : ℕ} (own : ℕ) {m : Memory}
    (sound : IsSound num_threads num_words m) where
  -- The thread stores to its own row.
  pub store-target_address :
      (w v : ℕ) → v ≢ 0 → Guarantee num_threads num_words own m (write m (target_address own w) v)
  unfolding write
  store-target_address w v not_null = record { sound = after; others = seen }
    where
      after : IsSound num_threads num_words (write m (target_address own w) v)
      after = record {
        words = sound.words;
        expected = sound.expected;
        desired = sound.desired;
        rows = λ i u inside below started. ground (arith, sound.rows i u inside below started);
        targets = sound.targets;
      }

      seen : (j : ℕ) → j ≢ own → Later num_threads num_words j m (write m (target_address own w) v)
      seen j other =
          unseen after refl (update_ne m.state.target_addresses own j _ (λ e. other (sym e)))

  pub store-expected_value :
      (w v : ℕ)
      → IsApplicationValue num_threads v
      → Guarantee num_threads num_words own m (write m (expected_value own w) v)
  unfolding write
  store-expected_value w v plain = record {
    sound = after;
    others = λ j other. unseen after refl refl;
  }
    where
      after : IsSound num_threads num_words (write m (expected_value own w) v)
      after = record {
        words = sound.words;
        expected = λ i u inside below.
            update_at-elim (IsApplicationValue num_threads) m.state.expected_values own w v i u
              plain (sound.expected i u inside below);
        desired = sound.desired;
        rows = sound.rows;
        targets = sound.targets;
      }

  pub store-desired_value :
      (w v : ℕ)
      → IsApplicationValue num_threads v
      → Guarantee num_threads num_words own m (write m (desired_value own w) v)
  unfolding write
  store-desired_value w v plain = record {
    sound = after;
    others = λ j other. unseen after refl refl;
  }
    where
      after : IsSound num_threads num_words (write m (desired_value own w) v)
      after = record {
        words = sound.words;
        expected = sound.expected;
        desired = λ i u inside below.
            update_at-elim (IsApplicationValue num_threads) m.state.desired_values own w v i u plain
              (sound.desired i u inside below);
        rows = sound.rows;
        targets = sound.targets;
      }
