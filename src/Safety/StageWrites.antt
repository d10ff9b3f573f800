-- ===== src/Safety/StageWrites.antt =====
-- The writes of stage words: to a later stage, or to a later operation.
use native.Mathlib.Decide.{ℕ_discrete}
use kcas.Base.{ℕ, ◌<◌, true, ◌≡◌, ◌≢◌, ◌⊎◌, inl, inr, refl, sym, subst, ◌∙◌, arith}
use kcas.Base.Family.{update, update_self, update_ne}
use kcas.Stage.{Stage}
use kcas.Types.{construct_stage_and_sequence}
use kcas.Sync.{stage_and_sequence_number}
use kcas.Kcas.Memory.{Memory, write}
use kcas.Safety.Order.{reaches, reaches_trans, stays_on, stays_on_refl}
use kcas.Safety.World.{
  IsNumber, Holds, AtLeast, IsSound, words_of, Holds-same_stage, Holds-same_sequence,
}
use kcas.Safety.Later.{Later}
use kcas.Safety.Writes.{IsWord-map}

-- A stage word goes on, to a later stage or to a later operation.
module _ {num_threads num_words : ℕ} {m : Memory} (sound : IsSound num_threads num_words m) (i : ℕ)
    {s : Stage} {q : ℕ} (held : Holds num_threads (words_of m) i s q) (s' : Stage) {q' : ℕ}
    (number : IsNumber num_threads q') (onward : ((q' ≡ q) × (reaches s s' ≡ true)) ⊎ (q < q'))
    (not_null : (w : ℕ) → w < num_words → m.state.target_addresses i w ≢ 0) where
  abbrev new_words : ℕ → ℕ
  new_words = update (words_of m) i (construct_stage_and_sequence s' q')

  here_now : Holds num_threads new_words i s' q'
  here_now = record {
    word = update_self (words_of m) i (construct_stage_and_sequence s' q');
    number = number;
  }

  elsewhere :
      (j : ℕ) (t : Stage) (r : ℕ)
      → i ≢ j
      → Holds num_threads (words_of m) j t r
      → Holds num_threads new_words j t r
  elsewhere j t r other h = record {
    word = update_ne (words_of m) i j (construct_stage_and_sequence s' q') other ∙ h.word;
    number = h.number;
  }

  forward_here :
      (t : Stage) (r : ℕ)
      → AtLeast (Unit {0}) num_threads (words_of m) i t r
      → AtLeast (Unit {0}) num_threads new_words i t r
  forward_here t r known =
      let same_count : known.count ≡ q = Holds-same_sequence known.holds held in
      let same_stage : known.now ≡ s = Holds-same_stage known.holds held in
      record {
        now = s';
        count = q';
        holds = here_now;
        order = elim onward [
          | inl (kept, further) ↦ elim known.order [
            | inl (equal, before) ↦ inl (
              kept ∙ sym same_count ∙ equal,
              reaches_trans t s s' (subst (λ x. reaches t x ≡ true) same_stage before) further,
            )
            | inr (stale, over) ↦ inr (tt, omega arith)
          ]
          | inr more ↦ elim known.order [
            | inl (equal, before) ↦ inr (tt, omega arith)
            | inr (stale, over) ↦ inr (tt, omega arith)
          ]
        ];
      }

  forward_all :
      (j : ℕ) (t : Stage) (r : ℕ)
      → AtLeast (Unit {0}) num_threads (words_of m) j t r
      → AtLeast (Unit {0}) num_threads new_words j t r
  forward_all j t r known = elim (ℕ_discrete i j) [
    | yes same ↦
        subst (λ x. AtLeast (Unit {0}) num_threads new_words x t r) same
          (forward_here t r
            (subst (λ x. AtLeast (Unit {0}) num_threads (words_of m) x t r) (sym same) known))
    | no other ↦ record {
      now = known.now;
      count = known.count;
      holds = elsewhere j known.now known.count other known.holds;
      order = known.order;
    }
  ]

  pub write-stage-IsSound :
      IsSound num_threads num_words
        (write m (stage_and_sequence_number i) (construct_stage_and_sequence s' q'))
  unfolding write
  write-stage-IsSound = record {
    words = λ j inside. elim (ℕ_discrete i j) [
      | yes same ↦ (s', q', subst (λ x. Holds num_threads new_words x s' q') same here_now)
      | no other ↦ let (t, r, h) = sound.words j inside in (t, r, elsewhere j t r other h)
    ];
    expected = sound.expected;
    desired = sound.desired;
    rows = λ j w inside below started. elim (ℕ_discrete i j) [
      | yes same ↦ subst (λ x. m.state.target_addresses x w ≢ 0) same (not_null w below)
      | no other ↦
          sound.rows j w inside below (λ e. started (update_ne (words_of m) i j _ other ∙ e))
    ];
    targets = λ a. IsWord-map forward_all (sound.targets a);
  }

  pub write-stage-Holds :
      Holds num_threads
        (words_of (write m (stage_and_sequence_number i) (construct_stage_and_sequence s' q')))
        i
        s'
        q'
  unfolding write
  write-stage-Holds = here_now

  pub write-stage :
      (j : ℕ)
      → ((j ≡ i) → (q' ≡ q) × (stays_on s s' ≡ true))
      → Later num_threads num_words j m
          (write m (stage_and_sequence_number i) (construct_stage_and_sequence s' q'))
  unfolding write
  write-stage j mine = record {
    sound = write-stage-IsSound;
    own_word = λ t r h. elim (ℕ_discrete i j) [
      | yes same ↦
          let h' : Holds num_threads (words_of m) i t r =
            subst (λ x. Holds num_threads (words_of m) x t r) (sym same) h in
          let (kept, on) = mine (sym same) in
          (
            s',
            subst (λ x. stays_on x s' ≡ true) (sym (Holds-same_stage h' held)) on,
            subst (λ x. Holds num_threads new_words x s' r) same
                (subst (λ x. Holds num_threads new_words i s' x)
                  (kept ∙ sym (Holds-same_sequence h' held)) here_now),
          )
      | no other ↦ (t, stays_on_refl t, elsewhere j t r other h)
    ];
    own_row = refl;
    forward = forward_all;
  }
