-- ===== src/Solo/Waits.antt =====
-- A thread by itself that meets the marker of an operation that is over: 'cas_loop of
-- src/kcas/claim.rs does not end while the marker stays.
use kcas.Base.{
  ℕ, zero, suc, ◌<◌, Bool, true, List, Result, err, ◌≡◌, ◌≢◌, refl, sym, ◌∙◌, ap, arith, ne→==,
}
use kcas.Stage.{Stage, claiming}
use kcas.Types.{construct_stage_and_sequence}
use kcas.Types.Marker.{kernel_top_bits-gt}
use kcas.Types.StageAndSequence.{stage_sequence_limit}
use kcas.Sync.{
  Location, Prog, load, compare_exchange_weak, ◌>>=◌, target, stage_and_sequence_number,
}
use kcas.Kcas.{HelpError}
use kcas.Kcas.StageChange.{verify_stage_and_sequence_have_not_changed}
use kcas.Kcas.Claim.{ClaimError, after_help, examine_top_bits, claim_word_failed, cas_loop}
use kcas.Kcas.Operation.{help_thread}
use kcas.Kcas.Memory.{Memory, Outcome, read, in_bounds, run, exhausted, later}
use kcas.Kcas.Memory.Returns.{Returns, run->>=, run-weak_miss, spurious_failures}
use kcas.Solo.Row.{stage_in_bounds, verification_result-ok}
use kcas.Solo.Help.{IsHelpee, IsSpent, IsRetried, help_thread-refuses}

-- A run by itself comes to no end with this fuel, whatever fewer than `rounds` spurious failures
-- happen.
pub record Waits (num_threads num_words rounds : ℕ) {A : Type 0} (p : Prog A) (m : Memory)
    : Type 0 where
  pub waits :
      (o : List Bool) → spurious_failures o < rounds → run num_threads num_words p o m ≡ exhausted

module _ (num_threads num_words : ℕ) {A : Type 0} where
  run-load :
      (l : Location) (k : ℕ → Prog A) (o : List Bool) {v : ℕ} (m : Memory) {out : Outcome A}
      → in_bounds num_threads num_words l ≡ true
      → read m l ≡ v
      → run num_threads num_words (k v) o m ≡ out
      → run num_threads num_words (load l k) o m ≡ out
  unfolding run
  run-load l k o m inside loaded rest = rw (run, inside, loaded) rest

  run-miss :
      (l : Location) (c n : ℕ) (k : Result ℕ ℕ → Prog A) (o : List Bool) {v : ℕ} (m : Memory)
      {out : Outcome A}
      → in_bounds num_threads num_words l ≡ true
      → read m l ≡ v
      → v ≢ c
      → run num_threads num_words (k (err v)) (later o) m ≡ out
      → run num_threads num_words (compare_exchange_weak l c n k) o m ≡ out
  run-miss l c n k o m inside held other rest =
      run-weak_miss num_threads num_words l c n k m inside o (λ e. other (sym held ∙ e))
      ∙ ap (λ x. run num_threads num_words (k (err x)) (later o) m) held
      ∙ rest

module _ {num_threads num_words rounds : ℕ} {A : Type 0} where
  pub Waits-load :
      (l : Location) (k : ℕ → Prog A) {v : ℕ} {m : Memory}
      → in_bounds num_threads num_words l ≡ true
      → read m l ≡ v
      → Waits num_threads num_words rounds (k v) m
      → Waits num_threads num_words rounds (load l k) m
  Waits-load l k {m} inside loaded rest = record {
    waits = λ o few. run-load num_threads num_words l k o m inside loaded (rest.waits o few);
  }

  pub Waits-first :
      {B : Type 0} (p : Prog A) (f : A → Prog B) {m : Memory}
      → Waits num_threads num_words rounds p m
      → Waits num_threads num_words rounds (p >>= f) m
  Waits-first p f {m} first = record {
    waits = λ o few. run->>= num_threads num_words p f o m ∙ rw (first.waits o few) refl;
  }

  pub Waits-then :
      {B : Type 0} (p : Prog A) (f : A → Prog B) {m m' : Memory} {a : A}
      → Returns num_threads num_words rounds p m a m'
      → Waits num_threads num_words rounds (f a) m'
      → Waits num_threads num_words rounds (p >>= f) m
  Waits-then p f {m} first second = record {
    waits = λ o few.
        let (o', ended, few') = first.ends o few in
        run->>= num_threads num_words p f o m ∙ rw ended (second.waits o' few');
  }

module _ (num_threads num_words fuel i sequence marker encountered : ℕ) (stage : Stage) (m : Memory)
    (helpee : IsHelpee num_threads encountered m stage)
    (spent : IsSpent num_threads encountered m stage) (inside : i < num_threads)
    (small : sequence < stage_sequence_limit)
    (word : m.state.stage_and_sequence_numbers i
      ≡ construct_stage_and_sequence claiming sequence) where
  abbrev help : ℕ → Prog (Result (Unit {0}) HelpError)
  help = help_thread num_threads num_words (suc fuel)

  asks :
      (retry : Prog (Result (Unit {0}) ClaimError)) (w ptr : ℕ)
      → examine_top_bits num_threads help i sequence marker retry w ptr encountered
        ≡ (help encountered >>= after_help retry)
  unfolding examine_top_bits
  asks retry w ptr =
      ground (arith, helpee.positive, helpee.in_use, kernel_top_bits-gt num_threads helpee.fits)

  tries_again :
      (retry : Prog (Result (Unit {0}) ClaimError)) (o : List Bool) (e : HelpError)
      → IsRetried e
      → run num_threads num_words (after_help retry (err e)) o m
        ≡ run num_threads num_words retry o m
  unfolding after_help
  tries_again retry o (HelpError.sequence_changed_while_helping t c d) retried = refl
  tries_again retry o (HelpError.helpee_stage_is_already_terminal t s) retried = refl
  tries_again retry o (HelpError.fatal e) retried = elim retried [ ]

  -- The helper is asked, and then the same again.
  examine_top_bits-retries :
      (retry : Prog (Result (Unit {0}) ClaimError)) (w ptr : ℕ) (o : List Bool)
      → run num_threads num_words
          (examine_top_bits num_threads help i sequence marker retry w ptr encountered)
          o
          m
        ≡ run num_threads num_words retry o m
  examine_top_bits-retries retry w ptr o =
      let (e, refused, retried) =
        help_thread-refuses num_threads num_words fuel encountered m o stage helpee spent in
      ap (λ p. run num_threads num_words p o m) (asks retry w ptr)
      ∙ run->>= num_threads num_words (help encountered) (after_help retry) o m
      ∙ rw refused (tries_again retry o e retried)

  module _ (w ptr expected : ℕ) (held : m.targets ptr ≡ encountered)
      (other : encountered ≢ expected) (unmarked : encountered ≢ marker) where
    -- One round, after the compare-exchange.
    claim_word_failed-retries :
        (retry : Prog (Result (Unit {0}) ClaimError)) (o : List Bool)
        → run num_threads num_words
            (claim_word_failed num_threads help i sequence marker retry w ptr expected encountered)
            o
            m
          ≡ run num_threads num_words retry o m
    unfolding claim_word_failed verify_stage_and_sequence_have_not_changed ◌>>=◌ read
    claim_word_failed-retries retry o =
        rw (claim_word_failed, ne→== encountered expected other, ne→== encountered marker unmarked)
          (run-load num_threads num_words (stage_and_sequence_number i) _ o m
            (stage_in_bounds num_words inside) word
            (rw (verification_result-ok claiming sequence small)
              (examine_top_bits-retries retry w ptr o)))

    -- As long as the marker is there no number of rounds is enough.
    pub cas_loop-exhausted :
        (rounds : ℕ) (o : List Bool)
        → run num_threads num_words
            (cas_loop num_threads help i sequence marker rounds w ptr expected)
            o
            m
          ≡ exhausted
    unfolding cas_loop ◌>>=◌ read in_bounds
    cas_loop-exhausted zero o = unfold run in refl
    cas_loop-exhausted (suc rounds) o =
        run-miss num_threads num_words (target ptr) expected marker _ o m refl held other (
          claim_word_failed-retries
            (cas_loop num_threads help i sequence marker rounds w ptr expected) (later o)
          ∙ cas_loop-exhausted rounds (later o))
