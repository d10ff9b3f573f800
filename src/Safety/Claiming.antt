-- ===== src/Safety/Claiming.antt =====
-- `claim` is safe, for the thread itself and for helpers, if the help that it gives is.
use kcas.Base.{
  ℕ, zero, suc, ◌+◌, ◌^◌, ◌<◌, Result, ok, err, ◌≡◌, inl, inr, refl, sym, ap, ◌∙◌, subst, arith,
  ◌==◌, ==→eq,
}
use kcas.Stage.{claiming}
use kcas.Types.{extract_thread_from_thread_and_sequence}
use kcas.Types.Marker.{extract_thread-construct, kernel_top_bits-gt}
use kcas.Sync.{Prog, ret, ◌>>=◌}
use kcas.Kcas.{HelpError}
use kcas.Kcas.Memory.{Memory, read, in_bounds}
use kcas.Kcas.StageChange.{StageAndSequenceVerificationError}
use kcas.Kcas.Claim.{
  ClaimError, stage_and_sequence_verification_error, value_was_not_expected_value,
  target_address_was_not_valid_pointer, fatal_error_while_helping, top_bits_of_value_were_illegal,
  after_help, examine_top_bits, claim_word_failed, cas_loop, claim_words, claim,
}
use kcas.Solo.Row.{target_in_bounds, expected_in_bounds}
use kcas.Solo.Verdict.{examine-application}
use kcas.Safety.World.{AtLeast, IsMarker, IsWord, IsSound, words_of}
use kcas.Safety.Later.{Later, Later-trans, Later-refl}
use kcas.Safety.Writes.{IsWord-map}
use kcas.Safety.Safe.{Safe, Safe->>=, Safe-if}
use kcas.Safety.Work.{
  IsWork, known_at, not_null, marker-IsWord, Quiet-Guarantee, Later-Quiet, swap-Quiet, Kept,
}
use kcas.Safety.Check.{Seen, verify-Safe}
use kcas.Safety.Handlers.{IsHelp}

-- What an error of `claim` says. Two of them cannot be.
abbrev pub ClaimSeen :
    (num_threads num_words i sequence : ℕ)
    → (Stale : Type 0) → Result (Unit {0}) ClaimError
    → Memory
    → Type 0
ClaimSeen num_threads num_words i sequence Stale (ok u) m = Unit {0}
ClaimSeen num_threads num_words i sequence Stale (err (stage_and_sequence_verification_error w e))
      m =
    Seen num_threads i sequence Stale claiming (err e) m
ClaimSeen num_threads num_words i sequence Stale (err (value_was_not_expected_value w a v)) m =
    w < num_words
ClaimSeen num_threads num_words i sequence Stale (err (target_address_was_not_valid_pointer w a))
      m =
    ⊥
ClaimSeen num_threads num_words i sequence Stale (err (fatal_error_while_helping e)) m = ⊥
ClaimSeen num_threads num_words i sequence Stale (err (top_bits_of_value_were_illegal w a v b)) m =
    ⊥

-- Help with an operation whose marker was met.
abbrev pub SafeHelp :
    (num_threads num_words own : ℕ) → (ℕ → Prog (Result (Unit {0}) HelpError)) → Type 0
SafeHelp num_threads num_words own help =
    (encountered : ℕ) (m : Memory)
    → IsSound num_threads num_words m
    → IsMarker num_threads (words_of m) encountered
    → Safe num_threads num_words own (Kept num_threads num_words own m IsHelp) (help encountered) m

-- The top bits of a marker lead to help.
examine-marker :
    (num_threads : ℕ) {words : ℕ → ℕ} (help : ℕ → Prog (Result (Unit {0}) HelpError))
    (i sequence marker : ℕ) (retry : Prog (Result (Unit {0}) ClaimError)) (w ptr value : ℕ)
    → num_threads + 1 < 2 ^ 62
    → IsMarker num_threads words value
    → examine_top_bits num_threads help i sequence marker retry w ptr value
      ≡ (help value >>= after_help retry)
unfolding examine_top_bits
examine-marker num_threads help i sequence marker retry w ptr value fits k =
    let top : extract_thread_from_thread_and_sequence num_threads value ≡ k.i + 1 =
      ap (extract_thread_from_thread_and_sequence num_threads) k.marker
      ∙ extract_thread-construct num_threads (omega arith) (k.i + 1) k.sequence
          (omega (arith, k.inside)) k.number.room in
    ground (arith, top, k.inside, kernel_top_bits-gt num_threads (omega arith))

module _ {num_threads num_words own i sequence marker : ℕ} {Stale : Type 0}
    (work : IsWork num_threads num_words own i sequence marker Stale)
    (help : ℕ → Prog (Result (Unit {0}) HelpError))
    (helps : SafeHelp num_threads num_words own help) (m0 : Memory)
    (known : AtLeast Stale num_threads (words_of m0) i claiming sequence) where
  abbrev Post : Result (Unit {0}) ClaimError → Memory → Type 0
  Post = Kept num_threads num_words own m0 (ClaimSeen num_threads num_words i sequence Stale)

  module _ (retry : Prog (Result (Unit {0}) ClaimError))
      (again : (m : Memory)
        → Later num_threads num_words own m0 m
        → Safe num_threads num_words own Post retry m)
      (w ptr : ℕ) (below : w < num_words) where
    examine_top_bits-Safe :
        (actual : ℕ) (m : Memory)
        → Later num_threads num_words own m0 m
        → IsWord num_threads (words_of m) actual
        → Safe num_threads num_words own Post
            (examine_top_bits num_threads help i sequence marker retry w ptr actual)
            m
    unfolding Safe after_help
    examine_top_bits-Safe actual m later (inl plain) =
        subst (λ p. Safe num_threads num_words own Post p m)
          (sym (
            examine-application num_threads help i sequence marker retry w ptr actual
              (omega (arith, work.fits)) plain))
          (below, later)
    examine_top_bits-Safe actual m later (inr k) =
        subst (λ p. Safe num_threads num_words own Post p m)
          (sym (examine-marker num_threads help i sequence marker retry w ptr actual work.fits k))
          (Safe->>= num_threads num_words own (Kept num_threads num_words own m IsHelp) Post
            (help actual) _ m (helps actual m later.sound k) then)
      where
        then :
            (r : Result (Unit {0}) HelpError) (m' : Memory)
            → Kept num_threads num_words own m IsHelp r m'
            → Safe num_threads num_words own Post (after_help retry r) m'
        then (ok u) m' (fine, later') = again m' (Later-trans later later')
        then (err (HelpError.sequence_changed_while_helping _ _ _)) m' (fine, later') =
            again m' (Later-trans later later')
        then (err (HelpError.helpee_stage_is_already_terminal _ _)) m' (fine, later') =
            again m' (Later-trans later later')
        then (err (HelpError.fatal _)) m' (fine, later') = elim fine [ ]

    claim_word_failed-Safe :
        (expected actual : ℕ) (m : Memory)
        → Later num_threads num_words own m0 m
        → IsWord num_threads (words_of m) actual
        → Safe num_threads num_words own Post
            (claim_word_failed num_threads help i sequence marker retry w ptr expected actual)
            m
    unfolding claim_word_failed Safe
    claim_word_failed-Safe expected actual m later good =
        Safe-if num_threads num_words own Post (actual == expected) _ _ m (λ _. again m later)
          (λ _.
            Safe-if num_threads num_words own Post (actual == marker) _ _ m (λ _. (tt, later))
              (λ _.
                verify-Safe work m (known_at work refl known later) Post _ m
                  (Later-refl later.sound) then))
      where
        then :
            (r : Result (Unit {0}) StageAndSequenceVerificationError) (m' : Memory)
            → Later num_threads num_words own m m'
            → Seen num_threads i sequence Stale claiming r m'
            → Safe num_threads num_words own Post
                (elim r [
                  | err error ↦ ret (err (stage_and_sequence_verification_error w error))
                  | ok _ ↦ examine_top_bits num_threads help i sequence marker retry w ptr actual
                ])
                m'
        then (ok u) m' later' seen =
            examine_top_bits-Safe actual m' (Later-trans later later')
              (IsWord-map later'.forward good)
        then (err e) m' later' seen = (seen, Later-trans later later')

  cas_loop-Safe :
      (rounds w ptr expected : ℕ)
      → w < num_words
      → (m : Memory) → Later num_threads num_words own m0 m
      → Safe num_threads num_words own Post
          (cas_loop num_threads help i sequence marker rounds w ptr expected)
          m
  unfolding cas_loop Safe ◌>>=◌ read in_bounds
  cas_loop-Safe zero w ptr expected below m later = tt
  cas_loop-Safe (suc rounds) w ptr expected below m later = (
    refl,
    λ m1 l1.
        let later1 = Later-trans later l1 in
        let step = swap-Quiet later1 ptr marker (marker-IsWord work refl known later1) in
        (
          (λ held. (Quiet-Guarantee step, (tt, Later-Quiet later1 step))),
          claim_word_failed-Safe _ (cas_loop-Safe rounds w ptr expected below) w ptr below expected
              _ m1 later1 (later1.sound.targets ptr),
        ),
  )

  claim_words-Safe :
      (rounds left w : ℕ)
      → w + left ≡ num_words
      → (m : Memory) → Later num_threads num_words own m0 m
      → Safe num_threads num_words own Post
          (claim_words num_threads help i sequence marker rounds left w)
          m
  unfolding claim_words Safe ◌>>=◌ read in_bounds
  claim_words-Safe rounds zero w e m later = (tt, later)
  claim_words-Safe rounds (suc left) w e m later =
      let below : w < num_words = omega arith in
      (
        target_in_bounds num_words work.inside below,
        λ m1 l1.
            let later1 = Later-trans later l1 in
            let ptr = m1.state.target_addresses i w in
            Safe-if num_threads num_words own Post (ptr == 0) _ _ m1
              (λ is_null. absurd (not_null work refl known later1 w below (==→eq ptr 0 is_null)))
              (λ _. (
                expected_in_bounds num_words work.inside below,
                λ m2 l2.
                    Safe->>= num_threads num_words own Post Post
                      (cas_loop num_threads help i sequence marker rounds w ptr
                        (m2.state.expected_values i w))
                      _ m2 (cas_loop-Safe rounds w ptr _ below m2 (Later-trans later1 l2))
                      (then (λ m' l. claim_words-Safe rounds left (w + 1) (omega arith) m' l)),
              )),
      )
    where
      then :
          ((m' : Memory)
            → Later num_threads num_words own m0 m'
            → Safe num_threads num_words own Post
                (claim_words num_threads help i sequence marker rounds left (w + 1))
                m')
          → (r : Result (Unit {0}) ClaimError) (m' : Memory) → Post r m'
          → Safe num_threads num_words own Post
              (elim r [
                | ok _ ↦ claim_words num_threads help i sequence marker rounds left (w + 1)
                | err claim_error ↦ ret (err claim_error)
              ])
              m'
      then rest (ok u) m' (seen, later') = rest m' later'
      then rest (err x) m' post = post

  pub claim-Safe :
      (rounds : ℕ) (m : Memory)
      → Later num_threads num_words own m0 m
      → Safe num_threads num_words own Post
          (claim num_threads num_words help rounds i sequence marker)
          m
  unfolding claim
  claim-Safe rounds m later = claim_words-Safe rounds num_words 0 (omega arith) m later
