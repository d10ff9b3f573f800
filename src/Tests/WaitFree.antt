-- ===== src/Tests/WaitFree.antt =====
-- A thread that has claimed its one word, and a schedule with nine of its accesses.
use kcas.Base.{ℕ, Bool, true, false, List, [], ◌∷◌, ok, refl, arith}
use kcas.Types.{construct_thread_and_sequence}
use kcas.Kcas.Claim.{after_claim}
use kcas.Kcas.Concurrent.{handle_concurrent_stage_change_and_transition}
use kcas.Shared.Schedule.{System, run_schedule}
use kcas.Shared.WaitFree.{IsOver, after_claim-IsOver}
use kcas.Tests.Helping.{claimed}

-- Thread index 0 has claimed the first of its words, and its operation has one word only.
abbrev system : System
system = record {
  memory = claimed;
  programs = λ i.
      after_claim 2 1 (handle_concurrent_stage_change_and_transition 2 1 2) i 0
        (construct_thread_and_sequence 2 1 0) (ok tt);
}

abbrev schedule : List (ℕ × Bool)
schedule =
    (0, false)
    ∷ (1, false)
    ∷ (0, true)
    ∷ (0, false)
    ∷ (0, false)
    ∷ (1, true)
    ∷ (0, false)
    ∷ (0, false)
    ∷ (0, false)
    ∷ (0, false)
    ∷ (0, false)
    ∷ []

after_claim-IsOver_example : IsOver ((run_schedule 2 1 schedule system).programs 0)
after_claim-IsOver_example =
    after_claim-IsOver 2 1 0 0 0 (construct_thread_and_sequence 2 1 0) (ok tt) system schedule
      (omega arith) (omega arith) tt refl (omega arith)
