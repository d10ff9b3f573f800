-- ===== src/Tests/Always.antt =====
-- Two threads on a new state, with two operations and one, which meet at one target.
use kcas.Base.{ℕ, zero, suc, ◌<◌, ◌≢◌, ok, inl, arith}
use kcas.Types.Marker.{IsApplicationValue}
use kcas.Sync.{panic}
use kcas.Kcas.{KCasWord_new}
use kcas.Shared.Schedule.{run_schedule}
use kcas.Safety.World.{IsNumber, IsSound}
use kcas.Safety.Operation.{IsRequest}
use kcas.Safety.Steps.{Ended}
use kcas.Safety.Run.{length, AreRequests, IsOnward}
use kcas.Safety.Always.{never_panics, always-Ended, always-IsSound, never_back}
use kcas.Tests.Helping.{limit_of_2}
use kcas.Tests.Late.{there_and_back, unclaimed, schedule, more, performed, too_late}

unclaimed-IsApplicationValue : (a : ℕ) → IsApplicationValue 2 (unclaimed a)
unclaimed-IsApplicationValue a = inl (omega (arith, limit_of_2))

-- A request for small values.
small-IsRequest : (e d : ℕ) → e < 9 → d < 9 → IsRequest 2 1 (λ w. KCasWord_new 10 e d)
small-IsRequest e d h k = record {
  reference = λ w below e. omega (arith, e);
  expected = λ w below. inl (omega (arith, limit_of_2, h));
  desired = λ w below. inl (omega (arith, limit_of_2, k));
}

there_and_back-AreRequests : (i : ℕ) → i < 2 → AreRequests 2 1 (there_and_back i)
there_and_back-AreRequests zero inside = (
  small-IsRequest 0 5 (omega arith) (omega arith),
  (small-IsRequest 5 0 (omega arith) (omega arith), tt),
)
there_and_back-AreRequests (suc i) inside = (small-IsRequest 0 7 (omega arith) (omega arith), tt)

there_and_back-IsNumber : (i : ℕ) → i < 2 → IsNumber 2 (length (there_and_back i))
there_and_back-IsNumber zero inside = record {
  small = omega arith;
  room = omega (arith, limit_of_2);
}
there_and_back-IsNumber (suc i) inside = record {
  small = omega arith;
  room = omega (arith, limit_of_2);
}

never_panics_example : performed.programs 1 ≢ panic
never_panics_example =
    never_panics 2 1 3 there_and_back unclaimed (omega arith) (omega arith) (omega arith)
      unclaimed-IsApplicationValue there_and_back-AreRequests there_and_back-IsNumber schedule 1

always-Ended_example : Ended 2 (λ j. length (there_and_back j)) 0 (ok tt) performed.memory
always-Ended_example =
    always-Ended 2 1 3 there_and_back unclaimed (omega arith) (omega arith) (omega arith)
      unclaimed-IsApplicationValue there_and_back-AreRequests there_and_back-IsNumber schedule 0
      (ok tt) too_late.0

always-IsSound_example : IsSound 2 1 performed.memory
always-IsSound_example =
    always-IsSound 2 1 3 there_and_back unclaimed (omega arith) (omega arith) (omega arith)
      unclaimed-IsApplicationValue there_and_back-AreRequests there_and_back-IsNumber schedule

never_back_example : IsOnward 2 performed.memory (run_schedule 2 1 more performed).memory
never_back_example =
    never_back 2 1 3 there_and_back unclaimed (omega arith) (omega arith) (omega arith)
      unclaimed-IsApplicationValue there_and_back-AreRequests there_and_back-IsNumber schedule more
