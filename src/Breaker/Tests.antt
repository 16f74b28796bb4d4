-- ===== src/Breaker/Tests.antt =====
-- Runs of the circuit breaker at concrete inputs, and each theorem at an input that meets its
-- hypotheses.
use kaasb.Common.{◌≡◌, refl, List, [], ◌∷◌, some, arith, map}
use kaasb.Breaker.Circuit.{
  CircuitState, opened, Thresholds, CircuitBreaker, new_breaker, maybe_attempt_reset, enter, trip,
  on_failure, on_success, reset, Event, enters, fails, succeeds, step, run, admitted, refused,
}
use kaasb.Breaker.Bounds.{IsSound, run-IsSound}
use kaasb.Breaker.Opening.{run-refuses, enter-probes, fails-open}

abbrev runs : Unit {0}
unfolding run step enter maybe_attempt_reset trip on_failure on_success reset
runs = tt

abbrev sample : Thresholds
sample = record { failure_threshold = 2; recovery_timeout = 30; success_threshold = 2 }

abbrev open_breaker : CircuitBreaker
open_breaker = run sample (fails 1 ∷ fails 5 ∷ []) new_breaker

abbrev history : List Event
history = fails 1 ∷ fails 5 ∷ enters 36 ∷ succeeds ∷ enters 37 ∷ succeeds ∷ fails 40 ∷ []

states :
    (open_breaker.state ≡ opened)
    × ((run sample history new_breaker).state ≡ CircuitState.closed)
    × ((run sample (enters 36 ∷ fails 37 ∷ []) open_breaker).opened_at ≡ some 37)
unfolding runs
states = (refl, refl, refl)

run-IsSound_example : IsSound sample (run sample history new_breaker)
run-IsSound_example =
    run-IsSound sample (omega arith) (omega arith) history new_breaker (omega arith)

run-refuses_example :
    (enter sample 20 (run sample (enters 8 ∷ succeeds ∷ fails 9 ∷ []) open_breaker)).0 ≡ refused 15
unfolding runs
run-refuses_example =
    run-refuses sample 5 (enters 8 ∷ succeeds ∷ fails 9 ∷ []) open_breaker 20 (refl, refl)
      (omega arith, (tt, (omega arith, tt))) (omega arith)

enter-probes_example :
    ((enter sample 35 open_breaker).0 ≡ admitted)
    × ((enter sample 36
          (run sample (enters 35 ∷ enters 36 ∷ []) (enter sample 35 open_breaker).1)).0
        ≡ admitted)
unfolding runs
enter-probes_example =
    enter-probes sample 5 open_breaker 35 36 (35 ∷ 36 ∷ []) (refl, refl) (omega arith)

fails-open_example : (run sample (map fails (1 ∷ 5 ∷ [])) new_breaker).state ≡ opened
fails-open_example = fails-open sample (1 ∷ 5 ∷ []) new_breaker refl (omega arith) (omega arith)
