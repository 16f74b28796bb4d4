-- ===== src/Breaker/Circuit.antt =====
-- `CircuitBreaker` (backend/app/utils/circuit_breaker.py). The call of the service runs outside the
-- lock, so that a caller's entry and its outcome are two steps, between which others run.
use kaasb.Common.{
  ℕ, suc, ◌+◌, ◌-◌, Bool, true, false, Option, none, some, List, [], ◌∷◌, if◌then◌else◌, leb,
}

pub data CircuitState : Type 0 where
  closed opened half_open : CircuitState

-- `failure_threshold`, `recovery_timeout` and `success_threshold`; times are ticks of the monotonic
-- clock.
pub record Thresholds : Type 0 where
  pub failure_threshold : ℕ
  pub recovery_timeout : ℕ
  pub success_threshold : ℕ

pub record CircuitBreaker : Type 0 where
  pub state : CircuitState
  pub failure_count : ℕ
  pub success_count : ℕ
  pub opened_at : Option ℕ

abbrev pub new_breaker : CircuitBreaker
new_breaker = record { state = closed; failure_count = 0; success_count = 0; opened_at = none }

-- `CircuitOpenError`, with the time after which to retry.
pub data Admission : Type 0 where
  admitted : Admission
  refused : ℕ → Admission

abbrev pub is_admitted : Admission → Bool
is_admitted admitted = true
is_admitted (refused t) = false

abbrev pub has_elapsed : Thresholds → ℕ → Option ℕ → Bool
has_elapsed c now none = false
has_elapsed c now (some t) = leb (t + c.recovery_timeout) now

-- `_maybe_attempt_reset`, by the state.
abbrev pub probe : Thresholds → ℕ → CircuitState → CircuitBreaker → CircuitBreaker
probe c now opened b =
    if has_elapsed c now b.opened_at then record b { state = half_open; success_count = 0 } else b
probe c now closed b = b
probe c now half_open b = b

unfoldable pub maybe_attempt_reset : Thresholds → ℕ → CircuitBreaker → CircuitBreaker
maybe_attempt_reset c now b = probe c now b.state b

abbrev pub opened_or_zero : Option ℕ → ℕ
opened_or_zero none = 0
opened_or_zero (some t) = t

abbrev pub admission : Thresholds → ℕ → CircuitState → CircuitBreaker → Admission
admission c now opened b = refused (opened_or_zero b.opened_at + c.recovery_timeout - now)
admission c now closed b = admitted
admission c now half_open b = admitted

-- The first part of `call`, under the lock.
unfoldable pub enter : Thresholds → ℕ → CircuitBreaker → Admission × CircuitBreaker
enter c now b = let b' = maybe_attempt_reset c now b in (admission c now b'.state b', b')

unfoldable pub trip : ℕ → CircuitBreaker → CircuitBreaker
trip now b = record b { state = opened; opened_at = some now }

abbrev pub count_failure : CircuitBreaker → CircuitBreaker
count_failure b = record b { failure_count = suc b.failure_count; success_count = 0 }

abbrev pub failed_in : Thresholds → ℕ → CircuitState → CircuitBreaker → CircuitBreaker
failed_in c now half_open b = trip now b
failed_in c now closed b = if leb c.failure_threshold b.failure_count then trip now b else b
failed_in c now opened b = b

unfoldable pub on_failure : Thresholds → ℕ → CircuitBreaker → CircuitBreaker
on_failure c now b = failed_in c now b.state (count_failure b)

abbrev pub count_success : CircuitBreaker → CircuitBreaker
count_success b = record b { success_count = suc b.success_count }

abbrev pub recover : Thresholds → CircuitBreaker → CircuitBreaker
recover c b =
    if leb c.success_threshold b.success_count
    then record b { state = closed; failure_count = 0; opened_at = none }
    else b

abbrev pub succeeded_in : Thresholds → CircuitState → CircuitBreaker → CircuitBreaker
succeeded_in c half_open b = recover c (count_success b)
succeeded_in c closed b = record b { failure_count = 0 }
succeeded_in c opened b = b

unfoldable pub on_success : Thresholds → CircuitBreaker → CircuitBreaker
on_success c b = succeeded_in c b.state b

unfoldable pub reset : CircuitBreaker → CircuitBreaker
reset b = new_breaker

-- The steps of all callers, in the order in which they take the lock.
pub data Event : Type 0 where
  enters fails : ℕ → Event
  succeeds resets : Event

unfoldable pub step : Thresholds → Event → CircuitBreaker → CircuitBreaker
step c (enters now) b = (enter c now b).1
step c (fails now) b = on_failure c now b
step c succeeds b = on_success c b
step c resets b = reset b

unfoldable pub run : Thresholds → List Event → CircuitBreaker → CircuitBreaker
run c [] b = b
run c (e ∷ es) b = run c es (step c e b)
