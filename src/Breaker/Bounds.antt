-- ===== src/Breaker/Bounds.antt =====
-- The breaker's invariant over all interleavings (backend/app/utils/circuit_breaker.py).
use kaasb.Common.{
  ℕ, suc, ◌<◌, ◌≡◌, refl, sym, subst, leb, Bool-cases, inl, inr, true, is_some, List, [], ◌∷◌,
  arith,
}
use kaasb.Breaker.Circuit.{
  CircuitState, closed, opened, half_open, Thresholds, CircuitBreaker, maybe_attempt_reset, probe,
  has_elapsed, failed_in, count_failure, succeeded_in, count_success, enter, trip, on_failure,
  on_success, reset, Event, enters, fails, succeeds, resets, step, run,
}

-- What each state promises of the counters and of the time of the opening.
abbrev pub IsSoundIn : Thresholds → CircuitState → CircuitBreaker → Type 0
IsSoundIn c closed b = b.failure_count < c.failure_threshold
IsSoundIn c opened b = is_some b.opened_at ≡ true
IsSoundIn c half_open b = (is_some b.opened_at ≡ true) × (b.success_count < c.success_threshold)

abbrev pub IsSound : Thresholds → CircuitBreaker → Type 0
IsSound c b = IsSoundIn c b.state b

module _ (c : Thresholds) (failures : 0 < c.failure_threshold)
    (successes : 0 < c.success_threshold) where
  -- A state that is left as it is.
  kept : (s : CircuitState) (b : CircuitBreaker) → b.state ≡ s → IsSoundIn c s b → IsSound c b
  kept s b e h = subst (λ t. IsSoundIn c t b) (sym e) h

  probe-IsSound :
      (now : ℕ) (s : CircuitState) (b : CircuitBreaker)
      → b.state ≡ s
      → IsSoundIn c s b
      → IsSound c (probe c now s b)
  probe-IsSound now closed b e h = kept closed b e h
  probe-IsSound now half_open b e h = kept half_open b e h
  probe-IsSound now opened b e h = elim (Bool-cases (has_elapsed c now b.opened_at)) [
    | inl due ↦ rw due (h, successes)
    | inr early ↦ rw early (kept opened b e h)
  ]

  failed_in-IsSound :
      (now : ℕ) (s : CircuitState) (b : CircuitBreaker)
      → b.state ≡ s
      → IsSoundIn c s b
      → IsSound c (failed_in c now s (count_failure b))
  unfolding trip
  failed_in-IsSound now half_open b e h = refl
  failed_in-IsSound now opened b e h = kept opened (count_failure b) e h
  failed_in-IsSound now closed b e h =
      elim (Bool-cases (leb c.failure_threshold (suc b.failure_count))) [
        | inl reached ↦ rw reached refl
        | inr below ↦ rw below (kept closed (count_failure b) e (ground (arith, below)))
      ]

  succeeded_in-IsSound :
      (s : CircuitState) (b : CircuitBreaker)
      → b.state ≡ s
      → IsSoundIn c s b
      → IsSound c (succeeded_in c s b)
  succeeded_in-IsSound opened b e h = kept opened b e h
  succeeded_in-IsSound closed b e h = kept closed (record b { failure_count = 0 }) e failures
  succeeded_in-IsSound half_open b e h =
      elim (Bool-cases (leb c.success_threshold (suc b.success_count))) [
        | inl reached ↦ rw reached failures
        | inr below ↦ rw below (kept half_open (count_success b) e (h.0, ground (arith, below)))
      ]

  step-IsSound : (e : Event) (b : CircuitBreaker) → IsSound c b → IsSound c (step c e b)
  unfolding step enter maybe_attempt_reset on_failure on_success reset
  step-IsSound (enters now) b h = probe-IsSound now b.state b refl h
  step-IsSound (fails now) b h = failed_in-IsSound now b.state b refl h
  step-IsSound succeeds b h = succeeded_in-IsSound b.state b refl h
  step-IsSound resets b h = failures

  -- Through any interleaving of entries, outcomes and resets: while the breaker is closed, fewer
  -- failures than the threshold are counted; while it is open or half open, the time of its opening
  -- is known, and while it is half open, fewer successes than their threshold are counted. Both
  -- thresholds are positive and this held at first.
  pub run-IsSound : (es : List Event) (b : CircuitBreaker) → IsSound c b → IsSound c (run c es b)
  unfolding run
  run-IsSound [] b h = h
  run-IsSound (e ∷ es) b h = run-IsSound es (step c e b) (step-IsSound e b h)
