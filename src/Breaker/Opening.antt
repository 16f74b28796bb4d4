-- ===== src/Breaker/Opening.antt =====
-- When the breaker refuses calls, and when it admits them (backend/app/utils/circuit_breaker.py).
use kaasb.Common.{
  ℕ, suc, ◌+◌, ◌-◌, ◌≤◌, ◌<◌, ◌≡◌, refl, sym, ap, subst, ◌∙◌, leb, Bool, Bool-cases, inl, inr, true,
  false, Option, some, List, [], ◌∷◌, All, map, length, arith,
}
use kaasb.Breaker.Circuit.{
  closed, opened, half_open, Thresholds, CircuitBreaker, maybe_attempt_reset, probe, has_elapsed,
  opened_or_zero, admission, admitted, refused, failed_in, count_failure, succeeded_in, enter, trip,
  on_failure, on_success, Event, enters, fails, succeeds, resets, step, run,
}

-- An event before `t` that is no manual reset.
abbrev pub IsBefore : ℕ → Event → Type 0
IsBefore t (enters now) = now < t
IsBefore t (fails now) = now < t
IsBefore t succeeds = Unit {0}
IsBefore t resets = ◌≡◌ {A = Bool} true false

abbrev IsOpenAt : ℕ → CircuitBreaker → Type 0
IsOpenAt t b = (b.state ≡ opened) × (b.opened_at ≡ some t)

not_elapsed :
    (c : Thresholds) (t now : ℕ) (o : Option ℕ)
    → o ≡ some t
    → now < t + c.recovery_timeout
    → has_elapsed c now o ≡ false
not_elapsed c t now o e early = ap (has_elapsed c now) e ∙ ground (arith, early)

half_open-run :
    (c : Thresholds) (ts : List ℕ) (b : CircuitBreaker)
    → b.state ≡ half_open
    → run c (map enters ts) b ≡ b
unfolding run step enter maybe_attempt_reset
half_open-run c [] b e = refl
half_open-run c (t ∷ ts) b e =
    ap (λ s. run c (map enters ts) (probe c t s b)) e ∙ half_open-run c ts b e

half_open-admits :
    (c : Thresholds) (ts : List ℕ) (later : ℕ) (b : CircuitBreaker)
    → b.state ≡ half_open
    → (enter c later (run c (map enters ts) b)).0 ≡ admitted
unfolding enter maybe_attempt_reset
half_open-admits c ts later b e =
    ap (λ x. (enter c later x).0) (half_open-run c ts b e)
    ∙ ap (λ s. admission c later (probe c later s b).state (probe c later s b)) e
    ∙ ap (λ s. admission c later s b) e

module _ (c : Thresholds) (t : ℕ) where
  -- While the timeout runs, an entry changes nothing.
  enter-IsOpenAt :
      (now : ℕ) (b : CircuitBreaker)
      → now < t + c.recovery_timeout
      → IsOpenAt t b
      → maybe_attempt_reset c now b ≡ b
  unfolding maybe_attempt_reset
  enter-IsOpenAt now b early o =
      ap (λ s. probe c now s b) o.0 ∙ rw (not_elapsed c t now b.opened_at o.1 early) refl

  step-IsOpenAt :
      (e : Event) (b : CircuitBreaker)
      → IsBefore (t + c.recovery_timeout) e
      → IsOpenAt t b
      → IsOpenAt t (step c e b)
  unfolding step enter on_failure on_success
  step-IsOpenAt (enters now) b early o = subst (IsOpenAt t) (sym (enter-IsOpenAt now b early o)) o
  step-IsOpenAt (fails now) b early o =
      let same : on_failure c now b ≡ count_failure b =
        ap (λ s. failed_in c now s (count_failure b)) o.0 in
      subst (IsOpenAt t) (sym same) o
  step-IsOpenAt succeeds b early o =
      let same : on_success c b ≡ b = ap (λ s. succeeded_in c s b) o.0 in
      subst (IsOpenAt t) (sym same) o
  step-IsOpenAt resets b early o = absurd (cc)

  run-IsOpenAt :
      (es : List Event) (b : CircuitBreaker)
      → All (IsBefore (t + c.recovery_timeout)) es
      → IsOpenAt t b
      → IsOpenAt t (run c es b)
  unfolding run
  run-IsOpenAt [] b early o = o
  run-IsOpenAt (e ∷ es) b early o =
      run-IsOpenAt es (step c e b) early.1 (step-IsOpenAt e b early.0 o)

  -- A breaker that opened at `t` refuses every call until the timeout has elapsed, whatever the
  -- calls admitted before do in the meantime, unless it is reset by hand; the error names the time
  -- that is left.
  pub run-refuses :
      (es : List Event) (b : CircuitBreaker) (now : ℕ)
      → (b.state ≡ opened) × (b.opened_at ≡ some t)
      → All (IsBefore (t + c.recovery_timeout)) es
      → now < t + c.recovery_timeout
      → (enter c now (run c es b)).0 ≡ refused (t + c.recovery_timeout - now)
  unfolding enter
  run-refuses es b now o early soon =
      let b' = run c es b in
      let o' = run-IsOpenAt es b early o in
      ap (λ x. admission c now x.state x) (enter-IsOpenAt now b' soon o')
      ∙ ap (λ s. admission c now s b') o'.0
      ∙ ap (λ x. refused (opened_or_zero x + c.recovery_timeout - now)) o'.1

  -- Once the timeout has elapsed the next call is admitted as a probe, and so is every further
  -- call, however many there are, until one of them ends.
  pub enter-probes :
      (b : CircuitBreaker) (now later : ℕ) (ts : List ℕ)
      → (b.state ≡ opened) × (b.opened_at ≡ some t)
      → t + c.recovery_timeout ≤ now
      → ((enter c now b).0 ≡ admitted)
        × ((enter c later (run c (map enters ts) (enter c now b).1)).0 ≡ admitted)
  unfolding enter maybe_attempt_reset
  enter-probes b now later ts o due =
      let elapsed : has_elapsed c now b.opened_at ≡ true =
        ap (has_elapsed c now) o.1 ∙ ground (arith, due) in
      let b' : CircuitBreaker = record b { state = half_open; success_count = 0 } in
      let half : maybe_attempt_reset c now b ≡ b' =
        ap (λ s. probe c now s b) o.0 ∙ rw elapsed refl in
      (
        ap (λ x. admission c now x.state x) half,
        ap (λ x. (enter c later (run c (map enters ts) x)).0) half
            ∙ half_open-admits c ts later b' refl,
      )

module _ (c : Thresholds) where
  opened-run :
      (ts : List ℕ) (b : CircuitBreaker)
      → b.state ≡ opened
      → (run c (map fails ts) b).state ≡ opened
  unfolding run step on_failure
  opened-run [] b e = e
  opened-run (t ∷ ts) b e =
      ap (λ s. (run c (map fails ts) (failed_in c t s (count_failure b))).state) e
      ∙ opened-run ts (count_failure b) e

  -- Failures in a row open a closed breaker once they bring its count to the threshold.
  pub fails-open :
      (ts : List ℕ) (b : CircuitBreaker)
      → b.state ≡ closed
      → b.failure_count < c.failure_threshold
      → c.failure_threshold ≤ b.failure_count + length ts
      → (run c (map fails ts) b).state ≡ opened
  unfolding run step on_failure trip
  fails-open [] b e below enough = absurd (omega (arith, below, enough))
  fails-open (t ∷ ts) b e below enough =
      ap (λ s. (run c (map fails ts) (failed_in c t s (count_failure b))).state) e
      ∙ elim (Bool-cases (leb c.failure_threshold (suc b.failure_count))) [
        | inl reached ↦ rw reached (opened-run ts (trip t (count_failure b)) refl)
        | inr short ↦
            rw short
              (fails-open ts (count_failure b) e (ground (arith, short)) (omega (arith, enough)))
      ]
