-- ===== src/Client/Breaker.antt =====
-- `ConsecCircuitBreaker` of client/circuit_breaker.go. Times are nanoseconds since the epoch, read
-- from the clock at each `time.Now`; durations are not negative.
use rpcx.Base.{
  ℕ, ◌+◌, ◌-◌, ◌%◌, ◌^◌, ◌≤◌, ◌<◌, ◌≡◌, ◌∙◌, arith, List, [], ◌∷◌, Option, none, some, Bool, true,
  false, ◌||◌, not, ltb, ◌==◌, length, if◌then◌else◌,
}

pub record Breaker : Type 0 where
  pub last_failure_time : ℕ
  pub failures : ℕ
  pub failure_threshold : ℕ
  pub window : ℕ

unfoldable pub new_breaker : ℕ → ℕ → Breaker
new_breaker threshold window = record {
  last_failure_time = 0;
  failures = 0;
  failure_threshold = threshold;
  window = window;
}

unfoldable pub reset : Breaker → ℕ → Breaker
reset cb now = record cb { failures = 0; last_failure_time = now }

unfoldable pub success : Breaker → ℕ → Breaker
success cb now = reset cb now

unfoldable pub fail : Breaker → ℕ → Breaker
fail cb now = record cb { failures = (cb.failures + 1) % 2 ^ 64; last_failure_time = now }

-- `since` is the time that `time.Since` reads, `now` the one that `reset` reads.
unfoldable pub ready : Breaker → ℕ → ℕ → Breaker × Bool
ready cb since now =
    if ltb cb.window (since - cb.last_failure_time)
    then (reset cb now, true)
    else (cb, ltb cb.failures cb.failure_threshold)

pub data BreakerError : Type 0 where
  open_breaker timeout : BreakerError
  call_failed : ℕ → BreakerError

-- What the function does: it returns, with an error or none, or not within `d`.
pub data Answer : Type 0 where
  answered : Option ℕ → Answer
  late : Option ℕ → Answer

-- With `d == 0` the caller waits for a late answer too.
unfoldable pub outcome : ℕ → Answer → Option BreakerError
outcome d (answered none) = none
outcome d (answered (some e)) = some (call_failed e)
outcome d (late none) = if d == 0 then none else some timeout
outcome d (late (some e)) = if d == 0 then some (call_failed e) else some timeout

-- `Call`: the breaker, the error, and whether the function was started.
unfoldable pub call : Breaker → ℕ → Answer → ℕ → ℕ → ℕ → Breaker × Option BreakerError × Bool
call cb d answer since now later =
    let (cb', admitted) = ready cb since now in
    if admitted
    then elim (outcome d answer) [
      | none ↦ (success cb' later, none, true)
      | some e ↦ (fail cb' later, some e, true)
    ]
    else (cb', some open_breaker, false)

-- Failures at the given times, one after the other.
unfoldable pub fails : Breaker → List ℕ → Breaker
fails cb [] = cb
fails cb (t ∷ ts) = fails (fail cb t) ts

abbrev last : ℕ → List ℕ → ℕ
last d [] = d
last d (t ∷ ts) = last t ts

fails_state :
    (cb : Breaker) (ts : List ℕ)
    → cb.failures + length ts < 2 ^ 64
    → fails cb ts ≡ record cb {
      failures = cb.failures + length ts;
      last_failure_time = last cb.last_failure_time ts;
    }
unfolding fails fail
fails_state cb [] h = ground arith
fails_state cb (t ∷ ts) h = fails_state (fail cb t) ts (omega arith) ∙ ground arith

-- After consecutive failures, and within the window of the last one, the breaker is open exactly
-- when there were as many as the threshold; the test changes nothing.
pub ready-fails :
    (cb : Breaker) (t : ℕ) (ts : List ℕ) (since now : ℕ)
    → cb.failures ≡ 0
    → length (t ∷ ts) < 2 ^ 64
    → since ≤ last t ts + cb.window
    → ready (fails cb (t ∷ ts)) since now
      ≡ (fails cb (t ∷ ts), ltb (length (t ∷ ts)) cb.failure_threshold)
unfolding ready
ready-fails cb t ts since now zero_failures fits within =
    rw (fails_state cb (t ∷ ts) (omega arith)) (ground arith)

-- A call is let through when the count is below the threshold, or when the window of the last
-- failure has passed, after which the count starts again. A call that is let through returns what
-- the function did: success clears the count, an error or a timeout adds one to it. Any other call
-- returns the breaker's error, does not start the function and changes nothing; no call changes the
-- threshold or the window.
pub call_lem :
    (cb : Breaker) (d : ℕ) (answer : Answer) (since now later : ℕ)
    → cb.failure_threshold < 2 ^ 64
    → let r = call cb d answer since now later in
      let passed = ltb (cb.last_failure_time + cb.window) since in
      let started = passed || ltb cb.failures cb.failure_threshold in
      let result = outcome d answer in
      (r.2 ≡ started)
      × (r.1 ≡ (if started then result else some open_breaker))
      × (r.0.last_failure_time ≡ (if started then later else cb.last_failure_time))
      × (r.0.failures ≡ (
          if not started
          then cb.failures
          else elim result [ none ↦ 0 | some _ ↦ (if passed then 0 else cb.failures) + 1 ]))
      × (r.0.failure_threshold ≡ cb.failure_threshold)
      × (r.0.window ≡ cb.window)
unfolding call ready reset success fail
call_lem cb d answer since now later small =
    (ground arith, ground arith, ground arith, ground arith, ground arith, ground arith)
