-- ===== src/Client/FailModes/Attempts.antt =====
-- How often `Call` of the xclient calls a client, and when it stops at once.
use rpcx.Base.{
  ℕ, zero, suc, ◌+◌, ◌≤◌, ◌≡◌, refl, ap, arith, Option, none, some, Bytes, Bool, true, false, ◌||◌,
  if◌then◌else◌,
}
use rpcx.Client.FailModes.{
  Error, deadline_exceeded, canceled, service_error, xclient_shutdown, server_unavailable, other,
  XClient, ℤ, pos, rounds, FailMode, failover, failfast, failtry, Step, stops, goes_on,
  context_canceled, is_service_error, uncover_error, wrap_call, attempt, remove_uncovered, retry,
  try_same, try_other, call_once, call_mode, gives_up, call,
}
use rpcx.Client.FailModes.Results.{Outcome, behind, retry_step}

-- A count of the calls of clients in the state.
pub record Tally {W : Type 0} (x : XClient W) (calls : W → ℕ) : Type 0 where
  pub at_select : (w : W) → calls (x.select_client w).0 ≡ calls w
  pub at_get : (k : Bytes) (w : W) → calls (x.get_cached_client k w).0 ≡ calls w
  pub at_remove :
      (k : Bytes) (client : Option ℕ) (w : W) → calls (x.remove_client k client w) ≡ calls w
  pub at_call : (c : ℕ) (w : W) → calls (x.client_call c w).0 ≡ suc (calls w)

-- The most calls that a mode makes.
abbrev pub most_calls : FailMode → ℤ → ℕ
most_calls failfast retries = 1
most_calls failtry retries = rounds retries
most_calls failover retries = rounds retries

abbrev Next : Type 0 → Type 0
Next W = Bytes → W → W × Bytes × Option ℕ × Option Error

module _ {W : Type 0} (x : XClient W) where
  module _ (calls : W → ℕ) (t : Tally x calls) where
    abbrev state_of : Step W → W
    state_of (stops w r) = w
    state_of (goes_on w err) = w

    attempt_calls :
        (client : Option ℕ) (err : Option Error) (w : W)
        → calls (state_of (attempt x client err w)) ≤ calls w + 1
    unfolding attempt wrap_call
    attempt_calls none err w = omega arith
    attempt_calls (some c) err w = rw (go (x.client_call c w).1) (omega (arith, t.at_call c w))
      where
        either :
            (b : Bool) (e : Error)
            → state_of (
                if b
                then stops (x.client_call c w).0 (some e)
                else goes_on (x.client_call c w).0 (some e))
              ≡ (x.client_call c w).0
        either true e = refl
        either false e = refl

        go :
            (r : Option Error)
            → state_of (elim r [
              | none ↦ stops (x.client_call c w).0 none
              | some e ↦
                  if context_canceled e || is_service_error e
                  then stops (x.client_call c w).0 (some e)
                  else goes_on (x.client_call c w).0 (some e)
            ])
              ≡ (x.client_call c w).0
        go none = refl
        go (some f) = either (context_canceled f || is_service_error f) f

    remove_uncovered_calls :
        (k : Bytes) (client : Option ℕ) (err : Option Error) (w : W)
        → calls (remove_uncovered x k client err w) ≡ calls w
    unfolding remove_uncovered
    remove_uncovered_calls k client err w = ground (arith, t.at_remove k client w)

    abbrev LoopBound : Next W → ℕ → Type 0
    LoopBound next n =
        (k : Bytes) (client : Option ℕ) (err e : Option Error) (w : W)
        → calls (retry x next n k client err e w).0 ≤ calls w + n

    behind_calls :
        (next : Next W) (n : ℕ)
        → ((k : Bytes) (w : W) → calls (next k w).0 ≡ calls w)
        → LoopBound next n
        → (k : Bytes) (client : Option ℕ) (s : Step W)
        → calls (behind x next n k client s).0 ≤ calls (state_of s) + n
    behind_calls next n keeps loop k client (stops w r) = omega arith
    behind_calls next n keeps loop k client (goes_on w err) =
        let w1 = remove_uncovered x k client err w in
        let (w2, k2, client2, e2) = next k w1 in
        omega (arith, loop k2 client2 err e2 w2, keeps k w1, remove_uncovered_calls k client err w)

    retry-LoopBound :
        (next : Next W) (n : ℕ)
        → ((k : Bytes) (w : W) → calls (next k w).0 ≡ calls w)
        → LoopBound next n
    unfolding retry
    retry-LoopBound next zero keeps k client err e w = omega arith
    retry-LoopBound next (suc n) keeps k client err e w =
        rw (retry_step x next n k client err e w) (
          omega (
            arith,
            behind_calls next n keeps (retry-LoopBound next n keeps) k client
                (attempt x client err w),
            attempt_calls client err w,
          ))

    call_once_calls :
        (k : Bytes) (client : Option ℕ) (w : W) → calls (call_once x k client w).0 ≤ calls w + 1
    unfolding call_once wrap_call
    call_once_calls k none w =
        omega (arith, remove_uncovered_calls k none (some server_unavailable) w)
    call_once_calls k (some c) w = go (x.client_call c w).1
      where
        go :
            (r : Option Error)
            → calls
                (elim r as (λ _. Outcome W) [
                  | none ↦ ((x.client_call c w).0, none)
                  | some e ↦ (remove_uncovered x k (some c) (some e) (x.client_call c w).0, some e)
                ]).0
              ≤ calls w + 1
        go none = omega (arith, t.at_call c w)
        go (some f) =
            omega (
              arith,
              t.at_call c w,
              remove_uncovered_calls k (some c) (some f) (x.client_call c w).0,
            )

    call_mode_calls :
        (mode : FailMode) (retries : ℤ) (k : Bytes) (client : Option ℕ) (err : Option Error) (w : W)
        → calls (call_mode x mode retries k client err w).0 ≤ calls w + most_calls mode retries
    unfolding call_mode try_same try_other
    call_mode_calls failfast retries k client err w = call_once_calls k client w
    call_mode_calls failtry retries k client err w =
        retry-LoopBound (try_same x) (rounds retries) (λ k' w'. t.at_get k' w') k client err none w
    call_mode_calls failover retries k client err w =
        retry-LoopBound (try_other x) (rounds retries) (λ k' w'. t.at_select w') k client err none w

    -- `Call` calls clients once at most in the mode `Failfast`, and in the others as often as
    -- `Retries` says and once more at most; not at all where `Retries` is negative. Looking for a
    -- client, and removing one, must not call any.
    pub call_attempts :
        (is_shutdown : Bool) (mode : FailMode) (retries : ℤ) (w : W)
        → calls (call x is_shutdown mode retries w).0 ≤ calls w + most_calls mode retries
    unfolding call
    call_attempts true mode retries w = omega arith
    call_attempts false mode retries w = go (gives_up x mode (x.select_client w).3)
      where
        go :
            (b : Bool)
            → calls
                (if b
                  then ((x.select_client w).0, (x.select_client w).3)
                  else call_mode x mode retries
                      (x.select_client w).1
                      (x.select_client w).2
                      (x.select_client w).3
                      (x.select_client w).0).0
              ≤ calls w + most_calls mode retries
        go true = omega (arith, t.at_select w)
        go false = omega (
          arith,
          t.at_select w,
          call_mode_calls mode retries (x.select_client w).1 (x.select_client w).2
              (x.select_client w).3 (x.select_client w).0,
        )

  kept :
      (k : Bytes) (c : ℕ) (e : Error) (w : W)
      → context_canceled e || is_service_error e ≡ true
      → remove_uncovered x k (some c) (some e) w ≡ w
  unfolding remove_uncovered uncover_error context_canceled is_service_error
  kept k c deadline_exceeded w h = refl
  kept k c canceled w h = refl
  kept k c (service_error i) w h = refl
  kept k c xclient_shutdown w h = absurd cc
  kept k c server_unavailable w h = absurd cc
  kept k c (other i) w h = absurd cc

  call_once_stops :
      (k : Bytes) (c : ℕ) (e : Error) (w1 w2 : W)
      → x.client_call c w1 ≡ (w2, some e)
      → context_canceled e || is_service_error e ≡ true
      → call_once x k (some c) w1 ≡ (w2, some e)
  unfolding call_once wrap_call
  call_once_stops k c e w1 w2 r h =
      ground (arith, ap (λ p. p.0) r, ap (λ p. p.1) r, kept k c e w2 h)

  retry_stops :
      (next : Next W) (n : ℕ) (k : Bytes) (c : ℕ) (e : Error) (w1 w2 : W)
      → x.client_call c w1 ≡ (w2, some e)
      → context_canceled e || is_service_error e ≡ true
      → retry x next (suc n) k (some c) none none w1 ≡ (w2, some e)
  unfolding retry attempt wrap_call
  retry_stops next n k c e w1 w2 r h = ground (arith, ap (λ p. p.0) r, ap (λ p. p.1) r)

  -- In each of the three modes, an error of the service, or of the context, that the first client's
  -- call returns ends `Call`: it is the result, the client is not removed and no other is looked
  -- for. This needs that `Retries` is not negative.
  pub call_stops :
      (mode : FailMode) (n c : ℕ) (k : Bytes) (e : Error) (w w1 w2 : W)
      → x.select_client w ≡ (w1, k, some c, none)
      → x.client_call c w1 ≡ (w2, some e)
      → context_canceled e || is_service_error e ≡ true
      → call x false mode (pos n) w ≡ (w2, some e)
  unfolding call call_mode rounds gives_up
  call_stops failfast n c k e w w1 w2 s r h = rw (s, gives_up) (call_once_stops k c e w1 w2 r h)
  call_stops failtry n c k e w w1 w2 s r h =
      rw (s, gives_up) (retry_stops (try_same x) n k c e w1 w2 r h)
  call_stops failover n c k e w w1 w2 s r h =
      rw (s, gives_up) (retry_stops (try_other x) n k c e w1 w2 r h)
