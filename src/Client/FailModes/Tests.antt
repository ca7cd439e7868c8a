-- ===== src/Client/FailModes/Tests.antt =====
-- Runs of the theorems on `Call` of the xclient.
use rpcx.Base.{ℕ, zero, suc, ◌+◌, ◌≤◌, ◌≡◌, ◌≢◌, refl, ◌⊎◌, inl, Option, none, some, bytes, false}
use rpcx.Client.FailModes.{
  Error, service_error, other, XClient, pos, rounds, failover, failtry, call, gives_up, call_mode,
  retry, attempt, wrap_call, context_canceled, is_service_error, try_other, remove_uncovered,
  uncover_error,
}
use rpcx.Client.FailModes.Raw.{Fails, send_raw, send_raw_hides_errors}
use rpcx.Client.FailModes.Results.{call_success}
use rpcx.Client.FailModes.Attempts.{Tally, call_attempts, call_stops}

-- The state: how many calls there were, and the error of the last.
abbrev World : Type 0
World = ℕ × Option Error

-- The second call succeeds, the others do not.
abbrev answers : ℕ → Option Error
answers (suc zero) = none
answers n = some (other n)

abbrev second_succeeds : XClient World
second_succeeds = record {
  select_client = λ w. (w, bytes "k", some 1, none);
  get_cached_client = λ k w. (w, some 1, none);
  remove_client = λ k c w. w;
  client_call = λ c w. ((suc w.0, answers w.0), answers w.0);
}

-- The last call succeeded.
abbrev Succeeded : World → Type 0
Succeeded w = w.1 ≡ none

always_selects :
    (w : World)
    → ((second_succeeds.select_client w).2 ≢ none) ⊎ ((second_succeeds.select_client w).3 ≢ none)
always_selects w = inl (λ p. cc)

call_success_example : Succeeded (call second_succeeds false failover (pos 3) (0, none)).0
unfolding call gives_up call_mode retry rounds attempt wrap_call context_canceled is_service_error
    try_other remove_uncovered uncover_error
call_success_example =
    call_success second_succeeds Succeeded (λ c w p. p) always_selects false failover 3 (0, none)
      refl

second_succeeds-Tally : Tally second_succeeds (λ w. w.0)
second_succeeds-Tally = record {
  at_select = λ w. refl;
  at_get = λ k w. refl;
  at_remove = λ k c w. refl;
  at_call = λ c w. refl;
}

call_attempts_run : (call second_succeeds false failtry (pos 3) (0, none)).0.0 ≤ 0 + 4
unfolding rounds
call_attempts_run =
    call_attempts second_succeeds (λ w. w.0) second_succeeds-Tally false failtry (pos 3) (0, none)

-- Each call fails in the service.
abbrev refusing : XClient World
refusing = record second_succeeds { client_call = λ c w. ((suc w.0, none), some (service_error 5)) }

call_stops_run :
    call refusing false failover (pos 3) (0, none) ≡ ((1, none), some (service_error 5))
unfolding context_canceled is_service_error
call_stops_run =
    call_stops refusing failover 3 1 (bytes "k") (service_error 5) (0, none) (0, none) (1, none)
      refl refl refl

-- Each raw call fails with a nil reply, 0.
abbrev no_reply : ℕ
no_reply = 0

abbrev raw_fails : ℕ → World → World × ℕ × Option Error
raw_fails c w = (w, no_reply, some (other 1))

-- No such error ends the loop.
send-Fails : (c : ℕ) (w : World) → Fails second_succeeds no_reply raw_fails c w
unfolding context_canceled is_service_error
send-Fails c w = (other 1, refl, refl)

send_raw_hides_errors_example :
    (send_raw second_succeeds no_reply raw_fails false failover (pos 2) (0, none)).2 ≡ none
send_raw_hides_errors_example =
    send_raw_hides_errors second_succeeds no_reply raw_fails send-Fails (λ w. refl) (λ k w. refl)
      failover (pos 2) (0, none)
