-- ===== src/Client/FanOut/Progress.antt =====
-- The loop of a fan-out does not wait for a report that never comes.
use rpcx.Base.{
  ℕ, ◌-◌, ◌<◌, ◌≡◌, ◌≢◌, refl, List, [], ◌∷◌, none, some, Bytes, Bool, length, arith, ap,
}
use rpcx.Client.FailModes.{Error, XClient}
use rpcx.Client.FanOut.{
  Kind, broadcast, fork, inform, Fan, verdict, receive, time_out, launch, call_returns, report,
  record_result, settle, Step, returns, reports, records, settles, receives, times_out, Run, here,
  next,
}
use rpcx.Client.FanOut.Reports.{AllReported, all_reported}
use rpcx.Client.FanOut.Counts.{Run-Counted}

-- `l` is above 0 as long as the loop goes on.
abbrev Waiting : {W : Type 0} → Fan W → Type 0
Waiting s = s.outcome ≡ none → 0 < s.left

verdict_goes_on :
    (kind : Kind) (b : Bool) (l : ℕ) (errs : List Error) (rs : List Bytes)
    → verdict kind b l errs rs ≡ none
    → 0 < l
unfolding verdict
verdict_goes_on broadcast b l errs rs h = ground arith
verdict_goes_on fork b l errs rs h = ground arith
verdict_goes_on inform b l errs rs h = ground arith

module _ {W : Type 0} (x : XClient W) (kind : Kind) where
  Step-Waiting : {s t : Fan W} → Step x kind s t → Waiting s → Waiting t
  unfolding call_returns report record_result settle receive time_out
  Step-Waiting (returns us vs k c e) h = h
  Step-Waiting (reports us vs k c r e) h = h
  Step-Waiting (records us vs k c none e) h = h
  Step-Waiting (records us vs k c (some f) e) h = h
  Step-Waiting (settles us vs k c r e) h = h
  Step-Waiting (receives {s} b rest running e) h =
      verdict_goes_on kind b (s.left - 1) s.errors s.receipts
  Step-Waiting (times_out running) h = λ o. cc

  module _ (wants : Bool) (clients : List (Bytes × ℕ)) (w : W) where
    Run-Waiting : {s : Fan W} → clients ≢ [] → Run x kind (launch wants clients w) s → Waiting s
    Run-Waiting some_client here = first clients some_client
      where
        first : (cs : List (Bytes × ℕ)) → cs ≢ [] → Waiting (launch wants cs w)
        first [] h = λ o. absurd (h refl)
        first (c ∷ cs) h = λ o. unfold launch in omega arith
    Run-Waiting some_client (next r st) = Step-Waiting st (Run-Waiting some_client r)

    -- In each run of `Broadcast`, `Fork` or `Inform` with a client, where the function has not
    -- returned and every call has been reported, a report is in the channel: without the timer the
    -- loop waits only for calls.
    pub loop_can_receive :
        {s : Fan W}
        → clients ≢ []
        → Run x kind (launch wants clients w) s
        → s.outcome ≡ none
        → AllReported s.tasks
        → s.done ≢ []
    loop_can_receive {s} some_client r running all = λ e. absurd (
        omega (
          arith,
          Run-Waiting some_client r running,
          (Run-Counted x kind wants clients w r).left_eq,
          all_reported s.tasks all,
          ap length e,
        ))
