-- ===== src/Client/FanOut/Broadcast.antt =====
-- What it means that `Broadcast` returned nil.
use rpcx.Base.{
  Bool, ℕ, ◌∙◌, ◌-◌, ◌≡◌, refl, ◌⊎◌, inl, inr, List, [], none, some, Bytes, true, false, ◌==◌,
  length, arith, ap, Bool-cases,
}
use rpcx.Client.FailModes.{XClient, wrap_call}
use rpcx.Client.FanOut.{
  broadcast, calling, returned, reported, recorded, settled, Fan, verdict, receive, time_out,
  launch, call_returns, report, record_result, settle, Step, returns, reports, records, settles,
  receives, times_out, Run, here, next,
}
use rpcx.Client.FanOut.Reports.{
  AllSucceeded, ErrorIsMissing, all_succeeded, error_missing, count_nil, returned_timeout,
  report_count,
}
use rpcx.Client.FanOut.Counts.{weigh, weigh_step, told_failed, count_of, launch-weigh, Run-Counted}

-- A report leaves the channel in its order, and none is lost before the loop has returned.
record Broadcasting {W : Type 0} (s : Fan W) : Type 0 where
  heard : s.outcome ≡ none → weigh told_failed s.tasks ≡ count_of false s.done

module _ {W : Type 0} (x : XClient W) where
  Step-Broadcasting : {s t : Fan W} → Step x broadcast s t → Broadcasting s → Broadcasting t
  unfolding call_returns report record_result settle receive time_out verdict count_of
  Step-Broadcasting (returns {s} us vs k c e) h =
      let r = (wrap_call x (some c) s.world).1 in
      record {
        heard =
            λ o. omega (arith, h.heard o, weigh_step told_failed us vs k c calling (returned r) e);
      }
  Step-Broadcasting (reports {s} us vs k c r e) h = record {
    heard = λ o. omega (
      arith,
      h.heard o,
      (report_count s.done r).0,
      weigh_step told_failed us vs k c (returned r) (reported r) e,
    );
  }
  Step-Broadcasting (records {s} us vs k c none e) h = record {
    heard = λ o.
        omega
          (arith, h.heard o, weigh_step told_failed us vs k c (reported none) (recorded none) e);
  }
  Step-Broadcasting (records {s} us vs k c (some r) e) h = record {
    heard = λ o. omega (
      arith,
      h.heard o,
      weigh_step told_failed us vs k c (reported (some r)) (recorded (some r)) e,
    );
  }
  Step-Broadcasting (settles {s} us vs k c r e) h = record {
    heard =
        λ o. omega (arith, h.heard o, weigh_step told_failed us vs k c (recorded r) (settled r) e);
  }
  Step-Broadcasting (receives {s} true rest running e) h = record {
    heard = λ o. h.heard running ∙ ap (count_of false) e;
  }
  Step-Broadcasting (receives {s} false rest running e) h = record { heard = λ o. ground arith }
  Step-Broadcasting (times_out {s} running) h = record { heard = λ o. cc }

  module _ (wants : Bool) (clients : List (Bytes × ℕ)) (w : W) where
    Run-Broadcasting : {s : Fan W} → Run x broadcast (launch wants clients w) s → Broadcasting s
    unfolding launch count_of
    Run-Broadcasting here = record { heard = λ o. launch-weigh x told_failed wants clients w refl }
    Run-Broadcasting (next r st) = Step-Broadcasting st (Run-Broadcasting r)

    -- A run of `Broadcast` returns nil only where each call has been reported as a success, or
    -- where a call has been reported as a failure and its error is not in the list yet.
    pub broadcast_nil :
        {s t : Fan W} {rs : List Bytes}
        → Run x broadcast (launch wants clients w) s
        → s.outcome ≡ none
        → Step x broadcast s t
        → t.outcome ≡ some ([], rs)
        → AllSucceeded t.tasks ⊎ ErrorIsMissing t.tasks
    unfolding receive time_out verdict count_of call_returns report record_result settle
    broadcast_nil run running (returns us vs k c e) o = cc
    broadcast_nil run running (reports us vs k c r e) o = cc
    broadcast_nil run running (records us vs k c none e) o = cc
    broadcast_nil run running (records us vs k c (some r) e) o = cc
    broadcast_nil run running (settles us vs k c r e) o = cc
    broadcast_nil {s} run running (receives true rest _ e) o =
        let h = (Run-Broadcasting run).heard running in
        let l = (Run-Counted x broadcast wants clients w run).left_eq in
        elim (Bool-cases (s.left - 1 == 0)) [
          | inl z ↦
              let n : length rest ≡ 0 = ground (arith, ap length e) in
              inl (
                all_succeeded s.tasks (ground (arith, ap length e))
                  (h ∙ ap (count_of false) e ∙ count_nil false rest n))
          | inr z ↦ absurd (ground arith)
        ]
    broadcast_nil {s} run running (receives false rest _ e) o =
        let h = (Run-Broadcasting run).heard running ∙ ap (count_of false) e in
        inr (
          error_missing s.tasks
            (ground (arith, (Run-Counted x broadcast wants clients w run).added_le)))
    broadcast_nil {s} run running (times_out _) o = absurd (returned_timeout s.errors o)
