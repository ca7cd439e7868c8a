-- ===== src/Client/FanOut/Fork.antt =====
-- What it means that `Fork` returned nil.
use rpcx.Base.{
  ℕ, ◌+◌, ◌∙◌, ◌-◌, ◌≤◌, ◌≡◌, ◌≢◌, refl, sym, ◌⊎◌, inl, inr, List, [], ◌∷◌, ◌++◌, Option, none,
  some, Bytes, true, false, ◌==◌, length, arith, ap, Bool-cases,
}
use rpcx.Client.FailModes.{Error, XClient, wrap_call}
use rpcx.Client.FanOut.{
  fork, Phase, calling, returned, reported, recorded, settled, Task, Fan, set_once, reply_at_return,
  reply_at_record, verdict, receive, time_out, launch, call_returns, report, record_result, settle,
  Step, returns, reports, records, settles, receives, times_out, Run, here, next,
}
use rpcx.Client.FanOut.Reports.{
  AllFailed, ErrorIsMissing, all_failed, error_missing, told_ok-le-answered, count_nil,
  returned_timeout, report_count,
}
use rpcx.Client.FanOut.Counts.{
  weigh, weigh_step, unreported, told_failed, told_ok, answered, count_of, launch-weigh,
  Run-Counted,
}

abbrev is_set : Option Bytes → ℕ
is_set none = 0
is_set (some k) = 1

unset : (reply : Option Bytes) → is_set reply ≡ 1 → reply ≢ none
unset none z = absurd (omega arith)
unset (some k) z = λ p. cc

record Forking {W : Type 0} (s : Fan W) : Type 0 where
  heard : s.outcome ≡ none → weigh told_ok s.tasks ≡ count_of true s.done
  failures : count_of false s.done ≤ weigh told_failed s.tasks
  wants : s.wants_reply ≡ true
  written : (weigh answered s.tasks ≡ 0) ⊎ (is_set s.reply ≡ 1)

module _ {W : Type 0} (x : XClient W) where
  -- A goroutine that has no answer yet sets the reply where it gets one.
  written_once :
      (us vs : List Task) {ts : List Task} (k : Bytes) (c : ℕ) (r : Option Error)
      (reply : Option Bytes)
      → ts ≡ us ++ (k, c, calling) ∷ vs
      → (weigh answered ts ≡ 0) ⊎ (is_set reply ≡ 1)
      → (weigh answered (us ++ (k, c, returned r) ∷ vs) ≡ 0) ⊎ (is_set (set_once k r reply) ≡ 1)
  unfolding set_once
  written_once us vs k c none none e h = inr refl
  written_once us vs k c none (some j) e h = inr refl
  written_once us vs k c (some f) none e (inl z) =
      inl (omega (arith, weigh_step answered us vs k c calling (returned (some f)) e))
  written_once us vs k c (some f) none e (inr z) = absurd (omega arith)
  written_once us vs k c (some f) (some j) e h = inr refl

  written_as :
      (ts us : List Task) (reply : Option Bytes)
      → weigh answered us ≡ weigh answered ts
      → (weigh answered ts ≡ 0) ⊎ (is_set reply ≡ 1)
      → (weigh answered us ≡ 0) ⊎ (is_set reply ≡ 1)
  written_as ts us reply e (inl z) = inl (e ∙ z)
  written_as ts us reply e (inr o) = inr o

  -- A goroutine goes on, and a report may go into the channel.
  moved :
      {s t : Fan W} (us vs : List Task) (k : Bytes) (c : ℕ) (p q : Phase)
      → s.tasks ≡ us ++ (k, c, p) ∷ vs
      → t.tasks ≡ us ++ (k, c, q) ∷ vs
      → t.outcome ≡ s.outcome
      → t.reply ≡ s.reply
      → t.wants_reply ≡ s.wants_reply
      → answered q ≡ answered p
      → told_ok q + count_of true s.done ≡ told_ok p + count_of true t.done
      → told_failed q + count_of false s.done ≡ told_failed p + count_of false t.done
      → Forking s
      → Forking t
  moved {s} {t} us vs k c p q e e' o y wi a ok bad h = record {
    wants = wi ∙ h.wants;
    heard = λ n. rw e' (omega (arith, h.heard (sym o ∙ n), weigh_step told_ok us vs k c p q e));
    failures = rw e' (omega (arith, h.failures, weigh_step told_failed us vs k c p q e));
    written =
        rw (e', y)
          (written_as s.tasks (us ++ (k, c, q) ∷ vs) s.reply
            (omega (arith, weigh_step answered us vs k c p q e)) h.written);
  }

  Step-Forking : {s t : Fan W} → Step x fork s t → Forking s → Forking t
  unfolding call_returns report record_result settle receive time_out verdict count_of
      reply_at_return reply_at_record
  Step-Forking (returns {s} us vs k c e) h =
      let r = (wrap_call x (some c) s.world).1 in
      record {
        heard = λ o. omega (arith, h.heard o, weigh_step told_ok us vs k c calling (returned r) e);
        failures =
            omega (arith, h.failures, weigh_step told_failed us vs k c calling (returned r) e);
        wants = h.wants;
        written = rw h.wants (written_once us vs k c r s.reply e h.written);
      }
  Step-Forking (reports {s} us vs k c r e) h =
      let n = report_count s.done r in
      moved us vs k c (returned r) (reported r) e refl refl refl refl refl (omega arith)
        (omega arith) h
  Step-Forking (records us vs k c none e) h =
      moved us vs k c (reported none) (recorded none) e refl refl refl refl refl refl refl h
  Step-Forking (records us vs k c (some r) e) h =
      moved us vs k c (reported (some r)) (recorded (some r)) e refl refl refl refl refl refl refl h
  Step-Forking (settles us vs k c r e) h =
      moved us vs k c (recorded r) (settled r) e refl refl refl refl refl refl refl h
  Step-Forking (receives {s} true rest running e) h = record {
    heard = λ o. cc;
    failures = omega (arith, h.failures, ap (count_of false) e);
    wants = h.wants;
    written = h.written;
  }
  Step-Forking (receives {s} false rest running e) h = record {
    heard = λ o. h.heard running ∙ ap (count_of true) e;
    failures = omega (arith, h.failures, ap (count_of false) e);
    wants = h.wants;
    written = h.written;
  }
  Step-Forking (times_out {s} running) h = record {
    heard = λ o. cc;
    failures = h.failures;
    wants = h.wants;
    written = h.written;
  }

  module _ (clients : List (Bytes × ℕ)) (w : W) where
    Run-Forking : {s : Fan W} → Run x fork (launch true clients w) s → Forking s
    unfolding launch count_of
    Run-Forking here = record {
      heard = λ o. launch-weigh x told_ok true clients w refl;
      failures = omega arith;
      wants = refl;
      written = inl (launch-weigh x answered true clients w refl);
    }
    Run-Forking (next r st) = Step-Forking st (Run-Forking r)

    -- A run of `Fork` with a reply that is not nil returns nil only where the reply is set, or where
    -- each call has been reported as a failure and the error of one of them is not in the list yet.
    pub fork_nil :
        {s t : Fan W} {rs : List Bytes}
        → Run x fork (launch true clients w) s
        → s.outcome ≡ none
        → Step x fork s t
        → t.outcome ≡ some ([], rs)
        → (t.reply ≢ none) ⊎ (AllFailed t.tasks × ErrorIsMissing t.tasks)
    unfolding receive time_out verdict count_of call_returns report record_result settle
    fork_nil run running (returns us vs k c e) o = cc
    fork_nil run running (reports us vs k c r e) o = cc
    fork_nil run running (records us vs k c none e) o = cc
    fork_nil run running (records us vs k c (some r) e) o = cc
    fork_nil run running (settles us vs k c r e) o = cc
    fork_nil {s} run running (receives true rest _ e) o =
        let f = Run-Forking run in
        let h = f.heard running ∙ ap (count_of true) e in
        elim f.written [
          | inl z ↦ absurd (omega (arith, told_ok-le-answered s.tasks))
          | inr z ↦ inl (λ p. unset s.reply z p)
        ]
    fork_nil {s} run running (receives false rest _ e) o =
        let f = Run-Forking run in
        let h = f.heard running ∙ ap (count_of true) e in
        let c = Run-Counted x fork true clients w run in
        elim (Bool-cases (s.left - 1 == 0)) [
          | inl z ↦
              let n : length rest ≡ 0 = ground (arith, c.left_eq, ap length e) in
              let u : weigh unreported s.tasks ≡ 0 = ground (arith, c.left_eq, ap length e) in
              let g = h ∙ count_nil true rest n in
              inr (
                all_failed s.tasks u g,
                error_missing s.tasks
                    (ground (arith, c.added_le, f.failures, ap (count_of false) e)),
              )
          | inr z ↦ absurd (ground arith)
        ]
    fork_nil {s} run running (times_out _) o = absurd (returned_timeout s.errors o)
