-- ===== src/Client/FanOut/Counts.antt =====
-- Goroutines of a fan-out by their phases, and the count of those that have yet to report.
use rpcx.Base.{
  ℕ, suc, ◌+◌, ◌≤◌, ◌≡◌, refl, List, [], ◌∷◌, ◌++◌, Option, none, some, Bytes, Bool, true, false,
  length, length-append, arith, ap,
}
use rpcx.Client.FailModes.{Error, XClient, wrap_call}
use rpcx.Client.FanOut.{
  Kind, Phase, calling, returned, reported, recorded, settled, Task, Fan, is_nil, timeout, receive,
  time_out, launch, call_returns, report, record_result, settle, Step, returns, reports, records,
  settles, receives, times_out, Run, here, next, Run, here, next,
}

-- The sum of a weight over the goroutines.
unfoldable pub weigh : (Phase → ℕ) → List Task → ℕ
weigh f [] = 0
weigh f ((k, c, p) ∷ ts) = f p + weigh f ts

weigh-append : (f : Phase → ℕ) (us vs : List Task) → weigh f (us ++ vs) ≡ weigh f us + weigh f vs
unfolding weigh
weigh-append f [] vs = omega arith
weigh-append f ((k, c, p) ∷ us) vs = omega (arith, weigh-append f us vs)

-- One goroutine changes its phase.
pub weigh_step :
    (f : Phase → ℕ) (us vs : List Task) {ts : List Task} (k : Bytes) (c : ℕ) (p q : Phase)
    → ts ≡ us ++ (k, c, p) ∷ vs
    → weigh f (us ++ (k, c, q) ∷ vs) + f p ≡ weigh f ts + f q
unfolding weigh
weigh_step f us vs k c p q e =
    rw e (omega (arith, weigh-append f us ((k, c, p) ∷ vs), weigh-append f us ((k, c, q) ∷ vs)))

abbrev pub failure : Option Error → ℕ
failure none = 0
failure (some e) = 1

abbrev pub success : Option Error → ℕ
success none = 1
success (some e) = 0

-- Goroutines that have yet to report.
abbrev pub unreported : Phase → ℕ
unreported calling = 1
unreported (returned r) = 1
unreported (reported r) = 0
unreported (recorded r) = 0
unreported (settled r) = 0

-- Goroutines that have reported a failure, or a success.
abbrev pub told_failed : Phase → ℕ
told_failed calling = 0
told_failed (returned r) = 0
told_failed (reported r) = failure r
told_failed (recorded r) = failure r
told_failed (settled r) = failure r

abbrev pub told_ok : Phase → ℕ
told_ok calling = 0
told_ok (returned r) = 0
told_ok (reported r) = success r
told_ok (recorded r) = success r
told_ok (settled r) = success r

-- Goroutines whose error was added.
abbrev pub added : Phase → ℕ
added calling = 0
added (returned r) = 0
added (reported r) = 0
added (recorded r) = failure r
added (settled r) = failure r

-- Goroutines whose call returned nil.
abbrev pub answered : Phase → ℕ
answered calling = 0
answered (returned r) = success r
answered (reported r) = success r
answered (recorded r) = success r
answered (settled r) = success r

unfoldable pub count_of : Bool → List Bool → ℕ
count_of b [] = 0
count_of true (true ∷ l) = suc (count_of true l)
count_of true (false ∷ l) = count_of true l
count_of false (true ∷ l) = count_of false l
count_of false (false ∷ l) = suc (count_of false l)

pub count_of-append :
    (b : Bool) (l m : List Bool) → count_of b (l ++ m) ≡ count_of b l + count_of b m
unfolding count_of
count_of-append b [] m = omega arith
count_of-append true (true ∷ l) m = omega (arith, count_of-append true l m)
count_of-append true (false ∷ l) m = count_of-append true l m
count_of-append false (true ∷ l) m = count_of-append false l m
count_of-append false (false ∷ l) m = omega (arith, count_of-append false l m)

-- Every goroutine that has not reported is counted in `l` or waits in the channel, and each error of
-- a goroutine that is past its section is in the list.
pub record Counted {W : Type 0} (s : Fan W) : Type 0 where
  pub left_eq : s.left ≡ weigh unreported s.tasks + length s.done
  pub added_le : weigh added s.tasks ≤ length s.errors

module _ {W : Type 0} (x : XClient W) where
  pub launch-weigh :
      (f : Phase → ℕ) (wants : Bool) (clients : List (Bytes × ℕ)) (w : W)
      → f calling ≡ 0
      → weigh f (launch wants clients w).tasks ≡ 0
  unfolding launch weigh
  launch-weigh f wants [] w z = refl
  launch-weigh f wants ((k, c) ∷ cs) w z = omega (arith, launch-weigh f wants cs w z)

  launch-unreported :
      (wants : Bool) (clients : List (Bytes × ℕ)) (w : W)
      → weigh unreported (launch wants clients w).tasks ≡ length clients
  unfolding launch weigh
  launch-unreported wants [] w = refl
  launch-unreported wants ((k, c) ∷ cs) w = omega (arith, launch-unreported wants cs w)

  pub launch-Counted :
      (wants : Bool) (clients : List (Bytes × ℕ)) (w : W) → Counted (launch wants clients w)
  launch-Counted wants clients w = record {
    left_eq = unfold launch in omega (arith, launch-unreported wants clients w);
    added_le = unfold launch in omega (arith, launch-weigh added wants clients w refl);
  }

  pub Step-Counted : (kind : Kind) {s t : Fan W} → Step x kind s t → Counted s → Counted t
  unfolding call_returns report record_result settle receive time_out
  Step-Counted kind (returns {s} us vs k c e) h =
      let r = (wrap_call x (some c) s.world).1 in
      record {
        left_eq = omega (arith, h.left_eq, weigh_step unreported us vs k c calling (returned r) e);
        added_le = omega (arith, h.added_le, weigh_step added us vs k c calling (returned r) e);
      }
  Step-Counted kind (reports {s} us vs k c r e) h = record {
    left_eq = omega (
      arith,
      h.left_eq,
      length-append s.done (is_nil r ∷ []),
      weigh_step unreported us vs k c (returned r) (reported r) e,
    );
    added_le = omega (arith, h.added_le, weigh_step added us vs k c (returned r) (reported r) e);
  }
  Step-Counted kind (records {s} us vs k c none e) h = record {
    left_eq =
        omega (arith, h.left_eq, weigh_step unreported us vs k c (reported none) (recorded none) e);
    added_le =
        omega (arith, h.added_le, weigh_step added us vs k c (reported none) (recorded none) e);
  }
  Step-Counted kind (records {s} us vs k c (some r) e) h = record {
    left_eq = omega (
      arith,
      h.left_eq,
      weigh_step unreported us vs k c (reported (some r)) (recorded (some r)) e,
    );
    added_le = omega (
      arith,
      h.added_le,
      length-append s.errors (r ∷ []),
      weigh_step added us vs k c (reported (some r)) (recorded (some r)) e,
    );
  }
  Step-Counted kind (settles {s} us vs k c r e) h = record {
    left_eq = omega (arith, h.left_eq, weigh_step unreported us vs k c (recorded r) (settled r) e);
    added_le = omega (arith, h.added_le, weigh_step added us vs k c (recorded r) (settled r) e);
  }
  Step-Counted kind (receives {s} b rest running e) h = record {
    left_eq = omega (arith, h.left_eq, ap length e);
    added_le = h.added_le;
  }
  Step-Counted kind (times_out {s} running) h = record {
    left_eq = h.left_eq;
    added_le = omega (arith, h.added_le, length-append s.errors (timeout ∷ []));
  }

  pub Run-Counted :
      (kind : Kind) (wants : Bool) (clients : List (Bytes × ℕ)) (w : W) {s : Fan W}
      → Run x kind (launch wants clients w) s
      → Counted s
  Run-Counted kind wants clients w here = launch-Counted wants clients w
  Run-Counted kind wants clients w (next r st) =
      Step-Counted kind st (Run-Counted kind wants clients w r)
