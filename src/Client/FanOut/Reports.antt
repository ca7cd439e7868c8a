-- ===== src/Client/FanOut/Reports.antt =====
-- The reports of the goroutines of a fan-out, read off their counts.
use rpcx.Base.{
  ◌+◌, ◌≤◌, ◌<◌, ◌≡◌, refl, ◌⊎◌, inl, inr, List, [], ◌∷◌, ◌++◌, Option, none, some, Bytes, Bool,
  true, false, length, arith, All,
}
use rpcx.Client.FailModes.{Error}
use rpcx.Client.FanOut.{calling, returned, reported, recorded, settled, Task, is_nil, timeout}
use rpcx.Client.FanOut.Counts.{
  weigh, failure, success, unreported, told_failed, told_ok, added, answered, count_of,
  count_of-append,
}

-- Every call has been reported, each as a success.
abbrev pub AllSucceeded : List Task → Type 0
AllSucceeded ts = All (λ (t : Task). told_ok t.2 ≡ 1) ts

-- Every call has been reported, each as a failure.
abbrev pub AllFailed : List Task → Type 0
AllFailed ts = All (λ (t : Task). told_failed t.2 ≡ 1) ts

-- A call has been reported as a failure, and its error is not in the list of errors.
abbrev pub ErrorIsMissing : List Task → Type 0
ErrorIsMissing [] = ⊥
ErrorIsMissing ((k, c, p) ∷ ts) = (added p < told_failed p) ⊎ ErrorIsMissing ts

pub all_succeeded :
    (ts : List Task) → weigh unreported ts ≡ 0 → weigh told_failed ts ≡ 0 → AllSucceeded ts
unfolding weigh
all_succeeded [] u f = tt
all_succeeded ((k, c, calling) ∷ ts) u f = absurd (omega arith)
all_succeeded ((k, c, returned r) ∷ ts) u f = absurd (omega arith)
all_succeeded ((k, c, reported none) ∷ ts) u f =
    (refl, all_succeeded ts (omega arith) (omega arith))
all_succeeded ((k, c, reported (some e)) ∷ ts) u f = absurd (omega arith)
all_succeeded ((k, c, recorded none) ∷ ts) u f =
    (refl, all_succeeded ts (omega arith) (omega arith))
all_succeeded ((k, c, recorded (some e)) ∷ ts) u f = absurd (omega arith)
all_succeeded ((k, c, settled none) ∷ ts) u f = (refl, all_succeeded ts (omega arith) (omega arith))
all_succeeded ((k, c, settled (some e)) ∷ ts) u f = absurd (omega arith)

pub all_failed : (ts : List Task) → weigh unreported ts ≡ 0 → weigh told_ok ts ≡ 0 → AllFailed ts
unfolding weigh
all_failed [] u f = tt
all_failed ((k, c, calling) ∷ ts) u f = absurd (omega arith)
all_failed ((k, c, returned r) ∷ ts) u f = absurd (omega arith)
all_failed ((k, c, reported none) ∷ ts) u f = absurd (omega arith)
all_failed ((k, c, reported (some e)) ∷ ts) u f = (refl, all_failed ts (omega arith) (omega arith))
all_failed ((k, c, recorded none) ∷ ts) u f = absurd (omega arith)
all_failed ((k, c, recorded (some e)) ∷ ts) u f = (refl, all_failed ts (omega arith) (omega arith))
all_failed ((k, c, settled none) ∷ ts) u f = absurd (omega arith)
all_failed ((k, c, settled (some e)) ∷ ts) u f = (refl, all_failed ts (omega arith) (omega arith))

pub error_missing : (ts : List Task) → weigh added ts < weigh told_failed ts → ErrorIsMissing ts
unfolding weigh
error_missing [] h = absurd (omega arith)
error_missing ((k, c, calling) ∷ ts) h = inr (error_missing ts (omega arith))
error_missing ((k, c, returned r) ∷ ts) h = inr (error_missing ts (omega arith))
error_missing ((k, c, reported none) ∷ ts) h = inr (error_missing ts (omega arith))
error_missing ((k, c, reported (some e)) ∷ ts) h = inl (omega arith)
error_missing ((k, c, recorded none) ∷ ts) h = inr (error_missing ts (omega arith))
error_missing ((k, c, recorded (some e)) ∷ ts) h = inr (error_missing ts (omega arith))
error_missing ((k, c, settled none) ∷ ts) h = inr (error_missing ts (omega arith))
error_missing ((k, c, settled (some e)) ∷ ts) h = inr (error_missing ts (omega arith))

pub told_ok-le-answered : (ts : List Task) → weigh told_ok ts ≤ weigh answered ts
unfolding weigh
told_ok-le-answered [] = omega arith
told_ok-le-answered ((k, c, calling) ∷ ts) = omega (arith, told_ok-le-answered ts)
told_ok-le-answered ((k, c, returned r) ∷ ts) = omega (arith, told_ok-le-answered ts)
told_ok-le-answered ((k, c, reported r) ∷ ts) = omega (arith, told_ok-le-answered ts)
told_ok-le-answered ((k, c, recorded r) ∷ ts) = omega (arith, told_ok-le-answered ts)
told_ok-le-answered ((k, c, settled r) ∷ ts) = omega (arith, told_ok-le-answered ts)

pub count_nil : (b : Bool) (l : List Bool) → length l ≡ 0 → count_of b l ≡ 0
unfolding count_of
count_nil b [] h = refl
count_nil b (c ∷ l) h = absurd (omega arith)

-- Every call has been reported.
abbrev pub AllReported : List Task → Type 0
AllReported ts = All (λ (t : Task). unreported t.2 ≡ 0) ts

pub all_reported : (ts : List Task) → AllReported ts → weigh unreported ts ≡ 0
unfolding weigh
all_reported [] h = refl
all_reported ((k, c, p) ∷ ts) (z, h) = omega (arith, all_reported ts h)

-- A timeout is an error.
pub returned_timeout :
    (errs : List Error) {rs qs : List Bytes}
    → ◌≡◌ {A = Option (List Error × List Bytes)} (some (errs ++ timeout ∷ [], rs)) (some ([], qs))
    → ⊥
returned_timeout [] h = cc
returned_timeout (e ∷ errs) h = cc

pub report_count :
    (l : List Bool) (r : Option Error)
    → (count_of false (l ++ is_nil r ∷ []) ≡ count_of false l + failure r)
      × (count_of true (l ++ is_nil r ∷ []) ≡ count_of true l + success r)
unfolding count_of
report_count l none = (count_of-append false l (true ∷ []), count_of-append true l (true ∷ []))
report_count l (some e) =
    (count_of-append false l (false ∷ []), count_of-append true l (false ∷ []))
