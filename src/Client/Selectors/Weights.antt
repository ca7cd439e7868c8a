-- ===== src/Client/Selectors/Weights.antt =====
-- The ring of the weighted selector holds each server as often as its weight says.
use rpcx.Base.{
  ℕ, zero, suc, ◌+◌, ◌*◌, ◌^◌, ◌<◌, ◌≤◌, ◌≡◌, refl, sym, ap, subst, ◌∙◌, inl, arith, List, [], ◌∷◌,
  Bool, false, ◌==◌, if◌then◌else◌, Option, none, some,
}
use native.Mathlib.Nat.{zero-mul, mul-zero, mul-suc, lt_of_mul-lt-mul_left}
use rpcx.Client.Selectors.{Weighted, scan, lighten, next, fill_ring}
use rpcx.Client.Selectors.Balance.{
  weights, counts, bump, Holds, AllHold, scan-AllHold, weights-scan, scan-Positive, lighten-Hold,
  weights-lighten, counts-scan,
}

-- How often a place of the servers stands in a ring.
abbrev pub is_place : ℕ → Option ℕ → Bool
is_place j none = false
is_place j (some i) = j == i

abbrev pub occurrences : ℕ → List (Option ℕ) → ℕ
occurrences j [] = 0
occurrences j (v ∷ vs) = (if is_place j v then 1 else 0) + occurrences j vs

-- From the `i`-th server on, each stands in the ring as often as its weight says.
abbrev pub Shares : List (Option ℕ) → ℕ → List Weighted → Type 0
Shares vs i [] = Unit {0}
Shares vs i (w ∷ ws) = (occurrences i vs ≡ w.weight) × Shares vs (suc i) ws

abbrev pub IsFresh : List Weighted → Type 0
IsFresh [] = Unit {0}
IsFresh (w ∷ ws) = (w.current_weight ≡ 0) × IsFresh ws

-- The state of the servers after `t` of the steps.
record Balanced (W t : ℕ) (c : ℕ → ℕ) (ws : List Weighted) : Type 0 where
  hold : AllHold W t t c 0 ws
  total : weights ws ≡ W
  steps : counts c 0 ws ≡ t

abbrev weights_of : List Weighted → List ℕ
weights_of [] = []
weights_of (w ∷ ws) = w.weight ∷ weights_of ws

weights_of-scan :
    (ws : List Weighted) (i flag m : ℕ) → weights_of (scan ws i flag m).0 ≡ weights_of ws
unfolding scan
weights_of-scan [] i flag m = refl
weights_of-scan (w ∷ ws) i flag m = ap (λ l. w.weight ∷ l) (weights_of-scan ws (suc i) _ _)

weights_of-lighten : (W k : ℕ) (ws : List Weighted) → weights_of (lighten W k ws) ≡ weights_of ws
unfolding lighten
weights_of-lighten W k [] = refl
weights_of-lighten W zero (w ∷ ws) = refl
weights_of-lighten W (suc k) (w ∷ ws) = ap (λ l. w.weight ∷ l) (weights_of-lighten W k ws)

-- Two servers at least.
abbrev Two : List Weighted → Type 0
Two [] = ⊥
Two (w ∷ []) = ⊥
Two (w ∷ v ∷ ws) = Unit {0}

Two-lighten : (W k : ℕ) (ws : List Weighted) → Two ws → Two (lighten W k ws)
unfolding lighten
Two-lighten W k [] h = h
Two-lighten W k (w ∷ []) h = absurd h
Two-lighten W zero (w ∷ v ∷ ws) h = tt
Two-lighten W (suc zero) (w ∷ v ∷ ws) h = tt
Two-lighten W (suc (suc k)) (w ∷ v ∷ ws) h = tt

counts-zero : (i : ℕ) (ws : List Weighted) → counts (λ _. 0) i ws ≡ 0
counts-zero i [] = refl
counts-zero i (w ∷ ws) = omega (arith, counts-zero (suc i) ws)

count_le : (W : ℕ) (c : ℕ → ℕ) (i : ℕ) (w : Weighted) → Holds W W W (c i) w → c i ≤ w.weight
count_le W c i w h =
    let less : W * c i < W * suc w.weight = omega (arith, h.above, mul-suc W w.weight) in
    omega (arith, lt_of_mul-lt-mul_left W less)

module _ (W : ℕ) (fits : W * W ≤ 2 ^ 62) where
  next-Balanced :
      (t : ℕ) (c : ℕ → ℕ) (w v : Weighted) (ws : List Weighted)
      → t < W
      → Balanced W t c (w ∷ v ∷ ws)
      → let (grown_all, f) = scan (w ∷ v ∷ ws) 0 0 0 in
        Balanced W (suc t) (bump f c) (lighten W f grown_all)
  next-Balanced t c w v ws before b =
      let all = w ∷ v ∷ ws in
      let (grown_all, f) = scan all 0 0 0 in
      let a = scan-AllHold W t c before fits all 0 0 0 b.hold in
      let p = scan-Positive W t c before fits all b.hold b.total b.steps in
      let same = weights-scan W t c before fits all 0 0 0 in
      let (h, s) = lighten-Hold W t c before fits grown_all 0 f f (omega arith) a p in
      record {
        hold = h;
        total = weights-lighten W t c before fits f grown_all ∙ same ∙ b.total;
        steps = s ∙ ap suc (counts-scan W t c before fits all 0 0 0 0 ∙ b.steps);
      }

  -- What the ring holds after `n` rounds, from the state after `t`.
  record Filled (n t : ℕ) (c : ℕ → ℕ) (ws : List Weighted) (vs : List (Option ℕ)) : Type 0 where
    chosen : ℕ → ℕ
    left : List Weighted
    balanced : Balanced W (n + t) chosen left
    counted : (j : ℕ) → occurrences j vs + c j ≡ chosen j
    same_weights : weights_of left ≡ weights_of ws

  fill_ring-Filled :
      (n t : ℕ) (c : ℕ → ℕ) (ws : List Weighted)
      → Two ws
      → n + t ≤ W
      → Balanced W t c ws
      → Filled n t c ws (fill_ring W n ws).0
  unfolding fill_ring next
  fill_ring-Filled n t c [] two le b = absurd two
  fill_ring-Filled n t c (w ∷ []) two le b = absurd two
  fill_ring-Filled zero t c (w ∷ v ∷ ws) two le b = record {
    chosen = c;
    left = w ∷ v ∷ ws;
    balanced = subst (λ k. Balanced W k c (w ∷ v ∷ ws)) (omega arith) b;
    counted = λ j. omega arith;
    same_weights = refl;
  }
  fill_ring-Filled (suc n) t c (w ∷ v ∷ ws) two le b =
      let all = w ∷ v ∷ ws in
      let (grown_all, f) = scan all 0 0 0 in
      let r =
        fill_ring-Filled n (suc t) (bump f c) (lighten W f grown_all)
          (Two-lighten W f grown_all (unfold scan in tt)) (omega arith)
          (next-Balanced t c w v ws (omega arith) b) in
      record {
        chosen = r.chosen;
        left = r.left;
        balanced = subst (λ k. Balanced W k r.chosen r.left) (omega arith) r.balanced;
        counted = λ j. omega (arith, r.counted j);
        same_weights =
            r.same_weights ∙ weights_of-lighten W f grown_all ∙ weights_of-scan all 0 0 0;
      }

  start-AllHold :
      (ws : List Weighted) (i : ℕ)
      → 0 < W
      → weights ws ≤ W
      → IsFresh ws
      → AllHold W 0 0 (λ _. 0) i ws
  start-AllHold [] i pos le fresh = tt
  start-AllHold (w ∷ ws) i pos le (zero_now, fresh) = (
    record {
      reps =
          rw (zero_now, zero-mul, mul-zero)
            (record {
              word = omega arith;
              differ = inl refl;
              small_p = omega arith;
              small_q = omega arith;
            });
      above = omega (arith, zero-mul w.weight, mul-zero W);
      few = omega arith;
      light = omega arith;
    },
    start-AllHold ws (suc i) pos (omega arith) fresh,
  )

  AllHold-counts :
      (c : ℕ → ℕ) (i : ℕ) (ws : List Weighted) → AllHold W W W c i ws → counts c i ws ≤ weights ws
  AllHold-counts c i [] a = omega arith
  AllHold-counts c i (w ∷ ws) (h, a) =
      omega (arith, count_le W c i w h, AllHold-counts c (suc i) ws a)

  AllHold-Shares :
      (c : ℕ → ℕ) (vs : List (Option ℕ)) (i : ℕ) (ws : List Weighted)
      → ((j : ℕ) → occurrences j vs ≡ c j)
      → AllHold W W W c i ws
      → counts c i ws ≡ weights ws
      → Shares vs i ws
  AllHold-Shares c vs i [] same a e = tt
  AllHold-Shares c vs i (w ∷ ws) same (h, a) e =
      let le = count_le W c i w h in
      let sums = AllHold-counts c (suc i) ws a in
      (omega (arith, same i), AllHold-Shares c vs (suc i) ws same a (omega arith))

Shares-weights_of :
    (vs : List (Option ℕ)) (i : ℕ) (ws ws2 : List Weighted)
    → weights_of ws2 ≡ weights_of ws
    → Shares vs i ws2
    → Shares vs i ws
Shares-weights_of vs i [] [] e s = tt
Shares-weights_of vs i [] (v ∷ ws2) e s = cc
Shares-weights_of vs i (w ∷ ws) [] e s = cc
Shares-weights_of vs i (w ∷ ws) (v ∷ ws2) e (h, s) =
    let same : v.weight ≡ w.weight = cc in
    let rest : weights_of ws2 ≡ weights_of ws = cc in
    (h ∙ same, Shares-weights_of vs (suc i) ws ws2 rest s)

one_server : (W n : ℕ) (w : Weighted) → occurrences 0 (fill_ring W n (w ∷ [])).0 ≡ n
unfolding fill_ring next
one_server W zero w = refl
one_server W (suc n) w = omega (arith, one_server W n w)

-- The ring that is filled from fresh servers, in as many rounds as their weights make together,
-- holds each server as often as its weight says. This needs a positive total whose square is at
-- most 2^62.
pub fill_ring-Shares :
    (ws : List Weighted)
    → IsFresh ws
    → 0 < weights ws
    → weights ws * weights ws ≤ 2 ^ 62
    → Shares (fill_ring (weights ws) (weights ws) ws).0 0 ws
fill_ring-Shares [] fresh pos fits = tt
fill_ring-Shares (w ∷ []) fresh pos fits = (one_server (weights (w ∷ [])) _ w ∙ omega arith, tt)
fill_ring-Shares (w ∷ v ∷ ws) fresh pos fits =
    let all = w ∷ v ∷ ws in
    let W = weights all in
    let vs = (fill_ring W W all).0 in
    let b : Balanced W 0 (λ _. 0) all = record {
      hold = start-AllHold W fits all 0 pos (omega arith) fresh;
      total = refl;
      steps = counts-zero 0 all;
    } in
    let r = fill_ring-Filled W fits W 0 (λ _. 0) all tt (omega arith) b in
    let done =
      subst (λ k. Balanced W k r.chosen r.left) (let e : W + 0 ≡ W = omega arith in e) r.balanced in
    Shares-weights_of vs 0 all r.left r.same_weights (
      AllHold-Shares W fits r.chosen vs 0 r.left (λ j. omega (arith, r.counted j)) done.hold
        (done.steps ∙ sym done.total))
