-- ===== src/Client/Selectors/Balance.antt =====
-- One step of `next`: the weights of the servers, of which `W` is the total, the number `t` of the
-- steps and the number `c i` of those that chose the `i`-th server make up its current weight.
use rpcx.Base.{
  ℕ, zero, suc, ◌+◌, ◌*◌, ◌^◌, ◌<◌, ◌≤◌, ◌≡◌, ◌⊎◌, refl, sym, ap, subst, inl, inr, arith, List, [],
  ◌∷◌, Bool, Bool-cases, ◌==◌, if◌then◌else◌,
}
use native.Mathlib.Nat.{suc-mul, mul-suc, mul-add, mul_comm, mul-le-mul}
use rpcx.Client.Selectors.{Weighted, int_sub, int_greater, grown, scan, lighten}
use rpcx.Client.Selectors.Ints.{
  Reps, Reps-int_add, Reps-int_sub, Reps-greater, Reps-not_greater, Reps-positive,
}

abbrev pub weights : List Weighted → ℕ
weights [] = 0
weights (w ∷ ws) = w.weight + weights ws

-- The counts of as many servers as the list has, from the `i`-th on.
abbrev pub counts : (ℕ → ℕ) → ℕ → List Weighted → ℕ
counts c i [] = 0
counts c i (w ∷ ws) = c i + counts c (suc i) ws

-- One more for the `f`-th.
abbrev pub bump : ℕ → (ℕ → ℕ) → ℕ → ℕ
bump f c j = (if j == f then 1 else 0) + c j

-- A server whose weight was added `a` times and that was chosen `k` times.
pub record Holds (W t a k : ℕ) (w : Weighted) : Type 0 where
  pub reps : Reps w.current_weight (a * w.weight) (W * k)
  pub above : W * k < t * w.weight + W
  pub few : k ≤ t
  pub light : w.weight ≤ W

abbrev pub AllHold : ℕ → ℕ → ℕ → (ℕ → ℕ) → ℕ → List Weighted → Type 0
AllHold W t a c i [] = Unit {0}
AllHold W t a c i (w ∷ ws) = Holds W t a (c i) w × AllHold W t a c (suc i) ws

-- The `f`-th server can be chosen: its grown weight is positive.
abbrev pub Positive : ℕ → ℕ → ℕ → (ℕ → ℕ) → ℕ → List Weighted → Type 0
Positive f W t c i [] = ⊥
Positive f W t c i (w ∷ ws) = ((f ≡ i) × (W * c i < suc t * w.weight)) ⊎ Positive f W t c (suc i) ws

-- No server has more than `n`.
abbrev Low : ℕ → ℕ → ℕ → (ℕ → ℕ) → ℕ → List Weighted → Type 0
Low n W t c i [] = Unit {0}
Low n W t c i (w ∷ ws) = (suc t * w.weight ≤ n + W * c i) × Low n W t c (suc i) ws

module _ (W t : ℕ) (c : ℕ → ℕ) (before : t < W) (fits : W * W ≤ 2 ^ 62) where
  grown-Holds : (k : ℕ) (w : Weighted) → Holds W t t k w → Holds W t (suc t) k (grown w)
  grown-Holds k w h =
      let most : suc t * w.weight ≤ W * W = mul-le-mul (omega arith) h.light in
      record {
        reps = rw (suc-mul t w.weight) (
            Reps-int_add w.current_weight (t * w.weight) (W * k) w.weight h.reps
              (omega (arith, most, suc-mul t w.weight)));
        above = h.above;
        few = h.few;
        light = h.light;
      }

  pub scan-AllHold :
      (ws : List Weighted) (i flag m : ℕ)
      → AllHold W t t c i ws
      → AllHold W t (suc t) c i (scan ws i flag m).0
  unfolding scan
  scan-AllHold [] i flag m a = tt
  scan-AllHold (w ∷ ws) i flag m (h, a) = (grown-Holds (c i) w h, scan-AllHold ws (suc i) _ _ a)

  pub weights-scan : (ws : List Weighted) (i flag m : ℕ) → weights (scan ws i flag m).0 ≡ weights ws
  unfolding scan
  weights-scan [] i flag m = refl
  weights-scan (w ∷ ws) i flag m = ap (λ k. w.weight + k) (weights-scan ws (suc i) _ _)

  Positive-scan :
      (ws : List Weighted) (i flag m f : ℕ)
      → Positive f W t c i ws
      → Positive f W t c i (scan ws i flag m).0
  unfolding scan
  Positive-scan [] i flag m f p = p
  Positive-scan (w ∷ ws) i flag m f (inl p) = inl p
  Positive-scan (w ∷ ws) i flag m f (inr p) = inr (Positive-scan ws (suc i) _ _ f p)

  -- The flag shows a positive weight, or is left where it was.
  abbrev Shown : List Weighted → ℕ → ℕ → ℕ → ℕ → Type 0
  Shown ws i flag n f = Positive f W t c i ws ⊎ ((f ≡ flag) × Low n W t c i ws)

  scan_flag :
      (ws : List Weighted) (i flag m n : ℕ)
      → AllHold W t t c i ws
      → Reps m n 0
      → Shown ws i flag n (scan ws i flag m).1
  unfolding scan
  scan_flag [] i flag m n a r = inr (refl, tt)
  scan_flag (w ∷ ws) i flag m n (h, a) r =
      let g = grown-Holds (c i) w h in
      let cw = (grown w).current_weight in
      let P = λ (b : Bool).
        Shown (w ∷ ws) i flag n (scan ws (suc i) (if b then i else flag) (if b then cw else m)).1 in
      elim (Bool-cases (int_greater cw m)) [
        | inl bigger ↦
            let positive : W * c i < suc t * w.weight =
              omega (arith, Reps-greater cw _ _ m n g.reps r bigger) in
            let top = Reps-positive cw _ _ g.reps positive in
            subst P (sym bigger) (elim (scan_flag ws (suc i) i cw _ a top) [
              | inl p ↦ inl (inr p)
              | inr (e, _) ↦ inl (inl (e, positive))
            ])
        | inr smaller ↦
            let low = Reps-not_greater cw _ _ m n g.reps r smaller in
            subst P (sym smaller) (elim (scan_flag ws (suc i) flag m n a r) [
              | inl p ↦ inl (inr p)
              | inr (e, l) ↦ inr (e, (low, l))
            ])
      ]

  -- Somebody's weight is positive.
  Low-sums :
      (ws : List Weighted) (i : ℕ) → Low 0 W t c i ws → suc t * weights ws ≤ W * counts c i ws
  Low-sums [] i l = omega arith
  Low-sums (w ∷ ws) i (h, l) = omega (
    arith,
    Low-sums ws (suc i) l,
    mul-add (suc t) w.weight (weights ws),
    mul-add W (c i) (counts c (suc i) ws),
  )

  pub scan-Positive :
      (ws : List Weighted)
      → AllHold W t t c 0 ws
      → weights ws ≡ W
      → counts c 0 ws ≡ t
      → let (ws1, f) = scan ws 0 0 0 in Positive f W t c 0 ws1
  scan-Positive ws a total steps =
      elim (scan_flag ws 0 0 0 0 a (record {
        word = omega arith;
        differ = inl refl;
        small_p = omega arith;
        small_q = omega arith;
      })) [
        | inl p ↦ Positive-scan ws 0 0 0 _ p
        | inr (_, l) ↦
            let sums : suc t * W ≤ W * t =
              subst (λ k. suc t * k ≤ W * t) total
                (subst (λ k. suc t * weights ws ≤ W * k) steps (Low-sums ws 0 l)) in
            absurd (omega (arith, sums, suc-mul t W, mul_comm W t))
      ]

  pub Positive-from : (ws : List Weighted) (i f : ℕ) → Positive f W t c i ws → i ≤ f
  Positive-from [] i f p = absurd p
  Positive-from (w ∷ ws) i f (inl (e, _)) = omega arith
  Positive-from (w ∷ ws) i f (inr p) = omega (arith, Positive-from ws (suc i) f p)

  other-Holds :
      (f i : ℕ) (w : Weighted)
      → bump f c i ≡ c i
      → Holds W t (suc t) (c i) w
      → Holds W (suc t) (suc t) (bump f c i) w
  other-Holds f i w same h = rw same (record {
    reps = h.reps;
    above = omega (arith, h.above, suc-mul t w.weight);
    few = omega (arith, h.few);
    light = h.light;
  })

  chosen-Holds :
      (f i : ℕ) (w : Weighted)
      → bump f c i ≡ suc (c i)
      → W * c i < suc t * w.weight
      → Holds W t (suc t) (c i) w
      → Holds W
          (suc t)
          (suc t)
          (bump f c i)
          (record w { current_weight = int_sub w.current_weight W })
  chosen-Holds f i w more positive h =
      let most : W * suc (c i) ≤ W * W = mul-le-mul (omega arith) (omega (arith, h.few)) in
      rw more (record {
        reps = rw (mul-suc W (c i)) (
            Reps-int_sub w.current_weight (suc t * w.weight) (W * c i) W h.reps
              (omega (arith, most, mul-suc W (c i))));
        above = omega (arith, mul-suc W (c i));
        few = omega (arith, h.few);
        light = h.light;
      })

  -- The servers that are not chosen.
  others-Hold :
      (ws : List Weighted) (i f : ℕ)
      → f < i
      → AllHold W t (suc t) c i ws
      → AllHold W (suc t) (suc t) (bump f c) i ws × (counts (bump f c) i ws ≡ counts c i ws)
  others-Hold [] i f less a = (tt, refl)
  others-Hold (w ∷ ws) i f less (h, a) =
      let same : bump f c i ≡ c i = ground arith in
      let (rest, sums) = others-Hold ws (suc i) f (omega arith) a in
      ((other-Holds f i w same h, rest), omega (arith, same, sums))

  pub lighten-Hold :
      (ws : List Weighted) (i k f : ℕ)
      → f ≡ i + k
      → AllHold W t (suc t) c i ws
      → Positive f W t c i ws
      → AllHold W (suc t) (suc t) (bump f c) i (lighten W k ws)
        × (counts (bump f c) i (lighten W k ws) ≡ suc (counts c i ws))
  unfolding lighten
  lighten-Hold [] i k f e a p = absurd p
  lighten-Hold (w ∷ ws) i zero f e (h, a) (inr p) =
      absurd (omega (arith, Positive-from ws (suc i) f p))
  lighten-Hold (w ∷ ws) i zero f e (h, a) (inl (_, positive)) =
      let more : bump f c i ≡ suc (c i) = ground arith in
      let (rest, sums) = others-Hold ws (suc i) f (omega arith) a in
      ((chosen-Holds f i w more positive h, rest), omega (arith, more, sums))
  lighten-Hold (w ∷ ws) i (suc k) f e (h, a) (inl (e', _)) = absurd (omega arith)
  lighten-Hold (w ∷ ws) i (suc k) f e (h, a) (inr p) =
      let same : bump f c i ≡ c i = ground arith in
      let (rest, sums) = lighten-Hold ws (suc i) k f (omega arith) a p in
      ((other-Holds f i w same h, rest), omega (arith, same, sums))

  pub weights-lighten : (k : ℕ) (ws : List Weighted) → weights (lighten W k ws) ≡ weights ws
  unfolding lighten
  weights-lighten k [] = refl
  weights-lighten zero (w ∷ ws) = refl
  weights-lighten (suc k) (w ∷ ws) = ap (λ n. w.weight + n) (weights-lighten k ws)

  pub counts-scan :
      (ws : List Weighted) (i flag m j : ℕ) → counts c j (scan ws i flag m).0 ≡ counts c j ws
  unfolding scan
  counts-scan [] i flag m j = refl
  counts-scan (w ∷ ws) i flag m j = ap (λ k. c j + k) (counts-scan ws (suc i) _ _ (suc j))
