-- ===== src/Client/Selectors/Ints.antt =====
-- An int that stands for the difference of two numbers.
use rpcx.Base.{ℕ, ◌+◌, ◌-◌, ◌^◌, ◌<◌, ◌≤◌, ◌≡◌, ◌⊎◌, arith, true, false}
use rpcx.Client.Selectors.{int_add, int_sub, int_greater}

-- The int `z` is `p - q`, and both are far from the ends of the ints.
pub record Reps (z p q : ℕ) : Type 0 where
  pub word : z < 2 ^ 64
  pub differ : (z + q ≡ p) ⊎ (z + q ≡ p + 2 ^ 64)
  pub small_p : p ≤ 2 ^ 62
  pub small_q : q ≤ 2 ^ 62

pub Reps-int_add : (z p q w : ℕ) → Reps z p q → p + w ≤ 2 ^ 62 → Reps (int_add z w) (p + w) q
Reps-int_add z p q w r small =
    let d = r.differ in
    let a = r.word in
    let b = r.small_q in
    record { word = omega arith; differ = ground arith; small_p = small; small_q = b }

pub Reps-int_sub : (z p q w : ℕ) → Reps z p q → q + w ≤ 2 ^ 62 → Reps (int_sub z w) p (q + w)
Reps-int_sub z p q w r small =
    let d = r.differ in
    let a = r.word in
    let b = r.small_p in
    record { word = omega arith; differ = ground arith; small_p = b; small_q = small }

pub Reps-greater : (z p q m n : ℕ) → Reps z p q → Reps m n 0 → int_greater z m ≡ true → n + q < p
Reps-greater z p q m n r s h =
    let d = r.differ in
    let a = r.word in
    let b = r.small_p in
    let c = r.small_q in let d' = s.differ in let a' = s.word in let b' = s.small_p in ground arith

pub Reps-not_greater :
    (z p q m n : ℕ) → Reps z p q → Reps m n 0 → int_greater z m ≡ false → p ≤ n + q
Reps-not_greater z p q m n r s h =
    let d = r.differ in
    let a = r.word in
    let b = r.small_p in
    let c = r.small_q in let d' = s.differ in let a' = s.word in let b' = s.small_p in ground arith

pub Reps-positive : (z p q : ℕ) → Reps z p q → q < p → Reps z (p - q) 0
Reps-positive z p q r h =
    let d = r.differ in
    let a = r.word in
    let b = r.small_p in
    record { word = a; differ = ground arith; small_p = omega arith; small_q = omega arith }
