-- ===== src/Client/Selectors/Rounds.antt =====
-- The turns of the round robin, and the updates of the weighted selector.
use rpcx.Base.{
  ℕ, zero, suc, ◌+◌, ◌%◌, ◌<◌, ◌≡◌, refl, sym, ap, ◌∙◌, arith, List, [], ◌∷◌, ◌++◌, length,
  get_elem?, Option, none, some, Bytes,
}
use native.Mathlib.Nat.{mod-add-mod, mod-lt}
use rpcx.Client.Selectors.{
  Choice, chosen, panics, RoundRobin, round_robin_select, Weighted, WeightedRoundRobin,
  weighted_select, weighted_update, new_weighted, build_ring, create_weighted, fill_ring,
}
use rpcx.Client.Selectors.Turns.{selects}

-- Consecutive calls of `Select`.
unfoldable pub turns : ℕ → RoundRobin → List Choice × RoundRobin
turns zero s = ([], s)
turns (suc n) s = let (c, s1) = round_robin_select s in let (cs, s2) = turns n s1 in (c ∷ cs, s2)

get_elem-some :
    (ss : List Bytes) (i : ℕ) → i < length ss → (name : Bytes) × (get_elem? ss i ≡ some name)
get_elem-some [] i h = absurd (omega arith)
get_elem-some (s ∷ ss) zero h = (s, refl)
get_elem-some (s ∷ ss) (suc i) h = get_elem-some ss i (omega arith)

turns_of :
    (n k : ℕ) (ss : List Bytes) (i : ℕ)
    → 0 < length ss
    → k < n
    → (name : Bytes) × (get_elem? ss ((i + k) % length ss) ≡ some name)
      × (get_elem? (turns n (record { servers = ss; i = i })).0 k ≡ some (chosen name))
unfolding turns round_robin_select
turns_of n k [] i pos less = absurd (omega arith)
turns_of zero k (s ∷ ss) i pos less = absurd (omega arith)
turns_of (suc n) zero (s ∷ ss) i pos less =
    let (name, e) = get_elem-some (s ∷ ss) (i % length (s ∷ ss)) (mod-lt i pos) in
    (
      name,
      ap (λ j. get_elem? (s ∷ ss) (j % length (s ∷ ss))) (let z : i + 0 ≡ i = omega arith in z) ∙ e,
      ap (λ (o : Option Bytes). some (elim o [ none ↦ panics | some x ↦ chosen x ])) e,
    )
turns_of (suc n) (suc k) (s ∷ ss) i pos less =
    let l = length (s ∷ ss) in
    let (name, e, t) = turns_of n k (s ∷ ss) (i % l + 1) pos (omega arith) in
    let same : (i + suc k) % l ≡ (i % l + 1 + k) % l =
      ap (λ j. j % l) (let z : i + suc k ≡ i + (1 + k) = omega arith in z)
      ∙ sym (mod-add-mod i l (1 + k))
      ∙ ap (λ j. j % l) (let z : i % l + (1 + k) ≡ i % l + 1 + k = omega arith in z) in
    (name, ap (get_elem? (s ∷ ss)) same ∙ e, t)

-- Of calls of `Select` that follow one another, the `k`-th chooses the server that stands `k`
-- places behind the selector's, around the end of the list, so that each server has its turn in as
-- many calls as there are servers; none of them panics. This needs a server.
pub round_robin_turns :
    (n k : ℕ) (s : RoundRobin)
    → 0 < length s.servers
    → k < n
    → (name : Bytes) × (get_elem? s.servers ((s.i + k) % length s.servers) ≡ some name)
      × (get_elem? (turns n s).0 k ≡ some (chosen name))
round_robin_turns n k s pos less = turns_of n k s.servers s.i pos less

selects_same :
    (n total : ℕ) (w v : Weighted) (ws vs : List Weighted) (rr : List (Option Bytes))
    → (selects n (record { servers = w ∷ ws; total = total; rr = rr })).0
      ≡ (selects n (record { servers = v ∷ vs; total = total; rr = rr })).0
unfolding selects weighted_select
selects_same zero total w v ws vs rr = refl
selects_same (suc n) total w v ws vs [] = ap (λ l. panics ∷ l) (selects_same n total w v ws vs [])
selects_same (suc n) total w v ws vs (none ∷ rr) =
    ap (λ l. panics ∷ l) (selects_same n total w v ws vs (rr ++ none ∷ []))
selects_same (suc n) total w v ws vs (some name ∷ rr) =
    ap (λ l. chosen name ∷ l) (selects_same n total w v ws vs (rr ++ some name ∷ []))

-- What the weighted selector chooses after an update does not depend on the new servers: any two
-- updates with a server in them are followed by the same choices, however many.
pub weighted_update_stale :
    (weight_of : Bytes → Option ℕ) (kv kv' : Bytes × Bytes) (m m' : List (Bytes × Bytes))
    (s : WeightedRoundRobin) (n : ℕ)
    → (selects n (weighted_update weight_of (kv ∷ m) s)).0
      ≡ (selects n (weighted_update weight_of (kv' ∷ m') s)).0
unfolding weighted_update create_weighted
weighted_update_stale weight_of (k, v) (k', v') m m' s n =
    selects_same n (build_ring s).total _ _ _ _ (build_ring s).rr

-- After the first update of a weighted selector that was made without servers, every call of
-- `Select` panics.
pub weighted_starts_empty :
    (weight_of : Bytes → Option ℕ) (kv : Bytes × Bytes) (m : List (Bytes × Bytes)) (n k : ℕ)
    → k < n
    → get_elem? (selects n (weighted_update weight_of (kv ∷ m) (new_weighted weight_of []))).0 k
      ≡ some panics
unfolding weighted_update create_weighted new_weighted build_ring fill_ring selects weighted_select
weighted_starts_empty weight_of (k', v) m zero k less = absurd (omega arith)
weighted_starts_empty weight_of (k', v) m (suc n) zero less = refl
weighted_starts_empty weight_of (k', v) m (suc n) (suc k) less =
    weighted_starts_empty weight_of (k', v) m n k (omega arith)
