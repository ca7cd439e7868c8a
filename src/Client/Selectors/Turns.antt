-- ===== src/Client/Selectors/Turns.antt =====
-- What a caller gets from consecutive calls of `Select`.
use rpcx.Base.{
  ℕ, zero, suc, ◌+◌, ◌*◌, ◌^◌, ◌<◌, ◌≤◌, ◌≡◌, ◌≢◌, refl, sym, ap, subst, ◌∙◌, arith, List, [], ◌∷◌,
  ◌++◌, append_assoc, append-nil, Bool, true, false, ◌==◌, length, length-append, map, All,
  if◌then◌else◌, Option, none, some, Bytes, bytes_eq, bytes_eq→eq, bytes_eq_refl, Bool-cases, inl,
  inr,
}
use native.Mathlib.Nat.{le-mul_of_pos_right}
use rpcx.Base.Dict.{lookup, Distinct, bytes_eq_inst, bytes_eq_iff}
use rpcx.Client.Selectors.{
  Choice, chosen, panics, Weighted, WeightedRoundRobin, weighted_select, server_at, next, fill_ring,
  build_ring, create_weighted, new_weighted, total_weight, int_greater, scan, lighten,
}
use rpcx.Client.Selectors.Balance.{weights}
use rpcx.Client.Selectors.Weights.{occurrences, Shares, IsFresh, fill_ring-Shares}

-- Consecutive calls of `Select`, and what each returned.
unfoldable pub selects : ℕ → WeightedRoundRobin → List Choice × WeightedRoundRobin
selects zero s = ([], s)
selects (suc n) s = let (c, s1) = weighted_select s in let (cs, s2) = selects n s1 in (c ∷ cs, s2)

abbrev pub is_chosen : Bytes → Choice → Bool
is_chosen name (chosen s) = bytes_eq name s
is_chosen name panics = false

abbrev pub times : Bytes → List Choice → ℕ
times name [] = 0
times name (c ∷ cs) = (if is_chosen name c then 1 else 0) + times name cs

abbrev choice_of : Option Bytes → Choice
choice_of none = panics
choice_of (some name) = chosen name

abbrev IsFilled : List Weighted → Type 0
IsFilled [] = ⊥
IsFilled (w ∷ ws) = Unit {0}

selects-rr :
    (servers : List Weighted) (total : ℕ) (vs post : List (Option Bytes))
    → IsFilled servers
    → (selects (length vs) (record { servers = servers; total = total; rr = vs ++ post })).0
      ≡ map choice_of vs
unfolding selects weighted_select
selects-rr [] total vs post f = absurd f
selects-rr (w ∷ ws) total [] post f = refl
selects-rr (w ∷ ws) total (none ∷ vs) post f =
    ap (λ l. panics ∷ l)
      (ap (λ l. (selects (length vs) (record { servers = w ∷ ws; total = total; rr = l })).0)
          (append_assoc vs post (none ∷ []))
        ∙ selects-rr (w ∷ ws) total vs (post ++ none ∷ []) f)
selects-rr (w ∷ ws) total (some v ∷ vs) post f =
    ap (λ l. chosen v ∷ l)
      (ap (λ l. (selects (length vs) (record { servers = w ∷ ws; total = total; rr = l })).0)
          (append_assoc vs post (some v ∷ []))
        ∙ selects-rr (w ∷ ws) total vs (post ++ some v ∷ []) f)

-- No two servers have the same name.
abbrev NamesDiffer : List Weighted → Type 0
NamesDiffer [] = Unit {0}
NamesDiffer (w ∷ ws) = All (λ (v : Weighted). w.server ≢ v.server) ws × NamesDiffer ws

differ : (a b : Bytes) → a ≢ b → bytes_eq a b ≡ false
differ a b h = elim (Bool-cases (bytes_eq a b)) [
  | inl e ↦ absurd (h (bytes_eq→eq a b e))
  | inr e ↦ e
]

All-middle :
    (P : Weighted → Type 0) (pre : List Weighted) (w : Weighted) (post : List Weighted)
    → All P (pre ++ w ∷ post)
    → P w
All-middle P [] w post (h, a) = h
All-middle P (x ∷ pre) w post (h, a) = All-middle P pre w post a

absent_name :
    (name : Bytes) (ws : List Weighted) (v : ℕ)
    → All (λ (w : Weighted). name ≢ w.server) ws
    → is_chosen name (choice_of (server_at ws (some v))) ≡ false
absent_name name [] v a = refl
absent_name name (w ∷ ws) zero (h, a) = differ name w.server h
absent_name name (w ∷ ws) (suc v) (h, a) = absent_name name ws v a

name_at :
    (pre : List Weighted) (w : Weighted) (post : List Weighted) (v : ℕ)
    → NamesDiffer (pre ++ w ∷ post)
    → is_chosen w.server (choice_of (server_at (pre ++ w ∷ post) (some v))) ≡ (length pre == v)
name_at [] w post zero (a, d) = bytes_eq_refl w.server
name_at [] w post (suc v) (a, d) =
    absent_name w.server post v a ∙ (let e : false ≡ (0 == suc v) = ground arith in e)
name_at (x ∷ pre) w post zero (a, d) =
    differ w.server x.server
      (λ e. All-middle (λ (v : Weighted). x.server ≢ v.server) pre w post a (sym e))
    ∙ (let e : false ≡ (suc (length pre) == 0) = ground arith in e)
name_at (x ∷ pre) w post (suc v) (a, d) = name_at pre w post v d ∙ ground arith

times-places :
    (pre : List Weighted) (w : Weighted) (post : List Weighted) (vs : List (Option ℕ))
    → NamesDiffer (pre ++ w ∷ post)
    → times w.server (map choice_of (map (server_at (pre ++ w ∷ post)) vs))
      ≡ occurrences (length pre) vs
times-places pre w post [] d = refl
times-places pre w post (none ∷ vs) d = ap (λ k. 0 + k) (times-places pre w post vs d)
times-places pre w post (some v ∷ vs) d =
    ap
      (λ (b : Bool).
        (if b then 1 else 0)
        + times w.server (map choice_of (map (server_at (pre ++ w ∷ post)) vs)))
      (name_at pre w post v d)
    ∙ ap (λ k. (if length pre == v then 1 else 0) + k) (times-places pre w post vs d)

-- Each server was chosen as often as its weight says.
abbrev pub IsFair : List Choice → List Weighted → Type 0
IsFair cs ws = All (λ (w : Weighted). times w.server cs ≡ w.weight) ws

Shares-IsFair :
    (pre ws : List Weighted) (vs : List (Option ℕ))
    → NamesDiffer (pre ++ ws)
    → Shares vs (length pre) ws
    → IsFair (map choice_of (map (server_at (pre ++ ws)) vs)) ws
Shares-IsFair pre [] vs d s = tt
Shares-IsFair pre (w ∷ ws) vs d (h, s) =
    let along : (pre ++ w ∷ []) ++ ws ≡ pre ++ w ∷ ws = append_assoc pre (w ∷ []) ws in
    (
      times-places pre w ws vs d ∙ h,
      subst (λ l. IsFair (map choice_of (map (server_at l) vs)) ws) along
          (Shares-IsFair (pre ++ w ∷ []) ws vs (subst NamesDiffer (sym along) d)
            (subst (λ n. Shares vs n ws) (omega (arith, length-append pre (w ∷ []))) s)),
    )

-- The sum of the weights does not overflow.
total_weight_lem : (ws : List Weighted) → weights ws ≤ 2 ^ 62 → total_weight ws ≡ weights ws
total_weight_lem [] small = refl
total_weight_lem (w ∷ ws) small =
    let rest = total_weight_lem ws (omega arith) in ground (arith, rest)

fill_ring-length : (total n : ℕ) (ws : List Weighted) → length (fill_ring total n ws).0 ≡ n
unfolding fill_ring
fill_ring-length total zero ws = refl
fill_ring-length total (suc n) ws = ap suc (fill_ring-length total n (next total ws).1)

length-places :
    (ws : List Weighted) (vs : List (Option ℕ)) → length (map (server_at ws) vs) ≡ length vs
length-places ws [] = refl
length-places ws (v ∷ vs) = ap suc (length-places ws vs)

lighten-IsFilled : (total k : ℕ) (ws : List Weighted) → IsFilled ws → IsFilled (lighten total k ws)
unfolding lighten
lighten-IsFilled total k [] f = f
lighten-IsFilled total zero (w ∷ ws) f = tt
lighten-IsFilled total (suc k) (w ∷ ws) f = tt

fill_ring-IsFilled :
    (total n : ℕ) (ws : List Weighted) → IsFilled ws → IsFilled (fill_ring total n ws).1
unfolding fill_ring next
fill_ring-IsFilled total zero ws f = f
fill_ring-IsFilled total (suc n) [] f = absurd f
fill_ring-IsFilled total (suc n) (w ∷ []) f = fill_ring-IsFilled total n (w ∷ []) tt
fill_ring-IsFilled total (suc n) (w ∷ v ∷ ws) f =
    let (grown_all, f') = scan (w ∷ v ∷ ws) 0 0 0 in
    let filled : IsFilled grown_all = unfold scan in tt in
    fill_ring-IsFilled total n _ (lighten-IsFilled total f' grown_all filled)

names_differ :
    (weight_of : Bytes → Option ℕ) (k : Bytes) (m : List (Bytes × Bytes))
    → lookup k m ≡ none
    → All (λ (v : Weighted). k ≢ v.server) (create_weighted weight_of m)
unfolding lookup create_weighted
names_differ weight_of k [] h = tt
names_differ weight_of k ((j, v) ∷ m) h =
    (λ e. ground (arith, bytes_eq_iff j k), names_differ weight_of k m (ground arith))

create_weighted-NamesDiffer :
    (weight_of : Bytes → Option ℕ) (m : List (Bytes × Bytes))
    → Distinct m
    → NamesDiffer (create_weighted weight_of m)
unfolding create_weighted
create_weighted-NamesDiffer weight_of [] d = tt
create_weighted-NamesDiffer weight_of ((k, v) ∷ m) (new, d) =
    (names_differ weight_of k m new, create_weighted-NamesDiffer weight_of m d)

create_weighted-IsFresh :
    (weight_of : Bytes → Option ℕ) (m : List (Bytes × Bytes))
    → IsFresh (create_weighted weight_of m)
unfolding create_weighted
create_weighted-IsFresh weight_of [] = tt
create_weighted-IsFresh weight_of ((k, v) ∷ m) = (refl, create_weighted-IsFresh weight_of m)

weights-IsFilled : (ws : List Weighted) → 0 < weights ws → IsFilled ws
weights-IsFilled [] pos = absurd (omega arith)
weights-IsFilled (w ∷ ws) pos = tt

-- A new weighted selector is fair: in as many calls of `Select` as the weights make together, each
-- server is chosen exactly as often as its weight says. This needs a positive total whose square is
-- at most 2^62; a server without a weight has the weight 1.
pub new_weighted-IsFair :
    (weight_of : Bytes → Option ℕ) (servers : List (Bytes × Bytes))
    → Distinct servers
    → let ws = create_weighted weight_of servers in
      0 < weights ws
      → weights ws * weights ws ≤ 2 ^ 62
      → IsFair (selects (weights ws) (new_weighted weight_of servers)).0 ws
unfolding new_weighted build_ring
new_weighted-IsFair weight_of servers d pos fits =
    let ws = create_weighted weight_of servers in
    let W = weights ws in
    let small : W ≤ 2 ^ 62 = omega (arith, fits, le-mul_of_pos_right {m = W} W pos) in
    let total = total_weight_lem ws small in
    let positive : int_greater W 0 ≡ true = ground arith in
    let (vs, ws1) = fill_ring W W ws in
    let rr = map (server_at ws) vs in
    let shares =
      Shares-IsFair [] ws vs (create_weighted-NamesDiffer weight_of servers d)
        (fill_ring-Shares ws (create_weighted-IsFresh weight_of servers) pos fits) in
    rw (total, positive)
      (subst (λ cs. IsFair cs ws)
        (sym (
          subst
            (λ k. (selects k (record { servers = ws1; total = W; rr = rr })).0 ≡ map choice_of rr)
            (length-places ws vs ∙ fill_ring-length W W ws)
            (subst
              (λ l.
                (selects (length rr) (record { servers = ws1; total = W; rr = l })).0
                ≡ map choice_of rr)
              (append-nil rr)
              (selects-rr ws1 W rr [] (fill_ring-IsFilled W W ws (weights-IsFilled ws pos))))))
        shares)
