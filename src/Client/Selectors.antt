-- ===== src/Client/Selectors.antt =====
-- The selectors of client/selector.go that choose at random, in turn, and in turn by weight. A map of
-- servers is a list in the order of its `range`. An int is the number that its 64 bits make.
pub mod Ints
pub mod Balance
pub mod Weights
pub mod Turns
pub mod Rounds
mod Tests
use rpcx.Base.{
  ℕ, zero, suc, ◌+◌, ◌%◌, ◌^◌, ◌-◌, ◌<◌, ◌≡◌, List, [], ◌∷◌, ◌++◌, Option, none, some, Bytes, Bool,
  true, false, ◌==◌, ltb, length, map, get_elem?, if◌then◌else◌,
}

-- What `Select` returns, or its panic.
pub data Choice : Type 0 where
  chosen : Bytes → Choice
  panics : Choice

-- `ss[i]`
abbrev pub index : List Bytes → ℕ → Choice
index ss i = elim (get_elem? ss i) [ none ↦ panics | some s ↦ chosen s ]

abbrev pub keys : List (Bytes × Bytes) → List Bytes
keys [] = []
keys ((k, v) ∷ m) = k ∷ keys m

-- `randomSelector.Select`, which draws a number below the one given.
unfoldable pub random_select : (ℕ → ℕ) → List Bytes → Choice
random_select uint32n [] = chosen []
random_select uint32n (s ∷ ss) = index (s ∷ ss) (uint32n (length (s ∷ ss) % 2 ^ 32))

pub record RoundRobin : Type 0 where
  pub servers : List Bytes
  pub i : ℕ

unfoldable pub new_round_robin : List (Bytes × Bytes) → RoundRobin
new_round_robin servers = record { servers = keys servers; i = 0 }

unfoldable pub round_robin_select : RoundRobin → Choice × RoundRobin
round_robin_select s = elim s.servers [
  | [] ↦ (chosen [], s)
  | _ ∷ _ ↦ let i = s.i % length s.servers in (index s.servers i, record s { i = i + 1 })
]

unfoldable pub round_robin_update : List (Bytes × Bytes) → RoundRobin → RoundRobin
round_robin_update servers s = record s { servers = keys servers }

-- Additions, subtractions and comparisons of ints.
abbrev pub int_add : ℕ → ℕ → ℕ
int_add a b = (a + b) % 2 ^ 64

abbrev pub int_sub : ℕ → ℕ → ℕ
int_sub a b = (a + (2 ^ 64 - b)) % 2 ^ 64

abbrev pub int_greater : ℕ → ℕ → Bool
int_greater a b = ltb ((b + 2 ^ 63) % 2 ^ 64) ((a + 2 ^ 63) % 2 ^ 64)

pub record Weighted : Type 0 where
  pub server : Bytes
  pub weight : ℕ
  pub current_weight : ℕ

-- `s.servers[i].CurrentWeight += s.servers[i].Weight`
abbrev pub grown : Weighted → Weighted
grown w = record w { current_weight = int_add w.current_weight w.weight }

-- The loop of `next`, from the `i`-th server on: the servers that it leaves, and the flag.
unfoldable pub scan : List Weighted → ℕ → ℕ → ℕ → List Weighted × ℕ
scan [] i flag m = ([], flag)
scan (w ∷ ws) i flag m =
    let c = (grown w).current_weight in
    let bigger = int_greater c m in
    let (rest, f) = scan ws (suc i) (if bigger then i else flag) (if bigger then c else m) in
    (grown w ∷ rest, f)

-- `s.servers[flag].CurrentWeight -= s.totalWeight`
unfoldable pub lighten : ℕ → ℕ → List Weighted → List Weighted
lighten total flag [] = []
lighten total zero (w ∷ ws) = record w { current_weight = int_sub w.current_weight total } ∷ ws
lighten total (suc flag) (w ∷ ws) = w ∷ lighten total flag ws

-- `next`: the place of the server that it returns, none for nil.
unfoldable pub next : ℕ → List Weighted → Option ℕ × List Weighted
next total [] = (none, [])
next total (w ∷ []) = (some 0, w ∷ [])
next total (w ∷ v ∷ ws) =
    let (grown_all, flag) = scan (w ∷ v ∷ ws) 0 0 0 in (some flag, lighten total flag grown_all)

unfoldable pub fill_ring : ℕ → ℕ → List Weighted → List (Option ℕ) × List Weighted
fill_ring total zero ws = ([], ws)
fill_ring total (suc n) ws =
    let (v, ws1) = next total ws in let (vs, ws2) = fill_ring total n ws1 in (v ∷ vs, ws2)

abbrev pub total_weight : List Weighted → ℕ
total_weight [] = 0
total_weight (w ∷ ws) = int_add w.weight (total_weight ws)

-- The name that stands at a place of the ring, none for nil.
abbrev pub server_at : List Weighted → Option ℕ → Option Bytes
server_at ws none = none
server_at ws (some i) = elim (get_elem? ws i) [ none ↦ none | some w ↦ some w.server ]

-- The ring from its current element on: empty for the nil ring.
pub record WeightedRoundRobin : Type 0 where
  pub servers : List Weighted
  pub total : ℕ
  pub rr : List (Option Bytes)

-- `buildRing`: there is no ring, and no round of the loop, where the total is not positive.
unfoldable pub build_ring : WeightedRoundRobin → WeightedRoundRobin
build_ring s =
    let total = total_weight s.servers in
    let rounds = if int_greater total 0 then total else 0 in
    let (vs, ws) = fill_ring total rounds s.servers in
    record { servers = ws; total = total; rr = map (server_at s.servers) vs }

-- `createWeighted`; `weight_of` is what the `weight` of the metadata comes to, none where it is
-- missing or no number.
unfoldable pub create_weighted : (Bytes → Option ℕ) → List (Bytes × Bytes) → List Weighted
create_weighted weight_of [] = []
create_weighted weight_of ((k, metadata) ∷ m) =
    record {
      server = k;
      weight = elim (weight_of metadata) [ none ↦ 1 | some w ↦ w ];
      current_weight = 0;
    }
    ∷ create_weighted weight_of m

unfoldable pub new_weighted : (Bytes → Option ℕ) → List (Bytes × Bytes) → WeightedRoundRobin
new_weighted weight_of servers =
    build_ring (record { servers = create_weighted weight_of servers; total = 0; rr = [] })

-- The ring is built before the new servers are put in.
unfoldable pub weighted_update :
    (Bytes → Option ℕ) → List (Bytes × Bytes) → WeightedRoundRobin → WeightedRoundRobin
weighted_update weight_of servers s = record (build_ring s) {
  servers = create_weighted weight_of servers;
}

-- `Select` panics on a nil ring, and on nil in the ring.
unfoldable pub weighted_select : WeightedRoundRobin → Choice × WeightedRoundRobin
weighted_select s = elim s.servers [
  | [] ↦ (chosen [], s)
  | _ ∷ _ ↦ elim s.rr [
    | [] ↦ (panics, s)
    | v ∷ vs ↦
        let s1 = record s { rr = vs ++ v ∷ [] } in
        elim v [ none ↦ (panics, s1) | some name ↦ (chosen name, s1) ]
  ]
]
