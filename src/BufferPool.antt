-- ===== src/BufferPool.antt =====
-- `LimitedPool` of util/buffer_pool.go: buffers by size. A `sync.Pool` is the buffers that were put
-- into it; the number that `Get` is given says which of them it hands out, and a number of none that
-- it makes a new one. The logarithms are a parameter: an `Index` is the rounded int.
pub mod Fit
mod Tests
use rpcx.Base.{
  ℕ, zero, suc, ◌+◌, ◌*◌, ◌-◌, ◌<◌, ◌≤◌, ◌≡◌, refl, sym, ap, subst, ◌∙◌, arith, List, [], ◌∷◌,
  Option, none, some, Bytes, Bool, true, false, ltb, length, replicate, length-replicate,
  if◌then◌else◌, get_elem?, All, on_bool, on_option, on_option_eq, on_bool_eq, ltb→lt,
}
use rpcx.Protocol.Slice.{Slice, reslice}

pub data Index : Type 0 where
  below : Index
  place : ℕ → Index

pub record LevelPool : Type 0 where
  pub size : ℕ
  pub pool : List Slice

pub record LimitedPool : Type 0 where
  pub min_size : ℕ
  pub max_size : ℕ
  pub pools : List LevelPool

-- `math.Ceil` and `math.Floor` of the binary logarithm of a quotient.
pub record Logarithms : Type 0 where
  pub ceil_log2 : ℕ → ℕ → Index
  pub floor_log2 : ℕ → ℕ → Index

-- `make([]byte, n)`
abbrev pub make_slice : ℕ → Slice
make_slice n = record { store = replicate n 0; len = n }

-- The loop of `NewLimitedPool`, none where it has no fuel left.
unfoldable pub new_levels : ℕ → ℕ → ℕ → Option (List LevelPool)
new_levels zero cur max = none
new_levels (suc n) cur max =
    let rest = new_levels n (cur * 2) max in
    if ltb cur max
    then elim rest [ none ↦ none | some ls ↦ some (record { size = cur; pool = [] } ∷ ls) ]
    else some (record { size = max; pool = [] } ∷ [])

unfoldable pub place_of : Index → ℕ
place_of below = 0
place_of (place n) = n

-- The number of the pool for a size, none for nil.
unfoldable pub find_pool : Logarithms → LimitedPool → ℕ → Option ℕ
find_pool logs p size =
    if ltb p.max_size size
    then none
    else let idx = place_of (logs.ceil_log2 size p.min_size) in
      if ltb idx (length p.pools) then some idx else none

unfoldable pub find_put_pool : Logarithms → LimitedPool → ℕ → Option ℕ
find_put_pool logs p size =
    if ltb p.max_size size
    then none
    else if ltb size p.min_size
    then none
    else let idx = place_of (logs.floor_log2 size p.min_size) in
      if ltb idx (length p.pools) then some idx else none

-- One buffer out of a pool.
abbrev pub taken : ℕ → List Slice → Option (Slice × List Slice)
taken n [] = none
taken zero (b ∷ bs) = some (b, bs)
taken (suc n) (b ∷ bs) =
    let rest = taken n bs in elim rest [ none ↦ none | some (c, cs) ↦ some (c, b ∷ cs) ]

unfoldable pub level_get : ℕ → LevelPool → Slice × LevelPool
level_get n l = elim (taken n l.pool) [
  | none ↦ (make_slice l.size, l)
  | some (b, bs) ↦ (b, record l { pool = bs })
]

-- `sp.pool.Get()` at a place of the pools.
unfoldable pub get_at : ℕ → ℕ → List LevelPool → Slice × List LevelPool
get_at n i [] = (make_slice 0, [])
get_at n zero (l ∷ ls) = let (b, l1) = level_get n l in (b, l1 ∷ ls)
get_at n (suc i) (l ∷ ls) = let (b, ls1) = get_at n i ls in (b, l ∷ ls1)

unfoldable pub put_at : Slice → ℕ → List LevelPool → List LevelPool
put_at b i [] = []
put_at b zero (l ∷ ls) = record l { pool = b ∷ l.pool } ∷ ls
put_at b (suc i) (l ∷ ls) = l ∷ put_at b i ls

-- `Get`: the buffer, cut to the size, where `none` is a panic.
unfoldable pub get : Logarithms → ℕ → LimitedPool → ℕ → Option Slice × LimitedPool
get logs n p size = elim (find_pool logs p size) [
  | none ↦ (some (make_slice size), p)
  | some i ↦ let (b, ls) = get_at n i p.pools in (reslice b 0 size, record p { pools = ls })
]

-- `Put`, which restores the buffer's full length.
unfoldable pub put : Logarithms → Slice → LimitedPool → LimitedPool
put logs b p = elim (find_put_pool logs p (length b.store)) [
  | none ↦ p
  | some i ↦ record p { pools = put_at (record b { len = length b.store }) i p.pools }
]

-- A pool that `NewLimitedPool` made and that any `Get` and `Put` may have changed.
pub data Used (logs : Logarithms) (min max : ℕ) : LimitedPool → Type 0 where
  made :
      (n : ℕ) (ls : List LevelPool)
      → new_levels n min max ≡ some ls
      → Used logs min max (record { min_size = min; max_size = max; pools = ls })
  got :
      {p : LimitedPool}
      → Used logs min max p
      → (n size : ℕ) → Used logs min max (get logs n p size).1
  returned :
      {p : LimitedPool} → Used logs min max p → (b : Slice) → Used logs min max (put logs b p)

-- A size that is doubled so many times.
abbrev pub doubled : ℕ → ℕ → ℕ
doubled zero c = c
doubled (suc k) c = doubled k (c * 2)

-- What the logarithms are relied on for.
pub record IsRounded (logs : Logarithms) (min : ℕ) : Type 0 where
  pub ceil_place : (size k : ℕ) → logs.ceil_log2 size min ≡ place k → size ≤ doubled k min
  pub ceil_below : (size : ℕ) → logs.ceil_log2 size min ≡ below → size ≤ min
  pub floor_place : (size k : ℕ) → logs.floor_log2 size min ≡ place k → doubled k min ≤ size
