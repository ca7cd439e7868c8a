-- ===== src/BufferPool/Fit.antt =====
-- Every buffer is long enough for the level that it stands in.
use rpcx.Base.{
  ℕ, zero, suc, ◌+◌, ◌*◌, ◌<◌, ◌≤◌, ◌≡◌, refl, sym, subst, ◌∙◌, arith, List, [], ◌∷◌, Option, none,
  some, Bytes, ltb, length, length-replicate, All, on_bool, on_bool_eq, ltb→lt,
}
use rpcx.Protocol.Slice.{Slice, reslice}
use rpcx.BufferPool.{
  Index, below, place, LevelPool, LimitedPool, Logarithms, make_slice, new_levels, place_of,
  find_pool, find_put_pool, taken, level_get, get_at, put_at, get, put, Used, made, got, returned,
  doubled, IsRounded,
}

-- From the level of the size `cur` on: sizes double up to the last, and no buffer is too short.
abbrev pub Sized : ℕ → ℕ → List LevelPool → Type 0
Sized cur max [] = ⊥
Sized cur max (l ∷ []) =
    (l.size ≡ max) × (max ≤ cur) × All (λ (b : Slice). l.size ≤ length b.store) l.pool
Sized cur max (l ∷ v ∷ ls) =
    (l.size ≡ cur)
    × All (λ (b : Slice). l.size ≤ length b.store) l.pool
    × Sized (cur * 2) max (v ∷ ls)

-- A buffer that came out, and those that stay.
abbrev IsTaken : (Slice → Type 0) → Option (Slice × List Slice) → Type 0
IsTaken P none = Unit {0}
IsTaken P (some (b, bs)) = P b × All P bs

taken-IsTaken : (P : Slice → Type 0) (n : ℕ) (bs : List Slice) → All P bs → IsTaken P (taken n bs)
taken-IsTaken P n [] a = tt
taken-IsTaken P zero (b ∷ bs) a = a
taken-IsTaken P (suc n) (b ∷ bs) (h, a) = go (taken n bs) (taken-IsTaken P n bs a)
  where
    go :
        (o : Option (Slice × List Slice))
        → IsTaken P o
        → IsTaken P (elim o [ none ↦ none | some (c, cs) ↦ some (c, b ∷ cs) ])
    go none t = tt
    go (some (c, cs)) (hc, hs) = (hc, (h, hs))

-- What comes out of a level is long enough for it, and the level stays so.
abbrev AllFit : LevelPool → Type 0
AllFit l = All (λ (b : Slice). l.size ≤ length b.store) l.pool

abbrev Comes : LevelPool → Slice × LevelPool → Type 0
Comes l (b, l1) = (l.size ≤ length b.store) × (l1.size ≡ l.size) × AllFit l1

level_get-AllFit : (n : ℕ) (l : LevelPool) → AllFit l → Comes l (level_get n l)
unfolding level_get
level_get-AllFit n l a = go (taken n l.pool) (taken-IsTaken _ n l.pool a)
  where
    go :
        (o : Option (Slice × List Slice))
        → IsTaken (λ (b : Slice). l.size ≤ length b.store) o
        → Comes l
            (elim o [ none ↦ (make_slice l.size, l) | some (b, bs) ↦ (b, record l { pool = bs }) ])
    go none t = (omega (arith, length-replicate l.size (let z : ℕ = 0 in z)), refl, a)
    go (some (b, bs)) (h, hs) = (h, refl, hs)

Sized-cons :
    (cur max : ℕ) (l : LevelPool) (ls : List LevelPool)
    → l.size ≡ cur
    → AllFit l
    → Sized (cur * 2) max ls
    → Sized cur max (l ∷ ls)
Sized-cons cur max l [] e a s = absurd s
Sized-cons cur max l (v ∷ ls) e a s = (e, a, s)

-- A size that belongs to a level fits the buffer that comes from it.
get_at-Sized :
    (n i cur max size : ℕ) (ls : List LevelPool)
    → Sized cur max ls
    → i < length ls
    → size ≤ doubled i cur
    → size ≤ max
    → let (b, ls1) = get_at n i ls in (size ≤ length b.store) × Sized cur max ls1
unfolding get_at
get_at-Sized n i cur max size [] s lt le small = absurd s
get_at-Sized n zero cur max size (l ∷ []) (es, em, a) lt le small =
    let (fit, same, a1) = level_get-AllFit n l a in (omega arith, (same ∙ es, em, a1))
get_at-Sized n (suc i) cur max size (l ∷ []) s lt le small = absurd (omega arith)
get_at-Sized n zero cur max size (l ∷ v ∷ ls) (es, a, s) lt le small =
    let (fit, same, a1) = level_get-AllFit n l a in (omega arith, (same ∙ es, a1, s))
get_at-Sized n (suc i) cur max size (l ∷ v ∷ ls) (es, a, s) lt le small =
    let (fit, s1) = get_at-Sized n i (cur * 2) max size (v ∷ ls) s (omega arith) le small in
    (fit, Sized-cons cur max l _ es a s1)

put_at-Sized :
    (b : Slice) (i cur max : ℕ) (ls : List LevelPool)
    → Sized cur max ls
    → doubled i cur ≤ length b.store
    → length b.store ≤ max
    → Sized cur max (put_at b i ls)
unfolding put_at
put_at-Sized b i cur max [] s le small = s
put_at-Sized b zero cur max (l ∷ []) (es, em, a) le small = (es, em, (omega arith, a))
put_at-Sized b (suc i) cur max (l ∷ []) s le small = s
put_at-Sized b zero cur max (l ∷ v ∷ ls) (es, a, s) le small = (es, (omega arith, a), s)
put_at-Sized b (suc i) cur max (l ∷ v ∷ ls) (es, a, s) le small =
    Sized-cons cur max l _ es a (put_at-Sized b i (cur * 2) max (v ∷ ls) s le small)

abbrev AreLevels : ℕ → ℕ → Option (List LevelPool) → Type 0
AreLevels cur max none = Unit {0}
AreLevels cur max (some ls) = Sized cur max ls

new_levels-AreLevels : (n cur max : ℕ) → AreLevels cur max (new_levels n cur max)
unfolding new_levels
new_levels-AreLevels zero cur max = tt
new_levels-AreLevels (suc n) cur max =
    on_bool_eq (AreLevels cur max) (ltb cur max)
      (λ _. go (new_levels n (cur * 2) max) (new_levels-AreLevels n (cur * 2) max))
      (λ last. (refl, ground (arith, last), tt))
  where
    go :
        (o : Option (List LevelPool))
        → AreLevels (cur * 2) max o
        → AreLevels cur max
            (elim o [ none ↦ none | some ls ↦ some (record { size = cur; pool = [] } ∷ ls) ])
    go none t = tt
    go (some ls) s = Sized-cons cur max (record { size = cur; pool = [] }) ls refl tt s

-- `NewLimitedPool` ends: the sizes double from one that is not 0.
new_levels_ends :
    (n cur max : ℕ)
    → 0 < cur
    → max ≤ cur + n
    → (ls : List LevelPool) × (new_levels (suc n) cur max ≡ some ls)
unfolding new_levels
new_levels_ends zero cur max pos fuel = (record { size = max; pool = [] } ∷ [], ground arith)
new_levels_ends (suc n) cur max pos fuel =
    let (ls, e) = new_levels_ends n (cur * 2) max (omega arith) (omega arith) in
    on_bool (λ (o : Option (List LevelPool)). (ms : List LevelPool) × (o ≡ some ms)) (ltb cur max)
      (record { size = cur; pool = [] } ∷ ls, rw e refl)
      (record { size = max; pool = [] } ∷ [], refl)

record IsUsed (min max : ℕ) (p : LimitedPool) : Type 0 where
  same_min : p.min_size ≡ min
  same_max : p.max_size ≡ max
  sized : Sized min max p.pools

-- The slice has the length that was asked for.
abbrev Cut : ℕ → ℕ → ℕ → Option Slice × LimitedPool → Type 0
Cut min max size (r, p) = ((b : Slice) × (r ≡ some b) × (b.len ≡ size)) × IsUsed min max p

reslice_lem :
    (size : ℕ) (b : Slice)
    → size ≤ length b.store
    → reslice b 0 size ≡ some (record { store = b.store; len = size })
unfolding reslice
reslice_lem size b fit = ground arith

module _ (logs : Logarithms) (min max : ℕ) (law : IsRounded logs min) where
  ceil_fits : (size : ℕ) → size ≤ doubled (place_of (logs.ceil_log2 size min)) min
  ceil_fits size = go (logs.ceil_log2 size min) refl
    where
      go : (i : Index) → logs.ceil_log2 size min ≡ i → size ≤ doubled (place_of i) min
      go below e = unfold place_of in law.ceil_below size e
      go (place k) e = unfold place_of in law.ceil_place size k e

  floor_fits : (size : ℕ) → min ≤ size → doubled (place_of (logs.floor_log2 size min)) min ≤ size
  floor_fits size le = go (logs.floor_log2 size min) refl
    where
      go : (i : Index) → logs.floor_log2 size min ≡ i → doubled (place_of i) min ≤ size
      go below e = unfold place_of in le
      go (place k) e = unfold place_of in law.floor_place size k e

  module _ (p : LimitedPool) (u : IsUsed min max p) where
    -- The pool for a size.
    abbrev Serves : ℕ → Option ℕ → Type 0
    Serves size none = Unit {0}
    Serves size (some i) = (size ≤ max) × (size ≤ doubled i min) × (i < length p.pools)

    find_pool-Serves : (size : ℕ) → Serves size (find_pool logs p size)
    unfolding find_pool
    find_pool-Serves size =
        let idx = place_of (logs.ceil_log2 size p.min_size) in
        on_bool_eq (Serves size) (ltb p.max_size size) (λ _. tt)
          λ small.
            on_bool_eq (Serves size) (ltb idx (length p.pools))
              (λ there.
                let le : size ≤ doubled idx min =
                  subst (λ k. size ≤ doubled (place_of (logs.ceil_log2 size k)) min)
                    (sym u.same_min) (ceil_fits size) in
                (ground (arith, u.same_max), le, ltb→lt _ _ there))
              (λ _. tt)

    abbrev Holds : Bytes → Option ℕ → Type 0
    Holds b none = Unit {0}
    Holds b (some i) = (length b ≤ max) × (doubled i min ≤ length b)

    find_put_pool-Holds : (b : Bytes) → Holds b (find_put_pool logs p (length b))
    unfolding find_put_pool
    find_put_pool-Holds b =
        let idx = place_of (logs.floor_log2 (length b) p.min_size) in
        on_bool_eq (Holds b) (ltb p.max_size (length b)) (λ _. tt)
          λ small.
            on_bool_eq (Holds b) (ltb (length b) p.min_size) (λ _. tt)
              λ large.
                let enough : min ≤ length b = ground (arith, u.same_min) in
                on_bool (Holds b) (ltb idx (length p.pools))
                  (
                    ground (arith, u.same_max),
                    subst (λ k. doubled (place_of (logs.floor_log2 (length b) k)) min ≤ length b)
                        (sym u.same_min) (floor_fits (length b) enough),
                  )
                  tt

    get-Cut : (n size : ℕ) → Cut min max size (get logs n p size)
    unfolding get
    get-Cut n size = go (find_pool logs p size) (find_pool-Serves size)
      where
        go :
            (o : Option ℕ)
            → Serves size o
            → Cut min max size (elim o [
              | none ↦ (some (make_slice size), p)
              | some i ↦
                  let (b, ls) = get_at n i p.pools in (reslice b 0 size, record p { pools = ls })
            ])
        go none t = ((make_slice size, refl, refl), u)
        go (some i) (small, le, lt) =
            let (fit, s) = get_at-Sized n i min max size p.pools u.sized lt le small in
            (
              (
                record { store = (get_at n i p.pools).0.store; len = size },
                reslice_lem size _ fit,
                refl,
              ),
              record { same_min = u.same_min; same_max = u.same_max; sized = s },
            )

    put-IsUsed : (b : Slice) → IsUsed min max (put logs b p)
    unfolding put
    put-IsUsed b = go (find_put_pool logs p (length b.store)) (find_put_pool-Holds b.store)
      where
        go :
            (o : Option ℕ)
            → Holds b.store o
            → IsUsed min max (elim o [
              | none ↦ p
              | some i ↦ record p { pools = put_at (record b { len = length b.store }) i p.pools }
            ])
        go none t = u
        go (some i) (small, le) = record {
          same_min = u.same_min;
          same_max = u.same_max;
          sized =
              put_at-Sized (record b { len = length b.store }) i min max p.pools u.sized le small;
        }

  Used-IsUsed : (p : LimitedPool) → Used logs min max p → IsUsed min max p
  Used-IsUsed p (made n ls e) = record {
    same_min = refl;
    same_max = refl;
    sized = subst (AreLevels min max) e (new_levels-AreLevels n min max);
  }
  Used-IsUsed p (got {p = q} r n size) = (get-Cut q (Used-IsUsed q r) n size).1
  Used-IsUsed p (returned {p = q} r b) = put-IsUsed q (Used-IsUsed q r) b

  -- Whatever was taken from a pool and put into it, and whichever buffer it hands out, `Get` does
  -- not panic and gives a slice of the length that was asked for. This relies on the rounded
  -- logarithms.
  pub get_lem :
      (n size : ℕ) (p : LimitedPool)
      → Used logs min max p
      → (b : Slice) × ((get logs n p size).0 ≡ some b) × (b.len ≡ size)
  get_lem n size p r = (get-Cut p (Used-IsUsed p r) n size).0
