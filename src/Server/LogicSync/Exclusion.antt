-- ===== src/Server/LogicSync/Exclusion.antt =====
-- Who holds the locks, along the runs.
use rpcx.Base.{
  ℕ, ◌%◌, ◌<◌, ◌≡◌, ◌≢◌, refl, sym, ap, ◌∙◌, ◌==◌, arith, Option, none, some, Bytes, true, inl, inr,
  ◌⊎◌, Bool-cases, Option-cases, ==_iff,
}
use rpcx.Client.Conn.{at}
use rpcx.Server.LogicSync.{
  Options, Request, is_logic_sync, key_of, logic_sync_lock_of, lock_for, waiting, inside, gone,
  Locks, no_calls, unlock, Step, arrives, passes, locks, leaves, Run, here, next,
}

at-cases :
    {A : Type 0} (f : ℕ → A) (x y : ℕ) (a : A)
    → ((y ≡ x) × (at f x a y ≡ a)) ⊎ ((y ≢ x) × (at f x a y ≡ f y))
at-cases f x y a = elim (Bool-cases (y == x)) [
  | inl e ↦ inl ((==_iff y x).0 e, rw e refl)
  | inr e ↦ inr (ground arith, rw e refl)
]

at_same : {A : Type 0} (f : ℕ → A) (x : ℕ) (a : A) → at f x a x ≡ a
at_same f x a = ground arith

phase-unlock : (q : Option ℕ) (s : Locks) (i : ℕ) → (unlock q s).phase i ≡ s.phase i
unfolding unlock
phase-unlock none s i = refl
phase-unlock (some l) s i = refl

some-inj : {a b : ℕ} → some a ≡ some b → a ≡ b
some-inj {a} e = ap (λ p. elim p [ none ↦ a | some x ↦ x ]) e

none-some : {i : ℕ} → ¬ ((let o : Option ℕ = none in o) ≡ some i)
none-some e = cc

gone-inside : ¬ (gone ≡ inside)
gone-inside e = cc

module _ (hash_string : Bytes → ℕ) (o : Options) (request : ℕ → Request) where
  -- The lock of a goroutine's request.
  abbrev pub lock_of : ℕ → Option ℕ
  lock_of i = lock_for hash_string o (request i)

  -- A goroutine behind its lock holds it, and only such a goroutine holds one.
  abbrev pub IsHeld : Locks → Type 0
  IsHeld s =
      ((i l : ℕ) → s.phase i ≡ inside → lock_of i ≡ some l → s.held l ≡ some i)
      × ((l i : ℕ) → s.held l ≡ some i → (s.phase i ≡ inside) × (lock_of i ≡ some l))

  leave-IsHeld :
      (k : ℕ) (s : Locks) (q : Option ℕ)
      → lock_of k ≡ q
      → s.phase k ≡ inside
      → IsHeld s
      → IsHeld (unlock q (record s { phase = at s.phase k gone }))
  unfolding unlock
  leave-IsHeld k s none n e (h, b) = (
    λ i l p q. elim (at-cases s.phase k i gone) [
      | inl (_, w) ↦ absurd (gone-inside (sym w ∙ p))
      | inr (_, w) ↦ h i l (sym w ∙ p) q
    ],
    λ l i p.
        let (x, y) = b l i p in
        elim (at-cases s.phase k i gone) [
          | inl (same, _) ↦ absurd (none-some (sym n ∙ ap (λ j. lock_of j) (sym same) ∙ y))
          | inr (_, w) ↦ (w ∙ x, y)
        ],
  )
  leave-IsHeld k s (some m) n e (h, b) = (
    λ i l p q. elim (at-cases s.phase k i gone) [
      | inl (_, w) ↦ absurd (gone-inside (sym w ∙ p))
      | inr (other, w) ↦
          let was : s.held l ≡ some i = h i l (sym w ∙ p) q in
          elim (at-cases s.held m l none) [
            | inl (same, _) ↦ absurd (other (some-inj (sym was ∙ ap s.held same ∙ h k m e n)))
            | inr (_, v) ↦ v ∙ was
          ]
    ],
    λ l i p. elim (at-cases s.held m l none) [
      | inl (_, v) ↦ absurd (none-some (sym v ∙ p))
      | inr (other, v) ↦
          let (x, y) = b l i (sym v ∙ p) in
          elim (at-cases s.phase k i gone) [
            | inl (same, _) ↦ absurd (other (some-inj (sym y ∙ ap (λ j. lock_of j) same ∙ n)))
            | inr (_, w) ↦ (w ∙ x, y)
          ]
    ],
  )

  Step-IsHeld : {s t : Locks} → Step hash_string o request s t → IsHeld s → IsHeld t
  Step-IsHeld (arrives {s} k e) (h, b) = (
    λ i l p q. elim (at-cases s.phase k i waiting) [
      | inl (_, w) ↦ cc
      | inr (_, w) ↦ h i l (sym w ∙ p) q
    ],
    λ l i p. elim (at-cases s.phase k i waiting) [
      | inl (same, _) ↦ let (x, y) = b l i p in cc
      | inr (_, w) ↦ let (x, y) = b l i p in (w ∙ x, y)
    ],
  )
  Step-IsHeld (passes {s} k e n) (h, b) = (
    λ i l p q. elim (at-cases s.phase k i inside) [
      | inl (same, _) ↦ cc
      | inr (_, w) ↦ h i l (sym w ∙ p) q
    ],
    λ l i p. elim (at-cases s.phase k i inside) [
      | inl (same, _) ↦ let (x, y) = b l i p in cc
      | inr (_, w) ↦ let (x, y) = b l i p in (w ∙ x, y)
    ],
  )
  Step-IsHeld (locks {s} k m e n free) (h, b) = (
    λ i l p q. elim (at-cases s.phase k i inside) [
      | inl (same, _) ↦
          let l_is_m : l ≡ m = some-inj (sym q ∙ ap (λ j. lock_of j) same ∙ n) in
          elim (at-cases s.held m l (some k)) [
            | inl (_, v) ↦ v ∙ ap some (sym same)
            | inr (other, _) ↦ absurd (other l_is_m)
          ]
      | inr (_, w) ↦
          let was : s.held l ≡ some i = h i l (sym w ∙ p) q in
          elim (at-cases s.held m l (some k)) [
            | inl (same, _) ↦ absurd (none-some (sym free ∙ ap s.held (sym same) ∙ was))
            | inr (_, v) ↦ v ∙ was
          ]
    ],
    λ l i p. elim (at-cases s.held m l (some k)) [
      | inl (l_is_m, v) ↦
          let i_is_k : i ≡ k = some-inj (sym p ∙ v) in
          elim (at-cases s.phase k i inside) [
            | inl (_, w) ↦ (w, ap (λ j. lock_of j) i_is_k ∙ n ∙ ap some (sym l_is_m))
            | inr (other, _) ↦ absurd (other i_is_k)
          ]
      | inr (_, v) ↦
          let (x, y) = b l i (sym v ∙ p) in
          elim (at-cases s.phase k i inside) [ inl (_, w) ↦ (w, y) | inr (_, w) ↦ (w ∙ x, y) ]
    ],
  )
  Step-IsHeld (leaves {s} k e) held = leave-IsHeld k s (lock_of k) refl e held

  Run-IsHeld : {s : Locks} → Run hash_string o request no_calls s → IsHeld s
  unfolding no_calls
  Run-IsHeld here = (λ i l p q. cc, λ l i p. cc)
  Run-IsHeld (next r step) = Step-IsHeld step (Run-IsHeld r)

  locked_by :
      (n i : ℕ)
      → o.logic_lock_pool ≡ some n
      → 0 < n
      → is_logic_sync o (request i).message ≡ true
      → lock_of i ≡ some (hash_string (key_of (request i)) % n)
  unfolding lock_for logic_sync_lock_of
  locked_by n i pool pos sync = rw (sync, pool) (ground arith)

  -- In every run two requests of `LogicSync` methods that have one key are never both between the lock
  -- and the end of `handleRequest`: the requests of one user, or of one connection where they have no
  -- hash, are called one after the other. This needs a pool that has a lock.
  pub same_key_serialized :
      {s : Locks} (n i j : ℕ)
      → Run hash_string o request no_calls s
      → o.logic_lock_pool ≡ some n
      → 0 < n
      → is_logic_sync o (request i).message ≡ true
      → is_logic_sync o (request j).message ≡ true
      → key_of (request i) ≡ key_of (request j)
      → s.phase i ≡ inside
      → s.phase j ≡ inside
      → i ≡ j
  same_key_serialized n i j r pool pos si sj same pi pj =
      let (h, b) = Run-IsHeld r in
      let li = locked_by n i pool pos si in
      let lj = locked_by n j pool pos sj in
      let l = hash_string (key_of (request i)) % n in
      some-inj (sym (h i l pi li) ∙ h j l pj (lj ∙ ap (λ k. some (hash_string k % n)) (sym same)))

  -- In every run a request that waits can go on at once, or another one that has the same lock is
  -- behind it, and can leave.
  pub waits_for_another :
      {s : Locks} (i : ℕ)
      → Run hash_string o request no_calls s
      → s.phase i ≡ waiting
      → ((t : Locks) × Step hash_string o request s t × (t.phase i ≡ inside))
        ⊎ ((j : ℕ) × (lock_of j ≡ lock_of i)
            × (s.phase j ≡ inside)
            × (t : Locks) × Step hash_string o request s t
            × (t.phase j ≡ gone))
  waits_for_another {s} i r w =
      let (h, b) = Run-IsHeld r in
      elim (Option-cases (lock_of i)) [
        | inl e ↦ inl (_, passes i w e, at_same s.phase i inside)
        | inr (l, e) ↦ elim (Option-cases (s.held l)) [
          | inl free ↦ inl (_, locks i l w e free, at_same s.phase i inside)
          | inr (j, taken) ↦
              let (x, y) = b l j taken in
              inr (
                j,
                y ∙ sym e,
                x,
                _,
                leaves j x,
                phase-unlock (lock_of j) (record s { phase = at s.phase j gone }) j
                    ∙ at_same s.phase j gone,
              )
        ]
      ]
