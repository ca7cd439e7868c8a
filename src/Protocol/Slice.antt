-- ===== src/Protocol/Slice.antt =====
-- Go's byte slices: a length, and the bytes of the array from the slice's start to its capacity.
use rpcx.Base.{
  ℕ, ◌+◌, ◌-◌, ◌≤◌, ◌≡◌, ap, ◌∙◌, arith, [], ◌++◌, Option, none, some, Bytes, leb, ◌&&◌,
  if◌then◌else◌, length, length-append, length-replicate, take, drop, replicate, drop-append,
}

pub record Slice : Type 0 where
  pub store : Bytes
  pub len : ℕ

-- A nil slice.
unfoldable pub nil_slice : Slice
nil_slice = record { store = []; len = 0 }

abbrev pub slice_bytes : Slice → Bytes
slice_bytes s = take s.len s.store

-- `s[a:b]`, which may reach to the capacity; `none` is the panic of a slice out of bounds.
unfoldable pub reslice : Slice → ℕ → ℕ → Option Slice
reslice s a b =
    if leb a b && leb b (length s.store)
    then some (record { store = drop a s.store; len = b - a })
    else none

-- `m.data[:n]` where the capacity is enough, and a new array of zeros where it is not.
unfoldable pub allocate : Slice → ℕ → Slice
allocate s n =
    if leb n (length s.store)
    then record { store = s.store; len = n }
    else record { store = replicate n 0; len = n }

-- The bytes that a read puts into a buffer from its start; the rest of the buffer stays.
unfoldable pub fill : Bytes → Bytes → Bytes
fill new old = new ++ drop (length new) old

pub allocate_fits :
    (s : Slice) (n : ℕ) → (n ≤ length (allocate s n).store) × ((allocate s n).len ≡ n)
unfolding allocate
allocate_fits s n = ground (arith, length-replicate n (let z : ℕ = 0 in z))

-- The range of a slice that holds `mid` between `pre` and `post`.
pub reslice_at :
    (s : Slice) (pre mid post : Bytes) (a b : ℕ)
    → s.store ≡ pre ++ (mid ++ post)
    → a ≡ length pre
    → b ≡ a + length mid
    → reslice s a b ≡ some (record { store = mid ++ post; len = length mid })
unfolding reslice
reslice_at s pre mid post a b e ha hb =
    let size : length s.store ≡ length pre + (length mid + length post) =
      ap length e
      ∙ length-append pre (mid ++ post)
      ∙ ap (λ k. length pre + k) (length-append mid post) in
    let cut : drop a s.store ≡ mid ++ post =
      ap (λ k. drop k s.store) ha ∙ ap (drop (length pre)) e ∙ drop-append pre (mid ++ post) in
    ground (arith, size, cut)
