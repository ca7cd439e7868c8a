-- ===== src/BufferPool/Tests.antt =====
-- A run of the theorem on buffers.
use rpcx.Base.{ℕ, zero, suc, ◌+◌, ◌*◌, ◌≡◌, ◌≤◌, refl, arith, [], ◌∷◌, some}
use rpcx.Protocol.Slice.{Slice}
use rpcx.BufferPool.{
  below, place, LimitedPool, Logarithms, new_levels, get, Used, made, returned, doubled, IsRounded,
  Used, put, make_slice,
}
use rpcx.BufferPool.Fit.{get_lem}

-- Logarithms that are too large, and never allow a buffer of a higher level to come back.
abbrev rounded : Logarithms
rounded = record { ceil_log2 = λ size min. place size; floor_log2 = λ size min. below }

doubled_grows : (k c : ℕ) → 1 ≤ c → k + c ≤ doubled k c
doubled_grows zero c h = omega arith
doubled_grows (suc k) c h = omega (arith, doubled_grows k (c * 2) (omega arith))

the_place : (a b : ℕ) → place a ≡ place b → a ≡ b
the_place a b e = cc

rounded-IsRounded : IsRounded rounded 4
rounded-IsRounded = record {
  ceil_place = λ size k e. omega (arith, the_place size k e, doubled_grows k 4 (omega arith));
  ceil_below = λ size e. cc;
  floor_place = λ size k e. cc;
}

-- Levels of 4, 8 and 16 bytes; a buffer of nine bytes has come back.
abbrev three_levels : LimitedPool
three_levels = record {
  min_size = 4;
  max_size = 16;
  pools =
      record { size = 4; pool = [] }
      ∷ record { size = 8; pool = [] }
      ∷ record { size = 16; pool = [] }
      ∷ [];
}

once_returned : Used rounded 4 16 (put rounded (make_slice 9) three_levels)
unfolding new_levels
once_returned = returned (made 5 three_levels.pools refl) (make_slice 9)

get_lem_example :
    (b : Slice) × ((get rounded 0 (put rounded (make_slice 9) three_levels) 2).0 ≡ some b)
    × (b.len ≡ 2)
get_lem_example =
    get_lem rounded 4 16 rounded-IsRounded 0 2 (put rounded (make_slice 9) three_levels)
      once_returned
