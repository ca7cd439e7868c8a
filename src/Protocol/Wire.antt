-- ===== src/Protocol/Wire.antt =====
-- Numbers on the wire: `binary.BigEndian` of the Go library at 32 and 64 bits.
use rpcx.Base.{
  ℕ, ◌+◌, ◌*◌, ◌/◌, ◌%◌, ◌^◌, ◌<◌, ◌≡◌, refl, arith, [], ◌∷◌, ◌++◌, Option, none, some, Bytes,
  length, All,
}

-- `PutUint32`, with the conversion `uint32(n)`.
unfoldable pub be32 : ℕ → Bytes
be32 n = n / 2 ^ 24 % 256 ∷ n / 2 ^ 16 % 256 ∷ n / 2 ^ 8 % 256 ∷ n % 256 ∷ []

-- `Uint32` reads the first four bytes; `none` is its panic on a shorter slice.
unfoldable pub read_be32 : Bytes → Option ℕ
read_be32 (a ∷ b ∷ c ∷ d ∷ _) = some (a * 2 ^ 24 + b * 2 ^ 16 + c * 2 ^ 8 + d)
read_be32 _ = none

-- `PutUint64` and `Uint64`.
unfoldable pub be64 : ℕ → Bytes
unfolding be32
be64 n = be32 (n / 2 ^ 32) ++ be32 n

unfoldable pub read_be64 : Bytes → ℕ
read_be64 (a ∷ b ∷ c ∷ d ∷ e ∷ f ∷ g ∷ h ∷ _) =
    (a * 2 ^ 24 + b * 2 ^ 16 + c * 2 ^ 8 + d) * 2 ^ 32 + (e * 2 ^ 24 + f * 2 ^ 16 + g * 2 ^ 8 + h)
read_be64 _ = 0

pub length-be32 : (n : ℕ) → length (be32 n) ≡ 4
unfolding be32
length-be32 n = refl

pub length-be64 : (n : ℕ) → length (be64 n) ≡ 8
unfolding be64
length-be64 n = refl

pub read_be32-be32 : (n : ℕ) (rest : Bytes) → n < 2 ^ 32 → read_be32 (be32 n ++ rest) ≡ some n
unfolding read_be32 be32
read_be32-be32 n rest h = ground arith

pub read_be64-be64 : (n : ℕ) → n < 2 ^ 64 → read_be64 (be64 n) ≡ n
unfolding read_be64 be64
read_be64-be64 n h = omega arith

pub be64-bytes : (n : ℕ) → All (λ b. b < 256) (be64 n)
unfolding be64
be64-bytes n = omega arith
