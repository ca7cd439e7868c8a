-- ===== src/Base/Bits.antt =====
-- Facts on small numbers by evaluation of a Boolean test at every value.
use rpcx.Base.{ℕ, zero, suc, ◌<◌, ◌≡◌, Bool, true, ◌&&◌, arith}

-- The test at each value below the bound.
pub every : (ℕ → Bool) → ℕ → Bool
every test zero = true
every test (suc bound) = every test bound && test bound

at_each : (test : ℕ → Bool) (bound v : ℕ) → v < bound → every test bound ≡ true → test v ≡ true
unfolding every
at_each test zero v small passed = absurd (omega arith)
at_each test (suc bound) v small passed = ground (arith, at_each test bound v)

-- The test at each pair of values.
unfoldable pub all_pairs : ℕ → ℕ → (ℕ → ℕ → Bool) → Bool
unfolding every
all_pairs m n p = every (λ x. every (p x) n) m

pub all_pairs_sound :
    (m n : ℕ) (p : ℕ → ℕ → Bool) (x y : ℕ) → all_pairs m n p ≡ true → x < m → y < n → p x y ≡ true
unfolding all_pairs
all_pairs_sound m n p x y h hx hy = at_each (p x) n y hy (at_each (λ a. every (p a) n) m x hx h)
