-- ===== src/Common/Word.antt =====
-- Unsigned machine words as native numbers: the wrap-around is written out.
use Prim.Native.Nat.{ℕ, ◌+◌, ◌-◌, ◌%◌, ◌^◌, ◌≤◌, ◌<◌}
use mathlib.Core.Path.{◌≡◌}
use native.Mathlib.Omega.{arith}

-- static_cast<std::uint32_t>(n)
abbrev pub u32 : ℕ → ℕ
u32 n = n % 2 ^ 32

-- a + b and a - b of type std::uint32_t
abbrev pub add32 : ℕ → ℕ → ℕ
add32 a b = (a + b) % 2 ^ 32

abbrev pub sub32 : ℕ → ℕ → ℕ
sub32 a b = (a + 2 ^ 32 - b) % 2 ^ 32

pub sub32_lem : (a b : ℕ) → b ≤ a → a < 2 ^ 32 → sub32 a b ≡ a - b
sub32_lem a b h k = omega arith

pub add32_lem : (a b : ℕ) → a + b < 2 ^ 32 → add32 a b ≡ a + b
add32_lem a b h = omega arith

-- a - b of type std::uint64_t or std::size_t
abbrev pub sub64 : ℕ → ℕ → ℕ
sub64 a b = (a + 2 ^ 64 - b) % 2 ^ 64

pub sub64_lem : (a b : ℕ) → b ≤ a → a < 2 ^ 64 → sub64 a b ≡ a - b
sub64_lem a b h k = omega arith
