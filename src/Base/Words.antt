-- ===== src/Base/Words.antt =====
-- Machine words as native numbers: `u64`, `usize` (64 bits) and `u32`.
use Prim.Native.Nat.{ℕ, ◌+◌, ◌-◌, ◌%◌, ◌^◌, ◌≤◌, ◌<◌}
use mathlib.Core.Path.{◌≡◌}
use native.Mathlib.Omega.{arith}

abbrev pub u64_mod : ℕ
u64_mod = 2 ^ 64

abbrev pub u32_mod : ℕ
u32_mod = 2 ^ 32

-- `a.wrapping_add(b)`, and `a + b` of a release build
abbrev pub wrapping_add : ℕ → ℕ → ℕ
wrapping_add a b = (a + b) % u64_mod

-- `a.wrapping_sub(b)` of two words
abbrev pub wrapping_sub : ℕ → ℕ → ℕ
wrapping_sub a b = (a + u64_mod - b) % u64_mod

-- `a + b` on `u32` in a release build
abbrev pub add_u32 : ℕ → ℕ → ℕ
add_u32 a b = (a + b) % u32_mod

-- `a - b` on `u32` in a release build
abbrev pub sub_u32 : ℕ → ℕ → ℕ
sub_u32 a b = (a + u32_mod - b) % u32_mod

-- `a as u32`
abbrev pub as_u32 : ℕ → ℕ
as_u32 a = a % u32_mod

-- The distance of two counters survives the wrap.
pub wrapping_sub_mod :
    (a b : ℕ) → b ≤ a → a - b < u64_mod → wrapping_sub (a % u64_mod) (b % u64_mod) ≡ a - b
wrapping_sub_mod a b h k = omega arith

pub wrapping_add_mod : (a b : ℕ) → wrapping_add (a % u64_mod) b ≡ (a + b) % u64_mod
wrapping_add_mod a b = omega arith
