-- ===== src/Spsc/Slots.antt =====
-- The slot of a counter: inside the array, the same after the wrap, and distinct for counters less
-- than a capacity apart.
use atlas_io.Base.{ℕ, ◌+◌, ◌%◌, ◌^◌, ◌<◌, ◌≡◌, ◌≢◌, arith, ◌∙◌}
use atlas_io.Base.Bits.{IsPower, IsPower-pos, mask-mod, wrap-mod}
use native.Mathlib.Nat.{mod-lt, div-add-mod}
use atlas_io.Spsc.{slot_index}

module _ {n : ℕ} (p : IsPower n) where
  -- Every index that `push` writes or `pop` reads lies inside the array of `n` slots.
  pub slot_index-lt : (counter : ℕ) → slot_index n counter < n
  slot_index-lt counter = omega (arith, mask-mod p counter, mod-lt counter {m = n} (IsPower-pos p))

  -- A wrapped counter names the slot of the count that it stands for.
  pub slot_index-wrap : (count : ℕ) → slot_index n (count % 2 ^ 64) ≡ count % n
  slot_index-wrap count = mask-mod p (count % 2 ^ 64) ∙ wrap-mod p count

-- Counts less than `n` apart have different slots.
pub mod_ne : (n a b : ℕ) → a < b → b < a + n → a % n ≢ b % n
mod_ne n a b lt near e = grind (arith, div-add-mod a n, div-add-mod b n)
