-- ===== src/Base/Bits.antt =====
-- `x & (n - 1)` for a power of two, and remainders of a counter that wraps at a larger power.
use Prim.Native.Nat.{
  ℕ, zero, suc, ◌+◌, ◌-◌, ◌*◌, ◌/◌, ◌%◌, ◌^◌, ◌≤◌, ◌<◌, ◌∣◌, min, bit_and, digits, bit_and-bitwise,
}
use mathlib.Core.Path.{◌≡◌, refl, ap, ◌∙◌}
use mathlib.Core.Logic.{inl, inr}
use mathlib.Core.Bool.{Bool, true, false, ◌||◌}
use native.Mathlib.Nat.{
  one-le-pow, mod-mod_of_dvd, dvd_refl, dvd-mul_left_of_dvd, mul_assoc, pow-succ', pow-le-pow_right,
  div-add-mod, mod-lt, mod-eq_of_lt, add-mul-mod_self_left,
}
use native.Mathlib.Decide.{dec_le}
use native.Mathlib.Omega.{arith}
use atlas_io.Base.Tests.{◌==◌, ==_iff, Bool-cases}

-- `bit_and` is defined by its digits, on fuel: any two fuels that cover the left operand agree.
abbrev meet : ℕ → ℕ → ℕ → ℕ
meet fuel = digits (λ _. 0) min fuel

meet_fuel : (f g x y : ℕ) → x ≤ f → x ≤ g → meet f x y ≡ meet g x y
meet_fuel f g zero y p q = empty f ∙ λ i. sym' g i
  where
    empty : (h : ℕ) → meet h 0 y ≡ 0
    empty zero = refl
    empty (suc h) = refl

    sym' : (h : ℕ) → 0 ≡ meet h 0 y
    sym' zero = refl
    sym' (suc h) = refl
meet_fuel zero g (suc x) y p q = absurd (omega arith)
meet_fuel (suc f) zero (suc x) y p q = absurd (omega arith)
meet_fuel (suc f) (suc g) (suc x) y p q =
    omega (arith, meet_fuel f g (suc x / 2) (y / 2) (omega arith) (omega arith))

-- The lowest digit, and the rest.
bit_and_halves : (x y : ℕ) → bit_and x y ≡ min (x % 2) (y % 2) + 2 * bit_and (x / 2) (y / 2)
bit_and_halves zero y = omega (arith, bit_and-bitwise 0 y, bit_and-bitwise 0 (y / 2))
bit_and_halves (suc x) y = omega (
  arith,
  bit_and-bitwise (suc x) y,
  bit_and-bitwise (suc x / 2) (y / 2),
  meet_fuel x (suc x / 2) (suc x / 2) (y / 2) (omega arith) (omega arith),
)

meet_none : (f x : ℕ) → x ≤ f → bit_and x 0 ≡ 0
meet_none f zero h = bit_and-bitwise 0 0
meet_none zero (suc x) h = absurd (omega arith)
meet_none (suc f) (suc x) h =
    omega (arith, bit_and_halves (suc x) 0, meet_none f (suc x / 2) (omega arith))

two-pow-pos : (k : ℕ) → 0 < 2 ^ k
two-pow-pos k = one-le-pow k 2 (omega arith)

-- Doubling the modulus brings in one more digit.
mod-double : (x d : ℕ) → 0 < d → x % (2 * d) ≡ x % 2 + 2 * (x / 2 % d)
mod-double x d h =
    let r = x % 2 + 2 * (x / 2 % d) in
    let q = x / 2 / d in
    let whole : x ≡ r + 2 * d * q = omega (arith, div-add-mod (x / 2) d, mul_assoc 2 d q) in
    let small : r < 2 * d = omega (arith, mod-lt (x / 2) {m = d} h) in
    ap (λ k. k % (2 * d)) whole ∙ add-mul-mod_self_left r (2 * d) q ∙ mod-eq_of_lt small

-- A mask of `k` ones is the remainder by `2 ^ k`.
pub bit_and_mask : (k x : ℕ) → bit_and x (2 ^ k - 1) ≡ x % 2 ^ k
bit_and_mask zero x = omega (arith, meet_none x x (omega arith))
bit_and_mask (suc k) x = rw pow-succ' (
    let half = bit_and_mask k (x / 2) in
    let odd : 2 * 2 ^ k - 1 ≡ 2 * (2 ^ k - 1) + 1 = omega (arith, two-pow-pos k) in
    let mask : (2 * 2 ^ k - 1) / 2 ≡ 2 ^ k - 1 = omega (arith, odd) in
    omega (
      arith,
      bit_and_halves x (2 * 2 ^ k - 1),
      odd,
      ap (bit_and (x / 2)) mask,
      half,
      mod-double x (2 ^ k) (two-pow-pos k),
    ))

-- `N.is_power_of_two()`: one of the 64 words with a single bit set.
abbrev power_below : ℕ → ℕ → Bool
power_below zero n = false
power_below (suc k) n = n == 2 ^ k || power_below k n

unfoldable pub is_power_of_two : ℕ → Bool
is_power_of_two n = power_below 64 n

-- What `is_power_of_two` tells the arithmetic below.
pub record IsPower (n : ℕ) : Type 0 where
  pub exponent : ℕ
  pub small : exponent < 64
  pub value : n ≡ 2 ^ exponent

power_below_sound : (k n : ℕ) → k ≤ 64 → power_below k n ≡ true → IsPower n
power_below_sound zero n le h = cc
power_below_sound (suc k) n le h = elim (Bool-cases (n == 2 ^ k)) [
  | inl e ↦ record { exponent = k; small = omega arith; value = (==_iff n (2 ^ k)).0 e }
  | inr e ↦ power_below_sound k n (omega arith) (rw e at h)
]

pub is_power_of_two-IsPower : (n : ℕ) → is_power_of_two n ≡ true → IsPower n
unfolding is_power_of_two
is_power_of_two-IsPower n h = power_below_sound 64 n (omega arith) h

two-pow-dvd : (k m : ℕ) → k ≤ m → 2 ^ k ∣ 2 ^ m
two-pow-dvd k zero h = let e : k ≡ 0 = omega arith in rw e (dvd_refl (2 ^ 0))
two-pow-dvd k (suc m) h = elim (dec_le k m) [
  | yes le ↦ rw pow-succ' (dvd-mul_left_of_dvd (2 ^ k) (two-pow-dvd k m le) 2)
  | no gt ↦ let e : k ≡ suc m = omega arith in rw e (dvd_refl (2 ^ suc m))
]

module _ {n : ℕ} (p : IsPower n) where
  pub IsPower-pos : 0 < n
  IsPower-pos = omega (arith, p.value, two-pow-pos p.exponent)

  pub IsPower-le : n ≤ 2 ^ 63
  IsPower-le = rw p.value (pow-le-pow_right {n = 2} (omega arith) {j = 63} (omega (arith, p.small)))

  -- The slot of a counter is its remainder.
  pub mask-mod : (x : ℕ) → bit_and x (n - 1) ≡ x % n
  mask-mod x = rw p.value (bit_and_mask p.exponent x)

  -- The wrap of a counter does not change its slot.
  pub wrap-mod : (x : ℕ) → x % 2 ^ 64 % n ≡ x % n
  wrap-mod x = mod-mod_of_dvd n x (rw p.value (two-pow-dvd p.exponent 64 (omega (arith, p.small))))
