-- ===== src/Bits/Step.antt =====
-- `|` and `&` on the lowest digit. The native operations are given by a digit recursion on fuel,
-- so the first lemma says that any fuel from the first operand up gives one value.
use Prim.Native.Nat.{digits, bit_and-bitwise, bit_or-bitwise}
use avi_kernel.Base.{
  ℕ, zero, suc, ◌+◌, ◌*◌, ◌/◌, ◌%◌, ◌≤◌, ◌<◌, min, max, bit_and, bit_or, ◌≡◌, refl, arith,
}

-- `rest` is what the operation makes of the second operand once the first is used up.
module _ (rest : ℕ → ℕ) (op : ℕ → ℕ → ℕ) where
  enough_fuel :
      (a b fuel more : ℕ)
      → a ≤ fuel
      → fuel ≤ more
      → digits rest op more a b ≡ digits rest op fuel a b
  enough_fuel zero b zero zero low high = refl
  enough_fuel zero b zero (suc more) low high = refl
  enough_fuel zero b (suc fuel) zero low high = refl
  enough_fuel zero b (suc fuel) (suc more) low high = refl
  enough_fuel (suc a) b zero more low high = absurd (omega arith)
  enough_fuel (suc a) b (suc fuel) zero low high = absurd (omega arith)
  enough_fuel (suc a) b (suc fuel) (suc more) low high =
      let below = enough_fuel (suc a / 2) (b / 2) fuel more in
      rw (below (omega arith) (omega arith))

pub bit_or_step : (x y : ℕ) → bit_or x y ≡ max (x % 2) (y % 2) + 2 * bit_or (x / 2) (y / 2)
bit_or_step zero y = omega (arith, bit_or-bitwise 0 (y / 2), bit_or-bitwise 0 y)
bit_or_step (suc x) y =
    let half = suc x / 2 in
    let fuel = enough_fuel (λ r. r) max half (y / 2) half x (omega arith) (omega arith) in
    omega (arith, fuel, bit_or-bitwise half (y / 2), bit_or-bitwise (suc x) y)

pub bit_and_step : (x y : ℕ) → bit_and x y ≡ min (x % 2) (y % 2) + 2 * bit_and (x / 2) (y / 2)
bit_and_step zero y = omega (arith, bit_and-bitwise 0 (y / 2), bit_and-bitwise 0 y)
bit_and_step (suc x) y =
    let half = suc x / 2 in
    let fuel = enough_fuel (λ r. 0) min half (y / 2) half x (omega arith) (omega arith) in
    omega (arith, fuel, bit_and-bitwise half (y / 2), bit_and-bitwise (suc x) y)

-- `&` with 0 on the left needs no digits.
pub zero-bit_and : (y : ℕ) → bit_and 0 y ≡ 0
zero-bit_and y = bit_and-bitwise 0 y

-- The digits of `a` fall away one by one.
and_zero_within : (bound a : ℕ) → a < bound → bit_and a 0 ≡ 0
and_zero_within zero a h = absurd (omega arith)
and_zero_within (suc bound) zero h = zero-bit_and 0
and_zero_within (suc bound) (suc a) h =
    omega (arith, bit_and_step (suc a) 0, and_zero_within bound (suc a / 2) (omega arith))

pub bit_and-zero : (a : ℕ) → bit_and a 0 ≡ 0
bit_and-zero a = and_zero_within (suc a) a (omega arith)

or_zero_within : (bound a : ℕ) → a < bound → bit_or a 0 ≡ a
or_zero_within zero a h = absurd (omega arith)
or_zero_within (suc bound) zero h = bit_or-bitwise 0 0
or_zero_within (suc bound) (suc a) h =
    omega (arith, bit_or_step (suc a) 0, or_zero_within bound (suc a / 2) (omega arith))

pub bit_or-zero : (a : ℕ) → bit_or a 0 ≡ a
bit_or-zero a = or_zero_within (suc a) a (omega arith)
