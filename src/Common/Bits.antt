-- ===== src/Common/Bits.antt =====
-- `x & (1 << k)` as arithmetic: `bit_and` is a recursion on binary digits, and a single bit selects
-- the digit at its place.
use Prim.Native.Nat.{
  ℕ, zero, suc, ◌+◌, ◌-◌, ◌*◌, ◌/◌, ◌%◌, ◌^◌, ◌≤◌, min, digits, bit_and, bit_and-bitwise,
}
use mathlib.Core.Path.{◌≡◌, refl, ap, subst}
use native.Mathlib.Nat.{pow-suc, one-le-pow, mod-add-div', mul_comm, div-div-eq-div-mul}
use native.Mathlib.Omega.{arith}

abbrev and_run : ℕ → ℕ → ℕ → ℕ
and_run = digits (λ b. zero) min

-- The count of digits to go does not matter once it is at least the first number.
and_run_enough : (n k a b : ℕ) → a ≤ n → a ≤ k → and_run n a b ≡ and_run k a b
and_run_enough zero zero a b p q = refl
and_run_enough zero (suc k) zero b p q = refl
and_run_enough zero (suc k) (suc a) b p q = absurd (omega arith)
and_run_enough (suc n) zero zero b p q = refl
and_run_enough (suc n) zero (suc a) b p q = absurd (omega arith)
and_run_enough (suc n) (suc k) zero b p q = refl
and_run_enough (suc n) (suc k) (suc a) b p q =
    omega (arith, and_run_enough n k (suc a / 2) (b / 2) (omega arith) (omega arith))

pub bit_and_halve : (a b : ℕ) → bit_and a b ≡ bit_and (a / 2) (b / 2) * 2 + min (a % 2) (b % 2)
bit_and_halve zero b = omega (arith, bit_and-bitwise 0 b, bit_and-bitwise 0 (b / 2))
bit_and_halve (suc a) b = omega (
  arith,
  bit_and-bitwise (suc a) b,
  bit_and-bitwise (suc a / 2) (b / 2),
  and_run_enough a (suc a / 2) (suc a / 2) (b / 2) (omega arith) (omega arith),
)

bit_and-zero_below : (n a : ℕ) → a ≤ n → bit_and a 0 ≡ 0
bit_and-zero_below n zero h = refl
bit_and-zero_below zero (suc a) h = absurd (omega arith)
bit_and-zero_below (suc n) (suc a) h =
    omega (arith, bit_and_halve (suc a) 0, bit_and-zero_below n (suc a / 2) (omega arith))

bit_and-one : (a : ℕ) → bit_and a 1 ≡ a % 2
bit_and-one a = omega (arith, bit_and_halve a 1, bit_and-zero_below (a / 2) (a / 2) (omega arith))

div-pow-suc : (k a : ℕ) → a / (2 ^ k * 2) ≡ a / 2 / 2 ^ k
div-pow-suc k a = rw (div-div-eq-div-mul a 2 (2 ^ k), mul_comm (2 ^ k) 2)

-- The bit at place `k`.
pub bit_and-pow : (k a : ℕ) → bit_and a (2 ^ k) ≡ a / 2 ^ k % 2 * 2 ^ k
bit_and-pow zero a = omega (arith, bit_and-one a)
bit_and-pow (suc k) a =
    let half : 2 ^ k * 2 / 2 ≡ 2 ^ k = omega arith in
    rw (pow-suc, div-pow-suc k a)
      (ground (arith, bit_and_halve a (2 ^ k * 2), half, bit_and-pow k (a / 2)))

mod-pow-suc : (k a : ℕ) → a % (2 ^ k * 2) ≡ a / 2 % 2 ^ k * 2 + a % 2
mod-pow-suc k a =
    let low : a % (2 ^ k * 2) + a / 2 / 2 ^ k * (2 ^ k * 2) ≡ a =
      subst (λ t. a % (2 ^ k * 2) + t * (2 ^ k * 2) ≡ a) (div-pow-suc k a)
        (mod-add-div' a (2 ^ k * 2)) in
    omega (arith, low, mod-add-div' (a / 2) (2 ^ k))

-- A mask of the `k` lowest bits.
pub bit_and-mask : (k a : ℕ) → bit_and a (2 ^ k - 1) ≡ a % 2 ^ k
bit_and-mask zero a = omega (arith, bit_and-zero_below a a (omega arith))
bit_and-mask (suc k) a =
    let some_low : 1 ≤ 2 ^ k = one-le-pow k 2 (omega arith) in
    let half : (2 ^ k * 2 - 1) / 2 ≡ 2 ^ k - 1 = omega (arith, some_low) in
    rw pow-suc (
      ground (
        arith,
        bit_and_halve a (2 ^ k * 2 - 1),
        ap (bit_and (a / 2)) half,
        some_low,
        mod-pow-suc k a,
        bit_and-mask k (a / 2),
      ))
