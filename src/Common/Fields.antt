-- ===== src/Common/Fields.antt =====
-- `(x << k) | y` as arithmetic, where `y` fits into the `k` bits below `x`.
use Prim.Native.Nat.{
  ℕ, zero, suc, ◌+◌, ◌*◌, ◌/◌, ◌%◌, ◌^◌, ◌≤◌, ◌<◌, max, digits, bit_or, bit_or-bitwise,
}
use mathlib.Core.Path.{◌≡◌, refl, ap}
use native.Mathlib.Nat.{pow-suc}
use native.Mathlib.Omega.{arith}

abbrev or_run : ℕ → ℕ → ℕ → ℕ
or_run = digits (λ b. b) max

or_run_enough : (n k a b : ℕ) → a ≤ n → a ≤ k → or_run n a b ≡ or_run k a b
or_run_enough zero zero a b p q = refl
or_run_enough zero (suc k) zero b p q = refl
or_run_enough zero (suc k) (suc a) b p q = absurd (omega arith)
or_run_enough (suc n) zero zero b p q = refl
or_run_enough (suc n) zero (suc a) b p q = absurd (omega arith)
or_run_enough (suc n) (suc k) zero b p q = refl
or_run_enough (suc n) (suc k) (suc a) b p q =
    omega (arith, or_run_enough n k (suc a / 2) (b / 2) (omega arith) (omega arith))

bit_or_halve : (a b : ℕ) → bit_or a b ≡ bit_or (a / 2) (b / 2) * 2 + max (a % 2) (b % 2)
bit_or_halve zero b = omega (arith, bit_or-bitwise 0 b, bit_or-bitwise 0 (b / 2))
bit_or_halve (suc a) b = omega (
  arith,
  bit_or-bitwise (suc a) b,
  bit_or-bitwise (suc a / 2) (b / 2),
  or_run_enough a (suc a / 2) (suc a / 2) (b / 2) (omega arith) (omega arith),
)

bit_or-zero_below : (n a : ℕ) → a ≤ n → bit_or a 0 ≡ a
bit_or-zero_below n zero h = refl
bit_or-zero_below zero (suc a) h = absurd (omega arith)
bit_or-zero_below (suc n) (suc a) h =
    omega (arith, bit_or_halve (suc a) 0, bit_or-zero_below n (suc a / 2) (omega arith))

shift-suc : (x k : ℕ) → x * 2 ^ suc k ≡ x * 2 ^ k * 2
shift-suc x k = omega (arith, ap (λ (t : ℕ). x * t) (pow-suc 2 k))

pub bit_or-shift : (k x y : ℕ) → y < 2 ^ k → bit_or (x * 2 ^ k) y ≡ x * 2 ^ k + y
bit_or-shift zero x y lt = ground (arith, bit_or-zero_below x x)
bit_or-shift (suc k) x y lt =
    ground
      (arith, bit_or_halve (x * 2 ^ suc k) y, shift-suc x k, bit_or-shift k x (y / 2) (omega arith))

bit_or-zero : (b : ℕ) → bit_or 0 b ≡ b
bit_or-zero b = bit_or-bitwise 0 b

pub bit_or-low : (k x y : ℕ) → x < 2 ^ k → bit_or x (y * 2 ^ k) ≡ y * 2 ^ k + x
bit_or-low zero zero y lt = ground (arith, bit_or-zero y)
bit_or-low zero (suc x) y lt = absurd (ground arith)
bit_or-low (suc k) x y lt =
    ground
      (arith, bit_or_halve x (y * 2 ^ suc k), shift-suc y k, bit_or-low k (x / 2) y (omega arith))
