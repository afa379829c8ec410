-- ===== src/Common/Xor.antt =====
-- `x ^ y` on binary digits: it is associative, and twice the same number is none.
use Prim.Native.Nat.{
  ℕ, zero, suc, ◌+◌, ◌*◌, ◌/◌, ◌%◌, ◌≤◌, ◌<◌, digits, differ, bit_xor, bit_xor-bitwise,
}
use mathlib.Core.Path.{◌≡◌, refl, ap, sym, ◌∙◌}
use native.Mathlib.Omega.{arith}

abbrev xor_run : ℕ → ℕ → ℕ → ℕ
xor_run = digits (λ b. b) differ

xor_run_enough : (n k a b : ℕ) → a ≤ n → a ≤ k → xor_run n a b ≡ xor_run k a b
xor_run_enough zero zero a b p q = refl
xor_run_enough zero (suc k) zero b p q = refl
xor_run_enough zero (suc k) (suc a) b p q = absurd (omega arith)
xor_run_enough (suc n) zero zero b p q = refl
xor_run_enough (suc n) zero (suc a) b p q = absurd (omega arith)
xor_run_enough (suc n) (suc k) zero b p q = refl
xor_run_enough (suc n) (suc k) (suc a) b p q =
    omega (arith, xor_run_enough n k (suc a / 2) (b / 2) (omega arith) (omega arith))

differ_digits : (x y : ℕ) → x < 2 → y < 2 → differ x y ≡ (x + y) % 2
differ_digits zero y lt lt' = omega arith
differ_digits (suc zero) zero lt lt' = omega arith
differ_digits (suc zero) (suc zero) lt lt' = omega arith
differ_digits (suc zero) (suc (suc y)) lt lt' = absurd (omega arith)
differ_digits (suc (suc x)) y lt lt' = absurd (omega arith)

xor_halve_zero : (b : ℕ) → bit_xor 0 b ≡ b
xor_halve_zero b = bit_xor-bitwise 0 b

bit_xor_halve : (a b : ℕ) → bit_xor a b ≡ bit_xor (a / 2) (b / 2) * 2 + (a + b) % 2
bit_xor_halve zero b = omega (arith, xor_halve_zero b, xor_halve_zero (b / 2))
bit_xor_halve (suc a) b = omega (
  arith,
  differ_digits (suc a % 2) (b % 2) (omega arith) (omega arith),
  bit_xor-bitwise (suc a) b,
  bit_xor-bitwise (suc a / 2) (b / 2),
  xor_run_enough a (suc a / 2) (suc a / 2) (b / 2) (omega arith) (omega arith),
)

pub bit_xor-zero : (a : ℕ) → bit_xor a 0 ≡ a
bit_xor-zero a = below a a (omega arith)
  where
    below : (n a : ℕ) → a ≤ n → bit_xor a 0 ≡ a
    below n zero le = xor_halve_zero 0
    below zero (suc a) le = absurd (omega arith)
    below (suc n) (suc a) le =
        omega (arith, bit_xor_halve (suc a) 0, below n (suc a / 2) (omega arith))

pub bit_xor-same : (a : ℕ) → bit_xor a a ≡ 0
bit_xor-same a = below a a (omega arith)
  where
    below : (n a : ℕ) → a ≤ n → bit_xor a a ≡ 0
    below n zero le = xor_halve_zero 0
    below zero (suc a) le = absurd (omega arith)
    below (suc n) (suc a) le =
        omega (arith, bit_xor_halve (suc a) (suc a), below n (suc a / 2) (omega arith))

pub bit_xor_comm : (a b : ℕ) → bit_xor a b ≡ bit_xor b a
bit_xor_comm a b = below a a b (omega arith)
  where
    below : (n a b : ℕ) → a ≤ n → bit_xor a b ≡ bit_xor b a
    below n zero b le = xor_halve_zero b ∙ sym (bit_xor-zero b)
    below zero (suc a) b le = absurd (omega arith)
    below (suc n) (suc a) b le = omega (
      arith,
      bit_xor_halve (suc a) b,
      bit_xor_halve b (suc a),
      below n (suc a / 2) (b / 2) (omega arith),
    )

pub bit_xor_assoc : (a b c : ℕ) → bit_xor (bit_xor a b) c ≡ bit_xor a (bit_xor b c)
bit_xor_assoc a b c = below a a b c (omega arith)
  where
    below : (n a b c : ℕ) → a ≤ n → bit_xor (bit_xor a b) c ≡ bit_xor a (bit_xor b c)
    below n zero b c le =
        ap (λ t. bit_xor t c) (xor_halve_zero b) ∙ sym (xor_halve_zero (bit_xor b c))
    below zero (suc a) b c le = absurd (omega arith)
    below (suc n) (suc a) b c le =
        let x = bit_xor (suc a) b in
        let y = bit_xor b c in
        let xh : x / 2 ≡ bit_xor (suc a / 2) (b / 2) = omega (arith, bit_xor_halve (suc a) b) in
        let yh : y / 2 ≡ bit_xor (b / 2) (c / 2) = omega (arith, bit_xor_halve b c) in
        omega (
          arith,
          bit_xor_halve (suc a) b,
          bit_xor_halve b c,
          bit_xor_halve x c,
          bit_xor_halve (suc a) y,
          ap (λ t. bit_xor t (c / 2)) xh,
          ap (bit_xor (suc a / 2)) yh,
          below n (suc a / 2) (b / 2) (c / 2) (omega arith),
        )
