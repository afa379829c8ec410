-- ===== src/Pool/Agree.antt =====
-- A structure depends on the bytes that it covers only.
use dumpbin_py_zfs_rescue.Common.{ℕ, zero, suc, ◌+◌, ◌*◌, ◌<◌, ◌≤◌, ◌≡◌, ◌∷◌, refl, ap, arith}
use mathlib.Core.Path.{ap₂}
use dumpbin_py_zfs_rescue.Pool.Disk.{word_at, words_at, uberblock_of, uberblock_at}

module _ (f g : ℕ → ℕ) where
  word_agree : (p : ℕ) → ((i : ℕ) → p ≤ i → i < p + 8 → f i ≡ g i) → word_at f p ≡ word_at g p
  word_agree p same = omega (
    arith,
    same p (omega arith) (omega arith),
    same (p + 1) (omega arith) (omega arith),
    same (p + 2) (omega arith) (omega arith),
    same (p + 3) (omega arith) (omega arith),
    same (p + 4) (omega arith) (omega arith),
    same (p + 5) (omega arith) (omega arith),
    same (p + 6) (omega arith) (omega arith),
    same (p + 7) (omega arith) (omega arith),
  )

  words_agree :
      (n p : ℕ) → ((i : ℕ) → p ≤ i → i < p + n * 8 → f i ≡ g i) → words_at f p n ≡ words_at g p n
  unfolding words_at
  words_agree zero p same = refl
  words_agree (suc n) p same =
      ap₂ (λ x xs. x ∷ xs) (word_agree p (λ i le lt. same i (omega arith) (omega arith)))
        (words_agree n (p + 8) (λ i le lt. same i (omega arith) (omega arith)))

  pub uberblock_agree :
      (p : ℕ) → ((i : ℕ) → p ≤ i → i < p + 208 → f i ≡ g i) → uberblock_at f p ≡ uberblock_at g p
  uberblock_agree p same = ap uberblock_of (words_agree 26 p same)
