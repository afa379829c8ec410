-- ===== src/Pool/Written.antt =====
-- Words in memory are fields of eight bytes.
use dumpbin_py_zfs_rescue.Common.{ℕ, zero, suc, ◌+◌, ◌≡◌, ◌∷◌, refl, ap, arith}
use mathlib.Core.Path.{ap₂}
use dumpbin_py_zfs_rescue.Pool.Fields.{fields_at, copies, le_at}
use dumpbin_py_zfs_rescue.Pool.Disk.{word_at, words_at}

pub word_at-le_at : (b : ℕ → ℕ) (p : ℕ) → word_at b p ≡ le_at b p 8
unfolding le_at
word_at-le_at b p =
    let e2 : p + 1 + 1 ≡ p + 2 = omega arith in
    let e3 : p + 1 + 1 + 1 ≡ p + 3 = omega arith in
    let e4 : p + 1 + 1 + 1 + 1 ≡ p + 4 = omega arith in
    let e5 : p + 1 + 1 + 1 + 1 + 1 ≡ p + 5 = omega arith in
    let e6 : p + 1 + 1 + 1 + 1 + 1 + 1 ≡ p + 6 = omega arith in
    let e7 : p + 1 + 1 + 1 + 1 + 1 + 1 + 1 ≡ p + 7 = omega arith in
    omega (arith, ap b e2, ap b e3, ap b e4, ap b e5, ap b e6, ap b e7)

pub words_at-fields_at : (b : ℕ → ℕ) (n p : ℕ) → words_at b p n ≡ fields_at b p (copies n 8)
unfolding words_at fields_at
words_at-fields_at b zero p = refl
words_at-fields_at b (suc n) p =
    ap₂ (λ x xs. x ∷ xs) (word_at-le_at b p) (words_at-fields_at b n (p + 8))
