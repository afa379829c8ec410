-- ===== src/Lz4/Format.antt =====
-- The lengths of a sequence. The format says: four bits of the token, and if they are all ones also the
-- bytes that follow, up to the first that is not 255.
use dumpbin_py_zfs_rescue.Common.{ℕ, ◌+◌, ◌≤◌, ◌<◌, ◌≡◌, ◌≢◌}
use dumpbin_py_zfs_rescue.Lz4.Run.{Input}

abbrev pub IsBytes : Input → Type 0
IsBytes src = (i : ℕ) → src.byte i < 256

-- The bytes from `p` on add `n` to a length and end before `q`. The input may end within them.
pub data Extended (src : Input) (iend : ℕ) : (p n q : ℕ) → Type 0 where
  none_left : {p n q : ℕ} → iend ≤ p → n ≡ 0 → q ≡ p → Extended src iend p n q
  last :
      {p n q : ℕ}
      → p < iend
      → src.byte p ≢ 255
      → n ≡ src.byte p
      → q ≡ p + 1
      → Extended src iend p n q
  more :
      {p n q : ℕ} (k : ℕ)
      → p < iend
      → src.byte p ≡ 255
      → n ≡ 255 + k
      → Extended src iend (p + 1) k q
      → Extended src iend p n q

-- A length with four bits `bits` in the token, and its bytes from `p` on.
pub data HasLength (src : Input) (iend bits p n q : ℕ) : Type 0 where
  short : bits ≢ 15 → n ≡ bits → q ≡ p → HasLength src iend bits p n q
  long : (k : ℕ) → bits ≡ 15 → n ≡ 15 + k → Extended src iend p k q → HasLength src iend bits p n q
