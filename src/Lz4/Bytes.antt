-- ===== src/Lz4/Bytes.antt =====
-- The macros that read a number from bytes, BE_IN8 to LE_IN64, of extractor/lz4.cpp and de.c.
use dumpbin_py_zfs_rescue.Common.{ℕ, ◌+◌, ◌*◌, ◌^◌, bit_or}
use dumpbin_py_zfs_rescue.Lz4.Run.{Run, ok, ◌>>=◌, Input, fetch}

abbrev shl : ℕ → ℕ → ℕ
shl x k = x * 2 ^ k

unfoldable pub be_in8 : Input → ℕ → Run ℕ
unfolding fetch
be_in8 src p = fetch src p

unfoldable pub be_in16 : Input → ℕ → Run ℕ
unfolding be_in8
be_in16 src p = do hi ← be_in8 src p; lo ← be_in8 src (p + 1); ok (bit_or (shl hi 8) lo)

unfoldable pub be_in32 : Input → ℕ → Run ℕ
unfolding be_in16
be_in32 src p = do hi ← be_in16 src p; lo ← be_in16 src (p + 2); ok (bit_or (shl hi 16) lo)

unfoldable pub be_in64 : Input → ℕ → Run ℕ
unfolding be_in32
be_in64 src p = do hi ← be_in32 src p; lo ← be_in32 src (p + 4); ok (bit_or (shl hi 32) lo)

unfoldable pub le_in8 : Input → ℕ → Run ℕ
unfolding fetch
le_in8 src p = fetch src p

unfoldable pub le_in16 : Input → ℕ → Run ℕ
unfolding le_in8
le_in16 src p = do hi ← le_in8 src (p + 1); lo ← le_in8 src p; ok (bit_or (shl hi 8) lo)

unfoldable pub le_in32 : Input → ℕ → Run ℕ
unfolding le_in16
le_in32 src p = do hi ← le_in16 src (p + 2); lo ← le_in16 src p; ok (bit_or (shl hi 16) lo)

unfoldable pub le_in64 : Input → ℕ → Run ℕ
unfolding le_in32
le_in64 src p = do hi ← le_in32 src (p + 4); lo ← le_in32 src p; ok (bit_or (shl hi 32) lo)
