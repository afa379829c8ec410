-- ===== src/Lz4/Copy.antt =====
-- The copy macros of the decoder on a 64-bit machine, and its byte loop. A loop takes fuel.
use dumpbin_py_zfs_rescue.Common.{ℕ, zero, suc, ◌+◌, ◌-◌, ltb, true, false}
use dumpbin_py_zfs_rescue.Lz4.Run.{Run, ok, out_of_fuel, ◌>>=◌, Input, Output, copy_in, copy_out}

-- Where the two pointers stand after a copy, and the output.
pub record Copied : Type 0 where
  pub from : ℕ
  pub to : ℕ
  pub out : Output

abbrev pub copylength : ℕ
copylength = 8

abbrev pub stepsize : ℕ
stepsize = 8

-- `LZ4_WILDCOPY(s, d, e)` from the input: do { 8 bytes } while (d < e).
unfoldable pub wildcopy_in : Input → (fuel s d e : ℕ) → Output → Run Copied
unfolding copy_in
wildcopy_in src zero s d e out = out_of_fuel
wildcopy_in src (suc fuel) s d e out = do
  out ← copy_in src stepsize s d out
  elim (ltb (d + stepsize) e) [
    | true ↦ wildcopy_in src fuel (s + stepsize) (d + stepsize) e out
    | false ↦ ok (record { from = s + stepsize; to = d + stepsize; out = out })
  ]

-- `LZ4_WILDCOPY(s, d, e)` within the output.
unfoldable pub wildcopy_out : (fuel s d e : ℕ) → Output → Run Copied
unfolding copy_out
wildcopy_out zero s d e out = out_of_fuel
wildcopy_out (suc fuel) s d e out = do
  out ← copy_out stepsize s d out
  elim (ltb (d + stepsize) e) [
    | true ↦ wildcopy_out fuel (s + stepsize) (d + stepsize) e out
    | false ↦ ok (record { from = s + stepsize; to = d + stepsize; out = out })
  ]

-- `LZ4_SECURECOPY(s, d, e)`: if (d < e) LZ4_WILDCOPY(s, d, e)
unfoldable pub securecopy : (s d e : ℕ) → Output → Run Copied
unfolding wildcopy_out
securecopy s d e out = elim (ltb d e) [
  | true ↦ wildcopy_out (suc (e - d)) s d e out
  | false ↦ ok (record { from = s; to = d; out = out })
]

-- while (op < cpy) *op++ = *ref++;
unfoldable pub bytecopy : (fuel s d e : ℕ) → Output → Run Copied
unfolding copy_out
bytecopy zero s d e out = out_of_fuel
bytecopy (suc fuel) s d e out = elim (ltb d e) [
  | true ↦ do out ← copy_out 1 s d out; bytecopy fuel (s + 1) (d + 1) e out
  | false ↦ ok (record { from = s; to = d; out = out })
]
