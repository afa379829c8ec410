-- ===== src/Lz4/Run.antt =====
-- The decoder's results, and its two buffers. A pointer is its distance from the start of its buffer;
-- it is compared without wrap-around, which C does not define.
use dumpbin_py_zfs_rescue.Common.{ℕ, ◌+◌, ◌-◌, ◌*◌, Bool, true, false, ltb, leb}

-- `output_error ip` is `goto _output_error`, which reports how far the input was read; `fault` is an
-- access outside a buffer.
pub data Run (A : Type 0) : Type 0 where
  ok : A → Run A
  output_error : ℕ → Run A
  fault : Run A
  out_of_fuel : Run A

infixl 5 ◌>>=◌ ◌>>◌
abbrev pub ◌>>=◌ : {A B : Type 0} → Run A → (A → Run B) → Run B
ok a >>= k = k a
output_error ip >>= k = output_error ip
fault >>= k = fault
out_of_fuel >>= k = out_of_fuel

abbrev pub ◌>>◌ : {B : Type 0} → Run (Unit {0}) → Run B → Run B
m >> k = m >>= λ _. k

-- An access is inside its buffer.
abbrev pub inside : Bool → Run (Unit {0})
inside true = ok tt
inside false = fault

-- `if (...) goto _output_error;`
abbrev pub fail_if : Bool → ℕ → Run (Unit {0})
fail_if true ip = output_error ip
fail_if false ip = ok tt

-- A buffer that is only read: `size` bytes can be.
pub record Input : Type 0 where
  pub size : ℕ
  pub byte : ℕ → ℕ

-- The output buffer: its size does not change.
pub record Output : Type 0 where
  pub size : ℕ
  pub byte : ℕ → ℕ

-- `*p` of the input
unfoldable pub fetch : Input → ℕ → Run ℕ
fetch src p = do inside (ltb p src.size); ok (src.byte p)

-- `LZ4_READ_LITTLEENDIAN_16`, on a little-endian machine: the 16 bits at `p`.
unfoldable pub fetch16 : Input → ℕ → Run ℕ
unfolding fetch
fetch16 src p = do lo ← fetch src p; hi ← fetch src (p + 1); ok (lo + hi * 256)

-- The `n` bytes from `d` on are those that `from` gives, the rest stays.
unfoldable pub overwrite : (ℕ → ℕ) → (d n : ℕ) → (ℕ → ℕ) → ℕ → ℕ
overwrite old d n from i = elim (leb d i) [
  | true ↦ elim (ltb i (d + n)) [ true ↦ from i | false ↦ old i ]
  | false ↦ old i
]

-- `n` bytes of the input at `s` to the output at `d`.
unfoldable pub copy_in : Input → (n s d : ℕ) → Output → Run Output
unfolding overwrite
copy_in src n s d out = do
  inside (leb (s + n) src.size)
  inside (leb (d + n) out.size)
  ok (record out { byte = overwrite out.byte d n (λ i. src.byte (s + (i - d))) })

-- `n` bytes of the output at `s` to the output at `d`, all read before the first is written: one load
-- and one store.
unfoldable pub copy_out : (n s d : ℕ) → Output → Run Output
unfolding overwrite
copy_out n s d out = do
  inside (leb (s + n) out.size)
  inside (leb (d + n) out.size)
  ok (record out { byte = overwrite out.byte d n (λ i. out.byte (s + (i - d))) })
