-- ===== src/Rescue/Repair.antt =====
-- The repair of a column in `RaidzDevice._read_physical` of zfs/zio.py, and `_xor`.
use dumpbin_py_zfs_rescue.Common.{ℕ, zero, suc, ◌+◌, [], ◌∷◌, List, true, false, set, ◌==◌}
use Prim.Native.Nat.{bit_xor}
use dumpbin_py_zfs_rescue.Rescue.Py.{Py, done, raised, ◌>>=◌}

-- for i in range(len(d)): p[i] ^= d[i]; an index past the end of `p` is an `IndexError`.
unfoldable pub xor_into : (p d : List ℕ) → Py (List ℕ)
xor_into p [] = done p
xor_into [] (x ∷ d) = raised
xor_into (y ∷ p) (x ∷ d) = xor_into p d >>= λ rest. done (bit_xor y x ∷ rest)

-- xs[:n]
abbrev pub take : {A : Type 0} → ℕ → List A → List A
take zero xs = []
take (suc n) [] = []
take (suc n) (x ∷ xs) = x ∷ take n xs

-- for b in range(1, len(col_data)): if b != bad: self._xor(parity, col_data[b])
unfoldable pub xor_others : (b bad : ℕ) → (parity : List ℕ) → List (List ℕ) → Py (List ℕ)
unfolding xor_into
xor_others b bad parity [] = done parity
xor_others b bad parity (d ∷ ds) = elim (b == bad) [
  | true ↦ xor_others (b + 1) bad parity ds
  | false ↦ xor_into parity d >>= λ p. xor_others (b + 1) bad p ds
]

-- `parity` is `col_data[0]` itself, which changes with it. col_data[bad] = parity[:bad_size]
unfoldable pub repair : (bad bad_size : ℕ) → List (List ℕ) → Py (List (List ℕ))
unfolding xor_others
repair bad bad_size [] = raised
repair bad bad_size (parity ∷ cols) =
    xor_others 1 bad parity cols >>= λ p. done (set (p ∷ cols) bad (take bad_size p))
