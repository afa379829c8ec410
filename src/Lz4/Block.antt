-- ===== src/Lz4/Block.antt =====
-- What a block of LZ4 means, with no reference to how it is decoded. A sequence is a token, literals,
-- the distance of a match and its length; the last one has literals only. `f` is the decoded text.
use dumpbin_py_zfs_rescue.Common.{ℕ, ◌+◌, ◌*◌, ◌/◌, ◌%◌, ◌≤◌, ◌<◌, ◌≡◌, ◌⊎◌}
use dumpbin_py_zfs_rescue.Lz4.Run.{Input}
use dumpbin_py_zfs_rescue.Lz4.Periodic.{Repeats}
use dumpbin_py_zfs_rescue.Lz4.Format.{HasLength}

-- `n` bytes of the text from `op` on are those of the input from `q` on.
abbrev pub Literals : (f : ℕ → ℕ) → Input → (op q n : ℕ) → Type 0
Literals f src op q n = (i : ℕ) → i < n → f (op + i) ≡ src.byte (q + i)

-- The distance of a match, least significant byte first.
abbrev pub distance_at : Input → ℕ → ℕ
distance_at src p = src.byte p + src.byte (p + 1) * 256

-- The format has no match of distance 0, and of the bytes that the decoder leaves for one nothing is
-- said here. The texts of blocks without one are pinned by `HasDistances` of Unique.
abbrev pub IsMatch : (f : ℕ → ℕ) → (off p n : ℕ) → Type 0
IsMatch f off p n = (off ≡ 0) ⊎ Repeats f off p n

-- The input from `ip` to `iend` stands for the text from `op` to `fin`.
pub data Block (src : Input) (iend : ℕ) (f : ℕ → ℕ) : (ip op fin : ℕ) → Type 0 where
  stop : {ip op fin : ℕ} → ip ≡ iend → fin ≡ op → Block src iend f ip op fin
  last :
      {ip op fin : ℕ} (n q : ℕ)
      → ip < iend
      → HasLength src iend (src.byte ip / 16) (ip + 1) n q
      → q + n ≡ iend
      → Literals f src op q n
      → fin ≡ op + n
      → Block src iend f ip op fin
  sequence :
      {ip op fin : ℕ} (n q m r : ℕ)
      → ip < iend
      → HasLength src iend (src.byte ip / 16) (ip + 1) n q
      → Literals f src op q n
      → q + n + 2 ≤ iend
      → distance_at src (q + n) ≤ op + n
      → HasLength src iend (src.byte ip % 16) (q + n + 2) m r
      → IsMatch f (distance_at src (q + n)) (op + n) (op + n + m + 4)
      → Block src iend f r (op + n + m + 4) fin
      → Block src iend f ip op fin
