-- ===== src/Lz4/Program.antt =====
-- `main` of de.c, which decodes the block in a file.
use dumpbin_py_zfs_rescue.Common.{
  ℕ, ◌+◌, ◌≤◌, ◌<◌, ◌≡◌, inl, inr, refl, arith, [], List, Bool, Option, none, some, get_or,
  if◌then◌else◌,
}
use dumpbin_py_zfs_rescue.Lz4.Run.{Run, ok, ◌>>=◌, Input, Output}
use dumpbin_py_zfs_rescue.Lz4.Decode.{Decoder}
use dumpbin_py_zfs_rescue.Lz4.Decompress.{Status, rest_of, lz4_decompress_zfs}
use dumpbin_py_zfs_rescue.Lz4.Refine.{Decoded}
use dumpbin_py_zfs_rescue.Lz4.Header.{big_endian32, lz4_decompress-Decoded}

-- `fopen` of "rescued/block.16384.lz4" gives the bytes of the file or nothing; whether
-- "rescued/block.16384.bin" can be opened is a parameter. In each case the number that is printed.
pub data DeResult : Type 0 where
  no_block : DeResult
  not_saved : Status → DeResult
  -- 16384 bytes of the output have been written to the file.
  saved : Status → DeResult

-- `bin` after fread(bin,1,4096,f): behind the bytes of a short file it keeps what the stack had.
abbrev pub bin_of : List ℕ → (stack : ℕ → ℕ) → Input
bin_of file stack = record { size = 4096; byte = λ i. get_or file i (stack i) }

-- `bout` after the call of memset
abbrev pub bout : Output
bout = record { size = 16384; byte = λ i. 0 }

unfoldable pub de_main : Option (List ℕ) → (stack : ℕ → ℕ) → (can_save : Bool) → Run DeResult
unfolding lz4_decompress_zfs
de_main none stack can_save = ok no_block
de_main (some file) stack can_save = do
  l ← lz4_decompress_zfs (bin_of file stack) 4096 bout
  ok (if can_save then saved l else not_saved l)

abbrev pub bytes_of : Option (List ℕ) → List ℕ
bytes_of none = []
bytes_of (some file) = file

-- What the program ends with: without a file nothing is decoded; else the number is 1, or it is 0 and
-- the block that the header counts is decoded.
pub data Prints (stack : ℕ → ℕ) (can_save : Bool) : Option (List ℕ) → Run DeResult → Type 0 where
  no_file : Prints stack can_save none (ok no_block)
  one :
      {file : List ℕ} (l : Status)
      → l.code ≡ 1
      → Prints stack can_save (some file) (ok (if can_save then saved l else not_saved l))
  zero_and_block :
      {file : List ℕ} (l : Status) (d : Decoder)
      → l.code ≡ 0
      → l.decoded ≡ some d
      → big_endian32 (bin_of file stack).byte 0 + 4 ≤ 4096
      → Decoded (rest_of (bin_of file stack) 4) (big_endian32 (bin_of file stack).byte 0) 0 0 bout d
      → Prints stack can_save (some file) (ok (if can_save then saved l else not_saved l))

-- Whether the file of the block can be opened or not, the program ends, and no access is outside a
-- buffer. Without the file it decodes nothing. With it the number that it prints is 1, or is 0 where the
-- decoded block stands in the output, of which the matches with a distance of 0 may be any bytes: it is
-- never the 16384 that the message expects.
pub de_main-Prints :
    (file : Option (List ℕ)) (stack : ℕ → ℕ) (can_save : Bool)
    → ((i : ℕ) → get_or (bytes_of file) i (stack i) < 256)
    → Prints stack can_save file (de_main file stack can_save)
unfolding de_main
de_main-Prints none stack can_save in_bytes = no_file
de_main-Prints (some file) stack can_save in_bytes =
    elim (lz4_decompress-Decoded (bin_of file stack) 4096 bout in_bytes (omega arith) (omega arith)
      (omega arith) (omega arith)) [
        | inl e ↦ rw e (one (record { code = 1; decoded = none }) refl)
        | inr (d, e, fits, decoded) ↦
            rw e (zero_and_block (record { code = 0; decoded = some d }) d refl refl fits decoded)
      ]
