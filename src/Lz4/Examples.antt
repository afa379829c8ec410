-- ===== src/Lz4/Examples.antt =====
-- The properties of the 32-bit decoder, of the byte orders and of the callers of the decoder at small
-- inputs.
use dumpbin_py_zfs_rescue.Common.{ℕ, ◌%◌, ◌<◌, ◌≡◌, arith, [], ◌∷◌, List, true, some, get_or, refl}
use dumpbin_py_zfs_rescue.Lz4.Run.{fault, Input, Output}
use dumpbin_py_zfs_rescue.Lz4.Format.{IsBytes, short}
use dumpbin_py_zfs_rescue.Lz4.Narrow.{narrow_match}
use dumpbin_py_zfs_rescue.Lz4.Overflow.{narrow_match-fault}
use dumpbin_py_zfs_rescue.Lz4.Program.{de_main, Prints, de_main-Prints}

-- A match of eight bytes at a distance of four, and a byte behind it.
abbrev match_input : Input
match_input = record { size = 4; byte = λ i. get_or (0x04 ∷ 4 ∷ 0 ∷ 0x50 ∷ []) i 0 % 256 }

match_input-IsBytes : IsBytes match_input
match_input-IsBytes i = omega arith

-- Eight bytes are decoded, and there is room for nine more.
abbrev narrow_room : Output
narrow_room = record { size = 17; byte = λ i. i % 256 }

narrow_match-fault_example : narrow_match match_input 4 1 8 0x04 narrow_room ≡ fault
narrow_match-fault_example =
    narrow_match-fault match_input 4 match_input-IsBytes (omega arith) (omega arith) 1 8 0x04 4 3
      narrow_room (omega arith) (omega arith) (short (omega arith) refl refl) (omega arith)
      (omega arith) (omega arith) (omega arith)

-- Three literals behind their length.
abbrev some_file : List ℕ
some_file = 0 ∷ 0 ∷ 0 ∷ 4 ∷ 0x30 ∷ 65 ∷ 66 ∷ 67 ∷ []

some_file-bytes : (i : ℕ) → get_or some_file i 0 < 256
some_file-bytes i = ground arith

de_main-Prints_example :
    Prints (λ i. 0) true (some some_file) (de_main (some some_file) (λ i. 0) true)
de_main-Prints_example = de_main-Prints (some some_file) (λ i. 0) true some_file-bytes
