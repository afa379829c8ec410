-- ===== src/Rescue/Examples.antt =====
-- Blocks that `read_block` returns, and the properties of what it returns at them.
use dumpbin_py_zfs_rescue.Common.{
  ℕ, zero, suc, ◌+◌, ◌^◌, ◌≤◌, ◌<◌, ◌≡◌, refl, inr, ltb, ltb→lt, ◌&&◌, arith, [], ◌∷◌, List, Bool,
  true, Option, none, some, length, get_or,
}
use dumpbin_py_zfs_rescue.Lz4.Run.{ok, Output}
use dumpbin_py_zfs_rescue.Lz4.Decode.{Decoder}
use dumpbin_py_zfs_rescue.Lz4.Decompress.{rest_of, lz4_decompress_zfs}
use dumpbin_py_zfs_rescue.Lz4.Format.{short}
use dumpbin_py_zfs_rescue.Lz4.Block.{Block}
use dumpbin_py_zfs_rescue.Lz4.Accept.{Closes}
use dumpbin_py_zfs_rescue.Lz4.Unique.{HasDistances}
use dumpbin_py_zfs_rescue.Rescue.Delivered.{and_true}
use dumpbin_py_zfs_rescue.Rescue.Lz4Same.{decompressors_same}
use dumpbin_py_zfs_rescue.Rescue.DecodedBlock.{IsPlain, read_block-decodes}
use dumpbin_py_zfs_rescue.Rescue.Py.{Py, done, raised}
use dumpbin_py_zfs_rescue.Rescue.Fletcher.{fletcher4}
use dumpbin_py_zfs_rescue.Rescue.BlockPtr.{PyBlkptr, dva_init}
use dumpbin_py_zfs_rescue.Rescue.Lz4 as Lz4
use dumpbin_py_zfs_rescue.Rescue.Block.{fit, input_of, lsize_of, check, check_read, read_block}
use dumpbin_py_zfs_rescue.Rescue.Delivered.{stored}
use dumpbin_py_zfs_rescue.Rescue.Checked.{
  HasChecksum, wanted, read_block-length, read_block-checked,
}
use dumpbin_py_zfs_rescue.Rescue.Witness.{one_word}

-- Four bytes on a device, of a block of six that is not compressed.
abbrev some_pointer : PyBlkptr
some_pointer = record {
  dva0 = dva_init (2 ^ 32) 8;
  dva1 = dva_init 0 0;
  dva2 = dva_init 0 0;
  lsize = 6;
  psize = 4;
  comp = 2;
  cksum = 7;
  type = 19;
  lvl = 0;
  encrypted = 0;
  endian = 1;
  birth_txg = 1;
  fill_count = 1;
  checksum = 1 ∷ 1 ∷ 1 ∷ 1 ∷ [];
  embedded = none;
}

abbrev six_bytes : List ℕ
six_bytes = 1 ∷ 0 ∷ 0 ∷ 0 ∷ 0 ∷ 0 ∷ []

abbrev inflate_none : List ℕ → Py (List ℕ)
inflate_none bytes = raised

abbrev one_word_read : (offset psize : ℕ) → Py (Option (List ℕ))
one_word_read offset psize = done (some one_word)

block_read : read_block inflate_none one_word_read 2 some_pointer 0 ≡ done (some six_bytes, true)
unfolding read_block fletcher4
block_read = refl

read_block-length_example : length six_bytes ≡ lsize_of some_pointer none
read_block-length_example =
    read_block-length inflate_none one_word_read 2 some_pointer 0 six_bytes true block_read

read_block-checked_example :
    (raw : List ℕ) × (d : List ℕ) × (wanted inflate_none one_word_read 2 some_pointer 0
      ≡ done (some raw))
    × HasChecksum some_pointer raw
    × (stored inflate_none some_pointer 6 (some raw) ≡ some d)
    × (six_bytes ≡ fit 6 d)
read_block-checked_example =
    read_block-checked inflate_none one_word_read 2 some_pointer 0 six_bytes refl refl block_read

-- A block of ten times 65: a literal, a match and five literals, with two bytes behind it.
abbrev packed : List ℕ
packed = 0 ∷ 0 ∷ 0 ∷ 10 ∷ 0x10 ∷ 65 ∷ 1 ∷ 0 ∷ 0x50 ∷ 65 ∷ 65 ∷ 65 ∷ 65 ∷ 65 ∷ 0 ∷ 0 ∷ []

five_literals : (i : ℕ) → i < 5 → 65 ≡ (rest_of (input_of packed) 4).byte (5 + i)
five_literals zero lt = refl
five_literals (suc zero) lt = refl
five_literals (suc (suc zero)) lt = refl
five_literals (suc (suc (suc zero))) lt = refl
five_literals (suc (suc (suc (suc zero)))) lt = refl
five_literals (suc (suc (suc (suc (suc i))))) lt = absurd (omega arith)

one_literal : (i : ℕ) → i < 1 → 65 ≡ (rest_of (input_of packed) 4).byte (1 + i)
one_literal zero lt = refl
one_literal (suc i) lt = absurd (omega arith)

abbrev packed_block : Block (rest_of (input_of packed) 4) 10 (λ i. 65) 0 0 10
packed_block =
    Block.sequence 1 1 0 4 (omega arith) (short (omega arith) refl refl) one_literal (omega arith)
      (omega arith) (short (omega arith) refl refl) (inr (λ i le lt. refl))
      (Block.last 5 5 (omega arith) (short (omega arith) refl refl) refl five_literals refl)

packed_block-HasDistances : HasDistances packed_block
unfolding HasDistances
packed_block-HasDistances = (omega arith, tt)

packed_block-Closes : Closes packed_block
unfolding Closes
packed_block-Closes = omega arith

abbrev all_below : List ℕ → Bool
all_below [] = true
all_below (x ∷ xs) = ltb x 256 && all_below xs

all_below-get_or : (xs : List ℕ) (i : ℕ) → all_below xs ≡ true → get_or xs i 0 < 256
all_below-get_or [] i e = omega arith
all_below-get_or (x ∷ xs) zero e = ltb→lt x 256 (and_true (ltb x 256) (all_below xs) e).0
all_below-get_or (x ∷ xs) (suc i) e =
    all_below-get_or xs i (and_true (ltb x 256) (all_below xs) e).1

abbrev ten_bytes : Output
ten_bytes = record { size = 10; byte = λ i. 0 }

decompressors_same_example :
    (d : Decoder) × (dst : List ℕ) × (lz4_decompress_zfs (input_of packed) 16 ten_bytes
      ≡ ok (record { code = 0; decoded = some d }))
    × (Lz4.lz4zfs_decompress (input_of packed) ≡ Lz4.returns (some dst))
    × (d.op ≡ 10)
    × (d.op ≤ length dst)
    × ((i : ℕ) → i < d.op → get_or dst i 0 ≡ d.out.byte i)
decompressors_same_example =
    decompressors_same (input_of packed) 16 ten_bytes (λ i. 65) 10 packed_block
      packed_block-HasDistances packed_block-Closes (λ i. all_below-get_or packed i refl)
      (omega arith) (omega arith) (omega arith) (omega arith) (omega arith)

abbrev packed_pointer : PyBlkptr
packed_pointer = record some_pointer { lsize = 10; psize = 16; comp = 15; cksum = 2 }

abbrev packed_read : (offset psize : ℕ) → Py (Option (List ℕ))
packed_read offset psize = done (some packed)

packed_pointer-IsPlain : IsPlain packed_pointer 0
packed_pointer-IsPlain = record {
  present = refl;
  no_gang = refl;
  somewhere = refl;
  not_embedded = refl;
}

packed_checks : check_read packed_pointer (some packed) ≡ done true
unfolding check
packed_checks = refl

read_block-decodes_example :
    (bytes : List ℕ) × (read_block inflate_none packed_read 2 packed_pointer 0
      ≡ done (some bytes, true))
    × (length bytes ≡ 10)
    × ((i : ℕ) → i < 10 → get_or bytes i 0 ≡ 65)
read_block-decodes_example =
    read_block-decodes inflate_none packed_read 2 packed_pointer 0 packed true (λ i. 65)
      packed_block packed_pointer-IsPlain refl refl packed_checks packed_block-HasDistances
      packed_block-Closes (omega arith)
