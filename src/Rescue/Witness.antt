-- ===== src/Rescue/Witness.antt =====
-- The properties of the rescue tool at small inputs.
use Prim.Native.String.{String, [] as nil, ◌∷◌ as ◌◁◌}
use Prim.Native.Char.{code}
use dumpbin_py_zfs_rescue.Common.{
  Bool, false, get_elem?, ◌/◌, ℕ, zero, suc, ◌+◌, ◌*◌, ◌%◌, ◌<◌, ◌≡◌, ◌≢◌, refl, arith, [], ◌∷◌,
  List, true, some, length, get_or, ◌==◌, if◌then◌else◌, Heap, ok,
}
use dumpbin_py_zfs_rescue.Raidz.Abd.{Abd}
use dumpbin_py_zfs_rescue.Raidz.Geometry.{Fits}
use dumpbin_py_zfs_rescue.Raidz.Layout.{data_sectors}
use dumpbin_py_zfs_rescue.Raidz.Read as Extractor
use dumpbin_py_zfs_rescue.Raidz.Witness.{
  bytes_from, length-bytes_from, some_files, some_device, empty_heap,
}
use dumpbin_py_zfs_rescue.Pool.Disk.{words_at, blkptr_of}
use dumpbin_py_zfs_rescue.Pool.Bits.{prop_bits}
use dumpbin_py_zfs_rescue.Pool.Disk.{uberblock_at}
use dumpbin_py_zfs_rescue.Rescue.Uberblock.{Ublock, parse_ublock, parse_array, find_active_ub}
use dumpbin_py_zfs_rescue.Rescue.SameUblock.{SameUblock, parse_array-Same}
use dumpbin_py_zfs_rescue.Rescue.Active.{IsActive, find_active_ub-IsActive}
use dumpbin_py_zfs_rescue.Rescue.Py.{Py, done, raised}
use dumpbin_py_zfs_rescue.Rescue.Stripe.{Col, map_alloc}
use dumpbin_py_zfs_rescue.Rescue.Repaired.{IsParity, none_left, column, xor_all}
use dumpbin_py_zfs_rescue.Rescue.Reader.{RaidzDevice, joined, pieces, readv, read_physical}
use dumpbin_py_zfs_rescue.Rescue.Rescued.{nowhere, elsewhere, read_physical-repairs}
use dumpbin_py_zfs_rescue.Rescue.SameRead.{shifted, rescue_device}
use dumpbin_py_zfs_rescue.Rescue.SameBlock.{read_physical_same}
use dumpbin_py_zfs_rescue.Rescue.Fletcher.{
  words, sums64, zeros, fletcher4, fletcher4-sums64, fletcher4_differs,
}
use dumpbin_py_zfs_rescue.Rescue.BlockPtr.{parse}
use dumpbin_py_zfs_rescue.Rescue.SamePointer.{
  SamePointer, SameEmbedded, parse-SamePointer, parse-SameEmbedded,
}
use dumpbin_py_zfs_rescue.Rescue.Lz4 as Lz4
use dumpbin_py_zfs_rescue.Rescue.Lz4Ends.{lz4zfs_decompress_ends}
use dumpbin_py_zfs_rescue.Rescue.Lzjb as Lzjb
use dumpbin_py_zfs_rescue.Rescue.LzjbEnds.{Ends, lzjb_decompress-Ends}
use dumpbin_py_zfs_rescue.Rescue.Block.{input_of}

some_fit : Fits 0x101000 12288
some_fit = record { word = omega arith; sector = omega arith; small = omega arith }

abbrev some_read : String → (offset count : ℕ) → Py (List ℕ)
some_read path offset count = done (bytes_from count offset)

read_physical_same_example :
    (c : Abd) × (h' : Heap) × (bytes : List ℕ) × (Extractor.read_physical
        (shifted some_files)
        some_device
        0x101000
        12288
        empty_heap
      ≡ ok c h')
    × (read_physical some_read (rescue_device some_device []) 0x101000 12288 ≡ done (some bytes))
    × (length bytes ≡ data_sectors 12288 * 4096)
    × ((j : ℕ) → j < data_sectors 12288 * 4096 → get_or bytes j 0 ≡ h'.byte c.abd_buf j)
read_physical_same_example =
    read_physical_same some_files some_read some_device [] 0x101000 12288 empty_heap
      (λ path offset count. refl) (λ path count offset. length-bytes_from count offset) refl
      some_fit (omega arith)

-- The third of three devices with sectors of two bytes is bad, and returns 9 for each byte.
abbrev bad_device : RaidzDevice
bad_device = record {
  devs = "a" ∷ "b" ∷ "c" ∷ [];
  nparity = 1;
  ashift = 1;
  bad = 2 ∷ [];
  repairs = true;
}

abbrev file_named : String → List ℕ
file_named nil = []
file_named (c ◁ name) =
    if code c == 97 then 4 ∷ 4 ∷ [] else if code c == 98 then 5 ∷ 6 ∷ [] else 9 ∷ 9 ∷ []

abbrev bad_read : String → (offset count : ℕ) → Py (List ℕ)
bad_read path offset count = done (file_named path)

abbrev col_on : ℕ → Col
col_on k = record { rc_devidx = k; rc_offset = 0; rc_size = 2 }

same_sums : (i : ℕ) → get_or (4 ∷ 4 ∷ []) i 0 ≡ xor_all ((5 ∷ 6 ∷ []) ∷ (1 ∷ 2 ∷ []) ∷ []) i
same_sums zero = refl
same_sums (suc zero) = refl
same_sums (suc (suc i)) = refl

some-IsParity : IsParity (4 ∷ 4 ∷ []) ((5 ∷ 6 ∷ []) ∷ (1 ∷ 2 ∷ []) ∷ [])
some-IsParity = record {
  short = column (omega arith) (column (omega arith) none_left);
  sums = λ i. same_sums i;
}

bad_columns :
    map_alloc 3 1 0 4 1
    ≡ done (record { cols = col_on 0 ∷ col_on 1 ∷ col_on 2 ∷ []; firstdatacol = 1; skipstart = 0 })
unfolding map_alloc
bad_columns = refl

bad_bytes :
    readv bad_read ("a" ∷ "b" ∷ "c" ∷ []) (col_on 0 ∷ col_on 1 ∷ col_on 2 ∷ [])
    ≡ done (4 ∷ 4 ∷ 5 ∷ 6 ∷ 9 ∷ 9 ∷ [])
unfolding readv
bad_bytes = refl

bad_pieces :
    pieces (4 ∷ 4 ∷ 5 ∷ 6 ∷ 9 ∷ 9 ∷ []) (col_on 0 ∷ col_on 1 ∷ col_on 2 ∷ [])
    ≡ (4 ∷ 4 ∷ []) ∷ (5 ∷ 6 ∷ []) ∷ (9 ∷ 9 ∷ []) ∷ []
unfolding pieces
bad_pieces = refl

read_physical-repairs_example :
    read_physical bad_read bad_device 0 4 ≡ done (some (joined ((5 ∷ 6 ∷ []) ∷ (1 ∷ 2 ∷ []) ∷ [])))
read_physical-repairs_example =
    read_physical-repairs bad_read bad_device 2 [] (col_on 0) (col_on 2) (col_on 1 ∷ []) [] 0 0 4
      (4 ∷ 4 ∷ 5 ∷ 6 ∷ 9 ∷ 9 ∷ []) (4 ∷ 4 ∷ []) (1 ∷ 2 ∷ []) (9 ∷ 9 ∷ []) ((5 ∷ 6 ∷ []) ∷ []) []
      refl refl (omega arith) bad_columns bad_bytes bad_pieces refl
      (elsewhere (λ e. omega (arith, e)) (elsewhere (λ e. omega (arith, e)) nowhere)) refl refl
      (omega arith) some-IsParity

abbrev counting : ℕ → ℕ → ℕ
counting from i = (from + i) % 256

counting_lt : (from i : ℕ) → counting from i < 256
counting_lt from i = omega arith

plain_bit : (prop_bits (blkptr_of (words_at (counting 0) 0 16) 0).blk_prop).embedded ≡ 0
unfolding prop_bits words_at
plain_bit = refl

parse-SamePointer_example :
    SamePointer (blkptr_of (words_at (counting 0) 0 16) 0) (parse (counting 0) 0)
parse-SamePointer_example = parse-SamePointer (counting 0) (λ i. counting_lt 0 i) 0 plain_bit

embedded_bit : (prop_bits (blkptr_of (words_at (counting 100) 0 16) 0).blk_prop).embedded ≡ 1
unfolding prop_bits words_at
embedded_bit = refl

parse-SameEmbedded_example :
    SameEmbedded (blkptr_of (words_at (counting 100) 0 16) 0) (parse (counting 100) 0)
parse-SameEmbedded_example =
    parse-SameEmbedded (counting 100) (λ i. counting_lt 100 i) 0 embedded_bit

abbrev pub one_word : List ℕ
one_word = 1 ∷ 0 ∷ 0 ∷ 0 ∷ []

abbrev other_word : List ℕ
other_word = 2 ∷ 0 ∷ 0 ∷ 0 ∷ []

fletcher4-sums64_example :
    fletcher4 one_word
    ≡ (if length one_word % 4 == 0 then done (sums64 zeros (words one_word)) else raised)
fletcher4-sums64_example = fletcher4-sums64 one_word

fletcher4_differs_example : fletcher4 one_word ≢ fletcher4 other_word
fletcher4_differs_example =
    fletcher4_differs one_word other_word [] [] 1 2 refl refl refl (omega arith) (omega arith)
      (λ e. omega (arith, e))

-- Two literals and a match of five bytes.
abbrev some_block : List ℕ
some_block = 0 ∷ 0 ∷ 0 ∷ 9 ∷ 0x21 ∷ 65 ∷ 66 ∷ 2 ∷ 0 ∷ []

lz4zfs_decompress_ends_example : Lz4.lz4zfs_decompress (input_of some_block) ≢ Lz4.out_of_fuel
lz4zfs_decompress_ends_example = lz4zfs_decompress_ends (input_of some_block)

lzjb_decompress-Ends_example : Ends 2 (Lzjb.lzjb_decompress (0 ∷ 65 ∷ 66 ∷ []) 2)
lzjb_decompress-Ends_example = lzjb_decompress-Ends (0 ∷ 65 ∷ 66 ∷ []) 2

-- An array of sixteen slots of 1024 bytes.
abbrev some_label : ℕ → ℕ
some_label i = (counting 0 i + i / 1024) % 256

some_label-bytes : (i : ℕ) → some_label i < 256
some_label-bytes i = omega arith

parse_array-Same_example :
    (x : Ublock) × (get_elem? (parse_array some_label 0 16384 9) 3 ≡ some x)
    × SameUblock (uberblock_at some_label (0 + 3 * 1024)) x
parse_array-Same_example =
    parse_array-Same some_label (λ i. some_label-bytes i) 0 16384 9 3 (omega arith)

abbrev ublock_of : ℕ → Bool → Ublock
ublock_of txg valid = record (parse_ublock some_label 0) { txg = txg; valid = valid }

abbrev some_ublocks : List Ublock
some_ublocks = ublock_of 5 true ∷ ublock_of 9 false ∷ ublock_of 7 true ∷ ublock_of 7 true ∷ []

find_active_ub-IsActive_example : IsActive some_ublocks 5 (find_active_ub some_ublocks 5)
find_active_ub-IsActive_example = find_active_ub-IsActive some_ublocks 5
