-- ===== src/Lz4/Tables.antt =====
-- The constants and macros for the tables of the compressor, extractor/lz4.cpp: its sources hold the
-- tables and their hash functions, and no compressor that uses them.
use dumpbin_py_zfs_rescue.Common.{
  ℕ, ◌+◌, ◌-◌, ◌*◌, ◌/◌, ◌^◌, ◌≤◌, ◌<◌, arith, u32, ltb, if◌then◌else◌,
}
use dumpbin_py_zfs_rescue.Lz4.Copy.{copylength}

abbrev pub compressionlevel : ℕ
compressionlevel = 12

abbrev pub notcompressible_confirmation : ℕ
notcompressible_confirmation = 6

abbrev pub minmatch : ℕ
minmatch = 4

abbrev pub hash_log : ℕ
hash_log = compressionlevel

abbrev pub hashtablesize : ℕ
hashtablesize = 2 ^ hash_log

abbrev pub hash_mask : ℕ
hash_mask = hashtablesize - 1

abbrev pub skipstrength : ℕ
skipstrength = if ltb 2 notcompressible_confirmation then notcompressible_confirmation else 2

abbrev pub lastliterals : ℕ
lastliterals = 5

abbrev pub mflimit : ℕ
mflimit = copylength + minmatch

abbrev pub minlength : ℕ
minlength = mflimit + 1

abbrev pub maxd_log : ℕ
maxd_log = 16

abbrev pub max_distance : ℕ
max_distance = 2 ^ maxd_log - 1

abbrev pub lz4_64klimit : ℕ
lz4_64klimit = 2 ^ 16 + (mflimit - 1)

abbrev pub hashlog64k : ℕ
hashlog64k = hash_log + 1

abbrev pub hash64ktablesize : ℕ
hash64ktablesize = 2 ^ hashlog64k

-- The bytes of `struct refTables`, whose entries are `HTYPE`: U32 on a 64-bit machine, and a pointer
-- of four bytes on a 32-bit one.
abbrev pub ref_tables_bytes : ℕ
ref_tables_bytes = hashtablesize * 4

-- `LZ4_HASH_FUNCTION` and `LZ4_HASH64K_FUNCTION` of a number of 32 bits.
unfoldable pub lz4_hash_function : ℕ → ℕ
lz4_hash_function i = u32 (i * 2654435761) / 2 ^ (minmatch * 8 - hash_log)

unfoldable pub lz4_hash64k_function : ℕ → ℕ
lz4_hash64k_function i = u32 (i * 2654435761) / 2 ^ (minmatch * 8 - hashlog64k)

-- A hash is an index into the table, and the table for small inputs, whose entries have two bytes,
-- fits into the memory of the other one. A place in an input below `LZ4_64KLIMIT` with `MFLIMIT` bytes
-- behind it is at most `MAX_DISTANCE`, so that it fits into two bytes.
pub lz4_hash-fits :
    (i isize start : ℕ)
    → isize < lz4_64klimit
    → start + mflimit ≤ isize
    → (lz4_hash_function i < hashtablesize)
      × (lz4_hash64k_function i < hash64ktablesize)
      × (hash64ktablesize * 2 ≤ ref_tables_bytes)
      × (start ≤ max_distance)
unfolding lz4_hash_function lz4_hash64k_function
lz4_hash-fits i isize start lt le = (omega arith, omega arith, omega arith, omega arith)
