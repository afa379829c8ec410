-- ===== src/Pool/Witness.antt =====
-- The properties of the pool's structures at a device of three files.
use dumpbin_py_zfs_rescue.Common.{
  ℕ, ◌%◌, ◌<◌, ◌≡◌, ◌≢◌, refl, arith, [], ◌∷◌, none, some, Heap, ok, fault,
}
use dumpbin_py_zfs_rescue.Raidz.Abd.{Abd}
use dumpbin_py_zfs_rescue.Raidz.Result.{IsBlock}
use dumpbin_py_zfs_rescue.Raidz.Witness.{
  contents, some_files, some_files-Delivers, some_device, empty_heap, empty_heap-IsFresh,
}
use dumpbin_py_zfs_rescue.Pool.Disk.{Blkptr, dva_of, blkptr_of}
use dumpbin_py_zfs_rescue.Pool.Label.{Tgxs, load_label}
use dumpbin_py_zfs_rescue.Pool.Blocks.{Datasets, load_blkptr, load_mos}
use dumpbin_py_zfs_rescue.Pool.Ring.{IsIndex, load_label-IsIndex}
use dumpbin_py_zfs_rescue.Pool.Reads.{load_blkptr-IsBlock, load_blkptr-fault, load_mos-never}

-- 24 units of 512 bytes at 0x101000.
abbrev some_blkptr : Blkptr
some_blkptr = blkptr_of (24 ∷ 0x101000 ∷ []) 0

abbrev hole : Blkptr
hole = blkptr_of [] 0

abbrev no_tgxs : Tgxs
no_tgxs t = none

load_blkptr-IsBlock_example :
    (c : Abd) × (h' : Heap) × (load_blkptr some_files some_device some_blkptr empty_heap
      ≡ ok (some c) h')
    × IsBlock some_device contents 0x101000 12288 empty_heap c h'
load_blkptr-IsBlock_example =
    load_blkptr-IsBlock some_files some_device contents some_blkptr (dva_of (24 ∷ 0x101000 ∷ []) 0)
      (dva_of (24 ∷ 0x101000 ∷ []) 2 ∷ dva_of (24 ∷ 0x101000 ∷ []) 4 ∷ []) empty_heap refl
      (omega arith) refl some_files-Delivers empty_heap-IsFresh

load_blkptr-fault_example : load_blkptr some_files some_device hole empty_heap ≡ fault
load_blkptr-fault_example =
    load_blkptr-fault some_files some_device hole (dva_of [] 0) (dva_of [] 2 ∷ dva_of [] 4 ∷ [])
      empty_heap refl (omega arith)

load_label-IsIndex_example :
    (after : Tgxs) × (h' : Heap) × (load_label some_files some_device no_tgxs 1 0 empty_heap
      ≡ ok after h')
    × IsIndex (contents "b") no_tgxs after
    × ((p : ℕ) → h'.size p ≡ none)
    × ((p : ℕ) → p < 1 → (i : ℕ) → h'.byte p i ≡ 0)
load_label-IsIndex_example =
    load_label-IsIndex some_files some_device contents no_tgxs 1 0 "b" empty_heap refl
      some_files-Delivers empty_heap-IsFresh

abbrev no_datasets : Datasets
no_datasets i = none

load_mos-never_example :
    load_mos some_files some_device no_tgxs 2937 no_datasets empty_heap ≢ ok no_datasets empty_heap
load_mos-never_example =
    load_mos-never some_files some_device no_tgxs 2937 no_datasets no_datasets empty_heap empty_heap

-- A memory whose byte `i` is `i % 256`.
abbrev memory : ℕ → ℕ
memory i = i % 256

memory_bytes : (i : ℕ) → memory i < 256
memory_bytes i = omega arith
