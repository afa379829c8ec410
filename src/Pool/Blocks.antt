-- ===== src/Pool/Blocks.antt =====
-- `loadBlkPtr`, `loadDnode` and `loadMos` of `Raidz1Device`, extractor/zio.cpp.
use dumpbin_py_zfs_rescue.Common.{
  ℕ, zero, suc, ◌+◌, ok, update, ◌-◌, ◌^◌, [], ◌∷◌, List, Bool, false, Option, none, some, get_or,
  M, fault, pure, ◌>>=◌, ◌>>◌, check, view, bit_and, shl64, ◌==◌, if◌then◌else◌,
}
use dumpbin_py_zfs_rescue.Raidz.Abd.{Abd}
use dumpbin_py_zfs_rescue.Raidz.Read.{Files, Device, read_physical}
use dumpbin_py_zfs_rescue.Pool.Disk.{Dva, Blkptr, Uberblock, uberblock_of}
use dumpbin_py_zfs_rescue.Pool.Dnode.{DnodePhys}
use dumpbin_py_zfs_rescue.Pool.Label.{Tgxs}
use dumpbin_py_zfs_rescue.Pool.Types.{number, dmu_ot_dsl_dataset, dmu_ot_object_directory}

-- `(d.dva_word[0] & 0xffffffUL) << 9`
abbrev pub dva_asize : Dva → ℕ
dva_asize d = shl64 (bit_and (get_or d.dva_word 0 0) (2 ^ 24 - 1)) 9

-- `d.dva_word[1] & 0x7fffffffffffffffUL`
abbrev pub dva_offset : Dva → ℕ
dva_offset d = bit_and (get_or d.dva_word 1 0) (2 ^ 63 - 1)

-- `malloc` does not fail here, so no pointer to an `abd_t` is null.
abbrev is_null : Abd → Bool
is_null c = false

-- for (int i = 0; i < 3; i++): the copies that remain.
unfoldable pub load_copies : Files → Device → List Dva → M (Option Abd)
load_copies files dev [] = pure none
load_copies files dev (d ∷ ds) = do
  c ← read_physical files dev (dva_offset d) (dva_asize d)
  if is_null c then load_copies files dev ds else pure (some c)

unfoldable pub load_blkptr : Files → Device → Blkptr → M (Option Abd)
unfolding load_copies
load_blkptr files dev p = load_copies files dev p.blk_dva

-- `DNode`. `cnt` is the member of `DSLDataset`, where the object is one.
pub record DNode : Type 0 where
  pub d : DnodePhys
  pub cnt : Option ℕ

-- `DNode::type`
abbrev pub dnode_type : DNode → ℕ
dnode_type n = n.d.dn_type

-- The `switch` reads the type, has no effect for any, and the null pointer is returned.
unfoldable pub load_dnode : Files → Device → Blkptr → M (Option DNode)
unfolding load_blkptr view
load_dnode files dev p = load_blkptr files dev p >>= λ c. elim c [
  | none ↦ pure none
  | some c ↦ view c.abd_buf c.abd_off 1 >>= λ d. pure none
]

-- `tgxs[tgx]` is a structure of zeros if there is none of that number.
abbrev pub uberblock_or_zero : Option Uberblock → Uberblock
uberblock_or_zero none = uberblock_of []
uberblock_or_zero (some u) = u

-- `DSLDataset`
pub record DslDataset : Type 0 where
  pub dnode : DNode
  pub cnt : ℕ

-- `DSLDataset::operator[]` and `DSLDataset::len` of extractor/zio.h
abbrev pub dataset_entry : DslDataset → ℕ → Option DNode
dataset_entry mos id = none

abbrev pub dataset_len : DslDataset → ℕ
dataset_len mos = mos.cnt

-- `static_cast<DSLDataset*>(d)`, which C++ leaves undefined for an object that is not one.
abbrev as_dataset : DNode → M DslDataset
as_dataset n h = elim n.cnt [ none ↦ fault | some k ↦ ok (record { dnode = n; cnt = k }) h ]

-- A call of a method through a pointer that may be null.
abbrev deref : Option DNode → M DNode
deref none h = fault
deref (some n) h = pure n h

-- The map `datasets`
abbrev pub Datasets : Type 0
Datasets = ℕ → Option DNode

-- if (e && e->type() == DMU_OT_DSL_DATASET) datasets[i] = e;
unfoldable pub keep_dataset : Option DNode → ℕ → Datasets → Datasets
keep_dataset none i ds = ds
keep_dataset (some e) i ds =
    if dnode_type e == number dmu_ot_dsl_dataset then update ds i (some e) else ds

-- The loop over the entries of the dataset, of which `left` remain.
unfoldable pub keep_entries : DslDataset → (left i : ℕ) → Datasets → Datasets
unfolding keep_dataset
keep_entries mos zero i ds = ds
keep_entries mos (suc left) i ds =
    keep_entries mos left (i + 1) (keep_dataset (dataset_entry mos i) i ds)

-- What follows the second assertion has no effect: its results are not kept. `DNode::zap`, which it
-- calls, has no body in the sources. The value is the map `datasets`.
unfoldable pub load_mos : Files → Device → Tgxs → ℕ → Datasets → M Datasets
unfolding load_dnode keep_entries
load_mos files dev tgxs tgx datasets = do
  d ← load_dnode files dev (uberblock_or_zero (tgxs tgx)).ub_rootbp
  n ← deref d
  check (dnode_type n == number dmu_ot_dsl_dataset)
  mos ← as_dataset n
  let kept = keep_entries mos (dataset_len mos) 0 datasets
  root_ds ← deref (dataset_entry mos 1)
  check (dnode_type root_ds == number dmu_ot_object_directory)
  pure kept
