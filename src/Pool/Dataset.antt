-- ===== src/Pool/Dataset.antt =====
-- `dsl_dir_phys_t`, `dsl_dataset_phys_t` and `zio_eck_t`, extractor/defs.h.
use dumpbin_py_zfs_rescue.Common.{ℕ, [], ◌∷◌, ◌++◌, List, get_or}
use dumpbin_py_zfs_rescue.Pool.Disk.{Dva, Blkptr, blkptr_of, ZioCksum}
use dumpbin_py_zfs_rescue.Pool.Fields.{fields_at, copies}
use dumpbin_py_zfs_rescue.Pool.Dnode.{window}

abbrev flat_dvas : List Dva → List ℕ
flat_dvas [] = []
flat_dvas (d ∷ ds) = d.dva_word ++ flat_dvas ds

-- The words of a block pointer and of an uberblock, in order.
abbrev pub blkptr_words : Blkptr → List ℕ
blkptr_words p =
    flat_dvas p.blk_dva
    ++ (p.blk_prop
        ∷ (p.blk_pad ++ (p.blk_phys_birth ∷ p.blk_birth ∷ p.blk_fill ∷ p.blk_cksum.zc_word)))

pub data DdUsed : Type 0 where
  dd_used_head : DdUsed
  dd_used_snap : DdUsed
  dd_used_child : DdUsed
  dd_used_child_rsrv : DdUsed
  dd_used_refrsrv : DdUsed

-- `DD_USED_NUM`
abbrev pub dd_used_num : ℕ
dd_used_num = 5

abbrev pub dd_used_index : DdUsed → ℕ
dd_used_index dd_used_head = 0
dd_used_index dd_used_snap = 1
dd_used_index dd_used_child = 2
dd_used_index dd_used_child_rsrv = 3
dd_used_index dd_used_refrsrv = 4

pub record DslDirPhys : Type 0 where
  pub dd_creation_time : ℕ
  pub dd_head_dataset_obj : ℕ
  pub dd_parent_obj : ℕ
  pub dd_origin_obj : ℕ
  pub dd_child_dir_zapobj : ℕ
  pub dd_used_bytes : ℕ
  pub dd_compressed_bytes : ℕ
  pub dd_uncompressed_bytes : ℕ
  pub dd_quota : ℕ
  pub dd_reserved : ℕ
  pub dd_props_zapobj : ℕ
  pub dd_deleg_zapobj : ℕ
  pub dd_flags : ℕ
  pub dd_used_breakdown : List ℕ
  pub dd_clones : ℕ
  pub dd_pad : List ℕ

abbrev pub dsl_dir_of : List ℕ → DslDirPhys
dsl_dir_of ws = record {
  dd_creation_time = get_or ws 0 0;
  dd_head_dataset_obj = get_or ws 1 0;
  dd_parent_obj = get_or ws 2 0;
  dd_origin_obj = get_or ws 3 0;
  dd_child_dir_zapobj = get_or ws 4 0;
  dd_used_bytes = get_or ws 5 0;
  dd_compressed_bytes = get_or ws 6 0;
  dd_uncompressed_bytes = get_or ws 7 0;
  dd_quota = get_or ws 8 0;
  dd_reserved = get_or ws 9 0;
  dd_props_zapobj = get_or ws 10 0;
  dd_deleg_zapobj = get_or ws 11 0;
  dd_flags = get_or ws 12 0;
  dd_used_breakdown = window ws 13 dd_used_num;
  dd_clones = get_or ws 18 0;
  dd_pad = window ws 19 13;
}

abbrev pub dsl_dir_widths : List ℕ
dsl_dir_widths = copies 32 8

unfoldable pub dsl_dir_at : (ℕ → ℕ) → ℕ → DslDirPhys
unfolding fields_at
dsl_dir_at b p = dsl_dir_of (fields_at b p dsl_dir_widths)

pub record DslDatasetPhys : Type 0 where
  pub ds_dir_obj : ℕ
  pub ds_prev_snap_obj : ℕ
  pub ds_prev_snap_txg : ℕ
  pub ds_next_snap_obj : ℕ
  pub ds_snapnames_zapobj : ℕ
  pub ds_num_children : ℕ
  pub ds_creation_time : ℕ
  pub ds_creation_txg : ℕ
  pub ds_deadlist_obj : ℕ
  pub ds_referenced_bytes : ℕ
  pub ds_compressed_bytes : ℕ
  pub ds_uncompressed_bytes : ℕ
  pub ds_unique_bytes : ℕ
  pub ds_fsid_guid : ℕ
  pub ds_guid : ℕ
  pub ds_flags : ℕ
  pub ds_bp : Blkptr
  pub ds_next_clones_obj : ℕ
  pub ds_props_obj : ℕ
  pub ds_userrefs_obj : ℕ
  pub ds_pad : List ℕ

abbrev pub dsl_dataset_of : List ℕ → DslDatasetPhys
dsl_dataset_of ws = record {
  ds_dir_obj = get_or ws 0 0;
  ds_prev_snap_obj = get_or ws 1 0;
  ds_prev_snap_txg = get_or ws 2 0;
  ds_next_snap_obj = get_or ws 3 0;
  ds_snapnames_zapobj = get_or ws 4 0;
  ds_num_children = get_or ws 5 0;
  ds_creation_time = get_or ws 6 0;
  ds_creation_txg = get_or ws 7 0;
  ds_deadlist_obj = get_or ws 8 0;
  ds_referenced_bytes = get_or ws 9 0;
  ds_compressed_bytes = get_or ws 10 0;
  ds_uncompressed_bytes = get_or ws 11 0;
  ds_unique_bytes = get_or ws 12 0;
  ds_fsid_guid = get_or ws 13 0;
  ds_guid = get_or ws 14 0;
  ds_flags = get_or ws 15 0;
  ds_bp = blkptr_of ws 16;
  ds_next_clones_obj = get_or ws 32 0;
  ds_props_obj = get_or ws 33 0;
  ds_userrefs_obj = get_or ws 34 0;
  ds_pad = window ws 35 5;
}

abbrev pub dsl_dataset_widths : List ℕ
dsl_dataset_widths = copies 40 8

unfoldable pub dsl_dataset_at : (ℕ → ℕ) → ℕ → DslDatasetPhys
unfolding fields_at
dsl_dataset_at b p = dsl_dataset_of (fields_at b p dsl_dataset_widths)

-- The checksum at the end of a block that describes itself.
pub record ZioEck : Type 0 where
  pub zec_magic : ℕ
  pub zec_cksum : ZioCksum

abbrev pub zio_eck_of : List ℕ → ZioEck
zio_eck_of ws = record { zec_magic = get_or ws 0 0; zec_cksum = record { zc_word = window ws 1 4 } }
