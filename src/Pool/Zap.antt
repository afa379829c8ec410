-- ===== src/Pool/Zap.antt =====
-- `zap_phys_t` and `zap_leaf_phys_t`, extractor/defs.h.
use Prim.Native.String.{String}
use dumpbin_py_zfs_rescue.Common.{ℕ, [], ◌∷◌, ◌++◌, List, get_or}
use dumpbin_py_zfs_rescue.Pool.Fields.{fields_at, copies}
use dumpbin_py_zfs_rescue.Pool.Dnode.{window}

pub record ZapTablePhys : Type 0 where
  pub zt_blk : ℕ
  pub zt_numblks : ℕ
  pub zt_shift : ℕ
  pub zt_nextblk : ℕ
  pub zt_blks_copied : ℕ

pub record ZapPhys : Type 0 where
  pub zap_block_type : ℕ
  pub zap_magic : ℕ
  pub zap_ptrtbl : ZapTablePhys
  pub zap_freeblk : ℕ
  pub zap_num_leafs : ℕ
  pub zap_num_entries : ℕ
  pub zap_salt : ℕ
  pub zap_normflags : ℕ
  pub zap_flags : ℕ

abbrev pub zap_of : List ℕ → ZapPhys
zap_of ws = record {
  zap_block_type = get_or ws 0 0;
  zap_magic = get_or ws 1 0;
  zap_ptrtbl = record {
    zt_blk = get_or ws 2 0;
    zt_numblks = get_or ws 3 0;
    zt_shift = get_or ws 4 0;
    zt_nextblk = get_or ws 5 0;
    zt_blks_copied = get_or ws 6 0;
  };
  zap_freeblk = get_or ws 7 0;
  zap_num_leafs = get_or ws 8 0;
  zap_num_entries = get_or ws 9 0;
  zap_salt = get_or ws 10 0;
  zap_normflags = get_or ws 11 0;
  zap_flags = get_or ws 12 0;
}

abbrev pub zap_widths : List ℕ
zap_widths = copies 13 8

unfoldable pub zap_at : (ℕ → ℕ) → ℕ → ZapPhys
unfolding fields_at
zap_at b p = zap_of (fields_at b p zap_widths)

pub record ZapLeafHeader : Type 0 where
  pub lh_block_type : ℕ
  pub lh_pad1 : ℕ
  pub lh_prefix : ℕ
  pub lh_magic : ℕ
  pub lh_nfree : ℕ
  pub lh_nentries : ℕ
  pub lh_prefix_len : ℕ
  pub lh_freelist : ℕ
  pub lh_flags : ℕ
  pub lh_pad2 : List ℕ

-- The first entry of the hash table stands in the structure itself.
pub record ZapLeafPhys : Type 0 where
  pub l_hdr : ZapLeafHeader
  pub l_hash : List ℕ

abbrev pub zap_leaf_widths : List ℕ
zap_leaf_widths = 8 ∷ 8 ∷ 8 ∷ 4 ∷ 2 ∷ 2 ∷ 2 ∷ 2 ∷ 1 ∷ (copies 11 1 ++ (2 ∷ []))

abbrev pub zap_leaf_of : List ℕ → ZapLeafPhys
zap_leaf_of ws = record {
  l_hdr = record {
    lh_block_type = get_or ws 0 0;
    lh_pad1 = get_or ws 1 0;
    lh_prefix = get_or ws 2 0;
    lh_magic = get_or ws 3 0;
    lh_nfree = get_or ws 4 0;
    lh_nentries = get_or ws 5 0;
    lh_prefix_len = get_or ws 6 0;
    lh_freelist = get_or ws 7 0;
    lh_flags = get_or ws 8 0;
    lh_pad2 = window ws 9 11;
  };
  l_hash = window ws 20 1;
}

unfoldable pub zap_leaf_at : (ℕ → ℕ) → ℕ → ZapLeafPhys
unfolding fields_at
zap_leaf_at b p = zap_leaf_of (fields_at b p zap_leaf_widths)

-- `operator[]` of the class Zap, `microzap` and `fatzap`, which are not written yet.
abbrev pub zap_entry : (key : String) → ℕ
zap_entry key = 0

abbrev pub microzap : ℕ
microzap = 0

abbrev pub fatzap : ℕ
fatzap = 0
