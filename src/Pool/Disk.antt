-- ===== src/Pool/Disk.antt =====
-- The structures that a label and a block pointer are made of, extractor/defs.h. All their fields are
-- `uint64_t`, so a structure is read as its words, in order, least significant byte first.
use dumpbin_py_zfs_rescue.Common.{ℕ, zero, suc, ◌+◌, ◌*◌, ◌^◌, [], ◌∷◌, List, get_or}

abbrev pub uberblock_shift : ℕ
uberblock_shift = 10

abbrev pub mmp_magic : ℕ
mmp_magic = 0xa11cea11

abbrev pub uberblock_magic : ℕ
uberblock_magic = 0x00bab10c

-- `SPA_DVAS_PER_BP`
abbrev pub spa_dvas_per_bp : ℕ
spa_dvas_per_bp = 3

pub record ZioCksum : Type 0 where
  pub zc_word : List ℕ

pub record Dva : Type 0 where
  pub dva_word : List ℕ

pub record Blkptr : Type 0 where
  pub blk_dva : List Dva
  pub blk_prop : ℕ
  pub blk_pad : List ℕ
  pub blk_phys_birth : ℕ
  pub blk_birth : ℕ
  pub blk_fill : ℕ
  pub blk_cksum : ZioCksum

pub record Uberblock : Type 0 where
  pub ub_magic : ℕ
  pub ub_version : ℕ
  pub ub_txg : ℕ
  pub ub_guid_sum : ℕ
  pub ub_timestamp : ℕ
  pub ub_rootbp : Blkptr
  pub ub_software_version : ℕ
  pub ub_mmp_magic : ℕ
  pub ub_mmp_delay : ℕ
  pub ub_mmp_seq : ℕ
  pub ub_checkpoint_txg : ℕ

-- A `uint64_t` in memory, on a little-endian machine.
abbrev pub word_at : (ℕ → ℕ) → ℕ → ℕ
word_at b p =
    b p
    + b (p + 1) * 2 ^ 8
    + b (p + 2) * 2 ^ 16
    + b (p + 3) * 2 ^ 24
    + b (p + 4) * 2 ^ 32
    + b (p + 5) * 2 ^ 40
    + b (p + 6) * 2 ^ 48
    + b (p + 7) * 2 ^ 56

unfoldable pub words_at : (ℕ → ℕ) → (p n : ℕ) → List ℕ
words_at b p zero = []
words_at b p (suc n) = word_at b p ∷ words_at b (p + 8) n

abbrev pub dva_of : List ℕ → ℕ → Dva
dva_of ws k = record { dva_word = get_or ws k 0 ∷ get_or ws (k + 1) 0 ∷ [] }

-- The block pointer whose first word is word `k`.
abbrev pub blkptr_of : List ℕ → ℕ → Blkptr
blkptr_of ws k = record {
  blk_dva = dva_of ws k ∷ dva_of ws (k + 2) ∷ dva_of ws (k + 4) ∷ [];
  blk_prop = get_or ws (k + 6) 0;
  blk_pad = get_or ws (k + 7) 0 ∷ get_or ws (k + 8) 0 ∷ [];
  blk_phys_birth = get_or ws (k + 9) 0;
  blk_birth = get_or ws (k + 10) 0;
  blk_fill = get_or ws (k + 11) 0;
  blk_cksum = record {
    zc_word =
        get_or ws (k + 12) 0
        ∷ get_or ws (k + 13) 0
        ∷ get_or ws (k + 14) 0
        ∷ get_or ws (k + 15) 0
        ∷ [];
  };
}

abbrev pub uberblock_of : List ℕ → Uberblock
uberblock_of ws = record {
  ub_magic = get_or ws 0 0;
  ub_version = get_or ws 1 0;
  ub_txg = get_or ws 2 0;
  ub_guid_sum = get_or ws 3 0;
  ub_timestamp = get_or ws 4 0;
  ub_rootbp = blkptr_of ws 5;
  ub_software_version = get_or ws 21 0;
  ub_mmp_magic = get_or ws 22 0;
  ub_mmp_delay = get_or ws 23 0;
  ub_mmp_seq = get_or ws 24 0;
  ub_checkpoint_txg = get_or ws 25 0;
}

-- The structure has 26 words.
abbrev pub uberblock_at : (ℕ → ℕ) → ℕ → Uberblock
uberblock_at b p = uberblock_of (words_at b p 26)
