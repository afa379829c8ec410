-- ===== src/Rescue/SameUblock.antt =====
-- The uberblocks that `UBArray.parse` takes from a label, and the structure of extractor/defs.h.
use dumpbin_py_zfs_rescue.Common.{
  ℕ, zero, suc, ◌+◌, ◌*◌, ◌/◌, ◌^◌, ◌<◌, ◌≡◌, refl, ap, ◌∙◌, arith, some, ltb, get_elem?, ◌==◌,
  if◌then◌else◌,
}
use mathlib.Core.Path.{subst}
use dumpbin_py_zfs_rescue.Pool.Disk.{
  words_at, Blkptr, blkptr_of, Uberblock, uberblock_at, uberblock_magic,
}
use dumpbin_py_zfs_rescue.Pool.Bits.{prop_bits}
use dumpbin_py_zfs_rescue.Rescue.SamePointer.{SamePointer, parse-SamePointer}
use dumpbin_py_zfs_rescue.Rescue.Uberblock.{Ublock, parse_ublock, read_blocks, parse_array}

-- What is taken from an uberblock.
pub record SameUblock (u : Uberblock) (x : Ublock) : Type 0 where
  pub magic : x.magic ≡ u.ub_magic
  pub version : x.version ≡ u.ub_version
  pub txg : x.txg ≡ u.ub_txg
  pub guid_sum : x.guid_sum ≡ u.ub_guid_sum
  pub timestamp : x.timestamp ≡ u.ub_timestamp
  pub valid : x.valid ≡ (u.ub_magic == uberblock_magic)
  pub rootbp : (prop_bits u.ub_rootbp.blk_prop).embedded ≡ 0 → SamePointer u.ub_rootbp x.rootbp

rootbp_at :
    (b : ℕ → ℕ) (p : ℕ) → blkptr_of (words_at b (p + 40) 16) 0 ≡ (uberblock_at b p).ub_rootbp
unfolding words_at
rootbp_at b p =
    let at : p + 40 ≡ p + 8 + 8 + 8 + 8 + 8 = omega arith in
    ap (λ (q : ℕ). blkptr_of (words_at b q 16) 0) at

module _ (b : ℕ → ℕ) (bytes : (i : ℕ) → b i < 256) where
  parse_ublock-Same : (p : ℕ) → SameUblock (uberblock_at b p) (parse_ublock b p)
  unfolding words_at
  parse_ublock-Same p = record {
    magic = refl;
    version = refl;
    txg = refl;
    guid_sum = refl;
    timestamp = refl;
    valid = refl;
    rootbp = λ plain.
        subst (λ (x : Blkptr). SamePointer x (parse_ublock b p).rootbp) (rootbp_at b p)
          (parse-SamePointer b bytes (p + 40)
            (ap (λ (x : Blkptr). (prop_bits x.blk_prop).embedded) (rootbp_at b p) ∙ plain));
  }

  read_blocks_at :
      (left p slot k : ℕ)
      → k < left
      → get_elem? (read_blocks b left p slot) k ≡ some (parse_ublock b (p + k * slot))
  unfolding read_blocks
  read_blocks_at zero p slot k lt = absurd (omega arith)
  read_blocks_at (suc left) p slot zero lt = ap (λ (q : ℕ). some (parse_ublock b q)) (omega arith)
  read_blocks_at (suc left) p slot (suc k) lt =
      read_blocks_at left (p + slot) slot k (omega arith)
      ∙ ap (λ (q : ℕ). some (parse_ublock b q)) (omega arith)

  -- `UBArray.parse` takes each whole slot of the array, of 1024 bytes at least, and from it the fields of
  -- the uberblock that is stored there, and the pointer to the root where it holds no data itself.
  pub parse_array-Same :
      (p len ashift k : ℕ)
      → k < len / 2 ^ (if ltb ashift 10 then 10 else ashift)
      → (x : Ublock) × (get_elem? (parse_array b p len ashift) k ≡ some x)
        × SameUblock (uberblock_at b (p + k * 2 ^ (if ltb ashift 10 then 10 else ashift))) x
  unfolding parse_array
  parse_array-Same p len ashift k lt =
      let slot = 2 ^ (if ltb ashift 10 then 10 else ashift) in
      (
        parse_ublock b (p + k * slot),
        read_blocks_at (len / slot) p slot k lt,
        parse_ublock-Same (p + k * slot),
      )
