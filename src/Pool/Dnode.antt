-- ===== src/Pool/Dnode.antt =====
-- Dnodes, extractor/defs.h: the constants and `dnode_phys_t`.
use dumpbin_py_zfs_rescue.Common.{
  ℕ, zero, suc, ◌+◌, ◌-◌, ◌*◌, ◌/◌, ◌^◌, [], ◌∷◌, ◌++◌, List, Bool, get_or, ltb, not, ◌==◌,
}
use dumpbin_py_zfs_rescue.Pool.Disk.{Blkptr, blkptr_of}
use dumpbin_py_zfs_rescue.Pool.Fields.{fields_at, copies}

abbrev pub spa_blkptrshift : ℕ
spa_blkptrshift = 7

abbrev pub dnode_shift : ℕ
dnode_shift = 9

abbrev pub dn_min_indblkshift : ℕ
dn_min_indblkshift = 12

abbrev pub dn_max_indblkshift : ℕ
dn_max_indblkshift = 17

abbrev pub dnode_block_shift : ℕ
dnode_block_shift = 14

abbrev pub dnode_core_size : ℕ
dnode_core_size = 64

abbrev pub dn_max_object_shift : ℕ
dn_max_object_shift = 48

abbrev pub dn_max_offset_shift : ℕ
dn_max_offset_shift = 64

abbrev pub dnode_min_size : ℕ
dnode_min_size = 2 ^ dnode_shift

abbrev pub dnode_max_size : ℕ
dnode_max_size = 2 ^ dnode_block_shift

abbrev pub dnode_block_size : ℕ
dnode_block_size = 2 ^ dnode_block_shift

abbrev pub dnode_min_slots : ℕ
dnode_min_slots = dnode_min_size / 2 ^ dnode_shift

abbrev pub dnode_max_slots : ℕ
dnode_max_slots = dnode_max_size / 2 ^ dnode_shift

-- The sizes are at least `DNODE_MIN_SIZE`, so the subtractions do not wrap.
abbrev pub dn_bonus_size : ℕ → ℕ
dn_bonus_size dnsize = dnsize - dnode_core_size - 2 ^ spa_blkptrshift

abbrev pub dn_slots_to_bonuslen : ℕ → ℕ
dn_slots_to_bonuslen slots = dn_bonus_size (slots * 2 ^ dnode_shift)

abbrev pub dn_old_max_bonuslen : ℕ
dn_old_max_bonuslen = dn_bonus_size dnode_min_size

abbrev pub dn_max_nblkptr : ℕ
dn_max_nblkptr = (dnode_min_size - dnode_core_size) / 2 ^ spa_blkptrshift

abbrev pub dn_max_object : ℕ
dn_max_object = 2 ^ dn_max_object_shift

abbrev pub dn_zero_bonuslen : ℕ
dn_zero_bonuslen = dn_bonus_size dnode_max_size + 1

abbrev pub dn_kill_spillblk : ℕ
dn_kill_spillblk = 1

-- What a slot of a dnode block points to, as the number in the pointer.
abbrev pub dn_slot_uninit : ℕ
dn_slot_uninit = 0

abbrev pub dn_slot_free : ℕ
dn_slot_free = 1

abbrev pub dn_slot_allocated : ℕ
dn_slot_allocated = 2

abbrev pub dn_slot_interior : ℕ
dn_slot_interior = 3

abbrev pub dn_slot_is_ptr : ℕ → Bool
dn_slot_is_ptr dn = ltb dn_slot_interior dn

abbrev pub dn_slot_is_valid : ℕ → Bool
dn_slot_is_valid dn = not (dn == 0)

abbrev pub dnodes_per_block_shift : ℕ
dnodes_per_block_shift = dnode_block_shift - dnode_shift

abbrev pub dnodes_per_block : ℕ
dnodes_per_block = 2 ^ dnodes_per_block_shift

-- `dn_tail` is the union at the end, as 56 words.
pub record DnodePhys : Type 0 where
  pub dn_type : ℕ
  pub dn_indblkshift : ℕ
  pub dn_nlevels : ℕ
  pub dn_nblkptr : ℕ
  pub dn_bonustype : ℕ
  pub dn_checksum : ℕ
  pub dn_compress : ℕ
  pub dn_flags : ℕ
  pub dn_datablkszsec : ℕ
  pub dn_bonuslen : ℕ
  pub dn_extra_slots : ℕ
  pub dn_pad2 : List ℕ
  pub dn_maxblkid : ℕ
  pub dn_used : ℕ
  pub dn_pad3 : List ℕ
  pub dn_tail : List ℕ

-- `n` entries from entry `k` on.
abbrev pub window : List ℕ → (k n : ℕ) → List ℕ
window xs k zero = []
window xs k (suc n) = get_or xs k 0 ∷ window xs (k + 1) n

-- The three ways in which the union is used.
abbrev pub dn_blkptr : DnodePhys → ℕ → Blkptr
dn_blkptr d i = blkptr_of d.dn_tail (16 * i)

abbrev pub dn_bonus : DnodePhys → List ℕ
dn_bonus d = window d.dn_tail 16 40

abbrev pub dn_spill : DnodePhys → Blkptr
dn_spill d = blkptr_of d.dn_tail 40

abbrev pub dnode_widths : List ℕ
dnode_widths = copies 8 1 ++ (2 ∷ 2 ∷ 1 ∷ (copies 3 1 ++ (8 ∷ 8 ∷ (copies 4 8 ++ copies 56 8))))

abbrev pub dnode_of : List ℕ → DnodePhys
dnode_of ws = record {
  dn_type = get_or ws 0 0;
  dn_indblkshift = get_or ws 1 0;
  dn_nlevels = get_or ws 2 0;
  dn_nblkptr = get_or ws 3 0;
  dn_bonustype = get_or ws 4 0;
  dn_checksum = get_or ws 5 0;
  dn_compress = get_or ws 6 0;
  dn_flags = get_or ws 7 0;
  dn_datablkszsec = get_or ws 8 0;
  dn_bonuslen = get_or ws 9 0;
  dn_extra_slots = get_or ws 10 0;
  dn_pad2 = window ws 11 3;
  dn_maxblkid = get_or ws 14 0;
  dn_used = get_or ws 15 0;
  dn_pad3 = window ws 16 4;
  dn_tail = window ws 20 56;
}

unfoldable pub dnode_at : (ℕ → ℕ) → ℕ → DnodePhys
unfolding fields_at
dnode_at b p = dnode_of (fields_at b p dnode_widths)
