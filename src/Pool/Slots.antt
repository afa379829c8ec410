-- ===== src/Pool/Slots.antt =====
-- Dnodes of several slots, and the ways in which the end of a dnode is used.
use dumpbin_py_zfs_rescue.Common.{ℕ, ◌+◌, ◌*◌, ◌^◌, ◌≤◌, ◌<◌, ◌≡◌, ◌++◌, refl, arith}
use dumpbin_py_zfs_rescue.Pool.Dnode.{
  dnode_core_size, dnode_max_slots, dnode_min_size, dnode_block_size, dnode_shift, spa_blkptrshift,
  dn_slots_to_bonuslen, dn_zero_bonuslen, dn_max_nblkptr, DnodePhys, window, dn_blkptr, dn_bonus,
  dn_spill,
}
use dumpbin_py_zfs_rescue.Pool.Dataset.{blkptr_words}

-- A dnode of 1 to `DNODE_MAX_SLOTS` slots is its core, one block pointer and its bonus buffer, with
-- nothing left over, and it fits into a dnode block; its bonus length is below `DN_ZERO_BONUSLEN`.
pub dn_slots_to_bonuslen-fits :
    (slots : ℕ)
    → 1 ≤ slots
    → slots ≤ dnode_max_slots
    → (dnode_core_size + 2 ^ spa_blkptrshift + dn_slots_to_bonuslen slots ≡ slots * 2 ^ dnode_shift)
      × (slots * 2 ^ dnode_shift ≤ dnode_block_size)
      × (dn_slots_to_bonuslen slots < dn_zero_bonuslen)
dn_slots_to_bonuslen-fits slots some_slot le = omega arith

-- `dn_extra_slots` counts the slots behind the first.
abbrev pub dn_num_slots : DnodePhys → ℕ
dn_num_slots d = d.dn_extra_slots + 1

abbrev pub dnode_bytes : DnodePhys → ℕ
dnode_bytes d = dn_num_slots d * 2 ^ dnode_shift

-- A dnode with fewer extra slots than `DNODE_MAX_SLOTS` is its core, one block pointer and its bonus
-- buffer with nothing left over, it fits into a dnode block, and its bonus length is below
-- `DN_ZERO_BONUSLEN`. The `DN_MAX_NBLKPTR` block pointers of the smallest dnode leave 64 bytes of it.
pub dn_num_slots-fits :
    (d : DnodePhys)
    → d.dn_extra_slots < dnode_max_slots
    → (dnode_core_size + 2 ^ spa_blkptrshift + dn_slots_to_bonuslen (dn_num_slots d)
        ≡ dnode_bytes d)
      × (dnode_bytes d ≤ dnode_block_size)
      × (dn_slots_to_bonuslen (dn_num_slots d) < dn_zero_bonuslen)
      × (dnode_core_size + dn_max_nblkptr * 2 ^ spa_blkptrshift + 64 ≡ dnode_min_size)
dn_num_slots-fits d lt =
    let fits = dn_slots_to_bonuslen-fits (dn_num_slots d) (omega arith) (omega arith) in
    (fits.0, fits.1, fits.2, refl)

-- The bonus buffer of a dnode of one slot has the bytes of its second block pointer, 64 more, and
-- those of the spill block pointer; its third block pointer has those 64 and half of the spill one.
pub dn_bonus_views :
    (d : DnodePhys)
    → (dn_bonus d
        ≡ blkptr_words (dn_blkptr d 1) ++ (window d.dn_tail 32 8 ++ blkptr_words (dn_spill d)))
      × (blkptr_words (dn_blkptr d 2)
          ≡ window d.dn_tail 32 8 ++ window (blkptr_words (dn_spill d)) 0 8)
dn_bonus_views d = (refl, refl)
