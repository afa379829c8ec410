-- ===== src/Pool/Pointers.antt =====
-- `loadBlkPtr` reads an address as the table of its bits says.
use dumpbin_py_zfs_rescue.Common.{◌*◌, ◌≡◌, arith, get_or}
use dumpbin_py_zfs_rescue.Common.Bits.{bit_and-mask}
use dumpbin_py_zfs_rescue.Pool.Disk.{Dva}
use dumpbin_py_zfs_rescue.Pool.Blocks.{dva_asize, dva_offset}
use dumpbin_py_zfs_rescue.Pool.Bits.{dva_bits}

-- `loadBlkPtr` takes the ASIZE of the table, in units of 512 bytes, and its offset without the gang
-- bit, as it stands.
pub dva-bits :
    (d : Dva) → (dva_asize d ≡ (dva_bits d).asize * 512) × (dva_offset d ≡ (dva_bits d).offset)
unfolding dva_bits
dva-bits d =
    omega (arith, bit_and-mask 24 (get_or d.dva_word 0 0), bit_and-mask 63 (get_or d.dva_word 1 0))
