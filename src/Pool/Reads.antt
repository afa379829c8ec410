-- ===== src/Pool/Reads.antt =====
-- What the functions that follow a block pointer do.
use Prim.Native.String.{String}
use dumpbin_py_zfs_rescue.Common.{
  ℕ, ◌*◌, ◌%◌, ◌^◌, ◌≤◌, ◌<◌, ◌≡◌, ◌≢◌, ◌∷◌, List, Option, none, some, refl, arith, length, get_or,
  Heap, Outcome, ok, aborted, fault, and_then, pure, view, ◌>>=◌,
}
use dumpbin_py_zfs_rescue.Common.Bits.{bit_and-mask}
use dumpbin_py_zfs_rescue.Raidz.Abd.{Abd}
use dumpbin_py_zfs_rescue.Raidz.Alloc.{map_alloc-fault}
use dumpbin_py_zfs_rescue.Raidz.Geometry.{Fits}
use dumpbin_py_zfs_rescue.Raidz.Read.{Files, Device, read_physical}
use dumpbin_py_zfs_rescue.Raidz.Deliver.{request, begun, abd_alloc_linear_lem}
use dumpbin_py_zfs_rescue.Raidz.Bytes.{Delivers, IsFresh}
use dumpbin_py_zfs_rescue.Raidz.Result.{IsBlock, read_physical-IsBlock}
use dumpbin_py_zfs_rescue.Pool.Disk.{Dva, Blkptr}
use dumpbin_py_zfs_rescue.Pool.Label.{Tgxs}
use dumpbin_py_zfs_rescue.Pool.Blocks.{
  dva_asize, dva_offset, load_copies, load_blkptr, DNode, Datasets, load_dnode, load_mos,
  uberblock_or_zero,
}

-- The fields of an address: 24 bits of its first word, in units of 512 bytes, and 63 bits of the
-- second one.
asize_lem : (d : Dva) → dva_asize d ≡ get_or d.dva_word 0 0 % 2 ^ 24 * 512
asize_lem d = omega (arith, bit_and-mask 24 (get_or d.dva_word 0 0))

offset_lem : (d : Dva) → dva_offset d ≡ get_or d.dva_word 1 0 % 2 ^ 63
offset_lem d = bit_and-mask 63 (get_or d.dva_word 1 0)

module _ (files : Files) (dev : Device) (d : Dva) (ds : List Dva) (h : Heap) where
  load_copies-first :
      (c : Abd) (h' : Heap)
      → read_physical files dev (dva_offset d) (dva_asize d) h ≡ ok c h'
      → load_copies files dev (d ∷ ds) h ≡ ok (some c) h'
  unfolding load_copies
  load_copies-first c h' e = rw e refl

  load_copies-fault :
      read_physical files dev (dva_offset d) (dva_asize d) h ≡ fault
      → load_copies files dev (d ∷ ds) h ≡ fault
  unfolding load_copies
  load_copies-fault e = rw e refl

read_physical-fault :
    (files : Files) (dev : Device) (offset psize : ℕ) (h : Heap)
    → psize < 4096
    → read_physical files dev offset psize h ≡ fault
unfolding read_physical
read_physical-fault files dev offset psize h small =
    rw
      (
        abd_alloc_linear_lem psize h,
        map_alloc-fault (request offset psize h.next) (begun psize h) small,
      )
      refl

-- `loadBlkPtr` where the first address is of at least a sector, on three files that deliver all that
-- is asked for: what is returned is the block that `read_physical` reads at its 63 bits of offset,
-- taken as bytes, and its 24 bits of size, in units of 512 bytes.
pub load_blkptr-IsBlock :
    (files : Files) (dev : Device) (disk : String → ℕ → ℕ) (p : Blkptr) (d : Dva) (ds : List Dva)
    (h : Heap)
    → p.blk_dva ≡ d ∷ ds
    → 8 ≤ get_or d.dva_word 0 0 % 2 ^ 24
    → length dev.vdevs ≡ 3
    → Delivers files disk
    → IsFresh h
    → (c : Abd) × (h' : Heap) × (load_blkptr files dev p h ≡ ok (some c) h')
      × IsBlock dev disk
          (get_or d.dva_word 1 0 % 2 ^ 63)
          (get_or d.dva_word 0 0 % 2 ^ 24 * 512)
          h
          c
          h'
unfolding load_blkptr
load_blkptr-IsBlock files dev disk p d ds h dvas sized paths whole free_ids =
    let offset = get_or d.dva_word 1 0 % 2 ^ 63 in
    let size = get_or d.dva_word 0 0 % 2 ^ 24 * 512 in
    let fits : Fits offset size = record {
      word = omega arith;
      sector = omega arith;
      small = omega arith;
    } in
    let (c, h', e, is_block) =
      read_physical-IsBlock files dev disk offset size h paths fits whole free_ids in
    (
      c,
      h',
      rw dvas (load_copies-first files dev d ds h c h' (rw (asize_lem d, offset_lem d) e)),
      is_block,
    )

-- `loadBlkPtr` where the first address is of less than a sector, a hole for one: an access out of
-- bounds, whatever the other addresses are.
pub load_blkptr-fault :
    (files : Files) (dev : Device) (p : Blkptr) (d : Dva) (ds : List Dva) (h : Heap)
    → p.blk_dva ≡ d ∷ ds
    → get_or d.dva_word 0 0 % 2 ^ 24 < 8
    → load_blkptr files dev p h ≡ fault
unfolding load_blkptr
load_blkptr-fault files dev p d ds h dvas hole = rw dvas (
    load_copies-fault files dev d ds h
      (read_physical-fault files dev (dva_offset d) (dva_asize d) h (omega (arith, asize_lem d))))

-- How a call of `loadDnode` ends.
data EndsNull (r : Outcome (Option DNode)) : Type 0 where
  null : (h : Heap) → r ≡ ok none h → EndsNull r
  aborts : r ≡ aborted → EndsNull r
  faults : r ≡ fault → EndsNull r

after_view : (r : Outcome (ℕ → ℕ)) → EndsNull (and_then r (λ d. pure none))
after_view (ok b h) = null h refl
after_view aborted = aborts refl
after_view fault = faults refl

after_blkptr :
    (r : Outcome (Option Abd))
    → EndsNull (
        and_then r (λ c. elim c [
          | none ↦ pure none
          | some c ↦ view c.abd_buf c.abd_off 1 >>= λ d. pure none
        ]))
after_blkptr (ok none h) = null h refl
after_blkptr (ok (some c) h) = after_view (view c.abd_buf c.abd_off 1 h)
after_blkptr aborted = aborts refl
after_blkptr fault = faults refl

load_dnode-EndsNull :
    (files : Files) (dev : Device) (p : Blkptr) (h : Heap) → EndsNull (load_dnode files dev p h)
unfolding load_dnode
load_dnode-EndsNull files dev p h = after_blkptr (load_blkptr files dev p h)

-- `loadMos` never returns: what `loadDnode` gives is the null pointer, and its type is read.
pub load_mos-never :
    (files : Files) (dev : Device) (tgxs : Tgxs) (tgx : ℕ) (datasets after : Datasets) (h h' : Heap)
    → load_mos files dev tgxs tgx datasets h ≢ ok after h'
unfolding load_mos
load_mos-never files dev tgxs tgx datasets after h h' e =
    elim (load_dnode-EndsNull files dev (uberblock_or_zero (tgxs tgx)).ub_rootbp h) [
      | null k n ↦ ground (arith, e, n)
      | aborts n ↦ ground (arith, e, n)
      | faults n ↦ ground (arith, e, n)
    ]
