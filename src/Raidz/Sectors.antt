-- ===== src/Raidz/Sectors.antt =====
-- A stripe and the sectors of the whole device: it has each of its sectors exactly once, and two
-- stripes over different sectors touch no common place of a disk.
use dumpbin_py_zfs_rescue.Common.{
  ℕ, zero, suc, ◌+◌, ◌*◌, ◌/◌, ◌%◌, ◌≤◌, ◌<◌, ◌≡◌, ◌≢◌, some, arith, get_elem?, Heap, ok,
}
use dumpbin_py_zfs_rescue.Raidz.Map.{RaidzCol, RaidzMap, Zio, vdev_raidz_map_alloc}
use dumpbin_py_zfs_rescue.Raidz.Geometry.{Fits}
use dumpbin_py_zfs_rescue.Raidz.Layout.{
  total_sectors, sector_at, place, HasSectors, IsStripe, IsStripe-of_alloc,
}

-- Sector `i` of a column, as a sector of the whole device.
abbrev pub col_sector : RaidzCol → ℕ → ℕ
col_sector col i = sector_at col.rc_devidx (col.rc_offset + i * 4096)

pub col_sector-HasSectors :
    (zio : Zio) (p i : ℕ) (col : RaidzCol)
    → HasSectors zio p col
    → col_sector col i ≡ zio.io_offset / 4096 + p + 3 * i
col_sector-HasSectors zio p i col has = omega arith

place-lt : (offset c : ℕ) → c < 3 → place offset c < 3
place-lt offset zero lt = ground arith
place-lt offset (suc zero) lt = ground arith
place-lt offset (suc (suc c)) lt = lt

place-place : (offset c : ℕ) → place offset (place offset c) ≡ c
place-place offset zero = ground arith
place-place offset (suc zero) = ground arith
place-place offset (suc (suc c)) = ground arith

place-lt_two : (offset c : ℕ) → c < 2 → place offset c < 2
place-lt_two offset zero lt = ground arith
place-lt_two offset (suc zero) lt = ground arith
place-lt_two offset (suc (suc c)) lt = absurd (omega arith)

module _ {zio : Zio} {rm : RaidzMap} (stripe : IsStripe zio rm) where
  -- A sector of a column is a sector of the I/O.
  pub col_sector_inside :
      (c i : ℕ)
      → c < rm.rm_cols
      → (col : RaidzCol) → get_elem? rm.rm_col c ≡ some col
      → i * 4096 < col.rc_size
      → (zio.io_offset / 4096 ≤ col_sector col i)
        × (col_sector col i < zio.io_offset / 4096 + total_sectors zio.io_size)
  col_sector_inside c i lt col e within =
      let (col', e', has) = stripe.holds c lt in
      ground (
        arith,
        stripe.columns,
        col_sector-HasSectors zio (place zio.io_offset c) i col' has,
        has.count,
        place-lt zio.io_offset c,
      )

  -- Each sector of the I/O is one of a column.
  pub col_sector_covers :
      (p : ℕ)
      → p < total_sectors zio.io_size
      → (c : ℕ) × (i : ℕ) × (col : RaidzCol) × (c < rm.rm_cols)
        × (get_elem? rm.rm_col c ≡ some col)
        × (i * 4096 < col.rc_size)
        × (col_sector col i ≡ zio.io_offset / 4096 + p)
  col_sector_covers p lt =
      let c = place zio.io_offset (p % 3) in
      let below : c < rm.rm_cols = ground (
        arith,
        stripe.columns,
        place-lt zio.io_offset (p % 3),
        place-lt_two zio.io_offset (p % 3),
      ) in
      let (col, e, has) = stripe.holds c below in
      (
        c,
        p / 3,
        col,
        below,
        e,
        ground (arith, has.count, place-place zio.io_offset (p % 3)),
        ground (
          arith,
          place-place zio.io_offset (p % 3),
          col_sector-HasSectors zio (place zio.io_offset c) (p / 3) col has,
        ),
      )

  -- A sector of the I/O is that of one column, and once.
  pub col_sector_unique :
      (c i c' i' : ℕ) (col col' : RaidzCol)
      → c < rm.rm_cols
      → c' < rm.rm_cols
      → get_elem? rm.rm_col c ≡ some col
      → get_elem? rm.rm_col c' ≡ some col'
      → col_sector col i ≡ col_sector col' i'
      → (c ≡ c') × (i ≡ i')
  col_sector_unique c i c' i' col col' lt lt' e e' same =
      let (x, ex, has) = stripe.holds c lt in
      let (x', ex', has') = stripe.holds c' lt' in
      ground (
        arith,
        stripe.columns,
        col_sector-HasSectors zio (place zio.io_offset c) i x has,
        col_sector-HasSectors zio (place zio.io_offset c') i' x' has',
        place-lt zio.io_offset c,
        place-lt zio.io_offset c',
        place-place zio.io_offset c,
        place-place zio.io_offset c',
      )

-- Every sector of an I/O of at least a sector, data and parity together, is a sector of a column of
-- the map that `vdev_raidz_map_alloc` returns.
pub map_alloc_covers :
    (zio : Zio) (h : Heap) {rm : RaidzMap} {h' : Heap}
    → Fits zio.io_offset zio.io_size
    → vdev_raidz_map_alloc zio 12 3 1 h ≡ ok rm h'
    → (p : ℕ) → p < total_sectors zio.io_size
    → (c : ℕ) × (i : ℕ) × (col : RaidzCol) × (c < rm.rm_cols)
      × (get_elem? rm.rm_col c ≡ some col)
      × (i * 4096 < col.rc_size)
      × (col_sector col i ≡ zio.io_offset / 4096 + p)
map_alloc_covers zio h fits e = col_sector_covers (IsStripe-of_alloc zio h fits e)

-- For an I/O of at least a sector, no two places of the columns of the map that
-- `vdev_raidz_map_alloc` returns are one sector.
pub map_alloc_injective :
    (zio : Zio) (h : Heap) {rm : RaidzMap} {h' : Heap}
    → Fits zio.io_offset zio.io_size
    → vdev_raidz_map_alloc zio 12 3 1 h ≡ ok rm h'
    → (c i c' i' : ℕ) (col col' : RaidzCol) → c < rm.rm_cols
    → c' < rm.rm_cols
    → get_elem? rm.rm_col c ≡ some col
    → get_elem? rm.rm_col c' ≡ some col'
    → col_sector col i ≡ col_sector col' i'
    → (c ≡ c') × (i ≡ i')
map_alloc_injective zio h fits e = col_sector_unique (IsStripe-of_alloc zio h fits e)

-- Two I/Os, of at least a sector each, of which one ends before the other starts never meet on a disk: no sector of a column of
-- one is a sector, of the same device, of a column of the other.
pub map_alloc_disjoint :
    (zio zio' : Zio) (h h' : Heap) {rm rm' : RaidzMap} {k k' : Heap}
    → Fits zio.io_offset zio.io_size
    → Fits zio'.io_offset zio'.io_size
    → vdev_raidz_map_alloc zio 12 3 1 h ≡ ok rm k
    → vdev_raidz_map_alloc zio' 12 3 1 h' ≡ ok rm' k'
    → zio.io_offset / 4096 + total_sectors zio.io_size ≤ zio'.io_offset / 4096
    → (c i c' i' : ℕ) (col col' : RaidzCol) → c < rm.rm_cols
    → get_elem? rm.rm_col c ≡ some col
    → i * 4096 < col.rc_size
    → c' < rm'.rm_cols
    → get_elem? rm'.rm_col c' ≡ some col'
    → i' * 4096 < col'.rc_size
    → col.rc_devidx ≡ col'.rc_devidx
    → col.rc_offset + i * 4096 ≢ col'.rc_offset + i' * 4096
map_alloc_disjoint zio zio' h h' fits fits' e e' apart c i c' i' col col' lt at in_col lt' at'
      in_col' d =
    omega (
      arith,
      col_sector_inside (IsStripe-of_alloc zio h fits e) c i lt col at in_col,
      col_sector_inside (IsStripe-of_alloc zio' h' fits' e') c' i' lt' col' at' in_col',
    )
