-- ===== src/Raidz/Layout.antt =====
-- Where a stripe lies: the sectors of the RAID-Z device as a whole are numbered row by row over its
-- three devices, and an I/O takes `tot` of them from its first one on.
use mathlib.Core.Path.{subst}
use dumpbin_py_zfs_rescue.Common.{
  ℕ, zero, suc, ◌+◌, ◌-◌, ◌*◌, ◌/◌, ◌%◌, ◌^◌, ◌≤◌, ◌<◌, inl, inr, [], ◌∷◌, some, List, Bool, arith,
  get_elem?, ◌≡◌, refl, Heap, ok, ◌==◌, if◌then◌else◌,
}
use dumpbin_py_zfs_rescue.Common.Bits.{bit_and-pow}
use dumpbin_py_zfs_rescue.Raidz.Map.{RaidzCol, RaidzMap, Zio, vdev_raidz_map_alloc}
use dumpbin_py_zfs_rescue.Raidz.Geometry.{Fits, geometry-Shape, cols_cases, fill_col_lem}
use dumpbin_py_zfs_rescue.Raidz.Alloc.{
  swapped, first_cols, third_col, map_alloc_two, map_alloc_three,
}

-- The number of data sectors of an I/O, and with the parity sectors: one for each pair.
abbrev pub data_sectors : ℕ → ℕ
data_sectors size = size / 4096

abbrev pub total_sectors : ℕ → ℕ
total_sectors size = data_sectors size + (data_sectors size + 1) / 2

-- The sector of the whole device that stands on a device at a byte offset.
abbrev pub sector_at : (devidx offset : ℕ) → ℕ
sector_at devidx offset = offset / 4096 * 3 + devidx

-- Whether the I/O starts in an odd megabyte, where the parity column trades its place.
abbrev pub in_odd_megabyte : ℕ → Bool
in_odd_megabyte offset = offset / 2 ^ 20 % 2 == 1

pub swapped-eq-in_odd_megabyte : (offset : ℕ) → swapped offset ≡ in_odd_megabyte offset
swapped-eq-in_odd_megabyte offset = ground (arith, bit_and-pow 20 offset)

-- The place of the column's first sector among the sectors of the I/O.
abbrev pub place : (offset c : ℕ) → ℕ
place offset zero = if in_odd_megabyte offset then 1 else 0
place offset (suc zero) = if in_odd_megabyte offset then 0 else 1
place offset c = c

-- `col` has every third sector of the I/O, from the one at `p` on.
pub record HasSectors (zio : Zio) (p : ℕ) (col : RaidzCol) : Type 0 where
  pub device : col.rc_devidx < 3
  pub aligned : col.rc_offset % 4096 ≡ 0
  pub first : sector_at col.rc_devidx col.rc_offset ≡ zio.io_offset / 4096 + p
  pub count : col.rc_size ≡ (total_sectors zio.io_size + 2 - p) / 3 * 4096

pub record IsStripe (zio : Zio) (rm : RaidzMap) : Type 0 where
  pub columns : rm.rm_cols ≡ (if data_sectors zio.io_size == 1 then 2 else 3)
  pub holds :
      (c : ℕ)
      → c < rm.rm_cols
      → (col : RaidzCol) × (get_elem? rm.rm_col c ≡ some col)
        × HasSectors zio (place zio.io_offset c) col
  pub padded : rm.rm_asize ≡ (total_sectors zio.io_size + rm.rm_nskip) * 4096
  pub whole_rows : rm.rm_asize % 8192 ≡ 0
  pub skips : rm.rm_nskip ≤ 1

module _ (zio : Zio) (fits : Fits zio.io_offset zio.io_size) where
  first_holds :
      (c n : ℕ) (rest : List RaidzCol)
      → c < 2
      → (col : RaidzCol) × (get_elem? (first_cols zio n rest) c ≡ some col)
        × HasSectors zio (place zio.io_offset c) col
  first_holds zero n rest lt = (
    _,
    refl,
    ground (
      arith,
      swapped-eq-in_odd_megabyte zio.io_offset,
      geometry-Shape zio.io_offset zio.io_size fits,
      fill_col_lem zio.io_offset zio.io_size 0 fits,
      fill_col_lem zio.io_offset zio.io_size 1 fits,
    ),
  )
  first_holds (suc zero) n rest lt = (
    _,
    refl,
    ground (
      arith,
      swapped-eq-in_odd_megabyte zio.io_offset,
      geometry-Shape zio.io_offset zio.io_size fits,
      fill_col_lem zio.io_offset zio.io_size 0 fits,
      fill_col_lem zio.io_offset zio.io_size 1 fits,
    ),
  )
  first_holds (suc (suc c)) n rest lt = absurd (omega arith)

  third_holds :
      (c n : ℕ)
      → c < 3
      → (col : RaidzCol) × (get_elem? (first_cols zio n (third_col zio n ∷ [])) c ≡ some col)
        × HasSectors zio (place zio.io_offset c) col
  third_holds zero n lt = first_holds 0 n (third_col zio n ∷ []) (omega arith)
  third_holds (suc zero) n lt = first_holds 1 n (third_col zio n ∷ []) (omega arith)
  third_holds (suc (suc zero)) n lt = (
    _,
    refl,
    ground (
      arith,
      geometry-Shape zio.io_offset zio.io_size fits,
      fill_col_lem zio.io_offset zio.io_size 2 fits,
    ),
  )
  third_holds (suc (suc (suc c))) n lt = absurd (omega arith)

-- `vdev_raidz_map_alloc` for three devices and an I/O of at least a sector, of less than 2 ^ 62 bytes:
-- no assertion fails and no access is out of bounds, and the map that is returned has two columns
-- for one data sector and three otherwise, where column `c` has every third sector of the stripe
-- from its place on, columns 0 and 1 having changed places in an odd megabyte. Its size is that of
-- whole rows of two sectors.
pub map_alloc-IsStripe :
    (zio : Zio) (h : Heap)
    → Fits zio.io_offset zio.io_size
    → (rm : RaidzMap) × (h' : Heap) × (vdev_raidz_map_alloc zio 12 3 1 h ≡ ok rm h')
      × IsStripe zio rm
map_alloc-IsStripe zio h fits = elim (cols_cases zio.io_offset zio.io_size fits) [
  | inl two ↦ (
    _,
    _,
    map_alloc_two zio h fits two.2 two.1,
    record {
      columns = ground (arith, geometry-Shape zio.io_offset zio.io_size fits);
      holds = λ c lt. first_holds zio fits c h.next [] (omega arith);
      padded = omega (arith, geometry-Shape zio.io_offset zio.io_size fits);
      whole_rows = omega arith;
      skips = omega arith;
    },
  )
  | inr three ↦ (
    _,
    _,
    map_alloc_three zio h fits three.2 three.1,
    record {
      columns = ground (arith, geometry-Shape zio.io_offset zio.io_size fits);
      holds = λ c lt. third_holds zio fits c h.next (omega arith);
      padded = omega (arith, geometry-Shape zio.io_offset zio.io_size fits);
      whole_rows = omega arith;
      skips = omega arith;
    },
  )
]

-- Whatever map the call returns is the stripe's.
pub IsStripe-of_alloc :
    (zio : Zio) (h : Heap) {rm : RaidzMap} {h' : Heap}
    → Fits zio.io_offset zio.io_size
    → vdev_raidz_map_alloc zio 12 3 1 h ≡ ok rm h'
    → IsStripe zio rm
IsStripe-of_alloc zio h {rm} fits e =
    let (rm', h'', e', stripe) = map_alloc-IsStripe zio h fits in
    let same : rm' ≡ rm = cc in subst (IsStripe zio) same stripe
