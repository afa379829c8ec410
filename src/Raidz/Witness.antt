-- ===== src/Raidz/Witness.antt =====
-- The properties of the RAID-Z reader at a device of three files.
use Prim.Native.String.{String}
use dumpbin_py_zfs_rescue.Common.{
  ℕ, zero, suc, ◌+◌, ◌*◌, ◌/◌, ◌%◌, ◌<◌, ◌≡◌, ◌≢◌, refl, arith, [], ◌∷◌, List, none, some, length,
  get_or, get_elem?, Heap, ok, fault,
}
use dumpbin_py_zfs_rescue.Raidz.Abd.{Abd}
use dumpbin_py_zfs_rescue.Raidz.Map.{RaidzCol, RaidzMap, Zio, vdev_raidz_map_alloc}
use dumpbin_py_zfs_rescue.Raidz.Read.{Files, Device, read_physical}
use dumpbin_py_zfs_rescue.Raidz.Geometry.{Fits}
use dumpbin_py_zfs_rescue.Raidz.Alloc.{map_alloc-fault}
use dumpbin_py_zfs_rescue.Raidz.Layout.{IsStripe, map_alloc-IsStripe}
use dumpbin_py_zfs_rescue.Raidz.Sectors.{
  col_sector, map_alloc_covers, map_alloc_injective, map_alloc_disjoint,
}
use dumpbin_py_zfs_rescue.Raidz.Bytes.{Delivers, ReadsFrom, IsFresh}
use dumpbin_py_zfs_rescue.Raidz.Short.{read_physical-IsShortBlock}
use dumpbin_py_zfs_rescue.Raidz.ShortBlock.{IsShortBlock}
use dumpbin_py_zfs_rescue.Raidz.Result.{IsBlock, read_physical-IsBlock}

-- Byte `i` of every file is `i % 256`.
abbrev pub contents : String → ℕ → ℕ
contents path i = i % 256

abbrev pub bytes_from : (count offset : ℕ) → List ℕ
bytes_from zero offset = []
bytes_from (suc count) offset = offset % 256 ∷ bytes_from count (offset + 1)

pub length-bytes_from : (count offset : ℕ) → length (bytes_from count offset) ≡ count
length-bytes_from zero offset = refl
length-bytes_from (suc count) offset = omega (arith, length-bytes_from count (offset + 1))

get_or-bytes_from :
    (count offset i : ℕ) → i < count → get_or (bytes_from count offset) i 0 ≡ (offset + i) % 256
get_or-bytes_from zero offset i lt = absurd (omega arith)
get_or-bytes_from (suc count) offset zero lt = omega arith
get_or-bytes_from (suc count) offset (suc i) lt =
    omega (arith, get_or-bytes_from count (offset + 1) i (omega arith))

abbrev pub some_files : Files
some_files = record {
  pread = λ path count offset. bytes_from count offset;
  pread_le = λ path count offset. omega (arith, length-bytes_from count offset);
}

pub some_files-Delivers : Delivers some_files contents
some_files-Delivers = record {
  all = λ path count offset. length-bytes_from count offset;
  same = λ path count offset i lt. get_or-bytes_from count offset i lt;
}

abbrev pub some_device : Device
some_device = record { vdevs = "a" ∷ "b" ∷ "c" ∷ [] }

abbrev pub empty_heap : Heap
empty_heap = record { next = 1; size = λ p. none; byte = λ p i. 0 }

pub empty_heap-IsFresh : IsFresh empty_heap
empty_heap-IsFresh = record { unused = λ p le. refl }

abbrev io_abd : Abd
io_abd = record {
  self = 0;
  abd_flags = 3;
  abd_size = 12288;
  abd_parent = none;
  abd_buf = 0;
  abd_off = 0;
}

-- Three sectors in an odd megabyte, and two in sectors behind them.
abbrev some_zio : Zio
some_zio = record { io_offset = 0x101000; io_size = 12288; io_abd = io_abd }

abbrev next_zio : Zio
next_zio = record { io_offset = 0x107000; io_size = 8192; io_abd = io_abd }

some_zio-Fits : Fits 0x101000 12288
some_zio-Fits = record { word = omega arith; sector = omega arith; small = omega arith }

next_zio-Fits : Fits 0x107000 8192
next_zio-Fits = record { word = omega arith; sector = omega arith; small = omega arith }

read_physical-IsBlock_example :
    (c : Abd) × (h' : Heap) × (read_physical some_files some_device 0x101000 12288 empty_heap
      ≡ ok c h')
    × IsBlock some_device contents 0x101000 12288 empty_heap c h'
read_physical-IsBlock_example =
    read_physical-IsBlock some_files some_device contents 0x101000 12288 empty_heap refl
      some_zio-Fits some_files-Delivers empty_heap-IsFresh

-- Files that deliver the first half of what they are asked for.
abbrev half_files : Files
half_files = record {
  pread = λ path count offset. bytes_from (count / 2) offset;
  pread_le = λ path count offset. omega (arith, length-bytes_from (count / 2) offset);
}

half_files-ReadsFrom : ReadsFrom half_files contents
half_files-ReadsFrom = record {
  same = λ path count offset i lt.
      get_or-bytes_from (count / 2) offset i (omega (arith, length-bytes_from (count / 2) offset));
}

read_physical-IsShortBlock_example :
    (c : Abd) × (h' : Heap) × (read_physical half_files some_device 0x101000 12288 empty_heap
      ≡ ok c h')
    × IsShortBlock half_files some_device contents 0x101000 12288 empty_heap c h'
read_physical-IsShortBlock_example =
    read_physical-IsShortBlock half_files some_device contents 0x101000 12288 empty_heap refl
      some_zio-Fits half_files-ReadsFrom empty_heap-IsFresh

map_alloc-IsStripe_example :
    (rm : RaidzMap) × (h' : Heap) × (vdev_raidz_map_alloc some_zio 12 3 1 empty_heap ≡ ok rm h')
    × IsStripe some_zio rm
map_alloc-IsStripe_example = map_alloc-IsStripe some_zio empty_heap some_zio-Fits

abbrev some_map : RaidzMap
some_map = (map_alloc-IsStripe some_zio empty_heap some_zio-Fits).0

some_map-IsStripe : IsStripe some_zio some_map
some_map-IsStripe = (map_alloc-IsStripe some_zio empty_heap some_zio-Fits).3

abbrev next_map : RaidzMap
next_map = (map_alloc-IsStripe next_zio empty_heap next_zio-Fits).0

next_map-IsStripe : IsStripe next_zio next_map
next_map-IsStripe = (map_alloc-IsStripe next_zio empty_heap next_zio-Fits).3

some_cols : 2 < some_map.rm_cols
some_cols = ground (arith, some_map-IsStripe.columns)

next_cols : 2 < next_map.rm_cols
next_cols = ground (arith, next_map-IsStripe.columns)

abbrev some_col : RaidzCol
some_col = (some_map-IsStripe.holds 2 some_cols).0

abbrev next_col : RaidzCol
next_col = (next_map-IsStripe.holds 2 next_cols).0

map_alloc_covers_example :
    (c : ℕ) × (i : ℕ) × (col : RaidzCol) × (c < some_map.rm_cols)
    × (get_elem? some_map.rm_col c ≡ some col)
    × (i * 4096 < col.rc_size)
    × (col_sector col i ≡ 0x101000 / 4096 + 4)
map_alloc_covers_example =
    map_alloc_covers some_zio empty_heap some_zio-Fits
      (map_alloc-IsStripe some_zio empty_heap some_zio-Fits).2 4 (omega arith)

map_alloc_injective_example : (◌≡◌ {A = ℕ} 2 2) × (◌≡◌ {A = ℕ} 0 0)
map_alloc_injective_example =
    map_alloc_injective some_zio empty_heap some_zio-Fits
      (map_alloc-IsStripe some_zio empty_heap some_zio-Fits).2 2 0 2 0 some_col some_col some_cols
      some_cols (some_map-IsStripe.holds 2 some_cols).1 (some_map-IsStripe.holds 2 some_cols).1 refl

some_devidx : some_col.rc_devidx ≡ 1
some_devidx =
    let has = (some_map-IsStripe.holds 2 some_cols).2 in
    ground (arith, has.first, has.device, has.aligned)

next_devidx : next_col.rc_devidx ≡ 1
next_devidx =
    let has = (next_map-IsStripe.holds 2 next_cols).2 in
    ground (arith, has.first, has.device, has.aligned)

map_alloc_disjoint_example : some_col.rc_offset + 0 * 4096 ≢ next_col.rc_offset + 0 * 4096
map_alloc_disjoint_example =
    map_alloc_disjoint some_zio next_zio empty_heap empty_heap some_zio-Fits next_zio-Fits
      (map_alloc-IsStripe some_zio empty_heap some_zio-Fits).2
      (map_alloc-IsStripe next_zio empty_heap next_zio-Fits).2 (omega arith) 2 0 2 0 some_col
      next_col some_cols (some_map-IsStripe.holds 2 some_cols).1
      (ground (arith, (some_map-IsStripe.holds 2 some_cols).2.count)) next_cols
      (next_map-IsStripe.holds 2 next_cols).1
      (ground (arith, (next_map-IsStripe.holds 2 next_cols).2.count))
      (omega (arith, some_devidx, next_devidx))

map_alloc-fault_example :
    vdev_raidz_map_alloc (record some_zio { io_size = 512 }) 12 3 1 empty_heap ≡ fault
map_alloc-fault_example =
    map_alloc-fault (record some_zio { io_size = 512 }) empty_heap (omega arith)
