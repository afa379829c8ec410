-- ===== src/Raidz/Bytes.antt =====
-- The bytes that the columns deliver.
use Prim.Native.String.{String}
use dumpbin_py_zfs_rescue.Common.{
  ℕ, ◌+◌, ◌-◌, ◌*◌, ◌/◌, ◌%◌, ◌≤◌, ◌<◌, ◌≡◌, none, List, arith, length, get_or, Heap, patch, ltb,
  if◌then◌else◌,
}
use dumpbin_py_zfs_rescue.Raidz.Read.{Files, Device}
use dumpbin_py_zfs_rescue.Raidz.Geometry.{Fits, geometry-Shape, fill_col_lem}
use dumpbin_py_zfs_rescue.Raidz.Layout.{data_sectors, place, swapped-eq-in_odd_megabyte}
use dumpbin_py_zfs_rescue.Raidz.Steps.{delivered}
use dumpbin_py_zfs_rescue.Raidz.Deliver.{data_col, last_col}

-- Every `pread` delivers all that it is asked for, from the contents `disk`.
pub record Delivers (files : Files) (disk : String → ℕ → ℕ) : Type 0 where
  pub all : (path : String) (count offset : ℕ) → length (files.pread path count offset) ≡ count
  pub same :
      (path : String) (count offset i : ℕ)
      → i < count
      → get_or (files.pread path count offset) i 0 ≡ disk path (offset + i)

-- Byte `i` of a sector of the whole device, on the disk that has it.
abbrev pub sector_byte : Device → (String → ℕ → ℕ) → (sector i : ℕ) → ℕ
sector_byte dev disk sector i = disk (get_or dev.vdevs (sector % 3) "") (sector / 3 * 4096 + i)

-- The place, among the sectors of the I/O, of data sector `k` of `s`: the first data column has the
-- first half of them, every third sector from its place on, and the second one has the others.
abbrev pub data_place : (offset s k : ℕ) → ℕ
data_place offset s k =
    if ltb k ((s + 1) / 2) then place offset 1 + 3 * k else 2 + 3 * (k - (s + 1) / 2)

-- No block is live that is not allocated yet.
pub record IsFresh (h : Heap) : Type 0 where
  pub unused : (p : ℕ) → h.next ≤ p → h.size p ≡ none

-- Two copies one behind the other.
pub patch_two_low :
    (old : ℕ → ℕ) (ys zs : List ℕ) (m j : ℕ)
    → length ys ≡ m
    → j < m
    → patch (patch old 0 ys) (0 + m) zs j ≡ get_or ys j 0
patch_two_low old ys zs m j e lt = ground arith

pub patch_two_high :
    (old : ℕ → ℕ) (ys zs : List ℕ) (m j : ℕ)
    → m ≤ j
    → j < m + length zs
    → patch (patch old 0 ys) (0 + m) zs j ≡ get_or zs (j - m) 0
patch_two_high old ys zs m j le lt = ground arith

module _ (files : Files) (dev : Device) (offset psize : ℕ) (h : Heap) (paths : length dev.vdevs ≡ 3)
    (fits : Fits offset psize) where
  -- Where the disk has byte `j` of the first data column, and of the second one.
  pub data_col-place :
      (j : ℕ)
      → let col = data_col files dev offset psize h paths fits in
        let sector = offset / 4096 + (place offset 1 + 3 * (j / 4096)) in
        (col.rc_devidx ≡ sector % 3) × (col.rc_offset + j ≡ sector / 3 * 4096 + j % 4096)
  data_col-place j = ground (
    arith,
    swapped-eq-in_odd_megabyte offset,
    fill_col_lem offset psize 0 fits,
    fill_col_lem offset psize 1 fits,
    geometry-Shape offset psize fits,
  )

  pub last_col-place :
      (j : ℕ)
      → let col = last_col files dev offset psize h paths fits in
        let sector = offset / 4096 + (2 + 3 * (j / 4096)) in
        (col.rc_devidx ≡ sector % 3) × (col.rc_offset + j ≡ sector / 3 * 4096 + j % 4096)
  last_col-place j =
      ground (arith, fill_col_lem offset psize 2 fits, geometry-Shape offset psize fits)

  pub sizes :
      ((data_col files dev offset psize h paths fits).rc_size ≡ (data_sectors psize + 1) / 2 * 4096)
      × ((last_col files dev offset psize h paths fits).rc_size ≡ data_sectors psize / 2 * 4096)
  sizes = ground (
    arith,
    fill_col_lem offset psize 1 fits,
    fill_col_lem offset psize 2 fits,
    geometry-Shape offset psize fits,
  )

-- Every `pread` delivers the first of the bytes that it is asked for, as many as it happens to.
pub record ReadsFrom (files : Files) (disk : String → ℕ → ℕ) : Type 0 where
  pub same :
      (path : String) (count offset i : ℕ)
      → i < length (files.pread path count offset)
      → get_or (files.pread path count offset) i 0 ≡ disk path (offset + i)

pub Delivers-ReadsFrom :
    (files : Files) (disk : String → ℕ → ℕ) → Delivers files disk → ReadsFrom files disk
Delivers-ReadsFrom files disk whole = record {
  same = λ path count offset i lt.
      whole.same path count offset i (omega (arith, whole.all path count offset));
}

module _ (files : Files) (dev : Device) (disk : String → ℕ → ℕ) (offset psize : ℕ) (h : Heap)
    (paths : length dev.vdevs ≡ 3) (fits : Fits offset psize) (reads : ReadsFrom files disk) where
  pub data_col-byte :
      (j : ℕ)
      → j < length (delivered files dev (data_col files dev offset psize h paths fits))
      → get_or (delivered files dev (data_col files dev offset psize h paths fits)) j 0
        ≡ sector_byte dev disk (offset / 4096 + (place offset 1 + 3 * (j / 4096))) (j % 4096)
  data_col-byte j lt =
      let col = data_col files dev offset psize h paths fits in
      let (devs, at) = data_col-place files dev offset psize h paths fits j in
      rw (reads.same (get_or dev.vdevs col.rc_devidx "") col.rc_size col.rc_offset j lt, devs, at)

  pub last_col-byte :
      (j : ℕ)
      → j < length (delivered files dev (last_col files dev offset psize h paths fits))
      → get_or (delivered files dev (last_col files dev offset psize h paths fits)) j 0
        ≡ sector_byte dev disk (offset / 4096 + (2 + 3 * (j / 4096))) (j % 4096)
  last_col-byte j lt =
      let col = last_col files dev offset psize h paths fits in
      let (devs, at) = last_col-place files dev offset psize h paths fits j in
      rw (reads.same (get_or dev.vdevs col.rc_devidx "") col.rc_size col.rc_offset j lt, devs, at)
