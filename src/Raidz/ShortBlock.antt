-- ===== src/Raidz/ShortBlock.antt =====
-- What a read leaves of a block of which not all is delivered.
use Prim.Native.String.{String}
use dumpbin_py_zfs_rescue.Common.{
  ℕ, ◌+◌, ◌*◌, ◌/◌, ◌%◌, ◌≤◌, ◌<◌, ◌≡◌, ◌⊎◌, some, List, arith, length, get_or, Heap, patch, ◌==◌,
  if◌then◌else◌,
}
use dumpbin_py_zfs_rescue.Raidz.Abd.{Abd, abd_bytes}
use dumpbin_py_zfs_rescue.Raidz.Read.{Files, Device}
use dumpbin_py_zfs_rescue.Raidz.Layout.{data_sectors, place}
use dumpbin_py_zfs_rescue.Raidz.Bytes.{sector_byte, data_place}

-- What the reads of the two data columns deliver: the first one has the first half of the sectors.
abbrev pub first_bytes : ℕ → ℕ
first_bytes psize = (data_sectors psize + 1) / 2 * 4096

abbrev pub first_read : Files → Device → (offset psize : ℕ) → List ℕ
first_read files dev offset psize =
    let sector = offset / 4096 + place offset 1 in
    files.pread (get_or dev.vdevs (sector % 3) "") (first_bytes psize) (sector / 3 * 4096)

abbrev pub second_read : Files → Device → (offset psize : ℕ) → List ℕ
second_read files dev offset psize =
    let sector = offset / 4096 + 2 in
    files.pread (get_or dev.vdevs (sector % 3) "") (data_sectors psize / 2 * 4096)
      (sector / 3 * 4096)

-- `c` and `h'` are what a read leaves of which any part may have failed: all that was delivered, at its
-- place, and the old bytes everywhere else.
pub record IsShortBlock (files : Files) (dev : Device) (disk : String → ℕ → ℕ) (offset psize : ℕ)
    (h : Heap) (c : Abd) (h' : Heap) : Type 0 where
  pub read :
      (j : ℕ)
      → (j < length (first_read files dev offset psize))
        ⊎ ((first_bytes psize ≤ j)
            × (j < first_bytes psize + length (second_read files dev offset psize)))
      → h'.byte c.abd_buf j
        ≡ sector_byte dev disk
            (offset / 4096 + data_place offset (data_sectors psize) (j / 4096))
            (j % 4096)
  pub old :
      (j : ℕ)
      → length (first_read files dev offset psize) ≤ j
      → (j < first_bytes psize)
        ⊎ (first_bytes psize + length (second_read files dev offset psize) ≤ j)
      → h'.byte c.abd_buf j ≡ h.byte c.abd_buf j
  pub others : (p : ℕ) → p < h.next → (j : ℕ) → h'.byte p j ≡ h.byte p j
  pub live :
      (p : ℕ)
      → h'.size p
        ≡ (if p == c.self then some abd_bytes else if p == c.abd_buf then some psize else h.size p)

-- Two copies, of which each may be too short.
pub two_first :
    (old : ℕ → ℕ) (ys zs : List ℕ) (m j : ℕ)
    → length ys ≤ m
    → j < length ys
    → patch (patch old 0 ys) (0 + m) zs j ≡ get_or ys j 0
two_first old ys zs m j le lt = ground arith

pub two_old :
    (old : ℕ → ℕ) (ys zs : List ℕ) (m j : ℕ)
    → length ys ≤ j
    → (j < m) ⊎ (m + length zs ≤ j)
    → patch (patch old 0 ys) (0 + m) zs j ≡ old j
two_old old ys zs m j le where_j = ground arith
