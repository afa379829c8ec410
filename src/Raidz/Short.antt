-- ===== src/Raidz/Short.antt =====
-- What `read_physical` returns where files cannot be opened or end too early: the results of the
-- system calls are not looked at, so it returns all the same.
use Prim.Native.String.{String}
use dumpbin_py_zfs_rescue.Common.{
  ℕ, ◌+◌, ◌-◌, ◌*◌, ◌/◌, ◌%◌, ◌≤◌, ◌<◌, ◌≡◌, true, false, lt→ltb, le→ltb, inl, inr, ap, ◌∙◌, arith,
  length, get_or, Heap, ok, patch, ltb,
}
use dumpbin_py_zfs_rescue.Raidz.Abd.{Abd}
use dumpbin_py_zfs_rescue.Raidz.Read.{Files, Device, read_physical}
use dumpbin_py_zfs_rescue.Raidz.Geometry.{Fits, cols_cases, geometry-Shape}
use dumpbin_py_zfs_rescue.Raidz.Layout.{data_sectors, place}
use dumpbin_py_zfs_rescue.Raidz.Steps.{delivered}
use dumpbin_py_zfs_rescue.Raidz.Deliver.{
  data_col, last_col, filled_two, filled_three, freed_two, freed_three, block, read_physical_two,
  read_physical_three,
}
use dumpbin_py_zfs_rescue.Raidz.Bytes.{
  ReadsFrom, sector_byte, data_place, IsFresh, data_col-byte, last_col-byte, sizes, data_col-place,
  last_col-place, patch_two_high,
}
use dumpbin_py_zfs_rescue.Raidz.ShortBlock.{
  first_read, second_read, IsShortBlock, two_first, two_old,
}

module _ (files : Files) (dev : Device) (disk : String → ℕ → ℕ) (offset psize : ℕ) (h : Heap)
    (paths : length dev.vdevs ≡ 3) (fits : Fits offset psize) (reads : ReadsFrom files disk)
    (free_ids : IsFresh h) where
  abbrev at_place : ℕ → ℕ
  at_place j =
      sector_byte dev disk (offset / 4096 + data_place offset (data_sectors psize) (j / 4096))
        (j % 4096)

  data_low :
      length (delivered files dev (data_col files dev offset psize h paths fits))
      ≤ (data_col files dev offset psize h paths fits).rc_size
  data_low =
      let col = data_col files dev offset psize h paths fits in
      files.pread_le (get_or dev.vdevs col.rc_devidx "") col.rc_size col.rc_offset

  last_low :
      length (delivered files dev (last_col files dev offset psize h paths fits))
      ≤ (last_col files dev offset psize h paths fits).rc_size
  last_low =
      let col = last_col files dev offset psize h paths fits in
      files.pread_le (get_or dev.vdevs col.rc_devidx "") col.rc_size col.rc_offset

  -- A byte that the first data column delivers is that of its place in the block.
  first_place :
      (j : ℕ)
      → j < length (delivered files dev (data_col files dev offset psize h paths fits))
      → get_or (delivered files dev (data_col files dev offset psize h paths fits)) j 0 ≡ at_place j
  first_place j lt =
      let (m, n) = sizes files dev offset psize h paths fits in
      let low : ltb (j / 4096) ((data_sectors psize + 1) / 2) ≡ true =
        lt→ltb (j / 4096) ((data_sectors psize + 1) / 2) (omega (arith, m, data_low, lt)) in
      rw low (data_col-byte files dev disk offset psize h paths fits reads j lt)

  second_place :
      (j : ℕ)
      → (data_col files dev offset psize h paths fits).rc_size ≤ j
      → j - (data_col files dev offset psize h paths fits).rc_size
        < length (delivered files dev (last_col files dev offset psize h paths fits))
      → get_or
          (delivered files dev (last_col files dev offset psize h paths fits))
          (j - (data_col files dev offset psize h paths fits).rc_size)
          0
        ≡ at_place j
  second_place j le lt =
      let col = data_col files dev offset psize h paths fits in
      let (m, n) = sizes files dev offset psize h paths fits in
      let high : ltb (j / 4096) ((data_sectors psize + 1) / 2) ≡ false =
        le→ltb (j / 4096) ((data_sectors psize + 1) / 2) (omega (arith, m, le)) in
      let row : (j - col.rc_size) / 4096 ≡ j / 4096 - (data_sectors psize + 1) / 2 =
        omega (arith, m) in
      let rest : (j - col.rc_size) % 4096 ≡ j % 4096 = omega (arith, m, le) in
      rw high (
        last_col-byte files dev disk offset psize h paths fits reads (j - col.rc_size) lt
        ∙ rw (row, rest))

  first_e :
      delivered files dev (data_col files dev offset psize h paths fits)
      ≡ first_read files dev offset psize
  first_e =
      let col = data_col files dev offset psize h paths fits in
      let sector = offset / 4096 + place offset 1 in
      let (devs, at) = data_col-place files dev offset psize h paths fits 0 in
      let dev_e : col.rc_devidx ≡ sector % 3 = omega (arith, devs) in
      let size_e = (sizes files dev offset psize h paths fits).0 in
      let at_e : col.rc_offset ≡ sector / 3 * 4096 = omega (arith, at) in
      λ i. files.pread (get_or dev.vdevs (dev_e i) "") (size_e i) (at_e i)

  second_e :
      delivered files dev (last_col files dev offset psize h paths fits)
      ≡ second_read files dev offset psize
  second_e =
      let col = last_col files dev offset psize h paths fits in
      let sector = offset / 4096 + 2 in
      let (devs, at) = last_col-place files dev offset psize h paths fits 0 in
      let dev_e : col.rc_devidx ≡ sector % 3 = omega (arith, devs) in
      let size_e = (sizes files dev offset psize h paths fits).1 in
      let at_e : col.rc_offset ≡ sector / 3 * 4096 = omega (arith, at) in
      λ i. files.pread (get_or dev.vdevs (dev_e i) "") (size_e i) (at_e i)

  -- How much the two reads deliver.
  counts :
      (length (delivered files dev (data_col files dev offset psize h paths fits))
        ≡ length (first_read files dev offset psize))
      × (length (delivered files dev (last_col files dev offset psize h paths fits))
          ≡ length (second_read files dev offset psize))
  counts = (ap (λ xs. length xs) first_e, ap (λ xs. length xs) second_e)

  short_two :
      data_sectors psize ≡ 1
      → IsShortBlock files dev disk offset psize h
          (block psize h.next)
          (freed_two (h.next + 2) (filled_two files dev offset psize h paths fits))
  short_two one =
      let ys = delivered files dev (data_col files dev offset psize h paths fits) in
      let (m, n) = sizes files dev offset psize h paths fits in
      record {
        read = λ j where_j. elim where_j [
          | inl lt ↦
              let lt' : j < length ys = omega (arith, lt, counts.0) in
              let there : (filled_two files dev offset psize h paths fits).byte (h.next + 1) j
                  ≡ get_or ys j 0 =
                ground arith in
              there ∙ first_place j lt'
          | inr (le, lt) ↦ absurd (omega (arith, one, le, lt, last_low, n, counts.1))
        ];
        old = λ j le _. let le' : length ys ≤ j = omega (arith, le, counts.0) in ground arith;
        others = λ p lt j. ground arith;
        live = λ p. ground (arith, free_ids.unused p);
      }

  three_copied :
      (j : ℕ)
      → (filled_three files dev offset psize h paths fits).byte (h.next + 1) j
        ≡ patch
            (patch
              (h.byte (h.next + 1))
              0
              (delivered files dev (data_col files dev offset psize h paths fits)))
            (0 + (data_col files dev offset psize h paths fits).rc_size)
            (delivered files dev (last_col files dev offset psize h paths fits))
            j
  three_copied j = ground arith

  short_three :
      IsShortBlock files dev disk offset psize h
        (block psize h.next)
        (freed_three (h.next + 2) (filled_three files dev offset psize h paths fits))
  short_three =
      let col = data_col files dev offset psize h paths fits in
      let ys = delivered files dev col in
      let zs = delivered files dev (last_col files dev offset psize h paths fits) in
      let old = h.byte (h.next + 1) in
      let (m, n) = sizes files dev offset psize h paths fits in
      let there = λ (j : ℕ). three_copied j in
      record {
        read = λ j where_j. elim where_j [
          | inl lt ↦
              let lt' : j < length ys = omega (arith, lt, counts.0) in
              there j ∙ two_first old ys zs col.rc_size j data_low lt' ∙ first_place j lt'
          | inr (le, lt) ↦
              let le' : col.rc_size ≤ j = omega (arith, le, m) in
              there j
              ∙ patch_two_high old ys zs col.rc_size j le' (omega (arith, lt, m, counts.1))
              ∙ second_place j le' (omega (arith, lt, le', m, counts.1))
        ];
        old = λ j le where_j.
            there j
            ∙ two_old old ys zs col.rc_size j (omega (arith, le, counts.0)) (elim where_j [
              | inl lt ↦ inl (omega (arith, lt, m))
              | inr past ↦ inr (omega (arith, past, m, counts.1))
            ]);
        others = λ p lt j. ground arith;
        live = λ p. ground (arith, free_ids.unused p);
      }

-- `read_physical` of at least a sector returns whatever the system calls deliver, be it a part of what
-- they are asked for or nothing, with no report: each byte of the new block that is delivered is that of
-- its data sector, and each other one is the one that `malloc` has left there. Every block that was there is as it was, and no other
-- allocation is left.
pub read_physical-IsShortBlock :
    (files : Files) (dev : Device) (disk : String → ℕ → ℕ) (offset psize : ℕ) (h : Heap)
    → length dev.vdevs ≡ 3
    → Fits offset psize
    → ReadsFrom files disk
    → IsFresh h
    → (c : Abd) × (h' : Heap) × (read_physical files dev offset psize h ≡ ok c h')
      × IsShortBlock files dev disk offset psize h c h'
read_physical-IsShortBlock files dev disk offset psize h paths fits reads free_ids =
    elim (cols_cases offset psize fits) [
      | inl two ↦ (
        _,
        _,
        read_physical_two files dev offset psize h paths fits two.2 two.1,
        short_two files dev disk offset psize h paths fits reads free_ids
            (ground (arith, geometry-Shape offset psize fits)),
      )
      | inr three ↦ (
        _,
        _,
        read_physical_three files dev offset psize h paths fits three.2 three.1,
        short_three files dev disk offset psize h paths fits reads free_ids,
      )
    ]
