-- ===== src/Raidz/Result.antt =====
-- What `read_physical` returns: the data sectors of the block in order, and nothing left over of its
-- other allocations.
use Prim.Native.String.{String}
use dumpbin_py_zfs_rescue.Common.{
  ℕ, ◌+◌, ◌-◌, ◌*◌, ◌/◌, ◌%◌, ◌≤◌, ◌<◌, ◌≡◌, inl, inr, refl, some, Bool-cases, ◌∙◌, arith, length,
  get_or, Heap, ok, patch, ltb, ◌==◌, if◌then◌else◌,
}
use dumpbin_py_zfs_rescue.Raidz.Abd.{Abd, abd_bytes}
use dumpbin_py_zfs_rescue.Raidz.Read.{Files, Device, read_physical}
use dumpbin_py_zfs_rescue.Raidz.Geometry.{Fits, geometry-Shape, cols_cases}
use dumpbin_py_zfs_rescue.Raidz.Layout.{data_sectors}
use dumpbin_py_zfs_rescue.Raidz.Steps.{delivered}
use dumpbin_py_zfs_rescue.Raidz.Deliver.{
  data_col, last_col, filled_two, filled_three, freed_two, freed_three, block, read_physical_two,
  read_physical_three,
}
use dumpbin_py_zfs_rescue.Raidz.Bytes.{
  Delivers, Delivers-ReadsFrom, sector_byte, data_place, IsFresh, patch_two_low, patch_two_high,
  data_col-byte, last_col-byte, sizes,
}

-- `c` and `h'` are what a successful read of the block leaves.
pub record IsBlock (dev : Device) (disk : String → ℕ → ℕ) (offset psize : ℕ) (h : Heap) (c : Abd)
    (h' : Heap) : Type 0 where
  pub in_order :
      (j : ℕ)
      → j < data_sectors psize * 4096
      → h'.byte c.abd_buf j
        ≡ sector_byte dev disk
            (offset / 4096 + data_place offset (data_sectors psize) (j / 4096))
            (j % 4096)
  pub tail : (j : ℕ) → data_sectors psize * 4096 ≤ j → h'.byte c.abd_buf j ≡ h.byte c.abd_buf j
  pub fresh : c.abd_buf ≡ h.next + 1
  pub self_fresh : c.self ≡ h.next
  pub others : (p : ℕ) → p < h.next → (j : ℕ) → h'.byte p j ≡ h.byte p j
  pub live :
      (p : ℕ)
      → h'.size p
        ≡ (if p == c.self then some abd_bytes else if p == c.abd_buf then some psize else h.size p)

module _ (files : Files) (dev : Device) (disk : String → ℕ → ℕ) (offset psize : ℕ) (h : Heap)
    (paths : length dev.vdevs ≡ 3) (fits : Fits offset psize) (whole : Delivers files disk)
    (free_ids : IsFresh h) where
  block_two :
      data_sectors psize ≡ 1
      → IsBlock dev disk offset psize h
          (block psize h.next)
          (freed_two (h.next + 2) (filled_two files dev offset psize h paths fits))
  block_two one =
      let col = data_col files dev offset psize h paths fits in
      record {
        in_order = λ j lt. ground (
          arith,
          data_col-byte files dev disk offset psize h paths fits
              (Delivers-ReadsFrom files disk whole) j,
          sizes files dev offset psize h paths fits,
          whole.all (get_or dev.vdevs col.rc_devidx "") col.rc_size col.rc_offset,
        );
        tail = λ j le. ground (
          arith,
          sizes files dev offset psize h paths fits,
          whole.all (get_or dev.vdevs col.rc_devidx "") col.rc_size col.rc_offset,
        );
        fresh = refl;
        self_fresh = refl;
        others = λ p lt j. ground arith;
        live = λ p. ground (arith, free_ids.unused p);
      }

  block_three-byte :
      (j : ℕ)
      → j < data_sectors psize * 4096
      → (filled_three files dev offset psize h paths fits).byte (h.next + 1) j
        ≡ sector_byte dev disk
            (offset / 4096 + data_place offset (data_sectors psize) (j / 4096))
            (j % 4096)
  block_three-byte j lt =
      let col = data_col files dev offset psize h paths fits in
      let last = last_col files dev offset psize h paths fits in
      let ys = delivered files dev col in
      let zs = delivered files dev last in
      let old = h.byte (h.next + 1) in
      let (m, n) = sizes files dev offset psize h paths fits in
      let ys_length = whole.all (get_or dev.vdevs col.rc_devidx "") col.rc_size col.rc_offset in
      let zs_length = whole.all (get_or dev.vdevs last.rc_devidx "") last.rc_size last.rc_offset in
      let there : (filled_three files dev offset psize h paths fits).byte (h.next + 1) j
          ≡ patch (patch old 0 ys) (0 + col.rc_size) zs j =
        ground arith in
      let row : (j - col.rc_size) / 4096 ≡ j / 4096 - (data_sectors psize + 1) / 2 =
        omega (arith, m) in
      there ∙ elim (Bool-cases (ltb (j / 4096) ((data_sectors psize + 1) / 2))) [
        | inl low ↦ rw low (
            patch_two_low old ys zs col.rc_size j ys_length (ground (arith, m))
            ∙ data_col-byte files dev disk offset psize h paths fits
                (Delivers-ReadsFrom files disk whole) j (ground (arith, m, ys_length)))
        | inr high ↦
            let rest : (j - col.rc_size) % 4096 ≡ j % 4096 = ground (arith, m) in
            rw high (
              patch_two_high old ys zs col.rc_size j (ground (arith, m))
                (ground (arith, m, n, zs_length))
              ∙ last_col-byte files dev disk offset psize h paths fits
                  (Delivers-ReadsFrom files disk whole) (j - col.rc_size)
                  (ground (arith, m, n, zs_length))
              ∙ rw (row, rest))
      ]

  block_three :
      IsBlock dev disk offset psize h
        (block psize h.next)
        (freed_three (h.next + 2) (filled_three files dev offset psize h paths fits))
  block_three =
      let col = data_col files dev offset psize h paths fits in
      let last = last_col files dev offset psize h paths fits in
      record {
        in_order = block_three-byte;
        tail = λ j le. ground (
          arith,
          sizes files dev offset psize h paths fits,
          whole.all (get_or dev.vdevs col.rc_devidx "") col.rc_size col.rc_offset,
          whole.all (get_or dev.vdevs last.rc_devidx "") last.rc_size last.rc_offset,
        );
        fresh = refl;
        self_fresh = refl;
        others = λ p lt j. ground arith;
        live = λ p. ground (arith, free_ids.unused p);
      }

-- `read_physical` of at least a sector, on three files that deliver all that is asked for and a heap
-- that has no block yet at its next numbers: it returns a new block of `psize` bytes, whose whole
-- sectors are the data sectors of the stripe in order, each from the disk that has it. What follows
-- them in the block, and every block that was there, is as it was, and no other allocation is left.
pub read_physical-IsBlock :
    (files : Files) (dev : Device) (disk : String → ℕ → ℕ) (offset psize : ℕ) (h : Heap)
    → length dev.vdevs ≡ 3
    → Fits offset psize
    → Delivers files disk
    → IsFresh h
    → (c : Abd) × (h' : Heap) × (read_physical files dev offset psize h ≡ ok c h')
      × IsBlock dev disk offset psize h c h'
read_physical-IsBlock files dev disk offset psize h paths fits whole free_ids =
    elim (cols_cases offset psize fits) [
      | inl two ↦ (
        _,
        _,
        read_physical_two files dev offset psize h paths fits two.2 two.1,
        block_two files dev disk offset psize h paths fits whole free_ids
            (ground (arith, geometry-Shape offset psize fits)),
      )
      | inr three ↦ (
        _,
        _,
        read_physical_three files dev offset psize h paths fits three.2 three.1,
        block_three files dev disk offset psize h paths fits whole free_ids,
      )
    ]
