-- ===== src/Rescue/SameBlock.antt =====
-- The block that `_read_physical` returns and that of the extractor's `read_physical`, byte by byte.
use Prim.Native.String.{String}
use dumpbin_py_zfs_rescue.Common.{
  ℕ, ◌+◌, ◌-◌, ◌*◌, ◌/◌, ◌^◌, ◌≤◌, ◌<◌, ◌≡◌, inl, inr, [], ◌∷◌, ◌++◌, List, some, sym, ap, ◌∙◌,
  arith, length, get_or, Heap, ok, patch,
}
use native.Mathlib.Decide.{dec_lt}
use mathlib.Core.List.{append-nil}
use dumpbin_py_zfs_rescue.Raidz.Abd.{Abd}
use dumpbin_py_zfs_rescue.Raidz.Read.{Files, Device}
use dumpbin_py_zfs_rescue.Raidz.Read as Extractor
use dumpbin_py_zfs_rescue.Raidz.Geometry.{plan, Fits, geometry-Shape, fill_col_lem, cols_cases}
use dumpbin_py_zfs_rescue.Raidz.Layout.{data_sectors}
use dumpbin_py_zfs_rescue.Raidz.Alloc.{first_cols, third_col, stripe_map}
use dumpbin_py_zfs_rescue.Raidz.Deliver.{
  request, parity_col, data_col, last_col, filled_two, filled_three, freed_two, freed_three,
  read_physical_two, read_physical_three,
}
use dumpbin_py_zfs_rescue.Raidz.Bytes.{sizes, patch_two_low, patch_two_high}
use dumpbin_py_zfs_rescue.Rescue.Py.{Py, done}
use dumpbin_py_zfs_rescue.Rescue.Repaired.{none_left, column}
use dumpbin_py_zfs_rescue.Rescue.Reader.{start, read_physical}
use dumpbin_py_zfs_rescue.Rescue.SameStripe.{place_of, map_alloc_two_cols, map_alloc_three_cols}
use dumpbin_py_zfs_rescue.Rescue.SameRead.{
  no_col, col, piece, get_or-append_low, get_or-append_high, length-append, shifted, rescue_device,
  steps,
}

module _ (files : Files) (read : String → (offset count : ℕ) → Py (List ℕ))
    (reads : (path : String) (offset count : ℕ)
      → read path offset count ≡ done (files.pread path count offset))
    (all : (path : String) (count offset : ℕ)
      → length (files.pread path count offset) ≡ count) where
  module _ (dev : Device) (bad : List ℕ) (offset psize : ℕ) (h : Heap)
      (paths : length dev.vdevs ≡ 3) (fits : Fits offset psize) (below : offset ≤ 8 * 2 ^ 40) where
    abbrev ys : List ℕ
    ys = piece files dev.vdevs (place_of (data_col (shifted files) dev offset psize h paths fits))

    abbrev zs : List ℕ
    zs = piece files dev.vdevs (place_of (last_col (shifted files) dev offset psize h paths fits))

    -- The sizes and devices of the columns.
    col_facts :
        let x = parity_col (shifted files) dev offset psize h paths fits in
        let y = data_col (shifted files) dev offset psize h paths fits in
        let z = last_col (shifted files) dev offset psize h paths fits in
        (x.rc_devidx < 3)
        × (y.rc_devidx < 3)
        × (z.rc_devidx < 3)
        × (x.rc_size ≡ y.rc_size)
        × (z.rc_size ≤ y.rc_size)
    col_facts = ground (
      arith,
      geometry-Shape offset psize fits,
      fill_col_lem offset psize 0 fits,
      fill_col_lem offset psize 1 fits,
      fill_col_lem offset psize 2 fits,
    )

    short_cols :
        (length ys ≤ (parity_col (shifted files) dev offset psize h paths fits).rc_size)
        × (length zs ≤ (parity_col (shifted files) dev offset psize h paths fits).rc_size)
    short_cols =
        let y = data_col (shifted files) dev offset psize h paths fits in
        let z = last_col (shifted files) dev offset psize h paths fits in
        omega (
          arith,
          col_facts,
          all (get_or dev.vdevs y.rc_devidx "") y.rc_size (y.rc_offset + start),
          all (get_or dev.vdevs z.rc_devidx "") z.rc_size (z.rc_offset + start),
        )

    rescue_two :
        (plan offset psize).scols ≡ 2
        → read_physical read (rescue_device dev bad) offset psize ≡ done (some (ys ++ []))
    rescue_two e =
        let zio = request offset psize h.next in
        let x = parity_col (shifted files) dev offset psize h paths fits in
        let y = data_col (shifted files) dev offset psize h paths fits in
        steps files read reads all dev bad offset psize x.rc_size (place_of x) (place_of y ∷ [])
          (stripe_map zio (h.next + 2) (first_cols zio (h.next + 2) [])).rm_skipstart below
          (rw paths (map_alloc_two_cols zio (h.next + 2) fits e))
          (col (omega (arith, col_facts, paths)) (col (omega (arith, col_facts, paths)) no_col))
          (omega arith) (column short_cols.0 none_left)

    rescue_three :
        (plan offset psize).scols ≡ 3
        → read_physical read (rescue_device dev bad) offset psize ≡ done (some (ys ++ (zs ++ [])))
    rescue_three e =
        let zio = request offset psize h.next in
        let x = parity_col (shifted files) dev offset psize h paths fits in
        let y = data_col (shifted files) dev offset psize h paths fits in
        let z = last_col (shifted files) dev offset psize h paths fits in
        steps files read reads all dev bad offset psize x.rc_size (place_of x)
          (place_of y ∷ place_of z ∷ [])
          (stripe_map zio (h.next + 2)
            (first_cols zio (h.next + 2) (third_col zio (h.next + 2) ∷ []))).rm_skipstart
          below (rw paths (map_alloc_three_cols zio (h.next + 2) fits e))
          (col (omega (arith, col_facts, paths))
            (col (omega (arith, col_facts, paths)) (col (omega (arith, col_facts, paths)) no_col)))
          (omega arith) (column short_cols.0 (column short_cols.1 none_left))

    lengths :
        (length ys ≡ (data_sectors psize + 1) / 2 * 4096)
        × (length zs ≡ data_sectors psize / 2 * 4096)
    lengths =
        let y = data_col (shifted files) dev offset psize h paths fits in
        let z = last_col (shifted files) dev offset psize h paths fits in
        let (m, n) = sizes (shifted files) dev offset psize h paths fits in
        (
          all (get_or dev.vdevs y.rc_devidx "") y.rc_size (y.rc_offset + start) ∙ m,
          all (get_or dev.vdevs z.rc_devidx "") z.rc_size (z.rc_offset + start) ∙ n,
        )

    bytes_two :
        (j : ℕ)
        → j < length ys
        → get_or (ys ++ []) j 0
          ≡ (freed_two (h.next + 2) (filled_two (shifted files) dev offset psize h paths fits)).byte
              (h.next + 1)
              j
    bytes_two j lt = ap (λ xs. get_or xs j 0) (append-nil ys) ∙ ground arith

    bytes_three :
        (j : ℕ)
        → j < length ys + length zs
        → get_or (ys ++ (zs ++ [])) j 0
          ≡ (freed_three
                (h.next + 2)
                (filled_three (shifted files) dev offset psize h paths fits)).byte
              (h.next + 1)
              j
    bytes_three j lt =
        let y = data_col (shifted files) dev offset psize h paths fits in
        let old = h.byte (h.next + 1) in
        let len : length ys ≡ y.rc_size =
          all (get_or dev.vdevs y.rc_devidx "") y.rc_size (y.rc_offset + start) in
        let there : (filled_three (shifted files) dev offset psize h paths fits).byte (h.next + 1) j
            ≡ patch (patch old 0 ys) (0 + y.rc_size) zs j =
          ground arith in
        ap (λ xs. get_or (ys ++ xs) j 0) (append-nil zs) ∙ elim (dec_lt j (length ys)) [
          | yes low ↦
              get_or-append_low ys zs j low
              ∙ sym (there ∙ patch_two_low old ys zs y.rc_size j len (omega (arith, len)))
          | no high ↦
              get_or-append_high ys zs j (omega arith)
              ∙ ap (λ (t : ℕ). get_or zs (j - t) 0) len
              ∙ sym (
                  there
                  ∙ patch_two_high old ys zs y.rc_size j (omega (arith, len)) (omega (arith, len)))
        ]

-- For a block of at least a sector on three devices with sectors of 4096 bytes, within the limit of
-- `_read_physical`, and with files that deliver all that they are asked for: what `_read_physical`
-- returns, where it repairs nothing, is the whole sectors of the block that the extractor's
-- `read_physical` reads from the same files without their first four megabytes.
pub read_physical_same :
    (files : Files) (read : String → (offset count : ℕ) → Py (List ℕ)) (dev : Device) (bad : List ℕ)
    (offset psize : ℕ) (h : Heap)
    → ((path : String) (offset count : ℕ)
        → read path offset count ≡ done (files.pread path count offset))
    → ((path : String) (count offset : ℕ) → length (files.pread path count offset) ≡ count)
    → length dev.vdevs ≡ 3
    → Fits offset psize
    → offset ≤ 8 * 2 ^ 40
    → (c : Abd) × (h' : Heap) × (bytes : List ℕ) × (Extractor.read_physical
          (shifted files)
          dev
          offset
          psize
          h
        ≡ ok c h')
      × (read_physical read (rescue_device dev bad) offset psize ≡ done (some bytes))
      × (length bytes ≡ data_sectors psize * 4096)
      × ((j : ℕ) → j < data_sectors psize * 4096 → get_or bytes j 0 ≡ h'.byte c.abd_buf j)
read_physical_same files read dev bad offset psize h reads all paths fits below =
    let y = ys files read reads all dev bad offset psize h paths fits below in
    let z = zs files read reads all dev bad offset psize h paths fits below in
    let (m, n) = lengths files read reads all dev bad offset psize h paths fits below in
    elim (cols_cases offset psize fits) [
      | inl two ↦
          let one : data_sectors psize ≡ 1 = ground (arith, geometry-Shape offset psize fits) in
          (
            _,
            _,
            _,
            read_physical_two (shifted files) dev offset psize h paths fits two.2 two.1,
            rescue_two files read reads all dev bad offset psize h paths fits below two.2,
            ap (λ xs. length xs) (append-nil y) ∙ omega (arith, m, one),
            λ j lt.
                bytes_two files read reads all dev bad offset psize h paths fits below j
                  (omega (arith, m, one)),
          )
      | inr three ↦ (
        _,
        _,
        _,
        read_physical_three (shifted files) dev offset psize h paths fits three.2 three.1,
        rescue_three files read reads all dev bad offset psize h paths fits below three.2,
        ap (λ xs. length (y ++ xs)) (append-nil z) ∙ omega (arith, length-append y z, m, n),
        λ j lt.
            bytes_three files read reads all dev bad offset psize h paths fits below j
              (omega (arith, m, n)),
      )
    ]
