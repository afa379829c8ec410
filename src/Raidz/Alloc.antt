-- ===== src/Raidz/Alloc.antt =====
-- `vdev_raidz_map_alloc` as `read_physical` calls it: the map and the heap that it leaves, written out.
-- With one sector the stripe has two columns, otherwise three.
use dumpbin_py_zfs_rescue.Common.{
  ℕ, ◌+◌, ◌*◌, ◌/◌, ◌%◌, ◌^◌, ◌<◌, ◌≡◌, ◌&&◌, [], ◌∷◌, none, some, List, Bool, arith, not, bit_and,
  Heap, ok, fault, update, ◌==◌, if◌then◌else◌,
}
use dumpbin_py_zfs_rescue.Raidz.Abd.{Abd, abd_bytes, abd_flag_linear, abd_flag_owner}
use dumpbin_py_zfs_rescue.Raidz.Map.{
  fill_col, RaidzCol, RaidzMap, Zio, swap_parity, map_bytes, vdev_raidz_map_alloc, geometry,
  fill_cols, sum_sizes,
}
use dumpbin_py_zfs_rescue.Raidz.Geometry.{
  plan, Fits, geometry-Shape, fill_col_lem, fill_cols_two, fill_cols_three, sum_sizes-fill_cols,
}

-- The parity column's own buffer.
abbrev pub parity_abd : ℕ → RaidzCol → Abd
parity_abd n col = record {
  self = n;
  abd_flags = abd_flag_owner + abd_flag_linear;
  abd_size = col.rc_size;
  abd_parent = none;
  abd_buf = n + 1;
  abd_off = 0;
}

-- A data column's slice of the caller's buffer.
abbrev pub slice_abd : Abd → ℕ → ℕ → RaidzCol → Abd
slice_abd io n off col = record {
  self = n;
  abd_flags = 0;
  abd_size = col.rc_size;
  abd_parent = some io.self;
  abd_buf = io.abd_buf;
  abd_off = io.abd_off + off;
}

abbrev pub swapped : ℕ → Bool
swapped offset = not (bit_and offset (2 ^ 20) == 0)

-- Column `x` with its buffer, and with the place on disk of `y` when the two are swapped.
abbrev pub placed : Bool → RaidzCol → RaidzCol → Abd → RaidzCol
placed trade x y a = record x {
  rc_devidx = if trade then y.rc_devidx else x.rc_devidx;
  rc_offset = if trade then y.rc_offset else x.rc_offset;
  rc_abd = some a;
}

module _ (zio : Zio) where
  abbrev pub column : ℕ → RaidzCol
  column c = fill_col (plan zio.io_offset zio.io_size) 12 3 c

  abbrev pub first_cols : ℕ → List RaidzCol → List RaidzCol
  first_cols n rest =
      let trade = swapped zio.io_offset in
      placed trade (column 0) (column 1) (parity_abd (n + 1) (column 0))
      ∷ placed trade (column 1) (column 0) (slice_abd zio.io_abd (n + 3) 0 (column 1))
      ∷ rest

  abbrev pub third_col : ℕ → RaidzCol
  third_col n = record (column 2) {
    rc_abd = some (slice_abd zio.io_abd (n + 4) (column 1).rc_size (column 2));
  }

  abbrev pub stripe_map : ℕ → List RaidzCol → RaidzMap
  stripe_map n cols =
      let g = plan zio.io_offset zio.io_size in
      record {
        rm_self = n;
        rm_cols = g.acols;
        rm_scols = g.scols;
        rm_bigcols = g.bc;
        rm_asize = (g.tot + 1) / 2 * 8192;
        rm_missingdata = 0;
        rm_missingparity = 0;
        rm_firstdatacol = 1;
        rm_nskip = g.tot % 2;
        rm_skipstart = if swapped zio.io_offset && (g.bc == 0) then 1 else g.bc;
        rm_abd_copy = none;
        rm_reports = 0;
        rm_freed = 0;
        rm_ecksuminjected = 0;
        rm_col = cols;
      }

  -- The allocations for `cols` columns: the map, the parity column's structure and buffer, and a
  -- structure for each data column.
  abbrev pub first_heap : ℕ → Heap → Heap
  first_heap cols h =
      let n = h.next in
      record h {
        next = n + 4;
        size =
            update
              (update (update (update h.size n (some (map_bytes cols))) (n + 1) (some abd_bytes))
                (n + 2) (some (column 0).rc_size))
              (n + 3) (some abd_bytes);
      }

  abbrev pub third_heap : Heap → Heap
  third_heap h =
      let n = h.next in
      record h { next = n + 5; size = update (first_heap 3 h).size (n + 4) (some abd_bytes) }

  module _ (h : Heap) (fits : Fits zio.io_offset zio.io_size) where
    pub map_alloc_two :
        (plan zio.io_offset zio.io_size).scols ≡ 2
        → (plan zio.io_offset zio.io_size).acols ≡ 2
        → vdev_raidz_map_alloc zio 12 3 1 h
          ≡ ok (stripe_map h.next (first_cols h.next [])) (first_heap 2 h)
    unfolding vdev_raidz_map_alloc swap_parity
    map_alloc_two e e' = ground (
      arith,
      sum_sizes-fill_cols zio.io_offset zio.io_size fits,
      geometry-Shape zio.io_offset zio.io_size fits,
      fill_cols_two (plan zio.io_offset zio.io_size) (plan zio.io_offset zio.io_size).scols e,
      fill_col_lem zio.io_offset zio.io_size 0 fits,
      fill_col_lem zio.io_offset zio.io_size 1 fits,
    )

    pub map_alloc_three :
        (plan zio.io_offset zio.io_size).scols ≡ 3
        → (plan zio.io_offset zio.io_size).acols ≡ 3
        → vdev_raidz_map_alloc zio 12 3 1 h
          ≡ ok (stripe_map h.next (first_cols h.next (third_col h.next ∷ []))) (third_heap h)
    unfolding vdev_raidz_map_alloc swap_parity
    map_alloc_three e e' = ground (
      arith,
      sum_sizes-fill_cols zio.io_offset zio.io_size fits,
      geometry-Shape zio.io_offset zio.io_size fits,
      fill_cols_three (plan zio.io_offset zio.io_size) (plan zio.io_offset zio.io_size).scols e,
      fill_col_lem zio.io_offset zio.io_size 0 fits,
      fill_col_lem zio.io_offset zio.io_size 1 fits,
    )

-- `vdev_raidz_map_alloc` for three devices and an I/O of less than a sector, whatever its offset: the
-- map has no column, and the access to `rm_col[0]` is past the allocation.
pub map_alloc-fault :
    (zio : Zio) (h : Heap) → zio.io_size < 4096 → vdev_raidz_map_alloc zio 12 3 1 h ≡ fault
unfolding vdev_raidz_map_alloc geometry fill_cols sum_sizes
map_alloc-fault zio h small = ground arith
