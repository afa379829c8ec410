-- ===== src/Raidz/Deliver.antt =====
-- `read_physical` to its end: the heap that it leaves, written out.
use dumpbin_py_zfs_rescue.Common.{
  ℕ, ◌+◌, ◌*◌, ◌/◌, ◌<◌, ◌≡◌, refl, ap, ◌∙◌, [], ◌∷◌, none, some, arith, length, Heap, ok, update,
}
use dumpbin_py_zfs_rescue.Raidz.Abd.{
  Abd, abd_bytes, abd_flag_owner, abd_flag_linear, abd_alloc_linear,
}
use dumpbin_py_zfs_rescue.Raidz.Map.{
  Zio, RaidzCol, RaidzMap, map_bytes, vdev_raidz_free, vdev_raidz_map_alloc,
}
use dumpbin_py_zfs_rescue.Raidz.Read.{Files, Device, read_cols, read_physical}
use dumpbin_py_zfs_rescue.Raidz.Geometry.{plan, Fits, geometry-Shape, fill_col_lem}
use dumpbin_py_zfs_rescue.Raidz.Alloc.{
  column, first_cols, third_col, stripe_map, first_heap, third_heap, map_alloc_two, map_alloc_three,
  parity_abd, slice_abd, placed, swapped,
}
use dumpbin_py_zfs_rescue.Raidz.Steps.{
  after_blit, delivered, read_cols_two, read_cols_three, free_lem, free_parity, free_slice,
}

-- After the calls of `free` for a map that is allocation `n`.
abbrev pub freed_two : ℕ → Heap → Heap
freed_two n h = record h {
  size = update (update (update (update h.size (n + 2) none) (n + 1) none) (n + 3) none) n none;
}

abbrev pub freed_three : ℕ → Heap → Heap
freed_three n h = record h {
  size =
      update
        (update (update (update (update h.size (n + 2) none) (n + 1) none) (n + 3) none) (n + 4)
          none)
        n none;
}

module _ (zio : Zio) (n k0 k1 k2 k3 : ℕ) (h : Heap) (e0 : h.size n ≡ some k0)
    (e1 : h.size (n + 1) ≡ some k1) (e2 : h.size (n + 2) ≡ some k2)
    (e3 : h.size (n + 3) ≡ some k3) where
  free_map_two :
      (plan zio.io_offset zio.io_size).acols ≡ 2
      → vdev_raidz_free (stripe_map zio n (first_cols zio n [])) h ≡ ok tt (freed_two n h)
  unfolding vdev_raidz_free
  free_map_two e =
      let h' = record h { size = update (update h.size (n + 2) none) (n + 1) none } in
      let h'' = record h { size = update h'.size (n + 3) none } in
      rw e (
        ground (
          arith,
          free_parity (n + 1) k1 k2 (column zio 0) h,
          free_slice zio.io_abd (n + 3) 0 k3 (column zio 1) h',
          free_lem n k0 h'',
        ))

  free_map_three :
      (k4 : ℕ)
      → h.size (n + 4) ≡ some k4
      → (plan zio.io_offset zio.io_size).acols ≡ 3
      → vdev_raidz_free (stripe_map zio n (first_cols zio n (third_col zio n ∷ []))) h
        ≡ ok tt (freed_three n h)
  unfolding vdev_raidz_free
  free_map_three k4 e4 e =
      let h' = record h { size = update (update h.size (n + 2) none) (n + 1) none } in
      let h'' = record h { size = update h'.size (n + 3) none } in
      let h3 = record h { size = update h''.size (n + 4) none } in
      rw e (
        ground (
          arith,
          free_parity (n + 1) k1 k2 (column zio 0) h,
          free_slice zio.io_abd (n + 3) 0 k3 (column zio 1) h',
          free_slice zio.io_abd (n + 4) (column zio 1).rc_size k4 (column zio 2) h'',
          free_lem n k0 h3,
        ))

-- The block's buffer.
abbrev pub block : ℕ → ℕ → Abd
block psize n = record {
  self = n;
  abd_flags = abd_flag_owner + abd_flag_linear;
  abd_size = psize;
  abd_parent = none;
  abd_buf = n + 1;
  abd_off = 0;
}

abbrev pub request : ℕ → ℕ → ℕ → Zio
request offset psize n = record { io_offset = offset; io_size = psize; io_abd = block psize n }

abbrev pub begun : ℕ → Heap → Heap
begun psize h = record h {
  next = h.next + 2;
  size = update (update h.size h.next (some abd_bytes)) (h.next + 1) (some psize);
}

pub abd_alloc_linear_lem :
    (psize : ℕ) (h : Heap) → abd_alloc_linear psize h ≡ ok (block psize h.next) (begun psize h)
unfolding abd_alloc_linear
abd_alloc_linear_lem psize h = ground arith

-- The calls of `read_physical`, one after another.
read_physical_steps :
    (files : Files) (dev : Device) (offset psize : ℕ) (h : Heap) (c : Abd) (rm : RaidzMap)
    → (h1 h2 h3 h4 : Heap) → abd_alloc_linear psize h ≡ ok c h1
    → vdev_raidz_map_alloc (record { io_offset = offset; io_size = psize; io_abd = c }) 12 3 1 h1
      ≡ ok rm h2
    → read_cols files dev rm.rm_cols 0 rm.rm_col h2 ≡ ok tt h3
    → vdev_raidz_free rm h3 ≡ ok tt h4
    → read_physical files dev offset psize h ≡ ok c h4
unfolding read_physical
read_physical_steps files dev offset psize h c rm h1 h2 h3 h4 e1 e2 e3 e4 = rw (e1, e2, e3, e4)

module _ (files : Files) (dev : Device) (offset psize : ℕ) (h : Heap) (paths : length dev.vdevs ≡ 3)
    (fits : Fits offset psize) where
  abbrev pub parity_col : RaidzCol
  parity_col =
      let zio = request offset psize h.next in
      placed (swapped offset) (column zio 0) (column zio 1)
        (parity_abd (h.next + 2 + 1) (column zio 0))

  abbrev pub data_col : RaidzCol
  data_col =
      let zio = request offset psize h.next in
      placed (swapped offset) (column zio 1) (column zio 0)
        (slice_abd zio.io_abd (h.next + 2 + 3) 0 (column zio 1))

  abbrev pub last_col : RaidzCol
  last_col = third_col (request offset psize h.next) (h.next + 2)

  -- The heap once the first two columns are read, from the heap with the map's allocations.
  abbrev pub filled : Heap → Heap
  filled k =
      after_blit (h.next + 1) 0 (delivered files dev data_col)
        (after_blit (h.next + 2 + 1 + 1) 0 (delivered files dev parity_col) k)

  abbrev pub filled_two : Heap
  filled_two = filled (first_heap (request offset psize h.next) 2 (begun psize h))

  abbrev pub filled_three : Heap
  filled_three =
      after_blit (h.next + 1) (0 + data_col.rc_size) (delivered files dev last_col)
        (filled (third_heap (request offset psize h.next) (begun psize h)))

  devices_below :
      (parity_col.rc_devidx < 3)
      × (data_col.rc_devidx < 3)
      × (last_col.rc_devidx < 3)
      × (data_col.rc_size + last_col.rc_size ≡ psize / 4096 * 4096)
  devices_below = ground (
    arith,
    geometry-Shape offset psize fits,
    fill_col_lem offset psize 0 fits,
    fill_col_lem offset psize 1 fits,
    fill_col_lem offset psize 2 fits,
  )

  reads_two :
      read_cols files dev 2 0
        (parity_col ∷ data_col ∷ [])
        (first_heap (request offset psize h.next) 2 (begun psize h))
      ≡ ok tt filled_two
  reads_two =
      let zio = request offset psize h.next in
      let (p0, p1, _, room) = devices_below in
      read_cols_two files dev parity_col data_col (parity_abd (h.next + 2 + 1) (column zio 0))
        (slice_abd zio.io_abd (h.next + 2 + 3) 0 (column zio 1)) (column zio 0).rc_size psize
        (first_heap zio 2 (begun psize h)) refl refl (rw paths p0) (rw paths p1) (ground arith)
        (ground arith) (omega arith) (omega (arith, room))

  reads_three :
      read_cols files dev 3 0
        (parity_col ∷ data_col ∷ last_col ∷ [])
        (third_heap (request offset psize h.next) (begun psize h))
      ≡ ok tt filled_three
  reads_three =
      let zio = request offset psize h.next in
      let (p0, p1, p2, room) = devices_below in
      read_cols_three files dev parity_col data_col last_col
        (parity_abd (h.next + 2 + 1) (column zio 0))
        (slice_abd zio.io_abd (h.next + 2 + 3) 0 (column zio 1))
        (slice_abd zio.io_abd (h.next + 2 + 4) (column zio 1).rc_size (column zio 2))
        (column zio 0).rc_size psize psize (third_heap zio (begun psize h)) refl refl refl
        (rw paths p0) (rw paths p1) (rw paths p2) (ground arith) (ground arith) (ground arith)
        (omega arith) (omega (arith, room)) (omega (arith, room))

  pub read_physical_two :
      (plan offset psize).scols ≡ 2
      → (plan offset psize).acols ≡ 2
      → read_physical files dev offset psize h
        ≡ ok (block psize h.next) (freed_two (h.next + 2) filled_two)
  read_physical_two e e' =
      let zio = request offset psize h.next in
      let cols = parity_col ∷ data_col ∷ [] in
      let k = first_heap zio 2 (begun psize h) in
      read_physical_steps files dev offset psize h (block psize h.next)
        (stripe_map zio (h.next + 2) cols) (begun psize h) k filled_two
        (freed_two (h.next + 2) filled_two) (abd_alloc_linear_lem psize h)
        (map_alloc_two zio (begun psize h) fits e e')
        (ap (λ n. read_cols files dev n 0 cols k) e' ∙ reads_two)
        (free_map_two zio (h.next + 2) (map_bytes 2) abd_bytes (column zio 0).rc_size abd_bytes
          filled_two (ground arith) (ground arith) (ground arith) (ground arith) e')

  pub read_physical_three :
      (plan offset psize).scols ≡ 3
      → (plan offset psize).acols ≡ 3
      → read_physical files dev offset psize h
        ≡ ok (block psize h.next) (freed_three (h.next + 2) filled_three)
  read_physical_three e e' =
      let zio = request offset psize h.next in
      let cols = parity_col ∷ data_col ∷ last_col ∷ [] in
      let k = third_heap zio (begun psize h) in
      read_physical_steps files dev offset psize h (block psize h.next)
        (stripe_map zio (h.next + 2) cols) (begun psize h) k filled_three
        (freed_three (h.next + 2) filled_three) (abd_alloc_linear_lem psize h)
        (map_alloc_three zio (begun psize h) fits e e')
        (ap (λ n. read_cols files dev n 0 cols k) e' ∙ reads_three)
        (free_map_three zio (h.next + 2) (map_bytes 3) abd_bytes (column zio 0).rc_size abd_bytes
          filled_three (ground arith) (ground arith) (ground arith) (ground arith) abd_bytes
          (ground arith) e')
