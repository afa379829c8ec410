-- ===== src/Raidz/Map.antt =====
-- `raidz_col_t`, `raidz_map_t`, `vdev_raidz_map_alloc` and `vdev_raidz_free` of extractor/zio.cpp.
use dumpbin_py_zfs_rescue.Common.{
  ℕ, zero, suc, ◌+◌, ◌-◌, ◌/◌, ◌%◌, ◌^◌, not, ◌&&◌, Option, none, some, List, [], ◌∷◌, set, M, pure,
  ◌>>=◌, ◌>>◌, check, require, index, fault, malloc, free, add64, sub64, mul64, shl64, shr64,
  bit_and, ◌==◌, leb, ltb, if◌then◌else◌,
}
use dumpbin_py_zfs_rescue.Raidz.Abd.{Abd, abd_free, abd_alloc_linear, abd_get_offset_size}

pub record RaidzCol : Type 0 where
  pub rc_devidx : ℕ
  pub rc_offset : ℕ
  pub rc_size : ℕ
  pub rc_abd : Option Abd
  pub rc_gdata : Option ℕ
  pub rc_error : ℕ
  pub rc_tried : ℕ
  pub rc_skipped : ℕ

-- `rm_self` is the allocation of the structure.
pub record RaidzMap : Type 0 where
  pub rm_self : ℕ
  pub rm_cols : ℕ
  pub rm_scols : ℕ
  pub rm_bigcols : ℕ
  pub rm_asize : ℕ
  pub rm_missingdata : ℕ
  pub rm_missingparity : ℕ
  pub rm_firstdatacol : ℕ
  pub rm_nskip : ℕ
  pub rm_skipstart : ℕ
  pub rm_abd_copy : Option ℕ
  pub rm_reports : ℕ
  pub rm_freed : ℕ
  pub rm_ecksuminjected : ℕ
  pub rm_col : List RaidzCol

pub record Zio : Type 0 where
  pub io_offset : ℕ
  pub io_size : ℕ
  pub io_abd : Abd

-- `#define roundup(x, y) ((((x) + ((y) - 1)) / (y)) * (y))`
abbrev pub roundup : ℕ → ℕ → ℕ
roundup x y = mul64 (add64 x (sub64 y 1) / y) y

abbrev pub min64 : ℕ → ℕ → ℕ
min64 x y = if ltb x y then x else y

-- The local variables that `vdev_raidz_map_alloc` computes before it allocates the map.
pub record Geometry : Type 0 where
  pub b : ℕ
  pub s : ℕ
  pub f : ℕ
  pub o : ℕ
  pub q : ℕ
  pub r : ℕ
  pub bc : ℕ
  pub tot : ℕ
  pub acols : ℕ
  pub scols : ℕ

unfoldable pub geometry : (io_offset io_size ashift dcols nparity : ℕ) → Geometry
geometry io_offset io_size ashift dcols nparity =
    let b = shr64 io_offset ashift in
    let s = shr64 io_size ashift in
    let f = b % dcols in
    let o = shl64 (b / dcols) ashift in
    let q = s / sub64 dcols nparity in
    let r = sub64 s (mul64 q (sub64 dcols nparity)) in
    let bc : ℕ = if r == 0 then 0 else add64 r nparity in
    let tot = add64 s (mul64 nparity (add64 q (if r == 0 then 0 else 1))) in
    record {
      b = b;
      s = s;
      f = f;
      o = o;
      q = q;
      r = r;
      bc = bc;
      tot = tot;
      acols = if q == 0 then bc else dcols;
      scols = if q == 0 then min64 dcols (roundup bc (add64 nparity 1)) else dcols;
    }

-- The body of the loop over `c < scols`.
unfoldable pub fill_col : Geometry → (ashift dcols c : ℕ) → RaidzCol
fill_col g ashift dcols c =
    let col = add64 g.f c in
    let wraps = leb dcols col in
    record {
      rc_devidx = if wraps then sub64 col dcols else col;
      rc_offset = if wraps then add64 g.o (shl64 1 ashift) else g.o;
      rc_size =
          if leb g.acols c
          then 0
          else if ltb c g.bc
          then shl64 (add64 g.q 1) ashift
          else shl64 g.q ashift;
      rc_abd = none;
      rc_gdata = none;
      rc_error = 0;
      rc_tried = 0;
      rc_skipped = 0;
    }

-- The loop: `left` columns remain, from column `c` on.
unfoldable pub fill_cols : Geometry → (ashift dcols left c : ℕ) → List RaidzCol
fill_cols g ashift dcols zero c = []
fill_cols g ashift dcols (suc left) c =
    fill_col g ashift dcols c ∷ fill_cols g ashift dcols left (c + 1)

-- `asize += rm->rm_col[c].rc_size` of the same loop.
unfoldable pub sum_sizes : ℕ → List RaidzCol → ℕ
sum_sizes asize [] = asize
sum_sizes asize (col ∷ cols) = sum_sizes (add64 asize col.rc_size) cols

-- for (c = 0; c < rm->rm_firstdatacol; c++): each parity column gets a buffer of its own.
unfoldable pub attach_parity : (left c : ℕ) → List RaidzCol → M (List RaidzCol)
unfolding abd_alloc_linear
attach_parity zero c cols = pure cols
attach_parity (suc left) c cols = do
  col ← index cols c
  a ← abd_alloc_linear col.rc_size
  attach_parity left (c + 1) (set cols c (record col { rc_abd = some a }))

-- Each data column gets the next slice of the caller's buffer.
unfoldable pub attach_data : Abd → (left c off : ℕ) → List RaidzCol → M (List RaidzCol)
unfolding abd_get_offset_size
attach_data io_abd zero c off cols = pure cols
attach_data io_abd (suc left) c off cols = do
  col ← index cols c
  a ← abd_get_offset_size io_abd off col.rc_size
  attach_data io_abd left (c + 1) (add64 off col.rc_size)
      (set cols c (record col { rc_abd = some a }))

-- Columns 0 and 1 trade their places on disk when bit 20 of the offset is set.
unfoldable pub swap_parity : Zio → RaidzMap → M RaidzMap
swap_parity zio rm =
    if rm.rm_firstdatacol == 1 && not (bit_and zio.io_offset (2 ^ 20) == 0)
    then (do
      x ← index rm.rm_col 0
      y ← index rm.rm_col 1
      pure (record rm {
        rm_col =
            set (set rm.rm_col 0 (record x { rc_devidx = y.rc_devidx; rc_offset = y.rc_offset })) 1
              (record y { rc_devidx = x.rc_devidx; rc_offset = x.rc_offset });
        rm_skipstart = if rm.rm_skipstart == 0 then 1 else rm.rm_skipstart;
      }))
    else pure rm

-- `sizeof(raidz_map_t) + ((scols-1) * sizeof(raidz_col_t))`
abbrev pub map_bytes : ℕ → ℕ
map_bytes scols = add64 144 (mul64 (sub64 scols 1) 48)

unfoldable pub vdev_raidz_map_alloc : Zio → (ashift dcols nparity : ℕ) → M RaidzMap
unfolding malloc attach_parity attach_data
vdev_raidz_map_alloc zio ashift dcols nparity =
    let g = geometry zio.io_offset zio.io_size ashift dcols nparity in
    let cols = fill_cols g ashift dcols g.scols 0 in
    let asize = sum_sizes 0 cols in
    let unit = shl64 (add64 nparity 1) ashift in
    let rm_asize = roundup asize unit in
    let rm_nskip = sub64 (roundup g.tot (add64 nparity 1)) g.tot in
    do
      require (not (dcols == 0) && not (sub64 dcols nparity == 0))
      check (leb g.acols g.scols)
      self ← malloc (map_bytes g.scols)
      check (asize == shl64 g.tot ashift)
      check (sub64 rm_asize asize == shl64 rm_nskip ashift)
      check (leb rm_nskip nparity)
      cols ← attach_parity nparity 0 cols
      cols ← attach_data zio.io_abd (suc (g.acols - (nparity + 1))) nparity 0 cols
      check (leb 2 g.acols)
      x ← index cols 0
      y ← index cols 1
      check (x.rc_size == y.rc_size)
      swap_parity zio (record {
        rm_self = self;
        rm_cols = g.acols;
        rm_scols = g.scols;
        rm_bigcols = g.bc;
        rm_asize = rm_asize;
        rm_missingdata = 0;
        rm_missingparity = 0;
        rm_firstdatacol = nparity;
        rm_nskip = rm_nskip;
        rm_skipstart = g.bc;
        rm_abd_copy = none;
        rm_reports = 0;
        rm_freed = 0;
        rm_ecksuminjected = 0;
        rm_col = cols;
      })

-- for (i = 0; i < rm->rm_cols; i++) abd_free(rm->rm_col[i].rc_abd)
unfoldable pub free_cols : (left i : ℕ) → List RaidzCol → M (Unit {0})
unfolding abd_free free
free_cols zero i cols = pure tt
free_cols (suc left) i cols = do
  col ← index cols i
  elim col.rc_abd [ none ↦ (λ h. fault) | some a ↦ abd_free a ]
  free_cols left (i + 1) cols

unfoldable pub vdev_raidz_free : RaidzMap → M (Unit {0})
unfolding free_cols free
vdev_raidz_free rm = free_cols rm.rm_cols 0 rm.rm_col >> free rm.rm_self
