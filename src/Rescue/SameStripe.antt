-- ===== src/Rescue/SameStripe.antt =====
-- The map of `_map_alloc` is that of `vdev_raidz_map_alloc`.
use dumpbin_py_zfs_rescue.Common.{
  ℕ, ◌<◌, ◌≡◌, [], ◌∷◌, List, ◌&&◌, refl, arith, inl, inr, ltb, true, Bool-cases, ◌∙◌, Heap, ok,
  ◌==◌, if◌then◌else◌,
}
use dumpbin_py_zfs_rescue.Raidz.Map.{
  RaidzCol, RaidzMap, Zio, vdev_raidz_map_alloc, geometry, fill_col,
}
use dumpbin_py_zfs_rescue.Raidz.Geometry.{plan, Fits, geometry-Shape, cols_cases}
use dumpbin_py_zfs_rescue.Raidz.Alloc.{
  column, first_cols, third_col, stripe_map, map_alloc_two, map_alloc_three, swapped,
}
use dumpbin_py_zfs_rescue.Rescue.Py.{done}
use dumpbin_py_zfs_rescue.Rescue.Stripe.{
  Col, Plan, plan_of, col_of, cols_of, swap_cols, Stripe, map_alloc,
}

-- What the two have in common: where a column is and how long.
abbrev pub place_of : RaidzCol → Col
place_of col = record {
  rc_devidx = col.rc_devidx;
  rc_offset = col.rc_offset;
  rc_size = col.rc_size;
}

abbrev pub places : List RaidzCol → List Col
places [] = []
places (col ∷ cols) = place_of col ∷ places cols

abbrev pub stripe_of : RaidzMap → Stripe
stripe_of rm = record {
  cols = places rm.rm_col;
  firstdatacol = rm.rm_firstdatacol;
  skipstart = rm.rm_skipstart;
}

-- The local variables are the same, but for the words that the extractor keeps them in.
record SamePlan (g : Plan) (offset size : ℕ) : Type 0 where
  f_eq : g.f ≡ (plan offset size).f
  o_eq : g.o ≡ (plan offset size).o
  q_eq : g.q ≡ (plan offset size).q
  bc_eq : g.bc ≡ (plan offset size).bc
  acols_eq : g.acols ≡ (plan offset size).acols
  scols_eq : g.scols ≡ (plan offset size).scols

plan_of-Same :
    (offset size : ℕ) → Fits offset size → SamePlan (plan_of offset size 12 3 1) offset size
unfolding plan_of geometry
plan_of-Same offset size fits = ground arith

module _ (offset size : ℕ) (fits : Fits offset size) where
  abbrev py_plan : Plan
  py_plan = plan_of offset size 12 3 1

  same_fields :
      (c : ℕ)
      → c < 3
      → let x = col_of py_plan 12 3 c in
        let y = fill_col (plan offset size) 12 3 c in
        (x.rc_devidx ≡ y.rc_devidx) × (x.rc_offset ≡ y.rc_offset) × (x.rc_size ≡ y.rc_size)
  unfolding col_of fill_col
  same_fields c lt = ground (
    arith,
    plan_of-Same offset size fits,
    geometry-Shape offset size fits,
    cols_cases offset size fits,
  )

  same_col : (c : ℕ) → c < 3 → col_of py_plan 12 3 c ≡ place_of (fill_col (plan offset size) 12 3 c)
  same_col c lt =
      let (e0, e1, e2) = same_fields c lt in
      λ i. record { rc_devidx = e0 i; rc_offset = e1 i; rc_size = e2 i }

  -- Every column has a sector, so that none is left out.
  some_size : (c : ℕ) → c < (plan offset size).scols → ltb 0 (col_of py_plan 12 3 c).rc_size ≡ true
  unfolding col_of
  some_size c lt = ground (
    arith,
    plan_of-Same offset size fits,
    geometry-Shape offset size fits,
    cols_cases offset size fits,
  )

  cols_two :
      (plan offset size).scols ≡ 2
      → cols_of py_plan 12 3 py_plan.scols 0
        ≡ place_of (fill_col (plan offset size) 12 3 0)
          ∷ place_of (fill_col (plan offset size) 12 3 1)
          ∷ []
  unfolding cols_of
  cols_two e =
      let e' : py_plan.scols ≡ 2 = (plan_of-Same offset size fits).scols_eq ∙ e in
      rw
        (
          e',
          some_size 0 (omega (arith, e)),
          some_size 1 (omega (arith, e)),
          same_col 0 (omega arith),
          same_col 1 (omega arith),
        )
        refl

  cols_three :
      (plan offset size).scols ≡ 3
      → cols_of py_plan 12 3 py_plan.scols 0
        ≡ place_of (fill_col (plan offset size) 12 3 0)
          ∷ place_of (fill_col (plan offset size) 12 3 1)
          ∷ place_of (fill_col (plan offset size) 12 3 2)
          ∷ []
  unfolding cols_of
  cols_three e =
      let e' : py_plan.scols ≡ 3 = (plan_of-Same offset size fits).scols_eq ∙ e in
      rw
        (
          e',
          some_size 0 (omega (arith, e)),
          some_size 1 (omega (arith, e)),
          some_size 2 (omega (arith, e)),
          same_col 0 (omega arith),
          same_col 1 (omega arith),
          same_col 2 (omega arith),
        )
        refl

  -- The end of `_map_alloc`, for columns of which there are two at least.
  swapped_cols :
      (x y : RaidzCol) (cols : List RaidzCol)
      → cols_of py_plan 12 3 py_plan.scols 0 ≡ place_of x ∷ place_of y ∷ places cols
      → let trade = swapped offset in
        map_alloc 3 1 offset size 12
        ≡ done (record {
          cols =
              (record (place_of x) {
                rc_devidx = if trade then y.rc_devidx else x.rc_devidx;
                rc_offset = if trade then y.rc_offset else x.rc_offset;
              })
              ∷ (record (place_of y) {
                rc_devidx = if trade then x.rc_devidx else y.rc_devidx;
                rc_offset = if trade then x.rc_offset else y.rc_offset;
              })
              ∷ places cols;
          firstdatacol = 1;
          skipstart = if trade && ((plan offset size).bc == 0) then 1 else (plan offset size).bc;
        })
  unfolding map_alloc swap_cols
  swapped_cols x y cols e = elim (Bool-cases (swapped offset)) [
    | inl odd ↦ rw (odd, e, (plan_of-Same offset size fits).bc_eq) refl
    | inr even ↦ rw (even, e, (plan_of-Same offset size fits).bc_eq) refl
  ]

-- The two cases, where the map is allocation `n`.
pub map_alloc_two_cols :
    (zio : Zio) (n : ℕ)
    → Fits zio.io_offset zio.io_size
    → (plan zio.io_offset zio.io_size).scols ≡ 2
    → map_alloc 3 1 zio.io_offset zio.io_size 12
      ≡ done (stripe_of (stripe_map zio n (first_cols zio n [])))
map_alloc_two_cols zio n fits e =
    swapped_cols zio.io_offset zio.io_size fits (column zio 0) (column zio 1) []
      (cols_two zio.io_offset zio.io_size fits e)

pub map_alloc_three_cols :
    (zio : Zio) (n : ℕ)
    → Fits zio.io_offset zio.io_size
    → (plan zio.io_offset zio.io_size).scols ≡ 3
    → map_alloc 3 1 zio.io_offset zio.io_size 12
      ≡ done (stripe_of (stripe_map zio n (first_cols zio n (third_col zio n ∷ []))))
map_alloc_three_cols zio n fits e =
    swapped_cols zio.io_offset zio.io_size fits (column zio 0) (column zio 1) (column zio 2 ∷ [])
      (cols_three zio.io_offset zio.io_size fits e)

-- For an I/O of at least a sector on three devices with sectors of 4096 bytes, `_map_alloc` returns the
-- columns of `vdev_raidz_map_alloc`, their places and sizes, and the same first data column and start
-- of the skipped ones.
pub map_alloc_same :
    (zio : Zio) (h : Heap)
    → Fits zio.io_offset zio.io_size
    → (rm : RaidzMap) × (h' : Heap) × (vdev_raidz_map_alloc zio 12 3 1 h ≡ ok rm h')
      × (map_alloc 3 1 zio.io_offset zio.io_size 12 ≡ done (stripe_of rm))
map_alloc_same zio h fits = elim (cols_cases zio.io_offset zio.io_size fits) [
  | inl two ↦ (_, _, map_alloc_two zio h fits two.2 two.1, map_alloc_two_cols zio h.next fits two.2)
  | inr three ↦ (
    _,
    _,
    map_alloc_three zio h fits three.2 three.1,
    map_alloc_three_cols zio h.next fits three.2,
  )
]
