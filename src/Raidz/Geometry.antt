-- ===== src/Raidz/Geometry.antt =====
-- What `vdev_raidz_map_alloc` computes, at the parameters of `read_physical`: sectors of 4096 bytes,
-- three devices, one of them for parity.
use dumpbin_py_zfs_rescue.Common.{
  ℕ, ◌+◌, ◌-◌, ◌*◌, ◌/◌, ◌%◌, ◌^◌, ◌≤◌, ◌<◌, ◌≡◌, ◌⊎◌, [], ◌∷◌, refl, arith,
}
use dumpbin_py_zfs_rescue.Raidz.Map.{Geometry, geometry, fill_col, fill_cols, sum_sizes}

abbrev pub plan : ℕ → ℕ → Geometry
plan offset size = geometry offset size 12 3 1

-- The I/O has a sector, and its sizes are far from the end of `uint64_t`.
pub record Fits (offset size : ℕ) : Type 0 where
  pub word : offset < 2 ^ 64
  pub sector : 4096 ≤ size
  pub small : size < 2 ^ 62

pub record Shape (g : Geometry) (offset size : ℕ) : Type 0 where
  pub b_eq : g.b ≡ offset / 4096
  pub f_eq : g.f ≡ g.b % 3
  pub o_eq : g.o ≡ g.b / 3 * 4096
  pub s_eq : g.s ≡ size / 4096
  pub q_eq : g.q ≡ g.s / 2
  pub bc_eq : g.bc ≡ 2 * (g.s % 2)
  pub tot_eq : g.tot ≡ g.s + (g.s + 1) / 2

pub geometry-Shape : (offset size : ℕ) → Fits offset size → Shape (plan offset size) offset size
unfolding geometry
geometry-Shape offset size fits = ground arith

pub cols_cases :
    (offset size : ℕ)
    → Fits offset size
    → let g = plan offset size in
      ((g.s ≡ 1) × (g.acols ≡ 2) × (g.scols ≡ 2)) ⊎ ((2 ≤ g.s) × (g.acols ≡ 3) × (g.scols ≡ 3))
unfolding geometry
cols_cases offset size fits = ground arith

-- Column `c` starts at sector `b + c` of the device as a whole, which stands on device
-- `(b + c) % 3`, in its row `(b + c) / 3`. It has every third sector from there below `b + tot`.
pub fill_col_lem :
    (offset size c : ℕ)
    → Fits offset size
    → c < 3
    → let g = plan offset size in
      let col = fill_col g 12 3 c in
      (col.rc_devidx ≡ (g.b + c) % 3)
      × (col.rc_offset ≡ (g.b + c) / 3 * 4096)
      × (col.rc_size ≡ (g.tot + 2 - c) / 3 * 4096)
unfolding fill_col
fill_col_lem offset size c fits lt =
    ground (arith, geometry-Shape offset size fits, cols_cases offset size fits)

pub fill_cols_two :
    (g : Geometry) (n : ℕ)
    → n ≡ 2
    → fill_cols g 12 3 n 0 ≡ fill_col g 12 3 0 ∷ fill_col g 12 3 1 ∷ []
unfolding fill_cols
fill_cols_two g n e = rw e refl

pub fill_cols_three :
    (g : Geometry) (n : ℕ)
    → n ≡ 3
    → fill_cols g 12 3 n 0 ≡ fill_col g 12 3 0 ∷ fill_col g 12 3 1 ∷ fill_col g 12 3 2 ∷ []
unfolding fill_cols
fill_cols_three g n e = rw e refl

-- The columns have `tot` sectors together.
pub sum_sizes-fill_cols :
    (offset size : ℕ)
    → Fits offset size
    → let g = plan offset size in sum_sizes 0 (fill_cols g 12 3 g.scols 0) ≡ g.tot * 4096
unfolding sum_sizes
sum_sizes-fill_cols offset size fits = ground (
  arith,
  cols_cases offset size fits,
  geometry-Shape offset size fits,
  fill_cols_two (plan offset size) (plan offset size).scols,
  fill_cols_three (plan offset size) (plan offset size).scols,
  fill_col_lem offset size 0 fits,
  fill_col_lem offset size 1 fits,
  fill_col_lem offset size 2 fits,
)
