-- ===== src/Rescue/Stripe.antt =====
-- `RaidzDevice._map_alloc` of zfs/zio.py, in which numbers have no bounds.
use dumpbin_py_zfs_rescue.Common.{
  ℕ, zero, suc, ◌+◌, ◌-◌, ◌*◌, ◌/◌, ◌%◌, ◌^◌, [], ◌∷◌, List, not, ◌&&◌, bit_and, ltb, leb, ◌==◌,
  if◌then◌else◌,
}
use dumpbin_py_zfs_rescue.Rescue.Py.{Py, done, raised}

abbrev pub roundup : ℕ → ℕ → ℕ
roundup x y = (x + y - 1) / y * y

-- The dictionary `rm_col`
pub record Col : Type 0 where
  pub rc_devidx : ℕ
  pub rc_offset : ℕ
  pub rc_size : ℕ

-- The local variables before the loop.
pub record Plan : Type 0 where
  pub b : ℕ
  pub s : ℕ
  pub f : ℕ
  pub o : ℕ
  pub q : ℕ
  pub r : ℕ
  pub bc : ℕ
  pub tot : ℕ
  pub acols : ℕ
  pub scols : ℕ

-- There are more devices than `nparity`, so that no subtraction is below 0.
unfoldable pub plan_of : (io_offset io_size unit_shift dcols nparity : ℕ) → Plan
plan_of io_offset io_size unit_shift dcols nparity =
    let b = io_offset / 2 ^ unit_shift in
    let s = io_size / 2 ^ unit_shift in
    let f = b % dcols in
    let o = b / dcols * 2 ^ unit_shift in
    let q = s / (dcols - nparity) in
    let r = s - q * (dcols - nparity) in
    let bc : ℕ = if r == 0 then 0 else r + nparity in
    let tot = s + nparity * (q + (if r == 0 then 0 else 1)) in
    let rounded = roundup bc (nparity + 1) in
    record {
      b = b;
      s = s;
      f = f;
      o = o;
      q = q;
      r = r;
      bc = bc;
      tot = tot;
      acols = if q == 0 then bc else dcols;
      scols = if q == 0 then (if ltb rounded dcols then rounded else dcols) else dcols;
    }

-- The body of the loop over `range(scols)`.
unfoldable pub col_of : Plan → (unit_shift dcols c : ℕ) → Col
col_of g unit_shift dcols c =
    let col = g.f + c in
    let wraps = leb dcols col in
    record {
      rc_devidx = if wraps then col - dcols else col;
      rc_offset = if wraps then g.o + 2 ^ unit_shift else g.o;
      rc_size =
          if leb g.acols c
          then 0
          else if ltb c g.bc
          then (g.q + 1) * 2 ^ unit_shift
          else g.q * 2 ^ unit_shift;
    }

-- if rm_col["rc_size"] > 0: rm_cols.append(rm_col)
abbrev pub append_col : Col → List Col → List Col
append_col col cols = if ltb 0 col.rc_size then col ∷ cols else cols

-- The loop: `left` columns remain, from column `c` on.
unfoldable pub cols_of : Plan → (unit_shift dcols left c : ℕ) → List Col
unfolding col_of
cols_of g unit_shift dcols zero c = []
cols_of g unit_shift dcols (suc left) c =
    append_col (col_of g unit_shift dcols c) (cols_of g unit_shift dcols left (c + 1))

-- Columns 0 and 1 change their places on disk; `rm_cols[1]` of fewer is an `IndexError`.
unfoldable pub swap_cols : List Col → Py (List Col)
swap_cols [] = raised
swap_cols (x ∷ []) = raised
swap_cols (x ∷ (y ∷ cols)) = done (
    record x { rc_devidx = y.rc_devidx; rc_offset = y.rc_offset }
    ∷ record y { rc_devidx = x.rc_devidx; rc_offset = x.rc_offset }
    ∷ cols)

-- The three values that are returned.
pub record Stripe : Type 0 where
  pub cols : List Col
  pub firstdatacol : ℕ
  pub skipstart : ℕ

abbrev with_cols : Plan → ℕ → Py (List Col) → Py Stripe
with_cols g nparity raised = raised
with_cols g nparity (done cols) =
    done (record { cols = cols; firstdatacol = nparity; skipstart = if g.bc == 0 then 1 else g.bc })

unfoldable pub map_alloc : (dcols nparity io_offset io_size unit_shift : ℕ) → Py Stripe
unfolding plan_of cols_of swap_cols
map_alloc dcols nparity io_offset io_size unit_shift =
    let g = plan_of io_offset io_size unit_shift dcols nparity in
    let cols = cols_of g unit_shift dcols g.scols 0 in
    if (nparity == 1) && not (bit_and io_offset (2 ^ 20) == 0)
    then with_cols g nparity (swap_cols cols)
    else done (record { cols = cols; firstdatacol = nparity; skipstart = g.bc })
