-- ===== src/Raidz/Steps.antt =====
-- The steps of `read_physical` on a heap where its buffers are live: the reads of the columns, and the
-- calls of `free`.
use mathlib.Core.Path.{◌≡◌}
use dumpbin_py_zfs_rescue.Common.{
  ℕ, zero, suc, ◌+◌, ◌≤◌, ◌<◌, [], ◌∷◌, none, some, List, arith, get_or, length, refl, Heap, ok,
  index, blit, patch, update, free,
}
use dumpbin_py_zfs_rescue.Raidz.Abd.{Abd, abd_free}
use dumpbin_py_zfs_rescue.Raidz.Map.{RaidzCol}
use dumpbin_py_zfs_rescue.Raidz.Read.{Files, Device, read_at, read_cols}
use dumpbin_py_zfs_rescue.Raidz.Alloc.{parity_abd, slice_abd}

pub index_lem :
    {A : Type 0} (xs : List A) (i : ℕ) (d : A) (h : Heap)
    → i < length xs
    → index xs i h ≡ ok (get_or xs i d) h
index_lem [] i d h lt = absurd (omega arith)
index_lem (x ∷ xs) zero d h lt = refl
index_lem (x ∷ xs) (suc i) d h lt = index_lem xs i d h (omega arith)

-- A copy that fits its block.
abbrev pub after_blit : ℕ → ℕ → List ℕ → Heap → Heap
after_blit p start bytes h = record h { byte = update h.byte p (patch (h.byte p) start bytes) }

pub blit_lem :
    (p start n : ℕ) (bytes : List ℕ) (h : Heap)
    → h.size p ≡ some n
    → start + length bytes ≤ n
    → blit p start bytes h ≡ ok tt (after_blit p start bytes h)
unfolding blit
blit_lem p start n bytes h e fits = ground arith

module _ (files : Files) (dev : Device) where
  abbrev pub delivered : RaidzCol → List ℕ
  delivered col = files.pread (get_or dev.vdevs col.rc_devidx "") col.rc_size col.rc_offset

  read_at_lem :
      (a : Abd) (col : RaidzCol) (n : ℕ) (h : Heap)
      → col.rc_devidx < length dev.vdevs
      → h.size a.abd_buf ≡ some n
      → a.abd_off + col.rc_size ≤ n
      → read_at files dev a col.rc_devidx col.rc_offset col.rc_size h
        ≡ ok tt (after_blit a.abd_buf a.abd_off (delivered col) h)
  unfolding read_at
  read_at_lem a col n h lt e fits = ground (
    arith,
    index_lem dev.vdevs col.rc_devidx "" h lt,
    blit_lem a.abd_buf a.abd_off n (delivered col) h e,
    files.pread_le (get_or dev.vdevs col.rc_devidx "") col.rc_size col.rc_offset,
  )

  pub read_cols_two :
      (x y : RaidzCol) (a b : Abd) (n m : ℕ) (h : Heap)
      → x.rc_abd ≡ some a
      → y.rc_abd ≡ some b
      → x.rc_devidx < length dev.vdevs
      → y.rc_devidx < length dev.vdevs
      → h.size a.abd_buf ≡ some n
      → h.size b.abd_buf ≡ some m
      → a.abd_off + x.rc_size ≤ n
      → b.abd_off + y.rc_size ≤ m
      → read_cols files dev 2 0 (x ∷ y ∷ []) h
        ≡ ok tt (
            after_blit b.abd_buf b.abd_off
              (delivered y)
              (after_blit a.abd_buf a.abd_off (delivered x) h))
  unfolding read_cols
  read_cols_two x y a b n m h ex ey lx ly sa sb fx fy = ground (
    arith,
    read_at_lem a x n h lx sa fx,
    read_at_lem b y m (after_blit a.abd_buf a.abd_off (delivered x) h) ly sb fy,
  )

  pub read_cols_three :
      (x y z : RaidzCol) (a b c : Abd) (n m k : ℕ) (h : Heap)
      → x.rc_abd ≡ some a
      → y.rc_abd ≡ some b
      → z.rc_abd ≡ some c
      → x.rc_devidx < length dev.vdevs
      → y.rc_devidx < length dev.vdevs
      → z.rc_devidx < length dev.vdevs
      → h.size a.abd_buf ≡ some n
      → h.size b.abd_buf ≡ some m
      → h.size c.abd_buf ≡ some k
      → a.abd_off + x.rc_size ≤ n
      → b.abd_off + y.rc_size ≤ m
      → c.abd_off + z.rc_size ≤ k
      → read_cols files dev 3 0 (x ∷ y ∷ z ∷ []) h
        ≡ ok tt (
            after_blit c.abd_buf c.abd_off (delivered z) (
              after_blit b.abd_buf b.abd_off
                (delivered y)
                (after_blit a.abd_buf a.abd_off (delivered x) h)))
  unfolding read_cols
  read_cols_three x y z a b c n m k h ex ey ez lx ly lz sa sb sc fx fy fz =
      let h' = after_blit a.abd_buf a.abd_off (delivered x) h in
      let h'' = after_blit b.abd_buf b.abd_off (delivered y) h' in
      ground (
        arith,
        read_at_lem a x n h lx sa fx,
        read_at_lem b y m h' ly sb fy,
        read_at_lem c z k h'' lz sc fz,
      )

-- Freeing a block that is live.
pub free_lem :
    (p n : ℕ) (h : Heap)
    → h.size p ≡ some n
    → free p h ≡ ok tt (record h { size = update h.size p none })
unfolding free
free_lem p n h e = ground arith

-- The parity column owns its buffer, a data column owns its structure only.
pub free_parity :
    (n k m : ℕ) (col : RaidzCol) (h : Heap)
    → h.size (n + 1) ≡ some m
    → h.size n ≡ some k
    → abd_free (parity_abd n col) h
      ≡ ok tt (record h { size = update (update h.size (n + 1) none) n none })
unfolding abd_free
free_parity n k m col h e e' =
    ground
      (arith, free_lem (n + 1) m h e, free_lem n k (record h { size = update h.size (n + 1) none }))

pub free_slice :
    (io : Abd) (n off k : ℕ) (col : RaidzCol) (h : Heap)
    → h.size n ≡ some k
    → abd_free (slice_abd io n off col) h ≡ ok tt (record h { size = update h.size n none })
unfolding abd_free
free_slice io n off k col h e = ground (arith, free_lem n k h e)
