-- ===== src/Raidz/Read.antt =====
-- The constructor, `read_at` and `read_physical` of `Raidz1Device`, extractor/zio.cpp.
use Prim.Native.String.{String}
use dumpbin_py_zfs_rescue.Common.{
  ℕ, zero, suc, ◌+◌, ◌≤◌, none, some, List, length, M, pure, ◌>>=◌, ◌>>◌, check, index, fault, blit,
  ◌==◌,
}
use dumpbin_py_zfs_rescue.Raidz.Abd.{Abd, abd_alloc_linear}
use dumpbin_py_zfs_rescue.Raidz.Map.{RaidzCol, vdev_raidz_map_alloc, vdev_raidz_free}

abbrev pub nparity : ℕ
nparity = 1

abbrev pub dcols : ℕ
dcols = 3

abbrev pub ashift : ℕ
ashift = 12

-- The system calls: the bytes that `open`, `pread64` and `close` deliver for a path, a count and an
-- offset. They are fewer than asked for at the end of the file, and none where a call fails.
pub record Files : Type 0 where
  pub pread : String → (count offset : ℕ) → List ℕ
  pub pread_le : (path : String) (count offset : ℕ) → length (pread path count offset) ≤ count

pub record Device : Type 0 where
  pub vdevs : List String

-- The constructor asserts that there are `DCOLS` paths.
unfoldable pub make_device : List String → M Device
make_device vdevs = do check (length vdevs == dcols); pure (record { vdevs = vdevs })

module _ (files : Files) (dev : Device) where
  -- The results of the calls are not looked at: what is not delivered leaves the buffer as it was.
  unfoldable pub read_at : Abd → (vdev offset psize : ℕ) → M (Unit {0})
  unfolding blit
  read_at c vdev offset psize = do
    path ← index dev.vdevs vdev
    blit c.abd_buf c.abd_off (files.pread path psize offset)

  -- for (i = 0; i < rm->rm_cols; i++) read_at(...)
  unfoldable pub read_cols : (left i : ℕ) → List RaidzCol → M (Unit {0})
  unfolding read_at
  read_cols zero i cols = pure tt
  read_cols (suc left) i cols = do
    col ← index cols i
    elim col.rc_abd [
      | none ↦ (λ h. fault)
      | some a ↦ read_at a col.rc_devidx col.rc_offset col.rc_size
    ]
    read_cols left (i + 1) cols

  unfoldable pub read_physical : (offset psize : ℕ) → M Abd
  unfolding read_cols
  read_physical offset psize = do
    c ← abd_alloc_linear psize
    rm ←
        vdev_raidz_map_alloc (record { io_offset = offset; io_size = psize; io_abd = c }) ashift
          dcols nparity
    read_cols rm.rm_cols 0 rm.rm_col
    vdev_raidz_free rm
    pure c
