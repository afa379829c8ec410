-- ===== src/Pool/Label.antt =====
-- `loadLabel` of `Raidz1Device`, extractor/zio.cpp, and the label's layout, extractor/defs.h.
use dumpbin_py_zfs_rescue.Common.{
  ℕ, zero, suc, ◌+◌, ◌*◌, Option, none, some, M, pure, ◌>>=◌, ◌>>◌, malloc, free, view, update,
}
use dumpbin_py_zfs_rescue.Raidz.Read.{Files, Device, read_at}
use dumpbin_py_zfs_rescue.Pool.Disk.{Uberblock, uberblock_at}

-- `vl_uberblock` stands behind two pads of 8K and the 112K of `vl_vdev_phys`.
abbrev pub ring_start : ℕ
ring_start = 8192 + 8192 + 114688

-- `sizeof(vdev_label_t)`: the ring has 128K.
abbrev pub label_bytes : ℕ
label_bytes = ring_start + 131072

-- `1 << ASHIFT`, and the number of slots of that size.
abbrev pub slot_bytes : ℕ
slot_bytes = 4096

abbrev pub slots : ℕ
slots = 32

-- `std::map<uint64_t, struct uberblock>`
abbrev pub Tgxs : Type 0
Tgxs = ℕ → Option Uberblock

abbrev pub slot_at : (ℕ → ℕ) → ℕ → Uberblock
slot_at b i = uberblock_at b (ring_start + i * slot_bytes)

-- for (i = 0; i < ucnt; i++) tgxs[u->ub_txg] = *u: `left` slots remain, from slot `i` on.
unfoldable pub index_ring : (ℕ → ℕ) → (left i : ℕ) → Tgxs → Tgxs
index_ring b zero i tgxs = tgxs
index_ring b (suc left) i tgxs =
    index_ring b left (i + 1) (update tgxs (slot_at b i).ub_txg (some (slot_at b i)))

-- `l` is a variable of the function: its block is there until the function returns. `labidx` is not
-- used, whatever label is asked for. The field `abd_buf` of the variable `abd` is the only one set,
-- and the only one that `read_at` reads.
unfoldable pub load_label : Files → Device → Tgxs → (vdev labidx : ℕ) → M Tgxs
unfolding read_at malloc
load_label files dev tgxs vdev labidx = do
  l ← malloc label_bytes
  read_at files dev
      (record {
        self = l;
        abd_flags = 0;
        abd_size = 0;
        abd_parent = none;
        abd_buf = l;
        abd_off = 0;
      })
      vdev 0 label_bytes
  b ← view l 0 label_bytes
  free l
  pure (index_ring b slots 0 tgxs)
