-- ===== src/Pool/Ring.antt =====
-- The index of the uberblocks by transaction group: of the slots of one group the last one stands.
use Prim.Native.String.{String}
use dumpbin_py_zfs_rescue.Common.{
  ℕ, zero, suc, ◌+◌, ◌*◌, ◌≤◌, ◌<◌, ◌≡◌, ◌≢◌, none, some, refl, sym, ap, ◌∙◌, arith, get_elem?,
  Heap, ok, patch, update, view, malloc, eq→==, ne→==,
}
use native.Mathlib.Decide.{ℕ_discrete}
use dumpbin_py_zfs_rescue.Raidz.Abd.{Abd}
use dumpbin_py_zfs_rescue.Raidz.Read.{Files, Device, read_at}
use dumpbin_py_zfs_rescue.Raidz.Bytes.{Delivers, IsFresh}
use dumpbin_py_zfs_rescue.Pool.Disk.{Uberblock}
use dumpbin_py_zfs_rescue.Pool.Label.{
  Tgxs, slots, ring_start, label_bytes, slot_at, index_ring, load_label,
}
use dumpbin_py_zfs_rescue.Raidz.Steps.{after_blit, blit_lem, free_lem}
use dumpbin_py_zfs_rescue.Pool.Agree.{uberblock_agree}

module _ (b : ℕ → ℕ) where
  index_ring_other :
      (left i t : ℕ) (tgxs : Tgxs)
      → ((j : ℕ) → i ≤ j → j < i + left → (slot_at b j).ub_txg ≢ t)
      → index_ring b left i tgxs t ≡ tgxs t
  unfolding index_ring
  index_ring_other zero i t tgxs none_of = refl
  index_ring_other (suc left) i t tgxs none_of =
      let u = slot_at b i in
      index_ring_other left (i + 1) t (update tgxs u.ub_txg (some u))
        (λ j le lt. none_of j (omega arith) (omega arith))
      ∙ rw (ne→== t u.ub_txg (λ e. none_of i (omega arith) (omega arith) (sym e)))

  index_ring_last :
      (left i k : ℕ) (tgxs : Tgxs)
      → i ≤ k
      → k < i + left
      → ((j : ℕ) → k < j → j < i + left → (slot_at b j).ub_txg ≢ (slot_at b k).ub_txg)
      → index_ring b left i tgxs (slot_at b k).ub_txg ≡ some (slot_at b k)
  unfolding index_ring
  index_ring_last zero i k tgxs le lt later = absurd (omega arith)
  index_ring_last (suc left) i k tgxs le lt later = elim (ℕ_discrete i k) [
    | no ne ↦
        index_ring_last left (i + 1) k (update tgxs (slot_at b i).ub_txg (some (slot_at b i)))
          (omega arith) (omega arith) (λ j k_lt j_lt. later j k_lt (omega arith))
    | yes e ↦
        let t = (slot_at b k).ub_txg in
        rw e (
          index_ring_other left (k + 1) t (update tgxs t (some (slot_at b k)))
            (λ j k_lt j_lt. later j (omega arith) (omega arith))
          ∙ rw (eq→== t t refl))
  ]

-- What `load_label` leaves of a device with the contents `disk`.
pub record IsIndex (disk : ℕ → ℕ) (before after : Tgxs) : Type 0 where
  pub newest :
      (k : ℕ)
      → k < slots
      → ((j : ℕ) → k < j → j < slots → (slot_at disk j).ub_txg ≢ (slot_at disk k).ub_txg)
      → after (slot_at disk k).ub_txg ≡ some (slot_at disk k)
  pub other : (t : ℕ) → ((j : ℕ) → j < slots → (slot_at disk j).ub_txg ≢ t) → after t ≡ before t

IsIndex-of :
    (b disk : ℕ → ℕ) (tgxs : Tgxs)
    → ((i : ℕ) → i < label_bytes → b i ≡ disk i)
    → IsIndex disk tgxs (index_ring b slots 0 tgxs)
IsIndex-of b disk tgxs same =
    let slot : (k : ℕ) → k < slots → slot_at b k ≡ slot_at disk k =
      λ k lt. uberblock_agree b disk (ring_start + k * 4096) (λ i le lt'. same i (omega arith)) in
    let txg : (k : ℕ) → k < slots → (slot_at b k).ub_txg ≡ (slot_at disk k).ub_txg =
      λ k lt. ap (λ (u : Uberblock). u.ub_txg) (slot k lt) in
    record {
      newest = λ k lt later.
          ap (index_ring b slots 0 tgxs) (sym (txg k lt))
          ∙ index_ring_last b slots 0 k tgxs (omega arith) lt
              (λ j k_lt lt' e. later j k_lt lt' (sym (txg j lt') ∙ e ∙ txg k lt))
          ∙ ap some (slot k lt);
      other = λ t none_of.
          index_ring_other b slots 0 t tgxs (λ j le lt e. none_of j lt (sym (txg j lt) ∙ e));
    }

view_lem :
    (p start n size : ℕ) (h : Heap)
    → h.size p ≡ some size
    → start + n ≤ size
    → view p start n h ≡ ok (λ i. h.byte p (start + i)) h
unfolding view
view_lem p start n size h e fits = ground arith

module _ (files : Files) (dev : Device) (disk : String → ℕ → ℕ) (tgxs : Tgxs) (vdev labidx : ℕ)
    (path : String) (h : Heap) (at : get_elem? dev.vdevs vdev ≡ some path)
    (whole : Delivers files disk) where
  abbrev label_heap : Heap
  label_heap = record {
    next = h.next + 1;
    size = update (update h.size h.next (some label_bytes)) h.next none;
    byte = update h.byte h.next (patch (h.byte h.next) 0 (files.pread path label_bytes 0));
  }

  abbrev label_live : Heap
  label_live = record h { next = h.next + 1; size = update h.size h.next (some label_bytes) }

  abbrev label_buffer : ℕ → ℕ
  label_buffer i = label_heap.byte h.next (0 + i)

  label_read :
      (a : Abd)
      → a.abd_buf ≡ h.next
      → a.abd_off ≡ 0
      → read_at files dev a vdev 0 label_bytes label_live
        ≡ ok tt (after_blit h.next 0 (files.pread path label_bytes 0) label_live)
  unfolding read_at
  label_read a e e' =
      let live : label_live.size h.next ≡ some label_bytes = ground arith in
      ground (
        arith,
        at,
        e,
        e',
        blit_lem h.next 0 label_bytes (files.pread path label_bytes 0) label_live live
            (omega (arith, whole.all path label_bytes 0)),
      )

  abbrev label_variable : Abd
  label_variable = record {
    self = h.next;
    abd_flags = 0;
    abd_size = 0;
    abd_parent = none;
    abd_buf = h.next;
    abd_off = 0;
  }

  load_label-runs :
      load_label files dev tgxs vdev labidx h ≡ ok (index_ring label_buffer slots 0 tgxs) label_heap
  unfolding load_label malloc
  load_label-runs =
      let filled = after_blit h.next 0 (files.pread path label_bytes 0) label_live in
      let live : label_live.size h.next ≡ some label_bytes = ground arith in
      rw
        (
          label_read label_variable refl refl,
          view_lem h.next 0 label_bytes label_bytes filled live (omega arith),
          free_lem h.next label_bytes filled live,
        )
        refl

-- `loadLabel` of a device that can be read whole: of the slots of the ring that have one
-- transaction group the last one is found under it, other groups keep what they had, and no other
-- memory has changed.
pub load_label-IsIndex :
    (files : Files) (dev : Device) (disk : String → ℕ → ℕ) (tgxs : Tgxs) (vdev labidx : ℕ)
    (path : String) (h : Heap)
    → get_elem? dev.vdevs vdev ≡ some path
    → Delivers files disk
    → IsFresh h
    → (after : Tgxs) × (h' : Heap) × (load_label files dev tgxs vdev labidx h ≡ ok after h')
      × IsIndex (disk path) tgxs after
      × ((p : ℕ) → h'.size p ≡ h.size p)
      × ((p : ℕ) → p < h.next → (i : ℕ) → h'.byte p i ≡ h.byte p i)
load_label-IsIndex files dev disk tgxs vdev labidx path h at whole free_ids = (
  _,
  _,
  load_label-runs files dev disk tgxs vdev labidx path h at whole,
  IsIndex-of (label_buffer files dev disk tgxs vdev labidx path h at whole) (disk path) tgxs
      (λ i lt. ground (arith, whole.all path label_bytes 0, whole.same path label_bytes 0 i lt)),
  λ p. ground (arith, free_ids.unused p),
  λ p lt i. ground arith,
)
