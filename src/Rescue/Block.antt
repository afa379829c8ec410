-- ===== src/Rescue/Block.antt =====
-- `GenericDevice.read_block` of zfs/zio.py without its debugging output, over the reader of the device
-- and the `decompress` of zlib.
use Prim.Native.String.{String}
use dumpbin_py_zfs_rescue.Common.{
  ℕ, zero, suc, ◌+◌, ◌-◌, ◌^◌, ◌≢◌, refl, [], ◌∷◌, ◌++◌, List, Bool, true, false, Option, none,
  some, ◌&&◌, ◌||◌, length, get_or, ltb, ◌==◌, if◌then◌else◌,
}
use dumpbin_py_zfs_rescue.Lz4.Run.{Input}
use dumpbin_py_zfs_rescue.Rescue.Py.{Py, done, raised, ◌>>=◌}
use dumpbin_py_zfs_rescue.Rescue.Fletcher.{fletcher4}
use dumpbin_py_zfs_rescue.Rescue.BlockPtr.{PyBlkptr, Embedded, compressed, is_empty, get_dva}
use dumpbin_py_zfs_rescue.Rescue.Repair.{take}
use dumpbin_py_zfs_rescue.Rescue.Reader.{start, item}
use dumpbin_py_zfs_rescue.Rescue.Lz4 as Lz4
use dumpbin_py_zfs_rescue.Rescue.Lz4Ends.{lz4zfs_decompress_ends}
use dumpbin_py_zfs_rescue.Rescue.Lzjb as Lzjb
use dumpbin_py_zfs_rescue.Rescue.LzjbEnds.{lzjb_decompress_ends}

-- What is left of a decompressor where its exceptions are caught.
abbrev pub lz4_caught : (r : Lz4.Returned) → r ≢ Lz4.out_of_fuel → Option (List ℕ)
lz4_caught (Lz4.returns bytes) ends = bytes
lz4_caught Lz4.fails ends = none
lz4_caught Lz4.out_of_fuel ends = absurd (ends refl)

abbrev lzjb_caught : (r : Lzjb.Outcome) → r ≢ Lzjb.out_of_fuel → Option (List ℕ)
lzjb_caught (Lzjb.returns bytes) ends = bytes
lzjb_caught Lzjb.fails ends = none
lzjb_caught Lzjb.out_of_fuel ends = absurd (ends refl)

abbrev caught : Py (List ℕ) → Option (List ℕ)
caught (done bytes) = some bytes
caught raised = none

abbrev pub input_of : List ℕ → Input
input_of bytes = record { size = length bytes; byte = λ i. get_or bytes i 0 }

-- `_devs[0]`, where a mirror reads its blocks.
unfoldable pub mirror_read :
    (read : String → (offset count : ℕ) → Py (List ℕ))
    → List String
    → (offset psize : ℕ) → Py (Option (List ℕ))
mirror_read read devs offset psize =
    item devs 0 >>= λ path. read path (offset + start) psize >>= λ bytes. done (some bytes)

-- Whether the bytes have the checksum of the pointer; only fletcher4 is computed.
unfoldable pub check : PyBlkptr → List ℕ → Py Bool
check p bytes =
    if p.cksum == 7
    then (fletcher4 (take p.psize bytes) >>= λ s. done (
        (s.a == get_or p.checksum 0 0)
        && (s.b == get_or p.checksum 1 0)
        && (s.c == get_or p.checksum 2 0)
        && (s.d == get_or p.checksum 3 0)))
    else done true

-- The same where the reader has returned `None`, which cannot be sliced.
abbrev pub check_read : PyBlkptr → Option (List ℕ) → Py Bool
check_read p none = if p.cksum == 7 then raised else done true
check_read p (some bytes) = check p bytes

-- CompType
abbrev pub in_comp_type : ℕ → Bool
in_comp_type comp =
    (comp == 1) || (comp == 3) || (comp == 5) || (comp == 9) || (comp == 13) || (comp == 15)

-- if len(data) < lsize: ... elif len(data) > lsize: ...
abbrev pub zeros : ℕ → List ℕ
zeros zero = []
zeros (suc n) = 0 ∷ zeros n

unfoldable pub fit : (lsize : ℕ) → List ℕ → List ℕ
fit lsize bytes =
    if ltb (length bytes) lsize
    then bytes ++ zeros (lsize - length bytes)
    else if ltb lsize (length bytes)
    then take lsize bytes
    else bytes

-- The size that the data are made to have.
abbrev pub lsize_of : PyBlkptr → Option Embedded → ℕ
lsize_of p none = p.lsize
lsize_of p (some e) = e.lsize

module _ (inflate : List ℕ → Py (List ℕ)) where
  -- The chosen decompressor; `None` for an exception, also for the one of data that are `None`.
  unfoldable pub decompress : (comp lsize : ℕ) → Option (List ℕ) → Option (List ℕ)
  decompress comp lsize none = none
  decompress comp lsize (some bytes) =
      if comp == 15
      then lz4_caught (Lz4.lz4zfs_decompress (input_of bytes))
          (lz4zfs_decompress_ends (input_of bytes))
      else if (comp == 5) || (comp == 9) || (comp == 13)
      then caught (inflate bytes)
      else lzjb_caught (Lzjb.lzjb_decompress bytes lsize) (lzjb_decompress_ends bytes lsize)

  abbrev pub fitted : ℕ → Bool → Option (List ℕ) → Option (List ℕ) × Bool
  fitted lsize cksum none = (none, cksum)
  fitted lsize cksum (some bytes) = (some (fit lsize bytes), cksum)

  -- The length of `None` is a `TypeError`.
  abbrev pub plain : ℕ → Bool → Option (List ℕ) → Py (Option (List ℕ) × Bool)
  plain lsize cksum none = raised
  plain lsize cksum (some bytes) = done (some (fit lsize bytes), cksum)

  -- What is done with the data, once they are read.
  unfoldable pub deliver :
      PyBlkptr → (lsize : ℕ) → (cksum : Bool) → Option (List ℕ) → Py (Option (List ℕ) × Bool)
  unfolding decompress fit
  deliver p lsize cksum bytes =
      if compressed p
      then (if in_comp_type p.comp
          then done (fitted lsize cksum (decompress p.comp lsize bytes))
          else done (none, cksum))
      else plain lsize cksum bytes

  module _ (read_physical : (offset psize : ℕ) → Py (Option (List ℕ))) (ashift : ℕ) where
    -- The data and whether their checksum is right: those of the pointer itself, which are not checked,
    -- or those of the device, from which a sector at least is read.
    unfoldable pub raw_data :
        PyBlkptr → Option Embedded → (offset : ℕ) → Py (Option (List ℕ) × Bool)
    unfolding check
    raw_data p (some e) offset = done (some e.bytes, true)
    raw_data p none offset =
        read_physical offset (if ltb p.psize (2 ^ ashift) then 2 ^ ashift else p.psize) >>= λ bytes.
        check_read p bytes >>= λ cksum. done (bytes, cksum)

    unfoldable pub read_block : PyBlkptr → (dvanum : ℕ) → Py (Option (List ℕ) × Bool)
    unfolding raw_data deliver
    read_block p dvanum =
        let dva = get_dva p dvanum in
        if is_empty p
        then done (none, false)
        else if dva.gang
        then raised
        else if (dva.offset == 0) && (p.psize == 0)
        then done (none, true)
        else (raw_data p p.embedded dva.offset >>= λ r. deliver p (lsize_of p p.embedded) r.1 r.0)
