-- ===== src/Lz4/Machine.antt =====
-- The configurations that extractor/lz4.cpp is compiled in: `_LP64` and `_BIG_ENDIAN`.
use dumpbin_py_zfs_rescue.Common.{
  ℕ, ◌+◌, ◌≤◌, ◌≡◌, refl, sym, ◌∙◌, ap, arith, Bool, true, false, if◌then◌else◌,
}
use dumpbin_py_zfs_rescue.Lz4.Run.{Run, ok, Input, Output, fetch16, overwrite, copy_out}
use dumpbin_py_zfs_rescue.Lz4.Copy.{stepsize}
use dumpbin_py_zfs_rescue.Lz4.Copies.{copy_out_lem}
use dumpbin_py_zfs_rescue.Lz4.Match.{moved}
use dumpbin_py_zfs_rescue.Lz4.Format.{IsBytes}
use dumpbin_py_zfs_rescue.Lz4.Narrow.{narrow_stepsize, narrow_packet}
use dumpbin_py_zfs_rescue.Lz4.Endian.{fetch16_swapped, fetch16_swapped-fetch16}

pub record Machine : Type 0 where
  pub lp64 : Bool
  pub big_endian : Bool

-- `LZ4_ARCH64` and `STEPSIZE`
abbrev pub lz4_arch64 : Machine → Bool
lz4_arch64 m = m.lp64

abbrev pub stepsize_of : Machine → ℕ
stepsize_of m = if lz4_arch64 m then stepsize else narrow_stepsize

-- `LZ4_BIG_ENDIAN`. The machine is little-endian where nothing else is said.
abbrev pub lz4_big_endian : Machine → Bool
lz4_big_endian m = m.big_endian

-- `LZ4_COPYPACKET(s, d)`: one step of eight bytes, or two of four.
unfoldable pub copypacket : Machine → (s d : ℕ) → Output → Run Output
unfolding copy_out narrow_packet
copypacket m s d out = if lz4_arch64 m then copy_out stepsize s d out else narrow_packet s d out

-- `LZ4_READ_LITTLEENDIAN_16`
unfoldable pub read_littleendian16 : Machine → Input → ℕ → Run ℕ
unfolding fetch16 fetch16_swapped
read_littleendian16 m src p = if lz4_big_endian m then fetch16_swapped src p else fetch16 src p

read_same :
    (big : Bool) (src : Input) (p : ℕ)
    → IsBytes src
    → (if big then fetch16_swapped src p else fetch16 src p) ≡ fetch16 src p
read_same true src p bytes = fetch16_swapped-fetch16 src p bytes
read_same false src p bytes = refl

module _ (s d : ℕ) (out : Output) (apart : s + 8 ≤ d) (room : d + 8 ≤ out.size) where
  -- The output after two steps of four bytes.
  abbrev twice : Output
  twice = moved 4 (s + 4) (d + 4) (moved 4 s d out)

  narrow_packet_lem : narrow_packet s d out ≡ ok twice
  unfolding narrow_packet
  narrow_packet_lem =
      rw
        (
          copy_out_lem 4 s d out (omega arith) (omega arith),
          copy_out_lem 4 (s + 4) (d + 4) (moved 4 s d out) (omega arith) (omega arith),
        )
        refl

  twice_once : (i : ℕ) → twice.byte i ≡ (moved 8 s d out).byte i
  unfolding overwrite
  twice_once i = ground arith

  packet_same :
      (lp64 : Bool)
      → (if lp64 then copy_out stepsize s d out else narrow_packet s d out) ≡ ok (moved 8 s d out)
  packet_same true = copy_out_lem 8 s d out (omega arith) room
  packet_same false = narrow_packet_lem ∙ ap ok (λ i. record out { byte = λ k. twice_once k i })

-- Machines of all four kinds read the same distance from the same bytes, and copy the same packet where
-- it lies eight bytes behind its source at least and inside the output.
pub machines_same :
    (m m' : Machine) (src : Input) (p s d : ℕ) (out : Output)
    → IsBytes src
    → s + 8 ≤ d
    → d + 8 ≤ out.size
    → (read_littleendian16 m src p ≡ read_littleendian16 m' src p)
      × (copypacket m s d out ≡ copypacket m' s d out)
unfolding read_littleendian16 copypacket
machines_same m m' src p s d out bytes apart room = (
  read_same m.big_endian src p bytes ∙ sym (read_same m'.big_endian src p bytes),
  packet_same s d out apart room m.lp64 ∙ sym (packet_same s d out apart room m'.lp64),
)
