-- ===== src/Rescue/Lz4Same.antt =====
-- The decoders of the rescue tool and of the extractor give the same bytes.
use dumpbin_py_zfs_rescue.Common.{
  ℕ, ◌+◌, ◌≤◌, ◌<◌, ◌^◌, ◌≡◌, sym, ◌∙◌, arith, List, some, length, get_or,
}
use dumpbin_py_zfs_rescue.Lz4.Run.{ok, Input, Output}
use dumpbin_py_zfs_rescue.Lz4.Header.{big_endian32}
use dumpbin_py_zfs_rescue.Lz4.Decode.{Decoder}
use dumpbin_py_zfs_rescue.Lz4.Decompress.{rest_of, lz4_decompress_zfs}
use dumpbin_py_zfs_rescue.Lz4.Format.{IsBytes}
use dumpbin_py_zfs_rescue.Lz4.Block.{Block}
use dumpbin_py_zfs_rescue.Lz4.Accept.{Closes, EndsInLiterals-of_Closes}
use dumpbin_py_zfs_rescue.Lz4.Unique.{HasDistances}
use dumpbin_py_zfs_rescue.Lz4.Text.{lz4_decompress-decodes}
use dumpbin_py_zfs_rescue.Rescue.Lz4.{returns, lz4zfs_decompress}
use dumpbin_py_zfs_rescue.Rescue.Lz4Decodes.{lz4zfs_decompress-decodes}

-- A header and a block of the length that it says, with no distance of 0 and five literals or more at
-- its end, with two bytes of input behind it and with room for its text in the output: both
-- `lz4_decompress_zfs` and `lz4zfs_decompress` return no error, and what the second returns begins with
-- what the first has decoded.
pub decompressors_same :
    (src : Input) (s_len : ℕ) (out : Output) (f : ℕ → ℕ) (fin : ℕ)
    (b : Block (rest_of src 4) (big_endian32 src.byte 0) f 0 0 fin)
    → HasDistances b
    → Closes b
    → IsBytes src
    → big_endian32 src.byte 0 + 6 ≤ s_len
    → s_len ≤ src.size
    → s_len < 2 ^ 31
    → fin ≤ out.size
    → out.size < 2 ^ 31
    → (d : Decoder) × (dst : List ℕ) × (lz4_decompress_zfs src s_len out
        ≡ ok (record { code = 0; decoded = some d }))
      × (lz4zfs_decompress src ≡ returns (some dst))
      × (d.op ≡ fin)
      × (d.op ≤ length dst)
      × ((i : ℕ) → i < d.op → get_or dst i 0 ≡ d.out.byte i)
decompressors_same src s_len out f fin b pos closes bytes le inside small fits big =
    let (d, e, text) =
      lz4_decompress-decodes src s_len out f fin b pos (EndsInLiterals-of_Closes b closes) bytes
        (omega arith) inside small fits big in
    let (dst, e', longer, same') = lz4zfs_decompress-decodes src f fin b pos closes (omega arith) in
    (
      d,
      dst,
      e,
      e',
      sym text.0,
      omega (arith, text.0, longer),
      λ i lt. same' i (omega (arith, text.0)) ∙ text.1 i (omega (arith, text.0)),
    )
