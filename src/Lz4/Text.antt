-- ===== src/Lz4/Text.antt =====
-- What is decoded of a block that some text has is that text.
use dumpbin_py_zfs_rescue.Common.{◌∙◌, ◌+◌, some, ℕ, ◌^◌, ◌≤◌, ◌<◌, ◌≡◌, inl, inr, arith}
use mathlib.Core.Path.{subst}
use dumpbin_py_zfs_rescue.Lz4.Run.{ok, Input, Output}
use dumpbin_py_zfs_rescue.Lz4.Decode.{Decoder, uncompress_unknown_output_size}
use dumpbin_py_zfs_rescue.Lz4.Format.{IsBytes}
use dumpbin_py_zfs_rescue.Lz4.Block.{Block}
use dumpbin_py_zfs_rescue.Lz4.Decompress.{rest_of, lz4_decompress_zfs}
use dumpbin_py_zfs_rescue.Lz4.Header.{big_endian32, lz4_decompress_long, status-ok}
use dumpbin_py_zfs_rescue.Lz4.Accept.{EndsInLiterals, uncompress-accepts}
use dumpbin_py_zfs_rescue.Lz4.Loop.{uncompress-Decoded}
use dumpbin_py_zfs_rescue.Lz4.Unique.{HasDistances, SameText, Block-unique}

-- Where the input is the block of a text `f` of `fin` bytes, with no distance of 0, and
-- `LZ4_uncompress_unknownOutputSize` does not report an error, it has decoded `fin` bytes, and they
-- are those of `f`.
pub uncompress-text :
    (src : Input) (isize : ℕ) (out : Output) (f : ℕ → ℕ) (fin : ℕ) (b : Block src isize f 0 0 fin)
    (d : Decoder)
    → HasDistances b
    → IsBytes src
    → isize < 2 ^ 31
    → isize ≤ src.size
    → out.size < 2 ^ 63
    → uncompress_unknown_output_size src isize out ≡ ok d
    → SameText f d.out.byte fin d.op
uncompress-text src isize out f fin b d no_zero bytes small inside big e =
    elim (uncompress-Decoded src isize out bytes small inside big) [
      | inl (k, e', lo, hi) ↦ absurd (ground (arith, e, e'))
      | inr (d', e', t) ↦
          let same : d' ≡ d = cc in
          Block-unique src isize f d.out.byte b no_zero
            (subst (λ (x : Decoder). Block src isize x.out.byte 0 0 x.op) same t.block)
            (λ i lt. absurd (omega arith))
    ]

-- `LZ4_uncompress_unknownOutputSize` decodes each block of a text `f` of `fin` bytes that has no
-- distance of 0 and ends as the format asks, where the output has room for the text: it reports no
-- error, has decoded `fin` bytes, and they are those of `f`.
pub uncompress-decodes :
    (src : Input) (isize : ℕ) (out : Output) (f : ℕ → ℕ) (fin : ℕ) (b : Block src isize f 0 0 fin)
    → HasDistances b
    → EndsInLiterals b
    → IsBytes src
    → isize < 2 ^ 31
    → isize ≤ src.size
    → fin ≤ out.size
    → out.size < 2 ^ 63
    → (d : Decoder) × (uncompress_unknown_output_size src isize out ≡ ok d)
      × SameText f d.out.byte fin d.op
uncompress-decodes src isize out f fin b no_zero ends bytes small inside fits big =
    let (d, e) = uncompress-accepts src isize out f fin b ends bytes small inside fits big in
    (d, e, uncompress-text src isize out f fin b d no_zero bytes small inside big e)

-- `lz4_decompress_zfs` of a header and such a block of the length that it says, within `s_len` bytes
-- that can be read: it returns 0, and the output has the text.
pub lz4_decompress-decodes :
    (src : Input) (s_len : ℕ) (out : Output) (f : ℕ → ℕ) (fin : ℕ)
    (b : Block (rest_of src 4) (big_endian32 src.byte 0) f 0 0 fin)
    → HasDistances b
    → EndsInLiterals b
    → IsBytes src
    → big_endian32 src.byte 0 + 4 ≤ s_len
    → s_len ≤ src.size
    → s_len < 2 ^ 31
    → fin ≤ out.size
    → out.size < 2 ^ 31
    → (d : Decoder) × (lz4_decompress_zfs src s_len out
        ≡ ok (record { code = 0; decoded = some d }))
      × SameText f d.out.byte fin d.op
lz4_decompress-decodes src s_len out f fin b no_zero ends bytes le inside small fits big =
    let n = big_endian32 src.byte 0 in
    let (d, e, same) =
      uncompress-decodes (rest_of src 4) n out f fin b no_zero ends (λ i. bytes (4 + i))
        (omega arith) (omega arith) fits (omega arith) in
    (d, lz4_decompress_long src bytes s_len out (omega arith) le ∙ rw e (status-ok d), same)
