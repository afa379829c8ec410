-- ===== src/Lz4/Header.antt =====
-- The length in front of a ZFS block, and `lz4_decompress_zfs` as a whole.
use dumpbin_py_zfs_rescue.Common.{
  ℕ, ◌+◌, ◌*◌, ◌^◌, ◌≤◌, ◌<◌, ◌≡◌, ◌⊎◌, inl, inr, none, some, refl, arith, lt→ltb, le→ltb, ◌∙◌,
}
use dumpbin_py_zfs_rescue.Common.Fields.{bit_or-shift}
use native.Mathlib.Decide.{dec_lt}
use dumpbin_py_zfs_rescue.Lz4.Run.{ok, output_error, Input, Output}
use dumpbin_py_zfs_rescue.Lz4.Bytes.{be_in8, be_in16, be_in32}
use dumpbin_py_zfs_rescue.Lz4.Decode.{Decoder, uncompress_unknown_output_size}
use dumpbin_py_zfs_rescue.Lz4.Decompress.{status, rest_of, lz4_decompress_zfs}
use dumpbin_py_zfs_rescue.Lz4.Format.{IsBytes}
use dumpbin_py_zfs_rescue.Lz4.Lengths.{fetch_lem}
use dumpbin_py_zfs_rescue.Lz4.Refine.{Decoded}
use dumpbin_py_zfs_rescue.Lz4.Loop.{uncompress-Decoded}

-- Two bytes, and four, most significant byte first.
abbrev pub big_endian16 : (ℕ → ℕ) → ℕ → ℕ
big_endian16 byte p = byte p * 256 + byte (p + 1)

abbrev pub big_endian32 : (ℕ → ℕ) → ℕ → ℕ
big_endian32 byte p = big_endian16 byte p * 65536 + big_endian16 byte (p + 2)

module _ (src : Input) (bytes : IsBytes src) where
  be_in16_lem : (p : ℕ) → p + 2 ≤ src.size → be_in16 src p ≡ ok (big_endian16 src.byte p)
  unfolding be_in16 be_in8
  be_in16_lem p le =
      rw (fetch_lem src p (omega arith), fetch_lem src (p + 1) (omega arith))
        (rw (bit_or-shift 8 (src.byte p) (src.byte (p + 1)) (bytes (p + 1))))

  -- `BE_IN32` of four bytes that can be read is the number that they are, most significant first.
  pub be_in32_lem : (p : ℕ) → p + 4 ≤ src.size → be_in32 src p ≡ ok (big_endian32 src.byte p)
  unfolding be_in32
  be_in32_lem p le =
      let low : big_endian16 src.byte (p + 2) < 2 ^ 16 =
        omega (arith, bytes (p + 2), bytes (p + 2 + 1)) in
      rw (be_in16_lem p (omega arith), be_in16_lem (p + 2) (omega arith))
        (rw (bit_or-shift 16 (big_endian16 src.byte p) (big_endian16 src.byte (p + 2)) low))

  module _ (s_len : ℕ) (out : Output) (header : 4 ≤ src.size) where
    pub lz4_decompress_short :
        s_len < big_endian32 src.byte 0 + 4
        → lz4_decompress_zfs src s_len out ≡ ok (record { code = 1; decoded = none })
    unfolding lz4_decompress_zfs
    lz4_decompress_short lt =
        rw (be_in32_lem 0 header, lt→ltb s_len (big_endian32 src.byte 0 + 4) lt)

    pub lz4_decompress_long :
        big_endian32 src.byte 0 + 4 ≤ s_len
        → lz4_decompress_zfs src s_len out
          ≡ status (uncompress_unknown_output_size (rest_of src 4) (big_endian32 src.byte 0) out)
    unfolding lz4_decompress_zfs
    lz4_decompress_long le =
        rw (be_in32_lem 0 header, le→ltb s_len (big_endian32 src.byte 0 + 4) le)

status-output_error :
    (k : ℕ) → 0 < k → status (output_error k) ≡ ok (record { code = 1; decoded = none })
unfolding status
status-output_error k lt = rw (lt→ltb 0 k lt)

pub status-ok : (d : Decoder) → status (ok d) ≡ ok (record { code = 0; decoded = some d })
unfolding status
status-ok d = refl

-- `lz4_decompress_zfs` on an input of `s_len` bytes that can be read, at least the four of the
-- header: it returns 1 and nothing, or it returns 0, the header's length fits in `s_len`, and the
-- output has the decoded block behind the header: its literals and matches are copied as the format
-- describes, but a match of distance 0, which the format does not have, is accepted and may be any
-- bytes. No access is outside a buffer.
pub lz4_decompress-Decoded :
    (src : Input) (s_len : ℕ) (out : Output)
    → IsBytes src
    → 4 ≤ src.size
    → s_len ≤ src.size
    → s_len < 2 ^ 31
    → out.size < 2 ^ 31
    → (lz4_decompress_zfs src s_len out ≡ ok (record { code = 1; decoded = none }))
      ⊎ ((d : Decoder) × (lz4_decompress_zfs src s_len out
            ≡ ok (record { code = 0; decoded = some d }))
          × (big_endian32 src.byte 0 + 4 ≤ s_len)
          × Decoded (rest_of src 4) (big_endian32 src.byte 0) 0 0 out d)
lz4_decompress-Decoded src s_len out bytes header inside small room =
    let n = big_endian32 src.byte 0 in
    elim (dec_lt s_len (n + 4)) [
      | yes lt ↦ inl (lz4_decompress_short src bytes s_len out header lt)
      | no le ↦
          let step = lz4_decompress_long src bytes s_len out header (omega arith) in
          elim (uncompress-Decoded (rest_of src 4) n out (λ i. bytes (4 + i)) (omega arith)
            (omega arith) (omega arith)) [
              | inl (k, e, lo, hi) ↦ inl (step ∙ rw e (status-output_error k lo))
              | inr (d, e, t) ↦ inr (d, step ∙ rw e (status-ok d), omega arith, t)
            ]
    ]
