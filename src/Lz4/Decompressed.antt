-- ===== src/Lz4/Decompressed.antt =====
-- What `py_lz4_uncompress` returns.
use dumpbin_py_zfs_rescue.Common.{
  ℕ, ◌+◌, ◌-◌, ◌^◌, ◌≤◌, ◌<◌, ◌≡◌, ◌⊎◌, inl, inr, some, none, Option, refl, arith, lt→ltb, le→ltb,
}
use native.Mathlib.Decide.{dec_lt}
use dumpbin_py_zfs_rescue.Lz4.Run.{Run, ok, output_error, Input, Output}
use dumpbin_py_zfs_rescue.Lz4.Decode.{Decoder}
use dumpbin_py_zfs_rescue.Lz4.Decompress.{rest_of}
use dumpbin_py_zfs_rescue.Lz4.Format.{IsBytes}
use dumpbin_py_zfs_rescue.Lz4.Refine.{Decoded}
use dumpbin_py_zfs_rescue.Lz4.Loop.{uncompress-Decoded}
use dumpbin_py_zfs_rescue.Lz4.Header.{big_endian32, be_in32_lem}
use dumpbin_py_zfs_rescue.Lz4.Binding.{
  Returned, input_too_short, corrupt_input, bytes, PyBytes, object_of, no_memory, after_decode,
  decode_into, py_lz4_uncompress,
}

-- Each way in which a call ends, with the length `n` in the header and the new object.
pub data Ends (source : Input) (buf_size n dest_size : ℕ)
    : Option (ℕ → ℕ) → Run Returned → Type 0 where
  short :
      {object : Option (ℕ → ℕ)}
      → buf_size < n
      → Ends source buf_size n dest_size object (ok input_too_short)
  not_given : n ≤ buf_size → Ends source buf_size n dest_size none (ok no_memory)
  empty :
      {content : ℕ → ℕ}
      → n ≤ buf_size
      → dest_size ≡ 0
      → Ends source buf_size n dest_size (some content) (ok (bytes (object_of dest_size content)))
  corrupt :
      {content : ℕ → ℕ} (k : ℕ)
      → 0 < k
      → k ≤ n
      → Ends source buf_size n dest_size (some content) (ok (corrupt_input k))
  text :
      {content : ℕ → ℕ} (d : Decoder)
      → Decoded (rest_of source 4) n 0 0 (object_of dest_size content) d
      → Ends source buf_size n dest_size (some content) (ok (bytes d.out))

after_decode-output_error :
    (result : Output) (k : ℕ) → 0 < k → after_decode result (output_error k) ≡ ok (corrupt_input k)
unfolding after_decode
after_decode-output_error result k lt = rw (lt→ltb 0 k lt)

after_decode-ok : (result : Output) (d : Decoder) → after_decode result (ok d) ≡ ok (bytes d.out)
unfolding after_decode
after_decode-ok result d = refl

module _ (source : Input) (buf_size dest_size : ℕ) (all_bytes : IsBytes source)
    (inside : buf_size ≤ source.size) (small : buf_size < 2 ^ 31) (room : dest_size < 2 ^ 31) where
  -- From the new object on, where the header leaves room for itself.
  decode_into-Ends :
      (n : ℕ) (object : Option (ℕ → ℕ))
      → n + 4 ≤ buf_size
      → Ends source buf_size n dest_size object (decode_into source n dest_size object)
  unfolding decode_into
  decode_into-Ends n none le = not_given (omega arith)
  decode_into-Ends n (some content) le = elim (dec_lt 0 dest_size) [
    | no nothing ↦ rw (le→ltb 0 dest_size (omega arith)) (empty (omega arith) (omega arith))
    | yes some_room ↦
        let result = object_of dest_size content in
        elim (uncompress-Decoded (rest_of source 4) n result (λ i. all_bytes (4 + i)) (omega arith)
          (omega arith) (omega arith)) [
            | inl (k, e, lo, hi) ↦
                rw (lt→ltb 0 dest_size some_room, e, after_decode-output_error result k lo)
                  (corrupt k lo hi)
            | inr (d, e, t) ↦
                rw (lt→ltb 0 dest_size some_room, e, after_decode-ok result d) (text d t)
          ]
  ]

-- `py_lz4_uncompress` of `buf_size` bytes that can be read, where the length in the header either is
-- more than `buf_size` or leaves room for the header: it raises that the input is too short where the
-- length is more; where no object is given it returns none; it returns an object of no bytes as it is;
-- and else it reports a corrupt byte of the block, or returns the decoded block, of which the matches
-- with a distance of 0 may be any bytes. No access is outside a buffer.
pub py_lz4_uncompress-Ends :
    (alloc : PyBytes) (source : Input) (buf_size dest_size : ℕ)
    → IsBytes source
    → 4 ≤ source.size
    → buf_size ≤ source.size
    → buf_size < 2 ^ 31
    → dest_size < 2 ^ 31
    → (buf_size < big_endian32 source.byte 0) ⊎ (big_endian32 source.byte 0 + 4 ≤ buf_size)
    → Ends source buf_size
        (big_endian32 source.byte 0)
        dest_size
        (alloc dest_size)
        (py_lz4_uncompress alloc source buf_size dest_size)
unfolding py_lz4_uncompress
py_lz4_uncompress-Ends alloc source buf_size dest_size all_bytes header inside small room (inl lt) =
    rw (be_in32_lem source all_bytes 0 header, lt→ltb buf_size (big_endian32 source.byte 0) lt)
      (short lt)
py_lz4_uncompress-Ends alloc source buf_size dest_size all_bytes header inside small room (inr le) =
    rw
      (
        be_in32_lem source all_bytes 0 header,
        le→ltb buf_size (big_endian32 source.byte 0) (omega arith),
        le→ltb (2 ^ 31 - 1) (big_endian32 source.byte 0) (omega arith),
      )
      (decode_into-Ends source buf_size dest_size all_bytes inside small room
        (big_endian32 source.byte 0) (alloc dest_size) le)
