-- ===== src/Lz4/Binding.antt =====
-- `py_lz4_uncompress`, the Python function over the decoder, and the byte helpers before it:
-- zfs/python-lz4-0.7.0+dfsg.c.bck/src/python-lz4zfs.c.
use dumpbin_py_zfs_rescue.Common.{ℕ, ◌-◌, ◌^◌, Option, none, some, ltb, if◌then◌else◌}
use dumpbin_py_zfs_rescue.Lz4.Run.{Run, ok, output_error, fault, out_of_fuel, ◌>>=◌, Input, Output}
use dumpbin_py_zfs_rescue.Lz4.Bytes.{be_in32}
use dumpbin_py_zfs_rescue.Lz4.Decode.{Decoder, uncompress_unknown_output_size}
use dumpbin_py_zfs_rescue.Lz4.Decompress.{rest_of}

-- The exceptions that are raised, and what is returned.
pub data Returned : Type 0 where
  input_too_short : Returned
  invalid_size : Returned
  corrupt_input : ℕ → Returned
  no_memory : Returned
  bytes : Output → Returned

-- `hdr_size`
abbrev pub hdr_size : ℕ
hdr_size = 4

-- `PyBytes_FromStringAndSize(NULL, n)` gives an object of `n` bytes, whatever they are, or none; it is a
-- parameter.
abbrev pub PyBytes : Type 0
PyBytes = ℕ → Option (ℕ → ℕ)

-- The bytes of an object with `n` of them.
abbrev pub object_of : (n : ℕ) → (ℕ → ℕ) → Output
object_of n content = record { size = n; byte = content }

-- `osize` below 0 is an error, at the byte that it says. An error at byte 0, of which the decoder has
-- none, would not be seen.
unfoldable pub after_decode : Output → Run Decoder → Run Returned
after_decode result (ok d) = ok (bytes d.out)
after_decode result (output_error ip) = ok (if ltb 0 ip then corrupt_input ip else bytes result)
after_decode result fault = fault
after_decode result out_of_fuel = out_of_fuel

-- `dest_size` is not negative. An object of no bytes is returned as it is.
unfoldable pub decode_into : Input → (source_size dest_size : ℕ) → Option (ℕ → ℕ) → Run Returned
unfolding after_decode uncompress_unknown_output_size
decode_into source source_size dest_size none = ok no_memory
decode_into source source_size dest_size (some content) =
    let result = object_of dest_size content in
    if ltb 0 dest_size
    then after_decode result
        (uncompress_unknown_output_size (rest_of source hdr_size) source_size result)
    else ok (bytes result)

unfoldable pub py_lz4_uncompress : PyBytes → Input → (buf_size dest_size : ℕ) → Run Returned
unfolding decode_into be_in32
py_lz4_uncompress alloc source buf_size dest_size = do
  source_size ← be_in32 source 0
  (if ltb buf_size source_size
      then ok input_too_short
      else if ltb (2 ^ 31 - 1) source_size
      then ok invalid_size
      else decode_into source source_size dest_size (alloc dest_size))
