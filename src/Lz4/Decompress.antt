-- ===== src/Lz4/Decompress.antt =====
-- `lz4_decompress_zfs`, extractor/lz4.cpp and de.c: a ZFS block is a big-endian length and that many
-- bytes of LZ4.
use dumpbin_py_zfs_rescue.Common.{ℕ, ◌+◌, ◌-◌, Option, none, some, ltb, if◌then◌else◌}
use dumpbin_py_zfs_rescue.Lz4.Run.{Run, ok, output_error, fault, out_of_fuel, ◌>>=◌, Input, Output}
use dumpbin_py_zfs_rescue.Lz4.Bytes.{be_in32}
use dumpbin_py_zfs_rescue.Lz4.Decode.{Decoder, uncompress_unknown_output_size}

-- The value that is returned, 0 for success, and what the decoder left. The output of a failed call
-- is not modelled.
pub record Status : Type 0 where
  pub code : ℕ
  pub decoded : Option Decoder

-- `return (l < 0)`, where `l` is the number of bytes decoded, or minus the position of the error.
unfoldable pub status : Run Decoder → Run Status
status (ok d) = ok (record { code = 0; decoded = some d })
status (output_error ip) = ok (record { code = if ltb 0 ip then 1 else 0; decoded = none })
status fault = fault
status out_of_fuel = out_of_fuel

-- The input from its byte `k` on.
abbrev pub rest_of : Input → ℕ → Input
rest_of src k = record { size = src.size - k; byte = λ i. src.byte (k + i) }

-- The output's size is `d_len`, below 2 ^ 31 so that the `int` of the decoder keeps it.
unfoldable pub lz4_decompress_zfs : Input → (s_len : ℕ) → Output → Run Status
unfolding status be_in32 uncompress_unknown_output_size
lz4_decompress_zfs src s_len out = do
  bufsiz ← be_in32 src 0
  let decoded = status (uncompress_unknown_output_size (rest_of src 4) bufsiz out)
  if ltb s_len (bufsiz + 4) then ok (record { code = 1; decoded = none }) else decoded
