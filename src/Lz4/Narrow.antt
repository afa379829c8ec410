-- ===== src/Lz4/Narrow.antt =====
-- The copy of a match on a 32-bit machine, where `_LP64` is not defined: `STEPSIZE` is 4, eight bytes
-- are copied in two steps, and `LZ4_SECURECOPY` is `LZ4_WILDCOPY`. de.c and extractor/lz4.cpp.
use dumpbin_py_zfs_rescue.Common.{
  ℕ, zero, suc, ◌+◌, ◌-◌, ◌%◌, ◌^◌, true, false, ltb, get_or, ◌==◌, if◌then◌else◌,
}
use dumpbin_py_zfs_rescue.Lz4.Run.{
  Run, ok, out_of_fuel, ◌>>=◌, ◌>>◌, fail_if, Input, Output, fetch16, copy_out,
}
use dumpbin_py_zfs_rescue.Lz4.Copy.{Copied, copylength, bytecopy}
use dumpbin_py_zfs_rescue.Lz4.Decode.{Decoder, dec32table, get_matchlength}

abbrev pub narrow_stepsize : ℕ
narrow_stepsize = 4

-- `-` of a 32-bit `size_t`
abbrev pub sub32 : ℕ → ℕ → ℕ
sub32 a b = (a + 2 ^ 32 - b) % 2 ^ 32

-- `LZ4_COPYPACKET(s, d)`: LZ4_COPYSTEP(s, d); LZ4_COPYSTEP(s, d);
unfoldable pub narrow_packet : (s d : ℕ) → Output → Run Output
unfolding copy_out
narrow_packet s d out = do
  out ← copy_out narrow_stepsize s d out
  copy_out narrow_stepsize (s + narrow_stepsize) (d + narrow_stepsize) out

-- do { LZ4_COPYPACKET(s, d) } while (d < e);
unfoldable pub narrow_wildcopy : (fuel s d e : ℕ) → Output → Run Copied
unfolding narrow_packet
narrow_wildcopy zero s d e out = out_of_fuel
narrow_wildcopy (suc fuel) s d e out = do
  out ← narrow_packet s d out
  elim (ltb (d + 8) e) [
    | true ↦ narrow_wildcopy fuel (s + 8) (d + 8) e out
    | false ↦ ok (record { from = s + 8; to = d + 8; out = out })
  ]

-- `dec64` is 0, and `op` is not moved behind the second four bytes.
unfoldable pub narrow_start : (ref op : ℕ) → Output → Run Copied
narrow_start ref op out =
    if ltb (op - ref) narrow_stepsize
    then (do
      out ← copy_out 1 ref op out
      out ← copy_out 1 (ref + 1) (op + 1) out
      out ← copy_out 1 (ref + 2) (op + 2) out
      out ← copy_out 1 (ref + 3) (op + 3) out
      let back = sub32 (ref + 4) (get_or dec32table (op - ref) 0)
      out ← copy_out 4 back (op + 4) out
      ok (record { from = back; to = op + 4; out = out }))
    else (do
      out ← copy_out narrow_stepsize ref op out
      ok (record { from = ref + narrow_stepsize; to = op + narrow_stepsize; out = out }))

unfoldable pub narrow_finish : (oend ip cpy : ℕ) → Copied → Run Copied
unfolding narrow_wildcopy bytecopy
narrow_finish oend ip cpy m =
    if ltb oend (cpy + copylength)
    then (do
      fail_if (ltb oend cpy) ip
      m ← narrow_wildcopy (suc (oend - m.to)) m.from m.to (oend - copylength) m.out
      m ← bytecopy (suc (cpy - m.to)) m.from m.to cpy m.out
      fail_if (cpy == oend) ip
      ok (record { from = m.from; to = cpy; out = m.out }))
    else (do
      m ← narrow_wildcopy (suc (cpy - m.to)) m.from m.to cpy m.out
      ok (record { from = m.from; to = cpy; out = m.out }))

-- `STEPSIZE - 4` is 0, so that the match ends `length` bytes behind its first four.
unfoldable pub narrow_match : Input → (iend ip op token : ℕ) → Output → Run Decoder
unfolding fetch16 get_matchlength narrow_start narrow_finish
narrow_match src iend ip op token out = do
  offset ← fetch16 src ip
  fail_if (ltb op offset) (ip + 2)
  l ← get_matchlength src iend (ip + 2) token
  m ← narrow_start (op - offset) op out
  m ← narrow_finish out.size l.ip (m.to + l.length) m
  ok (record { finished = false; ip = l.ip; op = m.to; out = m.out })
