-- ===== src/Lz4/Decode.antt =====
-- `LZ4_uncompress_unknownOutputSize`: de.c, and the same text in extractor/lz4.cpp and in
-- zfs/python-lz4-0.7.0+dfsg.c.bck/src/python-lz4zfs.c.
-- The variables `ip`, `op`, `cpy` and `ref` are distances from the start of their
-- buffer; `oend - COPYLENGTH` may lie before it, so the comparisons with it add to the other side.
use dumpbin_py_zfs_rescue.Common.{
  ℕ, zero, suc, ◌+◌, ◌-◌, ◌/◌, ◌%◌, ◌^◌, [], ◌∷◌, List, Bool, true, false, not, ◌&&◌, ◌||◌, add64,
  sub64, get_or, ◌==◌, ltb, if◌then◌else◌,
}
use dumpbin_py_zfs_rescue.Lz4.Run.{
  Run, ok, out_of_fuel, ◌>>=◌, ◌>>◌, fail_if, Input, Output, fetch, fetch16, copy_in, copy_out,
}
use dumpbin_py_zfs_rescue.Lz4.Copy.{Copied, copylength, stepsize, wildcopy_in, securecopy, bytecopy}

abbrev pub run_mask : ℕ
run_mask = 15

abbrev pub ml_mask : ℕ
ml_mask = 15

abbrev pub dec32table : List ℕ
dec32table = 0 ∷ 3 ∷ 2 ∷ 3 ∷ 0 ∷ 0 ∷ 0 ∷ 0 ∷ []

-- The fourth entry is `(size_t)-1`.
abbrev pub dec64table : List ℕ
dec64table = 0 ∷ 0 ∷ 0 ∷ (2 ^ 64 - 1) ∷ 0 ∷ 1 ∷ 2 ∷ 3 ∷ []

-- A position in the input, and a length read so far.
pub record Length : Type 0 where
  pub ip : ℕ
  pub length : ℕ

-- while ((ip < iend) && (s == 255)) { s = *ip++; length += s; }
unfoldable pub run_length : Input → (fuel iend ip s length : ℕ) → Run Length
unfolding fetch
run_length src zero iend ip s length = out_of_fuel
run_length src (suc fuel) iend ip s length = elim (ltb ip iend && s == 255) [
  | true ↦ do s ← fetch src ip; run_length src fuel iend (ip + 1) s (add64 length s)
  | false ↦ ok (record { ip = ip; length = length })
]

-- while (ip < iend) { int s = *ip++; length += s; if (s == 255) continue; break; }
unfoldable pub match_length : Input → (fuel iend ip length : ℕ) → Run Length
unfolding fetch
match_length src zero iend ip length = out_of_fuel
match_length src (suc fuel) iend ip length = elim (ltb ip iend) [
  | true ↦ do
    s ← fetch src ip
    elim (s == 255) [
      | true ↦ match_length src fuel iend (ip + 1) (add64 length s)
      | false ↦ ok (record { ip = ip + 1; length = add64 length s })
    ]
  | false ↦ ok (record { ip = ip; length = length })
]

-- The length of a run of literals, behind the token at `ip`.
unfoldable pub get_runlength : Input → (iend ip token : ℕ) → Run Length
get_runlength src iend ip token =
    let length = token / 16 in
    if length == run_mask
    then run_length src (suc (iend - ip)) iend ip 255 length
    else ok (record { ip = ip; length = length })

unfoldable pub get_matchlength : Input → (iend ip token : ℕ) → Run Length
get_matchlength src iend ip token =
    let length = token % 16 in
    if length == ml_mask
    then match_length src (suc (iend - ip)) iend ip length
    else ok (record { ip = ip; length = length })

-- The first eight bytes of a match. One that starts less than eight bytes back is copied by single
-- bytes and four at once, and `ref` is moved back to where eight at once are possible.
unfoldable pub start_match : (ref op : ℕ) → Output → Run Copied
unfolding copy_out
start_match ref op out =
    if ltb (op - ref) stepsize
    then (do
      let dec64 = get_or dec64table (op - ref) 0
      out ← copy_out 1 ref op out
      out ← copy_out 1 (ref + 1) (op + 1) out
      out ← copy_out 1 (ref + 2) (op + 2) out
      out ← copy_out 1 (ref + 3) (op + 3) out
      let back = sub64 (ref + 4) (get_or dec32table (op - ref) 0)
      out ← copy_out 4 back (op + 4) out
      ok (record { from = sub64 back dec64; to = op + 8; out = out }))
    else (do
      out ← copy_out stepsize ref op out
      ok (record { from = ref + stepsize; to = op + stepsize; out = out }))

-- The rest of the match, up to `cpy`; the result is the new `op` with the output.
unfoldable pub finish_match : (oend ip cpy : ℕ) → Copied → Run Copied
finish_match oend ip cpy m =
    if ltb oend (cpy + copylength)
    then (do
      fail_if (ltb oend cpy) ip
      m ← securecopy m.from m.to (oend - copylength) m.out
      m ← bytecopy (suc (cpy - m.to)) m.from m.to cpy m.out
      fail_if (cpy == oend) ip
      ok (record { from = m.from; to = cpy; out = m.out }))
    else (do
      m ← securecopy m.from m.to cpy m.out
      ok (record { from = m.from; to = cpy; out = m.out }))

-- What a round of the main loop ends with: the last literals, or a match.
pub record Decoder : Type 0 where
  pub finished : Bool
  pub ip : ℕ
  pub op : ℕ
  pub out : Output

unfoldable pub copy_literals : Input → (iend ip op length : ℕ) → Output → Run Decoder
copy_literals src iend ip op length out =
    let oend = out.size in
    let cpy = op + length in
    fail_if (ltb cpy op) ip
    >> (if ltb oend (cpy + copylength) || ltb iend (ip + length + copylength)
        then (do
          fail_if (ltb oend cpy) ip
          fail_if (not (ip + length == iend)) ip
          out ← copy_in src length ip op out
          ok (record { finished = true; ip = ip; op = cpy; out = out }))
        else (do
          m ← wildcopy_in src (suc length) ip op cpy out
          ok (record { finished = false; ip = m.from - (m.to - cpy); op = cpy; out = m.out })))

unfoldable pub copy_match : Input → (iend ip op token : ℕ) → Output → Run Decoder
copy_match src iend ip op token out = do
  offset ← fetch16 src ip
  fail_if (ltb op offset) (ip + 2)
  l ← get_matchlength src iend (ip + 2) token
  m ← start_match (op - offset) op out
  m ← finish_match out.size l.ip (m.to + l.length - 4) m
  ok (record { finished = false; ip = l.ip; op = m.to; out = m.out })

-- One round of the main loop.
unfoldable pub decode_sequence : Input → (iend ip op : ℕ) → Output → Run Decoder
decode_sequence src iend ip op out = do
  token ← fetch src ip
  l ← get_runlength src iend (ip + 1) token
  d ← copy_literals src iend l.ip op l.length out
  if d.finished then ok d else copy_match src iend d.ip d.op token d.out

-- while (ip < iend)
unfoldable pub decode_loop : Input → (fuel iend ip op : ℕ) → Output → Run Decoder
unfolding decode_sequence copy_match copy_literals get_runlength get_matchlength run_length
    match_length start_match finish_match wildcopy_in securecopy bytecopy fetch16
decode_loop src zero iend ip op out = out_of_fuel
decode_loop src (suc fuel) iend ip op out = elim (ltb ip iend) [
  | true ↦ do
    d ← decode_sequence src iend ip op out
    elim d.finished [ true ↦ ok d | false ↦ decode_loop src fuel iend d.ip d.op d.out ]
  | false ↦ ok (record { finished = true; ip = ip; op = op; out = out })
]

-- `iend`, as a distance: a negative `isize` puts it before the input, and like 0 it stops the loop
-- before the first round.
abbrev pub end_of : ℕ → ℕ
end_of isize = if ltb isize (2 ^ 31) then isize else 0

-- `isize` is the 32-bit pattern of the `int`; the output's size is `maxOutputSize`, not negative. Each
-- round reads a byte, so `iend` and one rounds are enough.
unfoldable pub uncompress_unknown_output_size : Input → (isize : ℕ) → Output → Run Decoder
unfolding decode_loop
uncompress_unknown_output_size src isize out =
    decode_loop src (suc (end_of isize)) (end_of isize) 0 0 out
