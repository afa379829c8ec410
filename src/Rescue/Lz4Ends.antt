-- ===== src/Rescue/Lz4Ends.antt =====
-- `lz4zfs_decompress` ends for every input: each round moves on in it.
use dumpbin_py_zfs_rescue.Common.{
  ℕ, zero, suc, ◌+◌, ◌-◌, ◌*◌, ◌/◌, ◌%◌, ◌≤◌, ◌<◌, ◌≢◌, inl, inr, arith, [], List, Bool, true,
  false, none, Bool-cases, ltb, ltb→lt, ◌==◌, ◌++◌,
}
use dumpbin_py_zfs_rescue.Lz4.Run.{Input}
use dumpbin_py_zfs_rescue.Lz4.Header.{big_endian32}
use dumpbin_py_zfs_rescue.Rescue.Py.{Py, done, raised, ◌>>=◌}
use dumpbin_py_zfs_rescue.Rescue.Lz4.{
  fetch, slice, Read, run_loop, match_loop, run_length, match_length, copy_loop, copy_match, State,
  sequence, returns, out_of_fuel, decode, lz4zfs_decompress,
}

-- Where a length is read, it ends at `ip` or behind it.
data Reaches (ip : ℕ) : Py Read → Type 0 where
  no_length : Reaches ip raised
  read : {r : Read} → ip ≤ r.ip → Reaches ip (done r)

data Moves (ip : ℕ) : Py State → Type 0 where
  stopped : Moves ip raised
  moved : {st : State} → ip < st.ip → Moves ip (done st)

further : {ip ip' : ℕ} {x : Py Read} → ip ≤ ip' → Reaches ip' x → Reaches ip x
further le no_length = no_length
further le (read h) = read (omega arith)

run_loop-Reaches : (src : Input) (left s length ip : ℕ) → Reaches ip (run_loop src left s length ip)
unfolding run_loop
run_loop-Reaches src zero s length ip = read (omega arith)
run_loop-Reaches src (suc left) s length ip = elim (Bool-cases (s == 255)) [
  | inr other ↦ rw (run_loop, other) (read (omega arith))
  | inl full ↦ elim (Bool-cases (ltb ip src.size)) [
    | inr past ↦ rw (run_loop, full, fetch, past) no_length
    | inl in_src ↦
        rw (run_loop, full, fetch, in_src)
          (further (omega arith)
            (run_loop-Reaches src left (src.byte ip) (length + src.byte ip) (ip + 1)))
  ]
]

by_byte :
    (src : Input) (left length ip : ℕ) (full : Bool)
    → Reaches ip (match_loop src left (length + src.byte ip) (ip + 1))
    → Reaches ip (elim full [
      | true ↦ match_loop src left (length + src.byte ip) (ip + 1)
      | false ↦ done (record { length = length + src.byte ip; ip = ip + 1 })
    ])
by_byte src left length ip true rest = rest
by_byte src left length ip false rest = read (omega arith)

match_loop-Reaches : (src : Input) (left length ip : ℕ) → Reaches ip (match_loop src left length ip)
unfolding match_loop
match_loop-Reaches src zero length ip = read (omega arith)
match_loop-Reaches src (suc left) length ip = elim (Bool-cases (ltb ip src.size)) [
  | inr past ↦ rw (match_loop, fetch, past) no_length
  | inl in_src ↦
      let rest = match_loop-Reaches src left (length + src.byte ip) (ip + 1) in
      rw (match_loop, fetch, in_src)
        (by_byte src left length ip (src.byte ip == 255) (further (omega arith) rest))
]

run_length-Reaches : (src : Input) (iend token ip : ℕ) → Reaches ip (run_length src iend token ip)
unfolding run_length
run_length-Reaches src iend token ip = elim (Bool-cases (token / 16 == 15)) [
  | inl full ↦ rw full (run_loop-Reaches src (iend - ip) 255 15 ip)
  | inr short ↦ rw short (read (omega arith))
]

match_length-Reaches :
    (src : Input) (iend token ip : ℕ) → Reaches ip (match_length src iend token ip)
unfolding match_length
match_length-Reaches src iend token ip = elim (Bool-cases (token % 16 == 15)) [
  | inl full ↦ rw full (match_loop-Reaches src (iend - ip) 15 ip)
  | inr short ↦ rw short (read (omega arith))
]

after_length :
    (src : Input) (ip offset : ℕ) (dst : List ℕ) (x : Py Read)
    → Reaches (ip + 2) x
    → Moves ip (x >>= λ m. done (record { ip = m.ip; dst = copy_loop (m.length + 4) offset dst }))
after_length src ip offset dst raised no_length = stopped
after_length src ip offset dst (done r) (read h) = moved (omega arith)

copy_match-Moves :
    (src : Input) (iend token ip : ℕ) (dst : List ℕ) → Moves ip (copy_match src iend token ip dst)
unfolding copy_match
copy_match-Moves src iend token ip dst = elim (Bool-cases (ltb ip src.size)) [
  | inr past ↦ rw (copy_match, fetch, past) stopped
  | inl in_src ↦ elim (Bool-cases (ltb (ip + 1) src.size)) [
    | inr past ↦ rw (copy_match, fetch, in_src, past) stopped
    | inl in_src' ↦
        rw (copy_match, fetch, in_src, in_src')
          (after_length src ip (src.byte ip + src.byte (ip + 1) * 256) dst
            (match_length src iend token (ip + 2)) (match_length-Reaches src iend token (ip + 2)))
  ]
]

beyond : {ip ip' : ℕ} {x : Py State} → ip ≤ ip' → Moves ip' x → Moves ip x
beyond le stopped = stopped
beyond le (moved h) = moved (omega arith)

after_literals :
    (src : Input) (iend token ip : ℕ) (dst : List ℕ) (x : Py Read)
    → Reaches (ip + 1) x
    → Moves ip
        (x >>= λ l. copy_match src iend token (l.ip + l.length) (dst ++ slice src l.ip l.length))
after_literals src iend token ip dst raised no_length = stopped
after_literals src iend token ip dst (done l) (read h) =
    beyond (omega arith)
      (copy_match-Moves src iend token (l.ip + l.length) (dst ++ slice src l.ip l.length))

sequence-Moves : (src : Input) (iend : ℕ) (st : State) → Moves st.ip (sequence src iend st)
unfolding sequence
sequence-Moves src iend st = elim (Bool-cases (ltb st.ip src.size)) [
  | inr past ↦ rw (sequence, fetch, past) stopped
  | inl in_src ↦
      rw (sequence, fetch, in_src)
        (after_literals src iend (src.byte st.ip) st.ip st.dst
          (run_length src iend (src.byte st.ip) (st.ip + 1))
          (run_length-Reaches src iend (src.byte st.ip) (st.ip + 1)))
]

after_sequence :
    (src : Input) (fuel iend ip : ℕ) (x : Py State)
    → ((st : State) → iend - st.ip < fuel → decode src fuel iend st ≢ out_of_fuel)
    → Moves ip x
    → iend - ip < suc fuel
    → ip < iend
    → elim x [ raised ↦ returns none | done st' ↦ decode src fuel iend st' ] ≢ out_of_fuel
after_sequence src fuel iend ip raised ends stopped enough lt = λ e. ground (arith, e)
after_sequence src fuel iend ip (done st) ends (moved h) enough lt = ends st (omega arith)

decode_ends :
    (src : Input) (fuel iend : ℕ) (st : State)
    → iend - st.ip < fuel
    → decode src fuel iend st ≢ out_of_fuel
unfolding decode
decode_ends src zero iend st enough = absurd (omega arith)
decode_ends src (suc fuel) iend st enough = elim (Bool-cases (ltb st.ip iend)) [
  | inr past ↦ rw (decode, past) (λ e. ground (arith, e))
  | inl lt ↦
      rw (decode, lt)
        (after_sequence src fuel iend st.ip (sequence src iend st)
          (λ st' enough'. decode_ends src fuel iend st' enough') (sequence-Moves src iend st) enough
          (ltb→lt st.ip iend lt))
]

-- Whatever its input is, `lz4zfs_decompress` ends: with `None` or the bytes, or with an exception for an
-- input of fewer than four bytes.
pub lz4zfs_decompress_ends : (src : Input) → lz4zfs_decompress src ≢ out_of_fuel
unfolding lz4zfs_decompress
lz4zfs_decompress_ends src = elim (Bool-cases (ltb src.size 4)) [
  | inl short ↦ rw short (λ e. ground (arith, e))
  | inr enough ↦
      let iend = big_endian32 src.byte 0 in
      rw enough (decode_ends src (suc iend) iend (record { ip = 4; dst = [] }) (omega arith))
]
