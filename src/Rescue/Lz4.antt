-- ===== src/Rescue/Lz4.antt =====
-- `lz4zfs_decompress` of zfs/lz4zfs.py, the decoder that the rescue tool calls.
use dumpbin_py_zfs_rescue.Common.{
  ℕ, zero, suc, ◌+◌, ◌-◌, ◌*◌, ◌/◌, ◌%◌, [], ◌∷◌, ◌++◌, List, true, false, Option, none, some,
  length, get_or, ltb, leb, ◌==◌, if◌then◌else◌,
}
use dumpbin_py_zfs_rescue.Pool.Fields.{bytes_at}
use dumpbin_py_zfs_rescue.Lz4.Run.{Input}
use dumpbin_py_zfs_rescue.Lz4.Header.{big_endian32}
use dumpbin_py_zfs_rescue.Rescue.Py.{Py, done, raised, ◌>>=◌}

-- src[p]
unfoldable pub fetch : Input → ℕ → Py ℕ
fetch src p = if ltb p src.size then done (src.byte p) else raised

-- src[ip:ip+n], which ends with `src`.
abbrev pub slice : Input → (ip n : ℕ) → List ℕ
slice src ip n = bytes_at src.byte ip (if ltb src.size (ip + n) then src.size - ip else n)

pub record Read : Type 0 where
  pub length : ℕ
  pub ip : ℕ

-- while (ip < iend) and (s == 255), where `left` is `iend - ip`.
unfoldable pub run_loop : Input → (left s length ip : ℕ) → Py Read
unfolding fetch
run_loop src zero s length ip = done (record { length = length; ip = ip })
run_loop src (suc left) s length ip = elim (s == 255) [
  | true ↦ fetch src ip >>= λ s'. run_loop src left s' (length + s') (ip + 1)
  | false ↦ done (record { length = length; ip = ip })
]

-- while (ip < iend), which ends with a byte that is not 255.
unfoldable pub match_loop : Input → (left length ip : ℕ) → Py Read
unfolding fetch
match_loop src zero length ip = done (record { length = length; ip = ip })
match_loop src (suc left) length ip = fetch src ip >>= λ s. elim (s == 255) [
  | true ↦ match_loop src left (length + s) (ip + 1)
  | false ↦ done (record { length = length + s; ip = ip + 1 })
]

unfoldable pub run_length : Input → (iend token ip : ℕ) → Py Read
unfolding run_loop
run_length src iend token ip =
    if token / 16 == 15
    then run_loop src (iend - ip) 255 15 ip
    else done (record { length = token / 16; ip = ip })

unfoldable pub match_length : Input → (iend token ip : ℕ) → Py Read
unfolding match_loop
match_length src iend token ip =
    if token % 16 == 15
    then match_loop src (iend - ip) 15 ip
    else done (record { length = token % 16; ip = ip })

-- dst[len(dst)-off:len(dst)-off+1], where an index below 0 counts from the end: the byte `off` before
-- the end, none for 0, and for a distance beyond the text some byte of it or none.
abbrev pub byte_before : (off : ℕ) → List ℕ → List ℕ
byte_before off dst =
    let n = length dst in
    if leb off n
    then (if off == 0 then [] else get_or dst (n - off) 0 ∷ [])
    else if off - n == 1
    then []
    else if leb (off - n) n
    then get_or dst (n - (off - n)) 0 ∷ []
    else []

-- for i in range(length): dst += dst[len(dst)-off:len(dst)-off+1]
unfoldable pub copy_loop : (left off : ℕ) → List ℕ → List ℕ
copy_loop zero off dst = dst
copy_loop (suc left) off dst = copy_loop left off (dst ++ byte_before off dst)

pub record State : Type 0 where
  pub ip : ℕ
  pub dst : List ℕ

-- The match behind the literals.
unfoldable pub copy_match : Input → (iend token ip : ℕ) → List ℕ → Py State
unfolding fetch match_length copy_loop
copy_match src iend token ip dst = fetch src ip >>= λ lo. fetch src (ip + 1) >>= λ hi.
    match_length src iend token (ip + 2) >>= λ m.
    done (record { ip = m.ip; dst = copy_loop (m.length + 4) (lo + hi * 256) dst })

-- The body of the loop: a token, literals and a match, also at the end of the block.
unfoldable pub sequence : Input → (iend : ℕ) → State → Py State
unfolding fetch run_length copy_match
sequence src iend st = fetch src st.ip >>= λ token. run_length src iend token (st.ip + 1) >>= λ l.
    copy_match src iend token (l.ip + l.length) (st.dst ++ slice src l.ip l.length)

-- What the function ends with: a value, where an exception inside `try` is `None`, or an exception
-- outside it. Each round reads a byte, so that `iend` rounds and one are enough.
pub data Returned : Type 0 where
  returns : Option (List ℕ) → Returned
  fails : Returned
  out_of_fuel : Returned

-- while (ip < iend)
unfoldable pub decode : Input → (fuel iend : ℕ) → State → Returned
unfolding sequence
decode src zero iend st = out_of_fuel
decode src (suc fuel) iend st = elim (ltb st.ip iend) [
  | true ↦ elim (sequence src iend st) [
    | raised ↦ returns none
    | done st' ↦ decode src fuel iend st'
  ]
  | false ↦ returns (some st.dst)
]

-- The bytes from 4 on are decoded, while `ip` is below the number in the first four.
unfoldable pub lz4zfs_decompress : Input → Returned
unfolding decode
lz4zfs_decompress src =
    let iend = big_endian32 src.byte 0 in
    if ltb src.size 4 then fails else decode src (suc iend) iend (record { ip = 4; dst = [] })
