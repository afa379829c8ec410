-- ===== src/Rescue/Lzjb.antt =====
-- `lzjb_decompress` of zfs/lzjb.py, with a new bytearray for its output.
use dumpbin_py_zfs_rescue.Common.{
  ℕ, zero, suc, ◌+◌, ◌-◌, ◌*◌, ◌/◌, ◌^◌, [], ◌∷◌, ◌++◌, List, true, false, Option, none, some,
  length, ltb, ◌==◌, if◌then◌else◌, bit_and, bit_or,
}
use dumpbin_py_zfs_rescue.Rescue.Py.{Py, done, raised, ◌>>=◌}
use dumpbin_py_zfs_rescue.Rescue.Reader.{item}

-- The local variables of the loop.
pub record State : Type 0 where
  pub pos : ℕ
  pub dpos : ℕ
  pub copymap : ℕ
  pub copymask : ℕ
  pub dst : List ℕ

-- while mlen > 0 and dpos < dlen
unfoldable pub copy : (mlen dlen dpos cpy : ℕ) → List ℕ → Py (List ℕ)
copy zero dlen dpos cpy dst = done dst
copy (suc mlen) dlen dpos cpy dst = elim (ltb dpos dlen) [
  | true ↦ item dst cpy >>= λ x. copy mlen dlen (dpos + 1) (cpy + 1) (dst ++ (x ∷ []))
  | false ↦ done dst
]

-- What a round of the loop ends with: the variables for the next one, or `return None`.
pub data Step : Type 0 where
  goes_on : State → Step
  returns_none : Step

-- A reference: `dpos` moves on by as much as `dst` grows.
unfoldable pub matched : List ℕ → (dlen : ℕ) → State → Py Step
unfolding copy
matched src dlen st = item src st.pos >>= λ hi. item src (st.pos + 1) >>= λ lo.
    let offset = bit_and (bit_or (hi * 2 ^ 8) lo) (2 ^ 10 - 1) in
    if ltb st.dpos offset
    then done returns_none
    else copy (hi / 2 ^ 2 + 3) dlen st.dpos (st.dpos - offset) st.dst >>= λ dst. done (
        goes_on (record st {
          pos = st.pos + 2;
          dpos = st.dpos + (length dst - length st.dst);
          dst = dst;
        }))

-- A byte that stands for itself; where the output is full, nothing is read.
unfoldable pub literal : List ℕ → (dlen : ℕ) → State → Py Step
literal src dlen st =
    if ltb st.dpos dlen
    then (item src st.pos >>= λ x.
        done
          (goes_on (record st { pos = st.pos + 1; dpos = st.dpos + 1; dst = st.dst ++ (x ∷ []) })))
    else done (goes_on st)

-- The mask moves on by a bit; behind the eighth, the next map is read.
unfoldable pub next_map : List ℕ → State → Py State
next_map src st =
    if st.copymask * 2 == 2 ^ 8
    then (item src st.pos >>= λ map.
        done (record st { copymask = 1; copymap = map; pos = st.pos + 1 }))
    else done (record st { copymask = st.copymask * 2 })

abbrev after_map : List ℕ → ℕ → State → Py Step
after_map src dlen st =
    if bit_and st.copymap st.copymask == 0 then literal src dlen st else matched src dlen st

unfoldable pub round : List ℕ → (dlen : ℕ) → State → Py Step
unfolding next_map literal matched
round src dlen st = next_map src st >>= λ st'. after_map src dlen st'

pub data Outcome : Type 0 where
  returns : Option (List ℕ) → Outcome
  fails : Outcome
  out_of_fuel : Outcome

-- while pos < len(src): a byte is read in eight rounds at least.
unfoldable pub loop : List ℕ → (fuel dlen : ℕ) → State → Outcome
unfolding round
loop src zero dlen st = out_of_fuel
loop src (suc fuel) dlen st = elim (ltb st.pos (length src)) [
  | true ↦ elim (round src dlen st) [
    | raised ↦ fails
    | done step ↦ elim step [ returns_none ↦ returns none | goes_on st' ↦ loop src fuel dlen st' ]
  ]
  | false ↦ returns (some st.dst)
]

abbrev pub start_state : State
start_state = record { pos = 0; dpos = 0; copymap = 0; copymask = 2 ^ 7; dst = [] }

unfoldable pub lzjb_decompress : List ℕ → (dlen : ℕ) → Outcome
unfolding loop
lzjb_decompress src dlen = loop src (8 * length src + 2) dlen start_state
