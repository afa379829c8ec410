-- ===== src/Rescue/LzjbEnds.antt =====
-- `lzjb_decompress` ends, with no more bytes than it was asked for.
use dumpbin_py_zfs_rescue.Common.{
  ℕ, zero, suc, ◌+◌, ◌-◌, ◌*◌, ◌≤◌, ◌<◌, ◌≢◌, inl, inr, List, none, some, refl, arith, length, ltb,
  Bool-cases, ◌==◌, bit_and, if◌then◌else◌,
}
use dumpbin_py_zfs_rescue.Rescue.Py.{Py, done, raised, ◌>>=◌}
use dumpbin_py_zfs_rescue.Rescue.Lzjb.{
  State, Step, goes_on, returns_none, matched, literal, next_map, round, Outcome, returns, fails,
  out_of_fuel, loop, start_state, lzjb_decompress,
}
use dumpbin_py_zfs_rescue.Rescue.LzjbSteps.{
  IsMask, last_bit, Holds, Goes, failed, refused, moved, Ready, no_map, ready, next_map-Ready,
  literal-Goes, matched-Goes,
}

after_next_map :
    (src : List ℕ) (dlen n : ℕ) (r : Py State)
    → Ready src dlen n r
    → Goes src dlen n (
        r >>= λ st.
        if bit_and st.copymap st.copymask == 0 then literal src dlen st else matched src dlen st)
after_next_map src dlen n raised no_map = failed
after_next_map src dlen n (done st) (ready {k = k} h mask lt) =
    elim (Bool-cases (bit_and st.copymap st.copymask == 0)) [
      | inl clear ↦ rw clear (literal-Goes src dlen n k st h mask lt)
      | inr set ↦ rw set (matched-Goes src dlen n k st h mask lt)
    ]

-- How the loop ends.
pub data Ends (dlen : ℕ) : Outcome → Type 0 where
  refused_it : Ends dlen (returns none)
  stopped : Ends dlen fails
  ended : {dst : List ℕ} → length dst ≤ dlen → Ends dlen (returns (some dst))

after_round :
    (src : List ℕ) (fuel dlen n : ℕ) (r : Py Step)
    → ((st : State) (k : ℕ)
        → Holds dlen st
        → IsMask k st.copymask
        → 8 * (length src - st.pos) + k < fuel
        → Ends dlen (loop src fuel dlen st))
    → Goes src dlen n r
    → n ≤ fuel
    → Ends dlen (elim r [
      | raised ↦ fails
      | done step ↦ elim step [ returns_none ↦ returns none | goes_on st' ↦ loop src fuel dlen st' ]
    ])
after_round src fuel dlen n raised ends failed enough = stopped
after_round src fuel dlen n (done returns_none) ends refused enough = refused_it
after_round src fuel dlen n (done (goes_on st)) ends (moved {k = k} h mask lt) enough =
    ends st k h mask (omega (arith, lt))

loop-Ends :
    (src : List ℕ) (fuel dlen k : ℕ) (st : State)
    → Holds dlen st
    → IsMask k st.copymask
    → 8 * (length src - st.pos) + k < fuel
    → Ends dlen (loop src fuel dlen st)
unfolding loop round
loop-Ends src zero dlen k st h mask lt = absurd (omega arith)
loop-Ends src (suc fuel) dlen k st h mask lt = elim (Bool-cases (ltb st.pos (length src))) [
  | inr past ↦ rw (loop, past) (ended (omega (arith, h.count, h.room)))
  | inl more ↦
      let n = 8 * (length src - st.pos) + k in
      rw (loop, more)
        (after_round src fuel dlen n (round src dlen st)
          (λ st' k' h' mask' lt'. loop-Ends src fuel dlen k' st' h' mask' lt')
          (after_next_map src dlen n (next_map src st)
            (next_map-Ready src dlen n k st h mask (omega arith)))
          (omega arith))
]

-- Whatever its input is, `lzjb_decompress` ends: with an exception, with `None`, or with no more bytes
-- than it was asked for.
pub lzjb_decompress-Ends : (src : List ℕ) (dlen : ℕ) → Ends dlen (lzjb_decompress src dlen)
unfolding lzjb_decompress
lzjb_decompress-Ends src dlen =
    loop-Ends src (8 * length src + 2) dlen 1 start_state
      (record { count = refl; room = omega arith }) last_bit (omega arith)

out_of_fuel_never : (dlen : ℕ) (r : Outcome) → Ends dlen r → r ≢ out_of_fuel
out_of_fuel_never dlen (returns none) refused_it e = ground (arith, e)
out_of_fuel_never dlen fails stopped e = ground (arith, e)
out_of_fuel_never dlen out_of_fuel h e = elim h [ ]
out_of_fuel_never dlen (returns (some dst)) (ended le) e = ground (arith, e)

pub lzjb_decompress_ends : (src : List ℕ) (dlen : ℕ) → lzjb_decompress src dlen ≢ out_of_fuel
lzjb_decompress_ends src dlen =
    out_of_fuel_never dlen (lzjb_decompress src dlen) (lzjb_decompress-Ends src dlen)
