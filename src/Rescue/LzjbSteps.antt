-- ===== src/Rescue/LzjbSteps.antt =====
-- The steps of a round of `lzjb_decompress`: the mask, a literal, a reference.
use dumpbin_py_zfs_rescue.Common.{
  ℕ, zero, suc, ◌+◌, ◌-◌, ◌*◌, ◌/◌, ◌^◌, ◌≤◌, ◌<◌, ◌≡◌, ◌≢◌, ◌⊎◌, inl, inr, [], ◌∷◌, ◌++◌, List,
  refl, arith, length, ltb, ltb→lt, Bool-cases, eq→==, ne→==, bit_and, bit_or,
}
use dumpbin_py_zfs_rescue.Rescue.Py.{Py, done, raised, ◌>>=◌}
use dumpbin_py_zfs_rescue.Rescue.Reader.{item}
use dumpbin_py_zfs_rescue.Rescue.SameRead.{length-append}
use dumpbin_py_zfs_rescue.Rescue.Lzjb.{
  State, copy, Step, goes_on, returns_none, matched, literal, next_map,
}

-- The mask is a bit of eight, and leaves the map behind `k` more rounds.
pub data IsMask : (k m : ℕ) → Type 0 where
  last_bit : IsMask 1 (2 ^ 7)
  bit_before : {k m : ℕ} → IsMask k (m * 2) → IsMask (suc k) m

IsMask-le : (k m : ℕ) → IsMask k m → m ≤ 128
IsMask-le k m last_bit = omega arith
IsMask-le k m (bit_before {k = k'} h) = omega (arith, IsMask-le k' (m * 2) h)

first_bit : IsMask 8 1
first_bit =
    bit_before
      (bit_before (bit_before (bit_before (bit_before (bit_before (bit_before last_bit))))))

-- Between two rounds.
pub record Holds (dlen : ℕ) (st : State) : Type 0 where
  pub count : st.dpos ≡ length st.dst
  pub room : st.dpos ≤ dlen

-- What a step leaves: `n` bounds the rounds that are left.
pub data Goes (src : List ℕ) (dlen n : ℕ) : Py Step → Type 0 where
  failed : Goes src dlen n raised
  refused : Goes src dlen n (done returns_none)
  moved :
      {st : State} {k : ℕ}
      → Holds dlen st
      → IsMask k st.copymask
      → 8 * (length src - st.pos) + k < n
      → Goes src dlen n (done (goes_on st))

item-cases :
    (xs : List ℕ) (i : ℕ)
    → (item xs i ≡ raised) ⊎ ((x : ℕ) × (item xs i ≡ done x) × (i < length xs))
item-cases [] i = inl refl
item-cases (x ∷ xs) zero = inr (x, refl, omega arith)
item-cases (x ∷ xs) (suc i) = elim (item-cases xs i) [
  | inl e ↦ inl e
  | inr (y, e, lt) ↦ inr (y, e, omega (arith, lt))
]

data Grows (dlen : ℕ) (dst : List ℕ) : Py (List ℕ) → Type 0 where
  no_byte : Grows dlen dst raised
  grown :
      {dst' : List ℕ} → length dst ≤ length dst' → length dst' ≤ dlen → Grows dlen dst (done dst')

further :
    {dlen : ℕ} {dst : List ℕ} (x : ℕ) (r : Py (List ℕ))
    → Grows dlen (dst ++ (x ∷ [])) r
    → Grows dlen dst r
further x raised no_byte = no_byte
further {dlen} {dst} x (done dst') (grown le fits) =
    grown (omega (arith, length-append dst (x ∷ []), le)) fits

copy-Grows :
    (mlen dlen dpos cpy : ℕ) (dst : List ℕ)
    → dpos ≡ length dst
    → dpos ≤ dlen
    → Grows dlen dst (copy mlen dlen dpos cpy dst)
unfolding copy
copy-Grows zero dlen dpos cpy dst e le = grown (omega arith) (omega (arith, e))
copy-Grows (suc mlen) dlen dpos cpy dst e le = elim (Bool-cases (ltb dpos dlen)) [
  | inr full ↦ rw (copy, full) (grown (omega arith) (omega (arith, e)))
  | inl more ↦ elim (item-cases dst cpy) [
    | inl none_there ↦ rw (copy, more, none_there) no_byte
    | inr (x, there, lt) ↦
        let rest =
          copy-Grows mlen dlen (dpos + 1) (cpy + 1) (dst ++ (x ∷ []))
            (omega (arith, e, length-append dst (x ∷ []))) (omega (arith, ltb→lt dpos dlen more)) in
        rw (copy, more, there)
          (further x (copy mlen dlen (dpos + 1) (cpy + 1) (dst ++ (x ∷ []))) rest)
  ]
]

IsMask-cases :
    (k m : ℕ)
    → IsMask k m
    → ((k ≡ 1) × (m * 2 ≡ 256)) ⊎ ((k' : ℕ) × (k ≡ suc k') × IsMask k' (m * 2) × (m * 2 ≢ 256))
IsMask-cases k m last_bit = inl (refl, refl)
IsMask-cases k m (bit_before {k = k'} h) =
    inr (k', refl, h, λ e. omega (arith, e, IsMask-le k' (m * 2) h))

-- The next map costs a byte and leaves eight rounds.
pub data Ready (src : List ℕ) (dlen n : ℕ) : Py State → Type 0 where
  no_map : Ready src dlen n raised
  ready :
      {st : State} {k : ℕ}
      → Holds dlen st
      → IsMask k st.copymask
      → 8 * (length src - st.pos) + k < n
      → Ready src dlen n (done st)

pub next_map-Ready :
    (src : List ℕ) (dlen n k : ℕ) (st : State)
    → Holds dlen st
    → IsMask k st.copymask
    → 8 * (length src - st.pos) + k ≤ n
    → Ready src dlen n (next_map src st)
unfolding next_map
next_map-Ready src dlen n k st h mask le = elim (IsMask-cases k st.copymask mask) [
  | inl (last, full) ↦ elim (item-cases src st.pos) [
    | inl past ↦ rw (eq→== (st.copymask * 2) 256 full, past) no_map
    | inr (map, there, lt) ↦
        rw (eq→== (st.copymask * 2) 256 full, there)
          (ready {k = 8} (record { count = h.count; room = h.room }) first_bit
            (omega (arith, last, lt)))
  ]
  | inr (k', e, mask', ne) ↦
      rw (ne→== (st.copymask * 2) 256 ne)
        (ready {k = k'} (record { count = h.count; room = h.room }) mask' (omega (arith, e)))
]

pub literal-Goes :
    (src : List ℕ) (dlen n k : ℕ) (st : State)
    → Holds dlen st
    → IsMask k st.copymask
    → 8 * (length src - st.pos) + k < n
    → Goes src dlen n (literal src dlen st)
unfolding literal
literal-Goes src dlen n k st h mask lt = elim (Bool-cases (ltb st.dpos dlen)) [
  | inr full ↦ rw full (moved {k = k} h mask lt)
  | inl more ↦ elim (item-cases src st.pos) [
    | inl past ↦ rw (more, past) failed
    | inr (x, there, in_src) ↦
        rw (more, there)
          (moved {k = k}
            (record {
              count = omega (arith, h.count, length-append st.dst (x ∷ []));
              room = omega (arith, ltb→lt st.dpos dlen more);
            })
            mask (omega (arith, lt)))
  ]
]

after_copy :
    (src : List ℕ) (dlen n k : ℕ) (st : State) (r : Py (List ℕ))
    → Holds dlen st
    → IsMask k st.copymask
    → 8 * (length src - st.pos) + k < n
    → Grows dlen st.dst r
    → Goes src dlen n (
        r >>= λ dst. done (
          goes_on (record st {
            pos = st.pos + 2;
            dpos = st.dpos + (length dst - length st.dst);
            dst = dst;
          })))
after_copy src dlen n k st raised h mask lt no_byte = failed
after_copy src dlen n k st (done dst) h mask lt (grown le fits) =
    moved {k = k}
      (record { count = omega (arith, h.count, le); room = omega (arith, h.count, le, fits) }) mask
      (omega (arith, lt))

pub matched-Goes :
    (src : List ℕ) (dlen n k : ℕ) (st : State)
    → Holds dlen st
    → IsMask k st.copymask
    → 8 * (length src - st.pos) + k < n
    → Goes src dlen n (matched src dlen st)
unfolding matched
matched-Goes src dlen n k st h mask lt = elim (item-cases src st.pos) [
  | inl past ↦ rw past failed
  | inr (hi, there, in_src) ↦ elim (item-cases src (st.pos + 1)) [
    | inl past ↦ rw (there, past) failed
    | inr (lo, there', in_src') ↦
        let offset = bit_and (bit_or (hi * 2 ^ 8) lo) (2 ^ 10 - 1) in
        elim (Bool-cases (ltb st.dpos offset)) [
          | inl before ↦ rw (there, there', before) refused
          | inr within ↦
              rw (there, there', within)
                (after_copy src dlen n k st
                  (copy (hi / 2 ^ 2 + 3) dlen st.dpos (st.dpos - offset) st.dst) h mask lt
                  (copy-Grows (hi / 2 ^ 2 + 3) dlen st.dpos (st.dpos - offset) st.dst h.count
                    h.room))
        ]
  ]
]
