-- ===== src/Lz4/Accept.antt =====
-- What the decoder accepts: every block that ends with five literals, as the format asks, where the
-- output has room for its text.
use dumpbin_py_zfs_rescue.Common.{
  ℕ, zero, suc, ◌+◌, ◌-◌, ◌/◌, ◌%◌, ◌^◌, ◌≤◌, ◌<◌, ◌≡◌, inl, inr, sym, ◌∙◌, arith, true, false, ltb,
  ◌||◌, lt→ltb,
}
use mathlib.Core.Path.{subst, ap₂}
use dumpbin_py_zfs_rescue.Lz4.Run.{ok, Input, Output}
use dumpbin_py_zfs_rescue.Lz4.Decode.{
  Decoder, get_runlength, get_matchlength, copy_match, decode_sequence, decode_loop,
  uncompress_unknown_output_size,
}
use dumpbin_py_zfs_rescue.Lz4.Format.{IsBytes, Extended, none_left, more, HasLength, short, long}
use dumpbin_py_zfs_rescue.Lz4.Block.{Block, stop, sequence, distance_at}
use dumpbin_py_zfs_rescue.Lz4.Gets.{get_runlength-Gets, get_matchlength-Gets}
use dumpbin_py_zfs_rescue.Lz4.Literals.{literals_final, literals_middle}
use dumpbin_py_zfs_rescue.Lz4.Sequence.{copy_match-Cases}
use dumpbin_py_zfs_rescue.Lz4.Loop.{
  decode_sequence-step, decode_loop-ends, decode_loop-goes_on, decode_loop-stop,
}
use dumpbin_py_zfs_rescue.Lz4.Unique.{HasLength-unique}

module _ {src : Input} {iend : ℕ} where
  pub Extended-forward : {p n q : ℕ} → Extended src iend p n q → p ≤ q
  Extended-forward (none_left a b c) = omega arith
  Extended-forward (Extended.last a b c d) = omega arith
  Extended-forward (more k a b c e) = omega (arith, Extended-forward e)

  pub HasLength-forward : {bits p n q : ℕ} → HasLength src iend bits p n q → p ≤ q
  HasLength-forward (short a b c) = omega arith
  HasLength-forward (long k a b e) = Extended-forward e

-- The block ends with literals, five at least.
unfoldable pub Closes :
    {src : Input} {iend : ℕ} {f : ℕ → ℕ} {ip op fin : ℕ} → Block src iend f ip op fin → Type 0
Closes (stop a b) = ⊥
Closes (Block.last n q a b c d e) = 5 ≤ n
Closes (sequence n q m r a b c d e l t rest) = Closes rest

-- The block is empty, or literals only, or it ends with five literals at least.
unfoldable pub EndsInLiterals :
    {src : Input} {iend : ℕ} {f : ℕ → ℕ} {ip op fin : ℕ} → Block src iend f ip op fin → Type 0
unfolding Closes
EndsInLiterals (stop a b) = Unit {0}
EndsInLiterals (Block.last n q a b c d e) = Unit {0}
EndsInLiterals (sequence n q m r a b c d e l t rest) = Closes rest

module _ {src : Input} {iend : ℕ} {f : ℕ → ℕ} where
  pub EndsInLiterals-of_Closes :
      {ip op fin : ℕ} (b : Block src iend f ip op fin) → Closes b → EndsInLiterals b
  unfolding EndsInLiterals Closes
  EndsInLiterals-of_Closes (stop a b) h = tt
  EndsInLiterals-of_Closes (Block.last n q a b c d e) h = tt
  EndsInLiterals-of_Closes (sequence n q m r a b c d e l t rest) h = h

  -- A token and the literals are yet to come.
  pub Closes-room :
      {ip op fin : ℕ} (b : Block src iend f ip op fin) → Closes b → (ip + 6 ≤ iend) × (op + 5 ≤ fin)
  unfolding Closes
  Closes-room (stop a b) h = absurd h
  Closes-room (Block.last n q a has c d e) h = omega (arith, HasLength-forward has)
  Closes-room (sequence n q m r a has c d e has' t rest) h =
      omega (arith, Closes-room rest h, HasLength-forward has, HasLength-forward has')

module _ (src : Input) (iend : ℕ) (bytes : IsBytes src) (inside : iend ≤ src.size)
    (small : iend < 2 ^ 31) where
  get_runlength-exact :
      (ip token n q : ℕ)
      → ip ≤ iend
      → HasLength src iend (token / 16) ip n q
      → get_runlength src iend ip token ≡ ok (record { ip = q; length = n })
  get_runlength-exact ip token n q le has =
      let l = get_runlength-Gets src iend bytes inside ip token le small in
      let (n_e, q_e) = HasLength-unique src iend l.reads has in
      l.returns ∙ ap₂ (λ (i k : ℕ). ok (record { ip = i; length = k })) q_e n_e

  pub get_matchlength-exact :
      (ip token n q : ℕ)
      → ip ≤ iend
      → HasLength src iend (token % 16) ip n q
      → get_matchlength src iend ip token ≡ ok (record { ip = q; length = n })
  get_matchlength-exact ip token n q le has =
      let l = get_matchlength-Gets src iend bytes inside ip token le small in
      let (n_e, q_e) = HasLength-unique src iend l.reads has in
      l.returns ∙ ap₂ (λ (i k : ℕ). ok (record { ip = i; length = k })) q_e n_e

  -- The last literals end the loop.
  last_accepted :
      (ip op n q : ℕ) (out : Output)
      → ip < iend
      → HasLength src iend (src.byte ip / 16) (ip + 1) n q
      → q + n ≡ iend
      → op + n ≤ out.size
      → (d : Decoder) × (decode_sequence src iend ip op out ≡ ok d) × (d.finished ≡ true)
  last_accepted ip op n q out lt has all fits =
      let read = get_runlength-exact (ip + 1) (src.byte ip) n q (omega arith) has in
      let step = decode_sequence-step src iend bytes inside small ip op n q out lt read in
      let near : (ltb out.size (op + n + 8) || ltb iend (q + n + 8)) ≡ true = ground arith in
      let (d, e, done) = literals_final src iend q op n out inside near fits all in
      elim done.ends [
        | inl (fin, at) ↦ (d, rw (step, e, fin), fin)
        | inr (unfin, at, room, room') ↦ absurd (omega arith)
      ]

  -- A match that is inside the text and the output is copied.
  match_accepted :
      (ip op token m r : ℕ) (out : Output)
      → distance_at src ip ≤ op
      → HasLength src iend (token % 16) (ip + 2) m r
      → ip + 2 ≤ iend
      → op + m + 5 ≤ out.size
      → op + 8 ≤ out.size
      → out.size < 2 ^ 63
      → (d : Decoder) × (copy_match src iend ip op token out ≡ ok d)
        × (d.finished ≡ false)
        × (d.ip ≡ r)
        × (d.op ≡ op + m + 4)
        × (d.out.size ≡ out.size)
  match_accepted ip op token m r out in_text has two fits room big =
      elim (copy_match-Cases src iend ip op token out bytes inside small big room two) [
        | inl refused ↦ elim refused.why [
          | inl before ↦ absurd (omega arith)
          | inr (m', r', has', past) ↦
              let (m_e, r_e) = HasLength-unique src iend has' has in absurd (omega arith)
        ]
        | inr (d, e, done) ↦
            let (m_e, r_e) = HasLength-unique src iend done.reads has in
            (d, e, done.unfinished, r_e, omega (arith, done.op_eq), done.same_size)
      ]

  -- A sequence with room behind it is decoded, and the loop goes on behind it.
  sequence_accepted :
      (ip op n q m r : ℕ) (out : Output)
      → ip < iend
      → HasLength src iend (src.byte ip / 16) (ip + 1) n q
      → distance_at src (q + n) ≤ op + n
      → HasLength src iend (src.byte ip % 16) (q + n + 2) m r
      → q + n + 8 ≤ iend
      → op + n + m + 9 ≤ out.size
      → out.size < 2 ^ 63
      → (d : Decoder) × (decode_sequence src iend ip op out ≡ ok d)
        × (d.finished ≡ false)
        × (d.ip ≡ r)
        × (d.op ≡ op + n + m + 4)
        × (d.out.size ≡ out.size)
  sequence_accepted ip op n q m r out lt has in_text has' room room' big =
      let read = get_runlength-exact (ip + 1) (src.byte ip) n q (omega arith) has in
      let step = decode_sequence-step src iend bytes inside small ip op n q out lt read in
      let (d, e, done) = literals_middle src iend q op n out inside (omega arith) room in
      elim done.ends [
        | inl (fin, at) ↦ absurd (omega arith)
        | inr (unfin, at, in_room, out_room) ↦
            let (d', e', unfin', at', op_e, size_e) =
              match_accepted d.ip d.op (src.byte ip) m r d.out
                (subst (λ t. distance_at src t ≤ d.op) (sym at) (omega (arith, done.op_eq)))
                (subst (λ t. HasLength src iend (src.byte ip % 16) (t + 2) m r) (sym at) has')
                (omega arith) (omega (arith, done.op_eq, done.same_size))
                (omega (arith, done.same_size)) (omega (arith, done.same_size)) in
            (
              d',
              rw (step, e, unfin, e'),
              unfin',
              at',
              omega (arith, done.op_eq),
              size_e ∙ done.same_size,
            )
      ]

  decode_loop-accepts :
      {f : ℕ → ℕ} (fuel ip op fin : ℕ) (out : Output) (b : Block src iend f ip op fin)
      → EndsInLiterals b
      → iend - ip < fuel
      → fin ≤ out.size
      → out.size < 2 ^ 63
      → (d : Decoder) × (decode_loop src fuel iend ip op out ≡ ok d)
  unfolding EndsInLiterals
  decode_loop-accepts zero ip op fin out b h enough fits big = absurd (omega arith)
  decode_loop-accepts (suc fuel) ip op fin out (stop a b) h enough fits big =
      (_, decode_loop-stop src iend bytes inside small fuel ip op out (omega arith))
  decode_loop-accepts (suc fuel) ip op fin out (Block.last n q lt has all lits fin_e) h enough fits
        big =
      let (d, e, ends) = last_accepted ip op n q out lt has all (omega arith) in
      (d, decode_loop-ends src iend bytes inside small fuel ip op out lt d e ends)
  decode_loop-accepts (suc fuel) ip op fin out
        (sequence n q m r lt has lits two in_text has' mt rest) h enough fits big =
      let later = Closes-room rest h in
      let behind = HasLength-forward has in
      let behind' = HasLength-forward has' in
      let (d, e, unfin, ip_e, op_e, size_e) =
        sequence_accepted ip op n q m r out lt has in_text has' (omega (arith, later))
          (omega (arith, later)) big in
      let (d', e') =
        decode_loop-accepts fuel r (op + n + m + 4) fin d.out rest (EndsInLiterals-of_Closes rest h)
          (omega arith) (omega arith) (omega arith) in
      let at = ap₂ (λ (i j : ℕ). decode_loop src fuel iend i j d.out) ip_e op_e in
      (d', decode_loop-goes_on src iend bytes inside small fuel ip op out lt d e unfin ∙ at ∙ e')

-- `LZ4_uncompress_unknownOutputSize` accepts each block that is empty, that has literals only, or that
-- ends with five literals at least, where the output has room for its text.
pub uncompress-accepts :
    (src : Input) (isize : ℕ) (out : Output) (f : ℕ → ℕ) (fin : ℕ) (b : Block src isize f 0 0 fin)
    → EndsInLiterals b
    → IsBytes src
    → isize < 2 ^ 31
    → isize ≤ src.size
    → fin ≤ out.size
    → out.size < 2 ^ 63
    → (d : Decoder) × (uncompress_unknown_output_size src isize out ≡ ok d)
unfolding uncompress_unknown_output_size
uncompress-accepts src isize out f fin b ends bytes small inside fits big =
    rw (lt→ltb isize (2 ^ 31) small) (
      decode_loop-accepts src isize bytes inside small (suc isize) 0 0 fin out b ends (omega arith)
        fits big)
