-- ===== src/Lz4/Loop.antt =====
-- The main loop of the decoder, round after round.
use dumpbin_py_zfs_rescue.Common.{
  ℕ, zero, suc, ◌+◌, ◌-◌, ◌^◌, ◌≤◌, ◌<◌, ◌≡◌, ◌⊎◌, inl, inr, true, false, refl, ◌∙◌, arith, lt→ltb,
  le→ltb, if◌then◌else◌,
}
use native.Mathlib.Decide.{dec_lt}
use dumpbin_py_zfs_rescue.Lz4.Run.{ok, output_error, Input, Output, ◌>>=◌}
use dumpbin_py_zfs_rescue.Lz4.Decode.{
  Decoder, copy_literals, copy_match, get_runlength, decode_sequence, decode_loop,
  uncompress_unknown_output_size,
}
use dumpbin_py_zfs_rescue.Lz4.Format.{IsBytes}
use dumpbin_py_zfs_rescue.Lz4.Gets.{get_runlength-Gets}
use dumpbin_py_zfs_rescue.Lz4.Lengths.{fetch_lem}
use dumpbin_py_zfs_rescue.Lz4.Block.{stop, last}
use dumpbin_py_zfs_rescue.Lz4.Sequence.{FailsIn, copy_match-Done}
use dumpbin_py_zfs_rescue.Lz4.Literals.{copy_literals-Done}
use dumpbin_py_zfs_rescue.Lz4.Refine.{Decoded, Advanced, Round, fails, ends, goes_on, advance}

module _ (src : Input) (iend : ℕ) (bytes : IsBytes src) (inside : iend ≤ src.size)
    (small : iend < 2 ^ 31) where
  -- A round starts with the token and its run length.
  pub decode_sequence-step :
      (ip op n q : ℕ) (out : Output)
      → ip < iend
      → get_runlength src iend (ip + 1) (src.byte ip) ≡ ok (record { ip = q; length = n })
      → decode_sequence src iend ip op out ≡ (
          copy_literals src iend q op n out >>= λ d.
          if d.finished then ok d else copy_match src iend d.ip d.op (src.byte ip) d.out)
  unfolding decode_sequence
  decode_sequence-step ip op n q out lt e = rw (fetch_lem src ip (omega arith), e)

  decode_sequence-Round :
      (ip op : ℕ) (out : Output)
      → ip < iend
      → out.size < 2 ^ 63
      → Round src iend ip op out (decode_sequence src iend ip op out)
  decode_sequence-Round ip op out lt big =
      let l = get_runlength-Gets src iend bytes inside (ip + 1) (src.byte ip) (omega arith) small in
      let step = decode_sequence-step ip op l.n l.q out lt l.returns in
      elim (copy_literals-Done src iend l.q op l.n out inside) [
        | inl e ↦ fails (l.q, rw (step, e), omega (arith, l.forward), l.within)
        | inr (d, e, done) ↦ elim done.ends [
          | inl (fin, all) ↦ ends d (rw (step, e, fin)) fin (record {
            same_size = done.same_size;
            room = done.room;
            kept = done.kept;
            block = last l.n l.q lt l.reads all done.literals done.op_eq;
          })
          | inr (unfin, at, more, room) ↦
              elim (copy_match-Done src iend d.ip d.op (src.byte ip) d.out bytes inside small
                (omega (arith, done.same_size)) (omega (arith, done.same_size)) (omega arith)) [
                  | inl (k, e', lo, hi) ↦
                      fails (k, rw (step, e, unfin, e'), omega (arith, l.forward, at), hi)
                  | inr (d', e', m) ↦
                      goes_on d' (rw (step, e, unfin, e')) m.unfinished (
                        advance src iend ip op out d d' l.n l.q lt l.reads l.forward done at m more)
                ]
        ]
      ]

  module _ (fuel ip op : ℕ) (out : Output) (lt : ip < iend) where
    decode_loop-fails :
        (k : ℕ)
        → decode_sequence src iend ip op out ≡ output_error k
        → decode_loop src (suc fuel) iend ip op out ≡ output_error k
    unfolding decode_loop
    decode_loop-fails k e = rw (decode_loop, lt→ltb ip iend lt, e)

    pub decode_loop-ends :
        (d : Decoder)
        → decode_sequence src iend ip op out ≡ ok d
        → d.finished ≡ true
        → decode_loop src (suc fuel) iend ip op out ≡ ok d
    unfolding decode_loop
    decode_loop-ends d e fin = simp (decode_loop, lt→ltb ip iend lt, e, fin)

    pub decode_loop-goes_on :
        (d : Decoder)
        → decode_sequence src iend ip op out ≡ ok d
        → d.finished ≡ false
        → decode_loop src (suc fuel) iend ip op out ≡ decode_loop src fuel iend d.ip d.op d.out
    unfolding decode_loop
    decode_loop-goes_on d e unfin = simp (decode_loop, lt→ltb ip iend lt, e, unfin)

  pub decode_loop-stop :
      (fuel ip op : ℕ) (out : Output)
      → iend ≤ ip
      → decode_loop src (suc fuel) iend ip op out
        ≡ ok (record { finished = true; ip = ip; op = op; out = out })
  unfolding decode_loop
  decode_loop-stop fuel ip op out le = rw (decode_loop, le→ltb ip iend le)

  -- The text of the first sequence and that of the others.
  Decoded-on :
      (ip op : ℕ) (out : Output) (d d' : Decoder)
      → Advanced src iend ip op out d
      → Decoded src iend d.ip d.op d.out d'
      → Decoded src iend ip op out d'
  Decoded-on ip op out d d' a t = record {
    same_size = t.same_size ∙ a.same_size;
    room = omega (arith, t.room, a.same_size);
    kept = λ i lt. t.kept i (omega (arith, a.grows)) ∙ a.kept i lt;
    block = a.prepend d'.out.byte d'.op t.kept t.block;
  }

  pub decode_loop-Decoded :
      (fuel ip op : ℕ) (out : Output)
      → iend - ip < fuel
      → ip ≤ iend
      → op ≤ out.size
      → out.size < 2 ^ 63
      → FailsIn ip iend (decode_loop src fuel iend ip op out)
        ⊎ ((d : Decoder) × (decode_loop src fuel iend ip op out ≡ ok d)
            × Decoded src iend ip op out d)
  decode_loop-Decoded zero ip op out enough le room big = absurd (omega arith)
  decode_loop-Decoded (suc fuel) ip op out enough le room big = elim (dec_lt ip iend) [
    | no out_of ↦ inr (
      _,
      decode_loop-stop fuel ip op out (omega arith),
      record {
        same_size = refl;
        room = room;
        kept = λ i lt. refl;
        block = stop (omega arith) refl;
      },
    )
    | yes lt ↦ elim (decode_sequence-Round ip op out lt big) [
      | fails (k, e, lo, hi) ↦ inl (k, decode_loop-fails fuel ip op out lt k e, lo, hi)
      | ends d e fin t ↦ inr (d, decode_loop-ends fuel ip op out lt d e fin, t)
      | goes_on d e unfin a ↦
          let step = decode_loop-goes_on fuel ip op out lt d e unfin in
          elim (decode_loop-Decoded fuel d.ip d.op d.out (omega (arith, a.forward)) a.within
            (omega (arith, a.room, a.same_size)) (omega (arith, a.same_size))) [
              | inl (k, e', lo, hi) ↦ inl (k, step ∙ e', omega (arith, a.forward), hi)
              | inr (d', e', t) ↦ inr (d', step ∙ e', Decoded-on ip op out d d' a t)
            ]
    ]
  ]

-- `LZ4_uncompress_unknownOutputSize` on an input of `isize` bytes, all of which can be read: it
-- returns, and either reports an error behind a position of the input, or leaves the decoded block
-- in the output: its literals and matches are copied as the format describes, but a match of distance
-- 0, which the format does not have, is accepted and may be any bytes. No access is outside a buffer.
pub uncompress-Decoded :
    (src : Input) (isize : ℕ) (out : Output)
    → IsBytes src
    → isize < 2 ^ 31
    → isize ≤ src.size
    → out.size < 2 ^ 63
    → FailsIn 0 isize (uncompress_unknown_output_size src isize out)
      ⊎ ((d : Decoder) × (uncompress_unknown_output_size src isize out ≡ ok d)
          × Decoded src isize 0 0 out d)
unfolding uncompress_unknown_output_size
uncompress-Decoded src isize out bytes small inside big = rw (lt→ltb isize (2 ^ 31) small) (
    decode_loop-Decoded src isize bytes inside small (suc isize) 0 0 out (omega arith) (omega arith)
      (omega arith) big)
