-- ===== src/Lz4/Literals.antt =====
-- The literals of a sequence.
use dumpbin_py_zfs_rescue.Common.{
  ℕ, suc, ◌+◌, ◌-◌, ◌≤◌, ◌<◌, ◌≡◌, ◌⊎◌, inl, inr, true, false, Bool-cases, refl, ap, ◌∙◌, arith,
  ltb, ◌||◌, le→ltb, lt→ltb, eq→==, ne→==,
}
use native.Mathlib.Decide.{dec_le, ℕ_discrete}
use dumpbin_py_zfs_rescue.Lz4.Run.{ok, output_error, Input, Output, overwrite}
use dumpbin_py_zfs_rescue.Lz4.Decode.{Decoder, copy_literals}
use dumpbin_py_zfs_rescue.Lz4.Copies.{
  wildcopy_in-CopiedIn, copy_in_lem, overwrite_in, overwrite_out,
}
use dumpbin_py_zfs_rescue.Lz4.Block.{Literals}

-- What a copy of literals leaves.
pub record LiteralsDone (src : Input) (iend ip op length : ℕ) (out : Output) (d : Decoder)
    : Type 0 where
  pub same_size : d.out.size ≡ out.size
  pub op_eq : d.op ≡ op + length
  pub room : d.op ≤ out.size
  pub kept : (i : ℕ) → i < op → d.out.byte i ≡ out.byte i
  pub literals : Literals d.out.byte src op ip length
  pub ends :
      (d.finished ≡ true) × (ip + length ≡ iend)
      ⊎ (d.finished ≡ false) × (d.ip ≡ ip + length) × (d.ip + 8 ≤ iend) × (d.op + 8 ≤ out.size)

module _ (src : Input) (iend ip op length : ℕ) (out : Output) (inside : iend ≤ src.size) where
  pub literals_final :
      (ltb out.size (op + length + 8) || ltb iend (ip + length + 8)) ≡ true
      → op + length ≤ out.size
      → ip + length ≡ iend
      → (d : Decoder) × (copy_literals src iend ip op length out ≡ ok d)
        × LiteralsDone src iend ip op length out d
  unfolding copy_literals
  literals_final near fits all =
      let from = λ (i : ℕ). src.byte (ip + (i - op)) in
      let out' : Output = record out { byte = overwrite out.byte op length from } in
      (
        record { finished = true; ip = ip; op = op + length; out = out' },
        rw (le→ltb (op + length) op (omega arith), near, le→ltb out.size (op + length) fits)
            (rw
              (eq→== (ip + length) iend all, copy_in_lem src length ip op out (omega arith) fits)),
        record {
          same_size = refl;
          op_eq = refl;
          room = fits;
          kept = λ i lt. overwrite_out out.byte from op length i (inl lt);
          literals = λ i lt.
              overwrite_in out.byte from op length (op + i) (omega arith) (omega arith)
              ∙ ap (λ (t : ℕ). src.byte (ip + t)) (omega arith);
          ends = inl (refl, all);
        },
      )

  pub literals_middle :
      op + length + 8 ≤ out.size
      → ip + length + 8 ≤ iend
      → (d : Decoder) × (copy_literals src iend ip op length out ≡ ok d)
        × LiteralsDone src iend ip op length out d
  unfolding copy_literals
  literals_middle room more =
      let (m, e, c) =
        wildcopy_in-CopiedIn src (suc length) ip op (op + length) out (omega arith) (omega arith)
          (omega arith) (omega arith) in
      (
        record {
          finished = false;
          ip = m.from - (m.to - (op + length));
          op = op + length;
          out = m.out;
        },
        rw (
          le→ltb (op + length) op (omega arith),
          le→ltb out.size (op + length + 8) room,
          le→ltb iend (ip + length + 8) more,
          e,
        ),
        record {
          same_size = c.same_size;
          op_eq = refl;
          room = omega arith;
          kept = c.kept;
          literals = λ i lt.
              c.copied (op + i) (omega arith) (omega (arith, c.reach))
              ∙ ap (λ (t : ℕ). src.byte (ip + t)) (omega arith);
          ends = inr (refl, omega (arith, c.gap, c.reach), omega (arith, c.gap, c.reach), room);
        },
      )

  -- The literals of a sequence, where the input can be read up to `iend`: an error is reported at
  -- their start, or the output has them, and nothing below them has changed. The input then ends with
  -- them, or both buffers have eight bytes more. No access is outside a buffer.
  pub copy_literals-Done :
      (copy_literals src iend ip op length out ≡ output_error ip)
      ⊎ ((d : Decoder) × (copy_literals src iend ip op length out ≡ ok d)
          × LiteralsDone src iend ip op length out d)
  copy_literals-Done =
      elim (Bool-cases (ltb out.size (op + length + 8) || ltb iend (ip + length + 8))) [
        | inr middle ↦ inr (literals_middle (ground arith) (ground arith))
        | inl near ↦ elim (dec_le (op + length) out.size) [
          | no over ↦ inl (
              unfold copy_literals in
              rw (
                le→ltb (op + length) op (omega arith),
                near,
                lt→ltb out.size (op + length) (omega arith),
              ))
          | yes fits ↦ elim (ℕ_discrete (ip + length) iend) [
            | no ne ↦ inl (
                unfold copy_literals in
                rw (le→ltb (op + length) op (omega arith), near, le→ltb out.size (op + length) fits)
                  (rw (ne→== (ip + length) iend ne)))
            | yes all ↦ inr (literals_final near fits all)
          ]
        ]
      ]
