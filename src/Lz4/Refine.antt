-- ===== src/Lz4/Refine.antt =====
-- The decoder against the format: what it returns is the text of the block.
use mathlib.Core.Path.{subst}
use dumpbin_py_zfs_rescue.Common.{
  ℕ, ◌+◌, ◌-◌, ◌/◌, ◌≤◌, ◌<◌, ◌≡◌, inl, inr, true, false, sym, ◌∙◌, arith,
}
use dumpbin_py_zfs_rescue.Lz4.Run.{Run, ok, Input, Output}
use dumpbin_py_zfs_rescue.Lz4.Decode.{Decoder}
use dumpbin_py_zfs_rescue.Lz4.Format.{HasLength}
use dumpbin_py_zfs_rescue.Lz4.Block.{Block, IsMatch, distance_at, sequence}
use dumpbin_py_zfs_rescue.Lz4.Literals.{LiteralsDone}
use dumpbin_py_zfs_rescue.Lz4.Sequence.{MatchDone, FailsIn}

-- What is decoded from `ip` and `op` on when the loop ends in `d`.
pub record Decoded (src : Input) (iend ip op : ℕ) (out : Output) (d : Decoder) : Type 0 where
  pub same_size : d.out.size ≡ out.size
  pub room : d.op ≤ out.size
  pub kept : (i : ℕ) → i < op → d.out.byte i ≡ out.byte i
  pub block : Block src iend d.out.byte ip op d.op

-- A round that does not end the loop: whatever text follows, this sequence stands before it.
pub record Advanced (src : Input) (iend ip op : ℕ) (out : Output) (d : Decoder) : Type 0 where
  pub same_size : d.out.size ≡ out.size
  pub room : d.op ≤ out.size
  pub grows : op ≤ d.op
  pub forward : ip < d.ip
  pub within : d.ip ≤ iend
  pub kept : (i : ℕ) → i < op → d.out.byte i ≡ out.byte i
  pub prepend :
      (f : ℕ → ℕ) (fin : ℕ)
      → ((i : ℕ) → i < d.op → f i ≡ d.out.byte i)
      → Block src iend f d.ip d.op fin
      → Block src iend f ip op fin

-- A round fails, ends the loop, or goes on.
pub data Round (src : Input) (iend ip op : ℕ) (out : Output) (r : Run Decoder) : Type 0 where
  fails : FailsIn ip iend r → Round src iend ip op out r
  ends :
      (d : Decoder)
      → r ≡ ok d
      → d.finished ≡ true
      → Decoded src iend ip op out d
      → Round src iend ip op out r
  goes_on :
      (d : Decoder)
      → r ≡ ok d
      → d.finished ≡ false
      → Advanced src iend ip op out d
      → Round src iend ip op out r

IsMatch-agree :
    (f g : ℕ → ℕ) (off p n : ℕ)
    → ((i : ℕ) → i < n → f i ≡ g i)
    → IsMatch g off p n
    → IsMatch f off p n
IsMatch-agree f g off p n same (inl e) = inl e
IsMatch-agree f g off p n same (inr r) =
    inr (λ i le lt. same i lt ∙ r i le lt ∙ sym (same (i - off) (omega arith)))

module _ (src : Input) (iend ip op : ℕ) (out : Output) (d0 d : Decoder) (n q : ℕ) (lt : ip < iend)
    (has : HasLength src iend (src.byte ip / 16) (ip + 1) n q) (forward : ip + 1 ≤ q)
    (done : LiteralsDone src iend q op n out d0) (at : d0.ip ≡ q + n)
    (m : MatchDone src iend d0.ip d0.op (src.byte ip) d0.out d) (more : d0.ip + 8 ≤ iend) where
  pub advance : Advanced src iend ip op out d
  advance =
      let m' = subst (λ t. MatchDone src iend t d0.op (src.byte ip) d0.out d) at m in
      let m'' = subst (λ t. MatchDone src iend (q + n) t (src.byte ip) d0.out d) done.op_eq m' in
      let end_e : d.op ≡ op + n + m''.n + 4 = m''.op_eq in
      record {
        same_size = m.same_size ∙ done.same_size;
        room = omega (arith, m.room, done.same_size);
        grows = omega arith;
        forward = omega (arith, m''.forward);
        within = m.within;
        kept = λ i lt'. m.kept i (omega (arith, done.op_eq)) ∙ done.kept i lt';
        prepend = λ f fin same rest.
            sequence n q m''.n d.ip lt has
              (λ i lt'.
                same (op + i) (omega arith) ∙ m''.kept (op + i) (omega arith) ∙ done.literals i lt')
              (omega (arith, more, at)) m''.in_text m''.reads
              (IsMatch-agree f d.out.byte (distance_at src (q + n)) (op + n) (op + n + m''.n + 4)
                (λ i lt'. same i (omega arith)) m''.is_match)
              (subst (λ t. Block src iend f d.ip t fin) end_e rest);
      }
