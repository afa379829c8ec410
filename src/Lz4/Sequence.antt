-- ===== src/Lz4/Sequence.antt =====
-- The match of a sequence.
use dumpbin_py_zfs_rescue.Common.{
  ℕ, ◌+◌, ◌-◌, ◌%◌, ◌^◌, ◌≤◌, ◌<◌, ◌≡◌, ◌⊎◌, inl, inr, false, refl, sym, ap, ◌∙◌, arith, le→ltb,
  lt→ltb,
}
use mathlib.Core.Path.{subst}
use native.Mathlib.Decide.{dec_lt, dec_le}
use dumpbin_py_zfs_rescue.Lz4.Run.{Run, ok, output_error, Input, Output, fetch16}
use dumpbin_py_zfs_rescue.Lz4.Copy.{Copied}
use dumpbin_py_zfs_rescue.Lz4.Decode.{Decoder, copy_match, finish_match}
use dumpbin_py_zfs_rescue.Lz4.Periodic.{Repeats-extend}
use dumpbin_py_zfs_rescue.Lz4.Match.{Started, start_match-Started, stretch, stretch_lem}
use dumpbin_py_zfs_rescue.Lz4.Finish.{Finished, Ends, finish_match-Ends}
use dumpbin_py_zfs_rescue.Lz4.Format.{IsBytes, HasLength}
use dumpbin_py_zfs_rescue.Lz4.Gets.{get_matchlength-Gets}
use dumpbin_py_zfs_rescue.Lz4.Lengths.{fetch_lem}
use dumpbin_py_zfs_rescue.Lz4.Block.{distance_at, IsMatch}

-- What a match leaves.
pub record MatchDone (src : Input) (iend ip op token : ℕ) (out : Output) (d : Decoder)
    : Type 0 where
  pub unfinished : d.finished ≡ false
  pub same_size : d.out.size ≡ out.size
  pub n : ℕ
  pub op_eq : d.op ≡ op + n + 4
  pub room : d.op ≤ out.size
  pub in_text : distance_at src ip ≤ op
  pub reads : HasLength src iend (token % 16) (ip + 2) n d.ip
  pub forward : ip + 2 ≤ d.ip
  pub within : d.ip ≤ iend
  pub kept : (i : ℕ) → i < op → d.out.byte i ≡ out.byte i
  pub is_match : IsMatch d.out.byte (distance_at src ip) op (op + n + 4)

-- A failure at a position of the input.
abbrev pub FailsIn : (lo hi : ℕ) → Run Decoder → Type 0
FailsIn lo hi r = (k : ℕ) × (r ≡ output_error k) × (lo < k) × (k ≤ hi)

pub fetch16_lem : (src : Input) (p : ℕ) → p + 2 ≤ src.size → fetch16 src p ≡ ok (distance_at src p)
unfolding fetch16
fetch16_lem src p le = rw (fetch_lem src p (omega arith), fetch_lem src (p + 1) (omega arith))

-- The eight first bytes and the rest of a match make it up.
IsMatch-repeats :
    (off op n : ℕ) (out : Output) (m m' : Copied)
    → off ≤ op
    → Started off op out m
    → Finished (op + n + 4) m m'
    → IsMatch m'.out.byte off op (op + n + 4)
IsMatch-repeats off op n out m m' le s f = elim (dec_lt 0 off) [
  | no none ↦ inl (omega arith)
  | yes pos ↦
      let k = stretch off in
      let wide : 8 ≤ m.to - m.from = omega (arith, s.gap pos, stretch_lem off pos) in
      inr (
        Repeats-extend m'.out.byte off op 8 (op + n + 4) (k - 1) pos le (stretch_lem off pos).1
          (λ i le' lt.
            f.kept i (omega (arith, s.to_eq))
            ∙ s.begins pos i le' lt
            ∙ sym (f.kept (i - off) (omega (arith, s.to_eq))))
          (λ i le' lt.
            f.repeats wide i (omega (arith, s.to_eq)) lt
            ∙ ap (λ (t : ℕ). m'.out.byte (i - t)) (omega (arith, s.gap pos, stretch_lem off pos))))
]

-- A match is refused if it starts before the text, or does not end inside the output.
pub record MatchFails (src : Input) (iend ip op token size : ℕ) (r : Run Decoder) : Type 0 where
  pub fails : FailsIn ip iend r
  pub why :
      (op < distance_at src ip)
      ⊎ ((n : ℕ) × (q : ℕ) × HasLength src iend (token % 16) (ip + 2) n q × (size ≤ op + n + 4))

-- A match is copied, or refused for one of two reasons.
pub copy_match-Cases :
    (src : Input) (iend ip op token : ℕ) (out : Output)
    → IsBytes src
    → iend ≤ src.size
    → iend < 2 ^ 31
    → out.size < 2 ^ 63
    → op + 8 ≤ out.size
    → ip + 2 ≤ iend
    → MatchFails src iend ip op token out.size (copy_match src iend ip op token out)
      ⊎ ((d : Decoder) × (copy_match src iend ip op token out ≡ ok d)
          × MatchDone src iend ip op token out d)
unfolding copy_match
copy_match-Cases src iend ip op token out bytes inside small big room more =
    let off = distance_at src ip in
    let l = get_matchlength-Gets src iend bytes inside (ip + 2) token more small in
    let got = fetch16_lem src ip (omega arith) in
    elim (dec_le off op) [
      | no over ↦ inl (record {
        fails = (ip + 2, rw (got, lt→ltb op off (omega arith)), omega arith, more);
        why = inl (omega arith);
      })
      | yes le ↦
          let (m, e, s) = start_match-Started off op out le room big in
          let cpy = m.to + l.n - 4 in
          let ends =
            subst (λ t. Ends l.q cpy m (finish_match t l.q cpy m)) s.same_size
              (finish_match-Ends l.q cpy m s.from_le (omega (arith, s.to_eq, s.same_size))) in
          elim ends [
            | inl (fails, past) ↦ inl (record {
              fails = (
                l.q,
                rw (got, le→ltb op off le, l.returns, e, fails),
                omega (arith, l.forward),
                l.within,
              );
              why = inr (l.n, l.q, l.reads, omega (arith, s.to_eq, s.same_size));
            })
            | inr (m', e', f) ↦
                let cpy_e : cpy ≡ op + l.n + 4 = omega (arith, s.to_eq) in
                inr (
                  record { finished = false; ip = l.q; op = m'.to; out = m'.out },
                  rw (got, le→ltb op off le, l.returns, e, e'),
                  record {
                    unfinished = refl;
                    same_size = f.same_size ∙ s.same_size;
                    n = l.n;
                    op_eq = f.to_eq ∙ cpy_e;
                    room = omega (arith, f.to_eq, f.inside, f.same_size);
                    in_text = le;
                    reads = l.reads;
                    forward = l.forward;
                    within = l.within;
                    kept = λ i lt. f.kept i (omega (arith, s.to_eq)) ∙ s.kept i lt;
                    is_match =
                        IsMatch-repeats off op l.n out m m' le s
                          (subst (λ t. Finished t m m') cpy_e f);
                  },
                )
          ]
    ]

-- The match of a sequence whose distance is at `ip`, where the output has room for eight bytes: an
-- error is reported at a position of the input behind `ip`, or the distance is inside the text, the
-- match has the length that the token and the bytes behind the distance say, its bytes repeat the
-- text at the distance, and nothing below them has changed. No access is outside a buffer.
pub copy_match-Done :
    (src : Input) (iend ip op token : ℕ) (out : Output)
    → IsBytes src
    → iend ≤ src.size
    → iend < 2 ^ 31
    → out.size < 2 ^ 63
    → op + 8 ≤ out.size
    → ip + 2 ≤ iend
    → FailsIn ip iend (copy_match src iend ip op token out)
      ⊎ ((d : Decoder) × (copy_match src iend ip op token out ≡ ok d)
          × MatchDone src iend ip op token out d)
copy_match-Done src iend ip op token out bytes inside small big room more =
    elim (copy_match-Cases src iend ip op token out bytes inside small big room more) [
      | inl refused ↦ inl refused.fails
      | inr done ↦ inr done
    ]
