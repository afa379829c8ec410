-- ===== src/Lz4/Finish.antt =====
-- The rest of a match, behind its first eight bytes.
use dumpbin_py_zfs_rescue.Common.{
  ℕ, suc, ◌+◌, ◌-◌, ◌≤◌, ◌<◌, ◌≡◌, ◌⊎◌, inl, inr, Bool-cases, refl, sym, ap, ◌∙◌, arith, ltb, ◌==◌,
  le→ltb, lt→ltb, ltb→le, ltb→lt,
}
use dumpbin_py_zfs_rescue.Lz4.Run.{Run, ok, output_error}
use dumpbin_py_zfs_rescue.Lz4.Copy.{Copied}
use dumpbin_py_zfs_rescue.Lz4.Decode.{finish_match}
use dumpbin_py_zfs_rescue.Lz4.Copies.{CopiedOut, securecopy-CopiedOut, bytecopy-CopiedOut}

-- `m'` is left by the rest of a match up to `cpy`, behind `m`.
pub record Finished (cpy : ℕ) (m m' : Copied) : Type 0 where
  pub same_size : m'.out.size ≡ m.out.size
  pub to_eq : m'.to ≡ cpy
  pub inside : cpy ≤ m.out.size
  pub kept : (i : ℕ) → i < m.to → m'.out.byte i ≡ m.out.byte i
  pub repeats :
      8 ≤ m.to - m.from
      → (i : ℕ) → m.to ≤ i
      → i < cpy
      → m'.out.byte i ≡ m'.out.byte (i - (m.to - m.from))

abbrev pub Ends : (ip cpy : ℕ) → Copied → Run Copied → Type 0
Ends ip cpy m r =
    (r ≡ output_error ip) × (m.out.size ≤ cpy) ⊎ ((m' : Copied) × (r ≡ ok m') × Finished cpy m m')

module _ (ip cpy : ℕ) (m : Copied) (le : m.from ≤ m.to) (room : m.to ≤ m.out.size) where
  finish_inside : cpy + 8 ≤ m.out.size → Ends ip cpy m (finish_match m.out.size ip cpy m)
  unfolding finish_match
  finish_inside fits =
      let (k, e, c) = securecopy-CopiedOut m.from m.to cpy m.out le (λ lt. fits) in
      inr (
        record { from = k.from; to = cpy; out = k.out },
        rw (le→ltb m.out.size (cpy + 8) fits, e),
        record {
          same_size = c.same_size;
          to_eq = refl;
          inside = omega arith;
          kept = c.kept;
          repeats = λ wide i le' lt. c.repeats wide i le' (omega (arith, c.reach));
        },
      )

  -- Two copies behind one another keep their distance.
  finish_repeats :
      (k k' : Copied) (e e' : ℕ)
      → CopiedOut 8 m.from m.to e m.out k
      → CopiedOut 1 k.from k.to e' k.out k'
      → 8 ≤ m.to - m.from
      → (i : ℕ) → m.to ≤ i
      → i < k'.to
      → k'.out.byte i ≡ k'.out.byte (i - (m.to - m.from))
  finish_repeats k k' e e' c c' wide i le' lt =
      let d = m.to - m.from in
      let same : k.to - k.from ≡ d = omega (arith, c.gap) in
      elim (Bool-cases (ltb i k.to)) [
        | inl before ↦
            c'.kept i (ltb→lt i k.to before)
            ∙ c.repeats wide i le' (ltb→lt i k.to before)
            ∙ sym (c'.kept (i - d) (omega (arith, ltb→lt i k.to before)))
        | inr behind ↦
            c'.repeats (omega arith) i (ltb→le i k.to behind) lt
            ∙ ap (λ (t : ℕ). k'.out.byte (i - t)) same
      ]

  finish_near_end :
      m.out.size < cpy + 8 → cpy ≤ m.out.size → Ends ip cpy m (finish_match m.out.size ip cpy m)
  unfolding finish_match
  finish_near_end past fits =
      let oend = m.out.size in
      let (k, e, c) = securecopy-CopiedOut m.from m.to (oend - 8) m.out le (λ lt. omega arith) in
      let (k', e', c') =
        bytecopy-CopiedOut (suc (cpy - k.to)) k.from k.to cpy k.out (omega arith)
          (omega (arith, c.gap)) (omega (arith, c.same_size)) in
      elim (Bool-cases (cpy == oend)) [
        | inl full ↦
            inl (rw (lt→ltb oend (cpy + 8) past, le→ltb oend cpy fits, e, e', full), ground arith)
        | inr more ↦ inr (
          record { from = k'.from; to = cpy; out = k'.out },
          rw (lt→ltb oend (cpy + 8) past, le→ltb oend cpy fits, e, e', more),
          record {
            same_size = c'.same_size ∙ c.same_size;
            to_eq = refl;
            inside = fits;
            kept = λ i lt. c'.kept i (omega (arith, c.start)) ∙ c.kept i lt;
            repeats = λ wide i le' lt.
                finish_repeats k k' (oend - 8) cpy c c' wide i le' (omega (arith, c'.reach));
          },
        )
      ]

  -- The bound on the output is kept: the rest of a match fails, or it ends where it should.
  pub finish_match-Ends : Ends ip cpy m (finish_match m.out.size ip cpy m)
  finish_match-Ends = elim (Bool-cases (ltb m.out.size (cpy + 8))) [
    | inr fits ↦ finish_inside (ltb→le m.out.size (cpy + 8) fits)
    | inl past ↦ elim (Bool-cases (ltb m.out.size cpy)) [
      | inr fits ↦ finish_near_end (ltb→lt m.out.size (cpy + 8) past) (ltb→le m.out.size cpy fits)
      | inl over ↦
          inl (unfold finish_match in rw (past, over), omega (arith, ltb→lt m.out.size cpy over))
    ]
  ]
