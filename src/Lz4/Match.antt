-- ===== src/Lz4/Match.antt =====
-- A match: its first eight bytes, the rest of it, and the whole.
use dumpbin_py_zfs_rescue.Common.{
  ℕ, zero, suc, ◌+◌, ◌-◌, ◌*◌, ◌^◌, ◌≤◌, ◌<◌, ◌≡◌, inl, inr, Bool-cases, refl, sym, ap, ◌∙◌, arith,
  ltb, ◌||◌, ◌==◌, lt→ltb, sub64, get_or, if◌then◌else◌,
}
use dumpbin_py_zfs_rescue.Lz4.Run.{ok, Output, overwrite}
use dumpbin_py_zfs_rescue.Lz4.Copy.{Copied}
use dumpbin_py_zfs_rescue.Lz4.Decode.{start_match, dec32table, dec64table}
use dumpbin_py_zfs_rescue.Lz4.Periodic.{Repeats, Repeats-extend}
use dumpbin_py_zfs_rescue.Lz4.Copies.{overwrite_in, overwrite_out, copy_out_lem}

-- How many times the distance of a match the wide copies go back.
abbrev pub stretch : ℕ → ℕ
stretch off =
    if off == 1
    then 8
    else if off == 2
    then 4
    else if off == 3
    then 3
    else if ltb off 8
    then 2
    else 1

-- That is eight bytes at least, and no more than eight beyond the distance.
pub stretch_lem :
    (off : ℕ)
    → 0 < off
    → (8 ≤ stretch off * off)
      × ((stretch off - 1) * off ≤ 8)
      × (suc (stretch off - 1) * off ≡ stretch off * off)
stretch_lem zero pos = absurd (omega arith)
stretch_lem (suc zero) pos = omega arith
stretch_lem (suc (suc zero)) pos = omega arith
stretch_lem (suc (suc (suc zero))) pos = omega arith
stretch_lem (suc (suc (suc (suc zero)))) pos = omega arith
stretch_lem (suc (suc (suc (suc (suc zero))))) pos = omega arith
stretch_lem (suc (suc (suc (suc (suc (suc zero)))))) pos = omega arith
stretch_lem (suc (suc (suc (suc (suc (suc (suc zero))))))) pos = omega arith
stretch_lem (suc (suc (suc (suc (suc (suc (suc (suc off)))))))) pos = ground arith

-- `m` is left by the first eight bytes of a match that starts `off` bytes back.
pub record Started (off op : ℕ) (out : Output) (m : Copied) : Type 0 where
  pub same_size : m.out.size ≡ out.size
  pub to_eq : m.to ≡ op + 8
  pub from_le : m.from ≤ m.to
  pub kept : (i : ℕ) → i < op → m.out.byte i ≡ out.byte i
  pub gap : 0 < off → m.from + stretch off * off ≡ m.to
  pub begins : 0 < off → Repeats m.out.byte off op (op + 8)

-- The output after one load and one store within it.
abbrev pub moved : (n s d : ℕ) → Output → Output
moved n s d out = record out { byte = overwrite out.byte d n (λ i. out.byte (s + (i - d))) }

abbrev pub four_moved : (off op : ℕ) → Output → Output
four_moved off op out =
    let ref = op - off in
    moved 1 (ref + 3) (op + 3)
      (moved 1 (ref + 2) (op + 2) (moved 1 (ref + 1) (op + 1) (moved 1 ref op out)))

-- The first four bytes, one by one.
four_moved-Repeats :
    (off op : ℕ) (out : Output)
    → 0 < off
    → off ≤ op
    → Repeats (four_moved off op out).byte off op (op + 4)
unfolding overwrite
four_moved-Repeats off op out pos le i le' lt = ground arith

four_moved-kept :
    (off op : ℕ) (out : Output) (i : ℕ) → i < op → (four_moved off op out).byte i ≡ out.byte i
unfolding overwrite
four_moved-kept off op out i lt = ground arith

-- How many times the distance the copy of four bytes goes back.
abbrev stretch_four : ℕ → ℕ
stretch_four off = if off == 1 then 4 else if off == 2 || off == 3 then 2 else 1

-- Where a match that starts `off` bytes before `op` is read from after its first four bytes.
abbrev back_from : (off op : ℕ) → ℕ
back_from off op = sub64 (op - off + 4) (get_or dec32table off 0)

-- What the two tables are for: the copies go back a multiple of the distance, by four and by eight
-- bytes at least.
record Tables (off op : ℕ) : Type 0 where
  back_le : back_from off op ≤ op + 4
  back_four : 0 < off → back_from off op + suc (stretch_four off - 1) * off ≡ op + 4
  far_four : 0 < off → 4 ≤ suc (stretch_four off - 1) * off
  near_four : (stretch_four off - 1) * off ≤ 4
  back_eight :
      0 < off → sub64 (back_from off op) (get_or dec64table off 0) + stretch off * off ≡ op + 8
  from_le : sub64 (back_from off op) (get_or dec64table off 0) ≤ op + 8

tables : (off op : ℕ) → off < 8 → off ≤ op → op < 2 ^ 63 → Tables off op
tables zero op lt le small = ground arith
tables (suc zero) op lt le small = ground arith
tables (suc (suc zero)) op lt le small = ground arith
tables (suc (suc (suc zero))) op lt le small = ground arith
tables (suc (suc (suc (suc zero)))) op lt le small = ground arith
tables (suc (suc (suc (suc (suc zero))))) op lt le small = ground arith
tables (suc (suc (suc (suc (suc (suc zero)))))) op lt le small = ground arith
tables (suc (suc (suc (suc (suc (suc (suc zero))))))) op lt le small = ground arith
tables (suc (suc (suc (suc (suc (suc (suc (suc off)))))))) op lt le small = absurd (omega arith)

module _ (off op : ℕ) (out : Output) (back_in : off ≤ op) (room : op + 8 ≤ out.size)
    (small : out.size < 2 ^ 63) where
  start_match_near :
      off < 8
      → start_match (op - off) op out
        ≡ ok (record {
          from = sub64 (back_from off op) (get_or dec64table off 0);
          to = op + 8;
          out = moved 4 (back_from off op) (op + 4) (four_moved off op out);
        })
  unfolding start_match
  start_match_near lt =
      let e : op - (op - off) ≡ off = omega arith in
      let ref = op - off in
      let o1 = moved 1 ref op out in
      let o2 = moved 1 (ref + 1) (op + 1) o1 in
      let o3 = moved 1 (ref + 2) (op + 2) o2 in
      let back_room : back_from off op + 4 ≤ out.size =
        omega (arith, (tables off op lt back_in (omega arith)).back_le) in
      rw (
        e,
        lt→ltb off 8 lt,
        copy_out_lem 1 ref op out (omega arith) (omega arith),
        copy_out_lem 1 (ref + 1) (op + 1) o1 (omega arith) (omega arith),
        copy_out_lem 1 (ref + 2) (op + 2) o2 (omega arith) (omega arith),
        copy_out_lem 1 (ref + 3) (op + 3) o3 (omega arith) (omega arith),
        copy_out_lem 4 (back_from off op) (op + 4) (four_moved off op out) back_room (omega arith),
      )

  start_match_far :
      8 ≤ off
      → start_match (op - off) op out
        ≡ ok (record { from = op - off + 8; to = op + 8; out = moved 8 (op - off) op out })
  unfolding start_match
  start_match_far le = ground (arith, copy_out_lem 8 (op - off) op out)

  start_near-Started :
      off < 8
      → Started off op out (record {
        from = sub64 (back_from off op) (get_or dec64table off 0);
        to = op + 8;
        out = moved 4 (back_from off op) (op + 4) (four_moved off op out);
      })
  start_near-Started lt =
      let o = four_moved off op out in
      let back = back_from off op in
      let from = λ (i : ℕ). o.byte (back + (i - (op + 4))) in
      let f = overwrite o.byte (op + 4) 4 from in
      let t = tables off op lt back_in (omega arith) in
      record {
        same_size = refl;
        to_eq = refl;
        from_le = t.from_le;
        kept = λ i lt'.
            overwrite_out o.byte from (op + 4) 4 i (inl (omega arith))
            ∙ four_moved-kept off op out i lt';
        gap = t.back_eight;
        begins = λ pos.
            Repeats-extend f off op 4 (op + 8) (stretch_four off - 1) pos back_in t.near_four
              (λ i le' lt'.
                overwrite_out o.byte from (op + 4) 4 i (inl lt')
                ∙ four_moved-Repeats off op out pos back_in i le' lt'
                ∙ sym (overwrite_out o.byte from (op + 4) 4 (i - off) (inl (omega arith))))
              (λ i le' lt'.
                let d = suc (stretch_four off - 1) * off in
                let e : back + (i - (op + 4)) ≡ i - d = omega (arith, t.back_four pos) in
                overwrite_in o.byte from (op + 4) 4 i le' (omega arith)
                ∙ ap o.byte e
                ∙ sym (
                    overwrite_out o.byte from (op + 4) 4 (i - d)
                      (inl (omega (arith, t.far_four pos)))));
      }

  start_far-Started :
      8 ≤ off
      → Started off op out
          (record { from = op - off + 8; to = op + 8; out = moved 8 (op - off) op out })
  start_far-Started le =
      let from = λ (i : ℕ). out.byte (op - off + (i - op)) in
      record {
        same_size = refl;
        to_eq = refl;
        from_le = omega arith;
        kept = λ i lt. overwrite_out out.byte from op 8 i (inl lt);
        gap = λ pos. ground arith;
        begins = λ pos i le' lt.
            let e : op - off + (i - op) ≡ i - off = omega arith in
            overwrite_in out.byte from op 8 i le' lt
            ∙ ap out.byte e
            ∙ sym (overwrite_out out.byte from op 8 (i - off) (inl (omega arith)));
      }

  -- The first eight bytes of a match at a distance inside the text, where the output has room for
  -- eight: they repeat the text at the distance unless that is 0, `ref` stands at a multiple of the
  -- distance behind `op`, and nothing below `op` has changed. No access is outside the output.
  pub start_match-Started :
      (m : Copied) × (start_match (op - off) op out ≡ ok m) × Started off op out m
  start_match-Started = elim (Bool-cases (ltb off 8)) [
    | inl near ↦ (_, start_match_near (ground arith), start_near-Started (ground arith))
    | inr far ↦ (_, start_match_far (ground arith), start_far-Started (ground arith))
  ]
