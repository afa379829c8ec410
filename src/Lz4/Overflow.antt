-- ===== src/Lz4/Overflow.antt =====
-- A match near the end of the output, on a 32-bit machine.
use dumpbin_py_zfs_rescue.Common.{
  ℕ, false, get_or, suc, ◌+◌, ◌-◌, ◌%◌, ◌^◌, ◌≤◌, ◌<◌, ◌≡◌, refl, arith, ltb, lt→ltb, le→ltb,
}
use native.Mathlib.Decide.{dec_lt}
use dumpbin_py_zfs_rescue.Lz4.Run.{Run, ok, fault, Input, Output, overwrite, copy_out}
use dumpbin_py_zfs_rescue.Lz4.Copy.{Copied}
use dumpbin_py_zfs_rescue.Lz4.Copies.{copy_out_lem}
use dumpbin_py_zfs_rescue.Lz4.Match.{moved, four_moved}
use dumpbin_py_zfs_rescue.Lz4.Decode.{dec32table}
use dumpbin_py_zfs_rescue.Lz4.Format.{IsBytes, HasLength}
use dumpbin_py_zfs_rescue.Lz4.Block.{distance_at}
use dumpbin_py_zfs_rescue.Lz4.Sequence.{fetch16_lem}
use dumpbin_py_zfs_rescue.Lz4.Accept.{get_matchlength-exact}
use dumpbin_py_zfs_rescue.Lz4.Narrow.{
  sub32, narrow_packet, narrow_wildcopy, narrow_start, narrow_finish, narrow_match,
}

copy_out-fault : (n s d : ℕ) (out : Output) → out.size < d + n → copy_out n s d out ≡ fault
unfolding copy_out
copy_out-fault n s d out past = ground arith

copy_out-fits :
    (n s d : ℕ) (out : Output)
    → s + n ≤ out.size
    → d + n ≤ out.size
    → (out' : Output) × (copy_out n s d out ≡ ok out') × (out'.size ≡ out.size)
copy_out-fits n s d out fs fd = (_, copy_out_lem n s d out fs fd, refl)

-- Eight bytes do not fit where there is room for four.
narrow_wildcopy-fault :
    (fuel s d e : ℕ) (out : Output)
    → s ≤ d
    → d + 4 ≤ out.size
    → out.size < d + 8
    → narrow_wildcopy (suc fuel) s d e out ≡ fault
unfolding narrow_wildcopy narrow_packet
narrow_wildcopy-fault fuel s d e out le room past =
    let out' : Output = record out {
      byte = overwrite out.byte d 4 (λ i. out.byte (s + (i - d)));
    } in
    rw
      (
        copy_out_lem 4 s d out (omega arith) room,
        copy_out-fault 4 (s + 4) (d + 4) out' (omega arith),
      )
      refl

-- The first bytes of a match fit, and `op` is moved by four.
record NarrowStarted (op : ℕ) (out : Output) (r : Run Copied) : Type 0 where
  m : Copied
  returns : r ≡ ok m
  to_eq : m.to ≡ op + 4
  from_le : m.from ≤ op + 4
  same_size : m.out.size ≡ out.size

module _ (off op : ℕ) (out : Output) (le : off ≤ op) (room : op + 8 ≤ out.size)
    (big : out.size < 2 ^ 31) where
  -- Where the second four bytes are read from.
  narrow_back : off < 4 → sub32 (op - off + 4) (get_or dec32table off 0) ≤ op + 4
  narrow_back lt = ground arith

  narrow_start_near :
      off < 4
      → narrow_start (op - off) op out
        ≡ ok (record {
          from = sub32 (op - off + 4) (get_or dec32table off 0);
          to = op + 4;
          out =
              moved 4
                (sub32 (op - off + 4) (get_or dec32table off 0))
                (op + 4)
                (four_moved off op out);
        })
  unfolding narrow_start
  narrow_start_near lt =
      let e : op - (op - off) ≡ off = omega arith in
      let ref = op - off in
      let o1 = moved 1 ref op out in
      let o2 = moved 1 (ref + 1) (op + 1) o1 in
      let o3 = moved 1 (ref + 2) (op + 2) o2 in
      let back = sub32 (ref + 4) (get_or dec32table off 0) in
      let back_room : back + 4 ≤ out.size = omega (arith, narrow_back lt) in
      rw (
        e,
        lt→ltb off 4 lt,
        copy_out_lem 1 ref op out (omega arith) (omega arith),
        copy_out_lem 1 (ref + 1) (op + 1) o1 (omega arith) (omega arith),
        copy_out_lem 1 (ref + 2) (op + 2) o2 (omega arith) (omega arith),
        copy_out_lem 1 (ref + 3) (op + 3) o3 (omega arith) (omega arith),
        copy_out_lem 4 back (op + 4) (four_moved off op out) back_room (omega arith),
      )

  narrow_start_far : 4 ≤ off → NarrowStarted op out (narrow_start (op - off) op out)
  unfolding narrow_start
  narrow_start_far far =
      let ref = op - off in
      let not_near : ltb (op - ref) 4 ≡ false = ground arith in
      let (o1, e1, z1) = copy_out-fits 4 ref op out (omega arith) (omega arith) in
      record {
        m = record { from = ref + 4; to = op + 4; out = o1 };
        returns = rw (not_near, e1) refl;
        to_eq = refl;
        from_le = omega arith;
        same_size = z1;
      }

  narrow_start-Started : NarrowStarted op out (narrow_start (op - off) op out)
  narrow_start-Started = elim (dec_lt off 4) [
    | yes lt ↦ record {
      m = record {
        from = sub32 (op - off + 4) (get_or dec32table off 0);
        to = op + 4;
        out =
            moved 4 (sub32 (op - off + 4) (get_or dec32table off 0)) (op + 4)
              (four_moved off op out);
      };
      returns = narrow_start_near lt;
      to_eq = refl;
      from_le = narrow_back lt;
      same_size = refl;
    }
    | no far ↦ narrow_start_far (omega arith)
  ]

-- The rest of a match that ends inside the output.
narrow_finish-fault :
    (oend ip cpy op : ℕ) (m : Copied)
    → m.from ≤ m.to
    → m.to ≡ op + 4
    → m.out.size ≡ oend
    → op + 8 ≤ oend
    → oend < op + 12
    → op + 4 ≤ cpy
    → cpy ≤ oend
    → narrow_finish oend ip cpy m ≡ fault
unfolding narrow_finish
narrow_finish-fault oend ip cpy op m le to_e size_e room near ge fits =
    rw
      (
        lt→ltb oend (cpy + 8) (omega arith),
        le→ltb oend cpy fits,
        narrow_wildcopy-fault (oend - m.to) m.from m.to (oend - 8) m.out le (omega arith)
            (omega arith),
      )
      refl

module _ (src : Input) (iend : ℕ) (bytes : IsBytes src) (inside : iend ≤ src.size)
    (small : iend < 2 ^ 31) where
  -- On a 32-bit machine a match that starts 8 to 11 bytes before the end of the output, and that ends
  -- inside the output, is copied by a write past the end.
  pub narrow_match-fault :
      (ip op token n q : ℕ) (out : Output)
      → ip + 2 ≤ iend
      → distance_at src ip ≤ op
      → HasLength src iend (token % 16) (ip + 2) n q
      → op + 8 ≤ out.size
      → out.size < op + 12
      → op + n + 4 ≤ out.size
      → out.size < 2 ^ 31
      → narrow_match src iend ip op token out ≡ fault
  unfolding narrow_match
  narrow_match-fault ip op token n q out two in_text has room near fits big =
      let s = narrow_start-Started (distance_at src ip) op out in_text room big in
      rw
        (
          fetch16_lem src ip (omega arith),
          le→ltb op (distance_at src ip) in_text,
          get_matchlength-exact src iend bytes inside small (ip + 2) token n q two has,
          s.returns,
          narrow_finish-fault out.size q (s.m.to + n) op s.m (omega (arith, s.from_le, s.to_eq))
              s.to_eq s.same_size room near (omega (arith, s.to_eq)) (omega (arith, s.to_eq)),
        )
        refl
