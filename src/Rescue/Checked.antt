-- ===== src/Rescue/Checked.antt =====
-- What `read_block` returns: data of the size that the pointer says, of the checksum that it says.
use dumpbin_py_zfs_rescue.Common.{
  ℕ, ◌^◌, ◌≡◌, inl, inr, refl, sym, ap, ◌∙◌, arith, List, Bool, true, false, Option, none, some,
  ◌&&◌, length, get_or, ltb, Bool-cases, ◌==◌, if◌then◌else◌, eq→==,
}
use dumpbin_py_zfs_rescue.Rescue.Py.{Py, done, raised, ◌>>=◌, done_injective, bind-cases}
use dumpbin_py_zfs_rescue.Rescue.Fletcher.{Sums, fletcher4}
use dumpbin_py_zfs_rescue.Rescue.BlockPtr.{PyBlkptr, is_empty, get_dva}
use dumpbin_py_zfs_rescue.Rescue.Repair.{take}
use dumpbin_py_zfs_rescue.Rescue.Block.{
  check, check_read, fit, lsize_of, deliver, raw_data, read_block,
}
use dumpbin_py_zfs_rescue.Rescue.Delivered.{
  and_true, no_bytes, length-fit, stored, deliver-Delivered, returned,
}

abbrev equals : Sums → List ℕ → Bool
equals s sums =
    (s.a == get_or sums 0 0)
    && (s.b == get_or sums 1 0)
    && (s.c == get_or sums 2 0)
    && (s.d == get_or sums 3 0)

-- The first `psize` bytes have the checksum of the pointer.
pub record HasChecksum (p : PyBlkptr) (raw : List ℕ) : Type 0 where
  pub sums : Sums
  pub sums_e : fletcher4 (take p.psize raw) ≡ done sums
  pub a : sums.a ≡ get_or p.checksum 0 0
  pub b : sums.b ≡ get_or p.checksum 1 0
  pub c : sums.c ≡ get_or p.checksum 2 0
  pub d : sums.d ≡ get_or p.checksum 3 0

has_checksum :
    (s : Sums) (p : PyBlkptr) (raw : List ℕ)
    → fletcher4 (take p.psize raw) ≡ done s
    → equals s p.checksum ≡ true
    → HasChecksum p raw
has_checksum s p raw e same =
    let at = λ (x : ℕ) (i : ℕ). x == get_or p.checksum i 0 in
    let (abc, d) = and_true (at s.a 0 && at s.b 1 && at s.c 2) (at s.d 3) same in
    let (ab, c) = and_true (at s.a 0 && at s.b 1) (at s.c 2) abc in
    let (a, b) = and_true (at s.a 0) (at s.b 1) ab in
    record {
      sums = s;
      sums_e = e;
      a = ground (arith, a);
      b = ground (arith, b);
      c = ground (arith, c);
      d = ground (arith, d);
    }

module _ (inflate : List ℕ → Py (List ℕ)) where
  module _ (read_physical : (offset psize : ℕ) → Py (Option (List ℕ))) (ashift : ℕ) where
    -- What is read from the device.
    abbrev pub wanted : PyBlkptr → ℕ → Py (Option (List ℕ))
    wanted p dvanum =
        read_physical (get_dva p dvanum).offset
          (if ltb p.psize (2 ^ ashift) then 2 ^ ashift else p.psize)

    -- Where data are returned, they were read.
    read_block-cases :
        (p : PyBlkptr) (dvanum : ℕ) (bytes : List ℕ) (ck : Bool)
        → read_block inflate read_physical ashift p dvanum ≡ done (some bytes, ck)
        → (r : Option (List ℕ) × Bool) × (raw_data inflate read_physical ashift p p.embedded
              (get_dva p dvanum).offset
            ≡ done r)
          × (deliver inflate p (lsize_of p p.embedded) r.1 r.0 ≡ done (some bytes, ck))
    unfolding read_block
    read_block-cases p dvanum bytes ck e =
        let dva = get_dva p dvanum in
        elim (Bool-cases (is_empty p)) [
          | inl empty ↦
              let nothing : read_block inflate read_physical ashift p dvanum ≡ done (none, false) =
                rw empty refl in
              absurd (no_bytes false ck bytes (sym nothing ∙ e))
          | inr present ↦ elim (Bool-cases dva.gang) [
            | inl gang ↦
                let failed : read_block inflate read_physical ashift p dvanum ≡ raised =
                  rw (present, gang) refl in
                ground (arith, sym failed ∙ e)
            | inr whole ↦ elim (Bool-cases ((dva.offset == 0) && (p.psize == 0))) [
              | inl nowhere ↦
                  let nothing : read_block inflate read_physical ashift p dvanum
                      ≡ done (none, true) =
                    rw (present, whole, nowhere) refl in
                  absurd (no_bytes true ck bytes (sym nothing ∙ e))
              | inr somewhere ↦
                  bind-cases (raw_data inflate read_physical ashift p p.embedded dva.offset)
                    (λ r. deliver inflate p (lsize_of p p.embedded) r.1 r.0) (some bytes, ck)
                    (sym (rw (present, whole, somewhere) refl) ∙ e)
            ]
          ]
        ]

    -- Data that `read_block` returns have the size that the pointer says, whatever the device delivers
    -- and whatever the decompressors return.
    pub read_block-length :
        (p : PyBlkptr) (dvanum : ℕ) (bytes : List ℕ) (ck : Bool)
        → read_block inflate read_physical ashift p dvanum ≡ done (some bytes, ck)
        → length bytes ≡ lsize_of p p.embedded
    read_block-length p dvanum bytes ck e =
        let lsize = lsize_of p p.embedded in
        let (r, read, delivered) = read_block-cases p dvanum bytes ck e in
        let (d, at, same, flag) =
          returned inflate lsize r.1 (stored inflate p lsize r.0) (deliver inflate p lsize r.1 r.0)
            bytes ck (deliver-Delivered inflate p lsize r.1 r.0) delivered in
        ap (λ xs. length xs) same ∙ length-fit lsize d

    -- The checksum of what was read, where it is right.
    checked :
        (p : PyBlkptr) (raw : Option (List ℕ))
        → p.cksum ≡ 7
        → check_read p raw ≡ done true
        → (bytes : List ℕ) × (raw ≡ some bytes) × HasChecksum p bytes
    unfolding check
    checked p none seven e =
        let failed : check_read p none ≡ raised = rw (eq→== p.cksum 7 seven) refl in
        ground (arith, sym failed ∙ e)
    checked p (some bytes) seven e =
        let (s, sum, flag) =
          bind-cases (fletcher4 (take p.psize bytes)) (λ s. done (equals s p.checksum)) true
            (sym (rw (eq→== p.cksum 7 seven) refl) ∙ e) in
        (bytes, refl, has_checksum s p bytes sum (done_injective flag))

    -- Where `read_block` returns data of a pointer with a fletcher4 checksum that holds no data itself,
    -- and reports no error: the bytes that were read for it have that checksum, and the data are those
    -- bytes, decompressed where the pointer says so, cut or filled up with zeros to their size.
    pub read_block-checked :
        (p : PyBlkptr) (dvanum : ℕ) (bytes : List ℕ)
        → p.embedded ≡ none
        → p.cksum ≡ 7
        → read_block inflate read_physical ashift p dvanum ≡ done (some bytes, true)
        → (raw : List ℕ) × (d : List ℕ) × (wanted p dvanum ≡ done (some raw))
          × HasChecksum p raw
          × (stored inflate p p.lsize (some raw) ≡ some d)
          × (bytes ≡ fit p.lsize d)
    unfolding raw_data
    read_block-checked p dvanum bytes plain_pointer seven e =
        let (r, read, delivered) = read_block-cases p dvanum bytes true e in
        let offset = (get_dva p dvanum).offset in
        let read' : raw_data inflate read_physical ashift p none offset ≡ done r =
          sym (ap (λ x. raw_data inflate read_physical ashift p x offset) plain_pointer) ∙ read in
        let delivered' : deliver inflate p p.lsize r.1 r.0 ≡ done (some bytes, true) =
          sym (ap (λ x. deliver inflate p (lsize_of p x) r.1 r.0) plain_pointer) ∙ delivered in
        let (x, wanted_e, rest) =
          bind-cases (wanted p dvanum) (λ b. check_read p b >>= λ ck. done (b, ck)) r read' in
        let (ck, check_e, pair) = bind-cases (check_read p x) (λ ck. done (x, ck)) r rest in
        let same = done_injective pair in
        let (d, at, fitted_e, flag) =
          returned inflate p.lsize r.1 (stored inflate p p.lsize r.0)
            (deliver inflate p p.lsize r.1 r.0) bytes true
            (deliver-Delivered inflate p p.lsize r.1 r.0) delivered' in
        let (raw, raw_e, has) = checked p x seven (check_e ∙ ap done (ap (λ y. y.1) same ∙ flag)) in
        (
          raw,
          d,
          wanted_e ∙ ap done raw_e,
          has,
          ap (stored inflate p p.lsize) (sym raw_e ∙ ap (λ y. y.0) same) ∙ at,
          fitted_e,
        )
