-- ===== src/Lz4/Copies.antt =====
-- What the copy loops do: they end, stay inside the buffers when there is room for eight bytes past
-- the end, and leave the copied bytes.
use dumpbin_py_zfs_rescue.Common.{
  ℕ, zero, suc, ◌+◌, ◌-◌, ◌≤◌, ◌<◌, ◌≡◌, ◌⊎◌, inl, inr, Bool-cases, arith, ltb, refl,
}
use dumpbin_py_zfs_rescue.Lz4.Run.{ok, Input, Output, overwrite, copy_in, copy_out}
use dumpbin_py_zfs_rescue.Lz4.Copy.{Copied, wildcopy_in, wildcopy_out, securecopy, bytecopy}

pub overwrite_in :
    (old from : ℕ → ℕ) (d n i : ℕ) → d ≤ i → i < d + n → overwrite old d n from i ≡ from i
unfolding overwrite
overwrite_in old from d n i le lt = ground arith

pub overwrite_out :
    (old from : ℕ → ℕ) (d n i : ℕ) → (i < d) ⊎ (d + n ≤ i) → overwrite old d n from i ≡ old i
unfolding overwrite
overwrite_out old from d n i p = ground arith

pub copy_in_lem :
    (src : Input) (n s d : ℕ) (out : Output)
    → s + n ≤ src.size
    → d + n ≤ out.size
    → copy_in src n s d out
      ≡ ok (record out { byte = overwrite out.byte d n (λ i. src.byte (s + (i - d))) })
unfolding copy_in
copy_in_lem src n s d out fs fd = ground arith

pub copy_out_lem :
    (n s d : ℕ) (out : Output)
    → s + n ≤ out.size
    → d + n ≤ out.size
    → copy_out n s d out
      ≡ ok (record out { byte = overwrite out.byte d n (λ i. out.byte (s + (i - d))) })
unfolding copy_out
copy_out_lem n s d out fs fd = ground arith

-- `m` is left by a copy of input bytes from `s` on to `d` on, up to `e` at least.
pub record CopiedIn (src : Input) (s d e : ℕ) (out : Output) (m : Copied) : Type 0 where
  pub same_size : m.out.size ≡ out.size
  pub reach : e ≤ m.to
  pub gap : m.from + d ≡ m.to + s
  pub kept : (i : ℕ) → i < d → m.out.byte i ≡ out.byte i
  pub copied : (i : ℕ) → d ≤ i → i < m.to → m.out.byte i ≡ src.byte (s + (i - d))

pub wildcopy_in-CopiedIn :
    (src : Input) (fuel s d e : ℕ) (out : Output)
    → e - d < fuel
    → d ≤ e
    → s + (e - d) + 8 ≤ src.size
    → e + 8 ≤ out.size
    → (m : Copied) × (wildcopy_in src fuel s d e out ≡ ok m) × CopiedIn src s d e out m
unfolding wildcopy_in
wildcopy_in-CopiedIn src zero s d e out enough le fs fd = absurd (omega arith)
wildcopy_in-CopiedIn src (suc fuel) s d e out enough le fs fd =
    let from = λ (i : ℕ). src.byte (s + (i - d)) in
    let out' : Output = record out { byte = overwrite out.byte d 8 from } in
    elim (Bool-cases (ltb (d + 8) e)) [
      | inl more ↦
          let (m, eq, c) =
            wildcopy_in-CopiedIn src fuel (s + 8) (d + 8) e out' (ground arith) (ground arith)
              (ground arith) fd in
          (
            m,
            rw (copy_in_lem src 8 s d out (omega arith) (omega arith), more) eq,
            record {
              same_size = c.same_size;
              reach = c.reach;
              gap = omega (arith, c.gap);
              kept = λ i lt. ground (arith, c.kept i, overwrite_out out.byte from d 8 i);
              copied =
                  λ i le lt. ground (arith, c.kept i, c.copied i, overwrite_in out.byte from d 8 i);
            },
          )
      | inr done ↦ (
        record { from = s + 8; to = d + 8; out = out' },
        rw (copy_in_lem src 8 s d out (omega arith) (omega arith), done),
        record {
          same_size = refl;
          reach = ground arith;
          gap = omega arith;
          kept = λ i lt. ground (arith, overwrite_out out.byte from d 8 i);
          copied = λ i le lt. ground (arith, overwrite_in out.byte from d 8 i);
        },
      )
    ]

-- `m` is left by a copy within the output from `s` on to `d` on, up to `e` at least: from a distance of
-- eight on, every new byte is the one that stands that distance before it.
pub record CopiedOut (width s d e : ℕ) (out : Output) (m : Copied) : Type 0 where
  pub same_size : m.out.size ≡ out.size
  pub reach : e ≤ m.to
  pub start : d ≤ m.to
  pub gap : m.from + d ≡ m.to + s
  pub kept : (i : ℕ) → i < d → m.out.byte i ≡ out.byte i
  pub repeats : width ≤ d - s → (i : ℕ) → d ≤ i → i < m.to → m.out.byte i ≡ m.out.byte (i - (d - s))

-- One step of `width` bytes, and then the rest of the loop.
CopiedOut-step :
    (width s d e : ℕ) (out : Output) (m : Copied)
    → 0 < width
    → s ≤ d
    → CopiedOut width
        (s + width)
        (d + width)
        e
        (record out { byte = overwrite out.byte d width (λ i. out.byte (s + (i - d))) })
        m
    → CopiedOut width s d e out m
CopiedOut-step width s d e out m pos le c =
    let from = λ (i : ℕ). out.byte (s + (i - d)) in
    record {
      same_size = c.same_size;
      reach = c.reach;
      start = omega (arith, c.start);
      gap = omega (arith, c.gap);
      kept = λ i lt. ground (arith, c.kept i, overwrite_out out.byte from d width i);
      repeats = λ wide i le' lt. ground (
        arith,
        c.kept i,
        c.kept (i - (d - s)),
        c.repeats (omega arith) i,
        overwrite_in out.byte from d width i,
        overwrite_out out.byte from d width (i - (d - s)),
      );
    }

CopiedOut-done :
    (width s d e : ℕ) (out : Output)
    → e ≤ d
    → CopiedOut width s d e out (record { from = s; to = d; out = out })
CopiedOut-done width s d e out le = record {
  same_size = refl;
  reach = le;
  start = omega arith;
  gap = omega arith;
  kept = λ i lt. refl;
  repeats = λ wide i le' lt. absurd (omega arith);
}

pub wildcopy_out-CopiedOut :
    (fuel s d e : ℕ) (out : Output)
    → e - d < fuel
    → s ≤ d
    → d < e
    → e + 8 ≤ out.size
    → (m : Copied) × (wildcopy_out fuel s d e out ≡ ok m) × CopiedOut 8 s d e out m
unfolding wildcopy_out
wildcopy_out-CopiedOut zero s d e out enough le lt fd = absurd (omega arith)
wildcopy_out-CopiedOut (suc fuel) s d e out enough le lt fd =
    let from = λ (i : ℕ). out.byte (s + (i - d)) in
    let out' : Output = record out { byte = overwrite out.byte d 8 from } in
    let step = copy_out_lem 8 s d out (omega arith) (omega arith) in
    elim (Bool-cases (ltb (d + 8) e)) [
      | inl more ↦
          let (m, eq, c) =
            wildcopy_out-CopiedOut fuel (s + 8) (d + 8) e out' (ground arith) (omega arith)
              (ground arith) fd in
          (m, rw (step, more) eq, CopiedOut-step 8 s d e out m (omega arith) le c)
      | inr done ↦
          let m : Copied = record { from = s + 8; to = d + 8; out = out' } in
          (
            m,
            rw (step, done),
            CopiedOut-step 8 s d e out m (omega arith) le
                (CopiedOut-done 8 (s + 8) (d + 8) e out' (ground arith)),
          )
    ]

pub securecopy-CopiedOut :
    (s d e : ℕ) (out : Output)
    → s ≤ d
    → (d < e → e + 8 ≤ out.size)
    → (m : Copied) × (securecopy s d e out ≡ ok m) × CopiedOut 8 s d e out m
unfolding securecopy
securecopy-CopiedOut s d e out le fd = elim (Bool-cases (ltb d e)) [
  | inl more ↦
      let lt : d < e = ground arith in
      let (m, eq, c) = wildcopy_out-CopiedOut (suc (e - d)) s d e out (omega arith) le lt (fd lt) in
      (m, rw (more, securecopy) eq, c)
  | inr done ↦ (
    record { from = s; to = d; out = out },
    rw (done, securecopy),
    CopiedOut-done 8 s d e out (ground arith),
  )
]

pub bytecopy-CopiedOut :
    (fuel s d e : ℕ) (out : Output)
    → e - d < fuel
    → s ≤ d
    → e ≤ out.size
    → (m : Copied) × (bytecopy fuel s d e out ≡ ok m) × CopiedOut 1 s d e out m
unfolding bytecopy
bytecopy-CopiedOut zero s d e out enough le fd = absurd (omega arith)
bytecopy-CopiedOut (suc fuel) s d e out enough le fd =
    let from = λ (i : ℕ). out.byte (s + (i - d)) in
    let out' : Output = record out { byte = overwrite out.byte d 1 from } in
    elim (Bool-cases (ltb d e)) [
      | inl more ↦
          let lt : d < e = ground arith in
          let (m, eq, c) =
            bytecopy-CopiedOut fuel (s + 1) (d + 1) e out' (omega arith) (omega arith) fd in
          (
            m,
            rw (more, bytecopy) (rw (copy_out_lem 1 s d out (omega arith) (omega arith)) eq),
            CopiedOut-step 1 s d e out m (omega arith) le c,
          )
      | inr done ↦ (
        record { from = s; to = d; out = out },
        rw (done, bytecopy),
        CopiedOut-done 1 s d e out (ground arith),
      )
    ]
