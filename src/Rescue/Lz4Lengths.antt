-- ===== src/Rescue/Lz4Lengths.antt =====
-- The lengths that `lz4zfs_decompress` reads are those of the format, where the block goes on behind
-- them.
use dumpbin_py_zfs_rescue.Common.{
  ℕ, zero, suc, ◌+◌, ◌-◌, ◌/◌, ◌%◌, ◌≤◌, ◌<◌, ◌≡◌, ◌≢◌, inl, inr, Bool-cases, refl, sym, ap, ◌∙◌,
  arith, true, false, lt→ltb, ◌==◌, eq→==, ne→==,
}
use mathlib.Core.Path.{ap₂}
use dumpbin_py_zfs_rescue.Lz4.Run.{Input}
use dumpbin_py_zfs_rescue.Lz4.Decompress.{rest_of}
use dumpbin_py_zfs_rescue.Lz4.Format.{Extended, none_left, last, more, HasLength, short, long}
use dumpbin_py_zfs_rescue.Lz4.Accept.{Extended-forward}
use dumpbin_py_zfs_rescue.Rescue.Py.{Py, done}
use dumpbin_py_zfs_rescue.Rescue.Lz4.{fetch, Read, run_loop, match_loop, run_length, match_length}

abbrev pub read_of : (length ip : ℕ) → Py Read
read_of length ip = done (record { length = length; ip = ip })

pub fetch_inside : (src : Input) (p : ℕ) → p < src.size → fetch src p ≡ done (src.byte p)
unfolding fetch
fetch_inside src p lt = rw (lt→ltb p src.size lt) refl

module _ (src : Input) (n : ℕ) (inside : n + 4 ≤ src.size) where
  run_loop_other :
      (left s length ip : ℕ) → s ≢ 255 → run_loop src left s length ip ≡ read_of length ip
  unfolding run_loop
  run_loop_other zero s length ip other = refl
  run_loop_other (suc left) s length ip other = rw (run_loop, ne→== s 255 other) refl

  -- The bytes that add to the length of the literals.
  run_loop_reads :
      (left length ip p k q : ℕ)
      → ip ≡ 4 + p
      → Extended (rest_of src 4) n p k q
      → q + 4 ≤ n
      → q ≤ p + left
      → run_loop src left 255 length ip ≡ read_of (length + k) (4 + q)
  unfolding run_loop
  run_loop_reads zero length ip p k q e (none_left a b c) room le = absurd (omega arith)
  run_loop_reads zero length ip p k q e (last lt other k_e q_e) room le = absurd (omega arith)
  run_loop_reads zero length ip p k q e (more k' lt full k_e x) room le =
      absurd (omega (arith, Extended-forward x))
  run_loop_reads (suc left) length ip p k q e (none_left a b c) room le = absurd (omega arith)
  run_loop_reads (suc left) length ip p k q e (last lt other k_e q_e) room le =
      let at : src.byte ip ≡ src.byte (4 + p) = ap src.byte e in
      rw (run_loop, fetch_inside src ip (omega arith))
        (run_loop_other left (src.byte ip) (length + src.byte ip) (ip + 1) (λ z. other (sym at ∙ z))
          ∙ ap₂ (λ (l i : ℕ). read_of l i) (omega (arith, at, k_e)) (omega (arith, e, q_e)))
  run_loop_reads (suc left) length ip p k q e (more k' lt full k_e x) room le =
      let at : src.byte ip ≡ 255 = ap src.byte e ∙ full in
      rw (run_loop, fetch_inside src ip (omega arith), at)
        (run_loop_reads left (length + 255) (ip + 1) (p + 1) k' q (omega (arith, e)) x room
            (omega arith)
          ∙ ap (λ (l : ℕ). read_of l (4 + q)) (omega (arith, k_e)))

  pub run_length_reads :
      (token ip p k q : ℕ)
      → ip ≡ 4 + p
      → HasLength (rest_of src 4) n (token / 16) p k q
      → q + 4 ≤ n
      → run_length src n token ip ≡ read_of k (4 + q)
  unfolding run_length
  run_length_reads token ip p k q e (short ne k_e q_e) room =
      rw (ne→== (token / 16) 15 ne)
        (ap₂ (λ (l i : ℕ). read_of l i) (omega (arith, k_e)) (omega (arith, e, q_e)))
  run_length_reads token ip p k q e (long k' full k_e x) room = rw (eq→== (token / 16) 15 full) (
      run_loop_reads (n - ip) 15 ip p k' q e x room (omega (arith, e, Extended-forward x))
      ∙ ap (λ (l : ℕ). read_of l (4 + q)) (omega (arith, k_e)))

  match_loop_step :
      (left length ip : ℕ)
      → ip < src.size
      → match_loop src (suc left) length ip ≡ elim (src.byte ip == 255) [
        | true ↦ match_loop src left (length + src.byte ip) (ip + 1)
        | false ↦ read_of (length + src.byte ip) (ip + 1)
      ]
  unfolding match_loop
  match_loop_step left length ip lt = rw (match_loop, fetch_inside src ip lt) refl

  -- The bytes that add to the length of a match.
  match_loop_reads :
      (left length ip p k q : ℕ)
      → ip ≡ 4 + p
      → Extended (rest_of src 4) n p k q
      → q + 4 ≤ n
      → q ≤ p + left
      → match_loop src left length ip ≡ read_of (length + k) (4 + q)
  unfolding match_loop
  match_loop_reads zero length ip p k q e (none_left a b c) room le = absurd (omega arith)
  match_loop_reads zero length ip p k q e (last lt other k_e q_e) room le = absurd (omega arith)
  match_loop_reads zero length ip p k q e (more k' lt full k_e x) room le =
      absurd (omega (arith, Extended-forward x))
  match_loop_reads (suc left) length ip p k q e (none_left a b c) room le = absurd (omega arith)
  match_loop_reads (suc left) length ip p k q e (last lt other k_e q_e) room le =
      let at : src.byte ip ≡ src.byte (4 + p) = ap src.byte e in
      match_loop_step left length ip (omega arith)
      ∙ rw (ne→== (src.byte ip) 255 (λ z. other (sym at ∙ z)))
          (ap₂ (λ (l i : ℕ). read_of l i) (omega (arith, at, k_e)) (omega (arith, e, q_e)))
  match_loop_reads (suc left) length ip p k q e (more k' lt full k_e x) room le =
      let at : src.byte ip ≡ 255 = ap src.byte e ∙ full in
      match_loop_step left length ip (omega arith)
      ∙ rw (eq→== (src.byte ip) 255 at) (
          match_loop_reads left (length + src.byte ip) (ip + 1) (p + 1) k' q (omega (arith, e)) x
            room (omega arith)
          ∙ ap (λ (l : ℕ). read_of l (4 + q)) (omega (arith, k_e, at)))

  pub match_length_reads :
      (token ip p k q : ℕ)
      → ip ≡ 4 + p
      → HasLength (rest_of src 4) n (token % 16) p k q
      → q + 4 ≤ n
      → match_length src n token ip ≡ read_of k (4 + q)
  unfolding match_length
  match_length_reads token ip p k q e (short ne k_e q_e) room =
      rw (ne→== (token % 16) 15 ne)
        (ap₂ (λ (l i : ℕ). read_of l i) (omega (arith, k_e)) (omega (arith, e, q_e)))
  match_length_reads token ip p k q e (long k' full k_e x) room = rw (eq→== (token % 16) 15 full) (
      match_loop_reads (n - ip) 15 ip p k' q e x room (omega (arith, e, Extended-forward x))
      ∙ ap (λ (l : ℕ). read_of l (4 + q)) (omega (arith, k_e)))

  -- Behind the end of the block no length is read.
  pub match_length_past :
      (token ip : ℕ) → n ≤ ip → (k : ℕ) × (match_length src n token ip ≡ read_of k ip)
  unfolding match_length match_loop
  match_length_past token ip past = elim (Bool-cases (token % 16 == 15)) [
    | inr few ↦ (token % 16, rw few refl)
    | inl full ↦ let none : n - ip ≡ 0 = omega arith in (15, rw (full, none) refl)
  ]
