-- ===== src/Lz4/Lengths.antt =====
-- The loops that read the bytes of a length.
use dumpbin_py_zfs_rescue.Common.{
  ℕ, zero, suc, ◌+◌, ◌-◌, ◌*◌, ◌^◌, ◌≤◌, ◌<◌, ◌≡◌, ◌≢◌, ◌⊎◌, inl, inr, refl, ap, ◌∙◌, arith, add64,
  ◌==◌, true,
}
use mathlib.Core.Path.{ap₂}
use native.Mathlib.Decide.{dec_lt, ℕ_discrete}
use dumpbin_py_zfs_rescue.Lz4.Run.{Run, ok, Input, fetch}
use dumpbin_py_zfs_rescue.Lz4.Decode.{Length, run_length, match_length}
use dumpbin_py_zfs_rescue.Lz4.Format.{IsBytes, Extended, none_left, more}

-- The result of a loop that reads the bytes of a length: `n` in all, up to `q`.
pub record ReadsLength (src : Input) (iend ip length : ℕ) (r : Run Length) : Type 0 where
  pub n : ℕ
  pub q : ℕ
  pub returns : r ≡ ok (record { ip = q; length = length + n })
  pub reads : Extended src iend ip n q
  pub forward : ip ≤ q
  pub within : q ≤ iend

pub ==_self : (a : ℕ) → a ≡ 15 → (a == 15) ≡ true
==_self a e = ground arith

pub fetch_lem : (src : Input) (p : ℕ) → p < src.size → fetch src p ≡ ok (src.byte p)
unfolding fetch
fetch_lem src p lt = ground arith

module _ (src : Input) (iend : ℕ) (bytes : IsBytes src) (inside : iend ≤ src.size) where
  Reads_end :
      (ip length : ℕ) (r : Run Length)
      → r ≡ ok (record { ip = ip; length = length })
      → ip ≡ iend
      → ReadsLength src iend ip length r
  Reads_end ip length r e at_end = record {
    n = 0;
    q = ip;
    returns = ground arith;
    reads = none_left (omega arith) refl refl;
    forward = omega arith;
    within = omega arith;
  }

  Reads_last :
      (ip length : ℕ) (r : Run Length)
      → r ≡ ok (record { ip = ip + 1; length = add64 length (src.byte ip) })
      → length + 255 * (iend - ip) < 2 ^ 64
      → ip < iend
      → src.byte ip ≢ 255
      → ReadsLength src iend ip length r
  Reads_last ip length r e small lt ne = record {
    n = src.byte ip;
    q = ip + 1;
    returns = ground (arith, bytes ip);
    reads = Extended.last lt ne refl refl;
    forward = omega arith;
    within = omega arith;
  }

  Reads_more :
      (ip length : ℕ) (r s : Run Length)
      → r ≡ s
      → ip < iend
      → src.byte ip ≡ 255
      → ReadsLength src iend (ip + 1) (length + 255) s
      → ReadsLength src iend ip length r
  Reads_more ip length r s e lt b h = record {
    n = 255 + h.n;
    q = h.q;
    returns = e ∙ h.returns ∙ ground arith;
    reads = more h.n lt b refl h.reads;
    forward = omega (arith, h.forward);
    within = h.within;
  }

  module _ (fuel ip length : ℕ) where
    match_length_end :
        iend ≤ ip
        → match_length src (suc fuel) iend ip length ≡ ok (record { ip = ip; length = length })
    unfolding match_length
    match_length_end le = ground arith

    match_length_last :
        ip < iend
        → src.byte ip ≢ 255
        → match_length src (suc fuel) iend ip length
          ≡ ok (record { ip = ip + 1; length = add64 length (src.byte ip) })
    unfolding match_length
    match_length_last lt ne = ground (arith, fetch_lem src ip)

    match_length_more :
        ip < iend
        → src.byte ip ≡ 255
        → match_length src (suc fuel) iend ip length
          ≡ match_length src fuel iend (ip + 1) (add64 length 255)
    unfolding match_length
    match_length_more lt b = ground (arith, fetch_lem src ip)

    run_length_end :
        (s : ℕ)
        → (iend ≤ ip) ⊎ (s ≢ 255)
        → run_length src (suc fuel) iend ip s length ≡ ok (record { ip = ip; length = length })
    unfolding run_length
    run_length_end s h = ground arith

    run_length-step :
        ip < iend
        → run_length src (suc fuel) iend ip 255 length
          ≡ run_length src fuel iend (ip + 1) (src.byte ip) (add64 length (src.byte ip))
    unfolding run_length
    run_length-step lt = ground (arith, fetch_lem src ip)

  pub match_length-Reads :
      (fuel ip length : ℕ)
      → iend - ip < fuel
      → ip ≤ iend
      → length + 255 * (iend - ip) < 2 ^ 64
      → ReadsLength src iend ip length (match_length src fuel iend ip length)
  match_length-Reads zero ip length enough le small = absurd (omega arith)
  match_length-Reads (suc fuel) ip length enough le small = elim (dec_lt ip iend) [
    | no out ↦ Reads_end ip length _ (match_length_end fuel ip length (omega arith)) (omega arith)
    | yes lt ↦ elim (ℕ_discrete (src.byte ip) 255) [
      | no ne ↦ Reads_last ip length _ (match_length_last fuel ip length lt ne) small lt ne
      | yes b ↦
          let e : add64 length 255 ≡ length + 255 = omega arith in
          Reads_more ip length _ (match_length src fuel iend (ip + 1) (length + 255))
            (match_length_more fuel ip length lt b ∙ ap (match_length src fuel iend (ip + 1)) e) lt
            b
            (match_length-Reads fuel (ip + 1) (length + 255) (omega arith) (omega arith)
              (omega arith))
    ]
  ]

  pub run_length-Reads :
      (fuel ip length : ℕ)
      → iend - ip < fuel
      → ip ≤ iend
      → length + 255 * (iend - ip) < 2 ^ 64
      → ReadsLength src iend ip length (run_length src fuel iend ip 255 length)
  run_length-Reads zero ip length enough le small = absurd (omega arith)
  run_length-Reads (suc zero) ip length enough le small =
      Reads_end ip length _ (run_length_end 0 ip length 255 (inl (omega arith))) (omega arith)
  run_length-Reads (suc (suc fuel)) ip length enough le small = elim (dec_lt ip iend) [
    | no out ↦
        Reads_end ip length _ (run_length_end (suc fuel) ip length 255 (inl (omega arith)))
          (omega arith)
    | yes lt ↦ elim (ℕ_discrete (src.byte ip) 255) [
      | no ne ↦
          Reads_last ip length _
            (run_length-step (suc fuel) ip length lt
              ∙ run_length_end fuel (ip + 1) (add64 length (src.byte ip)) (src.byte ip) (inr ne))
            small lt ne
      | yes b ↦
          let e : add64 length (src.byte ip) ≡ length + 255 = omega arith in
          Reads_more ip length _ (run_length src (suc fuel) iend (ip + 1) 255 (length + 255))
            (run_length-step (suc fuel) ip length lt
              ∙ ap₂ (run_length src (suc fuel) iend (ip + 1)) b e)
            lt b
            (run_length-Reads (suc fuel) (ip + 1) (length + 255) (omega arith) (omega arith)
              (omega arith))
    ]
  ]
