-- ===== src/Lz4/Endian.antt =====
-- The macros that read and write the distance of a match, on machines of both byte orders:
-- `lz4_bswap16`, `LZ4_READ_LITTLEENDIAN_16` and `LZ4_WRITE_LITTLEENDIAN_16` of extractor/lz4.cpp and
-- de.c.
use dumpbin_py_zfs_rescue.Common.{
  ℕ, ◌+◌, ◌*◌, ◌/◌, ◌%◌, ◌^◌, ◌≤◌, ◌<◌, ◌≡◌, ◌⊎◌, refl, ◌∙◌, ap, arith, inl, inr, Bool-cases, ltb,
  bit_or, leb, ◌==◌, if◌then◌else◌,
}
use dumpbin_py_zfs_rescue.Common.Fields.{bit_or-low}
use dumpbin_py_zfs_rescue.Lz4.Run.{
  Run, ok, ◌>>=◌, ◌>>◌, inside, Input, Output, fetch, fetch16, overwrite,
}
use dumpbin_py_zfs_rescue.Lz4.Format.{IsBytes}
use dumpbin_py_zfs_rescue.Lz4.Copies.{overwrite_in, overwrite_out}
use dumpbin_py_zfs_rescue.Lz4.Sequence.{fetch16_lem}

-- `lz4_bswap16(x)`
unfoldable pub lz4_bswap16 : ℕ → ℕ
lz4_bswap16 x = bit_or (x / 2 ^ 8 % 2 ^ 8) (x % 2 ^ 8 * 2 ^ 8) % 2 ^ 16

-- `A16(p)` where the first byte is the most significant.
unfoldable pub a16_big : Input → ℕ → Run ℕ
unfolding fetch
a16_big src p = do hi ← fetch src p; lo ← fetch src (p + 1); ok (hi * 256 + lo)

-- U16 v = A16(p); v = lz4_bswap16(v); of which the distance is `v`.
unfoldable pub fetch16_swapped : Input → ℕ → Run ℕ
unfolding a16_big lz4_bswap16
fetch16_swapped src p = do v ← a16_big src p; ok (lz4_bswap16 v)

-- `A16(p) = v` on machines of the two orders.
unfoldable pub store16 : (p v : ℕ) → Output → Run Output
unfolding overwrite
store16 p v out = do
  inside (leb (p + 2) out.size)
  ok (record out { byte = overwrite out.byte p 2 (λ i. if i == p then v % 256 else v / 256) })

unfoldable pub store16_big : (p v : ℕ) → Output → Run Output
unfolding overwrite
store16_big p v out = do
  inside (leb (p + 2) out.size)
  ok (record out { byte = overwrite out.byte p 2 (λ i. if i == p then v / 256 else v % 256) })

-- U16 v = (U16)(i); v = lz4_bswap16(v); A16(p) = v; before `p += 2`.
unfoldable pub write16_swapped : (p i : ℕ) → Output → Run Output
unfolding store16_big lz4_bswap16
write16_swapped p i out = store16_big p (lz4_bswap16 (i % 2 ^ 16)) out

-- On a little-endian machine.
unfoldable pub write16 : (p v : ℕ) → Output → Run Output
unfolding store16
write16 p v out = store16 p (v % 2 ^ 16) out

bswap16_lem : (x : ℕ) → x < 2 ^ 16 → lz4_bswap16 x ≡ x % 256 * 256 + x / 256
unfolding lz4_bswap16
bswap16_lem x lt = omega (arith, bit_or-low 8 (x / 2 ^ 8 % 2 ^ 8) (x % 2 ^ 8) (omega arith))

-- A big-endian machine reads the distance that a little-endian one does.
pub fetch16_swapped-fetch16 :
    (src : Input) (p : ℕ) → IsBytes src → fetch16_swapped src p ≡ fetch16 src p
unfolding fetch16_swapped fetch16
fetch16_swapped-fetch16 src p bytes =
    let swap =
      bswap16_lem (src.byte p * 256 + src.byte (p + 1)) (omega (arith, bytes p, bytes (p + 1))) in
    let same : lz4_bswap16 (src.byte p * 256 + src.byte (p + 1))
        ≡ src.byte p + src.byte (p + 1) * 256 =
      omega (arith, swap, bytes p, bytes (p + 1)) in
    elim (Bool-cases (ltb p src.size)) [
      | inr past ↦ rw past refl
      | inl in_src ↦ elim (Bool-cases (ltb (p + 1) src.size)) [
        | inr past ↦ rw (in_src, past) refl
        | inl in_src' ↦ rw (in_src, in_src', same) refl
      ]
    ]

-- Machines of the two orders write the same bytes.
pub write16_swapped-write16 : (p v : ℕ) (out : Output) → write16_swapped p v out ≡ write16 p v out
unfolding write16_swapped write16 store16_big store16
write16_swapped-write16 p v out =
    let x = v % 2 ^ 16 in
    let swap = bswap16_lem x (omega arith) in
    let high : lz4_bswap16 x / 256 ≡ x % 256 = omega (arith, swap) in
    let low : lz4_bswap16 x % 256 ≡ x / 256 = omega (arith, swap) in rw (high, low) refl

abbrev pub as_input : Output → Input
as_input out = record { size = out.size; byte = out.byte }

-- The distance that is written can be read back, on machines of the same order or of different ones,
-- and nothing else has changed.
pub fetch16-write16 :
    (p v : ℕ) (out : Output)
    → p + 2 ≤ out.size
    → v < 2 ^ 16
    → (out' : Output) × (write16 p v out ≡ ok out')
      × (fetch16 (as_input out') p ≡ ok v)
      × ((i : ℕ) → (i < p) ⊎ (p + 2 ≤ i) → out'.byte i ≡ out.byte i)
unfolding write16 store16
fetch16-write16 p v out le lt =
    let x = v % 2 ^ 16 in
    let from = λ (i : ℕ). if i == p then x % 256 else x / 256 in
    let out' : Output = record out { byte = overwrite out.byte p 2 from } in
    let first : out'.byte p ≡ v % 256 =
      overwrite_in out.byte from p 2 p (omega arith) (omega arith) ∙ ground arith in
    let second : out'.byte (p + 1) ≡ v / 256 =
      overwrite_in out.byte from p 2 (p + 1) (omega arith) (omega arith) ∙ ground arith in
    (
      out',
      ground arith,
      fetch16_lem (as_input out') p le ∙ ap ok (omega (arith, first, second)),
      λ i h. overwrite_out out.byte from p 2 i h,
    )
