-- ===== src/Rescue/Fletcher.antt =====
-- `fletcher4` of zfs/blockptr.py, the checksum of a block.
use dumpbin_py_zfs_rescue.Common.{
  ℕ, ◌+◌, ◌-◌, ◌*◌, ◌%◌, ◌^◌, ◌<◌, ◌≡◌, ◌≢◌, refl, sym, ap, ◌∙◌, arith, inl, inr, Bool-cases, [],
  ◌∷◌, ◌++◌, List, length, ◌==◌, if◌then◌else◌, eq→==, ne→==, u64, add64,
}
use native.Mathlib.Decide.{dec_lt}
use dumpbin_py_zfs_rescue.Rescue.Py.{Py, done, raised, done_injective}

pub record Sums : Type 0 where
  pub a : ℕ
  pub b : ℕ
  pub c : ℕ
  pub d : ℕ

-- struct.unpack("<I", data[i*4:(i+1)*4]) for each `i`, of a length that 4 divides.
abbrev pub words : List ℕ → List ℕ
words (w ∷ (x ∷ (y ∷ (z ∷ bytes)))) = (w + x * 2 ^ 8 + y * 2 ^ 16 + z * 2 ^ 24) ∷ words bytes
words [] = []
words (w ∷ []) = []
words (w ∷ (x ∷ [])) = []
words (w ∷ (x ∷ (y ∷ []))) = []

-- a += v; b += a; c += b; d += c
abbrev pub add_word : Sums → ℕ → Sums
add_word s v = record {
  a = s.a + v;
  b = s.b + (s.a + v);
  c = s.c + (s.b + (s.a + v));
  d = s.d + (s.c + (s.b + (s.a + v)));
}

unfoldable pub sums : Sums → List ℕ → Sums
sums s [] = s
sums s (v ∷ vs) = sums (add_word s v) vs

abbrev pub masked : Sums → Sums
masked s = record { a = u64 s.a; b = u64 s.b; c = u64 s.c; d = u64 s.d }

abbrev pub zeros : Sums
zeros = record { a = 0; b = 0; c = 0; d = 0 }

-- `data + ([0]*e)` of an array of bytes and a list is a `TypeError`; it is evaluated where the length is
-- no multiple of 4.
unfoldable pub fletcher4 : List ℕ → Py Sums
unfolding sums
fletcher4 bytes =
    if (4 - length bytes % 4) % 4 == 0 then done (masked (sums zeros (words bytes))) else raised

-- The checksum as a machine computes it, in words of 64 bits.
abbrev pub add_word64 : Sums → ℕ → Sums
add_word64 s v =
    let a = add64 s.a v in
    let b = add64 s.b a in let c = add64 s.c b in record { a = a; b = b; c = c; d = add64 s.d c }

abbrev pub sums64 : Sums → List ℕ → Sums
sums64 s [] = s
sums64 s (v ∷ vs) = sums64 (add_word64 s v) vs

masked-add_word : (s : Sums) (v : ℕ) → add_word64 (masked s) v ≡ masked (add_word s v)
masked-add_word s v =
    let t = add_word64 (masked s) v in
    let t' = masked (add_word s v) in
    let ea : t.a ≡ t'.a = omega arith in
    let eb : t.b ≡ t'.b = omega arith in
    let ec : t.c ≡ t'.c = omega arith in
    let ed : t.d ≡ t'.d = omega arith in λ i. record { a = ea i; b = eb i; c = ec i; d = ed i }

masked-sums : (s : Sums) (vs : List ℕ) → masked (sums s vs) ≡ sums64 (masked s) vs
unfolding sums
masked-sums s [] = refl
masked-sums s (v ∷ vs) =
    masked-sums (add_word s v) vs ∙ ap (λ t. sums64 t vs) (sym (masked-add_word s v))

-- The checksum of bytes whose count 4 divides is that of a machine that wraps around at 64 bits in each
-- step, though the sums are masked at the end only; of any other count it raises an exception.
pub fletcher4-sums64 :
    (bytes : List ℕ)
    → fletcher4 bytes
      ≡ (if length bytes % 4 == 0 then done (sums64 zeros (words bytes)) else raised)
unfolding fletcher4
fletcher4-sums64 bytes = elim (dec_lt 0 (length bytes % 4)) [
  | yes some_rest ↦
      rw
        (
          ne→== ((4 - length bytes % 4) % 4) 0 (λ e. omega arith),
          ne→== (length bytes % 4) 0 (λ e. omega arith),
        )
        refl
  | no none_left ↦
      rw
        (
          eq→== ((4 - length bytes % 4) % 4) 0 (omega arith),
          eq→== (length bytes % 4) 0 (omega arith),
          masked-sums zeros (words bytes),
        )
        refl
]

abbrev sum : List ℕ → ℕ
sum [] = 0
sum (v ∷ vs) = v + sum vs

sums-a : (s : Sums) (vs : List ℕ) → (sums s vs).a ≡ s.a + sum vs
unfolding sums
sums-a s [] = omega arith
sums-a s (v ∷ vs) = omega (arith, sums-a (add_word s v) vs)

sum-append : (xs ys : List ℕ) → sum (xs ++ ys) ≡ sum xs + sum ys
sum-append [] ys = omega arith
sum-append (x ∷ xs) ys = omega (arith, sum-append xs ys)

sums64_differ :
    (xs ys : List ℕ) (v w : ℕ)
    → v < 2 ^ 32
    → w < 2 ^ 32
    → v ≢ w
    → sums64 zeros (xs ++ (v ∷ ys)) ≢ sums64 zeros (xs ++ (w ∷ ys))
sums64_differ xs ys v w small small' differ e =
    let same : u64 (sums zeros (xs ++ (v ∷ ys))).a ≡ u64 (sums zeros (xs ++ (w ∷ ys))).a =
      ap (λ t. t.a)
        (masked-sums zeros (xs ++ (v ∷ ys)) ∙ e ∙ sym (masked-sums zeros (xs ++ (w ∷ ys)))) in
    differ (
      omega (
        arith,
        same,
        sums-a zeros (xs ++ (v ∷ ys)),
        sums-a zeros (xs ++ (w ∷ ys)),
        sum-append xs (v ∷ ys),
        sum-append xs (w ∷ ys),
      ))

-- Data of whole words of 32 bits that differ in one word have different checksums.
pub fletcher4_differs :
    (bytes bytes' xs ys : List ℕ) (v w : ℕ)
    → length bytes % 4 ≡ 0
    → words bytes ≡ xs ++ (v ∷ ys)
    → words bytes' ≡ xs ++ (w ∷ ys)
    → v < 2 ^ 32
    → w < 2 ^ 32
    → v ≢ w
    → fletcher4 bytes ≢ fletcher4 bytes'
fletcher4_differs bytes bytes' xs ys v w whole at at' small small' differ e =
    let there : fletcher4 bytes ≡ done (sums64 zeros (xs ++ (v ∷ ys))) =
      fletcher4-sums64 bytes ∙ rw (eq→== (length bytes % 4) 0 whole, at) refl in
    elim (Bool-cases (length bytes' % 4 == 0)) [
      | inl even ↦
          let there' : fletcher4 bytes' ≡ done (sums64 zeros (xs ++ (w ∷ ys))) =
            fletcher4-sums64 bytes' ∙ rw (even, at') refl in
          sums64_differ xs ys v w small small' differ (done_injective (sym there ∙ e ∙ there'))
      | inr odd ↦
          let there' : fletcher4 bytes' ≡ raised = fletcher4-sums64 bytes' ∙ rw odd refl in
          ground (arith, sym there ∙ e ∙ there')
    ]
