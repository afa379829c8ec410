-- ===== src/Pool/Fields.antt =====
-- A structure in memory as its fields, in order and with no padding between them: the widths of the
-- fields, and the numbers in them, least significant byte first.
use dumpbin_py_zfs_rescue.Common.{
  ℕ, zero, suc, ◌+◌, ◌*◌, ◌/◌, ◌%◌, ◌<◌, ◌≡◌, [], ◌∷◌, ◌++◌, List, Bool, true, ◌&&◌, ◌==◌, refl,
  sym, ap, ◌∙◌, arith,
}
use mathlib.Core.Path.{ap₂}

-- A number of `n` bytes.
unfoldable pub le_at : (ℕ → ℕ) → (p n : ℕ) → ℕ
le_at b p zero = 0
le_at b p (suc n) = b p + le_at b (p + 1) n * 256

unfoldable pub fields_at : (ℕ → ℕ) → (p : ℕ) → List ℕ → List ℕ
fields_at b p [] = []
fields_at b p (w ∷ ws) = le_at b p w ∷ fields_at b (p + w) ws

abbrev pub bytes_at : (ℕ → ℕ) → (p n : ℕ) → List ℕ
bytes_at b p zero = []
bytes_at b p (suc n) = b p ∷ bytes_at b (p + 1) n

-- The bytes that a number and a structure are stored as.
unfoldable pub le_bytes : (n v : ℕ) → List ℕ
le_bytes zero v = []
le_bytes (suc n) v = v % 256 ∷ le_bytes n (v / 256)

unfoldable pub fields_bytes : (ws vs : List ℕ) → List ℕ
unfolding le_bytes
fields_bytes [] vs = []
fields_bytes (w ∷ ws) [] = []
fields_bytes (w ∷ ws) (v ∷ vs) = le_bytes w v ++ fields_bytes ws vs

abbrev pub total : List ℕ → ℕ
total [] = 0
total (w ∷ ws) = w + total ws

abbrev pub copies : ℕ → ℕ → List ℕ
copies zero w = []
copies (suc n) w = w ∷ copies n w

-- Each field starts at a multiple of its width, so that C puts no padding before it.
abbrev pub is_packed : ℕ → List ℕ → Bool
is_packed p [] = true
is_packed p (w ∷ ws) = (p % w == 0) && is_packed (p + w) ws

module _ (b : ℕ → ℕ) (bytes : (i : ℕ) → b i < 256) where
  le_bytes-le_at : (p n : ℕ) → le_bytes n (le_at b p n) ≡ bytes_at b p n
  unfolding le_bytes le_at
  le_bytes-le_at p zero = refl
  le_bytes-le_at p (suc n) =
      let low : (b p + le_at b (p + 1) n * 256) % 256 ≡ b p = omega (arith, bytes p) in
      let high : (b p + le_at b (p + 1) n * 256) / 256 ≡ le_at b (p + 1) n =
        omega (arith, bytes p) in
      ap₂ (λ x xs. x ∷ xs) low (ap (le_bytes n) high ∙ le_bytes-le_at (p + 1) n)

  bytes_at-append : (p n m : ℕ) → bytes_at b p n ++ bytes_at b (p + n) m ≡ bytes_at b p (n + m)
  bytes_at-append p zero m = ap₂ (bytes_at b) (omega arith) (omega arith)
  bytes_at-append p (suc n) m =
      let at : p + suc n ≡ p + 1 + n = omega arith in
      let rest =
        ap (λ (t : ℕ). bytes_at b (p + 1) n ++ bytes_at b t m) at ∙ bytes_at-append (p + 1) n m in
      let all : suc n + m ≡ suc (n + m) = omega arith in
      ap (λ xs. b p ∷ xs) rest ∙ ap (bytes_at b p) (sym all)

  -- The fields that are read have the bytes that they were read from.
  pub fields_bytes-fields_at :
      (p : ℕ) (ws : List ℕ) → fields_bytes ws (fields_at b p ws) ≡ bytes_at b p (total ws)
  unfolding fields_bytes fields_at
  fields_bytes-fields_at p [] = refl
  fields_bytes-fields_at p (w ∷ ws) =
      ap₂ (λ xs ys. xs ++ ys) (le_bytes-le_at p w) (fields_bytes-fields_at (p + w) ws)
      ∙ bytes_at-append p w (total ws)
