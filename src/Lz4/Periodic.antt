-- ===== src/Lz4/Periodic.antt =====
-- A sequence of bytes that repeats at a distance, and at a multiple of it further on, repeats at the
-- distance throughout. It is why a match may be copied eight bytes at once.
use dumpbin_py_zfs_rescue.Common.{
  ℕ, zero, suc, ◌+◌, ◌-◌, ◌*◌, ◌≤◌, ◌<◌, ◌≡◌, sym, ◌∙◌, ap, inl, inr, Bool-cases, ltb, arith,
}

-- From `p` on and below `n`, each byte is the one `off` places before it.
abbrev pub Repeats : (ℕ → ℕ) → (off p n : ℕ) → Type 0
Repeats f off p n = (i : ℕ) → p ≤ i → i < n → f i ≡ f (i - off)

module _ (f : ℕ → ℕ) (off : ℕ) where
  -- `k` times back.
  back_by :
      (k p n x : ℕ) → Repeats f off p n → p + k * off ≤ x + off → x < n → f x ≡ f (x - k * off)
  back_by zero p n x r le lt = ap f (omega arith)
  back_by (suc zero) p n x r le lt = r x (omega arith) lt ∙ ap f (omega arith)
  back_by (suc (suc k)) p n x r le lt =
      r x (omega arith) lt
      ∙ back_by (suc k) p n (x - off) r (omega arith) (omega arith)
      ∙ ap f (omega arith)

  module _ (p w n m : ℕ) (pos : 0 < off) (back_in : off ≤ p) (near : m * off ≤ w)
      (first : Repeats f off p (p + w)) (later : Repeats f (suc m * off) (p + w) n) where
    Repeats-below : (b : ℕ) → b ≤ n → Repeats f off p b
    Repeats-below zero le i le' lt = absurd (omega arith)
    Repeats-below (suc b) le i le' lt = elim (Bool-cases (ltb i (p + w))) [
      | inl early ↦ first i le' (ground arith)
      | inr late ↦
          let back =
            back_by m p i (i - off)
              (λ j le'' lt'. Repeats-below b (omega arith) j le'' (omega arith)) (ground arith)
              (ground arith) in
          later i (ground arith) (omega arith) ∙ ap f (omega arith) ∙ sym back
    ]

    pub Repeats-extend : Repeats f off p n
    Repeats-extend = Repeats-below n (omega arith)
