-- ===== src/Lz4/Unique.antt =====
-- A block has one text: what `Block` describes leaves no choice, where no distance is 0.
use mathlib.Core.Path.{subst}
use dumpbin_py_zfs_rescue.Common.{
  ℕ, zero, suc, ◌+◌, ◌-◌, ◌%◌, ◌≤◌, ◌<◌, ◌≡◌, inl, inr, sym, ◌∙◌, arith,
}
use native.Mathlib.Decide.{dec_lt}
use dumpbin_py_zfs_rescue.Lz4.Run.{Input}
use dumpbin_py_zfs_rescue.Lz4.Periodic.{Repeats}
use dumpbin_py_zfs_rescue.Lz4.Format.{Extended, none_left, more, HasLength, short, long}
use dumpbin_py_zfs_rescue.Lz4.Block.{Block, Literals, IsMatch, distance_at, stop, sequence}

module _ (src : Input) (iend : ℕ) where
  Extended-unique :
      {p n q n' q' : ℕ} → Extended src iend p n q → Extended src iend p n' q' → (n ≡ n') × (q ≡ q')
  Extended-unique (none_left a b c) (none_left a' b' c') = (omega arith, omega arith)
  Extended-unique (none_left a b c) (Extended.last a' d' b' c') = absurd (omega arith)
  Extended-unique (none_left a b c) (more k a' d' b' e') = absurd (omega arith)
  Extended-unique (Extended.last a d b c) (none_left a' b' c') = absurd (omega arith)
  Extended-unique (Extended.last a d b c) (Extended.last a' d' b' c') = (omega arith, omega arith)
  Extended-unique (Extended.last a d b c) (more k a' d' b' e') = absurd (d d')
  Extended-unique (more k a d b e) (none_left a' b' c') = absurd (omega arith)
  Extended-unique (more k a d b e) (Extended.last a' d' b' c') = absurd (d' d)
  Extended-unique (more k a d b e) (more k' a' d' b' e') =
      let (same, at) = Extended-unique e e' in (omega arith, at)

  pub HasLength-unique :
      {bits p n q n' q' : ℕ}
      → HasLength src iend bits p n q
      → HasLength src iend bits p n' q'
      → (n ≡ n') × (q ≡ q')
  HasLength-unique (short a b c) (short a' b' c') = (omega arith, omega arith)
  HasLength-unique (short a b c) (long k a' b' e') = absurd (a a')
  HasLength-unique (long k a b e) (short a' b' c') = absurd (a' a)
  HasLength-unique (long k a b e) (long k' a' b' e') =
      let (same, at) = Extended-unique e e' in (omega arith, at)

-- The two texts agree below `n`.
abbrev pub Agree : (f g : ℕ → ℕ) → ℕ → Type 0
Agree f g n = (i : ℕ) → i < n → f i ≡ g i

module _ (f g : ℕ → ℕ) where
  Agree-Literals :
      (src : Input) (op q n : ℕ)
      → Agree f g op
      → Literals f src op q n
      → Literals g src op q n
      → Agree f g (op + n)
  Agree-Literals src op q n same lf lg i lt = elim (dec_lt i op) [
    | yes low ↦ same i low
    | no high ↦
        let at : op + (i - op) ≡ i = omega arith in
        subst (λ t. f t ≡ g t) at (lf (i - op) (omega arith) ∙ sym (lg (i - op) (omega arith)))
  ]

  -- A byte of a match is one of those before it.
  Agree-Repeats :
      (off p n : ℕ)
      → 0 < off
      → off ≤ p
      → Agree f g p
      → Repeats f off p n
      → Repeats g off p n
      → (k : ℕ) → k ≤ n
      → Agree f g k
  Agree-Repeats off p n pos le same rf rg zero lk i lt = absurd (omega arith)
  Agree-Repeats off p n pos le same rf rg (suc k) lk i lt =
      let rest = Agree-Repeats off p n pos le same rf rg k (omega arith) in
      elim (dec_lt i p) [
        | yes low ↦ same i low
        | no high ↦
            rf i (omega arith) (omega arith)
            ∙ rest (i - off) (omega arith)
            ∙ sym (rg i (omega arith) (omega arith))
      ]

  Agree-IsMatch :
      (off p n : ℕ)
      → 0 < off
      → off ≤ p
      → Agree f g p
      → IsMatch f off p n
      → IsMatch g off p n
      → Agree f g n
  Agree-IsMatch off p n pos le same (inl e) mg = absurd (omega arith)
  Agree-IsMatch off p n pos le same (inr rf) (inl e) = absurd (omega arith)
  Agree-IsMatch off p n pos le same (inr rf) (inr rg) =
      Agree-Repeats off p n pos le same rf rg n (omega arith)

-- No distance of the block is 0.
unfoldable pub HasDistances :
    {src : Input} {iend : ℕ} {f : ℕ → ℕ} {ip op fin : ℕ} → Block src iend f ip op fin → Type 0
HasDistances (stop a b) = Unit {0}
HasDistances (Block.last n q a b c d e) = Unit {0}
HasDistances {src} (sequence n q m r a b c d e l t rest) =
    (0 < distance_at src (q + n)) × HasDistances rest

-- What is common to the two texts.
abbrev pub SameText : (f g : ℕ → ℕ) → (fin fin' : ℕ) → Type 0
SameText f g fin fin' = (fin ≡ fin') × Agree f g fin

module _ (src : Input) (iend : ℕ) (f g : ℕ → ℕ) where
  -- A block is the text of one input only: two descriptions of it that have no distance of 0, from
  -- texts that agree on what is before the block, end at one place and agree up to it.
  pub Block-unique :
      {ip op fin fin' : ℕ} (b : Block src iend f ip op fin)
      → HasDistances b
      → Block src iend g ip op fin'
      → Agree f g op
      → SameText f g fin fin'
  unfolding HasDistances
  Block-unique (stop a b) no_zero (stop a' b') same = (omega arith, λ i lt. same i (omega arith))
  Block-unique (stop a b) no_zero (Block.last n q lt has all lits fin_e) same = absurd (omega arith)
  Block-unique (stop a b) no_zero (sequence n q m r lt has lits inside le reads mt rest) same =
      absurd (omega arith)
  Block-unique (Block.last n q lt has all lits fin_e) no_zero (stop a' b') same =
      absurd (omega arith)
  Block-unique {ip} {op} {fin} (Block.last n q lt has all lits fin_e) no_zero
        (Block.last n' q' lt' has' all' lits' fin_e') same =
      let (n_e, q_e) = HasLength-unique src iend has has' in
      let lits'' =
        subst (λ t. Literals g src op t n) (sym q_e)
          (subst (Literals g src op q') (sym n_e) lits') in
      (omega arith, λ i i_lt. Agree-Literals f g src op q n same lits lits'' i (omega arith))
  Block-unique (Block.last n q lt has all lits fin_e) no_zero
        (sequence n' q' m r lt' has' lits' inside le reads mt rest) same =
      let (n_e, q_e) = HasLength-unique src iend has has' in absurd (omega arith)
  Block-unique (sequence n q m r lt has lits inside le reads mt rest) no_zero (stop a' b') same =
      absurd (omega arith)
  Block-unique (sequence n q m r lt has lits inside le reads mt rest) no_zero
        (Block.last n' q' lt' has' all' lits' fin_e') same =
      let (n_e, q_e) = HasLength-unique src iend has has' in absurd (omega arith)
  Block-unique {ip} {op} {fin} {fin'} (sequence n q m r lt has lits inside le reads mt rest) no_zero
        (sequence n' q' m' r' lt' has' lits' inside' le' reads' mt' rest') same =
      let (n_e, q_e) = HasLength-unique src iend has has' in
      let at : q' + n' ≡ q + n = omega arith in
      let op_e : op + n' ≡ op + n = omega arith in
      let lits'' =
        subst (λ t. Literals g src op t n) (sym q_e)
          (subst (Literals g src op q') (sym n_e) lits') in
      let reads'' = subst (λ t. HasLength src iend (src.byte ip % 16) (t + 2) m' r') at reads' in
      let (m_e, r_e) = HasLength-unique src iend reads reads'' in
      let end_e : op + n' + m' + 4 ≡ op + n + m + 4 = omega arith in
      let mt'' =
        subst (λ t. IsMatch g (distance_at src t) (op + n) (op + n + m + 4)) at
          (subst (λ t. IsMatch g (distance_at src (q' + n')) t (op + n + m + 4)) op_e
            (subst (IsMatch g (distance_at src (q' + n')) (op + n')) end_e mt')) in
      let rest'' =
        subst (λ t. Block src iend g t (op + n + m + 4) fin') (sym r_e)
          (subst (λ t. Block src iend g r' t fin') end_e rest') in
      Block-unique rest no_zero.1 rest'' (
        Agree-IsMatch f g (distance_at src (q + n)) (op + n) (op + n + m + 4) no_zero.0 le
          (Agree-Literals f g src op q n same lits lits'') mt mt'')
