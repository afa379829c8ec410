-- ===== src/Rescue/Active.antt =====
-- The uberblock that `find_active_ub` chooses.
use dumpbin_py_zfs_rescue.Common.{
  ℕ, zero, suc, ◌+◌, ◌≤◌, ◌<◌, ◌≡◌, ◌⊎◌, inl, inr, refl, ap, ◌∙◌, arith, [], ◌∷◌, List, Bool, true,
  false, Option, none, some, ◌&&◌, leb, get_elem?, Bool-cases,
}
use dumpbin_py_zfs_rescue.Rescue.Py.{Py, done}
use dumpbin_py_zfs_rescue.Rescue.Reader.{item}
use dumpbin_py_zfs_rescue.Rescue.Delivered.{and_true}
use dumpbin_py_zfs_rescue.Rescue.Uberblock.{Ublock, choose, find_active_ub}

-- Number `k` is the last of the valid ones with the highest transaction group.
pub record IsLatest (blocks : List Ublock) (k : ℕ) (ub : Ublock) : Type 0 where
  pub there : get_elem? blocks k ≡ some ub
  pub is_valid : ub.valid ≡ true
  pub highest :
      (k' : ℕ) (ub' : Ublock)
      → get_elem? blocks k' ≡ some ub'
      → ub'.valid ≡ true
      → (ub'.txg ≤ ub.txg) × (k < k' → ub'.txg < ub.txg)

abbrev pub AllBelow : List Ublock → ℕ → Type 0
AllBelow blocks txg =
    (k : ℕ) (ub : Ublock) → get_elem? blocks k ≡ some ub → ub.valid ≡ true → ub.txg < txg

abbrev ublock_or : Ublock → Option Ublock → Ublock
ublock_or x none = x
ublock_or x (some y) = y

some_ublock : {x y : Ublock} → some x ≡ some y → x ≡ y
some_ublock {x} e = ap (ublock_or x) e

passed_early :
    (valid : Bool) (highest txg : ℕ)
    → valid ≡ true
    → valid && leb highest txg ≡ false
    → txg < highest
passed_early valid highest txg v passed = ground (arith, v, passed)

-- What the loop gives, from any of its states.
Chosen : List Ublock → (i highest : ℕ) → (active result : Option ℕ) → Type 0
Chosen blocks i highest active result =
    ((result ≡ active) × AllBelow blocks highest)
    ⊎ ((k : ℕ) × (ub : Ublock) × (result ≡ some (i + k))
        × IsLatest blocks k ub
        × (highest ≤ ub.txg))

first_highest :
    (x : Ublock) (blocks : List Ublock)
    → AllBelow blocks x.txg
    → (k : ℕ) (ub : Ublock) → get_elem? (x ∷ blocks) k ≡ some ub
    → ub.valid ≡ true
    → (ub.txg ≤ x.txg) × (0 < k → ub.txg < x.txg)
first_highest x blocks below zero ub e v =
    let same : x.txg ≡ ub.txg = ap (λ y. y.txg) (some_ublock e) in
    (omega (arith, same), λ lt. absurd (omega arith))
first_highest x blocks below (suc k) ub e v =
    let lt = below k ub e v in (omega (arith, lt), λ _. lt)

later_highest :
    (x : Ublock) (blocks : List Ublock) (k : ℕ) (ub : Ublock)
    → IsLatest blocks k ub
    → (x.valid ≡ true → x.txg ≤ ub.txg)
    → (k' : ℕ) (ub' : Ublock) → get_elem? (x ∷ blocks) k' ≡ some ub'
    → ub'.valid ≡ true
    → (ub'.txg ≤ ub.txg) × (suc k < k' → ub'.txg < ub.txg)
later_highest x blocks k ub latest first zero ub' e v =
    let same = some_ublock e in
    let txg : x.txg ≡ ub'.txg = ap (λ y. y.txg) same in
    (omega (arith, txg, first (ap (λ y. y.valid) same ∙ v)), λ lt. absurd (omega arith))
later_highest x blocks k ub latest first (suc k') ub' e v =
    let (le, below) = latest.highest k' ub' e v in (le, λ lt. below (omega arith))

below_cons :
    (x : Ublock) (blocks : List Ublock) (txg : ℕ)
    → AllBelow blocks txg
    → (x.valid ≡ true → x.txg < txg)
    → AllBelow (x ∷ blocks) txg
below_cons x blocks txg below first zero ub e v =
    let same = some_ublock e in
    let txg_e : x.txg ≡ ub.txg = ap (λ y. y.txg) same in
    omega (arith, txg_e, first (ap (λ y. y.valid) same ∙ v))
below_cons x blocks txg below first (suc k) ub e v = below k ub e v

first_taken :
    (x : Ublock) (blocks : List Ublock) (i highest : ℕ) (active result : Option ℕ)
    → x.valid ≡ true
    → highest ≤ x.txg
    → Chosen blocks (i + 1) x.txg (some i) result
    → Chosen (x ∷ blocks) i highest active result
unfolding Chosen
first_taken x blocks i highest active result valid le (inl (e, below)) = inr (
  0,
  x,
  e ∙ ap (λ (n : ℕ). some n) (omega arith),
  record { there = refl; is_valid = valid; highest = first_highest x blocks below },
  le,
)
first_taken x blocks i highest active result valid le (inr (k, ub, e, latest, le')) = inr (
  suc k,
  ub,
  e ∙ ap (λ (n : ℕ). some n) (omega arith),
  record {
    there = latest.there;
    is_valid = latest.is_valid;
    highest = later_highest x blocks k ub latest (λ _. le');
  },
  omega arith,
)

first_passed :
    (x : Ublock) (blocks : List Ublock) (i highest : ℕ) (active result : Option ℕ)
    → (x.valid ≡ true → x.txg < highest)
    → Chosen blocks (i + 1) highest active result
    → Chosen (x ∷ blocks) i highest active result
unfolding Chosen
first_passed x blocks i highest active result early (inl (e, below)) =
    inl (e, below_cons x blocks highest below early)
first_passed x blocks i highest active result early (inr (k, ub, e, latest, le)) = inr (
  suc k,
  ub,
  e ∙ ap (λ (n : ℕ). some n) (omega arith),
  record {
    there = latest.there;
    is_valid = latest.is_valid;
    highest = later_highest x blocks k ub latest (λ v. omega (arith, early v));
  },
  le,
)

choose-Chosen :
    (blocks : List Ublock) (i highest : ℕ) (active : Option ℕ)
    → Chosen blocks i highest active (choose blocks i highest active)
unfolding choose Chosen
choose-Chosen [] i highest active = inl (refl, λ k ub e v. ground (arith, e))
choose-Chosen (x ∷ blocks) i highest active = elim (Bool-cases (x.valid && leb highest x.txg)) [
  | inl taken ↦
      let (valid, le) = and_true x.valid (leb highest x.txg) taken in
      rw (choose, taken)
        (first_taken x blocks i highest active (choose blocks (i + 1) x.txg (some i)) valid
          (ground (arith, le)) (choose-Chosen blocks (i + 1) x.txg (some i)))
  | inr passed ↦
      rw (choose, passed)
        (first_passed x blocks i highest active (choose blocks (i + 1) highest active)
          (λ v. passed_early x.valid highest x.txg v passed)
          (choose-Chosen blocks (i + 1) highest active))
]

-- What `find_active_ub` returns.
pub data IsActive (blocks : List Ublock) (label_txg : ℕ) : Py (Option Ublock) → Type 0 where
  none_active : AllBelow blocks label_txg → IsActive blocks label_txg (done none)
  active :
      {k : ℕ} {ub : Ublock}
      → IsLatest blocks k ub
      → label_txg ≤ ub.txg
      → IsActive blocks label_txg (done (some ub))

item-there :
    (blocks : List Ublock) (k : ℕ) (ub : Ublock)
    → get_elem? blocks k ≡ some ub
    → item blocks k ≡ done ub
item-there blocks k ub e = rw (item, e) refl

-- `find_active_ub` returns, of the valid uberblocks whose transaction group is not below that of the
-- label, the one with the highest, and the last of these; and `None` where there is none. No index is
-- out of range.
pub find_active_ub-IsActive :
    (blocks : List Ublock) (label_txg : ℕ)
    → IsActive blocks label_txg (find_active_ub blocks label_txg)
unfolding find_active_ub Chosen
find_active_ub-IsActive blocks label_txg = elim (choose-Chosen blocks 0 label_txg none) [
  | inl (e, below) ↦ rw e (none_active below)
  | inr (k, ub, e, latest, le) ↦
      let at : choose blocks 0 label_txg none ≡ some k = e ∙ ap (λ (n : ℕ). some n) (omega arith) in
      rw (at, item-there blocks k ub latest.there) (active latest le)
]
