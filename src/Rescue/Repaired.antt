-- ===== src/Rescue/Repaired.antt =====
-- A column that is lost is given back by the others and their parity.
use dumpbin_py_zfs_rescue.Common.{
  ℕ, zero, suc, ◌+◌, ◌≤◌, ◌<◌, ◌≡◌, [], ◌∷◌, ◌++◌, List, refl, sym, ap, ◌∙◌, arith, get_or, length,
  set, eq→==, ne→==,
}
use Prim.Native.Nat.{bit_xor}
use mathlib.Core.Path.{ap₂}
use dumpbin_py_zfs_rescue.Common.Xor.{bit_xor-zero, bit_xor-same, bit_xor_comm, bit_xor_assoc}
use dumpbin_py_zfs_rescue.Rescue.Py.{done, ◌>>=◌}
use dumpbin_py_zfs_rescue.Rescue.Repair.{xor_into, take, xor_others, repair}

-- `_xor` without its exceptions.
abbrev pub xored : (p d : List ℕ) → List ℕ
xored p [] = p
xored [] (x ∷ d) = []
xored (y ∷ p) (x ∷ d) = bit_xor y x ∷ xored p d

abbrev xored_all : List ℕ → List (List ℕ) → List ℕ
xored_all p [] = p
xored_all p (d ∷ ds) = xored_all (xored p d) ds

pub length-xored : (p d : List ℕ) → length (xored p d) ≡ length p
length-xored p [] = refl
length-xored [] (x ∷ d) = refl
length-xored (y ∷ p) (x ∷ d) = omega (arith, length-xored p d)

length-xored_all : (p : List ℕ) (ds : List (List ℕ)) → length (xored_all p ds) ≡ length p
length-xored_all p [] = refl
length-xored_all p (d ∷ ds) = length-xored_all (xored p d) ds ∙ length-xored p d

get_or-xored :
    (p d : List ℕ) (i : ℕ)
    → length d ≤ length p
    → get_or (xored p d) i 0 ≡ bit_xor (get_or p i 0) (get_or d i 0)
get_or-xored p [] i le = sym (bit_xor-zero (get_or p i 0))
get_or-xored [] (x ∷ d) i le = absurd (omega arith)
get_or-xored (y ∷ p) (x ∷ d) zero le = refl
get_or-xored (y ∷ p) (x ∷ d) (suc i) le = get_or-xored p d i (omega arith)

pub xor_into-xored : (p d : List ℕ) → length d ≤ length p → xor_into p d ≡ done (xored p d)
unfolding xor_into
xor_into-xored p [] le = refl
xor_into-xored [] (x ∷ d) le = absurd (omega arith)
xor_into-xored (y ∷ p) (x ∷ d) le =
    ap (λ m. m >>= λ rest. done (bit_xor y x ∷ rest)) (xor_into-xored p d (omega arith))

-- Byte `i` of all columns together.
abbrev pub xor_all : List (List ℕ) → ℕ → ℕ
xor_all [] i = 0
xor_all (d ∷ ds) i = bit_xor (get_or d i 0) (xor_all ds i)

-- No column is longer than `n`.
pub data AreShort (n : ℕ) : List (List ℕ) → Type 0 where
  none_left : AreShort n []
  column : {d : List ℕ} {ds : List (List ℕ)} → length d ≤ n → AreShort n ds → AreShort n (d ∷ ds)

get_or-xored_all :
    (n : ℕ) (p : List ℕ) (ds : List (List ℕ)) (i : ℕ)
    → n ≤ length p
    → AreShort n ds
    → get_or (xored_all p ds) i 0 ≡ bit_xor (get_or p i 0) (xor_all ds i)
get_or-xored_all n p [] i le h = sym (bit_xor-zero (get_or p i 0))
get_or-xored_all n p (d ∷ ds) i le (column short h) =
    get_or-xored_all n (xored p d) ds i (omega (arith, length-xored p d)) h
    ∙ ap (λ t. bit_xor t (xor_all ds i)) (get_or-xored p d i (omega arith))
    ∙ bit_xor_assoc (get_or p i 0) (get_or d i 0) (xor_all ds i)

-- The columns from number `b` on, where the bad one is not among them.
xor_others_good :
    (n b bad : ℕ) (p : List ℕ) (ds : List (List ℕ))
    → bad < b
    → n ≤ length p
    → AreShort n ds
    → xor_others b bad p ds ≡ done (xored_all p ds)
unfolding xor_others
xor_others_good n b bad p [] past le h = refl
xor_others_good n b bad p (d ∷ ds) past le (column short h) =
    rw (xor_others, ne→== b bad (λ z. omega (arith, z)), xor_into-xored p d (omega arith))
      (xor_others_good n (b + 1) bad (xored p d) ds (omega arith) (omega (arith, length-xored p d))
        h)

-- All columns but the bad one, which stands behind `xs`.
xor_others_bad :
    (n b bad : ℕ) (p : List ℕ) (xs : List (List ℕ)) (g : List ℕ) (ys : List (List ℕ))
    → bad ≡ b + length xs
    → n ≤ length p
    → AreShort n xs
    → AreShort n ys
    → xor_others b bad p (xs ++ (g ∷ ys)) ≡ done (xored_all (xored_all p xs) ys)
unfolding xor_others
xor_others_bad n b bad p [] g ys e le h h' =
    rw (xor_others, eq→== b bad (omega (arith, e)))
      (xor_others_good n (b + 1) bad p ys (omega (arith, e)) le h')
xor_others_bad n b bad p (d ∷ xs) g ys e le (column short h) h' =
    rw (xor_others, ne→== b bad (λ z. omega (arith, e, z)), xor_into-xored p d (omega arith))
      (xor_others_bad n (b + 1) bad (xored p d) xs g ys (omega (arith, e))
        (omega (arith, length-xored p d)) h h')

-- Byte `i` of the parity is that of all data columns together; none of them is longer than the parity.
pub record IsParity (parity : List ℕ) (cols : List (List ℕ)) : Type 0 where
  pub short : AreShort (length parity) cols
  pub sums : (i : ℕ) → get_or parity i 0 ≡ xor_all cols i

xor_all-append :
    (xs : List (List ℕ)) (d : List ℕ) (ys : List (List ℕ)) (i : ℕ)
    → xor_all (xs ++ (d ∷ ys)) i ≡ bit_xor (get_or d i 0) (bit_xor (xor_all xs i) (xor_all ys i))
xor_all-append [] d ys i =
    ap (bit_xor (get_or d i 0)) (sym (bit_xor_comm 0 (xor_all ys i) ∙ bit_xor-zero (xor_all ys i)))
xor_all-append (x ∷ xs) d ys i =
    let a = get_or x i 0 in
    let b = get_or d i 0 in
    let c = xor_all xs i in
    let e = xor_all ys i in
    ap (bit_xor a) (xor_all-append xs d ys i)
    ∙ sym (bit_xor_assoc a b (bit_xor c e))
    ∙ ap (λ t. bit_xor t (bit_xor c e)) (bit_xor_comm a b)
    ∙ bit_xor_assoc b a (bit_xor c e)
    ∙ ap (bit_xor b) (sym (bit_xor_assoc a c e))

pub AreShort-split :
    (n : ℕ) (xs : List (List ℕ)) (d : List ℕ) (ys : List (List ℕ))
    → AreShort n (xs ++ (d ∷ ys))
    → AreShort n xs × (length d ≤ n) × AreShort n ys
AreShort-split n [] d ys (column short h) = (none_left, short, h)
AreShort-split n (x ∷ xs) d ys (column short h) =
    let (hx, hd, hy) = AreShort-split n xs d ys h in (column short hx, hd, hy)

-- What is left of the bad column when all others are taken from the parity.
cancel : (a b : ℕ) → bit_xor (bit_xor a b) b ≡ a
cancel a b = bit_xor_assoc a b b ∙ ap (bit_xor a) (bit_xor-same b) ∙ bit_xor-zero a

take-same :
    (d r : List ℕ)
    → length d ≤ length r
    → ((i : ℕ) → i < length d → get_or r i 0 ≡ get_or d i 0)
    → take (length d) r ≡ d
take-same [] r le same = refl
take-same (x ∷ d) [] le same = absurd (omega arith)
take-same (x ∷ d) (y ∷ r) le same =
    ap₂ (λ z zs. z ∷ zs) (same 0 (omega arith))
      (take-same d r (omega arith) (λ i lt. same (suc i) (omega arith)))

set-append :
    (xs : List (List ℕ)) (g d : List ℕ) (ys : List (List ℕ))
    → set (xs ++ (g ∷ ys)) (length xs) d ≡ xs ++ (d ∷ ys)
set-append [] g d ys = refl
set-append (x ∷ xs) g d ys = ap (λ zs. x ∷ zs) (set-append xs g d ys)

-- Where the parity is that of the columns, and the column behind `xs` was read as `g`, whatever that
-- is, `repair` of that column raises no exception and gives all data columns as they were.
pub repair_lem :
    (parity : List ℕ) (xs : List (List ℕ)) (d g : List ℕ) (ys : List (List ℕ))
    → IsParity parity (xs ++ (d ∷ ys))
    → (p : List ℕ) × (repair (suc (length xs)) (length d) (parity ∷ (xs ++ (g ∷ ys)))
        ≡ done (p ∷ (xs ++ (d ∷ ys))))
unfolding repair
repair_lem parity xs d g ys h =
    let (hx, hd, hy) = AreShort-split (length parity) xs d ys h.short in
    let p = xored_all (xored_all parity xs) ys in
    let n = length parity in
    let at = λ (i : ℕ).
      get_or-xored_all n (xored_all parity xs) ys i (omega (arith, length-xored_all parity xs)) hy
      ∙ ap (λ t. bit_xor t (xor_all ys i)) (get_or-xored_all n parity xs i (omega arith) hx)
      ∙ bit_xor_assoc (get_or parity i 0) (xor_all xs i) (xor_all ys i)
      ∙ ap (λ t. bit_xor t (bit_xor (xor_all xs i) (xor_all ys i)))
          (h.sums i ∙ xor_all-append xs d ys i)
      ∙ cancel (get_or d i 0) (bit_xor (xor_all xs i) (xor_all ys i)) in
    let len : length p ≡ n =
      length-xored_all (xored_all parity xs) ys ∙ length-xored_all parity xs in
    (
      p,
      rw
          (
            xor_others_bad n 1 (suc (length xs)) parity xs g ys (omega arith) (omega arith) hx hy,
            take-same d p (omega (arith, len, hd)) (λ i lt. at i),
            set-append xs g d ys,
          )
          refl,
    )
