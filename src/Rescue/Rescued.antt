-- ===== src/Rescue/Rescued.antt =====
-- A block with a bad device, once its columns are read.
use Prim.Native.String.{String}
use dumpbin_py_zfs_rescue.Common.{
  ℕ, suc, ◌≤◌, ◌≡◌, ◌≢◌, [], ◌∷◌, ◌++◌, List, true, some, inl, inr, Bool-cases, refl, sym, ap, ◌∙◌,
  arith, length, le→ltb, ◌*◌, ◌^◌, ◌==◌, eq→==, ne→==,
}
use dumpbin_py_zfs_rescue.Rescue.Py.{Py, done}
use dumpbin_py_zfs_rescue.Rescue.Stripe.{Col, Stripe, map_alloc}
use dumpbin_py_zfs_rescue.Rescue.Repair.{repair}
use dumpbin_py_zfs_rescue.Rescue.Repaired.{AreShort, column, AreShort-split, IsParity, repair_lem}
use dumpbin_py_zfs_rescue.Rescue.Reader.{
  RaidzDevice, item, index_of, among, joined, after_read, repaired, pieces, readv, read_physical,
}
use dumpbin_py_zfs_rescue.Rescue.SameRead.{xor_cols_lem}

-- None of the columns is on device `k`.
pub data AreElsewhere (k : ℕ) : List Col → Type 0 where
  nowhere : AreElsewhere k []
  elsewhere :
      {c : Col} {cols : List Col}
      → c.rc_devidx ≢ k
      → AreElsewhere k cols
      → AreElsewhere k (c ∷ cols)

among_there :
    (k : ℕ) (xs : List Col) (c : Col) (ys : List Col)
    → c.rc_devidx ≡ k
    → among k (xs ++ (c ∷ ys)) ≡ true
among_there k [] c ys e = rw (eq→== c.rc_devidx k e) refl
among_there k (x ∷ xs) c ys e = elim (Bool-cases (x.rc_devidx == k)) [
  | inl here ↦ rw here refl
  | inr there ↦ rw there (among_there k xs c ys e)
]

index_of_there :
    (k : ℕ) (xs : List Col) (c : Col) (ys : List Col)
    → AreElsewhere k xs
    → c.rc_devidx ≡ k
    → index_of k (xs ++ (c ∷ ys)) ≡ some (length xs)
index_of_there k [] c ys h e = rw (eq→== c.rc_devidx k e) refl
index_of_there k (x ∷ xs) c ys (elsewhere ne h) e =
    rw (ne→== x.rc_devidx k ne, index_of_there k xs c ys h e) refl

item_there : (xs : List Col) (c : Col) (ys : List Col) → item (xs ++ (c ∷ ys)) (length xs) ≡ done c
item_there [] c ys = refl
item_there (x ∷ xs) c ys = item_there xs c ys

AreShort-join :
    (n : ℕ) (xs : List (List ℕ)) (d : List ℕ) (ys : List (List ℕ))
    → AreShort n xs
    → length d ≤ n
    → AreShort n ys
    → AreShort n (xs ++ (d ∷ ys))
AreShort-join n [] d ys hx hd hy = column hd hy
AreShort-join n (x ∷ xs) d ys (column short hx) hd hy =
    column short (AreShort-join n xs d ys hx hd hy)

-- Where the first column is the parity of the others, and the one behind `xs`, on the first bad device,
-- was read as `g` instead of `d`: what a device that repairs returns is what all data columns have
-- without the error, whatever their number.
after_read-repairs :
    (dev : RaidzDevice) (k : ℕ) (more : List ℕ) (first c : Col) (cs cs' : List Col) (skip : ℕ)
    (parity d g : List ℕ) (xs ys : List (List ℕ))
    → dev.repairs ≡ true
    → dev.bad ≡ k ∷ more
    → c.rc_devidx ≡ k
    → AreElsewhere k (first ∷ cs)
    → length xs ≡ length cs
    → c.rc_size ≡ length d
    → length g ≤ length parity
    → IsParity parity (xs ++ (d ∷ ys))
    → after_read dev
        (record { cols = first ∷ (cs ++ (c ∷ cs')); firstdatacol = 1; skipstart = skip })
        (parity ∷ (xs ++ (g ∷ ys)))
      ≡ done (some (joined (xs ++ (d ∷ ys))))
unfolding after_read
after_read-repairs dev k more first c cs cs' skip parity d g xs ys on bads here clear count size
      short h =
    let (hx, hd, hy) = AreShort-split (length parity) xs d ys h.short in
    let (sum, sum_e) =
      xor_cols_lem (length parity) parity (xs ++ (g ∷ ys)) (omega arith)
        (AreShort-join (length parity) xs g ys hx short hy) in
    let (p, fixed) = repair_lem parity xs d g ys h in
    let fixed' : repair (suc (length cs)) c.rc_size (parity ∷ (xs ++ (g ∷ ys)))
        ≡ done (p ∷ (xs ++ (d ∷ ys))) =
      ap (λ (i : ℕ). repair (suc i) c.rc_size (parity ∷ (xs ++ (g ∷ ys)))) (sym count)
      ∙ ap (λ (n : ℕ). repair (suc (length xs)) n (parity ∷ (xs ++ (g ∷ ys)))) size
      ∙ fixed in
    rw
      (
        sum_e,
        on,
        bads,
        repaired,
        among_there k cs c cs' here,
        index_of_there k (first ∷ cs) c cs' clear here,
        item_there (first ∷ cs) c cs',
        fixed',
      )
      refl

module _ (read : String → (offset count : ℕ) → Py (List ℕ)) where
  -- On a device that repairs, for an offset within the limit: where the first column of the stripe was
  -- read as the parity of the data columns, and the one behind `cs`, on the first bad device, as `g`
  -- instead of `d`, `_read_physical` returns what all data columns have without the error, whatever
  -- their number.
  pub read_physical-repairs :
      (dev : RaidzDevice) (k : ℕ) (more : List ℕ) (first c : Col) (cs cs' : List Col) (skip : ℕ)
      (offset psize : ℕ) (bytes parity d g : List ℕ) (xs ys : List (List ℕ))
      → dev.repairs ≡ true
      → dev.bad ≡ k ∷ more
      → offset ≤ 8 * 2 ^ 40
      → map_alloc (length dev.devs) dev.nparity offset psize dev.ashift
        ≡ done (record { cols = first ∷ (cs ++ (c ∷ cs')); firstdatacol = 1; skipstart = skip })
      → readv read dev.devs (first ∷ (cs ++ (c ∷ cs'))) ≡ done bytes
      → pieces bytes (first ∷ (cs ++ (c ∷ cs'))) ≡ parity ∷ (xs ++ (g ∷ ys))
      → c.rc_devidx ≡ k
      → AreElsewhere k (first ∷ cs)
      → length xs ≡ length cs
      → c.rc_size ≡ length d
      → length g ≤ length parity
      → IsParity parity (xs ++ (d ∷ ys))
      → read_physical read dev offset psize ≡ done (some (joined (xs ++ (d ∷ ys))))
  unfolding read_physical
  read_physical-repairs dev k more first c cs cs' skip offset psize bytes parity d g xs ys on bads
        below map_e read_e pieces_e here clear count size short h =
      let stripe : Stripe = record {
        cols = first ∷ (cs ++ (c ∷ cs'));
        firstdatacol = 1;
        skipstart = skip;
      } in
      rw (le→ltb (8 * 2 ^ 40) offset below, map_e, read_e)
        (ap (after_read dev stripe) pieces_e
          ∙ after_read-repairs dev k more first c cs cs' skip parity d g xs ys on bads here clear
              count size short h)
