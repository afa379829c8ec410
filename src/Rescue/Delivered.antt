-- ===== src/Rescue/Delivered.antt =====
-- The end of `read_block`: data that are found are given the size that the pointer says.
use dumpbin_py_zfs_rescue.Common.{
  ℕ, zero, suc, ◌-◌, ◌≤◌, ◌≡◌, ◌≢◌, inl, inr, refl, sym, ap, arith, [], ◌∷◌, List, Bool, true,
  false, Option, none, some, ◌&&◌, length, ltb, ltb→lt, Bool-cases, if◌then◌else◌,
}
use dumpbin_py_zfs_rescue.Rescue.Py.{Py, done, raised, done_injective}
use dumpbin_py_zfs_rescue.Rescue.BlockPtr.{PyBlkptr, compressed}
use dumpbin_py_zfs_rescue.Rescue.Repair.{take}
use dumpbin_py_zfs_rescue.Rescue.SameRead.{length-append}
use dumpbin_py_zfs_rescue.Rescue.Block.{
  in_comp_type, zeros, fit, fitted, plain, decompress, deliver,
}

length-zeros : (n : ℕ) → length (zeros n) ≡ n
length-zeros zero = refl
length-zeros (suc n) = omega (arith, length-zeros n)

length-take : (n : ℕ) (xs : List ℕ) → n ≤ length xs → length (take n xs) ≡ n
length-take zero xs le = refl
length-take (suc n) [] le = absurd (omega arith)
length-take (suc n) (x ∷ xs) le = omega (arith, length-take n xs (omega arith))

pub length-fit : (n : ℕ) (bytes : List ℕ) → length (fit n bytes) ≡ n
unfolding fit
length-fit n bytes = elim (Bool-cases (ltb (length bytes) n)) [
  | inl short ↦ rw short (
      omega (
        arith,
        length-append bytes (zeros (n - length bytes)),
        length-zeros (n - length bytes),
        ltb→lt (length bytes) n short,
      ))
  | inr enough ↦ elim (Bool-cases (ltb n (length bytes))) [
    | inl long ↦
        rw (enough, long) (length-take n bytes (omega (arith, ltb→lt n (length bytes) long)))
    | inr exact ↦ rw (enough, exact) (ground (arith, enough, exact))
  ]
]

abbrev bytes_or : List ℕ → Option (List ℕ) → List ℕ
bytes_or d none = d
bytes_or d (some bytes) = bytes

some_injective : {xs ys : List ℕ} → some xs ≡ some ys → xs ≡ ys
some_injective {xs} e = ap (bytes_or xs) e

abbrev is_some : Option (List ℕ) → Bool
is_some none = false
is_some (some bytes) = true

pub no_bytes :
    (ck ck' : Bool) (bytes : List ℕ)
    → ◌≢◌ {A = Py (Option (List ℕ) × Bool)} (done (none, ck)) (done (some bytes, ck'))
no_bytes ck ck' bytes e = ground (arith, ap (λ x. is_some x.0) (done_injective e))

pub and_true : (a b : Bool) → (a && b) ≡ true → (a ≡ true) × (b ≡ true)
and_true true b e = (refl, e)
and_true false b e = ground (arith, e)

module _ (inflate : List ℕ → Py (List ℕ)) where
  -- The data before they are made to have their size.
  abbrev pub stored : PyBlkptr → (lsize : ℕ) → Option (List ℕ) → Option (List ℕ)
  stored p lsize raw = if compressed p then decompress inflate p.comp lsize raw else raw

  -- What is returned for the data that were found.
  pub data Delivered (lsize : ℕ) (cksum : Bool) (found : Option (List ℕ))
      : Py (Option (List ℕ) × Bool) → Type 0 where
    no_data : Delivered lsize cksum found (done (none, cksum))
    no_length : Delivered lsize cksum found raised
    fitted_data :
        (bytes : List ℕ)
        → found ≡ some bytes
        → Delivered lsize cksum found (done (some (fit lsize bytes), cksum))

  fitted-Delivered :
      (lsize : ℕ) (cksum : Bool) (found : Option (List ℕ))
      → Delivered lsize cksum found (done (fitted inflate lsize cksum found))
  fitted-Delivered lsize cksum none = no_data
  fitted-Delivered lsize cksum (some bytes) = fitted_data bytes refl

  plain-Delivered :
      (lsize : ℕ) (cksum : Bool) (found : Option (List ℕ))
      → Delivered lsize cksum found (plain inflate lsize cksum found)
  plain-Delivered lsize cksum none = no_length
  plain-Delivered lsize cksum (some bytes) = fitted_data bytes refl

  pub deliver-Delivered :
      (p : PyBlkptr) (lsize : ℕ) (cksum : Bool) (raw : Option (List ℕ))
      → Delivered lsize cksum (stored p lsize raw) (deliver inflate p lsize cksum raw)
  unfolding deliver
  deliver-Delivered p lsize cksum raw = elim (Bool-cases (compressed p)) [
    | inr plainly ↦ rw plainly (plain-Delivered lsize cksum raw)
    | inl packed ↦ elim (Bool-cases (in_comp_type p.comp)) [
      | inr unknown ↦ rw (packed, unknown) no_data
      | inl known ↦
          rw (packed, known) (fitted-Delivered lsize cksum (decompress inflate p.comp lsize raw))
    ]
  ]

  -- Data that are returned are those that were found, with their size.
  pub returned :
      (lsize : ℕ) (cksum : Bool) (found : Option (List ℕ)) (r : Py (Option (List ℕ) × Bool))
      (bytes : List ℕ) (ck : Bool)
      → Delivered lsize cksum found r
      → r ≡ done (some bytes, ck)
      → (d : List ℕ) × (found ≡ some d) × (bytes ≡ fit lsize d) × (cksum ≡ ck)
  returned lsize cksum found (done (none, _)) bytes ck no_data e =
      absurd (no_bytes cksum ck bytes e)
  returned lsize cksum found raised bytes ck no_length e = ground (arith, e)
  returned lsize cksum found (done (some _, _)) bytes ck (fitted_data d at) e =
      let same = done_injective e in
      (d, at, sym (some_injective (ap (λ x. x.0) same)), ap (λ x. x.1) same)
