-- ===== src/Rescue/SameRead.antt =====
-- `_read_physical` returns what the extractor's `read_physical` does, over files without the first four
-- megabytes.
use Prim.Native.String.{String}
use dumpbin_py_zfs_rescue.Common.{
  ℕ, zero, suc, ◌+◌, ◌-◌, ◌*◌, ◌^◌, ◌≤◌, ◌<◌, ◌≡◌, [], ◌∷◌, ◌++◌, List, false, some, refl, ap, ◌∙◌,
  arith, length, get_or, le→ltb,
}
use mathlib.Core.Path.{ap₂}
use dumpbin_py_zfs_rescue.Rescue.Py.{Py, done}
use dumpbin_py_zfs_rescue.Rescue.Stripe.{Col, Stripe, map_alloc}
use dumpbin_py_zfs_rescue.Rescue.Repair.{take}
use dumpbin_py_zfs_rescue.Rescue.Repaired.{xor_into-xored, xored, length-xored, AreShort, column}
use dumpbin_py_zfs_rescue.Rescue.Reader.{
  RaidzDevice, drop, item, pieces, xor_cols, joined, start, readv, read_physical, after_read,
}
use dumpbin_py_zfs_rescue.Raidz.Read.{Files, Device}

take-append : (xs ys : List ℕ) (n : ℕ) → length xs ≡ n → take n (xs ++ ys) ≡ xs
take-append [] ys zero e = refl
take-append [] ys (suc n) e = absurd (omega arith)
take-append (x ∷ xs) ys zero e = absurd (omega arith)
take-append (x ∷ xs) ys (suc n) e = ap (λ zs. x ∷ zs) (take-append xs ys n (omega arith))

drop-append : (xs ys : List ℕ) (n : ℕ) → length xs ≡ n → drop n (xs ++ ys) ≡ ys
drop-append [] ys zero e = refl
drop-append [] ys (suc n) e = absurd (omega arith)
drop-append (x ∷ xs) ys zero e = absurd (omega arith)
drop-append (x ∷ xs) ys (suc n) e = drop-append xs ys n (omega arith)

item-get_or : (xs : List String) (i : ℕ) → i < length xs → item xs i ≡ done (get_or xs i "")
item-get_or [] i lt = absurd (omega arith)
item-get_or (x ∷ xs) zero lt = refl
item-get_or (x ∷ xs) (suc i) lt = item-get_or xs i (omega arith)

-- Each column is on a device.
pub data AreOn (n : ℕ) : List Col → Type 0 where
  no_col : AreOn n []
  col : {c : Col} {cols : List Col} → c.rc_devidx < n → AreOn n cols → AreOn n (c ∷ cols)

module _ (files : Files) (devs : List String) where
  -- What the files deliver for a column.
  abbrev pub piece : Col → List ℕ
  piece c = files.pread (get_or devs c.rc_devidx "") c.rc_size (c.rc_offset + start)

  abbrev pub all_pieces : List Col → List (List ℕ)
  all_pieces [] = []
  all_pieces (c ∷ cols) = piece c ∷ all_pieces cols

  module _ (read : String → (offset count : ℕ) → Py (List ℕ))
      (reads : (path : String) (offset count : ℕ)
        → read path offset count ≡ done (files.pread path count offset)) where
    pub readv_lem :
        (cols : List Col)
        → AreOn (length devs) cols
        → readv read devs cols ≡ done (joined (all_pieces cols))
    unfolding readv
    readv_lem [] no_col = refl
    readv_lem (c ∷ cols) (col lt h) =
        rw
          (
            item-get_or devs c.rc_devidx lt,
            reads (get_or devs c.rc_devidx "") (c.rc_offset + start) c.rc_size,
            readv_lem cols h,
          )
          refl

  pub pieces_lem :
      (cols : List Col)
      → ((path : String) (count offset : ℕ) → length (files.pread path count offset) ≡ count)
      → pieces (joined (all_pieces cols)) cols ≡ all_pieces cols
  unfolding pieces
  pieces_lem [] all = refl
  pieces_lem (c ∷ cols) all =
      let len = all (get_or devs c.rc_devidx "") c.rc_size (c.rc_offset + start) in
      ap₂ (λ x xs. x ∷ xs) (take-append (piece c) (joined (all_pieces cols)) c.rc_size len)
        (ap (λ bytes. pieces bytes cols)
            (drop-append (piece c) (joined (all_pieces cols)) c.rc_size len)
          ∙ pieces_lem cols all)

-- The check of the parity raises nothing where no column is longer than the first.
pub xor_cols_lem :
    (n : ℕ) (c : List ℕ) (ds : List (List ℕ))
    → n ≤ length c
    → AreShort n ds
    → (sum : List ℕ) × (xor_cols c ds ≡ done sum)
unfolding xor_cols
xor_cols_lem n c [] le h = (c, refl)
xor_cols_lem n c (d ∷ ds) le (column short h) =
    let (sum, e) = xor_cols_lem n (xored c d) ds (omega (arith, length-xored c d)) h in
    (sum, rw (xor_into-xored c d (omega arith), e) refl)

pub get_or-append_low :
    (xs ys : List ℕ) (j : ℕ) → j < length xs → get_or (xs ++ ys) j 0 ≡ get_or xs j 0
get_or-append_low [] ys j lt = absurd (omega arith)
get_or-append_low (x ∷ xs) ys zero lt = refl
get_or-append_low (x ∷ xs) ys (suc j) lt = get_or-append_low xs ys j (omega arith)

pub get_or-append_high :
    (xs ys : List ℕ) (j : ℕ) → length xs ≤ j → get_or (xs ++ ys) j 0 ≡ get_or ys (j - length xs) 0
get_or-append_high [] ys j le = ap (λ (t : ℕ). get_or ys t 0) (omega arith)
get_or-append_high (x ∷ xs) ys zero le = absurd (omega arith)
get_or-append_high (x ∷ xs) ys (suc j) le =
    get_or-append_high xs ys j (omega arith) ∙ ap (λ (t : ℕ). get_or ys t 0) (omega arith)

pub length-append : (xs ys : List ℕ) → length (xs ++ ys) ≡ length xs + length ys
length-append [] ys = omega arith
length-append (x ∷ xs) ys = omega (arith, length-append xs ys)

-- The files without their first four megabytes.
abbrev pub shifted : Files → Files
shifted files = record {
  pread = λ path count offset. files.pread path count (offset + start);
  pread_le = λ path count offset. files.pread_le path count (offset + start);
}

-- The device as the rescue tool has it, where it repairs nothing.
abbrev pub rescue_device : Device → List ℕ → RaidzDevice
rescue_device dev bad = record {
  devs = dev.vdevs;
  nparity = 1;
  ashift = 12;
  bad = bad;
  repairs = false;
}

module _ (files : Files) (read : String → (offset count : ℕ) → Py (List ℕ))
    (reads : (path : String) (offset count : ℕ)
      → read path offset count ≡ done (files.pread path count offset))
    (all : (path : String) (count offset : ℕ)
      → length (files.pread path count offset) ≡ count) where
  -- What a read returns, once the columns are known.
  pub steps :
      (dev : Device) (bad : List ℕ) (offset psize n : ℕ) (first : Col) (cols : List Col) (skip : ℕ)
      → offset ≤ 8 * 2 ^ 40
      → map_alloc (length dev.vdevs) 1 offset psize 12
        ≡ done (record { cols = first ∷ cols; firstdatacol = 1; skipstart = skip })
      → AreOn (length dev.vdevs) (first ∷ cols)
      → n ≤ first.rc_size
      → AreShort n (all_pieces files dev.vdevs cols)
      → read_physical read (rescue_device dev bad) offset psize
        ≡ done (some (joined (all_pieces files dev.vdevs cols)))
  unfolding read_physical
  steps dev bad offset psize n first cols skip below e on le short =
      let len = all (get_or dev.vdevs first.rc_devidx "") first.rc_size (first.rc_offset + start) in
      let (sum, sum_e) =
        xor_cols_lem n (piece files dev.vdevs first) (all_pieces files dev.vdevs cols)
          (omega (arith, len, le)) short in
      let stripe : Stripe = record { cols = first ∷ cols; firstdatacol = 1; skipstart = skip } in
      rw
        (
          le→ltb (8 * 2 ^ 40) offset below,
          e,
          readv_lem files dev.vdevs read reads (first ∷ cols) on,
        )
        (ap (after_read (rescue_device dev bad) stripe)
            (pieces_lem files dev.vdevs (first ∷ cols) all)
          ∙ rw (after_read, sum_e) refl)
