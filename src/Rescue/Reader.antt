-- ===== src/Rescue/Reader.antt =====
-- `RaidzDevice._read_physical` of zfs/zio.py without its debugging output, over a `read` of the block
-- proxy.
use Prim.Native.String.{String}
use dumpbin_py_zfs_rescue.Common.{
  ℕ, zero, suc, ◌+◌, ◌*◌, ◌^◌, [], ◌∷◌, ◌++◌, List, Bool, true, false, Option, none, some, ◌||◌,
  length, get_elem?, ltb, ◌==◌, if◌then◌else◌,
}
use dumpbin_py_zfs_rescue.Rescue.Py.{Py, done, raised, ◌>>=◌}
use dumpbin_py_zfs_rescue.Rescue.Stripe.{Col, Stripe, map_alloc}
use dumpbin_py_zfs_rescue.Rescue.Repair.{xor_into, take, repair}

-- What the constructor keeps.
pub record RaidzDevice : Type 0 where
  pub devs : List String
  pub nparity : ℕ
  pub ashift : ℕ
  pub bad : List ℕ
  pub repairs : Bool

-- xs[n:]
abbrev pub drop : {A : Type 0} → ℕ → List A → List A
drop zero xs = xs
drop (suc n) [] = []
drop (suc n) (x ∷ xs) = drop n xs

-- xs[i], where an index past the end is an `IndexError`.
abbrev pub item : {A : Type 0} → List A → ℕ → Py A
item xs i = elim (get_elem? xs i) [ none ↦ raised | some x ↦ done x ]

-- data[ptr:ptr+size] for each column, with `ptr` moved on by its size.
unfoldable pub pieces : List ℕ → List Col → List (List ℕ)
pieces bytes [] = []
pieces bytes (c ∷ cols) = take c.rc_size bytes ∷ pieces (drop c.rc_size bytes) cols

-- The xor of all columns, for its exceptions: the sum itself is not looked at.
unfoldable pub xor_cols : List ℕ → List (List ℕ) → Py (List ℕ)
unfolding xor_into
xor_cols c [] = done c
xor_cols c (d ∷ ds) = xor_into c d >>= λ c'. xor_cols c' ds

abbrev pub parity_check : List (List ℕ) → Py (List ℕ)
parity_check [] = done []
parity_check (c ∷ cols) = xor_cols c cols

-- devs.index(bad), where it is in devs[1:].
abbrev pub index_of : ℕ → List Col → Option ℕ
index_of bad [] = none
index_of bad (c ∷ cols) =
    if c.rc_devidx == bad
    then some 0
    else elim (index_of bad cols) [ none ↦ none | some i ↦ some (suc i) ]

abbrev pub among : ℕ → List Col → Bool
among bad [] = false
among bad (c ∷ cols) = (c.rc_devidx == bad) || among bad cols

abbrev pub tail : List Col → List Col
tail [] = []
tail (c ∷ cols) = cols

abbrev repair_col : List Col → Option ℕ → List (List ℕ) → Py (List (List ℕ))
repair_col cols none ds = raised
repair_col cols (some k) ds = item cols k >>= λ c. repair k c.rc_size ds

-- if self._repair and len(self._bad) > 0: only the first bad drive is looked at.
unfoldable pub repaired : Bool → (bad : List ℕ) → List Col → List (List ℕ) → Py (List (List ℕ))
unfolding repair
repaired false bad cols ds = done ds
repaired true [] cols ds = done ds
repaired true (k ∷ ks) cols ds =
    if among k (tail cols) then repair_col cols (index_of k cols) ds else done ds

-- data += c for each column
abbrev pub joined : List (List ℕ) → List ℕ
joined [] = []
joined (d ∷ ds) = d ++ joined ds

-- What is done once the columns are read.
unfoldable pub after_read : RaidzDevice → Stripe → List (List ℕ) → Py (Option (List ℕ))
unfolding xor_cols repaired
after_read dev stripe ds = parity_check ds >>= λ sum.
    repaired dev.repairs dev.bad stripe.cols ds >>= λ ds'.
    done (some (joined (drop stripe.firstdatacol ds')))

-- The space in front of the data of a device: two labels and the boot block.
abbrev pub start : ℕ
start = 0x400000

module _ (read : String → (offset count : ℕ) → Py (List ℕ)) where
  -- `BlockProxy._readv_files` of the blocks of the columns.
  unfoldable pub readv : List String → List Col → Py (List ℕ)
  readv devs [] = done []
  readv devs (c ∷ cols) = item devs c.rc_devidx >>= λ path.
      read path (c.rc_offset + start) c.rc_size >>= λ bytes.
      readv devs cols >>= λ rest. done (bytes ++ rest)

  -- What is returned is `None` for an offset above the limit, and else the bytes.
  unfoldable pub read_physical : RaidzDevice → (offset psize : ℕ) → Py (Option (List ℕ))
  unfolding readv pieces map_alloc after_read
  read_physical dev offset psize =
      if ltb (8 * 2 ^ 40) offset
      then done none
      else map_alloc (length dev.devs) dev.nparity offset psize dev.ashift >>= λ stripe.
          readv dev.devs stripe.cols >>= λ bytes. after_read dev stripe (pieces bytes stripe.cols)
