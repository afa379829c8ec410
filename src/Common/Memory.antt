-- ===== src/Common/Memory.antt =====
-- The C heap, and code that runs over it. `malloc` and `free` number the allocations; an access
-- outside a live block is a `fault`, a failed assertion is `aborted`.
use Prim.Native.Nat.{ℕ, ◌+◌, ◌-◌}
use mathlib.Core.Bool.{Bool, true, false, ◌&&◌}
use mathlib.Core.Option.{Option, none, some}
use mathlib.Core.List.{List}
use dumpbin_py_zfs_rescue.Common.Tests.{ltb, leb, ◌==◌, if◌then◌else◌}
use dumpbin_py_zfs_rescue.Common.Lists.{length, get_or, get_elem?}

-- `size` gives a live block's length; `byte` gives the contents, which `malloc` leaves as they are.
pub record Heap : Type 0 where
  pub next : ℕ
  pub size : ℕ → Option ℕ
  pub byte : ℕ → ℕ → ℕ

pub data Outcome (A : Type 0) : Type 0 where
  ok : A → Heap → Outcome A
  aborted : Outcome A
  fault : Outcome A

abbrev pub M : Type 0 → Type 0
M A = Heap → Outcome A

abbrev pub pure : {A : Type 0} → A → M A
pure a h = ok a h

abbrev pub and_then : {A B : Type 0} → Outcome A → (A → M B) → Outcome B
and_then (ok a h) k = k a h
and_then aborted k = aborted
and_then fault k = fault

infixl 5 ◌>>=◌ ◌>>◌
abbrev pub ◌>>=◌ : {A B : Type 0} → M A → (A → M B) → M B
m >>= k = λ h. and_then (m h) k

abbrev pub ◌>>◌ : {B : Type 0} → M (Unit {0}) → M B → M B
m >> k = m >>= λ _. k

-- `ASSERT`, `ASSERT3U` and `assert` of libspl's assert.h, which call `abort`.
abbrev pub check : Bool → M (Unit {0})
check true h = ok tt h
check false h = aborted

-- What C leaves undefined unless the test holds.
abbrev pub require : Bool → M (Unit {0})
require true h = ok tt h
require false h = fault

-- `a[i]`
abbrev pub index : {A : Type 0} → List A → ℕ → M A
index xs i h = elim (get_elem? xs i) [ none ↦ fault | some x ↦ ok x h ]

abbrev pub update : {A : Type 0} → (ℕ → A) → ℕ → A → ℕ → A
update f p v q = if q == p then v else f q

unfoldable pub malloc : ℕ → M ℕ
malloc n h = ok h.next (record h { next = h.next + 1; size = update h.size h.next (some n) })

unfoldable pub free : ℕ → M (Unit {0})
free p h = elim (h.size p) [
  | none ↦ fault
  | some n ↦ ok tt (record h { size = update h.size p none })
]

-- The block's bytes after `bytes` is copied to it from `at` on.
abbrev pub patch : (ℕ → ℕ) → ℕ → List ℕ → ℕ → ℕ
patch old start bytes i =
    if leb start i && ltb i (start + length bytes) then get_or bytes (i - start) 0 else old i

-- A copy of `bytes` into the block `p` from `start` on.
unfoldable pub blit : ℕ → ℕ → List ℕ → M (Unit {0})
blit p start bytes h = elim (h.size p) [
  | none ↦ fault
  | some n ↦
      if leb (start + length bytes) n
      then ok tt (record h { byte = update h.byte p (patch (h.byte p) start bytes) })
      else fault
]

-- The `n` bytes of the block `p` from `start` on, as a structure that a pointer is cast to.
unfoldable pub view : (p start n : ℕ) → M (ℕ → ℕ)
view p start n h = elim (h.size p) [
  | none ↦ fault
  | some size ↦ if leb (start + n) size then ok (λ i. h.byte p (start + i)) h else fault
]
