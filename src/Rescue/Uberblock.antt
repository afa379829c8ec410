-- ===== src/Rescue/Uberblock.antt =====
-- `Uberblock` and `UBArray` of zfs/uberblock.py, and `find_active_ub` of zfs/label.py, with the
-- transaction group of the label as an argument.
use dumpbin_py_zfs_rescue.Common.{
  ℕ, zero, suc, ◌+◌, ◌/◌, ◌^◌, [], ◌∷◌, List, Bool, true, false, Option, none, some, ◌&&◌, ltb, leb,
  get_or, ◌==◌, if◌then◌else◌,
}
use dumpbin_py_zfs_rescue.Pool.Disk.{words_at}
use dumpbin_py_zfs_rescue.Rescue.Py.{Py, done, ◌>>=◌}
use dumpbin_py_zfs_rescue.Rescue.BlockPtr.{PyBlkptr, parse}
use dumpbin_py_zfs_rescue.Rescue.Reader.{item}

pub record Ublock : Type 0 where
  pub magic : ℕ
  pub version : ℕ
  pub txg : ℕ
  pub guid_sum : ℕ
  pub timestamp : ℕ
  pub rootbp : PyBlkptr
  pub valid : Bool

-- `Uberblock.parse` of the bytes from `p` on
abbrev pub parse_ublock : (ℕ → ℕ) → ℕ → Ublock
parse_ublock b p =
    let words = words_at b p 5 in
    record {
      magic = get_or words 0 0;
      version = get_or words 1 0;
      txg = get_or words 2 0;
      guid_sum = get_or words 3 0;
      timestamp = get_or words 4 0;
      rootbp = parse b (p + 40);
      valid = get_or words 0 0 == 0xbab10c;
    }

-- for i in range(num_blocks): each read goes on where the one before it ended.
unfoldable pub read_blocks : (ℕ → ℕ) → (left p slot : ℕ) → List Ublock
read_blocks b zero p slot = []
read_blocks b (suc left) p slot = parse_ublock b p ∷ read_blocks b left (p + slot) slot

-- `UBArray.parse` of `len` bytes from `p` on
unfoldable pub parse_array : (ℕ → ℕ) → (p len ashift : ℕ) → List Ublock
unfolding read_blocks
parse_array b p len ashift =
    let ushift = if ltb ashift 10 then 10 else ashift in
    read_blocks b (len / 2 ^ ushift) p (2 ^ ushift)

-- `UBArray.find_block_by_txg`
abbrev pub find_block_by_txg : List Ublock → ℕ → Option Ublock
find_block_by_txg [] txg = none
find_block_by_txg (b ∷ blocks) txg =
    if b.valid && (b.txg == txg) then some b else find_block_by_txg blocks txg

-- `Label.find_uncompressed_ub`
abbrev pub find_uncompressed_ub : List Ublock → Option Ublock
find_uncompressed_ub [] = none
find_uncompressed_ub (b ∷ blocks) =
    if b.valid && (b.rootbp.comp == 2) then some b else find_uncompressed_ub blocks

-- The loop of `find_active_ub`, from number `i` on.
unfoldable pub choose : List Ublock → (i highest_txg : ℕ) → (active_ub_id : Option ℕ) → Option ℕ
choose [] i highest_txg active_ub_id = active_ub_id
choose (ub ∷ blocks) i highest_txg active_ub_id = elim (ub.valid && leb highest_txg ub.txg) [
  | true ↦ choose blocks (i + 1) ub.txg (some i)
  | false ↦ choose blocks (i + 1) highest_txg active_ub_id
]

abbrev chosen : List Ublock → Option ℕ → Py (Option Ublock)
chosen blocks none = done none
chosen blocks (some i) = item blocks i >>= λ ub. done (some ub)

unfoldable pub find_active_ub : List Ublock → (label_txg : ℕ) → Py (Option Ublock)
unfolding choose
find_active_ub blocks label_txg = chosen blocks (choose blocks 0 label_txg none)
