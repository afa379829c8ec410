-- ===== src/Rescue/BlockPtr.antt =====
-- `DVA` and `BlockPtr.parse` of zfs/blockptr.py, on the bytes of a block pointer in memory.
use dumpbin_py_zfs_rescue.Common.{
  ℕ, ◌+◌, ◌*◌, ◌/◌, ◌%◌, ◌^◌, ◌++◌, List, Bool, true, false, Option, none, some, not, ◌&&◌, get_or,
  ◌==◌, if◌then◌else◌,
}
use dumpbin_py_zfs_rescue.Pool.Disk.{words_at}
use dumpbin_py_zfs_rescue.Pool.Dnode.{window}
use dumpbin_py_zfs_rescue.Pool.Fields.{bytes_at}

-- `x >> lo` and a mask of `n` bits
abbrev pub field : (x lo n : ℕ) → ℕ
field x lo n = x / 2 ^ lo % 2 ^ n

-- `_asize_r` is the same as `_asize`.
pub record PyDva : Type 0 where
  pub asize : ℕ
  pub grid : ℕ
  pub vdev : ℕ
  pub offset : ℕ
  pub gang : Bool

abbrev pub dva_init : (qword0 qword1 : ℕ) → PyDva
dva_init qword0 qword1 = record {
  asize = field qword0 0 24 * 2 ^ 9;
  grid = field qword0 24 8;
  vdev = qword0 / 2 ^ 32;
  offset = field qword1 0 63 * 2 ^ 9;
  gang = not (field qword1 63 1 == 0);
}

-- `DVA.null`
abbrev pub dva_null : PyDva → Bool
dva_null d = (d.vdev == 0) && (d.offset == 0) && (d.asize == 0)

-- What `parse` sets in each case; `embedded` holds the attributes that an embedded pointer has besides.
pub record Embedded : Type 0 where
  pub lsize : ℕ
  pub bytes : List ℕ
  pub etype : ℕ

pub record PyBlkptr : Type 0 where
  pub dva0 : PyDva
  pub dva1 : PyDva
  pub dva2 : PyDva
  pub lsize : ℕ
  pub psize : ℕ
  pub comp : ℕ
  pub cksum : ℕ
  pub type : ℕ
  pub lvl : ℕ
  pub encrypted : ℕ
  pub endian : ℕ
  pub birth_txg : ℕ
  pub fill_count : ℕ
  pub checksum : List ℕ
  pub embedded : Option Embedded

-- The attributes that both kinds of pointer take from the words.
abbrev pub parse_words : List ℕ → PyBlkptr
parse_words qwords =
    let prop = get_or qwords 6 0 in
    record {
      dva0 = dva_init (get_or qwords 0 0) (get_or qwords 1 0);
      dva1 = dva_init (get_or qwords 2 0) (get_or qwords 3 0);
      dva2 = dva_init (get_or qwords 4 0) (get_or qwords 5 0);
      lsize = (1 + field prop 0 16) * 2 ^ 9;
      psize = (1 + field prop 16 16) * 2 ^ 9;
      comp = field prop 32 7;
      cksum = field prop 40 8;
      type = field prop 48 8;
      lvl = field prop 56 7;
      encrypted = field prop 61 1;
      endian = prop / 2 ^ 63;
      birth_txg = get_or qwords 10 0;
      fill_count = get_or qwords 11 0;
      checksum = window qwords 12 4;
      embedded = none;
    }

-- The bytes of words 0 to 5, 7 to 9 and 11 to 15.
abbrev pub embedded_bytes : (ℕ → ℕ) → ℕ → List ℕ
embedded_bytes b p = bytes_at b p 48 ++ (bytes_at b (p + 56) 24 ++ bytes_at b (p + 88) 40)

-- What is set anew `if self._embeded`.
abbrev pub with_embedded : (ℕ → ℕ) → ℕ → (prop : ℕ) → PyBlkptr → PyBlkptr
with_embedded b p prop x = record x {
  dva0 = dva_init 0 0;
  dva1 = dva_init 0 0;
  dva2 = dva_init 0 0;
  lsize = field prop 0 25;
  psize = field prop 25 7;
  embedded =
      some
        (record { lsize = field prop 0 25; bytes = embedded_bytes b p; etype = field prop 40 8 });
}

-- `BlockPtr.parse` of the 128 bytes at `p`
unfoldable pub parse : (ℕ → ℕ) → ℕ → PyBlkptr
unfolding words_at
parse b p =
    let qwords = words_at b p 16 in
    let prop = get_or qwords 6 0 in
    if field prop 39 1 == 0 then parse_words qwords else with_embedded b p prop (parse_words qwords)

-- `BlockPtr.compressed`
abbrev pub compressed : PyBlkptr → Bool
compressed x = not (x.comp == 2)

abbrev is_embedded : Option Embedded → Bool
is_embedded none = false
is_embedded (some e) = true

-- `BlockPtr.empty`
abbrev pub is_empty : PyBlkptr → Bool
is_empty x = dva_null x.dva0 && dva_null x.dva1 && dva_null x.dva2 && not (is_embedded x.embedded)

-- `BlockPtr.get_dva`
abbrev pub get_dva : PyBlkptr → ℕ → PyDva
get_dva x dvanum = if dvanum == 1 then x.dva1 else if dvanum == 2 then x.dva2 else x.dva0
