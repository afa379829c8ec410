-- ===== src/Pool/Bits.antt =====
-- The bits of a block pointer, as the tables of extractor/defs.h lay them out: of a usual one, of one
-- that is encrypted, and of one that holds its data itself.
use dumpbin_py_zfs_rescue.Common.{
  ℕ, ◌/◌, ◌%◌, ◌^◌, [], ◌∷◌, List, Bool, get_or, ◌==◌, if◌then◌else◌,
}
use dumpbin_py_zfs_rescue.Pool.Disk.{Dva, Blkptr}
use dumpbin_py_zfs_rescue.Pool.Dnode.{window}

-- The `n` bits of a word from bit `lo` on.
abbrev pub bits : (w lo n : ℕ) → ℕ
bits w lo n = w / 2 ^ lo % 2 ^ n

-- Words 0 and 1, 2 and 3, 4 and 5: an address.
pub record DvaBits : Type 0 where
  pub vdev : ℕ
  pub grid : ℕ
  pub asize : ℕ
  pub gang : ℕ
  pub offset : ℕ

unfoldable pub dva_bits : Dva → DvaBits
dva_bits d =
    let first = get_or d.dva_word 0 0 in
    let second = get_or d.dva_word 1 0 in
    record {
      vdev = bits first 32 32;
      grid = bits first 24 8;
      asize = bits first 0 24;
      gang = bits second 63 1;
      offset = bits second 0 63;
    }

-- Word 6.
pub record PropBits : Type 0 where
  pub byteorder : ℕ
  pub dedup : ℕ
  pub encryption : ℕ
  pub lvl : ℕ
  pub type : ℕ
  pub cksum : ℕ
  pub embedded : ℕ
  pub comp : ℕ
  pub psize : ℕ
  pub lsize : ℕ

unfoldable pub prop_bits : ℕ → PropBits
prop_bits w = record {
  byteorder = bits w 63 1;
  dedup = bits w 62 1;
  encryption = bits w 61 1;
  lvl = bits w 56 5;
  type = bits w 48 8;
  cksum = bits w 40 8;
  embedded = bits w 39 1;
  comp = bits w 32 7;
  psize = bits w 16 16;
  lsize = bits w 0 16;
}

-- Of an encrypted block: the third address, half of the fill count and half of the checksum.
pub record Encryption : Type 0 where
  pub salt : ℕ
  pub iv1 : ℕ
  pub iv2 : ℕ
  pub fill_count : ℕ
  pub mac0 : ℕ
  pub mac1 : ℕ

-- Word `k` of address `i`.
abbrev pub address_word : Blkptr → (i k : ℕ) → ℕ
address_word p i k = get_or (get_or p.blk_dva i (record { dva_word = [] })).dva_word k 0

unfoldable pub encryption_of : Blkptr → Encryption
encryption_of p = record {
  salt = address_word p 2 0;
  iv1 = address_word p 2 1;
  iv2 = bits p.blk_fill 32 32;
  fill_count = bits p.blk_fill 0 32;
  mac0 = get_or p.blk_cksum.zc_word 2 0;
  mac1 = get_or p.blk_cksum.zc_word 3 0;
}

-- What the X bit says of a block, with the level and the type of object.
pub data Protection : Type 0 where
  unprotected : Protection
  is_encrypted : Protection
  is_authenticated : Protection
  has_indirect_mac_cksum : Protection

-- `encrypted_type` says which types of objects are encrypted; sys/dmu.h has them.
unfoldable pub protection : (encrypted_type : ℕ → Bool) → PropBits → Protection
protection encrypted_type f =
    if f.encryption == 0
    then unprotected
    else if f.lvl == 0
    then (if encrypted_type f.type then is_encrypted else is_authenticated)
    else has_indirect_mac_cksum

-- How many copies a block can have, and how many of the bits of its fill count are one.
abbrev pub max_copies : Protection → ℕ
max_copies is_encrypted = 2
max_copies unprotected = 3
max_copies is_authenticated = 3
max_copies has_indirect_mac_cksum = 3

abbrev pub fill_bits : Protection → ℕ
fill_bits is_encrypted = 32
fill_bits unprotected = 64
fill_bits is_authenticated = 64
fill_bits has_indirect_mac_cksum = 64

-- Of an embedded one: word 6, where the sizes are in bytes and `cksum` says how to read the data.
pub record EmbeddedBits : Type 0 where
  pub byteorder : ℕ
  pub dedup : ℕ
  pub encryption : ℕ
  pub lvl : ℕ
  pub type : ℕ
  pub etype : ℕ
  pub embedded : ℕ
  pub comp : ℕ
  pub psize : ℕ
  pub lsize : ℕ

unfoldable pub embedded_bits : ℕ → EmbeddedBits
embedded_bits w = record {
  byteorder = bits w 63 1;
  dedup = bits w 62 1;
  encryption = bits w 61 1;
  lvl = bits w 56 5;
  type = bits w 48 8;
  etype = bits w 40 8;
  embedded = bits w 39 1;
  comp = bits w 32 7;
  psize = bits w 25 7;
  lsize = bits w 0 25;
}

-- All words but the properties (6) and the birth (a) are data: 14 of them.
unfoldable pub payload : Blkptr → List ℕ
payload p =
    address_word p 0 0
    ∷ address_word p 0 1
    ∷ address_word p 1 0
    ∷ address_word p 1 1
    ∷ address_word p 2 0
    ∷ address_word p 2 1
    ∷ get_or p.blk_pad 0 0
    ∷ get_or p.blk_pad 1 0
    ∷ p.blk_phys_birth
    ∷ p.blk_fill
    ∷ window p.blk_cksum.zc_word 0 4
