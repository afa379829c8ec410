-- ===== src/Rescue/SamePointer.antt =====
-- `BlockPtr.parse` takes from a block pointer what the tables of extractor/defs.h say of it.
use dumpbin_py_zfs_rescue.Common.{
  ℕ, ◌+◌, ◌*◌, ◌^◌, ◌<◌, ◌≡◌, not, [], ◌∷◌, ◌++◌, List, none, some, refl, ap, ◌∙◌, sym, arith,
  get_or, length, zero, suc, ◌==◌, eq→==, ne→==,
}
use mathlib.Core.Path.{ap₂, subst}
use mathlib.Core.List.{append_assoc}
use dumpbin_py_zfs_rescue.Pool.Disk.{word_at, words_at, Blkptr, Dva, blkptr_of, dva_of}
use dumpbin_py_zfs_rescue.Pool.Fields.{
  fields_bytes, le_bytes, total, bytes_at, copies, fields_bytes-fields_at,
}
use dumpbin_py_zfs_rescue.Pool.Written.{words_at-fields_at}
use dumpbin_py_zfs_rescue.Pool.Bits.{prop_bits, embedded_bits, payload, dva_bits}
use dumpbin_py_zfs_rescue.Rescue.BlockPtr.{
  field, PyDva, dva_init, Embedded, PyBlkptr, parse_words, embedded_bytes, with_embedded, parse,
}

-- What the address `x` has of the words `d`.
pub record SameDva (d : Dva) (x : PyDva) : Type 0 where
  pub asize : x.asize ≡ (dva_bits d).asize * 512
  pub offset : x.offset ≡ (dva_bits d).offset * 512
  pub grid : x.grid ≡ (dva_bits d).grid
  pub vdev : x.vdev ≡ (dva_bits d).vdev
  pub gang : x.gang ≡ not ((dva_bits d).gang == 0)

dva_init-Same :
    (ws : List ℕ) (k : ℕ)
    → get_or ws k 0 < 2 ^ 64
    → SameDva (dva_of ws k) (dva_init (get_or ws k 0) (get_or ws (k + 1) 0))
unfolding dva_bits
dva_init-Same ws k word = record {
  asize = omega arith;
  offset = omega arith;
  grid = refl;
  vdev = omega arith;
  gang = refl;
}

-- What is taken from a pointer to a block. The level takes the bits for encryption and for
-- deduplication with it.
pub record SamePointer (p : Blkptr) (x : PyBlkptr) : Type 0 where
  pub addresses :
      (d0 : Dva) × (d1 : Dva) × (d2 : Dva) × (p.blk_dva ≡ d0 ∷ d1 ∷ d2 ∷ [])
      × SameDva d0 x.dva0
      × SameDva d1 x.dva1
      × SameDva d2 x.dva2
  pub lsize : x.lsize ≡ ((prop_bits p.blk_prop).lsize + 1) * 512
  pub psize : x.psize ≡ ((prop_bits p.blk_prop).psize + 1) * 512
  pub comp : x.comp ≡ (prop_bits p.blk_prop).comp
  pub cksum : x.cksum ≡ (prop_bits p.blk_prop).cksum
  pub type : x.type ≡ (prop_bits p.blk_prop).type
  pub lvl :
      x.lvl
      ≡ (prop_bits p.blk_prop).lvl
        + (prop_bits p.blk_prop).encryption * 32
        + (prop_bits p.blk_prop).dedup * 64
  pub encrypted : x.encrypted ≡ (prop_bits p.blk_prop).encryption
  pub endian : x.endian ≡ (prop_bits p.blk_prop).byteorder
  pub birth_txg : x.birth_txg ≡ p.blk_birth
  pub fill_count : x.fill_count ≡ p.blk_fill
  pub checksum : x.checksum ≡ p.blk_cksum.zc_word
  pub not_embedded : x.embedded ≡ none

-- What is taken from a pointer that holds its data itself.
pub record SameEmbedded (p : Blkptr) (x : PyBlkptr) : Type 0 where
  pub lsize : x.lsize ≡ (embedded_bits p.blk_prop).lsize
  pub psize : x.psize ≡ (embedded_bits p.blk_prop).psize
  pub comp : x.comp ≡ (embedded_bits p.blk_prop).comp
  pub type : x.type ≡ (embedded_bits p.blk_prop).type
  pub birth_txg : x.birth_txg ≡ p.blk_birth
  pub holds :
      (e : Embedded) × (x.embedded ≡ some e)
      × (e.lsize ≡ (embedded_bits p.blk_prop).lsize)
      × (e.etype ≡ (embedded_bits p.blk_prop).etype)
      × (e.bytes ≡ fields_bytes (copies 14 8) (payload p))

parse_words-Same :
    (ws : List ℕ)
    → ((k : ℕ) → get_or ws k 0 < 2 ^ 64)
    → SamePointer (blkptr_of ws 0) (parse_words ws)
unfolding prop_bits
parse_words-Same ws word = record {
  addresses = (
    _,
    _,
    _,
    refl,
    dva_init-Same ws 0 (word 0),
    dva_init-Same ws 2 (word 2),
    dva_init-Same ws 4 (word 4),
  );
  lsize = omega (arith, word 6);
  psize = omega (arith, word 6);
  comp = refl;
  cksum = refl;
  type = refl;
  lvl = omega (arith, word 6);
  encrypted = refl;
  endian = omega (arith, word 6);
  birth_txg = refl;
  fill_count = refl;
  checksum = refl;
  not_embedded = refl;
}

word_below : (b : ℕ → ℕ) → ((i : ℕ) → b i < 256) → (p : ℕ) → word_at b p < 2 ^ 64
word_below b bytes p = omega (
  arith,
  bytes p,
  bytes (p + 1),
  bytes (p + 2),
  bytes (p + 3),
  bytes (p + 4),
  bytes (p + 5),
  bytes (p + 6),
  bytes (p + 7),
)

fields_bytes-append :
    (ws vs ws' vs' : List ℕ)
    → length ws ≡ length vs
    → fields_bytes (ws ++ ws') (vs ++ vs') ≡ fields_bytes ws vs ++ fields_bytes ws' vs'
unfolding fields_bytes
fields_bytes-append [] [] ws' vs' e = refl
fields_bytes-append [] (v ∷ vs) ws' vs' e = absurd (omega arith)
fields_bytes-append (w ∷ ws) [] ws' vs' e = absurd (omega arith)
fields_bytes-append (w ∷ ws) (v ∷ vs) ws' vs' e =
    ap (λ xs. le_bytes w v ++ xs) (fields_bytes-append ws vs ws' vs' (omega arith))
    ∙ sym (append_assoc (le_bytes w v) (fields_bytes ws vs) (fields_bytes ws' vs'))

module _ (b : ℕ → ℕ) (bytes : (i : ℕ) → b i < 256) (p : ℕ) where
  segment :
      (q n : ℕ) → fields_bytes (copies n 8) (words_at b q n) ≡ bytes_at b q (total (copies n 8))
  segment q n =
      ap (fields_bytes (copies n 8)) (words_at-fields_at b n q)
      ∙ fields_bytes-fields_at b bytes q (copies n 8)

  words_below : (n q k : ℕ) → get_or (words_at b q n) k 0 < 2 ^ 64
  unfolding words_at
  words_below zero q k = omega arith
  words_below (suc n) q zero = word_below b bytes q
  words_below (suc n) q (suc k) = words_below n (q + 8) k

  three_segments :
      fields_bytes
        (copies 14 8)
        (words_at b p 6 ++ (words_at b (p + 56) 3 ++ words_at b (p + 88) 5))
      ≡ embedded_bytes b p
  unfolding words_at
  three_segments =
      fields_bytes-append (copies 6 8) (words_at b p 6) (copies 8 8)
        (words_at b (p + 56) 3 ++ words_at b (p + 88) 5) refl
      ∙ ap₂ (λ xs ys. xs ++ ys) (segment p 6)
          (fields_bytes-append (copies 3 8) (words_at b (p + 56) 3) (copies 5 8)
              (words_at b (p + 88) 5) refl
            ∙ ap₂ (λ xs ys. xs ++ ys) (segment (p + 56) 3) (segment (p + 88) 5))

  -- The data of an embedded pointer are its words but the seventh and the eleventh.
  payload_words :
      payload (blkptr_of (words_at b p 16) 0)
      ≡ words_at b p 6 ++ (words_at b (p + 56) 3 ++ words_at b (p + 88) 5)
  unfolding payload words_at
  payload_words =
      let at7 : p + 8 + 8 + 8 + 8 + 8 + 8 + 8 ≡ p + 56 = omega arith in
      let at11 : p + 8 + 8 + 8 + 8 + 8 + 8 + 8 + 8 + 8 + 8 + 8 ≡ p + 88 = omega arith in
      ap (λ xs. words_at b p 6 ++ xs)
        (ap₂ (λ xs ys. xs ++ ys) (ap (λ (q : ℕ). words_at b q 3) at7)
          (ap (λ (q : ℕ). words_at b q 5) at11))

  -- `BlockPtr.parse` takes from a pointer to a block in memory the addresses with their gang bits, the
  -- sizes, the properties, the birth, the fill count and the checksum as the tables say, with sizes and
  -- offsets in bytes where the tables have units of 512; its level has the bits for encryption and
  -- deduplication besides.
  pub parse-SamePointer :
      (prop_bits (blkptr_of (words_at b p 16) 0).blk_prop).embedded ≡ 0
      → SamePointer (blkptr_of (words_at b p 16) 0) (parse b p)
  unfolding parse words_at prop_bits
  parse-SamePointer e =
      let ws = words_at b p 16 in
      subst (SamePointer (blkptr_of ws 0)) (sym (rw (eq→== (field (get_or ws 6 0) 39 1) 0 e) refl))
        (parse_words-Same ws (words_below 16 p))

  -- Of a pointer with embedded data it takes the sizes and the kind of the data, and the data
  -- themselves, as the table for such pointers says.
  pub parse-SameEmbedded :
      (prop_bits (blkptr_of (words_at b p 16) 0).blk_prop).embedded ≡ 1
      → SameEmbedded (blkptr_of (words_at b p 16) 0) (parse b p)
  unfolding parse words_at prop_bits embedded_bits
  parse-SameEmbedded e =
      let ws = words_at b p 16 in
      let prop = get_or ws 6 0 in
      let parsed : parse b p ≡ with_embedded b p prop (parse_words ws) =
        rw (ne→== (field prop 39 1) 0 (λ z. omega (arith, e, z))) refl in
      subst (SameEmbedded (blkptr_of ws 0)) (sym parsed) (record {
        lsize = refl;
        psize = refl;
        comp = refl;
        type = refl;
        birth_txg = refl;
        holds = (
          _,
          refl,
          refl,
          refl,
          sym (ap (fields_bytes (copies 14 8)) payload_words ∙ three_segments),
        );
      })
