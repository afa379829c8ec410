-- ===== src/Rescue/DecodedBlock.antt =====
-- `read_block` of a block that LZ4 has compressed returns its text.
use dumpbin_py_zfs_rescue.Common.{
  ℕ, zero, suc, ◌+◌, ◌^◌, ◌≤◌, ◌<◌, ◌≡◌, ◌≢◌, inl, inr, refl, ap, ◌∙◌, arith, [], ◌∷◌, List, Bool,
  false, Option, none, some, ◌&&◌, length, get_or, ltb, le→ltb, Bool-cases, ◌==◌, if◌then◌else◌,
}
use dumpbin_py_zfs_rescue.Lz4.Header.{big_endian32}
use dumpbin_py_zfs_rescue.Lz4.Decompress.{rest_of}
use dumpbin_py_zfs_rescue.Lz4.Block.{Block}
use dumpbin_py_zfs_rescue.Lz4.Accept.{Closes}
use dumpbin_py_zfs_rescue.Lz4.Unique.{HasDistances}
use dumpbin_py_zfs_rescue.Rescue.Py.{Py, done}
use dumpbin_py_zfs_rescue.Rescue.BlockPtr.{PyBlkptr, is_empty, get_dva}
use dumpbin_py_zfs_rescue.Rescue.Repair.{take}
use dumpbin_py_zfs_rescue.Rescue.Lz4.{Returned, returns, fails, out_of_fuel, lz4zfs_decompress}
use dumpbin_py_zfs_rescue.Rescue.Lz4Ends.{lz4zfs_decompress_ends}
use dumpbin_py_zfs_rescue.Rescue.Lz4Decodes.{lz4zfs_decompress-decodes}
use dumpbin_py_zfs_rescue.Rescue.Block.{
  lz4_caught, input_of, check_read, fit, decompress, deliver, raw_data, read_block,
}
use dumpbin_py_zfs_rescue.Rescue.Delivered.{length-fit}

get_or-take : (n : ℕ) (xs : List ℕ) (i : ℕ) → i < n → get_or (take n xs) i 0 ≡ get_or xs i 0
get_or-take zero xs i lt = absurd (omega arith)
get_or-take (suc n) [] i lt = refl
get_or-take (suc n) (x ∷ xs) zero lt = refl
get_or-take (suc n) (x ∷ xs) (suc i) lt = get_or-take n xs i (omega arith)

get_or-fit :
    (n : ℕ) (bytes : List ℕ) (i : ℕ)
    → n ≤ length bytes
    → i < n
    → get_or (fit n bytes) i 0 ≡ get_or bytes i 0
unfolding fit
get_or-fit n bytes i enough lt = elim (Bool-cases (ltb n (length bytes))) [
  | inl long ↦ rw (le→ltb (length bytes) n enough, long) (get_or-take n bytes i lt)
  | inr exact ↦ rw (le→ltb (length bytes) n enough, exact) refl
]

abbrev result_or : Option (List ℕ) → Returned → Option (List ℕ)
result_or x (returns y) = y
result_or x fails = x
result_or x out_of_fuel = x

caught_lem :
    (r : Returned) (ends : r ≢ out_of_fuel) (x : Option (List ℕ))
    → r ≡ returns x
    → lz4_caught r ends ≡ x
caught_lem (returns y) ends x e = ap (result_or y) e
caught_lem fails ends x e = ground (arith, e)
caught_lem out_of_fuel ends x e = absurd (ends refl)

-- A pointer to a block of a device: not empty, not a gang, with an address or a size.
pub record IsPlain (p : PyBlkptr) (dvanum : ℕ) : Type 0 where
  pub present : is_empty p ≡ false
  pub no_gang : (get_dva p dvanum).gang ≡ false
  pub somewhere : ((get_dva p dvanum).offset == 0) && (p.psize == 0) ≡ false
  pub not_embedded : p.embedded ≡ none

module _ (inflate : List ℕ → Py (List ℕ)) where
  lz4_delivered :
      (p : PyBlkptr) (lsize : ℕ) (cksum : Bool) (raw dst : List ℕ)
      → p.comp ≡ 15
      → lz4zfs_decompress (input_of raw) ≡ returns (some dst)
      → deliver inflate p lsize cksum (some raw) ≡ done (some (fit lsize dst), cksum)
  unfolding deliver decompress
  lz4_delivered p lsize cksum raw dst comp e =
      let caught_e =
        caught_lem (lz4zfs_decompress (input_of raw)) (lz4zfs_decompress_ends (input_of raw))
          (some dst) e in
      rw (comp, caught_e) refl

  module _ (read_physical : (offset psize : ℕ) → Py (Option (List ℕ))) (ashift : ℕ) where
    raw_data-read :
        (p : PyBlkptr) (offset : ℕ) (raw : List ℕ) (cksum : Bool)
        → read_physical offset (if ltb p.psize (2 ^ ashift) then 2 ^ ashift else p.psize)
          ≡ done (some raw)
        → check_read p (some raw) ≡ done cksum
        → raw_data inflate read_physical ashift p none offset ≡ done (some raw, cksum)
    unfolding raw_data
    raw_data-read p offset raw cksum read checks = rw (read, checks) refl

    read_block-plain :
        (p : PyBlkptr) (dvanum : ℕ) (r : Option (List ℕ) × Bool)
        → IsPlain p dvanum
        → raw_data inflate read_physical ashift p none (get_dva p dvanum).offset ≡ done r
        → read_block inflate read_physical ashift p dvanum ≡ deliver inflate p p.lsize r.1 r.0
    unfolding read_block
    read_block-plain p dvanum r plain e =
        rw (plain.present, plain.no_gang, plain.somewhere, plain.not_embedded, e) refl

    -- `read_block` of a plain pointer to a block that LZ4 has compressed from a text of the size that the
    -- pointer says, where the reader delivers the header and the block with two bytes behind it, and the
    -- checksum can be looked at: it returns that text, with the verdict on the checksum. The block has no
    -- distance of 0 and ends with five literals or more.
    pub read_block-decodes :
        (p : PyBlkptr) (dvanum : ℕ) (raw : List ℕ) (cksum : Bool) (f : ℕ → ℕ)
        (b : Block (rest_of (input_of raw) 4) (big_endian32 (input_of raw).byte 0) f 0 0 p.lsize)
        → IsPlain p dvanum
        → p.comp ≡ 15
        → read_physical
            (get_dva p dvanum).offset
            (if ltb p.psize (2 ^ ashift) then 2 ^ ashift else p.psize)
          ≡ done (some raw)
        → check_read p (some raw) ≡ done cksum
        → HasDistances b
        → Closes b
        → big_endian32 (input_of raw).byte 0 + 6 ≤ length raw
        → (bytes : List ℕ) × (read_block inflate read_physical ashift p dvanum
            ≡ done (some bytes, cksum))
          × (length bytes ≡ p.lsize)
          × ((i : ℕ) → i < p.lsize → get_or bytes i 0 ≡ f i)
    read_block-decodes p dvanum raw cksum f b plain comp read checks pos closes room =
        let (dst, e, longer, same) =
          lz4zfs_decompress-decodes (input_of raw) f p.lsize b pos closes room in
        let offset = (get_dva p dvanum).offset in
        (
          fit p.lsize dst,
          read_block-plain p dvanum (some raw, cksum) plain
                (raw_data-read p offset raw cksum read checks)
              ∙ lz4_delivered p p.lsize cksum raw dst comp e,
          length-fit p.lsize dst,
          λ i lt. get_or-fit p.lsize dst i longer lt ∙ same i lt,
        )
