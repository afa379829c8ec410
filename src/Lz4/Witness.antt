-- ===== src/Lz4/Witness.antt =====
-- The properties of the decoder at small blocks.
use dumpbin_py_zfs_rescue.Common.{
  ℕ, ◌+◌, ◌%◌, ◌≤◌, ◌≡◌, ◌⊎◌, arith, [], ◌∷◌, none, some, get_or, refl, sym, ◌∙◌, zero, suc, ◌-◌,
  ◌<◌, inr, true, false, ltb, lt→ltb,
}
use dumpbin_py_zfs_rescue.Lz4.Run.{fault, out_of_fuel, ok, output_error, Input, Output, Run}
use dumpbin_py_zfs_rescue.Lz4.Decode.{Decoder, uncompress_unknown_output_size}
use dumpbin_py_zfs_rescue.Lz4.Decompress.{rest_of, lz4_decompress_zfs}
use dumpbin_py_zfs_rescue.Lz4.Format.{Extended, short, long, IsBytes}
use dumpbin_py_zfs_rescue.Lz4.Sequence.{FailsIn}
use dumpbin_py_zfs_rescue.Lz4.Refine.{Decoded}
use dumpbin_py_zfs_rescue.Lz4.Block.{Block, sequence}
use dumpbin_py_zfs_rescue.Lz4.Unique.{HasDistances, SameText}
use dumpbin_py_zfs_rescue.Lz4.Text.{uncompress-text, uncompress-decodes, lz4_decompress-decodes}
use dumpbin_py_zfs_rescue.Lz4.Accept.{EndsInLiterals}
use dumpbin_py_zfs_rescue.Lz4.Binding.{py_lz4_uncompress}
use dumpbin_py_zfs_rescue.Lz4.Decompressed.{Ends, py_lz4_uncompress-Ends}
use dumpbin_py_zfs_rescue.Lz4.Loop.{uncompress-Decoded}
use dumpbin_py_zfs_rescue.Lz4.Header.{big_endian32, lz4_decompress-Decoded}

-- One literal, a run of it 22 bytes long, and the last literals.
abbrev block_bytes : ℕ → ℕ
block_bytes i = get_or (0x1f ∷ 65 ∷ 1 ∷ 0 ∷ 3 ∷ 0x50 ∷ 66 ∷ 67 ∷ 68 ∷ 69 ∷ 70 ∷ []) i 0

abbrev block_input : Input
block_input = record { size = 11; byte = λ i. block_bytes i % 256 }

block_input-IsBytes : IsBytes block_input
block_input-IsBytes i = omega arith

-- The same block behind its length.
abbrev zfs_input : Input
zfs_input = record {
  size = 15;
  byte = λ i.
      get_or (0 ∷ 0 ∷ 0 ∷ 11 ∷ 0x1f ∷ 65 ∷ 1 ∷ 0 ∷ 3 ∷ 0x50 ∷ 66 ∷ 67 ∷ 68 ∷ 69 ∷ 70 ∷ []) i 0
      % 256;
}

zfs_input-IsBytes : IsBytes zfs_input
zfs_input-IsBytes i = omega arith

abbrev room : Output
room = record { size = 40; byte = λ i. 65 }

lz4_decompress-Decoded_example :
    (lz4_decompress_zfs zfs_input 15 room ≡ ok (record { code = 1; decoded = none }))
    ⊎ ((d : Decoder) × (lz4_decompress_zfs zfs_input 15 room
          ≡ ok (record { code = 0; decoded = some d }))
        × (big_endian32 zfs_input.byte 0 + 4 ≤ 15)
        × Decoded (rest_of zfs_input 4) (big_endian32 zfs_input.byte 0) 0 0 room d)
lz4_decompress-Decoded_example =
    lz4_decompress-Decoded zfs_input 15 room zfs_input-IsBytes (omega arith) (omega arith)
      (omega arith) (omega arith)

uncompress-Decoded_example :
    FailsIn 0 11 (uncompress_unknown_output_size block_input 11 room)
    ⊎ ((d : Decoder) × (uncompress_unknown_output_size block_input 11 room ≡ ok d)
        × Decoded block_input 11 0 0 room d)
uncompress-Decoded_example =
    uncompress-Decoded block_input 11 room block_input-IsBytes (omega arith) (omega arith)
      (omega arith)

-- 23 times one byte, and the last five.
abbrev block_text : ℕ → ℕ
block_text i = elim (ltb i 23) [ true ↦ 65 | false ↦ 43 + i ]

below_five : (i : ℕ) → i < 5 → block_text (23 + i) ≡ block_input.byte (6 + i)
below_five zero lt = refl
below_five (suc zero) lt = refl
below_five (suc (suc zero)) lt = refl
below_five (suc (suc (suc zero))) lt = refl
below_five (suc (suc (suc (suc zero)))) lt = refl
below_five (suc (suc (suc (suc (suc i))))) lt = absurd (omega arith)

first_byte : (i : ℕ) → i < 1 → block_text (0 + i) ≡ block_input.byte (1 + i)
first_byte zero lt = refl
first_byte (suc i) lt = absurd (omega arith)

block_text-low : (i : ℕ) → i < 23 → block_text i ≡ 65
block_text-low i lt = rw (block_text, lt→ltb i 23 lt) refl

abbrev last_literals : Block block_input 11 block_text 5 23 28
last_literals = Block.last 5 6 (omega arith) (short (omega arith) refl refl) refl below_five refl

abbrev some_block : Block block_input 11 block_text 0 0 28
some_block =
    sequence 1 1 18 5 (omega arith) (short (omega arith) refl refl) first_byte (omega arith)
      (omega arith) (long 3 refl refl (Extended.last (omega arith) (omega arith) refl refl))
      (inr (λ i le lt. block_text-low i (omega arith) ∙ sym (block_text-low (i - 1) (omega arith))))
      last_literals

some_block-HasDistances : HasDistances some_block
unfolding HasDistances
some_block-HasDistances = (omega arith, tt)

abbrev decoded_of : Run Decoder → Decoder
decoded_of (ok d) = d
decoded_of (output_error k) = record { finished = true; ip = 0; op = 0; out = room }
decoded_of fault = record { finished = true; ip = 0; op = 0; out = room }
decoded_of out_of_fuel = record { finished = true; ip = 0; op = 0; out = room }

abbrev some_decoded : Decoder
some_decoded = decoded_of (uncompress_unknown_output_size block_input 11 room)

block_runs : uncompress_unknown_output_size block_input 11 room ≡ ok some_decoded
unfolding uncompress_unknown_output_size
block_runs = refl

uncompress-text_example : SameText block_text some_decoded.out.byte 28 some_decoded.op
uncompress-text_example =
    uncompress-text block_input 11 room block_text 28 some_block some_decoded
      some_block-HasDistances block_input-IsBytes (omega arith) (omega arith) (omega arith)
      block_runs

py_lz4_uncompress-Ends_example :
    Ends zfs_input 15
      (big_endian32 zfs_input.byte 0)
      40
      (some (λ i. 65))
      (py_lz4_uncompress (λ n. some (λ i. 65)) zfs_input 15 40)
py_lz4_uncompress-Ends_example =
    py_lz4_uncompress-Ends (λ n. some (λ i. 65)) zfs_input 15 40 zfs_input-IsBytes (omega arith)
      (omega arith) (omega arith) (omega arith) (inr (omega arith))

some_block-EndsInLiterals : EndsInLiterals some_block
unfolding EndsInLiterals
some_block-EndsInLiterals = omega arith

uncompress-decodes_example :
    (d : Decoder) × (uncompress_unknown_output_size block_input 11 room ≡ ok d)
    × SameText block_text d.out.byte 28 d.op
uncompress-decodes_example =
    uncompress-decodes block_input 11 room block_text 28 some_block some_block-HasDistances
      some_block-EndsInLiterals block_input-IsBytes (omega arith) (omega arith) (omega arith)
      (omega arith)

-- A block of three literals behind its length.
abbrev plain_input : Input
plain_input = record {
  size = 8;
  byte = λ i. get_or (0 ∷ 0 ∷ 0 ∷ 4 ∷ 0x30 ∷ 65 ∷ 65 ∷ 65 ∷ []) i 0 % 256;
}

three_bytes : (i : ℕ) → i < 3 → 65 ≡ (rest_of plain_input 4).byte (1 + i)
three_bytes zero lt = refl
three_bytes (suc zero) lt = refl
three_bytes (suc (suc zero)) lt = refl
three_bytes (suc (suc (suc i))) lt = absurd (omega arith)

abbrev plain_block : Block (rest_of plain_input 4) 4 (λ i. 65) 0 0 3
plain_block = Block.last 3 1 (omega arith) (short (omega arith) refl refl) refl three_bytes refl

plain_block-HasDistances : HasDistances plain_block
unfolding HasDistances
plain_block-HasDistances = tt

plain_block-EndsInLiterals : EndsInLiterals plain_block
unfolding EndsInLiterals
plain_block-EndsInLiterals = tt

lz4_decompress-decodes_example :
    (d : Decoder) × (lz4_decompress_zfs plain_input 8 room
      ≡ ok (record { code = 0; decoded = some d }))
    × SameText (λ i. 65) d.out.byte 3 d.op
lz4_decompress-decodes_example =
    lz4_decompress-decodes plain_input 8 room (λ i. 65) 3 plain_block plain_block-HasDistances
      plain_block-EndsInLiterals (λ i. omega arith) (omega arith) (omega arith) (omega arith)
      (omega arith) (omega arith)
