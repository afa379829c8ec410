-- ===== src/Lz4/Tests.antt =====
-- Runs of the decoder on small blocks.
use dumpbin_py_zfs_rescue.Common.{some, ℕ, zero, suc, ◌+◌, ◌≡◌, refl, List, [], ◌∷◌, get_or}
use dumpbin_py_zfs_rescue.Lz4.Run.{fault, ok, ◌>>=◌, Input, Output}
use dumpbin_py_zfs_rescue.Lz4.Binding.{py_lz4_uncompress}
use dumpbin_py_zfs_rescue.Lz4.Decode.{uncompress_unknown_output_size}

abbrev of_bytes : ℕ → List ℕ → Input
of_bytes n bytes = record { size = n; byte = λ i. get_or bytes i 0 }

abbrev empty_output : ℕ → Output
empty_output n = record { size = n; byte = λ i. 0 }

abbrev taken : ℕ → ℕ → (ℕ → ℕ) → List ℕ
taken zero i f = []
taken (suc n) i f = f i ∷ taken n (i + 1) f

-- One literal, a run of it 22 bytes long, and the last literals.
abbrev run_block : Input
run_block = of_bytes 11 (0x1f ∷ 65 ∷ 1 ∷ 0 ∷ 3 ∷ 0x50 ∷ 66 ∷ 67 ∷ 68 ∷ 69 ∷ 70 ∷ [])

run_decodes :
    (uncompress_unknown_output_size run_block 11 (empty_output 40) >>= λ d.
    ok (d.op ∷ taken 8 21 d.out.byte))
    ≡ ok (28 ∷ 65 ∷ 65 ∷ 66 ∷ 67 ∷ 68 ∷ 69 ∷ 70 ∷ 0 ∷ [])
unfolding uncompress_unknown_output_size
run_decodes = refl

-- A length of 5 in an object of 5 bytes, of which the header has four: the last literals are read
-- behind the end of the object, and of the zero byte that follows it.
overlong_faults :
    py_lz4_uncompress (λ n. some (λ i. 0)) (of_bytes 6 (0 ∷ 0 ∷ 0 ∷ 5 ∷ 0x40 ∷ 0 ∷ [])) 5 40 ≡ fault
unfolding py_lz4_uncompress
overlong_faults = refl
