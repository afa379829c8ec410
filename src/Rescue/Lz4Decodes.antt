-- ===== src/Rescue/Lz4Decodes.antt =====
-- `lz4zfs_decompress` decodes the blocks that the decoder in C does.
use dumpbin_py_zfs_rescue.Common.{
  ℕ, zero, suc, ◌+◌, ◌-◌, ◌*◌, ◌/◌, ◌%◌, ◌≤◌, ◌<◌, ◌≡◌, refl, sym, ap, ◌∙◌, arith, [], ◌++◌, List,
  some, length, get_or, lt→ltb, le→ltb, inl, inr,
}
use mathlib.Core.Path.{ap₂, subst}
use dumpbin_py_zfs_rescue.Lz4.Run.{Input}
use dumpbin_py_zfs_rescue.Lz4.Header.{big_endian32}
use dumpbin_py_zfs_rescue.Lz4.Decompress.{rest_of}
use dumpbin_py_zfs_rescue.Lz4.Format.{HasLength}
use dumpbin_py_zfs_rescue.Lz4.Block.{Block, distance_at, Literals, IsMatch}
use dumpbin_py_zfs_rescue.Lz4.Periodic.{Repeats}
use dumpbin_py_zfs_rescue.Lz4.Accept.{Closes, Closes-room, HasLength-forward}
use dumpbin_py_zfs_rescue.Lz4.Unique.{HasDistances}
use dumpbin_py_zfs_rescue.Rescue.Py.{done}
use dumpbin_py_zfs_rescue.Rescue.Lz4.{
  slice, run_length, match_length, copy_loop, copy_match, State, sequence, returns, decode,
  lz4zfs_decompress,
}
use dumpbin_py_zfs_rescue.Rescue.Lz4Lengths.{
  read_of, fetch_inside, run_length_reads, match_length_reads, match_length_past,
}
use dumpbin_py_zfs_rescue.Rescue.Lz4Text.{
  IsText, Literals-IsText, copy_loop-IsText, copy_loop-keeps,
}

abbrev state_at : (ip : ℕ) → List ℕ → State
state_at ip dst = record { ip = ip; dst = dst }

IsMatch-Repeats :
    {off off' p n n' : ℕ} (f : ℕ → ℕ)
    → IsMatch f off' p n
    → 0 < off'
    → off ≡ off'
    → n ≡ n'
    → Repeats f off p n'
IsMatch-Repeats f (inl none_there) pos e e' = absurd (omega arith)
IsMatch-Repeats f (inr again) pos e e' = λ i lo hi. again i lo (omega arith) ∙ ap f (omega arith)

module _ (src : Input) (n : ℕ) (inside : n + 6 ≤ src.size) where
  copy_match_step :
      (token ip m r : ℕ) (dst : List ℕ)
      → ip + 1 < src.size
      → match_length src n token (ip + 2) ≡ read_of m r
      → copy_match src n token ip dst
        ≡ done (state_at r (copy_loop (m + 4) (src.byte ip + src.byte (ip + 1) * 256) dst))
  unfolding copy_match
  copy_match_step token ip m r dst lt e =
      rw (copy_match, fetch_inside src ip (omega arith), fetch_inside src (ip + 1) lt, e) refl

  sequence_step :
      (ip k q : ℕ) (dst : List ℕ) (st : State)
      → ip < src.size
      → run_length src n (src.byte ip) (ip + 1) ≡ read_of k q
      → copy_match src n (src.byte ip) (q + k) (dst ++ slice src q k) ≡ done st
      → sequence src n (state_at ip dst) ≡ done st
  unfolding sequence
  sequence_step ip k q dst st lt e e' = rw (sequence, fetch_inside src ip lt, e) e'

  decode_step :
      (fuel ip : ℕ) (dst : List ℕ) (st : State)
      → ip < n
      → sequence src n (state_at ip dst) ≡ done st
      → decode src (suc fuel) n (state_at ip dst) ≡ decode src fuel n st
  unfolding decode
  decode_step fuel ip dst st lt e = rw (decode, lt→ltb ip n lt, e) refl

  decode_stop :
      (fuel ip : ℕ) (dst : List ℕ)
      → n ≤ ip
      → decode src (suc fuel) n (state_at ip dst) ≡ returns (some dst)
  unfolding decode
  decode_stop fuel ip dst le = rw (decode, le→ltb ip n le) refl

  module _ (f : ℕ → ℕ) where
    -- What `decode` returns begins with the text.
    Decoded : (fuel ip fin : ℕ) → List ℕ → Type 0
    Decoded fuel ip fin dst =
        (dst' : List ℕ) × (decode src fuel n (state_at ip dst) ≡ returns (some dst'))
        × (fin ≤ length dst')
        × ((i : ℕ) → i < fin → get_or dst' i 0 ≡ f i)

    -- The last literals, and the match behind them that the block does not have.
    last-Decoded :
        (fuel p op k q : ℕ) (dst : List ℕ)
        → IsText f op dst
        → p + 6 ≤ n
        → 5 ≤ k
        → HasLength (rest_of src 4) n (src.byte (4 + p) / 16) (p + 1) k q
        → q + k ≡ n
        → Literals f (rest_of src 4) op q k
        → n - (4 + p) < fuel
        → Decoded fuel (4 + p) (op + k) dst
    unfolding Decoded
    last-Decoded zero p op k q dst t room five has all lits enough = absurd (omega arith)
    last-Decoded (suc zero) p op k q dst t room five has all lits enough = absurd (omega arith)
    last-Decoded (suc (suc fuel)) p op k q dst t room five has all lits enough =
        let token = src.byte (4 + p) in
        let ip = 4 + q + k in
        let text = dst ++ slice src (4 + q) k in
        let off = src.byte ip + src.byte (ip + 1) * 256 in
        let is_text : IsText f (op + k) text =
          Literals-IsText f src op (4 + q) q k dst t refl lits (omega arith) in
        let (m, reads) = match_length_past src n (omega arith) token (ip + 2) (omega arith) in
        let round =
          sequence_step (4 + p) k (4 + q) dst (state_at (ip + 2) (copy_loop (m + 4) off text))
            (omega arith)
            (run_length_reads src n (omega arith) token (4 + p + 1) (p + 1) k q (omega arith) has
              (omega arith))
            (copy_match_step token ip m (ip + 2) text (omega arith) reads) in
        let (longer, kept) = copy_loop-keeps (m + 4) off text in
        (
          copy_loop (m + 4) off text,
          decode_step (suc fuel) (4 + p) dst (state_at (ip + 2) (copy_loop (m + 4) off text))
                (omega arith) round
              ∙ decode_stop fuel (ip + 2) (copy_loop (m + 4) off text) (omega arith),
          omega (arith, longer, is_text.count),
          λ i lt. kept i (omega (arith, is_text.count)) ∙ is_text.same i lt,
        )

    -- A sequence with a block behind it.
    sequence-Decoded :
        (fuel p op k q m r fin : ℕ) (dst : List ℕ)
        → IsText f op dst
        → HasLength (rest_of src 4) n (src.byte (4 + p) / 16) (p + 1) k q
        → Literals f (rest_of src 4) op q k
        → 0 < distance_at (rest_of src 4) (q + k)
        → distance_at (rest_of src 4) (q + k) ≤ op + k
        → HasLength (rest_of src 4) n (src.byte (4 + p) % 16) (q + k + 2) m r
        → IsMatch f (distance_at (rest_of src 4) (q + k)) (op + k) (op + k + m + 4)
        → r + 6 ≤ n
        → ((dst' : List ℕ) → IsText f (op + k + m + 4) dst' → Decoded fuel (4 + r) fin dst')
        → Decoded (suc fuel) (4 + p) fin dst
    unfolding Decoded
    sequence-Decoded fuel p op k q m r fin dst t has lits pos back has' match room rest =
        let token = src.byte (4 + p) in
        let ip = 4 + q + k in
        let text = dst ++ slice src (4 + q) k in
        let off = src.byte ip + src.byte (ip + 1) * 256 in
        let le = HasLength-forward has in
        let le' = HasLength-forward has' in
        let off_e : off ≡ distance_at (rest_of src 4) (q + k) =
          ap₂ (λ (a b : ℕ). src.byte a + src.byte b * 256) (omega arith) (omega arith) in
        let again : Repeats f off (op + k) (op + k + (m + 4)) =
          IsMatch-Repeats f match pos off_e (omega arith) in
        let is_text : IsText f (op + k) text =
          Literals-IsText f src op (4 + q) q k dst t refl lits (omega arith) in
        let text' = copy_loop (m + 4) off text in
        let is_text' : IsText f (op + k + m + 4) text' =
          subst (λ (x : ℕ). IsText f x text') (omega arith)
            (copy_loop-IsText f (m + 4) off (op + k) text (omega (arith, off_e))
              (omega (arith, off_e)) again is_text) in
        let round =
          sequence_step (4 + p) k (4 + q) dst (state_at (4 + r) text') (omega arith)
            (run_length_reads src n (omega arith) token (4 + p + 1) (p + 1) k q (omega arith) has
              (omega arith))
            (copy_match_step token ip m (4 + r) text (omega arith) (
              match_length_reads src n (omega arith) token (ip + 2) (q + k + 2) m r (omega arith)
                has' (omega arith))) in
        let (dst', e, longer, same) = rest text' is_text' in
        (
          dst',
          decode_step fuel (4 + p) dst (state_at (4 + r) text') (omega arith) round ∙ e,
          longer,
          same,
        )

    block-Decoded :
        {p op fin : ℕ} (b : Block (rest_of src 4) n f p op fin)
        → HasDistances b
        → Closes b
        → (fuel : ℕ) (dst : List ℕ) → IsText f op dst
        → n - (4 + p) < fuel
        → Decoded fuel (4 + p) fin dst
    unfolding HasDistances Closes
    block-Decoded (Block.stop a c) pos closes fuel dst t enough = absurd closes
    block-Decoded {p} {op} (Block.last k q lt has all lits fin_e) pos closes fuel dst t enough =
        subst (λ (x : ℕ). Decoded fuel (4 + p) x dst) (sym fin_e)
          (last-Decoded fuel p op k q dst t (omega (arith, HasLength-forward has)) closes has all
            lits enough)
    block-Decoded (Block.sequence k q m r lt has lits two back has' match rest) pos closes zero dst
          t enough =
        absurd (omega arith)
    block-Decoded {p} {op} {fin} (Block.sequence k q m r lt has lits two back has' match rest) pos
          closes (suc fuel) dst t enough =
        sequence-Decoded fuel p op k q m r fin dst t has lits pos.0 back has' match
          (Closes-room rest closes).0
          (λ dst' t'.
            block-Decoded rest pos.1 closes fuel dst' t' (
              omega
                (arith, Closes-room rest closes, HasLength-forward has, HasLength-forward has')))

-- A header and a block of a text `f` of `fin` bytes, of the length that the header says, that has no
-- distance of 0, ends with five literals or more, and has two more bytes of input behind it, which are
-- read as a distance: `lz4zfs_decompress` returns bytes that begin with that text.
pub lz4zfs_decompress-decodes :
    (src : Input) (f : ℕ → ℕ) (fin : ℕ)
    (b : Block (rest_of src 4) (big_endian32 src.byte 0) f 0 0 fin)
    → HasDistances b
    → Closes b
    → big_endian32 src.byte 0 + 6 ≤ src.size
    → (dst : List ℕ) × (lz4zfs_decompress src ≡ returns (some dst))
      × (fin ≤ length dst)
      × ((i : ℕ) → i < fin → get_or dst i 0 ≡ f i)
unfolding lz4zfs_decompress Decoded
lz4zfs_decompress-decodes src f fin b pos closes inside =
    let n = big_endian32 src.byte 0 in
    let none_yet : IsText f 0 [] = record { count = refl; same = λ i lt. absurd (omega arith) } in
    rw (le→ltb src.size 4 (omega arith))
      (block-Decoded src n inside f b pos closes (suc n) [] none_yet (omega arith))
