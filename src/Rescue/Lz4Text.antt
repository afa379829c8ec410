-- ===== src/Rescue/Lz4Text.antt =====
-- The pieces of a text that `lz4zfs_decompress` puts together: literals, and matches byte by byte.
use dumpbin_py_zfs_rescue.Common.{
  ℕ, zero, suc, ◌+◌, ◌-◌, ◌≤◌, ◌<◌, ◌≡◌, refl, sym, ap, ◌∙◌, arith, [], ◌∷◌, ◌++◌, List, length,
  get_or, true, leb, le→ltb, ne→==,
}
use mathlib.Core.Path.{subst}
use native.Mathlib.Decide.{dec_lt}
use dumpbin_py_zfs_rescue.Pool.Fields.{bytes_at}
use dumpbin_py_zfs_rescue.Lz4.Run.{Input}
use dumpbin_py_zfs_rescue.Lz4.Decompress.{rest_of}
use dumpbin_py_zfs_rescue.Lz4.Block.{Literals}
use dumpbin_py_zfs_rescue.Lz4.Periodic.{Repeats}
use dumpbin_py_zfs_rescue.Rescue.SameRead.{get_or-append_low, get_or-append_high, length-append}
use dumpbin_py_zfs_rescue.Rescue.Lz4.{slice, byte_before, copy_loop}

-- The bytes are the first `op` of the text `f`.
pub record IsText (f : ℕ → ℕ) (op : ℕ) (dst : List ℕ) : Type 0 where
  pub count : length dst ≡ op
  pub same : (i : ℕ) → i < op → get_or dst i 0 ≡ f i

length-bytes_at : (b : ℕ → ℕ) (p n : ℕ) → length (bytes_at b p n) ≡ n
length-bytes_at b p zero = refl
length-bytes_at b p (suc n) = omega (arith, length-bytes_at b (p + 1) n)

get_or-bytes_at : (b : ℕ → ℕ) (p n i : ℕ) → i < n → get_or (bytes_at b p n) i 0 ≡ b (p + i)
get_or-bytes_at b p zero i lt = absurd (omega arith)
get_or-bytes_at b p (suc n) zero lt = ap b (omega arith)
get_or-bytes_at b p (suc n) (suc i) lt =
    get_or-bytes_at b (p + 1) n i (omega arith) ∙ ap b (omega arith)

byte_before_inside :
    (off : ℕ) (dst : List ℕ)
    → 0 < off
    → off ≤ length dst
    → byte_before off dst ≡ get_or dst (length dst - off) 0 ∷ []
byte_before_inside off dst pos le =
    let test : leb off (length dst) ≡ true = ground arith in
    rw (test, ne→== off 0 (λ e. omega (arith, e))) refl

one_byte : (f : ℕ → ℕ) (op x i : ℕ) → i < 1 → x ≡ f (op + 0) → get_or (x ∷ []) i 0 ≡ f (op + i)
one_byte f op x zero lt e = e
one_byte f op x (suc i) lt e = absurd (omega arith)

module _ (f : ℕ → ℕ) where
  append-IsText :
      (op n : ℕ) (dst xs : List ℕ)
      → IsText f op dst
      → length xs ≡ n
      → ((i : ℕ) → i < n → get_or xs i 0 ≡ f (op + i))
      → IsText f (op + n) (dst ++ xs)
  append-IsText op n dst xs t len xs_same = record {
    count = omega (arith, length-append dst xs, t.count);
    same = λ i lt. elim (dec_lt i op) [
      | yes low ↦ get_or-append_low dst xs i (omega (arith, t.count)) ∙ t.same i low
      | no high ↦
          get_or-append_high dst xs i (omega (arith, t.count))
          ∙ xs_same (i - length dst) (omega (arith, t.count))
          ∙ ap f (omega (arith, t.count))
    ];
  }

  pub Literals-IsText :
      (src : Input) (op ip q n : ℕ) (dst : List ℕ)
      → IsText f op dst
      → ip ≡ 4 + q
      → Literals f (rest_of src 4) op q n
      → ip + n ≤ src.size
      → IsText f (op + n) (dst ++ slice src ip n)
  Literals-IsText src op ip q n dst t e lits room = rw (le→ltb src.size (ip + n) room) (
      append-IsText op n dst (bytes_at src.byte ip n) t (length-bytes_at src.byte ip n) (λ i lt.
        get_or-bytes_at src.byte ip n i lt ∙ ap src.byte (omega (arith, e)) ∙ sym (lits i lt)))

  -- A match repeats what is before it, byte by byte.
  pub copy_loop-IsText :
      (left off op : ℕ) (dst : List ℕ)
      → 0 < off
      → off ≤ op
      → Repeats f off op (op + left)
      → IsText f op dst
      → IsText f (op + left) (copy_loop left off dst)
  unfolding copy_loop
  copy_loop-IsText zero off op dst pos back again t =
      subst (λ (k : ℕ). IsText f k dst) (omega arith) t
  copy_loop-IsText (suc left) off op dst pos back again t =
      let x = get_or dst (length dst - off) 0 in
      let before : byte_before off dst ≡ x ∷ [] =
        byte_before_inside off dst pos (omega (arith, t.count)) in
      let x_e : x ≡ f (op + 0) =
        t.same (length dst - off) (omega (arith, t.count))
        ∙ ap f (omega (arith, t.count))
        ∙ sym (again op (omega arith) (omega arith))
        ∙ ap f (omega arith) in
      let longer = append-IsText op 1 dst (x ∷ []) t refl (λ i lt. one_byte f op x i lt x_e) in
      subst (λ (k : ℕ). IsText f k (copy_loop left off (dst ++ byte_before off dst))) (omega arith)
        (copy_loop-IsText left off (op + 1) (dst ++ byte_before off dst) pos (omega arith)
          (λ i le lt. again i (omega arith) (omega arith))
          (subst (λ xs. IsText f (op + 1) (dst ++ xs)) (sym before) longer))

-- What is copied behind the end changes nothing before it.
pub copy_loop-keeps :
    (left off : ℕ) (dst : List ℕ)
    → (length dst ≤ length (copy_loop left off dst))
      × ((i : ℕ) → i < length dst → get_or (copy_loop left off dst) i 0 ≡ get_or dst i 0)
unfolding copy_loop
copy_loop-keeps zero off dst = (omega arith, λ i lt. refl)
copy_loop-keeps (suc left) off dst =
    let longer = dst ++ byte_before off dst in
    let (le, same) = copy_loop-keeps left off longer in
    let len = length-append dst (byte_before off dst) in
    (
      omega (arith, le, len),
      λ i lt. same i (omega (arith, lt, len)) ∙ get_or-append_low dst (byte_before off dst) i lt,
    )
