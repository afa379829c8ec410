-- ===== src/Command/Outcomes.antt =====
-- What the extractor does with a command line.
use Prim.Native.String.{String, [] as nil}
use dumpbin_py_zfs_rescue.Common.{
  ℕ, ◌∷◌, ◌++◌, List, Option, none, some, ◌≤◌, ◌≡◌, ◌≢◌, refl, ap, ◌∙◌, arith, length, Heap,
  Outcome, ok, aborted, fault, and_then, ◌>>=◌, pure, ltb, le→ltb, ltb→lt, ltb→le, ne→==,
  if◌then◌else◌, Bool-cases, inl, inr, ◌⊎◌, ◌<◌,
}
use dumpbin_py_zfs_rescue.Raidz.Read.{Files, Device, make_device}
use dumpbin_py_zfs_rescue.Pool.Label.{Tgxs, load_label}
use dumpbin_py_zfs_rescue.Pool.Blocks.{Datasets, load_mos}
use dumpbin_py_zfs_rescue.Pool.Reads.{load_mos-never}
use dumpbin_py_zfs_rescue.Command.Parse.{
  Args, Parsed, parsed, refused, ready, scan, no_args, strtok,
}
use dumpbin_py_zfs_rescue.Command.Run.{main, run, after_options, extract, usage, tgx}
use dumpbin_py_zfs_rescue.Command.Tokens.{AreNames, join, strtok-join}
use dumpbin_py_zfs_rescue.Command.Options.{ArePlain, scan-command_line}

-- The extraction itself never returns: `loadMos` does not.
after_mos :
    (r : Outcome Datasets) (x : ℕ) (k : Heap)
    → ((ds : Datasets) (h : Heap) → r ≢ ok ds h)
    → and_then r (λ u. pure 0) ≢ ok x k
after_mos (ok ds h) x k never e = never ds h refl
after_mos aborted x k never e = ground (arith, e)
after_mos fault x k never e = ground (arith, e)

after_label :
    (files : Files) (r1 : Device) (r : Outcome Tgxs) (x : ℕ) (k : Heap)
    → and_then r (λ tgxs. load_mos files r1 tgxs tgx (λ i. none) >>= λ u. pure 0) ≢ ok x k
after_label files r1 (ok tgxs h) x k e =
    after_mos (load_mos files r1 tgxs tgx (λ i. none) h) x k
      (λ ds h'. load_mos-never files r1 tgxs tgx (λ i. none) ds h h') e
after_label files r1 aborted x k e = ground (arith, e)
after_label files r1 fault x k e = ground (arith, e)

after_device :
    (files : Files) (r : Outcome Device) (x : ℕ) (k : Heap)
    → and_then r (λ r1. load_label files r1 (λ t. none) 0 0 >>= λ tgxs.
        load_mos files r1 tgxs tgx (λ i. none) >>= λ u. pure 0)
      ≢ ok x k
after_device files (ok r1 h) x k e =
    after_label files r1 (load_label files r1 (λ t. none) 0 0 h) x k e
after_device files aborted x k e = ground (arith, e)
after_device files fault x k e = ground (arith, e)

extract_never : (files : Files) (vdev : String) (h k : Heap) (x : ℕ) → extract files vdev h ≢ ok x k
unfolding extract
extract_never files vdev h k x e = after_device files (make_device (strtok vdev nil) h) x k e

fails : (r : Outcome ℕ) → ((x : ℕ) (k : Heap) → r ≢ ok x k) → (r ≡ aborted) ⊎ (r ≡ fault)
fails (ok x k) never = absurd (never x k refl)
fails aborted never = inl refl
fails fault never = inr refl

-- A command line without devices, or with fewer than two other words.
abbrev pub IsIncomplete : Args → Type 0
IsIncomplete o = (o.vdev ≡ none) ⊎ (length o.rest < 2)

-- What `main` does with a command line that is read as `p`.
pub data Ends (files : Files) (h : Heap) (p : Parsed) (r : Outcome ℕ) : Type 0 where
  refuses : p ≡ refused → r ≡ aborted → Ends files h p r
  says_usage : (o : Args) → p ≡ parsed o → IsIncomplete o → r ≡ ok 1 h → Ends files h p r
  extracts :
      (o : Args) (vdev : String)
      → p ≡ parsed o
      → o.vdev ≡ some vdev
      → 2 ≤ length o.rest
      → r ≡ extract files vdev h
      → (r ≡ aborted) ⊎ (r ≡ fault)
      → Ends files h p r

run-Ends :
    (files : Files) (h : Heap) (o : Args) (vdev : Option String)
    → o.vdev ≡ vdev
    → Ends files h (parsed o) (run files vdev o.rest h)
unfolding run
run-Ends files h o none e = says_usage o refl (inl e) refl
run-Ends files h o (some vdev) e = elim (Bool-cases (ltb (length o.rest) 2)) [
  | inl few ↦ says_usage o refl (inr (ltb→lt (length o.rest) 2 few)) (rw few refl)
  | inr enough ↦
      let same : run files (some vdev) o.rest h ≡ extract files vdev h = rw enough refl in
      extracts o vdev refl e (ltb→le (length o.rest) 2 enough) same
        (rw same (fails (extract files vdev h) (λ x k r. extract_never files vdev h k x r)))
]

after_options-Ends :
    (files : Files) (h : Heap) (p : Parsed) → Ends files h p (after_options files p h)
unfolding after_options
after_options-Ends files h refused = refuses refl refl
after_options-Ends files h (parsed o) = run-Ends files h o o.vdev refl

-- `main` is aborted where the options are refused. It returns 1, with the memory as it was, where no
-- devices or fewer than two other words are given. Else it does what `extract` does, which is aborted
-- or faults.
pub main-Ends :
    (files : Files) (argv : List String) (h : Heap)
    → Ends files h (scan argv ready no_args) (main files argv h)
unfolding main
main-Ends files argv h = after_options-Ends files h (scan argv ready no_args)

module _ (files : Files) (before behind names : List String) (h : Heap) (plain : ArePlain before)
    (plain' : ArePlain behind) (enough : 2 ≤ length (before ++ behind))
    (good : AreNames names) where
  main-extract :
      main files (before ++ ("-c" ∷ join names ∷ behind)) h ≡ extract files (join names) h
  unfolding main run after_options
  main-extract =
      ap (λ p. after_options files p h) (scan-command_line before behind (join names) plain plain')
      ∙ ap (λ b. (if b then usage else extract files (join names)) h)
          (le→ltb (length (before ++ behind)) 2 enough)

  -- With a command line that names some number of devices other than three, and has two more words,
  -- the program is aborted by the constructor of `Raidz1Device`, and nothing is read.
  pub main_devices :
      length names ≢ 3 → main files (before ++ ("-c" ∷ join names ∷ behind)) h ≡ aborted
  unfolding extract make_device
  main_devices ne =
      main-extract ∙ rw (extract, strtok-join names good, ne→== (length names) 3 ne) refl
