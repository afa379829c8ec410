-- ===== src/Command/Run.antt =====
-- `main` of extractor/main.cpp, on the words behind the program's name.
use Prim.Native.String.{String, [] as nil}
use dumpbin_py_zfs_rescue.Common.{
  ℕ, List, Option, none, some, M, aborted, pure, ◌>>=◌, ◌>>◌, length, ltb, if◌then◌else◌,
}
use dumpbin_py_zfs_rescue.Raidz.Read.{Files, make_device}
use dumpbin_py_zfs_rescue.Pool.Label.{load_label}
use dumpbin_py_zfs_rescue.Pool.Blocks.{load_mos}
use dumpbin_py_zfs_rescue.Command.Parse.{Parsed, parsed, refused, ready, scan, no_args, strtok}

-- `exit(1)`, after a line that says how to call the program.
abbrev pub usage : M ℕ
usage = pure 1

-- The transaction group that `main` asks for.
abbrev pub tgx : ℕ
tgx = 2937

-- `loadChildDS` has an empty body.
abbrev pub load_child_ds : M (Unit {0})
load_child_ds = pure tt

-- The calls after the command line is read. The name of the dnode and the path are not used.
unfoldable pub extract : Files → String → M ℕ
unfolding strtok make_device load_label load_mos
extract files vdev = do
  r1 ← make_device (strtok vdev nil)
  tgxs ← load_label files r1 (λ t. none) 0 0
  datasets ← load_mos files r1 tgxs tgx (λ i. none)
  load_child_ds
  pure 0

-- if (!vdev || argc < 2) usage();
unfoldable pub run : Files → Option String → (others : List String) → M ℕ
unfolding extract
run files none others = usage
run files (some vdev) others = if ltb (length others) 2 then usage else extract files vdev

-- `abort ()` for an option that is refused.
unfoldable pub after_options : Files → Parsed → M ℕ
unfolding run
after_options files refused h = aborted
after_options files (parsed o) h = run files o.vdev o.rest h

-- The value is the status that the program exits with.
unfoldable pub main : Files → List String → M ℕ
unfolding scan after_options
main files argv = after_options files (scan argv ready no_args)
