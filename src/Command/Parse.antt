-- ===== src/Command/Parse.antt =====
-- `getopt` with the options "vc:d:", as the GNU library reads them where POSIXLY_CORRECT is not set,
-- and `strtok` with ":".
use Prim.Native.String.{String, [] as nil, ◌∷◌ as ◌◁◌, ◌++◌ as ◌<>◌}
use Prim.Native.Char.{code}
use dumpbin_py_zfs_rescue.Common.{
  [], ◌∷◌, ◌++◌, List, Bool, true, false, Option, none, some, ◌==◌, if◌then◌else◌,
}

-- What the options say, and the other arguments in their order.
pub record Args : Type 0 where
  pub verbose : Bool
  pub vdev : Option String
  pub rest : List String

-- Whether an option waits for its argument in the next word.
pub data Pending : Type 0 where
  ready : Pending
  wants_c : Pending
  wants_d : Pending

-- `getopt` returns '?' for an option that it does not know, or without its argument.
pub data Parsed : Type 0 where
  parsed : Args → Parsed
  refused : Parsed

pub data Kind : Type 0 where
  plain : Kind
  end_mark : Kind
  cluster : String → Kind

-- A word with "-" and more holds options, "--" ends them, and any other word is no option.
unfoldable pub kind : String → Kind
kind nil = plain
kind (c ◁ nil) = plain
kind (c ◁ (x ◁ nil)) =
    if code c == 45 then (if code x == 45 then end_mark else cluster (x ◁ nil)) else plain
kind (c ◁ (x ◁ (y ◁ s))) = if code c == 45 then cluster (x ◁ (y ◁ s)) else plain

pub data Clustered : Type 0 where
  bad : Clustered
  next : Pending → Args → Clustered

unfoldable pub with_c : String → Args → Clustered
with_c nil o = next wants_c o
with_c (c ◁ s) o = next ready (record o { vdev = some (c ◁ s) })

unfoldable pub with_d : String → Args → Clustered
with_d nil o = next wants_d o
with_d (c ◁ s) o = next ready o

-- The options of one word: "v" stands alone, "c" and "d" take what is left of the word, if there is
-- anything, else the next word.
unfoldable pub read_cluster : String → Args → Clustered
unfolding with_c with_d
read_cluster nil o = next ready o
read_cluster (c ◁ s) o = elim (code c == 118) [
  | true ↦ read_cluster s (record o { verbose = true })
  | false ↦ if code c == 99 then with_c s o else if code c == 100 then with_d s o else bad
]

-- while ((c = getopt (argc, argv, "vc:d:")) != -1), over the words behind the program's name.
unfoldable pub scan : List String → Pending → Args → Parsed
unfolding kind read_cluster
scan [] ready o = parsed o
scan [] wants_c o = refused
scan [] wants_d o = refused
scan (a ∷ as_left) wants_c o = scan as_left ready (record o { vdev = some a })
scan (a ∷ as_left) wants_d o = scan as_left ready o
scan (a ∷ as_left) ready o = elim (kind a) [
  | plain ↦ scan as_left ready (record o { rest = o.rest ++ (a ∷ []) })
  | end_mark ↦ parsed (record o { rest = o.rest ++ as_left })
  | cluster s ↦ elim (read_cluster s o) [ bad ↦ refused | next p o' ↦ scan as_left p o' ]
]

abbrev pub no_args : Args
no_args = record { verbose = false; vdev = none; rest = [] }

unfoldable pub flush : String → List String → List String
flush nil names = names
flush (c ◁ s) names = (c ◁ s) ∷ names

-- All tokens of a text, where `token` is the part of one that is read already. Empty ones are skipped.
unfoldable pub strtok : String → (token : String) → List String
unfolding flush
strtok nil token = flush token []
strtok (c ◁ s) token = elim (code c == 58) [
  | true ↦ flush token (strtok s nil)
  | false ↦ strtok s (token <> (c ◁ nil))
]
