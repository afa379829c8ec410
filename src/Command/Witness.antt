-- ===== src/Command/Witness.antt =====
-- The properties of the command line at small ones.
use Prim.Native.String.{String}
use dumpbin_py_zfs_rescue.Common.{[], ◌∷◌, ◌++◌, List, some, ◌≡◌, refl, arith, aborted}
use dumpbin_py_zfs_rescue.Raidz.Witness.{some_files, empty_heap}
use dumpbin_py_zfs_rescue.Command.Parse.{parsed, kind, ready, scan, no_args, strtok}
use dumpbin_py_zfs_rescue.Command.Run.{main}
use dumpbin_py_zfs_rescue.Command.Tokens.{
  done, char, IsName, AreNames, none_left, name, join, strtok-join,
}
use dumpbin_py_zfs_rescue.Command.Options.{ArePlain, scan-command_line}
use dumpbin_py_zfs_rescue.Command.Outcomes.{Ends, main-Ends, main_devices}

a-IsName : IsName "a"
a-IsName = record { some_char = λ e. cc; no_colon = char (omega arith) done }

b-IsName : IsName "b"
b-IsName = record { some_char = λ e. cc; no_colon = char (omega arith) done }

abbrev two_names : List String
two_names = "a" ∷ "b" ∷ []

two_names-AreNames : AreNames two_names
two_names-AreNames = name a-IsName (name b-IsName none_left)

strtok-join_example : strtok (join two_names) "" ≡ two_names
strtok-join_example = strtok-join two_names two_names-AreNames

abbrev dnode_word : List String
dnode_word = "0:4000:2000" ∷ []

abbrev path_word : List String
path_word = "out" ∷ []

dnode_word-ArePlain : ArePlain dnode_word
unfolding kind
dnode_word-ArePlain = ArePlain.word refl ArePlain.none_left

path_word-ArePlain : ArePlain path_word
unfolding kind
path_word-ArePlain = ArePlain.word refl ArePlain.none_left

scan-command_line_example :
    scan (dnode_word ++ ("-c" ∷ "a:b" ∷ path_word)) ready no_args
    ≡ parsed (record no_args { vdev = some "a:b"; rest = dnode_word ++ path_word })
scan-command_line_example =
    scan-command_line dnode_word path_word "a:b" dnode_word-ArePlain path_word-ArePlain

main-Ends_example :
    Ends some_files empty_heap
      (scan dnode_word ready no_args)
      (main some_files dnode_word empty_heap)
main-Ends_example = main-Ends some_files dnode_word empty_heap

main_devices_example :
    main some_files (dnode_word ++ ("-c" ∷ join two_names ∷ path_word)) empty_heap ≡ aborted
main_devices_example =
    main_devices some_files dnode_word path_word two_names empty_heap dnode_word-ArePlain
      path_word-ArePlain (omega arith) two_names-AreNames (omega arith)
