-- ===== src/Command/Options.antt =====
-- Where the option with the devices stands in the command line.
use Prim.Native.String.{String}
use dumpbin_py_zfs_rescue.Common.{[], ◌∷◌, ◌++◌, List, some, ◌≡◌, ap, ◌∙◌, sym}
use mathlib.Core.List.{append-nil, append_assoc}
use dumpbin_py_zfs_rescue.Command.Parse.{Args, parsed, ready, plain, kind, scan, no_args}

-- Words that hold no option.
pub data ArePlain : List String → Type 0 where
  none_left : ArePlain []
  word : {a : String} {words : List String} → kind a ≡ plain → ArePlain words → ArePlain (a ∷ words)

scan-plain :
    (words others : List String) (o : Args)
    → ArePlain words
    → scan (words ++ others) ready o ≡ scan others ready (record o { rest = o.rest ++ words })
unfolding scan
scan-plain [] others o none_left =
    ap (λ xs. scan others ready (record o { rest = xs })) (sym (append-nil o.rest))
scan-plain (a ∷ words) others o (word e h) =
    rw (e, scan)
      (scan-plain words others (record o { rest = o.rest ++ (a ∷ []) }) h
        ∙ ap (λ xs. scan others ready (record o { rest = xs }))
            (append_assoc o.rest (a ∷ []) words))

-- `getopt` with "-c" and a text among words that hold no options: the text names the devices,
-- whatever it is, and the words before and behind are the other arguments, in their order.
pub scan-command_line :
    (before behind : List String) (devices : String)
    → ArePlain before
    → ArePlain behind
    → scan (before ++ ("-c" ∷ devices ∷ behind)) ready no_args
      ≡ parsed (record no_args { vdev = some devices; rest = before ++ behind })
unfolding scan
scan-command_line before behind devices h h' =
    let given : Args = record no_args { vdev = some devices; rest = before } in
    scan-plain before ("-c" ∷ devices ∷ behind) no_args h
    ∙ ap (λ xs. scan xs ready given) (sym (append-nil behind))
    ∙ scan-plain behind [] given h'
