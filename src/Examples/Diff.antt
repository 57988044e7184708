-- ===== src/Examples/Diff.antt =====
-- internal/reconcile/reconcile.go on small snapshots.
use fsrecon.Prelude.{
  ◌≡◌, refl, Str, bytes, Map, none, some, [], ◌∷◌, get, put, remove, str_eq, str_leb, sort, keys,
  sorted_keys, Result, err,
}
use fsrecon.Diff.{
  State, Change, change, moved, modified, type_regular, diff, walk_diff, walk_diff_scoped,
  walk_existing, walk_pair, walk_moves, walk_rest, walk_created, walk_deleted, walk_expected,
  walk_orphans, classify, index_unique_ids, index_ids, remove_all,
}
use fsrecon.Diff.Index.{get-index_unique_ids, owners}
use fsrecon.Diff.Spec.{all_changes}
use fsrecon.Diff.Refines.{walk_diff_scoped-feed, feed}

abbrev file : Str → Str → State
file path id = record {
  path = path;
  id = id;
  file_type = type_regular;
  size = 1;
  mod_unix = 5;
  mode = 420;
}

abbrev a : Str
a = bytes "/r/a"

abbrev b : Str
b = bytes "/r/b"

abbrev c : Str
c = bytes "/r/c"

-- `a` is renamed to `c`, and `b` is written to.
abbrev before : Map State
before = (a, file a (bytes "1")) ∷ (b, file b (bytes "2")) ∷ []

abbrev after : Map State
after = (c, file c (bytes "1")) ∷ (b, record (file b (bytes "2")) { size = 9 }) ∷ []

rename_and_write :
    diff before after none
    ≡ change modified b []
        (some (file b (bytes "2")))
        (some (record (file b (bytes "2")) { size = 9 }))
      ∷ change moved c a (some (file a (bytes "1"))) (some (file c (bytes "1")))
      ∷ []
unfolding diff walk_diff walk_diff_scoped walk_existing walk_pair walk_moves walk_rest walk_created
    walk_deleted walk_expected walk_orphans classify index_unique_ids index_ids remove_all get put
    remove sorted_keys sort keys str_eq str_leb
rename_and_write = refl

-- A callback that fails at the first change.
abbrev refuse : Change → Str → Result Str Str
refuse c s = err (bytes "full") s

walk_diff_scoped-feed_example :
    walk_diff_scoped refuse before after none none []
    ≡ feed refuse (all_changes before after none none) []
walk_diff_scoped-feed_example = walk_diff_scoped-feed refuse before after none none []

get-index_unique_ids_example : get (index_unique_ids before) (bytes "2") ≡ some b
unfolding owners str_eq
get-index_unique_ids_example = get-index_unique_ids before (bytes "2")
