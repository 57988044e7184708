-- ===== src/Examples/Dirtyset.antt =====
-- internal/dirtyset/dirtyset.go: a directory replaces the two below it.
use fsrecon.Prelude.{
  ◌≡◌, refl, Str, bytes, false, not, ◌||◌, List, [], ◌∷◌, length, str_eq, sort, str_leb,
}
use fsrecon.FilePath.{clean, split, rel, rel_parts, within, starts_with, join_path}
use fsrecon.Dirtyset.{
  new, add, mark, drain, len, collect, relative_parts, get_child, set_child, count_dirty,
}
use fsrecon.Dirtyset.Coverage.{covers, begins, add-covers}
use fsrecon.Dirtyset.Size.{add_each, drain_all}

abbrev hints : List Str
hints = bytes "/r/a/b" ∷ bytes "/r/a/c" ∷ bytes "/r/d" ∷ bytes "/r/a" ∷ []

hints_collapse : (drain (add_each hints (new (bytes "/r")))).0 ≡ bytes "/r/a" ∷ bytes "/r/d" ∷ []
unfolding drain add_each add new mark relative_parts clean rel rel_parts within join_path
    starts_with split str_eq sort str_leb get_child set_child count_dirty collect
hints_collapse = refl

drain_all_example :
    let s = add_each hints (new (bytes "/r")) in
    (length (drain s).0 ≡ len s)
    × (len (drain s).1 ≡ 0)
    × ((qs : List Str) → covers qs (drain s).1.tree ≡ false)
drain_all_example = drain_all (bytes "/r") hints

add-covers_example :
    let s = new (bytes "/r") in
    let parts = relative_parts s.root (bytes "/r/a") in
    ((add (bytes "/r/a") s).0 ≡ not (covers parts s.tree))
    × (covers (bytes "b" ∷ []) (add (bytes "/r/a") s).1.tree
        ≡ begins parts (bytes "b" ∷ []) || covers (bytes "b" ∷ []) s.tree)
add-covers_example = add-covers (new (bytes "/r")) (bytes "/r/a") (bytes "b" ∷ [])
