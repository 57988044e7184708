-- ===== src/Examples/Watchtree.antt =====
-- internal/watchtree/watchtree.go with a watcher that is a set of paths.
use fsrecon.Prelude.{
  refl, Str, bytes, str_eq_iff, Bool, true, false, Map, [], ◌∷◌, arith, Result, ok, err, final, has,
  put, remove, get-put, get-remove,
}
use fsrecon.Watchtree.{Backend, Tree, add, sync, remove_subtree}
use fsrecon.Watchtree.Registered.{Registers, IsFaithful, add-IsFaithful, remove_subtree-IsFaithful}

-- Removing a path that is not registered is an error, which says that it is gone.
abbrev remove_listed : Str → Map (Unit {0}) → Bool → Result Bool (Map (Unit {0}))
remove_listed path w true = ok (remove w path)
remove_listed path w false = err true w

abbrev listing : Backend (Map (Unit {0})) Bool
listing = record {
  add_watch = λ path w. ok (put w path tt);
  remove_watch = λ path w. remove_listed path w (has w path);
  is_already_gone = λ e. e;
}

abbrev listing_laws : Registers listing
listing_laws = record {
  registered = λ w q. has w q;
  add_ok = λ p q w w' h. ground (arith, get-put w p q tt);
  add_err = λ p q e w w' h. absurd (ground arith);
  remove_ok = λ p q w w' h. ground (arith, get-remove w p q);
  remove_gone = λ p q e w w' h h'. ground (arith, str_eq_iff p q);
  remove_err = λ p q e w w' h h'. ground (arith, str_eq_iff p q);
}

abbrev a : Str
a = bytes "/r/a"

abbrev b : Str
b = bytes "/r/b"

abbrev two : Map (Unit {0})
two = (a, tt) ∷ (b, tt) ∷ (bytes "/r", tt) ∷ []

abbrev tree : Tree (Map (Unit {0}))
tree = record { root = bytes "/r"; watched = two; watcher = two }

tree-IsFaithful : IsFaithful listing listing_laws tree
tree-IsFaithful q = refl

add-IsFaithful_example : IsFaithful listing listing_laws (final (add listing (bytes "/r/c") tree))
add-IsFaithful_example = add-IsFaithful listing listing_laws (bytes "/r/c") tree tree-IsFaithful

remove_subtree-IsFaithful_example :
    IsFaithful listing listing_laws (final (remove_subtree listing a tree))
remove_subtree-IsFaithful_example =
    remove_subtree-IsFaithful listing listing_laws a tree tree-IsFaithful

abbrev synced : Tree (Map (Unit {0}))
synced = final (sync listing (bytes "/r" ∷ []) ((b, tt) ∷ []) tree)
