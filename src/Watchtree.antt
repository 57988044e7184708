-- ===== src/Watchtree.antt =====
-- internal/watchtree/watchtree.go: the directories that are registered with a native watcher.
-- The mutex makes each method one step. Where paths of the same length are sorted, their order is
-- that of the list; the source leaves it open.
pub mod Registered
pub mod Removed
use fsrecon.Prelude.{
  ℕ, ◌≤◌, Bool, true, false, not, ◌&&◌, ◌||◌, Str, Map, Option, none, some, List, [], ◌∷◌, length,
  str_eq, has, put, remove, keys, keep, leb, if◌then◌else◌, Result, ok, err, ◌>>=◌,
}
use fsrecon.FilePath.{clean, within}

-- The interface `Backend`, on a state `W` of the watcher. `is_already_gone` reads the text of an
-- error.
pub record Backend (W E : Type 0) : Type 0 where
  pub add_watch : Str → W → Result E W
  pub remove_watch : Str → W → Result E W
  pub is_already_gone : E → Bool

pub record Tree (W : Type 0) : Type 0 where
  pub root : Str
  pub watched : Map (Unit {0})
  pub watcher : W

-- `New`
unfoldable pub new : {W : Type 0} → Str → W → Tree W
new root w = record { root = clean root; watched = put [] (clean root) tt; watcher = w }

pub data WatchError (E : Type 0) : Type 0 where
  outside_root : Str → WatchError E
  watch_failed : E → WatchError E

-- `Count`
abbrev pub count : {W : Type 0} → Tree W → ℕ
count t = length t.watched

unfoldable pub is_watched : {W : Type 0} → Str → Tree W → Bool
is_watched path t = has t.watched (clean path)

unfoldable pub in_any_scope : Str → List Str → Bool
in_any_scope path [] = false
in_any_scope path (scope ∷ scopes) =
    if within (clean scope) path then true else in_any_scope path scopes

-- A path before those that are not longer.
unfoldable pub insert_longest : Str → List Str → List Str
insert_longest path [] = path ∷ []
insert_longest path (p ∷ paths) =
    if leb (length p) (length path) then path ∷ p ∷ paths else p ∷ insert_longest path paths

-- `sort.Slice` by descending length
unfoldable pub longest_first : List Str → List Str
unfolding insert_longest
longest_first [] = []
longest_first (path ∷ paths) = insert_longest path (longest_first paths)

-- What `Sync` is going to remove.
unfoldable pub is_stale : {W : Type 0} → List Str → Map (Unit {0}) → Tree W → Str → Bool
unfolding in_any_scope
is_stale scopes observed t path =
    not (str_eq path t.root || not (in_any_scope path scopes)) && not (has observed path)

-- What `RemoveSubtree` is going to remove.
unfoldable pub is_below : {W : Type 0} → Str → Tree W → Str → Bool
is_below path t watched = not (str_eq watched t.root) && within path watched

module _ {W E : Type 0} (backend : Backend W E) where
  unfoldable pub add : Str → Tree W → Result (WatchError E) (Tree W)
  add path t =
      if not (within t.root (clean path))
      then err (outside_root (clean path)) t
      else if has t.watched (clean path)
      then ok t
      else (elim (backend.add_watch (clean path) t.watcher) [
        | err e w ↦ err (watch_failed e) (record t { watcher = w })
        | ok w ↦ ok (record t { watched = put t.watched (clean path) tt; watcher = w })
      ])

  -- One removal, where an error that passes counts as done.
  unfoldable pub remove_one : (E → Bool) → Str → Tree W → Result (WatchError E) (Tree W)
  remove_one passes path t = elim (backend.remove_watch path t.watcher) [
    | ok w ↦ ok (record t { watched = remove t.watched path; watcher = w })
    | err e w ↦
        if passes e
        then ok (record t { watched = remove t.watched path; watcher = w })
        else err (watch_failed e) (record t { watcher = w })
  ]

  unfoldable pub remove_each : (E → Bool) → List Str → Tree W → Result (WatchError E) (Tree W)
  unfolding remove_one
  remove_each passes [] t = ok t
  remove_each passes (path ∷ paths) t = remove_one passes path t >>= remove_each passes paths

  -- `Sync`; every error stops it.
  unfoldable pub sync : List Str → Map (Unit {0}) → Tree W → Result (WatchError E) (Tree W)
  unfolding remove_each longest_first is_stale
  sync scopes observed t =
      remove_each (λ e. false) (longest_first (keep (is_stale scopes observed t) (keys t.watched)))
        t

  unfoldable pub remove_subtree : Str → Tree W → Result (WatchError E) (Tree W)
  unfolding remove_each longest_first is_below
  remove_subtree path t =
      remove_each (λ e. backend.is_already_gone e)
        (longest_first (keep (is_below (clean path) t) (keys t.watched))) t
