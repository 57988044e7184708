-- ===== src/Store.antt =====
-- store.go: the in-memory snapshot store, a map of entries beside a tree of path elements.
-- A context is a Boolean: is it cancelled? The mutex makes each method one step. The walks copy
-- the states out before they visit them, so that a visitor may change the store.
pub mod Tree
pub mod Paths
pub mod Contract
pub mod Sessions
use fsrecon.Prelude.{
  Bool, true, false, ◌||◌, not, Str, Map, Option, none, some, List, [], ◌∷◌, ◌++◌, str_eq, get, put,
  remove, has, at_or, sort, keep, Result, ok, err, ◌>>=◌, if◌then◌else◌,
}
use fsrecon.State.{FileState, zero_file_state}
use Paths.{path_parts}
use Tree.{Node, empty_node, insert_path, find_node, remove_path, collect}

pub record MemoryStore : Type 0 where
  pub entries : Map FileState
  pub paths : Node

abbrev pub new_memory_store : MemoryStore
new_memory_store = record { entries = []; paths = empty_node }

-- One `Put` without its context and lock.
unfoldable pub put_entry : FileState → MemoryStore → MemoryStore
put_entry state s = record {
  entries = put s.entries state.path state;
  paths =
      if has s.entries state.path
      then s.paths
      else insert_path (path_parts state.path) state.path s.paths;
}

unfoldable pub delete_entry : Str → MemoryStore → MemoryStore
delete_entry path s = record {
  entries = remove s.entries path;
  paths = remove_path (path_parts path) s.paths;
}

unfoldable pub delete_entries : List Str → MemoryStore → MemoryStore
delete_entries [] s = s
delete_entries (path ∷ paths) s = delete_entries paths (delete_entry path s)

unfoldable pub put_entries : List FileState → MemoryStore → MemoryStore
put_entries [] s = s
put_entries (state ∷ states) s = put_entries states (put_entry state s)

pub data StoreError : Type 0 where
  context_error : StoreError

-- `Get`
unfoldable pub get_state : Bool → Str → MemoryStore → Result StoreError (Option FileState)
get_state true path s = err context_error none
get_state false path s = ok (get s.entries path)

-- `Put`
unfoldable pub put_state : Bool → FileState → MemoryStore → Result StoreError MemoryStore
unfolding put_entry
put_state true state s = err context_error s
put_state false state s = ok (put_entry state s)

-- `Delete`
unfoldable pub delete_state : Bool → Str → MemoryStore → Result StoreError MemoryStore
unfolding delete_entry
delete_state true path s = err context_error s
delete_state false path s = ok (delete_entry path s)

-- `Apply`
unfoldable pub apply :
    Bool → List FileState → List Str → MemoryStore → Result StoreError MemoryStore
unfolding put_entries delete_entries
apply true puts deletes s = err context_error s
apply false puts deletes s = ok (put_entries puts (delete_entries deletes s))

abbrev pub states_at : MemoryStore → List Str → List FileState
states_at s [] = []
states_at s (path ∷ paths) = at_or zero_file_state s.entries path ∷ states_at s paths

-- The paths that `WalkScope` visits, in its order: those of the subtree, sorted.
unfoldable pub scope_paths : Str → MemoryStore → List Str
scope_paths scope s = elim (find_node (path_parts scope) s.paths) [
  | none ↦ []
  | some top ↦ sort (collect top)
]

-- Visit each state, up to the first error; the context is looked at before each.
unfoldable pub visit {ℓ} :
    {A : Type ℓ}
    → (A → Bool)
    → (FileState → A → Result StoreError A)
    → List FileState
    → A
    → Result StoreError A
visit cancelled fn [] a = ok a
visit cancelled fn (state ∷ states) a = elim (cancelled a) [
  | true ↦ err context_error a
  | false ↦ fn state a >>= visit cancelled fn states
]

-- `WalkScope`, which `Walk` is too. The context may be cancelled while the visitor runs.
unfoldable pub walk_scope {ℓ} :
    {A : Type ℓ}
    → MemoryStore
    → (A → Bool)
    → Str
    → (FileState → A → Result StoreError A)
    → A
    → Result StoreError A
unfolding visit scope_paths
walk_scope s cancelled scope fn a = elim (cancelled a) [
  | true ↦ err context_error a
  | false ↦ visit cancelled fn (states_at s (scope_paths scope s)) a
]
