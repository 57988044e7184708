-- ===== src/Store/Sessions.antt =====
-- store.go: every history of calls, failed ones included, leaves a consistent store.
use fsrecon.Prelude.{
  ◌≡◌, Bool, true, false, Str, has, List, [], ◌∷◌, All, final, ◌&&◌, elem, IsSorted, IsDistinct,
}
use fsrecon.State.{FileState}
use fsrecon.Store.{
  MemoryStore, new_memory_store, put_state, delete_state, apply, delete_entries, scope_paths,
}
use fsrecon.Store.Paths.{path_parts}
use fsrecon.Store.Contract.{
  IsClean, IsConsistent, new_memory_store-IsConsistent, put_entry-IsConsistent,
  delete_entry-IsConsistent, put_entries-IsConsistent, delete_entries-IsConsistent,
  scope_paths_exact, begins,
}

-- A call that changes the store; the Boolean is a cancelled context.
pub data Call : Type 0 where
  puts : Bool → FileState → Call
  deletes : Bool → Str → Call
  applies : Bool → List FileState → List Str → Call

abbrev pub call : Call → MemoryStore → MemoryStore
call (puts cancelled state) s = final (put_state cancelled state s)
call (deletes cancelled path) s = final (delete_state cancelled path s)
call (applies cancelled states paths) s = final (apply cancelled states paths s)

pub run : List Call → MemoryStore → MemoryStore
run [] s = s
run (c ∷ cs) s = run cs (call c s)

-- The program stores cleaned paths only.
abbrev pub IsCleanCall : Call → Type 0
IsCleanCall (puts cancelled state) = IsClean state.path
IsCleanCall (deletes cancelled path) = IsClean path
IsCleanCall (applies cancelled states paths) =
    All (λ state. IsClean state.path) states × All IsClean paths

call-IsConsistent :
    (c : Call) (s : MemoryStore) → IsConsistent s → IsCleanCall c → IsConsistent (call c s)
unfolding put_state delete_state apply
call-IsConsistent (puts true state) s h k = h
call-IsConsistent (puts false state) s h k = put_entry-IsConsistent s h state k
call-IsConsistent (deletes true path) s h k = h
call-IsConsistent (deletes false path) s h k = delete_entry-IsConsistent s h path k
call-IsConsistent (applies true states paths) s h k = h
call-IsConsistent (applies false states paths) s h k =
    put_entries-IsConsistent states (delete_entries paths s)
      (delete_entries-IsConsistent paths s h k.1) k.0

run-IsConsistent :
    (cs : List Call) (s : MemoryStore)
    → IsConsistent s
    → All IsCleanCall cs
    → IsConsistent (run cs s)
unfolding run
run-IsConsistent [] s h k = h
run-IsConsistent (c ∷ cs) s h k = run-IsConsistent cs (call c s) (call-IsConsistent c s h k.0) k.1

-- After any calls on a new store, with clean paths, a walk of a scope visits in order, and each
-- once, the paths that have an entry and whose elements begin with those of the scope.
pub run-scope_paths :
    (cs : List Call) (scope : Str)
    → All IsCleanCall cs
    → let s = run cs new_memory_store in
      IsSorted (scope_paths scope s)
      × IsDistinct (scope_paths scope s)
      × ((p : Str)
          → elem p (scope_paths scope s)
            ≡ has s.entries p && begins (path_parts scope) (path_parts p))
run-scope_paths cs scope k =
    scope_paths_exact scope (run cs new_memory_store)
      (run-IsConsistent cs new_memory_store new_memory_store-IsConsistent k)
