-- ===== src/Lib.antt =====
-- fsrecon: filesystem reconciliation.
--
-- A tracker keeps a snapshot of a directory tree in a store. Hints of the operating system mark
-- directories as dirty; a reconciliation collapses the dirty directories to a few scopes, scans
-- them, compares what it finds with the snapshot and with the expected state, delivers the
-- differences to a sink in numbered batches, and then brings the snapshot up to date. An observer
-- hands hints to its owner without a snapshot.
--
--   Prelude    lists, strings, maps and sorting, and results with an error
--   FilePath   Go's path/filepath on Unix as far as it is used, and pathHasPrefix of store.go
--   State      state.go: FileID, FileType and FileState
--   Event      event.go and report.go: Event, ChangeBatch and ReconcileReport
--   Diff       internal/reconcile/reconcile.go: WalkDiffScoped, WalkDiff and Diff, with a callback
--              that may fail. Diff/Spec describes the changes as plain lists, Diff/Refines compares
--              the walk with it, Diff/Index is about indexUniqueIDs, and Diff/Replay, Diff/Moves,
--              Diff/Owners and Diff/Patch replay the changes over the previous snapshot
--   Delivery   delivery.go: the change batcher, with deliverPending's loop of reconcile.go
--   Scopes     collapseScopes of reconcile.go
--   Store      store.go: MemoryStore, its entries beside a tree of path elements (Store/Tree);
--              Store/Contract has the invariant between the two, Store/Sessions runs calls
--   Dirtyset   internal/dirtyset/dirtyset.go
--   Scanner    internal/scanner/scanner.go: its entries, with stateFromEntry of tracker.go;
--              Scanner/Walk is Scan itself, Scanner/Seen and Scanner/Fuel are about its end and
--              Scanner/Admitted about the entries it hands out
--   Bolt       bolt_store.go and reconcile_bolt.go. Bolt has the engine and the laws of its
--              transactions, Bolt/Snapshot the store's operations, Bolt/Codec and Bolt/Events its
--              documents over Bolt/Json and Bolt/Utf8, Bolt/Work and Bolt/Expect the comparison of
--              the index, Bolt/Reconcile the reconciliation. Bolt/Cursor and Bolt/Table are about
--              keys in order, Bolt/Contract, Bolt/Total and Bolt/Scope about the store, Bolt/Frame,
--              Bolt/Steps, Bolt/Staged and Bolt/Replaced about the reconciliation, and
--              Bolt/Dispatch is reconcileScopes with the choice between the two paths
--   Config     config.go and expected.go, and the interfaces that reconciliation calls
--   Expected   loadExpectedScopes of reconcile.go
--   Convert    the conversions and counters at the end of reconcile.go
--   Reconcile  reconcileScopes, deliverPending and resumePending of reconcile.go, pending.go, and
--              resumePendingIntegrity of integrity.go: Reconcile/Gather up to the diff,
--              Reconcile/Commit from there; Reconcile/Outcomes, Reconcile/Order and Reconcile/Retry
--              are about what happens to the outside world, Diff/Healthy, Reconcile/Healthy and
--              Reconcile/Ready about the count of healthy entries
--   Scrub      Scrub of integrity.go: Scrub for its scan, Scrub/Generation for the rest
--   Tracker    tracker.go: the lifecycle, with Tracker/Lifecycle on its interleavings, and the run
--              loop's cases as steps in Tracker/Loop; Tracker/Interleaved has `addDirty` in its parts.
--              Tracker/Create has New, Start, NewObserver and session.go, Tracker/Accepted is about
--              New
--   Debounce   internal/debounce/debounce.go on a clock, with Debounce/Quiet on when it fires
--   Watchtree  internal/watchtree/watchtree.go
--   Normalize  internal/normalize/normalize.go
--   Fsnotify   internal/backend/fsnotify/backend.go, with its interleavings in Fsnotify/Safe
--   Observer   observer.go: the hints that wait for the bounded channel. Observer/Collect handles
--              the raw events and errors over the watch tree, Observer/Collected is about what it
--              announces, Observer/Start has Start, Close and Stats
--   Names      the names of types, kinds, sources and states
--   Examples   tests on small inputs
--
-- Go's maps are association lists; where the source ranges over a map, the list's order stands for
-- the order of the iteration. A string is a list of bytes. Sizes, times and modes are natural
-- numbers, the bit patterns of Go's integers: the source only compares them; counters wrap around
-- at 2 ^ 64. A mutex makes each method one step; a context is a Boolean, is it cancelled, or left
-- out. Wall-clock times in events and reports are left out, since nothing reads them. Recursion is
-- structural, save for the scanner's walk, which runs on fuel: one unit for each directory level.
-- Each directory that a following scan enters has an identity it has not seen, so that a fuel above
-- the number of identities is enough.
--
-- The filesystem, the store, the sink, the native watcher and the provider of expected entries are
-- parameters, as are the checker of contents and the staging file of a scrub: functions on a state
-- of the outside world that may fail. So are the third-party libraries: bbolt is an engine whose
-- buckets keep the laws of finite maps in the order of their keys and whose failed transactions
-- change nothing, and fsnotify a record of its calls. encoding/json is modelled as far as the
-- documents of the Bolt store need it.
--
-- Not modelled: SHA256Checker, which reads files through a cryptographic hash; fileIdentity, a system
-- call; the command line and the examples.
pub mod Prelude
pub mod Diff
pub mod State
pub mod Event
pub mod Delivery
pub mod FilePath
pub mod Scopes
pub mod Store
pub mod Dirtyset
pub mod Scanner
pub mod Config
pub mod Expected
pub mod Reconcile
pub mod Watchtree
pub mod Tracker
pub mod Convert
pub mod Normalize
pub mod Observer
pub mod Scrub
pub mod Bolt
pub mod Fsnotify
pub mod Names
pub mod Debounce
pub mod Examples
