-- ===== src/Config.antt =====
-- config.go, expected.go and the store interfaces of store.go: what a tracker is given. `W` is the
-- state of the outside world, the filesystem, the store and the sink together, and `E` its errors.
use fsrecon.Prelude.{ℕ, Bool, Str, Option, List, Result}
use fsrecon.State.{FileState, FileType}
use fsrecon.Scanner.{Entry, Stream}
use fsrecon.Delivery.{Sink}

pub data HardlinkPolicy : Type 0 where
  allow_hardlinks report_hardlinks reject_hardlinks : HardlinkPolicy

pub data ExpectedEntryScope : Type 0 where
  expected_regular_files expected_all_entries : ExpectedEntryScope

pub record ExpectedEntry : Type 0 where
  pub path : Str
  pub file_type : Option FileType
  pub size : Option ℕ
  pub fingerprint : Str

-- `ExpectedProvider` and, where it is implemented, `ScopedExpectedProvider`. A provider stops at
-- the first error of its callback and returns it.
pub record ExpectedProvider (W E : Type 0) : Type 0 where
  pub walk_expected_entries : Str → W → Stream E ExpectedEntry
  pub walk_expected_scope : Option (Str → Str → W → Stream E ExpectedEntry)

-- The answer of `os.Lstat`: is it a directory, does it not exist, or did the call fail?
pub data Stat (E : Type 0) : Type 0 where
  stat_found : Bool → Stat E
  stat_missing : Stat E
  stat_failed : E → Stat E

-- The fields of `Config` that reconciliation reads, as `New` leaves them.
pub record Config (W E : Type 0) : Type 0 where
  pub root : Str
  pub recursive : Bool
  pub expected : Option (ExpectedProvider W E)
  pub expected_scope : ExpectedEntryScope
  pub change_sink : Option (Sink E W)
  pub filter : Option (Str → FileState → Bool)
  pub hardlink_policy : HardlinkPolicy
  pub event_buffer : ℕ
  pub report_event_limit : ℕ
  pub change_batch_size : ℕ

-- What reconciliation calls: `os.Lstat`, the scanner with the tracker's recursion, policy and
-- filter, and the store. `walk_snapshot` is `WalkScope`, or `Walk` of a store without it, and
-- `apply_batch` is there if the store is a `BatchSnapshotStore`. The two tests are `errors.Is`.
pub record Ports (W E : Type 0) : Type 0 where
  pub lstat : Str → W → Stat E
  pub scan : Str → W → Stream E Entry
  pub walk_snapshot : Str → W → Stream E FileState
  pub get_snapshot : Str → W → Result E (Option FileState)
  pub put_snapshot : FileState → W → Result E W
  pub delete_snapshot : Str → W → Result E W
  pub apply_batch : Option (List FileState → List Str → W → Result E W)
  pub is_not_exist : E → Bool
  pub is_symlink_error : E → Bool
