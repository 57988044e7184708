-- ===== src/Scanner.antt =====
-- internal/scanner/scanner.go: the entries that a scan hands to its callback, and their conversion
-- in tracker.go. The walk itself is in Scanner/Walk; reconciliation takes it as an interface.
pub mod Walk
pub mod Fuel
pub mod Seen
pub mod Admitted
use fsrecon.Prelude.{ℕ, ◌/◌, ◌%◌, ◌^◌, Bool, not, ◌||◌, Str, Option, List, ◌==◌, if◌then◌else◌}
use fsrecon.State.{
  FileState, FileType, file_type_regular, file_type_directory, file_type_symlink, file_type_other,
  new_file_id,
}

pub record Entry : Type 0 where
  pub path : Str
  pub identity : Str
  pub size : ℕ
  pub mod_time : ℕ
  pub mode : ℕ
  pub links : ℕ

-- What a walk hands to a callback that never fails, and the error that ends it.
pub record Stream (E A : Type 0) : Type 0 where
  pub items : List A
  pub fault : Option E

-- Is a bit of a `fs.FileMode` set?
abbrev pub mode_bit : ℕ → ℕ → Bool
mode_bit n mode = mode / 2 ^ n % 2 == 1

-- `IsDir`: `fs.ModeDir` is bit 31.
unfoldable pub is_dir : ℕ → Bool
is_dir mode = mode_bit 31 mode

-- `mode & fs.ModeSymlink != 0`
unfoldable pub is_symlink : ℕ → Bool
is_symlink mode = mode_bit 27 mode

-- `IsRegular`: no bit of `fs.ModeType`, which are directory, symlink, named pipe, socket, device,
-- character device and irregular.
unfoldable pub is_regular : ℕ → Bool
unfolding is_dir is_symlink
is_regular mode = not (
    is_dir mode
    || is_symlink mode
    || mode_bit 25 mode
    || mode_bit 24 mode
    || mode_bit 26 mode
    || mode_bit 21 mode
    || mode_bit 19 mode)

unfoldable pub file_type : ℕ → FileType
file_type mode =
    if is_regular mode
    then file_type_regular
    else if is_dir mode
    then file_type_directory
    else if is_symlink mode
    then file_type_symlink
    else file_type_other

unfoldable pub state_from_entry : Entry → FileState
state_from_entry e = record {
  path = e.path;
  id = new_file_id e.identity;
  file_type = file_type e.mode;
  size = e.size;
  mod_time = e.mod_time;
  mode = e.mode;
}
