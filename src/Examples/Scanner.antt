-- ===== src/Examples/Scanner.antt =====
-- Scans of a directory that holds a file and a link back to the directory.
use fsrecon.Prelude.{
  ℕ, ◌+◌, ◌≡◌, refl, ◌⊎◌, inl, inr, Bool, true, false, Str, none, some, List, [], ◌∷◌, bytes,
  str_eq, elem, ltb, length, Result, ok, final, if◌then◌else◌, arith, All, ap, sym, subst, ◌∙◌,
}
use fsrecon.FilePath.{join_path}
use fsrecon.Scanner.{Entry, is_symlink}
use fsrecon.Scanner.Walk.{Scanner, FileInfo, FileSystem, follow_symlinks, ignore_symlinks, scan}
use fsrecon.Scanner.Seen.{Ends}
use fsrecon.Scanner.Fuel.{HasIdentities, scan-Ends}
use fsrecon.Scanner.Admitted.{KeepsOnAdmitted, FollowsLinks, scan-Kept}

abbrev directory : FileInfo
directory = record { mode = 2147484141; size = 0; mod_time = 1 }

abbrev regular : FileInfo
regular = record { mode = 420; size = 3; mod_time = 2 }

abbrev link : FileInfo
link = record { mode = 134218239; size = 0; mod_time = 3 }

abbrev ends_in : ℕ → Str → Bool
ends_in c [] = false
ends_in c (d ∷ []) = if ltb d c then false else ltb d (c + 1)
ends_in c (d ∷ e ∷ s) = ends_in c (e ∷ s)

-- Paths that end in "f" are files, those that end in "l" links to the root.
abbrev looping : FileSystem Str
looping = record {
  lstat = λ path.
      inr (if ends_in b'f' path then regular else if ends_in b'l' path then link else directory);
  stat = λ path. inr (if ends_in b'f' path then regular else directory);
  read_dir = λ path. inr (bytes "f" ∷ bytes "l" ∷ [], none);
  file_identity = λ path info followed. inr (bytes "1:1", 1);
  is_not_exist = λ e. false;
}

abbrev following : Scanner
following = record { recursive = true; symlink_policy = follow_symlinks; filter = none }

abbrev collect_path : Entry → List Str → Result Str (List Str)
collect_path entry paths = ok (entry.path ∷ paths)

looping-HasIdentities : HasIdentities looping following collect_path (bytes "1:1" ∷ [])
looping-HasIdentities path info followed id links h d =
    subst (λ i. (str_eq i [] ≡ false) × (elem i (bytes "1:1" ∷ []) ≡ true)) (ap identity h)
      (unfold str_eq elem in (refl, refl))
  where
    identity : Str ⊎ (Str × ℕ) → Str
    identity (inl e) = e
    identity (inr (id, links)) = id

scan-Ends_example : Ends (scan looping following collect_path 2 (bytes "/r") [])
scan-Ends_example =
    scan-Ends looping following collect_path (bytes "1:1" ∷ []) 2 (bytes "/r") []
      looping-HasIdentities refl (omega arith)

scanned :
    scan looping following collect_path 2 (bytes "/r") []
    ≡ ok (record { seen = some (bytes "1:1" ∷ []); acc = bytes "/r/l" ∷ bytes "/r/f" ∷ [] })
unfolding scan str_eq join_path elem
scanned = refl

abbrev ignoring : Scanner
ignoring = record { recursive = false; symlink_policy = ignore_symlinks; filter = none }

abbrev collect_entry : Entry → List Entry → Result Str (List Entry)
collect_entry entry entries = ok (entry ∷ entries)

abbrev HasNoLinks : List Entry → Type 0
HasNoLinks entries = All (λ entry. is_symlink entry.mode ≡ false) entries

collect_entry-KeepsOnAdmitted : KeepsOnAdmitted looping ignoring collect_entry HasNoLinks
collect_entry-KeepsOnAdmitted entry entries h k = (ground (arith, h), k)

looping-FollowsLinks : FollowsLinks looping ignoring collect_entry
looping-FollowsLinks path info h = sym (ap shows h) ∙ target-mode (ends_in b'f' path)
  where
    shows : Str ⊎ FileInfo → Bool
    shows (inl e) = false
    shows (inr info) = is_symlink info.mode

    target-mode : (b : Bool) → is_symlink (if b then regular else directory).mode ≡ false
    target-mode true = unfold is_symlink in refl
    target-mode false = unfold is_symlink in refl

scan-Kept_example : HasNoLinks (final (scan looping ignoring collect_entry 2 (bytes "/r") [])).acc
scan-Kept_example =
    scan-Kept looping ignoring collect_entry HasNoLinks 2 (bytes "/r") []
      collect_entry-KeepsOnAdmitted looping-FollowsLinks tt

entries_scanned : length (final (scan looping ignoring collect_entry 2 (bytes "/r") [])).acc ≡ 1
unfolding scan str_eq join_path
entries_scanned = refl
