-- ===== src/Normalize.antt =====
-- internal/normalize/normalize.go and the operations of internal/backend/backend.go: from a raw
-- event to the directory that is to be reconciled.
use fsrecon.Prelude.{
  ℕ, ◌/◌, ◌%◌, ◌≡◌, refl, arith, Bool, true, not, ◌||◌, Str, Option, none, some, List, [], ◌∷◌,
  str_eq, str_eq_refl, ◌==◌, if◌then◌else◌, Bool-cases, inl, inr,
}
use fsrecon.FilePath.{clean, within, is_separator, rel, rel_parts, clean_parts, is_abs, starts_with}

-- An `Op` is a set of bits: create 1, write 2, remove 4, rename 8 and chmod 16.
pub record RawEvent : Type 0 where
  pub path : Str
  pub op : ℕ

pub record Hint : Type 0 where
  pub scope : Str
  pub uncertain : Bool

-- The part of a path up to its last separator, that included.
unfoldable pub up_to_separator : Str → Str
up_to_separator [] = []
up_to_separator (c ∷ s) =
    let rest = up_to_separator s in if is_separator c || not (str_eq rest []) then c ∷ rest else []

-- `filepath.Dir`
unfoldable pub dir : Str → Str
unfolding up_to_separator
dir path = clean (up_to_separator path)

abbrev pub scope_of : Str → Str → Str
scope_of root path = if str_eq path root || not (within root (dir path)) then root else dir path

-- `event.Op & (OpRemove | OpRename) != 0`
abbrev pub is_uncertain : ℕ → Bool
is_uncertain op = op / 4 % 2 == 1 || op / 8 % 2 == 1

-- `Event`; `none` where the path lies outside of the root.
unfoldable pub normalize : Str → RawEvent → Option Hint
unfolding dir
normalize root event =
    if not (within (clean root) (clean event.path))
    then none
    else some (record {
      scope = scope_of (clean root) (clean event.path);
      uncertain = is_uncertain event.op;
    })

rel_parts_self : (ps : List Str) → rel_parts ps ps ≡ some []
unfolding rel_parts
rel_parts_self [] = refl
rel_parts_self (p ∷ ps) = ground (arith, rel_parts_self ps, str_eq_refl p)

pub within_self : (root : Str) → within root root ≡ true
unfolding within rel starts_with str_eq
within_self root = elim (Bool-cases (is_abs root)) [
  | inl e ↦ ground (arith, rel_parts_self (clean_parts root))
  | inr e ↦ ground (arith, rel_parts_self (clean_parts root))
]

abbrev pub scope_or : Str → Option Hint → Str
scope_or root none = root
scope_or root (some h) = h.scope
