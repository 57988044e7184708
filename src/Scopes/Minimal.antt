-- ===== src/Scopes/Minimal.antt =====
-- `collapseScopes` of reconcile.go keeps a minimal cover of what was requested.
use fsrecon.Prelude.{
  ◌≡◌, subst, Bool, true, false, not, ◌||◌, Str, List, [], ◌∷◌, ◌++◌, arith, keep, All, All-append,
  elem, elem-append, str_eq, str_eq_iff, Bool-cases, inl, inr,
}
use fsrecon.FilePath.{path_has_prefix}
use fsrecon.FilePath.Prefix.{path_has_prefix_refl, path_has_prefix_trans}
use fsrecon.Scopes.{covered, clip, add_scope, collapse_onto, collapse_scopes}

-- Neither path lies below the other.
abbrev pub Apart : Str → Str → Type 0
Apart x y = (path_has_prefix x y ≡ false) × (path_has_prefix y x ≡ false)

-- No scope lies below another.
abbrev pub IsAntichain : List Str → Type 0
IsAntichain [] = Unit {0}
IsAntichain (x ∷ xs) = All (Apart x) xs × IsAntichain xs

abbrev outside : Str → Str → Bool
outside path existing = not (path_has_prefix existing path)

All-keep : (P : Str → Type 0) (t : Str → Bool) (xs : List Str) → All P xs → All P (keep t xs)
All-keep P t [] h = tt
All-keep P t (x ∷ xs) h = ground (arith, All-keep P t xs h.1)

keep-IsAntichain : (t : Str → Bool) (xs : List Str) → IsAntichain xs → IsAntichain (keep t xs)
keep-IsAntichain t [] h = tt
keep-IsAntichain t (x ∷ xs) h = ground (arith, keep-IsAntichain t xs h.1, All-keep _ t xs h.0)

-- Below the new scope nothing is kept, and it lies below nothing that is.
append-IsAntichain :
    (p : Str) (xs : List Str)
    → covered p xs ≡ false
    → IsAntichain xs
    → IsAntichain (keep (outside p) xs ++ p ∷ [])
unfolding covered
append-IsAntichain p [] c h = (tt, tt)
append-IsAntichain p (x ∷ xs) c h = elim (Bool-cases (path_has_prefix x p)) [
  | inl under ↦ rw (under, IsAntichain) (append-IsAntichain p xs (ground arith) h.1)
  | inr kept ↦
      rw (kept, IsAntichain)
        (
          All-append (Apart x) (keep (outside p) xs) (p ∷ [])
              (All-keep (Apart x) (outside p) xs h.0) ((kept, ground arith), tt),
          append-IsAntichain p xs (ground arith) h.1,
        )
]

covered-last :
    (q p : Str) (xs : List Str) → path_has_prefix q p ≡ true → covered q (xs ++ p ∷ []) ≡ true
unfolding covered
covered-last q p [] h = ground arith
covered-last q p (x ∷ xs) h = ground (arith, covered-last q p xs h)

covered-keep :
    (q p : Str) (xs : List Str)
    → covered q xs ≡ true
    → covered q (keep (outside p) xs ++ p ∷ []) ≡ true
unfolding covered
covered-keep q p [] h = cc
covered-keep q p (x ∷ xs) h = elim (Bool-cases (path_has_prefix x p)) [
  | inl under ↦
      rw (under, covered)
        (elim (Bool-cases (path_has_prefix q x)) [
          | inl here ↦
              covered-last q p (keep (outside p) xs) (path_has_prefix_trans q x p here under)
          | inr there ↦ covered-keep q p xs (ground arith)
        ])
  | inr kept ↦ rw (kept, covered) (ground (arith, covered-keep q p xs))
]

add_scope-IsAntichain : (p : Str) (xs : List Str) → IsAntichain xs → IsAntichain (add_scope p xs)
unfolding add_scope
add_scope-IsAntichain p xs h = elim (Bool-cases (covered p xs)) [
  | inl c ↦ rw c h
  | inr c ↦ rw c (append-IsAntichain p xs c h)
]

-- A new scope covers itself, and what was covered stays covered.
covered-add_scope :
    (q p : Str) (xs : List Str) → covered q xs ≡ true → covered q (add_scope p xs) ≡ true
unfolding add_scope
covered-add_scope q p xs h = ground (arith, covered-keep q p xs h)

covered-add_scope_self : (p : Str) (xs : List Str) → covered p (add_scope p xs) ≡ true
unfolding add_scope
covered-add_scope_self p xs =
    ground (arith, covered-last p p (keep (outside p) xs) (path_has_prefix_refl p))

collapse_onto-IsAntichain :
    (root : Str) (xs requested : List Str)
    → IsAntichain xs
    → IsAntichain (collapse_onto root xs requested)
unfolding collapse_onto
collapse_onto-IsAntichain root xs [] h = h
collapse_onto-IsAntichain root xs (p ∷ ps) h =
    collapse_onto-IsAntichain root (add_scope (clip root p) xs) ps
      (add_scope-IsAntichain (clip root p) xs h)

covered-collapse_onto :
    (root q : Str) (xs requested : List Str)
    → covered q xs ≡ true
    → covered q (collapse_onto root xs requested) ≡ true
unfolding collapse_onto
covered-collapse_onto root q xs [] h = h
covered-collapse_onto root q xs (p ∷ ps) h =
    covered-collapse_onto root q (add_scope (clip root p) xs) ps
      (covered-add_scope q (clip root p) xs h)

-- Where a scope of the result comes from.
elem-keep :
    (q : Str) (t : Str → Bool) (xs : List Str) → elem q (keep t xs) ≡ true → elem q xs ≡ true
unfolding elem
elem-keep q t [] h = h
elem-keep q t (x ∷ xs) h = ground (arith, elem-keep q t xs)

-- Is a path one of the requested ones, as they are clipped to the root?
unfoldable pub requested_as : Str → Str → List Str → Bool
requested_as root q [] = false
requested_as root q (p ∷ ps) = str_eq (clip root p) q || requested_as root q ps

elem-collapse_onto :
    (root q : Str) (xs requested : List Str)
    → elem q (collapse_onto root xs requested) ≡ true
    → elem q xs || requested_as root q requested ≡ true
unfolding collapse_onto requested_as elem
elem-collapse_onto root q xs [] h = ground arith
elem-collapse_onto root q xs (p ∷ ps) h = ground (
  arith,
  elem-collapse_onto root q (add_scope (clip root p) xs) ps h,
  elem-append q (keep (outside (clip root p)) xs) (clip root p ∷ []),
  elem-keep q (outside (clip root p)) xs,
)

covered-requested :
    (root q : Str) (xs requested : List Str)
    → requested_as root q requested ≡ true
    → covered q (collapse_onto root xs requested) ≡ true
unfolding collapse_onto requested_as
covered-requested root q xs [] h = cc
covered-requested root q xs (p ∷ ps) h = elim (Bool-cases (str_eq (clip root p) q)) [
  | inl here ↦ covered-collapse_onto root q (add_scope (clip root p) xs) ps (
      subst (λ r. covered r (add_scope (clip root p) xs) ≡ true)
        ((str_eq_iff (clip root p) q).0 here) (covered-add_scope_self (clip root p) xs))
  | inr there ↦ covered-requested root q (add_scope (clip root p) xs) ps (ground arith)
]

-- The collapsed scopes are a minimal cover: no scope lies below another, each is one of the
-- requested paths as clipped to the root, and each clipped path lies below one of them.
pub collapse_scopes_minimal :
    (root : Str) (requested : List Str)
    → let scopes = collapse_scopes root requested in
      IsAntichain scopes
      × ((q : Str) → elem q scopes ≡ true → requested_as root q requested ≡ true)
      × ((q : Str) → requested_as root q requested ≡ true → covered q scopes ≡ true)
unfolding collapse_scopes
collapse_scopes_minimal root requested = (
  collapse_onto-IsAntichain root [] requested tt,
  λ q h. unfold elem in elem-collapse_onto root q [] requested h,
  λ q h. covered-requested root q [] requested h,
)
