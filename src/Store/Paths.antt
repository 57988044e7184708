-- ===== src/Store/Paths.antt =====
-- `pathParts` of store.go.
use fsrecon.Prelude.{
  ◌≡◌, refl, ◌∙◌, ap₂, sym, arith, Bool, true, false, not, ◌||◌, Str, List, [], ◌∷◌, keep, str_eq,
  if◌then◌else◌,
}
use fsrecon.FilePath.{clean, clean_parts, split, is_abs, render}
use fsrecon.FilePath.Clean.{is_abs-clean, keep-split-clean}

-- The elements of a cleaned path behind an anchor. Volume names are empty on Unix.
unfoldable pub path_parts : Str → List Str
path_parts path =
    (if is_abs (clean path) then b'/' ∷ [] else b'.' ∷ [])
    ∷ keep (λ part. not (str_eq part [] || str_eq part (b'.' ∷ []))) (split (clean path))

abbrev anchor : Bool → Str
anchor rooted = if rooted then b'/' ∷ [] else b'.' ∷ []

path_parts_lem : (path : Str) → path_parts path ≡ anchor (is_abs path) ∷ clean_parts path
unfolding path_parts
path_parts_lem path = ap₂ (λ b ps. anchor b ∷ ps) (is_abs-clean path) (keep-split-clean path)

-- Paths with the same elements are the same once they are cleaned.
pub path_parts-injective : (p q : Str) → path_parts p ≡ path_parts q → clean p ≡ clean q
unfolding clean
path_parts-injective p q h =
    let e : anchor (is_abs p) ∷ clean_parts p ≡ anchor (is_abs q) ∷ clean_parts q =
      sym (path_parts_lem p) ∙ h ∙ path_parts_lem q in
    ap₂ render (anchor-injective (is_abs p) (is_abs q) (ground arith)) (same_tail e)
  where
    same_tail :
        anchor (is_abs p) ∷ clean_parts p ≡ anchor (is_abs q) ∷ clean_parts q
        → clean_parts p ≡ clean_parts q
    same_tail k = ground arith

    anchor-injective : (a b : Bool) → anchor a ≡ anchor b → a ≡ b
    anchor-injective true true k = refl
    anchor-injective true false k = ground arith
    anchor-injective false true k = ground arith
    anchor-injective false false k = refl
