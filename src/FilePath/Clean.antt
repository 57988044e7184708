-- ===== src/FilePath/Clean.antt =====
-- The elements of a cleaned path: they are read back from its text.
use mathlib.Core.List.{reverse, reverse-cons}
use fsrecon.Prelude.{
  ℕ, ◌≡◌, refl, ◌∙◌, ap, sym, Bool, true, false, not, ◌&&◌, ◌||◌, Str, List, [], ◌∷◌, ◌++◌, arith,
  str_eq, keep, All, All-append, Bool-cases, inl, inr,
}
use fsrecon.FilePath.{
  is_separator, split, cons_first, join_parts, is_abs, dot, resolve_part, resolve, clean_parts,
  or_dot, render, clean,
}

unfoldable pub no_slash : Str → Bool
no_slash [] = true
no_slash (c ∷ s) = not (is_separator c) && no_slash s

-- An element of a cleaned path: not empty, not ".", and without a separator.
abbrev pub is_part : Str → Bool
is_part s = not (str_eq s []) && (not (str_eq s dot) && no_slash s)

abbrev pub AreParts : List Str → Type 0
AreParts = All (λ s. is_part s ≡ true)

cons_first-no_slash :
    (c : ℕ) (ss : List Str)
    → is_separator c ≡ false
    → All (λ s. no_slash s ≡ true) ss
    → All (λ s. no_slash s ≡ true) (cons_first c ss)
unfolding no_slash
cons_first-no_slash c [] h k = (ground arith, tt)
cons_first-no_slash c (s ∷ ss) h k = (ground arith, k.1)

split-no_slash : (s : Str) → All (λ t. no_slash t ≡ true) (split s)
unfolding split no_slash
split-no_slash [] = (refl, tt)
split-no_slash (c ∷ s) = elim (Bool-cases (is_separator c)) [
  | inl e ↦ rw (e, split) (refl, split-no_slash s)
  | inr e ↦ rw (e, split) (cons_first-no_slash c (split s) e (split-no_slash s))
]

resolve_part-AreParts :
    (rooted : Bool) (stack : List Str) (s : Str)
    → AreParts stack
    → no_slash s ≡ true
    → AreParts (resolve_part rooted stack s)
resolve_part-AreParts rooted [] s h k = ground arith
resolve_part-AreParts rooted (t ∷ stack) s h k = ground arith

All-reverse : (xs : List Str) → AreParts xs → AreParts (reverse xs)
All-reverse [] h = tt
All-reverse (x ∷ xs) h =
    rw (reverse-cons x xs)
      (All-append (λ s. is_part s ≡ true) (reverse xs) (x ∷ []) (All-reverse xs h.1) (h.0, tt))

resolve-AreParts :
    (rooted : Bool) (stack ss : List Str)
    → AreParts stack
    → All (λ s. no_slash s ≡ true) ss
    → AreParts (resolve rooted stack ss)
unfolding resolve
resolve-AreParts rooted stack [] h k = All-reverse stack h
resolve-AreParts rooted stack (s ∷ ss) h k =
    resolve-AreParts rooted (resolve_part rooted stack s) ss
      (resolve_part-AreParts rooted stack s h k.0) k.1

pub clean_parts-AreParts : (p : Str) → AreParts (clean_parts p)
unfolding clean_parts
clean_parts-AreParts p = resolve-AreParts (is_abs p) [] (split p) tt (split-no_slash p)

split-part : (s : Str) → no_slash s ≡ true → split s ≡ s ∷ []
unfolding split no_slash
split-part [] h = refl
split-part (c ∷ s) h = ground (arith, split-part s)

split-append : (s t : Str) → no_slash s ≡ true → split (s ++ b'/' ∷ t) ≡ s ∷ split t
unfolding split no_slash
split-append [] t h = refl
split-append (c ∷ s) t h = ground (arith, split-append s t)

split-join_parts :
    (s : Str) (ss : List Str) → AreParts (s ∷ ss) → split (join_parts (s ∷ ss)) ≡ s ∷ ss
unfolding join_parts
split-join_parts s [] h = split-part s (ground arith)
split-join_parts s (t ∷ ss) h =
    split-append s (join_parts (t ∷ ss)) (ground arith) ∙ ap (◌∷◌ s) (split-join_parts t ss h.1)

-- What `pathParts` keeps of the pieces between the separators.
abbrev pub is_kept : Str → Bool
is_kept part = not (str_eq part [] || str_eq part dot)

keep-parts : (ss : List Str) → AreParts ss → keep is_kept ss ≡ ss
keep-parts [] h = refl
keep-parts (s ∷ ss) h = ground (arith, keep-parts ss h.1)

join_parts-starts :
    (s : Str) (ss : List Str)
    → AreParts (s ∷ ss)
    → (c : ℕ) × (t : Str) × (join_parts (s ∷ ss) ≡ c ∷ t) × (is_separator c ≡ false)
unfolding join_parts no_slash str_eq
join_parts-starts [] ss h = absurd (ground (arith, h.0))
join_parts-starts (c ∷ s) [] h = (c, s, refl, ground arith)
join_parts-starts (c ∷ s) (t ∷ ss) h = (c, s ++ b'/' ∷ join_parts (t ∷ ss), refl, ground arith)

keep-split-render :
    (rooted : Bool) (ss : List Str) → AreParts ss → keep is_kept (split (render rooted ss)) ≡ ss
unfolding render split str_eq
keep-split-render true [] h = refl
keep-split-render false [] h = refl
keep-split-render true (s ∷ ss) h =
    ap (keep is_kept) (split-join_parts s ss h) ∙ keep-parts (s ∷ ss) h
keep-split-render false (s ∷ ss) h =
    let (c, t, e, f) = join_parts-starts s ss h in
    ap (λ u. keep is_kept (split (or_dot u))) e
    ∙ sym (ap (λ u. keep is_kept (split u)) e)
    ∙ ap (keep is_kept) (split-join_parts s ss h)
    ∙ keep-parts (s ∷ ss) h

is_abs-render : (rooted : Bool) (ss : List Str) → AreParts ss → is_abs (render rooted ss) ≡ rooted
unfolding render
is_abs-render true ss h = refl
is_abs-render false [] h = refl
is_abs-render false (s ∷ ss) h = let (c, t, e, f) = join_parts-starts s ss h in rw e f

-- Cleaning keeps what matters: whether the path is absolute, and its elements.
pub is_abs-clean : (p : Str) → is_abs (clean p) ≡ is_abs p
unfolding clean
is_abs-clean p = is_abs-render (is_abs p) (clean_parts p) (clean_parts-AreParts p)

pub keep-split-clean : (p : Str) → keep is_kept (split (clean p)) ≡ clean_parts p
unfolding clean
keep-split-clean p = keep-split-render (is_abs p) (clean_parts p) (clean_parts-AreParts p)
