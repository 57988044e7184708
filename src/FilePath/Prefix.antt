-- ===== src/FilePath/Prefix.antt =====
-- `pathHasPrefix` of store.go is reflexive and transitive.
use fsrecon.Prelude.{
  ℕ, ◌≡◌, refl, ◌∙◌, ap, sym, subst, Bool, true, false, ◌||◌, Str, [], ◌∷◌, ◌++◌, append_assoc,
  append-nil, arith, str_eq, str_eq_iff, str_eq_refl, length, length-append, Bool-cases, inl, inr,
}
use fsrecon.FilePath.{is_slash, starts_with, ends_slash, slash_at, path_has_prefix}

abbrev starts_slash : Str → Bool
starts_slash [] = false
starts_slash (c ∷ s) = is_slash c

-- Does a path that continues a prefix by `rest` lie below it?
abbrev below : Str → Str → Bool
below [] rest = true
below (c ∷ s) [] = true
below (c ∷ s) (d ∷ rest) = ends_slash (c ∷ s) || is_slash d

starts_with-append : (s rest : Str) → starts_with (s ++ rest) s ≡ true
unfolding starts_with
starts_with-append [] [] = refl
starts_with-append [] (d ∷ r) = refl
starts_with-append (c ∷ s) rest = ground (arith, starts_with-append s rest)

starts_with-split : (p s : Str) → starts_with p s ≡ true → (rest : Str) × (p ≡ s ++ rest)
unfolding starts_with
starts_with-split p [] h = (p, refl)
starts_with-split [] (c ∷ s) h = cc
starts_with-split (d ∷ p) (c ∷ s) h =
    let (rest, e) = starts_with-split p s (ground arith) in (rest, ground arith)

get_elem?-append : (s rest : Str) → slash_at (s ++ rest) (length s) ≡ starts_slash rest
get_elem?-append [] [] = refl
get_elem?-append [] (d ∷ rest) = refl
get_elem?-append (c ∷ s) rest = get_elem?-append s rest

path_has_prefix-append : (s rest : Str) → path_has_prefix (s ++ rest) s ≡ below s rest
unfolding path_has_prefix str_eq
path_has_prefix-append [] rest = refl
path_has_prefix-append (c ∷ s) [] = ground (arith, append-nil s, str_eq_refl s)
path_has_prefix-append (c ∷ s) (d ∷ rest) = ground (
  arith,
  starts_with-append (c ∷ s) (d ∷ rest),
  get_elem?-append s (d ∷ rest),
  length-append s (d ∷ rest),
  str_eq_iff (s ++ d ∷ rest) s,
  ap (length {A = ℕ}),
)

path_has_prefix-split :
    (p s : Str)
    → path_has_prefix p s ≡ true
    → (rest : Str) × (p ≡ s ++ rest) × (below s rest ≡ true)
path_has_prefix-split p s h = elim (Bool-cases (starts_with p s)) [
  | inl t ↦
      let (rest, e) = starts_with-split p s t in
      (rest, e, sym (path_has_prefix-append s rest) ∙ subst (λ q. path_has_prefix q s ≡ true) e h)
  | inr f ↦ elim (Bool-cases (str_eq s [])) [
    | inl empty ↦ (p, ground (arith, str_eq_iff s []), ground (arith, str_eq_iff s []))
    | inr other ↦ ([], ground (arith, same other f, append-nil s), ground (arith, below_nil s))
  ]
]
  where
    same : str_eq s [] ≡ false → starts_with p s ≡ false → p ≡ s
    same other f = unfold path_has_prefix in ground (arith, str_eq_iff p s)

    below_nil : (s : Str) → below s [] ≡ true
    below_nil [] = refl
    below_nil (c ∷ s) = refl

pub path_has_prefix_refl : (p : Str) → path_has_prefix p p ≡ true
unfolding path_has_prefix
path_has_prefix_refl p = ground (arith, str_eq_refl p)

ends_slash-append : (s : Str) (c : ℕ) (t : Str) → ends_slash (s ++ c ∷ t) ≡ ends_slash (c ∷ t)
unfolding ends_slash
ends_slash-append [] c t = refl
ends_slash-append (x ∷ []) c t = refl
ends_slash-append (x ∷ y ∷ s) c t = ends_slash-append (y ∷ s) c t

below_trans : (s t r : Str) → below s t ≡ true → below (s ++ t) r ≡ true → below s (t ++ r) ≡ true
below_trans [] t r h k = refl
below_trans (c ∷ s) [] r h k = subst (λ u. below u r ≡ true) (append-nil (c ∷ s)) k
below_trans (c ∷ s) (d ∷ t) r h k = h

pub path_has_prefix_trans :
    (p q s : Str)
    → path_has_prefix p q ≡ true
    → path_has_prefix q s ≡ true
    → path_has_prefix p s ≡ true
path_has_prefix_trans p q s h k =
    let (t, e, b) = path_has_prefix-split q s k in
    let (r, f, c) = path_has_prefix-split p q h in
    rw (f, e, append_assoc s t r)
      (path_has_prefix-append s (t ++ r) ∙ below_trans s t r b (rw e at c))
