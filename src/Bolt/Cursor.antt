-- ===== src/Bolt/Cursor.antt =====
-- The order of a cursor against the prefixes of its keys.
use fsrecon.Prelude.{◌≡◌, refl, true, false, Str, [], ◌∷◌, str_eq_iff, str_leb, arith}
use fsrecon.FilePath.{starts_with, path_has_prefix}

pub starts_with-leb : (k p : Str) → starts_with k p ≡ true → str_leb p k ≡ true
unfolding starts_with str_leb
starts_with-leb k [] h = refl
starts_with-leb [] (c ∷ p) h = ground arith
starts_with-leb (d ∷ k) (c ∷ p) h = ground (arith, starts_with-leb k p)

-- Past the strings with a prefix, no string has it.
pub starts_with-after :
    (p k j : Str)
    → str_leb p k ≡ true
    → str_leb k j ≡ true
    → starts_with k p ≡ false
    → starts_with j p ≡ false
unfolding starts_with str_leb
starts_with-after [] k j h e s = ground arith
starts_with-after (c ∷ p) [] j h e s = ground arith
starts_with-after (c ∷ p) (d ∷ k) [] h e s = refl
starts_with-after (c ∷ p) (d ∷ k) (b ∷ j) h e s = ground (arith, starts_with-after p k j)

starts_with_refl : (p : Str) → starts_with p p ≡ true
unfolding starts_with
starts_with_refl [] = refl
starts_with_refl (c ∷ p) = ground (arith, starts_with_refl p)

starts_with_nil : (k : Str) → starts_with k [] ≡ true
unfolding starts_with
starts_with_nil k = refl

-- A path of a subtree begins with the bytes of its root.
pub path_has_prefix-starts_with : (k p : Str) → path_has_prefix k p ≡ true → starts_with k p ≡ true
unfolding path_has_prefix
path_has_prefix-starts_with k p h =
    ground (arith, str_eq_iff p [], str_eq_iff k p, starts_with_refl p, starts_with_nil k)
