-- ===== src/Bolt/Utf8.antt =====
-- Go's encoding/json on strings: bytes that are not valid UTF-8 are replaced by U+FFFD.
use fsrecon.Prelude.{
  ℕ, zero, suc, ◌≡◌, refl, ap, ◌-◌, Bool, true, false, ◌&&◌, ◌||◌, Str, [], ◌∷◌, ltb, leb, ◌==◌,
  if◌then◌else◌, arith,
}

abbrev between : ℕ → ℕ → ℕ → Bool
between lo hi c = leb lo c && leb c hi

abbrev continues : ℕ → Bool
continues c = between 128 191 c

-- The first two bytes of a sequence of three, without overlong forms and surrogates.
abbrev starts_three : ℕ → ℕ → Bool
starts_three a b =
    a == 224 && between 160 191 b
    || a == 237 && between 128 159 b
    || (between 225 236 a || between 238 239 a) && continues b

-- The same of four, up to U+10FFFF.
abbrev starts_four : ℕ → ℕ → Bool
starts_four a b =
    a == 240 && between 144 191 b
    || a == 244 && between 128 143 b
    || between 241 243 a && continues b

abbrev four_size : ℕ → ℕ → ℕ → Str → ℕ
four_size a b c [] = 0
four_size a b c (d ∷ s) = if starts_four a b && continues c && continues d then 4 else 0

abbrev three_size : ℕ → ℕ → Str → ℕ
three_size a b [] = 0
three_size a b (c ∷ s) = if starts_three a b && continues c then 3 else four_size a b c s

abbrev two_size : ℕ → Str → ℕ
two_size a [] = 0
two_size a (b ∷ s) = if between 194 223 a && continues b then 2 else three_size a b s

-- The bytes of the first code point; 0 where there is none.
unfoldable pub rune_size : Str → ℕ
rune_size [] = 0
rune_size (a ∷ s) = if ltb a 128 then 1 else two_size a s

-- Copy the bytes that are left of a code point, then the code points that follow.
unfoldable pub valid_from : ℕ → Str → Str
valid_from n [] = []
valid_from (suc n) (c ∷ s) = c ∷ valid_from n s
valid_from zero (c ∷ s) = elim (rune_size (c ∷ s)) [
  | zero ↦ 239 ∷ 191 ∷ 189 ∷ valid_from 0 s
  | suc n ↦ c ∷ valid_from n s
]

-- `strings.ToValidUTF8` with one U+FFFD for each byte.
unfoldable pub to_valid : Str → Str
unfolding valid_from
to_valid s = valid_from 0 s

unfoldable pub is_utf8_from : ℕ → Str → Bool
is_utf8_from n [] = true
is_utf8_from (suc n) (c ∷ s) = is_utf8_from n s
is_utf8_from zero (c ∷ s) = elim (rune_size (c ∷ s)) [ zero ↦ false | suc n ↦ is_utf8_from n s ]

-- `utf8.ValidString`
unfoldable pub is_utf8 : Str → Bool
unfolding is_utf8_from
is_utf8 s = is_utf8_from 0 s

valid_from-is_utf8 : (n : ℕ) (s : Str) → is_utf8_from n s ≡ true → valid_from n s ≡ s
unfolding valid_from is_utf8_from
valid_from-is_utf8 zero [] h = refl
valid_from-is_utf8 (suc n) [] h = refl
valid_from-is_utf8 (suc n) (c ∷ s) h = ap (λ t. c ∷ t) (valid_from-is_utf8 n s h)
valid_from-is_utf8 zero (c ∷ s) h = ground (arith, valid_from-is_utf8 (rune_size (c ∷ s) - 1) s)

-- Valid text is kept.
pub to_valid-is_utf8 : (s : Str) → is_utf8 s ≡ true → to_valid s ≡ s
unfolding to_valid is_utf8
to_valid-is_utf8 s h = valid_from-is_utf8 0 s h

-- What json writes for a string, it writes for an empty one only.
pub to_valid-empty : (s : Str) → to_valid s ≡ [] → s ≡ []
unfolding to_valid valid_from
to_valid-empty [] h = refl
to_valid-empty (c ∷ s) h = ground arith
