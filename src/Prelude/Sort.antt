-- ===== src/Prelude/Sort.antt =====
-- `sort.Strings`, as insertion sort: on a total order the sorted list is unique, so that any
-- algorithm gives it.
use Prim.Native.Nat.{suc}
use mathlib.Core.Path.{◌≡◌, refl, ap, ◌∙◌}
use mathlib.Core.Bool.{true, false, ◌||◌}
use mathlib.Core.List.{List, [], ◌∷◌}
use native.Mathlib.Omega.{arith}
use fsrecon.Prelude.Tests.{if◌then◌else◌}
use fsrecon.Prelude.Lists.{length, All}
use fsrecon.Prelude.Bytes.{Str, str_eq, str_eq_iff, str_leb, str_leb_total, str_leb_trans}
use fsrecon.Prelude.Assoc.{Map, elem, keys, elem-keys, IsMap}

insert : Str → List Str → List Str
insert k [] = k ∷ []
insert k (x ∷ xs) = if str_leb k x then k ∷ x ∷ xs else x ∷ insert k xs

unfoldable pub sort : List Str → List Str
unfolding insert
sort [] = []
sort (x ∷ xs) = insert x (sort xs)

-- In order, each string before all that follow.
abbrev pub IsSorted : List Str → Type 0
IsSorted [] = Unit {0}
IsSorted (x ∷ xs) = All (λ y. str_leb x y ≡ true) xs × IsSorted xs

-- No string stands twice.
abbrev pub IsDistinct : List Str → Type 0
IsDistinct [] = Unit {0}
IsDistinct (x ∷ xs) = (elem x xs ≡ false) × IsDistinct xs

elem-insert : (k j : Str) (xs : List Str) → elem j (insert k xs) ≡ str_eq k j || elem j xs
unfolding insert elem
elem-insert k j [] = refl
elem-insert k j (x ∷ xs) = ground (arith, elem-insert k j xs)

pub elem-sort : (j : Str) (xs : List Str) → elem j (sort xs) ≡ elem j xs
unfolding sort elem
elem-sort j [] = refl
elem-sort j (x ∷ xs) = ground (arith, elem-insert x j (sort xs), elem-sort j xs)

length-insert : (k : Str) (xs : List Str) → length (insert k xs) ≡ suc (length xs)
unfolding insert
length-insert k [] = refl
length-insert k (x ∷ xs) = ground (arith, length-insert k xs)

pub length-sort : (xs : List Str) → length (sort xs) ≡ length xs
unfolding sort
length-sort [] = refl
length-sort (x ∷ xs) = length-insert x (sort xs) ∙ ap suc (length-sort xs)

insert-IsDistinct :
    (k : Str) (xs : List Str) → elem k xs ≡ false → IsDistinct xs → IsDistinct (insert k xs)
unfolding insert elem
insert-IsDistinct k [] h d = (refl, tt)
insert-IsDistinct k (x ∷ xs) h d =
    ground (arith, insert-IsDistinct k xs, elem-insert k x xs, str_eq_iff x k, str_eq_iff k x)

pub sort-IsDistinct : (xs : List Str) → IsDistinct xs → IsDistinct (sort xs)
unfolding sort
sort-IsDistinct [] d = tt
sort-IsDistinct (x ∷ xs) d =
    insert-IsDistinct x (sort xs) (elem-sort x xs ∙ d.0) (sort-IsDistinct xs d.1)

pub keys-IsDistinct {ℓ} : {V : Type ℓ} (m : Map V) → IsMap m → IsDistinct (keys m)
unfolding keys
keys-IsDistinct [] h = tt
keys-IsDistinct ((k, v) ∷ m) h = (elem-keys m k ∙ h.0, keys-IsDistinct m h.1)

All-insert : (P : Str → Type 0) (k : Str) (xs : List Str) → P k → All P xs → All P (insert k xs)
unfolding insert
All-insert P k [] p h = (p, tt)
All-insert P k (x ∷ xs) p h = ground (arith, All-insert P k xs p h.1)

All-leb_trans :
    (a b : Str) (xs : List Str)
    → str_leb a b ≡ true
    → All (λ y. str_leb b y ≡ true) xs
    → All (λ y. str_leb a y ≡ true) xs
All-leb_trans a b [] h k = tt
All-leb_trans a b (x ∷ xs) h k = (str_leb_trans a b x h k.0, All-leb_trans a b xs h k.1)

insert-IsSorted : (k : Str) (xs : List Str) → IsSorted xs → IsSorted (insert k xs)
unfolding insert
insert-IsSorted k [] s = (tt, tt)
insert-IsSorted k (x ∷ xs) s = ground (
  arith,
  insert-IsSorted k xs s.1,
  str_leb_total k x,
  All-leb_trans k x xs,
  All-insert (λ y. str_leb x y ≡ true) k xs,
)

pub sort-IsSorted : (xs : List Str) → IsSorted (sort xs)
unfolding sort
sort-IsSorted [] = tt
sort-IsSorted (x ∷ xs) = insert-IsSorted x (sort xs) (sort-IsSorted xs)

-- `sortedKeys`
unfoldable pub sorted_keys {ℓ} : {V : Type ℓ} → Map V → List Str
sorted_keys m = sort (keys m)
