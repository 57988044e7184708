-- ===== src/Prelude/Assoc.antt =====
-- Go's `map[string]V`: an association list whose keys are distinct. Its order stands for the
-- order in which a `range` loop happens to visit the map.
use Prim.Native.Nat.{suc}
use mathlib.Core.Path.{◌≡◌, refl, ap}
use mathlib.Core.Bool.{Bool, false, ◌||◌}
use mathlib.Core.Option.{Option, none, some}
use mathlib.Core.List.{List, [], ◌∷◌, ◌++◌}
use native.Mathlib.Omega.{arith}
use fsrecon.Prelude.Tests.{if◌then◌else◌, is_some}
use fsrecon.Prelude.Lists.{length}
use fsrecon.Prelude.Bytes.{Str, str_eq, str_eq_iff}

abbrev pub Map {ℓ} : Type ℓ → Type ℓ
Map V = List (Str × V)

-- Is a string among those of a list?
unfoldable pub elem : Str → List Str → Bool
elem k [] = false
elem k (x ∷ xs) = str_eq x k || elem k xs

pub elem-append : (q : Str) (xs ys : List Str) → elem q (xs ++ ys) ≡ elem q xs || elem q ys
unfolding elem
elem-append q [] ys = refl
elem-append q (x ∷ xs) ys = ground (arith, elem-append q xs ys)

module _ {ℓ} {V : Type ℓ} where
  unfoldable pub get : Map V → Str → Option V
  get [] k = none
  get ((j, v) ∷ m) k = if str_eq j k then some v else get m k

  unfoldable pub put : Map V → Str → V → Map V
  put [] k v = (k, v) ∷ []
  put ((j, w) ∷ m) k v = if str_eq j k then (j, v) ∷ m else (j, w) ∷ put m k v

  -- `delete(m, k)`
  unfoldable pub remove : Map V → Str → Map V
  remove [] k = []
  remove ((j, w) ∷ m) k = let rest = remove m k in if str_eq j k then rest else (j, w) ∷ rest

  unfoldable pub keys : Map V → List Str
  keys [] = []
  keys ((j, v) ∷ m) = j ∷ keys m

  abbrev pub has : Map V → Str → Bool
  has m k = is_some (get m k)

  -- `m[k]` with the zero value of the type for a missing key.
  abbrev pub at_or : V → Map V → Str → V
  at_or d m k = elim (get m k) [ none ↦ d | some v ↦ v ]

  -- Each key stands once.
  abbrev pub IsMap : Map V → Type 0
  IsMap [] = Unit {0}
  IsMap ((j, v) ∷ m) = (has m j ≡ false) × IsMap m

  pub get-put :
      (m : Map V) (k j : Str) (v : V) → get (put m k v) j ≡ (if str_eq k j then some v else get m j)
  unfolding get put
  get-put [] k j v = refl
  get-put ((i, w) ∷ m) k j v =
      ground (arith, get-put m k j v, str_eq_iff i k, str_eq_iff i j, str_eq_iff k j)

  pub get-remove :
      (m : Map V) (k j : Str) → get (remove m k) j ≡ (if str_eq k j then none else get m j)
  unfolding get remove
  get-remove [] k j = ground arith
  get-remove ((i, w) ∷ m) k j =
      ground (arith, get-remove m k j, str_eq_iff i k, str_eq_iff i j, str_eq_iff k j)

  pub put-IsMap : (m : Map V) (k : Str) (v : V) → IsMap m → IsMap (put m k v)
  unfolding get put
  put-IsMap [] k v h = (refl, tt)
  put-IsMap ((i, w) ∷ m) k v h =
      ground (arith, put-IsMap m k v, get-put m k i v, str_eq_iff i k, str_eq_iff k i)

  pub remove-IsMap : (m : Map V) (k : Str) → IsMap m → IsMap (remove m k)
  unfolding get remove
  remove-IsMap [] k h = tt
  remove-IsMap ((i, w) ∷ m) k h =
      ground (arith, remove-IsMap m k, get-remove m k i, str_eq_iff i k, str_eq_iff k i)

  pub elem-keys : (m : Map V) (k : Str) → elem k (keys m) ≡ has m k
  unfolding elem keys get
  elem-keys [] k = refl
  elem-keys ((i, w) ∷ m) k = ground (arith, elem-keys m k)

  pub length-keys : (m : Map V) → length (keys m) ≡ length m
  unfolding keys
  length-keys [] = refl
  length-keys ((i, w) ∷ m) = ap suc (length-keys m)
