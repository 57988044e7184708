-- ===== src/Diff/Index.antt =====
-- `indexUniqueIDs` of internal/reconcile/reconcile.go against a direct description: an identity
-- is indexed when one path of the snapshot has it, and no other.
use fsrecon.Prelude.{
  ◌≡◌, refl, ◌∙◌, Str, Map, Bool, true, false, ◌||◌, Option, none, some, List, [], ◌∷◌, arith,
  str_eq, str_eq_iff, get, put, remove, has, get-put, get-remove, Bool-cases, inl, inr,
  if◌then◌else◌,
}
use fsrecon.Diff.{State, index_ids, remove_all, index_unique_ids}

-- The paths with an identity, in the order of the map.
unfoldable pub owners : Str → Map State → List Str
owners id [] = []
owners id ((path, state) ∷ m) =
    let rest = owners id m in if str_eq state.id id then path ∷ rest else rest

-- The only element of a list of one.
abbrev pub sole : List Str → Option Str
sole [] = none
sole (p ∷ []) = some p
sole (p ∷ q ∷ ps) = none

abbrev first : List Str → Option Str
first [] = none
first (p ∷ ps) = some p

abbrev found_or {ℓ} : {A : Type ℓ} → Option A → Option A → Option A
found_or none b = b
found_or (some a) b = some a

-- Are these, with the owner that is known already, more than one?
abbrev crowded : Bool → List Str → Bool
crowded b [] = false
crowded true (p ∷ ps) = true
crowded false (p ∷ []) = false
crowded false (p ∷ q ∷ ps) = true

get-remove_all {ℓ κ} :
    {V : Type ℓ} {W : Type κ} (ks : Map W) (m : Map V) (k : Str)
    → get (remove_all ks m) k ≡ (if has ks k then none else get m k)
unfolding get remove_all
get-remove_all [] m k = refl
get-remove_all ((j, w) ∷ ks) m k =
    get-remove_all ks (remove m j) k ∙ ground (arith, get-remove m j k)

index_ids-first :
    (states : Map State) (result : Map Str) (duplicates : Map (Unit {0})) (id : Str)
    → str_eq id [] ≡ false
    → get (index_ids states result duplicates).0 id
      ≡ found_or (get result id) (first (owners id states))
unfolding index_ids owners
index_ids-first [] result duplicates id h = ground arith
index_ids-first ((p, s) ∷ m) result duplicates id h = ground (
  arith,
  index_ids-first m result duplicates id,
  index_ids-first m result (put duplicates s.id tt) id,
  index_ids-first m (put result s.id p) duplicates id,
  get-put result s.id id p,
  str_eq_iff s.id id,
  str_eq_iff s.id [],
  str_eq_iff id [],
)

index_ids-crowded :
    (states : Map State) (result : Map Str) (duplicates : Map (Unit {0})) (id : Str)
    → str_eq id [] ≡ false
    → has (index_ids states result duplicates).1 id
      ≡ has duplicates id || crowded (has result id) (owners id states)
unfolding index_ids owners
index_ids-crowded [] result duplicates id h = ground arith
index_ids-crowded ((p, s) ∷ m) result duplicates id h = ground (
  arith,
  index_ids-crowded m result duplicates id,
  index_ids-crowded m result (put duplicates s.id tt) id,
  index_ids-crowded m (put result s.id p) duplicates id,
  get-put result s.id id p,
  get-put duplicates s.id id tt,
  str_eq_iff s.id id,
  str_eq_iff s.id [],
  str_eq_iff id [],
)

index_ids-empty :
    (states : Map State) (result : Map Str) (duplicates : Map (Unit {0}))
    → get (index_ids states result duplicates).0 [] ≡ get result []
unfolding index_ids
index_ids-empty [] result duplicates = refl
index_ids-empty ((p, s) ∷ m) result duplicates = ground (
  arith,
  index_ids-empty m result duplicates,
  index_ids-empty m result (put duplicates s.id tt),
  index_ids-empty m (put result s.id p) duplicates,
  get-put result s.id [] p,
)

-- The index holds an identity exactly when it is not empty and one path alone has it, and then
-- gives that path.
pub get-index_unique_ids :
    (states : Map State) (id : Str)
    → get (index_unique_ids states) id ≡ (if str_eq id [] then none else sole (owners id states))
unfolding index_unique_ids get
get-index_unique_ids states id = elim (Bool-cases (str_eq id [])) [
  | inl empty ↦
      get-remove_all (index_ids states [] []).1 (index_ids states [] []).0 id
      ∙ ground (arith, str_eq_iff id [], index_ids-empty states [] [])
  | inr named ↦
      get-remove_all (index_ids states [] []).1 (index_ids states [] []).0 id
      ∙ ground
          (arith, index_ids-first states [] [] id named, index_ids-crowded states [] [] id named)
]
