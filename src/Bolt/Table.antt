-- ===== src/Bolt/Table.antt =====
-- An engine in memory: a bucket is an association list, whose cursor sorts it. It meets what is
-- asked of the database engine, so that the theorems on the store apply.
use fsrecon.Prelude.{
  ◌≡◌, refl, ap, subst, final, none, not, true, false, ◌||◌, Str, Map, [], ◌∷◌, str_eq, str_eq_iff,
  str_leb, str_leb_total, str_leb_antisymm, str_leb_trans, elem, some, get, put, remove, keys,
  get-put, get-remove, All, IsSorted, IsDistinct, Result, ok, err, inl, List, arith, if◌then◌else◌,
}
use fsrecon.Bolt.{Engine, IsLawful, from_key}

unfoldable pub insert_pair : {V : Type 0} → Str → V → Map V → Map V
insert_pair k v [] = (k, v) ∷ []
insert_pair k v ((j, w) ∷ m) =
    if str_eq j k
    then (k, v) ∷ m
    else if str_leb k j
    then (k, v) ∷ (j, w) ∷ m
    else (j, w) ∷ insert_pair k v m

unfoldable pub sort_pairs : {V : Type 0} → Map V → Map V
unfolding insert_pair
sort_pairs [] = []
sort_pairs ((k, v) ∷ m) = insert_pair k v (sort_pairs m)

abbrev pub commit : {B F : Type 0} → B → Result F B → Result F B
commit b (ok b') = ok b'
commit b (err e b') = err e b

-- A blank key is refused.
abbrev pub put_pair : {V F : Type 0} → F → Str → V → Map V → Result F (Map V)
put_pair e [] v b = err e b
put_pair e (c ∷ k) v b = ok (put b (c ∷ k) v)

abbrev pub table : {V F : Type 0} → F → Engine (Map V) V F
table e = record {
  empty = [];
  get = λ b k. get b k;
  takes = λ k v. not (str_eq k []);
  put = put_pair e;
  delete = λ k b. ok (remove b k);
  clear = λ b. ok [];
  pairs = sort_pairs;
  seek = λ k b. from_key k (sort_pairs b);
  update = λ f b. commit b (f b);
}

module _ {V : Type 0} where
  get-insert_pair :
      (k : Str) (v : V) (m : Map V) (j : Str)
      → get (insert_pair k v m) j ≡ (if str_eq k j then some v else get m j)
  unfolding get insert_pair
  get-insert_pair k v [] j = refl
  get-insert_pair k v ((i, w) ∷ m) j =
      ground (arith, get-insert_pair k v m j, str_eq_iff i k, str_eq_iff i j, str_eq_iff k j)

  get-sort_pairs : (m : Map V) (k : Str) → get (sort_pairs m) k ≡ get m k
  unfolding get sort_pairs
  get-sort_pairs [] k = refl
  get-sort_pairs ((j, v) ∷ m) k =
      ground (arith, get-insert_pair j v (sort_pairs m) k, get-sort_pairs m k)

  elem-insert_pair :
      (k j : Str) (v : V) (m : Map V)
      → elem j (keys (insert_pair k v m)) ≡ str_eq k j || elem j (keys m)
  unfolding elem keys insert_pair
  elem-insert_pair k j v [] = refl
  elem-insert_pair k j v ((i, w) ∷ m) =
      ground (arith, elem-insert_pair k j v m, str_eq_iff i k, str_eq_iff i j, str_eq_iff k j)

  All-insert_pair :
      (P : Str → Type 0) (k : Str) (v : V) (m : Map V)
      → P k
      → All P (keys m)
      → All P (keys (insert_pair k v m))
  unfolding keys insert_pair
  All-insert_pair P k v [] p h = (p, tt)
  All-insert_pair P k v ((i, w) ∷ m) p h = ground (arith, All-insert_pair P k v m p h.1)

All-leb :
    (a b : Str) (ks : List Str)
    → str_leb a b ≡ true
    → All (λ k. str_leb b k ≡ true) ks
    → All (λ k. str_leb a k ≡ true) ks
All-leb a b [] h k = tt
All-leb a b (x ∷ xs) h k = (str_leb_trans a b x h k.0, All-leb a b xs h k.1)

-- A string strictly below a sorted list's first is not in it.
elem-below :
    (k j : Str) (ks : List Str)
    → str_leb k j ≡ true
    → str_eq j k ≡ false
    → All (λ x. str_leb j x ≡ true) ks
    → elem k ks ≡ false
unfolding elem
elem-below k j [] h d a = refl
elem-below k j (x ∷ xs) h d a =
    ground (arith, elem-below k j xs h d a.1, str_eq_iff x k, str_eq_iff j k, str_leb_antisymm j k)

module _ {V : Type 0} where
  insert_pair-IsSorted :
      (k : Str) (v : V) (m : Map V) → IsSorted (keys m) → IsSorted (keys (insert_pair k v m))
  unfolding keys insert_pair
  insert_pair-IsSorted k v [] s = (tt, tt)
  insert_pair-IsSorted k v ((i, w) ∷ m) s = ground (
    arith,
    insert_pair-IsSorted k v m s.1,
    str_leb_total k i,
    str_eq_iff i k,
    All-leb k i (keys m),
    All-insert_pair (λ y. str_leb i y ≡ true) k v m,
  )

  insert_pair-IsDistinct :
      (k : Str) (v : V) (m : Map V)
      → IsSorted (keys m)
      → IsDistinct (keys m)
      → IsDistinct (keys (insert_pair k v m))
  unfolding keys insert_pair elem
  insert_pair-IsDistinct k v [] s d = (refl, tt)
  insert_pair-IsDistinct k v ((i, w) ∷ m) s d = ground (
    arith,
    insert_pair-IsDistinct k v m s.1 d.1,
    elem-insert_pair k i v m,
    elem-below k i (keys m),
    str_eq_iff i k,
    str_eq_iff k i,
  )

  sort_pairs-IsSorted : (m : Map V) → IsSorted (keys (sort_pairs m))
  unfolding sort_pairs keys
  sort_pairs-IsSorted [] = tt
  sort_pairs-IsSorted ((k, v) ∷ m) = insert_pair-IsSorted k v (sort_pairs m) (sort_pairs-IsSorted m)

  sort_pairs-IsDistinct : (m : Map V) → IsDistinct (keys (sort_pairs m))
  unfolding sort_pairs keys
  sort_pairs-IsDistinct [] = tt
  sort_pairs-IsDistinct ((k, v) ∷ m) =
      insert_pair-IsDistinct k v (sort_pairs m) (sort_pairs-IsSorted m) (sort_pairs-IsDistinct m)

  get-put_pair :
      {F : Type 0} (e : F) (k : Str) (v : V) (b b' : Map V) (j : Str)
      → put_pair e k v b ≡ ok b'
      → get b' j ≡ (if str_eq k j then some v else get b j)
  get-put_pair e [] v b b' j h = ground arith
  get-put_pair e (c ∷ k) v b b' j h =
      subst (λ m. get m j ≡ (if str_eq (c ∷ k) j then some v else get b j)) (ap final h)
        (get-put b (c ∷ k) j v)

  put_pair-total :
      {F : Type 0} (e : F) (k : Str) (v : V) (b : Map V)
      → not (str_eq k []) ≡ true
      → (b' : Map V) × (put_pair e k v b ≡ ok b')
  unfolding str_eq
  put_pair-total e [] v b h = cc
  put_pair-total e (c ∷ k) v b h = (put b (c ∷ k) v, refl)

  pub table-IsLawful : {F : Type 0} (e : F) → IsLawful (table {V = V} e)
  unfolding get
  table-IsLawful e = record {
    get-empty = λ k. refl;
    get-put = get-put_pair e;
    get-delete = λ k b b' j h.
        subst (λ m. get m j ≡ (if str_eq k j then none else get b j)) (ap final h)
          (get-remove b k j);
    put-takes = put_pair-total e;
    delete-total = λ k b. (remove b k, refl);
    get-clear = λ b b' k h. subst (λ m. get m k ≡ none) (ap final h) refl;
    get-pairs = get-sort_pairs;
    pairs-IsSorted = sort_pairs-IsSorted;
    pairs-IsDistinct = sort_pairs-IsDistinct;
    seek-pairs = λ k b. refl;
    update-err = λ f b b' e h. ap (commit b) h;
    update-ok = λ f b b' h. inl (ap (commit b) h);
  }
