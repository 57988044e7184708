-- ===== src/Bolt/Scope.antt =====
-- `WalkScope` of bolt_store.go against the states whose paths are in the scope.
use fsrecon.Prelude.{
  ◌≡◌, refl, sym, ap, ◌∙◌, Bool, true, false, not, ◌||◌, Str, Map, List, [], ◌∷◌, keep, keys, All,
  IsSorted, str_leb, str_leb_trans, Bool-cases, inl, inr, Result, ok, err, ◌>>=◌, arith,
  if◌then◌else◌,
}
use fsrecon.State.{FileState}
use fsrecon.FilePath.{starts_with, path_has_prefix}
use fsrecon.Bolt.{BoltError, bolt_store_closed, decode_snapshot, Engine, IsLawful, from_key}
use fsrecon.Bolt.Json.{Json}
use fsrecon.Bolt.Codec.{decode_file_state}
use fsrecon.Bolt.Snapshot.{BoltStore, visit_pairs, walk_scope}
use fsrecon.Bolt.Cursor.{starts_with-leb, starts_with-after, path_has_prefix-starts_with}

-- The pairs whose keys are in a scope.
abbrev pub in_scope : Str → Map Json → Map Json
in_scope prefix m = keep (λ pair. path_has_prefix pair.0 prefix) m

-- Visit each, whatever its key.
abbrev pub visit_all {ℓ} :
    {A : Type ℓ} {F : Type 0}
    → (FileState → A → Result (BoltError F) A)
    → Map Json
    → A
    → Result (BoltError F) A
visit_all fn [] a = ok a
visit_all fn ((path, value) ∷ rest) a = elim (decode_file_state value) [
  | err e state ↦ err (decode_snapshot path e) a
  | ok state ↦ fn state a >>= visit_all fn rest
]

-- Keys that begin with the bytes of the scope lie in its subtree.
abbrev pub AreSeparate : Str → Map Json → Type 0
AreSeparate prefix m =
    All (λ k. not (starts_with k prefix) || path_has_prefix k prefix ≡ true) (keys m)

in_scope_cons :
    (prefix k : Str) (v : Json) (m : Map Json) (b : Bool)
    → path_has_prefix k prefix ≡ b
    → in_scope prefix ((k, v) ∷ m) ≡ (if b then (k, v) ∷ in_scope prefix m else in_scope prefix m)
in_scope_cons prefix k v m true h = ground arith
in_scope_cons prefix k v m false h = ground arith

-- Past the scope, nothing is in it.
in_scope-after :
    (prefix key : Str) (m : Map Json)
    → str_leb prefix key ≡ true
    → starts_with key prefix ≡ false
    → All (λ k. str_leb key k ≡ true) (keys m)
    → in_scope prefix m ≡ []
unfolding keys
in_scope-after prefix key [] h s a = refl
in_scope-after prefix key ((k, v) ∷ m) h s a = ground (
  arith,
  in_scope-after prefix key m h s a.1,
  starts_with-after prefix key k h a.0 s,
  path_has_prefix-starts_with k prefix,
)

above :
    (prefix key : Str) (ks : List Str)
    → str_leb prefix key ≡ true
    → All (λ k. str_leb key k ≡ true) ks
    → All (λ k. str_leb prefix k ≡ true) ks
above prefix key [] h a = tt
above prefix key (k ∷ ks) h a = (str_leb_trans prefix key k h a.0, above prefix key ks h a.1)

bind-same {ℓ} :
    {A : Type ℓ} {E : Type 0} (r : Result E A) (f g : A → Result E A)
    → ((a : A) → f a ≡ g a)
    → (r >>= f) ≡ (r >>= g)
bind-same (ok a) f g h = h a
bind-same (err e a) f g h = refl

abbrev visit_value {ℓ} :
    {A : Type ℓ} {F : Type 0}
    → (FileState → A → Result (BoltError F) A)
    → Str
    → A
    → (A → Result (BoltError F) A)
    → Result (BoltError F) FileState
    → Result (BoltError F) A
visit_value fn path a f (ok state) = fn state a >>= f
visit_value fn path a f (err e state) = err (decode_snapshot path e) a

visit_value-same {ℓ} :
    {A : Type ℓ} {F : Type 0} (fn : FileState → A → Result (BoltError F) A) (path : Str) (a : A)
    (d : Result (BoltError F) FileState) (f g : A → Result (BoltError F) A)
    → ((b : A) → f b ≡ g b)
    → visit_value fn path a f d ≡ visit_value fn path a g d
visit_value-same fn path a (ok state) f g h = bind-same (fn state a) f g h
visit_value-same fn path a (err e state) f g h = refl

module _ {ℓ} {A : Type ℓ} {B F : Type 0} (engine : Engine B Json F)
    (fn : FileState → A → Result (BoltError F) A) (prefix : Str) where
  first_pair :
      (k : Str) (v : Json) (m : Map Json) (a : A) (b : Bool)
      → path_has_prefix k prefix ≡ b
      → visit_pairs engine (λ _. false) prefix fn ((k, v) ∷ m) a ≡ (
          if b
          then visit_value fn k a
              (visit_pairs engine (λ _. false) prefix fn m)
              (decode_file_state v)
          else ok a)
  unfolding visit_pairs
  first_pair k v m a true h = rw (h, visit_pairs) refl
  first_pair k v m a false h = rw (h, visit_pairs) refl

  visit_pairs-in_scope :
      (m : Map Json) (a : A)
      → IsSorted (keys m)
      → All (λ k. str_leb prefix k ≡ true) (keys m)
      → AreSeparate prefix m
      → visit_pairs engine (λ _. false) prefix fn m a ≡ visit_all fn (in_scope prefix m) a
  unfolding visit_pairs keys
  visit_pairs-in_scope [] a s h p = refl
  visit_pairs-in_scope ((k, v) ∷ m) a s h p = elim (Bool-cases (path_has_prefix k prefix)) [
    | inr f ↦
        first_pair k v m a false f
        ∙ sym (
            ap (λ l. visit_all fn l a)
              (in_scope_cons prefix k v m false f
                ∙ in_scope-after prefix k m h.0 (ground (arith, p.0)) s.0))
    | inl t ↦
        first_pair k v m a true t
        ∙ visit_value-same fn k a (decode_file_state v)
            (visit_pairs engine (λ _. false) prefix fn m) (visit_all fn (in_scope prefix m))
            (λ b. visit_pairs-in_scope m b s.1 h.1 p.1)
        ∙ sym (ap (λ l. visit_all fn l a) (in_scope_cons prefix k v m true t))
  ]

  -- A cursor that seeks the scope skips nothing of it.
  visit_pairs-seek :
      (m : Map Json) (a : A)
      → IsSorted (keys m)
      → AreSeparate prefix m
      → visit_pairs engine (λ _. false) prefix fn (from_key prefix m) a
        ≡ visit_all fn (in_scope prefix m) a
  unfolding keys visit_pairs
  visit_pairs-seek [] a s p = refl
  visit_pairs-seek ((k, v) ∷ m) a s p = elim (Bool-cases (str_leb prefix k)) [
    | inl h ↦
        ap
          (λ b.
            visit_pairs engine (λ _. false) prefix fn (if b then (k, v) ∷ m else from_key prefix m)
              a)
          h
        ∙ visit_pairs-in_scope ((k, v) ∷ m) a s (h, above prefix k (keys m) h s.0) p
    | inr h ↦
        ap
          (λ b.
            visit_pairs engine (λ _. false) prefix fn (if b then (k, v) ∷ m else from_key prefix m)
              a)
          h
        ∙ visit_pairs-seek m a s.1 p.1
        ∙ ap (λ l. visit_all fn l a)
            (sym (
              in_scope_cons prefix k v m false
                (ground (arith, starts_with-leb k prefix, path_has_prefix-starts_with k prefix))))
  ]

module _ {ℓ} {A : Type ℓ} {B F : Type 0} (engine : Engine B Json F) (lawful : IsLawful engine) where
  -- `WalkScope` of an open store, its context not cancelled, visits the states whose keys are in
  -- the scope, each once and in the order of the keys, up to the first error of the visitor or of
  -- a document, where each key that begins with the bytes of the scope is in its subtree. (The
  -- walk ends at the first key that is not, so that a sibling such as "a-b" cuts that of "a" off.)
  pub walk_scope-in_scope :
      (s : BoltStore B) (prefix : Str) (fn : FileState → A → Result (BoltError F) A) (a : A)
      → s.closed ≡ false
      → AreSeparate prefix (engine.pairs s.db)
      → walk_scope engine s (λ _. false) prefix fn a
        ≡ visit_all fn (in_scope prefix (engine.pairs s.db)) a
  unfolding walk_scope
  walk_scope-in_scope s prefix fn a c p =
      ap
        (λ closed. elim closed [
          | true ↦ err bolt_store_closed a
          | false ↦ visit_pairs engine (λ _. false) prefix fn (engine.seek prefix s.db) a
        ])
        c
      ∙ ap (λ m. visit_pairs engine (λ _. false) prefix fn m a) (lawful.seek-pairs prefix s.db)
      ∙ visit_pairs-seek engine fn prefix (engine.pairs s.db) a (lawful.pairs-IsSorted s.db) p
