-- ===== src/Bolt/Snapshot.antt =====
-- bolt_store.go: the operations of a `BoltStore`. Its mutex makes each a step. A context is the
-- sequence of the answers that `ctx.Err` gives; the error of `DB.Close` is left out.
use fsrecon.Prelude.{
  ℕ, suc, Bool, true, false, Str, Map, Option, none, some, List, [], ◌∷◌, length, str_eq, Result,
  ok, err, ◌>>=◌, if◌then◌else◌,
}
use fsrecon.State.{FileState}
use fsrecon.FilePath.{clean, path_has_prefix}
use fsrecon.Bolt.{
  BoltError, context_error, bolt_store_closed, store_path_required, decode_snapshot, engine_failed,
  Engine,
}
use fsrecon.Bolt.Json.{Json}
use fsrecon.Bolt.Codec.{encode_file_state, decode_file_state}

pub record BoltStore (B : Type 0) : Type 0 where
  pub db : B
  pub closed : Bool

-- An error of the engine, passed on.
abbrev pub engine_step {ℓ} : {A : Type ℓ} {F : Type 0} → Result F A → Result (BoltError F) A
engine_step (ok a) = ok a
engine_step (err e a) = err (engine_failed e) a

-- The error of a cancelled context, before a step.
abbrev pub unless_cancelled :
    {B F : Type 0} → Bool → B → Result (BoltError F) B → Result (BoltError F) B
unless_cancelled true b r = err context_error b
unless_cancelled false b r = r

-- `OpenBoltStore`, with `bolt.Open` and the creation of the bucket; without a store where it fails.
unfoldable pub open_bolt_store :
    {B F : Type 0}
    → (Str → Option F)
    → (Str → Result F B)
    → Str
    → Result (BoltError F) (Option (BoltStore B))
unfolding clean
open_bolt_store open_db create_bucket path =
    if str_eq path [] then err store_path_required none else (elim (open_db (clean path)) [
      | some e ↦ err (engine_failed e) none
      | none ↦ elim (create_bucket (clean path)) [
        | err e b ↦ err (engine_failed e) none
        | ok b ↦ ok (some (record { db = b; closed = false }))
      ]
    ])

-- `Close`: a second call changes nothing.
unfoldable pub close : {B : Type 0} → BoltStore B → BoltStore B
close s = if s.closed then s else record s { closed = true }

-- `database`
unfoldable pub database : {B F : Type 0} → BoltStore B → Result (BoltError F) (BoltStore B)
database s = if s.closed then err bolt_store_closed s else ok s

-- A transaction's outcome as the store's.
abbrev pub in_store :
    {B F : Type 0} → BoltStore B → Result (BoltError F) B → Result (BoltError F) (BoltStore B)
in_store s (ok b) = ok (record s { db = b })
in_store s (err e b) = err e (record s { db = b })

-- A state that is not decoded is found, and zero.
abbrev pub found : {F : Type 0} → Result F FileState → Result F (Option FileState)
found (ok state) = ok (some state)
found (err e state) = err e (some state)

-- The value of a key.
unfoldable pub read_value : {F : Type 0} → Option Json → Result (BoltError F) (Option FileState)
unfolding decode_file_state
read_value none = ok none
read_value (some value) = found (decode_file_state value)

module _ {B F : Type 0} (engine : Engine B Json F) where
  -- `Get`
  unfoldable pub get_state : Bool → Str → BoltStore B → Result (BoltError F) (Option FileState)
  unfolding read_value
  get_state true path s = err context_error none
  get_state false path s =
      if s.closed then err bolt_store_closed none else read_value (engine.get s.db path)

  unfoldable pub delete_keys : (ℕ → Bool) → ℕ → List Str → B → Result (BoltError F) B
  delete_keys ctx n [] b = ok b
  delete_keys ctx n (path ∷ paths) b =
      unless_cancelled (ctx n) b
        (engine_step (engine.delete path b) >>= delete_keys ctx (suc n) paths)

  unfoldable pub put_states : (ℕ → Bool) → ℕ → List FileState → B → Result (BoltError F) B
  unfolding encode_file_state
  put_states ctx n [] b = ok b
  put_states ctx n (state ∷ states) b = unless_cancelled (ctx n) b (
      engine_step (engine.put state.path (encode_file_state state) b)
      >>= put_states ctx (suc n) states)

  -- A transaction on an open store.
  unfoldable pub transact :
      (B → Result (BoltError F) B) → BoltStore B → Result (BoltError F) (BoltStore B)
  unfolding database
  transact f s = database s >>= λ s'. in_store s' (engine.update f s'.db)

  -- The transaction of `Apply`.
  unfoldable pub apply_tx : (ℕ → Bool) → List FileState → List Str → B → Result (BoltError F) B
  unfolding delete_keys put_states
  apply_tx ctx puts deletes b =
      delete_keys ctx 1 deletes b >>= put_states ctx (suc (length deletes)) puts

  -- `Apply`
  unfoldable pub apply :
      (ℕ → Bool) → List FileState → List Str → BoltStore B → Result (BoltError F) (BoltStore B)
  unfolding apply_tx transact
  apply ctx puts deletes s = unless_cancelled (ctx 0) s (transact (apply_tx ctx puts deletes) s)

  -- `Put`
  unfoldable pub put_state :
      (ℕ → Bool) → FileState → BoltStore B → Result (BoltError F) (BoltStore B)
  unfolding apply
  put_state ctx state s = apply ctx (state ∷ []) [] s

  -- `Delete`
  unfoldable pub delete_state : (ℕ → Bool) → Str → BoltStore B → Result (BoltError F) (BoltStore B)
  unfolding apply
  delete_state ctx path s = apply ctx [] (path ∷ []) s

  -- The loop of `WalkScope` over what a cursor yields: it ends at the first key outside of the
  -- scope. The context may be cancelled while the visitor runs.
  unfoldable pub visit_pairs {ℓ} :
      {A : Type ℓ}
      → (A → Bool)
      → Str
      → (FileState → A → Result (BoltError F) A)
      → Map Json
      → A
      → Result (BoltError F) A
  unfolding decode_file_state
  visit_pairs cancelled prefix fn [] a = ok a
  visit_pairs cancelled prefix fn ((path, value) ∷ rest) a = elim (cancelled a) [
    | true ↦ err context_error a
    | false ↦ elim (path_has_prefix path prefix) [
      | false ↦ ok a
      | true ↦ elim (decode_file_state {F = F} value) [
        | err e state ↦ err (decode_snapshot path e) a
        | ok state ↦ fn state a >>= visit_pairs cancelled prefix fn rest
      ]
    ]
  ]

  -- `WalkScope`, which `Walk` is too.
  unfoldable pub walk_scope {ℓ} :
      {A : Type ℓ}
      → BoltStore B
      → (A → Bool)
      → Str
      → (FileState → A → Result (BoltError F) A)
      → A
      → Result (BoltError F) A
  unfolding visit_pairs
  walk_scope s cancelled prefix fn a = elim (cancelled a) [
    | true ↦ err context_error a
    | false ↦ elim s.closed [
      | true ↦ err bolt_store_closed a
      | false ↦ visit_pairs cancelled prefix fn (engine.seek prefix s.db) a
    ]
  ]

  unfoldable pub copy_pairs : (ℕ → Bool) → ℕ → Map Json → B → Result (BoltError F) B
  copy_pairs ctx n [] b = ok b
  copy_pairs ctx n ((key, value) ∷ rest) b =
      unless_cancelled (ctx n) b
        (engine_step (engine.put key value b) >>= copy_pairs ctx (suc n) rest)

  -- The transaction of `replaceSnapshot`, from the pairs of a bucket of another database.
  unfoldable pub replace_tx : (ℕ → Bool) → Map Json → B → Result (BoltError F) B
  unfolding copy_pairs
  replace_tx ctx source b = engine_step (engine.clear b) >>= copy_pairs ctx 0 source

  -- `replaceSnapshot`
  unfoldable pub replace_snapshot :
      (ℕ → Bool) → B → BoltStore B → Result (BoltError F) (BoltStore B)
  unfolding replace_tx transact
  replace_snapshot ctx source s = transact (replace_tx ctx (engine.pairs source)) s
