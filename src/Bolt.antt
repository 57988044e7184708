-- ===== src/Bolt.antt =====
-- bolt_store.go and reconcile_bolt.go: the persistent store and the reconciliation that it takes.
-- The database engine, go.etcd.io/bbolt, is the interface `Engine`, with what its documentation
-- promises in `IsLawful`. A bucket is a value; a transaction is a function on it.
pub mod Utf8
pub mod Json
pub mod Codec
pub mod Events
pub mod Snapshot
pub mod Contract
pub mod Cursor
pub mod Scope
pub mod Table
pub mod Total
pub mod Work
pub mod Expect
pub mod Reconcile
pub mod Frame
pub mod Steps
pub mod Staged
pub mod Replaced
pub mod Dispatch
use fsrecon.Prelude.{
  ◌≡◌, ◌⊎◌, ℕ, Bool, true, false, Str, Option, none, some, List, [], ◌∷◌, str_eq, str_leb, get, Map,
  keys, IsSorted, IsDistinct, keep, Result, ok, err, if◌then◌else◌,
}

-- The errors of the store's own code and those of the engine.
pub data BoltError (F : Type 0) : Type 0 where
  context_error : BoltError F
  bolt_store_closed store_path_required : BoltError F
  malformed : BoltError F
  unsupported_schema : ℕ → BoltError F
  decode_snapshot : Str → BoltError F → BoltError F
  visitor_failed : F → BoltError F
  engine_failed : F → BoltError F

-- A bucket of values `V`: `Bucket.Get`, `Put`, `Delete`, what a cursor yields from `First` and from
-- `Seek`, and `DB.Update`. A bucket that was just created is `empty`; `clear` is `DeleteBucket` and
-- `CreateBucket` of the same name. `takes` says that a key is not blank and that neither it nor its
-- value is too large.
pub record Engine (B V F : Type 0) : Type 0 where
  pub empty : B
  pub get : B → Str → Option V
  pub takes : Str → V → Bool
  pub put : Str → V → B → Result F B
  pub delete : Str → B → Result F B
  pub clear : B → Result F B
  pub pairs : B → Map V
  pub seek : Str → B → Map V
  pub update : (B → Result (BoltError F) B) → B → Result (BoltError F) B

-- The pairs whose keys are not below one.
abbrev pub from_key {ℓ} : {V : Type ℓ} → Str → Map V → Map V
from_key k [] = []
from_key k ((j, v) ∷ m) = if str_leb k j then (j, v) ∷ m else from_key k m

-- Read-your-writes, cursors in the order of the keys, and atomic transactions.
pub record IsLawful {B V F : Type 0} (engine : Engine B V F) : Type 0 where
  pub get-empty : (k : Str) → engine.get engine.empty k ≡ none
  pub get-put :
      (k : Str) (v : V) (b b' : B) (j : Str)
      → engine.put k v b ≡ ok b'
      → engine.get b' j ≡ (if str_eq k j then some v else engine.get b j)
  pub get-delete :
      (k : Str) (b b' : B) (j : Str)
      → engine.delete k b ≡ ok b'
      → engine.get b' j ≡ (if str_eq k j then none else engine.get b j)
  pub put-takes :
      (k : Str) (v : V) (b : B) → engine.takes k v ≡ true → (b' : B) × (engine.put k v b ≡ ok b')
  pub delete-total : (k : Str) (b : B) → (b' : B) × (engine.delete k b ≡ ok b')
  pub get-clear : (b b' : B) (k : Str) → engine.clear b ≡ ok b' → engine.get b' k ≡ none
  pub get-pairs : (b : B) (k : Str) → get (engine.pairs b) k ≡ engine.get b k
  pub pairs-IsSorted : (b : B) → IsSorted (keys (engine.pairs b))
  pub pairs-IsDistinct : (b : B) → IsDistinct (keys (engine.pairs b))
  pub seek-pairs : (k : Str) (b : B) → engine.seek k b ≡ from_key k (engine.pairs b)
  -- A transaction whose function fails is rolled back.
  pub update-err :
      (f : B → Result (BoltError F) B) (b b' : B) (e : BoltError F)
      → f b ≡ err e b'
      → engine.update f b ≡ err e b
  -- Else it is committed, or the commit fails and nothing is written.
  pub update-ok :
      (f : B → Result (BoltError F) B) (b b' : B)
      → f b ≡ ok b'
      → (engine.update f b ≡ ok b') ⊎ ((e : BoltError F) × (engine.update f b ≡ err e b))
