-- ===== src/Bolt/Contract.antt =====
-- The Bolt store against the in-memory store of store.go.
use fsrecon.Prelude.{
  ℕ, suc, ◌≡◌, refl, sym, ap, ◌∙◌, subst, ◌⊎◌, inl, inr, Bool, true, false, Str, Option, none, some,
  List, [], ◌∷◌, length, All, Map, keys, has, elem, elem-keys, IsDistinct, str_eq, str_eq_iff, get,
  get-put, get-remove, Result, ok, err, ◌>>=◌, OnOk, OnOk-map, OnOk-bind, OnOk-ok, Result-cases,
  Bool-cases, if◌then◌else◌, arith,
}
use fsrecon.State.{FileState}
use fsrecon.Store
use fsrecon.Store.{MemoryStore}
use fsrecon.Bolt.{BoltError, bolt_store_closed, context_error, Engine, IsLawful}
use fsrecon.Bolt.Utf8.{is_utf8, to_valid-is_utf8}
use fsrecon.Bolt.Json.{Json}
use fsrecon.Bolt.Codec.{encode_file_state, as_written, Fits, decode-encode}
use fsrecon.Bolt.Snapshot.{
  BoltStore, found, read_value, get_state, delete_keys, put_states, apply_tx, apply, engine_step,
  in_store, database, transact, copy_pairs, replace_tx, replace_snapshot, unless_cancelled,
}

-- A state that a document keeps as it is.
abbrev pub IsWritable : FileState → Type 0
IsWritable s = Fits s × (is_utf8 s.path ≡ true) × (is_utf8 s.id.value ≡ true)

as_written-same : (s : FileState) → IsWritable s → as_written s ≡ s
as_written-same s (fits, p, i) = rw (to_valid-is_utf8 s.path p, to_valid-is_utf8 s.id.value i) refl

pub written :
    {F : Type 0} (s : FileState)
    → IsWritable s
    → read_value {F = F} (some (encode_file_state s)) ≡ ok (some s)
unfolding read_value
written s (fits, p, i) = ap found (decode-encode s fits ∙ ap ok (as_written-same s (fits, p, i)))

module _ {B F : Type 0} (engine : Engine B Json F) where
  -- Does each `Get` answer as that of the in-memory store does?
  abbrev pub Agrees : BoltStore B → MemoryStore → Type 0
  Agrees s m = (p : Str) → get_state engine false p s ≡ ok (get m.entries p)

  abbrev AgreesOn : B → MemoryStore → Type 0
  AgreesOn b m = (p : Str) → read_value {F = F} (engine.get b p) ≡ ok (get m.entries p)

-- A loop's step is skipped when the context is cancelled.
OnOk-step :
    {B F : Type 0} (P Q : B → Type 0) (c : Bool) (b : B) (r : Result F B)
    (f : B → Result (BoltError F) B)
    → ((b' : B) → r ≡ ok b' → P b')
    → ((b' : B) → P b' → OnOk Q (f b'))
    → OnOk Q (unless_cancelled c b (engine_step r >>= f))
OnOk-step P Q true b r f h k = tt
OnOk-step P Q false b (ok b') f h k = k b' (h b' refl)
OnOk-step P Q false b (err e b') f h k = tt

-- A value among those of a bucket, or the one that was written.
pub read-if :
    {F : Type 0} (c : Bool) (v w v' : Option Json) (x y x' : Option FileState)
    → v' ≡ (if c then v else w)
    → x' ≡ (if c then x else y)
    → read_value {F = F} v ≡ ok x
    → read_value {F = F} w ≡ ok y
    → read_value {F = F} v' ≡ ok x'
read-if true v w v' x y x' e f h k = ap read_value e ∙ h ∙ ap ok (sym f)
read-if false v w v' x y x' e f h k = ap read_value e ∙ k ∙ ap ok (sym f)

module _ {B F : Type 0} (engine : Engine B Json F) (lawful : IsLawful engine) where
  delete_keys-AgreesOn :
      (ctx : ℕ → Bool) (n : ℕ) (paths : List Str) (b : B) (m : MemoryStore)
      → AgreesOn engine b m
      → OnOk
          (λ b'. AgreesOn engine b' (Store.delete_entries paths m))
          (delete_keys engine ctx n paths b)
  unfolding delete_keys Store.delete_entries Store.delete_entry read_value
  delete_keys-AgreesOn ctx n [] b m h = h
  delete_keys-AgreesOn ctx n (path ∷ paths) b m h =
      OnOk-step (λ b'. AgreesOn engine b' (Store.delete_entry path m)) _ (ctx n) b
        (engine.delete path b) (delete_keys engine ctx (suc n) paths)
        (λ b' e p.
          read-if (str_eq path p) none (engine.get b p) _ none (get m.entries p) _
            (lawful.get-delete path b b' p e) (get-remove m.entries path p) refl (h p))
        (λ b' h'. delete_keys-AgreesOn ctx (suc n) paths b' (Store.delete_entry path m) h')

  put_states-AgreesOn :
      (ctx : ℕ → Bool) (n : ℕ) (states : List FileState) (b : B) (m : MemoryStore)
      → All IsWritable states
      → AgreesOn engine b m
      → OnOk
          (λ b'. AgreesOn engine b' (Store.put_entries states m))
          (put_states engine ctx n states b)
  unfolding put_states Store.put_entries Store.put_entry
  put_states-AgreesOn ctx n [] b m w h = h
  put_states-AgreesOn ctx n (s ∷ states) b m (w, ws) h =
      OnOk-step (λ b'. AgreesOn engine b' (Store.put_entry s m)) _ (ctx n) b
        (engine.put s.path (encode_file_state s) b) (put_states engine ctx (suc n) states)
        (λ b' e p.
          read-if (str_eq s.path p) (some (encode_file_state s)) (engine.get b p) _ (some s)
            (get m.entries p) _ (lawful.get-put s.path (encode_file_state s) b b' p e)
            (get-put m.entries s.path p s) (written s w) (h p))
        (λ b' h'. put_states-AgreesOn ctx (suc n) states b' (Store.put_entry s m) ws h')

  apply_tx-AgreesOn :
      (ctx : ℕ → Bool) (puts : List FileState) (deletes : List Str) (b : B) (m : MemoryStore)
      → All IsWritable puts
      → AgreesOn engine b m
      → OnOk
          (λ b'. AgreesOn engine b' (Store.put_entries puts (Store.delete_entries deletes m)))
          (apply_tx engine ctx puts deletes b)
  unfolding apply_tx
  apply_tx-AgreesOn ctx puts deletes b m w h =
      OnOk-bind (λ b'. AgreesOn engine b' (Store.delete_entries deletes m)) _
        (delete_keys engine ctx 1 deletes b) (put_states engine ctx (suc (length deletes)) puts)
        (delete_keys-AgreesOn ctx 1 deletes b m h)
        (λ b' h'.
          put_states-AgreesOn ctx (suc (length deletes)) puts b' (Store.delete_entries deletes m) w
            h')

  -- A transaction commits what its function gives, or writes nothing.
  update-cases :
      (f : B → Result (BoltError F) B) (P : B → Type 0) (b : B)
      → OnOk P (f b)
      → ((b' : B) × (engine.update f b ≡ ok b') × P b')
        ⊎ ((e : BoltError F) × (engine.update f b ≡ err e b))
  update-cases f P b h = elim (Result-cases (f b)) [
    | inr (e, b', k) ↦ inr (e, lawful.update-err f b b' e k)
    | inl (b', k) ↦ elim (lawful.update-ok f b b' k) [
      | inl u ↦ inl (b', u, OnOk-ok P (f b) b' k h)
      | inr (e, u) ↦ inr (e, u)
    ]
  ]

  abbrev gate :
      Bool
      → BoltStore B
      → (BoltStore B → Result (BoltError F) (BoltStore B))
      → Result (BoltError F) (BoltStore B)
  gate closed s f = (if closed then err bolt_store_closed s else ok s) >>= f

  abbrev in_transaction :
      (B → Result (BoltError F) B) → BoltStore B → Result (BoltError F) (BoltStore B)
  in_transaction f s = in_store s (engine.update f s.db)

  -- A transaction on an open store is the engine's.
  pub transact-update :
      (f : B → Result (BoltError F) B) (s : BoltStore B) (r : Result (BoltError F) B)
      → s.closed ≡ false
      → engine.update f s.db ≡ r
      → transact engine f s ≡ in_store s r
  unfolding transact database
  transact-update f s r c u = ap (λ b. gate b s (in_transaction f)) c ∙ ap (in_store s) u

  -- A transaction on a store succeeds, or leaves it as it was.
  pub transact-cases :
      (f : B → Result (BoltError F) B) (P : B → Type 0) (s : BoltStore B)
      → OnOk P (f s.db)
      → ((b' : B) × (transact engine f s ≡ ok (record s { db = b' })) × P b')
        ⊎ ((e : BoltError F) × (transact engine f s ≡ err e s))
  unfolding transact database
  transact-cases f P s h = elim (Bool-cases s.closed) [
    | inl c ↦ inr (bolt_store_closed, ap (λ b. gate b s (in_transaction f)) c)
    | inr c ↦ elim (update-cases f P s.db h) [
      | inl (b', u, p) ↦ inl (b', transact-update f s (ok b') c u, p)
      | inr (e, u) ↦ inr (e, transact-update f s (err e s.db) c u)
    ]
  ]

  open-AgreesOn :
      (s : BoltStore B) (m : MemoryStore)
      → s.closed ≡ false
      → Agrees engine s m
      → AgreesOn engine s.db m
  unfolding get_state
  open-AgreesOn s m c h p =
      subst
        (λ closed.
          (if closed then err bolt_store_closed none else read_value {F = F} (engine.get s.db p))
          ≡ ok (get m.entries p))
        c (h p)

  open-Agrees :
      (s : BoltStore B) (m : MemoryStore)
      → s.closed ≡ false
      → AgreesOn engine s.db m
      → Agrees engine s m
  unfolding get_state
  open-Agrees s m c h p =
      subst
        (λ closed.
          (if closed then err bolt_store_closed none else read_value {F = F} (engine.get s.db p))
          ≡ ok (get m.entries p))
        (sym c) (h p)

  -- An open Bolt store that answers each `Get` as an in-memory store does: `Apply` of writable
  -- states either succeeds, and then answers as the in-memory store does after the same `Apply`,
  -- or it returns an error and leaves the store as it was, whenever its context is cancelled and
  -- whichever call of the engine fails.
  pub apply-Agrees :
      (ctx : ℕ → Bool) (puts : List FileState) (deletes : List Str) (s : BoltStore B)
      (m : MemoryStore)
      → s.closed ≡ false
      → All IsWritable puts
      → Agrees engine s m
      → ((s' : BoltStore B) × (apply engine ctx puts deletes s ≡ ok s')
          × Agrees engine s' (Store.put_entries puts (Store.delete_entries deletes m)))
        ⊎ ((e : BoltError F) × (apply engine ctx puts deletes s ≡ err e s))
  unfolding apply
  apply-Agrees ctx puts deletes s m c w h = elim (Bool-cases (ctx 0)) [
    | inl x ↦ inr (
      context_error,
      ap (λ b. unless_cancelled b s (transact engine (apply_tx engine ctx puts deletes) s)) x,
    )
    | inr x ↦
        elim (transact-cases (apply_tx engine ctx puts deletes) _ s
          (apply_tx-AgreesOn ctx puts deletes s.db m w (open-AgreesOn s m c h))) [
            | inl (b', e, k) ↦ inl (
              record s { db = b' },
              ap (λ b. unless_cancelled b s (transact engine (apply_tx engine ctx puts deletes) s))
                    x
                  ∙ e,
              open-Agrees (record s { db = b' })
                  (Store.put_entries puts (Store.delete_entries deletes m)) c k,
            )
            | inr (y, e) ↦ inr (
              y,
              ap (λ b. unless_cancelled b s (transact engine (apply_tx engine ctx puts deletes) s))
                    x
                  ∙ e,
            )
          ]
  ]

  -- The value of a key among pairs, or else that of a bucket.
  abbrev over : Map Json → Str → Option Json → Option Json
  over source k o = if has source k then get source k else o

  over-put :
      (key k : Str) (value : Json) (rest : Map Json) (x y z : Option Json)
      → elem key (keys rest) ≡ false
      → x ≡ over rest k y
      → y ≡ (if str_eq key k then some value else z)
      → x ≡ over ((key, value) ∷ rest) k z
  unfolding get keys elem
  over-put key k value rest x y z d h e =
      ground (arith, str_eq_iff key k, elem-keys rest k, elem-keys rest key)

  over-none :
      (source : Map Json) (k : Str) (x y z : Option Json)
      → x ≡ over source k y
      → y ≡ none
      → get source k ≡ z
      → x ≡ z
  over-none source k x y z h e f = ground arith

  -- Copying pairs with distinct keys: each of them is read back, and the other keys keep theirs.
  copy_pairs-get :
      (ctx : ℕ → Bool) (n : ℕ) (source : Map Json) (b : B)
      → IsDistinct (keys source)
      → OnOk
          (λ b'. (k : Str) → engine.get b' k ≡ over source k (engine.get b k))
          (copy_pairs engine ctx n source b)
  unfolding copy_pairs get keys
  copy_pairs-get ctx n [] b d = λ k. refl
  copy_pairs-get ctx n ((key, value) ∷ rest) b (d, ds) =
      OnOk-step
        (λ b'. (k : Str) → engine.get b' k ≡ (if str_eq key k then some value else engine.get b k))
        _ (ctx n) b (engine.put key value b) (copy_pairs engine ctx (suc n) rest)
        (λ b' e k. lawful.get-put key value b b' k e)
        (λ b' h.
          OnOk-map (λ c. (k : Str) → engine.get c k ≡ over rest k (engine.get b' k)) _
            (copy_pairs engine ctx (suc n) rest b')
            (λ c i k.
              over-put key k value rest (engine.get c k) (engine.get b' k) (engine.get b k) d (i k)
                (h k))
            (copy_pairs-get ctx (suc n) rest b' ds))

  replace_tx-get :
      (ctx : ℕ → Bool) (source b : B)
      → OnOk
          (λ b'. (k : Str) → engine.get b' k ≡ engine.get source k)
          (replace_tx engine ctx (engine.pairs source) b)
  unfolding replace_tx
  replace_tx-get ctx source b =
      OnOk-step (λ c. (k : Str) → engine.get c k ≡ none) _ false b (engine.clear b)
        (copy_pairs engine ctx 0 (engine.pairs source)) (λ c e k. lawful.get-clear b c k e)
        (λ c h.
          OnOk-map (λ d. (k : Str) → engine.get d k ≡ over (engine.pairs source) k (engine.get c k))
            _ (copy_pairs engine ctx 0 (engine.pairs source) c)
            (λ d i k.
              over-none (engine.pairs source) k _ _ _ (i k) (h k) (lawful.get-pairs source k))
            (copy_pairs-get ctx 0 (engine.pairs source) c (lawful.pairs-IsDistinct source)))

  -- `replaceSnapshot` either succeeds, and then the store has for each key the value that the
  -- source bucket has, or it returns an error and leaves the store as it was.
  pub replace_snapshot-get :
      (ctx : ℕ → Bool) (source : B) (s : BoltStore B)
      → ((b' : B) × (replace_snapshot engine ctx source s ≡ ok (record s { db = b' }))
          × ((k : Str) → engine.get b' k ≡ engine.get source k))
        ⊎ ((e : BoltError F) × (replace_snapshot engine ctx source s ≡ err e s))
  unfolding replace_snapshot
  replace_snapshot-get ctx source s =
      transact-cases (replace_tx engine ctx (engine.pairs source)) _ s
        (replace_tx-get ctx source s.db)
