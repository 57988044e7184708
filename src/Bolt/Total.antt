-- ===== src/Bolt/Total.antt =====
-- `Apply` of bolt_store.go succeeds where nothing outside of it fails.
use fsrecon.Prelude.{
  ℕ, suc, ◌≡◌, refl, ap, ◌∙◌, Bool, true, false, Str, List, [], ◌∷◌, length, All, Result, ok, ◌>>=◌,
  inl, inr,
}
use fsrecon.State.{FileState}
use fsrecon.Store
use fsrecon.Store.{MemoryStore}
use fsrecon.Bolt.{BoltError, Engine, IsLawful}
use fsrecon.Bolt.Json.{Json}
use fsrecon.Bolt.Codec.{encode_file_state}
use fsrecon.Bolt.Snapshot.{
  BoltStore, delete_keys, put_states, apply_tx, apply, transact, database, engine_step,
  unless_cancelled,
}
use fsrecon.Bolt.Contract.{Agrees, IsWritable, apply-Agrees, transact-update}

module _ {B F : Type 0} (engine : Engine B Json F) (lawful : IsLawful engine) where
  -- A step whose context is not cancelled, and whose call succeeds.
  step_ok :
      (c : Bool) (b b' : B) (r : Result F B) (f : B → Result (BoltError F) B)
      → c ≡ false
      → r ≡ ok b'
      → unless_cancelled c b (engine_step r >>= f) ≡ f b'
  step_ok c b b' r f h e =
      ap (λ x. unless_cancelled x b (engine_step r >>= f)) h ∙ ap (λ x. engine_step x >>= f) e

  delete_keys_total :
      (ctx : ℕ → Bool) (n : ℕ) (paths : List Str) (b : B)
      → ((i : ℕ) → ctx i ≡ false)
      → (b' : B) × (delete_keys engine ctx n paths b ≡ ok b')
  unfolding delete_keys
  delete_keys_total ctx n [] b h = (b, refl)
  delete_keys_total ctx n (path ∷ paths) b h =
      let (b1, e) = lawful.delete-total path b in
      let (b2, f) = delete_keys_total ctx (suc n) paths b1 h in
      (
        b2,
        step_ok (ctx n) b b1 (engine.delete path b) (delete_keys engine ctx (suc n) paths) (h n) e
            ∙ f,
      )

  put_states_total :
      (ctx : ℕ → Bool) (n : ℕ) (states : List FileState) (b : B)
      → ((i : ℕ) → ctx i ≡ false)
      → All (λ s. engine.takes s.path (encode_file_state s) ≡ true) states
      → (b' : B) × (put_states engine ctx n states b ≡ ok b')
  unfolding put_states
  put_states_total ctx n [] b h t = (b, refl)
  put_states_total ctx n (s ∷ states) b h t =
      let (b1, e) = lawful.put-takes s.path (encode_file_state s) b t.0 in
      let (b2, f) = put_states_total ctx (suc n) states b1 h t.1 in
      (
        b2,
        step_ok (ctx n) b b1 (engine.put s.path (encode_file_state s) b)
              (put_states engine ctx (suc n) states) (h n) e
            ∙ f,
      )

  -- The transaction of `Apply` itself never fails then.
  pub apply_tx_total :
      (ctx : ℕ → Bool) (puts : List FileState) (deletes : List Str) (b : B)
      → ((i : ℕ) → ctx i ≡ false)
      → All (λ s. engine.takes s.path (encode_file_state s) ≡ true) puts
      → (b' : B) × (apply_tx engine ctx puts deletes b ≡ ok b')
  unfolding apply_tx
  apply_tx_total ctx puts deletes b h t =
      let (b1, e) = delete_keys_total ctx 1 deletes b h in
      let (b2, f) = put_states_total ctx (suc (length deletes)) puts b1 h t in
      (b2, ap (λ r. r >>= put_states engine ctx (suc (length deletes)) puts) e ∙ f)

  -- `Apply` on an open store succeeds where its context is not cancelled, the engine takes each
  -- state and the transaction commits; the store then answers as the in-memory store does after
  -- the same `Apply`.
  pub apply-succeeds :
      (ctx : ℕ → Bool) (puts : List FileState) (deletes : List Str) (s : BoltStore B)
      (m : MemoryStore)
      → s.closed ≡ false
      → ((i : ℕ) → ctx i ≡ false)
      → All (λ x. engine.takes x.path (encode_file_state x) ≡ true) puts
      → ((f : B → Result (BoltError F) B) (b b' : B) → f b ≡ ok b' → engine.update f b ≡ ok b')
      → All IsWritable puts
      → Agrees engine s m
      → (s' : BoltStore B) × (apply engine ctx puts deletes s ≡ ok s')
        × Agrees engine s' (Store.put_entries puts (Store.delete_entries deletes m))
  unfolding apply transact database
  apply-succeeds ctx puts deletes s m c h t u w g =
      let (b', e) = apply_tx_total ctx puts deletes s.db h t in
      let f = apply_tx engine ctx puts deletes in
      let k =
        ap (λ b. unless_cancelled b s (transact engine f s)) (h 0)
        ∙ transact-update engine lawful f s (ok b') c (u f s.db b' e) in
      elim (apply-Agrees engine lawful ctx puts deletes s m c w g) [
        | inl x ↦ x
        | inr (y, x) ↦ cc (k, x)
      ]
