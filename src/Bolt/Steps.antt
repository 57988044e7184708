-- ===== src/Bolt/Steps.antt =====
-- What the steps of bolt_store.go and reconcile_bolt.go keep of a state, and which errors they give.
use fsrecon.Prelude.{
  ◌≡◌, refl, Bool, true, false, Str, Map, Option, none, some, [], ◌∷◌, Result, ok, err, OnOk,
  OnOk-bind, OnErr, if◌then◌else◌,
}
use fsrecon.State.{FileState}
use fsrecon.Config.{HardlinkPolicy, allow_hardlinks, report_hardlinks, reject_hardlinks}
use fsrecon.Bolt.{BoltError, decode_snapshot, Engine}
use fsrecon.FilePath.{path_has_prefix}
use fsrecon.Bolt.Json.{Json}
use fsrecon.Bolt.Codec.{decode_file_state}
use fsrecon.Bolt.Snapshot.{BoltStore, visit_pairs, walk_scope}
use fsrecon.Bolt.Work.{lift_step}
use fsrecon.Bolt.Reconcile.{embed, map_error}

pub OnOk-embed :
    {A S E G : Type 0} (P : S → Type 0) (f : E → G) (g : A → S) (Q : A → Type 0) (r : Result E A)
    → ((a : A) → Q a → P (g a))
    → OnOk Q r
    → OnOk P (embed f g r)
OnOk-embed P f g Q (ok a) h k = h a k
OnOk-embed P f g Q (err e a) h k = tt

pub OnOk-map_error :
    {A E G : Type 0} (P : A → Type 0) (f : E → G) (r : Result E A)
    → OnOk P r
    → OnOk P (map_error f r)
OnOk-map_error P f (ok a) h = h
OnOk-map_error P f (err e a) h = tt

pub OnErr-map_error :
    {A E G : Type 0} (Q : G → Type 0) (f : E → G) (r : Result E A)
    → ((e : E) → Q (f e))
    → OnErr Q (map_error f r)
OnErr-map_error Q f (ok a) h = tt
OnErr-map_error Q f (err e a) h = h e

pub OnErr-embed :
    {A S E G : Type 0} (Q : G → Type 0) (f : E → G) (g : A → S) (P : E → Type 0) (r : Result E A)
    → ((e : E) → P e → Q (f e))
    → OnErr P r
    → OnErr Q (embed f g r)
OnErr-embed Q f g P (ok a) h k = tt
OnErr-embed Q f g P (err e a) h k = h e k

pub OnErr-any : {A E : Type 0} (Q : E → Type 0) (r : Result E A) → ((e : E) → Q e) → OnErr Q r
OnErr-any Q (ok a) h = tt
OnErr-any Q (err e a) h = h e

pub OnOk-embed_all :
    {A S E G : Type 0} (P : S → Type 0) (f : E → G) (g : A → S) (r : Result E A)
    → ((a : A) → P (g a))
    → OnOk P (embed f g r)
OnOk-embed_all P f g (ok a) h = h a
OnOk-embed_all P f g (err e a) h = tt

pub OnOk-lift_ok :
    {X S F : Type 0} (P : S → Type 0) (f : X → S) (r : Result F X)
    → ((x : X) → r ≡ ok x → P (f x))
    → OnOk P (lift_step f r)
OnOk-lift_ok P f (ok x) h = h x refl
OnOk-lift_ok P f (err e x) h = tt

pub OnOk-policy :
    {S E : Type 0} (P : S → Type 0) (policy : HardlinkPolicy) (x y z : Result E S)
    → OnOk P x
    → OnOk P y
    → OnOk P z
    → OnOk P (elim policy [ reject_hardlinks ↦ x | report_hardlinks ↦ y | allow_hardlinks ↦ z ])
OnOk-policy P allow_hardlinks x y z hx hy hz = hz
OnOk-policy P report_hardlinks x y z hx hy hz = hy
OnOk-policy P reject_hardlinks x y z hx hy hz = hx

pub OnErr-if :
    {S E : Type 0} (Q : E → Type 0) (c : Bool) (r q : Result E S)
    → OnErr Q r
    → OnErr Q q
    → OnErr Q (if c then r else q)
OnErr-if Q true r q h k = h
OnErr-if Q false r q h k = k

pub OnErr-policy :
    {S E : Type 0} (Q : E → Type 0) (policy : HardlinkPolicy) (x y z : Result E S)
    → OnErr Q x
    → OnErr Q y
    → OnErr Q z
    → OnErr Q (elim policy [ reject_hardlinks ↦ x | report_hardlinks ↦ y | allow_hardlinks ↦ z ])
OnErr-policy Q allow_hardlinks x y z hx hy hz = hz
OnErr-policy Q report_hardlinks x y z hx hy hz = hy
OnErr-policy Q reject_hardlinks x y z hx hy hz = hx

pub OnErr-tree :
    {A S E G : Type 0} (Q : G → Type 0) (f : E → G) (g h : A → S) (r : Result E A)
    → ((e : E) → Q (f e))
    → OnErr Q (elim r [ err e a ↦ err (f e) (g a) | ok a ↦ ok (h a) ])
OnErr-tree Q f g h (ok a) k = tt
OnErr-tree Q f g h (err e a) k = k e

pub OnErr-option :
    {A S G : Type 0} (Q : G → Type 0) (o : Option A) (r : Result G S) (f : A → Result G S)
    → OnErr Q r
    → ((a : A) → OnErr Q (f a))
    → OnErr Q (elim o [ none ↦ r | some a ↦ f a ])
OnErr-option Q none r f h k = h
OnErr-option Q (some a) r f h k = k a

OnOk-bool :
    {S E : Type 0} (P : S → Type 0) (c : Bool) (r q : Result E S)
    → OnOk P r
    → OnOk P q
    → OnOk P (elim c [ false ↦ r | true ↦ q ])
OnOk-bool P true r q h k = k
OnOk-bool P false r q h k = h

OnOk-found :
    {S E G : Type 0} (P : S → Type 0) (d : Result E FileState) (f : E → G) (a : S)
    (g : FileState → Result G S)
    → ((state : FileState) → OnOk P (g state))
    → OnOk P (elim d [ err e state ↦ err (f e) a | ok state ↦ g state ])
OnOk-found P (ok state) f a g h = h state
OnOk-found P (err e state) f a g h = tt

pub OnOk-none :
    {S F G : Type 0} (P : S → Type 0) (o : Option F) (f : F → G) (s : S)
    → P s
    → OnOk P (elim o [ some e ↦ err (f e) s | none ↦ ok s ])
OnOk-none P none f s h = h
OnOk-none P (some e) f s h = tt

pub OnOk-path :
    {S A E G : Type 0} (P : S → Type 0) (r : Result E A) (f : E → G) (s : S) (g : A → Result G S)
    → ((a : A) → OnOk P (g a))
    → OnOk P (elim r [ err e a ↦ err (f e) s | ok a ↦ g a ])
OnOk-path P (ok a) f s g h = h a
OnOk-path P (err e a) f s g h = tt

-- What the visitor keeps, the walk keeps.
visit_pairs-OnOk :
    {A B F : Type 0} (engine : Engine B Json F) (P : A → Type 0) (prefix : Str)
    (fn : FileState → A → Result (BoltError F) A) (m : Map Json) (a : A)
    → ((state : FileState) (b : A) → P b → OnOk P (fn state b))
    → P a
    → OnOk P (visit_pairs engine (λ _. false) prefix fn m a)
unfolding visit_pairs
visit_pairs-OnOk engine P prefix fn [] a k h = h
visit_pairs-OnOk engine P prefix fn ((path, value) ∷ m) a k h =
    OnOk-bool P (path_has_prefix path prefix) _ _ h (
      OnOk-found P (decode_file_state value) (λ e. decode_snapshot path e) a _
        (λ state.
          OnOk-bind P P _ _ (k state a h) (λ b i. visit_pairs-OnOk engine P prefix fn m b k i)))

pub walk_scope-OnOk :
    {A B F : Type 0} (engine : Engine B Json F) (P : A → Type 0) (store : BoltStore B)
    (prefix : Str) (fn : FileState → A → Result (BoltError F) A) (a : A)
    → ((state : FileState) (b : A) → P b → OnOk P (fn state b))
    → P a
    → OnOk P (walk_scope engine store (λ _. false) prefix fn a)
unfolding walk_scope
walk_scope-OnOk engine P store prefix fn a k h =
    OnOk-bool P store.closed _ _
      (visit_pairs-OnOk engine P prefix fn (engine.seek prefix store.db) a k h) tt
