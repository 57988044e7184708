-- ===== src/Tracker/Accepted.antt =====
-- What `New` of tracker.go accepts, and what it makes of it.
use fsrecon.Prelude.{
  ℕ, ◌<◌, ◌≡◌, refl, subst, arith, ◌⊎◌, inl, inr, Bool, true, false, not, ◌&&◌, Str, Option, none,
  some, leb, if◌then◌else◌,
}
use fsrecon.Expected.{is_blank}
use fsrecon.Tracker.Create.{
  ℤ, pos, negsuc, is_negative, limit_or, new_session_id, RawConfig, Settings, NewError,
  config_error, takes_batches, atomic_store_required, settings_of, with_root, with_session,
  unless_refused, new_tracker,
}

abbrev pub accepts {ℓ κ} : {A : Type ℓ} {B : Type κ} → A ⊎ B → Bool
accepts (inl a) = false
accepts (inr b) = true

-- No limit is negative, and each code names a policy.
abbrev pub is_valid : RawConfig → Bool
is_valid c =
    not (is_blank c.root)
    && not (is_negative c.event_buffer)
    && not (is_negative c.report_event_limit)
    && not (is_negative c.change_batch_size)
    && not (is_negative c.reconcile_interval)
    && not (is_negative c.debounce_window)
    && leb c.symlink_policy 3
    && leb c.hardlink_policy 2
    && leb c.expected_scope 1

-- No limit is zero.
abbrev pub HasLimits : {E : Type 0} → NewError E ⊎ Settings → Type 0
HasLimits (inl e) = Unit {0}
HasLimits (inr s) =
    (0 < s.event_buffer)
    × (0 < s.report_event_limit)
    × (0 < s.change_batch_size)
    × (0 < s.debounce_window)

abbrev pub accepts_config : {E : Type 0} → Option (NewError E) → Bool
accepts_config none = true
accepts_config (some e) = false

limit_or-positive : (d : ℕ) (n : ℤ) → 0 < d → 0 < limit_or d n
limit_or-positive d (pos n) h = ground (arith, h)
limit_or-positive d (negsuc n) h = h

config_error-is_valid :
    (E : Type 0) (c : RawConfig) → accepts_config (config_error {E = E} c) ≡ is_valid c
unfolding config_error
config_error-is_valid E c = ground arith

module _ {E : Type 0} (abs : Str → E ⊎ Str) (random : E ⊎ Str) (c : RawConfig) where
  -- A sink has a store that takes batches.
  abbrev pub has_batches : Bool
  has_batches = not (c.has_sink && not (takes_batches c.store_is_batch))

  abbrev unless_unbatched : Str → Str → Bool → NewError E ⊎ Settings
  unless_unbatched session_id root b =
      if b then inl atomic_store_required else inr (settings_of c session_id root)

  settings_of-accepts :
      (session_id root : Str) (b : Bool)
      → (accepts (unless_unbatched session_id root b) ≡ not b)
        × HasLimits (unless_unbatched session_id root b)
  settings_of-accepts session_id root true = (refl, tt)
  settings_of-accepts session_id root false = (
    refl,
    (
      limit_or-positive 256 c.event_buffer (omega arith),
      limit_or-positive 10000 c.report_event_limit (omega arith),
      limit_or-positive 256 c.change_batch_size (omega arith),
      limit_or-positive 100000000 c.debounce_window (omega arith),
    ),
  )

  with_root-accepts :
      (session_id : Str) (root : E ⊎ Str)
      → (accepts (with_root abs random c session_id root) ≡ accepts root && has_batches)
        × HasLimits (with_root abs random c session_id root)
  with_root-accepts session_id (inl e) = (refl, tt)
  with_root-accepts session_id (inr root) =
      settings_of-accepts session_id root (c.has_sink && not (takes_batches c.store_is_batch))

  with_session-accepts :
      (session_id : E ⊎ Str)
      → (accepts (with_session abs random c session_id)
          ≡ accepts session_id && accepts (abs c.root) && has_batches)
        × HasLimits (with_session abs random c session_id)
  with_session-accepts (inl e) = (refl, tt)
  with_session-accepts (inr session_id) = with_root-accepts session_id (abs c.root)

  new_session_id-accepts : (r : E ⊎ Str) → accepts (new_session_id r) ≡ accepts r
  unfolding new_session_id
  new_session_id-accepts (inl e) = refl
  new_session_id-accepts (inr bytes) = refl

  unless_refused-accepts :
      (e : Option (NewError E))
      → (accepts (unless_refused abs random c e)
          ≡ accepts_config e && accepts random && accepts (abs c.root) && has_batches)
        × HasLimits (unless_refused abs random c e)
  unless_refused-accepts (some e) = (refl, tt)
  unless_refused-accepts none =
      subst
        (λ b.
          (accepts (with_session abs random c (new_session_id random))
            ≡ b && accepts (abs c.root) && has_batches)
          × HasLimits (with_session abs random c (new_session_id random)))
        (new_session_id-accepts random) (with_session-accepts (new_session_id random))

  -- `New` succeeds exactly on a configuration whose root is not blank, whose limits are not
  -- negative and whose policies exist, where the random bytes and the absolute root are to be had
  -- and a change sink comes with a store that takes batches; and then no limit of the tracker is 0.
  pub new_tracker-accepts :
      (accepts (new_tracker abs random c)
        ≡ is_valid c && accepts random && accepts (abs c.root) && has_batches)
      × HasLimits (new_tracker abs random c)
  unfolding new_tracker
  new_tracker-accepts =
      subst
        (λ b.
          (accepts (new_tracker abs random c)
            ≡ b && accepts random && accepts (abs c.root) && has_batches)
          × HasLimits (new_tracker abs random c))
        (config_error-is_valid E c) (unless_refused-accepts (config_error c))
