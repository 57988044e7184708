-- ===== src/Reconcile/Retry.antt =====
-- reconcile.go as a whole: a new generation commits its batches and then its snapshot, or stays
-- pending, and the next call resumes what is pending before anything else.
use fsrecon.Prelude.{
  ◌≡◌, refl, ◌∙◌, ap, sym, subst, arith, true, false, not, ◌&&◌, Str, none, some, List, ◌∷◌, Result,
  ok, err, ◌>>=◌, if◌then◌else◌,
}
use fsrecon.Delivery.{Sink, incr64}
use fsrecon.Config.{Config, Ports}
use fsrecon.Watchtree.{Backend}
use fsrecon.Scopes.{collapse_scopes}
use fsrecon.Tracker.{
  Life, set_state, set_consistent_state, state_reconciling, state_synced, state_dirty,
  state_degraded, mark_dirty,
}
use fsrecon.Reconcile.{Pending, pending_reconcile, Tracker, Failure, on_life}
use fsrecon.Reconcile.Gather.{Run, new_run, gather}
use fsrecon.Reconcile.Commit.{
  apply_in, deliver_run, apply_run, pending_of, reply_of, resumed, resume_pending, resume_or_begin,
  begin_generation, reconcile_scopes,
}
use fsrecon.Reconcile.Order.{
  commit_world, commit-world, in_world, deliver_pending-sends, IsCommitted, finish_run-IsCommitted,
}
use fsrecon.Reconcile.Outcomes.{core, IsKept, gather-IsKept}

module _ {W B E : Type 0} (config : Config W E) (ports : Ports W E) (backend : Backend B E) where
  -- The run in which a call gathers a new generation.
  abbrev pub first_run : Tracker W B → Run W B
  first_run t = new_run config.root (incr64 t.generation) (on_life (set_state state_reconciling) t)

  begin_generation-reply :
      (requested scopes : List Str) (scope : Str) (t : Tracker W B)
      → collapse_scopes config.root requested ≡ scope ∷ scopes
      → begin_generation config ports backend requested t
        ≡ reply_of config ports (
            gather config ports backend (scope ∷ scopes) (first_run t)
            >>= deliver_run config ports
            >>= apply_run config ports)
  unfolding begin_generation
  begin_generation-reply requested scopes scope t h = ground arith

  reconcile_scopes-begins :
      (requested : List Str) (t : Tracker W B)
      → t.life.closed ≡ false
      → t.pending ≡ none
      → reconcile_scopes config ports backend requested t
        ≡ begin_generation config ports backend requested t
  unfolding reconcile_scopes
  reconcile_scopes-begins requested t c n = ground arith

  reconcile_scopes-resumes :
      (requested : List Str) (t : Tracker W B) (p : Pending)
      → t.life.closed ≡ false
      → t.pending ≡ some p
      → p.kind ≡ pending_reconcile
      → reconcile_scopes config ports backend requested t ≡ resume_pending config ports p t
  unfolding reconcile_scopes resume_or_begin
  reconcile_scopes-resumes requested t p c h k = ground arith

  resumed-IsCommitted :
      (p : Pending) (t : Tracker W B) (x : Result (Failure E) W)
      → t.pending ≡ some p
      → IsCommitted p t.generation x (resumed config ports p (in_world t x))
  resumed-IsCommitted p t (ok w) h = (refl, refl, refl, refl)
  resumed-IsCommitted p t (err f w) h = (refl, refl, h, refl)

  -- When the gathering of a new generation succeeds, a tracker with a sink offers the generation's
  -- batches and then, if the sink takes them all, changes the snapshot. If all goes well the
  -- tracker has the new generation and nothing is pending; else the generation is pending with
  -- exactly these events and changes, and the tracker's number is the old one.
  pub reconcile_scopes-commits :
      (sink : Sink E W) (requested scopes : List Str) (scope : Str) (t : Tracker W B) (r : Run W B)
      → t.life.closed ≡ false
      → t.pending ≡ none
      → config.change_sink ≡ some sink
      → collapse_scopes config.root requested ≡ scope ∷ scopes
      → gather config ports backend (scope ∷ scopes) (first_run t) ≡ ok r
      → IsCommitted
          (pending_of r)
          t.generation
          (commit_world config ports sink (pending_of r) t.world)
          (reconcile_scopes config ports backend requested t)
  reconcile_scopes-commits sink requested scopes scope t r c n s h g =
      let kept : core r.tracker ≡ core (first_run t).tracker =
        subst (IsKept (first_run t)) g
          (gather-IsKept config ports backend (scope ∷ scopes) (first_run t)) in
      let w : r.tracker.world ≡ t.world = ap (λ u. u.world) kept in
      let n' : r.tracker.generation ≡ t.generation = ap (λ u. u.generation) kept in
      let reply =
        reconcile_scopes-begins requested t c n
        ∙ begin_generation-reply requested scopes scope t h
        ∙ ap
            (λ x. reply_of config ports (x >>= deliver_run config ports >>= apply_run config ports))
            g in
      subst
        (IsCommitted (pending_of r) t.generation
          (commit_world config ports sink (pending_of r) t.world))
        (sym reply) (rw⁻¹ (w) (rw⁻¹ (n') (finish_run-IsCommitted config ports sink r s)))

  -- A call on a tracker with a pending generation of reconciliation commits that generation, with
  -- the batches and the changes that were kept, whatever scopes it was asked for. If the sink or
  -- the store refuses again, the generation stays pending as it was.
  pub reconcile_scopes-resume :
      (sink : Sink E W) (requested : List Str) (t : Tracker W B) (p : Pending)
      → t.life.closed ≡ false
      → t.pending ≡ some p
      → p.kind ≡ pending_reconcile
      → config.change_sink ≡ some sink
      → IsCommitted p t.generation
          (commit_world config ports sink p t.world)
          (reconcile_scopes config ports backend requested t)
  unfolding resume_pending
  reconcile_scopes-resume sink requested t p c h k s =
      let reply =
        reconcile_scopes-resumes requested t p c h k
        ∙ ap (λ x. resumed config ports p (x >>= apply_in config ports p.puts p.deletes))
            (deliver_pending-sends config ports sink p t h s)
        ∙ ap (resumed config ports p) (commit-world config ports sink p t) in
      subst (IsCommitted p t.generation (commit_world config ports sink p t.world)) (sym reply)
        (resumed-IsCommitted p t (commit_world config ports sink p t.world) h)

  -- After such a resumption that succeeds, a tracker with a healthy backend and no hints that wait
  -- reports SYNCED, and the world is what the commit left: the scopes that the call was asked for
  -- have not been looked at, whichever they are.
  pub reconcile_scopes-resume_synced :
      (sink : Sink E W) (requested : List Str) (t : Tracker W B) (p : Pending) (w : W)
      → t.life.closed ≡ false
      → t.life.backend_healthy ≡ true
      → t.life.dirty_pending ≡ false
      → t.pending ≡ some p
      → p.kind ≡ pending_reconcile
      → config.change_sink ≡ some sink
      → commit_world config ports sink p t.world ≡ ok w
      → let u = (reconcile_scopes config ports backend requested t).tracker in
        (u.life.state ≡ state_synced) × (u.world ≡ w) × (u.watch_tree ≡ t.watch_tree)
  unfolding resume_pending
  reconcile_scopes-resume_synced sink requested t p w c b d h k s e =
      let reply =
        reconcile_scopes-resumes requested t p c h k
        ∙ ap (λ x. resumed config ports p (x >>= apply_in config ports p.puts p.deletes))
            (deliver_pending-sends config ports sink p t h s)
        ∙ ap (resumed config ports p) (commit-world config ports sink p t)
        ∙ ap (λ x. resumed config ports p (in_world t x)) e in
      (
        ap (λ r. r.tracker.life.state) reply ∙ synced t.life c b d,
        ap (λ r. r.tracker.world) reply,
        ap (λ r. r.tracker.watch_tree) reply,
      )
    where
      synced :
          (l : Life)
          → l.closed ≡ false
          → l.backend_healthy ≡ true
          → l.dirty_pending ≡ false
          → (set_consistent_state l).state ≡ state_synced
      synced l c b d = unfold set_consistent_state in ground arith

  -- When gathering fails, nothing is committed: the world, the generation and the absence of a
  -- pending generation are as before, the failure is returned, and the tracker is dirty, or
  -- degraded if it was started and its backend is not healthy.
  pub reconcile_scopes-failed :
      (requested scopes : List Str) (scope : Str) (t : Tracker W B) (f : Failure E) (r : Run W B)
      → t.life.closed ≡ false
      → t.pending ≡ none
      → collapse_scopes config.root requested ≡ scope ∷ scopes
      → gather config ports backend (scope ∷ scopes) (first_run t) ≡ err f r
      → let reply = reconcile_scopes config ports backend requested t in
        (reply.error ≡ some f)
        × (reply.tracker.world ≡ t.world)
        × (reply.tracker.pending ≡ none)
        × (reply.tracker.generation ≡ t.generation)
        × (reply.tracker.life.state ≡ (
            if t.life.started && not t.life.backend_healthy then state_degraded else state_dirty))
  reconcile_scopes-failed requested scopes scope t f r c n h g =
      let kept : core r.tracker ≡ core (first_run t).tracker =
        subst (IsKept (first_run t)) g
          (gather-IsKept config ports backend (scope ∷ scopes) (first_run t)) in
      let reply =
        reconcile_scopes-begins requested t c n
        ∙ begin_generation-reply requested scopes scope t h
        ∙ ap
            (λ x. reply_of config ports (x >>= deliver_run config ports >>= apply_run config ports))
            g in
      (
        ap (λ x. x.error) reply,
        ap (λ x. x.tracker.world) reply ∙ ap (λ u. u.world) kept,
        ap (λ x. x.tracker.pending) reply ∙ ap (λ u. u.pending) kept ∙ n,
        ap (λ x. x.tracker.generation) reply ∙ ap (λ u. u.generation) kept,
        ap (λ x. x.tracker.life.state) reply
            ∙ ap (λ u. (mark_dirty u.life).state) kept
            ∙ marked t.life c,
      )
    where
      marked :
          (l : Life)
          → l.closed ≡ false
          → (mark_dirty (set_state state_reconciling l)).state
            ≡ (if l.started && not l.backend_healthy then state_degraded else state_dirty)
      marked l c = unfold mark_dirty set_state in ground arith
