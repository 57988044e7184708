-- ===== src/Observer/Bounds.antt =====
-- observer.go: what waits is bounded, in the map of pending hints and in both channels.
use fsrecon.Prelude.{
  ℕ, suc, ◌≤◌, ◌≡◌, refl, ap, sym, subst, arith, Bool, true, false, ◌&&◌, Str, Map, List, [], ◌∷◌,
  ◌++◌, str_eq, str_eq_iff, str_eq_refl, put, length, length-append, ltb, if◌then◌else◌, Bool-cases,
  inl, inr,
}
use fsrecon.Delivery.{incr64}
use fsrecon.Observer.{
  Observer, Hint, hint_backend_stopped, root_hint_of, try_send, sent_root, send_pending, flush,
  escalate_root, enqueue, send_error, set_observer_state, degrade, receive, tail_hints,
  observer_degraded, is_subtree,
}

-- Each pending hint stands under its own path.
unfoldable pub is_keyed : Map Hint → Bool
is_keyed [] = true
is_keyed ((path, h) ∷ m) = str_eq h.path path && is_keyed m

pub record IsBounded {E : Type 0} (o : Observer E) : Type 0 where
  pub room : length o.pending ≤ o.max_pending_hints
  pub channel : length o.hints ≤ o.hint_buffer
  pub error_room : length o.errors ≤ 16
  pub alone : o.root_pending ≡ true → o.pending ≡ []
  pub keyed : is_keyed o.pending ≡ true
  pub rooted : o.root_pending ≡ true → o.root_hint.path ≡ o.root
  pub wide : o.root_pending ≡ true → is_subtree o.root_hint.scope ≡ true

length-put : (m : Map Hint) (k : Str) (h : Hint) → length (put m k h) ≤ suc (length m)
unfolding put
length-put [] k h = ground arith
length-put ((j, g) ∷ m) k h = ground (arith, length-put m k h)

is_keyed-put : (m : Map Hint) (h : Hint) → is_keyed m ≡ true → is_keyed (put m h.path h) ≡ true
unfolding put is_keyed
is_keyed-put [] h e = ground (arith, str_eq_refl h.path)
is_keyed-put ((j, g) ∷ m) h e =
    ground (arith, is_keyed-put m h, str_eq_refl h.path, str_eq_iff j h.path)

module _ {E : Type 0} where
  enqueue-IsBounded : (h : Hint) (o : Observer E) → IsBounded o → IsBounded (enqueue h o)
  unfolding enqueue escalate_root is_keyed
  enqueue-IsBounded h o b = record {
    room = ground (arith, length-put o.pending h.path h, b.room);
    channel = ground (arith, b.channel);
    error_room = ground (arith, b.error_room);
    alone = ground (arith, b.alone);
    keyed = ground (arith, b.keyed, is_keyed-put o.pending h);
    rooted = ground (arith, b.rooted, str_eq_iff h.path o.root);
    wide = ground (arith, b.wide);
  }

  -- The loop of `flush`, while no root hint waits.
  send_pending-IsBounded :
      (m : Map Hint) (o : Observer E)
      → IsBounded o
      → length m ≤ o.max_pending_hints
      → is_keyed m ≡ true
      → o.root_pending ≡ false
      → IsBounded (send_pending m o)
  unfolding send_pending try_send is_keyed
  send_pending-IsBounded [] o b l k n = record {
    room = omega arith;
    channel = b.channel;
    error_room = b.error_room;
    alone = λ h. refl;
    keyed = refl;
    rooted = b.rooted;
    wide = b.wide;
  }
  send_pending-IsBounded ((path, h) ∷ m) o b l k n =
      elim (Bool-cases (ltb (length o.hints) o.hint_buffer)) [
        | inl free ↦
            rw (free, send_pending)
              (send_pending-IsBounded m
                (record o { hints = o.hints ++ h ∷ []; emitted = incr64 o.emitted })
                (record {
                  room = b.room;
                  channel = ground (arith, length-append o.hints (h ∷ []));
                  error_room = b.error_room;
                  alone = b.alone;
                  keyed = b.keyed;
                  rooted = b.rooted;
                  wide = b.wide;
                })
                (omega arith) (ground arith) n)
        | inr full ↦
            rw (full, send_pending)
              (record {
                room = l;
                channel = b.channel;
                error_room = b.error_room;
                alone = λ h. absurd (ground arith);
                keyed = k;
                rooted = b.rooted;
                wide = b.wide;
              })
      ]

  pub flush-root :
      (o : Observer E) → o.root_pending ≡ true → flush o ≡ sent_root (try_send o.root_hint o)
  unfolding flush
  flush-root o waits =
      ap (λ b. if b then sent_root (try_send o.root_hint o) else send_pending o.pending o) waits

  pub flush-pending : (o : Observer E) → o.root_pending ≡ false → flush o ≡ send_pending o.pending o
  unfolding flush
  flush-pending o n =
      ap (λ b. if b then sent_root (try_send o.root_hint o) else send_pending o.pending o) n

  flush-IsBounded : (o : Observer E) → IsBounded o → IsBounded (flush o)
  flush-IsBounded o b = elim (Bool-cases o.root_pending) [
    | inl waits ↦ subst IsBounded (sym (flush-root o waits)) (root_sent o b)
    | inr none_waits ↦
        subst IsBounded (sym (flush-pending o none_waits))
          (send_pending-IsBounded o.pending o b b.room b.keyed none_waits)
  ]
    where
      root_sent : (o : Observer E) → IsBounded o → IsBounded (sent_root (try_send o.root_hint o))
      root_sent o b =
          unfold try_send in
          record {
            room = ground (arith, b.room);
            channel = ground (arith, b.channel, length-append o.hints (o.root_hint ∷ []));
            error_room = ground (arith, b.error_room);
            alone = ground (arith, b.alone);
            keyed = ground (arith, b.keyed);
            rooted = ground (arith, b.rooted);
            wide = ground (arith, b.wide);
          }

  send_error-IsBounded : (e : E) (o : Observer E) → IsBounded o → IsBounded (send_error e o)
  unfolding send_error
  send_error-IsBounded e o b = record {
    room = ground (arith, b.room);
    channel = ground (arith, b.channel);
    error_room = ground (arith, b.error_room, length-append o.errors (e ∷ []));
    alone = ground (arith, b.alone);
    keyed = ground (arith, b.keyed);
    rooted = ground (arith, b.rooted);
    wide = ground (arith, b.wide);
  }

  degrade-IsBounded : (e : E) (o : Observer E) → IsBounded o → IsBounded (degrade e o)
  unfolding degrade set_observer_state
  degrade-IsBounded e o b = send_error-IsBounded e _ (
      enqueue-IsBounded (root_hint_of o.root hint_backend_stopped)
        (set_observer_state observer_degraded o)
        (record {
          room = ground (arith, b.room);
          channel = ground (arith, b.channel);
          error_room = ground (arith, b.error_room);
          alone = ground (arith, b.alone);
          keyed = ground (arith, b.keyed);
          rooted = ground (arith, b.rooted);
          wide = ground (arith, b.wide);
        }))

  receive-IsBounded : (o : Observer E) → IsBounded o → IsBounded (receive o)
  unfolding receive
  receive-IsBounded o b = record {
    room = b.room;
    channel = shorter o.hints b.channel;
    error_room = b.error_room;
    alone = b.alone;
    keyed = b.keyed;
    rooted = b.rooted;
    wide = b.wide;
  }
    where
      shorter : (hints : List Hint) {n : ℕ} → length hints ≤ n → length (tail_hints hints) ≤ n
      shorter [] l = l
      shorter (h ∷ hints) l = omega arith

-- What happens to an observer, in any order.
pub data Move (E : Type 0) : Type 0 where
  enqueues : Hint → Move E
  degrades : E → Move E
  flushes receives : Move E

abbrev pub move : {E : Type 0} → Move E → Observer E → Observer E
move (enqueues h) o = enqueue h o
move (degrades e) o = degrade e o
move flushes o = flush o
move receives o = receive o

unfoldable pub run : {E : Type 0} → List (Move E) → Observer E → Observer E
run [] o = o
run (m ∷ ms) o = run ms (move m o)

pub move-IsBounded : {E : Type 0} (m : Move E) (o : Observer E) → IsBounded o → IsBounded (move m o)
move-IsBounded (enqueues h) o b = enqueue-IsBounded h o b
move-IsBounded (degrades e) o b = degrade-IsBounded e o b
move-IsBounded flushes o b = flush-IsBounded o b
move-IsBounded receives o b = receive-IsBounded o b

-- Whatever happens to an observer, at most `MaxPendingHints` hints wait, the channels hold no more
-- than their capacity, and a hint for the root replaces all that waited.
pub run-IsBounded :
    {E : Type 0} (ms : List (Move E)) (o : Observer E) → IsBounded o → IsBounded (run ms o)
unfolding run
run-IsBounded [] o b = b
run-IsBounded (m ∷ ms) o b = run-IsBounded ms (move m o) (move-IsBounded m o b)
