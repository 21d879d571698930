-- ===== src/Tunnel/Valid.antt =====
-- The invariant of the tunnel through `handleNewConnection` and the passes over the queues: the manager
-- is valid and the queues are within their limits; and the end of the accept loop.
use esp_reverse_tunneling_li.Prelude.{
  ℕ, zero, suc, ◌+◌, ◌≤◌, ◌<◌, ◌≡◌, refl, ap, ◌∙◌, ◌⊎◌, inl, inr, Bool, true, false, Option, none,
  some, List, [], ◌∷◌, arith, if◌then◌else◌, Bool-cases, length, length-append,
}
use esp_reverse_tunneling_li.Env.{Env}
use esp_reverse_tunneling_li.Ledger.{Deed, Ledger}
use esp_reverse_tunneling_li.RingApi.{RingApi}
use esp_reverse_tunneling_li.TunnelApi.{TunnelApi}
use esp_reverse_tunneling_li.Config.{TunnelConfig}
use esp_reverse_tunneling_li.Channel.{Slot}
use esp_reverse_tunneling_li.Channel.Counts.{IsValid, count_active}
use esp_reverse_tunneling_li.Channel.Endpoint.{EndpointLaws}
use esp_reverse_tunneling_li.Tunnel.{
  error_state, PendingChannel, max_pending, max_deferred_close, Tunnel, update_stats,
}
use esp_reverse_tunneling_li.Tunnel.Queues.{
  drain_pending_queue, drain_deferred_close_queue, clean_expired_pending, pending_step,
  deferred_step, expire_step, start,
}
use esp_reverse_tunneling_li.Tunnel.Teardown.{enter_error_state}
use esp_reverse_tunneling_li.Tunnel.Accept.{place, after_accept, handle_new_connection}
use esp_reverse_tunneling_li.Tunnel.Loop.{accept_loop, accept_all}
use esp_reverse_tunneling_li.Tunnel.Held.{Room}
use esp_reverse_tunneling_li.Tunnel.Drains.{
  length-sweep, drain_pending_queue-Conserves, drain_deferred_close_queue-Conserves,
  clean_expired_pending-Conserves,
}
use esp_reverse_tunneling_li.Tunnel.Moves.{Moved}
use esp_reverse_tunneling_li.Tunnel.Fates.{
  Fate, seated, waits, to_be_closed, sent_back, dropped, place-Fate,
}
use esp_reverse_tunneling_li.Tunnel.Idle.{Empty, enter_error_state_lem}

pub record IsSound {env : Env} {api : RingApi} {host : TunnelApi env api} (t : Tunnel env api host)
    : Type 0 where
  pub valid : IsValid env api t.channels
  pub room : Room t

-- A step keeps the invariant, and the state or else goes to ERROR.
pub record Holds {env : Env} {api : RingApi} {host : TunnelApi env api} (t t' : Tunnel env api host)
    : Type 0 where
  pub sound : IsSound t'
  pub state : (t'.state ≡ t.state) ⊎ (t'.state ≡ error_state)

pub Holds-trans :
    {env : Env} {api : RingApi} {host : TunnelApi env api} {t t' t'' : Tunnel env api host}
    → Holds t t'
    → Holds t' t''
    → Holds t t''
Holds-trans a b = record {
  sound = b.sound;
  state = elim b.state [
    | inr e ↦ inr e
    | inl s ↦ elim a.state [ inl r ↦ inl (s ∙ r) | inr e ↦ inr (s ∙ e) ]
  ];
}

module _ (env : Env) (api : RingApi) (host : TunnelApi env api) where
  count_active-bound : (ss : List (Slot env api)) → count_active env api ss ≤ length ss
  count_active-bound [] = omega arith
  count_active-bound (s ∷ ss) = ground (arith, count_active-bound ss)

  pub Empty-IsSound : (t : Tunnel env api host) → Empty env api host t → IsSound t
  Empty-IsSound t e = record {
    valid = e.valid;
    room = record {
      pending_room = rw (ap (λ q. length q) e.no_pending) (omega arith);
      deferred_room = rw (ap (λ q. length q) e.no_deferred) (omega arith);
    };
  }

  pub enter_error_state-Holds :
      (t t' : Tunnel env api host) (w : env.World)
      → IsSound t'
      → Holds t (enter_error_state env api host t' w).0
  enter_error_state-Holds t t' w v =
      let (s, e, z) = enter_error_state_lem env api host t' w v.valid in
      record { sound = Empty-IsSound (enter_error_state env api host t' w).0 e; state = inr s }

  pub update_stats-Holds :
      (t : Tunnel env api host) (w : env.World)
      → IsSound t
      → Holds t (update_stats env api host t w).0
  unfolding update_stats
  update_stats-Holds t w v = elim (Bool-cases (host.take_stats w).0) [
    | inl b ↦ rw b (record {
      sound = record {
        valid = v.valid;
        room = record { pending_room = v.room.pending_room; deferred_room = v.room.deferred_room };
      };
      state = inl refl;
    })
    | inr b ↦ rw b (record { sound = v; state = inl refl })
  ]

  module _ (led : Ledger env) (laws : EndpointLaws env host.ends led) where
    pub drain_pending_queue-Holds :
        (t : Tunnel env api host) (w : env.World)
        → IsSound t
        → Holds t (drain_pending_queue env api host t w).0
    unfolding drain_pending_queue
    drain_pending_queue-Holds t w v =
        let (now, w1) = env.millis w in
        record {
          sound = record {
            valid = (drain_pending_queue-Conserves env api host led laws t w v.valid).valid;
            room = record {
              pending_room = omega (
                arith,
                v.room.pending_room,
                length-sweep (λ e. pending_step env api host now e.channel e.action e) t.pending
                    (start env api host t w1),
              );
              deferred_room = v.room.deferred_room;
            };
          };
          state = inl refl;
        }

    pub clean_expired_pending-Holds :
        (t : Tunnel env api host) (w : env.World)
        → IsSound t
        → Holds t (clean_expired_pending env api host t w).0
    unfolding clean_expired_pending
    clean_expired_pending-Holds t w v =
        let (now, w1) = env.millis w in
        record {
          sound = record {
            valid = (clean_expired_pending-Conserves env api host led laws t w v.valid).valid;
            room = record {
              pending_room = omega (
                arith,
                v.room.pending_room,
                length-sweep (λ e. expire_step env api host now e.channel e.action e) t.pending
                    (start env api host t w1),
              );
              deferred_room = v.room.deferred_room;
            };
          };
          state = inl refl;
        }

    pub drain_deferred_close_queue-Holds :
        (t : Tunnel env api host) (w : env.World)
        → IsSound t
        → Holds t (drain_deferred_close_queue env api host t w).0
    unfolding drain_deferred_close_queue
    drain_deferred_close_queue-Holds t w v =
        let (now, w1) = env.millis w in
        record {
          sound = record {
            valid = (drain_deferred_close_queue-Conserves env api host led laws t w v.valid).valid;
            room = record {
              pending_room = v.room.pending_room;
              deferred_room = omega (
                arith,
                v.room.deferred_room,
                length-sweep (λ e. deferred_step env api host now e.channel e) t.deferred
                    (start env api host t w1),
              );
            };
          };
          state = inl refl;
        }

    -- What `handleNewConnection` answers: true with one more slot in use, or false.
    data Answer (t : Tunnel env api host) : Bool × Tunnel env api host × env.World → Type 0 where
      again :
          {t' : Tunnel env api host} {w' : env.World}
          → Holds t t'
          → t'.channels.active_count ≡ t.channels.active_count + 1
          → length t'.channels.slots ≡ length t.channels.slots
          → Answer t (true, t', w')
      enough : {t' : Tunnel env api host} {w' : env.World} → Holds t t' → Answer t (false, t', w')

    from_move :
        {t t' t'' : Tunnel env api host} {w w' : env.World} {ps ds : List PendingChannel}
        {deeds : List Deed}
        → t'.state ≡ t.state
        → Room t'
        → length t'.pending + length ps ≤ max_pending
        → length t'.deferred + length ds ≤ max_deferred_close
        → Moved env api host led t' w t'' w' ps ds deeds
        → Holds t t''
    from_move {t} {t'} {t''} {ps} {ds} s r p d m = record {
      sound = record {
        valid = m.valid;
        room = record {
          pending_room = omega (arith, p, ap length m.pending, length-append t'.pending ps);
          deferred_room = omega (arith, d, ap length m.deferred, length-append t'.deferred ds);
        };
      };
      state = inl (m.state ∙ s);
    }

    from_fate :
        (c : ℕ) (mapping : TunnelConfig) (t t' : Tunnel env api host) (w : env.World)
        (r : Bool × Tunnel env api host × env.World)
        → t'.channels ≡ t.channels
        → t'.state ≡ t.state
        → Room t'
        → Fate env api host led laws c mapping t' w r
        → Answer t r
    from_fate c mapping t t' w (true, t'', w'') e s r (seated i v z p d _ n l _) =
        again
          (record {
            sound = record {
              valid = v;
              room = record {
                pending_room = omega (arith, r.pending_room, ap length p);
                deferred_room = omega (arith, r.deferred_room, ap length d);
              };
            };
            state = inl (z ∙ s);
          })
          (n ∙ ap (λ k. k.active_count + 1) e) (l ∙ ap (λ k. length k.slots) e)
    from_fate c mapping t t' w (false, t'', w'') e s r (waits x _ room m) =
        enough (from_move s r (omega (arith, room)) (omega (arith, r.deferred_room)) m)
    from_fate c mapping t t' w (false, t'', w'') e s r (to_be_closed x _ room m) =
        enough (from_move s r (omega (arith, r.pending_room)) (omega (arith, room)) m)
    from_fate c mapping t t' w (false, t'', w'') e s r (sent_back m) =
        enough (from_move s r (omega (arith, r.pending_room)) (omega (arith, r.deferred_room)) m)
    from_fate c mapping t t' w (false, t'', w'') e s r (dropped _ m) =
        enough (from_move s r (omega (arith, r.pending_room)) (omega (arith, r.deferred_room)) m)

    after_accept_lem :
        (t : Tunnel env api host) (r : Option (ℕ × TunnelConfig) × host.session.Session × env.World)
        → IsSound t
        → Answer t (after_accept env api host t r)
    unfolding after_accept
    after_accept_lem t (some (c, mapping), s, w) v =
        let t' = record t { session = s } in
        from_fate c mapping t t' w (place env api host t' c mapping w) refl refl
          (record { pending_room = v.room.pending_room; deferred_room = v.room.deferred_room })
          (place-Fate env api host led laws c mapping t' w v.valid)
    after_accept_lem t (none, s, w) v =
        let t' = record t { session = s } in
        let sound : IsSound t' = record {
          valid = v.valid;
          room = record {
            pending_room = v.room.pending_room;
            deferred_room = v.room.deferred_room;
          };
        } in
        elim (Bool-cases (host.session.has_fatal_accept_failure s)) [
          | inl b ↦ rw b (enough (enter_error_state-Holds t t' w sound))
          | inr b ↦ rw b (enough (record { sound = sound; state = inl refl }))
        ]

    handle_new_connection_lem :
        (t : Tunnel env api host) (w : env.World)
        → IsSound t
        → Answer t (handle_new_connection env api host t w)
    unfolding handle_new_connection
    handle_new_connection_lem t w v = after_accept_lem t (host.session.accept_channel t.session w) v

    -- How the accept loop goes on behind one answer, by what holds of the rounds that are left.
    next_round :
        (fuel : ℕ) (t : Tunnel env api host)
        → length t.channels.slots < t.channels.active_count + suc fuel
        → (r : Bool × Tunnel env api host × env.World)
        → ((t' : Tunnel env api host) (w' : env.World)
            → IsSound t'
            → length t'.channels.slots < t'.channels.active_count + fuel
            → ((accept_loop env api host fuel t' w').0 ≡ false)
              × Holds t' (accept_loop env api host fuel t' w').1.0)
        → Answer t r
        → let (more, (t', w')) =
            if r.0 then accept_loop env api host fuel r.1 r.2 else (false, (r.1, r.2)) in
          (more ≡ false) × Holds t t'
    next_round fuel t h (true, t', w') rest (again a n l) =
        let (e, b) = rest t' w' a.sound (omega (arith, h, n, l)) in (e, Holds-trans a b)
    next_round fuel t h (false, t', w') rest (enough a) = (refl, a)

    -- Enough rounds are given, and the invariant holds in the end.
    accept_loop_lem :
        (fuel : ℕ) (t : Tunnel env api host) (w : env.World)
        → IsSound t
        → length t.channels.slots < t.channels.active_count + fuel
        → let (more, (t', w')) = accept_loop env api host fuel t w in (more ≡ false) × Holds t t'
    unfolding accept_loop
    accept_loop_lem zero t w v h =
        absurd (omega (arith, h, v.valid.counted, count_active-bound t.channels.slots))
    accept_loop_lem (suc fuel) t w v h =
        next_round fuel t h (handle_new_connection env api host t w)
          (λ t' w' v' h'. accept_loop_lem fuel t' w' v' h') (handle_new_connection_lem t w v)

    -- In a tunnel whose manager is valid and whose queues are within their limits, the loop
    -- `while (handleNewConnection())` ends, after one more round than there are slots at the latest,
    -- whatever the session, the clock, libssh2 and the endpoints do; and then the manager is valid, the
    -- queues are within their limits, and the state is as before or ERROR.
    pub accept_all_lem :
        (t : Tunnel env api host) (w : env.World)
        → IsSound t
        → ((accept_loop env api host (length t.channels.slots + 1) t w).0 ≡ false)
          × Holds t (accept_all env api host t w).0
    unfolding accept_all
    accept_all_lem t w v = accept_loop_lem (length t.channels.slots + 1) t w v (omega arith)
