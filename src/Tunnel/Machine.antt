-- ===== src/Tunnel/Machine.antt =====
-- The tunnel as a state machine: what `loop` and the other public calls do to the state and to the
-- invariant, and what holds after any sequence of them.
use esp_reverse_tunneling_li.Prelude.{
  ℕ, ◌+◌, ◌≡◌, refl, ap, ◌∙◌, ◌⊎◌, inl, inr, Bool, true, false, ◌++◌, ltb, leb, Bool-cases, length,
  sub32,
}
use esp_reverse_tunneling_li.Env.{Env}
use esp_reverse_tunneling_li.Ledger.{Ledger}
use esp_reverse_tunneling_li.RingApi.{RingApi}
use esp_reverse_tunneling_li.TunnelApi.{TunnelApi, TunnelLaws}
use esp_reverse_tunneling_li.Channel.Counts.{IsValid}
use esp_reverse_tunneling_li.Channel.Endpoint.{EndpointLaws}
use esp_reverse_tunneling_li.Tunnel.{
  TunnelState, disconnected, connecting, connected, error_state, Tunnel, emit,
}
use esp_reverse_tunneling_li.Tunnel.Teardown.{
  clear_queues, drop_session, after_connect, attempt_connect, connect_in, connect_ssh, settle,
  reconnect, try_reconnect, attempts_used, handle_reconnection, reconnect_delay, reconnect_cap_ms,
}
use esp_reverse_tunneling_li.Tunnel.Loop.{
  drain_deferred_if_any, drain_pending_if_any, finish, check_degraded, close_events, pump, serve,
  keep_alive_due, after_keepalive, keep_alive, after_check, run_connected, loop_in, loop,
  accept_all,
}
use esp_reverse_tunneling_li.Tunnel.Valid.{
  IsSound, Holds, Holds-trans, enter_error_state-Holds, update_stats-Holds,
  drain_pending_queue-Holds, clean_expired_pending-Holds, drain_deferred_close_queue-Holds,
  accept_all_lem, Empty-IsSound,
}
use esp_reverse_tunneling_li.Tunnel.Idle.{drop_session-Empty, channels-clear_queues}

-- What one turn of `loop` can do to the state.
pub data LoopStep : TunnelState → TunnelState → Type 0 where
  stays : (s : TunnelState) → LoopStep s s
  fails_connected : LoopStep connected error_state
  fails_connecting : LoopStep connecting error_state
  reconnects : LoopStep error_state connected

module _ (env : Env) (api : RingApi) (host : TunnelApi env api) (led : Ledger env)
    (ends : EndpointLaws env host.ends led) (laws : TunnelLaws env api host) where
  -- Another session, transport, time or count does not matter to the invariant.
  pub same-IsSound :
      (t t' : Tunnel env api host)
      → IsValid env api t'.channels
      → t'.pending ≡ t.pending
      → t'.deferred ≡ t.deferred
      → IsSound t
      → IsSound t'
  same-IsSound t t' v p d h = record {
    valid = v;
    room = record {
      pending_room = rw (ap (λ q. length q) p) h.room.pending_room;
      deferred_room = rw (ap (λ q. length q) d) h.room.deferred_room;
    };
  }

  same_parts :
      (t t' : Tunnel env api host)
      → IsValid env api t'.channels
      → t'.pending ≡ t.pending
      → t'.deferred ≡ t.deferred
      → t'.state ≡ t.state
      → IsSound t
      → Holds t t'
  same_parts t t' v p d s h = record { sound = same-IsSound t t' v p d h; state = inl s }

  drain_deferred_if_any-Holds :
      (t : Tunnel env api host) (w : env.World)
      → IsSound t
      → Holds t (drain_deferred_if_any env api host t w).0
  unfolding drain_deferred_if_any
  drain_deferred_if_any-Holds t w h = elim (Bool-cases (ltb 0 (length t.deferred))) [
    | inl b ↦ simp b (drain_deferred_close_queue-Holds env api host led ends t w h)
    | inr b ↦ simp b (same_parts t t h.valid refl refl refl h)
  ]

  drain_pending_if_any-Holds :
      (t : Tunnel env api host) (w : env.World)
      → IsSound t
      → Holds t (drain_pending_if_any env api host t w).0
  unfolding drain_pending_if_any
  drain_pending_if_any-Holds t w h =
      let a = clean_expired_pending-Holds env api host led ends t w h in
      elim (Bool-cases (ltb 0 (length t.pending))) [
        | inl b ↦
            simp b (Holds-trans a (drain_pending_queue-Holds env api host led ends _ _ a.sound))
        | inr b ↦ simp b (same_parts t t h.valid refl refl refl h)
      ]

  finish-Holds :
      (t : Tunnel env api host) (w : env.World) → IsSound t → Holds t (finish env api host t w).0
  unfolding finish
  finish-Holds t w h =
      let (t1, w1) = drain_pending_if_any env api host t w in
      let (t2, w2) = drain_deferred_if_any env api host t1 w1 in
      let a = drain_pending_if_any-Holds t w h in
      let b = drain_deferred_if_any-Holds t1 w1 a.sound in
      Holds-trans a (Holds-trans b (update_stats-Holds env api host t2 w2 b.sound))

  check_degraded-Holds :
      (t : Tunnel env api host) (w : env.World)
      → IsSound t
      → Holds t (check_degraded env api host t w).0
  unfolding check_degraded
  check_degraded-Holds t w h =
      let t' = record t { transport = host.pump.clear_session_degraded t.transport } in
      let a = same_parts t t' h.valid refl refl refl h in
      elim (Bool-cases (host.pump.session_degraded t.transport)) [
        | inl b ↦ simp b (enter_error_state-Holds env api host t t' w a.sound)
        | inr b ↦ simp b (finish-Holds t w h)
      ]

  pump-Holds :
      (t : Tunnel env api host) (w : env.World) → IsSound t → Holds t (pump env api host t w).0
  unfolding pump
  pump-Holds t w h =
      let (m, p, w') = host.pump.pump_all t.channels t.transport w in
      let (closed, p') = host.pump.consume_close_events p in
      let t' = record t {
        channels = m;
        transport = p';
        events = t.events ++ close_events env api host closed;
      } in
      let a =
        same_parts t t' (laws.pump_all-IsValid t.channels t.transport w h.valid) refl refl refl h in
      Holds-trans a (check_degraded-Holds t' w' a.sound)

  serve-Holds :
      (t : Tunnel env api host) (w : env.World) → IsSound t → Holds t (serve env api host t w).0
  unfolding serve
  serve-Holds t w h =
      let (t1, w1) = drain_deferred_if_any env api host t w in
      let (t2, w2) = accept_all env api host t1 w1 in
      let a = drain_deferred_if_any-Holds t w h in
      let b = (accept_all_lem env api host led ends t1 w1 a.sound).1 in
      Holds-trans a (Holds-trans b (pump-Holds t2 w2 b.sound))

  after_keepalive-Holds :
      (t : Tunnel env api host) (now : ℕ) (r : Bool × host.session.Session × env.World)
      → IsSound t
      → Holds t (after_keepalive env api host t now r).0
  unfolding after_keepalive
  after_keepalive-Holds t now (true, s, w) h =
      let t' = record t { session = s; last_keep_alive = now } in
      let a = same_parts t t' h.valid refl refl refl h in Holds-trans a (serve-Holds t' w a.sound)
  after_keepalive-Holds t now (false, s, w) h =
      let t' = record t { session = s } in
      let a = same_parts t t' h.valid refl refl refl h in
      enter_error_state-Holds env api host t t' w a.sound

  keep_alive-Holds :
      (t : Tunnel env api host) (w : env.World)
      → IsSound t
      → Holds t (keep_alive env api host t w).0
  unfolding keep_alive
  keep_alive-Holds t w h =
      let (now, w1) = env.millis w in
      elim (Bool-cases (keep_alive_due env api host t now)) [
        | inl b ↦ rw b (after_keepalive-Holds t now (host.session.send_keepalive t.session w1) h)
        | inr b ↦ rw b (serve-Holds t w1 h)
      ]

  after_check-Holds :
      (t : Tunnel env api host) (r : Bool × env.World)
      → IsSound t
      → Holds t (after_check env api host t r).0
  unfolding after_check
  after_check-Holds t (true, w) h =
      let t' = record t { socket_health_failures = 0 } in
      let a = same_parts t t' h.valid refl refl refl h in
      Holds-trans a (keep_alive-Holds t' w a.sound)
  after_check-Holds t (false, w) h =
      let t' = record t { socket_health_failures = t.socket_health_failures + 1 } in
      let a = same_parts t t' h.valid refl refl refl h in
      elim (Bool-cases (leb 3 (t.socket_health_failures + 1))) [
        | inl b ↦ simp b (enter_error_state-Holds env api host t t' w a.sound)
        | inr b ↦ simp b (Holds-trans a (keep_alive-Holds t' w a.sound))
      ]

  run_connected-Holds :
      (t : Tunnel env api host) (w : env.World)
      → IsSound t
      → Holds t (run_connected env api host t w).0
  unfolding run_connected
  run_connected-Holds t w h = elim (Bool-cases (host.session.is_connected t.session)) [
    | inl b ↦ simp b (after_check-Holds t (host.session.check_connection t.session w) h)
    | inr b ↦ simp b (enter_error_state-Holds env api host t t w h)
  ]

  -- `connectSSH` that is not skipped ends in CONNECTED or ERROR.
  pub record Settles (t : Tunnel env api host) : Type 0 where
    pub sound : IsSound t
    pub state : (t.state ≡ connected) ⊎ (t.state ≡ error_state)

  after_connect-Settles :
      (t : Tunnel env api host) (r : Bool × host.session.Session × env.World)
      → IsSound t
      → Settles (after_connect env api host t r).1
  unfolding after_connect emit
  after_connect-Settles t (true, s, w) h = record {
    sound = same-IsSound t _ h.valid refl refl h;
    state = inl refl;
  }
  after_connect-Settles t (false, s, w) h = record {
    sound = same-IsSound t _ h.valid refl refl h;
    state = inr refl;
  }

  attempt_connect-Settles :
      (t : Tunnel env api host) (w : env.World)
      → IsSound t
      → Settles (attempt_connect env api host t w).1
  unfolding attempt_connect
  attempt_connect-Settles t w h =
      let (now, w1) = env.millis w in
      let t' = record t { state = connecting; last_connection_attempt = now } in
      after_connect-Settles t' (host.session.connect t.config t.session w1)
        (same-IsSound t t' h.valid refl refl h)

  pub connect_in-Settles :
      (s : TunnelState) (t : Tunnel env api host) (w : env.World)
      → t.state ≡ s
      → IsSound t
      → Settles (connect_in env api host s t w).1
  unfolding connect_in
  connect_in-Settles connected t w e h = record { sound = h; state = inl e }
  connect_in-Settles disconnected t w e h = attempt_connect-Settles t w h
  connect_in-Settles connecting t w e h = attempt_connect-Settles t w h
  connect_in-Settles error_state t w e h = attempt_connect-Settles t w h

  settle-Settles :
      (r : Bool × Tunnel env api host × env.World) → Settles r.1 → Settles (settle env api host r).0
  unfolding settle
  settle-Settles (true, t, w) h = record {
    sound = same-IsSound t _ h.sound.valid refl refl h.sound;
    state = h.state;
  }
  settle-Settles (false, t, w) h = h

  reconnect-Settles :
      (t : Tunnel env api host) (w : env.World) → IsSound t → Settles (reconnect env api host t w).0
  unfolding reconnect connect_ssh
  reconnect-Settles t w h =
      let (t1, w1) = clear_queues env api host t w in
      let (t2, w2) = drop_session env api host t1 w1 in
      let v1 : IsValid env api t1.channels = rw (channels-clear_queues env api host t w) h.valid in
      let sound = Empty-IsSound env api host t2 (drop_session-Empty env api host t1 w1 v1) in
      let t3 = record t2 { reconnect_attempts = t2.reconnect_attempts + 1 } in
      settle-Settles (connect_ssh env api host t3 w2)
        (connect_in-Settles t3.state t3 w2 refl (same-IsSound t2 t3 sound.valid refl refl sound))

  -- The state stays or is settled anew.
  record Turns (t t' : Tunnel env api host) : Type 0 where
    sound : IsSound t'
    state : (t'.state ≡ t.state) ⊎ (t'.state ≡ connected) ⊎ (t'.state ≡ error_state)

  try_reconnect-Turns :
      (t0 t : Tunnel env api host) (w : env.World)
      → t.state ≡ t0.state
      → IsSound t
      → Turns t0 (try_reconnect env api host t w).0
  unfolding try_reconnect
  try_reconnect-Turns t0 t w e h =
      let (now, w1) = env.millis w in
      let base = t.config.connection_config.reconnect_delay_ms in
      let s = reconnect-Settles t w1 h in
      elim (Bool-cases
        (ltb (sub32 now t.last_connection_attempt) (reconnect_delay base t.reconnect_attempts))) [
          | inl b ↦ rw b (record { sound = h; state = inl e })
          | inr b ↦ rw b (record { sound = s.sound; state = inr s.state })
        ]

  handle_reconnection-Turns :
      (t : Tunnel env api host) (w : env.World)
      → IsSound t
      → Turns t (handle_reconnection env api host t w).0
  unfolding handle_reconnection
  handle_reconnection-Turns t w h =
      let (now, w1) = env.millis w in
      let t' = record t { reconnect_attempts = 0 } in
      elim (Bool-cases (attempts_used env api host t)) [
        | inr b ↦ rw b (try_reconnect-Turns t t w refl h)
        | inl b ↦
            rw b (elim (Bool-cases (ltb (sub32 now t.last_connection_attempt) reconnect_cap_ms)) [
              | inl c ↦ rw c (record { sound = h; state = inl refl })
              | inr c ↦
                  rw c (try_reconnect-Turns t t' w1 refl (same-IsSound t t' h.valid refl refl h))
            ])
      ]

  stays_or_fails :
      (s s' : TunnelState)
      → (s ≡ connected) ⊎ (s ≡ connecting)
      → (s' ≡ s) ⊎ (s' ≡ error_state)
      → LoopStep s s'
  stays_or_fails s s' k (inl e) = rw e (stays s)
  stays_or_fails s s' (inl k) (inr e) = rw (k, e) fails_connected
  stays_or_fails s s' (inr k) (inr e) = rw (k, e) fails_connecting

  turns_step :
      (s' : TunnelState)
      → (s' ≡ error_state) ⊎ (s' ≡ connected) ⊎ (s' ≡ error_state)
      → LoopStep error_state s'
  turns_step s' (inl e) = rw e (stays error_state)
  turns_step s' (inr (inl e)) = rw e reconnects
  turns_step s' (inr (inr e)) = rw e (stays error_state)

  loop_in_lem :
      (s : TunnelState) (t : Tunnel env api host) (w : env.World)
      → t.state ≡ s
      → IsSound t
      → let t' = (loop_in env api host s t w).0 in IsSound t' × LoopStep s t'.state
  unfolding loop_in
  loop_in_lem disconnected t w e h = (h, rw e (stays disconnected))
  loop_in_lem error_state t w e h =
      let a = handle_reconnection-Turns t w h in
      let (t', w') = handle_reconnection env api host t w in
      (
        a.sound,
        turns_step t'.state (elim a.state [
          | inl x ↦ inl (x ∙ e)
          | inr (inl x) ↦ inr (inl x)
          | inr (inr x) ↦ inr (inr x)
        ]),
      )
  loop_in_lem connected t w e h =
      let a = run_connected-Holds t w h in
      let (t', w') = run_connected env api host t w in
      (
        a.sound,
        stays_or_fails connected t'.state (inl refl)
            (elim a.state [ inl x ↦ inl (x ∙ e) | inr x ↦ inr x ]),
      )
  loop_in_lem connecting t w e h =
      let a = run_connected-Holds t w h in
      let (t', w') = run_connected env api host t w in
      (
        a.sound,
        stays_or_fails connecting t'.state (inr refl)
            (elim a.state [ inl x ↦ inl (x ∙ e) | inr x ↦ inr x ]),
      )

  -- One turn of `loop`, whatever the session, the pump, the clock, libssh2 and the endpoints do, keeps
  -- the manager valid and the queues within their limits of 8 and 4. It leaves DISCONNECTED alone, can
  -- go from CONNECTED or CONNECTING only to ERROR, and from ERROR only to CONNECTED.
  pub loop-LoopStep :
      (t : Tunnel env api host) (w : env.World)
      → IsSound t
      → let t' = (loop env api host t w).0 in IsSound t' × LoopStep t.state t'.state
  unfolding loop
  loop-LoopStep t w h = loop_in_lem t.state t w refl h
