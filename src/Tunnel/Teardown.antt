-- ===== src/Tunnel/Teardown.antt =====
-- How the tunnel gives up and starts again (src/ssh_tunnel.h, src/ssh_tunnel.cpp): `init`, `connectSSH`,
-- `disconnect`, `requestReconnect`, `enterErrorState` and `handleReconnection`.
use esp_reverse_tunneling_li.Prelude.{
  ℕ, zero, suc, ◌+◌, min, Bool, true, false, not, ◌||◌, none, some, List, [], ◌∷◌, ◌++◌, ltb, leb,
  if◌then◌else◌, length, get_elem?, sub32, mul32, is_negative,
}
use esp_reverse_tunneling_li.Env.{Env}
use esp_reverse_tunneling_li.RingApi.{RingApi}
use esp_reverse_tunneling_li.TunnelApi.{TunnelApi}
use esp_reverse_tunneling_li.DataRing.{prepend_cap}
use esp_reverse_tunneling_li.Config.{ConnectionConfig, is_positive}
use esp_reverse_tunneling_li.Channel.{ChannelCloseReason, unknown, error, manual}
use esp_reverse_tunneling_li.Channel.Manager.{Channels, finalize_close, abandon_slot}
use esp_reverse_tunneling_li.Channel.Manager
use esp_reverse_tunneling_li.Tunnel.{
  TunnelState, connecting, connected, error_state, Event, session_connected, session_disconnected,
  channel_closed, error_event, Tunnel, emit, update_stats,
}
use esp_reverse_tunneling_li.Tunnel.Queues.{clear_pending_queue, clear_deferred_close_queue}

-- The cap of the reconnect delay, and the cooldown when all attempts are used up.
abbrev pub reconnect_cap_ms : ℕ
reconnect_cap_ms = 60000

-- `for (i = 0; i < attempts && delay < 60000; ++i) delay *= 2`, on `unsigned long`
unfoldable pub doubled : ℕ → ℕ → ℕ
doubled zero delay = delay
doubled (suc attempts) delay =
    let more = doubled attempts (mul32 delay 2) in
    if ltb delay reconnect_cap_ms then more else delay

unfoldable pub reconnect_delay : ℕ → ℕ → ℕ
unfolding doubled
reconnect_delay base attempts = min (doubled attempts base) reconnect_cap_ms

module _ (env : Env) (api : RingApi) (host : TunnelApi env api) where
  -- What a loop over the slots does to an active one.
  abbrev pub Closing : Type 0
  Closing = Channels env api → ℕ → env.World → Channels env api × env.World

  unfoldable pub finalizing : Closing
  finalizing m i w = let (done, m', w') = finalize_close env api m i w in (m', w')

  unfoldable pub abandoning : Closing
  abandoning m i w = abandon_slot env api m i w

  -- The loops that close each active slot, from one index on, with the reason that is reported.
  unfoldable pub close_active :
      Closing
      → (ChannelCloseReason → ChannelCloseReason)
      → ℕ
      → ℕ
      → Channels env api
      → List Event
      → env.World
      → Channels env api × List Event × env.World
  close_active step reason zero i m es w = (m, es, w)
  close_active step reason (suc left) i m es w = elim (get_elem? m.slots i) [
    | none ↦ close_active step reason left (suc i) m es w
    | some s ↦
        let (m', w') = step m i w in
        let event = channel_closed i (reason s.close_reason) in
        if s.active
        then close_active step reason left (suc i) m' (es ++ (event ∷ [])) w'
        else close_active step reason left (suc i) m es w
  ]

  -- `abandonSlot` on every slot.
  unfoldable pub abandon_all : ℕ → ℕ → Channels env api → env.World → Channels env api × env.World
  abandon_all zero i m w = (m, w)
  abandon_all (suc left) i m w =
      let (m', w') = abandon_slot env api m i w in abandon_all left (suc i) m' w'

  -- The end that `disconnect`, `enterErrorState` and `handleReconnection` share: the session goes, and
  -- with it all slots and both queues.
  unfoldable pub drop_session : Tunnel env api host → env.World → Tunnel env api host × env.World
  unfolding abandon_all
  drop_session t w =
      let (s, w1) = host.session.disconnect t.session w in
      let (m, w2) = abandon_all (length t.channels.slots) 0 t.channels w1 in
      (record t { session = s; channels = m; pending = []; deferred = [] }, w2)

  -- The close of the active slots behind an attempt at the lock.
  unfoldable pub close_slots :
      (ChannelCloseReason → ChannelCloseReason)
      → Tunnel env api host
      → Bool × env.World
      → Tunnel env api host × env.World
  unfolding close_active finalizing abandoning
  close_slots reason t (true, w) =
      let (m, es, w') =
        close_active finalizing reason (length t.channels.slots) 0 t.channels t.events w in
      (record t { channels = m; events = es }, env.unlock w')
  close_slots reason t (false, w) =
      let (m, es, w') =
        close_active abandoning reason (length t.channels.slots) 0 t.channels t.events w in
      (record t { channels = m; events = es }, w')

  unfoldable pub or_error : ChannelCloseReason → ChannelCloseReason
  or_error unknown = error
  or_error r = r

  unfoldable pub clear_queues : Tunnel env api host → env.World → Tunnel env api host × env.World
  clear_queues t w =
      let (ok, t1, w1) = clear_pending_queue env api host t w in
      let (ok', t2, w2) = clear_deferred_close_queue env api host t1 w1 in (t2, w2)

  unfoldable pub enter_error_state :
      Tunnel env api host → env.World → Tunnel env api host × env.World
  unfolding clear_queues close_slots drop_session or_error
  enter_error_state t w =
      let (t1, w1) = clear_queues t w in
      let (t2, w2) = close_slots or_error t1 (env.lock 500 w1) in
      let (t3, w3) = drop_session t2 w2 in
      let (t4, w4) = update_stats env api host t3 w3 in
      let (now, w5) = env.millis w4 in
      (
        emit env api host session_disconnected (record t4 {
          state = error_state;
          socket_health_failures = 0;
          last_connection_attempt = now;
        }),
        w5,
      )

  -- `if (isConnected) lock(2000)`
  unfoldable pub lock_if_connected : Tunnel env api host → env.World → Bool × env.World
  lock_if_connected t w =
      let r = env.lock 2000 w in if host.session.is_connected t.session then r else (false, w)

  unfoldable pub announce_end : TunnelState → Tunnel env api host → Tunnel env api host
  announce_end connected t = emit env api host session_disconnected t
  announce_end _ t = t

  unfoldable pub disconnect : Tunnel env api host → env.World → Tunnel env api host × env.World
  unfolding clear_queues close_slots drop_session lock_if_connected announce_end
  disconnect t w =
      let (t1, w1) = clear_queues t w in
      let (t2, w2) = close_slots (λ r. manual) t1 (lock_if_connected t1 w1) in
      let (t3, w3) = drop_session t2 w2 in
      let (t4, w4) = update_stats env api host t3 w3 in
      (
        record (announce_end t4.state t4) {
          socket_health_failures = 0;
          state = TunnelState.disconnected;
        },
        w4,
      )

  -- `connectSSH` once the session has answered.
  unfoldable pub after_connect :
      Tunnel env api host
      → Bool × host.session.Session × env.World
      → Bool × Tunnel env api host × env.World
  after_connect t (false, s, w) =
      (false, emit env api host error_event (record t { session = s; state = error_state }), w)
  after_connect t (true, s, w) =
      let (now, w') = env.millis w in
      (
        true,
        emit env api host session_connected (record t {
          session = s;
          state = connected;
          reconnect_attempts = 0;
          socket_health_failures = 0;
          last_keep_alive = now;
        }),
        w',
      )

  -- The part of `connectSSH` that is not skipped.
  unfoldable pub attempt_connect :
      Tunnel env api host → env.World → Bool × Tunnel env api host × env.World
  unfolding after_connect
  attempt_connect t w =
      let (now, w') = env.millis w in
      after_connect (record t { state = connecting; last_connection_attempt = now })
        (host.session.connect t.config t.session w')

  unfoldable pub connect_in :
      TunnelState → Tunnel env api host → env.World → Bool × Tunnel env api host × env.World
  unfolding attempt_connect
  connect_in connected t w = (true, t, w)
  connect_in _ t w = attempt_connect t w

  unfoldable pub connect_ssh :
      Tunnel env api host → env.World → Bool × Tunnel env api host × env.World
  unfolding connect_in
  connect_ssh t w = connect_in t.state t w

  -- `requestReconnect`, by the state.
  unfoldable pub request_in :
      TunnelState → Tunnel env api host → env.World → Tunnel env api host × env.World
  request_in TunnelState.disconnected t w =
      let (now, w') = env.millis w in
      (record t { reconnect_attempts = 0; last_connection_attempt = now; state = error_state }, w')
  request_in _ t w = (t, w)

  unfoldable pub request_reconnect :
      Tunnel env api host → env.World → Tunnel env api host × env.World
  unfolding request_in
  request_reconnect t w = request_in t.state t w

  -- What follows `connectSSH` in `handleReconnection`.
  unfoldable pub settle : Bool × Tunnel env api host × env.World → Tunnel env api host × env.World
  settle (true, t, w) = (record t { reconnect_attempts = 0 }, w)
  settle (false, t, w) = (t, w)

  -- The attempt itself, once it is due.
  unfoldable pub reconnect : Tunnel env api host → env.World → Tunnel env api host × env.World
  unfolding clear_queues drop_session settle connect_ssh
  reconnect t w =
      let (t1, w1) = clear_queues t w in
      let (t2, w2) = drop_session t1 w1 in
      settle (connect_ssh (record t2 { reconnect_attempts = t2.reconnect_attempts + 1 }) w2)

  -- From the computation of the delay on, with the count of attempts made.
  unfoldable pub try_reconnect : Tunnel env api host → env.World → Tunnel env api host × env.World
  unfolding reconnect
  try_reconnect t w =
      let (now, w') = env.millis w in
      let base = t.config.connection_config.reconnect_delay_ms in
      let result = reconnect t w' in
      if ltb (sub32 now t.last_connection_attempt) (reconnect_delay base t.reconnect_attempts)
      then (t, w')
      else result

  -- `attempts >= max`, where a negative limit is at once reached.
  unfoldable pub attempts_used : Tunnel env api host → Bool
  attempts_used t =
      let limit = t.config.connection_config.max_reconnect_attempts in
      is_negative limit || leb limit t.reconnect_attempts

  unfoldable pub handle_reconnection :
      Tunnel env api host → env.World → Tunnel env api host × env.World
  unfolding try_reconnect attempts_used
  handle_reconnection t w =
      let (now, w') = env.millis w in
      let again = try_reconnect (record t { reconnect_attempts = 0 }) w' in
      let next = try_reconnect t w in
      if attempts_used t
      then (if ltb (sub32 now t.last_connection_attempt) reconnect_cap_ms then (t, w') else again)
      else next

  unfoldable pub buffer_bytes : ConnectionConfig → ℕ
  buffer_bytes c = if is_positive c.buffer_size then c.buffer_size else 4096

  unfoldable pub ring_bytes : ConnectionConfig → ℕ
  ring_bytes c = if ltb c.tunnel_ring_buffer_size 8192 then 8192 else c.tunnel_ring_buffer_size

  -- The end of `init`, once the transport pump answered.
  unfoldable pub init_pump :
      Tunnel env api host
      → Bool × host.pump.Transport × env.World
      → Bool × Tunnel env api host × env.World
  init_pump t (ok, p, w) =
      if ok
      then (
        true,
        record t {
          transport = p;
          state = TunnelState.disconnected;
          bytes_received = 0;
          bytes_sent = 0;
          bytes_dropped = 0;
        },
        w,
      )
      else (false, record t { transport = p }, w)

  -- Once the channel manager answered.
  unfoldable pub init_channels :
      Tunnel env api host
      → Bool × Channels env api × env.World
      → Bool × Tunnel env api host × env.World
  unfolding init_pump buffer_bytes
  init_channels t (ok, m, w) =
      let c = t.config.connection_config in
      if ok
      then init_pump (record t { channels = m })
          (host.pump.init (buffer_bytes c) c.channel_timeout_ms t.transport w)
      else (false, record t { channels = m }, w)

  -- Once the session answered. `allocated` is whether the array of slots can be allocated.
  unfoldable pub init_session :
      Tunnel env api host
      → Bool
      → Bool × host.session.Session × env.World
      → Bool × Tunnel env api host × env.World
  unfolding init_channels buffer_bytes ring_bytes
  init_session t allocated (ok, s, w) =
      let c = t.config.connection_config in
      let t' = record t { session = s } in
      if not ok || ltb prepend_cap (buffer_bytes c)
      then (false, t', w)
      else init_channels t' (
          Manager.init env api t.channels c.max_channels (ring_bytes c) c.channel_timeout_ms
            allocated w)

  -- `init`; `mutex` is whether the mutex of the statistics is there or could be created.
  unfoldable pub init :
      Tunnel env api host → Bool → Bool → env.World → Bool × Tunnel env api host × env.World
  unfolding init_session
  init t mutex allocated w =
      if mutex then init_session t allocated (host.session.init t.session w) else (false, t, w)
