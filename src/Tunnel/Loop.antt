-- ===== src/Tunnel/Loop.antt =====
-- `loop` (src/ssh_tunnel.cpp). The inner `while (handleNewConnection())` runs on fuel: each true answer
-- took an idle slot, so one more round than there are slots is enough.
use esp_reverse_tunneling_li.Prelude.{
  ℕ, zero, suc, ◌+◌, Bool, true, false, ◌&&◌, List, [], ◌∷◌, ◌++◌, ltb, leb, if◌then◌else◌, length,
  sub32, mul32,
}
use esp_reverse_tunneling_li.Env.{Env}
use esp_reverse_tunneling_li.RingApi.{RingApi}
use esp_reverse_tunneling_li.TunnelApi.{TunnelApi}
use esp_reverse_tunneling_li.Config.{is_positive}
use esp_reverse_tunneling_li.Channel.{ChannelCloseReason}
use esp_reverse_tunneling_li.Tunnel.{
  TunnelState, disconnected, connecting, connected, error_state, Event, channel_closed, Tunnel,
  update_stats,
}
use esp_reverse_tunneling_li.Tunnel.Queues.{
  drain_pending_queue, drain_deferred_close_queue, clean_expired_pending,
}
use esp_reverse_tunneling_li.Tunnel.Teardown.{enter_error_state, handle_reconnection}
use esp_reverse_tunneling_li.Tunnel.Accept.{handle_new_connection}

module _ (env : Env) (api : RingApi) (host : TunnelApi env api) where
  abbrev pub Next : Type 0
  Next = Tunnel env api host × env.World

  -- Whether the last answer was still true, and where the rounds ended.
  unfoldable pub accept_loop : ℕ → Tunnel env api host → env.World → Bool × Next
  accept_loop zero t w = (true, (t, w))
  accept_loop (suc fuel) t w =
      let (more, t', w') = handle_new_connection env api host t w in
      let rest = accept_loop fuel t' w' in if more then rest else (false, (t', w'))

  unfoldable pub accept_all : Tunnel env api host → env.World → Next
  unfolding accept_loop
  accept_all t w = (accept_loop (length t.channels.slots + 1) t w).1

  unfoldable pub close_events : List (ℕ × ChannelCloseReason) → List Event
  close_events [] = []
  close_events ((i, reason) ∷ es) = channel_closed i reason ∷ close_events es

  unfoldable pub drain_deferred_if_any : Tunnel env api host → env.World → Next
  drain_deferred_if_any t w =
      if ltb 0 (length t.deferred) then drain_deferred_close_queue env api host t w else (t, w)

  unfoldable pub drain_pending_if_any : Tunnel env api host → env.World → Next
  drain_pending_if_any t w =
      let (t1, w1) = clean_expired_pending env api host t w in
      let result = drain_pending_queue env api host t1 w1 in
      if ltb 0 (length t.pending) then result else (t, w)

  -- From the drain of the pending queue on.
  unfoldable pub finish : Tunnel env api host → env.World → Next
  unfolding drain_deferred_if_any drain_pending_if_any
  finish t w =
      let (t1, w1) = drain_pending_if_any t w in
      let (t2, w2) = drain_deferred_if_any t1 w1 in update_stats env api host t2 w2

  -- The check for a channel that was given up while it drained.
  unfoldable pub check_degraded : Tunnel env api host → env.World → Next
  unfolding finish
  check_degraded t w =
      let cleared = record t { transport = host.pump.clear_session_degraded t.transport } in
      if host.pump.session_degraded t.transport
      then enter_error_state env api host cleared w
      else finish t w

  -- `pumpAll` and the close events.
  unfoldable pub pump : Tunnel env api host → env.World → Next
  unfolding check_degraded close_events
  pump t w =
      let (m, p, w') = host.pump.pump_all t.channels t.transport w in
      let (closed, p') = host.pump.consume_close_events p in
      check_degraded
        (record t { channels = m; transport = p'; events = t.events ++ close_events closed }) w'

  -- From the first drain of the deferred closes on.
  unfoldable pub serve : Tunnel env api host → env.World → Next
  unfolding drain_deferred_if_any accept_all pump
  serve t w =
      let (t1, w1) = drain_deferred_if_any t w in let (t2, w2) = accept_all t1 w1 in pump t2 w2

  -- The interval in milliseconds, on `int`.
  unfoldable pub keep_alive_due : Tunnel env api host → ℕ → Bool
  keep_alive_due t now =
      let interval = mul32 t.config.connection_config.keep_alive_interval_sec 1000 in
      is_positive interval && leb interval (sub32 now t.last_keep_alive)

  unfoldable pub after_keepalive :
      Tunnel env api host → ℕ → Bool × host.session.Session × env.World → Next
  unfolding serve
  after_keepalive t now (true, s, w) = serve (record t { session = s; last_keep_alive = now }) w
  after_keepalive t now (false, s, w) = enter_error_state env api host (record t { session = s }) w

  unfoldable pub keep_alive : Tunnel env api host → env.World → Next
  unfolding keep_alive_due after_keepalive serve
  keep_alive t w =
      let (now, w') = env.millis w in
      if keep_alive_due t now
      then after_keepalive t now (host.session.send_keepalive t.session w')
      else serve t w'

  -- The count of failed checks of the socket.
  unfoldable pub after_check : Tunnel env api host → Bool × env.World → Next
  unfolding keep_alive
  after_check t (true, w) = keep_alive (record t { socket_health_failures = 0 }) w
  after_check t (false, w) =
      let n = t.socket_health_failures + 1 in
      let t' = record t { socket_health_failures = n } in
      if leb 3 n then enter_error_state env api host t' w else keep_alive t' w

  unfoldable pub run_connected : Tunnel env api host → env.World → Next
  unfolding after_check
  run_connected t w =
      if host.session.is_connected t.session
      then after_check t (host.session.check_connection t.session w)
      else enter_error_state env api host t w

  unfoldable pub loop_in : TunnelState → Tunnel env api host → env.World → Next
  unfolding run_connected
  loop_in error_state t w = handle_reconnection env api host t w
  loop_in disconnected t w = (t, w)
  loop_in connecting t w = run_connected t w
  loop_in connected t w = run_connected t w

  unfoldable pub loop : Tunnel env api host → env.World → Next
  unfolding loop_in
  loop t w = loop_in t.state t w
