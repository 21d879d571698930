-- ===== src/Tunnel/Accept.antt =====
-- `handleNewConnection` (src/ssh_tunnel.cpp).
use esp_reverse_tunneling_li.Prelude.{
  ℕ, Bool, true, false, Option, none, some, [], ◌∷◌, ◌++◌, ltb, if◌then◌else◌, length,
}
use esp_reverse_tunneling_li.Env.{Env}
use esp_reverse_tunneling_li.RingApi.{RingApi}
use esp_reverse_tunneling_li.TunnelApi.{TunnelApi}
use esp_reverse_tunneling_li.Config.{TunnelConfig}
use esp_reverse_tunneling_li.Channel.Manager.{Channels, allocate_slot}
use esp_reverse_tunneling_li.Channel.Bind.{is_mapping_backed_off}
use esp_reverse_tunneling_li.Tunnel.{
  bind, channel_opened, max_pending, BindResult, bound, bind_failed, lock_unavailable, Tunnel, emit,
  close_accepted_channel, bind_accepted_channel, entry, enqueue_deferred_close,
}
use esp_reverse_tunneling_li.Tunnel.Teardown.{enter_error_state}

module _ (env : Env) (api : RingApi) (host : TunnelApi env api) where
  -- What becomes of the tunnel, and whether another channel may be accepted at once.
  abbrev pub Turn : Type 0
  Turn = Bool × Tunnel env api host × env.World

  unfoldable pub stop : Bool × Tunnel env api host × env.World → Turn
  stop (ok, t, w) = (false, t, w)

  -- A rejected channel is closed, or put aside to be closed.
  unfoldable pub after_close : Tunnel env api host → ℕ → TunnelConfig → Bool × env.World → Turn
  unfolding stop
  after_close t c mapping (true, w) = (false, t, w)
  after_close t c mapping (false, w) = stop (enqueue_deferred_close env api host t c mapping w)

  unfoldable pub reject : Tunnel env api host → ℕ → TunnelConfig → env.World → Turn
  unfolding after_close
  reject t c mapping w =
      after_close t c mapping (close_accepted_channel env api host (some c) 200 w)

  -- The last resort: a wait of one second for the lock.
  unfoldable pub force_close : ℕ → Bool × Tunnel env api host × env.World → Turn
  force_close c (true, t, w) = (false, t, w)
  force_close c (false, t, w) =
      let (ok, w') = close_accepted_channel env api host (some c) 1000 w in (false, t, w')

  unfoldable pub after_overflow : Tunnel env api host → ℕ → TunnelConfig → Bool × env.World → Turn
  unfolding force_close
  after_overflow t c mapping (true, w) = (false, t, w)
  after_overflow t c mapping (false, w) =
      force_close c (enqueue_deferred_close env api host t c mapping w)

  unfoldable pub overflow : Tunnel env api host → ℕ → TunnelConfig → env.World → Turn
  unfolding after_overflow
  overflow t c mapping w =
      after_overflow t c mapping (close_accepted_channel env api host (some c) 500 w)

  -- The channel waits for a slot, if the queue has room.
  unfoldable pub queue_or : Turn → Tunnel env api host → ℕ → TunnelConfig → env.World → Turn
  queue_or otherwise t c mapping w =
      let (e, w') = entry env api host c mapping bind w in
      if ltb (length t.pending) max_pending
      then (false, record t { pending = t.pending ++ (e ∷ []) }, w')
      else otherwise

  unfoldable pub after_bind :
      Tunnel env api host → ℕ → ℕ → TunnelConfig → BindResult × Channels env api × env.World → Turn
  unfolding queue_or stop
  after_bind t i c mapping (bound, m, w) =
      (true, emit env api host (channel_opened i) (record t { channels = m }), w)
  after_bind t i c mapping (lock_unavailable, m, w) =
      let t' = record t { channels = m } in
      queue_or (stop (enqueue_deferred_close env api host t' c mapping w)) t' c mapping w
  after_bind t i c mapping (bind_failed, m, w) =
      stop (enqueue_deferred_close env api host (record t { channels = m }) c mapping w)

  unfoldable pub offer :
      Tunnel env api host → ℕ → TunnelConfig → Option ℕ × Channels env api × env.World → Turn
  unfolding after_bind queue_or overflow
  offer t c mapping (some i, m, w) =
      after_bind (record t { channels = m }) i c mapping
        (bind_accepted_channel env api host m i c mapping 200 w)
  offer t c mapping (none, m, w) =
      let t' = record t { channels = m } in queue_or (overflow t' c mapping w) t' c mapping w

  -- What happens to an accepted channel.
  unfoldable pub place : Tunnel env api host → ℕ → TunnelConfig → env.World → Turn
  unfolding reject offer
  place t c mapping w =
      let (now, w') = env.millis w in
      if is_mapping_backed_off env api host.ends t.channels mapping.remote_bind_port now
      then reject t c mapping w'
      else offer t c mapping (allocate_slot env api t.channels w')

  unfoldable pub after_accept :
      Tunnel env api host → Option (ℕ × TunnelConfig) × host.session.Session × env.World → Turn
  unfolding place stop
  after_accept t (some (c, mapping), s, w) = place (record t { session = s }) c mapping w
  after_accept t (none, s, w) =
      let t' = record t { session = s } in
      if host.session.has_fatal_accept_failure s
      then (false, (enter_error_state env api host t' w).0, (enter_error_state env api host t' w).1)
      else (false, t', w)

  unfoldable pub handle_new_connection : Tunnel env api host → env.World → Turn
  unfolding after_accept
  handle_new_connection t w = after_accept t (host.session.accept_channel t.session w)
