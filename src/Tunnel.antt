-- ===== src/Tunnel.antt =====
-- SSHTunnel (src/ssh_tunnel.h, src/ssh_tunnel.cpp): its state, and the handling of accepted channels that
-- must wait or be closed. A queue is the list of its entries in use; the compaction in place is the list
-- of those that stay. Waits are in milliseconds. `events` is the list of the callbacks made, in order.
pub mod Queues
pub mod Teardown
pub mod Accept
pub mod Loop
pub mod Held
pub mod Binds
pub mod Moves
pub mod Fates
pub mod Drains
pub mod Idle
pub mod Valid
pub mod Machine
pub mod Calls
pub mod Backoff
mod Tests
use esp_reverse_tunneling_li.Prelude.{
  ℕ, ◌+◌, Bool, true, false, Option, none, some, List, [], ◌∷◌, ◌++◌, leb, if◌then◌else◌, length,
}
use esp_reverse_tunneling_li.Env.{Env}
use esp_reverse_tunneling_li.RingApi.{RingApi}
use esp_reverse_tunneling_li.TunnelApi.{TunnelApi}
use esp_reverse_tunneling_li.Config.{TunnelConfig, SshConfiguration}
use esp_reverse_tunneling_li.Channel.{ChannelCloseReason}
use esp_reverse_tunneling_li.Channel.Manager.{
  Channels, total_bytes_received, total_bytes_sent, total_bytes_dropped,
}
use esp_reverse_tunneling_li.Channel.Bind.{bind_channel}

pub data TunnelState : Type 0 where
  disconnected connecting connected error_state : TunnelState

pub data Action : Type 0 where
  bind close : Action

pub record PendingChannel : Type 0 where
  pub channel : Option ℕ
  pub mapping : TunnelConfig
  pub queued_at_ms : ℕ
  pub action : Action

pub data Event : Type 0 where
  session_connected session_disconnected : Event
  channel_opened : ℕ → Event
  channel_closed : ℕ → ChannelCloseReason → Event
  error_event : Event

abbrev pub max_pending : ℕ
max_pending = 8

abbrev pub max_deferred_close : ℕ
max_deferred_close = 4

abbrev pub pending_timeout_ms : ℕ
pending_timeout_ms = 5000

abbrev pub close_retry_timeout_ms : ℕ
close_retry_timeout_ms = 5000

pub record SshTunnel (env : Env) (api : RingApi) (host : TunnelApi env api) : Type 0 where
  pub session : host.session.Session
  pub channels : Channels env api
  pub transport : host.pump.Transport
  pub config : SshConfiguration
  pub state : TunnelState
  pub last_keep_alive : ℕ
  pub last_connection_attempt : ℕ
  pub reconnect_attempts : ℕ
  pub socket_health_failures : ℕ
  pub bytes_received : ℕ
  pub bytes_sent : ℕ
  pub bytes_dropped : ℕ
  pub pending : List PendingChannel
  pub deferred : List PendingChannel
  pub events : List Event

pub data BindResult : Type 0 where
  bound bind_failed lock_unavailable : BindResult

module _ (env : Env) (api : RingApi) (host : TunnelApi env api) where
  abbrev pub Tunnel : Type 0
  Tunnel = SshTunnel env api host

  unfoldable pub emit : Event → Tunnel → Tunnel
  emit e t = record t { events = t.events ++ (e ∷ []) }

  -- `libssh2_channel_close` and `libssh2_channel_free`; the results are not looked at.
  unfoldable pub close_and_free : ℕ → env.World → env.World
  close_and_free c w = (env.channel_free c (env.channel_close c w).1).1

  -- The body behind a lock that was tried.
  unfoldable pub close_locked : ℕ → Bool × env.World → Bool × env.World
  unfolding close_and_free
  close_locked c (true, w) = (true, env.unlock (close_and_free c w))
  close_locked c (false, w) = (false, w)

  unfoldable pub close_accepted_channel : Option ℕ → ℕ → env.World → Bool × env.World
  unfolding close_locked
  close_accepted_channel none ms w = (true, w)
  close_accepted_channel (some c) ms w = close_locked c (env.lock ms w)

  -- What follows the lock, with `bindChannel` under it.
  unfoldable pub bind_locked :
      Channels env api
      → ℕ
      → ℕ
      → TunnelConfig
      → Bool × env.World
      → BindResult × Channels env api × env.World
  bind_locked m i c mapping (false, w) = (lock_unavailable, m, w)
  bind_locked m i c mapping (true, w) =
      let (ok, m', w') = bind_channel env api host.ends m i c mapping w in
      (if ok then bound else bind_failed, m', env.unlock w')

  unfoldable pub bind_accepted_channel :
      Channels env api
      → ℕ
      → ℕ
      → TunnelConfig
      → ℕ
      → env.World
      → BindResult × Channels env api × env.World
  unfolding bind_locked
  bind_accepted_channel m i c mapping ms w = bind_locked m i c mapping (env.lock ms w)

  -- A new entry of a queue.
  unfoldable pub entry : ℕ → TunnelConfig → Action → env.World → PendingChannel × env.World
  entry c mapping action w =
      let (now, w') = env.millis w in
      (record { channel = some c; mapping = mapping; queued_at_ms = now; action = action }, w')

  -- The end of `enqueueDeferredClose`, once the close was tried.
  unfoldable pub defer : Tunnel → ℕ → TunnelConfig → Bool × env.World → Bool × Tunnel × env.World
  unfolding entry
  defer t c mapping (true, w) = (true, t, w)
  defer t c mapping (false, w) =
      let (e, w') = entry c mapping close w in
      if leb max_deferred_close (length t.deferred)
      then (false, t, w)
      else (true, record t { deferred = t.deferred ++ (e ∷ []) }, w')

  unfoldable pub enqueue_deferred_close :
      Tunnel → ℕ → TunnelConfig → env.World → Bool × Tunnel × env.World
  unfolding defer close_accepted_channel
  enqueue_deferred_close t c mapping w = defer t c mapping (close_accepted_channel (some c) 200 w)

  -- `updateStats`
  unfoldable pub update_stats : Tunnel → env.World → Tunnel × env.World
  update_stats t w =
      let (ok, w') = host.take_stats w in
      if ok
      then (
        record t {
          bytes_received = total_bytes_received env api t.channels;
          bytes_sent = total_bytes_sent env api t.channels;
          bytes_dropped = total_bytes_dropped env api t.channels;
        },
        w',
      )
      else (t, w')

  -- `isConnected`
  unfoldable pub is_connected : Tunnel → Bool
  is_connected t = elim t.state [
    | connected ↦ host.session.is_connected t.session
    | disconnected ↦ false
    | connecting ↦ false
    | error_state ↦ false
  ]
