-- ===== src/Channel.antt =====
-- ChannelSlot and ChannelManager (src/ssh_channel.h, src/ssh_channel.cpp). The array of slots is a
-- list, empty while `slots_` is null, and `maxSlots_` is its length. A pointer or a socket is an option.
-- `int` counters are numbers. Logging, the diagnostics behind TUNNEL_DIAG_LOG_ONLY and the host names of
-- the endpoint, which are only logged, are left out.
pub mod Manager
pub mod Endpoint
pub mod Bind
pub mod Lifecycle
pub mod Counts
pub mod Totals
mod Tests
use esp_reverse_tunneling_li.Prelude.{
  ℕ, Bool, true, false, not, ◌||◌, Option, none, some, if◌then◌else◌, add32,
}
use esp_reverse_tunneling_li.DataRing
use esp_reverse_tunneling_li.DataRing.{DataRing}
use esp_reverse_tunneling_li.RingApi.{RingApi}
use esp_reverse_tunneling_li.CloseProgress
use esp_reverse_tunneling_li.CloseProgress.{Progress}
use esp_reverse_tunneling_li.Env.{Env}

pub data ChannelCloseReason : Type 0 where
  unknown remote_closed local_closed error timeout manual : ChannelCloseReason

pub data State : Type 0 where
  open_state draining closed : State

pub record ChannelSlot (Ring : Type 0) : Type 0 where
  pub ssh_channel : Option ℕ
  pub local_socket : Option ℕ
  pub active : Bool
  pub remote_port : ℕ
  pub local_port : ℕ
  pub to_local : Option (DataRing Ring)
  pub to_remote : Option (DataRing Ring)
  pub state : State
  pub local_eof : Bool
  pub remote_eof : Bool
  pub local_shutdown_sent : Bool
  pub close_start_ms : ℕ
  pub eof_sent_ms : ℕ
  pub close_reason : ChannelCloseReason
  pub ssh_close_progress : Progress
  pub local_read_paused : Bool
  pub ssh_read_paused : Bool
  pub total_bytes_received : ℕ
  pub total_bytes_sent : ℕ
  pub total_bytes_dropped : ℕ
  pub last_activity : ℕ
  pub last_successful_write : ℕ
  pub last_successful_read : ℕ
  pub consecutive_errors : ℕ
  pub eagain_count : ℕ
  pub first_eagain_ms : ℕ
  pub first_local_send_eagain_ms : ℕ
  pub last_finalize_ms : ℕ

-- `new ChannelSlot()`, and what `resetSlot` leaves but for `lastFinalizeMs`.
abbrev pub blank_slot : (Ring : Type 0) → ℕ → ChannelSlot Ring
blank_slot Ring finalized = record {
  ssh_channel = none;
  local_socket = none;
  active = false;
  remote_port = 0;
  local_port = 0;
  to_local = none;
  to_remote = none;
  state = closed;
  local_eof = false;
  remote_eof = false;
  local_shutdown_sent = false;
  close_start_ms = 0;
  eof_sent_ms = 0;
  close_reason = unknown;
  ssh_close_progress = CloseProgress.not_started;
  local_read_paused = false;
  ssh_read_paused = false;
  total_bytes_received = 0;
  total_bytes_sent = 0;
  total_bytes_dropped = 0;
  last_activity = 0;
  last_successful_write = 0;
  last_successful_read = 0;
  consecutive_errors = 0;
  eagain_count = 0;
  first_eagain_ms = 0;
  first_local_send_eagain_ms = 0;
  last_finalize_ms = finalized;
}

abbrev pub is_open : State → Bool
is_open open_state = true
is_open _ = false

abbrev pub is_draining : State → Bool
is_draining draining = true
is_draining _ = false

module _ (env : Env) (api : RingApi) where
  abbrev pub Slot : Type 0
  Slot = ChannelSlot api.Ring

  -- `ring ? ring->size() : 0`
  unfoldable pub ring_size : Option (DataRing api.Ring) → ℕ
  ring_size none = 0
  ring_size (some d) = DataRing.size api d

  -- The part of `resetSlot` that it does on the slot.
  unfoldable pub reset_slot : Slot → Slot
  reset_slot s = blank_slot api.Ring s.last_finalize_ms

  -- The part of `beginClose` behind the check of the index.
  unfoldable pub begin_close : Slot → ChannelCloseReason → env.World → Slot × env.World
  begin_close s reason w =
      let (now, w') = env.millis w in
      if not s.active || not (is_open s.state)
      then (s, w)
      else (record s { state = draining; close_start_ms = now; close_reason = reason }, w')

  -- `if (slot.localSocket >= 0) close(...)`
  unfoldable pub close_local : Option ℕ → env.World → env.World
  close_local none w = w
  close_local (some fd) w = env.socket_close fd w

  -- The first step of `finalizeClose`: `libssh2_channel_close`, unless it is done.
  unfoldable pub close_step : ℕ → Progress → env.World → Bool × Progress × env.World
  close_step channel p w =
      let (is_eagain, w') = env.channel_close channel w in
      let (done, p') = CloseProgress.record_close_result p is_eagain in
      if p.close_complete then (true, p, w) else (done, p', w')

  -- The second step: `libssh2_channel_free`, once the close is done.
  unfoldable pub free_step : ℕ → Progress → env.World → Bool × Progress × env.World
  free_step channel p w =
      let (is_eagain, w') = env.channel_free channel w in
      let (done, p') = CloseProgress.record_free_result p is_eagain in
      if CloseProgress.ready_for_free p then (done, p', w') else (true, p, w)

  -- Both steps and the check behind them: whether the local part of the slot may be finalized.
  unfoldable pub close_channel : Option ℕ → Progress → env.World → Bool × Progress × env.World
  unfolding close_step free_step
  close_channel none p w = (true, p, w)
  close_channel (some channel) p w =
      let (closed_now, p1, w1) = close_step channel p w in
      let (freed, p2, w2) = free_step channel p1 w1 in
      if not closed_now
      then (false, p1, w1)
      else if not freed
      then (false, p2, w2)
      else (CloseProgress.ready_for_finalize p2, p2, w2)

  -- What `finalizeClose` does to an active slot: done or to be tried again.
  unfoldable pub finalize_slot : Slot → env.World → Bool × Slot × env.World
  unfolding close_channel close_local ring_size
  finalize_slot s w =
      let (ready, p, w1) = close_channel s.ssh_channel s.ssh_close_progress w in
      let w2 = close_local s.local_socket w1 in
      let (now, w3) = env.millis w2 in
      if not ready then (false, record s { ssh_close_progress = p }, w1) else (
        true,
        record s {
          ssh_channel = none;
          local_socket = none;
          active = false;
          to_local = none;
          to_remote = none;
          state = closed;
          ssh_close_progress = p;
          total_bytes_dropped =
              add32 s.total_bytes_dropped (add32 (ring_size s.to_local) (ring_size s.to_remote));
          last_finalize_ms = now;
        },
        w3,
      )

  -- The counts that `abandonSlot` leaves in the slot just before it archives them.
  unfoldable pub abandoned_drops : Slot → ℕ
  unfolding ring_size
  abandoned_drops s =
      add32 s.total_bytes_dropped (add32 (ring_size s.to_local) (ring_size s.to_remote))
