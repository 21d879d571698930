-- ===== src/Transport/Turn.antt =====
-- `pumpAll` (src/ssh_transport.cpp): the three phases on all slots, in the order that the round-robin
-- offset gives, and then `checkCloses`.
pub mod Alive
pub mod Writing
pub mod Validity
mod Tests
use esp_reverse_tunneling_li.Prelude.{
  ℕ, zero, suc, ◌%◌, Bool, false, not, ◌&&◌, ◌||◌, none, some, List, [], ◌∷◌, ltb, ◌==◌,
  if◌then◌else◌, length, get_elem?, set, take, add32,
}
use esp_reverse_tunneling_li.RingApi.{RingApi}
use esp_reverse_tunneling_li.Env.{Env}
use esp_reverse_tunneling_li.Channel.{Slot, ChannelCloseReason}
use esp_reverse_tunneling_li.Channel.Manager.{Channels}
use esp_reverse_tunneling_li.TunnelApi.{PumpApi}
use esp_reverse_tunneling_li.Transport.{Pump}
use esp_reverse_tunneling_li.Transport.Intake.{intake, fallback}
use esp_reverse_tunneling_li.Transport.Deliver.{deliver}
use esp_reverse_tunneling_li.Transport.Upload.{upload}
use esp_reverse_tunneling_li.Transport.Closes.{check_closes}

-- `attached` is whether `session_` and `channels_` are set, and `allocated` whether the buffer is.
pub record TransportPump : Type 0 where
  pub attached : Bool
  pub allocated : Bool
  pub buf_size : ℕ
  pub channel_timeout_ms : ℕ
  pub round_robin_offset : ℕ
  pub last_bytes_moved : ℕ
  pub close_events : List (ℕ × ChannelCloseReason)
  pub session_degraded : Bool

-- `consumeCloseEvents`, into an array with room for `size` events.
unfoldable pub consume_close_events :
    ℕ → TransportPump → List (ℕ × ChannelCloseReason) × TransportPump
consume_close_events size t = (take size t.close_events, record t { close_events = [] })

unfoldable pub clear_session_degraded : TransportPump → TransportPump
clear_session_degraded t = record t { session_degraded = false }

module _ (env : Env) (api : RingApi) where
  -- What a phase works on: the slots, `lastBytesMoved_`, `anyReadDone` and the world.
  pub record Sweep : Type 0 where
    pub channels : Channels env api
    pub moved : ℕ
    pub any_read : Bool
    pub world : env.World

  abbrev pub Body : Type 0
  Body = Bool × Pump env api → Bool × Pump env api

  -- The body of a phase on the slot of an index.
  unfoldable pub on_slot : Body → ℕ → Sweep → Sweep
  on_slot body i c = elim (get_elem? c.channels.slots i) [
    | none ↦ c
    | some s ↦
        let (any, p) = body (c.any_read, record { slot = s; moved = c.moved; world = c.world }) in
        record {
          channels = record c.channels { slots = set c.channels.slots i p.slot };
          moved = p.moved;
          any_read = any;
          world = p.world;
        }
  ]

  -- `for (n = 0; n < maxSlots; ++n)`, with the rounds that are left: the slot is the one at
  -- `(n + roundRobinOffset_) % maxSlots`.
  unfoldable pub round_robin : Body → ℕ → ℕ → ℕ → ℕ → Sweep → Sweep
  unfolding on_slot
  round_robin body zero n offset size c = c
  round_robin body (suc rounds) n offset size c =
      round_robin body rounds (suc n) offset size (on_slot body (add32 n offset % size) c)

  unfoldable pub pump_ssh_transport : TransportPump → Sweep → Sweep
  unfolding round_robin
  pump_ssh_transport t c =
      let size = length c.channels.slots in
      let (locked, w) = env.lock 50 c.world in
      let c' =
        round_robin (intake env api t.buf_size) size 0 t.round_robin_offset size
          (record c { any_read = false; world = w }) in
      let w' =
        if c'.any_read then c'.world else fallback env api t.buf_size c'.channels.slots c'.world in
      if locked then record c' { world = env.unlock w' } else record c { world = w }

  unfoldable pub drain_ssh_to_local : TransportPump → Sweep → Sweep
  unfolding round_robin
  drain_ssh_to_local t c =
      let size = length c.channels.slots in
      round_robin (λ s. (s.0, deliver env api t.buf_size s.1)) size 0 t.round_robin_offset size c

  unfoldable pub drain_local_to_ssh : TransportPump → Sweep → Sweep
  unfolding round_robin
  drain_local_to_ssh t c =
      let size = length c.channels.slots in
      round_robin (λ s. (s.0, upload env api t.buf_size s.1)) size 0 t.round_robin_offset size c

  -- The first three phases.
  unfoldable pub move_bytes : TransportPump → Channels env api → env.World → Sweep
  unfolding pump_ssh_transport drain_ssh_to_local drain_local_to_ssh
  move_bytes t m w = drain_local_to_ssh t (
      drain_ssh_to_local t
        (pump_ssh_transport t (record { channels = m; moved = 0; any_read = false; world = w })))

  -- The result is whether bytes were moved. The offset is advanced unless there are no slots.
  unfoldable pub pump_all :
      Channels env api
      → TransportPump
      → env.World
      → Bool × Channels env api × TransportPump × env.World
  unfolding move_bytes
  pump_all m t w =
      let c = move_bytes t m w in
      let s =
        check_closes env api t.channel_timeout_ms c.channels t.session_degraded t.close_events
          c.world in
      if not t.attached || not t.allocated then (false, m, t, w) else (
        ltb 0 c.moved,
        s.channels,
        record t {
          last_bytes_moved = c.moved;
          round_robin_offset =
              if length m.slots == 0 then t.round_robin_offset else add32 t.round_robin_offset 1;
          close_events = s.events;
          session_degraded = s.degraded;
        },
        s.world,
      )

  unfoldable pub has_any_backpressure : List (Slot env api) → Bool
  has_any_backpressure [] = false
  has_any_backpressure (s ∷ ss) =
      (s.active && (s.local_read_paused || s.ssh_read_paused)) || has_any_backpressure ss

  -- The pump as the tunnel uses it; `allocate` is whether a buffer of a size can be had.
  unfoldable pub init :
      (ℕ → env.World → Bool × env.World)
      → ℕ
      → ℕ
      → TransportPump
      → env.World
      → Bool × TransportPump × env.World
  init allocate size timeout_ms t w =
      let (ok, w') = allocate size w in
      (ok, record t { buf_size = size; channel_timeout_ms = timeout_ms; allocated = ok }, w')

  abbrev pub transport_pump : (ℕ → env.World → Bool × env.World) → PumpApi env api
  transport_pump allocate = record {
    Transport = TransportPump;
    init = init allocate;
    pump_all = λ m t w. let (any, m', t', w') = pump_all m t w in (m', t', w');
    consume_close_events = λ t. consume_close_events 32 t;
    session_degraded = λ t. t.session_degraded;
    clear_session_degraded = clear_session_degraded;
  }
