-- ===== src/Transport.antt =====
-- TransportPump (src/ssh_transport.h, src/ssh_transport.cpp): the parts that its phases share. A phase
-- works on one slot at a time, and a step on a slot is a function on the slot, the running counters of
-- the pump, and the world. `rxBuf_` and `txBuf_` are the same block and hold nothing between the calls
-- that fill and empty it, so only its size is kept.
pub mod Restore
pub mod Intake
pub mod Deliver
pub mod Upload
pub mod Closes
pub mod Turn
mod Tests
use esp_reverse_tunneling_li.Prelude.{ℕ, ◌-◌, List, leb, ◌==◌, if◌then◌else◌, length, add32}
use esp_reverse_tunneling_li.DataRing
use esp_reverse_tunneling_li.DataRing.{DataRing}
use esp_reverse_tunneling_li.RingApi.{RingApi}
use esp_reverse_tunneling_li.Env.{Env}
use esp_reverse_tunneling_li.Channel.{Slot}

abbrev pub backpressure_high_pct : ℕ
backpressure_high_pct = 75

abbrev pub backpressure_low_pct : ℕ
backpressure_low_pct = 25

abbrev pub max_write_per_channel : ℕ
max_write_per_channel = 16384

abbrev pub eagain_stall_timeout_ms : ℕ
eagain_stall_timeout_ms = 3000

abbrev pub local_send_stall_timeout_ms : ℕ
local_send_stall_timeout_ms = 8000

-- The state that a step on one slot works on: the slot, `lastBytesMoved_`, and the world.
pub record Pump (env : Env) (api : RingApi) : Type 0 where
  pub slot : Slot env api
  pub moved : ℕ
  pub world : env.World

module _ (api : RingApi) where
  -- `restoreUnsent`: back in front, or, if that is refused, at the end. The result is the count kept.
  unfoldable pub restore_unsent : DataRing api.Ring → List ℕ → ℕ × DataRing api.Ring
  restore_unsent d bytes =
      let (restored, d') = DataRing.write_to_front api d bytes in
      if length bytes == 0
      then (0, d)
      else if restored == length bytes
      then (restored, d')
      else DataRing.write api d' bytes

-- `accountRestoreDrop`: the count of dropped bytes afterwards.
unfoldable pub account_restore_drop : ℕ → ℕ → ℕ → ℕ
account_restore_drop dropped expected restored =
    if leb expected restored then dropped else add32 dropped (expected - restored)
