-- ===== src/Transport/Turn/Tests.antt =====
-- `pumpAll` on a table of three slots.
use esp_reverse_tunneling_li.Prelude.{◌≡◌, refl, true, false, []}
use esp_reverse_tunneling_li.Channel.Counts.{IsValid}
use esp_reverse_tunneling_li.Transport.Turn.{TransportPump, pump_all, has_any_backpressure}
use esp_reverse_tunneling_li.Transport.Turn.Validity.{pump_all-IsValid}
use esp_reverse_tunneling_li.Examples.{fifo, demo, calm}
use esp_reverse_tunneling_li.Examples.Managers.{two, two-IsValid}

-- Its next turn starts at the second slot.
abbrev turned : TransportPump
turned = record {
  attached = true;
  allocated = true;
  buf_size = 2;
  channel_timeout_ms = 1000;
  round_robin_offset = 1;
  last_bytes_moved = 0;
  close_events = [];
  session_degraded = false;
}

without_buffer : (pump_all demo fifo two (record turned { allocated = false }) calm).0 ≡ false
unfolding pump_all
without_buffer = refl

nothing_paused : has_any_backpressure demo fifo two.slots ≡ false
unfolding has_any_backpressure
nothing_paused = refl

pump_all-IsValid_example :
    let (any, m', t', w') = pump_all demo fifo two turned calm in IsValid demo fifo m'
pump_all-IsValid_example = pump_all-IsValid demo fifo two turned calm two-IsValid
