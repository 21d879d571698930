-- ===== src/Examples/Managers.antt =====
-- A manager with one slot in use and two idle ones, and a mapping.
use esp_reverse_tunneling_li.Prelude.{ℕ, refl, true, some, [], ◌∷◌, arith}
use esp_reverse_tunneling_li.Breaker.{initial}
use esp_reverse_tunneling_li.Config.{TunnelConfig}
use esp_reverse_tunneling_li.Channel.{ChannelSlot, open_state, blank_slot}
use esp_reverse_tunneling_li.Channel.Manager.{Manager}
use esp_reverse_tunneling_li.Channel.Counts.{IsValid, SlotIsValid}
use esp_reverse_tunneling_li.Examples.{Fifo, fifo, demo, six}

abbrev pub used : ChannelSlot Fifo
used = record (blank_slot Fifo 0) {
  active = true;
  state = open_state;
  ssh_channel = some 3;
  local_socket = some 3;
  to_local = some six;
  last_activity = 40;
}

abbrev pub two : Manager Fifo
two = record {
  slots = used ∷ blank_slot Fifo 90 ∷ blank_slot Fifo 20 ∷ [];
  active_count = 1;
  ring_buffer_size = 64;
  channel_timeout_ms = 1000;
  completed_bytes_received = 7;
  completed_bytes_sent = 8;
  completed_bytes_dropped = 9;
  breaker = initial;
}

used-SlotIsValid : SlotIsValid demo fifo used
used-SlotIsValid = ground arith

blank-SlotIsValid : (n : ℕ) → SlotIsValid demo fifo (blank_slot Fifo n)
blank-SlotIsValid n = ground arith

pub two-IsValid : IsValid demo fifo two
two-IsValid = record {
  counted = refl;
  each = (used-SlotIsValid, (blank-SlotIsValid 90, (blank-SlotIsValid 20, tt)));
}

abbrev pub web : TunnelConfig
web = record {
  remote_bind_host = 48 ∷ [];
  remote_bind_port = 8080;
  local_host = 49 ∷ [];
  local_port = 80;
}
