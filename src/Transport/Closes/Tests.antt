-- ===== src/Transport/Closes/Tests.antt =====
-- `checkCloses` at a table with a draining slot, at the time 50000.
use esp_reverse_tunneling_li.Prelude.{
  ℕ, ◌≤◌, ◌≡◌, refl, ◌≢◌, true, false, Option, none, some, List, [], ◌∷◌, arith,
}
use esp_reverse_tunneling_li.Breaker.{initial}
use esp_reverse_tunneling_li.DataRing.{DataRing}
use esp_reverse_tunneling_li.Channel.{ChannelSlot, draining, blank_slot}
use esp_reverse_tunneling_li.Channel.Manager.{Manager}
use esp_reverse_tunneling_li.Channel.Counts.{IsValid, SlotIsValid}
use esp_reverse_tunneling_li.Transport.Closes.{Verdict, verdict, first_step, check_closes}
use esp_reverse_tunneling_li.Transport.Closes.Timely.{AllTimely}
use esp_reverse_tunneling_li.Transport.Closes.Deadline.{check_closes-AllTimely}
use esp_reverse_tunneling_li.Transport.Closes.Validity.{check_closes-IsValid}
use esp_reverse_tunneling_li.Transport.Closes.Verdicts.{verdict-finalize}
use esp_reverse_tunneling_li.Examples.{Fifo, fifo, fifo_laws, World, demo, calm, six}

-- Its close began at `start`, and its end was sent at 49000.
abbrev draining_slot : ℕ → Option (DataRing Fifo) → ChannelSlot Fifo
draining_slot start ring = record (blank_slot Fifo 0) {
  active = true;
  state = draining;
  ssh_channel = some 3;
  local_socket = some 3;
  to_local = ring;
  close_start_ms = start;
  eof_sent_ms = 49000;
}

abbrev table : Manager Fifo
table = record {
  slots = draining_slot 10000 (some six) ∷ blank_slot Fifo 0 ∷ [];
  active_count = 1;
  ring_buffer_size = 64;
  channel_timeout_ms = 1000;
  completed_bytes_received = 0;
  completed_bytes_sent = 0;
  completed_bytes_dropped = 0;
  breaker = initial;
}

slot-SlotIsValid : SlotIsValid demo fifo (draining_slot 10000 (some six))
slot-SlotIsValid = ground arith

idle-SlotIsValid : SlotIsValid demo fifo (blank_slot Fifo 0)
idle-SlotIsValid = ground arith

table-IsValid : IsValid demo fifo table
table-IsValid = record { counted = refl; each = (slot-SlotIsValid, (idle-SlotIsValid, tt)) }

abbrev late : World
late = record calm { clock = 50000 }

check_closes-IsValid_example :
    IsValid demo fifo (check_closes demo fifo 1000 table false [] late).channels
check_closes-IsValid_example = check_closes-IsValid demo fifo 1000 table false [] late table-IsValid

finalized : verdict demo fifo 50000 (draining_slot 45000 none) ≡ Verdict.finalize
unfolding verdict
finalized = refl

verdict-finalize_example :
    (◌≡◌ {A = List ℕ} [] [])
    × (◌≡◌ {A = List ℕ} [] [])
    × ((draining_slot 45000 none).eof_sent_ms ≢ 0)
    × (200 ≤ 1000)
verdict-finalize_example =
    verdict-finalize demo fifo fifo_laws 50000 (draining_slot 45000 none) tt tt finalized
      (omega arith) (omega arith)

check_closes-AllTimely_example :
    let first = first_step demo fifo 1000 table false [] late in
    let now = (demo.millis first.world).0 in
    AllTimely demo fifo now (check_closes demo fifo 1000 table false [] late).channels.slots
check_closes-AllTimely_example = check_closes-AllTimely demo fifo 1000 table false [] late
