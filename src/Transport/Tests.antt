-- ===== src/Transport/Tests.antt =====
-- The pump's theorems at concrete slots: a socket that takes five bytes of six.
use esp_reverse_tunneling_li.Prelude.{◌≡◌, refl, true, false, some, arith}
use esp_reverse_tunneling_li.Channel.{ChannelSlot, open_state, blank_slot}
use esp_reverse_tunneling_li.Transport.{Pump}
use esp_reverse_tunneling_li.Transport.Deliver.{deliver}
use esp_reverse_tunneling_li.Transport.Deliver.Order as Deliver
use esp_reverse_tunneling_li.Transport.Intake.{intake}
use esp_reverse_tunneling_li.Transport.Intake.Order.{Takes, intake-Takes}
use esp_reverse_tunneling_li.Transport.Upload.{upload, write_loop}
use esp_reverse_tunneling_li.Transport.Upload.Order.{Moves}
use esp_reverse_tunneling_li.Transport.Upload.Sending.{write_loop_fuel}
use esp_reverse_tunneling_li.Transport.Upload.Whole.{upload-Moves}
use esp_reverse_tunneling_li.Examples.{
  Fifo, fifo, fifo_laws, demo, demo_laws, calm, six, six-IsValid,
}

abbrev busy_slot : ChannelSlot Fifo
busy_slot = record (blank_slot Fifo 0) {
  active = true;
  state = open_state;
  ssh_channel = some 3;
  local_socket = some 3;
  to_local = some six;
}

abbrev pump : Pump demo fifo
pump = record { slot = busy_slot; moved = 0; world = calm }

deliver-Delivers_example :
    Deliver.Delivers demo fifo 4 demo_laws fifo_laws 3 six pump (deliver demo fifo 4 pump)
deliver-Delivers_example =
    Deliver.deliver-Delivers demo fifo 4 demo_laws fifo_laws pump 3 six refl refl refl six-IsValid
      (omega arith) (omega arith)

abbrev full_slot : ChannelSlot Fifo
full_slot = record (blank_slot Fifo 0) {
  active = true;
  state = open_state;
  ssh_channel = some 3;
  local_socket = some 3;
  to_remote = some six;
}

abbrev full_pump : Pump demo fifo
full_pump = record { slot = full_slot; moved = 0; world = calm }

upload-Moves_example :
    Moves demo fifo 4 demo_laws fifo_laws 3 3 six full_pump (upload demo fifo 4 full_pump)
upload-Moves_example =
    upload-Moves demo fifo 4 demo_laws fifo_laws 3 3 full_pump six refl refl refl refl six-IsValid
      (omega arith) (omega arith)

write_loop_fuel_example :
    write_loop demo fifo 4 20 16 3 six full_pump ≡ write_loop demo fifo 4 100 16 3 six full_pump
write_loop_fuel_example =
    write_loop_fuel demo fifo 4 demo_laws fifo_laws 3 3 20 100 16 six full_pump (omega arith)
      (omega arith)

intake-Takes_example :
    Takes demo fifo 4 demo_laws fifo_laws 3 six pump (intake demo fifo 4 (false, pump)).1
intake-Takes_example =
    intake-Takes demo fifo 4 demo_laws fifo_laws 3 pump six false refl refl refl refl six-IsValid
