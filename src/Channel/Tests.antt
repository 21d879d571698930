-- ===== src/Channel/Tests.antt =====
-- The manager's theorems at a table of two slots, one of them in use.
use esp_reverse_tunneling_li.Prelude.{ℕ, ◌%◌, ◌≤◌, ◌≡◌, ◌≢◌, false, some, get_elem?, word, sub32}
use esp_reverse_tunneling_li.Channel.{Slot}
use esp_reverse_tunneling_li.Channel.Manager.{allocate_slot, finalize_close}
use esp_reverse_tunneling_li.Channel.Totals.{finalize_close_totals}
use esp_reverse_tunneling_li.Channel.Manager.{total_bytes_received, total_bytes_sent}
use esp_reverse_tunneling_li.Channel.Counts.{IsValid, finalize_close-IsValid, allocate_slot_lem}
use esp_reverse_tunneling_li.Examples.{fifo, demo, calm}
use esp_reverse_tunneling_li.Examples.Managers.{two, two-IsValid}

finalize_close-IsValid_example : IsValid demo fifo (finalize_close demo fifo two 0 calm).1
finalize_close-IsValid_example = finalize_close-IsValid demo fifo two 0 calm two-IsValid

allocate_slot_lem_example :
    let (r, m', _) = allocate_slot demo fifo two calm in
    IsValid demo fifo m'
    × ((i : ℕ)
        → r ≡ some i
        → (m' ≡ two)
          × ((s : Slot demo fifo) × (get_elem? two.slots i ≡ some s)
              × (s.active ≡ false)
              × (s.last_finalize_ms ≢ 0 → 50 ≤ sub32 (demo.millis calm).0 s.last_finalize_ms)))
allocate_slot_lem_example = allocate_slot_lem demo fifo two calm two-IsValid

finalize_close_totals_example :
    let m' = (finalize_close demo fifo two 0 calm).1 in
    (total_bytes_received demo fifo m' % word ≡ total_bytes_received demo fifo two % word)
    × (total_bytes_sent demo fifo m' % word ≡ total_bytes_sent demo fifo two % word)
finalize_close_totals_example = finalize_close_totals demo fifo two 0 calm
