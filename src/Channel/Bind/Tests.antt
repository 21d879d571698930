-- ===== src/Channel/Bind/Tests.antt =====
-- `bindChannel` at a table with one slot in use, and the theorems there.
use esp_reverse_tunneling_li.Prelude.{◌≡◌, refl, true, false, not, ◌&&◌, ◌==◌, get_elem?}
use esp_reverse_tunneling_li.MemoryGuard
use esp_reverse_tunneling_li.DataRing
use esp_reverse_tunneling_li.Examples.Managers.{two, web}
use esp_reverse_tunneling_li.Channel.Endpoint.{connect_to_local_endpoint, EndpointApi, timed_out}
use esp_reverse_tunneling_li.Channel.Bind.{bind_channel}
use esp_reverse_tunneling_li.Channel.Bind.Verdict.{
  is_idle, reached, Outcome, bind_channel_verdict, bind_channel_lem,
}
use esp_reverse_tunneling_li.Examples.{fifo, demo, calm, demo_ledger, demo_ends, demo_ends_laws}

-- An endpoint that does not answer in time.
abbrev slow_ends : EndpointApi demo
slow_ends = record demo_ends { select_write = λ fd ms w. (timed_out, w) }

bound_idle : (bind_channel demo fifo demo_ends two 2 5 web calm).0 ≡ true
unfolding bind_channel connect_to_local_endpoint MemoryGuard.has_capacity MemoryGuard.requirements
    DataRing.construct
bound_idle = refl

busy_slot : (bind_channel demo fifo demo_ends two 0 5 web calm).0 ≡ false
unfolding bind_channel
busy_slot = refl

no_such_slot : (bind_channel demo fifo demo_ends two 3 5 web calm).0 ≡ false
unfolding bind_channel
no_such_slot = refl

slow_endpoint : (bind_channel demo fifo slow_ends two 2 5 web calm).0 ≡ false
unfolding bind_channel connect_to_local_endpoint
slow_endpoint = refl

bind_channel_verdict_example : (bind_channel demo fifo demo_ends two 2 5 web calm).0 ≡ (
    is_idle demo fifo demo_ends (get_elem? two.slots 2)
    && (reached demo fifo demo_ends 64 (connect_to_local_endpoint demo demo_ends web calm)
        && not (64 == 0)))
bind_channel_verdict_example = bind_channel_verdict demo fifo demo_ends two 2 5 web calm

bind_channel_lem_example :
    Outcome demo fifo demo_ends demo_ledger demo_ends_laws two 2 5 calm
      (bind_channel demo fifo demo_ends two 2 5 web calm)
bind_channel_lem_example =
    bind_channel_lem demo fifo demo_ends demo_ledger demo_ends_laws two 2 5 web calm
