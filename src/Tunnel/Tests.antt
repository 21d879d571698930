-- ===== src/Tunnel/Tests.antt =====
-- The tunnel on a session that has channels to accept, with a lock that is had or not; and the theorems
-- there.
use esp_reverse_tunneling_li.Prelude.{
  ℕ, ◌+◌, ◌-◌, ◌*◌, ◌^◌, min, ◌≡◌, Bool, true, false, none, some, [], ◌∷◌, arith, ◌==◌,
  if◌then◌else◌,
}
use esp_reverse_tunneling_li.TunnelApi.{TunnelApi, TunnelLaws}
use esp_reverse_tunneling_li.Config.{default_server, default_connection}
use esp_reverse_tunneling_li.Tunnel.{connected, error_state, PendingChannel, bind, close, SshTunnel}
use esp_reverse_tunneling_li.Tunnel.Queues.{drain_pending_queue}
use esp_reverse_tunneling_li.Tunnel.Teardown.{enter_error_state, reconnect_delay}
use esp_reverse_tunneling_li.Tunnel.Accept.{place}
use esp_reverse_tunneling_li.Tunnel.Loop.{accept_loop, accept_all, loop}
use esp_reverse_tunneling_li.Tunnel.Drains.{Conserves, drain_pending_queue-Conserves}
use esp_reverse_tunneling_li.Tunnel.Fates.{Fate, place-Fate}
use esp_reverse_tunneling_li.Tunnel.Idle.{Empty, enter_error_state_lem}
use esp_reverse_tunneling_li.Tunnel.Valid.{IsSound, Holds, accept_all_lem}
use esp_reverse_tunneling_li.Tunnel.Machine.{LoopStep, loop-LoopStep}
use esp_reverse_tunneling_li.Tunnel.Calls.{
  call_connect, call_disconnect, call_request, call_loop, run, Rests, run-Rests,
}
use esp_reverse_tunneling_li.Tunnel.Backoff.{reconnect_delay_lem}
use esp_reverse_tunneling_li.Examples.{fifo, demo, calm, demo_ledger, demo_ends, demo_ends_laws}
use esp_reverse_tunneling_li.Examples.Managers.{two, two-IsValid, web}

-- A session is the count of channels that it will still accept; each is numbered by what is left.
abbrev demo_host : TunnelApi demo fifo
demo_host = record {
  session = record {
    Session = ℕ;
    init = λ s w. (true, s, w);
    connect = λ c s w. (true, 3, w);
    disconnect = λ s w. (0, w);
    is_connected = λ s. true;
    check_connection = λ s w. (true, w);
    send_keepalive = λ s w. (true, s, w);
    accept_channel = λ s w. (if s == 0 then none else some (s + 10, web), s - 1, w);
    has_fatal_accept_failure = λ s. false;
  };
  pump = record {
    Transport = Bool;
    init = λ n ms p w. (true, p, w);
    pump_all = λ m p w. (m, p, w);
    consume_close_events = λ p. ([], p);
    session_degraded = λ p. p;
    clear_session_degraded = λ p. false;
  };
  ends = demo_ends;
  take_stats = λ w. (true, w);
}

demo_host_laws : TunnelLaws demo fifo demo_host
demo_host_laws = record { pump_all-IsValid = λ m p w v. v }

abbrev waiting : ℕ → PendingChannel
waiting c = record { channel = some c; mapping = web; queued_at_ms = 90; action = bind }

abbrev leaving : ℕ → PendingChannel
leaving c = record { channel = some c; mapping = web; queued_at_ms = 90; action = close }

-- Connected, with two more channels to accept, one that waits for a slot and one that is to be closed.
abbrev busy : SshTunnel demo fifo demo_host
busy = record {
  session = 2;
  channels = two;
  transport = false;
  config = record {
    ssh_config = default_server;
    tunnel_mappings = web ∷ [];
    connection_config = default_connection;
    mutex = true;
  };
  state = connected;
  last_keep_alive = 0;
  last_connection_attempt = 0;
  reconnect_attempts = 0;
  socket_health_failures = 0;
  bytes_received = 0;
  bytes_sent = 0;
  bytes_dropped = 0;
  pending = waiting 20 ∷ leaving 21 ∷ [];
  deferred = leaving 22 ∷ [];
  events = [];
}

busy-IsSound : IsSound {env = demo} {api = fifo} {host = demo_host} busy
busy-IsSound = record {
  valid = two-IsValid;
  room = record { pending_room = omega arith; deferred_room = omega arith };
}

drain_pending_queue-Conserves_example :
    let (t', w') = drain_pending_queue demo fifo demo_host busy calm in
    Conserves demo fifo demo_host demo_ledger demo_ends_laws busy calm t' w'
drain_pending_queue-Conserves_example =
    drain_pending_queue-Conserves demo fifo demo_host demo_ledger demo_ends_laws busy calm
      two-IsValid

place-Fate_example :
    Fate demo fifo demo_host demo_ledger demo_ends_laws 30 web busy calm
      (place demo fifo demo_host busy 30 web calm)
place-Fate_example =
    place-Fate demo fifo demo_host demo_ledger demo_ends_laws 30 web busy calm two-IsValid

enter_error_state_lem_example :
    let t' = (enter_error_state demo fifo demo_host busy calm).0 in
    (t'.state ≡ error_state) × Empty demo fifo demo_host t' × (t'.socket_health_failures ≡ 0)
enter_error_state_lem_example = enter_error_state_lem demo fifo demo_host busy calm two-IsValid

accept_all_lem_example :
    ((accept_loop demo fifo demo_host 4 busy calm).0 ≡ false)
    × Holds {env = demo} {api = fifo} {host = demo_host} busy
        (accept_all demo fifo demo_host busy calm).0
accept_all_lem_example =
    accept_all_lem demo fifo demo_host demo_ledger demo_ends_laws busy calm busy-IsSound

loop-LoopStep_example :
    let t' = (loop demo fifo demo_host busy calm).0 in
    IsSound {env = demo} {api = fifo} {host = demo_host} t' × LoopStep connected t'.state
loop-LoopStep_example =
    loop-LoopStep demo fifo demo_host demo_ledger demo_ends_laws demo_host_laws busy calm
      busy-IsSound

busy-Rests : Rests demo fifo demo_host busy
busy-Rests = record { sound = busy-IsSound; settled = λ e. cc }

run-Rests_example :
    Rests demo fifo demo_host
      (run demo fifo demo_host
        (call_loop ∷ call_disconnect ∷ call_request ∷ call_loop ∷ call_connect ∷ [])
        busy
        calm).0
run-Rests_example =
    run-Rests demo fifo demo_host demo_ledger demo_ends_laws demo_host_laws
      (call_loop ∷ call_disconnect ∷ call_request ∷ call_loop ∷ call_connect ∷ []) busy calm
      busy-Rests

reconnect_delay_lem_example : reconnect_delay 5000 3 ≡ min (5000 * 2 ^ 3) 60000
reconnect_delay_lem_example = reconnect_delay_lem 5000 3 (omega arith)
