-- ===== src/Channel/Endpoint.antt =====
-- `connectToLocalEndpoint` (src/ssh_channel.cpp) and what `bindChannel` asks of the allocator. The socket
-- calls of lwIP are parameters; so is `NetworkOptimizer::optimizeSocket`, which only sets options.
use esp_reverse_tunneling_li.Prelude.{
  ℕ, ◌%◌, ◌≡◌, refl, inl, inr, Bool, true, false, Option, none, some, List, [], ◌∷◌, ◌==◌,
  if◌then◌else◌, Bool-cases,
}
use esp_reverse_tunneling_li.Env.{Env}
use esp_reverse_tunneling_li.Config.{TunnelConfig}
use esp_reverse_tunneling_li.Ledger.{opened, closed, Ledger, Does, Does-trans}

-- `connect` on a non-blocking socket: 0, EINPROGRESS, another error.
pub data ConnectResult : Type 0 where
  connected in_progress refused : ConnectResult

-- `select` with one socket: an error, no writable socket in time, writable.
pub data SelectResult : Type 0 where
  select_error timed_out writable : SelectResult

pub record EndpointApi (env : Env) : Type 0 where
  pub socket_open : env.World → Option ℕ × env.World
  -- `inet_pton(AF_INET, host)`: the address of a valid host
  pub inet_pton : List ℕ → Option ℕ
  pub get_flags : ℕ → env.World → Option ℕ × env.World
  -- `fcntl(fd, F_SETFL, flags | O_NONBLOCK)`
  pub set_nonblock : ℕ → ℕ → env.World → Bool × env.World
  pub connect : ℕ → ℕ → ℕ → env.World → ConnectResult × env.World
  pub select_write : ℕ → ℕ → env.World → SelectResult × env.World
  -- `getsockopt(SO_ERROR)`: the pending error, 0 for none
  pub socket_error : ℕ → env.World → Option ℕ × env.World
  pub optimize_socket : ℕ → env.World → env.World
  -- `heap_caps_get_free_size` and `heap_caps_get_largest_free_block`, PSRAM and all memory
  pub free_psram : env.World → ℕ
  pub largest_psram : env.World → ℕ
  pub free_heap : env.World → ℕ
  pub largest_heap : env.World → ℕ
  -- The allocations of a ring of so many bytes, as `DataRing.construct` takes them.
  pub alloc_ring : ℕ → env.World → Bool × Bool × Option (List ℕ) × env.World

-- Only `socket` opens a socket, and none of these calls closes one or frees a channel.
pub record EndpointLaws (env : Env) (ends : EndpointApi env) (led : Ledger env) : Type 0 where
  pub socket_open_some :
      (w : env.World) (fd : ℕ)
      → (ends.socket_open w).0 ≡ some fd
      → Does env led.count w (opened fd ∷ []) (ends.socket_open w).1
  pub socket_open_none :
      (w : env.World)
      → (ends.socket_open w).0 ≡ none
      → Does env led.count w [] (ends.socket_open w).1
  pub get_flags_does : (fd : ℕ) (w : env.World) → Does env led.count w [] (ends.get_flags fd w).1
  pub set_nonblock_does :
      (fd flags : ℕ) (w : env.World) → Does env led.count w [] (ends.set_nonblock fd flags w).1
  pub connect_does :
      (fd address port : ℕ) (w : env.World)
      → Does env led.count w [] (ends.connect fd address port w).1
  pub select_does :
      (fd ms : ℕ) (w : env.World) → Does env led.count w [] (ends.select_write fd ms w).1
  pub socket_error_does :
      (fd : ℕ) (w : env.World) → Does env led.count w [] (ends.socket_error fd w).1
  pub optimize_does : (fd : ℕ) (w : env.World) → Does env led.count w [] (ends.optimize_socket fd w)
  pub alloc_does : (n : ℕ) (w : env.World) → Does env led.count w [] (ends.alloc_ring n w).3

abbrev pub connect_wait_ms : ℕ
connect_wait_ms = 200

module _ (env : Env) (ends : EndpointApi env) where
  -- `close(localSocket); return -1;`
  give_up : ℕ → env.World → Option ℕ × env.World
  give_up fd w = (none, env.socket_close fd w)

  -- The end of the function: the options, and the socket as the result.
  keep : ℕ → env.World → Option ℕ × env.World
  keep fd w = (some fd, ends.optimize_socket fd w)

  -- The check of `SO_ERROR` once the socket is writable.
  after_error : ℕ → Option ℕ × env.World → Option ℕ × env.World
  after_error fd (none, w) = give_up fd w
  after_error fd (some error, w) = if error == 0 then keep fd w else give_up fd w

  after_select : ℕ → SelectResult × env.World → Option ℕ × env.World
  after_select fd (select_error, w) = give_up fd w
  after_select fd (timed_out, w) = give_up fd w
  after_select fd (writable, w) = after_error fd (ends.socket_error fd w)

  after_connect : ℕ → ConnectResult × env.World → Option ℕ × env.World
  after_connect fd (connected, w) = keep fd w
  after_connect fd (in_progress, w) = after_select fd (ends.select_write fd connect_wait_ms w)
  after_connect fd (refused, w) = give_up fd w

  -- From `fcntl(F_SETFL)` on.
  after_set : ℕ → ℕ → ℕ → Bool × env.World → Option ℕ × env.World
  after_set fd address port (false, w) = give_up fd w
  after_set fd address port (true, w) = after_connect fd (ends.connect fd address port w)

  after_flags : ℕ → ℕ → ℕ → Option ℕ × env.World → Option ℕ × env.World
  after_flags fd address port (none, w) = give_up fd w
  after_flags fd address port (some flags, w) =
      after_set fd address port (ends.set_nonblock fd flags w)

  -- From `inet_pton` on.
  after_address : ℕ → ℕ → Option ℕ → env.World → Option ℕ × env.World
  after_address fd port none w = give_up fd w
  after_address fd port (some address) w = after_flags fd address port (ends.get_flags fd w)

  after_socket : TunnelConfig → Option ℕ × env.World → Option ℕ × env.World
  after_socket mapping (none, w) = (none, w)
  after_socket mapping (some fd, w) =
      after_address fd (mapping.local_port % 65536) (ends.inet_pton mapping.local_host) w

  unfoldable pub connect_to_local_endpoint : TunnelConfig → env.World → Option ℕ × env.World
  unfolding after_socket after_address after_flags after_set after_connect after_select after_error
      keep give_up
  connect_to_local_endpoint mapping w = after_socket mapping (ends.socket_open w)

module _ (env : Env) (ends : EndpointApi env) (led : Ledger env)
    (laws : EndpointLaws env ends led) where
  -- What becomes of a socket that is open: it is the result, or it is closed.
  pub data Settled (fd : ℕ) (w : env.World) : Option ℕ × env.World → Type 0 where
    kept : {w' : env.World} → Does env led.count w [] w' → Settled fd w (some fd, w')
    lost : {w' : env.World} → Does env led.count w (closed fd ∷ []) w' → Settled fd w (none, w')

  after_quiet :
      {fd : ℕ} {w w' : env.World} {r : Option ℕ × env.World}
      → Does env led.count w [] w'
      → Settled fd w' r
      → Settled fd w r
  after_quiet a (kept b) = kept (Does-trans env led.count a b)
  after_quiet a (lost b) = lost (Does-trans env led.count a b)

  give_up_lem : (fd : ℕ) (w : env.World) → Settled fd w (give_up env ends fd w)
  unfolding give_up
  give_up_lem fd w = lost (led.socket_close_does fd w)

  keep_lem : (fd : ℕ) (w : env.World) → Settled fd w (keep env ends fd w)
  unfolding keep
  keep_lem fd w = kept (laws.optimize_does fd w)

  after_error_lem : (fd : ℕ) (r : Option ℕ × env.World) → Settled fd r.1 (after_error env ends fd r)
  unfolding after_error
  after_error_lem fd (none, w) = give_up_lem fd w
  after_error_lem fd (some error, w) = elim (Bool-cases (error == 0)) [
    | inl t ↦ rw t (keep_lem fd w)
    | inr t ↦ rw t (give_up_lem fd w)
  ]

  after_select_lem :
      (fd : ℕ) (r : SelectResult × env.World) → Settled fd r.1 (after_select env ends fd r)
  unfolding after_select
  after_select_lem fd (select_error, w) = give_up_lem fd w
  after_select_lem fd (timed_out, w) = give_up_lem fd w
  after_select_lem fd (writable, w) =
      after_quiet (laws.socket_error_does fd w) (after_error_lem fd (ends.socket_error fd w))

  after_connect_lem :
      (fd : ℕ) (r : ConnectResult × env.World) → Settled fd r.1 (after_connect env ends fd r)
  unfolding after_connect
  after_connect_lem fd (connected, w) = keep_lem fd w
  after_connect_lem fd (in_progress, w) =
      after_quiet (laws.select_does fd connect_wait_ms w)
        (after_select_lem fd (ends.select_write fd connect_wait_ms w))
  after_connect_lem fd (refused, w) = give_up_lem fd w

  after_set_lem :
      (fd address port : ℕ) (r : Bool × env.World)
      → Settled fd r.1 (after_set env ends fd address port r)
  unfolding after_set
  after_set_lem fd address port (false, w) = give_up_lem fd w
  after_set_lem fd address port (true, w) =
      after_quiet (laws.connect_does fd address port w)
        (after_connect_lem fd (ends.connect fd address port w))

  after_flags_lem :
      (fd address port : ℕ) (r : Option ℕ × env.World)
      → Settled fd r.1 (after_flags env ends fd address port r)
  unfolding after_flags
  after_flags_lem fd address port (none, w) = give_up_lem fd w
  after_flags_lem fd address port (some flags, w) =
      after_quiet (laws.set_nonblock_does fd flags w)
        (after_set_lem fd address port (ends.set_nonblock fd flags w))

  after_address_lem :
      (fd port : ℕ) (address : Option ℕ) (w : env.World)
      → Settled fd w (after_address env ends fd port address w)
  unfolding after_address
  after_address_lem fd port none w = give_up_lem fd w
  after_address_lem fd port (some address) w =
      after_quiet (laws.get_flags_does fd w) (after_flags_lem fd address port (ends.get_flags fd w))

  -- How the function ends: no socket was opened, or the one that it opened is the result, or that one
  -- was closed.
  pub data Ends (w : env.World) : Option ℕ × env.World → Type 0 where
    unopened : {w' : env.World} → Does env led.count w [] w' → Ends w (none, w')
    connected_to :
        (fd : ℕ) {w' : env.World} → Does env led.count w (opened fd ∷ []) w' → Ends w (some fd, w')
    closed_again :
        (fd : ℕ) {w' : env.World}
        → Does env led.count w (opened fd ∷ closed fd ∷ []) w'
        → Ends w (none, w')

  from_open :
      {fd : ℕ} {w w' : env.World} {r : Option ℕ × env.World}
      → Does env led.count w (opened fd ∷ []) w'
      → Settled fd w' r
      → Ends w r
  from_open {fd} a (kept b) = connected_to fd (Does-trans env led.count a b)
  from_open {fd} a (lost b) = closed_again fd (Does-trans env led.count a b)

  after_socket_lem :
      (mapping : TunnelConfig) (w w' : env.World) (o : Option ℕ)
      → ((fd : ℕ) → o ≡ some fd → Does env led.count w (opened fd ∷ []) w')
      → (o ≡ none → Does env led.count w [] w')
      → Ends w (after_socket env ends mapping (o, w'))
  unfolding after_socket
  after_socket_lem mapping w w' none f g = unopened (g refl)
  after_socket_lem mapping w w' (some fd) f g =
      from_open (f fd refl)
        (after_address_lem fd (mapping.local_port % 65536) (ends.inet_pton mapping.local_host) w')

  -- Whatever the socket calls answer, a socket that `connectToLocalEndpoint` opens is its result, or the
  -- function has closed it, once, and reports a failure. It closes no other socket and frees no channel.
  pub connect_to_local_endpoint_lem :
      (mapping : TunnelConfig) (w : env.World)
      → Ends w (connect_to_local_endpoint env ends mapping w)
  unfolding connect_to_local_endpoint
  connect_to_local_endpoint_lem mapping w =
      after_socket_lem mapping w (ends.socket_open w).1 (ends.socket_open w).0
        (laws.socket_open_some w) (laws.socket_open_none w)
