-- ===== src/Channel/Bind.antt =====
-- `bindChannel` (src/ssh_channel.cpp): an accepted channel gets a local socket, two rings and a slot.
-- The host names that `snapshotEndpoint` copies are only logged, and so left out.
pub mod Valid
pub mod Verdict
mod Tests
use esp_reverse_tunneling_li.Prelude.{
  ℕ, ◌+◌, Bool, true, false, ◌||◌, Option, none, some, ltb, ◌==◌, if◌then◌else◌, get_elem?, set,
}
use esp_reverse_tunneling_li.Env.{Env}
use esp_reverse_tunneling_li.RingApi.{RingApi}
use esp_reverse_tunneling_li.Breaker
use esp_reverse_tunneling_li.MemoryGuard
use esp_reverse_tunneling_li.DataRing
use esp_reverse_tunneling_li.DataRing.{DataRing, prepend_cap}
use esp_reverse_tunneling_li.Config.{TunnelConfig}
use esp_reverse_tunneling_li.Channel.{open_state, Slot, reset_slot}
use esp_reverse_tunneling_li.Channel.Manager.{Channels}
use esp_reverse_tunneling_li.Channel.Endpoint.{EndpointApi, connect_to_local_endpoint}

-- The default of the third parameter of `requirements`.
abbrev pub reserve_bytes : ℕ
reserve_bytes = 8192

module _ (env : Env) (api : RingApi) (ends : EndpointApi env) where
  -- The heap guard: PSRAM, if there is any, must have one block for the whole budget.
  unfoldable pub has_memory : ℕ → env.World → Bool
  has_memory ring_bytes w =
      let required = MemoryGuard.requirements ring_bytes prepend_cap reserve_bytes in
      if ltb 0 (ends.free_psram w)
      then MemoryGuard.has_contiguous_capacity (ends.largest_psram w) required
      else MemoryGuard.has_capacity (ends.free_heap w) (ends.largest_heap w) required

  -- `new DataRingBuffer(ringBufferSize_, tag)`
  unfoldable pub new_ring : ℕ → env.World → DataRing api.Ring × env.World
  new_ring n w =
      let (storage_ok, struct_ok, prepend_storage, w') = ends.alloc_ring n w in
      (DataRing.construct api n storage_ok struct_ok prepend_storage, w')

  -- The slot after `resetSlot`, the writes behind it and `snapshotEndpoint`.
  unfoldable pub bound_slot :
      Slot env api → ℕ → ℕ → TunnelConfig → DataRing api.Ring → DataRing api.Ring → ℕ → Slot env api
  bound_slot s channel fd mapping to_local to_remote now = record (reset_slot env api s) {
    ssh_channel = some channel;
    local_socket = some fd;
    active = true;
    state = open_state;
    to_local = some to_local;
    to_remote = some to_remote;
    last_activity = now;
    last_successful_write = now;
    last_successful_read = now;
    remote_port = mapping.remote_bind_port;
    local_port = mapping.local_port;
  }

  -- From the allocation of the rings on, with the slot that is filled.
  unfoldable pub bind_rings :
      Channels env api
      → ℕ
      → Slot env api
      → ℕ
      → ℕ
      → TunnelConfig
      → env.World
      → Bool × Channels env api × env.World
  unfolding new_ring bound_slot
  bind_rings m i s channel fd mapping w =
      let (to_local, w1) = new_ring m.ring_buffer_size w in
      let (to_remote, w2) = new_ring m.ring_buffer_size w1 in
      let (now, w3) = env.millis w2 in
      if to_local.capacity == 0 || to_remote.capacity == 0
      then (false, m, env.socket_close fd w2)
      else (
        true,
        record m {
          slots = set m.slots i (bound_slot s channel fd mapping to_local to_remote now);
          active_count = m.active_count + 1;
        },
        env.channel_set_nonblocking channel w3,
      )

  -- What the breaker is told, and the rest of the function, once the endpoint was tried.
  unfoldable pub bind_socket :
      Channels env api
      → ℕ
      → Slot env api
      → ℕ
      → TunnelConfig
      → Option ℕ × env.World
      → Bool × Channels env api × env.World
  unfolding has_memory bind_rings
  bind_socket m i s channel mapping (none, w) =
      let (now, w') = env.millis w in
      (
        false,
        record m { breaker = (Breaker.record_failure m.breaker mapping.remote_bind_port now).1 },
        w',
      )
  bind_socket m i s channel mapping (some fd, w) =
      let m' = record m { breaker = Breaker.record_success m.breaker mapping.remote_bind_port } in
      if has_memory m.ring_buffer_size w
      then bind_rings m' i s channel fd mapping w
      else (false, m', env.socket_close fd w)

  unfoldable pub bind_channel :
      Channels env api → ℕ → ℕ → TunnelConfig → env.World → Bool × Channels env api × env.World
  unfolding bind_socket
  bind_channel m i channel mapping w = elim (get_elem? m.slots i) [
    | none ↦ (false, m, w)
    | some s ↦
        if s.active
        then (false, m, w)
        else bind_socket m i s channel mapping (connect_to_local_endpoint env ends mapping w)
  ]

  -- `isMappingBackedOff`
  unfoldable pub is_mapping_backed_off : Channels env api → ℕ → ℕ → Bool
  is_mapping_backed_off m port now = Breaker.is_backed_off m.breaker port now
