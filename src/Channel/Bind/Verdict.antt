-- ===== src/Channel/Bind/Verdict.antt =====
-- When `bindChannel` succeeds, and what it leaves in the slots and of the sockets.
use esp_reverse_tunneling_li.Prelude.{
  ℕ, ◌+◌, ◌≡◌, refl, ap, ◌⊎◌, inl, inr, Bool, true, false, not, ◌&&◌, ◌||◌, Option, none, some,
  List, [], ◌∷◌, arith, ◌==◌, if◌then◌else◌, Bool-cases, Option-cases, get_elem?, set,
}
use esp_reverse_tunneling_li.Env.{Env}
use esp_reverse_tunneling_li.RingApi.{RingApi}
use esp_reverse_tunneling_li.Ledger.{opened, closed, Ledger, Does, Does-trans, Does-nothing}
use esp_reverse_tunneling_li.DataRing
use esp_reverse_tunneling_li.DataRing.{DataRing}
use esp_reverse_tunneling_li.Config.{TunnelConfig}
use esp_reverse_tunneling_li.Channel.{Slot}
use esp_reverse_tunneling_li.Channel.Manager.{Channels}
use esp_reverse_tunneling_li.Channel.Endpoint.{
  EndpointApi, EndpointLaws, connect_to_local_endpoint, Ends, unopened, connected_to, closed_again,
  connect_to_local_endpoint_lem,
}
use esp_reverse_tunneling_li.Channel.Bind.{
  has_memory, new_ring, bound_slot, bind_rings, bind_socket, bind_channel,
}

capacity-construct :
    (api : RingApi) (n : ℕ) (storage_ok struct_ok : Bool) (s : Option (List ℕ))
    → (DataRing.construct api n storage_ok struct_ok s).capacity ≡ n
unfolding DataRing.construct DataRing.bind_storage
capacity-construct api n storage_ok struct_ok s =
    on (if storage_ok && struct_ok then api.create n else none) s
  where
    on :
        (r : Option api.Ring) (s : Option (List ℕ)) → (DataRing.bind_storage api n r s).capacity ≡ n
    on none s = refl
    on (some r) none = refl
    on (some r) (some s) = refl

module _ (env : Env) (api : RingApi) (ends : EndpointApi env) where
  capacity-new_ring : (n : ℕ) (w : env.World) → (new_ring env api ends n w).0.capacity ≡ n
  unfolding new_ring
  capacity-new_ring n w =
      let (storage_ok, struct_ok, s, w') = ends.alloc_ring n w in
      capacity-construct api n storage_ok struct_ok s

  bind_rings_verdict :
      (m : Channels env api) (i : ℕ) (s : Slot env api) (channel fd : ℕ) (mapping : TunnelConfig)
      (w : env.World)
      → (bind_rings env api ends m i s channel fd mapping w).0 ≡ not (m.ring_buffer_size == 0)
  unfolding bind_rings
  bind_rings_verdict m i s channel fd mapping w =
      rw
        (
          capacity-new_ring m.ring_buffer_size w,
          capacity-new_ring m.ring_buffer_size (new_ring env api ends m.ring_buffer_size w).1,
        )
        (ground arith)

  -- Whether the endpoint was reached and the heap guard then passes.
  unfoldable pub reached : ℕ → Option ℕ × env.World → Bool
  reached n (none, w) = false
  reached n (some fd, w) = has_memory env api ends n w

  bind_socket_verdict :
      (m : Channels env api) (i : ℕ) (s : Slot env api) (channel : ℕ) (mapping : TunnelConfig)
      (r : Option ℕ × env.World)
      → (bind_socket env api ends m i s channel mapping r).0
        ≡ (reached m.ring_buffer_size r && not (m.ring_buffer_size == 0))
  unfolding bind_socket reached
  bind_socket_verdict m i s channel mapping (none, w) = refl
  bind_socket_verdict m i s channel mapping (some fd, w) =
      elim (Bool-cases (has_memory env api ends m.ring_buffer_size w)) [
        | inl t ↦ rw t (bind_rings_verdict _ i s channel fd mapping w)
        | inr t ↦ rw t refl
      ]

  unfoldable pub is_idle : Option (Slot env api) → Bool
  is_idle none = false
  is_idle (some s) = not s.active

  -- `bindChannel` succeeds exactly when the index is that of an idle slot, the local endpoint is reached,
  -- the heap guard passes then, and the size of a ring is not 0. What the allocations of the rings
  -- answer makes no difference.
  pub bind_channel_verdict :
      (m : Channels env api) (i channel : ℕ) (mapping : TunnelConfig) (w : env.World)
      → (bind_channel env api ends m i channel mapping w).0 ≡ (
          is_idle (get_elem? m.slots i)
          && (reached m.ring_buffer_size (connect_to_local_endpoint env ends mapping w)
              && not (m.ring_buffer_size == 0)))
  unfolding bind_channel is_idle
  bind_channel_verdict m i channel mapping w = elim (Option-cases (get_elem? m.slots i)) [
    | inl e ↦ rw (e, bind_channel, is_idle) refl
    | inr (s, e) ↦
        rw (e, bind_channel, is_idle)
          (elim (Bool-cases s.active) [
            | inl a ↦ simp a refl
            | inr a ↦ simp a (
                bind_socket_verdict m i s channel mapping
                  (connect_to_local_endpoint env ends mapping w))
          ])
  ]

module _ (env : Env) (api : RingApi) (ends : EndpointApi env) (led : Ledger env)
    (laws : EndpointLaws env ends led) where
  -- How `bindChannel` ends.
  pub data Outcome (m : Channels env api) (i channel : ℕ) (w : env.World)
      : Bool × Channels env api × env.World → Type 0 where
    -- The slot holds the channel and a new socket, which stays open.
    taken :
        (fd : ℕ) (old s : Slot env api) {m' : Channels env api} {w' : env.World}
        → get_elem? m.slots i ≡ some old
        → old.active ≡ false
        → m'.slots ≡ set m.slots i s
        → m'.active_count ≡ m.active_count + 1
        → s.ssh_channel ≡ some channel
        → s.local_socket ≡ some fd
        → s.active ≡ true
        → Does env led.count w (opened fd ∷ []) w'
        → Outcome m i channel w (true, m', w')
    -- The slots are as before, and a socket that was opened is closed.
    refused :
        {m' : Channels env api} {w' : env.World}
        → m'.slots ≡ m.slots
        → m'.active_count ≡ m.active_count
        → Does env led.count w [] w'
          ⊎ ((fd : ℕ) × Does env led.count w (opened fd ∷ closed fd ∷ []) w')
        → Outcome m i channel w (false, m', w')

  new_ring-Does : (n : ℕ) (w : env.World) → Does env led.count w [] (new_ring env api ends n w).1
  unfolding new_ring
  new_ring-Does n w = laws.alloc_does n w

  bind_rings_lem :
      (m m' : Channels env api) (i : ℕ) (s : Slot env api) (channel fd : ℕ) (mapping : TunnelConfig)
      (w w' : env.World)
      → get_elem? m.slots i ≡ some s
      → s.active ≡ false
      → m'.slots ≡ m.slots
      → m'.active_count ≡ m.active_count
      → Does env led.count w (opened fd ∷ []) w'
      → Outcome m i channel w (bind_rings env api ends m' i s channel fd mapping w')
  unfolding bind_rings bound_slot
  bind_rings_lem m m' i s channel fd mapping w w' here idle e f a =
      let r1 = new_ring env api ends m'.ring_buffer_size w' in
      let r2 = new_ring env api ends m'.ring_buffer_size r1.1 in
      let before = Does-trans env led.count a (
        Does-trans env led.count (new_ring-Does m'.ring_buffer_size w')
          (new_ring-Does m'.ring_buffer_size r1.1)) in
      elim (Bool-cases (r1.0.capacity == 0 || r2.0.capacity == 0)) [
        | inl t ↦ rw t (
            refused e f (inr (fd, Does-trans env led.count before (led.socket_close_does fd r2.1))))
        | inr t ↦ rw t (
            taken fd s (bound_slot env api ends s channel fd mapping r1.0 r2.0 (env.millis r2.1).0)
              here idle (rw e refl) (ap (λ n. n + 1) f) refl refl refl
              (Does-trans env led.count before (
                Does-trans env led.count (led.millis_does r2.1)
                  (led.set_nonblocking_does channel (env.millis r2.1).1))))
      ]

  bind_socket_lem :
      (m : Channels env api) (i : ℕ) (s : Slot env api) (channel : ℕ) (mapping : TunnelConfig)
      (w : env.World) (r : Option ℕ × env.World)
      → get_elem? m.slots i ≡ some s
      → s.active ≡ false
      → Ends env ends led laws w r
      → Outcome m i channel w (bind_socket env api ends m i s channel mapping r)
  unfolding bind_socket
  bind_socket_lem m i s channel mapping w (none, w') here idle (unopened a) =
      refused refl refl (inl (Does-trans env led.count a (led.millis_does w')))
  bind_socket_lem m i s channel mapping w (none, w') here idle (closed_again fd a) =
      refused refl refl (inr (fd, Does-trans env led.count a (led.millis_does w')))
  bind_socket_lem m i s channel mapping w (some fd, w') here idle (connected_to _ a) =
      elim (Bool-cases (has_memory env api ends m.ring_buffer_size w')) [
        | inl t ↦ rw t (bind_rings_lem m _ i s channel fd mapping w w' here idle refl refl a)
        | inr t ↦
            rw t (
              refused refl refl
                (inr (fd, Does-trans env led.count a (led.socket_close_does fd w'))))
      ]

  -- Whatever the socket calls, the allocator and the clock answer: if `bindChannel` succeeds then it opened
  -- one socket, closed none, and the slot of the index is in use with that socket and the channel, all
  -- other slots as they were. If it fails then the slots and the count of active ones are as they were,
  -- and a socket that it opened is closed again. It never frees the channel.
  pub bind_channel_lem :
      (m : Channels env api) (i channel : ℕ) (mapping : TunnelConfig) (w : env.World)
      → Outcome m i channel w (bind_channel env api ends m i channel mapping w)
  unfolding bind_channel
  bind_channel_lem m i channel mapping w = elim (Option-cases (get_elem? m.slots i)) [
    | inl e ↦ rw (e, bind_channel) (refused refl refl (inl (Does-nothing env led.count w)))
    | inr (s, e) ↦
        rw (e, bind_channel)
          (elim (Bool-cases s.active) [
            | inl a ↦ simp a (refused refl refl (inl (Does-nothing env led.count w)))
            | inr a ↦ simp a (
                bind_socket_lem m i s channel mapping w
                  (connect_to_local_endpoint env ends mapping w) e a
                  (connect_to_local_endpoint_lem env ends led laws mapping w))
          ])
  ]
