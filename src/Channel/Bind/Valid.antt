-- ===== src/Channel/Bind/Valid.antt =====
-- `bindChannel` and the invariant of the manager.
use esp_reverse_tunneling_li.Prelude.{
  ℕ, ◌+◌, ◌≡◌, refl, inl, inr, true, false, ◌||◌, Option, none, some, arith, ◌==◌, Bool-cases,
  Option-cases, get_elem?, set,
}
use esp_reverse_tunneling_li.Env.{Env}
use esp_reverse_tunneling_li.RingApi.{RingApi}
use esp_reverse_tunneling_li.Config.{TunnelConfig}
use esp_reverse_tunneling_li.Channel.{Slot, reset_slot}
use esp_reverse_tunneling_li.Channel.Manager.{Channels}
use esp_reverse_tunneling_li.Channel.Counts.{count_active-set, SlotIsValid, AllSlots-set, IsValid}
use esp_reverse_tunneling_li.Channel.Endpoint.{EndpointApi, connect_to_local_endpoint}
use esp_reverse_tunneling_li.Channel.Bind.{
  has_memory, new_ring, bound_slot, bind_rings, bind_socket, bind_channel,
}

module _ (env : Env) (api : RingApi) (ends : EndpointApi env) where
  -- A slot that was idle and is taken into use.
  taken-IsValid :
      (m : Channels env api) (i : ℕ) (old s : Slot env api)
      → IsValid env api m
      → get_elem? m.slots i ≡ some old
      → old.active ≡ false
      → SlotIsValid env api s
      → s.active ≡ true
      → IsValid env api (record m { slots = set m.slots i s; active_count = m.active_count + 1 })
  taken-IsValid m i old s v e idle w a = record {
    counted = ground (arith, v.counted, idle, a, count_active-set env api m.slots i old s e);
    each = AllSlots-set env api m.slots i s v.each w;
  }

  bind_rings-IsValid :
      (m : Channels env api) (i : ℕ) (s : Slot env api) (channel fd : ℕ) (mapping : TunnelConfig)
      (w : env.World)
      → IsValid env api m
      → get_elem? m.slots i ≡ some s
      → s.active ≡ false
      → IsValid env api (bind_rings env api ends m i s channel fd mapping w).1
  unfolding bind_rings bound_slot reset_slot
  bind_rings-IsValid m i s channel fd mapping w v e idle =
      let r1 = new_ring env api ends m.ring_buffer_size w in
      let r2 = new_ring env api ends m.ring_buffer_size r1.1 in
      elim (Bool-cases (r1.0.capacity == 0 || r2.0.capacity == 0)) [
        | inl t ↦ rw t v
        | inr t ↦ rw t (
            taken-IsValid m i s
              (bound_slot env api ends s channel fd mapping r1.0 r2.0 (env.millis r2.1).0) v e idle
              (ground arith) refl)
      ]

  bind_socket-IsValid :
      (m : Channels env api) (i : ℕ) (s : Slot env api) (channel : ℕ) (mapping : TunnelConfig)
      (r : Option ℕ × env.World)
      → IsValid env api m
      → get_elem? m.slots i ≡ some s
      → s.active ≡ false
      → IsValid env api (bind_socket env api ends m i s channel mapping r).1
  unfolding bind_socket
  bind_socket-IsValid m i s channel mapping (none, w) v e idle = record {
    counted = v.counted;
    each = v.each;
  }
  bind_socket-IsValid m i s channel mapping (some fd, w) v e idle =
      elim (Bool-cases (has_memory env api ends m.ring_buffer_size w)) [
        | inl t ↦ rw t (
            bind_rings-IsValid _ i s channel fd mapping w
              (record { counted = v.counted; each = v.each }) e idle)
        | inr t ↦ rw t (record { counted = v.counted; each = v.each })
      ]

  -- `bindChannel`, at any index, in any state of the slot and on every branch, keeps the invariant of the
  -- manager.
  pub bind_channel-IsValid :
      (m : Channels env api) (i channel : ℕ) (mapping : TunnelConfig) (w : env.World)
      → IsValid env api m
      → IsValid env api (bind_channel env api ends m i channel mapping w).1
  unfolding bind_channel
  bind_channel-IsValid m i channel mapping w v = elim (Option-cases (get_elem? m.slots i)) [
    | inl e ↦ rw (e, bind_channel) v
    | inr (s, e) ↦
        rw (e, bind_channel)
          (elim (Bool-cases s.active) [
            | inl a ↦ simp a v
            | inr a ↦ simp a (
                bind_socket-IsValid m i s channel mapping
                  (connect_to_local_endpoint env ends mapping w) v e a)
          ])
  ]
