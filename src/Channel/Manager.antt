-- ===== src/Channel/Manager.antt =====
-- ChannelManager (src/ssh_channel.cpp): the slots, the count of active ones, and the archived totals.
-- An index is a number: the negative ones are refused by the source as those past the end are.
use esp_reverse_tunneling_li.Prelude.{
  ℕ, suc, ◌+◌, ◌-◌, Bool, true, false, not, ◌&&◌, ◌||◌, Option, none, some, List, [], ◌∷◌, ltb, leb,
  ◌==◌, if◌then◌else◌, length, get_elem?, set, replicate, add32,
}
use esp_reverse_tunneling_li.Env.{Env}
use esp_reverse_tunneling_li.RingApi.{RingApi}
use esp_reverse_tunneling_li.SlotAlloc
use esp_reverse_tunneling_li.ChannelTimeout
use esp_reverse_tunneling_li.Breaker.{CircuitBreaker}
use esp_reverse_tunneling_li.Channel.{
  ChannelSlot, ChannelCloseReason, timeout, blank_slot, Slot, reset_slot, begin_close, close_local,
  finalize_slot, abandoned_drops,
}

pub record Manager (Ring : Type 0) : Type 0 where
  pub slots : List (ChannelSlot Ring)
  pub active_count : ℕ
  pub ring_buffer_size : ℕ
  pub channel_timeout_ms : ℕ
  pub completed_bytes_received : ℕ
  pub completed_bytes_sent : ℕ
  pub completed_bytes_dropped : ℕ
  pub breaker : CircuitBreaker

module _ (env : Env) (api : RingApi) where
  abbrev pub Channels : Type 0
  Channels = Manager api.Ring

  -- The part of `destroy` on one slot: the local socket and the rings go, the slot is not archived.
  pub destroy_slots : List (Slot env api) → env.World → env.World
  destroy_slots [] w = w
  destroy_slots (s ∷ ss) w =
      destroy_slots ss (if s.active then close_local env api s.local_socket w else w)

  unfoldable pub destroy : Channels → env.World → Channels × env.World
  unfolding destroy_slots
  destroy m w =
      if length m.slots == 0
      then (m, w)
      else (record m { slots = []; active_count = 0 }, destroy_slots m.slots w)

  -- `init`, with whether the array could be allocated. The breaker is not reset.
  unfoldable pub init : Channels → ℕ → ℕ → ℕ → Bool → env.World → Bool × Channels × env.World
  unfolding destroy
  init m max_channels ring_size timeout_ms allocated w =
      let (m', w') = destroy m w in
      (
        allocated,
        record m' {
          slots = if allocated then replicate max_channels (blank_slot api.Ring 0) else [];
          active_count = 0;
          ring_buffer_size = ring_size;
          channel_timeout_ms = timeout_ms;
          completed_bytes_received = 0;
          completed_bytes_sent = 0;
          completed_bytes_dropped = 0;
        },
        w',
      )

  -- `beginClose(slotIndex, reason)`
  unfoldable pub begin_close_at :
      Channels → ℕ → ChannelCloseReason → env.World → Channels × env.World
  begin_close_at m i reason w = elim (get_elem? m.slots i) [
    | none ↦ (m, w)
    | some s ↦
        let (s', w') = begin_close env api s reason w in (record m { slots = set m.slots i s' }, w')
  ]

  -- The second pass of `allocateSlot`: the first active slot that has timed out.
  pub find_stale : ℕ → ℕ → List (Slot env api) → ℕ → Option ℕ
  find_stale i now [] timeout_ms = none
  find_stale i now (s ∷ ss) timeout_ms =
      if s.active && ChannelTimeout.expired now s.last_activity timeout_ms
      then some i
      else find_stale (suc i) now ss timeout_ms

  unfoldable pub allocate_slot : Channels → env.World → Option ℕ × Channels × env.World
  unfolding find_stale
  allocate_slot m w =
      let (now, w1) = env.millis w in
      elim (SlotAlloc.find_free_slot (λ (s : Slot env api). s.active) (λ s. s.last_finalize_ms)
        m.slots now SlotAlloc.finalize_cooldown_ms) [
          | some i ↦ (some i, m, w1)
          | none ↦ elim (find_stale 0 now m.slots m.channel_timeout_ms) [
            | none ↦ (none, m, w1)
            | some i ↦ let (m', w2) = begin_close_at m i timeout w1 in (none, m', w2)
          ]
        ]

  -- `archiveSlotStats`
  unfoldable pub archive : Channels → ℕ → ℕ → ℕ → Channels
  archive m received sent dropped = record m {
    completed_bytes_received = add32 m.completed_bytes_received received;
    completed_bytes_sent = add32 m.completed_bytes_sent sent;
    completed_bytes_dropped = add32 m.completed_bytes_dropped dropped;
  }

  -- `finalizeClose(slotIndex)`. The count is that of the active slots, so it is positive here.
  unfoldable pub finalize_close : Channels → ℕ → env.World → Bool × Channels × env.World
  unfolding archive
  finalize_close m i w = elim (get_elem? m.slots i) [
    | none ↦ (true, m, w)
    | some s ↦
        let (done, s', w') = finalize_slot env api s w in
        let kept = record m { slots = set m.slots i s' } in
        let gone =
          archive (record m { slots = set m.slots i s'; active_count = m.active_count - 1 })
            s'.total_bytes_received s'.total_bytes_sent s'.total_bytes_dropped in
        if not s.active then (true, m, w) else if done then (true, gone, w') else (false, kept, w')
  ]

  -- `abandonSlot(slotIndex, reason)`; the reason is only logged.
  unfoldable pub abandon_slot : Channels → ℕ → env.World → Channels × env.World
  unfolding archive
  abandon_slot m i w = elim (get_elem? m.slots i) [
    | none ↦ (m, w)
    | some s ↦
        let gone =
          archive
            (record m {
              slots = set m.slots i (reset_slot env api s);
              active_count = if ltb 0 m.active_count then m.active_count - 1 else m.active_count;
            })
            s.total_bytes_received s.total_bytes_sent (abandoned_drops env api s) in
        if not s.active then (m, w) else (gone, close_local env api s.local_socket w)
  ]

  pub any_failing : List (Slot env api) → Bool
  any_failing [] = false
  any_failing (s ∷ ss) = (s.active && ltb 5 s.consecutive_errors) || any_failing ss

  -- `activeCount_ <= maxSlots_ - 2`, on `int`
  unfoldable pub should_accept_new : Channels → Bool
  unfolding any_failing
  should_accept_new m =
      if leb (length m.slots) m.active_count
      then false
      else if leb (m.active_count + 2) (length m.slots)
      then true
      else not (any_failing m.slots)

  -- The loops of `getTotalBytesReceived`, `getTotalBytesSent` and `getTotalBytesDropped`.
  unfoldable pub total : (Slot env api → ℕ) → ℕ → List (Slot env api) → ℕ
  total count acc [] = acc
  total count acc (s ∷ ss) = total count (if s.active then add32 acc (count s) else acc) ss

  unfoldable pub total_bytes_received : Channels → ℕ
  unfolding total
  total_bytes_received m = total (λ s. s.total_bytes_received) m.completed_bytes_received m.slots

  unfoldable pub total_bytes_sent : Channels → ℕ
  unfolding total
  total_bytes_sent m = total (λ s. s.total_bytes_sent) m.completed_bytes_sent m.slots

  unfoldable pub total_bytes_dropped : Channels → ℕ
  unfolding total
  total_bytes_dropped m = total (λ s. s.total_bytes_dropped) m.completed_bytes_dropped m.slots
