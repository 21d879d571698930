-- ===== src/Tunnel/Held.antt =====
-- Where an accepted channel is: in a slot, in a queue, or given back to libssh2; and what the operations
-- that the tunnel uses do about it.
use esp_reverse_tunneling_li.Prelude.{
  ℕ, zero, suc, ◌+◌, ◌≤◌, ◌≡◌, refl, sym, ap, ◌∙◌, inl, inr, true, false, not, ◌||◌, Option, none,
  some, List, [], ◌∷◌, ◌++◌, arith, ◌==◌, if◌then◌else◌, Bool-cases, Option-cases, length,
  get_elem?, set,
}
use mathlib.Core.Option.{some-injective}
use esp_reverse_tunneling_li.Env.{Env}
use esp_reverse_tunneling_li.Ledger.{Deed, freed, times, Ledger, Does, Does-trans, Does-nothing}
use esp_reverse_tunneling_li.RingApi.{RingApi}
use esp_reverse_tunneling_li.TunnelApi.{TunnelApi}
use esp_reverse_tunneling_li.Channel.{ChannelCloseReason, timeout, Slot, begin_close, is_open}
use esp_reverse_tunneling_li.Channel.Manager.{Channels, begin_close_at, allocate_slot, find_stale}
use esp_reverse_tunneling_li.Channel.Lifecycle.{begin_close-SameData}
use esp_reverse_tunneling_li.SlotAlloc
use esp_reverse_tunneling_li.Tunnel.{PendingChannel, max_pending, max_deferred_close, Tunnel}

-- 1 if the channel is the one that is held, else 0.
abbrev pub holds : ℕ → Option ℕ → ℕ
holds c none = 0
holds c (some d) = if c == d then 1 else 0

abbrev pub queued : ℕ → List PendingChannel → ℕ
queued c [] = 0
queued c (e ∷ es) = holds c e.channel + queued c es

pub queued-append :
    (c : ℕ) (es fs : List PendingChannel) → queued c (es ++ fs) ≡ queued c es + queued c fs
queued-append c [] fs = omega arith
queued-append c (e ∷ es) fs = omega (arith, queued-append c es fs)

module _ (env : Env) (api : RingApi) (led : Ledger env) where
  abbrev pub slotted : ℕ → List (Slot env api) → ℕ
  slotted c [] = 0
  slotted c (s ∷ ss) = holds c s.ssh_channel + slotted c ss

  pub slotted-set :
      (c : ℕ) (ss : List (Slot env api)) (i : ℕ) (old s : Slot env api)
      → get_elem? ss i ≡ some old
      → slotted c (set ss i s) + holds c old.ssh_channel ≡ slotted c ss + holds c s.ssh_channel
  slotted-set c [] i old s e = cc
  slotted-set c (x ∷ ss) zero old s e = rw (some-injective x old e) (omega arith)
  slotted-set c (x ∷ ss) (suc i) old s e = omega (arith, slotted-set c ss i old s e)

  -- The channels of the slots, in order.
  abbrev pub channels_of : List (Slot env api) → List (Option ℕ)
  channels_of [] = []
  channels_of (s ∷ ss) = s.ssh_channel ∷ channels_of ss

  channels_of-set :
      (ss : List (Slot env api)) (i : ℕ) (old s : Slot env api)
      → get_elem? ss i ≡ some old
      → s.ssh_channel ≡ old.ssh_channel
      → channels_of (set ss i s) ≡ channels_of ss
  channels_of-set [] i old s e h = refl
  channels_of-set (x ∷ ss) zero old s e h =
      ap (λ q. q ∷ channels_of ss)
        (h ∙ ap (λ (q : Slot env api). q.ssh_channel) (sym (some-injective x old e)))
  channels_of-set (x ∷ ss) (suc i) old s e h =
      ap (◌∷◌ x.ssh_channel) (channels_of-set ss i old s e h)

  -- The slot of the index was idle, is now in use with the channel, and no other is touched.
  pub record Seated (c i : ℕ) (ss ss' : List (Slot env api)) : Type 0 where
    pub old : Slot env api
    pub new : Slot env api
    pub there : get_elem? ss i ≡ some old
    pub was_idle : old.active ≡ false
    pub in_use : new.active ≡ true
    pub holds_it : new.ssh_channel ≡ some c
    pub others : ss' ≡ set ss i new

  -- How often the channel is in a slot or was given back.
  unfoldable pub weight : ℕ → Channels env api → env.World → ℕ
  weight c m w = slotted c m.slots + led.count (freed c) w

  -- What changes nothing outside, or only opens and closes sockets, leaves the weight.
  pub weight-Does :
      (c : ℕ) (m m' : Channels env api) (w w' : env.World) (es : List Deed)
      → slotted c m'.slots ≡ slotted c m.slots
      → Does env led.count w es w'
      → times (freed c) es ≡ 0
      → weight c m' w' ≡ weight c m w
  unfolding weight
  weight-Does c m m' w w' es e a z = omega (arith, e, a.each (freed c), z)

  begin_close_at-Does :
      (m : Channels env api) (i : ℕ) (reason : ChannelCloseReason) (w : env.World)
      → Does env led.count w [] (begin_close_at env api m i reason w).1
  unfolding begin_close_at begin_close
  begin_close_at-Does m i reason w = elim (Option-cases (get_elem? m.slots i)) [
    | inl e ↦ rw (e, begin_close_at) (Does-nothing env led.count w)
    | inr (s, e) ↦
        rw (e, begin_close_at)
          (elim (Bool-cases (not s.active || not (is_open s.state))) [
            | inl t ↦ rw t (Does-nothing env led.count w)
            | inr t ↦ rw t (led.millis_does w)
          ])
  ]

  slotted-begin_close_at :
      (c : ℕ) (m : Channels env api) (i : ℕ) (reason : ChannelCloseReason) (w : env.World)
      → slotted c (begin_close_at env api m i reason w).0.slots ≡ slotted c m.slots
  unfolding begin_close_at
  slotted-begin_close_at c m i reason w = elim (Option-cases (get_elem? m.slots i)) [
    | inl e ↦ rw (e, begin_close_at) refl
    | inr (s, e) ↦
        rw (e, begin_close_at)
          (let after = (begin_close env api s reason w).0 in
            let same_channel : holds c after.ssh_channel ≡ holds c s.ssh_channel =
              ap (holds c) (begin_close-SameData env api s reason w).ssh_channel in
            omega (arith, slotted-set c m.slots i s after e, same_channel))
  ]

  channels_of-begin_close_at :
      (m : Channels env api) (i : ℕ) (reason : ChannelCloseReason) (w : env.World)
      → channels_of (begin_close_at env api m i reason w).0.slots ≡ channels_of m.slots
  unfolding begin_close_at
  channels_of-begin_close_at m i reason w = elim (Option-cases (get_elem? m.slots i)) [
    | inl e ↦ rw (e, begin_close_at) refl
    | inr (s, e) ↦
        rw (e, begin_close_at)
          (channels_of-set m.slots i s (begin_close env api s reason w).0 e
            (begin_close-SameData env api s reason w).ssh_channel)
  ]

  -- `allocateSlot` does nothing outside, and leaves each slot its channel.
  pub allocate_slot-Does :
      (m : Channels env api) (w : env.World)
      → let (r, m', w') = allocate_slot env api m w in
        (channels_of m'.slots ≡ channels_of m.slots) × Does env led.count w [] w'
  unfolding allocate_slot
  allocate_slot-Does m w =
      let now = (env.millis w).0 in
      let w1 = (env.millis w).1 in
      elim (Option-cases (
        SlotAlloc.find_free_slot (λ (s : Slot env api). s.active) (λ s. s.last_finalize_ms) m.slots
          now SlotAlloc.finalize_cooldown_ms)) [
            | inr (i, e) ↦ rw (e, allocate_slot) (refl, led.millis_does w)
            | inl e ↦ elim (Option-cases (find_stale env api 0 now m.slots m.channel_timeout_ms)) [
              | inl f ↦ rw (e, f, allocate_slot) (refl, led.millis_does w)
              | inr (i, f) ↦
                  rw (e, f, allocate_slot)
                    (
                      channels_of-begin_close_at m i timeout w1,
                      Does-trans env led.count (led.millis_does w)
                          (begin_close_at-Does m i timeout w1),
                    )
            ]
          ]

  -- `allocateSlot` moves no channel.
  pub weight-allocate_slot :
      (c : ℕ) (m : Channels env api) (w : env.World)
      → let (r, m', w') = allocate_slot env api m w in weight c m' w' ≡ weight c m w
  unfolding allocate_slot
  weight-allocate_slot c m w =
      let now = (env.millis w).0 in
      let w1 = (env.millis w).1 in
      elim (Option-cases (
        SlotAlloc.find_free_slot (λ (s : Slot env api). s.active) (λ s. s.last_finalize_ms) m.slots
          now SlotAlloc.finalize_cooldown_ms)) [
            | inr (i, e) ↦
                rw (e, allocate_slot) (weight-Does c m m w w1 [] refl (led.millis_does w) refl)
            | inl e ↦ elim (Option-cases (find_stale env api 0 now m.slots m.channel_timeout_ms)) [
              | inl f ↦
                  rw (e, f, allocate_slot) (weight-Does c m m w w1 [] refl (led.millis_does w) refl)
              | inr (i, f) ↦
                  rw (e, f, allocate_slot)
                    (weight-Does c m (begin_close_at env api m i timeout w1).0 w
                      (begin_close_at env api m i timeout w1).1 []
                      (slotted-begin_close_at c m i timeout w1)
                      (Does-trans env led.count (led.millis_does w)
                        (begin_close_at-Does m i timeout w1))
                      refl)
            ]
          ]

-- The queues are within their limits.
pub record Room {env : Env} {api : RingApi} {host : TunnelApi env api} (t : Tunnel env api host)
    : Type 0 where
  pub pending_room : length t.pending ≤ max_pending
  pub deferred_room : length t.deferred ≤ max_deferred_close
