-- ===== src/Channel/Counts.antt =====
-- The invariant of the channel manager: the count of active slots is right, an idle slot holds nothing,
-- and a slot in use is not closed.
use esp_reverse_tunneling_li.Prelude.{
  ℕ, zero, suc, ◌+◌, ◌-◌, ◌≤◌, ◌<◌, ◌≡◌, refl, sym, ap, ◌∙◌, ◌≢◌, inl, inr, Bool, true, false, not,
  Option, none, some, List, [], ◌∷◌, arith, ltb, ◌==◌, if◌then◌else◌, lt→ltb, Bool-cases,
  Option-cases, length, get_elem?, set, replicate, sub32,
}
use mathlib.Core.Option.{some-injective}
use mathlib.Core.Path.{subst}
use esp_reverse_tunneling_li.Env.{Env}
use esp_reverse_tunneling_li.RingApi.{RingApi}
use esp_reverse_tunneling_li.SlotAlloc
use esp_reverse_tunneling_li.Channel.{
  ChannelCloseReason, timeout, closed, blank_slot, Slot, reset_slot, begin_close, finalize_slot,
  abandoned_drops, close_channel,
}
use esp_reverse_tunneling_li.Channel.Manager.{
  Channels, destroy, init, begin_close_at, allocate_slot, archive, finalize_close, abandon_slot,
  find_stale,
}

module _ (env : Env) (api : RingApi) where
  abbrev pub count_active : List (Slot env api) → ℕ
  count_active [] = 0
  count_active (s ∷ ss) = (if s.active then 1 else 0) + count_active ss

  -- An idle slot holds no channel, socket or ring; a slot in use is open or draining.
  pub record SlotIsValid (s : Slot env api) : Type 0 where
    pub no_channel : s.active ≡ false → s.ssh_channel ≡ none
    pub no_socket : s.active ≡ false → s.local_socket ≡ none
    pub no_to_local : s.active ≡ false → s.to_local ≡ none
    pub no_to_remote : s.active ≡ false → s.to_remote ≡ none
    pub idle_closed : s.active ≡ false → s.state ≡ closed
    pub used_not_closed : s.active ≡ true → s.state ≢ closed

  abbrev pub AllSlots : List (Slot env api) → Type 0
  AllSlots [] = Unit
  AllSlots (s ∷ ss) = SlotIsValid s × AllSlots ss

  pub record IsValid (m : Channels env api) : Type 0 where
    pub counted : m.active_count ≡ count_active m.slots
    pub each : AllSlots m.slots

  pub AllSlots-get_elem? :
      (ss : List (Slot env api)) (i : ℕ) (s : Slot env api)
      → AllSlots ss
      → get_elem? ss i ≡ some s
      → SlotIsValid s
  AllSlots-get_elem? [] i s v e = cc
  AllSlots-get_elem? (x ∷ ss) zero s (v, vs) e = subst SlotIsValid (some-injective x s e) v
  AllSlots-get_elem? (x ∷ ss) (suc i) s (v, vs) e = AllSlots-get_elem? ss i s vs e

  pub AllSlots-set :
      (ss : List (Slot env api)) (i : ℕ) (s : Slot env api)
      → AllSlots ss
      → SlotIsValid s
      → AllSlots (set ss i s)
  AllSlots-set [] i s v w = tt
  AllSlots-set (x ∷ ss) zero s (v, vs) w = (w, vs)
  AllSlots-set (x ∷ ss) (suc i) s (v, vs) w = (v, AllSlots-set ss i s vs w)

  pub count_active-set :
      (ss : List (Slot env api)) (i : ℕ) (old s : Slot env api)
      → get_elem? ss i ≡ some old
      → count_active (set ss i s) + (if old.active then 1 else 0)
        ≡ count_active ss + (if s.active then 1 else 0)
  count_active-set [] i old s e = cc
  count_active-set (x ∷ ss) zero old s e = rw (some-injective x old e) (omega arith)
  count_active-set (x ∷ ss) (suc i) old s e = omega (arith, count_active-set ss i old s e)

  pub begin_close-SlotIsValid :
      (s : Slot env api) (reason : ChannelCloseReason) (w : env.World)
      → SlotIsValid s
      → SlotIsValid (begin_close env api s reason w).0
        × ((begin_close env api s reason w).0.active ≡ s.active)
  unfolding begin_close
  begin_close-SlotIsValid s reason w v = ground (arith, v.idle_closed)

  -- A finalized slot is idle and holds nothing; one that must be tried again is active and unchanged
  -- but for the progress of its close.
  finalize_slot-SlotIsValid :
      (s : Slot env api) (w : env.World)
      → SlotIsValid s
      → s.active ≡ true
      → SlotIsValid (finalize_slot env api s w).1
        × ((finalize_slot env api s w).1.active ≡ not (finalize_slot env api s w).0)
  unfolding finalize_slot
  finalize_slot-SlotIsValid s w v a =
      elim (Bool-cases (close_channel env api s.ssh_channel s.ssh_close_progress w).0) [
        | inl t ↦ rw t (ground arith, refl)
        | inr t ↦ rw t (ground (arith, a), a)
      ]

  pub set-IsValid :
      (m : Channels env api) (i : ℕ) (old s : Slot env api)
      → IsValid m
      → get_elem? m.slots i ≡ some old
      → SlotIsValid s
      → s.active ≡ old.active
      → IsValid (record m { slots = set m.slots i s })
  set-IsValid m i old s v e w same = record {
    counted = ground (arith, v.counted, same, count_active-set m.slots i old s e);
    each = AllSlots-set m.slots i s v.each w;
  }

  -- What a slot in use leaves when it becomes idle.
  retired-IsValid :
      (m : Channels env api) (i received sent dropped : ℕ) (old s : Slot env api)
      → IsValid m
      → get_elem? m.slots i ≡ some old
      → SlotIsValid s
      → old.active ≡ true
      → s.active ≡ false
      → (0 < m.active_count)
        × IsValid (
            archive env api
              (record m { slots = set m.slots i s; active_count = m.active_count - 1 })
              received
              sent
              dropped)
  unfolding archive
  retired-IsValid m i received sent dropped old s v e w a b = (
    positive,
    record { counted = omega (arith, fewer); each = AllSlots-set m.slots i s v.each w },
  )
    where
      fewer : count_active (set m.slots i s) + 1 ≡ count_active m.slots
      fewer = ground (arith, a, b, count_active-set m.slots i old s e)

      positive : 0 < m.active_count
      positive = omega (arith, fewer, v.counted)

  -- `beginClose`, at any index and in any state of the slot, keeps the invariant.
  pub begin_close_at-IsValid :
      (m : Channels env api) (i : ℕ) (reason : ChannelCloseReason) (w : env.World)
      → IsValid m
      → IsValid (begin_close_at env api m i reason w).0
  unfolding begin_close_at
  begin_close_at-IsValid m i reason w v = elim (Option-cases (get_elem? m.slots i)) [
    | inl e ↦ rw (e, begin_close_at) v
    | inr (s, e) ↦
        let b = begin_close-SlotIsValid s reason w (AllSlots-get_elem? m.slots i s v.each e) in
        rw (e, begin_close_at) (set-IsValid m i s (begin_close env api s reason w).0 v e b.0 b.1)
  ]

  -- `finalizeClose` keeps the invariant at any index, whether or not it must be tried again.
  pub finalize_close-IsValid :
      (m : Channels env api) (i : ℕ) (w : env.World)
      → IsValid m
      → IsValid (finalize_close env api m i w).1
  unfolding finalize_close
  finalize_close-IsValid m i w v = elim (Option-cases (get_elem? m.slots i)) [
    | inl e ↦ rw (e, finalize_close) v
    | inr (s, e) ↦
        rw (e, finalize_close)
          (elim (Bool-cases s.active) [
            | inl a ↦ elim (Bool-cases (finalize_slot env api s w).0) [
              | inl d ↦ simp (a, d) (gone s e a d)
              | inr d ↦ simp (a, d) (kept s e a d)
            ]
            | inr a ↦ simp a v
          ])
  ]
    where
      after :
          (s : Slot env api)
          → get_elem? m.slots i ≡ some s
          → s.active ≡ true
          → SlotIsValid (finalize_slot env api s w).1
            × ((finalize_slot env api s w).1.active ≡ not (finalize_slot env api s w).0)
      after s e a = finalize_slot-SlotIsValid s w (AllSlots-get_elem? m.slots i s v.each e) a

      gone :
          (s : Slot env api)
          → get_elem? m.slots i ≡ some s
          → s.active ≡ true
          → (finalize_slot env api s w).0 ≡ true
          → IsValid (
              archive env api
                (record m {
                  slots = set m.slots i (finalize_slot env api s w).1;
                  active_count = m.active_count - 1;
                })
                (finalize_slot env api s w).1.total_bytes_received
                (finalize_slot env api s w).1.total_bytes_sent
                (finalize_slot env api s w).1.total_bytes_dropped)
      gone s e a d =
          let t = after s e a in
          (retired-IsValid m i _ _ _ s (finalize_slot env api s w).1 v e t.0 a (t.1 ∙ ap not d)).1

      kept :
          (s : Slot env api)
          → get_elem? m.slots i ≡ some s
          → s.active ≡ true
          → (finalize_slot env api s w).0 ≡ false
          → IsValid (record m { slots = set m.slots i (finalize_slot env api s w).1 })
      kept s e a d =
          let t = after s e a in
          set-IsValid m i s (finalize_slot env api s w).1 v e t.0 (t.1 ∙ ap not d ∙ sym a)

  -- `abandonSlot` keeps the invariant at any index.
  pub abandon_slot-IsValid :
      (m : Channels env api) (i : ℕ) (w : env.World)
      → IsValid m
      → IsValid (abandon_slot env api m i w).0
  unfolding abandon_slot reset_slot
  abandon_slot-IsValid m i w v = elim (Option-cases (get_elem? m.slots i)) [
    | inl e ↦ rw (e, abandon_slot) v
    | inr (s, e) ↦
        rw (e, abandon_slot)
          (elim (Bool-cases s.active) [
            | inl a ↦ simp (a, counts s e a) (gone s e a).1
            | inr a ↦ simp a v
          ])
  ]
    where
      gone :
          (s : Slot env api)
          → get_elem? m.slots i ≡ some s
          → s.active ≡ true
          → (0 < m.active_count)
            × IsValid (
                archive env api
                  (record m {
                    slots = set m.slots i (reset_slot env api s);
                    active_count = m.active_count - 1;
                  })
                  s.total_bytes_received
                  s.total_bytes_sent
                  (abandoned_drops env api s))
      gone s e a = retired-IsValid m i _ _ _ s (reset_slot env api s) v e (ground arith) a refl

      counts :
          (s : Slot env api)
          → get_elem? m.slots i ≡ some s
          → s.active ≡ true
          → ltb 0 m.active_count ≡ true
      counts s e a = lt→ltb 0 m.active_count (gone s e a).0

  free_slot : Channels env api → env.World → Option ℕ
  free_slot m w =
      SlotAlloc.find_free_slot (λ (s : Slot env api). s.active) (λ s. s.last_finalize_ms) m.slots
        (env.millis w).0 SlotAlloc.finalize_cooldown_ms

  -- On a valid manager `allocateSlot` keeps the invariant. A slot that it gives out is idle and either was never finalized
  -- or was so at least 50 ms before, and the manager is unchanged.
  pub allocate_slot_lem :
      (m : Channels env api) (w : env.World)
      → IsValid m
      → let (r, m', _) = allocate_slot env api m w in
        IsValid m'
        × ((i : ℕ)
            → r ≡ some i
            → (m' ≡ m)
              × ((s : Slot env api) × (get_elem? m.slots i ≡ some s)
                  × (s.active ≡ false)
                  × (s.last_finalize_ms ≢ 0 → 50 ≤ sub32 (env.millis w).0 s.last_finalize_ms)))
  unfolding allocate_slot free_slot
  allocate_slot_lem m w v = elim (Option-cases (free_slot m w)) [
    | inl e ↦
        elim (Option-cases (find_stale env api 0 (env.millis w).0 m.slots m.channel_timeout_ms)) [
          | inl f ↦ rw (e, f, allocate_slot) (v, λ i c. absurd (cc))
          | inr (i, f) ↦
              rw (e, f, allocate_slot)
                (begin_close_at-IsValid m i timeout (env.millis w).1 v, λ j c. absurd (cc))
        ]
    | inr (i, e) ↦ rw (e, allocate_slot) (v, λ j c. (refl, rw (some-injective _ _ c) at (idle i e)))
  ]
    where
      idle :
          (i : ℕ)
          → free_slot m w ≡ some i
          → (s : Slot env api) × (get_elem? m.slots i ≡ some s)
            × (s.active ≡ false)
            × (s.last_finalize_ms ≢ 0 → 50 ≤ sub32 (env.millis w).0 s.last_finalize_ms)
      idle i e =
          SlotAlloc.find_free_slot-some (λ (s : Slot env api). s.active) (λ s. s.last_finalize_ms)
            m.slots (env.millis w).0 50 i e

  init-IsValid :
      (n : ℕ)
      → AllSlots (replicate n (blank_slot api.Ring 0))
        × (count_active (replicate n (blank_slot api.Ring 0)) ≡ 0)
  init-IsValid zero = (tt, refl)
  init-IsValid (suc n) = ((ground arith, (init-IsValid n).0), omega (arith, (init-IsValid n).1))

  -- `init`, whether or not the array is allocated, keeps the invariant, as does `destroy`.
  pub init_destroy-IsValid :
      (m : Channels env api) (n ring_size timeout_ms : ℕ) (allocated : Bool) (w : env.World)
      → IsValid m
      → IsValid (init env api m n ring_size timeout_ms allocated w).1
        × IsValid (destroy env api m w).0
  unfolding init destroy
  init_destroy-IsValid m n ring_size timeout_ms allocated w v = (
    fresh allocated,
    elim (Bool-cases (length m.slots == 0)) [ inl t ↦ rw t v | inr t ↦ rw t (omega arith) ],
  )
    where
      fresh : (b : Bool) → IsValid (init env api m n ring_size timeout_ms b w).1
      fresh true = record { counted = sym (init-IsValid n).1; each = (init-IsValid n).0 }
      fresh false = omega arith
