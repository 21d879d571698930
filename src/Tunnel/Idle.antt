-- ===== src/Tunnel/Idle.antt =====
-- What is left when the tunnel gives up its session: idle slots and empty queues.
use esp_reverse_tunneling_li.Prelude.{
  ℕ, zero, suc, ◌+◌, ◌≤◌, ◌≡◌, refl, ap, ◌∙◌, inl, inr, Bool, true, false, ◌&&◌, none, some, List,
  [], ◌∷◌, arith, ltb, leb, ◌==◌, if◌then◌else◌, Bool-cases, Option-cases, length, get_elem?, set,
}
use mathlib.Core.Option.{some-injective}
use esp_reverse_tunneling_li.Env.{Env}
use esp_reverse_tunneling_li.RingApi.{RingApi}
use esp_reverse_tunneling_li.TunnelApi.{TunnelApi}
use esp_reverse_tunneling_li.Channel.{ChannelCloseReason, manual, Slot, reset_slot}
use esp_reverse_tunneling_li.Channel.Manager.{Channels, abandon_slot, archive}
use esp_reverse_tunneling_li.Channel.Counts.{
  IsValid, count_active, finalize_close-IsValid, abandon_slot-IsValid,
}
use esp_reverse_tunneling_li.Tunnel.{
  TunnelState, disconnected, connecting, connected, error_state, Event, Tunnel, emit, update_stats,
}
use esp_reverse_tunneling_li.Tunnel.Queues.{clear_pending_queue, clear_deferred_close_queue}
use esp_reverse_tunneling_li.Tunnel.Teardown.{
  Closing, finalizing, abandoning, close_active, abandon_all, drop_session, close_slots, or_error,
  clear_queues, enter_error_state, lock_if_connected, announce_end, disconnect,
}

module _ (env : Env) (api : RingApi) where
  abbrev active_at : List (Slot env api) → ℕ → Bool
  active_at [] j = false
  active_at (s ∷ ss) zero = s.active
  active_at (s ∷ ss) (suc j) = active_at ss j

  active_at-none :
      (ss : List (Slot env api)) (i : ℕ) → get_elem? ss i ≡ none → active_at ss i ≡ false
  active_at-none [] i e = refl
  active_at-none (x ∷ ss) zero e = cc
  active_at-none (x ∷ ss) (suc i) e = active_at-none ss i e

  active_at-some :
      (ss : List (Slot env api)) (i : ℕ) (s : Slot env api)
      → get_elem? ss i ≡ some s
      → active_at ss i ≡ s.active
  active_at-some [] i s e = cc
  active_at-some (x ∷ ss) zero s e = ap (λ r. r.active) (some-injective x s e)
  active_at-some (x ∷ ss) (suc i) s e = active_at-some ss i s e

  none_active :
      (ss : List (Slot env api)) → ((j : ℕ) → active_at ss j ≡ false) → count_active env api ss ≡ 0
  none_active [] f = refl
  none_active (s ∷ ss) f =
      let first : s.active ≡ false = f 0 in ground (arith, first, none_active ss (λ j. f (suc j)))

  active_at-past : (ss : List (Slot env api)) (j : ℕ) → length ss ≤ j → active_at ss j ≡ false
  active_at-past [] j h = refl
  active_at-past (s ∷ ss) zero h = absurd (omega arith)
  active_at-past (s ∷ ss) (suc j) h = active_at-past ss j (omega arith)

  active_at-set :
      (ss : List (Slot env api)) (i j : ℕ) (s : Slot env api)
      → s.active ≡ false
      → active_at (set ss i s) j ≡ (if i == j then false else active_at ss j)
  active_at-set [] i j s e = ground arith
  active_at-set (x ∷ ss) zero zero s e = ground (arith, e)
  active_at-set (x ∷ ss) zero (suc j) s e = ground arith
  active_at-set (x ∷ ss) (suc i) zero s e = ground arith
  active_at-set (x ∷ ss) (suc i) (suc j) s e = ground (arith, active_at-set ss i j s e)

  absorbed :
      (ss : List (Slot env api)) (i j : ℕ)
      → active_at ss i ≡ false
      → active_at ss j ≡ (if i == j then false else active_at ss j)
  absorbed ss i j e = elim (Bool-cases (i == j)) [
    | inl t ↦ let same : i ≡ j = ground (arith, t) in rw t (rw same at e)
    | inr t ↦ rw t refl
  ]

  active_at-abandon_slot :
      (m : Channels env api) (i j : ℕ) (w : env.World)
      → active_at (abandon_slot env api m i w).0.slots j
        ≡ (if i == j then false else active_at m.slots j)
  unfolding abandon_slot archive reset_slot
  active_at-abandon_slot m i j w = elim (Option-cases (get_elem? m.slots i)) [
    | inl e ↦ rw (e, abandon_slot) (absorbed m.slots i j (active_at-none m.slots i e))
    | inr (s, e) ↦
        rw (e, abandon_slot)
          (elim (Bool-cases s.active) [
            | inl a ↦ simp a (active_at-set m.slots i j (reset_slot env api s) refl)
            | inr a ↦
                let idle : active_at m.slots i ≡ false = active_at-some m.slots i s e ∙ a in
                simp a (absorbed m.slots i j idle)
          ])
  ]

  -- After the loop over the slots from one index on, those slots are idle, and the others as before.
  active_at-abandon_all :
      (left i j : ℕ) (m : Channels env api) (host : TunnelApi env api) (w : env.World)
      → active_at (abandon_all env api host left i m w).0.slots j
        ≡ (if leb i j && ltb j (i + left) then false else active_at m.slots j)
  unfolding abandon_all
  active_at-abandon_all zero i j m host w = ground arith
  active_at-abandon_all (suc left) i j m host w =
      let (m', w') = abandon_slot env api m i w in
      ground
        (arith, active_at-abandon_all left (suc i) j m' host w', active_at-abandon_slot m i j w)

module _ (env : Env) (api : RingApi) (host : TunnelApi env api) where
  abandon_all-IsValid :
      (left i : ℕ) (m : Channels env api) (w : env.World)
      → IsValid env api m
      → IsValid env api (abandon_all env api host left i m w).0
  unfolding abandon_all
  abandon_all-IsValid zero i m w v = v
  abandon_all-IsValid (suc left) i m w v =
      abandon_all-IsValid left (suc i) (abandon_slot env api m i w).0 (abandon_slot env api m i w).1
        (abandon_slot-IsValid env api m i w v)

  close_active-IsValid :
      (step : Closing env api host)
      (steps : (m : Channels env api) (i : ℕ) (w : env.World)
        → IsValid env api m
        → IsValid env api (step m i w).0)
      (reason : ChannelCloseReason → ChannelCloseReason) (left i : ℕ) (m : Channels env api)
      (es : List Event) (w : env.World)
      → IsValid env api m
      → IsValid env api (close_active env api host step reason left i m es w).0
  unfolding close_active
  close_active-IsValid step steps reason zero i m es w v = v
  close_active-IsValid step steps reason (suc left) i m es w v =
      elim (Option-cases (get_elem? m.slots i)) [
        | inl e ↦
            rw (e, close_active) (close_active-IsValid step steps reason left (suc i) m es w v)
        | inr (s, e) ↦
            rw (e, close_active)
              (elim (Bool-cases s.active) [
                | inl a ↦ simp a (
                    close_active-IsValid step steps reason left (suc i) (step m i w).0 _
                      (step m i w).1 (steps m i w v))
                | inr a ↦ simp a (close_active-IsValid step steps reason left (suc i) m es w v)
              ])
      ]

  -- Nothing is left: the manager is valid and counts no slot, and both queues are empty.
  pub record Empty (t : Tunnel env api host) : Type 0 where
    pub valid : IsValid env api t.channels
    pub no_slot : t.channels.active_count ≡ 0
    pub no_pending : t.pending ≡ []
    pub no_deferred : t.deferred ≡ []

  pub drop_session-Empty :
      (t : Tunnel env api host) (w : env.World)
      → IsValid env api t.channels
      → Empty (drop_session env api host t w).0
  unfolding drop_session
  drop_session-Empty t w v =
      let w1 = (host.session.disconnect t.session w).1 in
      let n = length t.channels.slots in
      let v' = abandon_all-IsValid n 0 t.channels w1 v in
      record {
        valid = v';
        no_slot =
            v'.counted
            ∙ none_active env api (abandon_all env api host n 0 t.channels w1).0.slots (λ j.
              ground (
                arith,
                active_at-abandon_all env api n 0 j t.channels host w1,
                active_at-past env api t.channels.slots j,
              ));
        no_pending = refl;
        no_deferred = refl;
      }

  finalizing-IsValid :
      (m : Channels env api) (i : ℕ) (w : env.World)
      → IsValid env api m
      → IsValid env api (finalizing env api host m i w).0
  unfolding finalizing
  finalizing-IsValid m i w v = finalize_close-IsValid env api m i w v

  abandoning-IsValid :
      (m : Channels env api) (i : ℕ) (w : env.World)
      → IsValid env api m
      → IsValid env api (abandoning env api host m i w).0
  unfolding abandoning
  abandoning-IsValid m i w v = abandon_slot-IsValid env api m i w v

  close_slots-IsValid :
      (reason : ChannelCloseReason → ChannelCloseReason) (t : Tunnel env api host)
      (r : Bool × env.World)
      → IsValid env api t.channels
      → IsValid env api (close_slots env api host reason t r).0.channels
  unfolding close_slots
  close_slots-IsValid reason t (true, w) v =
      close_active-IsValid (finalizing env api host) finalizing-IsValid reason
        (length t.channels.slots) 0 t.channels t.events w v
  close_slots-IsValid reason t (false, w) v =
      close_active-IsValid (abandoning env api host) abandoning-IsValid reason
        (length t.channels.slots) 0 t.channels t.events w v

  pub channels-clear_queues :
      (t : Tunnel env api host) (w : env.World)
      → (clear_queues env api host t w).0.channels ≡ t.channels
  unfolding clear_queues clear_pending_queue clear_deferred_close_queue
  channels-clear_queues t w = refl

  -- What the statistics leave alone.
  update_stats-Empty :
      (t : Tunnel env api host) (w : env.World) → Empty t → Empty (update_stats env api host t w).0
  unfolding update_stats
  update_stats-Empty t w e = elim (Bool-cases (host.take_stats w).0) [
    | inl b ↦ rw b (record {
      valid = e.valid;
      no_slot = e.no_slot;
      no_pending = e.no_pending;
      no_deferred = e.no_deferred;
    })
    | inr b ↦ rw b e
  ]

  -- After `enterErrorState`, whether or not the lock was had and whatever the session, the clock and
  -- libssh2 do: the state is ERROR, no slot is in use, the manager is valid, both queues are empty, and
  -- the count of failed checks of the socket is 0.
  pub enter_error_state_lem :
      (t : Tunnel env api host) (w : env.World)
      → IsValid env api t.channels
      → let t' = (enter_error_state env api host t w).0 in
        (t'.state ≡ error_state) × Empty t' × (t'.socket_health_failures ≡ 0)
  unfolding enter_error_state emit
  enter_error_state_lem t w v =
      let (t1, w1) = clear_queues env api host t w in
      let (t2, w2) = close_slots env api host (or_error env api host) t1 (env.lock 500 w1) in
      let v1 : IsValid env api t1.channels = rw (channels-clear_queues t w) v in
      let v2 = close_slots-IsValid (or_error env api host) t1 (env.lock 500 w1) v1 in
      let (t3, w3) = drop_session env api host t2 w2 in
      let e = update_stats-Empty t3 w3 (drop_session-Empty t2 w2 v2) in
      (
        refl,
        record {
          valid = e.valid;
          no_slot = e.no_slot;
          no_pending = e.no_pending;
          no_deferred = e.no_deferred;
        },
        refl,
      )

  announce_end-Empty :
      (s : TunnelState) (t : Tunnel env api host) → Empty t → Empty (announce_end env api host s t)
  unfolding announce_end emit
  announce_end-Empty connected t e = record {
    valid = e.valid;
    no_slot = e.no_slot;
    no_pending = e.no_pending;
    no_deferred = e.no_deferred;
  }
  announce_end-Empty disconnected t e = e
  announce_end-Empty connecting t e = e
  announce_end-Empty error_state t e = e

  -- After `disconnect`, likewise, from any state: the state is DISCONNECTED and nothing is left.
  pub disconnect_lem :
      (t : Tunnel env api host) (w : env.World)
      → IsValid env api t.channels
      → let t' = (disconnect env api host t w).0 in
        (t'.state ≡ TunnelState.disconnected) × Empty t' × (t'.socket_health_failures ≡ 0)
  unfolding disconnect
  disconnect_lem t w v =
      let (t1, w1) = clear_queues env api host t w in
      let (t2, w2) =
        close_slots env api host (λ r. manual) t1 (lock_if_connected env api host t1 w1) in
      let v1 : IsValid env api t1.channels = rw (channels-clear_queues t w) v in
      let v2 = close_slots-IsValid (λ r. manual) t1 (lock_if_connected env api host t1 w1) v1 in
      let (t3, w3) = drop_session env api host t2 w2 in
      let (t4, w4) = update_stats env api host t3 w3 in
      let e =
        announce_end-Empty t4.state t4 (update_stats-Empty t3 w3 (drop_session-Empty t2 w2 v2)) in
      (
        refl,
        record {
          valid = e.valid;
          no_slot = e.no_slot;
          no_pending = e.no_pending;
          no_deferred = e.no_deferred;
        },
        refl,
      )
