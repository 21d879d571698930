-- ===== src/Tunnel/Fates.antt =====
-- What becomes of an accepted channel.
use esp_reverse_tunneling_li.Prelude.{
  ℕ, ◌+◌, ◌≤◌, ◌<◌, ◌≡◌, refl, sym, ap, ◌∙◌, inl, inr, Bool, true, false, Option, none, some, [],
  ◌∷◌, append-nil, arith, ltb, Bool-cases, length,
}
use mathlib.Core.Path.{subst⁻¹}
use esp_reverse_tunneling_li.Env.{Env}
use esp_reverse_tunneling_li.Ledger.{freed, Ledger, Does}
use esp_reverse_tunneling_li.RingApi.{RingApi}
use esp_reverse_tunneling_li.TunnelApi.{TunnelApi}
use esp_reverse_tunneling_li.Config.{TunnelConfig}
use esp_reverse_tunneling_li.Channel.Manager.{Channels, allocate_slot}
use esp_reverse_tunneling_li.Channel.Counts.{IsValid, allocate_slot_lem}
use esp_reverse_tunneling_li.Channel.Endpoint.{EndpointLaws}
use esp_reverse_tunneling_li.Channel.Bind.{is_mapping_backed_off}
use esp_reverse_tunneling_li.Tunnel.{
  PendingChannel, bind, close, max_pending, max_deferred_close, BindResult, bound, bind_failed,
  lock_unavailable, Tunnel, emit, entry, enqueue_deferred_close, close_accepted_channel,
  bind_accepted_channel,
}
use esp_reverse_tunneling_li.Tunnel.Accept.{
  Turn, stop, after_close, reject, force_close, after_overflow, overflow, queue_or, after_bind,
  offer, place,
}
use esp_reverse_tunneling_li.Tunnel.Held.{channels_of, Seated, allocate_slot-Does}
use esp_reverse_tunneling_li.Tunnel.Binds.{
  Closed, done, put_off, close_accepted_channel_lem, BindEnds, is_bound, is_failed, is_locked_out,
  bind_accepted_channel_lem,
}
use esp_reverse_tunneling_li.Tunnel.Moves.{
  IsEntry, Moved, Same, Same-then, length-Same, Does-Moved, Put, put_back, put, full, enqueue_lem,
}

module _ (env : Env) (api : RingApi) (host : TunnelApi env api) (led : Ledger env)
    (laws : EndpointLaws env host.ends led) where
  -- An accepted channel is in a slot that was idle; or it is at the end of a queue, or it was freed, or it
  -- was dropped, when the queue of deferred closes was full. In each case the other slots, the other
  -- entries of the queues and the other channels are as they were.
  pub data Fate (c : ℕ) (mapping : TunnelConfig) (t : Tunnel env api host) (w : env.World)
      : Bool × Tunnel env api host × env.World → Type 0 where
    seated :
        {t' : Tunnel env api host} {w' : env.World} (i : ℕ)
        → IsValid env api t'.channels
        → t'.state ≡ t.state
        → t'.pending ≡ t.pending
        → t'.deferred ≡ t.deferred
        → Seated env api led c i t.channels.slots t'.channels.slots
        → t'.channels.active_count ≡ t.channels.active_count + 1
        → length t'.channels.slots ≡ length t.channels.slots
        → ((d : ℕ) → led.count (freed d) w' ≡ led.count (freed d) w)
        → Fate c mapping t w (true, t', w')
    waits :
        {t' : Tunnel env api host} {w' : env.World} (e : PendingChannel)
        → IsEntry c mapping bind e
        → length t.pending < max_pending
        → Moved env api host led t w t' w' (e ∷ []) [] []
        → Fate c mapping t w (false, t', w')
    to_be_closed :
        {t' : Tunnel env api host} {w' : env.World} (e : PendingChannel)
        → IsEntry c mapping close e
        → length t.deferred < max_deferred_close
        → Moved env api host led t w t' w' [] (e ∷ []) []
        → Fate c mapping t w (false, t', w')
    sent_back :
        {t' : Tunnel env api host} {w' : env.World}
        → Moved env api host led t w t' w' [] [] (freed c ∷ [])
        → Fate c mapping t w (false, t', w')
    dropped :
        {t' : Tunnel env api host} {w' : env.World}
        → max_deferred_close ≤ length t.deferred
        → Same env api host led t w t' w'
        → Fate c mapping t w (false, t', w')

  module _ (c : ℕ) (mapping : TunnelConfig) (t : Tunnel env api host) (w : env.World) where
    stop_lem :
        (t' : Tunnel env api host) (w' : env.World) (r : Bool × Tunnel env api host × env.World)
        → Same env api host led t w t' w'
        → Put env api host led c mapping t' w' r
        → Fate c mapping t w (stop env api host r)
    unfolding stop
    stop_lem t' w' (true, t'', w'') a (put_back m) = sent_back (Same-then env api host led a m)
    stop_lem t' w' (true, t'', w'') a (put e is room m) =
        to_be_closed e is (omega (arith, room, (length-Same env api host led a).1))
          (Same-then env api host led a m)
    stop_lem t' w' (false, t'', w'') a (full n m) =
        dropped (omega (arith, n, (length-Same env api host led a).1))
          (Same-then env api host led a m)

    -- The channel is closed now.
    closed_lem :
        (t' : Tunnel env api host) (w' w'' : env.World)
        → Same env api host led t w t' w'
        → Does env led.count w' (freed c ∷ []) w''
        → Fate c mapping t w (false, t', w'')
    closed_lem t' w' w'' a b =
        sent_back (Same-then env api host led a (Does-Moved env api host led a.valid b))

    Same-after :
        (t' : Tunnel env api host) (w' w'' : env.World)
        → Same env api host led t w t' w'
        → Does env led.count w' [] w''
        → Same env api host led t w t' w''
    Same-after t' w' w'' a b = Same-then env api host led a (Does-Moved env api host led a.valid b)

    after_close_lem :
        (t' : Tunnel env api host) (w' : env.World) (r : Bool × env.World)
        → Same env api host led t w t' w'
        → Closed env api host led c w' r
        → Fate c mapping t w (after_close env api host t' c mapping r)
    unfolding after_close
    after_close_lem t' w' (true, w'') a (done b) = closed_lem t' w' w'' a b
    after_close_lem t' w' (false, w'') a (put_off b) =
        stop_lem t' w'' (enqueue_deferred_close env api host t' c mapping w'')
          (Same-after t' w' w'' a b) (enqueue_lem env api host led c mapping t' w'' a.valid)

    force_close_lem :
        (t' : Tunnel env api host) (w' : env.World) (r : Bool × Tunnel env api host × env.World)
        → Same env api host led t w t' w'
        → Put env api host led c mapping t' w' r
        → Fate c mapping t w (force_close env api host c r)
    unfolding force_close
    force_close_lem t' w' (true, t'', w'') a (put_back m) =
        sent_back (Same-then env api host led a m)
    force_close_lem t' w' (true, t'', w'') a (put e is room m) =
        to_be_closed e is (omega (arith, room, (length-Same env api host led a).1))
          (Same-then env api host led a m)
    force_close_lem t' w' (false, t'', w'') a (full n m) =
        forced (close_accepted_channel env api host (some c) 1000 w'')
          (close_accepted_channel_lem env api host led c 1000 w'')
      where
        before : Same env api host led t w t'' w''
        before = Same-then env api host led a m

        forced :
            (q : Bool × env.World)
            → Closed env api host led c w'' q
            → Fate c mapping t w (false, t'', q.1)
        forced (true, w3) (done b) = closed_lem t'' w'' w3 before b
        forced (false, w3) (put_off b) =
            dropped (omega (arith, n, (length-Same env api host led a).1))
              (Same-after t'' w'' w3 before b)

    after_overflow_lem :
        (t' : Tunnel env api host) (w' : env.World) (r : Bool × env.World)
        → Same env api host led t w t' w'
        → Closed env api host led c w' r
        → Fate c mapping t w (after_overflow env api host t' c mapping r)
    unfolding after_overflow
    after_overflow_lem t' w' (true, w'') a (done b) = closed_lem t' w' w'' a b
    after_overflow_lem t' w' (false, w'') a (put_off b) =
        force_close_lem t' w'' (enqueue_deferred_close env api host t' c mapping w'')
          (Same-after t' w' w'' a b) (enqueue_lem env api host led c mapping t' w'' a.valid)

    queue_or_lem :
        (t' : Tunnel env api host) (w' : env.World) (otherwise : Turn env api host)
        → Same env api host led t w t' w'
        → Fate c mapping t w otherwise
        → Fate c mapping t w (queue_or env api host otherwise t' c mapping w')
    unfolding queue_or entry
    queue_or_lem t' w' otherwise a f = elim (Bool-cases (ltb (length t'.pending) max_pending)) [
      | inl r ↦ simp r (
          waits ((entry env api host c mapping bind w').0)
            (record { channel = refl; mapped = refl; to_do = refl })
            (ground (arith, r, (length-Same env api host led a).0))
            (Same-then env api host led a (record {
              valid = a.valid;
              state = refl;
              pending = refl;
              deferred = sym (append-nil t'.deferred);
              in_slots = refl;
              given_back = λ d. (led.millis_does w').each (freed d);
            })))
      | inr r ↦ simp r f
    ]

    -- What the manager and the world of a step did, with the queues as they were.
    Same-manager :
        (m : Channels env api) (w' : env.World)
        → IsValid env api m
        → channels_of env api led m.slots ≡ channels_of env api led t.channels.slots
        → ((d : ℕ) → led.count (freed d) w' ≡ led.count (freed d) w)
        → Same env api host led t w (record t { channels = m }) w'
    Same-manager m w' v s f = record {
      valid = v;
      state = refl;
      pending = sym (append-nil t.pending);
      deferred = sym (append-nil t.deferred);
      in_slots = s;
      given_back = λ d. omega (arith, f d);
    }

    after_bind_lem :
        (i : ℕ) (w' : env.World) (r : BindResult × Channels env api × env.World)
        → IsValid env api t.channels
        → ((d : ℕ) → led.count (freed d) w' ≡ led.count (freed d) w)
        → BindEnds env api host led c i t.channels w' r
        → Fate c mapping t w (after_bind env api host t i c mapping r)
    unfolding after_bind emit
    after_bind_lem i w' (bound, m', w'') v f (is_bound g n l v' s k) =
        seated i v' refl refl refl s n l (λ d. k d ∙ f d)
    after_bind_lem i w' (lock_unavailable, _, w'') v f (is_locked_out g b) =
        let a = Same-manager t.channels w'' v refl (λ d. omega (arith, b.each (freed d), f d)) in
        queue_or_lem t w'' (stop env api host (enqueue_deferred_close env api host t c mapping w''))
          a
          (stop_lem t w'' (enqueue_deferred_close env api host t c mapping w'') a
            (enqueue_lem env api host led c mapping t w'' v))
    after_bind_lem i w' (bind_failed, m', w'') v f (is_failed g _ _ v' s k) =
        let t' = record t { channels = m' } in
        stop_lem t' w'' (enqueue_deferred_close env api host t' c mapping w'')
          (Same-manager m' w'' v' (ap (channels_of env api led) s) (λ d. k d ∙ f d))
          (enqueue_lem env api host led c mapping t' w'' v')

    offer_lem :
        (r : Option ℕ × Channels env api × env.World)
        → IsValid env api t.channels
        → IsValid env api r.1
        → ((i : ℕ) → r.0 ≡ some i → r.1 ≡ t.channels)
        → channels_of env api led r.1.slots ≡ channels_of env api led t.channels.slots
        → ((d : ℕ) → led.count (freed d) r.2 ≡ led.count (freed d) w)
        → Fate c mapping t w (offer env api host t c mapping r)
    unfolding offer overflow
    offer_lem (some i, m, w') u v e s f =
        subst⁻¹
          (λ (m : Channels env api). Fate c mapping t w (
            after_bind env api host (record t { channels = m }) i c mapping
              (bind_accepted_channel env api host m i c mapping 200 w')))
          (e i refl)
          (after_bind_lem i w' (bind_accepted_channel env api host t.channels i c mapping 200 w') u
            f (bind_accepted_channel_lem env api host led laws t.channels i c mapping 200 w' u))
    offer_lem (none, m, w') u v e s f =
        let t' = record t { channels = m } in
        let a = Same-manager m w' v s f in
        queue_or_lem t' w' (overflow env api host t' c mapping w') a (
          after_overflow_lem t' w' (close_accepted_channel env api host (some c) 500 w') a
            (close_accepted_channel_lem env api host led c 500 w'))

  -- What `handleNewConnection` does with a channel that it accepted, whatever the clock, the lock, the
  -- breaker, libssh2, the allocator and the local endpoint answer; the manager stays valid. Either the
  -- channel is in a slot that was idle, and only then another accept is asked for: that slot alone changes,
  -- and neither queue does. Or it is at the end of the pending queue, or at the end of the queue of deferred
  -- closes, which had room, or `libssh2_channel_free` was called on it, once, or it was dropped because the
  -- queue of deferred closes was full; then each slot has the channel that it had, and the queues have no
  -- other new entry and lost none. No other channel is freed.
  pub place-Fate :
      (c : ℕ) (mapping : TunnelConfig) (t : Tunnel env api host) (w : env.World)
      → IsValid env api t.channels
      → Fate c mapping t w (place env api host t c mapping w)
  unfolding place reject
  place-Fate c mapping t w v =
      let (now, w1) = env.millis w in
      let clock = led.millis_does w in
      let given = allocate_slot_lem env api t.channels w1 v in
      let quiet = allocate_slot-Does env api led t.channels w1 in
      elim (Bool-cases
        (is_mapping_backed_off env api host.ends t.channels mapping.remote_bind_port now)) [
          | inl b ↦ rw b (
              after_close_lem c mapping t w t w1
                (close_accepted_channel env api host (some c) 200 w1)
                (Does-Moved env api host led v clock)
                (close_accepted_channel_lem env api host led c 200 w1))
          | inr b ↦ rw b (
              offer_lem c mapping t w (allocate_slot env api t.channels w1) v given.0
                (λ i e. (given.1 i e).0) quiet.0
                (λ d. omega (arith, quiet.1.each (freed d), clock.each (freed d))))
        ]
