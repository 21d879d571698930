-- ===== src/Tunnel/Drains.antt =====
-- The passes over the queues lose no channel: an entry that goes was bound to a slot or freed.
use esp_reverse_tunneling_li.Prelude.{
  ℕ, ◌+◌, ◌≤◌, ◌≡◌, refl, ap, inl, inr, Bool, true, false, Option, none, some, List, [], ◌∷◌, arith,
  ltb, Bool-cases, length, sub32,
}
use esp_reverse_tunneling_li.Env.{Env}
use esp_reverse_tunneling_li.Ledger.{freed, Ledger}
use esp_reverse_tunneling_li.RingApi.{RingApi}
use esp_reverse_tunneling_li.TunnelApi.{TunnelApi}
use esp_reverse_tunneling_li.Channel.Manager.{Channels, allocate_slot}
use esp_reverse_tunneling_li.Channel.Counts.{IsValid, allocate_slot_lem}
use esp_reverse_tunneling_li.Channel.Endpoint.{EndpointLaws}
use esp_reverse_tunneling_li.Tunnel.{
  PendingChannel, Action, bind, close, pending_timeout_ms, close_retry_timeout_ms, BindResult,
  bound, bind_failed, lock_unavailable, Tunnel, close_accepted_channel, bind_accepted_channel,
}
use esp_reverse_tunneling_li.Tunnel.Queues.{
  Pass, Step, close_or, try_close, close_entry, drop_entry, after_bind, bind_to, bind_entry,
  pending_step, deferred_step, expire_step, keep, sweep, start, drain_pending_queue,
  drain_deferred_close_queue, clean_expired_pending,
}
use esp_reverse_tunneling_li.Tunnel.Held.{holds, queued, weight, weight-Does, weight-allocate_slot}
use esp_reverse_tunneling_li.Tunnel.Binds.{
  Closed, done, put_off, close_accepted_channel_lem, BindEnds, is_bound, is_failed, is_locked_out,
  bind_accepted_channel_lem,
}

abbrev pub holds_entry : ℕ → Option PendingChannel → ℕ
holds_entry d none = 0
holds_entry d (some e) = holds d e.channel

queued-keep :
    (d : ℕ) (r : Option PendingChannel) (es : List PendingChannel)
    → queued d (keep r es) ≡ holds_entry d r + queued d es
queued-keep d none es = omega arith
queued-keep d (some e) es = refl

length-keep :
    (r : Option PendingChannel) (es : List PendingChannel) → length (keep r es) ≤ 1 + length es
length-keep none es = omega arith
length-keep (some e) es = omega arith

pub length-sweep :
    {env : Env} {api : RingApi} {host : TunnelApi env api}
    (step : PendingChannel → Pass env api host → Step env api host) (es : List PendingChannel)
    (p : Pass env api host)
    → length (sweep env api host step es p).0 ≤ length es
unfolding sweep
length-sweep step [] p = omega arith
length-sweep {env} {api} {host} step (e ∷ es) p =
    let (r, p1) = step e p in
    omega (
      arith,
      length-keep r (sweep env api host step es p1).0,
      length-sweep {env = env} {api = api} {host = host} step es p1,
    )

module _ (env : Env) (api : RingApi) (host : TunnelApi env api) (led : Ledger env)
    (laws : EndpointLaws env host.ends led) where
  abbrev weigh : ℕ → Pass env api host → ℕ
  weigh d p = weight env api led d p.channels p.world

  -- The manager stays valid, and the channel of the entry is in the entry that stays, in a slot or freed.
  pub record Keeps (o : Option ℕ) (p : Pass env api host) (q : Step env api host) : Type 0 where
    pub valid : IsValid env api q.1.channels
    pub kept : (d : ℕ) → weigh d q.1 + holds_entry d q.0 ≡ weigh d p + holds d o

  -- A pass that does nothing to the entry.
  stays :
      (o : Option ℕ) (e : PendingChannel) (p p' : Pass env api host)
      → o ≡ e.channel
      → IsValid env api p'.channels
      → ((d : ℕ) → weigh d p' ≡ weigh d p)
      → Keeps o p (some e, p')
  stays o e p p' same v f = record {
    valid = v;
    kept = λ d. let h : holds d o ≡ holds d e.channel = ap (holds d) same in omega (arith, f d, h);
  }

  after_quiet :
      (o : Option ℕ) (p p' : Pass env api host) (q : Step env api host)
      → ((d : ℕ) → weigh d p' ≡ weigh d p)
      → Keeps o p' q
      → Keeps o p q
  after_quiet o p p' q f k = record { valid = k.valid; kept = λ d. omega (arith, f d, k.kept d) }

  close_or_lem :
      (kept_entry : PendingChannel) (c : ℕ) (p : Pass env api host) (r : Bool × env.World)
      → some c ≡ kept_entry.channel
      → IsValid env api p.channels
      → Closed env api host led c p.world r
      → Keeps (some c) p (close_or env api host kept_entry p r)
  unfolding close_or weight
  close_or_lem kept_entry c p (true, w) same v (done a) = record {
    valid = v;
    kept = λ d. omega (arith, a.each (freed d));
  }
  close_or_lem kept_entry c p (false, w) same v (put_off a) =
      stays (some c) kept_entry p (record p { world = w }) same v
        (λ d. omega (arith, a.each (freed d)))

  try_close_lem :
      (kept_entry : PendingChannel) (c ms : ℕ) (p : Pass env api host)
      → some c ≡ kept_entry.channel
      → IsValid env api p.channels
      → Keeps (some c) p (try_close env api host kept_entry c ms p)
  unfolding try_close
  try_close_lem kept_entry c ms p same v =
      close_or_lem kept_entry c p (close_accepted_channel env api host (some c) ms p.world) same v
        (close_accepted_channel_lem env api host led c ms p.world)

  close_entry_lem :
      (now c : ℕ) (e : PendingChannel) (p : Pass env api host)
      → some c ≡ e.channel
      → IsValid env api p.channels
      → Keeps (some c) p (close_entry env api host now c e p)
  unfolding close_entry
  close_entry_lem now c e p same v =
      elim (Bool-cases (ltb close_retry_timeout_ms (sub32 now e.queued_at_ms))) [
        | inl t ↦ simp t (try_close_lem e c 100 p same v)
        | inr t ↦ simp t (try_close_lem e c 200 p same v)
      ]

  drop_entry_lem :
      (c : ℕ) (e : PendingChannel) (p : Pass env api host)
      → some c ≡ e.channel
      → IsValid env api p.channels
      → Keeps (some c) p (drop_entry env api host c e p)
  unfolding drop_entry
  drop_entry_lem c e p same v = try_close_lem (record e { action = close }) c 200 p same v

  after_bind_lem :
      (c i : ℕ) (e : PendingChannel) (p : Pass env api host)
      (r : BindResult × Channels env api × env.World) (m : Channels env api) (w : env.World)
      → some c ≡ e.channel
      → IsValid env api m
      → ((d : ℕ) → weight env api led d m w ≡ weigh d p)
      → BindEnds env api host led c i m w r
      → Keeps (some c) p (after_bind env api host c e i p r)
  unfolding after_bind
  after_bind_lem c i e p (bound, m', w') m w same v f (is_bound g _ _ v' _ _) = record {
    valid = v';
    kept = λ d. omega (arith, f d, g d);
  }
  after_bind_lem c i e p (lock_unavailable, m', w') m w same v f (is_locked_out g _) =
      stays (some c) e p (record p { channels = m; world = w' }) same v
        (λ d. omega (arith, f d, g d))
  after_bind_lem c i e p (bind_failed, m', w') m w same v f (is_failed g _ _ v' _ _) =
      after_quiet (some c) p (record p { channels = m'; world = w' })
        (drop_entry env api host c e (record p { channels = m'; world = w' }))
        (λ d. omega (arith, f d, g d))
        (drop_entry_lem c e (record p { channels = m'; world = w' }) same v')

  bind_to_lem :
      (c : ℕ) (e : PendingChannel) (p : Pass env api host)
      (r : Option ℕ × Channels env api × env.World)
      → some c ≡ e.channel
      → IsValid env api r.1
      → ((d : ℕ) → weight env api led d r.1 r.2 ≡ weigh d p)
      → Keeps (some c) p (bind_to env api host c e p r)
  unfolding bind_to
  bind_to_lem c e p (none, m, w) same v f =
      stays (some c) e p (record p { channels = m; world = w }) same v f
  bind_to_lem c e p (some i, m, w) same v f =
      after_bind_lem c i e p (bind_accepted_channel env api host m i c e.mapping 200 w) m w same v f
        (bind_accepted_channel_lem env api host led laws m i c e.mapping 200 w v)

  bind_entry_lem :
      (now c : ℕ) (e : PendingChannel) (p : Pass env api host)
      → some c ≡ e.channel
      → IsValid env api p.channels
      → Keeps (some c) p (bind_entry env api host now c e p)
  unfolding bind_entry
  bind_entry_lem now c e p same v =
      elim (Bool-cases (ltb pending_timeout_ms (sub32 now e.queued_at_ms))) [
        | inl t ↦ simp t (drop_entry_lem c e p same v)
        | inr t ↦ simp t (
            bind_to_lem c e p (allocate_slot env api p.channels p.world) same
              (allocate_slot_lem env api p.channels p.world v).0
              (λ d. weight-allocate_slot env api led d p.channels p.world))
      ]

  gone : (p : Pass env api host) → IsValid env api p.channels → Keeps none p (none, p)
  gone p v = record { valid = v; kept = λ d. refl }

  pending_step_lem :
      (now : ℕ) (o : Option ℕ) (a : Action) (e : PendingChannel) (p : Pass env api host)
      → o ≡ e.channel
      → IsValid env api p.channels
      → Keeps o p (pending_step env api host now o a e p)
  unfolding pending_step
  pending_step_lem now none a e p same v = gone p v
  pending_step_lem now (some c) close e p same v = close_entry_lem now c e p same v
  pending_step_lem now (some c) bind e p same v = bind_entry_lem now c e p same v

  deferred_step_lem :
      (now : ℕ) (o : Option ℕ) (e : PendingChannel) (p : Pass env api host)
      → o ≡ e.channel
      → IsValid env api p.channels
      → Keeps o p (deferred_step env api host now o e p)
  unfolding deferred_step
  deferred_step_lem now none e p same v = gone p v
  deferred_step_lem now (some c) e p same v = close_entry_lem now c e p same v

  expire_step_lem :
      (now : ℕ) (o : Option ℕ) (a : Action) (e : PendingChannel) (p : Pass env api host)
      → o ≡ e.channel
      → IsValid env api p.channels
      → Keeps o p (expire_step env api host now o a e p)
  unfolding expire_step
  expire_step_lem now none a e p same v = gone p v
  expire_step_lem now (some c) close e p same v = stays (some c) e p p same v (λ d. refl)
  expire_step_lem now (some c) bind e p same v =
      elim (Bool-cases (ltb pending_timeout_ms (sub32 now e.queued_at_ms))) [
        | inl t ↦ simp t (drop_entry_lem c e p same v)
        | inr t ↦ simp t (stays (some c) e p p same v (λ d. refl))
      ]

  -- A pass over a queue, if each round keeps its channel.
  sweep_lem :
      (step : PendingChannel → Pass env api host → Step env api host)
      (rounds : (e : PendingChannel) (p : Pass env api host)
        → IsValid env api p.channels
        → Keeps e.channel p (step e p))
      (es : List PendingChannel) (p : Pass env api host)
      → IsValid env api p.channels
      → let (left, p') = sweep env api host step es p in
        IsValid env api p'.channels
        × ((d : ℕ) → weigh d p' + queued d left ≡ weigh d p + queued d es)
  unfolding sweep
  sweep_lem step rounds [] p v = (v, λ d. refl)
  sweep_lem step rounds (e ∷ es) p v =
      let k = rounds e p v in
      let (v', f) = sweep_lem step rounds es (step e p).1 k.valid in
      (
        v',
        λ d. omega (
          arith,
          k.kept d,
          f d,
          queued-keep d (step e p).0 (sweep env api host step es (step e p).1).0,
        ),
      )

  -- How often a channel is in a slot or a queue of the tunnel, or was given back to libssh2.
  unfoldable pub held : ℕ → Tunnel env api host → env.World → ℕ
  unfolding weight
  held d t w = weight env api led d t.channels w + (queued d t.pending + queued d t.deferred)

  -- A step of the tunnel that leaves the manager valid and every channel where it can be found.
  pub record Conserves (t : Tunnel env api host) (w : env.World) (t' : Tunnel env api host)
      (w' : env.World) : Type 0 where
    pub valid : IsValid env api t'.channels
    pub kept : (d : ℕ) → held d t' w' ≡ held d t w

  weigh-millis :
      (d : ℕ) (m : Channels env api) (w : env.World)
      → weight env api led d m (env.millis w).1 ≡ weight env api led d m w
  weigh-millis d m w =
      weight-Does env api led d m m w (env.millis w).1 [] refl (led.millis_does w) refl

  -- A drain of the pending queue, whatever the clock, the lock, libssh2 and the endpoints do, keeps the
  -- invariant of the manager and loses or doubles no channel: each one that was in the queue is still
  -- in it, or in a slot, or `libssh2_channel_free` was called on it once.
  pub drain_pending_queue-Conserves :
      (t : Tunnel env api host) (w : env.World)
      → IsValid env api t.channels
      → let (t', w') = drain_pending_queue env api host t w in Conserves t w t' w'
  unfolding drain_pending_queue held
  drain_pending_queue-Conserves t w v =
      let (now, w1) = env.millis w in
      let (v', f) =
        sweep_lem (λ e. pending_step env api host now e.channel e.action e)
          (λ e p u. pending_step_lem now e.channel e.action e p refl u) t.pending
          (start env api host t w1) v in
      record { valid = v'; kept = λ d. omega (arith, f d, weigh-millis d t.channels w) }

  -- So does a drain of the deferred closes.
  pub drain_deferred_close_queue-Conserves :
      (t : Tunnel env api host) (w : env.World)
      → IsValid env api t.channels
      → let (t', w') = drain_deferred_close_queue env api host t w in Conserves t w t' w'
  unfolding drain_deferred_close_queue held
  drain_deferred_close_queue-Conserves t w v =
      let (now, w1) = env.millis w in
      let (v', f) =
        sweep_lem (λ e. deferred_step env api host now e.channel e)
          (λ e p u. deferred_step_lem now e.channel e p refl u) t.deferred (start env api host t w1)
          v in
      record { valid = v'; kept = λ d. omega (arith, f d, weigh-millis d t.channels w) }

  -- And so does the pass that drops the expired entries of the pending queue.
  pub clean_expired_pending-Conserves :
      (t : Tunnel env api host) (w : env.World)
      → IsValid env api t.channels
      → let (t', w') = clean_expired_pending env api host t w in Conserves t w t' w'
  unfolding clean_expired_pending held
  clean_expired_pending-Conserves t w v =
      let (now, w1) = env.millis w in
      let (v', f) =
        sweep_lem (λ e. expire_step env api host now e.channel e.action e)
          (λ e p u. expire_step_lem now e.channel e.action e p refl u) t.pending
          (start env api host t w1) v in
      record { valid = v'; kept = λ d. omega (arith, f d, weigh-millis d t.channels w) }
