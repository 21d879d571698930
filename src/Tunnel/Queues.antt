-- ===== src/Tunnel/Queues.antt =====
-- The queues of the tunnel (src/ssh_tunnel.cpp): what becomes of an entry on each pass.
use esp_reverse_tunneling_li.Prelude.{
  ℕ, Bool, true, false, Option, none, some, List, [], ◌∷◌, ◌++◌, ltb, if◌then◌else◌, sub32,
}
use esp_reverse_tunneling_li.Env.{Env}
use esp_reverse_tunneling_li.RingApi.{RingApi}
use esp_reverse_tunneling_li.TunnelApi.{TunnelApi}
use esp_reverse_tunneling_li.Channel.Manager.{Channels, allocate_slot}
use esp_reverse_tunneling_li.Tunnel.{
  PendingChannel, Action, bind, close, Event, channel_opened, pending_timeout_ms,
  close_retry_timeout_ms, BindResult, bound, bind_failed, lock_unavailable, Tunnel, close_and_free,
  close_accepted_channel, bind_accepted_channel,
}

-- An entry that stays, in front of those behind it.
abbrev pub keep : Option PendingChannel → List PendingChannel → List PendingChannel
keep none es = es
keep (some e) es = e ∷ es

module _ (env : Env) (api : RingApi) (host : TunnelApi env api) where
  -- What a pass over a queue works on, and the events that it makes.
  pub record Pass : Type 0 where
    pub channels : Channels env api
    pub world : env.World
    pub events : List Event

  -- The entry stays, or it is done with.
  abbrev pub Step : Type 0
  Step = Option PendingChannel × Pass

  unfoldable pub close_or : PendingChannel → Pass → Bool × env.World → Step
  close_or kept p (true, w) = (none, record p { world = w })
  close_or kept p (false, w) = (some kept, record p { world = w })

  -- The channel is closed, or the entry given first stays.
  unfoldable pub try_close : PendingChannel → ℕ → ℕ → Pass → Step
  unfolding close_or
  try_close kept c ms p = close_or kept p (close_accepted_channel env api host (some c) ms p.world)

  -- An entry that waits for its close: for long, the lock is awaited for 100 ms, else for 200 ms.
  unfoldable pub close_entry : ℕ → ℕ → PendingChannel → Pass → Step
  unfolding try_close
  close_entry now c e p =
      if ltb close_retry_timeout_ms (sub32 now e.queued_at_ms)
      then try_close e c 100 p
      else try_close e c 200 p

  -- An entry that is turned into one to be closed, if that cannot be done at once.
  unfoldable pub drop_entry : ℕ → PendingChannel → Pass → Step
  unfolding try_close
  drop_entry c e p = try_close (record e { action = close }) c 200 p

  unfoldable pub after_bind :
      ℕ → PendingChannel → ℕ → Pass → BindResult × Channels env api × env.World → Step
  unfolding drop_entry
  after_bind c e i p (bound, m, w) =
      (none, record { channels = m; world = w; events = p.events ++ (channel_opened i ∷ []) })
  after_bind c e i p (lock_unavailable, m, w) = (some e, record p { channels = m; world = w })
  after_bind c e i p (bind_failed, m, w) = drop_entry c e (record p { channels = m; world = w })

  unfoldable pub bind_to :
      ℕ → PendingChannel → Pass → Option ℕ × Channels env api × env.World → Step
  unfolding after_bind
  bind_to c e p (none, m, w) = (some e, record p { channels = m; world = w })
  bind_to c e p (some i, m, w) =
      after_bind c e i p (bind_accepted_channel env api host m i c e.mapping 200 w)

  -- An entry that waits for a slot.
  unfoldable pub bind_entry : ℕ → ℕ → PendingChannel → Pass → Step
  unfolding drop_entry bind_to
  bind_entry now c e p =
      if ltb pending_timeout_ms (sub32 now e.queued_at_ms)
      then drop_entry c e p
      else bind_to c e p (allocate_slot env api p.channels p.world)

  -- One round of `drainPendingQueue`, by the channel and the action of the entry.
  unfoldable pub pending_step : ℕ → Option ℕ → Action → PendingChannel → Pass → Step
  unfolding close_entry bind_entry
  pending_step now none action e p = (none, p)
  pending_step now (some c) close e p = close_entry now c e p
  pending_step now (some c) bind e p = bind_entry now c e p

  -- One round of `drainDeferredCloseQueue`.
  unfoldable pub deferred_step : ℕ → Option ℕ → PendingChannel → Pass → Step
  unfolding close_entry
  deferred_step now none e p = (none, p)
  deferred_step now (some c) e p = close_entry now c e p

  -- One round of `cleanExpiredPending`.
  unfoldable pub expire_step : ℕ → Option ℕ → Action → PendingChannel → Pass → Step
  unfolding drop_entry
  expire_step now none action e p = (none, p)
  expire_step now (some c) close e p = (some e, p)
  expire_step now (some c) bind e p =
      if ltb pending_timeout_ms (sub32 now e.queued_at_ms) then drop_entry c e p else (some e, p)

  -- The loop that they share, with the compaction: the entries that stay, in their order.
  unfoldable pub sweep :
      (PendingChannel → Pass → Step) → List PendingChannel → Pass → List PendingChannel × Pass
  sweep step [] p = ([], p)
  sweep step (e ∷ es) p =
      let (r, p1) = step e p in let (rest, p2) = sweep step es p1 in (keep r rest, p2)

  abbrev pub start : Tunnel env api host → env.World → Pass
  start t w = record { channels = t.channels; world = w; events = t.events }

  unfoldable pub drain_pending_queue :
      Tunnel env api host → env.World → Tunnel env api host × env.World
  unfolding sweep pending_step
  drain_pending_queue t w =
      let (now, w1) = env.millis w in
      let (es, p) = sweep (λ e. pending_step now e.channel e.action e) t.pending (start t w1) in
      (record t { pending = es; channels = p.channels; events = p.events }, p.world)

  unfoldable pub drain_deferred_close_queue :
      Tunnel env api host → env.World → Tunnel env api host × env.World
  unfolding sweep deferred_step
  drain_deferred_close_queue t w =
      let (now, w1) = env.millis w in
      let (es, p) = sweep (λ e. deferred_step now e.channel e) t.deferred (start t w1) in
      (record t { deferred = es; channels = p.channels; events = p.events }, p.world)

  unfoldable pub clean_expired_pending :
      Tunnel env api host → env.World → Tunnel env api host × env.World
  unfolding sweep expire_step
  clean_expired_pending t w =
      let (now, w1) = env.millis w in
      let (es, p) = sweep (λ e. expire_step now e.channel e.action e) t.pending (start t w1) in
      (record t { pending = es; channels = p.channels; events = p.events }, p.world)

  -- The loops of `clearPendingQueue` and `clearDeferredCloseQueue`, under the lock.
  unfoldable pub free_all : List PendingChannel → env.World → env.World
  unfolding close_and_free
  free_all [] w = w
  free_all (e ∷ es) w =
      free_all es (elim e.channel [ none ↦ w | some c ↦ close_and_free env api host c w ])

  -- Both functions, on their queue: the result, and what is left of it.
  unfoldable pub clear_queue :
      List PendingChannel → env.World → Bool × List PendingChannel × env.World
  unfolding free_all
  clear_queue [] w = (true, [], w)
  clear_queue (e ∷ es) w =
      let (ok, w1) = env.lock 500 w in
      if ok then (true, [], env.unlock (free_all (e ∷ es) w1)) else (false, e ∷ es, w1)

  unfoldable pub clear_pending_queue :
      Tunnel env api host → env.World → Bool × Tunnel env api host × env.World
  unfolding clear_queue
  clear_pending_queue t w =
      let (ok, es, w') = clear_queue t.pending w in (ok, record t { pending = es }, w')

  unfoldable pub clear_deferred_close_queue :
      Tunnel env api host → env.World → Bool × Tunnel env api host × env.World
  unfolding clear_queue
  clear_deferred_close_queue t w =
      let (ok, es, w') = clear_queue t.deferred w in (ok, record t { deferred = es }, w')
