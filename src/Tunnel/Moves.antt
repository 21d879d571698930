-- ===== src/Tunnel/Moves.antt =====
-- What a step of `handleNewConnection` moves: which entries the queues gain and which channels are freed.
use esp_reverse_tunneling_li.Prelude.{
  ℕ, ◌+◌, ◌≤◌, ◌<◌, ◌≡◌, refl, sym, ap, ◌∙◌, inl, inr, Bool, true, false, some, List, [], ◌∷◌, ◌++◌,
  append-nil, arith, leb, leb→le, Bool-cases, length,
}
use esp_reverse_tunneling_li.Env.{Env}
use esp_reverse_tunneling_li.Ledger.{Deed, freed, times, Ledger, Does}
use esp_reverse_tunneling_li.RingApi.{RingApi}
use esp_reverse_tunneling_li.TunnelApi.{TunnelApi}
use esp_reverse_tunneling_li.Config.{TunnelConfig}
use esp_reverse_tunneling_li.Channel.Counts.{IsValid}
use esp_reverse_tunneling_li.Tunnel.{
  PendingChannel, Action, close, max_deferred_close, Tunnel, entry, defer, enqueue_deferred_close,
  close_accepted_channel,
}
use esp_reverse_tunneling_li.Tunnel.Held.{channels_of}
use esp_reverse_tunneling_li.Tunnel.Binds.{Closed, done, put_off, close_accepted_channel_lem}

-- An entry for the channel and what is to be done with it.
pub record IsEntry (c : ℕ) (mapping : TunnelConfig) (action : Action) (e : PendingChannel)
    : Type 0 where
  pub channel : e.channel ≡ some c
  pub mapped : e.mapping ≡ mapping
  pub to_do : e.action ≡ action

module _ (env : Env) (api : RingApi) (host : TunnelApi env api) (led : Ledger env) where
  -- Between two states of the tunnel: the manager is valid and each slot has the channel that it had, the
  -- queues gained these entries at their ends, and these deeds are all that was done to channels.
  pub record Moved (t : Tunnel env api host) (w : env.World) (t' : Tunnel env api host)
      (w' : env.World) (ps ds : List PendingChannel) (deeds : List Deed) : Type 0 where
    pub valid : IsValid env api t'.channels
    pub state : t'.state ≡ t.state
    pub pending : t'.pending ≡ t.pending ++ ps
    pub deferred : t'.deferred ≡ t.deferred ++ ds
    pub in_slots :
        channels_of env api led t'.channels.slots ≡ channels_of env api led t.channels.slots
    pub given_back :
        (d : ℕ) → led.count (freed d) w' ≡ led.count (freed d) w + times (freed d) deeds

  -- Nothing moved.
  abbrev pub Same : Tunnel env api host → env.World → Tunnel env api host → env.World → Type 0
  Same t w t' w' = Moved t w t' w' [] [] []

  pub Same-then :
      {t t' t'' : Tunnel env api host} {w w' w'' : env.World} {ps ds : List PendingChannel}
      {deeds : List Deed}
      → Same t w t' w'
      → Moved t' w' t'' w'' ps ds deeds
      → Moved t w t'' w'' ps ds deeds
  Same-then {t} {ps} {ds} a b = record {
    valid = b.valid;
    state = b.state ∙ a.state;
    pending = b.pending ∙ ap (λ q. q ++ ps) (a.pending ∙ append-nil t.pending);
    deferred = b.deferred ∙ ap (λ q. q ++ ds) (a.deferred ∙ append-nil t.deferred);
    in_slots = b.in_slots ∙ a.in_slots;
    given_back = λ d. omega (arith, a.given_back d, b.given_back d);
  }

  pub length-Same :
      {t t' : Tunnel env api host} {w w' : env.World}
      → Same t w t' w'
      → (length t'.pending ≡ length t.pending) × (length t'.deferred ≡ length t.deferred)
  length-Same {t} a =
      (ap length (a.pending ∙ append-nil t.pending), ap length (a.deferred ∙ append-nil t.deferred))

  -- The world alone went on.
  pub Does-Moved :
      {t : Tunnel env api host} {w w' : env.World} {deeds : List Deed}
      → IsValid env api t.channels
      → Does env led.count w deeds w'
      → Moved t w t w' [] [] deeds
  Does-Moved {t} v a = record {
    valid = v;
    state = refl;
    pending = sym (append-nil t.pending);
    deferred = sym (append-nil t.deferred);
    in_slots = refl;
    given_back = λ d. a.each (freed d);
  }

  -- How `enqueueDeferredClose` ends: the channel is freed or at the end of the queue, or that is full.
  pub data Put (c : ℕ) (mapping : TunnelConfig) (t : Tunnel env api host) (w : env.World)
      : Bool × Tunnel env api host × env.World → Type 0 where
    put_back :
        {t' : Tunnel env api host} {w' : env.World}
        → Moved t w t' w' [] [] (freed c ∷ [])
        → Put c mapping t w (true, t', w')
    put :
        {t' : Tunnel env api host} {w' : env.World} (e : PendingChannel)
        → IsEntry c mapping close e
        → length t.deferred < max_deferred_close
        → Moved t w t' w' [] (e ∷ []) []
        → Put c mapping t w (true, t', w')
    full :
        {t' : Tunnel env api host} {w' : env.World}
        → max_deferred_close ≤ length t.deferred
        → Same t w t' w'
        → Put c mapping t w (false, t', w')

  defer_lem :
      (c : ℕ) (mapping : TunnelConfig) (t : Tunnel env api host) (w : env.World)
      (r : Bool × env.World)
      → IsValid env api t.channels
      → Closed env api host led c w r
      → Put c mapping t w (defer env api host t c mapping r)
  unfolding defer entry
  defer_lem c mapping t w (true, w') v (done a) = put_back (Does-Moved v a)
  defer_lem c mapping t w (false, w') v (put_off a) =
      elim (Bool-cases (leb max_deferred_close (length t.deferred))) [
        | inl f ↦ simp f (full (leb→le _ _ f) (Does-Moved v a))
        | inr f ↦ simp f (
            put ((entry env api host c mapping close w').0)
              (record { channel = refl; mapped = refl; to_do = refl }) (ground (arith, f))
              (record {
                valid = v;
                state = refl;
                pending = sym (append-nil t.pending);
                deferred = refl;
                in_slots = refl;
                given_back =
                    λ d. omega (arith, a.each (freed d), (led.millis_does w').each (freed d));
              }))
      ]

  pub enqueue_lem :
      (c : ℕ) (mapping : TunnelConfig) (t : Tunnel env api host) (w : env.World)
      → IsValid env api t.channels
      → Put c mapping t w (enqueue_deferred_close env api host t c mapping w)
  unfolding enqueue_deferred_close
  enqueue_lem c mapping t w v =
      defer_lem c mapping t w (close_accepted_channel env api host (some c) 200 w) v
        (close_accepted_channel_lem env api host led c 200 w)
