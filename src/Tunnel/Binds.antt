-- ===== src/Tunnel/Binds.antt =====
-- How the attempts to close an accepted channel, and to bind it to a slot, end.
use esp_reverse_tunneling_li.Prelude.{
  ℕ, ◌+◌, ◌≡◌, refl, ap, ◌∙◌, inl, inr, Bool, true, false, some, [], ◌∷◌, arith, if◌then◌else◌,
  length, set, length-set,
}
use esp_reverse_tunneling_li.Env.{Env}
use esp_reverse_tunneling_li.Ledger.{freed, Ledger, Does, Does-trans}
use esp_reverse_tunneling_li.RingApi.{RingApi}
use esp_reverse_tunneling_li.TunnelApi.{TunnelApi}
use esp_reverse_tunneling_li.Config.{TunnelConfig}
use esp_reverse_tunneling_li.Channel.Manager.{Channels}
use esp_reverse_tunneling_li.Channel.Counts.{IsValid, AllSlots-get_elem?}
use esp_reverse_tunneling_li.Channel.Endpoint.{EndpointLaws}
use esp_reverse_tunneling_li.Channel.Bind.{bind_channel}
use esp_reverse_tunneling_li.Channel.Bind.Valid.{bind_channel-IsValid}
use esp_reverse_tunneling_li.Channel.Bind.Verdict.{Outcome, taken, refused, bind_channel_lem}
use esp_reverse_tunneling_li.Tunnel.{
  BindResult, bound, bind_failed, lock_unavailable, close_and_free, close_locked,
  close_accepted_channel, bind_locked, bind_accepted_channel,
}
use esp_reverse_tunneling_li.Tunnel.Held.{holds, slotted, slotted-set, Seated, weight, weight-Does}

module _ (env : Env) (api : RingApi) (host : TunnelApi env api) (led : Ledger env) where
  -- A close that was tried: the channel is freed, or nothing was done.
  pub data Closed (c : ℕ) (w : env.World) : Bool × env.World → Type 0 where
    done : {w' : env.World} → Does env led.count w (freed c ∷ []) w' → Closed c w (true, w')
    put_off : {w' : env.World} → Does env led.count w [] w' → Closed c w (false, w')

  close_locked_lem :
      (c : ℕ) (w : env.World) (r : Bool × env.World)
      → Does env led.count w [] r.1
      → Closed c w (close_locked env api host c r)
  unfolding close_locked close_and_free
  close_locked_lem c w (true, w') a = done (
      Does-trans env led.count a (
        Does-trans env led.count (led.channel_close_does c w') (
          Does-trans env led.count (led.channel_free_does c (env.channel_close c w').1)
            (led.unlock_does (close_and_free env api host c w')))))
  close_locked_lem c w (false, w') a = put_off a

  pub close_accepted_channel_lem :
      (c ms : ℕ) (w : env.World) → Closed c w (close_accepted_channel env api host (some c) ms w)
  unfolding close_accepted_channel
  close_accepted_channel_lem c ms w = close_locked_lem c w (env.lock ms w) (led.lock_does ms w)

  -- How `bindAcceptedChannel` ends: only a bound channel counts one more, and is in the slot; nothing is
  -- freed.
  pub data BindEnds (c i : ℕ) (m : Channels env api) (w : env.World)
      : BindResult × Channels env api × env.World → Type 0 where
    is_bound :
        {m' : Channels env api} {w' : env.World}
        → ((d : ℕ) → weight env api led d m' w' ≡ weight env api led d m w + holds d (some c))
        → m'.active_count ≡ m.active_count + 1
        → length m'.slots ≡ length m.slots
        → IsValid env api m'
        → Seated env api led c i m.slots m'.slots
        → ((d : ℕ) → led.count (freed d) w' ≡ led.count (freed d) w)
        → BindEnds c i m w (bound, m', w')
    is_failed :
        {m' : Channels env api} {w' : env.World}
        → ((d : ℕ) → weight env api led d m' w' ≡ weight env api led d m w)
        → m'.active_count ≡ m.active_count
        → length m'.slots ≡ length m.slots
        → IsValid env api m'
        → m'.slots ≡ m.slots
        → ((d : ℕ) → led.count (freed d) w' ≡ led.count (freed d) w)
        → BindEnds c i m w (bind_failed, m', w')
    is_locked_out :
        {w' : env.World}
        → ((d : ℕ) → weight env api led d m w' ≡ weight env api led d m w)
        → Does env led.count w [] w'
        → BindEnds c i m w (lock_unavailable, m, w')

  module _ (laws : EndpointLaws env host.ends led) where
    -- The weight behind `bindChannel` and `unlock`.
    bind_outcome_lem :
        (c i : ℕ) (m : Channels env api) (w w' : env.World)
        (r : Bool × Channels env api × env.World)
        → Does env led.count w [] w'
        → IsValid env api m
        → IsValid env api r.1
        → Outcome env api host.ends led laws m i c w' r
        → BindEnds c i m w (if r.0 then bound else bind_failed, r.1, env.unlock r.2)
    unfolding weight
    bind_outcome_lem c i m w w' (true, m', w'') a v v' (taken fd old s e idle slots n ch so act b) =
        let empty = (AllSlots-get_elem? env api m.slots i old v.each e).no_channel idle in
        is_bound
          (λ d.
            let old_holds : holds d old.ssh_channel ≡ 0 = ap (holds d) empty in
            let new_holds : holds d s.ssh_channel ≡ holds d (some c) = ap (holds d) ch in
            let slots' : slotted env api led d m'.slots ≡ slotted env api led d (set m.slots i s) =
              ap (slotted env api led d) slots in
            omega (
              arith,
              slots',
              slotted-set env api led d m.slots i old s e,
              old_holds,
              new_holds,
              a.each (freed d),
              b.each (freed d),
              (led.unlock_does w'').each (freed d),
            ))
          n (ap length slots ∙ length-set m.slots i s) v'
          (record {
            old = old;
            new = s;
            there = e;
            was_idle = idle;
            in_use = act;
            holds_it = ch;
            others = slots;
          })
          (λ d.
            omega (arith, a.each (freed d), b.each (freed d), (led.unlock_does w'').each (freed d)))
    bind_outcome_lem c i m w w' (false, m', w'') a v v' (refused slots n b) =
        is_failed
          (λ d.
            let same_slots : slotted env api led d m'.slots ≡ slotted env api led d m.slots =
              ap (slotted env api led d) slots in
            elim b [
              | inl b' ↦ omega (
                arith,
                same_slots,
                a.each (freed d),
                b'.each (freed d),
                (led.unlock_does w'').each (freed d),
              )
              | inr (fd, b') ↦ omega (
                arith,
                same_slots,
                a.each (freed d),
                b'.each (freed d),
                (led.unlock_does w'').each (freed d),
              )
            ])
          n (ap length slots) v' slots
          (λ d. elim b [
            | inl b' ↦
                omega
                  (arith, a.each (freed d), b'.each (freed d), (led.unlock_does w'').each (freed d))
            | inr (fd, b') ↦
                omega
                  (arith, a.each (freed d), b'.each (freed d), (led.unlock_does w'').each (freed d))
          ])

    bind_locked_lem :
        (c i : ℕ) (mapping : TunnelConfig) (m : Channels env api) (w : env.World)
        (r : Bool × env.World)
        → Does env led.count w [] r.1
        → IsValid env api m
        → BindEnds c i m w (bind_locked env api host m i c mapping r)
    unfolding bind_locked
    bind_locked_lem c i mapping m w (true, w') a v =
        bind_outcome_lem c i m w w' (bind_channel env api host.ends m i c mapping w') a v
          (bind_channel-IsValid env api host.ends m i c mapping w' v)
          (bind_channel_lem env api host.ends led laws m i c mapping w')
    bind_locked_lem c i mapping m w (false, w') a v =
        is_locked_out (λ d. weight-Does env api led d m m w w' [] refl a refl) a

    pub bind_accepted_channel_lem :
        (m : Channels env api) (i c : ℕ) (mapping : TunnelConfig) (ms : ℕ) (w : env.World)
        → IsValid env api m
        → BindEnds c i m w (bind_accepted_channel env api host m i c mapping ms w)
    unfolding bind_accepted_channel
    bind_accepted_channel_lem m i c mapping ms w v =
        bind_locked_lem c i mapping m w (env.lock ms w) (led.lock_does ms w) v
