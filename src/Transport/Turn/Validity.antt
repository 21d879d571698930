-- ===== src/Transport/Turn/Validity.antt =====
-- `pumpAll` keeps the invariant of the channel manager, which is what the tunnel asks of its pump.
use esp_reverse_tunneling_li.Prelude.{
  ℕ, zero, suc, ◌%◌, ◌≡◌, refl, sym, ap, ◌∙◌, inl, inr, Bool, false, not, ◌||◌, Bool-cases,
  Option-cases, length, get_elem?, add32,
}
use mathlib.Core.Path.{subst}
use esp_reverse_tunneling_li.RingApi.{RingApi}
use esp_reverse_tunneling_li.Env.{Env}
use esp_reverse_tunneling_li.Channel.{Slot}
use esp_reverse_tunneling_li.Channel.Manager.{Channels}
use esp_reverse_tunneling_li.Channel.Counts.{IsValid, SlotIsValid, AllSlots-get_elem?, set-IsValid}
use esp_reverse_tunneling_li.Channel.Endpoint.{EndpointApi}
use esp_reverse_tunneling_li.TunnelApi.{SessionApi, TunnelLaws}
use esp_reverse_tunneling_li.Transport.{Pump}
use esp_reverse_tunneling_li.Transport.Intake.{intake}
use esp_reverse_tunneling_li.Transport.Deliver.{deliver}
use esp_reverse_tunneling_li.Transport.Upload.{upload}
use esp_reverse_tunneling_li.Transport.Closes.Validity.{check_closes-IsValid}
use esp_reverse_tunneling_li.Transport.Turn.{
  TransportPump, Sweep, Body, on_slot, round_robin, pump_ssh_transport, drain_ssh_to_local,
  drain_local_to_ssh, move_bytes, pump_all, transport_pump,
}
use esp_reverse_tunneling_li.Transport.Turn.Alive.{Alive, intake-Alive, deliver-Alive}
use esp_reverse_tunneling_li.Transport.Turn.Writing.{upload-Alive}

module _ (env : Env) (api : RingApi) where
  -- A body leaves an idle slot as it is, and one in use in use and not closed.
  record KeepsUse (body : Body env api) : Type 0 where
    idle : (any : Bool) (p : Pump env api) → p.slot.active ≡ false → (body (any, p)).1.slot ≡ p.slot
    used :
        (any : Bool) (p : Pump env api)
        → Alive env api p.slot
        → Alive env api (body (any, p)).1.slot

  Alive-SlotIsValid : (s : Slot env api) → Alive env api s → SlotIsValid env api s
  Alive-SlotIsValid s (a, o) = record {
    no_channel = λ e. absurd (let f = sym a ∙ e in cc);
    no_socket = λ e. absurd (let f = sym a ∙ e in cc);
    no_to_local = λ e. absurd (let f = sym a ∙ e in cc);
    no_to_remote = λ e. absurd (let f = sym a ∙ e in cc);
    idle_closed = λ e. absurd (let f = sym a ∙ e in cc);
    used_not_closed = λ e. o;
  }

  body-SlotIsValid :
      (body : Body env api) (any : Bool) (p : Pump env api)
      → KeepsUse body
      → SlotIsValid env api p.slot
      → SlotIsValid env api (body (any, p)).1.slot × ((body (any, p)).1.slot.active ≡ p.slot.active)
  body-SlotIsValid body any p k v = elim (Bool-cases p.slot.active) [
    | inl t ↦
        let a = k.used any p (t, v.used_not_closed t) in
        (Alive-SlotIsValid (body (any, p)).1.slot a, a.0 ∙ sym t)
    | inr t ↦ (
      subst (λ s. SlotIsValid env api s) (sym (k.idle any p t)) v,
      ap (λ s. s.active) (k.idle any p t),
    )
  ]

  on_slot-IsValid :
      (body : Body env api) (i : ℕ) (c : Sweep env api)
      → KeepsUse body
      → IsValid env api c.channels
      → IsValid env api (on_slot env api body i c).channels
  unfolding on_slot
  on_slot-IsValid body i c k v = elim (Option-cases (get_elem? c.channels.slots i)) [
    | inl e ↦ rw (e, on_slot) v
    | inr (s, e) ↦
        let p : Pump env api = record { slot = s; moved = c.moved; world = c.world } in
        let b =
          body-SlotIsValid body c.any_read p k
            (AllSlots-get_elem? env api c.channels.slots i s v.each e) in
        rw (e, on_slot)
          (set-IsValid env api c.channels i s (body (c.any_read, p)).1.slot v e b.0 b.1)
  ]

  round_robin-IsValid :
      (body : Body env api) (rounds n offset size : ℕ) (c : Sweep env api)
      → KeepsUse body
      → IsValid env api c.channels
      → IsValid env api (round_robin env api body rounds n offset size c).channels
  unfolding round_robin
  round_robin-IsValid body zero n offset size c k v = v
  round_robin-IsValid body (suc rounds) n offset size c k v =
      round_robin-IsValid body rounds (suc n) offset size _ k
        (on_slot-IsValid body (add32 n offset % size) c k v)

  intake-KeepsUse : (buf_size : ℕ) → KeepsUse (intake env api buf_size)
  unfolding intake
  intake-KeepsUse buf_size = record {
    idle = λ any p e. simp e refl;
    used = intake-Alive env api buf_size;
  }

  deliver-KeepsUse : (buf_size : ℕ) → KeepsUse (λ s. (s.0, deliver env api buf_size s.1))
  unfolding deliver
  deliver-KeepsUse buf_size = record {
    idle = λ any p e. simp e refl;
    used = λ any p a. deliver-Alive env api buf_size p a;
  }

  upload-KeepsUse : (buf_size : ℕ) → KeepsUse (λ s. (s.0, upload env api buf_size s.1))
  unfolding upload
  upload-KeepsUse buf_size = record {
    idle = λ any p e. simp e refl;
    used = λ any p a. upload-Alive env api buf_size p a;
  }

  pump_ssh_transport-IsValid :
      (t : TransportPump) (c : Sweep env api)
      → IsValid env api c.channels
      → IsValid env api (pump_ssh_transport env api t c).channels
  unfolding pump_ssh_transport
  pump_ssh_transport-IsValid t c v = elim (Bool-cases (env.lock 50 c.world).0) [
    | inl e ↦ rw e (
        round_robin-IsValid (intake env api t.buf_size) (length c.channels.slots) 0
          t.round_robin_offset (length c.channels.slots) _ (intake-KeepsUse t.buf_size) v)
    | inr e ↦ rw e v
  ]

  drain_ssh_to_local-IsValid :
      (t : TransportPump) (c : Sweep env api)
      → IsValid env api c.channels
      → IsValid env api (drain_ssh_to_local env api t c).channels
  unfolding drain_ssh_to_local
  drain_ssh_to_local-IsValid t c v =
      let size = length c.channels.slots in
      round_robin-IsValid (λ s. (s.0, deliver env api t.buf_size s.1)) size 0 t.round_robin_offset
        size c (deliver-KeepsUse t.buf_size) v

  drain_local_to_ssh-IsValid :
      (t : TransportPump) (c : Sweep env api)
      → IsValid env api c.channels
      → IsValid env api (drain_local_to_ssh env api t c).channels
  unfolding drain_local_to_ssh
  drain_local_to_ssh-IsValid t c v =
      let size = length c.channels.slots in
      round_robin-IsValid (λ s. (s.0, upload env api t.buf_size s.1)) size 0 t.round_robin_offset
        size c (upload-KeepsUse t.buf_size) v

  move_bytes-IsValid :
      (t : TransportPump) (m : Channels env api) (w : env.World)
      → IsValid env api m
      → IsValid env api (move_bytes env api t m w).channels
  unfolding move_bytes
  move_bytes-IsValid t m w v =
      let c : Sweep env api = record { channels = m; moved = 0; any_read = false; world = w } in
      let c1 = pump_ssh_transport env api t c in
      drain_local_to_ssh-IsValid t (drain_ssh_to_local env api t c1)
        (drain_ssh_to_local-IsValid t c1 (pump_ssh_transport-IsValid t c v))

  -- One call of `pumpAll`, attached or not, with its buffer or not, at any round-robin offset, whatever
  -- the slots, the lock, the sockets, the clock and libssh2 do, keeps the invariant of the channel manager.
  pub pump_all-IsValid :
      (m : Channels env api) (t : TransportPump) (w : env.World)
      → IsValid env api m
      → let (any, m', t', w') = pump_all env api m t w in IsValid env api m'
  unfolding pump_all
  pump_all-IsValid m t w v = elim (Bool-cases (not t.attached || not t.allocated)) [
    | inl e ↦ rw e v
    | inr e ↦ rw e (
        let c = move_bytes env api t m w in
        check_closes-IsValid env api t.channel_timeout_ms c.channels t.session_degraded
          t.close_events c.world (move_bytes-IsValid t m w v))
  ]

  -- A tunnel on this pump has what it asks of a pump, whatever its session and its endpoints are.
  pub pump_all_laws :
      (allocate : ℕ → env.World → Bool × env.World) (session : SessionApi env)
      (ends : EndpointApi env) (take_stats : env.World → Bool × env.World)
      → TunnelLaws env api (record {
        session = session;
        pump = transport_pump env api allocate;
        ends = ends;
        take_stats = take_stats;
      })
  pump_all_laws allocate session ends take_stats = record { pump_all-IsValid = pump_all-IsValid }
