-- ===== src/Transport/Turn/Alive.antt =====
-- The bodies of the three phases leave a slot in use in use, and not closed.
use esp_reverse_tunneling_li.Prelude.{
  ℕ, zero, suc, ◌+◌, min, ◌≡◌, ◌≢◌, inl, inr, Bool, true, false, not, ◌&&◌, Option, none, some,
  arith, ltb, ◌==◌, if◌then◌else◌, Bool-cases, length,
}
use esp_reverse_tunneling_li.RingApi.{RingApi}
use esp_reverse_tunneling_li.DataRing
use esp_reverse_tunneling_li.DataRing.{DataRing}
use esp_reverse_tunneling_li.Env.{Env, ReadResult-cases, WriteResult-cases}
use esp_reverse_tunneling_li.Channel.{Slot, ChannelCloseReason, closed, begin_close, is_open, error}
use esp_reverse_tunneling_li.Transport.{Pump}
use esp_reverse_tunneling_li.Transport.Intake
use esp_reverse_tunneling_li.Transport.Deliver

module _ (env : Env) (api : RingApi) where
  -- In use and not closed.
  abbrev pub Alive : Slot env api → Type 0
  Alive s = (s.active ≡ true) × (s.state ≢ closed)

  pub begin_close-Alive :
      (s : Slot env api) (reason : ChannelCloseReason) (w : env.World)
      → Alive s
      → Alive (begin_close env api s reason w).0
  unfolding begin_close
  begin_close-Alive s reason w a = ground (arith, a)

  pub if-Alive :
      (b : Bool) (p q : Pump env api)
      → Alive p.slot
      → Alive q.slot
      → Alive (if b then p else q).slot
  if-Alive true p q a c = a
  if-Alive false p q a c = c

  if-AliveAny :
      (b : Bool) (p q : Bool × Pump env api)
      → Alive p.1.slot
      → Alive q.1.slot
      → Alive (if b then p else q).1.slot
  if-AliveAny true p q a c = a
  if-AliveAny false p q a c = c

  -- A slot that is closed on a test.
  pub if_open-Alive :
      (b : Bool) (s : Slot env api) (w : env.World)
      → Alive s
      → Alive (if b then begin_close env api s error w else (s, w)).0
  if_open-Alive true s w a = begin_close-Alive s error w a
  if_open-Alive false s w a = a

  module _ (buf_size : ℕ) where
    count_error-Alive :
        (p : Pump env api) → Alive p.slot → Alive (Intake.count_error env api buf_size p).slot
    unfolding Intake.count_error
    count_error-Alive p a =
        if-Alive _ _ _
          (begin_close-Alive (record p.slot { consecutive_errors = p.slot.consecutive_errors + 1 })
            error p.world a)
          a

    small_read-Alive :
        (channel : ℕ) (d : DataRing api.Ring) (any : Bool) (p : Pump env api)
        → Alive p.slot
        → Alive (Intake.small_read env api buf_size channel d (any, p)).1.slot
    unfolding Intake.small_read Intake.store
    small_read-Alive channel d any p a =
        if-AliveAny (DataRing.available api d == 0) _ _ a
          (elim (ReadResult-cases
            (env.channel_read channel (min (DataRing.available api d) 64) p.world).0) [
              | inl (bytes, e) ↦ rw e a
              | inr (inl e) ↦ rw e a
              | inr (inr (inl e)) ↦ rw e a
              | inr (inr (inr e)) ↦ rw e (count_error-Alive _ a)
            ])

    read_loop-Alive :
        (attempts channel : ℕ) (d : DataRing api.Ring) (any : Bool) (p : Pump env api)
        → Alive p.slot
        → Alive (Intake.read_loop env api buf_size attempts channel d (any, p)).1.slot
    unfolding Intake.read_loop Intake.store
    read_loop-Alive zero channel d any p a = a
    read_loop-Alive (suc attempts) channel d any p a =
        if-AliveAny (DataRing.available api d == 0) _ _ a
          (elim (ReadResult-cases
            (env.channel_read channel (min (DataRing.available api d) buf_size) p.world).0) [
              | inl (bytes, e) ↦
                  elim (Bool-cases
                    (Intake.is_high env api buf_size (DataRing.write api d bytes).1)) [
                      | inl h ↦ rw (e, h) a
                      | inr h ↦ rw (e, h) (read_loop-Alive attempts channel _ true _ a)
                    ]
              | inr (inl e) ↦ rw e a
              | inr (inr (inl e)) ↦ rw e a
              | inr (inr (inr e)) ↦ rw e (count_error-Alive _ a)
            ])

    check_eof-Alive :
        (channel : ℕ) (p : Pump env api)
        → Alive p.slot
        → Alive (Intake.check_eof env api buf_size channel p).slot
    unfolding Intake.check_eof
    check_eof-Alive channel p a = elim (Bool-cases p.slot.remote_eof) [
      | inl e ↦ rw e a
      | inr e ↦ rw e (elim (Bool-cases (env.channel_eof channel p.world).0) [
        | inl z ↦ rw z a
        | inr z ↦ rw z a
      ])
    ]

    read_chunks-Alive :
        (channel : ℕ) (d : DataRing api.Ring) (any : Bool) (p : Pump env api)
        → Alive p.slot
        → Alive (Intake.read_chunks env api buf_size channel d (any, p)).1.slot
    unfolding Intake.read_chunks
    read_chunks-Alive channel d any p a =
        check_eof-Alive channel _ (read_loop-Alive 4 channel d any p a)

    intake_live-Alive :
        (channel : ℕ) (d : DataRing api.Ring) (any : Bool) (p : Pump env api)
        → Alive p.slot
        → Alive (Intake.intake_live env api buf_size channel d (any, p)).1.slot
    unfolding Intake.intake_live
    intake_live-Alive channel d any p a =
        if-AliveAny p.slot.ssh_read_paused
          (if Intake.is_low env api buf_size d
            then Intake.read_chunks env api buf_size channel d
                (any, Intake.set_read_paused env api buf_size false p)
            else Intake.small_read env api buf_size channel d (any, p))
          (Intake.read_chunks env api buf_size channel d (any, p))
          (if-AliveAny (Intake.is_low env api buf_size d)
            (Intake.read_chunks env api buf_size channel d
              (any, Intake.set_read_paused env api buf_size false p))
            (Intake.small_read env api buf_size channel d (any, p))
            (read_chunks-Alive channel d any _ a) (small_read-Alive channel d any p a))
          (read_chunks-Alive channel d any p a)

    intake_channel-Alive :
        (m : Option ℕ) (r : Option (DataRing api.Ring)) (any : Bool) (p : Pump env api)
        → Alive p.slot
        → Alive (Intake.intake_channel env api buf_size m r (any, p)).1.slot
    unfolding Intake.intake_channel
    intake_channel-Alive none r any p a = a
    intake_channel-Alive (some channel) none any p a = elim (Bool-cases p.slot.remote_eof) [
      | inl e ↦ rw e a
      | inr e ↦ rw e a
    ]
    intake_channel-Alive (some channel) (some d) any p a =
        if-AliveAny p.slot.remote_eof
          (true, record p { world = (env.channel_read channel 64 p.world).1 })
          (Intake.intake_live env api buf_size channel d (any, p)) a
          (intake_live-Alive channel d any p a)

    pub intake-Alive :
        (any : Bool) (p : Pump env api)
        → Alive p.slot
        → Alive (Intake.intake env api buf_size (any, p)).1.slot
    unfolding Intake.intake
    intake-Alive any p a =
        if-AliveAny p.slot.active
          (Intake.intake_channel env api buf_size p.slot.ssh_channel p.slot.to_local (any, p))
          (any, p) (intake_channel-Alive p.slot.ssh_channel p.slot.to_local any p a) a

    deliver_loop-Alive :
        (attempts fd : ℕ) (d : DataRing api.Ring) (p : Pump env api)
        → Alive p.slot
        → Alive (Deliver.deliver_loop env api buf_size attempts fd d p).slot
    unfolding Deliver.deliver_loop Deliver.delivered Deliver.give_back Deliver.send_failed
        Deliver.start_stall
    deliver_loop-Alive zero fd d p a = a
    deliver_loop-Alive (suc attempts) fd d p a =
        let read = DataRing.read api d (min (DataRing.size api d) buf_size) in
        if-Alive (DataRing.is_empty api d) _ _ a (
          if-Alive (length read.0 == 0) _ _ a
            (elim (WriteResult-cases (env.socket_send fd read.0 p.world).0) [
              | inl (n, e) ↦ elim (Bool-cases (ltb n (length read.0))) [
                | inl z ↦ rw (e, z) a
                | inr z ↦ rw (e, z) (deliver_loop-Alive attempts fd _ _ a)
              ]
              | inr (inl e) ↦ rw e (if-Alive (p.slot.first_local_send_eagain_ms == 0) _ _ a a)
              | inr (inr e) ↦ rw e a
            ]))

    deliver_stall-Alive :
        (d : DataRing api.Ring) (p : Pump env api)
        → Alive p.slot
        → Alive (Deliver.check_stall env api buf_size d p).slot
    unfolding Deliver.check_stall
    deliver_stall-Alive d p a =
        if-Alive (ltb 0 p.slot.first_local_send_eagain_ms && not (DataRing.is_empty api d)) _ p
          (if-Alive _ _ (record p { world = (env.millis p.world).1 })
            (if_open-Alive (is_open p.slot.state) p.slot (env.millis p.world).1 a) a)
          a

    check_ring-Alive :
        (r : Option (DataRing api.Ring)) (p : Pump env api)
        → Alive p.slot
        → Alive (Deliver.check_ring env api buf_size r p).slot
    unfolding Deliver.check_ring
    check_ring-Alive none p a = a
    check_ring-Alive (some d) p a = deliver_stall-Alive d p a

    deliver_ring-Alive :
        (m : Option ℕ) (r : Option (DataRing api.Ring)) (p : Pump env api)
        → Alive p.slot
        → Alive (Deliver.deliver_ring env api buf_size m r p).slot
    unfolding Deliver.deliver_ring
    deliver_ring-Alive none r p a = a
    deliver_ring-Alive (some fd) none p a = a
    deliver_ring-Alive (some fd) (some d) p a = check_ring-Alive _ _ (deliver_loop-Alive 4 fd d p a)

    pub deliver-Alive :
        (p : Pump env api) → Alive p.slot → Alive (Deliver.deliver env api buf_size p).slot
    unfolding Deliver.deliver
    deliver-Alive p a =
        if-Alive p.slot.active
          (Deliver.deliver_ring env api buf_size p.slot.local_socket p.slot.to_local p) p
          (deliver_ring-Alive p.slot.local_socket p.slot.to_local p a) a
