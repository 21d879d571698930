-- ===== src/Transport/Turn/Writing.antt =====
-- The body of the third phase leaves a slot in use in use, and not closed.
use esp_reverse_tunneling_li.Prelude.{
  ℕ, zero, suc, ◌+◌, ◌-◌, min, inl, inr, ◌||◌, Option, none, some, ltb, ◌==◌, if◌then◌else◌,
  Bool-cases, length,
}
use esp_reverse_tunneling_li.RingApi.{RingApi}
use esp_reverse_tunneling_li.DataRing
use esp_reverse_tunneling_li.DataRing.{DataRing}
use esp_reverse_tunneling_li.Env.{Env, ReadResult-cases, WriteResult-cases}
use esp_reverse_tunneling_li.Channel.{is_open, error}
use esp_reverse_tunneling_li.Transport.{Pump, max_write_per_channel}
use esp_reverse_tunneling_li.Transport.Upload
use esp_reverse_tunneling_li.Transport.Turn.Alive.{
  Alive, begin_close-Alive, if-Alive, if_open-Alive,
}

module _ (env : Env) (api : RingApi) (buf_size : ℕ) where
  count_error-Alive :
      (p : Pump env api)
      → Alive env api p.slot
      → Alive env api (Upload.count_error env api buf_size p).slot
  unfolding Upload.count_error
  count_error-Alive p a =
      if-Alive env api _ _ _
        (begin_close-Alive env api
          (record p.slot { consecutive_errors = p.slot.consecutive_errors + 1 }) error p.world a)
        a

  write_loop-Alive :
      (fuel budget channel : ℕ) (d : DataRing api.Ring) (p : Pump env api)
      → Alive env api p.slot
      → Alive env api (Upload.write_loop env api buf_size fuel budget channel d p).slot
  unfolding Upload.write_loop Upload.written Upload.give_back Upload.count_eagain
  write_loop-Alive zero budget channel d p a = a
  write_loop-Alive (suc fuel) budget channel d p a =
      let read = DataRing.read api d (min budget buf_size) in
      if-Alive env api (budget == 0 || DataRing.is_empty api d) _ _ a (
        if-Alive env api (length read.0 == 0) _ _ a
          (elim (WriteResult-cases (env.channel_write channel read.0 p.world).0) [
            | inl (n, e) ↦ elim (Bool-cases (ltb n (length read.0))) [
              | inl z ↦ rw (e, z) a
              | inr z ↦ rw (e, z) (write_loop-Alive fuel (budget - n) channel _ _ a)
            ]
            | inr (inl e) ↦ rw e (if-Alive env api (p.slot.first_eagain_ms == 0) _ _ a a)
            | inr (inr e) ↦ rw e (count_error-Alive _ a)
          ]))

  check_stall-Alive :
      (p : Pump env api)
      → Alive env api p.slot
      → Alive env api (Upload.check_stall env api buf_size p).slot
  unfolding Upload.check_stall
  check_stall-Alive p a =
      if-Alive env api (ltb 0 p.slot.first_eagain_ms) _ p
        (if-Alive env api _ _ (record p { world = (env.millis p.world).1 })
          (if_open-Alive env api (is_open p.slot.state) p.slot (env.millis p.world).1 a) a)
        a

  write_ring-Alive :
      (channel : ℕ) (r : Option (DataRing api.Ring)) (p : Pump env api)
      → Alive env api p.slot
      → Alive env api (Upload.write_ring env api buf_size channel r p).slot
  unfolding Upload.write_ring
  write_ring-Alive channel none p a = a
  write_ring-Alive channel (some d) p a =
      let w = (env.lock 20 p.world).1 in
      let q =
        Upload.write_loop env api buf_size (max_write_per_channel + 1) max_write_per_channel channel
          d (record p { world = w }) in
      let r = record q { world = env.unlock q.world } in
      if-Alive env api (DataRing.is_empty api d) p
        (if (env.lock 20 p.world).0
          then Upload.check_stall env api buf_size r
          else record p { world = w })
        a
        (if-Alive env api (env.lock 20 p.world).0 (Upload.check_stall env api buf_size r)
          (record p { world = w })
          (check_stall-Alive r (
            write_loop-Alive (max_write_per_channel + 1) max_write_per_channel channel d
              (record p { world = w }) a))
          a)

  receive_loop-Alive :
      (attempts fd : ℕ) (d : DataRing api.Ring) (p : Pump env api)
      → Alive env api p.slot
      → Alive env api (Upload.receive_loop env api buf_size attempts fd d p).slot
  unfolding Upload.receive_loop Upload.received
  receive_loop-Alive zero fd d p a = a
  receive_loop-Alive (suc attempts) fd d p a =
      if-Alive env api (p.slot.local_eof || p.slot.local_read_paused) _ _ a (
        if-Alive env api (DataRing.available api d == 0) _ _ a
          (elim (ReadResult-cases
            (env.socket_recv fd (min (DataRing.available api d) buf_size) p.world).0) [
              | inl (bytes, e) ↦ rw e (receive_loop-Alive attempts fd _ _ a)
              | inr (inl e) ↦ rw e a
              | inr (inr (inl e)) ↦ rw e a
              | inr (inr (inr e)) ↦ rw e a
            ]))

  receive-Alive :
      (m : Option ℕ) (r : Option (DataRing api.Ring)) (p : Pump env api)
      → Alive env api p.slot
      → Alive env api (Upload.receive env api buf_size m r p).slot
  unfolding Upload.receive
  receive-Alive none r p a = a
  receive-Alive (some fd) none p a = a
  receive-Alive (some fd) (some d) p a =
      if-Alive env api (p.slot.local_eof || p.slot.local_read_paused || ltb 0 p.slot.eof_sent_ms) p
        _ a (receive_loop-Alive 3 fd d p a)

  set_paused-Alive :
      (r : Option (DataRing api.Ring)) (p : Pump env api)
      → Alive env api p.slot
      → Alive env api (Upload.set_paused env api buf_size r p).slot
  unfolding Upload.set_paused
  set_paused-Alive none p a = a
  set_paused-Alive (some d) p a = a

  read_local-Alive :
      (p : Pump env api)
      → Alive env api p.slot
      → Alive env api (Upload.read_local env api buf_size p).slot
  unfolding Upload.read_local
  read_local-Alive p a =
      let r = Upload.set_paused env api buf_size p.slot.to_remote p in
      receive-Alive r.slot.local_socket r.slot.to_remote r (set_paused-Alive p.slot.to_remote p a)

  upload_channel-Alive :
      (m : Option ℕ) (r : Option (DataRing api.Ring)) (p : Pump env api)
      → Alive env api p.slot
      → Alive env api (Upload.upload_channel env api buf_size m r p).slot
  unfolding Upload.upload_channel
  upload_channel-Alive none r p a = a
  upload_channel-Alive (some channel) r p a =
      let q = Upload.write_ring env api buf_size channel r p in
      if-Alive env api (ltb 0 p.slot.eof_sent_ms) p (Upload.read_local env api buf_size q) a
        (read_local-Alive q (write_ring-Alive channel r p a))

  pub upload-Alive :
      (p : Pump env api)
      → Alive env api p.slot
      → Alive env api (Upload.upload env api buf_size p).slot
  unfolding Upload.upload
  upload-Alive p a =
      if-Alive env api p.slot.active
        (Upload.upload_channel env api buf_size p.slot.ssh_channel p.slot.to_remote p) p
        (upload_channel-Alive p.slot.ssh_channel p.slot.to_remote p a) a
