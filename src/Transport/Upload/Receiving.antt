-- ===== src/Transport/Upload/Receiving.antt =====
-- Step B of `drainLocalToSsh`, and the whole phase.
use esp_reverse_tunneling_li.Prelude.{
  ℕ, zero, suc, min, ◌≡◌, refl, sym, ap, ◌∙◌, inl, inr, true, ◌||◌, List, [], ◌++◌, append-nil,
  arith, ◌==◌, Bool-cases, length, take_all,
}
use esp_reverse_tunneling_li.DataRing
use esp_reverse_tunneling_li.DataRing.{DataRing}
use esp_reverse_tunneling_li.DataRing.Order
use esp_reverse_tunneling_li.DataRing.Write
use esp_reverse_tunneling_li.RingApi.{RingApi, RingLaws}
use esp_reverse_tunneling_li.Env.{Env, EnvLaws, to_channel, from_socket, bytes_of}
use esp_reverse_tunneling_li.Transport.{Pump}
use esp_reverse_tunneling_li.Transport.Upload.{put_ring, received, receive_loop}
use esp_reverse_tunneling_li.Env.{ReadResult, ReadResult-cases}
use esp_reverse_tunneling_li.Transport.Upload.Order.{
  Moves, Follows, Moves-Follows, stays, Moves-trans,
}

module _ (env : Env) (api : RingApi) (buf_size : ℕ) (world : EnvLaws env) (laws : RingLaws api)
    (channel fd : ℕ) where
  abbrev M : DataRing api.Ring → Pump env api → Pump env api → Type 0
  M = Moves env api buf_size world laws channel fd

  abbrev F : Pump env api → Pump env api → Type 0
  F = Follows env api buf_size world laws channel fd

  -- A call of the socket that gave nothing.
  no_bytes :
      (n : ℕ) (w : env.World)
      → bytes_of (env.socket_recv fd n w).0 ≡ []
      → world.log (from_socket fd) (env.socket_recv fd n w).1 ≡ world.log (from_socket fd) w
  no_bytes n w e = rw (e, append-nil) at (world.socket_recv_lem fd n w).0

  -- One read from the socket into the valid ring `d`.
  module _ (d : DataRing api.Ring) (p : Pump env api)
      (valid : DataRing.Order.IsValid api laws d) where
    asked : ℕ
    asked = min (DataRing.available api d) buf_size

    p1 : Pump env api
    unfolding asked
    p1 = record p { world = (env.socket_recv fd asked p.world).1 }

    got_lem :
        (bytes : List ℕ)
        → (env.socket_recv fd asked p.world).0 ≡ ReadResult.got bytes
        → M d p (
            put_ring env api buf_size
              (received env api buf_size p1 d bytes)
              (DataRing.write api d bytes).1)
    unfolding received asked p1
    got_lem bytes e =
        let given = rw e at (world.socket_recv_lem fd asked p.world) in
        let added = DataRing.Write.write_lem api laws d bytes valid in
        let all : (DataRing.write api d bytes).0 ≡ length bytes = omega (arith, added.0, given.1) in
        record {
          shipped = [];
          taken = bytes;
          out_log =
              world.millis_log (to_channel channel) _
              ∙ world.socket_recv_frame fd asked channel p.world
              ∙ sym (append-nil _);
          in_log = world.millis_log (from_socket fd) _ ∙ given.0;
          order =
              added.1
              ∙ ap (◌++◌ (DataRing.Order.contents api laws d))
                  (rw all (take_all (length bytes) bytes (omega arith)));
          sent = omega arith;
          moved = omega (arith, all);
          dropped = omega (arith, all);
          socket = refl;
          valid = added.2;
        }

    -- The socket gave nothing; the ring stays.
    nothing_lem :
        (q : Pump env api)
        → bytes_of (env.socket_recv fd asked p.world).0 ≡ []
        → q.world ≡ p1.world
        → q.slot.total_bytes_sent ≡ p.slot.total_bytes_sent
        → q.moved ≡ p.moved
        → q.slot.total_bytes_dropped ≡ p.slot.total_bytes_dropped
        → q.slot.local_socket ≡ p.slot.local_socket
        → M d p (put_ring env api buf_size q d)
    unfolding p1
    nothing_lem q e w s m k l = record {
      shipped = [];
      taken = [];
      out_log = rw w (world.socket_recv_frame fd asked channel p.world) ∙ sym (append-nil _);
      in_log = rw w (no_bytes asked p.world e) ∙ sym (append-nil _);
      order = sym (append-nil _);
      sent = rw s (omega arith);
      moved = rw m (omega arith);
      dropped = rw k refl;
      socket = l;
      valid = valid;
    }

    ended : Pump env api
    unfolding p1
    ended = record p1 { slot = record p.slot { local_eof = true } }

    -- One attempt, with the attempts behind it done.
    attempt :
        (attempts : ℕ)
        → ((d' : DataRing api.Ring) (q : Pump env api)
            → DataRing.Order.IsValid api laws d'
            → M d' q (receive_loop env api buf_size attempts fd d' q))
        → M d p (receive_loop env api buf_size (suc attempts) fd d p)
    unfolding receive_loop asked p1 ended
    attempt attempts later = elim (Bool-cases (p.slot.local_eof || p.slot.local_read_paused)) [
      | inl t ↦ simp t (stays env api buf_size world laws channel fd d d p refl valid)
      | inr t ↦ elim (Bool-cases (DataRing.available api d == 0)) [
        | inl z ↦
            simp (t, z)
              (Moves-Follows env api buf_size world laws channel fd d p
                (put_ring env api buf_size p d) _
                (stays env api buf_size world laws channel fd d d p refl valid)
                (record {
                  out_log = refl;
                  in_log = refl;
                  ring = refl;
                  sent = refl;
                  moved = refl;
                  dropped = refl;
                  socket = refl;
                }))
        | inr z ↦ elim (ReadResult-cases (env.socket_recv fd asked p.world).0) [
          | inl (bytes, e) ↦
              simp (t, z, e)
                (Moves-trans env api buf_size world laws channel fd d _ p _ _ (got_lem bytes e)
                  (later _ _ (DataRing.Write.write_lem api laws d bytes valid).2))
          | inr (inl e) ↦ simp (t, z, e) (nothing_lem ended (rw e refl) refl refl refl refl refl)
          | inr (inr (inl e)) ↦ simp (t, z, e) (nothing_lem p1 (rw e refl) refl refl refl refl refl)
          | inr (inr (inr e)) ↦
              simp (t, z, e) (nothing_lem ended (rw e refl) refl refl refl refl refl)
        ]
      ]
    ]

  pub receive_loop-Moves :
      (attempts : ℕ) (d : DataRing api.Ring) (p : Pump env api)
      → DataRing.Order.IsValid api laws d
      → M d p (receive_loop env api buf_size attempts fd d p)
  unfolding receive_loop
  receive_loop-Moves zero d p v = stays env api buf_size world laws channel fd d d p refl v
  receive_loop-Moves (suc attempts) d p v =
      attempt d p v attempts (λ d' q v'. receive_loop-Moves attempts d' q v')
