-- ===== src/Transport/Upload/Whole.antt =====
-- `drainLocalToSsh` as a whole, on one slot.
use esp_reverse_tunneling_li.Prelude.{
  ℕ, ◌≤◌, ◌<◌, ◌≡◌, refl, sym, ap, ap₂, ◌∙◌, inl, inr, true, ◌||◌, Option, none, some, List, [],
  ◌++◌, append-nil, arith, ltb, if◌then◌else◌, Bool-cases, sub32,
}
use mathlib.Core.Path.{subst⁻¹}
use esp_reverse_tunneling_li.DataRing
use esp_reverse_tunneling_li.DataRing.{DataRing, prepend_cap}
use esp_reverse_tunneling_li.DataRing.Order
use esp_reverse_tunneling_li.RingApi.{RingApi, RingLaws}
use esp_reverse_tunneling_li.Env.{Env, EnvLaws, to_channel, from_socket}
use esp_reverse_tunneling_li.Channel.{begin_close, error, is_open}
use esp_reverse_tunneling_li.Channel.Lifecycle.{SameData, begin_close-SameData, begin_close_log}
use esp_reverse_tunneling_li.Transport.{Pump}
use esp_reverse_tunneling_li.Transport.Upload.{
  check_stall, write_ring, set_paused, receive, read_local, upload_channel, upload,
}
use esp_reverse_tunneling_li.Transport.Upload.Order.{
  Moves, Follows, Moves-Follows, Moves-trans, with_ring, has_ring,
}
use esp_reverse_tunneling_li.Transport.Upload.Sending.{write_loop-Moves}
use esp_reverse_tunneling_li.Transport.Upload.Receiving.{receive_loop-Moves}

module _ (env : Env) (api : RingApi) (buf_size : ℕ) (world : EnvLaws env) (laws : RingLaws api)
    (channel fd : ℕ) where
  abbrev M : DataRing api.Ring → Pump env api → Pump env api → Type 0
  M = Moves env api buf_size world laws channel fd

  abbrev F : Pump env api → Pump env api → Type 0
  F = Follows env api buf_size world laws channel fd

  check_stall-Follows : (q : Pump env api) → F q (check_stall env api buf_size q)
  unfolding check_stall
  check_stall-Follows q = elim (Bool-cases (ltb 0 q.slot.first_eagain_ms)) [
    | inl t ↦ elim (Bool-cases (ltb 3000 (sub32 (env.millis q.world).0 q.slot.first_eagain_ms))) [
      | inl u ↦ elim (Bool-cases (is_open q.slot.state)) [
        | inl o ↦
            simp (t, u, o)
              (record {
                out_log =
                    world.millis_log _ _
                    ∙ begin_close_log env api world _ q.slot error w1
                    ∙ world.millis_log _ _;
                in_log =
                    world.millis_log _ _
                    ∙ begin_close_log env api world _ q.slot error w1
                    ∙ world.millis_log _ _;
                ring = same.to_remote;
                sent = same.sent;
                moved = refl;
                dropped = same.dropped;
                socket = same.local_socket;
              })
        | inr o ↦
            simp (t, u, o)
              (record {
                out_log = world.millis_log _ _ ∙ world.millis_log _ _;
                in_log = world.millis_log _ _ ∙ world.millis_log _ _;
                ring = refl;
                sent = refl;
                moved = refl;
                dropped = refl;
                socket = refl;
              })
      ]
      | inr u ↦
          simp (t, u)
            (record {
              out_log = world.millis_log _ _;
              in_log = world.millis_log _ _;
              ring = refl;
              sent = refl;
              moved = refl;
              dropped = refl;
              socket = refl;
            })
    ]
    | inr t ↦ simp t (record {
      out_log = refl;
      in_log = refl;
      ring = refl;
      sent = refl;
      moved = refl;
      dropped = refl;
      socket = refl;
    })
  ]
    where
      w1 : env.World
      w1 = (env.millis q.world).1

      same : SameData env api q.slot (begin_close env api q.slot error w1).0
      same = begin_close-SameData env api q.slot error w1

  set_paused-Follows :
      (r : Option (DataRing api.Ring)) (q : Pump env api) → F q (set_paused env api buf_size r q)
  unfolding set_paused
  set_paused-Follows none q = record {
    out_log = refl;
    in_log = refl;
    ring = refl;
    sent = refl;
    moved = refl;
    dropped = refl;
    socket = refl;
  }
  set_paused-Follows (some d) q = record {
    out_log = refl;
    in_log = refl;
    ring = refl;
    sent = refl;
    moved = refl;
    dropped = refl;
    socket = refl;
  }

  -- The phase on the ring as it is, when it does nothing.
  idle :
      (d : DataRing api.Ring) (p : Pump env api)
      → p.slot.to_remote ≡ some d
      → DataRing.Order.IsValid api laws d
      → M d p p
  idle d p e v = record {
    shipped = [];
    taken = [];
    out_log = sym (append-nil _);
    in_log = sym (append-nil _);
    order = rw e (sym (append-nil _));
    sent = omega arith;
    moved = omega arith;
    dropped = refl;
    socket = refl;
    valid = rw e v;
  }

  -- The same from a state that differs in the world only, with the same histories.
  from_world :
      (d : DataRing api.Ring) (p q : Pump env api) (w : env.World)
      → world.log (to_channel channel) w ≡ world.log (to_channel channel) p.world
      → world.log (from_socket fd) w ≡ world.log (from_socket fd) p.world
      → M d (record p { world = w }) q
      → M d p q
  from_world d p q w o i m = record {
    shipped = m.shipped;
    taken = m.taken;
    out_log = m.out_log ∙ ap (λ (xs : List ℕ). xs ++ m.shipped) o;
    in_log = m.in_log ∙ ap (λ (xs : List ℕ). xs ++ m.taken) i;
    order = m.order;
    sent = m.sent;
    moved = m.moved;
    dropped = m.dropped;
    socket = m.socket;
    valid = m.valid;
  }

  write_ring-Moves :
      (d : DataRing api.Ring) (p : Pump env api)
      → p.slot.to_remote ≡ some d
      → DataRing.Order.IsValid api laws d
      → 0 < buf_size
      → buf_size ≤ prepend_cap
      → M d p (write_ring env api buf_size channel (some d) p)
  unfolding write_ring
  write_ring-Moves d p e v h k = elim (Bool-cases (DataRing.is_empty api d)) [
    | inl t ↦ simp t (idle d p e v)
    | inr t ↦ elim (Bool-cases (env.lock 20 p.world).0) [
      | inl l ↦
          simp (t, l)
            (from_world d p _ w out_same in_same (
              Moves-Follows env api buf_size world laws channel fd d _ _ _
                (Moves-Follows env api buf_size world laws channel fd d _ _ _
                  (write_loop-Moves env api buf_size world laws channel fd 16385 16384 d
                    (record p { world = w }) v h k)
                  (record {
                    out_log = world.unlock_log _ _;
                    in_log = world.unlock_log _ _;
                    ring = refl;
                    sent = refl;
                    moved = refl;
                    dropped = refl;
                    socket = refl;
                  }))
                (check_stall-Follows _)))
      | inr l ↦
          simp (t, l) (from_world d p _ w out_same in_same (idle d (record p { world = w }) e v))
    ]
  ]
    where
      w : env.World
      w = (env.lock 20 p.world).1

      out_same : world.log (to_channel channel) w ≡ world.log (to_channel channel) p.world
      out_same = world.lock_log _ _ _

      in_same : world.log (from_socket fd) w ≡ world.log (from_socket fd) p.world
      in_same = world.lock_log _ _ _

  receive-Moves :
      (d : DataRing api.Ring) (p : Pump env api)
      → p.slot.to_remote ≡ some d
      → DataRing.Order.IsValid api laws d
      → M d p (receive env api buf_size (some fd) (some d) p)
  unfolding receive
  receive-Moves d p e v =
      elim (Bool-cases (p.slot.local_eof || p.slot.local_read_paused || ltb 0 p.slot.eof_sent_ms)) [
        | inl t ↦ simp t (idle d p e v)
        | inr t ↦ simp t (receive_loop-Moves env api buf_size world laws channel fd 3 d p v)
      ]

  read_local-Moves :
      (d : DataRing api.Ring) (q : Pump env api)
      → q.slot.to_remote ≡ some d
      → q.slot.local_socket ≡ some fd
      → DataRing.Order.IsValid api laws d
      → M d q (read_local env api buf_size q)
  unfolding read_local
  read_local-Moves d q e s v =
      Moves-trans env api buf_size world laws channel fd d d q r _
        (with_ring env api buf_size world laws channel fd d d q r
          (Moves-Follows env api buf_size world laws channel fd d q q r (idle d q e v) f)
          (f.ring ∙ e))
        (subst⁻¹ (M d r) (ap₂ (λ x y. receive env api buf_size x y r) (f.socket ∙ s) (f.ring ∙ e))
          (receive-Moves d r (f.ring ∙ e) v))
    where
      r : Pump env api
      r = set_paused env api buf_size q.slot.to_remote q

      f : F q r
      f = set_paused-Follows q.slot.to_remote q

  upload_eq :
      (p : Pump env api) (d : DataRing api.Ring)
      → p.slot.active ≡ true
      → p.slot.ssh_channel ≡ some channel
      → p.slot.to_remote ≡ some d
      → upload env api buf_size p ≡ (
          if ltb 0 p.slot.eof_sent_ms
          then p
          else read_local env api buf_size (write_ring env api buf_size channel (some d) p))
  unfolding upload upload_channel
  upload_eq p d a c r = simp a (ap₂ (λ x y. upload_channel env api buf_size x y p) c r)

  -- The phase on a slot in use with a channel, a local socket and a valid toRemote ring, for a buffer of 1
  -- to 8192 bytes and whatever the channel and the socket answer: the bytes that the channel took, then
  -- those in the ring, are those that the ring held, then those that came from the socket, in order; they
  -- are counted as sent and as moved, none is counted as dropped, and the ring stays valid.
  pub upload-Moves :
      (p : Pump env api) (d : DataRing api.Ring)
      → p.slot.active ≡ true
      → p.slot.ssh_channel ≡ some channel
      → p.slot.local_socket ≡ some fd
      → p.slot.to_remote ≡ some d
      → DataRing.Order.IsValid api laws d
      → 0 < buf_size
      → buf_size ≤ prepend_cap
      → M d p (upload env api buf_size p)
  upload-Moves p d a c s r v h k =
      subst⁻¹ (M d p) (upload_eq p d a c r) (elim (Bool-cases (ltb 0 p.slot.eof_sent_ms)) [
        | inl t ↦ simp t (idle d p r v)
        | inr t ↦ simp t (
            let m = write_ring-Moves d p r v h k in
            let (d', e, v') =
              has_ring env api buf_size world laws channel fd q.slot.to_remote m.valid in
            Moves-trans env api buf_size world laws channel fd d d' p q _
              (with_ring env api buf_size world laws channel fd d d' p q m e)
              (read_local-Moves d' q e (m.socket ∙ s) v'))
      ])
    where
      q : Pump env api
      q = write_ring env api buf_size channel (some d) p
