-- ===== src/Transport/Intake/Order.antt =====
-- Every byte that comes from the SSH channel is put at the end of the toLocal ring, in order.
use esp_reverse_tunneling_li.Prelude.{
  ℕ, zero, suc, ◌+◌, ◌%◌, ◌≤◌, min, ◌≡◌, refl, sym, ap, ap₂, ◌∙◌, inl, inr, Bool, true, false, ◌&&◌,
  Option, none, some, List, [], ◌++◌, append-nil, append_assoc, arith, ltb, ◌==◌, Bool-cases,
  length, length-append, take_all, word,
}
use mathlib.Core.Path.{subst⁻¹}
use esp_reverse_tunneling_li.DataRing
use esp_reverse_tunneling_li.DataRing.{DataRing}
use esp_reverse_tunneling_li.DataRing.Order
use esp_reverse_tunneling_li.DataRing.Write
use esp_reverse_tunneling_li.RingApi.{RingApi, RingLaws}
use esp_reverse_tunneling_li.Env.{
  Env, EnvLaws, ReadResult, ReadResult-cases, from_channel, bytes_of,
}
use esp_reverse_tunneling_li.Channel.{Slot, begin_close, error, is_open}
use esp_reverse_tunneling_li.Channel.Lifecycle.{SameData, begin_close-SameData, begin_close_log}
use esp_reverse_tunneling_li.Transport.{Pump}
use esp_reverse_tunneling_li.Transport.Intake.{
  put_ring, store, count_error, set_remote_eof, set_read_paused, is_high, is_low, small_read,
  read_loop, check_eof, read_chunks, intake_live, intake_channel, intake,
}

module _ (env : Env) (api : RingApi) (buf_size : ℕ) (world : EnvLaws env) (laws : RingLaws api)
    (channel : ℕ) where
  abbrev contents : Option (DataRing api.Ring) → List ℕ
  contents none = []
  contents (some d) = DataRing.Order.contents api laws d

  abbrev RingIsValid : Option (DataRing api.Ring) → Type 0
  RingIsValid none = ⊥
  RingIsValid (some d) = DataRing.Order.IsValid api laws d

  -- What happened between the states `p` and `p'` of a slot whose ring was `d`: the bytes that the
  -- channel gave stand at the end of the ring, and are counted as received and as moved; none is counted
  -- as dropped.
  pub record Takes (d : DataRing api.Ring) (p : Pump env api) (p' : Pump env api) : Type 0 where
    pub taken : List ℕ
    pub history :
        world.log (from_channel channel) p'.world
        ≡ world.log (from_channel channel) p.world ++ taken
    pub order : contents p'.slot.to_local ≡ DataRing.Order.contents api laws d ++ taken
    pub received :
        p'.slot.total_bytes_received % word ≡ (p.slot.total_bytes_received + length taken) % word
    pub moved : p'.moved % word ≡ (p.moved + length taken) % word
    pub dropped : p'.slot.total_bytes_dropped % word ≡ p.slot.total_bytes_dropped % word
    pub valid : RingIsValid p'.slot.to_local

  -- A later state with the same ring, counters and history.
  record Follows (q q' : Pump env api) : Type 0 where
    history : world.log (from_channel channel) q'.world ≡ world.log (from_channel channel) q.world
    ring : q'.slot.to_local ≡ q.slot.to_local
    received : q'.slot.total_bytes_received ≡ q.slot.total_bytes_received
    moved : q'.moved ≡ q.moved
    dropped : q'.slot.total_bytes_dropped ≡ q.slot.total_bytes_dropped

  Takes-Follows :
      (d : DataRing api.Ring) (p q q' : Pump env api) → Takes d p q → Follows q q' → Takes d p q'
  Takes-Follows d p q q' m f = record {
    taken = m.taken;
    history = f.history ∙ m.history;
    order = rw f.ring m.order;
    received = rw f.received m.received;
    moved = rw f.moved m.moved;
    dropped = rw f.dropped m.dropped;
    valid = rw f.ring m.valid;
  }

  -- Nothing was taken: the history and the counters are those of `p`, and the ring is `d`.
  nothing_taken :
      (d : DataRing api.Ring) (p q : Pump env api)
      → q.slot.to_local ≡ some d
      → DataRing.Order.IsValid api laws d
      → world.log (from_channel channel) q.world ≡ world.log (from_channel channel) p.world
      → q.slot.total_bytes_received ≡ p.slot.total_bytes_received
      → q.moved ≡ p.moved
      → q.slot.total_bytes_dropped ≡ p.slot.total_bytes_dropped
      → Takes d p q
  nothing_taken d p q r v h c m k = record {
    taken = [];
    history = h ∙ sym (append-nil _);
    order = rw r (sym (append-nil _));
    received = rw c (omega arith);
    moved = rw m (omega arith);
    dropped = rw k refl;
    valid = rw r v;
  }

  -- One stretch after another.
  Takes-trans :
      (d d' : DataRing api.Ring) (p q r : Pump env api)
      → Takes d p q
      → q.slot.to_local ≡ some d'
      → Takes d' q r
      → Takes d p r
  Takes-trans d d' p q r m e n = record {
    taken = m.taken ++ n.taken;
    history =
        n.history ∙ ap (λ (xs : List ℕ). xs ++ n.taken) m.history ∙ append_assoc _ m.taken n.taken;
    order =
        n.order
        ∙ ap (λ (xs : List ℕ). xs ++ n.taken) (ap contents (sym e) ∙ m.order)
        ∙ append_assoc _ m.taken n.taken;
    received = omega (arith, m.received, n.received, length-append m.taken n.taken);
    moved = omega (arith, m.moved, n.moved, length-append m.taken n.taken);
    dropped = n.dropped ∙ m.dropped;
    valid = n.valid;
  }

  count_error-Follows : (q : Pump env api) → Follows q (count_error env api buf_size q)
  unfolding count_error
  count_error-Follows q =
      elim (Bool-cases (ltb 3 (q.slot.consecutive_errors + 1) && is_open q.slot.state)) [
        | inl t ↦ simp t (record {
          history = begin_close_log env api world (from_channel channel) s error q.world;
          ring = same.to_local;
          received = same.received;
          moved = refl;
          dropped = same.dropped;
        })
        | inr t ↦
            simp t (record {
              history = refl;
              ring = refl;
              received = refl;
              moved = refl;
              dropped = refl;
            })
      ]
    where
      s : Slot env api
      s = record q.slot { consecutive_errors = q.slot.consecutive_errors + 1 }

      same : SameData env api s (begin_close env api s error q.world).0
      same = begin_close-SameData env api s error q.world

  -- One read of at most `n` bytes, no more than are free in the valid ring `d`.
  module _ (n : ℕ) (d : DataRing api.Ring) (p : Pump env api)
      (valid : DataRing.Order.IsValid api laws d) (room : n ≤ DataRing.available api d) where
    p1 : Pump env api
    p1 = record p { world = (env.channel_read channel n p.world).1 }

    got_lem :
        (bytes : List ℕ)
        → (env.channel_read channel n p.world).0 ≡ ReadResult.got bytes
        → Takes d p (store env api buf_size p1 d bytes)
    unfolding store p1
    got_lem bytes e =
        let given = rw e at (world.channel_read_lem channel n p.world) in
        let added = DataRing.Write.write_lem api laws d bytes valid in
        let all : (DataRing.write api d bytes).0 ≡ length bytes = omega (arith, added.0, given.1) in
        record {
          taken = bytes;
          history = world.millis_log (from_channel channel) _ ∙ given.0;
          order =
              added.1
              ∙ ap (◌++◌ (DataRing.Order.contents api laws d))
                  (rw all (take_all (length bytes) bytes (omega arith)));
          received = omega (arith, all);
          moved = omega (arith, all);
          dropped = omega (arith, all);
          valid = added.2;
        }

    none_lem :
        (q : Pump env api)
        → bytes_of (env.channel_read channel n p.world).0 ≡ []
        → q.world ≡ p1.world
        → q.slot.to_local ≡ some d
        → q.slot.total_bytes_received ≡ p.slot.total_bytes_received
        → q.moved ≡ p.moved
        → q.slot.total_bytes_dropped ≡ p.slot.total_bytes_dropped
        → Takes d p q
    unfolding p1
    none_lem q e w r c m k = nothing_taken d p q r valid (rw (e, append-nil) at silent) c m k
      where
        silent :
            world.log (from_channel channel) q.world
            ≡ world.log (from_channel channel) p.world
              ++ bytes_of (env.channel_read channel n p.world).0
        silent = rw w (world.channel_read_lem channel n p.world).0

  small_read-Takes :
      (d : DataRing api.Ring) (any : Bool) (p : Pump env api)
      → p.slot.to_local ≡ some d
      → DataRing.Order.IsValid api laws d
      → Takes d p (small_read env api buf_size channel d (any, p)).1
  unfolding small_read p1
  small_read-Takes d any p r v = elim (Bool-cases (DataRing.available api d == 0)) [
    | inl z ↦ simp z (nothing_taken d p p r v refl refl refl refl)
    | inr z ↦ elim (ReadResult-cases (env.channel_read channel n p.world).0) [
      | inl (bytes, e) ↦ simp (z, e) (got_lem n d p v room bytes e)
      | inr (inl e) ↦
          simp (z, e)
            (none_lem n d p v room (set_remote_eof env api buf_size q) (rw e refl) refl r refl refl
              refl)
      | inr (inr (inl e)) ↦ simp (z, e) (none_lem n d p v room q (rw e refl) refl r refl refl refl)
      | inr (inr (inr e)) ↦
          simp (z, e)
            (Takes-Follows d p q _ (none_lem n d p v room q (rw e refl) refl r refl refl refl)
              (count_error-Follows q))
    ]
  ]
    where
      n : ℕ
      n = min (DataRing.available api d) 64

      room : n ≤ DataRing.available api d
      room = omega arith

      q : Pump env api
      q = record p { world = (env.channel_read channel n p.world).1 }

  read_loop-Takes :
      (attempts : ℕ) (d : DataRing api.Ring) (any : Bool) (p : Pump env api)
      → DataRing.Order.IsValid api laws d
      → Takes d p (read_loop env api buf_size attempts channel d (any, p)).1
  unfolding read_loop store p1
  read_loop-Takes zero d any p v = nothing_taken d p _ refl v refl refl refl refl
  read_loop-Takes (suc attempts) d any p v = elim (Bool-cases (DataRing.available api d == 0)) [
    | inl z ↦ simp z (
        nothing_taken d p (put_ring env api buf_size (set_read_paused env api buf_size true p) d)
          refl v refl refl refl refl)
    | inr z ↦ elim (ReadResult-cases (env.channel_read channel n p.world).0) [
      | inl (bytes, e) ↦
          elim (Bool-cases (is_high env api buf_size (DataRing.write api d bytes).1)) [
            | inl u ↦
                simp (z, e, u)
                  (Takes-Follows d p (store env api buf_size q d bytes) _
                    (got_lem n d p v room bytes e)
                    (record {
                      history = refl;
                      ring = refl;
                      received = refl;
                      moved = refl;
                      dropped = refl;
                    }))
            | inr u ↦
                simp (z, e, u)
                  (Takes-trans d (DataRing.write api d bytes).1 p (store env api buf_size q d bytes)
                    _ (got_lem n d p v room bytes e) refl
                    (read_loop-Takes attempts (DataRing.write api d bytes).1 true
                      (store env api buf_size q d bytes)
                      (DataRing.Write.write_lem api laws d bytes v).2))
          ]
      | inr (inl e) ↦
          simp (z, e)
            (none_lem n d p v room (set_remote_eof env api buf_size q') (rw e refl) refl refl refl
              refl refl)
      | inr (inr (inl e)) ↦
          simp (z, e) (none_lem n d p v room q' (rw e refl) refl refl refl refl refl)
      | inr (inr (inr e)) ↦
          simp (z, e)
            (Takes-Follows d p q' _ (none_lem n d p v room q' (rw e refl) refl refl refl refl refl)
              (count_error-Follows q'))
    ]
  ]
    where
      n : ℕ
      n = min (DataRing.available api d) buf_size

      room : n ≤ DataRing.available api d
      room = omega arith

      q : Pump env api
      q = record p { world = (env.channel_read channel n p.world).1 }

      q' : Pump env api
      q' = put_ring env api buf_size q d

  check_eof-Follows : (q : Pump env api) → Follows q (check_eof env api buf_size channel q)
  unfolding check_eof
  check_eof-Follows q = elim (Bool-cases q.slot.remote_eof) [
    | inl t ↦
        simp t
          (record { history = refl; ring = refl; received = refl; moved = refl; dropped = refl })
    | inr t ↦ elim (Bool-cases (env.channel_eof channel q.world).0) [
      | inl u ↦
          simp (t, u)
            (record {
              history = world.channel_eof_log _ _ _;
              ring = refl;
              received = refl;
              moved = refl;
              dropped = refl;
            })
      | inr u ↦
          simp (t, u)
            (record {
              history = world.channel_eof_log _ _ _;
              ring = refl;
              received = refl;
              moved = refl;
              dropped = refl;
            })
    ]
  ]

  read_chunks-Takes :
      (d : DataRing api.Ring) (any : Bool) (p : Pump env api)
      → DataRing.Order.IsValid api laws d
      → Takes d p (read_chunks env api buf_size channel d (any, p)).1
  unfolding read_chunks
  read_chunks-Takes d any p v =
      let q = (read_loop env api buf_size 4 channel d (any, p)).1 in
      Takes-Follows d p q _ (read_loop-Takes 4 d any p v) (check_eof-Follows q)

  intake_live-Takes :
      (d : DataRing api.Ring) (any : Bool) (p : Pump env api)
      → p.slot.to_local ≡ some d
      → DataRing.Order.IsValid api laws d
      → Takes d p (intake_live env api buf_size channel d (any, p)).1
  unfolding intake_live
  intake_live-Takes d any p r v = elim (Bool-cases p.slot.ssh_read_paused) [
    | inl t ↦ elim (Bool-cases (is_low env api buf_size d)) [
      | inl u ↦
          simp (t, u)
            (unpaused (read_chunks-Takes d any (set_read_paused env api buf_size false p) v))
      | inr u ↦ simp (t, u) (small_read-Takes d any p r v)
    ]
    | inr t ↦ simp t (read_chunks-Takes d any p v)
  ]
    where
      unpaused :
          {x : Pump env api} → Takes d (set_read_paused env api buf_size false p) x → Takes d p x
      unpaused m = record {
        taken = m.taken;
        history = m.history;
        order = m.order;
        received = m.received;
        moved = m.moved;
        dropped = m.dropped;
        valid = m.valid;
      }

  intake_eq :
      (p : Pump env api) (d : DataRing api.Ring) (any : Bool)
      → p.slot.active ≡ true
      → p.slot.ssh_channel ≡ some channel
      → p.slot.to_local ≡ some d
      → intake env api buf_size (any, p)
        ≡ intake_channel env api buf_size (some channel) (some d) (any, p)
  unfolding intake
  intake_eq p d any a c r = simp a (ap₂ (λ x y. intake_channel env api buf_size x y (any, p)) c r)

  -- The phase on a slot in use with a channel that has not ended and a valid toLocal ring, whatever the
  -- channel answers: the bytes that the channel gave are put at the end of the ring, in order, all of
  -- them; they are counted as received and as moved, none as dropped, and the ring stays valid.
  pub intake-Takes :
      (p : Pump env api) (d : DataRing api.Ring) (any : Bool)
      → p.slot.active ≡ true
      → p.slot.ssh_channel ≡ some channel
      → p.slot.to_local ≡ some d
      → p.slot.remote_eof ≡ false
      → DataRing.Order.IsValid api laws d
      → Takes d p (intake env api buf_size (any, p)).1
  unfolding intake_channel
  intake-Takes p d any a c r f v =
      subst⁻¹ (λ (s : Bool × Pump env api). Takes d p s.1) (intake_eq p d any a c r)
        (simp f (intake_live-Takes d any p r v))
