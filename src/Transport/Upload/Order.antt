-- ===== src/Transport/Upload/Order.antt =====
-- No byte is lost, doubled or moved on the way from the local socket through the toRemote ring to the
-- SSH channel.
use esp_reverse_tunneling_li.Prelude.{
  ℕ, ◌+◌, ◌%◌, ◌≡◌, refl, sym, ap, ◌∙◌, inl, inr, ◌&&◌, Option, none, some, List, [], ◌++◌,
  append-nil, append_assoc, arith, ltb, ◌==◌, Bool-cases, length, length-append, word,
}
use esp_reverse_tunneling_li.DataRing
use esp_reverse_tunneling_li.DataRing.{DataRing}
use esp_reverse_tunneling_li.DataRing.Order
use esp_reverse_tunneling_li.RingApi.{RingApi, RingLaws}
use esp_reverse_tunneling_li.Env.{Env, EnvLaws, to_channel, from_socket}
use esp_reverse_tunneling_li.Channel.{Slot, begin_close, error, is_open}
use esp_reverse_tunneling_li.Channel.Lifecycle.{SameData, begin_close-SameData, begin_close_log}
use esp_reverse_tunneling_li.Transport.{Pump}
use esp_reverse_tunneling_li.Transport.Upload.{put_ring, count_eagain, count_error}

module _ (env : Env) (api : RingApi) (buf_size : ℕ) (world : EnvLaws env)
    (laws : RingLaws api) where
  abbrev pub contents : Option (DataRing api.Ring) → List ℕ
  contents none = []
  contents (some d) = DataRing.Order.contents api laws d

  abbrev pub RingIsValid : Option (DataRing api.Ring) → Type 0
  RingIsValid none = ⊥
  RingIsValid (some d) = DataRing.Order.IsValid api laws d

  -- What happened between the states `p` and `p'` of a slot whose ring was `d`. The bytes that the
  -- channel took, then those in the ring, are those that the ring held, then those that came from the
  -- socket, in order. Both are counted, and nothing is counted as dropped.
  pub record Moves (channel fd : ℕ) (d : DataRing api.Ring) (p : Pump env api) (p' : Pump env api)
      : Type 0 where
    pub shipped : List ℕ
    pub taken : List ℕ
    pub out_log :
        world.log (to_channel channel) p'.world ≡ world.log (to_channel channel) p.world ++ shipped
    pub in_log : world.log (from_socket fd) p'.world ≡ world.log (from_socket fd) p.world ++ taken
    pub order : shipped ++ contents p'.slot.to_remote ≡ DataRing.Order.contents api laws d ++ taken
    pub sent : p'.slot.total_bytes_sent % word ≡ (p.slot.total_bytes_sent + length shipped) % word
    pub moved : p'.moved % word ≡ (p.moved + length shipped + length taken) % word
    pub dropped : p'.slot.total_bytes_dropped % word ≡ p.slot.total_bytes_dropped % word
    pub socket : p'.slot.local_socket ≡ p.slot.local_socket
    pub valid : RingIsValid p'.slot.to_remote

  -- A later state with the same ring, counters, socket and histories.
  pub record Follows (channel fd : ℕ) (q q' : Pump env api) : Type 0 where
    pub out_log : world.log (to_channel channel) q'.world ≡ world.log (to_channel channel) q.world
    pub in_log : world.log (from_socket fd) q'.world ≡ world.log (from_socket fd) q.world
    pub ring : q'.slot.to_remote ≡ q.slot.to_remote
    pub sent : q'.slot.total_bytes_sent ≡ q.slot.total_bytes_sent
    pub moved : q'.moved ≡ q.moved
    pub dropped : q'.slot.total_bytes_dropped ≡ q.slot.total_bytes_dropped
    pub socket : q'.slot.local_socket ≡ q.slot.local_socket

  module _ (channel fd : ℕ) where
    pub Moves-Follows :
        (d : DataRing api.Ring) (p q q' : Pump env api)
        → Moves channel fd d p q
        → Follows channel fd q q'
        → Moves channel fd d p q'
    Moves-Follows d p q q' m f = record {
      shipped = m.shipped;
      taken = m.taken;
      out_log = f.out_log ∙ m.out_log;
      in_log = f.in_log ∙ m.in_log;
      order = rw f.ring m.order;
      sent = rw f.sent m.sent;
      moved = rw f.moved m.moved;
      dropped = rw f.dropped m.dropped;
      socket = f.socket ∙ m.socket;
      valid = rw f.ring m.valid;
    }

    -- Nothing happened, and the ring is now `d'` with the same bytes.
    pub stays :
        (d d' : DataRing api.Ring) (p : Pump env api)
        → DataRing.Order.contents api laws d' ≡ DataRing.Order.contents api laws d
        → DataRing.Order.IsValid api laws d'
        → Moves channel fd d p (put_ring env api buf_size p d')
    stays d d' p e v = record {
      shipped = [];
      taken = [];
      out_log = sym (append-nil _);
      in_log = sym (append-nil _);
      order = e ∙ sym (append-nil _);
      sent = omega arith;
      moved = omega arith;
      dropped = refl;
      socket = refl;
      valid = v;
    }

    -- One stretch after another.
    pub Moves-trans :
        (d d' : DataRing api.Ring) (p q r : Pump env api)
        → Moves channel fd d p (put_ring env api buf_size q d')
        → Moves channel fd d' q r
        → Moves channel fd d p r
    Moves-trans d d' p q r m n = record {
      shipped = m.shipped ++ n.shipped;
      taken = m.taken ++ n.taken;
      out_log =
          n.out_log
          ∙ ap (λ (xs : List ℕ). xs ++ n.shipped) m.out_log
          ∙ append_assoc _ m.shipped n.shipped;
      in_log =
          n.in_log ∙ ap (λ (xs : List ℕ). xs ++ n.taken) m.in_log ∙ append_assoc _ m.taken n.taken;
      order =
          append_assoc m.shipped n.shipped _
          ∙ ap (◌++◌ m.shipped) n.order
          ∙ sym (append_assoc m.shipped _ n.taken)
          ∙ ap (λ (xs : List ℕ). xs ++ n.taken) m.order
          ∙ append_assoc _ m.taken n.taken;
      sent = omega (arith, m.sent, n.sent, length-append m.shipped n.shipped);
      moved = omega (
        arith,
        m.moved,
        n.moved,
        length-append m.shipped n.shipped,
        length-append m.taken n.taken,
      );
      dropped = n.dropped ∙ m.dropped;
      socket = n.socket ∙ m.socket;
      valid = n.valid;
    }

    pub with_ring :
        (d d' : DataRing api.Ring) (p q : Pump env api)
        → Moves channel fd d p q
        → q.slot.to_remote ≡ some d'
        → Moves channel fd d p (put_ring env api buf_size q d')
    with_ring d d' p q m e = record {
      shipped = m.shipped;
      taken = m.taken;
      out_log = m.out_log;
      in_log = m.in_log;
      order = rw e at m.order;
      sent = m.sent;
      moved = m.moved;
      dropped = m.dropped;
      socket = m.socket;
      valid = rw e at m.valid;
    }

    -- A valid ring is there.
    pub has_ring :
        (r : Option (DataRing api.Ring))
        → RingIsValid r
        → (d : DataRing api.Ring) × (r ≡ some d) × DataRing.Order.IsValid api laws d
    has_ring none v = absurd v
    has_ring (some d) v = (d, refl, v)

    pub count_eagain-Follows :
        (q : Pump env api) → Follows channel fd q (count_eagain env api buf_size q)
    unfolding count_eagain
    count_eagain-Follows q = elim (Bool-cases (q.slot.first_eagain_ms == 0)) [
      | inl t ↦ simp t (record {
        out_log = world.millis_log (to_channel channel) q.world;
        in_log = world.millis_log (from_socket fd) q.world;
        ring = refl;
        sent = refl;
        moved = refl;
        dropped = refl;
        socket = refl;
      })
      | inr t ↦ simp t (record {
        out_log = refl;
        in_log = refl;
        ring = refl;
        sent = refl;
        moved = refl;
        dropped = refl;
        socket = refl;
      })
    ]

    pub count_error-Follows :
        (q : Pump env api) → Follows channel fd q (count_error env api buf_size q)
    unfolding count_error
    count_error-Follows q =
        elim (Bool-cases (ltb 3 (q.slot.consecutive_errors + 1) && is_open q.slot.state)) [
          | inl t ↦ simp t (record {
            out_log = begin_close_log env api world (to_channel channel) s error q.world;
            in_log = begin_close_log env api world (from_socket fd) s error q.world;
            ring = same.to_remote;
            sent = same.sent;
            moved = refl;
            dropped = same.dropped;
            socket = same.local_socket;
          })
          | inr t ↦ simp t (record {
            out_log = refl;
            in_log = refl;
            ring = refl;
            sent = refl;
            moved = refl;
            dropped = refl;
            socket = refl;
          })
        ]
      where
        s : Slot env api
        s = record q.slot { consecutive_errors = q.slot.consecutive_errors + 1 }

        same : SameData env api s (begin_close env api s error q.world).0
        same = begin_close-SameData env api s error q.world
