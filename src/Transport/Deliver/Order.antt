-- ===== src/Transport/Deliver/Order.antt =====
-- No byte is lost, doubled or moved on the way from the toLocal ring to the local socket.
use esp_reverse_tunneling_li.Prelude.{
  ℕ, zero, suc, ◌+◌, ◌%◌, ◌≤◌, ◌<◌, min, ◌≡◌, refl, sym, ap, ap₂, ◌∙◌, ◌≢◌, inl, inr, true, false,
  not, ◌&&◌, Option, none, some, List, [], ◌++◌, append-nil, append_assoc, arith, ltb, ◌==◌,
  Bool-cases, length, take, drop, length-append, length-take, length-drop, take-append-drop,
  take_all, length-eq_zero, word, sub32,
}
use mathlib.Core.Path.{subst⁻¹}
use esp_reverse_tunneling_li.DataRing
use esp_reverse_tunneling_li.DataRing.{DataRing, prepend_cap}
use esp_reverse_tunneling_li.DataRing.Order
use esp_reverse_tunneling_li.DataRing.Read
use esp_reverse_tunneling_li.DataRing.Size
use esp_reverse_tunneling_li.Prepend
use esp_reverse_tunneling_li.RingApi.{RingApi, RingLaws}
use esp_reverse_tunneling_li.Env.{
  Env, EnvLaws, WriteResult, WriteResult-cases, failed_bytes, Port, to_socket, failed_sends,
}
use esp_reverse_tunneling_li.Channel.{begin_close, error, is_open}
use esp_reverse_tunneling_li.Channel.Lifecycle.{SameData, begin_close-SameData, begin_close_log}
use esp_reverse_tunneling_li.Transport.{Pump}
use esp_reverse_tunneling_li.Transport.Restore.{restore_unsent_front, account_all}
use esp_reverse_tunneling_li.Transport.Deliver.{
  put_ring, give_back, delivered, send_failed, start_stall, deliver_loop, check_stall, check_ring,
  deliver_ring, deliver,
}

module _ (env : Env) (api : RingApi) (buf_size : ℕ) (world : EnvLaws env)
    (laws : RingLaws api) where
  abbrev contents : Option (DataRing api.Ring) → List ℕ
  contents none = []
  contents (some d) = DataRing.Order.contents api laws d

  abbrev RingIsValid : Option (DataRing api.Ring) → Type 0
  RingIsValid none = ⊥
  RingIsValid (some d) = DataRing.Order.IsValid api laws d

  -- What a delivery from the ring `d` in the state `p` leaves. The bytes that the socket took, then those
  -- that were lost, then those still in the ring are the bytes that the ring held, in order. The taken
  -- bytes are those counted as moved and the lost ones those counted as dropped; the lost ones are the
  -- bytes of the sends that failed, after which the slot counts as closed on the local side.
  pub record Delivers (fd : ℕ) (d : DataRing api.Ring) (p : Pump env api) (p' : Pump env api)
      : Type 0 where
    pub taken : List ℕ
    pub lost : List ℕ
    pub history : world.log (to_socket fd) p'.world ≡ world.log (to_socket fd) p.world ++ taken
    pub order : taken ++ (lost ++ contents p'.slot.to_local) ≡ DataRing.Order.contents api laws d
    pub moved : p'.moved % word ≡ (p.moved + length taken) % word
    pub dropped :
        p'.slot.total_bytes_dropped % word ≡ (p.slot.total_bytes_dropped + length lost) % word
    pub failures :
        world.log (failed_sends fd) p'.world ≡ world.log (failed_sends fd) p.world ++ lost
    pub closed_on_loss : lost ≢ [] → p'.slot.local_eof ≡ true
    pub valid : RingIsValid p'.slot.to_local

  -- Nothing happened, and the ring is now `d'` with the same bytes.
  stays :
      (fd : ℕ) (d d' : DataRing api.Ring) (p : Pump env api)
      → DataRing.Order.contents api laws d' ≡ DataRing.Order.contents api laws d
      → DataRing.Order.IsValid api laws d'
      → Delivers fd d p (put_ring env api buf_size p d')
  stays fd d d' p e v = record {
    taken = [];
    lost = [];
    history = sym (append-nil _);
    order = e;
    moved = omega arith;
    dropped = omega arith;
    failures = sym (append-nil _);
    closed_on_loss = λ h. absurd (h refl);
    valid = v;
  }

  -- Starting the stall timer changes nothing that the record speaks of.
  stall_keeps :
      (fd : ℕ) (d : DataRing api.Ring) (p q : Pump env api)
      → Delivers fd d p q
      → Delivers fd d p (start_stall env api buf_size q)
  unfolding start_stall
  stall_keeps fd d p q l = elim (Bool-cases (q.slot.first_local_send_eagain_ms == 0)) [
    | inl t ↦ simp t (record {
      taken = l.taken;
      lost = l.lost;
      history = world.millis_log (to_socket fd) q.world ∙ l.history;
      order = l.order;
      moved = l.moved;
      dropped = l.dropped;
      failures = world.millis_log (failed_sends fd) q.world ∙ l.failures;
      closed_on_loss = l.closed_on_loss;
      valid = l.valid;
    })
    | inr t ↦ simp t l
  ]

  -- What one send has done, for a read of `out` that left `d'`.
  module _ (fd : ℕ) (d d' : DataRing api.Ring) (out : List ℕ) (p : Pump env api)
      (split : out ++ DataRing.Order.contents api laws d' ≡ DataRing.Order.contents api laws d)
      (valid' : DataRing.Order.IsValid api laws d') where
    p1 : Pump env api
    p1 = record p { world = (env.socket_send fd out p.world).1 }

    -- A send that did not fail.
    no_failure :
        (r : WriteResult)
        → (env.socket_send fd out p.world).0 ≡ r
        → failed_bytes r out ≡ []
        → world.log (failed_sends fd) p1.world ≡ world.log (failed_sends fd) p.world
    unfolding p1
    no_failure r e z =
        world.socket_send_failures fd out p.world
        ∙ ap (λ r. world.log (failed_sends fd) p.world ++ failed_bytes r out) e
        ∙ ap (◌++◌ (world.log (failed_sends fd) p.world)) z
        ∙ append-nil _

    failed_lem :
        (env.socket_send fd out p.world).0 ≡ WriteResult.failed
        → Delivers fd d p (send_failed env api buf_size p1 d' (length out))
    unfolding send_failed p1
    failed_lem e = record {
      taken = [];
      lost = out;
      history = world.socket_send_none fd out p.world (inr e) ∙ sym (append-nil _);
      order = split;
      moved = omega arith;
      dropped = omega arith;
      failures =
          world.socket_send_failures fd out p.world
          ∙ ap (λ r. world.log (failed_sends fd) p.world ++ failed_bytes r out) e;
      closed_on_loss = λ h. refl;
      valid = valid';
    }

    module _ (fits : length out + Prepend.pending d'.prepend ≤ d'.prepend.cap) where
      -- Giving back the bytes behind the first `n` of those read, in a state with the same counter of
      -- drops and any history.
      given_back :
          (n : ℕ) (q : Pump env api)
          → n ≤ length out
          → world.log (to_socket fd) q.world ≡ world.log (to_socket fd) p.world ++ take n out
          → world.log (failed_sends fd) q.world ≡ world.log (failed_sends fd) p.world
          → q.moved % word ≡ (p.moved + n) % word
          → q.slot.total_bytes_dropped ≡ p.slot.total_bytes_dropped
          → Delivers fd d p (give_back env api buf_size q d' (drop n out))
      unfolding give_back
      given_back n q h e g m k =
          let rest = drop n out in
          let size = length-drop n out in
          let front =
            restore_unsent_front api laws d' rest valid' (omega (arith, size, valid'.front.small))
              (omega (arith, size)) in
          record {
            taken = take n out;
            lost = [];
            history = e;
            order = rw front.1 (
                sym (append_assoc (take n out) rest _)
                ∙ ap (λ (xs : List ℕ). xs ++ DataRing.Order.contents api laws d')
                    (take-append-drop n out)
                ∙ split);
            moved = omega (arith, m, length-take n out);
            dropped = rw (front.0, account_all, k) (omega arith);
            failures = g ∙ sym (append-nil _);
            closed_on_loss = λ z. absurd (z refl);
            valid = front.2;
          }

      again_lem :
          (env.socket_send fd out p.world).0 ≡ WriteResult.again
          → Delivers fd d p (start_stall env api buf_size (give_back env api buf_size p1 d' out))
      unfolding p1
      again_lem e = stall_keeps fd d p (give_back env api buf_size p1 d' out) (
          given_back 0 p1 (omega arith)
            (world.socket_send_none fd out p.world (inl e) ∙ sym (append-nil _))
            (no_failure WriteResult.again e refl) (omega arith) refl)

      -- The socket took a part.
      part_lem :
          (n : ℕ)
          → (env.socket_send fd out p.world).0 ≡ WriteResult.sent n
          → Delivers fd d p
              (give_back env api buf_size (delivered env api buf_size p1 n) d' (drop n out))
      unfolding delivered p1
      part_lem n e =
          let s = world.socket_send_sent fd out p.world n e in
          given_back n (delivered env api buf_size p1 n) s.1
            (world.millis_log (to_socket fd) (env.socket_send fd out p.world).1 ∙ s.2)
            (world.millis_log (failed_sends fd) (env.socket_send fd out p.world).1
              ∙ no_failure (WriteResult.sent n) e refl)
            (omega arith) refl

    -- The socket took all, and the loop went on from there.
    all_lem :
        (n : ℕ) (p' : Pump env api)
        → (env.socket_send fd out p.world).0 ≡ WriteResult.sent n
        → length out ≤ n
        → Delivers fd d' (delivered env api buf_size p1 n) p'
        → Delivers fd d p p'
    unfolding delivered p1
    all_lem n p' e h l =
        let s = world.socket_send_sent fd out p.world n e in
        let whole : n ≡ length out = omega (arith, s.1) in
        record {
          taken = out ++ l.taken;
          lost = l.lost;
          history =
              l.history
              ∙ ap (λ (xs : List ℕ). xs ++ l.taken)
                  (world.millis_log (to_socket fd) (env.socket_send fd out p.world).1
                    ∙ s.2
                    ∙ ap (◌++◌ (world.log (to_socket fd) p.world)) (take_all n out h))
              ∙ append_assoc (world.log (to_socket fd) p.world) out l.taken;
          order = append_assoc out l.taken _ ∙ ap (◌++◌ out) l.order ∙ split;
          moved = omega (arith, l.moved, whole, length-append out l.taken);
          dropped = l.dropped;
          failures =
              l.failures
              ∙ ap (λ (xs : List ℕ). xs ++ l.lost)
                  (world.millis_log (failed_sends fd) (env.socket_send fd out p.world).1
                    ∙ no_failure (WriteResult.sent n) e refl);
          closed_on_loss = l.closed_on_loss;
          valid = l.valid;
        }

  -- One round of the loop, with the rounds behind it done.
  module _ (fd attempts : ℕ) (d : DataRing api.Ring) (p : Pump env api)
      (valid : DataRing.Order.IsValid api laws d) (low : 0 < buf_size)
      (high : buf_size ≤ prepend_cap)
      (later : (d' : DataRing api.Ring) (q : Pump env api)
        → DataRing.Order.IsValid api laws d'
        → Delivers fd d' q (deliver_loop env api buf_size attempts fd d' q)) where
    asked : ℕ
    asked = min (DataRing.size api d) buf_size

    out : List ℕ
    unfolding asked
    out = (DataRing.read api d asked).0

    left : DataRing api.Ring
    unfolding asked
    left = (DataRing.read api d asked).1

    reads :
        DataRing.is_empty api d ≡ false
        → DataRing.Read.Reads api laws d asked (DataRing.read api d asked)
    unfolding asked
    reads t =
        DataRing.Read.read_lem api laws d asked valid
          (omega (arith, DataRing.Size.size-pos api laws d t))

    sends :
        DataRing.is_empty api d ≡ false
        → (length out == 0) ≡ false
        → Delivers fd d p (deliver_loop env api buf_size (suc attempts) fd d p)
    unfolding deliver_loop out left asked p1
    sends t z = elim (WriteResult-cases (env.socket_send fd out p.world).0) [
      | inl (n, e) ↦ elim (Bool-cases (ltb n (length out))) [
        | inl u ↦ simp (t, z, e, u) (part_lem fd d left out p r.split r.valid fits n e)
        | inr u ↦
            simp (t, z, e, u)
              (all_lem fd d left out p r.split r.valid n _ e (ground (arith, u))
                (later left _ r.valid))
      ]
      | inr (inl e) ↦ simp (t, z, e) (again_lem fd d left out p r.split r.valid fits e)
      | inr (inr e) ↦ simp (t, z, e) (failed_lem fd d left out p r.split r.valid e)
    ]
      where
        r : DataRing.Read.Reads api laws d asked (DataRing.read api d asked)
        r = reads t

        fits : length out + Prepend.pending left.prepend ≤ left.prepend.cap
        fits = r.returnable (omega arith)

    round : Delivers fd d p (deliver_loop env api buf_size (suc attempts) fd d p)
    unfolding deliver_loop out left asked p1
    round = elim (Bool-cases (DataRing.is_empty api d)) [
      | inl t ↦ simp t (stays fd d d p refl valid)
      | inr t ↦ elim (Bool-cases (length out == 0)) [
        | inl z ↦ simp (t, z) (stays fd d left p (nothing t z) (reads t).valid)
        | inr z ↦ sends t z
      ]
    ]
      where
        nothing :
            DataRing.is_empty api d ≡ false
            → (length out == 0) ≡ true
            → DataRing.Order.contents api laws left ≡ DataRing.Order.contents api laws d
        nothing t z =
            let none : out ≡ [] = length-eq_zero out (ground (arith, z)) in
            rw none at (reads t).split

  -- The loop delivers in order, whatever the socket answers, for each number of attempts, if the pump's
  -- buffer is not empty and no larger than the prepend buffer.
  pub deliver_loop-Delivers :
      (attempts fd : ℕ) (d : DataRing api.Ring) (p : Pump env api)
      → DataRing.Order.IsValid api laws d
      → 0 < buf_size
      → buf_size ≤ prepend_cap
      → Delivers fd d p (deliver_loop env api buf_size attempts fd d p)
  unfolding deliver_loop
  deliver_loop-Delivers zero fd d p v h k = stays fd d d p refl v
  deliver_loop-Delivers (suc attempts) fd d p v h k =
      round fd attempts d p v h k (λ d' q v'. deliver_loop-Delivers attempts fd d' q v' h k)

  -- A later state with the same ring, counters, flag and history.
  record Follows (fd : ℕ) (q q' : Pump env api) : Type 0 where
    logs : (port : Port) → world.log port q'.world ≡ world.log port q.world
    ring : q'.slot.to_local ≡ q.slot.to_local
    moved : q'.moved ≡ q.moved
    dropped : q'.slot.total_bytes_dropped ≡ q.slot.total_bytes_dropped
    local_eof : q'.slot.local_eof ≡ q.slot.local_eof

  Delivers-Follows :
      (fd : ℕ) (d : DataRing api.Ring) (p q q' : Pump env api)
      → Delivers fd d p q
      → Follows fd q q'
      → Delivers fd d p q'
  Delivers-Follows fd d p q q' l f = record {
    taken = l.taken;
    lost = l.lost;
    history = f.logs (to_socket fd) ∙ l.history;
    order = rw f.ring l.order;
    moved = rw f.moved l.moved;
    dropped = rw f.dropped l.dropped;
    failures = f.logs (failed_sends fd) ∙ l.failures;
    closed_on_loss = λ h. f.local_eof ∙ l.closed_on_loss h;
    valid = rw f.ring l.valid;
  }

  check_stall-Follows :
      (fd : ℕ) (d : DataRing api.Ring) (q : Pump env api)
      → Follows fd q (check_stall env api buf_size d q)
  unfolding check_stall
  check_stall-Follows fd d q =
      elim (Bool-cases (ltb 0 q.slot.first_local_send_eagain_ms && not (DataRing.is_empty api d))) [
        | inl t ↦
            elim (Bool-cases
              (ltb 8000 (sub32 (env.millis q.world).0 q.slot.first_local_send_eagain_ms))) [
                | inl u ↦ elim (Bool-cases (is_open q.slot.state)) [
                  | inl o ↦
                      simp (t, u, o)
                        (record {
                          logs = λ port.
                              world.millis_log port _
                              ∙ begin_close_log env api world port q.slot error w1
                              ∙ clock port;
                          ring = same.to_local;
                          moved = refl;
                          dropped = same.dropped;
                          local_eof = same.local_eof;
                        })
                  | inr o ↦
                      simp (t, u, o)
                        (record {
                          logs = λ port. world.millis_log port w1 ∙ clock port;
                          ring = refl;
                          moved = refl;
                          dropped = refl;
                          local_eof = refl;
                        })
                ]
                | inr u ↦
                    simp (t, u)
                      (record {
                        logs = clock;
                        ring = refl;
                        moved = refl;
                        dropped = refl;
                        local_eof = refl;
                      })
              ]
        | inr t ↦ simp t (record {
          logs = λ port. refl;
          ring = refl;
          moved = refl;
          dropped = refl;
          local_eof = refl;
        })
      ]
    where
      w1 : env.World
      w1 = (env.millis q.world).1

      clock : (port : Port) → world.log port w1 ≡ world.log port q.world
      clock port = world.millis_log port q.world

      same : SameData env api q.slot (begin_close env api q.slot error w1).0
      same = begin_close-SameData env api q.slot error w1

  check_ring-Follows :
      (fd : ℕ) (r : Option (DataRing api.Ring)) (q : Pump env api)
      → Follows fd q (check_ring env api buf_size r q)
  unfolding check_ring
  check_ring-Follows fd none q = record {
    logs = λ port. refl;
    ring = refl;
    moved = refl;
    dropped = refl;
    local_eof = refl;
  }
  check_ring-Follows fd (some d) q = check_stall-Follows fd d q

  deliver_eq :
      (p : Pump env api) (fd : ℕ) (d : DataRing api.Ring)
      → p.slot.active ≡ true
      → p.slot.local_socket ≡ some fd
      → p.slot.to_local ≡ some d
      → let q = deliver_loop env api buf_size 4 fd d p in
        deliver env api buf_size p ≡ check_ring env api buf_size q.slot.to_local q
  unfolding deliver deliver_ring
  deliver_eq p fd d a s r = simp a (ap₂ (λ x y. deliver_ring env api buf_size x y p) s r)

  -- The phase on a slot in use with a local socket and a valid toLocal ring, for a buffer of 1 to 8192
  -- bytes and whatever the socket answers: what the socket took, then what was lost, then what is still in
  -- the ring is what the ring held, in order; the first is counted as moved and the second as dropped;
  -- what was lost is exactly the bytes of the sends of this turn that failed, and then the slot counts as
  -- closed on the local side; the ring stays valid.
  pub deliver-Delivers :
      (p : Pump env api) (fd : ℕ) (d : DataRing api.Ring)
      → p.slot.active ≡ true
      → p.slot.local_socket ≡ some fd
      → p.slot.to_local ≡ some d
      → DataRing.Order.IsValid api laws d
      → 0 < buf_size
      → buf_size ≤ prepend_cap
      → Delivers fd d p (deliver env api buf_size p)
  deliver-Delivers p fd d a s r v h k =
      let q = deliver_loop env api buf_size 4 fd d p in
      subst⁻¹ (Delivers fd d p) (deliver_eq p fd d a s r) (
        Delivers-Follows fd d p q (check_ring env api buf_size q.slot.to_local q)
          (deliver_loop-Delivers 4 fd d p v h k) (check_ring-Follows fd q.slot.to_local q))
