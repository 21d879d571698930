-- ===== src/Transport/Upload/Sending.antt =====
-- Step A of `drainLocalToSsh`: the writes to the channel keep the bytes in order.
use esp_reverse_tunneling_li.Prelude.{
  ℕ, zero, suc, ◌+◌, ◌-◌, ◌%◌, ◌≤◌, ◌<◌, min, ◌≡◌, refl, sym, ap, ◌∙◌, ◌⊎◌, inl, inr, true, false,
  ◌||◌, List, [], ◌++◌, append-nil, append_assoc, arith, ltb, ◌==◌, Bool-cases, length, take, drop,
  length-take, length-drop, take-append-drop, take_all, length-eq_zero, word,
}
use esp_reverse_tunneling_li.DataRing
use esp_reverse_tunneling_li.DataRing.{DataRing, prepend_cap}
use esp_reverse_tunneling_li.DataRing.Order
use esp_reverse_tunneling_li.DataRing.Read
use esp_reverse_tunneling_li.Prepend
use esp_reverse_tunneling_li.RingApi.{RingApi, RingLaws}
use esp_reverse_tunneling_li.Env.{
  Env, EnvLaws, WriteResult, WriteResult-cases, to_channel, from_socket,
}
use esp_reverse_tunneling_li.Transport.{Pump}
use esp_reverse_tunneling_li.Transport.Restore.{restore_unsent_front, account_all}
use esp_reverse_tunneling_li.Transport.Upload.{put_ring, give_back, written, write_loop}
use esp_reverse_tunneling_li.Transport.Upload.Order.{
  Moves, Moves-Follows, stays, Moves-trans, count_eagain-Follows, count_error-Follows,
}

module _ (env : Env) (api : RingApi) (buf_size : ℕ) (world : EnvLaws env) (laws : RingLaws api)
    (channel fd : ℕ) where
  abbrev M : DataRing api.Ring → Pump env api → Pump env api → Type 0
  M = Moves env api buf_size world laws channel fd

  -- What one write has done, for a read of `out` that left `d'`.
  module _ (d d' : DataRing api.Ring) (out : List ℕ) (p : Pump env api)
      (split : out ++ DataRing.Order.contents api laws d' ≡ DataRing.Order.contents api laws d)
      (valid' : DataRing.Order.IsValid api laws d') where
    p1 : Pump env api
    p1 = record p { world = (env.channel_write channel out p.world).1 }

    -- Giving back the bytes behind the first `n` of those read, after a write that took these.
    given_back :
        (n : ℕ) (q : Pump env api)
        → length out + Prepend.pending d'.prepend ≤ d'.prepend.cap
        → n ≤ length out
        → world.log (to_channel channel) q.world
          ≡ world.log (to_channel channel) p.world ++ take n out
        → world.log (from_socket fd) q.world ≡ world.log (from_socket fd) p.world
        → q.slot.total_bytes_sent % word ≡ (p.slot.total_bytes_sent + n) % word
        → q.moved % word ≡ (p.moved + n) % word
        → q.slot.total_bytes_dropped ≡ p.slot.total_bytes_dropped
        → q.slot.local_socket ≡ p.slot.local_socket
        → M d p (give_back env api buf_size q d' (drop n out))
    unfolding give_back
    given_back n q fits h o i s m k l =
        let rest = drop n out in
        let size = length-drop n out in
        let front =
          restore_unsent_front api laws d' rest valid' (omega (arith, size, valid'.front.small))
            (omega (arith, size)) in
        record {
          shipped = take n out;
          taken = [];
          out_log = o;
          in_log = i ∙ sym (append-nil _);
          order = rw front.1 (
              sym (append_assoc (take n out) rest _)
              ∙ ap (λ (xs : List ℕ). xs ++ DataRing.Order.contents api laws d')
                  (take-append-drop n out)
              ∙ split
              ∙ sym (append-nil _));
          sent = omega (arith, s, length-take n out);
          moved = omega (arith, m, length-take n out);
          dropped = rw (front.0, account_all, k) refl;
          socket = l;
          valid = front.2;
        }

    none_taken :
        length out + Prepend.pending d'.prepend ≤ d'.prepend.cap
        → ((env.channel_write channel out p.world).0 ≡ WriteResult.again)
          ⊎ ((env.channel_write channel out p.world).0 ≡ WriteResult.failed)
        → M d p (give_back env api buf_size p1 d' out)
    unfolding p1
    none_taken fits e =
        given_back 0 p1 fits (omega arith)
          (world.channel_write_none channel out p.world e ∙ sym (append-nil _))
          (world.channel_write_frame channel fd out p.world) (omega arith) (omega arith) refl refl

    -- The channel took `n` bytes, which the state is counted for.
    n_taken :
        (n : ℕ)
        → length out + Prepend.pending d'.prepend ≤ d'.prepend.cap
        → (env.channel_write channel out p.world).0 ≡ WriteResult.sent n
        → M d p (give_back env api buf_size (written env api buf_size p1 n) d' (drop n out))
    unfolding written p1
    n_taken n fits e =
        let s = world.channel_write_sent channel out p.world n e in
        given_back n (written env api buf_size p1 n) fits s.1
          (world.millis_log (to_channel channel) _ ∙ s.2)
          (world.millis_log (from_socket fd) _ ∙ world.channel_write_frame channel fd out p.world)
          (omega arith) (omega arith) refl refl

    all_taken :
        (n : ℕ)
        → (env.channel_write channel out p.world).0 ≡ WriteResult.sent n
        → length out ≤ n
        → M d p (put_ring env api buf_size (written env api buf_size p1 n) d')
    unfolding written p1
    all_taken n e h =
        let s = world.channel_write_sent channel out p.world n e in
        let whole : n ≡ length out = omega (arith, s.1) in
        record {
          shipped = out;
          taken = [];
          out_log =
              world.millis_log (to_channel channel) _
              ∙ s.2
              ∙ ap (◌++◌ (world.log (to_channel channel) p.world)) (take_all n out h);
          in_log =
              world.millis_log (from_socket fd) _
              ∙ world.channel_write_frame channel fd out p.world
              ∙ sym (append-nil _);
          order = split ∙ sym (append-nil _);
          sent = omega (arith, whole);
          moved = omega (arith, whole);
          dropped = refl;
          socket = refl;
          valid = valid';
        }

  -- One round of the loop, with the rounds behind it done.
  module _ (fuel budget : ℕ) (d : DataRing api.Ring) (p : Pump env api)
      (valid : DataRing.Order.IsValid api laws d) (low : 0 < buf_size)
      (high : buf_size ≤ prepend_cap)
      (later : (rest : ℕ) (d' : DataRing api.Ring) (q : Pump env api)
        → DataRing.Order.IsValid api laws d'
        → M d' q (write_loop env api buf_size fuel rest channel d' q)) where
    asked : ℕ
    asked = min budget buf_size

    out : List ℕ
    unfolding asked
    out = (DataRing.read api d asked).0

    left : DataRing api.Ring
    unfolding asked
    left = (DataRing.read api d asked).1

    reads : (budget == 0) ≡ false → DataRing.Read.Reads api laws d asked (DataRing.read api d asked)
    unfolding asked
    reads t = DataRing.Read.read_lem api laws d asked valid (ground (arith, t))

    writes :
        (budget == 0) ≡ false
        → (budget == 0 || DataRing.is_empty api d) ≡ false
        → (length out == 0) ≡ false
        → M d p (write_loop env api buf_size (suc fuel) budget channel d p)
    unfolding write_loop out left asked p1
    writes b t z = elim (WriteResult-cases (env.channel_write channel out p.world).0) [
      | inl (n, e) ↦ elim (Bool-cases (ltb n (length out))) [
        | inl u ↦ simp (t, z, e, u) (n_taken d left out p r.split r.valid n fits e)
        | inr u ↦
            simp (t, z, e, u)
              (Moves-trans env api buf_size world laws channel fd d left p _ _
                (all_taken d left out p r.split r.valid n e (ground (arith, u)))
                (later (budget - n) left _ r.valid))
      ]
      | inr (inl e) ↦
          simp (t, z, e)
            (Moves-Follows env api buf_size world laws channel fd d p _ _
              (none_taken d left out p r.split r.valid fits (inl e))
              (count_eagain-Follows env api buf_size world laws channel fd _))
      | inr (inr e) ↦
          simp (t, z, e)
            (Moves-Follows env api buf_size world laws channel fd d p _ _
              (none_taken d left out p r.split r.valid fits (inr e))
              (count_error-Follows env api buf_size world laws channel fd _))
    ]
      where
        r : DataRing.Read.Reads api laws d asked (DataRing.read api d asked)
        r = reads b

        fits : length out + Prepend.pending left.prepend ≤ left.prepend.cap
        fits = r.returnable (omega arith)

    round : M d p (write_loop env api buf_size (suc fuel) budget channel d p)
    unfolding write_loop out left asked p1
    round = elim (Bool-cases (budget == 0 || DataRing.is_empty api d)) [
      | inl t ↦ simp t (stays env api buf_size world laws channel fd d d p refl valid)
      | inr t ↦ elim (Bool-cases (length out == 0)) [
        | inl z ↦
            simp (t, z)
              (stays env api buf_size world laws channel fd d left p (nothing t z)
                (reads (some_left t)).valid)
        | inr z ↦ writes (some_left t) t z
      ]
    ]
      where
        some_left : (budget == 0 || DataRing.is_empty api d) ≡ false → (budget == 0) ≡ false
        some_left t = elim (Bool-cases (budget == 0)) [
          | inl b ↦ absurd (ground (arith, b, t))
          | inr b ↦ b
        ]

        nothing :
            (budget == 0 || DataRing.is_empty api d) ≡ false
            → (length out == 0) ≡ true
            → DataRing.Order.contents api laws left ≡ DataRing.Order.contents api laws d
        nothing t z =
            let none : out ≡ [] = length-eq_zero out (ground (arith, z)) in
            rw none at (reads (some_left t)).split

  -- The loop keeps the bytes in order, whatever the channel answers, if the pump's buffer is not empty and
  -- no larger than the prepend buffer.
  pub write_loop-Moves :
      (fuel budget : ℕ) (d : DataRing api.Ring) (p : Pump env api)
      → DataRing.Order.IsValid api laws d
      → 0 < buf_size
      → buf_size ≤ prepend_cap
      → M d p (write_loop env api buf_size fuel budget channel d p)
  unfolding write_loop
  write_loop-Moves zero budget d p v h k = stays env api buf_size world laws channel fd d d p refl v
  write_loop-Moves (suc fuel) budget d p v h k =
      round fuel budget d p v h k (λ rest d' q v'. write_loop-Moves fuel rest d' q v' h k)

  -- The loop gives the same for all numbers of rounds above its budget, so it ends by itself within them.
  pub write_loop_fuel :
      (fuel more budget : ℕ) (d : DataRing api.Ring) (p : Pump env api)
      → budget < fuel
      → budget < more
      → write_loop env api buf_size fuel budget channel d p
        ≡ write_loop env api buf_size more budget channel d p
  unfolding write_loop
  write_loop_fuel zero more budget d p f g = absurd (omega arith)
  write_loop_fuel (suc fuel) zero budget d p f g = absurd (omega arith)
  write_loop_fuel (suc fuel) (suc more) budget d p f g =
      elim (Bool-cases (budget == 0 || DataRing.is_empty api d)) [
        | inl t ↦ simp t refl
        | inr t ↦ elim (Bool-cases (length bytes == 0)) [
          | inl z ↦ simp (t, z) refl
          | inr z ↦ elim (WriteResult-cases (env.channel_write channel bytes p.world).0) [
            | inl (n, e) ↦ elim (Bool-cases (ltb n (length bytes))) [
              | inl u ↦ simp (t, z, e, u) refl
              | inr u ↦
                  simp (t, z, e, u)
                    (let s = world.channel_write_sent channel bytes p.world n e in
                      write_loop_fuel fuel more (budget - n) _ _ (omega (arith, s.0, positive t))
                        (omega (arith, s.0, positive t)))
            ]
            | inr (inl e) ↦ simp (t, z, e) refl
            | inr (inr e) ↦ simp (t, z, e) refl
          ]
        ]
      ]
    where
      bytes : List ℕ
      bytes = (DataRing.read api d (min budget buf_size)).0

      positive : (budget == 0 || DataRing.is_empty api d) ≡ false → 0 < budget
      positive t = ground (arith, t)
