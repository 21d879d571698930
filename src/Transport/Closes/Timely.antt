-- ===== src/Transport/Closes/Timely.antt =====
-- The last two steps of `checkCloses` leave no slot draining for longer than it was.
use esp_reverse_tunneling_li.Prelude.{
  ℕ, zero, suc, ◌≤◌, ◌≡◌, sym, inl, inr, true, Option, none, some, List, [], ◌∷◌, ◌==◌, Bool-cases,
  Option-cases, length, get_elem?, set, sub32,
}
use mathlib.Core.Option.{some-injective}
use esp_reverse_tunneling_li.DataRing.{DataRing}
use esp_reverse_tunneling_li.RingApi.{RingApi}
use esp_reverse_tunneling_li.Env.{Env, ReadResult-cases}
use esp_reverse_tunneling_li.Channel.{Slot, is_draining, finalize_slot, close_channel}
use esp_reverse_tunneling_li.Channel.Manager.{Channels, archive, finalize_close}
use esp_reverse_tunneling_li.Transport.Closes.{
  Scan, hard_abandon_timeout_ms, flush, keep_pumped, send_eof_to, send_eofs, finalizes, send_step,
  finalize_step,
}

module _ (env : Env) (api : RingApi) (now : ℕ) where
  -- If the slot is in use and draining, it has been so for 30 s at most.
  pub record IsTimely (s : Slot env api) : Type 0 where
    pub in_time :
        s.active ≡ true
        → is_draining s.state ≡ true
        → sub32 now s.close_start_ms ≤ hard_abandon_timeout_ms

  abbrev pub AllTimely : List (Slot env api) → Type 0
  AllTimely [] = Unit
  AllTimely (s ∷ ss) = IsTimely s × AllTimely ss

  AllTimely-get_elem? :
      (ss : List (Slot env api)) (i : ℕ) (s : Slot env api)
      → AllTimely ss
      → get_elem? ss i ≡ some s
      → IsTimely s
  AllTimely-get_elem? [] i s a e = cc
  AllTimely-get_elem? (x ∷ ss) zero s (t, a) e = rw (sym (some-injective x s e)) t
  AllTimely-get_elem? (x ∷ ss) (suc i) s (t, a) e = AllTimely-get_elem? ss i s a e

  AllTimely-set :
      (ss : List (Slot env api)) (i : ℕ) (s : Slot env api)
      → AllTimely ss
      → IsTimely s
      → AllTimely (set ss i s)
  AllTimely-set [] i s a t = tt
  AllTimely-set (x ∷ ss) zero s (u, a) t = (t, a)
  AllTimely-set (x ∷ ss) (suc i) s (u, a) t = (u, AllTimely-set ss i s a t)

  keep_pumped-IsTimely :
      (r : Option (DataRing api.Ring)) (bytes : List ℕ) (s : Slot env api)
      → IsTimely s
      → IsTimely (keep_pumped env api r bytes s)
  unfolding keep_pumped
  keep_pumped-IsTimely none bytes s t = t
  keep_pumped-IsTimely (some d) bytes s t = record { in_time = t.in_time }

  flush-IsTimely :
      (n channel : ℕ) (s : Slot env api) (w : env.World)
      → IsTimely s
      → IsTimely (flush env api n channel s w).0
  unfolding flush
  flush-IsTimely zero channel s w t = t
  flush-IsTimely (suc n) channel s w t =
      elim (ReadResult-cases (env.channel_read channel 512 w).0) [
        | inl (bytes, e) ↦
            rw (e, flush)
              (flush-IsTimely n channel (keep_pumped env api s.to_local bytes s)
                (env.channel_read channel 512 w).1 (keep_pumped-IsTimely s.to_local bytes s t))
        | inr (inl e) ↦ rw (e, flush) t
        | inr (inr (inl e)) ↦ rw (e, flush) t
        | inr (inr (inr e)) ↦ rw (e, flush) t
      ]

  send_eof_to-IsTimely :
      (m : Option ℕ) (s : Slot env api) (w : env.World)
      → IsTimely s
      → IsTimely (send_eof_to env api m s w).0
  unfolding send_eof_to
  send_eof_to-IsTimely none s w t = t
  send_eof_to-IsTimely (some channel) s w t =
      let (is_eagain, w1) = env.channel_send_eof channel w in
      elim (Bool-cases is_eagain) [
        | inl e ↦ rw e t
        | inr e ↦ let f = flush-IsTimely 4 channel s w1 t in rw e (record { in_time = f.in_time })
      ]

  send_eofs-AllTimely :
      (is : List ℕ) (m : Channels env api) (w : env.World)
      → AllTimely m.slots
      → AllTimely (send_eofs env api is m w).0.slots
  unfolding send_eofs
  send_eofs-AllTimely [] m w a = a
  send_eofs-AllTimely (i ∷ is) m w a = elim (Option-cases (get_elem? m.slots i)) [
    | inl e ↦ rw (e, send_eofs) (send_eofs-AllTimely is m w a)
    | inr (s, e) ↦
        let (s', w') = send_eof_to env api s.ssh_channel s w in
        rw (e, send_eofs)
          (send_eofs-AllTimely is (record m { slots = set m.slots i s' }) w'
            (AllTimely-set m.slots i s' a
              (send_eof_to-IsTimely s.ssh_channel s w (AllTimely-get_elem? m.slots i s a e))))
  ]

  finalize_slot-IsTimely :
      (s : Slot env api) (w : env.World) → IsTimely s → IsTimely (finalize_slot env api s w).1
  unfolding finalize_slot
  finalize_slot-IsTimely s w t =
      elim (Bool-cases (close_channel env api s.ssh_channel s.ssh_close_progress w).0) [
        | inl e ↦ rw e (record { in_time = λ f d. absurd cc })
        | inr e ↦ rw e (record { in_time = t.in_time })
      ]

  finalize_close-AllTimely :
      (m : Channels env api) (i : ℕ) (w : env.World)
      → AllTimely m.slots
      → AllTimely (finalize_close env api m i w).1.slots
  unfolding finalize_close archive
  finalize_close-AllTimely m i w a = elim (Option-cases (get_elem? m.slots i)) [
    | inl e ↦ rw (e, finalize_close) a
    | inr (s, e) ↦
        let t =
          AllTimely-set m.slots i (finalize_slot env api s w).1 a
            (finalize_slot-IsTimely s w (AllTimely-get_elem? m.slots i s a e)) in
        rw (e, finalize_close)
          (elim (Bool-cases s.active) [
            | inl f ↦ elim (Bool-cases (finalize_slot env api s w).0) [
              | inl d ↦ simp (f, d) t
              | inr d ↦ simp (f, d) t
            ]
            | inr f ↦ simp f a
          ])
  ]

  finalizes-AllTimely :
      (is : List ℕ) (c : Scan env api)
      → AllTimely c.channels.slots
      → AllTimely (finalizes env api is c).channels.slots
  unfolding finalizes
  finalizes-AllTimely [] c a = a
  finalizes-AllTimely (i ∷ is) c a = elim (Option-cases (get_elem? c.channels.slots i)) [
    | inl e ↦ rw (e, finalizes) (finalizes-AllTimely is c a)
    | inr (s, e) ↦
        rw (e, finalizes)
          (finalizes-AllTimely is _ (finalize_close-AllTimely c.channels i c.world a))
  ]

  pub send_step-AllTimely :
      (c : Scan env api)
      → AllTimely c.channels.slots
      → AllTimely (send_step env api c).channels.slots
  unfolding send_step
  send_step-AllTimely c a = elim (Bool-cases (length c.to_send_eof == 0)) [
    | inl t ↦ rw t a
    | inr t ↦ elim (Bool-cases (env.lock 100 c.world).0) [
      | inl l ↦ rw (t, l) (send_eofs-AllTimely c.to_send_eof c.channels _ a)
      | inr l ↦ rw (t, l) a
    ]
  ]

  pub finalize_step-AllTimely :
      (c : Scan env api)
      → AllTimely c.channels.slots
      → AllTimely (finalize_step env api c).channels.slots
  unfolding finalize_step
  finalize_step-AllTimely c a = elim (Bool-cases (length c.to_close == 0)) [
    | inl t ↦ rw t a
    | inr t ↦ elim (Bool-cases (env.lock 200 c.world).0) [
      | inl l ↦ rw (t, l) (finalizes-AllTimely c.to_close _ a)
      | inr l ↦ rw (t, l) a
    ]
  ]
