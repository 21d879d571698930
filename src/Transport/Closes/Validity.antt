-- ===== src/Transport/Closes/Validity.antt =====
-- `checkCloses` keeps the invariant of the channel manager.
use esp_reverse_tunneling_li.Prelude.{
  ℕ, zero, suc, min, ◌≡◌, refl, sym, ◌∙◌, inl, inr, Bool, true, false, not, ◌&&◌, ◌||◌, Option,
  none, some, List, [], ◌∷◌, ◌==◌, if◌then◌else◌, Bool-cases, Option-cases, length, get_elem?,
}
use esp_reverse_tunneling_li.DataRing.{DataRing}
use esp_reverse_tunneling_li.RingApi.{RingApi}
use esp_reverse_tunneling_li.Env.{Env, ReadResult-cases}
use esp_reverse_tunneling_li.Channel.{
  Slot, ChannelCloseReason, begin_close, is_open, remote_closed, local_closed, error, timeout,
}
use esp_reverse_tunneling_li.Channel.Manager.{Channels}
use esp_reverse_tunneling_li.Channel.Counts.{
  IsValid, SlotIsValid, AllSlots, count_active, AllSlots-get_elem?, begin_close-SlotIsValid,
  set-IsValid, abandon_slot-IsValid, finalize_close-IsValid,
}
use esp_reverse_tunneling_li.Transport.Closes.{
  Verdict, Scan, drained, shut_local, time_out, transition, transitions, verdict, act, scan, flush,
  keep_pumped, send_eof_to, send_eofs, finalizes, send_step, finalize_step, first_step, scan_step,
  check_closes,
}

module _ (env : Env) (api : RingApi) where
  -- A valid slot that is in use or not as `s` is.
  abbrev Keeps : Slot env api → Slot env api → Type 0
  Keeps s t = SlotIsValid env api t × (t.active ≡ s.active)

  shut_local-Keeps :
      (m : Option ℕ) (s : Slot env api) (w : env.World)
      → SlotIsValid env api s
      → Keeps s (shut_local env api m s w).0
  unfolding shut_local
  shut_local-Keeps none s w v = (v, refl)
  shut_local-Keeps (some fd) s w v =
      elim (Bool-cases (s.remote_eof && not s.local_shutdown_sent && drained env api s.to_remote)) [
        | inl t ↦ rw t (fields, refl)
        | inr t ↦ rw t (v, refl)
      ]
    where
      fields : SlotIsValid env api (record s { local_shutdown_sent = true })
      fields = record {
        no_channel = v.no_channel;
        no_socket = v.no_socket;
        no_to_local = v.no_to_local;
        no_to_remote = v.no_to_remote;
        idle_closed = v.idle_closed;
        used_not_closed = v.used_not_closed;
      }

  -- Beginning to close on a test, and else going on.
  if_close :
      (b : Bool) (s t : Slot env api) (reason : ChannelCloseReason) (w : env.World)
      (other : Slot env api × env.World)
      → SlotIsValid env api t
      → t.active ≡ s.active
      → Keeps s other.0
      → Keeps s (if b then begin_close env api t reason w else other).0
  if_close true s t reason w other v a k =
      let c = begin_close-SlotIsValid env api t reason w v in (c.0, c.1 ∙ a)
  if_close false s t reason w other v a k = k

  transition-Keeps :
      (now timeout_ms : ℕ) (s : Slot env api) (w : env.World)
      → SlotIsValid env api s
      → Keeps s (transition env api now timeout_ms s w).0
  unfolding transition time_out
  transition-Keeps now timeout_ms s w v =
      elim (Bool-cases (not s.active || not (is_open s.state))) [
        | inl t ↦ rw t (v, refl)
        | inr t ↦ rw t (
            if_close _ s s remote_closed w _ v refl (
              if_close _ s s local_closed w _ v refl (
                if_close _ s s error w _ v refl (
                  if_close _ s s1 remote_closed w1 _ k.0 k.1
                    (if_close _ s s1 timeout w1 _ k.0 k.1 k)))))
      ]
    where
      s1 : Slot env api
      s1 = (shut_local env api s.local_socket s w).0

      w1 : env.World
      w1 = (shut_local env api s.local_socket s w).1

      k : Keeps s s1
      k = shut_local-Keeps s.local_socket s w v

  transitions-AllSlots :
      (now timeout_ms : ℕ) (ss : List (Slot env api)) (w : env.World)
      → AllSlots env api ss
      → AllSlots env api (transitions env api now timeout_ms ss w).0
        × (count_active env api (transitions env api now timeout_ms ss w).0
            ≡ count_active env api ss)
  unfolding transitions
  transitions-AllSlots now timeout_ms [] w v = (tt, refl)
  transitions-AllSlots now timeout_ms (s ∷ ss) w (v, vs) =
      let k = transition-Keeps now timeout_ms s w v in
      let r = transitions-AllSlots now timeout_ms ss (transition env api now timeout_ms s w).1 vs in
      ((k.0, r.0), rw (k.1, r.1) refl)

  keep_pumped-Keeps :
      (r : Option (DataRing api.Ring)) (bytes : List ℕ) (s : Slot env api)
      → s.to_local ≡ r
      → SlotIsValid env api s
      → Keeps s (keep_pumped env api r bytes s)
  unfolding keep_pumped
  keep_pumped-Keeps none bytes s e v = (v, refl)
  keep_pumped-Keeps (some d) bytes s e v = (
    record {
      no_channel = v.no_channel;
      no_socket = v.no_socket;
      no_to_local = λ a. absurd (let c = v.no_to_local a in cc);
      no_to_remote = v.no_to_remote;
      idle_closed = v.idle_closed;
      used_not_closed = v.used_not_closed;
    },
    refl,
  )

  flush-Keeps :
      (n channel : ℕ) (s : Slot env api) (w : env.World)
      → SlotIsValid env api s
      → Keeps s (flush env api n channel s w).0
  unfolding flush
  flush-Keeps zero channel s w v = (v, refl)
  flush-Keeps (suc n) channel s w v = elim (ReadResult-cases (env.channel_read channel 512 w).0) [
    | inl (bytes, e) ↦
        let k = keep_pumped-Keeps s.to_local bytes s refl v in
        let f = flush-Keeps n channel _ (env.channel_read channel 512 w).1 k.0 in
        rw (e, flush) (f.0, f.1 ∙ k.1)
    | inr (inl e) ↦ rw (e, flush) (v, refl)
    | inr (inr (inl e)) ↦ rw (e, flush) (v, refl)
    | inr (inr (inr e)) ↦ rw (e, flush) (v, refl)
  ]

  send_eof_to-Keeps :
      (m : Option ℕ) (s : Slot env api) (w : env.World)
      → SlotIsValid env api s
      → Keeps s (send_eof_to env api m s w).0
  unfolding send_eof_to
  send_eof_to-Keeps none s w v = (v, refl)
  send_eof_to-Keeps (some channel) s w v = elim (Bool-cases (env.channel_send_eof channel w).0) [
    | inl t ↦ rw t (v, refl)
    | inr t ↦ rw t (
      record {
        no_channel = k.0.no_channel;
        no_socket = k.0.no_socket;
        no_to_local = k.0.no_to_local;
        no_to_remote = k.0.no_to_remote;
        idle_closed = k.0.idle_closed;
        used_not_closed = k.0.used_not_closed;
      },
      k.1,
    )
  ]
    where
      k : Keeps s (flush env api 4 channel s (env.channel_send_eof channel w).1).0
      k = flush-Keeps 4 channel s _ v

  send_eofs-IsValid :
      (is : List ℕ) (m : Channels env api) (w : env.World)
      → IsValid env api m
      → IsValid env api (send_eofs env api is m w).0
  unfolding send_eofs
  send_eofs-IsValid [] m w v = v
  send_eofs-IsValid (i ∷ is) m w v = elim (Option-cases (get_elem? m.slots i)) [
    | inl e ↦ rw (e, send_eofs) (send_eofs-IsValid is m w v)
    | inr (s, e) ↦
        let k =
          send_eof_to-Keeps s.ssh_channel s w (AllSlots-get_elem? env api m.slots i s v.each e) in
        rw (e, send_eofs)
          (send_eofs-IsValid is _ _
            (set-IsValid env api m i s (send_eof_to env api s.ssh_channel s w).0 v e k.0 k.1))
  ]

  finalizes-IsValid :
      (is : List ℕ) (c : Scan env api)
      → IsValid env api c.channels
      → IsValid env api (finalizes env api is c).channels
  unfolding finalizes
  finalizes-IsValid [] c v = v
  finalizes-IsValid (i ∷ is) c v = elim (Option-cases (get_elem? c.channels.slots i)) [
    | inl e ↦ rw (e, finalizes) (finalizes-IsValid is c v)
    | inr (s, e) ↦
        rw (e, finalizes)
          (finalizes-IsValid is _ (finalize_close-IsValid env api c.channels i c.world v))
  ]

  act-IsValid :
      (size i : ℕ) (s : Slot env api) (r : Verdict) (c : Scan env api)
      → IsValid env api c.channels
      → IsValid env api (act env api size i s r c).channels
  unfolding act
  act-IsValid size i s Verdict.wait c v = v
  act-IsValid size i s Verdict.send_eof c v = v
  act-IsValid size i s Verdict.finalize c v = v
  act-IsValid size i s Verdict.abandon c v = abandon_slot-IsValid env api c.channels i c.world v

  scan-IsValid :
      (n i now size : ℕ) (c : Scan env api)
      → IsValid env api c.channels
      → IsValid env api (scan env api n i now size c).channels
  unfolding scan
  scan-IsValid zero i now size c v = v
  scan-IsValid (suc n) i now size c v = elim (Option-cases (get_elem? c.channels.slots i)) [
    | inl e ↦ rw (e, scan) v
    | inr (s, e) ↦
        rw (e, scan)
          (scan-IsValid n (suc i) now size _ (act-IsValid size i s (verdict env api now s) c v))
  ]

  send_step-IsValid :
      (c : Scan env api)
      → IsValid env api c.channels
      → IsValid env api (send_step env api c).channels
  unfolding send_step
  send_step-IsValid c v = elim (Bool-cases (length c.to_send_eof == 0)) [
    | inl t ↦ rw t v
    | inr t ↦ elim (Bool-cases (env.lock 100 c.world).0) [
      | inl l ↦ rw (t, l) (send_eofs-IsValid c.to_send_eof c.channels _ v)
      | inr l ↦ rw (t, l) v
    ]
  ]

  finalize_step-IsValid :
      (c : Scan env api)
      → IsValid env api c.channels
      → IsValid env api (finalize_step env api c).channels
  unfolding finalize_step
  finalize_step-IsValid c v = elim (Bool-cases (length c.to_close == 0)) [
    | inl t ↦ rw t v
    | inr t ↦ elim (Bool-cases (env.lock 200 c.world).0) [
      | inl l ↦ rw (t, l) (finalizes-IsValid c.to_close _ v)
      | inr l ↦ rw (t, l) v
    ]
  ]

  first_step-IsValid :
      (timeout_ms : ℕ) (m : Channels env api) (degraded : Bool)
      (events : List (ℕ × ChannelCloseReason)) (w : env.World)
      → IsValid env api m
      → IsValid env api (first_step env api timeout_ms m degraded events w).channels
  unfolding first_step
  first_step-IsValid timeout_ms m degraded events w v =
      let moved =
        transitions-AllSlots (env.millis w).0 timeout_ms m.slots (env.millis w).1 v.each in
      record { counted = v.counted ∙ sym moved.1; each = moved.0 }

  scan_step-IsValid :
      (slots : ℕ) (c : Scan env api)
      → IsValid env api c.channels
      → IsValid env api (scan_step env api slots c).channels
  unfolding scan_step
  scan_step-IsValid slots c v =
      scan-IsValid slots 0 (env.millis c.world).0 (min slots 32)
        (record c { world = (env.millis c.world).1 }) v

  -- The phase keeps the invariant of the channel manager, whatever the slots, the clock and libssh2 do.
  pub check_closes-IsValid :
      (timeout_ms : ℕ) (m : Channels env api) (degraded : Bool)
      (events : List (ℕ × ChannelCloseReason)) (w : env.World)
      → IsValid env api m
      → IsValid env api (check_closes env api timeout_ms m degraded events w).channels
  unfolding check_closes
  check_closes-IsValid timeout_ms m degraded events w v =
      finalize_step-IsValid (send_step env api scanned) (
        send_step-IsValid scanned (
          scan_step-IsValid (length m.slots) first
            (first_step-IsValid timeout_ms m degraded events w v)))
    where
      first : Scan env api
      first = first_step env api timeout_ms m degraded events w

      scanned : Scan env api
      scanned = scan_step env api (length m.slots) first
