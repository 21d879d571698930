-- ===== src/Transport/Closes/Deadline.antt =====
-- `checkCloses` leaves no slot draining beyond the hard limit.
use esp_reverse_tunneling_li.Prelude.{
  ℕ, zero, suc, ◌+◌, min, ◌≡◌, refl, ap, ◌≢◌, inl, inr, Bool, none, some, List, [], ◌∷◌, arith,
  Bool-cases, Option-cases, length, get_elem?, set, length-set,
}
use mathlib.Core.Option.{some-injective}
use esp_reverse_tunneling_li.RingApi.{RingApi}
use esp_reverse_tunneling_li.Env.{Env}
use esp_reverse_tunneling_li.Channel.{Slot, ChannelCloseReason, reset_slot}
use esp_reverse_tunneling_li.Channel.Manager.{Channels, archive, abandon_slot}
use esp_reverse_tunneling_li.Transport.Closes.{
  Verdict, Scan, transition, transitions, verdict, act, scan, send_step, first_step, scan_step,
  check_closes,
}
use esp_reverse_tunneling_li.Transport.Closes.Timely.{
  IsTimely, AllTimely, send_step-AllTimely, finalize_step-AllTimely,
}

module _ (env : Env) (api : RingApi) (now : ℕ) where
  -- The slots below an index.
  abbrev Below : ℕ → List (Slot env api) → Type 0
  Below zero ss = Unit
  Below (suc i) [] = Unit
  Below (suc i) (s ∷ ss) = IsTimely env api now s × Below i ss

  Below-set :
      (i : ℕ) (s : Slot env api) (ss : List (Slot env api))
      → IsTimely env api now s
      → Below i ss
      → Below (suc i) (set ss i s)
  Below-set i s [] t b = tt
  Below-set zero s (x ∷ ss) t b = (t, tt)
  Below-set (suc i) s (x ∷ ss) t (u, b) = (u, Below-set i s ss t b)

  Below-suc :
      (i : ℕ) (s : Slot env api) (ss : List (Slot env api))
      → get_elem? ss i ≡ some s
      → IsTimely env api now s
      → Below i ss
      → Below (suc i) ss
  Below-suc i s [] e t b = tt
  Below-suc zero s (x ∷ ss) e t b = (rw (some-injective x s e) t, tt)
  Below-suc (suc i) s (x ∷ ss) e t (u, b) = (u, Below-suc i s ss e t b)

  Below-AllTimely : (ss : List (Slot env api)) → Below (length ss) ss → AllTimely env api now ss
  Below-AllTimely [] b = tt
  Below-AllTimely (s ∷ ss) (t, b) = (t, Below-AllTimely ss b)

  -- What is not given up is in time.
  verdict-IsTimely :
      (s : Slot env api) (v : Verdict)
      → verdict env api now s ≡ v
      → v ≢ Verdict.abandon
      → IsTimely env api now s
  unfolding verdict
  verdict-IsTimely s v e n = record { in_time = λ a d. ground (arith, e, n, a, d) }

  abandon_slot-Below :
      (i : ℕ) (s : Slot env api) (m : Channels env api) (w : env.World)
      → get_elem? m.slots i ≡ some s
      → Below i m.slots
      → Below (suc i) (abandon_slot env api m i w).0.slots
        × (length (abandon_slot env api m i w).0.slots ≡ length m.slots)
  unfolding abandon_slot archive reset_slot
  abandon_slot-Below i s m w e b =
      rw (e, abandon_slot)
        (elim (Bool-cases s.active) [
          | inl a ↦ simp a (
            Below-set i (reset_slot env api s) m.slots (record { in_time = λ f d. cc }) b,
            length-set m.slots i (reset_slot env api s),
          )
          | inr a ↦ simp a (Below-suc i s m.slots e (record { in_time = λ f d. absurd cc }) b, refl)
        ])

  act-Below :
      (size i : ℕ) (s : Slot env api) (v : Verdict) (c : Scan env api)
      → verdict env api now s ≡ v
      → get_elem? c.channels.slots i ≡ some s
      → Below i c.channels.slots
      → Below (suc i) (act env api size i s v c).channels.slots
        × (length (act env api size i s v c).channels.slots ≡ length c.channels.slots)
  unfolding act
  act-Below size i s Verdict.wait c v e b =
      (Below-suc i s c.channels.slots e (verdict-IsTimely s Verdict.wait v (λ n. cc)) b, refl)
  act-Below size i s Verdict.send_eof c v e b =
      (Below-suc i s c.channels.slots e (verdict-IsTimely s Verdict.send_eof v (λ n. cc)) b, refl)
  act-Below size i s Verdict.finalize c v e b =
      (Below-suc i s c.channels.slots e (verdict-IsTimely s Verdict.finalize v (λ n. cc)) b, refl)
  act-Below size i s Verdict.abandon c v e b = abandon_slot-Below i s c.channels c.world e b

  Below-past :
      (i : ℕ) (ss : List (Slot env api))
      → get_elem? ss i ≡ none
      → Below i ss
      → AllTimely env api now ss
  Below-past i [] e b = tt
  Below-past zero (s ∷ ss) e b = absurd cc
  Below-past (suc i) (s ∷ ss) e (t, b) = (t, Below-past i ss e b)

  scan-AllTimely :
      (n i size : ℕ) (c : Scan env api)
      → length c.channels.slots ≡ i + n
      → Below i c.channels.slots
      → AllTimely env api now (scan env api n i now size c).channels.slots
  unfolding scan
  scan-AllTimely zero i size c l b =
      let all : length c.channels.slots ≡ i = omega (arith, l) in
      Below-AllTimely c.channels.slots (rw all b)
  scan-AllTimely (suc n) i size c l b = elim (Option-cases (get_elem? c.channels.slots i)) [
    | inl e ↦ rw (e, scan) (Below-past i c.channels.slots e b)
    | inr (s, e) ↦
        let (b', l') = act-Below size i s (verdict env api now s) c refl e b in
        rw (e, scan)
          (scan-AllTimely n (suc i) size (act env api size i s (verdict env api now s) c)
            (omega (arith, l, l')) b')
  ]

module _ (env : Env) (api : RingApi) where
  length-transitions :
      (now timeout_ms : ℕ) (ss : List (Slot env api)) (w : env.World)
      → length (transitions env api now timeout_ms ss w).0 ≡ length ss
  unfolding transitions
  length-transitions now timeout_ms [] w = refl
  length-transitions now timeout_ms (s ∷ ss) w =
      ap suc (length-transitions now timeout_ms ss (transition env api now timeout_ms s w).1)

  -- When `checkCloses` returns, no slot in use has been draining for more than 30 s at the clock of its
  -- second step: whatever the table, the lock, the clock and libssh2 do, also when the lock is never had
  -- and when libssh2 asks for every call to be made again.
  pub check_closes-AllTimely :
      (timeout_ms : ℕ) (m : Channels env api) (degraded : Bool)
      (events : List (ℕ × ChannelCloseReason)) (w : env.World)
      → let first = first_step env api timeout_ms m degraded events w in
        let now = (env.millis first.world).0 in
        AllTimely env api now (check_closes env api timeout_ms m degraded events w).channels.slots
  unfolding check_closes scan_step first_step
  check_closes-AllTimely timeout_ms m degraded events w =
      let first = first_step env api timeout_ms m degraded events w in
      let (now, w1) = env.millis first.world in
      let scanned = scan_step env api (length m.slots) first in
      finalize_step-AllTimely env api now (send_step env api scanned) (
        send_step-AllTimely env api now scanned (
          scan-AllTimely env api now (length m.slots) 0 (min (length m.slots) 32)
            (record first { world = w1 })
            (omega (arith, length-transitions (env.millis w).0 timeout_ms m.slots (env.millis w).1))
            tt))
