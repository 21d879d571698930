-- ===== src/Channel/Totals.antt =====
-- The totals that the manager reports over all channels, past and present.
use esp_reverse_tunneling_li.Prelude.{
  ℕ, zero, suc, ◌+◌, ◌%◌, ◌≡◌, refl, sym, ap, ◌∙◌, inl, inr, true, false, not, some, List, [], ◌∷◌,
  arith, if◌then◌else◌, Bool-cases, Option-cases, get_elem?, set, word, add32,
}
use mathlib.Core.Option.{some-injective}
use esp_reverse_tunneling_li.Env.{Env}
use esp_reverse_tunneling_li.RingApi.{RingApi}
use esp_reverse_tunneling_li.Channel.{Slot, finalize_slot, close_channel}
use esp_reverse_tunneling_li.Channel.Manager.{
  Channels, archive, finalize_close, total, total_bytes_received, total_bytes_sent,
}

module _ (env : Env) (api : RingApi) where
  abbrev sum_active : (Slot env api → ℕ) → List (Slot env api) → ℕ
  sum_active f [] = 0
  sum_active f (s ∷ ss) = (if s.active then f s else 0) + sum_active f ss

  total_lem :
      (f : Slot env api → ℕ) (acc : ℕ) (ss : List (Slot env api))
      → total env api f acc ss % word ≡ (acc + sum_active f ss) % word
  unfolding total
  total_lem f acc [] = omega arith
  total_lem f acc (s ∷ ss) =
      total_lem f (if s.active then add32 acc (f s) else acc) ss ∙ ground arith

  sum_active-set :
      (f : Slot env api → ℕ) (ss : List (Slot env api)) (i : ℕ) (old s : Slot env api)
      → get_elem? ss i ≡ some old
      → sum_active f (set ss i s) + (if old.active then f old else 0)
        ≡ sum_active f ss + (if s.active then f s else 0)
  sum_active-set f [] i old s e = cc
  sum_active-set f (x ∷ ss) zero old s e = rw (some-injective x old e) (omega arith)
  sum_active-set f (x ∷ ss) (suc i) old s e = omega (arith, sum_active-set f ss i old s e)

  -- A slot whose count is kept, in use or archived, leaves the total.
  moved_total :
      (f : Slot env api → ℕ) (ss : List (Slot env api)) (i acc : ℕ) (old s : Slot env api)
      → get_elem? ss i ≡ some old
      → old.active ≡ true
      → f s ≡ f old
      → (s.active ≡ true → total env api f acc (set ss i s) % word ≡ total env api f acc ss % word)
        × (s.active ≡ false
            → total env api f (add32 acc (f s)) (set ss i s) % word ≡ total env api f acc ss % word)
  moved_total f ss i acc old s e a k =
      let step : sum_active f (set ss i s) + f old
          ≡ sum_active f ss + (if s.active then f s else 0) =
        ground (arith, a, sum_active-set f ss i old s e) in
      (
        λ b.
            let same : sum_active f (set ss i s) ≡ sum_active f ss = ground (arith, step, b, k) in
            total_lem f acc (set ss i s)
            ∙ ap (λ (n : ℕ). (acc + n) % word) same
            ∙ sym (total_lem f acc ss),
        λ b.
            let less : sum_active f (set ss i s) + f s ≡ sum_active f ss =
              ground (arith, step, b, k) in
            total_lem f (add32 acc (f s)) (set ss i s)
            ∙ omega (arith, less)
            ∙ sym (total_lem f acc ss),
      )

  finalize_slot_counts :
      (s : Slot env api) (w : env.World)
      → s.active ≡ true
      → let (done, t, _) = finalize_slot env api s w in
        (t.total_bytes_received ≡ s.total_bytes_received)
        × (t.total_bytes_sent ≡ s.total_bytes_sent)
        × (t.active ≡ not done)
  unfolding finalize_slot
  finalize_slot_counts s w a =
      elim (Bool-cases (close_channel env api s.ssh_channel s.ssh_close_progress w).0) [
        | inl t ↦ rw t (refl, refl, refl)
        | inr t ↦ rw t (refl, refl, a)
      ]

  -- `finalizeClose`, at any index and whether or not it must be tried again, moves neither the total of the
  -- bytes received nor that of the bytes sent, as 32-bit words: a slot's counts are archived exactly once.
  pub finalize_close_totals :
      (m : Channels env api) (i : ℕ) (w : env.World)
      → let m' = (finalize_close env api m i w).1 in
        (total_bytes_received env api m' % word ≡ total_bytes_received env api m % word)
        × (total_bytes_sent env api m' % word ≡ total_bytes_sent env api m % word)
  unfolding finalize_close archive total_bytes_received total_bytes_sent
  finalize_close_totals m i w = elim (Option-cases (get_elem? m.slots i)) [
    | inl e ↦ rw (e, finalize_close) (refl, refl)
    | inr (s, e) ↦
        rw (e, finalize_close)
          (elim (Bool-cases s.active) [
            | inl a ↦ elim (Bool-cases (finalize_slot env api s w).0) [
              | inl d ↦
                  simp (a, d)
                    (
                      (received s e a).1 ((counts s a).2 ∙ ap not d),
                      (sent s e a).1 ((counts s a).2 ∙ ap not d),
                    )
              | inr d ↦
                  simp (a, d)
                    (
                      (received s e a).0 ((counts s a).2 ∙ ap not d),
                      (sent s e a).0 ((counts s a).2 ∙ ap not d),
                    )
            ]
            | inr a ↦ simp a (refl, refl)
          ])
  ]
    where
      counts :
          (s : Slot env api)
          → s.active ≡ true
          → let (done, t, _) = finalize_slot env api s w in
            (t.total_bytes_received ≡ s.total_bytes_received)
            × (t.total_bytes_sent ≡ s.total_bytes_sent)
            × (t.active ≡ not done)
      counts s a = finalize_slot_counts s w a

      received :
          (s : Slot env api)
          → get_elem? m.slots i ≡ some s
          → s.active ≡ true
          → let t = (finalize_slot env api s w).1 in
            (t.active ≡ true
              → total env api
                    (λ s. s.total_bytes_received)
                    m.completed_bytes_received
                    (set m.slots i t)
                  % word
                ≡ total env api (λ s. s.total_bytes_received) m.completed_bytes_received m.slots
                  % word)
            × (t.active ≡ false
                → total env api
                      (λ s. s.total_bytes_received)
                      (add32 m.completed_bytes_received t.total_bytes_received)
                      (set m.slots i t)
                    % word
                  ≡ total env api (λ s. s.total_bytes_received) m.completed_bytes_received m.slots
                    % word)
      received s e a =
          moved_total (λ s. s.total_bytes_received) m.slots i m.completed_bytes_received s
            (finalize_slot env api s w).1 e a (counts s a).0

      sent :
          (s : Slot env api)
          → get_elem? m.slots i ≡ some s
          → s.active ≡ true
          → let t = (finalize_slot env api s w).1 in
            (t.active ≡ true
              → total env api (λ s. s.total_bytes_sent) m.completed_bytes_sent (set m.slots i t)
                  % word
                ≡ total env api (λ s. s.total_bytes_sent) m.completed_bytes_sent m.slots % word)
            × (t.active ≡ false
                → total env api
                      (λ s. s.total_bytes_sent)
                      (add32 m.completed_bytes_sent t.total_bytes_sent)
                      (set m.slots i t)
                    % word
                  ≡ total env api (λ s. s.total_bytes_sent) m.completed_bytes_sent m.slots % word)
      sent s e a =
          moved_total (λ s. s.total_bytes_sent) m.slots i m.completed_bytes_sent s
            (finalize_slot env api s w).1 e a (counts s a).1
