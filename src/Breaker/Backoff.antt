-- ===== src/Breaker/Backoff.antt =====
-- How long a mapping is kept back after its failures.
use esp_reverse_tunneling_li.Prelude.{
  ℕ, suc, ◌+◌, ◌-◌, ◌*◌, ◌≤◌, ◌<◌, min, ◌≡◌, refl, ◌∙◌, ◌≢◌, inl, inr, true, false, ◌&&◌, ◌||◌,
  none, some, arith, ltb, leb, Bool-cases, Option-cases, passes_first, passes_first→at, word,
  half_word, add32,
}
use esp_reverse_tunneling_li.Breaker.{
  MappingHealth, CircuitBreaker, fail_threshold, peek, find_or_alloc, is_open, is_backed_off,
  delay_ms, shift_left, failed, record_failure, record_success,
}
use esp_reverse_tunneling_li.Breaker.Table.{peek-record_failure, peek-record_success}

shift_table :
    passes_first (λ k. leb 1000 (shift_left 1000 k) && leb (shift_left 1000 k) 65536000) 17 ≡ true
unfolding passes_first shift_left
shift_table = refl

shift_bounds : (k : ℕ) → k ≤ 16 → (1000 ≤ shift_left 1000 k) × (shift_left 1000 k ≤ 65536000)
shift_bounds k h = ground (
  arith,
  passes_first→at (λ k. leb 1000 (shift_left 1000 k) && leb (shift_left 1000 k) 65536000) 17 k
      (omega arith) shift_table,
)

shift_top : shift_left 1000 16 ≡ 65536000
unfolding shift_left
shift_top = refl

shift-suc : (k : ℕ) → k ≤ 16 → shift_left 1000 (suc k) ≡ 2 * shift_left 1000 k
unfolding shift_left
shift-suc k h = omega (arith, shift_bounds k h)

-- The delay after so many failures: a second at the threshold, twice as long for each one more, and
-- never more than a minute.
pub delay_lem :
    (fails : ℕ)
    → fail_threshold ≤ fails
    → (delay_ms fail_threshold ≡ 1000)
      × (delay_ms (fails + 1) ≡ min (2 * delay_ms fails) 60000)
      × (1000 ≤ delay_ms fails)
      × (delay_ms fails ≤ 60000)
unfolding delay_ms
delay_lem fails h =
    (first, next, omega (arith, shift_bounds (min (fails - 3) 16) (omega arith)), omega arith)
  where
    first : delay_ms 3 ≡ 1000
    first = refl

    next : delay_ms (fails + 1) ≡ min (2 * delay_ms fails) 60000
    next = elim (Bool-cases (ltb (fails - 3) 16)) [
      | inl t ↦
          let e : min (fails + 1 - 3) 16 ≡ suc (min (fails - 3) 16) = ground (arith, t) in
          rw (e, shift-suc (min (fails - 3) 16) (omega arith)) (omega arith)
      | inr t ↦
          let e : min (fails + 1 - 3) 16 ≡ 16 = ground (arith, t) in
          let f : min (fails - 3) 16 ≡ 16 = ground (arith, t) in rw (e, f) refl
    ]

-- The window in which an entry is open: `elapsed` after a failure at `now` that set `until`.
is_open_window :
    (now delay elapsed : ℕ)
    → now < word
    → elapsed < word
    → delay ≤ 60000
    → add32 now delay ≢ 0
    → is_open (add32 now delay) (add32 now elapsed)
      ≡ (ltb elapsed delay || leb (half_word + delay) elapsed)
unfolding is_open
is_open_window now delay elapsed h k l z = ground arith

failed_until :
    (h : MappingHealth) (now : ℕ)
    → fail_threshold ≤ (failed h now).consecutive_fails
    → (failed h now).backoff_until_ms ≡ add32 now (delay_ms (failed h now).consecutive_fails)
unfolding failed
failed_until h now f = ground arith

is_backed_off_of_peek :
    (b : CircuitBreaker) (port now : ℕ)
    → is_backed_off b port now
      ≡ elim (peek b port) [ none ↦ false | some h ↦ is_open h.backoff_until_ms now ]
unfolding is_backed_off peek
is_backed_off_of_peek b port now = refl

peek_zero : (b : CircuitBreaker) (port : ℕ) → port ≡ 0 → peek b port ≡ none
unfolding peek
peek_zero b port e = ground arith

-- The entry that a failure leaves is that of a failure recorded on some entry.
left_failed :
    (b : CircuitBreaker) (port now : ℕ) (h : MappingHealth)
    → port ≢ 0
    → peek (record_failure b port now).1 port ≡ some h
    → (g : MappingHealth) × (failed g now ≡ h)
left_failed b port now h p found = elim (Option-cases (find_or_alloc port b.health).0) [
  | inl free ↦ absurd (ground (arith, free, peek-record_failure b port port now))
  | inr (g, free) ↦ (g, ground (arith, free, peek-record_failure b port port now))
]

-- After a failure that leaves the entry of its port with at least three failures, and with a deadline
-- that is not the value 0 reserved for "never", the mapping is backed off for exactly the delay of
-- that many failures; and again once 2^31 ms and the delay have gone by, for the rest of the 2^32 ms
-- that the clock can tell apart.
pub is_backed_off-record_failure :
    (b : CircuitBreaker) (port now elapsed : ℕ) (h : MappingHealth)
    → port ≢ 0
    → now < word
    → elapsed < word
    → let b' = (record_failure b port now).1 in
      peek b' port ≡ some h
      → fail_threshold ≤ h.consecutive_fails
      → h.backoff_until_ms ≢ 0
      → let delay = delay_ms h.consecutive_fails in
        is_backed_off b' port (add32 now elapsed)
        ≡ (ltb elapsed delay || leb (half_word + delay) elapsed)
is_backed_off-record_failure b port now elapsed h p n e found f z =
    let (g, left) = left_failed b port now h p found in
    let until : h.backoff_until_ms ≡ add32 now (delay_ms h.consecutive_fails) =
      ground (arith, left, failed_until g now) in
    rw (is_backed_off_of_peek, found, until)
      (is_open_window now (delay_ms h.consecutive_fails) elapsed n e
        (delay_lem h.consecutive_fails f).3 (λ c. z (until ∙ c)))

-- A success ends the back-off of its mapping at once and for good: at no time is it backed off.
pub is_backed_off-record_success :
    (b : CircuitBreaker) (port now : ℕ) → is_backed_off (record_success b port) port now ≡ false
unfolding is_open
is_backed_off-record_success b port now =
    rw (is_backed_off_of_peek, peek-record_success) (ground (arith, peek_zero b port))

-- Neither call moves the back-off of another mapping.
pub is_backed_off_frame :
    (b : CircuitBreaker) (port q now later : ℕ)
    → q ≢ port
    → (is_backed_off (record_failure b port now).1 q later ≡ is_backed_off b q later)
      × (is_backed_off (record_success b port) q later ≡ is_backed_off b q later)
is_backed_off_frame b port q now later h = (
  ground (
    arith,
    is_backed_off_of_peek (record_failure b port now).1 q later,
    is_backed_off_of_peek b q later,
    peek-record_failure b port q now,
  ),
  ground (
    arith,
    is_backed_off_of_peek (record_success b port) q later,
    is_backed_off_of_peek b q later,
    peek-record_success b port q,
  ),
)
