-- ===== src/Breaker/Trips.antt =====
-- When the breaker trips, and what stays true of its table.
use esp_reverse_tunneling_li.Prelude.{
  ℕ, ◌≤◌, ◌<◌, ◌≡◌, refl, ◌∙◌, ◌≢◌, inl, inr, not, ◌&&◌, Option, none, some, List, [], ◌∷◌, arith,
  leb, ◌==◌, if◌then◌else◌, Bool-cases, Option-cases, length, word, add32,
}
use esp_reverse_tunneling_li.Breaker.{
  MappingHealth, CircuitBreaker, max_mapping_health, fail_threshold, initial, find_entry, peek,
  fresh_entry, claim_entry, find_or_alloc, store, is_backed_off, failed, record_failure,
  record_success,
}

-- The failures on record of a port, 0 without an entry.
abbrev pub fails_of : Option MappingHealth → ℕ
fails_of none = 0
fails_of (some h) = h.consecutive_fails

at_threshold :
    (h : MappingHealth) (now : ℕ)
    → leb fail_threshold (failed h now).consecutive_fails ≡ leb 2 h.consecutive_fails
unfolding failed
at_threshold h now = ground arith

-- `recordFailure` reports a trip exactly when two failures of its port are on record before this one
-- at least and it is not backed off, and it counts exactly the trips that it reports.
pub record_failure_trips :
    (b : CircuitBreaker) (port now : ℕ)
    → let (trip, b') = record_failure b port now in
      (trip ≡ (leb 2 (fails_of (peek b port)) && not (is_backed_off b port now)))
      × (b'.total_trips ≡ (if trip then add32 b.total_trips 1 else b.total_trips))
unfolding record_failure is_backed_off peek find_or_alloc
record_failure_trips b port now = elim (Option-cases (find_entry port b.health)) [
  | inl e ↦ ground (arith, e, at_threshold (fresh_entry port) now)
  | inr (h, e) ↦ ground (arith, e, at_threshold h now)
]

-- The bounds of an entry: the counter stops at 100, and a deadline is only set at the threshold.
abbrev pub EntryIsValid : MappingHealth → Type 0
EntryIsValid h =
    (h.consecutive_fails ≤ 100)
    × (h.backoff_until_ms < word)
    × (h.backoff_until_ms ≢ 0 → fail_threshold ≤ h.consecutive_fails)

abbrev pub AllEntries : (MappingHealth → Type 0) → List MappingHealth → Type 0
AllEntries P [] = Unit
AllEntries P (h ∷ hs) = P h × AllEntries P hs

pub record IsValid (b : CircuitBreaker) : Type 0 where
  pub entries : AllEntries EntryIsValid b.health
  pub size : length b.health ≡ max_mapping_health

initial-IsValid : IsValid initial
initial-IsValid = omega arith

store-AllEntries :
    (g : MappingHealth) (hs : List MappingHealth)
    → EntryIsValid g
    → AllEntries EntryIsValid hs
    → AllEntries EntryIsValid (store g hs)
unfolding store
store-AllEntries g [] v vs = tt
store-AllEntries g (h ∷ hs) v (w, ws) = ground (arith, store-AllEntries g hs v ws)

length-store : (g : MappingHealth) (hs : List MappingHealth) → length (store g hs) ≡ length hs
unfolding store
length-store g [] = refl
length-store g (h ∷ hs) = ground (arith, length-store g hs)

find_entry-EntryIsValid :
    (port : ℕ) (hs : List MappingHealth) (h : MappingHealth)
    → AllEntries EntryIsValid hs
    → find_entry port hs ≡ some h
    → EntryIsValid h
unfolding find_entry
find_entry-EntryIsValid port [] h vs e = cc
find_entry-EntryIsValid port (g ∷ hs) h (w, ws) e =
    ground (arith, find_entry-EntryIsValid port hs h ws)

claim_entry-AllEntries :
    (port : ℕ) (hs : List MappingHealth)
    → AllEntries EntryIsValid hs
    → AllEntries EntryIsValid (claim_entry port hs)
unfolding claim_entry
claim_entry-AllEntries port [] vs = tt
claim_entry-AllEntries port (h ∷ hs) (w, ws) = ground (arith, claim_entry-AllEntries port hs ws)

length-claim_entry : (port : ℕ) (hs : List MappingHealth) → length (claim_entry port hs) ≡ length hs
unfolding claim_entry
length-claim_entry port [] = refl
length-claim_entry port (h ∷ hs) = ground (arith, length-claim_entry port hs)

find_or_alloc-EntryIsValid :
    (port : ℕ) (hs : List MappingHealth) (h : MappingHealth)
    → AllEntries EntryIsValid hs
    → (find_or_alloc port hs).0 ≡ some h
    → EntryIsValid h
unfolding find_or_alloc
find_or_alloc-EntryIsValid port hs h vs e = elim (Option-cases (find_entry port hs)) [
  | inl f ↦ ground (arith, e, f)
  | inr (g, f) ↦ find_entry-EntryIsValid port hs h vs (ground (arith, e, f))
]

find_or_alloc-AllEntries :
    (port : ℕ) (hs : List MappingHealth)
    → AllEntries EntryIsValid hs
    → AllEntries EntryIsValid (find_or_alloc port hs).1
unfolding find_or_alloc
find_or_alloc-AllEntries port hs vs = ground (arith, claim_entry-AllEntries port hs vs)

length-find_or_alloc :
    (port : ℕ) (hs : List MappingHealth) → length (find_or_alloc port hs).1 ≡ length hs
unfolding find_or_alloc
length-find_or_alloc port hs = ground (arith, length-claim_entry port hs)

failed-EntryIsValid : (h : MappingHealth) (now : ℕ) → EntryIsValid h → EntryIsValid (failed h now)
unfolding failed
failed-EntryIsValid h now v = ground (arith, v)

-- The table that `findOrAlloc` leaves, and the same with a valid entry written to it.
table_valid :
    (b : CircuitBreaker) (port trips : ℕ)
    → IsValid b
    → IsValid (record { health = (find_or_alloc port b.health).1; total_trips = trips })
table_valid b port trips v = record {
  entries = find_or_alloc-AllEntries port b.health v.entries;
  size = length-find_or_alloc port b.health ∙ v.size;
}

store_valid :
    (b : CircuitBreaker) (port trips : ℕ) (g : MappingHealth)
    → IsValid b
    → EntryIsValid g
    → IsValid (record { health = store g (find_or_alloc port b.health).1; total_trips = trips })
store_valid b port trips g v w =
    let t = table_valid b port trips v in
    record {
      entries = store-AllEntries g (find_or_alloc port b.health).1 w t.entries;
      size = length-store g (find_or_alloc port b.health).1 ∙ t.size;
    }

-- Both calls keep the table at eight entries, each with at most 100 failures, a 32-bit deadline, and
-- a deadline only from the third failure on.
pub breaker-IsValid :
    (b : CircuitBreaker) (port now : ℕ)
    → IsValid b
    → IsValid (record_failure b port now).1 × IsValid (record_success b port)
unfolding record_failure record_success
breaker-IsValid b port now v = elim (Bool-cases (port == 0)) [
  | inl z ↦ rw z (v, v)
  | inr z ↦ rw z (elim (Option-cases (find_or_alloc port b.health).0) [
    | inl e ↦ rw e (table_valid b port b.total_trips v, table_valid b port b.total_trips v)
    | inr (h, e) ↦
        let w = find_or_alloc-EntryIsValid port b.health h v.entries e in
        rw e (
          store_valid b port _ (failed h now) v (failed-EntryIsValid h now w),
          store_valid b port b.total_trips _ v (omega arith),
        )
  ])
]
