-- ===== src/Breaker/Table.antt =====
-- The table of mappings: what an update of one port does to the others, and its bounds.
use esp_reverse_tunneling_li.Prelude.{
  ℕ, ◌≡◌, ◌≢◌, inl, inr, not, ◌&&◌, none, some, List, [], ◌∷◌, arith, ◌==◌, if◌then◌else◌,
  Option-cases,
}
use esp_reverse_tunneling_li.Breaker.{
  MappingHealth, CircuitBreaker, find_entry, peek, fresh_entry, claim_entry, find_or_alloc, store,
  failed, record_failure, record_success,
}

-- An entry that is found has the port that was asked for.
port-find_entry :
    (port : ℕ) (hs : List MappingHealth) {h : MappingHealth}
    → find_entry port hs ≡ some h
    → h.remote_bind_port ≡ port
unfolding find_entry
port-find_entry port [] e = cc
port-find_entry port (g ∷ hs) {h} e = ground (arith, port-find_entry port hs {h = h})

find_entry-claim_entry :
    (port q : ℕ) (hs : List MappingHealth)
    → port ≢ 0
    → q ≢ 0
    → find_entry port hs ≡ none
    → find_entry q (claim_entry port hs) ≡ (
        if q == port
        then elim (find_entry 0 hs) [ none ↦ none | some h ↦ some (fresh_entry port) ]
        else find_entry q hs)
unfolding find_entry claim_entry
find_entry-claim_entry port q [] p z e = ground arith
find_entry-claim_entry port q (h ∷ hs) p z e = ground (arith, find_entry-claim_entry port q hs)

find_entry-store :
    (g : MappingHealth) (q : ℕ) (hs : List MappingHealth)
    → find_entry q (store g hs) ≡ (
        if q == g.remote_bind_port
        then elim (find_entry q hs) [ none ↦ none | some h ↦ some g ]
        else find_entry q hs)
unfolding find_entry store
find_entry-store g q [] = ground arith
find_entry-store g q (h ∷ hs) = ground (arith, find_entry-store g q hs)

-- The entry that a port has or gets.
port-find_or_alloc :
    (port : ℕ) (hs : List MappingHealth) {h : MappingHealth}
    → (find_or_alloc port hs).0 ≡ some h
    → h.remote_bind_port ≡ port
unfolding find_or_alloc
port-find_or_alloc port hs {h} e = ground (arith, port-find_entry port hs {h = h})

-- After `findOrAlloc` the port has that entry and every other port has its old one.
find_entry-find_or_alloc :
    (port q : ℕ) (hs : List MappingHealth)
    → port ≢ 0
    → q ≢ 0
    → find_entry q (find_or_alloc port hs).1
      ≡ (if q == port then (find_or_alloc port hs).0 else find_entry q hs)
unfolding find_or_alloc
find_entry-find_or_alloc port q hs p z = ground (arith, find_entry-claim_entry port q hs p z)

-- What a port's entry is after a write through the pointer that `findOrAlloc` gave for another.
find_entry-update :
    (port q : ℕ) (hs : List MappingHealth) (h g : MappingHealth)
    → port ≢ 0
    → q ≢ 0
    → (find_or_alloc port hs).0 ≡ some h
    → g.remote_bind_port ≡ port
    → find_entry q (store g (find_or_alloc port hs).1)
      ≡ (if q == port then some g else find_entry q hs)
find_entry-update port q hs h g p z e f =
    ground (
      arith,
      find_entry-store g q (find_or_alloc port hs).1,
      find_entry-find_or_alloc port q hs p z,
    )

port-failed : (h : MappingHealth) (now : ℕ) → (failed h now).remote_bind_port ≡ h.remote_bind_port
unfolding failed
port-failed h now = ground arith

-- `recordFailure` changes only the entry of its port: that is as the failure leaves the entry that the
-- port had or was given, and missing if the table was full.
pub peek-record_failure :
    (b : CircuitBreaker) (port q now : ℕ)
    → peek (record_failure b port now).1 q ≡ (
        if (q == port) && not (port == 0)
        then elim (find_or_alloc port b.health).0 [ none ↦ none | some h ↦ some (failed h now) ]
        else peek b q)
unfolding peek record_failure
peek-record_failure b port q now = elim (Option-cases (find_or_alloc port b.health).0) [
  | inl e ↦ ground (arith, e, find_entry-find_or_alloc port q b.health)
  | inr (h, e) ↦ ground (
    arith,
    e,
    port-failed h now,
    port-find_or_alloc port b.health {h = h},
    find_entry-update port q b.health h (failed h now),
  )
]

-- `recordSuccess` clears the entry of its port and changes no other.
pub peek-record_success :
    (b : CircuitBreaker) (port q : ℕ)
    → peek (record_success b port) q ≡ (
        if (q == port) && not (port == 0)
        then elim (find_or_alloc port b.health).0 [ none ↦ none | some h ↦ some (fresh_entry port) ]
        else peek b q)
unfolding peek record_success
peek-record_success b port q = elim (Option-cases (find_or_alloc port b.health).0) [
  | inl e ↦ ground (arith, e, find_entry-find_or_alloc port q b.health)
  | inr (h, e) ↦ ground (
    arith,
    e,
    port-find_or_alloc port b.health {h = h},
    find_entry-update port q b.health h (record h { consecutive_fails = 0; backoff_until_ms = 0 }),
  )
]
