-- ===== src/Breaker.antt =====
-- CircuitBreaker (src/circuit_breaker.h): consecutive connect failures for each mapping, and the
-- back-off that they bring. A port is only compared, so a number stands for the `int`; times are
-- 32-bit `millis()` values.
pub mod Table
pub mod Backoff
pub mod Trips
mod Tests
use esp_reverse_tunneling_li.Prelude.{
  ℕ, zero, suc, ◌+◌, ◌-◌, min, Bool, false, not, ◌&&◌, Option, none, some, List, [], ◌∷◌, ltb, leb,
  ◌==◌, if◌then◌else◌, replicate, add32, sub32, mul32, is_negative,
}

abbrev pub max_mapping_health : ℕ
max_mapping_health = 8

abbrev pub fail_threshold : ℕ
fail_threshold = 3

abbrev pub backoff_base_ms : ℕ
backoff_base_ms = 1000

abbrev pub backoff_cap_ms : ℕ
backoff_cap_ms = 60000

-- Port 0 marks an unused entry.
pub record MappingHealth : Type 0 where
  pub remote_bind_port : ℕ
  pub consecutive_fails : ℕ
  pub backoff_until_ms : ℕ

pub record CircuitBreaker : Type 0 where
  pub health : List MappingHealth
  pub total_trips : ℕ

abbrev pub unused : MappingHealth
unused = record { remote_bind_port = 0; consecutive_fails = 0; backoff_until_ms = 0 }

abbrev pub initial : CircuitBreaker
initial = record { health = replicate max_mapping_health unused; total_trips = 0 }

-- The first loop of `findOrAlloc`, and the loop of `find`: the first entry with the port.
unfoldable pub find_entry : ℕ → List MappingHealth → Option MappingHealth
find_entry port [] = none
find_entry port (h ∷ hs) = if h.remote_bind_port == port then some h else find_entry port hs

unfoldable pub find : CircuitBreaker → ℕ → Option MappingHealth
find b port = if port == 0 then none else find_entry port b.health

unfoldable pub peek : CircuitBreaker → ℕ → Option MappingHealth
unfolding find
peek b port = find b port

abbrev pub fresh_entry : ℕ → MappingHealth
fresh_entry port = record { remote_bind_port = port; consecutive_fails = 0; backoff_until_ms = 0 }

-- The second loop: the first unused entry is taken for the port.
claim_entry : ℕ → List MappingHealth → List MappingHealth
claim_entry port [] = []
claim_entry port (h ∷ hs) =
    if h.remote_bind_port == 0 then fresh_entry port ∷ hs else h ∷ claim_entry port hs

-- The table with an entry for the port, if one was there or free; and that entry.
unfoldable pub find_or_alloc : ℕ → List MappingHealth → Option MappingHealth × List MappingHealth
unfolding claim_entry
find_or_alloc port hs = elim (find_entry port hs) [
  | some h ↦ (some h, hs)
  | none ↦ elim (find_entry 0 hs) [
    | none ↦ (none, hs)
    | some free ↦ (some (fresh_entry port), claim_entry port hs)
  ]
]

-- The write through the pointer that `findOrAlloc` returned: to the first entry with the port.
unfoldable pub store : MappingHealth → List MappingHealth → List MappingHealth
store g [] = []
store g (h ∷ hs) = if h.remote_bind_port == g.remote_bind_port then g ∷ hs else h ∷ store g hs

-- `(long)(now - until) < 0`, with 0 for "never".
unfoldable pub is_open : ℕ → ℕ → Bool
is_open until now = not (until == 0) && is_negative (sub32 now until)

unfoldable pub is_backed_off : CircuitBreaker → ℕ → ℕ → Bool
unfolding is_open find
is_backed_off b port now = elim (find b port) [
  | none ↦ false
  | some h ↦ is_open h.backoff_until_ms now
]

-- `x << k` on `unsigned long`
shift_left : ℕ → ℕ → ℕ
shift_left x zero = x
shift_left x (suc k) = mul32 (shift_left x k) 2

unfoldable pub delay_ms : ℕ → ℕ
unfolding shift_left
delay_ms fails = min (shift_left backoff_base_ms (min (fails - fail_threshold) 16)) backoff_cap_ms

-- The entry after one more failure.
unfoldable pub failed : MappingHealth → ℕ → MappingHealth
unfolding delay_ms
failed h now =
    let fails =
      if ltb h.consecutive_fails 100 then h.consecutive_fails + 1 else h.consecutive_fails in
    if leb fail_threshold fails
    then record h { consecutive_fails = fails; backoff_until_ms = add32 now (delay_ms fails) }
    else record h { consecutive_fails = fails }

-- The new state, and whether this call engaged the back-off.
unfoldable pub record_failure : CircuitBreaker → ℕ → ℕ → Bool × CircuitBreaker
unfolding failed is_open
record_failure b port now =
    if port == 0
    then (false, b)
    else let (entry, table) = find_or_alloc port b.health in
      elim entry [
        | none ↦ (false, record b { health = table })
        | some h ↦
            let trips =
              leb fail_threshold (failed h now).consecutive_fails
              && not (is_open h.backoff_until_ms now) in
            (
              trips,
              record {
                health = store (failed h now) table;
                total_trips = if trips then add32 b.total_trips 1 else b.total_trips;
              },
            )
      ]

unfoldable pub record_success : CircuitBreaker → ℕ → CircuitBreaker
record_success b port =
    if port == 0
    then b
    else let (entry, table) = find_or_alloc port b.health in
      elim entry [
        | none ↦ record b { health = table }
        | some h ↦ record b {
          health = store (record h { consecutive_fails = 0; backoff_until_ms = 0 }) table;
        }
      ]
