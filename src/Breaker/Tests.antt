-- ===== src/Breaker/Tests.antt =====
-- The breaker's theorems at a table with one mapping that has failed twice.
use esp_reverse_tunneling_li.Prelude.{
  ◌*◌, ◌≤◌, min, ◌≡◌, refl, true, not, ◌&&◌, none, some, ◌∷◌, arith, leb, ◌==◌, if◌then◌else◌,
  replicate, add32,
}
use esp_reverse_tunneling_li.Breaker.{
  MappingHealth, CircuitBreaker, unused, delay_ms, record_failure, record_success, is_backed_off,
  peek, find_entry, find_or_alloc, store, failed,
}
use esp_reverse_tunneling_li.Breaker.Table.{peek-record_failure}
use esp_reverse_tunneling_li.Breaker.Backoff.{delay_lem, is_backed_off-record_failure}
use esp_reverse_tunneling_li.Breaker.Trips.{
  fails_of, record_failure_trips, IsValid, breaker-IsValid,
}

abbrev twice : MappingHealth
twice = record { remote_bind_port = 8080; consecutive_fails = 2; backoff_until_ms = 0 }

abbrev thrice : MappingHealth
thrice = record { remote_bind_port = 8080; consecutive_fails = 3; backoff_until_ms = 1500 }

abbrev table : CircuitBreaker
table = record { health = twice ∷ replicate 7 unused; total_trips = 0 }

table-IsValid : IsValid table
table-IsValid = omega arith

third : peek (record_failure table 8080 500).1 8080 ≡ some thrice
unfolding peek record_failure find_entry find_or_alloc store
third = refl

is_backed_off-record_failure_example :
    is_backed_off (record_failure table 8080 500).1 8080 1100 ≡ true
unfolding delay_ms
is_backed_off-record_failure_example =
    is_backed_off-record_failure table 8080 500 600 thrice (omega arith) (omega arith) (omega arith)
      third (omega arith) (omega arith)

delay_lem_example :
    (delay_ms 3 ≡ 1000)
    × (delay_ms 6 ≡ min (2 * delay_ms 5) 60000)
    × (1000 ≤ delay_ms 5)
    × (delay_ms 5 ≤ 60000)
delay_lem_example = delay_lem 5 (omega arith)

record_failure_trips_example :
    let (trip, b') = record_failure table 8080 500 in
    (trip ≡ (leb 2 (fails_of (peek table 8080)) && not (is_backed_off table 8080 500)))
    × (b'.total_trips ≡ (if trip then add32 table.total_trips 1 else table.total_trips))
record_failure_trips_example = record_failure_trips table 8080 500

breaker-IsValid_example :
    IsValid (record_failure table 8080 500).1 × IsValid (record_success table 8080)
breaker-IsValid_example = breaker-IsValid table 8080 500 table-IsValid

peek-record_failure_example : peek (record_failure table 22 500).1 8080 ≡ (
    if (8080 == 22) && not (22 == 0)
    then elim (find_or_alloc 22 table.health).0 [ none ↦ none | some h ↦ some (failed h 500) ]
    else peek table 8080)
peek-record_failure_example = peek-record_failure table 22 8080 500
