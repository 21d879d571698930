-- ===== src/Tunnel/Backoff.antt =====
-- The delay before a reconnection (`handleReconnection`, src/ssh_tunnel.cpp).
use native.Mathlib.Numerals.{unary_clauses}
use esp_reverse_tunneling_li.Prelude.{
  ℕ, zero, suc, ◌*◌, ◌^◌, ◌≤◌, ◌<◌, min, ◌≡◌, ap, ◌∙◌, inl, inr, arith, ltb, ltb→lt, Bool-cases,
  word, mul32,
}
use esp_reverse_tunneling_li.Tunnel.Teardown.{doubled, reconnect_delay, reconnect_cap_ms}

double_power : (base n : ℕ) → (base * 2) * 2 ^ n ≡ base * 2 ^ (suc n)
double_power base n = simp unary_clauses (omega arith)

-- Past the cap the doubling stops, and the product is past it too.
at_least : (base n : ℕ) → base ≤ base * 2 ^ n
at_least base zero = omega arith
at_least base (suc n) = omega (arith, at_least base n, double_power base n)

doubled_lem :
    (n base : ℕ)
    → base < word
    → min (doubled n base) reconnect_cap_ms ≡ min (base * 2 ^ n) reconnect_cap_ms
unfolding doubled
doubled_lem zero base h = omega arith
doubled_lem (suc n) base h = elim (Bool-cases (ltb base reconnect_cap_ms)) [
  | inl b ↦
      let small : base < reconnect_cap_ms = ltb→lt _ _ b in
      let product : mul32 base 2 ≡ base * 2 = omega arith in
      rw (b, product)
        (doubled_lem n (base * 2) (omega (arith, small))
          ∙ ap (λ k. min k reconnect_cap_ms) (double_power base n))
  | inr b ↦
      let big : reconnect_cap_ms ≤ base = ground (arith, b) in
      rw b (omega (arith, big, at_least base (suc n)))
]

-- The delay is the base delay doubled once for each attempt made, but at most 60000 ms; the doubling on
-- 32 bits never wraps, whatever the base delay and the count.
pub reconnect_delay_lem :
    (base attempts : ℕ)
    → base < word
    → reconnect_delay base attempts ≡ min (base * 2 ^ attempts) 60000
unfolding reconnect_delay
reconnect_delay_lem base attempts h = doubled_lem attempts base h
