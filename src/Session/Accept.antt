-- ===== src/Session/Accept.antt =====
-- The counter of fatal accept errors (src/ssh_session.cpp), which asks for a reconnection. Error codes are
-- numbers, as in AcceptError.
use esp_reverse_tunneling_li.Prelude.{
  ℕ, ◌+◌, ◌<◌, ◌≡◌, refl, inl, inr, Bool, true, false, List, [], ◌∷◌, arith, leb, if◌then◌else◌,
  Bool-cases,
}
use esp_reverse_tunneling_li.AcceptError.{
  Codes, is_fatal, should_reconnect_after_consecutive_errors,
}

pub record AcceptState : Type 0 where
  pub last_accept_error : ℕ
  pub consecutive_fatal_accept_errors : ℕ

abbrev pub reset_accept_state : AcceptState
reset_accept_state = record { last_accept_error = 0; consecutive_fatal_accept_errors = 0 }

unfoldable pub record_accept_success : AcceptState → AcceptState
record_accept_success s = record { last_accept_error = 0; consecutive_fatal_accept_errors = 0 }

unfoldable pub record_accept_no_channel : Codes → AcceptState → ℕ → AcceptState
record_accept_no_channel c s err =
    if is_fatal err c
    then record {
      last_accept_error = err;
      consecutive_fatal_accept_errors = s.consecutive_fatal_accept_errors + 1;
    }
    else record { last_accept_error = err; consecutive_fatal_accept_errors = 0 }

unfoldable pub has_fatal_accept_failure : Codes → AcceptState → Bool
has_fatal_accept_failure c s =
    should_reconnect_after_consecutive_errors s.consecutive_fatal_accept_errors s.last_accept_error
      c

-- The results of the accepts, the newest first.
pub data Result : Type 0 where
  accepted : Result
  no_channel : ℕ → Result

unfoldable pub after : Codes → List Result → AcceptState
unfolding record_accept_success record_accept_no_channel
after c [] = reset_accept_state
after c (accepted ∷ rs) = record_accept_success (after c rs)
after c (no_channel err ∷ rs) = record_accept_no_channel c (after c rs) err

abbrev pub is_fatal_result : Codes → Result → Bool
is_fatal_result c accepted = false
is_fatal_result c (no_channel err) = is_fatal err c

-- How many of the newest results are fatal without a break.
abbrev pub fatal_run : Codes → List Result → ℕ
fatal_run c [] = 0
fatal_run c (r ∷ rs) = if is_fatal_result c r then 1 + fatal_run c rs else 0

count_lem :
    (c : Codes) (rs : List Result) → (after c rs).consecutive_fatal_accept_errors ≡ fatal_run c rs
unfolding after
count_lem c [] = refl
count_lem c (accepted ∷ rs) = refl
count_lem c (no_channel err ∷ rs) = ground (arith, count_lem c rs)

last_fatal :
    (c : Codes) (rs : List Result)
    → 0 < fatal_run c rs
    → is_fatal (after c rs).last_accept_error c ≡ true
unfolding after
last_fatal c [] h = absurd (omega arith)
last_fatal c (accepted ∷ rs) h = absurd (omega arith)
last_fatal c (no_channel err ∷ rs) h = ground (arith, h)

-- After any history of accepts since a reset, a reconnection is asked for exactly when the three newest
-- results at least are all fatal errors.
pub has_fatal_accept_failure_lem :
    (c : Codes) (rs : List Result)
    → has_fatal_accept_failure c (after c rs) ≡ leb 3 (fatal_run c rs)
unfolding has_fatal_accept_failure should_reconnect_after_consecutive_errors
has_fatal_accept_failure_lem c rs = elim (Bool-cases (leb 3 (fatal_run c rs))) [
  | inl t ↦ rw (count_lem c rs, t, last_fatal c rs (ground (arith, t))) refl
  | inr t ↦ rw (count_lem c rs, t) refl
]
