-- ===== src/AcceptDiag.antt =====
-- forward_accept_diag::Tracker (src/forward_accept_diag.h): counters of the polls for forwarded channels,
-- all of 32 bits.
pub mod Counts
mod Tests
use esp_reverse_tunneling_li.Prelude.{
  ℕ, Bool, false, not, ◌&&◌, leb, ◌==◌, if◌then◌else◌, add32, sub32,
}

pub record Snapshot : Type 0 where
  pub polls_since_accept : ℕ
  pub eagain_since_accept : ℕ
  pub errors_since_accept : ℕ
  pub lock_misses_since_accept : ℕ
  pub total_polls : ℕ
  pub total_accepts : ℕ
  pub idle_ms : ℕ
  pub last_err : ℕ

pub record Tracker : Type 0 where
  pub total_polls : ℕ
  pub total_accepts : ℕ
  pub polls_since_accept : ℕ
  pub eagain_since_accept : ℕ
  pub errors_since_accept : ℕ
  pub lock_misses_since_accept : ℕ
  pub idle_start_ms : ℕ
  pub last_summary_ms : ℕ
  pub last_err : ℕ

abbrev pub reset : Tracker
reset = record {
  total_polls = 0;
  total_accepts = 0;
  polls_since_accept = 0;
  eagain_since_accept = 0;
  errors_since_accept = 0;
  lock_misses_since_accept = 0;
  idle_start_ms = 0;
  last_summary_ms = 0;
  last_err = 0;
}

abbrev pub idle_start : Tracker → ℕ → ℕ
idle_start t now = if t.idle_start_ms == 0 then now else t.idle_start_ms

unfoldable pub record_poll : Tracker → ℕ → Tracker
record_poll t now = record t {
  idle_start_ms = idle_start t now;
  total_polls = add32 t.total_polls 1;
  polls_since_accept = add32 t.polls_since_accept 1;
}

unfoldable pub record_no_channel : Tracker → ℕ → Bool → Tracker
record_no_channel t err is_eagain = record t {
  last_err = err;
  eagain_since_accept = if is_eagain then add32 t.eagain_since_accept 1 else t.eagain_since_accept;
  errors_since_accept =
      if not is_eagain && not (err == 0)
      then add32 t.errors_since_accept 1
      else t.errors_since_accept;
}

unfoldable pub record_lock_unavailable : Tracker → ℕ → Tracker
record_lock_unavailable t now = record t {
  idle_start_ms = idle_start t now;
  lock_misses_since_accept = add32 t.lock_misses_since_accept 1;
}

unfoldable pub idle_summary_due : Tracker → ℕ → ℕ → Bool
idle_summary_due t now interval_ms =
    let last = if t.last_summary_ms == 0 then t.idle_start_ms else t.last_summary_ms in
    if (t.polls_since_accept == 0) && (t.lock_misses_since_accept == 0)
    then false
    else not (last == 0) && leb interval_ms (sub32 now last)

unfoldable pub mark_idle_summary : Tracker → ℕ → Tracker
mark_idle_summary t now = record t { last_summary_ms = now }

unfoldable pub snapshot : Tracker → ℕ → Snapshot
snapshot t now = record {
  polls_since_accept = t.polls_since_accept;
  eagain_since_accept = t.eagain_since_accept;
  errors_since_accept = t.errors_since_accept;
  lock_misses_since_accept = t.lock_misses_since_accept;
  total_polls = t.total_polls;
  total_accepts = t.total_accepts;
  idle_ms = if t.idle_start_ms == 0 then 0 else sub32 now t.idle_start_ms;
  last_err = t.last_err;
}

unfoldable pub record_accept : Tracker → ℕ → Snapshot × Tracker
unfolding snapshot
record_accept t now = (
  record (snapshot t now) { total_accepts = add32 t.total_accepts 1 },
  record reset { total_polls = t.total_polls; total_accepts = add32 t.total_accepts 1 },
)
