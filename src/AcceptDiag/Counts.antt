-- ===== src/AcceptDiag/Counts.antt =====
-- What the counters of the tracker count.
use esp_reverse_tunneling_li.Prelude.{
  ℕ, ◌+◌, ◌%◌, ◌≡◌, Bool, true, false, not, ◌&&◌, List, [], ◌∷◌, arith, ◌==◌, if◌then◌else◌, word,
}
use esp_reverse_tunneling_li.AcceptDiag.{
  Tracker, reset, record_poll, record_no_channel, record_lock_unavailable, mark_idle_summary,
  snapshot, record_accept,
}

-- A call of the tracker, with the time, or the error and whether it is "try again".
pub data Event : Type 0 where
  poll lock_miss summary accept : ℕ → Event
  no_channel : ℕ → Bool → Event

-- The tracker after a history of calls, the newest first.
unfoldable pub after : List Event → Tracker
after [] = reset
after (poll now ∷ es) = record_poll (after es) now
after (lock_miss now ∷ es) = record_lock_unavailable (after es) now
after (summary now ∷ es) = mark_idle_summary (after es) now
after (accept now ∷ es) = (record_accept (after es) now).1
after (no_channel err is_eagain ∷ es) = record_no_channel (after es) err is_eagain

abbrev pub is_accept : Event → Bool
is_accept (accept now) = true
is_accept _ = false

abbrev pub is_poll : Event → Bool
is_poll (poll now) = true
is_poll _ = false

abbrev pub is_lock_miss : Event → Bool
is_lock_miss (lock_miss now) = true
is_lock_miss _ = false

abbrev pub is_eagain : Event → Bool
is_eagain (no_channel err again) = again
is_eagain _ = false

abbrev pub is_error : Event → Bool
is_error (no_channel err again) = not again && not (err == 0)
is_error _ = false

-- How many calls of a kind there are in a history, and how many since its last accept.
abbrev pub count : (Event → Bool) → List Event → ℕ
count kind [] = 0
count kind (e ∷ es) = (if kind e then 1 else 0) + count kind es

abbrev pub since_accept : List Event → List Event
since_accept [] = []
since_accept (e ∷ es) = if is_accept e then [] else e ∷ since_accept es

-- After any history since a reset, each counter of a snapshot is the number of calls of its kind since the
-- last accept, or in all, as a 32-bit word.
pub snapshot_counts :
    (es : List Event) (now : ℕ)
    → let s = snapshot (after es) now in
      (s.polls_since_accept ≡ count is_poll (since_accept es) % word)
      × (s.eagain_since_accept ≡ count is_eagain (since_accept es) % word)
      × (s.errors_since_accept ≡ count is_error (since_accept es) % word)
      × (s.lock_misses_since_accept ≡ count is_lock_miss (since_accept es) % word)
      × (s.total_polls ≡ count is_poll es % word)
      × (s.total_accepts ≡ count is_accept es % word)
unfolding snapshot after record_poll record_no_channel record_lock_unavailable mark_idle_summary
    record_accept
snapshot_counts [] now = omega arith
snapshot_counts (poll t ∷ es) now = omega (arith, snapshot_counts es now)
snapshot_counts (lock_miss t ∷ es) now = omega (arith, snapshot_counts es now)
snapshot_counts (summary t ∷ es) now = omega (arith, snapshot_counts es now)
snapshot_counts (accept t ∷ es) now = omega (arith, snapshot_counts es now)
snapshot_counts (no_channel err again ∷ es) now = ground (arith, snapshot_counts es now)
