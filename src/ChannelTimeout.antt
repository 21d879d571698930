-- ===== src/ChannelTimeout.antt =====
-- channel_timeout::expired (src/channel_timeout.h), on 32-bit times.
mod Tests
use esp_reverse_tunneling_li.Prelude.{ℕ, ◌<◌, ◌≡◌, ◌≢◌, Bool, ◌&&◌, arith, ltb, word, add32, sub32}

unfoldable pub expired : ℕ → ℕ → ℕ → Bool
expired now last_activity timeout_ms =
    ltb 0 timeout_ms && ltb 0 last_activity && ltb timeout_ms (sub32 now last_activity)

-- For a channel that was active at a time other than 0, `elapsed` milliseconds later and across a wrap
-- of the clock, the timeout has expired exactly when it is set and shorter than that time.
pub expired_lem :
    (last elapsed timeout : ℕ)
    → last < word
    → elapsed < word
    → last ≢ 0
    → expired (add32 last elapsed) last timeout ≡ (ltb 0 timeout && ltb timeout elapsed)
unfolding expired
expired_lem last elapsed timeout h k z = ground arith
