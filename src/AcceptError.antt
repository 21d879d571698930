-- ===== src/AcceptError.antt =====
-- forward_accept_error (src/forward_accept_error.h). libssh2's error codes are parameters, and all
-- codes are numbers that are only compared; 0 is the code for no error.
use esp_reverse_tunneling_li.Prelude.{ℕ, Bool, false, ◌&&◌, ◌||◌, leb, ◌==◌, if◌then◌else◌}

pub record Codes : Type 0 where
  pub eagain : ℕ
  pub channel_unknown : ℕ
  pub channel_closed : ℕ
  pub socket_send : ℕ
  pub socket_disconnect : ℕ

unfoldable pub is_benign_no_channel : ℕ → ℕ → Bool
is_benign_no_channel err eagain_code = err == 0 || err == eagain_code

unfoldable pub is_fatal : ℕ → Codes → Bool
unfolding is_benign_no_channel
is_fatal err c =
    if is_benign_no_channel err c.eagain
    then false
    else err == c.channel_unknown
      || err == c.channel_closed
      || err == c.socket_send
      || err == c.socket_disconnect

unfoldable pub should_reconnect_after_consecutive_errors : ℕ → ℕ → Codes → Bool
unfolding is_fatal
should_reconnect_after_consecutive_errors consecutive err c = leb 3 consecutive && is_fatal err c
