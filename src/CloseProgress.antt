-- ===== src/CloseProgress.antt =====
-- channel_close_progress (src/channel_close_progress.h): which of libssh2's two close calls are done.
-- A result code is a number, compared with the code for "try again".
use esp_reverse_tunneling_li.Prelude.{Bool, true, false, ◌&&◌, if◌then◌else◌}

pub record Progress : Type 0 where
  pub close_complete : Bool
  pub free_complete : Bool

abbrev pub not_started : Progress
not_started = record { close_complete = false; free_complete = false }

unfoldable pub record_close_result : Progress → Bool → Bool × Progress
record_close_result p is_eagain =
    if is_eagain then (false, p) else (true, record p { close_complete = true })

unfoldable pub ready_for_free : Progress → Bool
ready_for_free p = p.close_complete

unfoldable pub record_free_result : Progress → Bool → Bool × Progress
record_free_result p is_eagain =
    if is_eagain then (false, p) else (true, record p { free_complete = true })

unfoldable pub ready_for_finalize : Progress → Bool
ready_for_finalize p = p.close_complete && p.free_complete
