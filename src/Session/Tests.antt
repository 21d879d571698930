-- ===== src/Session/Tests.antt =====
-- A history with two fatal errors behind an accept, and a third one.
use esp_reverse_tunneling_li.Prelude.{◌≡◌, List, [], ◌∷◌, leb}
use esp_reverse_tunneling_li.AcceptError.{Codes}
use esp_reverse_tunneling_li.Session.Accept.{
  Result, accepted, no_channel, after, has_fatal_accept_failure, fatal_run,
  has_fatal_accept_failure_lem,
}

abbrev codes : Codes
codes = record {
  eagain = 37;
  channel_unknown = 23;
  channel_closed = 26;
  socket_send = 7;
  socket_disconnect = 13;
}

abbrev history : List Result
history = no_channel 23 ∷ no_channel 26 ∷ no_channel 23 ∷ accepted ∷ []

has_fatal_accept_failure_lem_example :
    has_fatal_accept_failure codes (after codes history) ≡ leb 3 (fatal_run codes history)
has_fatal_accept_failure_lem_example = has_fatal_accept_failure_lem codes history
