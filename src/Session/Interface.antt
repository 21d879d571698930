-- ===== src/Session/Interface.antt =====
-- The session as the tunnel uses it.
use esp_reverse_tunneling_li.Env.{Env}
use esp_reverse_tunneling_li.AcceptError.{Codes}
use esp_reverse_tunneling_li.TunnelApi.{SessionApi}
use esp_reverse_tunneling_li.Session.Accept.{has_fatal_accept_failure}
use esp_reverse_tunneling_li.Session.Lifecycle.{
  SshApi, SshSession, init, disconnect, is_connected, check_connection, send_keepalive,
}
use esp_reverse_tunneling_li.Session.Polling.{accept_channel}
use esp_reverse_tunneling_li.Session.Connect.{connect}

abbrev pub ssh_session : (env : Env) (ssh : SshApi env) → Codes → SessionApi env
ssh_session env ssh codes = record {
  Session = SshSession;
  init = init env ssh;
  connect = connect env ssh;
  disconnect = disconnect env ssh;
  is_connected = is_connected env ssh;
  check_connection = check_connection env ssh;
  send_keepalive = send_keepalive env ssh;
  accept_channel = accept_channel env ssh codes;
  has_fatal_accept_failure = λ s. has_fatal_accept_failure codes s.accept;
}
