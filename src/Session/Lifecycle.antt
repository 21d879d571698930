-- ===== src/Session/Lifecycle.antt =====
-- The session itself (src/ssh_session.h, src/ssh_session.cpp): the handle of libssh2, the socket and the
-- listeners, and how they are given back. What libssh2 and lwIP do is a parameter; a listener is a
-- number. What is only logged is left out, clock reads for logs included.
use esp_reverse_tunneling_li.Prelude.{
  ℕ, zero, suc, ◌+◌, Bool, true, false, Option, none, some, List, [], ◌∷◌, leb, ◌==◌, if◌then◌else◌,
}
use esp_reverse_tunneling_li.Env.{Env}
use esp_reverse_tunneling_li.Config.{TunnelConfig}
use esp_reverse_tunneling_li.Session.Accept.{AcceptState, reset_accept_state}

-- `libssh2_session_free`: 0, LIBSSH2_ERROR_EAGAIN, another code.
pub data FreeResult : Type 0 where
  free_done free_again free_failed : FreeResult

-- `libssh2_keepalive_send`: 0, LIBSSH2_ERROR_EAGAIN, LIBSSH2_ERROR_SOCKET_SEND, another code.
pub data KeepaliveResult : Type 0 where
  kept_alive keep_again send_error keep_failed : KeepaliveResult

-- LIBSSH2_HOSTKEY_TYPE
pub data KeyType : Type 0 where
  rsa dss ecdsa_256 ecdsa_384 ecdsa_521 ed25519 other_key : KeyType

pub record SshApi (env : Env) : Type 0 where
  -- what `init` makes once: the mutex of the session, and `libssh2_init`
  pub library_init : env.World → Bool × env.World
  pub open_socket : env.World → Option ℕ × env.World
  -- `NetworkOptimizer::optimizeSSHSocket`, which sets socket options
  pub optimize_ssh_socket : ℕ → env.World → env.World
  -- `gethostbyname`: the address
  pub resolve : List ℕ → env.World → Option ℕ × env.World
  -- `connect`, whether it returned 0
  pub connect_socket : ℕ → ℕ → ℕ → env.World → Bool × env.World
  pub socket_error : ℕ → env.World → Option ℕ × env.World
  pub session_init : env.World → Option ℕ × env.World
  -- `libssh2_session_handshake`, whether it returned 0
  pub session_handshake : ℕ → ℕ → env.World → Bool × env.World
  pub session_set_nonblocking : ℕ → env.World → env.World
  pub session_disconnect : ℕ → env.World → env.World
  pub session_free : ℕ → env.World → FreeResult × env.World
  pub keepalive_config : ℕ → ℕ → env.World → env.World
  pub keepalive_send : ℕ → env.World → KeepaliveResult × env.World
  -- `libssh2_channel_forward_listen_ex`: the listener and the port that it is bound to
  pub forward_listen : ℕ → List ℕ → ℕ → ℕ → env.World → Option (ℕ × ℕ) × env.World
  pub forward_cancel : ℕ → env.World → env.World
  pub forward_accept : ℕ → env.World → Option ℕ × env.World
  pub last_errno : ℕ → env.World → ℕ
  -- `libssh2_session_hostkey`: the type, for a key that is not empty; and its SHA-256 hash
  pub hostkey : ℕ → env.World → Option KeyType
  pub hostkey_hash : ℕ → env.World → Option (List ℕ)
  -- whether the list of methods was had, and whether the authentication returned 0
  pub userauth_list : ℕ → List ℕ → env.World → Bool × env.World
  pub userauth_password : ℕ → List ℕ → List ℕ → env.World → Bool × env.World
  -- user, public key, private key, passphrase
  pub userauth_publickey :
      ℕ → List ℕ → Option (List ℕ) → List ℕ → Option (List ℕ) → env.World → Bool × env.World
  -- `vTaskDelay`
  pub delay : ℕ → env.World → env.World

pub record ListenerEntry : Type 0 where
  pub listener : Option ℕ
  pub mapping : TunnelConfig
  pub bound_port : ℕ

-- `bound_port` is none for -1.
pub record SshSession : Type 0 where
  pub session : Option ℕ
  pub socketfd : Option ℕ
  pub listeners : List ListenerEntry
  pub bound_port : Option ℕ
  pub keep_alive_failures : ℕ
  pub session_connected_ms : ℕ
  pub last_keepalive_ok_ms : ℕ
  pub last_keepalive_attempt_ms : ℕ
  pub last_channel_unknown_log_ms : ℕ
  pub channel_unknown_total : ℕ
  pub accept : AcceptState

-- How often a session that answered EAGAIN is freed again once its socket is closed.
abbrev pub free_retries : ℕ
free_retries = 8

module _ (env : Env) (ssh : SshApi env) where
  unfoldable pub is_connected : SshSession → Bool
  is_connected s = elim s.session [
    | none ↦ false
    | some h ↦ elim s.socketfd [ none ↦ false | some fd ↦ true ]
  ]

  -- `cancelListener`, on the pointer: without the lock, the listener is not cancelled.
  unfoldable pub cancel_listener : Option ℕ → env.World → env.World
  cancel_listener none w = w
  cancel_listener (some l) w =
      let (ok, w1) = env.lock 500 w in if ok then env.unlock (ssh.forward_cancel l w1) else w1

  unfoldable pub cancel_each : List ListenerEntry → env.World → env.World
  unfolding cancel_listener
  cancel_each [] w = w
  cancel_each (e ∷ es) w = cancel_each es (cancel_listener e.listener w)

  unfoldable pub cancel_all_listeners : SshSession → env.World → SshSession × env.World
  unfolding cancel_each
  cancel_all_listeners s w =
      (record s { listeners = []; bound_port = none }, cancel_each s.listeners w)

  -- `shutdown(fd, SHUT_RDWR); close(fd);`
  unfoldable pub drop_socket : Option ℕ → env.World → env.World
  drop_socket none w = w
  drop_socket (some fd) w = env.socket_close fd (env.socket_shutdown fd w)

  -- The loop that frees again, each time after a delay.
  unfoldable pub free_again_loop : ℕ → ℕ → FreeResult × env.World → FreeResult × env.World
  free_again_loop zero h r = r
  free_again_loop (suc left) h (free_again, w) =
      free_again_loop left h (ssh.session_free h (ssh.delay 1 w))
  free_again_loop (suc left) h (free_done, w) = (free_done, w)
  free_again_loop (suc left) h (free_failed, w) = (free_failed, w)

  -- From the first `libssh2_session_free` on: its last answer, and the socket that is still there.
  unfoldable pub after_free :
      ℕ → Option ℕ → FreeResult × env.World → FreeResult × Option ℕ × env.World
  unfolding free_again_loop drop_socket
  after_free h (some fd) (free_again, w) =
      let (r, w') = free_again_loop free_retries h (free_again, drop_socket (some fd) w) in
      (r, none, w')
  after_free h fd (r, w) = (r, fd, w)

  -- The handle stays unless the free was done.
  unfoldable pub handle_after : ℕ → FreeResult → Option ℕ
  handle_after h free_done = none
  handle_after h free_again = some h
  handle_after h free_failed = some h

  -- The part of `cleanupSession` on the handle.
  unfoldable pub free_handle : Option ℕ → Option ℕ → env.World → Option ℕ × Option ℕ × env.World
  unfolding after_free handle_after
  free_handle none fd w = (none, fd, w)
  free_handle (some h) fd w =
      let (locked, w1) = env.lock 2000 w in
      let w2 = ssh.session_disconnect h w1 in
      let (r, fd', w3) = after_free h fd (ssh.session_free h w2) in
      (handle_after h r, fd', if locked then env.unlock w3 else w3)

  unfoldable pub cleanup_session : SshSession → env.World → SshSession × env.World
  unfolding cancel_all_listeners free_handle drop_socket
  cleanup_session s w =
      let (s1, w1) = cancel_all_listeners s w in
      let (h, fd, w2) = free_handle s1.session s1.socketfd w1 in
      (
        record s1 {
          session = h;
          socketfd = none;
          keep_alive_failures = 0;
          session_connected_ms = 0;
          last_keepalive_ok_ms = 0;
          last_keepalive_attempt_ms = 0;
          last_channel_unknown_log_ms = 0;
          channel_unknown_total = 0;
          accept = reset_accept_state;
        },
        drop_socket fd w2,
      )

  unfoldable pub disconnect : SshSession → env.World → SshSession × env.World
  unfolding cleanup_session cancel_all_listeners
  disconnect s w = let (s1, w1) = cancel_all_listeners s w in cleanup_session s1 w1

  -- `checkConnection`
  unfoldable pub no_error : Option ℕ × env.World → Bool × env.World
  no_error (none, w) = (false, w)
  no_error (some error, w) = (error == 0, w)

  unfoldable pub check_connection : SshSession → env.World → Bool × env.World
  unfolding no_error
  check_connection s w = elim s.session [
    | none ↦ (false, w)
    | some h ↦ elim s.socketfd [ none ↦ (false, w) | some fd ↦ no_error (ssh.socket_error fd w) ]
  ]

  -- What `sendKeepalive` does with the answer, and the time that it noted before.
  unfoldable pub after_keepalive : SshSession → ℕ → KeepaliveResult → Bool × SshSession
  after_keepalive s now kept_alive =
      (true, record s { keep_alive_failures = 0; last_keepalive_ok_ms = now })
  after_keepalive s now keep_again = (true, s)
  after_keepalive s now keep_failed = (true, record s { keep_alive_failures = 0 })
  after_keepalive s now send_error =
      if leb 3 (s.keep_alive_failures + 1)
      then (false, record s { keep_alive_failures = 0 })
      else (true, record s { keep_alive_failures = s.keep_alive_failures + 1 })

  -- The pending error of the socket is read, and so cleared, when the answer is not 0.
  unfoldable pub probe : Option ℕ → KeepaliveResult → env.World → env.World
  probe fd kept_alive w = w
  probe none r w = w
  probe (some fd) r w = (ssh.socket_error fd w).1

  unfoldable pub keepalive_locked :
      SshSession → ℕ → ℕ → Bool × env.World → Bool × SshSession × env.World
  unfolding after_keepalive probe
  keepalive_locked s h now (false, w) = (true, s, w)
  keepalive_locked s h now (true, w) =
      let (r, w1) = ssh.keepalive_send h w in
      let (ok, s') = after_keepalive s now r in (ok, s', probe s.socketfd r (env.unlock w1))

  unfoldable pub send_keepalive : SshSession → env.World → Bool × SshSession × env.World
  unfolding keepalive_locked
  send_keepalive s w = elim s.session [
    | none ↦ (false, s, w)
    | some h ↦
        let (now, w1) = env.millis w in
        keepalive_locked (record s { last_keepalive_attempt_ms = now }) h now (env.lock 200 w1)
  ]

  unfoldable pub init : SshSession → env.World → Bool × SshSession × env.World
  init s w = let (ok, w1) = ssh.library_init w in (ok, s, w1)
