-- ===== src/Session/Cleanup.antt =====
-- What `cleanupSession` leaves (src/ssh_session.cpp), and the count of failed keep-alives.
use esp_reverse_tunneling_li.Prelude.{
  ℕ, zero, suc, ◌+◌, ◌<◌, ◌≡◌, refl, ◌↔◌, ◌⊎◌, inl, inr, Bool, true, false, Option, none, some,
  List, [], ◌∷◌, append-nil, arith, leb, if◌then◌else◌, Bool-cases,
}
use esp_reverse_tunneling_li.Env.{Env}
use esp_reverse_tunneling_li.Ledger.{Deed, closed, Ledger, Does, Does-trans, Does-nothing}
use esp_reverse_tunneling_li.Session.Accept.{reset_accept_state}
use esp_reverse_tunneling_li.Session.Lifecycle.{
  FreeResult, free_done, free_again, free_failed, kept_alive, keep_again, send_error, keep_failed,
  KeepaliveResult, SshApi, ListenerEntry, SshSession, free_retries, cancel_listener, cancel_each,
  cancel_all_listeners, drop_socket, free_again_loop, after_free, handle_after, free_handle,
  cleanup_session, after_keepalive, keepalive_locked, send_keepalive,
}

-- None of these calls closes a socket of the program.
pub record SshLaws (env : Env) (ssh : SshApi env) (led : Ledger env) : Type 0 where
  pub shutdown_does : (fd : ℕ) (w : env.World) → Does env led.count w [] (env.socket_shutdown fd w)
  pub disconnect_does :
      (h : ℕ) (w : env.World) → Does env led.count w [] (ssh.session_disconnect h w)
  pub free_does : (h : ℕ) (w : env.World) → Does env led.count w [] (ssh.session_free h w).1
  pub cancel_does : (l : ℕ) (w : env.World) → Does env led.count w [] (ssh.forward_cancel l w)
  pub delay_does : (ms : ℕ) (w : env.World) → Does env led.count w [] (ssh.delay ms w)

-- The close of a socket, if there is one.
abbrev pub closes : Option ℕ → List Deed
closes none = []
closes (some fd) = closed fd ∷ []

module _ (env : Env) (ssh : SshApi env) (led : Ledger env) (laws : SshLaws env ssh led) where
  cancel_listener-Does :
      (l : Option ℕ) (w : env.World) → Does env led.count w [] (cancel_listener env ssh l w)
  unfolding cancel_listener
  cancel_listener-Does none w = Does-nothing env led.count w
  cancel_listener-Does (some l) w =
      let (ok, w1) = env.lock 500 w in
      elim (Bool-cases ok) [
        | inl b ↦ rw b (
            Does-trans env led.count (led.lock_does 500 w) (
              Does-trans env led.count (laws.cancel_does l w1)
                (led.unlock_does (ssh.forward_cancel l w1))))
        | inr b ↦ rw b (led.lock_does 500 w)
      ]

  cancel_each-Does :
      (es : List ListenerEntry) (w : env.World) → Does env led.count w [] (cancel_each env ssh es w)
  unfolding cancel_each
  cancel_each-Does [] w = Does-nothing env led.count w
  cancel_each-Does (e ∷ es) w =
      Does-trans env led.count (cancel_listener-Does e.listener w)
        (cancel_each-Does es (cancel_listener env ssh e.listener w))

  drop_socket-Does :
      (fd : Option ℕ) (w : env.World) → Does env led.count w (closes fd) (drop_socket env ssh fd w)
  unfolding drop_socket
  drop_socket-Does none w = Does-nothing env led.count w
  drop_socket-Does (some fd) w =
      Does-trans env led.count (laws.shutdown_does fd w)
        (led.socket_close_does fd (env.socket_shutdown fd w))

  free_again_loop-Does :
      (left h : ℕ) (r : FreeResult × env.World)
      → Does env led.count r.1 [] (free_again_loop env ssh left h r).1
  unfolding free_again_loop
  free_again_loop-Does zero h r = Does-nothing env led.count r.1
  free_again_loop-Does (suc left) h (free_again, w) =
      Does-trans env led.count (laws.delay_does 1 w) (
        Does-trans env led.count (laws.free_does h (ssh.delay 1 w))
          (free_again_loop-Does left h (ssh.session_free h (ssh.delay 1 w))))
  free_again_loop-Does (suc left) h (free_done, w) = Does-nothing env led.count w
  free_again_loop-Does (suc left) h (free_failed, w) = Does-nothing env led.count w

  -- What is left of a socket, and that what was done to it is no more than its close.
  data Left (w : env.World) (fd : Option ℕ) : Option ℕ × env.World → Type 0 where
    still : {w' : env.World} → Does env led.count w [] w' → Left w fd (fd, w')
    closed_early : {w' : env.World} → Does env led.count w (closes fd) w' → Left w fd (none, w')

  after_free_lem :
      (h : ℕ) (fd : Option ℕ) (r : FreeResult × env.World)
      → let (r', fd', w') = after_free env ssh h fd r in Left r.1 fd (fd', w')
  unfolding after_free
  after_free_lem h (some fd) (free_again, w) =
      let w1 = drop_socket env ssh (some fd) w in
      let a : Does env led.count w (closed fd ∷ []) w1 = drop_socket-Does (some fd) w in
      let b = free_again_loop-Does free_retries h (free_again, w1) in
      closed_early (Does-trans env led.count a b)
  after_free_lem h none (free_again, w) = still (Does-nothing env led.count w)
  after_free_lem h none (free_done, w) = still (Does-nothing env led.count w)
  after_free_lem h none (free_failed, w) = still (Does-nothing env led.count w)
  after_free_lem h (some fd) (free_done, w) = still (Does-nothing env led.count w)
  after_free_lem h (some fd) (free_failed, w) = still (Does-nothing env led.count w)

  before :
      {w w' : env.World} {fd : Option ℕ} {r : Option ℕ × env.World}
      → Does env led.count w [] w'
      → Left w' fd r
      → Left w fd r
  before a (still b) = still (Does-trans env led.count a b)
  before a (closed_early b) = closed_early (Does-trans env led.count a b)

  behind :
      {w w' w'' : env.World} {fd fd' : Option ℕ}
      → Left w fd (fd', w')
      → Does env led.count w' [] w''
      → Left w fd (fd', w'')
  behind (still a) b = still (Does-trans env led.count a b)
  behind {fd} (closed_early a) b =
      closed_early (rw (append-nil (closes fd)) at (Does-trans env led.count a b))

  unlock_if :
      (locked : Bool) (w : env.World) → Does env led.count w [] (if locked then env.unlock w else w)
  unlock_if true w = led.unlock_does w
  unlock_if false w = Does-nothing env led.count w

  handle_after_lem :
      (h : ℕ) (r : FreeResult)
      → (handle_after env ssh h r ≡ none) ⊎ (handle_after env ssh h r ≡ some h)
  unfolding handle_after
  handle_after_lem h free_done = inl refl
  handle_after_lem h free_again = inr refl
  handle_after_lem h free_failed = inr refl

  free_handle_lem :
      (h fd : Option ℕ) (w : env.World)
      → let (h', fd', w') = free_handle env ssh h fd w in
        ((h' ≡ none) ⊎ (h' ≡ h)) × Left w fd (fd', w')
  unfolding free_handle
  free_handle_lem none fd w = (inl refl, still (Does-nothing env led.count w))
  free_handle_lem (some h) fd w =
      let (locked, w1) = env.lock 2000 w in
      let w2 = ssh.session_disconnect h w1 in
      let freeing = ssh.session_free h w2 in
      let (r, fd', w3) = after_free env ssh h fd freeing in
      (
        handle_after_lem h r,
        before (led.lock_does 2000 w) (
            before (laws.disconnect_does h w1) (
              before (laws.free_does h w2)
                (behind (after_free_lem h fd freeing) (unlock_if locked w3)))),
      )

  closed_once :
      {w w' : env.World} {fd fd' : Option ℕ}
      → Left w fd (fd', w')
      → Does env led.count w (closes fd) (drop_socket env ssh fd' w')
  closed_once {w} {w'} {fd} (still a) = Does-trans env led.count a (drop_socket-Does fd w')
  closed_once {w} {w'} {fd} (closed_early a) =
      rw (append-nil (closes fd)) at (Does-trans env led.count a (drop_socket-Does none w'))

  -- `cleanupSession`, whatever libssh2 and the lock do, closes the socket of the session exactly once and
  -- no other, on the path where libssh2 asks to be called again as on the others. It leaves no socket, no
  -- listener, no bound port, no failed keep-alive, no unknown channel and no error of an accept counted,
  -- and no time noted; the handle of libssh2 goes, or stays as it was.
  pub cleanup_session_lem :
      (s : SshSession) (w : env.World)
      → let (s', w') = cleanup_session env ssh s w in
        Does env led.count w (closes s.socketfd) w'
        × (s'.socketfd ≡ none)
        × (s'.listeners ≡ [])
        × (s'.bound_port ≡ none)
        × (s'.keep_alive_failures ≡ 0)
        × (s'.channel_unknown_total ≡ 0)
        × (s'.session_connected_ms ≡ 0)
        × (s'.last_keepalive_ok_ms ≡ 0)
        × (s'.last_keepalive_attempt_ms ≡ 0)
        × (s'.last_channel_unknown_log_ms ≡ 0)
        × (s'.accept ≡ reset_accept_state)
        × ((s'.session ≡ none) ⊎ (s'.session ≡ s.session))
  unfolding cleanup_session cancel_all_listeners
  cleanup_session_lem s w =
      let w1 = cancel_each env ssh s.listeners w in
      let (e, l) = free_handle_lem s.session s.socketfd w1 in
      (
        Does-trans env led.count (cancel_each-Does s.listeners w) (closed_once l),
        refl,
        refl,
        refl,
        refl,
        refl,
        refl,
        refl,
        refl,
        refl,
        refl,
        e,
      )

module _ (env : Env) (ssh : SshApi env) where
  -- Whether the answer of `libssh2_keepalive_send` changes the count of failures, and to what.
  after_keepalive_bound :
      (s : SshSession) (now : ℕ) (r : KeepaliveResult)
      → s.keep_alive_failures < 3
      → let (ok, s') = after_keepalive env ssh s now r in
        (s'.keep_alive_failures < 3)
        × ((ok ≡ false) ↔ ((r ≡ send_error) × (s.keep_alive_failures ≡ 2)))
  unfolding after_keepalive
  after_keepalive_bound s now kept_alive h = (omega arith, (λ e. cc, λ (e, f). cc))
  after_keepalive_bound s now keep_again h = (h, (λ e. cc, λ (e, f). cc))
  after_keepalive_bound s now keep_failed h = (omega arith, (λ e. cc, λ (e, f). cc))
  after_keepalive_bound s now send_error h = elim (Bool-cases (leb 3 (s.keep_alive_failures + 1))) [
    | inl b ↦ simp b (omega arith, (λ e. (refl, ground (arith, b, h)), λ (e, f). refl))
    | inr b ↦ simp b (ground (arith, b, h), (λ e. cc, λ (e, f). absurd (ground (arith, b, f))))
  ]

  keepalive_locked_lem :
      (s : SshSession) (h now : ℕ) (r : Bool × env.World)
      → s.keep_alive_failures < 3
      → let (ok, s', w') = keepalive_locked env ssh s h now r in
        (s'.keep_alive_failures < 3)
        × ((ok ≡ false) ↔ (
            (r.0 ≡ true)
            × ((ssh.keepalive_send h r.1).0 ≡ send_error)
            × (s.keep_alive_failures ≡ 2)))
  unfolding keepalive_locked
  keepalive_locked_lem s h now (false, w) b = (b, (λ e. cc, λ (e, f, g). cc))
  keepalive_locked_lem s h now (true, w) b =
      let (small, (on, back)) = after_keepalive_bound s now (ssh.keepalive_send h w).0 b in
      (small, (λ e. (refl, (on e).0, (on e).1), λ (e, f, g). back (f, g)))

  -- With a handle and fewer than three failures counted, `sendKeepalive` reports a lost connection exactly
  -- when it has the lock, the send fails at the socket, and two failures were counted; the count stays
  -- below three.
  pub send_keepalive_lem :
      (s : SshSession) (w : env.World) (h : ℕ)
      → s.session ≡ some h
      → s.keep_alive_failures < 3
      → let (now, w1) = env.millis w in
        let (locked, w2) = env.lock 200 w1 in
        let (ok, s', w') = send_keepalive env ssh s w in
        (s'.keep_alive_failures < 3)
        × ((ok ≡ false) ↔ (
            (locked ≡ true)
            × ((ssh.keepalive_send h w2).0 ≡ send_error)
            × (s.keep_alive_failures ≡ 2)))
  unfolding send_keepalive
  send_keepalive_lem s w h e b =
      let (now, w1) = env.millis w in
      rw (e, send_keepalive)
        (keepalive_locked_lem (record s { last_keepalive_attempt_ms = now }) h now (env.lock 200 w1)
          b)
