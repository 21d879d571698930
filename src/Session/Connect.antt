-- ===== src/Session/Connect.antt =====
-- `connect` and its steps (src/ssh_session.cpp). What is only logged is left out.
use esp_reverse_tunneling_li.Prelude.{
  ℕ, ◌%◌, ◌<◌, ◌≡◌, refl, ◌∙◌, ◌≢◌, Bool, true, false, not, Option, none, some, List, [],
  if◌then◌else◌, take,
}
use esp_reverse_tunneling_li.Env.{Env}
use esp_reverse_tunneling_li.Config.{SshServerConfig, ConnectionConfig, SshConfiguration}
use esp_reverse_tunneling_li.Config.Text.{is_empty_text, validate_ssh_keys}
use esp_reverse_tunneling_li.Session.Accept.{reset_accept_state}
use esp_reverse_tunneling_li.Session.Lifecycle.{
  SshApi, SshSession, cleanup_session, cancel_all_listeners,
}
use esp_reverse_tunneling_li.Session.Fingerprint.{verify_host_key}
use esp_reverse_tunneling_li.Session.Listeners.{
  create_listeners, desired, mappings_of, AllListen, create_listeners-SameHandle,
  create_listeners_lem,
}

module _ (env : Env) (ssh : SshApi env) where
  -- The end of `tcpConnect`.
  unfoldable pub tcp_connected : ℕ → Bool × env.World → Option ℕ × env.World
  tcp_connected fd (true, w) = (some fd, w)
  tcp_connected fd (false, w) = (none, env.socket_close fd w)

  unfoldable pub tcp_resolved : ℕ → ℕ → Option ℕ × env.World → Option ℕ × env.World
  unfolding tcp_connected
  tcp_resolved fd port (none, w) = (none, env.socket_close fd w)
  tcp_resolved fd port (some address, w) =
      tcp_connected fd (ssh.connect_socket fd address (port % 65536) w)

  unfoldable pub tcp_opened : SshServerConfig → Option ℕ × env.World → Option ℕ × env.World
  unfolding tcp_resolved
  tcp_opened c (none, w) = (none, w)
  tcp_opened c (some fd, w) =
      tcp_resolved fd c.port (ssh.resolve c.host (ssh.optimize_ssh_socket fd w))

  -- `tcpConnect`: the value of `socketfd_`.
  unfoldable pub tcp_connect : SshServerConfig → env.World → Option ℕ × env.World
  unfolding tcp_opened
  tcp_connect c w = tcp_opened c (ssh.open_socket w)

  -- The handshake behind the lock; a handle that is not used is freed.
  unfoldable pub shake_locked : ℕ → ℕ → Bool × env.World → Option ℕ × env.World
  shake_locked h fd (false, w) = (none, (ssh.session_free h w).1)
  shake_locked h fd (true, w) =
      let (ok, w1) = ssh.session_handshake h fd w in
      if ok then (some h, env.unlock w1) else (none, env.unlock (ssh.session_free h w1).1)

  unfoldable pub shake : ℕ → Option ℕ × env.World → Option ℕ × env.World
  unfolding shake_locked
  shake fd (none, w) = (none, w)
  shake fd (some h, w) = shake_locked h fd (env.lock 5000 w)

  -- `handshake`: the value of `session_`.
  unfoldable pub handshake : ℕ → env.World → Option ℕ × env.World
  unfolding shake
  handshake fd w = shake fd (ssh.session_init w)

  -- `configureKeepalive`, whose result is not looked at.
  unfoldable pub configure_keepalive : ℕ → ConnectionConfig → env.World → env.World
  configure_keepalive h c w =
      let (ok, w1) = env.lock 200 w in
      let configured = env.unlock (ssh.keepalive_config h c.libssh2_keep_alive_interval_sec w1) in
      if not c.libssh2_keep_alive_enabled then w else if ok then configured else w1

  unfoldable pub text_or_none : List ℕ → Option (List ℕ)
  unfolding is_empty_text
  text_or_none t = if is_empty_text t then none else some t

  -- An authentication behind the lock.
  unfoldable pub under_lock : (env.World → Bool × env.World) → Bool × env.World → Bool × env.World
  under_lock auth (false, w) = (false, w)
  under_lock auth (true, w) = let (ok, w1) = auth w in (ok, env.unlock w1)

  unfoldable pub authenticate_key :
      ℕ → SshConfiguration → SshServerConfig → env.World → Bool × env.World
  unfolding under_lock text_or_none validate_ssh_keys
  authenticate_key h config c w =
      let result =
        under_lock
          (ssh.userauth_publickey h c.username (text_or_none c.public_key_data) c.private_key_data
            (text_or_none c.password))
          (env.lock 1000 w) in
      if is_empty_text c.private_key_data
      then (false, w)
      else if not (validate_ssh_keys config)
      then (false, w)
      else result

  -- Once the list of methods was asked for. Without one, the error is read, under the lock if it is had.
  unfoldable pub after_methods :
      ℕ → SshConfiguration → SshServerConfig → Bool × env.World → Bool × env.World
  unfolding under_lock authenticate_key
  after_methods h config c (false, w) =
      let (ok, w1) = env.lock 200 w in (false, if ok then env.unlock w1 else w1)
  after_methods h config c (true, w) =
      let by_password =
        under_lock (ssh.userauth_password h c.username c.password) (env.lock 1000 w) in
      if c.use_ssh_key then authenticate_key h config c w else by_password

  unfoldable pub methods_locked :
      ℕ → SshConfiguration → SshServerConfig → Bool × env.World → Bool × env.World
  unfolding after_methods
  methods_locked h config c (false, w) = (false, w)
  methods_locked h config c (true, w) =
      let (had, w1) = ssh.userauth_list h c.username w in
      after_methods h config c (had, env.unlock w1)

  unfoldable pub authenticate : ℕ → SshConfiguration → env.World → Bool × env.World
  unfolding methods_locked
  authenticate h config w = methods_locked h config config.ssh_config (env.lock 500 w)

  abbrev pub Outcome : Type 0
  Outcome = Bool × SshSession × env.World

  -- `cleanupSession(); return false;`
  unfoldable pub fail : SshSession → env.World → Outcome
  unfolding cleanup_session
  fail s w = let (s', w') = cleanup_session env ssh s w in (false, s', w')

  -- The end of `connect`.
  unfoldable pub ready : ℕ → Bool × SshSession × env.World → Outcome
  unfolding fail
  ready h (false, s, w) = fail s w
  ready h (true, s, w) =
      let (now, w1) = env.millis (ssh.session_set_nonblocking h w) in
      (
        true,
        record s {
          session_connected_ms = now;
          last_keepalive_ok_ms = now;
          last_keepalive_attempt_ms = 0;
          last_channel_unknown_log_ms = 0;
          channel_unknown_total = 0;
        },
        w1,
      )

  unfoldable pub authenticated : ℕ → SshConfiguration → SshSession → Bool × env.World → Outcome
  unfolding fail ready configure_keepalive
  authenticated h config s (false, w) = fail s w
  authenticated h config s (true, w) =
      ready h
        (create_listeners env ssh h config s (configure_keepalive h config.connection_config w))

  unfoldable pub verified : ℕ → SshConfiguration → SshSession → Bool × env.World → Outcome
  unfolding fail authenticated authenticate
  verified h config s (false, w) = fail s w
  verified h config s (true, w) = authenticated h config s (authenticate h config w)

  unfoldable pub shaken : SshConfiguration → SshSession → Option ℕ × env.World → Outcome
  unfolding fail verified
  shaken config s (none, w) = fail (record s { session = none }) w
  shaken config s (some h, w) =
      verified h config (record s { session = some h })
        (verify_host_key env ssh h config.ssh_config w)

  unfoldable pub dialled : SshConfiguration → SshSession → Option ℕ × env.World → Outcome
  unfolding shaken handshake
  dialled config s (none, w) = (false, record s { socketfd = none }, w)
  dialled config s (some fd, w) = shaken config (record s { socketfd = some fd }) (handshake fd w)

  -- A session that is left over must be gone.
  unfoldable pub dial : SshConfiguration → Option ℕ → SshSession → env.World → Outcome
  unfolding dialled tcp_connect
  dial config (some h) s w = (false, s, w)
  dial config none s w = dialled config s (tcp_connect config.ssh_config w)

  unfoldable pub connect_with : SshConfiguration → Option ℕ → SshSession → env.World → Outcome
  unfolding dial cleanup_session
  connect_with config none s w = dial config none s w
  connect_with config (some h) s w =
      let (s', w') = cleanup_session env ssh s w in dial config s'.session s' w'

  unfoldable pub connect : SshConfiguration → SshSession → env.World → Outcome
  unfolding connect_with
  connect config s w = connect_with config s.session (record s { accept = reset_accept_state }) w

  -- Without a handle, there is no socket and no listener.
  pub record IsWellFormed (s : SshSession) : Type 0 where
    pub no_socket : s.session ≡ none → s.socketfd ≡ none
    pub no_listener : s.session ≡ none → s.listeners ≡ []

  cleanup-IsWellFormed :
      (s : SshSession) (w : env.World) → IsWellFormed (cleanup_session env ssh s w).0
  unfolding cleanup_session cancel_all_listeners
  cleanup-IsWellFormed s w = record { no_socket = λ e. refl; no_listener = λ e. refl }

  -- How `connect` ends: with a handle, a socket and the listeners of the first mappings; or with neither
  -- socket nor listener.
  pub data Ends (config : SshConfiguration) : Outcome → Type 0 where
    online :
        (h fd : ℕ) {s : SshSession} {w : env.World}
        → s.session ≡ some h
        → s.socketfd ≡ some fd
        → mappings_of env ssh s.listeners ≡ take (desired env ssh config) config.tunnel_mappings
        → AllListen env ssh s.listeners
        → 0 < desired env ssh config
        → Ends config (true, s, w)
    offline :
        {s : SshSession} {w : env.World}
        → s.socketfd ≡ none
        → s.listeners ≡ []
        → IsWellFormed s
        → Ends config (false, s, w)

  fail-Ends : (config : SshConfiguration) (s : SshSession) (w : env.World) → Ends config (fail s w)
  unfolding fail cleanup_session cancel_all_listeners
  fail-Ends config s w = offline refl refl (cleanup-IsWellFormed s w)

  ready_lem :
      (config : SshConfiguration) (h fd : ℕ) (r : Outcome)
      → r.1.session ≡ some h
      → r.1.socketfd ≡ some fd
      → ((r.0 ≡ true)
          → (mappings_of env ssh r.1.listeners
              ≡ take (desired env ssh config) config.tunnel_mappings)
            × AllListen env ssh r.1.listeners
            × (0 < desired env ssh config))
      → Ends config (ready h r)
  unfolding ready
  ready_lem config h fd (false, s, w) e f l = fail-Ends config s w
  ready_lem config h fd (true, s, w) e f l = let (m, a, p) = l refl in online h fd e f m a p

  authenticated_lem :
      (config : SshConfiguration) (h fd : ℕ) (s : SshSession) (r : Bool × env.World)
      → s.session ≡ some h
      → s.socketfd ≡ some fd
      → Ends config (authenticated h config s r)
  unfolding authenticated
  authenticated_lem config h fd s (false, w) e f = fail-Ends config s w
  authenticated_lem config h fd s (true, w) e f =
      let w1 = configure_keepalive h config.connection_config w in
      let (p, q) = create_listeners-SameHandle env ssh h config s w1 in
      ready_lem config h fd (create_listeners env ssh h config s w1) (p ∙ e) (q ∙ f)
        (create_listeners_lem env ssh h config s w1).0

  verified_lem :
      (config : SshConfiguration) (h fd : ℕ) (s : SshSession) (r : Bool × env.World)
      → s.session ≡ some h
      → s.socketfd ≡ some fd
      → Ends config (verified h config s r)
  unfolding verified
  verified_lem config h fd s (false, w) e f = fail-Ends config s w
  verified_lem config h fd s (true, w) e f =
      authenticated_lem config h fd s (authenticate h config w) e f

  shaken_lem :
      (config : SshConfiguration) (fd : ℕ) (s : SshSession) (r : Option ℕ × env.World)
      → s.socketfd ≡ some fd
      → Ends config (shaken config s r)
  unfolding shaken
  shaken_lem config fd s (none, w) f = fail-Ends config (record s { session = none }) w
  shaken_lem config fd s (some h, w) f =
      verified_lem config h fd (record s { session = some h })
        (verify_host_key env ssh h config.ssh_config w) refl f

  dialled_lem :
      (config : SshConfiguration) (s : SshSession) (r : Option ℕ × env.World)
      → s.listeners ≡ []
      → Ends config (dialled config s r)
  unfolding dialled
  dialled_lem config s (none, w) l =
      offline refl l (record { no_socket = λ e. refl; no_listener = λ e. l })
  dialled_lem config s (some fd, w) l =
      shaken_lem config fd (record s { socketfd = some fd }) (handshake fd w) refl

  dial_lem :
      (config : SshConfiguration) (h : Option ℕ) (s : SshSession) (w : env.World)
      → (h ≡ none → s.listeners ≡ [])
      → (h ≢ none → (s.socketfd ≡ none) × (s.listeners ≡ []))
      → Ends config (dial config h s w)
  unfolding dial
  dial_lem config none s w l k = dialled_lem config s (tcp_connect config.ssh_config w) (l refl)
  dial_lem config (some h) s w l k =
      let (f, q) = k (λ e. cc) in offline f q (record { no_socket = λ e. f; no_listener = λ e. q })

  connect_with_lem :
      (config : SshConfiguration) (h : Option ℕ) (s : SshSession) (w : env.World)
      → (h ≡ none → s.listeners ≡ [])
      → Ends config (connect_with config h s w)
  unfolding connect_with cleanup_session cancel_all_listeners
  connect_with_lem config none s w l = dial_lem config none s w l (λ n. absurd (n refl))
  connect_with_lem config (some h) s w l =
      let (s', w') = cleanup_session env ssh s w in
      dial_lem config s'.session s' w' (λ e. refl) (λ n. (refl, refl))

  -- `connect` on a session in order, whatever the sockets, libssh2, the lock and the server do: if it
  -- succeeds then the session is connected, and listens for the first mappings, in their order, as many
  -- as the limit allows and at least one; if it fails then it has neither socket nor listener, and is in
  -- order again.
  pub connect_lem :
      (config : SshConfiguration) (s : SshSession) (w : env.World)
      → IsWellFormed s
      → Ends config (connect config s w)
  unfolding connect
  connect_lem config s w v =
      connect_with_lem config s.session (record s { accept = reset_accept_state }) w v.no_listener
