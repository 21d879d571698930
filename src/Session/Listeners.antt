-- ===== src/Session/Listeners.antt =====
-- The listeners of the session (src/ssh_session.cpp): how they are made, and how a channel is accepted.
use esp_reverse_tunneling_li.Prelude.{
  ℕ, zero, suc, ◌<◌, min, ◌≡◌, refl, sym, ap, ◌∙◌, inl, inr, Bool, true, false, Option, none, some,
  List, [], ◌∷◌, ◌++◌, append-nil, append_assoc, arith, ◌==◌, if◌then◌else◌, Bool-cases,
  Option-cases, length, take,
}
use esp_reverse_tunneling_li.Env.{Env}
use esp_reverse_tunneling_li.Config.{TunnelConfig, SshConfiguration, is_positive}
use esp_reverse_tunneling_li.Session.Lifecycle.{
  SshApi, ListenerEntry, SshSession, cancel_each, cancel_all_listeners,
}

abbrev pub max_attempts : ℕ
max_attempts = 50

-- `std::max(1, maxChannels)` on `int`
abbrev pub listen_limit : SshConfiguration → ℕ
listen_limit config =
    let n = config.connection_config.max_channels in if is_positive n then n else 1

module _ (env : Env) (ssh : SshApi env) where
  -- One attempt behind the lock: the listener, or none.
  unfoldable pub listen_locked :
      ℕ → TunnelConfig → ℕ → Bool × env.World → Option (ℕ × ℕ) × env.World
  listen_locked h mapping limit (false, w) = (none, w)
  listen_locked h mapping limit (true, w) =
      let (r, w1) =
        ssh.forward_listen h mapping.remote_bind_host mapping.remote_bind_port limit w in
      (r, env.unlock w1)

  -- `while (!handle && attempts < maxAttempts)`: a failed attempt waits for 10 ms.
  unfoldable pub listen_loop : ℕ → ℕ → TunnelConfig → ℕ → env.World → Option (ℕ × ℕ) × env.World
  unfolding listen_locked
  listen_loop zero h mapping limit w = (none, w)
  listen_loop (suc left) h mapping limit w =
      let (r, w1) = listen_locked h mapping limit (env.lock 500 w) in
      let again = listen_loop left h mapping limit (ssh.delay 10 w1) in
      elim r [ none ↦ again | some p ↦ (some p, w1) ]

  -- Behind a failure the text of the error is read under the lock, and only logged.
  abbrev after_failure : Bool × env.World → env.World
  after_failure (locked, w) = if locked then env.unlock w else w

  -- `createListenerForMapping`: the entry, if a listener was had.
  unfoldable pub create_listener_for_mapping :
      ℕ → TunnelConfig → ℕ → env.World → Option ListenerEntry × env.World
  unfolding listen_loop
  create_listener_for_mapping h mapping limit w =
      let (r, w1) = listen_loop max_attempts h mapping limit w in
      elim r [
        | none ↦ (none, after_failure (env.lock 100 w1))
        | some (l, port) ↦
            (some (record { listener = some l; mapping = mapping; bound_port = port }), w1)
      ]

  abbrev pub first_port : Option ℕ → ℕ → Option ℕ
  first_port none p = some p
  first_port (some q) p = some q

  -- `listeners_.push_back(entry)` and the first bound port.
  unfoldable pub add_listener : SshSession → ListenerEntry → SshSession
  add_listener s e = record s {
    listeners = s.listeners ++ (e ∷ []);
    bound_port = first_port s.bound_port e.bound_port;
  }

  -- What the loop of `createListeners` does with a new entry: all that were made are cancelled, if it
  -- is missing.
  unfoldable pub with_listener :
      (ListenerEntry → env.World → Bool × SshSession × env.World)
      → SshSession
      → Option ListenerEntry × env.World
      → Bool × SshSession × env.World
  unfolding cancel_all_listeners
  with_listener go_on s (none, w) =
      let (s', w') = cancel_all_listeners env ssh s w in (false, s', w')
  with_listener go_on s (some e, w) = go_on e w

  unfoldable pub create_each :
      ℕ → List TunnelConfig → ℕ → SshSession → env.World → Bool × SshSession × env.World
  unfolding create_listener_for_mapping with_listener add_listener
  create_each h [] limit s w = (true, s, w)
  create_each h (m ∷ ms) limit s w =
      with_listener (λ e w1. create_each h ms limit (add_listener s e) w1) s
        (create_listener_for_mapping h m limit w)

  -- `std::min(listenerLimit, mappings.size())` on `int`, where a limit that is not positive is refused.
  unfoldable pub desired : SshConfiguration → ℕ
  desired config =
      let limit = config.connection_config.max_reverse_listeners in
      if is_positive limit then min limit (length config.tunnel_mappings) else 0

  unfoldable pub create_listeners :
      ℕ → SshConfiguration → SshSession → env.World → Bool × SshSession × env.World
  unfolding create_each desired cancel_all_listeners
  create_listeners h config s w =
      let (s1, w1) = cancel_all_listeners env ssh s w in
      let n = desired config in
      let result = create_each h (take n config.tunnel_mappings) (listen_limit config) s1 w1 in
      if n == 0 then (false, s1, w1) else result

  abbrev pub mappings_of : List ListenerEntry → List TunnelConfig
  mappings_of [] = []
  mappings_of (e ∷ es) = e.mapping ∷ mappings_of es

  abbrev pub AllListen : List ListenerEntry → Type 0
  AllListen [] = Unit
  AllListen (e ∷ es) = ((l : ℕ) × (e.listener ≡ some l)) × AllListen es

  mappings_of-append :
      (es fs : List ListenerEntry) → mappings_of (es ++ fs) ≡ mappings_of es ++ mappings_of fs
  mappings_of-append [] fs = refl
  mappings_of-append (e ∷ es) fs = ap (◌∷◌ e.mapping) (mappings_of-append es fs)

  AllListen-append :
      (es : List ListenerEntry) (e : ListenerEntry) (l : ℕ)
      → AllListen es
      → e.listener ≡ some l
      → AllListen (es ++ (e ∷ []))
  AllListen-append [] e l a h = ((l, h), tt)
  AllListen-append (x ∷ es) e l (a, rest) h = (a, AllListen-append es e l rest h)

  -- An entry that was made listens for its mapping.
  data Made (m : TunnelConfig) : Option ListenerEntry × env.World → Type 0 where
    not_made : {w : env.World} → Made m (none, w)
    made :
        (e : ListenerEntry) (l : ℕ) {w : env.World}
        → e.mapping ≡ m
        → e.listener ≡ some l
        → Made m (some e, w)

  create_listener_lem :
      (h : ℕ) (m : TunnelConfig) (limit : ℕ) (w : env.World)
      → Made m (create_listener_for_mapping h m limit w)
  unfolding create_listener_for_mapping
  create_listener_lem h m limit w = elim (Option-cases (listen_loop max_attempts h m limit w).0) [
    | inl e ↦ rw (e, create_listener_for_mapping) not_made
    | inr (p, e) ↦
        rw (e, create_listener_for_mapping)
          (made (record { listener = some p.0; mapping = m; bound_port = p.1 }) p.0 refl refl)
  ]

  -- The listeners that are there after some of the mappings, or none after a failure.
  abbrev Listening : List TunnelConfig → Bool × SshSession × env.World → Type 0
  Listening ms (ok, s, w) =
      ((ok ≡ true) → (mappings_of s.listeners ≡ ms) × AllListen s.listeners)
      × ((ok ≡ false) → s.listeners ≡ [])

  with_listener_lem :
      (m : TunnelConfig) (goal : List TunnelConfig) (s : SshSession)
      (go_on : ListenerEntry → env.World → Bool × SshSession × env.World)
      (r : Option ListenerEntry × env.World)
      → Made m r
      → ((e : ListenerEntry) (l : ℕ) (w : env.World)
          → e.mapping ≡ m
          → e.listener ≡ some l
          → Listening goal (go_on e w))
      → Listening goal (with_listener go_on s r)
  unfolding with_listener cancel_all_listeners
  with_listener_lem m goal s go_on (none, w) not_made rest = (λ t. cc, λ t. refl)
  with_listener_lem m goal s go_on (some e, w) (made _ l same l_is) rest = rest e l w same l_is

  create_each_lem :
      (h : ℕ) (ms : List TunnelConfig) (limit : ℕ) (s : SshSession) (w : env.World)
      → AllListen s.listeners
      → Listening (mappings_of s.listeners ++ ms) (create_each h ms limit s w)
  unfolding create_each add_listener
  create_each_lem h [] limit s w a = (λ t. (sym (append-nil _), a), λ t. cc)
  create_each_lem h (m ∷ ms) limit s w a =
      with_listener_lem m (mappings_of s.listeners ++ (m ∷ ms)) s
        (λ e w1. create_each h ms limit (add_listener s e) w1)
        (create_listener_for_mapping h m limit w) (create_listener_lem h m limit w)
        (λ e l w1 same l_is.
          let mapped : mappings_of (s.listeners ++ (e ∷ [])) ≡ mappings_of s.listeners ++ (m ∷ []) =
            mappings_of-append s.listeners (e ∷ [])
            ∙ ap (λ q. mappings_of s.listeners ++ (q ∷ [])) same in
          let (good, bad) =
            create_each_lem h ms limit (add_listener s e) w1
              (AllListen-append s.listeners e l a l_is) in
          (
            λ t.
                let (g, k) = good t in
                (
                  g ∙ ap (λ q. q ++ ms) mapped ∙ append_assoc (mappings_of s.listeners) (m ∷ []) ms,
                  k,
                ),
            bad,
          ))

  -- Whatever libssh2 and the lock do: if `createListeners` succeeds then the listeners of the session are
  -- those of the first mappings, in their order, as many as the limit allows and at least one, each with
  -- a handle; if it fails then none is left.
  pub create_listeners_lem :
      (h : ℕ) (config : SshConfiguration) (s : SshSession) (w : env.World)
      → let (ok, s', w') = create_listeners h config s w in
        ((ok ≡ true)
          → (mappings_of s'.listeners ≡ take (desired config) config.tunnel_mappings)
            × AllListen s'.listeners
            × (0 < desired config))
        × ((ok ≡ false) → s'.listeners ≡ [])
  unfolding create_listeners cancel_all_listeners
  create_listeners_lem h config s w = elim (Bool-cases (desired config == 0)) [
    | inl b ↦ rw b (λ t. cc, λ t. refl)
    | inr b ↦
        let s1 = record s { listeners = []; bound_port = none } in
        let (good, bad) =
          create_each_lem h (take (desired config) config.tunnel_mappings) (listen_limit config) s1
            (cancel_each env ssh s.listeners w) tt in
        rw b (λ t. let (g, k) = good t in (g, k, ground (arith, b)), bad)
  ]

  -- The handle and the socket are not touched.
  abbrev pub SameHandle : SshSession → Bool × SshSession × env.World → Type 0
  SameHandle s (ok, t, w) = (t.session ≡ s.session) × (t.socketfd ≡ s.socketfd)

  with_listener-SameHandle :
      (s : SshSession) (go_on : ListenerEntry → env.World → Bool × SshSession × env.World)
      (r : Option ListenerEntry × env.World)
      → ((e : ListenerEntry) (w : env.World) → SameHandle s (go_on e w))
      → SameHandle s (with_listener go_on s r)
  unfolding with_listener cancel_all_listeners
  with_listener-SameHandle s go_on (none, w) rest = (refl, refl)
  with_listener-SameHandle s go_on (some e, w) rest = rest e w

  create_each-SameHandle :
      (h : ℕ) (ms : List TunnelConfig) (limit : ℕ) (s : SshSession) (w : env.World)
      → SameHandle s (create_each h ms limit s w)
  unfolding create_each add_listener
  create_each-SameHandle h [] limit s w = (refl, refl)
  create_each-SameHandle h (m ∷ ms) limit s w =
      with_listener-SameHandle s (λ e w1. create_each h ms limit (add_listener s e) w1)
        (create_listener_for_mapping h m limit w)
        (λ e w1. create_each-SameHandle h ms limit (add_listener s e) w1)

  pub create_listeners-SameHandle :
      (h : ℕ) (config : SshConfiguration) (s : SshSession) (w : env.World)
      → SameHandle s (create_listeners h config s w)
  unfolding create_listeners cancel_all_listeners
  create_listeners-SameHandle h config s w = elim (Bool-cases (desired config == 0)) [
    | inl b ↦ rw b (refl, refl)
    | inr b ↦
        let s1 = record s { listeners = []; bound_port = none } in
        rw b (
          create_each-SameHandle h (take (desired config) config.tunnel_mappings)
            (listen_limit config) s1 (cancel_each env ssh s.listeners w))
  ]
