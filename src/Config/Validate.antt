-- ===== src/Config/Validate.antt =====
-- `validateConfiguration` and its parts (src/ssh_config.cpp, src/ssh_config_validators.h).
use esp_reverse_tunneling_li.Prelude.{
  ℕ, ◌≤◌, ◌<◌, ◌≡◌, refl, ◌≢◌, ◌↔◌, Bool, true, false, not, ◌&&◌, List, [], ◌∷◌, arith, leb, ◌==◌,
  if◌then◌else◌, half_word,
}
use esp_reverse_tunneling_li.Config.{
  SshServerConfig, TunnelConfig, ConnectionConfig, SshConfiguration, is_positive,
}
use esp_reverse_tunneling_li.Config.Iff.{both_iff}
use esp_reverse_tunneling_li.Config.Text.{is_empty_text, is_empty_text_iff}

unfoldable pub is_valid_port : ℕ → Bool
is_valid_port port = (is_positive port && leb 1 port) && leb port 65535

-- `String::c_str`: a text as a C string, which ends at its first NUL.
unfoldable pub c_str : List ℕ → List ℕ
c_str [] = []
c_str (x ∷ xs) = let rest = c_str xs in if x == 0 then [] else x ∷ rest

unfoldable pub is_valid_hostname : List ℕ → Bool
unfolding is_empty_text
is_valid_hostname host = not (is_empty_text host)

unfoldable pub is_valid_keep_alive : ℕ → Bool
is_valid_keep_alive seconds = is_positive seconds

unfoldable pub is_valid_buffer_size : ℕ → Bool
is_valid_buffer_size bytes = is_positive bytes

unfoldable pub is_valid_reconnect_delay : ℕ → Bool
is_valid_reconnect_delay ms = is_positive ms

unfoldable pub is_valid_max_channels : ℕ → Bool
is_valid_max_channels n = is_positive n

unfoldable pub is_valid_connection_timeout : ℕ → Bool
is_valid_connection_timeout seconds = is_positive seconds

unfoldable pub is_valid_max_reconnect_attempts : ℕ → Bool
is_valid_max_reconnect_attempts n = is_positive n

-- The fields are tested in the order of the source; each failed test returns false.
unfoldable pub validate_ssh_config : SshServerConfig → Bool
unfolding c_str is_valid_hostname is_valid_port
validate_ssh_config c =
    if not (is_valid_hostname (c_str c.host))
    then false
    else if not (is_valid_port c.port)
    then false
    else if not (is_valid_hostname (c_str c.username))
    then false
    else if not c.use_ssh_key && is_empty_text c.password
    then false
    else if c.use_ssh_key && is_empty_text c.private_key_data
    then false
    else true

unfoldable pub validate_mappings : List TunnelConfig → Bool
unfolding c_str is_valid_hostname is_valid_port
validate_mappings [] = true
validate_mappings (m ∷ ms) =
    let rest = validate_mappings ms in
    if not (is_valid_hostname (c_str m.remote_bind_host))
    then false
    else if not (is_valid_port m.remote_bind_port)
    then false
    else if not (is_valid_hostname (c_str m.local_host))
    then false
    else if not (is_valid_port m.local_port)
    then false
    else rest

unfoldable pub validate_tunnel_config : List TunnelConfig → Bool
unfolding validate_mappings
validate_tunnel_config [] = false
validate_tunnel_config (m ∷ ms) = validate_mappings (m ∷ ms)

unfoldable pub validate_connection_config : ConnectionConfig → Bool
unfolding is_valid_keep_alive is_valid_reconnect_delay is_valid_max_reconnect_attempts
    is_valid_connection_timeout is_valid_buffer_size is_valid_max_channels
validate_connection_config c =
    if not (is_valid_keep_alive c.keep_alive_interval_sec)
    then false
    else if not (is_valid_reconnect_delay c.reconnect_delay_ms)
    then false
    else if not (is_valid_max_reconnect_attempts c.max_reconnect_attempts)
    then false
    else if not (is_valid_connection_timeout c.connection_timeout_sec)
    then false
    else if not (is_valid_buffer_size c.buffer_size)
    then false
    else if not (is_valid_max_channels c.max_channels)
    then false
    else if c.libssh2_keep_alive_enabled && not (is_positive c.libssh2_keep_alive_interval_sec)
    then false
    else if c.tunnel_ring_buffer_size == 0
    then false
    else if not (is_positive c.max_reverse_listeners)
    then false
    else true

unfoldable pub validate_configuration : SshConfiguration → Bool
unfolding validate_ssh_config validate_tunnel_config validate_connection_config
validate_configuration c =
    (validate_ssh_config c.ssh_config && validate_tunnel_config c.tunnel_mappings)
    && validate_connection_config c.connection_config

-- What is asked of the parts, in the words of mathematics.
abbrev pub IsPort : ℕ → Type 0
IsPort p = (1 ≤ p) × (p ≤ 65535)

abbrev pub IsPositive : ℕ → Type 0
IsPositive n = (0 < n) × (n < half_word)

-- A text that is not empty as a C string.
abbrev pub IsNamed : List ℕ → Type 0
IsNamed [] = ⊥
IsNamed (x ∷ xs) = x ≢ 0

pub record ServerIsValid (c : SshServerConfig) : Type 0 where
  pub host_named : IsNamed c.host
  pub port_in : IsPort c.port
  pub user_named : IsNamed c.username
  pub secret : c.use_ssh_key ≡ false → c.password ≢ []
  pub key : c.use_ssh_key ≡ true → c.private_key_data ≢ []

pub record MappingIsValid (m : TunnelConfig) : Type 0 where
  pub remote_named : IsNamed m.remote_bind_host
  pub remote_in : IsPort m.remote_bind_port
  pub local_named : IsNamed m.local_host
  pub local_in : IsPort m.local_port

abbrev pub AllMappings : List TunnelConfig → Type 0
AllMappings [] = Unit
AllMappings (m ∷ ms) = MappingIsValid m × AllMappings ms

pub record ConnectionIsValid (c : ConnectionConfig) : Type 0 where
  pub keep_alive : IsPositive c.keep_alive_interval_sec
  pub delay : IsPositive c.reconnect_delay_ms
  pub attempts : IsPositive c.max_reconnect_attempts
  pub timeout : IsPositive c.connection_timeout_sec
  pub buffer : IsPositive c.buffer_size
  pub channels : IsPositive c.max_channels
  pub own_keep_alive :
      c.libssh2_keep_alive_enabled ≡ true → IsPositive c.libssh2_keep_alive_interval_sec
  pub ring : 0 < c.tunnel_ring_buffer_size
  pub listeners : IsPositive c.max_reverse_listeners

IsNamed-iff : (xs : List ℕ) → (is_valid_hostname (c_str xs) ≡ true) ↔ IsNamed xs
unfolding c_str is_valid_hostname is_empty_text
IsNamed-iff [] = (λ t. absurd cc, λ v. absurd v)
IsNamed-iff (x ∷ xs) = (λ t. ground (arith, t), λ n. ground (arith, n))

server_iff : (c : SshServerConfig) → (validate_ssh_config c ≡ true) ↔ ServerIsValid c
unfolding validate_ssh_config is_valid_port
server_iff c = (
  λ t. ground (arith, t, named, user, password, key),
  λ v.
      ground
        (arith, named, user, password, key, v.host_named, v.port_in, v.user_named, v.secret, v.key),
)
  where
    named : (is_valid_hostname (c_str c.host) ≡ true) ↔ IsNamed c.host
    named = IsNamed-iff c.host

    user : (is_valid_hostname (c_str c.username) ≡ true) ↔ IsNamed c.username
    user = IsNamed-iff c.username

    password : (is_empty_text c.password ≡ true) ↔ (c.password ≡ [])
    password = is_empty_text_iff c.password

    key : (is_empty_text c.private_key_data ≡ true) ↔ (c.private_key_data ≡ [])
    key = is_empty_text_iff c.private_key_data

mapping_iff :
    (m : TunnelConfig) (ms : List TunnelConfig)
    → (validate_mappings (m ∷ ms) ≡ true) ↔ (MappingIsValid m × (validate_mappings ms ≡ true))
unfolding validate_mappings is_valid_port
mapping_iff m ms = (
  λ t. (ground (arith, t, remote, local), ground (arith, t)),
  λ (v, t).
      ground (arith, remote, local, v.remote_named, v.remote_in, v.local_named, v.local_in, t),
)
  where
    remote : (is_valid_hostname (c_str m.remote_bind_host) ≡ true) ↔ IsNamed m.remote_bind_host
    remote = IsNamed-iff m.remote_bind_host

    local : (is_valid_hostname (c_str m.local_host) ≡ true) ↔ IsNamed m.local_host
    local = IsNamed-iff m.local_host

mappings_iff : (ms : List TunnelConfig) → (validate_mappings ms ≡ true) ↔ AllMappings ms
unfolding validate_mappings
mappings_iff [] = (λ t. tt, λ v. refl)
mappings_iff (m ∷ ms) =
    let (to, from) = mapping_iff m ms in
    let (all, back) = mappings_iff ms in
    (λ t. ((to t).0, all (to t).1), λ (v, vs). from (v, back vs))

tunnel_iff :
    (ms : List TunnelConfig) → (validate_tunnel_config ms ≡ true) ↔ ((ms ≢ []) × AllMappings ms)
unfolding validate_tunnel_config
tunnel_iff [] = (λ t. absurd (cc), λ (n, v). absurd (n refl))
tunnel_iff (m ∷ ms) =
    let (to, from) = mappings_iff (m ∷ ms) in (λ t. (λ e. cc, to t), λ (n, v). from v)

connection_iff :
    (c : ConnectionConfig) → (validate_connection_config c ≡ true) ↔ ConnectionIsValid c
unfolding validate_connection_config is_valid_keep_alive is_valid_reconnect_delay
    is_valid_max_reconnect_attempts is_valid_connection_timeout is_valid_buffer_size
    is_valid_max_channels
connection_iff c = (
  λ t. ground arith,
  λ v. ground (
    arith, v.keep_alive, v.delay, v.attempts, v.timeout, v.buffer, v.channels, v.own_keep_alive,
    v.ring, v.listeners,
  ),
)

-- `validateConfiguration` accepts exactly: a server with a host, a user, a port from 1 to 65535 and, as the
-- kind of authentication asks, a password or a private key; at least one mapping, each with two hosts
-- and two such ports; and positive intervals, delays, attempts, sizes and limits, that of the
-- keep-alive of libssh2 only when it is enabled. A host or a user is a text that is not empty and does
-- not begin with NUL.
pub validate_configuration_iff :
    (c : SshConfiguration)
    → (validate_configuration c ≡ true) ↔ (
        ServerIsValid c.ssh_config
        × (c.tunnel_mappings ≢ [])
        × AllMappings c.tunnel_mappings
        × ConnectionIsValid c.connection_config)
unfolding validate_configuration
validate_configuration_iff c =
    let (f, f') =
      both_iff (both_iff (server_iff c.ssh_config) (tunnel_iff c.tunnel_mappings))
        (connection_iff c.connection_config) in
    (λ t. let ((a, (n, b)), d) = f t in (a, n, b, d), λ (a, n, b, d). f' ((a, (n, b)), d))
