-- ===== src/Config.antt =====
-- SSHConfiguration (src/ssh_config.h, src/ssh_config.cpp) and ssh_validators
-- (src/ssh_config_validators.h). An `int` is its 32-bit pattern, so a negative one is at least 2 ^ 31; a
-- String is the list of its character codes. The callback for a host key mismatch is left out: it is
-- only stored and called.
pub mod Iff
pub mod Text
pub mod Validate
pub mod Mappings
mod Tests
use esp_reverse_tunneling_li.Prelude.{
  ℕ, Bool, true, false, not, ◌&&◌, List, [], ltb, if◌then◌else◌, is_negative,
}

pub record SshServerConfig : Type 0 where
  pub host : List ℕ
  pub port : ℕ
  pub username : List ℕ
  pub password : List ℕ
  pub use_ssh_key : Bool
  pub private_key_data : List ℕ
  pub public_key_data : List ℕ
  pub verify_host_key : Bool
  pub expected_host_key_fingerprint : List ℕ
  pub host_key_type : List ℕ

abbrev pub default_server : SshServerConfig
default_server = record {
  host = [];
  port = 22;
  username = [];
  password = [];
  use_ssh_key = false;
  private_key_data = [];
  public_key_data = [];
  verify_host_key = false;
  expected_host_key_fingerprint = [];
  host_key_type = [];
}

pub record TunnelConfig : Type 0 where
  pub remote_bind_host : List ℕ
  pub remote_bind_port : ℕ
  pub local_host : List ℕ
  pub local_port : ℕ

abbrev pub default_mapping : TunnelConfig
default_mapping = record {
  remote_bind_host = [];
  remote_bind_port = 0;
  local_host = [];
  local_port = 0;
}

pub record ConnectionConfig : Type 0 where
  pub keep_alive_interval_sec : ℕ
  pub reconnect_delay_ms : ℕ
  pub max_reconnect_attempts : ℕ
  pub connection_timeout_sec : ℕ
  pub buffer_size : ℕ
  pub max_channels : ℕ
  pub channel_timeout_ms : ℕ
  pub libssh2_keep_alive_enabled : Bool
  pub libssh2_keep_alive_interval_sec : ℕ
  pub tunnel_ring_buffer_size : ℕ
  pub max_reverse_listeners : ℕ

abbrev pub default_connection : ConnectionConfig
default_connection = record {
  keep_alive_interval_sec = 10;
  reconnect_delay_ms = 5000;
  max_reconnect_attempts = 5;
  connection_timeout_sec = 30;
  buffer_size = 8192;
  max_channels = 10;
  channel_timeout_ms = 30000;
  libssh2_keep_alive_enabled = true;
  libssh2_keep_alive_interval_sec = 30;
  tunnel_ring_buffer_size = 65536;
  max_reverse_listeners = 1;
}

-- `mutex` is whether `configMutex` could be created.
pub record SshConfiguration : Type 0 where
  pub ssh_config : SshServerConfig
  pub tunnel_mappings : List TunnelConfig
  pub connection_config : ConnectionConfig
  pub mutex : Bool

-- `x > 0` on `int`
abbrev pub is_positive : ℕ → Bool
is_positive x = ltb 0 x && not (is_negative x)

-- `lockConfig` waits for ever, so it fails only without a mutex; then a setter does nothing.
unfoldable pub under_lock :
    (SshConfiguration → SshConfiguration) → SshConfiguration → SshConfiguration
under_lock change c = if c.mutex then change c else c

unfoldable pub set_ssh_server : SshConfiguration → List ℕ → ℕ → List ℕ → List ℕ → SshConfiguration
unfolding under_lock
set_ssh_server c host port username password =
    under_lock
      (λ d. record d {
        ssh_config = record d.ssh_config {
          host = host;
          port = port;
          username = username;
          password = password;
          use_ssh_key = false;
        };
      })
      c

unfoldable pub set_ssh_key_auth_from_memory :
    SshConfiguration → List ℕ → ℕ → List ℕ → List ℕ → List ℕ → List ℕ → SshConfiguration
unfolding under_lock
set_ssh_key_auth_from_memory c host port username private_key public_key passphrase =
    under_lock
      (λ d. record d {
        ssh_config = record d.ssh_config {
          host = host;
          port = port;
          username = username;
          private_key_data = private_key;
          public_key_data = public_key;
          password = passphrase;
          use_ssh_key = true;
        };
      })
      c

-- The overload of `setHostKeyVerification` with a fingerprint.
unfoldable pub set_host_key_verification :
    SshConfiguration → List ℕ → List ℕ → Bool → SshConfiguration
unfolding under_lock
set_host_key_verification c fingerprint key_type enable =
    under_lock
      (λ d. record d {
        ssh_config = record d.ssh_config {
          verify_host_key = enable;
          expected_host_key_fingerprint = fingerprint;
          host_key_type = key_type;
        };
      })
      c

unfoldable pub set_connection_config : SshConfiguration → ℕ → ℕ → ℕ → ℕ → SshConfiguration
unfolding under_lock
set_connection_config c keep_alive delay attempts timeout =
    under_lock
      (λ d. record d {
        connection_config = record d.connection_config {
          keep_alive_interval_sec = keep_alive;
          libssh2_keep_alive_interval_sec = keep_alive;
          reconnect_delay_ms = delay;
          max_reconnect_attempts = attempts;
          connection_timeout_sec = timeout;
        };
      })
      c

unfoldable pub set_buffer_config : SshConfiguration → ℕ → ℕ → ℕ → ℕ → SshConfiguration
unfolding under_lock
set_buffer_config c size max_channels timeout ring_size =
    under_lock
      (λ d. record d {
        connection_config = record d.connection_config {
          buffer_size = size;
          max_channels = max_channels;
          channel_timeout_ms = if is_positive timeout then timeout else 0;
          tunnel_ring_buffer_size = ring_size;
        };
      })
      c

unfoldable pub set_max_reverse_listeners : SshConfiguration → ℕ → SshConfiguration
unfolding under_lock
set_max_reverse_listeners c n =
    if is_positive n
    then under_lock
        (λ d. record d {
          connection_config = record d.connection_config { max_reverse_listeners = n };
        })
        c
    else c

unfoldable pub set_keep_alive_options : SshConfiguration → Bool → ℕ → SshConfiguration
unfolding under_lock
set_keep_alive_options c enable seconds =
    under_lock
      (λ d. record d {
        connection_config = record d.connection_config {
          libssh2_keep_alive_enabled = enable;
          libssh2_keep_alive_interval_sec =
              if is_positive seconds then seconds else c.connection_config.keep_alive_interval_sec;
        };
      })
      c
