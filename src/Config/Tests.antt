-- ===== src/Config/Tests.antt =====
-- A configuration that is accepted, and the theorems there.
use esp_reverse_tunneling_li.Prelude.{◌≡◌, refl, ◌≢◌, ◌↔◌, true, false, [], ◌∷◌, ◌++◌}
use esp_reverse_tunneling_li.Config.{
  SshConfiguration, TunnelConfig, default_server, default_mapping, default_connection,
  set_ssh_server, set_buffer_config, set_max_reverse_listeners, set_keep_alive_options,
}
use esp_reverse_tunneling_li.Config.Text.{validate_ssh_keys, begin_marker, end_marker, ssh_prefix}
use esp_reverse_tunneling_li.Config.Validate.{
  validate_configuration, validate_configuration_iff, ServerIsValid, AllMappings, ConnectionIsValid,
}
use esp_reverse_tunneling_li.Config.Mappings.{
  set_tunnel_config, add_tunnel_mapping, remove_tunnel_mapping, clear_tunnel_mappings,
  get_tunnel_config, remove_reverse_tunnel, remove-add_tunnel_mapping,
}

abbrev web : TunnelConfig
web = record {
  remote_bind_host = 48 ∷ [];
  remote_bind_port = 8080;
  local_host = 49 ∷ [];
  local_port = 80;
}

abbrev shell : TunnelConfig
shell = record web { remote_bind_port = 2222; local_port = 22 }

abbrev home : SshConfiguration
home = record {
  ssh_config = record default_server {
    host = 104 ∷ [];
    username = 117 ∷ [];
    password = 112 ∷ [];
    private_key_data = begin_marker ++ (10 ∷ end_marker);
    public_key_data = ssh_prefix ++ (114 ∷ 115 ∷ 97 ∷ []);
  };
  tunnel_mappings = web ∷ shell ∷ web ∷ [];
  connection_config = default_connection;
  mutex = true;
}

accepted : validate_configuration home ≡ true
unfolding validate_configuration
accepted = refl

keys_accepted : validate_ssh_keys home ≡ true
unfolding validate_ssh_keys
keys_accepted = refl

-- A port that does not fit in 16 bits, and a negative size of the buffer.
bad_port :
    validate_configuration (set_ssh_server home (104 ∷ []) 65536 (117 ∷ []) (112 ∷ [])) ≡ false
unfolding validate_configuration set_ssh_server
bad_port = refl

bad_buffer : validate_configuration (set_buffer_config home 4294967295 4 1000 8192) ≡ false
unfolding validate_configuration set_buffer_config
bad_buffer = refl

-- A limit of no listeners is refused, and an interval that is not positive is taken from the keep-alive.
kept_limit : set_max_reverse_listeners home 0 ≡ home
unfolding set_max_reverse_listeners
kept_limit = refl

own_interval :
    (set_keep_alive_options home true 0).connection_config.libssh2_keep_alive_interval_sec ≡ 10
unfolding set_keep_alive_options
own_interval = refl

single : (set_tunnel_config home shell).tunnel_mappings ≡ shell ∷ []
unfolding set_tunnel_config
single = refl

cleared : get_tunnel_config (clear_tunnel_mappings home) 0 ≡ default_mapping
unfolding get_tunnel_config clear_tunnel_mappings
cleared = refl

out_of_range : get_tunnel_config home 7 ≡ web
unfolding get_tunnel_config
out_of_range = refl

first_only : (remove_reverse_tunnel home (48 ∷ []) 8080).1.tunnel_mappings ≡ shell ∷ web ∷ []
unfolding remove_reverse_tunnel
first_only = refl

remove-add_tunnel_mapping_example :
    (get_tunnel_config (add_tunnel_mapping home shell) 3 ≡ shell)
    × (remove_tunnel_mapping (add_tunnel_mapping home shell) 3 ≡ (true, home))
remove-add_tunnel_mapping_example = remove-add_tunnel_mapping home shell refl

validate_configuration_iff_example : (validate_configuration home ≡ true) ↔ (
    ServerIsValid home.ssh_config
    × (home.tunnel_mappings ≢ [])
    × AllMappings home.tunnel_mappings
    × ConnectionIsValid home.connection_config)
validate_configuration_iff_example = validate_configuration_iff home
