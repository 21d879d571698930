-- ===== src/Session/OnlineTests.antt =====
-- A session with a server that has one channel, and the theorems there.
use esp_reverse_tunneling_li.Prelude.{
  ℕ, ◌<◌, ◌≡◌, refl, sym, ◌↔◌, ◌⊎◌, true, false, Option, none, some, List, [], ◌∷◌, arith, ◌==◌,
  if◌then◌else◌, take,
}
use mathlib.Core.Option.{some-injective}
use esp_reverse_tunneling_li.AcceptError.{Codes}
use esp_reverse_tunneling_li.Ledger.{Does}
use esp_reverse_tunneling_li.Config.{
  SshConfiguration, SshServerConfig, default_server, default_connection,
}
use esp_reverse_tunneling_li.Config.Text.{is_empty_text, starts_with, same_text}
use esp_reverse_tunneling_li.Session.Accept.{reset_accept_state, after}
use esp_reverse_tunneling_li.Session.Lifecycle.{
  SshApi, SshSession, free_again, send_error, ed25519, KeyType, cleanup_session, send_keepalive,
}
use esp_reverse_tunneling_li.Session.Cleanup.{
  SshLaws, closes, cleanup_session_lem, send_keepalive_lem,
}
use esp_reverse_tunneling_li.Session.Listeners.{
  create_listeners, desired, mappings_of, AllListen, create_listeners_lem,
}
use esp_reverse_tunneling_li.Session.Polling.{accept_channel, poll_of}
use esp_reverse_tunneling_li.Session.Answers.{event_of, PollLaws, Polled, accept_channel_lem}
use esp_reverse_tunneling_li.Session.Connect.{connect, IsWellFormed, Ends, connect_lem}
use esp_reverse_tunneling_li.Session.Fingerprint.{
  encode_fingerprint_hex, encode_fingerprint_base64, verify_host_key,
}
use esp_reverse_tunneling_li.Session.Readback.{Expected, verify_host_key_lem}
use esp_reverse_tunneling_li.Session.Interface.{ssh_session}
use esp_reverse_tunneling_li.Examples.{demo, calm, demo_ledger}
use esp_reverse_tunneling_li.Examples.Managers.{web}

-- Only the listener 5 has a channel.
abbrev channel_of : ℕ → Option ℕ
channel_of l = if l == 5 then some 9 else none

abbrev demo_ssh : SshApi demo
demo_ssh = record {
  library_init = λ w. (true, w);
  open_socket = λ w. (some 8, w);
  optimize_ssh_socket = λ fd w. w;
  resolve = λ host w. (some 1, w);
  connect_socket = λ fd address port w. (true, w);
  socket_error = λ fd w. (some 0, w);
  session_init = λ w. (some 1, w);
  session_handshake = λ h fd w. (true, w);
  session_set_nonblocking = λ h w. w;
  session_disconnect = λ h w. w;
  session_free = λ h w. (free_again, w);
  keepalive_config = λ h n w. w;
  keepalive_send = λ h w. (send_error, w);
  forward_listen = λ h host port n w. (some (5, port), w);
  forward_cancel = λ l w. w;
  forward_accept =
      λ l w. (channel_of l, record w { polls = event_of l (channel_of l) 26 ∷ w.polls });
  last_errno = λ h w. 26;
  hostkey = λ h w. some ed25519;
  hostkey_hash = λ h w. some (1 ∷ 254 ∷ []);
  userauth_list = λ h user w. (true, w);
  userauth_password = λ h user password w. (true, w);
  userauth_publickey = λ h user public private phrase w. (true, w);
  delay = λ ms w. w;
}

demo_ssh_laws : SshLaws demo demo_ssh demo_ledger
unfolding demo_ledger
demo_ssh_laws = record {
  shutdown_does = λ fd w. record { each = λ d. omega arith };
  disconnect_does = λ h w. record { each = λ d. omega arith };
  free_does = λ h w. record { each = λ d. omega arith };
  cancel_does = λ l w. record { each = λ d. omega arith };
  delay_does = λ ms w. record { each = λ d. omega arith };
}

demo_poll_laws : PollLaws demo demo_ssh
demo_poll_laws = record {
  log = λ h w. w.polls;
  lock_log = λ h t w. refl;
  unlock_log = λ h w. refl;
  millis_log = λ h w. refl;
  accept_log = λ h l w. refl;
}

abbrev codes : Codes
codes = record {
  eagain = 37;
  channel_unknown = 23;
  channel_closed = 26;
  socket_send = 7;
  socket_disconnect = 13;
}

-- "Af4" is the text of the bytes 1 and 254; with the prefix it is what a user configures.
abbrev server : SshServerConfig
server = record default_server {
  host = 104 ∷ [];
  username = 117 ∷ [];
  password = 112 ∷ [];
  verify_host_key = true;
  expected_host_key_fingerprint =
      83 ∷ 72 ∷ 65 ∷ 50 ∷ 53 ∷ 54 ∷ 58 ∷ encode_fingerprint_base64 (1 ∷ 254 ∷ []);
}

abbrev home : SshConfiguration
home = record {
  ssh_config = server;
  tunnel_mappings = web ∷ web ∷ [];
  connection_config = default_connection;
  mutex = true;
}

abbrev fresh : SshSession
fresh = record {
  session = none;
  socketfd = none;
  listeners = [];
  bound_port = none;
  keep_alive_failures = 0;
  session_connected_ms = 0;
  last_keepalive_ok_ms = 0;
  last_keepalive_attempt_ms = 0;
  last_channel_unknown_log_ms = 0;
  channel_unknown_total = 0;
  accept = reset_accept_state;
}

abbrev online : SshSession
online = record fresh {
  session = some 1;
  socketfd = some 8;
  listeners =
      record { listener = some 4; mapping = web; bound_port = 8079 }
      ∷ record { listener = some 5; mapping = web; bound_port = 8080 }
      ∷ [];
  keep_alive_failures = 2;
}

fresh-IsWellFormed : IsWellFormed demo demo_ssh fresh
fresh-IsWellFormed = record { no_socket = λ e. refl; no_listener = λ e. refl }

-- What the tunnel sees of it: the third failed keep-alive ends the connection, and a channel comes in.
third_failure : ((ssh_session demo demo_ssh codes).send_keepalive online calm).0 ≡ false
unfolding send_keepalive
third_failure = refl

one_channel : ((ssh_session demo demo_ssh codes).accept_channel online calm).0 ≡ some (9, web)
unfolding accept_channel
one_channel = refl

hex_text : encode_fingerprint_hex (1 ∷ 254 ∷ []) ≡ 48 ∷ 49 ∷ 102 ∷ 101 ∷ []
unfolding encode_fingerprint_hex
hex_text = refl

connect_lem_example : Ends demo demo_ssh home (connect demo demo_ssh home fresh calm)
connect_lem_example = connect_lem demo demo_ssh home fresh calm fresh-IsWellFormed

cleanup_session_lem_example :
    let (s', w') = cleanup_session demo demo_ssh online calm in
    Does demo demo_ledger.count calm (closes (some 8)) w'
    × (s'.socketfd ≡ none)
    × (s'.listeners ≡ [])
    × (s'.bound_port ≡ none)
    × (s'.keep_alive_failures ≡ 0)
    × (s'.channel_unknown_total ≡ 0)
    × (s'.session_connected_ms ≡ 0)
    × (s'.last_keepalive_ok_ms ≡ 0)
    × (s'.last_keepalive_attempt_ms ≡ 0)
    × (s'.last_channel_unknown_log_ms ≡ 0)
    × (s'.accept ≡ reset_accept_state)
    × ((s'.session ≡ none) ⊎ (s'.session ≡ some 1))
cleanup_session_lem_example =
    cleanup_session_lem demo demo_ssh demo_ledger demo_ssh_laws online calm

send_keepalive_lem_example :
    let (ok, s', w') = send_keepalive demo demo_ssh online calm in
    (s'.keep_alive_failures < 3)
    × ((ok ≡ false)
        ↔ ((true ≡ true) × (send_error ≡ send_error) × (online.keep_alive_failures ≡ 2)))
send_keepalive_lem_example = send_keepalive_lem demo demo_ssh online calm 1 refl (omega arith)

create_listeners_lem_example :
    let (ok, s', w') = create_listeners demo demo_ssh 1 home online calm in
    ((ok ≡ true)
      → (mappings_of demo demo_ssh s'.listeners
          ≡ take (desired demo demo_ssh home) home.tunnel_mappings)
        × AllListen demo demo_ssh s'.listeners
        × (0 < desired demo demo_ssh home))
    × ((ok ≡ false) → s'.listeners ≡ [])
create_listeners_lem_example = create_listeners_lem demo demo_ssh 1 home online calm

no_history : online.accept ≡ after codes []
unfolding after
no_history = refl

key_accepted : (verify_host_key demo demo_ssh 1 server calm).0 ≡ true
unfolding verify_host_key is_empty_text starts_with same_text
key_accepted = refl

accept_channel_lem_example :
    let (r, s', w') = accept_channel demo demo_ssh codes online calm in
    Polled demo demo_ssh demo_poll_laws codes 1 online.listeners [] calm
      (r, poll_of demo demo_ssh s', w')
    × (s'.listeners ≡ online.listeners)
accept_channel_lem_example =
    accept_channel_lem demo demo_ssh demo_poll_laws codes 1 online [] calm refl no_history

verify_host_key_lem_example :
    (key : KeyType) × (bytes : List ℕ) × (some ed25519 ≡ some key)
    × (some (1 ∷ 254 ∷ []) ≡ some bytes)
    × Expected server key bytes
verify_host_key_lem_example =
    verify_host_key_lem demo demo_ssh 1 server calm refl (λ e. cc)
      (λ w bytes e. rw (sym (some-injective _ _ e)) (omega arith, (omega arith, tt))) key_accepted
