-- ===== src/TunnelApi.antt =====
-- What the tunnel (src/ssh_tunnel.cpp) uses of the session (src/ssh_session.h) and of the transport
-- pump (src/ssh_transport.h): their operations as it calls them, on a state that it does not look into.
use esp_reverse_tunneling_li.Prelude.{ℕ, Bool, Option, List}
use esp_reverse_tunneling_li.Env.{Env}
use esp_reverse_tunneling_li.RingApi.{RingApi}
use esp_reverse_tunneling_li.Config.{TunnelConfig, SshConfiguration}
use esp_reverse_tunneling_li.Channel.{ChannelCloseReason}
use esp_reverse_tunneling_li.Channel.Manager.{Channels}
use esp_reverse_tunneling_li.Channel.Counts.{IsValid}
use esp_reverse_tunneling_li.Channel.Endpoint.{EndpointApi}

pub record SessionApi (env : Env) : Type 1 where
  pub Session : Type 0
  pub init : Session → env.World → Bool × Session × env.World
  pub connect : SshConfiguration → Session → env.World → Bool × Session × env.World
  pub disconnect : Session → env.World → Session × env.World
  pub is_connected : Session → Bool
  pub check_connection : Session → env.World → Bool × env.World
  pub send_keepalive : Session → env.World → Bool × Session × env.World
  -- the channel and the mapping that it came for
  pub accept_channel : Session → env.World → Option (ℕ × TunnelConfig) × Session × env.World
  pub has_fatal_accept_failure : Session → Bool

pub record PumpApi (env : Env) (api : RingApi) : Type 1 where
  pub Transport : Type 0
  pub init : ℕ → ℕ → Transport → env.World → Bool × Transport × env.World
  pub pump_all : Channels env api → Transport → env.World → Channels env api × Transport × env.World
  -- the slots closed since the last call, with the reasons
  pub consume_close_events : Transport → List (ℕ × ChannelCloseReason) × Transport
  pub session_degraded : Transport → Bool
  pub clear_session_degraded : Transport → Transport

-- All that the tunnel is built on. `take_stats` is the wait of 5 ms for the mutex of the statistics.
pub record TunnelApi (env : Env) (api : RingApi) : Type 1 where
  pub session : SessionApi env
  pub pump : PumpApi env api
  pub ends : EndpointApi env
  pub take_stats : env.World → Bool × env.World

-- The pump keeps the invariant of the manager.
pub record TunnelLaws (env : Env) (api : RingApi) (host : TunnelApi env api) : Type 0 where
  pub pump_all-IsValid :
      (m : Channels env api) (t : host.pump.Transport) (w : env.World)
      → IsValid env api m
      → IsValid env api (host.pump.pump_all m t w).0
