-- ===== src/Tunnel/Calls.antt =====
-- Any sequence of public calls on the tunnel (src/ssh_tunnel.h).
use esp_reverse_tunneling_li.Prelude.{◌≡◌, refl, ◌≢◌, ◌⊎◌, inl, inr, List, [], ◌∷◌}
use esp_reverse_tunneling_li.Env.{Env}
use esp_reverse_tunneling_li.Ledger.{Ledger}
use esp_reverse_tunneling_li.RingApi.{RingApi}
use esp_reverse_tunneling_li.TunnelApi.{TunnelApi, TunnelLaws}
use esp_reverse_tunneling_li.Channel.Endpoint.{EndpointLaws}
use esp_reverse_tunneling_li.Tunnel.{
  TunnelState, disconnected, connecting, connected, error_state, Tunnel,
}
use esp_reverse_tunneling_li.Tunnel.Teardown.{
  connect_in, connect_ssh, request_in, request_reconnect, disconnect,
}
use esp_reverse_tunneling_li.Tunnel.Loop.{loop}
use esp_reverse_tunneling_li.Tunnel.Valid.{IsSound, Empty-IsSound}
use esp_reverse_tunneling_li.Tunnel.Idle.{disconnect_lem}
use esp_reverse_tunneling_li.Tunnel.Machine.{
  LoopStep, stays, fails_connected, fails_connecting, reconnects, loop-LoopStep, connect_in-Settles,
  same-IsSound,
}

pub data Call : Type 0 where
  call_connect call_disconnect call_request call_loop : Call

module _ (env : Env) (api : RingApi) (host : TunnelApi env api) where
  unfoldable pub perform : Call → Tunnel env api host → env.World → Tunnel env api host × env.World
  perform call_connect t w = let (ok, t', w') = connect_ssh env api host t w in (t', w')
  perform call_disconnect t w = disconnect env api host t w
  perform call_request t w = request_reconnect env api host t w
  perform call_loop t w = loop env api host t w

  unfoldable pub run : List Call → Tunnel env api host → env.World → Tunnel env api host × env.World
  unfolding perform
  run [] t w = (t, w)
  run (c ∷ cs) t w = let (t', w') = perform c t w in run cs t' w'

  -- What holds between two calls: the invariant, and the state is not CONNECTING.
  pub record Rests (t : Tunnel env api host) : Type 0 where
    pub sound : IsSound t
    pub settled : t.state ≢ connecting

  module _ (led : Ledger env) (ends : EndpointLaws env host.ends led)
      (laws : TunnelLaws env api host) where
    at_rest : (s s' : TunnelState) → s ≢ connecting → LoopStep s s' → s' ≢ connecting
    at_rest s s' n (stays _) = n
    at_rest connected error_state n fails_connected = λ e. cc
    at_rest connecting error_state n fails_connecting = λ e. cc
    at_rest error_state connected n reconnects = λ e. cc

    settled_not_connecting :
        (s : TunnelState) → (s ≡ connected) ⊎ (s ≡ error_state) → s ≢ connecting
    settled_not_connecting s (inl e) = rw e (λ f. cc)
    settled_not_connecting s (inr e) = rw e (λ f. cc)

    request_in-Rests :
        (s : TunnelState) (t : Tunnel env api host) (w : env.World)
        → Rests t
        → Rests (request_in env api host s t w).0
    unfolding request_in
    request_in-Rests disconnected t w r = record {
      sound = same-IsSound env api host led ends laws t _ r.sound.valid refl refl r.sound;
      settled = λ e. cc;
    }
    request_in-Rests connecting t w r = r
    request_in-Rests connected t w r = r
    request_in-Rests error_state t w r = r

    perform-Rests :
        (c : Call) (t : Tunnel env api host) (w : env.World) → Rests t → Rests (perform c t w).0
    unfolding perform connect_ssh request_reconnect
    perform-Rests call_connect t w r =
        let s = connect_in-Settles env api host led ends laws t.state t w refl r.sound in
        record {
          sound = s.sound;
          settled = settled_not_connecting (connect_in env api host t.state t w).1.state s.state;
        }
    perform-Rests call_disconnect t w r =
        let (s, e, z) = disconnect_lem env api host t w r.sound.valid in
        record {
          sound = Empty-IsSound env api host (disconnect env api host t w).0 e;
          settled = rw s (λ f. cc);
        }
    perform-Rests call_request t w r = request_in-Rests t.state t w r
    perform-Rests call_loop t w r =
        let (v, s) = loop-LoopStep env api host led ends laws t w r.sound in
        record { sound = v; settled = at_rest t.state (loop env api host t w).0.state r.settled s }

    -- After any sequence of `connectSSH`, `disconnect`, `requestReconnect` and `loop`, whatever the session,
    -- the pump, the clock, libssh2 and the endpoints do: the manager is valid, the queues are within
    -- their limits of 8 and 4, and the state is not CONNECTING, if that held before.
    pub run-Rests :
        (cs : List Call) (t : Tunnel env api host) (w : env.World) → Rests t → Rests (run cs t w).0
    unfolding run
    run-Rests [] t w r = r
    run-Rests (c ∷ cs) t w r =
        let (t', w') = perform c t w in run-Rests cs t' w' (perform-Rests c t w r)
