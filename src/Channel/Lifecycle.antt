-- ===== src/Channel/Lifecycle.antt =====
-- How a slot goes from open to draining to closed.
use esp_reverse_tunneling_li.Prelude.{
  ℕ, ◌≡◌, refl, inl, inr, true, not, ◌&&◌, ◌||◌, some, arith, if◌then◌else◌, Bool-cases,
}
use esp_reverse_tunneling_li.Env.{Env, EnvLaws, Port}
use esp_reverse_tunneling_li.RingApi.{RingApi}
use esp_reverse_tunneling_li.CloseProgress
use esp_reverse_tunneling_li.CloseProgress.{Progress}
use esp_reverse_tunneling_li.Channel.{
  ChannelCloseReason, open_state, draining, is_open, Slot, begin_close, close_channel,
}

module _ (env : Env) (api : RingApi) where
  -- The fields of a slot that a change of its state leaves alone.
  pub record SameData (s t : Slot env api) : Type 0 where
    pub active : t.active ≡ s.active
    pub ssh_channel : t.ssh_channel ≡ s.ssh_channel
    pub local_socket : t.local_socket ≡ s.local_socket
    pub to_local : t.to_local ≡ s.to_local
    pub to_remote : t.to_remote ≡ s.to_remote
    pub local_eof : t.local_eof ≡ s.local_eof
    pub remote_eof : t.remote_eof ≡ s.remote_eof
    pub eof_sent_ms : t.eof_sent_ms ≡ s.eof_sent_ms
    pub received : t.total_bytes_received ≡ s.total_bytes_received
    pub sent : t.total_bytes_sent ≡ s.total_bytes_sent
    pub dropped : t.total_bytes_dropped ≡ s.total_bytes_dropped

  pub begin_close-SameData :
      (s : Slot env api) (reason : ChannelCloseReason) (w : env.World)
      → SameData s (begin_close env api s reason w).0
  unfolding begin_close
  begin_close-SameData s reason w = ground arith

  pub begin_close_log :
      (laws : EnvLaws env) (p : Port) (s : Slot env api) (reason : ChannelCloseReason)
      (w : env.World)
      → laws.log p (begin_close env api s reason w).1 ≡ laws.log p w
  unfolding begin_close
  begin_close_log laws p s reason w = elim (Bool-cases (not s.active || not (is_open s.state))) [
    | inl t ↦ simp t refl
    | inr t ↦ simp t (laws.millis_log p w)
  ]

  -- `beginClose` on an open slot in use makes it draining, with the reason and the time that it was given;
  -- on any other slot it does nothing, so the first reason and time stay.
  pub begin_close_lem :
      (s : Slot env api) (first second : ChannelCloseReason) (w later : env.World)
      → s.active ≡ true
      → s.state ≡ open_state
      → let (t, w') = begin_close env api s first w in
        (t.state ≡ draining)
        × (t.close_reason ≡ first)
        × (t.close_start_ms ≡ (env.millis w).0)
        × (begin_close env api t second later ≡ (t, later))
  unfolding begin_close
  begin_close_lem s first second w later a o = ground arith

  -- One attempt at the two libssh2 calls. It succeeds exactly when the close is done or succeeds now and
  -- then the free succeeds now; a done close is remembered, and so not called again.
  pub close_channel_lem :
      (channel : ℕ) (p : Progress) (w : env.World)
      → let (ready, p', _) = close_channel env api (some channel) p w in
        let close_failed = not p.close_complete && (env.channel_close channel w).0 in
        let before_free = if p.close_complete then w else (env.channel_close channel w).1 in
        (ready ≡ (not close_failed && not (env.channel_free channel before_free).0))
        × (p'.close_complete ≡ (p.close_complete || not close_failed))
  unfolding close_channel CloseProgress.record_close_result CloseProgress.record_free_result
      CloseProgress.ready_for_free CloseProgress.ready_for_finalize
  close_channel_lem channel p w = ground arith
