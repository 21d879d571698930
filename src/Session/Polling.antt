-- ===== src/Session/Polling.antt =====
-- `acceptChannel` (src/ssh_session.cpp): the listeners are polled in order until one has a channel. The
-- diagnostics behind TUNNEL_DIAG_LOG_ONLY and the texts of errors, which are only logged, are left out.
use esp_reverse_tunneling_li.Prelude.{
  ℕ, Bool, true, false, not, Option, none, some, List, [], ◌∷◌, leb, ◌==◌, if◌then◌else◌, add32,
  sub32,
}
use esp_reverse_tunneling_li.Env.{Env}
use esp_reverse_tunneling_li.AcceptError.{Codes}
use esp_reverse_tunneling_li.Config.{TunnelConfig}
use esp_reverse_tunneling_li.Session.Accept.{
  AcceptState, record_accept_success, record_accept_no_channel,
}
use esp_reverse_tunneling_li.Session.Lifecycle.{SshApi, ListenerEntry, SshSession}

module _ (env : Env) (ssh : SshApi env) where
  -- What the session notes of the answers.
  pub record Poll : Type 0 where
    pub accept : AcceptState
    pub last_log_ms : ℕ
    pub unknown_total : ℕ

  -- The body for an error code.
  unfoldable pub note_error : Codes → ℕ → Poll → env.World → Poll × env.World
  note_error codes err p w =
      let (now, w1) = env.millis w in
      let accept = record_accept_no_channel codes p.accept err in
      let total = add32 p.unknown_total 1 in
      if not (err == codes.channel_unknown)
      then (record p { accept = accept }, w)
      else if leb 1000 (sub32 now p.last_log_ms)
      then (record { accept = accept; last_log_ms = now; unknown_total = total }, w1)
      else (record p { accept = accept; unknown_total = total }, w1)

  -- One listener: no answer without the lock, or the channel, or the error.
  pub data Answer : Type 0 where
    no_lock : Answer
    channel : ℕ → Answer
    failed : ℕ → Answer

  unfoldable pub poll_locked : ℕ → ℕ → Bool × env.World → Answer × env.World
  poll_locked h l (false, w) = (no_lock, w)
  poll_locked h l (true, w) =
      let (r, w1) = ssh.forward_accept l w in
      (elim r [ some c ↦ channel c | none ↦ failed (ssh.last_errno h w1) ], env.unlock w1)

  abbrev pub Accepted : Type 0
  Accepted = Option (ℕ × TunnelConfig) × Poll × env.World

  unfoldable pub on_answer :
      (Poll → env.World → Accepted) → Codes → ListenerEntry → Poll → Answer × env.World → Accepted
  unfolding note_error
  on_answer go_on codes e p (no_lock, w) = go_on p w
  on_answer go_on codes e p (channel c, w) =
      (some (c, e.mapping), record p { accept = record_accept_success p.accept }, w)
  on_answer go_on codes e p (failed err, w) = let (p', w') = note_error codes err p w in go_on p' w'

  unfoldable pub poll_entry :
      (Poll → env.World → Accepted)
      → Codes
      → ℕ
      → ListenerEntry
      → Option ℕ
      → Poll
      → env.World
      → Accepted
  unfolding on_answer poll_locked
  poll_entry go_on codes h e none p w = go_on p w
  poll_entry go_on codes h e (some l) p w =
      on_answer go_on codes e p (poll_locked h l (env.lock 50 w))

  unfoldable pub poll_each : Codes → ℕ → List ListenerEntry → Poll → env.World → Accepted
  unfolding poll_entry
  poll_each codes h [] p w = (none, p, w)
  poll_each codes h (e ∷ es) p w =
      poll_entry (λ p' w'. poll_each codes h es p' w') codes h e e.listener p w

  abbrev pub poll_of : SshSession → Poll
  poll_of s = record {
    accept = s.accept;
    last_log_ms = s.last_channel_unknown_log_ms;
    unknown_total = s.channel_unknown_total;
  }

  abbrev pub noted : SshSession → Poll → SshSession
  noted s p = record s {
    accept = p.accept;
    last_channel_unknown_log_ms = p.last_log_ms;
    channel_unknown_total = p.unknown_total;
  }

  unfoldable pub accept_channel :
      Codes → SshSession → env.World → Option (ℕ × TunnelConfig) × SshSession × env.World
  unfolding poll_each
  accept_channel codes s w = elim s.session [
    | none ↦ (none, s, w)
    | some h ↦ let (r, p, w') = poll_each codes h s.listeners (poll_of s) w in (r, noted s p, w')
  ]
