-- ===== src/Transport/Closes.antt =====
-- `checkCloses` (src/ssh_transport.cpp), the fourth phase of the pump: which slots begin to close, which
-- have drained, and which are given up.
pub mod Verdicts
pub mod Validity
pub mod Timely
pub mod Deadline
mod Tests
use esp_reverse_tunneling_li.Prelude.{
  ℕ, zero, suc, ◌+◌, min, Bool, true, not, ◌&&◌, ◌||◌, Option, none, some, List, [], ◌∷◌, ◌++◌, ltb,
  leb, ◌==◌, if◌then◌else◌, length, get_elem?, set, sub32,
}
use esp_reverse_tunneling_li.ChannelTimeout
use esp_reverse_tunneling_li.DataRing
use esp_reverse_tunneling_li.DataRing.{DataRing}
use esp_reverse_tunneling_li.RingApi.{RingApi}
use esp_reverse_tunneling_li.Env.{Env, ReadResult}
use esp_reverse_tunneling_li.Channel.{
  Slot, ChannelCloseReason, remote_closed, local_closed, error, timeout, begin_close, is_open,
  is_draining,
}
use esp_reverse_tunneling_li.Channel.Manager.{Channels, abandon_slot, finalize_close}

abbrev pub drain_timeout_ms : ℕ
drain_timeout_ms = 15000

abbrev pub hard_abandon_timeout_ms : ℕ
hard_abandon_timeout_ms = 30000

abbrev pub half_close_timeout_ms : ℕ
half_close_timeout_ms = 5000

abbrev pub eof_grace_ms : ℕ
eof_grace_ms = 200

abbrev pub max_close_events : ℕ
max_close_events = 32

-- What is to be done with a slot in the second step.
pub data Verdict : Type 0 where
  wait send_eof finalize abandon : Verdict

-- The second step's state: the channels, the world, `sessionDegraded_`, the close events, and the slots to
-- send an end to and to close, in order.
pub record Scan (env : Env) (api : RingApi) : Type 0 where
  pub channels : Channels env api
  pub world : env.World
  pub degraded : Bool
  pub events : List (ℕ × ChannelCloseReason)
  pub to_send_eof : List ℕ
  pub to_close : List ℕ

-- An append to an array with room for so many.
abbrev pub push_below {ℓ} : {A : Type ℓ} → ℕ → List A → A → List A
push_below room xs x = if ltb (length xs) room then xs ++ (x ∷ []) else xs

module _ (env : Env) (api : RingApi) where
  -- `!ring || ring->empty()`
  unfoldable pub drained : Option (DataRing api.Ring) → Bool
  drained none = true
  drained (some d) = DataRing.is_empty api d

  -- The end of the SSH side is passed on to the local socket, once.
  unfoldable pub shut_local : Option ℕ → Slot env api → env.World → Slot env api × env.World
  shut_local none s w = (s, w)
  shut_local (some fd) s w =
      if s.remote_eof && not s.local_shutdown_sent && drained s.to_remote
      then (record s { local_shutdown_sent = true }, env.socket_shutdown fd w)
      else (s, w)

  -- The second part of the first step: time-outs.
  unfoldable pub time_out : ℕ → ℕ → Slot env api → env.World → Slot env api × env.World
  time_out now timeout_ms s w =
      if s.remote_eof
        && not s.local_eof
        && ltb 0 s.last_activity
        && ltb half_close_timeout_ms (sub32 now s.last_activity)
        && drained s.to_remote
      then begin_close env api s remote_closed w
      else if ChannelTimeout.expired now s.last_activity timeout_ms
      then begin_close env api s timeout w
      else (s, w)

  -- The first step on one slot.
  unfoldable pub transition : ℕ → ℕ → Slot env api → env.World → Slot env api × env.World
  unfolding drained shut_local time_out
  transition now timeout_ms s w =
      let (s1, w1) = shut_local s.local_socket s w in
      if not s.active || not (is_open s.state)
      then (s, w)
      else if s.remote_eof && s.local_eof
      then begin_close env api s remote_closed w
      else if s.local_eof && not s.remote_eof && drained s.to_remote
      then begin_close env api s local_closed w
      else if ltb 5 s.consecutive_errors
      then begin_close env api s error w
      else time_out now timeout_ms s1 w1

  unfoldable pub transitions :
      ℕ → ℕ → List (Slot env api) → env.World → List (Slot env api) × env.World
  unfolding transition
  transitions now timeout_ms [] w = ([], w)
  transitions now timeout_ms (s ∷ ss) w =
      let (s', w1) = transition now timeout_ms s w in
      let (ss', w2) = transitions now timeout_ms ss w1 in (s' ∷ ss', w2)

  -- The decision of the second step on one slot.
  unfoldable pub verdict : ℕ → Slot env api → Verdict
  unfolding drained
  verdict now s =
      let elapsed = sub32 now s.close_start_ms in
      if not s.active || not (is_draining s.state)
      then Verdict.wait
      else if ltb hard_abandon_timeout_ms elapsed
      then Verdict.abandon
      else if ltb drain_timeout_ms elapsed || ltb 3 s.consecutive_errors
      then Verdict.finalize
      else if drained s.to_local && drained s.to_remote
      then if s.eof_sent_ms == 0
        then Verdict.send_eof
        else if leb eof_grace_ms (sub32 now s.eof_sent_ms)
        then Verdict.finalize
        else Verdict.wait
      else Verdict.wait

  -- What the second step does with slot `i`; the arrays have room for `size` entries.
  unfoldable pub act : ℕ → ℕ → Slot env api → Verdict → Scan env api → Scan env api
  act size i s Verdict.wait c = c
  act size i s Verdict.send_eof c = record c { to_send_eof = push_below size c.to_send_eof i }
  act size i s Verdict.finalize c = record c { to_close = push_below size c.to_close i }
  act size i s Verdict.abandon c =
      let (m, w) = abandon_slot env api c.channels i c.world in
      record c {
        channels = m;
        world = w;
        degraded = true;
        events = push_below max_close_events c.events (i, s.close_reason);
      }

  -- The loop of the second step, with the count of slots that are left and the index of the next.
  unfoldable pub scan : ℕ → ℕ → ℕ → ℕ → Scan env api → Scan env api
  unfolding verdict act
  scan zero i now size c = c
  scan (suc n) i now size c = elim (get_elem? c.channels.slots i) [
    | none ↦ c
    | some s ↦ scan n (suc i) now size (act size i s (verdict now s) c)
  ]

  -- Bytes that came while the end was sent are put in the toLocal ring.
  unfoldable pub keep_pumped : Option (DataRing api.Ring) → List ℕ → Slot env api → Slot env api
  keep_pumped none bytes s = s
  keep_pumped (some d) bytes s = record s { to_local = some (DataRing.write api d bytes).1 }

  -- Four reads at most, to flush what libssh2 holds back.
  unfoldable pub flush : ℕ → ℕ → Slot env api → env.World → Slot env api × env.World
  unfolding keep_pumped
  flush zero channel s w = (s, w)
  flush (suc n) channel s w =
      let (result, w') = env.channel_read channel 512 w in
      elim result [
        | ReadResult.got bytes ↦ flush n channel (keep_pumped s.to_local bytes s) w'
        | _ ↦ (s, w')
      ]

  -- The end is sent on one slot, unless libssh2 asks to be tried again.
  unfoldable pub send_eof_to : Option ℕ → Slot env api → env.World → Slot env api × env.World
  unfolding flush
  send_eof_to none s w = (s, w)
  send_eof_to (some channel) s w =
      let (is_eagain, w1) = env.channel_send_eof channel w in
      let (s', w2) = flush 4 channel s w1 in
      let (now, w3) = env.millis w2 in
      if is_eagain then (s, w1) else (record s' { eof_sent_ms = now }, w3)

  unfoldable pub send_eofs : List ℕ → Channels env api → env.World → Channels env api × env.World
  unfolding send_eof_to
  send_eofs [] m w = (m, w)
  send_eofs (i ∷ is) m w = elim (get_elem? m.slots i) [
    | none ↦ send_eofs is m w
    | some s ↦
        let (s', w') = send_eof_to s.ssh_channel s w in
        send_eofs is (record m { slots = set m.slots i s' }) w'
  ]

  -- The slots are finalized, and an event is noted for each one that could be.
  unfoldable pub finalizes : List ℕ → Scan env api → Scan env api
  finalizes [] c = c
  finalizes (i ∷ is) c = elim (get_elem? c.channels.slots i) [
    | none ↦ finalizes is c
    | some s ↦
        let (done, m, w) = finalize_close env api c.channels i c.world in
        finalizes is (record c {
          channels = m;
          world = w;
          events =
              if done then push_below max_close_events c.events (i, s.close_reason) else c.events;
        })
  ]

  -- Step 2a under the session's lock.
  unfoldable pub send_step : Scan env api → Scan env api
  unfolding send_eofs
  send_step c =
      let (locked, w) = env.lock 100 c.world in
      let (m, w') = send_eofs c.to_send_eof c.channels w in
      if length c.to_send_eof == 0
      then c
      else if locked
      then record c { channels = m; world = env.unlock w' }
      else record c { world = w }

  -- Step 2b under the session's lock.
  unfoldable pub finalize_step : Scan env api → Scan env api
  unfolding finalizes
  finalize_step c =
      let (locked, w) = env.lock 200 c.world in
      let c' = finalizes c.to_close (record c { world = w }) in
      if length c.to_close == 0
      then c
      else if locked
      then record c' { world = env.unlock c'.world }
      else record c { world = w }

  -- The first step on all slots, and the state that the second starts from.
  unfoldable pub first_step :
      ℕ → Channels env api → Bool → List (ℕ × ChannelCloseReason) → env.World → Scan env api
  unfolding transitions
  first_step timeout_ms m degraded events w =
      let (now, w1) = env.millis w in
      let (slots, w2) = transitions now timeout_ms m.slots w1 in
      record {
        channels = record m { slots = slots };
        world = w2;
        degraded = degraded;
        events = events;
        to_send_eof = [];
        to_close = [];
      }

  -- The second step up to the calls of libssh2.
  unfoldable pub scan_step : ℕ → Scan env api → Scan env api
  unfolding scan
  scan_step slots c =
      let (now, w) = env.millis c.world in scan slots 0 now (min slots 32) (record c { world = w })

  -- The whole phase, with the channel timeout, `sessionDegraded_` and the events so far.
  unfoldable pub check_closes :
      ℕ → Channels env api → Bool → List (ℕ × ChannelCloseReason) → env.World → Scan env api
  unfolding first_step scan_step send_step finalize_step
  check_closes timeout_ms m degraded events w =
      finalize_step
        (send_step (scan_step (length m.slots) (first_step timeout_ms m degraded events w)))
