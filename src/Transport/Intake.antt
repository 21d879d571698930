-- ===== src/Transport/Intake.antt =====
-- `pumpSshTransport` (src/ssh_transport.cpp), the first phase of the pump, on one slot and under the
-- session's lock: what the SSH channel has is read into the toLocal ring. The Boolean that goes along is
-- `anyReadDone`.
pub mod Order
use esp_reverse_tunneling_li.Prelude.{
  ℕ, zero, suc, ◌+◌, ◌-◌, ◌/◌, min, Bool, true, false, ◌&&◌, Option, none, some, List, [], ◌∷◌, ltb,
  ◌==◌, if◌then◌else◌, length, add32, mul32,
}
use esp_reverse_tunneling_li.DataRing
use esp_reverse_tunneling_li.DataRing.{DataRing}
use esp_reverse_tunneling_li.RingApi.{RingApi}
use esp_reverse_tunneling_li.Env.{Env, ReadResult}
use esp_reverse_tunneling_li.Channel.{Slot, begin_close, is_open, error}
use esp_reverse_tunneling_li.Transport.{Pump, backpressure_low_pct, backpressure_high_pct}

module _ (env : Env) (api : RingApi) (buf_size : ℕ) where
  abbrev pub put_ring : Pump env api → DataRing api.Ring → Pump env api
  put_ring p d = record p { slot = record p.slot { to_local = some d } }

  -- Bytes from the channel: what the ring does not take is counted as dropped.
  unfoldable pub store : Pump env api → DataRing api.Ring → List ℕ → Pump env api
  store p d bytes =
      let (n, d') = DataRing.write api d bytes in
      let (now, w) = env.millis p.world in
      record p {
        moved = add32 p.moved n;
        slot = record p.slot {
          to_local = some d';
          total_bytes_received = add32 p.slot.total_bytes_received n;
          total_bytes_dropped = add32 p.slot.total_bytes_dropped (length bytes - n);
          last_successful_read = now;
          last_activity = now;
          eagain_count = 0;
          first_eagain_ms = 0;
          consecutive_errors = 0;
        };
        world = w;
      }

  -- A failed read: it is counted, and after more than three in a row an open slot begins to close.
  unfoldable pub count_error : Pump env api → Pump env api
  count_error p =
      let s = record p.slot { consecutive_errors = p.slot.consecutive_errors + 1 } in
      let (closing, w) = begin_close env api s error p.world in
      if ltb 3 s.consecutive_errors && is_open s.state
      then record p { slot = closing; world = w }
      else record p { slot = s }

  abbrev pub set_remote_eof : Pump env api → Pump env api
  set_remote_eof p = record p { slot = record p.slot { remote_eof = true } }

  abbrev pub set_read_paused : Bool → Pump env api → Pump env api
  set_read_paused paused p = record p { slot = record p.slot { ssh_read_paused = paused } }

  -- More than 75 % full, and less than 25 % full.
  abbrev pub is_high : DataRing api.Ring → Bool
  is_high d = ltb (mul32 d.capacity backpressure_high_pct / 100) (DataRing.size api d)

  abbrev pub is_low : DataRing api.Ring → Bool
  is_low d = ltb (DataRing.size api d) (mul32 d.capacity backpressure_low_pct / 100)

  -- The small read of a paused channel, which lets libssh2 process what came in for the others.
  unfoldable pub small_read : ℕ → DataRing api.Ring → Bool × Pump env api → Bool × Pump env api
  unfolding store count_error
  small_read channel d (any, p) =
      let free = DataRing.available api d in
      let (result, w) = env.channel_read channel (min free 64) p.world in
      let asked = record p { world = w } in
      if free == 0 then (any, p) else elim result [
        | ReadResult.got bytes ↦ (true, store asked d bytes)
        | ReadResult.eof ↦ (true, set_remote_eof asked)
        | ReadResult.failed ↦ (true, count_error asked)
        | ReadResult.again ↦ (true, asked)
      ]

  -- `for (attempt = 0; attempt < 4; attempt++)`, with the attempts that are left.
  unfoldable pub read_loop : ℕ → ℕ → DataRing api.Ring → Bool × Pump env api → Bool × Pump env api
  unfolding store count_error
  read_loop zero channel d (any, p) = (any, put_ring p d)
  read_loop (suc attempts) channel d (any, p) =
      let free = DataRing.available api d in
      let (result, w) = env.channel_read channel (min free buf_size) p.world in
      let asked = record p { world = w } in
      if free == 0 then (any, put_ring (set_read_paused true p) d) else elim result [
        | ReadResult.got bytes ↦
            let d' = (DataRing.write api d bytes).1 in
            elim (is_high d') [
              | true ↦ (true, set_read_paused true (store asked d bytes))
              | false ↦ read_loop attempts channel d' (true, store asked d bytes)
            ]
        | ReadResult.again ↦ (true, put_ring asked d)
        | ReadResult.eof ↦ (true, put_ring (set_remote_eof asked) d)
        | ReadResult.failed ↦ (true, count_error (put_ring asked d))
      ]

  -- `libssh2_channel_eof`, unless the flag is set.
  unfoldable pub check_eof : ℕ → Pump env api → Pump env api
  check_eof channel p =
      let (is_eof, w) = env.channel_eof channel p.world in
      if p.slot.remote_eof
      then p
      else if is_eof
      then set_remote_eof (record p { world = w })
      else record p { world = w }

  unfoldable pub read_chunks : ℕ → DataRing api.Ring → Bool × Pump env api → Bool × Pump env api
  read_chunks channel d s = let (any, p) = read_loop 4 channel d s in (any, check_eof channel p)

  -- A channel that has not ended. A paused one goes on once its ring is low.
  unfoldable pub intake_live : ℕ → DataRing api.Ring → Bool × Pump env api → Bool × Pump env api
  intake_live channel d (any, p) =
      if p.slot.ssh_read_paused
      then if is_low d
        then read_chunks channel d (any, set_read_paused false p)
        else small_read channel d (any, p)
      else read_chunks channel d (any, p)

  -- A slot with a channel. At its end one read is made for the others, and what it gives is left. Without
  -- its ring a slot neither reads nor goes on.
  unfoldable pub intake_channel :
      Option ℕ → Option (DataRing api.Ring) → Bool × Pump env api → Bool × Pump env api
  intake_channel none ring s = s
  intake_channel (some channel) none (any, p) =
      if p.slot.remote_eof
      then (true, record p { world = (env.channel_read channel 64 p.world).1 })
      else (any, p)
  intake_channel (some channel) (some d) (any, p) =
      if p.slot.remote_eof
      then (true, record p { world = (env.channel_read channel 64 p.world).1 })
      else intake_live channel d (any, p)

  -- The body of the loop over the slots.
  unfoldable pub intake : Bool × Pump env api → Bool × Pump env api
  intake (any, p) =
      if p.slot.active then intake_channel p.slot.ssh_channel p.slot.to_local (any, p) else (any, p)

  -- The loop behind it, when nothing was read: one byte is asked of the first channel at its end.
  unfoldable pub fallback : List (Slot env api) → env.World → env.World
  fallback [] w = w
  fallback (s ∷ ss) w = elim s.ssh_channel [
    | none ↦ fallback ss w
    | some channel ↦
        if s.active && s.remote_eof then (env.channel_read channel 1 w).1 else fallback ss w
  ]
