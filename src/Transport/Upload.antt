-- ===== src/Transport/Upload.antt =====
-- `drainLocalToSsh` (src/ssh_transport.cpp), the third phase of the pump, on one slot: the bytes of the
-- toRemote ring are written to the SSH channel, and then what the local socket has is read into the ring.
pub mod Order
pub mod Sending
pub mod Receiving
pub mod Whole
use esp_reverse_tunneling_li.Prelude.{
  ℕ, zero, suc, ◌+◌, ◌-◌, ◌/◌, min, Bool, true, false, not, ◌&&◌, ◌||◌, Option, none, some, List,
  ltb, ◌==◌, if◌then◌else◌, length, drop, add32, sub32, mul32,
}
use esp_reverse_tunneling_li.DataRing
use esp_reverse_tunneling_li.DataRing.{DataRing}
use esp_reverse_tunneling_li.RingApi.{RingApi}
use esp_reverse_tunneling_li.Env.{Env, ReadResult, WriteResult}
use esp_reverse_tunneling_li.Channel.{begin_close, is_open, error}
use esp_reverse_tunneling_li.Transport.{
  Pump, restore_unsent, account_restore_drop, max_write_per_channel, eagain_stall_timeout_ms,
  backpressure_low_pct, backpressure_high_pct,
}

module _ (env : Env) (api : RingApi) (buf_size : ℕ) where
  -- The slot with its toRemote ring as it is now.
  abbrev pub put_ring : Pump env api → DataRing api.Ring → Pump env api
  put_ring p d = record p { slot = record p.slot { to_remote = some d } }

  -- Unwritten bytes go back in front, and those that do not fit are counted as dropped.
  unfoldable pub give_back : Pump env api → DataRing api.Ring → List ℕ → Pump env api
  give_back p d bytes =
      let (restored, d') = restore_unsent api d bytes in
      record p {
        slot = record p.slot {
          to_remote = some d';
          total_bytes_dropped =
              account_restore_drop p.slot.total_bytes_dropped (length bytes) restored;
        };
      }

  -- The channel took `n` of the bytes: the counters afterwards.
  unfoldable pub written : Pump env api → ℕ → Pump env api
  written p n =
      let (now, w) = env.millis p.world in
      record p {
        moved = add32 p.moved n;
        slot = record p.slot {
          total_bytes_sent = add32 p.slot.total_bytes_sent n;
          last_successful_write = now;
          last_activity = now;
          eagain_count = 0;
          first_eagain_ms = 0;
          consecutive_errors = 0;
        };
        world = w;
      }

  -- The channel asks to be tried again: it is counted, and the stall timer starts unless it runs.
  unfoldable pub count_eagain : Pump env api → Pump env api
  count_eagain p =
      let (now, w) = env.millis p.world in
      let s = record p.slot { eagain_count = p.slot.eagain_count + 1 } in
      if s.first_eagain_ms == 0
      then record p { slot = record s { first_eagain_ms = now }; world = w }
      else record p { slot = s }

  -- A failed write: it is counted, and after more than three in a row an open slot begins to close.
  unfoldable pub count_error : Pump env api → Pump env api
  count_error p =
      let s = record p.slot { consecutive_errors = p.slot.consecutive_errors + 1 } in
      let (closing, w) = begin_close env api s error p.world in
      if ltb 3 s.consecutive_errors && is_open s.state
      then record p { slot = closing; world = w }
      else record p { slot = s }

  -- `while (budget > 0 && !empty && !hitEagain)`. A round that goes on has used up a byte of the budget
  -- at least.
  unfoldable pub write_loop : ℕ → ℕ → ℕ → DataRing api.Ring → Pump env api → Pump env api
  unfolding give_back written count_eagain count_error
  write_loop zero budget channel d p = put_ring p d
  write_loop (suc fuel) budget channel d p =
      let (out, d') = DataRing.read api d (min budget buf_size) in
      let (result, w) = env.channel_write channel out p.world in
      let sent_to = record p { world = w } in
      if budget == 0 || DataRing.is_empty api d
      then put_ring p d
      else if length out == 0
      then put_ring p d'
      else elim result [
        | WriteResult.sent n ↦ elim (ltb n (length out)) [
          | true ↦ give_back (written sent_to n) d' (drop n out)
          | false ↦ write_loop fuel (budget - n) channel d' (written sent_to n)
        ]
        | WriteResult.failed ↦ count_error (give_back sent_to d' out)
        | WriteResult.again ↦ count_eagain (give_back sent_to d' out)
      ]

  -- A channel that has asked to be tried again for 3 s begins to close, if it is open.
  unfoldable pub check_stall : Pump env api → Pump env api
  check_stall p =
      let (now, w1) = env.millis p.world in
      let (s, w2) =
        if is_open p.slot.state then begin_close env api p.slot error w1 else (p.slot, w1) in
      let (rearmed, w3) = env.millis w2 in
      if ltb 0 p.slot.first_eagain_ms
      then if ltb eagain_stall_timeout_ms (sub32 now p.slot.first_eagain_ms)
        then record p { slot = record s { first_eagain_ms = rearmed }; world = w3 }
        else record p { world = w1 }
      else p

  -- Step A: under the session's lock, unless it cannot be had within 20 ms. The budget and one more round
  -- are enough for the loop.
  unfoldable pub write_ring : ℕ → Option (DataRing api.Ring) → Pump env api → Pump env api
  write_ring channel none p = p
  write_ring channel (some d) p =
      let (locked, w) = env.lock 20 p.world in
      let q =
        write_loop (max_write_per_channel + 1) max_write_per_channel channel d
          (record p { world = w }) in
      if DataRing.is_empty api d
      then p
      else if locked
      then check_stall (record q { world = env.unlock q.world })
      else record p { world = w }

  -- Reading from the socket pauses above 75 % and goes on below 25 %.
  unfoldable pub paused_next : DataRing api.Ring → Bool → Bool
  paused_next d paused =
      let used = DataRing.size api d in
      if paused
      then not (ltb used (mul32 d.capacity backpressure_low_pct / 100))
      else ltb (mul32 d.capacity backpressure_high_pct / 100) used

  unfoldable pub set_paused : Option (DataRing api.Ring) → Pump env api → Pump env api
  set_paused none p = p
  set_paused (some d) p = record p {
    slot = record p.slot { local_read_paused = paused_next d p.slot.local_read_paused };
  }

  -- Bytes from the socket: what the ring does not take is counted as dropped.
  unfoldable pub received : Pump env api → DataRing api.Ring → List ℕ → Pump env api
  received p d bytes =
      let (n, d') = DataRing.write api d bytes in
      let (now, w) = env.millis p.world in
      record p {
        moved = add32 p.moved n;
        slot = record p.slot {
          to_remote = some d';
          total_bytes_dropped = add32 p.slot.total_bytes_dropped (length bytes - n);
          last_activity = now;
        };
        world = w;
      }

  -- `for (attempt = 0; attempt < 3 && ...; ++attempt)`, with the attempts that are left.
  unfoldable pub receive_loop : ℕ → ℕ → DataRing api.Ring → Pump env api → Pump env api
  unfolding received
  receive_loop zero fd d p = put_ring p d
  receive_loop (suc attempts) fd d p =
      let free = DataRing.available api d in
      let (result, w) = env.socket_recv fd (min free buf_size) p.world in
      let asked = record p { world = w } in
      if p.slot.local_eof || p.slot.local_read_paused
      then put_ring p d
      else if free == 0
      then put_ring (record p { slot = record p.slot { local_read_paused = true } }) d
      else elim result [
        | ReadResult.got bytes ↦
            receive_loop attempts fd (DataRing.write api d bytes).1 (received asked d bytes)
        | ReadResult.eof ↦ put_ring (record asked { slot = record p.slot { local_eof = true } }) d
        | ReadResult.failed ↦
            put_ring (record asked { slot = record p.slot { local_eof = true } }) d
        | ReadResult.again ↦ put_ring asked d
      ]

  -- Step B, with its condition.
  unfoldable pub receive : Option ℕ → Option (DataRing api.Ring) → Pump env api → Pump env api
  receive none ring p = p
  receive (some fd) none p = p
  receive (some fd) (some d) p =
      if p.slot.local_eof || p.slot.local_read_paused || ltb 0 p.slot.eof_sent_ms
      then p
      else receive_loop 3 fd d p

  -- The flag for the state of the ring, and step B.
  unfoldable pub read_local : Pump env api → Pump env api
  read_local q =
      let r = set_paused q.slot.to_remote q in receive r.slot.local_socket r.slot.to_remote r

  unfoldable pub upload_channel :
      Option ℕ → Option (DataRing api.Ring) → Pump env api → Pump env api
  upload_channel none ring p = p
  upload_channel (some channel) ring p =
      if ltb 0 p.slot.eof_sent_ms then p else read_local (write_ring channel ring p)

  -- The body of the loop over the slots.
  unfoldable pub upload : Pump env api → Pump env api
  upload p = if p.slot.active then upload_channel p.slot.ssh_channel p.slot.to_remote p else p
