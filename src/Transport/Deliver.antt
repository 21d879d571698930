-- ===== src/Transport/Deliver.antt =====
-- `drainSshToLocal` (src/ssh_transport.cpp), the second phase of the pump, on one slot: the bytes of the
-- toLocal ring are sent to the local socket, and what the socket does not take goes back in front.
pub mod Order
use esp_reverse_tunneling_li.Prelude.{
  ℕ, zero, suc, min, true, false, not, ◌&&◌, Option, none, some, List, ltb, ◌==◌, if◌then◌else◌,
  length, drop, add32, sub32,
}
use esp_reverse_tunneling_li.DataRing
use esp_reverse_tunneling_li.DataRing.{DataRing}
use esp_reverse_tunneling_li.RingApi.{RingApi}
use esp_reverse_tunneling_li.Env.{Env, WriteResult}
use esp_reverse_tunneling_li.Channel.{begin_close, is_open, error}
use esp_reverse_tunneling_li.Transport.{
  Pump, restore_unsent, account_restore_drop, local_send_stall_timeout_ms,
}

module _ (env : Env) (api : RingApi) (buf_size : ℕ) where
  -- The slot with its toLocal ring as it is now.
  abbrev pub put_ring : Pump env api → DataRing api.Ring → Pump env api
  put_ring p d = record p { slot = record p.slot { to_local = some d } }

  -- Unsent bytes go back in front, and those that do not fit are counted as dropped.
  unfoldable pub give_back : Pump env api → DataRing api.Ring → List ℕ → Pump env api
  give_back p d bytes =
      let (restored, d') = restore_unsent api d bytes in
      record p {
        slot = record p.slot {
          to_local = some d';
          total_bytes_dropped =
              account_restore_drop p.slot.total_bytes_dropped (length bytes) restored;
        };
      }

  -- The socket took `n` of the bytes: the counters afterwards.
  unfoldable pub delivered : Pump env api → ℕ → Pump env api
  delivered p n =
      let (now, w) = env.millis p.world in
      record p {
        moved = add32 p.moved n;
        slot = record p.slot { last_activity = now; first_local_send_eagain_ms = 0 };
        world = w;
      }

  -- The send failed: the bytes are lost, and the socket counts as closed.
  unfoldable pub send_failed : Pump env api → DataRing api.Ring → ℕ → Pump env api
  send_failed p d got = record p {
    slot = record p.slot {
      to_local = some d;
      total_bytes_dropped = add32 p.slot.total_bytes_dropped got;
      local_eof = true;
    };
  }

  -- The socket is busy: the stall timer starts unless it runs.
  unfoldable pub start_stall : Pump env api → Pump env api
  start_stall p =
      let (now, w) = env.millis p.world in
      if p.slot.first_local_send_eagain_ms == 0
      then record p { slot = record p.slot { first_local_send_eagain_ms = now }; world = w }
      else p

  -- `for (attempt = 0; attempt < 4; ++attempt)`, with the attempts that are left.
  unfoldable pub deliver_loop : ℕ → ℕ → DataRing api.Ring → Pump env api → Pump env api
  unfolding give_back delivered send_failed start_stall
  deliver_loop zero fd d p = put_ring p d
  deliver_loop (suc attempts) fd d p =
      let (out, d') = DataRing.read api d (min (DataRing.size api d) buf_size) in
      let (result, w) = env.socket_send fd out p.world in
      let sent_to = record p { world = w } in
      if DataRing.is_empty api d
      then put_ring p d
      else if length out == 0
      then put_ring p d'
      else elim result [
        | WriteResult.sent n ↦ elim (ltb n (length out)) [
          | true ↦ give_back (delivered sent_to n) d' (drop n out)
          | false ↦ deliver_loop attempts fd d' (delivered sent_to n)
        ]
        | WriteResult.failed ↦ send_failed sent_to d' (length out)
        | WriteResult.again ↦ start_stall (give_back sent_to d' out)
      ]

  -- A local socket that has taken nothing for 8 s while there is something to send is given up.
  unfoldable pub check_stall : DataRing api.Ring → Pump env api → Pump env api
  check_stall d p =
      let (now, w1) = env.millis p.world in
      let (s, w2) =
        if is_open p.slot.state then begin_close env api p.slot error w1 else (p.slot, w1) in
      let (rearmed, w3) = env.millis w2 in
      if ltb 0 p.slot.first_local_send_eagain_ms && not (DataRing.is_empty api d)
      then if ltb local_send_stall_timeout_ms (sub32 now p.slot.first_local_send_eagain_ms)
        then record p { slot = record s { first_local_send_eagain_ms = rearmed }; world = w3 }
        else record p { world = w1 }
      else p

  unfoldable pub check_ring : Option (DataRing api.Ring) → Pump env api → Pump env api
  check_ring none p = p
  check_ring (some d) p = check_stall d p

  unfoldable pub deliver_ring : Option ℕ → Option (DataRing api.Ring) → Pump env api → Pump env api
  deliver_ring none ring p = p
  deliver_ring (some fd) none p = p
  deliver_ring (some fd) (some d) p =
      let p' = deliver_loop 4 fd d p in check_ring p'.slot.to_local p'

  -- The body of the loop over the slots.
  unfoldable pub deliver : Pump env api → Pump env api
  deliver p = if p.slot.active then deliver_ring p.slot.local_socket p.slot.to_local p else p
