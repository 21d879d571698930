-- ===== src/Examples.antt =====
-- Concrete things for the tests: a byte ring on a list, and a world with one socket and one channel.
pub mod Managers
use esp_reverse_tunneling_li.Prelude.{
  ℕ, zero, suc, ◌+◌, ◌-◌, ◌%◌, ◌≤◌, ◌<◌, min, ◌≡◌, refl, sym, ap, ◌∙◌, ◌⊎◌, inl, inr, Bool, true,
  false, not, Option, none, some, List, [], ◌∷◌, ◌++◌, append-nil, arith, leb, ◌==◌, if◌then◌else◌,
  le→leb, Bool-cases, length, take, drop, replicate, length-append, length-take, length-drop,
  length-replicate, take-append-drop, take_all, drop_all, word,
}
use mathlib.Core.Option.{some-injective}
use esp_reverse_tunneling_li.Prepend.{Prepend}
use esp_reverse_tunneling_li.DataRing.{DataRing, prepend_cap}
use esp_reverse_tunneling_li.DataRing
use esp_reverse_tunneling_li.DataRing.Order
use esp_reverse_tunneling_li.Prepend.Order as Front
use esp_reverse_tunneling_li.RingApi.{RingApi, RingLaws}
use esp_reverse_tunneling_li.Session.Answers.{Event}
use esp_reverse_tunneling_li.Ledger.{Deed, opened, closed, freed, times, Ledger}
use esp_reverse_tunneling_li.Channel.Endpoint.{EndpointApi, EndpointLaws, in_progress, writable}
use esp_reverse_tunneling_li.Env.{
  Env, EnvLaws, ReadResult, WriteResult, Port, failed_sends, failed_bytes, to_socket, from_socket,
  to_channel, from_channel,
}

-- The bytes in the ring and the room behind them.
pub record Fifo : Type 0 where
  pub held : List ℕ
  pub free : ℕ

abbrev pub fifo_send : Fifo → List ℕ → Bool × Fifo
fifo_send r xs =
    if leb (length xs) r.free
    then (true, record { held = r.held ++ xs; free = r.free - length xs })
    else (false, r)

abbrev pub fifo_take : List ℕ → ℕ → Option (List ℕ)
fifo_take [] n = none
fifo_take (x ∷ xs) zero = none
fifo_take (x ∷ xs) (suc n) = some (x ∷ take n xs)

abbrev pub fifo : RingApi
fifo = record {
  Ring = Fifo;
  create = λ n. some (record { held = []; free = n });
  free_size = λ r. r.free;
  send = fifo_send;
  receive_up_to = λ r n. (fifo_take r.held n, r);
  return_item = λ r item. record {
    held = drop (length item) r.held;
    free = r.free + min (length item) (length r.held);
  };
}

pub fifo_take-none : (xs : List ℕ) (n : ℕ) → fifo_take xs n ≡ none → 0 < n → xs ≡ []
fifo_take-none [] n e h = refl
fifo_take-none (x ∷ xs) zero e h = absurd (omega arith)
fifo_take-none (x ∷ xs) (suc n) e h = cc

pub fifo_take-some :
    (xs : List ℕ) (n : ℕ) (item : List ℕ)
    → fifo_take xs n ≡ some item
    → (item ++ drop (length item) xs ≡ xs) × (0 < length item) × (length item ≤ n)
fifo_take-some [] n item e = cc
fifo_take-some (x ∷ xs) zero item e = cc
fifo_take-some (x ∷ xs) (suc n) item e =
    let given : item ≡ x ∷ take n xs = sym (some-injective _ _ e) in
    rw given (
      ap (◌∷◌ x) (ap (λ k. take n xs ++ drop k xs) (length-take n xs) ∙ split),
      omega arith,
      omega (arith, length-take n xs),
    )
  where
    split : take n xs ++ drop (min n (length xs)) xs ≡ xs
    split = elim (Bool-cases (leb n (length xs))) [
      | inl t ↦ let e' : min n (length xs) ≡ n = ground (arith, t) in rw e' (take-append-drop n xs)
      | inr t ↦
          let e' : min n (length xs) ≡ length xs = ground (arith, t) in
          rw (e', drop_all (length xs) xs (omega arith), take_all n xs (ground (arith, t)))
            (append-nil xs)
    ]

unfoldable pub fifo_laws : RingLaws fifo
fifo_laws = record {
  bytes = λ r. r.held;
  size = λ r. r.free + length r.held;
  create_lem = λ n r e. let g = sym (some-injective _ _ e) in rw g (refl, omega arith);
  free_size_lem = λ r. omega arith;
  send_lem = λ r xs h k.
      rw (le→leb (length xs) r.free k) (refl, refl, omega (arith, length-append r.held xs, k));
  receive_none = λ r n e h. (fifo_take-none r.held n e h, refl);
  receive_some = λ r n item e.
      let (s, p, q) = fifo_take-some r.held n item e in
      (s, p, q, omega (arith, length-drop (length item) r.held));
}

-- A clock, and a socket and a channel, both numbered 3, that still take `room` bytes in all.
pub record World : Type 0 where
  pub clock : ℕ
  pub room : ℕ
  pub socket_out : List ℕ
  pub channel_out : List ℕ
  pub socket_in : List ℕ
  pub channel_in : List ℕ
  pub deeds : List Deed
  pub socket_failed : List ℕ
  pub polls : List Event

abbrev pub taken_of : ℕ → ℕ → List ℕ → WriteResult
taken_of port room xs =
    if not (port == 3)
    then WriteResult.failed
    else if min room (length xs) == 0
    then WriteResult.again
    else WriteResult.sent (min room (length xs))

abbrev pub sent_of : ℕ → ℕ → List ℕ → ℕ
sent_of port room xs = if port == 3 then min room (length xs) else 0

-- What a read gives, as far as it fits.
abbrev pub greeting : List ℕ
greeting = 21 ∷ 22 ∷ 23 ∷ []

abbrev pub demo : Env
demo = record {
  World = World;
  millis = λ w. (w.clock % word, record w { clock = w.clock + 1 });
  lock = λ t w. (true, w);
  unlock = λ w. w;
  channel_read = λ c n w.
      (ReadResult.got (take n greeting), record w { channel_in = w.channel_in ++ take n greeting });
  channel_write = λ c xs w. (
    taken_of c w.room xs,
    record w {
      channel_out = w.channel_out ++ take (sent_of c w.room xs) xs;
      room = w.room - sent_of c w.room xs;
    },
  );
  channel_eof = λ c w. (true, w);
  channel_send_eof = λ c w. (false, w);
  channel_close = λ c w. (false, w);
  channel_free = λ c w. (false, record w { deeds = freed c ∷ w.deeds });
  channel_set_nonblocking = λ c w. w;
  socket_send = λ s xs w. (
    taken_of s w.room xs,
    record w {
      socket_out = w.socket_out ++ take (sent_of s w.room xs) xs;
      socket_failed = w.socket_failed ++ failed_bytes (taken_of s w.room xs) xs;
      room = w.room - sent_of s w.room xs;
    },
  );
  socket_recv = λ s n w.
      (ReadResult.got (take n greeting), record w { socket_in = w.socket_in ++ take n greeting });
  socket_shutdown = λ s w. w;
  socket_close = λ s w. record w { deeds = closed s ∷ w.deeds };
}

abbrev pub demo_log : Port → World → List ℕ
demo_log (to_socket s) w = w.socket_out
demo_log (to_channel c) w = w.channel_out
demo_log (from_socket s) w = w.socket_in
demo_log (from_channel c) w = w.channel_in
demo_log (failed_sends s) w = w.socket_failed

pub taken_of-sent :
    (port room : ℕ) (xs : List ℕ) (k : ℕ)
    → taken_of port room xs ≡ WriteResult.sent k
    → (sent_of port room xs ≡ k) × (0 < k) × (k ≤ length xs)
taken_of-sent port room xs k e = ground arith

pub taken_of-none :
    (port room : ℕ) (xs : List ℕ)
    → (taken_of port room xs ≡ WriteResult.again) ⊎ (taken_of port room xs ≡ WriteResult.failed)
    → sent_of port room xs ≡ 0
taken_of-none port room xs e = ground arith

pub demo-millis_log :
    (p : Port) (w : World) → demo_log p (record w { clock = w.clock + 1 }) ≡ demo_log p w
demo-millis_log (to_socket s) w = refl
demo-millis_log (from_socket s) w = refl
demo-millis_log (to_channel s) w = refl
demo-millis_log (from_channel s) w = refl
demo-millis_log (failed_sends s) w = refl

unfoldable pub demo_laws : EnvLaws demo
demo_laws = record {
  log = demo_log;
  millis_word = λ w. omega arith;
  millis_log = demo-millis_log;
  lock_log = λ p t w. refl;
  unlock_log = λ p w. refl;
  socket_send_sent =
      λ s xs w k e. let (n, pos, le) = taken_of-sent s w.room xs k e in (pos, le, rw n refl);
  socket_send_none = λ s xs w e. rw (taken_of-none s w.room xs e) (append-nil _);
  socket_send_failures = λ s xs w. refl;
  channel_write_sent =
      λ s xs w k e. let (n, pos, le) = taken_of-sent s w.room xs k e in (pos, le, rw n refl);
  channel_write_none = λ s xs w e. rw (taken_of-none s w.room xs e) (append-nil _);
  channel_read_lem = λ c n w. (refl, omega (arith, length-take n greeting));
  socket_recv_lem = λ c n w. (refl, omega (arith, length-take n greeting));
  channel_write_frame = λ c s xs w. refl;
  socket_recv_frame = λ s n c w. refl;
  channel_eof_log = λ p c w. refl;
}

-- A world at the time 100, where five more bytes are taken.
abbrev pub calm : World
calm = record {
  clock = 100;
  room = 5;
  socket_out = 9 ∷ [];
  channel_out = [];
  socket_in = [];
  channel_in = [];
  deeds = [];
  socket_failed = [];
  polls = [];
}

abbrev pub demo_count : Deed → World → ℕ
demo_count d w = times d w.deeds

unfoldable pub demo_ledger : Ledger demo
demo_ledger = record {
  count = demo_count;
  millis_does = λ w. record { each = λ d. omega arith };
  lock_does = λ t w. record { each = λ d. omega arith };
  unlock_does = λ w. record { each = λ d. omega arith };
  channel_close_does = λ c w. record { each = λ d. omega arith };
  channel_free_does = λ c w. record { each = λ d. omega arith };
  set_nonblocking_does = λ c w. record { each = λ d. omega arith };
  socket_close_does = λ fd w. record { each = λ d. omega arith };
}

-- An endpoint that can be reached: the connection is made while `select` waits.
abbrev pub demo_ends : EndpointApi demo
demo_ends = record {
  socket_open = λ w. (some 7, record w { deeds = opened 7 ∷ w.deeds });
  inet_pton = λ host. some 1;
  get_flags = λ fd w. (some 0, w);
  set_nonblock = λ fd flags w. (true, w);
  connect = λ fd address port w. (in_progress, w);
  select_write = λ fd ms w. (writable, w);
  socket_error = λ fd w. (some 0, w);
  optimize_socket = λ fd w. w;
  free_psram = λ w. 0;
  largest_psram = λ w. 0;
  free_heap = λ w. 100000;
  largest_heap = λ w. 50000;
  alloc_ring = λ n w. (true, true, some (replicate prepend_cap 0), w);
}

unfoldable pub demo_ends_laws : EndpointLaws demo demo_ends demo_ledger
unfolding demo_ledger
demo_ends_laws = record {
  socket_open_some = λ w fd e. rw (sym (some-injective _ _ e)) (record { each = λ d. omega arith });
  socket_open_none = λ w e. cc;
  get_flags_does = λ fd w. record { each = λ d. omega arith };
  set_nonblock_does = λ fd flags w. record { each = λ d. omega arith };
  connect_does = λ fd address port w. record { each = λ d. omega arith };
  select_does = λ fd ms w. record { each = λ d. omega arith };
  socket_error_does = λ fd w. record { each = λ d. omega arith };
  optimize_does = λ fd w. record { each = λ d. omega arith };
  alloc_does = λ n w. record { each = λ d. omega arith };
}

-- A prepend buffer with the bytes 1 and 2 pending, and the storage around them zero.
abbrev pub front : Prepend
front = record { buf = some (1 ∷ 2 ∷ replicate 8190 0); cap = prepend_cap; len = 2; off = 0 }

-- A ring of 64 bytes with these two in front and four behind.
abbrev pub six : DataRing Fifo
six = record {
  handle = some (record { held = 3 ∷ 4 ∷ 5 ∷ 6 ∷ []; free = 60 });
  capacity = 64;
  prepend = front;
}

pub front-IsValid : Front.IsValid front
front-IsValid = record {
  holds = omega (arith, storage);
  len_in = omega arith;
  off_in = omega arith;
  small = omega arith;
}
  where
    storage : length (replicate {A = ℕ} 8190 0) ≡ 8190
    storage = length-replicate {A = ℕ} 8190 0

pub six-IsValid : DataRing.Order.IsValid fifo fifo_laws six
unfolding fifo_laws
six-IsValid = record { front = front-IsValid; fits = (refl, refl); small = omega arith }
