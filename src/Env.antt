-- ===== src/Env.antt =====
-- What the program calls outside the repository: the clock, the sockets of lwIP, libssh2, the session
-- mutex and the allocator, as operations on an abstract world. A result code is given by the case that
-- the callers tell apart. Sockets and libssh2 channels are numbers.
use esp_reverse_tunneling_li.Prelude.{
  ℕ, ◌≤◌, ◌<◌, ◌≡◌, refl, ◌⊎◌, inl, inr, Bool, List, [], ◌++◌, length, take, word,
}

-- `libssh2_channel_read`: rc > 0 with the bytes, 0, LIBSSH2_ERROR_EAGAIN, another negative code.
-- `recv` has the same four cases.
pub data ReadResult : Type 0 where
  got : List ℕ → ReadResult
  eof : ReadResult
  again : ReadResult
  failed : ReadResult

-- `send` and `libssh2_channel_write`: the count of bytes taken, try again, another error. A count of 0
-- is what the callers treat as `again` for `send`, and as an error for `libssh2_channel_write`.
pub data WriteResult : Type 0 where
  sent : ℕ → WriteResult
  again : WriteResult
  failed : WriteResult

pub WriteResult-cases :
    (r : WriteResult)
    → ((n : ℕ) × (r ≡ WriteResult.sent n)) ⊎ (r ≡ WriteResult.again) ⊎ (r ≡ WriteResult.failed)
WriteResult-cases (sent n) = inl (n, refl)
WriteResult-cases again = inr (inl refl)
WriteResult-cases failed = inr (inr refl)

pub ReadResult-cases :
    (r : ReadResult)
    → ((xs : List ℕ) × (r ≡ ReadResult.got xs))
      ⊎ (r ≡ ReadResult.eof)
      ⊎ (r ≡ ReadResult.again)
      ⊎ (r ≡ ReadResult.failed)
ReadResult-cases (got xs) = inl (xs, refl)
ReadResult-cases eof = inr (inl refl)
ReadResult-cases again = inr (inr (inl refl))
ReadResult-cases failed = inr (inr (inr refl))

abbrev pub bytes_of : ReadResult → List ℕ
bytes_of (got xs) = xs
bytes_of _ = []

pub record Env : Type 1 where
  pub World : Type 0
  pub millis : World → ℕ × World
  -- `session_->lock(ticks)` with the wait in milliseconds, and `unlock`
  pub lock : ℕ → World → Bool × World
  pub unlock : World → World
  pub channel_read : ℕ → ℕ → World → ReadResult × World
  pub channel_write : ℕ → List ℕ → World → WriteResult × World
  pub channel_eof : ℕ → World → Bool × World
  -- whether the call asks to be tried again
  pub channel_send_eof : ℕ → World → Bool × World
  pub channel_close : ℕ → World → Bool × World
  pub channel_free : ℕ → World → Bool × World
  pub channel_set_nonblocking : ℕ → World → World
  pub socket_send : ℕ → List ℕ → World → WriteResult × World
  pub socket_recv : ℕ → ℕ → World → ReadResult × World
  pub socket_shutdown : ℕ → World → World
  pub socket_close : ℕ → World → World

-- What a send that failed did not take.
abbrev pub failed_bytes : WriteResult → List ℕ → List ℕ
failed_bytes failed xs = xs
failed_bytes _ xs = []

-- A direction of a socket or of a channel, and the sends on a socket that failed.
pub data Port : Type 0 where
  to_socket from_socket to_channel from_channel failed_sends : ℕ → Port

-- What is documented: the clock is a 32-bit counter, a call takes at most the bytes it is given, and one
-- that reads gives at least one byte and at most as many as fit. `log` is the history of a direction:
-- the bytes that calls took or gave, in order, and for `failed_sends` those of the sends that failed. A call that takes or gives nothing, and one on another
-- direction, leaves it.
pub record EnvLaws (env : Env) : Type 0 where
  pub log : Port → env.World → List ℕ
  pub millis_word : (w : env.World) → (env.millis w).0 < word
  pub millis_log : (p : Port) (w : env.World) → log p (env.millis w).1 ≡ log p w
  pub lock_log : (p : Port) (t : ℕ) (w : env.World) → log p (env.lock t w).1 ≡ log p w
  pub unlock_log : (p : Port) (w : env.World) → log p (env.unlock w) ≡ log p w
  pub socket_send_sent :
      (s : ℕ) (xs : List ℕ) (w : env.World) (k : ℕ)
      → (env.socket_send s xs w).0 ≡ WriteResult.sent k
      → (0 < k)
        × (k ≤ length xs)
        × (log (to_socket s) (env.socket_send s xs w).1 ≡ log (to_socket s) w ++ take k xs)
  pub socket_send_none :
      (s : ℕ) (xs : List ℕ) (w : env.World)
      → ((env.socket_send s xs w).0 ≡ WriteResult.again)
        ⊎ ((env.socket_send s xs w).0 ≡ WriteResult.failed)
      → log (to_socket s) (env.socket_send s xs w).1 ≡ log (to_socket s) w
  pub socket_send_failures :
      (s : ℕ) (xs : List ℕ) (w : env.World)
      → let (r, w') = env.socket_send s xs w in
        log (failed_sends s) w' ≡ log (failed_sends s) w ++ failed_bytes r xs
  pub channel_write_sent :
      (c : ℕ) (xs : List ℕ) (w : env.World) (k : ℕ)
      → (env.channel_write c xs w).0 ≡ WriteResult.sent k
      → (0 < k)
        × (k ≤ length xs)
        × (log (to_channel c) (env.channel_write c xs w).1 ≡ log (to_channel c) w ++ take k xs)
  pub channel_write_none :
      (c : ℕ) (xs : List ℕ) (w : env.World)
      → ((env.channel_write c xs w).0 ≡ WriteResult.again)
        ⊎ ((env.channel_write c xs w).0 ≡ WriteResult.failed)
      → log (to_channel c) (env.channel_write c xs w).1 ≡ log (to_channel c) w
  pub channel_read_lem :
      (c n : ℕ) (w : env.World)
      → let (r, w') = env.channel_read c n w in
        (log (from_channel c) w' ≡ log (from_channel c) w ++ bytes_of r) × (length (bytes_of r) ≤ n)
  pub socket_recv_lem :
      (s n : ℕ) (w : env.World)
      → let (r, w') = env.socket_recv s n w in
        (log (from_socket s) w' ≡ log (from_socket s) w ++ bytes_of r) × (length (bytes_of r) ≤ n)
  pub channel_write_frame :
      (c s : ℕ) (xs : List ℕ) (w : env.World)
      → log (from_socket s) (env.channel_write c xs w).1 ≡ log (from_socket s) w
  pub socket_recv_frame :
      (s n c : ℕ) (w : env.World)
      → log (to_channel c) (env.socket_recv s n w).1 ≡ log (to_channel c) w
  pub channel_eof_log : (p : Port) (c : ℕ) (w : env.World) → log p (env.channel_eof c w).1 ≡ log p w
