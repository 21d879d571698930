-- ===== src/RingApi.antt =====
-- The FreeRTOS byte ring buffer (RINGBUF_TYPE_BYTEBUF), which src/ring_buffer.h wraps and which is
-- not part of the repository: its operations as a parameter, and what its documentation says of them.
use esp_reverse_tunneling_li.Prelude.{
  ℕ, ◌+◌, ◌≤◌, ◌<◌, ◌≡◌, Bool, true, List, [], ◌++◌, Option, none, some, length,
}

pub record RingApi : Type 1 where
  pub Ring : Type 0
  -- `xRingbufferCreateStatic` with storage of so many bytes
  pub create : ℕ → Option Ring
  -- `xRingbufferGetCurFreeSize`
  pub free_size : Ring → ℕ
  -- `xRingbufferSend` with no wait: the status, and the ring afterwards
  pub send : Ring → List ℕ → Bool × Ring
  -- `xRingbufferReceiveUpTo` with no wait: the item, or null
  pub receive_up_to : Ring → ℕ → Option (List ℕ) × Ring
  -- `vRingbufferReturnItem`
  pub return_item : Ring → List ℕ → Ring

-- The documented behaviour: a byte FIFO of a fixed size. An item is a contiguous block, so it may be
-- shorter than what was asked for although more bytes are there.
pub record RingLaws (api : RingApi) : Type 1 where
  pub bytes : api.Ring → List ℕ
  pub size : api.Ring → ℕ
  pub create_lem : (n : ℕ) (r : api.Ring) → api.create n ≡ some r → (bytes r ≡ []) × (size r ≡ n)
  pub free_size_lem : (r : api.Ring) → api.free_size r + length (bytes r) ≡ size r
  pub send_lem :
      (r : api.Ring) (xs : List ℕ)
      → 0 < length xs
      → length xs ≤ api.free_size r
      → ((api.send r xs).0 ≡ true)
        × (bytes (api.send r xs).1 ≡ bytes r ++ xs)
        × (size (api.send r xs).1 ≡ size r)
  pub receive_none :
      (r : api.Ring) (n : ℕ)
      → (api.receive_up_to r n).0 ≡ none
      → 0 < n
      → (bytes r ≡ []) × ((api.receive_up_to r n).1 ≡ r)
  pub receive_some :
      (r : api.Ring) (n : ℕ) (item : List ℕ)
      → (api.receive_up_to r n).0 ≡ some item
      → let r' = api.return_item (api.receive_up_to r n).1 item in
        (item ++ bytes r' ≡ bytes r) × (0 < length item) × (length item ≤ n) × (size r' ≡ size r)
