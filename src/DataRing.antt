-- ===== src/DataRing.antt =====
-- DataRingBuffer (src/ring_buffer.h): a FreeRTOS byte ring with the prepend buffer in front of it.
-- Spans are lists of bytes, as in Prepend. Whether an allocation succeeds is an argument of the
-- constructor; freeing the storage has no effect that a later operation can see.
pub mod Order
pub mod Write
pub mod Read
pub mod Size
mod Tests
use esp_reverse_tunneling_li.Prelude.{
  ℕ, zero, suc, ◌+◌, ◌-◌, min, Bool, ◌&&◌, ◌||◌, Option, none, some, List, [], ◌++◌, ltb, leb, ◌==◌,
  if◌then◌else◌, length, take, drop, add32,
}
use esp_reverse_tunneling_li.Prepend
use esp_reverse_tunneling_li.Prepend.{Prepend}
use esp_reverse_tunneling_li.RingApi.{RingApi}

-- SSH_TUNNEL_PREPEND_CAPACITY
abbrev pub prepend_cap : ℕ
prepend_cap = 8192

-- `handle` is null when the construction failed. `capacity` is what was asked for in both cases.
pub record DataRing (Ring : Type 0) : Type 0 where
  pub handle : Option Ring
  pub capacity : ℕ
  pub prepend : Prepend

module _ (api : RingApi) where
  -- The check behind the allocations: without a handle or without prepend storage, all is given up.
  unfoldable pub bind_storage : ℕ → Option api.Ring → Option (List ℕ) → DataRing api.Ring
  bind_storage size none s = record { handle = none; capacity = size; prepend = Prepend.unbound }
  bind_storage size (some r) none = record {
    handle = none;
    capacity = size;
    prepend = Prepend.unbound;
  }
  bind_storage size (some r) (some s) = record {
    handle = some r;
    capacity = size;
    prepend = Prepend.reset Prepend.unbound (some s) prepend_cap;
  }

  -- The arguments after the size are what the allocations give: the ring's storage, its control
  -- block, and the storage of the prepend buffer.
  unfoldable pub construct : ℕ → Bool → Bool → Option (List ℕ) → DataRing api.Ring
  unfolding bind_storage
  construct size storage_ok struct_ok prepend_storage =
      bind_storage size (if storage_ok && struct_ok then api.create size else none) prepend_storage

  -- `while (written < len)`: each round sends what fits. The result is the count that was written.
  unfoldable pub write_loop : ℕ → api.Ring → List ℕ → ℕ → ℕ × api.Ring
  write_loop zero r rest written = (written, r)
  write_loop (suc fuel) r rest written =
      let free = api.free_size r in
      let chunk = min (length rest) free in
      let (ok, r') = api.send r (take chunk rest) in
      let next = write_loop fuel r' (drop chunk rest) (written + chunk) in
      if length rest == 0 || free == 0 then (written, r) else if ok then next else (written, r')

  -- Every round but the last writes a byte, so `length bytes + 1` rounds are enough.
  unfoldable pub write : DataRing api.Ring → List ℕ → ℕ × DataRing api.Ring
  write d bytes = elim d.handle [
    | none ↦ (0, d)
    | some r ↦
        if length bytes == 0
        then (0, d)
        else let (n, r') = write_loop (length bytes + 1) r bytes 0 in
          (n, record d { handle = some r' })
  ]

  unfoldable pub write_to_front : DataRing api.Ring → List ℕ → ℕ × DataRing api.Ring
  write_to_front d bytes =
      let (n, p) = Prepend.write_to_front d.prepend bytes in (n, record d { prepend = p })

  -- The second part of `read`: at most `remaining` bytes from the ring, behind those of `out`.
  unfoldable pub read_ring : DataRing api.Ring → List ℕ → ℕ → List ℕ × DataRing api.Ring
  read_ring d out remaining = elim d.handle [
    | none ↦ (out, d)
    | some r ↦
        let (item, r') = api.receive_up_to r remaining in
        elim item [
          | none ↦ (out, record d { handle = some r' })
          | some bytes ↦ (
            out ++ take (min (length bytes) remaining) bytes,
            record d { handle = some (api.return_item r' bytes) },
          )
        ]
  ]

  -- The bytes that are read, and the new state. First the prepend buffer, then the ring.
  unfoldable pub read : DataRing api.Ring → ℕ → List ℕ × DataRing api.Ring
  unfolding read_ring
  read d len =
      if len == 0
      then ([], d)
      else if Prepend.is_empty d.prepend
      then read_ring d [] len
      else let (first, p) = Prepend.read d.prepend len in
        if leb len (length first)
        then (first, record d { prepend = p })
        else read_ring (record d { prepend = p }) first (len - length first)

  -- `while ((item = receive) != nullptr) return item`
  pub clear_loop : ℕ → api.Ring → ℕ → api.Ring
  clear_loop zero r capacity = r
  clear_loop (suc fuel) r capacity =
      let (item, r') = api.receive_up_to r capacity in
      elim item [ none ↦ r' | some bytes ↦ clear_loop fuel (api.return_item r' bytes) capacity ]

  unfoldable pub ring_used : DataRing api.Ring → ℕ
  ring_used d = elim d.handle [
    | none ↦ 0
    | some r ↦ if ltb d.capacity (api.free_size r) then 0 else d.capacity - api.free_size r
  ]

  unfoldable pub size : DataRing api.Ring → ℕ
  unfolding ring_used
  size d = add32 (Prepend.pending d.prepend) (ring_used d)

  -- Every round takes a byte at least, so `capacity + 1` rounds are enough.
  unfoldable pub clear : DataRing api.Ring → DataRing api.Ring
  clear d = elim d.handle [
    | none ↦ record d { prepend = Prepend.clear d.prepend }
    | some r ↦ record d {
      handle = some (clear_loop (d.capacity + 1) r d.capacity);
      prepend = Prepend.clear d.prepend;
    }
  ]

  unfoldable pub available : DataRing api.Ring → ℕ
  available d = elim d.handle [ none ↦ 0 | some r ↦ api.free_size r ]

  unfoldable pub is_empty : DataRing api.Ring → Bool
  unfolding size
  is_empty d = size d == 0

  unfoldable pub is_full : DataRing api.Ring → Bool
  unfolding available
  is_full d = available d == 0
