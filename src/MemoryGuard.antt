-- ===== src/MemoryGuard.antt =====
-- channel_memory_guard (src/channel_memory_guard.h), on 32-bit `size_t`.
mod Tests
use esp_reverse_tunneling_li.Prelude.{
  ℕ, ◌+◌, ◌*◌, ◌≤◌, ◌<◌, ◌≡◌, ◌↔◌, Bool, true, ◌&&◌, arith, ltb, leb, if◌then◌else◌, word, add32,
  mul32,
}

pub record Requirements : Type 0 where
  pub total_bytes : ℕ
  pub largest_block_bytes : ℕ

unfoldable pub requirements : ℕ → ℕ → ℕ → Requirements
requirements ring_bytes prepend_bytes reserve_bytes = record {
  total_bytes = add32 (add32 (mul32 ring_bytes 2) (mul32 prepend_bytes 2)) reserve_bytes;
  largest_block_bytes = if ltb prepend_bytes ring_bytes then ring_bytes else prepend_bytes;
}

unfoldable pub has_capacity : ℕ → ℕ → Requirements → Bool
has_capacity total_free largest_free required =
    leb required.total_bytes total_free && leb required.largest_block_bytes largest_free

unfoldable pub has_contiguous_capacity : ℕ → Requirements → Bool
has_contiguous_capacity largest_free required = leb required.total_bytes largest_free

-- When the sum does not wrap, the contiguous test grants no less than the plain one: a block that
-- holds the whole budget holds each of the four allocations and the reserve together.
pub contiguous_is_stronger :
    (ring prepend reserve free largest : ℕ)
    → 2 * ring + 2 * prepend + reserve < word
    → largest ≤ free
    → has_contiguous_capacity largest (requirements ring prepend reserve) ≡ true
    → (has_capacity free largest (requirements ring prepend reserve) ≡ true)
      × (2 * ring + 2 * prepend + reserve ≤ largest)
unfolding has_contiguous_capacity has_capacity requirements
contiguous_is_stronger ring prepend reserve free largest h l t = ground arith

-- When the sum does not wrap, the plain test passes exactly when the budget of both rings, both prepend
-- buffers and the reserve is free in total, and one ring and one prepend buffer each fit in one block.
pub has_capacity_iff :
    (ring prepend reserve free largest : ℕ)
    → 2 * ring + 2 * prepend + reserve < word
    → (has_capacity free largest (requirements ring prepend reserve) ≡ true)
      ↔ ((2 * ring + 2 * prepend + reserve ≤ free) × (ring ≤ largest) × (prepend ≤ largest))
unfolding has_capacity requirements
has_capacity_iff ring prepend reserve free largest h = (λ t. ground arith, λ t. ground arith)
